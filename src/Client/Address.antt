-- ===== src/Client/Address.antt =====
-- client/client.go: `normalizeLeaderAddr`.
use mimori.Client.{has_prefix, trim_space}
use mimori.Prelude.{
  Bool, Option, [], if◌then◌else◌, none, not, some, ℕ, ◌&&◌, ◌++◌, ◌==◌, ◌||◌, ◌∷◌,
}
use mimori.Raft.State.{Bytes}
use mimori.Store.Laws.{bytes_eq}

abbrev pub colon : ℕ
colon = 58

-- `strings.Cut(s, ":")`: what stands before the first colon and behind it, or `none` without one.
abbrev pub cut_colon : Bytes → Option (Bytes × Bytes)
cut_colon [] = none
cut_colon (x ∷ xs) =
    let rest = cut_colon xs in
    if x == colon
    then some ([], xs)
    else (elim rest [ none ↦ none | some (before, behind) ↦ some (x ∷ before, behind) ])

-- "localhost"
abbrev pub localhost : Bytes
localhost = 108 ∷ 111 ∷ 99 ∷ 97 ∷ 108 ∷ 104 ∷ 111 ∷ 115 ∷ 116 ∷ []

-- "127."
abbrev pub loopback : Bytes
loopback = 49 ∷ 50 ∷ 55 ∷ 46 ∷ []

-- `baseHost`, which is empty where the base address has no colon.
unfoldable pub base_host : Bytes → Bytes
base_host base_addr = elim (cut_colon base_addr) [ none ↦ [] | some (host, _) ↦ host ]

-- `useBaseHost && baseHost != ""`
unfoldable pub uses_base_host : Bytes → Bool
uses_base_host host =
    (bytes_eq host [] || bytes_eq host localhost || has_prefix host loopback)
    && not (bytes_eq host [])

-- The branches of `normalizeLeaderAddr` behind the test for an empty identifier.
unfoldable pub dialable : (host leader_id : Bytes) → Bytes
unfolding uses_base_host
dialable host leader_id =
    if has_prefix leader_id (colon ∷ [])
    then (if uses_base_host host then host ++ leader_id else leader_id)
    else (elim (cut_colon leader_id) [
      | none ↦ if uses_base_host host then host ++ colon ∷ leader_id else colon ∷ leader_id
      | some (_, port) ↦
          if bytes_eq port []
          then (if uses_base_host host then host else leader_id)
          else (if uses_base_host host then host ++ colon ∷ port else leader_id)
    ])

-- `normalizeLeaderAddr`.  Its last test, for an empty host of the leader, is never met, since such an
-- identifier starts with a colon.
unfoldable pub normalize_leader_addr : (base_addr leader_id : Bytes) → Bytes
unfolding base_host dialable
normalize_leader_addr base_addr leader_id =
    let trimmed = trim_space leader_id in
    if bytes_eq trimmed [] then [] else dialable (base_host base_addr) trimmed
