-- ===== src/Ctl.antt =====
-- cmd/mimorictl: the command line tool.  Its client manager (client.go) has its own copy of the code of
-- client/client.go; what is the same there is taken from Client/Retry.
pub mod Hints
pub mod Discovery
pub mod Commands
pub mod Leaks
pub mod Same
pub mod Manager
use mimori.Client.{has_prefix, trim_space}
use mimori.Client.Address.{base_host, uses_base_host}
use mimori.Prelude.{List, [], if◌then◌else◌, keep, map, none, not, some, ℕ, ◌++◌, ◌==◌, ◌∷◌}
use mimori.Raft.State.{Bytes}
use mimori.Store.Laws.{bytes_eq}
use mimori.Utils.{add_one, atoi, codes, cut_first, join_host_port, negsuc, pos}
use mimori.Utils.Splits.{split_on}

-- `splitAddrList`
unfoldable pub split_addr_list : Bytes → List Bytes
unfolding split_on
split_addr_list addr_list =
    keep (λ p. not (bytes_eq p [])) (map (λ p. trim_space p) (split_on b',' addr_list))

-- The addresses of `newClientManager`.
unfoldable pub initial_addrs : (initial_addr : Bytes) → List Bytes
unfolding split_addr_list
initial_addrs initial_addr = elim (split_addr_list initial_addr) [
  | [] ↦ initial_addr ∷ []
  | a ∷ rest ↦ a ∷ rest
]

-- The seed of `getClientManager`, and of `seedAddrs`: the environment goes before the flag.
unfoldable pub chosen_seed : (getenv : Bytes → Bytes) (flag : Bytes) → Bytes
chosen_seed getenv flag =
    let addrs = getenv (codes "MIMORI_ADDRS") in
    let seeds = getenv (codes "MIMORI_SEEDS") in
    let seed = if bytes_eq addrs [] then flag else addrs in
    if bytes_eq seeds [] then seed else seeds

-- `seedAddrs`; its last branch is for a text of commas and blanks.
unfoldable pub seed_addrs : (getenv : Bytes → Bytes) (flag : Bytes) → List Bytes
unfolding chosen_seed split_addr_list
seed_addrs getenv flag =
    let raw = chosen_seed getenv flag in
    elim (split_addr_list raw) [
      | [] ↦ if bytes_eq (trim_space raw) [] then [] else trim_space raw ∷ []
      | a ∷ rest ↦ a ∷ rest
    ]

-- `getHTTPAddr`
unfoldable pub ctl_http_addr : Bytes → Bytes
unfolding cut_first atoi add_one join_host_port
ctl_http_addr grpc_addr = elim (cut_first b':' grpc_addr) [
  | none ↦ grpc_addr
  | some (host, port_str) ↦ elim (atoi port_str) [
    | none ↦ grpc_addr
    | some port ↦ join_host_port host (add_one port)
  ]
]

-- The `switch` over the host names of Docker Compose.
unfoldable pub external_port : (leader_host : Bytes) → ℕ
external_port leader_host =
    if bytes_eq leader_host (codes "mimori-node1")
    then 4000
    else (if bytes_eq leader_host (codes "mimori-node2")
        then 4002
        else (if bytes_eq leader_host (codes "mimori-node3") then 4004 else 4000))

-- The branch of `normalizeLeaderAddr` for a host name of Docker Compose.
unfoldable pub docker_addr : (base leader_host port : Bytes) → Bytes
unfolding atoi join_host_port external_port
docker_addr base leader_host port = elim (atoi port) [
  | none ↦ base ++ b':' ∷ port
  | some (negsuc n) ↦ base ++ b':' ∷ port
  | some (pos n) ↦
      if n == 4000
      then join_host_port base (pos (external_port leader_host))
      else base ++ b':' ∷ port
]

-- The branches of `normalizeLeaderAddr` behind the test for an empty identifier.
unfoldable pub ctl_dialable : (host leader_id : Bytes) → Bytes
unfolding uses_base_host cut_first docker_addr
ctl_dialable host leader_id =
    if has_prefix leader_id (b':' ∷ [])
    then (if uses_base_host host then host ++ leader_id else leader_id)
    else (elim (cut_first b':' leader_id) [
      | none ↦ if uses_base_host host then host ++ b':' ∷ leader_id else b':' ∷ leader_id
      | some (leader_host, port) ↦
          if bytes_eq port []
          then (if uses_base_host host then host else leader_id)
          else (if uses_base_host host
              then (if has_prefix leader_host (codes "mimori-node")
                  then docker_addr host leader_host port
                  else host ++ b':' ∷ port)
              else leader_id)
    ])

-- `normalizeLeaderAddr`.  Its last test, for an empty host of the leader, is never met, since such an
-- identifier starts with a colon.
unfoldable pub ctl_normalize_leader_addr : (base_addr leader_id : Bytes) → Bytes
unfolding base_host ctl_dialable
ctl_normalize_leader_addr base_addr leader_id =
    let trimmed = trim_space leader_id in
    if bytes_eq trimmed [] then [] else ctl_dialable (base_host base_addr) trimmed
