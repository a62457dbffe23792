-- ===== src/Ctl/Hints.antt =====
-- The hints of a leader, as cmd/mimorictl/client.go and client/client.go make them dialable.
use mimori.Client.{has_prefix, trim_space}
use mimori.Client.Address.{base_host, cut_colon, dialable, normalize_leader_addr, uses_base_host}
use mimori.Ctl.{ctl_dialable, ctl_normalize_leader_addr}
use mimori.Prelude.{
  Bool-cases, Option-cases, [], arith, false, if◌then◌else◌, inl, inr, refl, some, subst, sym, true,
  ℕ, ◌++◌, ◌∙◌, ◌∷◌, ◌≡◌,
}
use mimori.Raft.State.{Bytes}
use mimori.Store.Laws.{bytes_eq}
use mimori.Utils.{codes, cut_first, has_byte}
use mimori.Utils.RoundTrip.{cut_first-append}

cut_colon-eq : (s : Bytes) → cut_colon s ≡ cut_first b':' s
unfolding cut_first
cut_colon-eq [] = refl
cut_colon-eq (c ∷ s) = rw (cut_colon-eq s) refl

-- What stands before the first colon is a prefix.
has_prefix-cut_first :
    (b : ℕ) (s before behind prefix : Bytes)
    → cut_first b s ≡ some (before, behind)
    → has_prefix before prefix ≡ true
    → has_prefix s prefix ≡ true
unfolding cut_first
has_prefix-cut_first b s before behind [] h p = ground arith
has_prefix-cut_first b [] before behind (q ∷ qs) h p = cc
has_prefix-cut_first b (c ∷ s) before behind (q ∷ qs) h p = elim (Option-cases (cut_first b s)) [
  | inl absent ↦ ground arith
  | inr (parts, got) ↦ ground (arith, has_prefix-cut_first b s parts.0 parts.1 qs got)
]

ctl_dialable-eq :
    (host leader_id : Bytes)
    → has_prefix leader_id (codes "mimori-node") ≡ false
    → ctl_dialable host leader_id ≡ dialable host leader_id
unfolding ctl_dialable dialable
ctl_dialable-eq host leader_id other = elim (Option-cases (cut_first b':' leader_id)) [
  | inl absent ↦ rw (ctl_dialable, dialable, cut_colon-eq leader_id, absent) refl
  | inr (parts, got) ↦ elim (Bool-cases (has_prefix parts.0 (codes "mimori-node"))) [
    | inl docker ↦ absurd (
        ground (
          arith,
          has_prefix-cut_first b':' leader_id parts.0 parts.1 (codes "mimori-node") got docker,
        ))
    | inr plain_host ↦ rw (ctl_dialable, dialable, cut_colon-eq leader_id, got, plain_host) refl
  ]
]

-- For a leader whose name, without the blanks around it, does not start with "mimori-node", the command
-- line tool dials the address that the client library dials.
pub ctl_normalize_leader_addr-eq :
    (base_addr leader_id : Bytes)
    → has_prefix (trim_space leader_id) (codes "mimori-node") ≡ false
    → ctl_normalize_leader_addr base_addr leader_id ≡ normalize_leader_addr base_addr leader_id
unfolding ctl_normalize_leader_addr normalize_leader_addr
ctl_normalize_leader_addr-eq base_addr leader_id other =
    rw
      (
        ctl_normalize_leader_addr,
        normalize_leader_addr,
        ctl_dialable-eq (base_host base_addr) (trim_space leader_id) other,
      )
      refl

dialable-loopback :
    (base : Bytes) (c : ℕ) (host port : Bytes)
    → uses_base_host base ≡ true
    → has_byte b':' (c ∷ host) ≡ false
    → bytes_eq port [] ≡ false
    → dialable base (c ∷ host ++ b':' ∷ port) ≡ base ++ b':' ∷ port
unfolding dialable has_byte
dialable-loopback base c host port is_local no_colon has_port =
    rw
      (
        dialable,
        cut_colon-eq (c ∷ host ++ b':' ∷ port),
        cut_first-append b':' (c ∷ host) port no_colon,
        has_port,
        is_local,
      )
      (ground (arith, no_colon))

-- Behind a loopback address the client library dials the port of the leader's name, whatever its host.
normalize_leader_addr-loopback :
    (base_addr host port : Bytes)
    → uses_base_host (base_host base_addr) ≡ true
    → has_byte b':' host ≡ false
    → bytes_eq host [] ≡ false
    → bytes_eq port [] ≡ false
    → trim_space (host ++ b':' ∷ port) ≡ host ++ b':' ∷ port
    → normalize_leader_addr base_addr (host ++ b':' ∷ port) ≡ base_host base_addr ++ b':' ∷ port
unfolding normalize_leader_addr has_byte
normalize_leader_addr-loopback base_addr [] port is_local no_colon named has_port clean = cc
normalize_leader_addr-loopback base_addr (c ∷ host) port is_local no_colon named has_port clean =
    subst
      (λ s.
        (if bytes_eq s [] then [] else dialable (base_host base_addr) s)
        ≡ base_host base_addr ++ b':' ∷ port)
      (sym clean) (dialable-loopback (base_host base_addr) c host port is_local no_colon has_port)

-- Behind a loopback address the client library dials the same address for the names of any two leaders
-- that have one port, such as the names of two nodes of Docker Compose.
pub normalize_leader_addr-same_port :
    (base_addr host other port : Bytes)
    → uses_base_host (base_host base_addr) ≡ true
    → (has_byte b':' host ≡ false) × (has_byte b':' other ≡ false)
    → (bytes_eq host [] ≡ false) × (bytes_eq other [] ≡ false)
    → bytes_eq port [] ≡ false
    → (trim_space (host ++ b':' ∷ port) ≡ host ++ b':' ∷ port)
      × (trim_space (other ++ b':' ∷ port) ≡ other ++ b':' ∷ port)
    → normalize_leader_addr base_addr (host ++ b':' ∷ port)
      ≡ normalize_leader_addr base_addr (other ++ b':' ∷ port)
normalize_leader_addr-same_port base_addr host other port is_local no_colon named has_port clean =
    normalize_leader_addr-loopback base_addr host port is_local no_colon.0 named.0 has_port clean.0
    ∙ sym (
        normalize_leader_addr-loopback base_addr other port is_local no_colon.1 named.1 has_port
          clean.1)
