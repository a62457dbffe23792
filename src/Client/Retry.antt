-- ===== src/Client/Retry.antt =====
-- client/client.go: `executeWithRetry`, with the discovery of the leader.
pub mod Outcome
use mimori.Api.{message}
use mimori.Client.{after_first, extract_leader_hint, leader_eq}
use mimori.Client.Address.{normalize_leader_addr}
use mimori.Prelude.{
  Bool, List, Option, [], false, get_elem?, if◌then◌else◌, leb, none, not, some, suc, true, zero, ℕ,
  ◌&&◌, ◌+◌, ◌||◌, ◌∷◌,
}
use mimori.Raft.State.{Bytes}
use mimori.Store.Laws.{bytes_eq}

-- The error of a call: a gRPC status with a code and a message, or another error.
pub data CallError : Type 0 where
  status_error : (is_failed_precondition : Bool) (message : Bytes) → CallError
  other_error : CallError

-- What the network answers in an attempt: whether an address says that it leads, which leader a seed names,
-- and the error of the operation at an address.
pub record Network : Type 0 where
  pub verify_leader : (attempt : ℕ) → Bytes → Bool
  pub find_leader_from_node : (attempt : ℕ) → Bytes → Option Bytes
  pub call : (attempt : ℕ) → Bytes → Option CallError

-- `strings.ToLower` on ASCII.
abbrev pub lower_case : Bytes → Bytes
lower_case [] = []
lower_case (c ∷ cs) = (if leb 65 c && leb c 90 then c + 32 else c) ∷ lower_case cs

-- `strings.Contains`
abbrev pub contains : (s sub : Bytes) → Bool
contains s sub = elim (after_first sub s) [ none ↦ false | some _ ↦ true ]

-- "not leader"
abbrev pub not_leader_text : Bytes
not_leader_text = 110 ∷ 111 ∷ 116 ∷ 32 ∷ 108 ∷ 101 ∷ 97 ∷ 100 ∷ 101 ∷ 114 ∷ []

-- `isLeaderError`
unfoldable pub is_leader_error : CallError → Bool
is_leader_error other_error = false
is_leader_error (status_error is_failed_precondition message) =
    is_failed_precondition
    && (contains (lower_case message) not_leader_text || contains (lower_case message) leader_eq)

-- `extractLeaderHint`, which is empty-handed for an error that is no status.
unfoldable pub hint_of : CallError → Option Bytes
unfolding extract_leader_hint
hint_of other_error = none
hint_of (status_error _ message) = extract_leader_hint message

-- `discoverLeader`: the first seed that names a leader.
unfoldable pub discover_leader : Network → (attempt : ℕ) → List Bytes → Option Bytes
discover_leader net attempt [] = none
discover_leader net attempt (seed ∷ seeds) =
    let rest = discover_leader net attempt seeds in
    elim (net.find_leader_from_node attempt seed) [
      | none ↦ rest
      | some named ↦ if bytes_eq named [] then rest else some named
    ]

-- `getLeader`: the cached leader if it still says that it leads, else the discovered one.
unfoldable pub get_leader :
    Network → (attempt : ℕ) → (seeds : List Bytes) (leader_addr : Bytes) → Option Bytes
unfolding discover_leader
get_leader net attempt seeds leader_addr =
    if not (bytes_eq leader_addr []) && net.verify_leader attempt leader_addr
    then some leader_addr
    else discover_leader net attempt seeds

-- The address of an attempt: the leader, or the seed of the attempt's number while there is one.
unfoldable pub address_for :
    Network → (attempt : ℕ) → (seeds : List Bytes) (leader_addr : Bytes) → Option Bytes
unfolding get_leader
address_for net attempt seeds leader_addr = elim (get_leader net attempt seeds leader_addr) [
  | some known ↦ some known
  | none ↦ get_elem? seeds attempt
]

-- The cached leader after `getLeader`: empty where it found none.
unfoldable pub cached_after : Option Bytes → Bytes
cached_after none = []
cached_after (some known) = known

-- The cached leader after a failed call: the hint, the empty address where a leader error has none, and
-- as it was after another error.
unfoldable pub cached_after_error : (seeds : List Bytes) (addr cached : Bytes) → CallError → Bytes
unfolding is_leader_error hint_of normalize_leader_addr
cached_after_error seeds addr cached e =
    if is_leader_error e
    then (elim (hint_of e) [
      | none ↦ []
      | some hint ↦ normalize_leader_addr (elim seeds [ [] ↦ addr | seed ∷ _ ↦ seed ]) hint
    ])
    else cached

-- The calls of an execution are the attempts that reached an address, with their numbers.
pub record Execution : Type 0 where
  pub succeeded : Bool
  pub called : List (ℕ × Bytes)
  pub leader_addr : Bytes

-- The loop of `executeWithRetry`: `left` attempts from number `attempt` on.  The pauses are left out.
unfoldable pub execute_from :
    (left attempt : ℕ) → Network → (seeds : List Bytes) (leader_addr : Bytes) → Execution
execute_from zero attempt net seeds leader_addr = record {
  succeeded = false;
  called = [];
  leader_addr = leader_addr;
}
execute_from (suc left) attempt net seeds leader_addr =
    let cached = cached_after (get_leader net attempt seeds leader_addr) in
    elim (address_for net attempt seeds leader_addr) [
      | none ↦ execute_from left (suc attempt) net seeds cached
      | some addr ↦ (elim (net.call attempt addr) [
        | none ↦ record { succeeded = true; called = (attempt, addr) ∷ []; leader_addr = cached }
        | some e ↦
            let rest =
              execute_from left (suc attempt) net seeds (cached_after_error seeds addr cached e) in
            record rest { called = (attempt, addr) ∷ rest.called }
      ])
    ]

-- `executeWithRetry`
unfoldable pub execute_with_retry :
    (max_retries : ℕ) → Network → (seeds : List Bytes) (leader_addr : Bytes) → Execution
unfolding execute_from
execute_with_retry max_retries net seeds leader_addr =
    execute_from max_retries 0 net seeds leader_addr
