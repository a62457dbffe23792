-- ===== src/Ctl/Manager.antt =====
-- The client manager of cmd/mimorictl/client.go, and the calls of cmd/mimorictl/main.go.
use mimori.Client.Retry.{
  CallError, Execution, Network, cached_after, discover_leader, hint_of, is_leader_error,
  other_error,
}
use mimori.Ctl.{ctl_normalize_leader_addr}
use mimori.Prelude.{
  Bool, List, Option, [], false, get_elem?, if◌then◌else◌, map, none, not, some, suc, true, zero, ℕ,
  ◌&&◌, ◌++◌, ◌+◌, ◌∷◌,
}
use mimori.Raft.Members.{ChangeAnswer, change_made, failed_with}
use mimori.Raft.Pool.{ConnState, is_usable}
use mimori.Raft.State.{Bytes}
use mimori.Store.Laws.{bytes_eq}

-- The cached connections, by address and number, the numbers that `Close` was called on, and how many
-- were dialed; client/client.go keeps its connections in the same way.
pub record Conns : Type 0 where
  pub conns : List (Bytes × ℕ)
  pub closed : List ℕ
  pub dialed : ℕ

unfoldable pub find_conn : Bytes → List (Bytes × ℕ) → Option ℕ
find_conn addr [] = none
find_conn addr ((a, n) ∷ conns) = if bytes_eq a addr then some n else find_conn addr conns

unfoldable pub drop_conn : Bytes → List (Bytes × ℕ) → List (Bytes × ℕ)
drop_conn addr [] = []
drop_conn addr ((a, n) ∷ conns) =
    let rest = drop_conn addr conns in if bytes_eq a addr then rest else (a, n) ∷ rest

unfoldable pub dial_conn : (dial_succeeds : Bool) → Bytes → Conns → Conns × Option ℕ
dial_conn dial_succeeds addr c =
    if dial_succeeds
    then (record c { conns = (addr, c.dialed) ∷ c.conns; dialed = c.dialed + 1 }, some c.dialed)
    else (c, none)

-- `getConnection`, of the manager and of the client.  The second look at the map, between the two locks,
-- finds what another call has put there meanwhile and is left out.
unfoldable pub get_conn :
    (state_of : ℕ → ConnState) (dial_succeeds : Bool) → Bytes → Conns → Conns × Option ℕ
unfolding find_conn drop_conn dial_conn is_usable
get_conn state_of dial_succeeds addr c = elim (find_conn addr c.conns) [
  | none ↦ dial_conn dial_succeeds addr c
  | some n ↦
      if is_usable (state_of n)
      then (c, some n)
      else dial_conn dial_succeeds addr (record c { conns = drop_conn addr c.conns })
]

-- The connections of `newClientManager`.
abbrev pub no_conns : Conns
no_conns = record { conns = []; closed = []; dialed = 0 }

-- `close`, of the manager, and `Close`, of the client.
unfoldable pub close_conns : Conns → Conns
close_conns c = record c { conns = []; closed = map (λ p. p.1) c.conns ++ c.closed }

-- The addresses that `discoverLeader` tries: the initial ones, and those of the cached connections in the
-- order in which the map yields them.
unfoldable pub addrs_to_try : (initial : List Bytes) → Conns → List Bytes
addrs_to_try initial c = initial ++ map (λ p. p.0) c.conns

-- `discoverLeader`: the leader, and the cached leader after it.
unfoldable pub ctl_discover_leader :
    Network → (attempt : ℕ) → (initial : List Bytes) → Conns → (leader_addr : Bytes) → Option Bytes
unfolding addrs_to_try discover_leader
ctl_discover_leader net attempt initial c leader_addr =
    if not (bytes_eq leader_addr []) && net.verify_leader attempt leader_addr
    then some leader_addr
    else discover_leader net attempt (addrs_to_try initial c)

-- `getLeader`: the cached leader is asked first, and forgotten if it does not lead.
unfoldable pub ctl_get_leader :
    Network → (attempt : ℕ) → (initial : List Bytes) → Conns → (leader_addr : Bytes) → Option Bytes
unfolding ctl_discover_leader
ctl_get_leader net attempt initial c leader_addr =
    if not (bytes_eq leader_addr []) && net.verify_leader attempt leader_addr
    then some leader_addr
    else ctl_discover_leader net attempt initial c []

-- The cached leader after a failed call: as in the client library, over the tool's `normalizeLeaderAddr`.
unfoldable pub ctl_cached_after_error :
    (initial : List Bytes) (addr cached : Bytes) → CallError → Bytes
unfolding is_leader_error hint_of ctl_normalize_leader_addr
ctl_cached_after_error initial addr cached e =
    if is_leader_error e
    then (elim (hint_of e) [
      | none ↦ []
      | some hint ↦ ctl_normalize_leader_addr (elim initial [ [] ↦ addr | a ∷ _ ↦ a ]) hint
    ])
    else cached

-- The address of an attempt.
unfoldable pub ctl_address_for :
    (attempt : ℕ) → (initial : List Bytes) → (known : Option Bytes) → Option Bytes
ctl_address_for attempt initial (some addr) = some addr
ctl_address_for attempt initial none = get_elem? initial attempt

-- What the connections meet: the state that gRPC reports for one in an attempt, and whether an address can be
-- dialed.
pub record Dialer : Type 0 where
  pub state_of : (attempt : ℕ) → ℕ → ConnState
  pub dials : (attempt : ℕ) → Bytes → Bool

-- The error of a call on a connection, or of the call that gets none.
abbrev pub error_on : Network → (attempt : ℕ) → Bytes → (conn : Option ℕ) → Option CallError
error_on net attempt addr none = some other_error
error_on net attempt addr (some n) = net.call attempt addr

-- The loop of `executeWithRetry`.  Each attempt finds the connections that the attempts before it left.
unfoldable pub ctl_execute_from :
    (left attempt : ℕ)
    → Network
    → Dialer
    → (initial : List Bytes) → Conns
    → (leader_addr : Bytes) → Execution
unfolding ctl_get_leader ctl_cached_after_error ctl_address_for get_conn
ctl_execute_from zero attempt net dialer initial c leader_addr = record {
  succeeded = false;
  called = [];
  leader_addr = leader_addr;
}
ctl_execute_from (suc left) attempt net dialer initial c leader_addr =
    let known = ctl_get_leader net attempt initial c leader_addr in
    elim (ctl_address_for attempt initial known) [
      | none ↦ ctl_execute_from left (suc attempt) net dialer initial c (cached_after known)
      | some addr ↦
          let conn = get_conn (dialer.state_of attempt) (dialer.dials attempt addr) addr c in
          elim (error_on net attempt addr conn.1) [
            | none ↦ record {
              succeeded = true;
              called = (attempt, addr) ∷ [];
              leader_addr = cached_after known;
            }
            | some e ↦
                let rest =
                  ctl_execute_from left (suc attempt) net dialer initial conn.0
                    (ctl_cached_after_error initial addr (cached_after known) e) in
                record rest { called = (attempt, addr) ∷ rest.called }
          ]
    ]

-- `executeWithRetry`
unfoldable pub ctl_execute_with_retry :
    (max_retries : ℕ)
    → Network
    → Dialer
    → (initial : List Bytes) → Conns
    → (leader_addr : Bytes) → Execution
unfolding ctl_execute_from
ctl_execute_with_retry max_retries net dialer initial c leader_addr =
    ctl_execute_from max_retries 0 net dialer initial c leader_addr

-- The error of `doAddNode`, `doRemoveNode` and `doTransferLeadership` for an answer of the node: the text
-- of the answer is no gRPC status.
unfoldable pub change_call_error : ChangeAnswer → Option CallError
change_call_error change_made = none
change_call_error (failed_with e) = some other_error
