-- ===== src/Client/Discovery.antt =====
-- client/client.go: where the client asks for the leader, `getHTTPAddr`, `findLeaderFromNode` and
-- `verifyLeader`, and its options.
pub mod Asked
use mimori.Client.Address.{normalize_leader_addr}
use mimori.Client.Retry.{CallError, Network}
use mimori.Prelude.{
  Bool, List, Option, [], false, if◌then◌else◌, none, some, suc, zero, ℕ, ◌++◌, ◌==◌, ◌∷◌,
}
use mimori.Raft.State.{Bytes}
use mimori.Store.Laws.{bytes_eq}
use mimori.Utils.{add_one, atoi, codes, join_host_port}
use mimori.Utils.Splits.{split_on}

-- The answer to a GET of /raft/status: the status code, and what the JSON of the body holds, or `none` for
-- a body that does not decode.
pub record StatusAnswer : Type 0 where
  pub code : ℕ
  pub body : Option (Bytes × Bytes)

-- `getHTTPAddr`
unfoldable pub get_http_addr : Bytes → Bytes
unfolding split_on atoi add_one join_host_port
get_http_addr grpc_addr = elim (split_on b':' grpc_addr) [
  | [] ↦ grpc_addr
  | host ∷ [] ↦ grpc_addr
  | host ∷ port_str ∷ [] ↦ elim (atoi port_str) [
    | none ↦ grpc_addr
    | some port ↦ join_host_port host (add_one port)
  ]
  | host ∷ port_str ∷ more ∷ parts ↦ grpc_addr
]

unfoldable pub status_url : Bytes → Bytes
unfolding get_http_addr
status_url addr = codes "http://" ++ get_http_addr addr ++ codes "/raft/status"

-- The state and the leader that a status tells, or `none` where the request fails.
abbrev pub told_by : Option StatusAnswer → Option (Bytes × Bytes)
told_by none = none
told_by (some answer) = if answer.code == 200 then answer.body else none

module _ (fetch : (url : Bytes) → Option StatusAnswer) where
  -- `findLeaderFromNode`
  unfoldable pub find_leader_from_node : Bytes → Option Bytes
  unfolding status_url normalize_leader_addr
  find_leader_from_node addr = elim (told_by (fetch (status_url addr))) [
    | none ↦ none
    | some (state, leader_id) ↦
        if bytes_eq state (codes "leader")
        then some addr
        else (if bytes_eq leader_id [] then none else some (normalize_leader_addr addr leader_id))
  ]

  -- `verifyLeader`
  unfoldable pub verify_leader : Bytes → Bool
  unfolding status_url
  verify_leader addr = elim (told_by (fetch (status_url addr))) [
    | none ↦ false
    | some (state, _) ↦ bytes_eq state (codes "leader")
  ]

-- What the network answers in an attempt, from the answers to status requests and calls.
unfoldable pub network_of :
    (fetch : (attempt : ℕ) → (url : Bytes) → Option StatusAnswer)
    → (call : (attempt : ℕ) → Bytes → Option CallError) → Network
unfolding verify_leader find_leader_from_node
network_of fetch call = record {
  verify_leader = λ attempt addr. verify_leader (fetch attempt) addr;
  find_leader_from_node = λ attempt addr. find_leader_from_node (fetch attempt) addr;
  call = call;
}

-- `Config`, and the fields that `NewWithConfig` takes from it; times are milliseconds.
pub record Config : Type 0 where
  pub seeds : List Bytes
  pub conn_timeout : ℕ
  pub req_timeout : ℕ
  pub max_retries : ℕ

abbrev pub or_default : ℕ → ℕ → ℕ
or_default zero def = def
or_default (suc n) def = suc n

-- `NewWithConfig`: `none` is the error for a configuration without seeds.
unfoldable pub new_with_config : Config → Option Config
new_with_config cfg = elim cfg.seeds [
  | [] ↦ none
  | seed ∷ seeds ↦ some (record {
    seeds = seed ∷ seeds;
    conn_timeout = or_default cfg.conn_timeout 3000;
    req_timeout = or_default cfg.req_timeout 5000;
    max_retries = or_default cfg.max_retries 3;
  })
]
