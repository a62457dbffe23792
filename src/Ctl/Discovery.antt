-- ===== src/Ctl/Discovery.antt =====
-- cmd/mimorictl/client.go: where the command line tool asks for the leader, `findLeaderFromNode` and
-- `verifyLeader` of the clientManager, and the calls of cmd/mimorictl/main.go for keys.
pub mod Alike
pub mod Runs
use mimori.Client.Discovery.{StatusAnswer, find_leader_from_node, told_by, verify_leader}
use mimori.Client.Operations.{GetResult, KvClient, Reply, calling, get_result, resp_after}
use mimori.Client.Retry.{CallError, Execution, Network}
use mimori.Ctl.{ctl_http_addr, ctl_normalize_leader_addr}
use mimori.Ctl.Manager.{Dialer, ctl_execute_with_retry, no_conns}
use mimori.Prelude.{Bool, List, Option, [], false, if◌then◌else◌, none, some, ℕ, ◌++◌}
use mimori.Raft.State.{Bytes}
use mimori.Store.Laws.{bytes_eq}
use mimori.Utils.{codes}

unfoldable pub ctl_status_url : Bytes → Bytes
unfolding ctl_http_addr
ctl_status_url addr = codes "http://" ++ ctl_http_addr addr ++ codes "/raft/status"

module _ (fetch : (url : Bytes) → Option StatusAnswer) where
  -- `findLeaderFromNode`
  unfoldable pub ctl_find_leader_from_node : Bytes → Option Bytes
  unfolding ctl_status_url ctl_normalize_leader_addr
  ctl_find_leader_from_node addr = elim (told_by (fetch (ctl_status_url addr))) [
    | none ↦ none
    | some (state, leader_id) ↦
        if bytes_eq state (codes "leader")
        then some addr
        else (if bytes_eq leader_id []
            then none
            else some (ctl_normalize_leader_addr addr leader_id))
  ]

  -- `verifyLeader`
  unfoldable pub ctl_verify_leader : Bytes → Bool
  unfolding ctl_status_url
  ctl_verify_leader addr = elim (told_by (fetch (ctl_status_url addr))) [
    | none ↦ false
    | some (state, _) ↦ bytes_eq state (codes "leader")
  ]

-- What the network answers in an attempt, from the answers to status requests and calls.
unfoldable pub ctl_network_of :
    (fetch : (attempt : ℕ) → (url : Bytes) → Option StatusAnswer)
    → (call : (attempt : ℕ) → Bytes → Option CallError) → Network
unfolding ctl_verify_leader ctl_find_leader_from_node
ctl_network_of fetch call = record {
  verify_leader = λ attempt addr. ctl_verify_leader (fetch attempt) addr;
  find_leader_from_node = λ attempt addr. ctl_find_leader_from_node (fetch attempt) addr;
  call = call;
}

-- The calls of a command for keys: three attempts at most, of a new manager.
module _ (net : Network) (kv : KvClient) (initial : List Bytes) (dialer : Dialer) where
  unfoldable pub ctl_executed : {A : Type 0} → ((attempt : ℕ) → Bytes → Reply A) → Execution
  unfolding ctl_execute_with_retry
  ctl_executed ask = ctl_execute_with_retry 3 (calling net ask) dialer initial no_conns []

  -- `doPut`
  unfoldable pub do_put : (key val : Bytes) → Bool
  unfolding ctl_executed
  do_put key val =
      (ctl_executed (λ k addr. kv.on_put k addr (record { key = key; value = val }))).succeeded

  -- `doDelete`
  unfoldable pub do_delete : (key : Bytes) → Bool
  unfolding ctl_executed
  do_delete key = (ctl_executed (λ k addr. kv.on_delete k addr (record { key = key }))).succeeded

  -- What the command "get" fetches.
  unfoldable pub do_get : (key : Bytes) (allow_stale : Bool) → GetResult
  unfolding ctl_executed resp_after get_result
  do_get key allow_stale =
      let ask : ℕ → Bytes → Reply (Bytes × Bool) =
        λ k addr. kv.on_get k addr (record { key = key; allow_stale = allow_stale }) in
      let x = ctl_executed ask in get_result x.succeeded (resp_after ask x.called none)
