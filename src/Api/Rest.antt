-- ===== src/Api/Rest.antt =====
-- The REST handlers of internal/api/server.go.
--
-- A handler's calls of the node are taken at one state of the node.  Arguments are what the handler finds
-- out from outside: whether the body of the request can be read, what its JSON holds (`none` for text that
-- does not decode), and `forward url`, the status code of the leader's answer to the forwarded request,
-- or `none` for an error.  A name of a node is ASCII.
pub mod Followers
use mimori.Api.{
  Refusal, WriteAnswer, after_applied, answered, delete_key, get_key, lease_expired, propose_failed,
  put_key, read_not_leader, read_refused, store_failed, write_not_leader, write_refused,
}
use mimori.Api.Names.{leader_http_base}
use mimori.Prelude.{
  Bool, List, Option, [], if◌then◌else◌, length, none, not, some, str_eq, ℕ, ◌&&◌, ◌++◌, ◌+◌, ◌∷◌,
}
use mimori.Raft.Machine.{Event}
use mimori.Raft.Members.{ChangeAnswer, add_node, change_made, failed_with, transfer_to}
use mimori.Raft.Query.{Status, has_read_lease, is_leader, status}
use mimori.Raft.State.{Bytes, NodeId, Raft}
use mimori.Store.{Pebble}
use mimori.Store.Laws.{bytes_eq}
use mimori.Utils.{codes}

pub data Method : Type 0 where
  method_get method_put method_post method_delete other_method : Method

-- What a request tells a handler.
pub record HttpRequest : Type 0 where
  pub method : Method
  pub path : Bytes
  pub raw_query : Bytes
  pub body_readable : Bool

-- The answers: `http.Error` with its code, the JSON of `writeError`, and the JSON of the handlers.
pub data HttpAnswer : Type 0 where
  plain_error : (code : ℕ) → HttpAnswer
  json_error : (code : ℕ) → Refusal → HttpAnswer
  forwarded : (url : Bytes) (code : ℕ) → HttpAnswer
  value_answer : (value : Bytes) (is_found : Bool) → HttpAnswer
  written_after : (index : ℕ) → HttpAnswer
  change_answer : (code : ℕ) → ChangeAnswer → HttpAnswer
  cluster_answer : (leader_id : NodeId) (term node_count : ℕ) (nodes : List NodeId) → HttpAnswer
  status_answer : Status → (leads has_lease : Bool) → (peers : List NodeId) → HttpAnswer

-- The gRPC codes that `writeError` tells apart.
pub data Code : Type 0 where
  failed_precondition not_found_code invalid_argument other_code : Code

unfoldable pub http_code : Code → ℕ
http_code failed_precondition = 412
http_code not_found_code = 404
http_code invalid_argument = 400
http_code other_code = 500

-- The gRPC code of an error, or `none` for an error that is no gRPC status.
unfoldable pub code_of : Refusal → Option Code
code_of (write_not_leader leader_id) = some failed_precondition
code_of (read_not_leader leader_id) = some failed_precondition
code_of (lease_expired leader_id) = some failed_precondition
code_of (propose_failed e) = none
code_of store_failed = none

-- `writeError`
unfoldable pub write_error : Refusal → HttpAnswer
unfolding code_of http_code
write_error e = elim (code_of e) [
  | none ↦ plain_error 500
  | some code ↦ json_error (http_code code) e
]

-- The answer that ends a handler, or the node that the body names.
pub data Guarded : Type 0 where
  stopped : HttpAnswer → Guarded
  goes_on : NodeId → Guarded

abbrev named_node : (body : Option NodeId) → Guarded
named_node none = stopped (plain_error 400)
named_node (some node) = if str_eq node "" then stopped (plain_error 400) else goes_on node

module _ (forward : Bytes → Option ℕ) where
  -- The URL of `proxyToLeader`.
  unfoldable pub proxy_url : HttpRequest → (base : Bytes) → Bytes
  proxy_url req base =
      base ++ req.path ++ (if bytes_eq req.raw_query [] then [] else b'?' ∷ req.raw_query)

  -- `proxyToLeader`; a URL for which no request can be built counts as an error of the call.
  unfoldable pub proxy_to_leader : HttpRequest → Raft → HttpAnswer
  unfolding leader_http_base proxy_url
  proxy_to_leader req r =
      let base = leader_http_base (codes r.leader_id) in
      if str_eq r.leader_id ""
      then plain_error 503
      else (if bytes_eq base []
          then plain_error 502
          else (if req.body_readable
              then (elim (forward (proxy_url req base)) [
                | none ↦ plain_error 502
                | some code ↦ forwarded (proxy_url req base) code
              ])
              else plain_error 400))

  module _ {DB WriteBatch : Type 0} (db : Pebble DB WriteBatch) where
    -- `handleGet`
    unfoldable pub handle_get :
        (now : ℕ) → HttpRequest → (allow_stale : Bool) (key : Bytes) → Raft → DB → HttpAnswer
    unfolding is_leader proxy_to_leader get_key write_error
    handle_get now req allow_stale key r d =
        if not (is_leader r) && not allow_stale
        then proxy_to_leader req r
        else (elim (get_key db now (record { key = key; allow_stale = allow_stale }) r d) [
          | answered value is_found ↦ value_answer value is_found
          | read_refused e ↦ write_error e
        ])

  -- The end of `handlePut` and `handleDelete`.
  unfoldable pub write_result : Raft × WriteAnswer → Raft × HttpAnswer
  unfolding write_error
  write_result (r, after_applied index) = (r, written_after index)
  write_result (r, write_refused e) = (r, write_error e)

  -- `handlePut`
  unfoldable pub handle_put :
      HttpRequest → (body : Option Bytes) (key : Bytes) → Raft → Raft × HttpAnswer
  unfolding is_leader proxy_to_leader put_key write_result
  handle_put req body key r =
      if is_leader r
      then (elim body [
        | none ↦ (r, plain_error 400)
        | some value ↦ write_result (put_key (record { key = key; value = value }) r)
      ])
      else (r, proxy_to_leader req r)

  -- `handleDelete`
  unfoldable pub handle_delete : HttpRequest → (key : Bytes) → Raft → Raft × HttpAnswer
  unfolding is_leader proxy_to_leader delete_key write_result
  handle_delete req key r =
      if is_leader r
      then write_result (delete_key (record { key = key }) r)
      else (r, proxy_to_leader req r)

  -- The guards that `handleAddNode`, `handleRemoveNode` and `handleTransferLeadership` share.
  unfoldable pub change_guards : HttpRequest → (body : Option NodeId) → Raft → Guarded
  unfolding is_leader proxy_to_leader
  change_guards req body r = elim req.method [
    | method_post ↦ if is_leader r then named_node body else stopped (proxy_to_leader req r)
    | _ ↦ stopped (plain_error 405)
  ]

  abbrev pub change_result : ChangeAnswer → HttpAnswer
  change_result change_made = change_answer 200 change_made
  change_result (failed_with e) = change_answer 400 (failed_with e)

  -- `handleAddNode`
  unfoldable pub handle_add_node :
      (in_time : Bool)
      → List Event
      → HttpRequest
      → (body : Option NodeId) → Raft
      → Raft × HttpAnswer
  unfolding change_guards add_node
  handle_add_node in_time es req body r = elim (change_guards req body r) [
    | stopped answer ↦ (r, answer)
    | goes_on node ↦ let (r1, answer) = add_node in_time es node r in (r1, change_result answer)
  ]

  -- `handleTransferLeadership`
  unfoldable pub handle_transfer : HttpRequest → (body : Option NodeId) → Raft → HttpAnswer
  unfolding change_guards transfer_to
  handle_transfer req body r = elim (change_guards req body r) [
    | stopped answer ↦ answer
    | goes_on node ↦ change_result (transfer_to node r)
  ]

-- `handleClusterStatus`
unfoldable pub handle_cluster_status : HttpRequest → Raft → HttpAnswer
unfolding status
handle_cluster_status req r = elim req.method [
  | method_get ↦
      cluster_answer (status r).leader_id (status r).term (length r.peers + 1)
        ((status r).id ∷ r.peers)
  | _ ↦ plain_error 405
]

-- `handleStatus`
unfoldable pub handle_status : (now : ℕ) → HttpRequest → Raft → HttpAnswer
unfolding status is_leader has_read_lease
handle_status now req r = elim req.method [
  | method_get ↦ status_answer (status r) (is_leader r) (has_read_lease now r) r.peers
  | _ ↦ plain_error 405
]
