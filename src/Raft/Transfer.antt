-- ===== src/Raft/Transfer.antt =====
-- Leader transfer of internal/raft/raft.go.
pub mod Handover
use mimori.Prelude.{find, if◌then◌else◌, int32, ltb, none, some, str_elem, str_eq}
use mimori.Raft.Config.{persist_meta}
use mimori.Raft.Election.{TimeoutNowRequest, TimeoutNowResponse}
use mimori.Raft.State.{
  NodeId, Raft, Result, err, follower, is_leader_state, not_leader, ok, target_not_caught_up,
  target_not_in_cluster, target_not_tracked, transfer_to_self,
}

-- `TransferLeadershipInternal`: the guards, in order.  On `ok` the request below is sent in the
-- background.
unfoldable pub transfer_leadership : NodeId → Raft → Result (Unit {0})
unfolding str_elem find
transfer_leadership target r =
    if is_leader_state r.state
    then (if str_eq target r.id
        then err transfer_to_self
        else (if str_elem target r.peers
            then (elim (find target r.match_index) [
              | none ↦ err target_not_tracked
              | some matched ↦
                  if ltb matched r.commit_index then err target_not_caught_up else ok tt
            ])
            else err target_not_in_cluster))
    else err not_leader

unfoldable pub timeout_now_request : Raft → TimeoutNowRequest
unfolding int32
timeout_now_request r = record { term = int32 r.term; leader_id = r.id }

-- The end of the background call: a higher term in the answer ends this leadership.
unfoldable pub transfer_answered : NodeId → TimeoutNowResponse → Raft → Raft
unfolding persist_meta
transfer_answered target resp r =
    if ltb r.term resp.term
    then persist_meta
        (record r { term = resp.term; state = follower; voted_for = ""; leader_id = target })
    else r
