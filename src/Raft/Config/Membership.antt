-- ===== src/Raft/Config/Membership.antt =====
-- What a configuration change does to the membership.
use mimori.Prelude.{
  Bool, Bool-cases, List, [], ap, arith, false, if◌then◌else◌, inl, inr, keep, length,
  length-append, not, str_elem, str_eq, str_eq_iff, str_eq_refl, suc, true, ℕ, ◌++◌, ◌||◌, ◌∙◌, ◌∷◌,
  ◌≡◌, ◌≢◌,
}
use mimori.Raft.Config.{
  append_entry, apply_config_change, check_change, config_command, persist_log,
  propose_config_change,
}
use mimori.Raft.Init.{new}
use mimori.Raft.State.{
  ConfigChangeType, NodeId, Payload, Raft, err, follower, leader, ok, persist_failed,
}

str_elem-append :
    (p node : NodeId) (ps : List NodeId)
    → str_elem p (ps ++ node ∷ []) ≡ (str_elem p ps || str_eq node p)
unfolding str_elem
str_elem-append p node [] = ground arith
str_elem-append p node (q ∷ ps) = ground (arith, str_elem-append p node ps)

str_elem-keep :
    (p node : NodeId) (ps : List NodeId)
    → str_elem p (keep (λ q. not (str_eq q node)) ps)
      ≡ (if str_eq node p then false else str_elem p ps)
unfolding str_elem
str_elem-keep p node [] = ground arith
str_elem-keep p node (q ∷ ps) =
    ground (arith, str_elem-keep p node ps, str_eq_iff q node, str_eq_iff node p, str_eq_iff q p)

-- Adding or removing another node settles the membership of that node and of no other.
pub str_elem-apply_config_change :
    (now : ℕ) (is_add : Bool) (node p : NodeId) (r : Raft)
    → node ≢ r.id
    → str_elem p (apply_config_change now is_add node r).peers
      ≡ (if str_eq node p then is_add else str_elem p r.peers)
unfolding apply_config_change
str_elem-apply_config_change now true node p r other = elim (Bool-cases (str_elem node r.peers)) [
  | inl old ↦ ground (arith, str_eq_iff node r.id, str_eq_iff node p)
  | inr new ↦ ground (arith, str_eq_iff node r.id, str_elem-append p node r.peers)
]
str_elem-apply_config_change now false node p r other =
    ground (arith, str_eq_iff node r.id, str_elem-keep p node r.peers)

-- The entry that removes this node makes it a follower without peers, leader or vote.
pub remove_self-alone :
    (now : ℕ) (r : Raft)
    → let s = apply_config_change now false r.id r in
      (s.removed_from_cluster ≡ true)
      × (s.state ≡ follower)
      × (s.peers ≡ [])
      × (s.leader_id ≡ "")
      × (s.voted_for ≡ "")
      × (s.term ≡ r.term)
unfolding apply_config_change
remove_self-alone now r = ground (arith, str_eq_refl r.id)

length-append_entry :
    (cmd : Payload) (r : Raft) → length (append_entry cmd r).log ≡ suc (length r.log)
unfolding append_entry
length-append_entry cmd r = omega (arith, length-append r.log _)

log-persist_log : (r : Raft) → (persist_log r).0.log ≡ r.log
unfolding persist_log
log-persist_log r = ground arith

proposal_failed :
    (change : ConfigChangeType) (node : NodeId) (r : Raft)
    → r.state ≡ leader
    → check_change change node r ≡ ok tt
    → (persist_log (append_entry (config_command change node) r)).1 ≡ false
    → propose_config_change change node r
      ≡ ((persist_log (append_entry (config_command change node) r)).0, err persist_failed)
unfolding propose_config_change
proposal_failed change node r leads checked unsaved = ground arith

-- A membership change that passes its checks on a leader whose log cannot be saved is reported as failed,
-- and its entry is in the leader's log all the same.
pub failed_change-stays :
    (change : ConfigChangeType) (node : NodeId) (r : Raft)
    → r.state ≡ leader
    → check_change change node r ≡ ok tt
    → r.disk.log_writable ≡ false
    → ((propose_config_change change node r).1 ≡ err persist_failed)
      × (length (propose_config_change change node r).0.log ≡ suc (length r.log))
failed_change-stays change node r leads checked broken =
    let r1 = append_entry (config_command change node) r in
    let unsaved : (persist_log r1).1 ≡ false = unfold persist_log append_entry in ground arith in
    let step_is : propose_config_change change node r ≡ ((persist_log r1).0, err persist_failed) =
      proposal_failed change node r leads checked unsaved in
    (
      ap (λ x. x.1) step_is,
      ap (λ x. length x.0.log) step_is
          ∙ (ap length (log-persist_log r1) ∙ length-append_entry (config_command change node) r),
    )
