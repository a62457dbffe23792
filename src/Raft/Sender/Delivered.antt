-- ===== src/Raft/Sender/Delivered.antt =====
-- One round of replication: what a leader sends in one batch, and what an accepting follower has then.
use mimori.Prelude.{
  Bool-cases, List, ap, arith, get_elem?, inl, inr, int32-of_lt, refl, some, subst, suc, sym, true,
  ℕ, ◌-◌, ◌<◌, ◌^◌, ◌∙◌, ◌≡◌, ◌≤◌,
}
use mimori.Raft.Invariant.{WellFormed}
use mimori.Raft.Log.{entry_at, last_log_index, slice_from}
use mimori.Raft.Log.Contiguous.{Contiguous}
use mimori.Raft.Replication.{append_entries}
use mimori.Raft.Replication.Accepted.{IsSequence, accepted-entry_at}
use mimori.Raft.Sender.{
  batch_request, heartbeat_to, is_behind_snapshot, next_for, send_batches, send_snapshot,
}
use mimori.Raft.Sender.Sent.{FitInt32, heartbeat_to-slice_from}
use mimori.Raft.State.{LogEntry, NodeId, Raft}

IsSequence-batch_request :
    (term : ℕ) (id : NodeId) (prev prev_term : ℕ) (es : List LogEntry) (commit : ℕ)
    → prev < 2 ^ 31
    → Contiguous (suc prev) es
    → IsSequence (batch_request term id prev prev_term es commit)
      × ((batch_request term id prev prev_term es commit).prev_log_index ≡ prev)
      × ((batch_request term id prev prev_term es commit).entries ≡ es)
unfolding batch_request
IsSequence-batch_request term id prev prev_term es commit small h =
    (rw (int32-of_lt prev small) h, int32-of_lt prev small, refl)

heartbeat_to-snapshot :
    (p : NodeId) (r : Raft)
    → is_behind_snapshot (next_for p r) r ≡ true
    → heartbeat_to p r ≡ send_snapshot
unfolding heartbeat_to
heartbeat_to-snapshot p r behind = rw behind refl

-- When the leader is well formed with indices and terms that fit an int32, and the peer's next index lies
-- behind the base and at most one past the last index, then a follower that is well formed, has its base
-- before the next index, and accepts what the leader sends in one batch, has every entry of the leader's
-- log from the next index on at its index, with its term.
pub delivered-entry_at :
    (p : NodeId) (now : ℕ) (r s : Raft)
    → WellFormed r
    → FitInt32 r.log
    → last_log_index r < 2 ^ 31
    → r.log_base_index < next_for p r
    → next_for p r ≤ suc (last_log_index r)
    → WellFormed s
    → s.log_base_index < next_for p r
    → (prev prev_term : ℕ) (es : List LogEntry) (commit : ℕ)
    → heartbeat_to p r ≡ send_batches prev prev_term es commit
    → (append_entries now (batch_request r.term r.id prev prev_term es commit) s).1.success ≡ true
    → (i : ℕ) (e : LogEntry) → get_elem? (slice_from r (next_for p r)) i ≡ some e
    → (x : LogEntry) × (entry_at
          (append_entries now (batch_request r.term r.id prev prev_term es commit) s).0
          e.index
        ≡ some x)
      × (x.term ≡ e.term)
delivered-entry_at p now r s v fit small lo hi w low prev prev_term es commit sent accepted i e at =
    elim (Bool-cases (is_behind_snapshot (next_for p r) r)) [
      | inl behind ↦ cc (sent, heartbeat_to-snapshot p r behind)
      | inr ahead ↦
          let (is, seq) = heartbeat_to-slice_from p r v fit ahead lo hi in
          let same = sym sent ∙ is in
          let prev_is : prev ≡ next_for p r - 1 = cc same in
          let es_is : es ≡ slice_from r (next_for p r) = cc same in
          let seq' : Contiguous (suc prev) es =
            rw es_is (subst (λ b. Contiguous b (slice_from r (next_for p r))) (omega arith) seq) in
          let (is_seq, prev', entries') =
            IsSequence-batch_request r.term r.id prev prev_term es commit (omega arith) seq' in
          accepted-entry_at now (batch_request r.term r.id prev prev_term es commit) s w is_seq
            (omega arith) accepted i e (ap (λ l. get_elem? l i) (entries' ∙ es_is) ∙ at)
    ]
