-- ===== src/Raft/Replication/Gap.antt =====
-- Entries behind a gap, and a commit index past the entries that were compared.
use mimori.Prelude.{
  List, [], ap, append-nil, append_assoc, arith, get_elem?-append_length, length, length-append,
  le→ltb, some, suc, sym, true, ℕ, ◌++◌, ◌+◌, ◌-◌, ◌<◌, ◌∙◌, ◌∷◌, ◌≡◌, ◌≢◌, ◌≤◌,
}
use mimori.Raft.Election.{adopt_term}
use mimori.Raft.Invariant.{WellFormed, last_log_index-eq}
use mimori.Raft.Log.{entry_at, last_log_index}
use mimori.Raft.Log.Contiguous.{Contiguous}
use mimori.Raft.Replication.{
  AppendEntriesRequest, accept_entries, append_entries, append_loop, append_one,
}
use mimori.Raft.Replication.Accepted.{accepted-log, accepted_is}
use mimori.Raft.State.{LogEntry, Raft}

append_loop-gap :
    (base k : ℕ) (es log : List LogEntry)
    → Contiguous k es
    → base + length log < k
    → append_loop base es log ≡ log ++ es
unfolding append_loop append_one
append_loop-gap base k [] log h lt = sym (append-nil log)
append_loop-gap base k (e ∷ es) log h lt =
    let appended : append_one base e log ≡ log ++ e ∷ [] = ground arith in
    rw appended (
      append_loop-gap base (suc k) es (log ++ e ∷ []) h.1
        (omega (arith, length-append log (e ∷ [])))
      ∙ append_assoc log (e ∷ []) es)

-- A request whose entries start past the end of the log is taken all the same, if its previous entry is
-- in the log: the entry found at the next index is the first one sent, which has another index.
pub gap-accepted :
    (now k : ℕ) (req : AppendEntriesRequest) (r : Raft) (e : LogEntry) (es : List LogEntry)
    → WellFormed r
    → (append_entries now req r).1.success ≡ true
    → req.entries ≡ e ∷ es
    → Contiguous k req.entries
    → suc (last_log_index r) < k
    → (entry_at (append_entries now req r).0 (suc (last_log_index r)) ≡ some e)
      × (e.index ≢ suc (last_log_index r))
unfolding entry_at
gap-accepted now k req r e es v done is h lt =
    let (_, log_is, base_is) = accepted-log now req r done in
    let last = last_log_index-eq r v in
    let h' : Contiguous k (e ∷ es) = rw is at h in
    let whole = append_loop-gap r.log_base_index k (e ∷ es) r.log h' (omega arith) in
    let offset : suc (last_log_index r) - r.log_base_index ≡ length r.log = omega arith in
    (
      rw
          (
            log_is,
            base_is,
            is,
            whole,
            le→ltb (suc (last_log_index r)) r.log_base_index (omega arith),
            offset,
          )
          (get_elem?-append_length r.log e es),
      λ same. omega (arith, h'.0),
    )

-- The node after steps 2 and 3 of `AppendEntries`.
heard : ℕ → AppendEntriesRequest → Raft → Raft
heard now req r = record (adopt_term req.term r) { leader_id = req.leader_id; election_reset = now }

accepted-state :
    (now : ℕ) (req : AppendEntriesRequest) (r : Raft)
    → (append_entries now req r).1.success ≡ true
    → (append_entries now req r).0 ≡ accept_entries req.entries req.leader_commit (heard now req r)
unfolding heard
accepted-state now req r done = accepted_is now req r done

accepted-SameIndices :
    (now : ℕ) (req : AppendEntriesRequest) (r : Raft)
    → ((heard now req r).log ≡ r.log)
      × ((heard now req r).commit_index ≡ r.commit_index)
      × (last_log_index (heard now req r) ≡ last_log_index r)
unfolding heard adopt_term last_log_index
accepted-SameIndices now req r = ground arith

accept_none :
    (lc : ℕ) (r : Raft)
    → r.commit_index < lc
    → lc ≤ last_log_index r
    → ((accept_entries [] lc r).commit_index ≡ lc) × ((accept_entries [] lc r).log ≡ r.log)
unfolding accept_entries append_loop
accept_none lc r lt le = ground arith

-- A request without entries that is accepted moves the commit index up to the leader's, as far as the
-- follower's log reaches, also past the previous entry: the entries there were never compared.
pub heartbeat-commits :
    (now : ℕ) (req : AppendEntriesRequest) (r : Raft)
    → (append_entries now req r).1.success ≡ true
    → req.entries ≡ []
    → r.commit_index < req.leader_commit
    → req.leader_commit ≤ last_log_index r
    → ((append_entries now req r).0.commit_index ≡ req.leader_commit)
      × ((append_entries now req r).0.log ≡ r.log)
heartbeat-commits now req r done none_sent below inside =
    let same = accepted-SameIndices now req r in
    let r2 = heard now req r in
    let commits =
      accept_none req.leader_commit r2 (omega (arith, same.1)) (omega (arith, same.2, inside)) in
    let whole = ap (λ es. accept_entries es req.leader_commit r2) none_sent in
    rw (accepted-state now req r done, whole) (commits.0, commits.1 ∙ same.0)
