-- ===== src/Raft/Replication/Accepted.antt =====
-- What an accepted `AppendEntries` does to the follower's log, and what a refused one leaves alone.
use mimori.Prelude.{
  List, Option-cases, [], ap, arith, drop, get_elem?, get_elem?-append_left, get_elem?-append_right,
  if◌then◌else◌, inl, inr, length, length-append, le→ltb, ltb, min, none, some, subst, suc, sym,
  take, take-append-drop, true, ℕ, ◌++◌, ◌+◌, ◌-◌, ◌<◌, ◌∙◌, ◌∷◌, ◌≡◌, ◌≤◌, ◌⊎◌,
}
use mimori.Raft.Election.{adopt_term}
use mimori.Raft.Invariant.{WellFormed, get_elem?-lt_length, length-take_le}
use mimori.Raft.Log.{entry_at, last_log_index}
use mimori.Raft.Log.Contiguous.{Contiguous, Contiguous-append, Contiguous-split, index-get_elem?}
use mimori.Raft.Replication.{
  AppendEntriesRequest, accept_entries, append_entries, append_loop, append_one, is_consistent,
}
use mimori.Raft.Replication.Splice.{append_loop-eq-splice, get_elem?-splice, splice}
use mimori.Raft.State.{LogEntry, Raft}

-- The entries of a request follow the entry at `prev_log_index`, one by one.
abbrev pub IsSequence : AppendEntriesRequest → Type 0
IsSequence req = Contiguous (suc req.prev_log_index) req.entries

pub log-accept_entries :
    (entries : List LogEntry) (lc : ℕ) (r : Raft)
    → (accept_entries entries lc r).log ≡ append_loop r.log_base_index entries r.log
unfolding accept_entries
log-accept_entries entries lc r = ground arith

pub base-accept_entries :
    (entries : List LogEntry) (lc : ℕ) (r : Raft)
    → (accept_entries entries lc r).log_base_index ≡ r.log_base_index
unfolding accept_entries
base-accept_entries entries lc r = ground arith

-- The previous entry lies in the log.
is_consistent-lt_length :
    (prev prev_term : ℕ) (r : Raft)
    → is_consistent prev prev_term r ≡ true
    → r.log_base_index ≤ prev
    → 0 < length r.log
    → prev - r.log_base_index < length r.log
unfolding is_consistent entry_at
is_consistent-lt_length prev prev_term r h le n =
    elim (Option-cases (get_elem? r.log (prev - r.log_base_index))) [
      | inl missing ↦ ground arith
      | inr (e, found) ↦ get_elem?-lt_length r.log (prev - r.log_base_index) e found
    ]

module _ (now : ℕ) (req : AppendEntriesRequest) (r : Raft) where
  pub accepted_is :
      (append_entries now req r).1.success ≡ true
      → (append_entries now req r).0
        ≡ accept_entries req.entries req.leader_commit
            (record (adopt_term req.term r) { leader_id = req.leader_id; election_reset = now })
  unfolding append_entries
  accepted_is done = ground arith

  -- The log of an accepted request, and the tests that it passed.
  pub accepted-log :
      (append_entries now req r).1.success ≡ true
      → (is_consistent req.prev_log_index req.prev_log_term r ≡ true)
        × ((append_entries now req r).0.log ≡ append_loop r.log_base_index req.entries r.log)
        × ((append_entries now req r).0.log_base_index ≡ r.log_base_index)
  unfolding append_entries is_consistent entry_at
  accepted-log done =
      let r1 = adopt_term req.term r in
      let r2 = record r1 { leader_id = req.leader_id; election_reset = now } in
      ground (
        arith,
        log-accept_entries req.entries req.leader_commit r2,
        base-accept_entries req.entries req.leader_commit r2,
      )

  module _ (v : WellFormed r) (seq : IsSequence req)
      (low : r.log_base_index ≤ req.prev_log_index) where
    -- On a well-formed node, a request that is accepted, whose entries follow on from a previous entry at or
    -- past the base, keeps the log up to that entry and splices its entries in behind it.
    pub append_entries-eq-splice :
        (append_entries now req r).1.success ≡ true
        → (append_entries now req r).0.log
          ≡ take (suc req.prev_log_index - r.log_base_index) r.log
            ++ splice (drop (suc req.prev_log_index - r.log_base_index) r.log) req.entries
    append_entries-eq-splice done =
        let (consistent, log_is, _) = accepted-log done in
        let base = r.log_base_index in
        let n = suc req.prev_log_index - base in
        let inside =
          is_consistent-lt_length req.prev_log_index req.prev_log_term r consistent low
            v.has_dummy in
        let len = length-take_le n r.log (omega arith) in
        let spliced =
          append_loop-eq-splice base (take n r.log) (drop n r.log) req.entries
            (subst (λ b. Contiguous b req.entries) (omega arith) seq) in
        log_is ∙ (ap (append_loop base req.entries) (sym (take-append-drop n r.log)) ∙ spliced)

    -- Every entry of an accepted request is in the log at its own index, with its term.
    pub accepted-entry_at :
        (append_entries now req r).1.success ≡ true
        → (i : ℕ) (e : LogEntry) → get_elem? req.entries i ≡ some e
        → (x : LogEntry) × (entry_at (append_entries now req r).0 e.index ≡ some x)
          × (x.term ≡ e.term)
    unfolding entry_at
    accepted-entry_at done i e at =
        let (consistent, _, base_is) = accepted-log done in
        let n = suc req.prev_log_index - r.log_base_index in
        let inside =
          is_consistent-lt_length req.prev_log_index req.prev_log_term r consistent low
            v.has_dummy in
        let len = length-take_le n r.log (omega arith) in
        let index_is = index-get_elem? (suc req.prev_log_index) req.entries i e seq at in
        let (x, found, same) = get_elem?-splice (drop n r.log) req.entries i e at in
        let right =
          get_elem?-append_right (take n r.log) (splice (drop n r.log) req.entries) i ∙ found in
        let offset : e.index - r.log_base_index ≡ length (take n r.log) + i = omega arith in
        (
          x,
          rw
              (
                base_is,
                append_entries-eq-splice done,
                le→ltb e.index r.log_base_index (omega arith),
                offset,
              )
              right,
          same,
        )

    -- Every entry up to the previous one stays.
    pub kept-entry_at :
        (append_entries now req r).1.success ≡ true
        → (idx : ℕ) → idx ≤ req.prev_log_index
        → entry_at (append_entries now req r).0 idx ≡ entry_at r idx
    unfolding entry_at
    kept-entry_at done idx le =
        let (consistent, _, base_is) = accepted-log done in
        let n = suc req.prev_log_index - r.log_base_index in
        let inside =
          is_consistent-lt_length req.prev_log_index req.prev_log_term r consistent low
            v.has_dummy in
        let len = length-take_le n r.log (omega arith) in
        let i = idx - r.log_base_index in
        let left =
          get_elem?-append_left (take n r.log) (splice (drop n r.log) req.entries) i
            (omega arith) in
        let here = get_elem?-append_left (take n r.log) (drop n r.log) i (omega arith) in
        let whole = ap (λ l. get_elem? l i) (take-append-drop n r.log) in
        rw (base_is, append_entries-eq-splice done)
          (ap (λ o. if ltb idx r.log_base_index then none else o) (left ∙ (sym here ∙ whole)))

-- One round keeps a log without gaps, if its entry follows on.
append_one-Contiguous :
    (base k : ℕ) (e : LogEntry) (log : List LogEntry)
    → e.index ≡ k
    → k ≤ base + length log
    → 0 < length log
    → Contiguous base log
    → Contiguous base (append_one base e log)
      × (0 < length (append_one base e log))
      × (suc k ≤ base + length (append_one base e log))
unfolding append_one
append_one-Contiguous base k e log is le n h =
    let offset = e.index - base in
    let parts =
      Contiguous-split base (take offset log) (drop offset log)
        (subst (Contiguous base) (sym (take-append-drop offset log)) h) in
    let cut : (base ≤ k) → (offset < length log) → Contiguous base (take offset log ++ e ∷ []) =
      λ lo hi.
        Contiguous-append base (take offset log) (e ∷ []) parts.0
          (omega (arith, length-take_le offset log), tt) in
    let behind : (base ≤ k) → (length log ≤ offset) → Contiguous base (log ++ e ∷ []) =
      λ lo hi. Contiguous-append base log (e ∷ []) h (omega arith, tt) in
    ground (
      arith,
      cut,
      behind,
      length-take_le offset log,
      length-append (take offset log) (e ∷ []),
      length-append log (e ∷ []),
    )

pub append_loop-Contiguous :
    (base k : ℕ) (es log : List LogEntry)
    → Contiguous k es
    → k ≤ base + length log
    → 0 < length log
    → Contiguous base log
    → Contiguous base (append_loop base es log) × (0 < length (append_loop base es log))
unfolding append_loop
append_loop-Contiguous base k [] log seq le n h = (h, n)
append_loop-Contiguous base k (e ∷ es) log seq le n h =
    let (h', n', le') = append_one-Contiguous base k e log seq.0 le n h in
    append_loop-Contiguous base (suc k) es (append_one base e log) seq.1 le' n' h'

pub applied-accept_entries :
    (entries : List LogEntry) (lc : ℕ) (r : Raft)
    → (accept_entries entries lc r).last_applied ≡ r.last_applied
unfolding accept_entries
applied-accept_entries entries lc r = ground arith

pub commit_index-accept_entries :
    (entries : List LogEntry) (lc : ℕ) (r : Raft)
    → ((accept_entries entries lc r).commit_index ≡ r.commit_index)
      ⊎ ((r.commit_index < lc)
          × ((accept_entries entries lc r).commit_index
              ≡ min lc (last_log_index (accept_entries entries lc r))))
unfolding accept_entries
commit_index-accept_entries entries lc r = ground arith
