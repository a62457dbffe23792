-- ===== src/Raft/Commit/Quorum.antt =====
-- What `updateCommitIndexLocked` commits.
use native.Mathlib.Nat.{le_refl}
use mimori.Prelude.{
  Bool-cases, Option-cases, arith, inl, inr, ltb, ltb→lt, refl, some, suc, true, zero, ℕ, ◌+◌, ◌<◌,
  ◌≡◌, ◌≤◌, ◌⊎◌,
}
use mimori.Raft.Commit.{can_commit, commit_scan, replicated_on, update_commit_index}
use mimori.Raft.Config.{majority}
use mimori.Raft.Log.{entry_at, last_log_index}
use mimori.Raft.State.{LogEntry, Raft, is_leader_state, leader}

-- What the loop looks for: an index whose entry is of the current term and on a majority of the members,
-- the leader included.
pub record IsCommittable (r : Raft) (n : ℕ) : Type 0 where
  pub entry : LogEntry
  pub found : entry_at r n ≡ some entry
  pub of_term : entry.term ≡ r.term
  pub quorum : majority r ≤ 1 + replicated_on n r.peers r.match_index

can_commit_sound : (r : Raft) (n : ℕ) → can_commit r n ≡ true → IsCommittable r n
unfolding can_commit
can_commit_sound r n h = elim (Option-cases (entry_at r n)) [
  | inl missing ↦ absurd (ground arith)
  | inr (e, found) ↦ record {
    entry = e;
    found = found;
    of_term = ground arith;
    quorum = ground arith;
  }
]

-- The index that the scan leaves is the old commit index or a committable one above it.
commit_scan_sound :
    (r : Raft) (n : ℕ)
    → (commit_scan r n ≡ r.commit_index)
      ⊎ ((r.commit_index < commit_scan r n)
          × (commit_scan r n ≤ n)
          × IsCommittable r (commit_scan r n))
unfolding commit_scan
commit_scan_sound r zero = inl refl
commit_scan_sound r (suc n) = elim (Bool-cases (ltb r.commit_index (suc n))) [
  | inr reached ↦ inl (rw reached refl)
  | inl above ↦ elim (Bool-cases (can_commit r (suc n))) [
    | inl here ↦
        rw (above, here) (inr (ltb→lt _ _ above, le_refl (suc n), can_commit_sound r (suc n) here))
    | inr lower ↦
        rw (above, lower)
          (elim (commit_scan_sound r n) [
            | inl same ↦ inl same
            | inr (lt, le, c) ↦ inr (lt, omega arith, c)
          ])
  ]
]

commit_scan-le : (r : Raft) (n : ℕ) → r.commit_index ≤ commit_scan r n
unfolding commit_scan
commit_scan-le r zero = omega arith
commit_scan-le r (suc n) = ground (arith, commit_scan-le r n)

pub commit_index-le-update : (r : Raft) → r.commit_index ≤ (update_commit_index r).commit_index
unfolding update_commit_index
commit_index-le-update r = ground (arith, commit_scan-le r (last_log_index r))

pub update_commit_index_sound :
    (r : Raft)
    → ((update_commit_index r).commit_index ≡ r.commit_index)
      ⊎ ((r.state ≡ leader)
          × (r.commit_index < (update_commit_index r).commit_index)
          × ((update_commit_index r).commit_index ≤ last_log_index r)
          × IsCommittable r (update_commit_index r).commit_index)
unfolding update_commit_index
update_commit_index_sound r = elim (Bool-cases (is_leader_state r.state)) [
  | inl leads ↦ rw leads (elim (commit_scan_sound r (last_log_index r)) [
    | inl same ↦ inl same
    | inr (lt, le, c) ↦ inr (ground arith, lt, le, c)
  ])
  | inr follows ↦ inl (rw follows refl)
]
