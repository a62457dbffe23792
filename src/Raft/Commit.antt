-- ===== src/Raft/Commit.antt =====
-- Commit advancement and the apply loop of internal/raft/raft.go.
pub mod Quorum
use mimori.Prelude.{
  Bool, List, Table, [], false, find_int, if◌then◌else◌, leb, ltb, none, some, suc, zero, ℕ, ◌&&◌,
  ◌+◌, ◌==◌, ◌∷◌,
}
use mimori.Raft.Config.{majority}
use mimori.Raft.Log.{entry_at, last_log_index}
use mimori.Raft.State.{NodeId, Raft, is_leader_state}

-- `for _, p := range r.peers { if r.matchIndex[p] >= N { count++ } }`, without the leader itself.
unfoldable pub replicated_on : ℕ → List NodeId → Table ℕ → ℕ
unfolding find_int
replicated_on n [] matched = 0
replicated_on n (p ∷ ps) matched =
    (if leb n (find_int p matched) then 1 else 0) + replicated_on n ps matched

-- The two tests of the loop's body: an entry of this term, held by a majority.
unfoldable pub can_commit : Raft → ℕ → Bool
unfolding entry_at majority replicated_on
can_commit r n = elim (entry_at r n) [
  | none ↦ false
  | some entry ↦
      entry.term == r.term && leb (majority r) (1 + replicated_on n r.peers r.match_index)
]

-- `for N := r.lastLogIndex(); N > r.commitIndex; N--`: the index that the loop leaves.
unfoldable pub commit_scan : Raft → ℕ → ℕ
commit_scan r zero = r.commit_index
commit_scan r (suc n) =
    let rest = commit_scan r n in
    if ltb r.commit_index (suc n)
    then (if can_commit r (suc n) then suc n else rest)
    else r.commit_index

-- `updateCommitIndexLocked`
unfoldable pub update_commit_index : Raft → Raft
unfolding last_log_index
update_commit_index r =
    if is_leader_state r.state
    then record r { commit_index = commit_scan r (last_log_index r) }
    else r
