-- ===== src/Tests/Logs.antt =====
-- Theorems about the log and `AppendEntries`, at concrete nodes.
use mimori.Prelude.{List, [], arith, refl, some, str_elem, suc, zero, ℕ, ◌∷◌, ◌≡◌, ◌≢◌}
use mimori.Raft.Log.{entry_at, last_log_index}
use mimori.Raft.Log.Contiguous.{Contiguous}
use mimori.Raft.Pipeline.{Batch, acquired, batches, full}
use mimori.Raft.Pipeline.Chain.{
  AllSequences, all_acquired, batches-skip, batches_complete, concat_entries,
}
use mimori.Raft.Replication.{append_entries}
use mimori.Raft.Replication.Accepted.{append_entries-eq-splice}
use mimori.Raft.Replication.Gap.{gap-accepted, heartbeat-commits}
use mimori.Raft.Replication.Splice.{splice}
use mimori.Raft.State.{LogEntry}
use mimori.Tests.Nodes.{
  behind_gap, entry, heartbeat, log_of_three, two_entries, voter, voter-WellFormed,
}

append_entries-eq-splice_example :
    (append_entries 5 two_entries voter).0.log ≡ entry 0 0 ∷ entry 1 1 ∷ entry 2 3 ∷ entry 3 3 ∷ []
unfolding append_entries str_elem splice
append_entries-eq-splice_example =
    append_entries-eq-splice 5 two_entries voter voter-WellFormed (refl, (refl, tt)) (omega arith)
      refl

gap-accepted_example :
    (entry_at (append_entries 5 behind_gap voter).0 3 ≡ some (entry 7 3)) × (◌≢◌ {A = ℕ} 7 3)
unfolding append_entries str_elem last_log_index
gap-accepted_example =
    gap-accepted 5 7 behind_gap voter (entry 7 3) (entry 8 3 ∷ []) voter-WellFormed refl refl
      (refl, (refl, tt)) (omega arith)

heartbeat-commits_example :
    ((append_entries 5 heartbeat voter).0.commit_index ≡ 2)
    × ((append_entries 5 heartbeat voter).0.log ≡ log_of_three)
unfolding append_entries str_elem last_log_index
heartbeat-commits_example =
    heartbeat-commits 5 heartbeat voter refl refl (omega arith) (omega arith)

abbrev hundred_more : ℕ → ℕ → List LogEntry
hundred_more zero i = []
hundred_more (suc n) i = entry i 2 ∷ hundred_more n (suc i)

Contiguous-hundred_more : (n i : ℕ) → Contiguous i (hundred_more n i)
Contiguous-hundred_more zero i = tt
Contiguous-hundred_more (suc n) i = (refl, Contiguous-hundred_more n (suc i))

-- Two batches.
batches_complete_example :
    (concat_entries (batches (acquired ∷ acquired ∷ []) (1, 1) (hundred_more 101 2))
      ≡ hundred_more 101 2)
    × AllSequences (batches (acquired ∷ acquired ∷ []) (1, 1) (hundred_more 101 2))
unfolding all_acquired
batches_complete_example =
    batches_complete (acquired ∷ acquired ∷ []) (1, 1) (hundred_more 101 2) refl (omega arith)
      (Contiguous-hundred_more 101 2)

batches-skip_example :
    (b : Batch) × (rest : List Batch) × (e : LogEntry) × (more : List LogEntry) × (batches
        (full ∷ acquired ∷ [])
        (1, 1)
        (hundred_more 101 2)
      ≡ b ∷ rest)
    × (b.prev_log_index ≡ 1)
    × (b.entries ≡ e ∷ more)
    × (e.index ≡ 102)
batches-skip_example =
    batches-skip [] (1, 1) (hundred_more 101 2) (Contiguous-hundred_more 101 2) (omega arith)
