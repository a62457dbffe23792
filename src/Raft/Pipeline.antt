-- ===== src/Raft/Pipeline.antt =====
-- `sendBatchesWithPipeline` of internal/raft/rpc_client.go.  What the `select` on the peer's semaphore
-- chooses in each round is an argument.
pub mod Chain
use mimori.Prelude.{List, [], drop, get_last?, none, some, take, ℕ, ◌∷◌}
use mimori.Raft.State.{LogEntry, max_entries_per_batch}

pub data Permit : Type 0 where
  acquired shutting_down full : Permit

-- One call of `sendAppendEntriesBatch`.
pub record Batch : Type 0 where
  pub prev_log_index : ℕ
  pub prev_log_term : ℕ
  pub entries : List LogEntry

-- The index and the term of the last entry of a batch; those before it where the batch is empty.
unfoldable pub next_prev : ℕ × ℕ → List LogEntry → ℕ × ℕ
next_prev prev batch = elim (get_last? batch) [ none ↦ prev | some e ↦ (e.index, e.term) ]

-- The `for` loop.  A full semaphore skips the batch, and `prev` stays what it was.
unfoldable pub batches : List Permit → ℕ × ℕ → List LogEntry → List Batch
unfolding next_prev
batches permits prev [] = []
batches [] prev (e ∷ es) = []
batches (shutting_down ∷ ps) prev (e ∷ es) = []
batches (full ∷ ps) prev (e ∷ es) = batches ps prev (drop max_entries_per_batch (e ∷ es))
batches (acquired ∷ ps) prev (e ∷ es) =
    let batch = take max_entries_per_batch (e ∷ es) in
    record { prev_log_index = prev.0; prev_log_term = prev.1; entries = batch }
    ∷ batches ps (next_prev prev batch) (drop max_entries_per_batch (e ∷ es))

-- `sendBatchesWithPipeline`: no entries make one empty heartbeat, which needs no permit.
unfoldable pub send_batches_with_pipeline : List Permit → ℕ × ℕ → List LogEntry → List Batch
unfolding batches
send_batches_with_pipeline permits prev [] =
    record { prev_log_index = prev.0; prev_log_term = prev.1; entries = [] } ∷ []
send_batches_with_pipeline permits prev (e ∷ es) = batches permits prev (e ∷ es)
