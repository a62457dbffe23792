-- ===== src/Raft/Pipeline/Chain.antt =====
-- The batches that a leader sends to a follower.
use mimori.Prelude.{
  Bool, List, [], ap, arith, drop, false, length, length-drop, refl, subst, suc, sym, take,
  take-append-drop, true, zero, ℕ, ◌*◌, ◌++◌, ◌+◌, ◌<◌, ◌∙◌, ◌∷◌, ◌≡◌, ◌≤◌,
}
use mimori.Raft.Log.Contiguous.{Contiguous, Contiguous-split, get_last?-index}
use mimori.Raft.Pipeline.{Batch, Permit, acquired, batches, full, next_prev, shutting_down}
use mimori.Raft.State.{LogEntry, max_entries_per_batch}

unfoldable pub all_acquired : List Permit → Bool
all_acquired [] = true
all_acquired (acquired ∷ ps) = all_acquired ps
all_acquired (_ ∷ ps) = false

abbrev pub concat_entries : List Batch → List LogEntry
concat_entries [] = []
concat_entries (b ∷ bs) = b.entries ++ concat_entries bs

-- Each batch is small, and its entries follow on from its previous index.
abbrev pub AllSequences : List Batch → Type 0
AllSequences [] = Unit {0}
AllSequences (b ∷ bs) =
    (length b.entries ≤ max_entries_per_batch)
    × Contiguous (suc b.prev_log_index) b.entries
    × AllSequences bs

length-take-le : (n : ℕ) (xs : List LogEntry) → length (take n xs) ≤ n
length-take-le zero xs = omega arith
length-take-le (suc n) [] = omega arith
length-take-le (suc n) (x ∷ xs) = omega (arith, length-take-le n xs)

-- The previous index of the next batch is the last index of this one.
next_prev-index :
    (prev : ℕ × ℕ) (e : LogEntry) (es : List LogEntry)
    → Contiguous (suc prev.0) (e ∷ es)
    → (next_prev prev (e ∷ es)).0 ≡ prev.0 + length (e ∷ es)
unfolding next_prev
next_prev-index prev e es h =
    let (x, q, i) = get_last?-index (suc prev.0) e es h in rw (q, next_prev) (omega arith)

-- For entries whose indices follow on from the previous one, and with a permit for every hundred of them,
-- the last hundred possibly not full: the entries go out whole and in order, in batches of at most a hundred
-- that follow on from one another.
pub batches_complete :
    (permits : List Permit) (prev : ℕ × ℕ) (es : List LogEntry)
    → all_acquired permits ≡ true
    → length es ≤ length permits * max_entries_per_batch
    → Contiguous (suc prev.0) es
    → (concat_entries (batches permits prev es) ≡ es) × AllSequences (batches permits prev es)
unfolding batches all_acquired
batches_complete [] prev [] free enough h = (refl, tt)
batches_complete (p ∷ ps) prev [] free enough h = (refl, tt)
batches_complete [] prev (e ∷ es) free enough h = absurd (omega arith)
batches_complete (shutting_down ∷ ps) prev (e ∷ es) free enough h = cc
batches_complete (full ∷ ps) prev (e ∷ es) free enough h = cc
batches_complete (acquired ∷ ps) prev (e ∷ es) free enough h =
    let front = take max_entries_per_batch (e ∷ es) in
    let rest = drop max_entries_per_batch (e ∷ es) in
    let whole = take-append-drop max_entries_per_batch (e ∷ es) in
    let (h1, h2) =
      Contiguous-split (suc prev.0) front rest (subst (Contiguous (suc prev.0)) (sym whole) h) in
    let prev_is = next_prev-index prev e (take 99 es) h1 in
    let (all, seq) =
      batches_complete ps (next_prev prev front) rest free
        (omega (arith, length-drop max_entries_per_batch (e ∷ es)))
        (subst (λ b. Contiguous b rest) (omega arith) h2) in
    (ap (λ l. front ++ l) all ∙ whole, (length-take-le max_entries_per_batch (e ∷ es), h1, seq))

drop-Contiguous :
    (n base : ℕ) (xs : List LogEntry)
    → Contiguous base xs
    → n < length xs
    → (x : LogEntry) × (r : List LogEntry) × (drop n xs ≡ x ∷ r) × (x.index ≡ base + n)
drop-Contiguous n base [] h lt = absurd (omega arith)
drop-Contiguous zero base (x ∷ xs) h lt = (x, xs, refl, omega (arith, h.0))
drop-Contiguous (suc n) base (x ∷ xs) h lt =
    let (y, r, q, i) = drop-Contiguous n (suc base) xs h.1 (omega arith) in (y, r, q, omega arith)

-- A full semaphore drops its batch: the batch that goes out next claims to follow the old previous entry,
-- and its first entry lies a hundred indices past the one that should come.
pub batches-skip :
    (ps : List Permit) (prev : ℕ × ℕ) (es : List LogEntry)
    → Contiguous (suc prev.0) es
    → max_entries_per_batch < length es
    → (b : Batch) × (rest : List Batch) × (e : LogEntry) × (more : List LogEntry) × (batches
          (full ∷ acquired ∷ ps)
          prev
          es
        ≡ b ∷ rest)
      × (b.prev_log_index ≡ prev.0)
      × (b.entries ≡ e ∷ more)
      × (e.index ≡ suc prev.0 + max_entries_per_batch)
unfolding batches
batches-skip ps prev [] h lt = absurd (omega arith)
batches-skip ps prev (e ∷ es) h lt =
    let (x, r, q, i) = drop-Contiguous max_entries_per_batch (suc prev.0) (e ∷ es) h lt in
    let first : Batch = record {
      prev_log_index = prev.0;
      prev_log_term = prev.1;
      entries = take max_entries_per_batch (x ∷ r);
    } in
    (
      first,
      batches ps (next_prev prev first.entries) (drop max_entries_per_batch (x ∷ r)),
      x,
      take 99 r,
      subst
          (λ l.
            batches (acquired ∷ ps) prev l
            ≡ first
              ∷ batches ps (next_prev prev first.entries) (drop max_entries_per_batch (x ∷ r)))
          (sym q) refl,
      refl,
      refl,
      i,
    )
