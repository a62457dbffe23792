-- ===== src/Raft/Invariant.antt =====
-- When the indices of a node fit together, and the lemmas about its log helpers that follow.
use mimori.Prelude.{
  Bool-cases, List, [], ap, arith, get_elem?, get_last?, inl, inr, length, le→ltb, ltb, refl, some,
  suc, take, zero, ℕ, ◌+◌, ◌-◌, ◌<◌, ◌∷◌, ◌≡◌, ◌≤◌,
}
use mimori.Raft.Log.{entry_at, last_log_index}
use mimori.Raft.Log.Contiguous.{Contiguous, get_last?-index, index-get_elem?}
use mimori.Raft.State.{LogEntry, Raft}

pub record WellFormed (r : Raft) : Type 0 where
  pub contiguous : Contiguous r.log_base_index r.log
  pub has_dummy : 0 < length r.log
  pub base_applied : r.log_base_index ≤ r.last_applied
  pub applied_committed : r.last_applied ≤ r.commit_index
  pub committed_in_log : r.commit_index < r.log_base_index + length r.log

pub get_elem?-lt_length {ℓ} :
    {A : Type ℓ} (xs : List A) (i : ℕ) (x : A) → get_elem? xs i ≡ some x → i < length xs
get_elem?-lt_length [] i x q = cc
get_elem?-lt_length (y ∷ ys) zero x q = omega arith
get_elem?-lt_length (y ∷ ys) (suc i) x q = omega (arith, get_elem?-lt_length ys i x q)

pub get_elem?-some {ℓ} :
    {A : Type ℓ} (xs : List A) (i : ℕ) → i < length xs → (x : A) × (get_elem? xs i ≡ some x)
get_elem?-some [] i h = absurd (omega arith)
get_elem?-some (y ∷ ys) zero h = (y, refl)
get_elem?-some (y ∷ ys) (suc i) h = get_elem?-some ys i (omega arith)

pub length-take_le {ℓ} : {A : Type ℓ} (n : ℕ) (xs : List A) → n ≤ length xs → length (take n xs) ≡ n
length-take_le zero xs h = refl
length-take_le (suc n) [] h = absurd (omega arith)
length-take_le (suc n) (x ∷ xs) h = ap suc (length-take_le n xs (omega arith))

last_index-of_list :
    (base : ℕ) (xs : List LogEntry)
    → Contiguous base xs
    → 0 < length xs
    → (e : LogEntry) × (get_last? xs ≡ some e) × (suc e.index ≡ base + length xs)
last_index-of_list base [] h n = absurd (omega arith)
last_index-of_list base (x ∷ xs) h n =
    let (e, q, i) = get_last?-index base x xs h in (e, q, omega arith)

pub last_log_index-of_Contiguous :
    (r : Raft)
    → Contiguous r.log_base_index r.log
    → 0 < length r.log
    → suc (last_log_index r) ≡ r.log_base_index + length r.log
unfolding last_log_index
last_log_index-of_Contiguous r h n =
    let (e, q, i) = last_index-of_list r.log_base_index r.log h n in rw (q, last_log_index) i

-- The last index of a well-formed log is the base plus its length less the dummy entry.
pub last_log_index-eq :
    (r : Raft) → WellFormed r → suc (last_log_index r) ≡ r.log_base_index + length r.log
last_log_index-eq r v = last_log_index-of_Contiguous r v.contiguous v.has_dummy

-- `entryAt` finds exactly the indices from the base to the last one, and each entry under its own index.
pub entry_at-index :
    (r : Raft) (idx : ℕ) (e : LogEntry)
    → WellFormed r
    → entry_at r idx ≡ some e
    → (e.index ≡ idx) × (r.log_base_index ≤ idx) × (idx ≤ last_log_index r)
unfolding entry_at
entry_at-index r idx e v q = elim (Bool-cases (ltb idx r.log_base_index)) [
  | inl below ↦ cc (q, below)
  | inr inside ↦
      let found : get_elem? r.log (idx - r.log_base_index) ≡ some e = rw inside at q in
      let at =
        index-get_elem? r.log_base_index r.log (idx - r.log_base_index) e v.contiguous found in
      let bound = get_elem?-lt_length r.log (idx - r.log_base_index) e found in
      ground (arith, last_log_index-eq r v)
]

pub entry_at-some :
    (r : Raft) (idx : ℕ)
    → WellFormed r
    → r.log_base_index ≤ idx
    → idx ≤ last_log_index r
    → (e : LogEntry) × (entry_at r idx ≡ some e)
unfolding entry_at
entry_at-some r idx v lo hi =
    rw (le→ltb idx r.log_base_index lo)
      (get_elem?-some r.log (idx - r.log_base_index) (omega (arith, last_log_index-eq r v)))
