-- ===== src/Raft/Log/Contiguous.antt =====
-- Logs without gaps: the entry at position n has index base + n.
use mimori.Prelude.{
  Bool-cases, List, [], arith, drop, drop-nil, false, get_elem?, get_last?, inl, inr, length, ltb,
  refl, some, subst, suc, sym, zero, ℕ, ◌++◌, ◌+◌, ◌-◌, ◌<◌, ◌∷◌, ◌≡◌, ◌≤◌,
}
use mimori.Raft.Log.{entries_after}
use mimori.Raft.State.{LogEntry}

-- The indices count up from `base`.
abbrev pub Contiguous : ℕ → List LogEntry → Type 0
Contiguous base [] = Unit {0}
Contiguous base (e ∷ es) = (e.index ≡ base) × Contiguous (suc base) es

pub Contiguous-append :
    (base : ℕ) (xs ys : List LogEntry)
    → Contiguous base xs
    → Contiguous (base + length xs) ys
    → Contiguous base (xs ++ ys)
Contiguous-append base [] ys hx hy = subst (λ b. Contiguous b ys) (omega arith) hy
Contiguous-append base (x ∷ xs) ys hx hy =
    (hx.0, Contiguous-append (suc base) xs ys hx.1 (subst (λ b. Contiguous b ys) (omega arith) hy))

-- Both parts of a contiguous log are contiguous.
pub Contiguous-split :
    (base : ℕ) (xs ys : List LogEntry)
    → Contiguous base (xs ++ ys)
    → Contiguous base xs × Contiguous (base + length xs) ys
Contiguous-split base [] ys h = (tt, subst (λ b. Contiguous b ys) (omega arith) h)
Contiguous-split base (x ∷ xs) ys h =
    let (front, back) = Contiguous-split (suc base) xs ys h.1 in
    ((h.0, front), subst (λ b. Contiguous b ys) (omega arith) back)

-- The entry at a position has the index of that position.
pub index-get_elem? :
    (base : ℕ) (xs : List LogEntry) (i : ℕ) (e : LogEntry)
    → Contiguous base xs
    → get_elem? xs i ≡ some e
    → e.index ≡ base + i
index-get_elem? base [] i e h q = cc
index-get_elem? base (x ∷ xs) zero e h q = ground arith
index-get_elem? base (x ∷ xs) (suc i) e h q = omega (arith, index-get_elem? (suc base) xs i e h.1 q)

pub get_last?-index :
    (base : ℕ) (x : LogEntry) (xs : List LogEntry)
    → Contiguous base (x ∷ xs)
    → (e : LogEntry) × (get_last? (x ∷ xs) ≡ some e) × (e.index ≡ base + length xs)
get_last?-index base x [] h = (x, refl, omega (arith, h.0))
get_last?-index base x (y ∷ r) h =
    let (e, q, n) = get_last?-index (suc base) y r h.1 in (e, q, omega arith)

-- Past the last index every entry of the suffix is kept, and at most that index none is.
pub entries_after-all :
    (last base : ℕ) (xs : List LogEntry)
    → Contiguous base xs
    → last < base
    → entries_after last xs ≡ xs
unfolding entries_after
entries_after-all last base [] h lt = refl
entries_after-all last base (x ∷ xs) h lt = ground (arith, entries_after-all last (suc base) xs h.1)

-- Compaction drops exactly the entries up to `last`.
pub entries_after-drop :
    (last base : ℕ) (xs : List LogEntry)
    → Contiguous base xs
    → base ≤ suc last
    → entries_after last xs ≡ drop (suc last - base) xs
unfolding entries_after
entries_after-drop last base [] h le = sym (drop-nil (suc last - base))
entries_after-drop last base (x ∷ xs) h le = elim (Bool-cases (ltb last base)) [
  | inl above ↦
      let none_dropped : suc last - base ≡ 0 = ground arith in
      rw none_dropped (entries_after-all last base (x ∷ xs) h (ground arith))
  | inr below ↦
      let one_more : suc last - base ≡ suc (suc last - suc base) = ground arith in
      rw one_more (ground (arith, entries_after-drop last (suc base) xs h.1))
]

-- So what compaction keeps is contiguous from the snapshot's next index on.
pub entries_after-Contiguous :
    (last base : ℕ) (xs : List LogEntry)
    → Contiguous base xs
    → base ≤ suc last
    → Contiguous (suc last) (entries_after last xs)
unfolding entries_after
entries_after-Contiguous last base [] h le = tt
entries_after-Contiguous last base (x ∷ xs) h le = elim (Bool-cases (ltb last base)) [
  | inl above ↦
      let here : base ≡ suc last = ground arith in
      rw (entries_after-all last base (x ∷ xs) h (ground arith))
        (subst (λ b. Contiguous b (x ∷ xs)) here h)
  | inr below ↦
      let skipped : ltb last x.index ≡ false = ground arith in
      rw skipped (entries_after-Contiguous last (suc base) xs h.1 (ground arith))
]
