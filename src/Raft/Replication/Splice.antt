-- ===== src/Raft/Replication/Splice.antt =====
-- The loop of `AppendEntries` against a reference without offsets.
use mimori.Prelude.{
  Bool-cases, List, [], ap, append-nil, append_assoc, arith, eq→==, false, get_elem?,
  get_elem?-append_length, if◌then◌else◌, inl, inr, length, length-append, refl, some, subst, suc,
  take-append-length, true, zero, ℕ, ◌++◌, ◌+◌, ◌-◌, ◌==◌, ◌∙◌, ◌∷◌, ◌≡◌, ◌≤◌,
}
use mimori.Raft.Log.Contiguous.{Contiguous}
use mimori.Raft.Replication.{append_loop, append_one}
use mimori.Raft.State.{LogEntry}

-- The reference: walk along both lists while the terms agree; at the first conflict, or past the end of
-- the log, the leader's entries replace what is left.
unfoldable pub splice : List LogEntry → List LogEntry → List LogEntry
splice [] es = es
splice (x ∷ xs) [] = x ∷ xs
splice (x ∷ xs) (e ∷ es) = let rest = splice xs es in if x.term == e.term then x ∷ rest else e ∷ es

splice_self : (es : List LogEntry) → splice es es ≡ es
unfolding splice
splice_self [] = refl
splice_self (e ∷ es) = rw (eq→== e.term e.term refl) (ap (◌∷◌ e) (splice_self es))

length-snoc {ℓ} : {A : Type ℓ} (xs : List A) (y : A) → length (xs ++ y ∷ []) ≡ suc (length xs)
length-snoc xs y = omega (arith, length-append xs (y ∷ []))

module _ (base : ℕ) (e : LogEntry) (pre : List LogEntry) (here : e.index ≡ base + length pre) where
  append_one-past_end : append_one base e pre ≡ pre ++ e ∷ []
  unfolding append_one
  append_one-past_end = ground arith

  append_one-same :
      (x : LogEntry) (xs : List LogEntry)
      → (x.term == e.term) ≡ true
      → append_one base e (pre ++ x ∷ xs) ≡ pre ++ x ∷ xs
  unfolding append_one
  append_one-same x xs same =
      let offset : e.index - base ≡ length pre = omega arith in
      rw offset (ground (arith, length-append pre (x ∷ xs), get_elem?-append_length pre x xs))

  append_one-conflict :
      (x : LogEntry) (xs : List LogEntry)
      → (x.term == e.term) ≡ false
      → append_one base e (pre ++ x ∷ xs) ≡ pre ++ e ∷ []
  unfolding append_one
  append_one-conflict x xs differs =
      let offset : e.index - base ≡ length pre = omega arith in
      rw offset (
        ground (
          arith,
          length-append pre (x ∷ xs),
          get_elem?-append_length pre x xs,
          take-append-length pre (x ∷ xs),
        ))

snoc_assoc {ℓ} :
    {A : Type ℓ} (xs : List A) (y : A) (ys : List A) → (xs ++ y ∷ []) ++ ys ≡ xs ++ y ∷ ys
snoc_assoc xs y ys = append_assoc xs (y ∷ []) ys

Contiguous-snoc :
    (base : ℕ) (pre : List LogEntry) (x : LogEntry) (es : List LogEntry)
    → Contiguous (suc (base + length pre)) es
    → Contiguous (base + length (pre ++ x ∷ [])) es
Contiguous-snoc base pre x es h = subst (λ b. Contiguous b es) (omega (arith, length-snoc pre x)) h

-- Consecutive entries that start inside the log, or right behind it, are spliced in there.
pub append_loop-eq-splice :
    (base : ℕ) (pre suffix es : List LogEntry)
    → Contiguous (base + length pre) es
    → append_loop base es (pre ++ suffix) ≡ pre ++ splice suffix es
unfolding append_loop splice
append_loop-eq-splice base pre [] [] h = refl
append_loop-eq-splice base pre (x ∷ xs) [] h = refl
append_loop-eq-splice base pre [] (e ∷ es) h =
    let ih = append_loop-eq-splice base (pre ++ e ∷ []) [] es (Contiguous-snoc base pre e es h.1) in
    rw (append-nil pre, append_one-past_end base e pre h.0, ← append-nil (pre ++ e ∷ []))
      (ih ∙ snoc_assoc pre e es)
append_loop-eq-splice base pre (x ∷ xs) (e ∷ es) h =
    let kept =
      append_loop-eq-splice base (pre ++ x ∷ []) xs es (Contiguous-snoc base pre x es h.1) in
    let cut =
      append_loop-eq-splice base (pre ++ e ∷ []) [] es (Contiguous-snoc base pre e es h.1) in
    elim (Bool-cases (x.term == e.term)) [
      | inl same ↦
          rw (append_one-same base e pre h.0 x xs same, same, ← snoc_assoc pre x xs)
            (kept ∙ snoc_assoc pre x (splice xs es))
      | inr differs ↦
          rw
            (append_one-conflict base e pre h.0 x xs differs, differs, ← append-nil (pre ++ e ∷ []))
            (cut ∙ snoc_assoc pre e es)
    ]

-- Every spliced entry is in the result, at its place, with its term.
pub get_elem?-splice :
    (xs es : List LogEntry) (i : ℕ) (e : LogEntry)
    → get_elem? es i ≡ some e
    → (x : LogEntry) × (get_elem? (splice xs es) i ≡ some x) × (x.term ≡ e.term)
unfolding splice
get_elem?-splice [] es i e q = (e, q, refl)
get_elem?-splice (x ∷ xs) [] i e q = cc
get_elem?-splice (x ∷ xs) (e' ∷ es) zero e q = elim (Bool-cases (x.term == e'.term)) [
  | inl same ↦ (x, rw same refl, ground arith)
  | inr differs ↦ (e, rw differs q, refl)
]
get_elem?-splice (x ∷ xs) (e' ∷ es) (suc i) e q = elim (Bool-cases (x.term == e'.term)) [
  | inl same ↦ rw same (get_elem?-splice xs es i e q)
  | inr differs ↦ rw differs (e, q, refl)
]

-- Splicing the same entries in again changes nothing.
pub splice_idem : (xs es : List LogEntry) → splice (splice xs es) es ≡ splice xs es
unfolding splice
splice_idem [] [] = refl
splice_idem [] (e ∷ es) = rw (eq→== e.term e.term refl, splice_self es) refl
splice_idem (x ∷ xs) [] = refl
splice_idem (x ∷ xs) (e ∷ es) = elim (Bool-cases (x.term == e.term)) [
  | inl same ↦ rw (same, same) (ap (◌∷◌ x) (splice_idem xs es))
  | inr differs ↦ rw (differs, eq→== e.term e.term refl) (ap (◌∷◌ e) (splice_self es))
]

-- Splicing never shortens the log unless an entry conflicts: it is as long as the entries reach.
pub length-splice : (xs es : List LogEntry) → length es ≤ length (splice xs es)
unfolding splice
length-splice [] es = omega arith
length-splice (x ∷ xs) [] = omega arith
length-splice (x ∷ xs) (e ∷ es) = ground (arith, length-splice xs es)

pub Contiguous-splice :
    (base : ℕ) (xs es : List LogEntry)
    → Contiguous base xs
    → Contiguous base es
    → Contiguous base (splice xs es)
unfolding splice
Contiguous-splice base [] es hx he = he
Contiguous-splice base (x ∷ xs) [] hx he = hx
Contiguous-splice base (x ∷ xs) (e ∷ es) hx he =
    ground (arith, Contiguous-splice (suc base) xs es hx.1 he.1)
