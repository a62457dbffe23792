-- ===== src/Utils/Splits.antt =====
-- `strings.Split` and `strings.Join` with a separator of one byte.
use mimori.Prelude.{
  List, [], ap, arith, false, if◌then◌else◌, keep, not, refl, ℕ, ◌++◌, ◌==◌, ◌∙◌, ◌∷◌, ◌≡◌, ◌≢◌,
}
use mimori.Raft.State.{Bytes}
use mimori.Store.Laws.{bytes_eq}
use mimori.Utils.{has_byte}

-- `strings.Split`: the parts between the separators, at least one.
unfoldable pub split_on : (b : ℕ) → Bytes → List Bytes
split_on b [] = [] ∷ []
split_on b (c ∷ s) = elim (split_on b s) [
  | [] ↦ (c ∷ []) ∷ []
  | p ∷ ps ↦ if c == b then [] ∷ p ∷ ps else (c ∷ p) ∷ ps
]

-- `strings.Join`
unfoldable pub join_with : (b : ℕ) → List Bytes → Bytes
join_with b [] = []
join_with b (x ∷ []) = x
join_with b (x ∷ y ∷ xs) = x ++ b ∷ join_with b (y ∷ xs)

-- Texts that are not empty and have no `b`.
abbrev pub AllClean : (b : ℕ) → List Bytes → Type 0
AllClean b [] = Unit {0}
AllClean b (x ∷ xs) = (bytes_eq x [] ≡ false) × (has_byte b x ≡ false) × AllClean b xs

pub split_on-no_byte : (b : ℕ) (x : Bytes) → has_byte b x ≡ false → split_on b x ≡ x ∷ []
unfolding split_on has_byte
split_on-no_byte b [] h = refl
split_on-no_byte b (c ∷ x) h = ground (arith, split_on-no_byte b x)

pub split_on-nonempty : (b : ℕ) (x : Bytes) → split_on b x ≢ []
unfolding split_on
split_on-nonempty b [] h = cc
split_on-nonempty b (c ∷ x) h = ground (arith, split_on-nonempty b x)

pub split_on-append :
    (b : ℕ) (x rest : Bytes)
    → has_byte b x ≡ false
    → split_on b (x ++ b ∷ rest) ≡ x ∷ split_on b rest
unfolding split_on has_byte
split_on-append b [] rest h = ground (arith, split_on-nonempty b rest)
split_on-append b (c ∷ x) rest h = ground (arith, split_on-append b x rest)

pub split_on-join_with :
    (b : ℕ) (x : Bytes) (xs : List Bytes)
    → AllClean b (x ∷ xs)
    → split_on b (join_with b (x ∷ xs)) ≡ x ∷ xs
unfolding join_with
split_on-join_with b x [] clean = split_on-no_byte b x clean.1
split_on-join_with b x (y ∷ xs) clean =
    split_on-append b x (join_with b (y ∷ xs)) clean.1
    ∙ ap (◌∷◌ x) (split_on-join_with b y xs clean.2)

pub keep-AllClean :
    (b : ℕ) (xs : List Bytes) → AllClean b xs → keep (λ p. not (bytes_eq p [])) xs ≡ xs
keep-AllClean b [] clean = refl
keep-AllClean b (x ∷ xs) clean = rw (clean.0, keep-AllClean b xs clean.2) refl

-- A text joined from clean parts is empty only when there are none.
pub bytes_eq-join_with :
    (b : ℕ) (x : Bytes) (xs : List Bytes)
    → AllClean b (x ∷ xs)
    → bytes_eq (join_with b (x ∷ xs)) [] ≡ false
unfolding join_with
bytes_eq-join_with b x [] clean = clean.0
bytes_eq-join_with b [] (y ∷ xs) clean = cc
bytes_eq-join_with b (c ∷ x) (y ∷ xs) clean = refl
