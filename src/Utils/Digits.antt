-- ===== src/Utils/Digits.antt =====
-- What `strconv.Atoi` reads in the digits that the verb %d prints.
use mimori.Prelude.{
  Bool-cases, [], ap, arith, false, inl, inr, ltb, lt→ltb, refl, some, suc, true, zero, ℕ, ◌%◌, ◌*◌,
  ◌++◌, ◌+◌, ◌-◌, ◌/◌, ◌<◌, ◌==◌, ◌^◌, ◌∙◌, ◌∷◌, ◌≡◌, ◌≤◌,
}
use mimori.Raft.State.{Bytes}
use mimori.Utils.{
  atoi, decimal, has_byte, is_digit, itoa, itoa_int, negsuc, pos, scan, scan_number, ℤ,
}

scan-append :
    (xs : Bytes) (c n m : ℕ)
    → scan xs n ≡ some m
    → is_digit c ≡ true
    → scan (xs ++ c ∷ []) n ≡ some (m * 10 + (c - b'0'))
unfolding scan
scan-append [] c n m h d = ground arith
scan-append (x ∷ xs) c n m h d = ground (arith, scan-append xs c (n * 10 + (x - b'0')) m)

pub scan-decimal : (fuel n : ℕ) → n ≤ fuel → scan (decimal fuel n) 0 ≡ some n
unfolding decimal scan
scan-decimal zero n h = ground arith
scan-decimal (suc fuel) n h = elim (Bool-cases (ltb n 10)) [
  | inl small ↦ rw (small, decimal) (ground arith)
  | inr large ↦
      rw (large, decimal)
        (scan-append (decimal fuel (n / 10)) (b'0' + n % 10) 0 (n / 10)
            (scan-decimal fuel (n / 10) (ground arith)) (ground arith)
          ∙ ap some (omega arith))
]

-- The digits are not empty, and the first one is no sign.
abbrev StartsWithDigit : Bytes → Type 0
StartsWithDigit [] = ⊥
StartsWithDigit (c ∷ s) = is_digit c ≡ true

StartsWithDigit-append : (xs ys : Bytes) → StartsWithDigit xs → StartsWithDigit (xs ++ ys)
StartsWithDigit-append [] ys h = absurd h
StartsWithDigit-append (x ∷ xs) ys h = h

StartsWithDigit-decimal : (fuel n : ℕ) → StartsWithDigit (decimal fuel n)
unfolding decimal
StartsWithDigit-decimal zero n = ground arith
StartsWithDigit-decimal (suc fuel) n = elim (Bool-cases (ltb n 10)) [
  | inl small ↦ rw (small, decimal) (ground arith)
  | inr large ↦
      rw (large, decimal)
        (StartsWithDigit-append (decimal fuel (n / 10)) _ (StartsWithDigit-decimal fuel (n / 10)))
]

-- A value of type int.
abbrev pub IsInt : ℤ → Type 0
IsInt (pos n) = n < 2 ^ 63
IsInt (negsuc n) = n < 2 ^ 63

atoi-StartsWithDigit :
    (s : Bytes) (n : ℕ) → StartsWithDigit s → scan s 0 ≡ some n → n < 2 ^ 63 → atoi s ≡ some (pos n)
unfolding atoi scan_number
atoi-StartsWithDigit [] n d h small = absurd d
atoi-StartsWithDigit (c ∷ s) n d h small = ground (arith, lt→ltb n (2 ^ 63) small)

atoi-minus :
    (s : Bytes) (n : ℕ)
    → StartsWithDigit s
    → scan s 0 ≡ some (suc n)
    → n < 2 ^ 63
    → atoi (b'-' ∷ s) ≡ some (negsuc n)
unfolding atoi scan_number
atoi-minus [] n d h small = absurd d
atoi-minus (c ∷ s) n d h small = ground (arith, lt→ltb (suc n) (2 ^ 63 + 1) (omega (arith, small)))

scan-itoa : (n : ℕ) → scan (itoa n) 0 ≡ some n
unfolding itoa
scan-itoa n = scan-decimal n n (omega arith)

StartsWithDigit-itoa : (n : ℕ) → StartsWithDigit (itoa n)
unfolding itoa
StartsWithDigit-itoa n = StartsWithDigit-decimal n n

-- An int is read back from its print.
pub atoi-itoa_int : (z : ℤ) → IsInt z → atoi (itoa_int z) ≡ some z
unfolding itoa_int
atoi-itoa_int (pos n) small =
    atoi-StartsWithDigit (itoa n) n (StartsWithDigit-itoa n) (scan-itoa n) small
atoi-itoa_int (negsuc n) small =
    atoi-minus (itoa (suc n)) n (StartsWithDigit-itoa (suc n)) (scan-itoa (suc n)) small

-- A text that is read as digits has no other byte.
pub scan-has_byte :
    (b : ℕ) (s : Bytes) (n m : ℕ) → is_digit b ≡ false → scan s n ≡ some m → has_byte b s ≡ false
unfolding scan has_byte
scan-has_byte b [] n m other h = refl
scan-has_byte b (c ∷ s) n m other h =
    ground (arith, scan-has_byte b s (n * 10 + (c - b'0')) m other)

has_byte-itoa : (b n : ℕ) → is_digit b ≡ false → has_byte b (itoa n) ≡ false
has_byte-itoa b n other = scan-has_byte b (itoa n) 0 n other (scan-itoa n)

pub has_byte-itoa_int :
    (b : ℕ) (z : ℤ) → is_digit b ≡ false → (b == b'-') ≡ false → has_byte b (itoa_int z) ≡ false
unfolding itoa_int has_byte
has_byte-itoa_int b (pos n) other no_sign = has_byte-itoa b n other
has_byte-itoa_int b (negsuc n) other no_sign = ground (arith, has_byte-itoa b (suc n) other)
