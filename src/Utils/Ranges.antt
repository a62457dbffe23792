-- ===== src/Utils/Ranges.antt =====
-- The numbers that `ParseHostPort` returns are ints.
use mathlib.Core.Option.{some-injective}
use mimori.Prelude.{
  Bool-cases, Option, Option-cases, [], ap, arith, if◌then◌else◌, inl, inr, ltb, ltb→lt, none, some,
  subst, suc, sym, zero, ℕ, ◌+◌, ◌<◌, ◌==◌, ◌^◌, ◌∙◌, ◌∷◌, ◌≡◌,
}
use mimori.Raft.State.{Bytes}
use mimori.Utils.{
  atoi, neg, parse_host_port, port_number, pos, scan_number, split_host_port, within_int, ℤ,
}
use mimori.Utils.Digits.{IsInt}

-- What is read is an int.
within_int-IsInt :
    (bound : ℕ) (sign : ℕ → ℤ) (o : Option ℕ) (z : ℤ)
    → ((n : ℕ) → n < bound → IsInt (sign n))
    → within_int bound sign o ≡ some z
    → IsInt z
within_int-IsInt bound sign none z fits h = cc
within_int-IsInt bound sign (some n) z fits h = elim (Bool-cases (ltb n bound)) [
  | inl small ↦
      subst IsInt (some-injective _ _ (ap (λ b. if b then some (sign n) else none) (sym small) ∙ h))
        (fits n (ltb→lt n bound small))
  | inr large ↦ cc
]

neg-IsInt : (n : ℕ) → n < 2 ^ 63 + 1 → IsInt (neg n)
neg-IsInt zero h = omega arith
neg-IsInt (suc n) h = omega arith

atoi-IsInt : (s : Bytes) (z : ℤ) → atoi s ≡ some z → IsInt z
unfolding atoi
atoi-IsInt [] z h = cc
atoi-IsInt (c ∷ s) z h = ground (
  arith,
  within_int-IsInt (2 ^ 63 + 1) neg (scan_number s) z neg-IsInt,
  within_int-IsInt (2 ^ 63) pos (scan_number s) z (λ n small. small),
  within_int-IsInt (2 ^ 63) pos (scan_number (c ∷ s)) z (λ n small. small),
)

port_number-IsInt : (s : Bytes) → IsInt (port_number s)
unfolding port_number
port_number-IsInt s = elim (Option-cases (atoi s)) [
  | inl no_value ↦ rw (no_value, port_number) (omega arith)
  | inr (z, got) ↦ rw (got, port_number) (atoi-IsInt s z got)
]

pub parse_host_port-IsInt : (addr : Bytes) → IsInt (parse_host_port addr).1
unfolding parse_host_port
parse_host_port-IsInt [] = omega arith
parse_host_port-IsInt (c ∷ s) = elim (Option-cases (split_host_port (c ∷ s))) [
  | inl no_value ↦ elim (Bool-cases (c == b':')) [
    | inl port_only ↦ rw (no_value, port_only, parse_host_port) (port_number-IsInt s)
    | inr other ↦ rw (no_value, other, parse_host_port) (omega arith)
  ]
  | inr (parts, got) ↦ rw (got, parse_host_port) (port_number-IsInt parts.1)
]
