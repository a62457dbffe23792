-- ===== src/Prelude/Quorums.antt =====
-- Lists of names without repetition, and the overlap of two large ones.
use Prim.Native.String.{String}
use Prim.Native.Nat.{◌+◌, ◌<◌}
use mathlib.Core.Path.{◌≡◌}
use mathlib.Core.Logic.{inl, inr}
use mathlib.Core.Bool.{true, false, not}
use mathlib.Core.List.{List, [], ◌∷◌}
use native.Mathlib.Omega.{arith}
use mimori.Prelude.Lists.{keep, length, length-keep-le}
use mimori.Prelude.Tests.{Bool-cases}
use mimori.Prelude.Texts.{str_elem, str_eq, str_eq_iff}

abbrev pub Distinct : List String → Type 0
Distinct [] = Unit {0}
Distinct (x ∷ xs) = (str_elem x xs ≡ false) × Distinct xs

-- Every name of the first list is in the second.
abbrev pub Within : List String → List String → Type 0
Within [] ms = Unit {0}
Within (x ∷ xs) ms = (str_elem x ms ≡ true) × Within xs ms

abbrev others : String → List String → List String
others x ms = keep (λ y. not (str_eq y x)) ms

length-others :
    (x : String) (ms : List String) → str_elem x ms ≡ true → length (others x ms) < length ms
unfolding str_elem
length-others x [] h = ground arith
length-others x (m ∷ ms) h =
    ground (arith, length-others x ms, length-keep-le (λ y. not (str_eq y x)) ms)

str_elem-others :
    (x y : String) (ms : List String)
    → str_eq y x ≡ false
    → str_elem y ms ≡ true
    → str_elem y (others x ms) ≡ true
unfolding str_elem
str_elem-others x y [] other h = ground arith
str_elem-others x y (m ∷ ms) other h =
    ground (arith, str_elem-others x y ms other, str_eq_iff m y, str_eq_iff m x, str_eq_iff y x)

Within-others :
    (x : String) (ys ms : List String)
    → str_elem x ys ≡ false
    → Within ys ms
    → Within ys (others x ms)
unfolding str_elem
Within-others x [] ms absent h = tt
Within-others x (y ∷ ys) ms absent h =
    (str_elem-others x y ms (ground arith) h.0, Within-others x ys ms (ground arith) h.1)

length-Within : (xs ms : List String) → Distinct xs → Within xs ms → length xs < length ms + 1
length-Within [] ms d h = omega arith
length-Within (x ∷ xs) ms d h = omega (
  arith,
  length-others x ms h.0,
  length-Within xs (others x ms) d.1 (Within-others x xs ms d.0 h.1),
)

-- Two lists of distinct members that together are longer than the list of the members share a name.
pub Distinct-overlap :
    (xs ys ms : List String)
    → Distinct xs
    → Distinct ys
    → Within xs ms
    → Within ys ms
    → length ms < length xs + length ys
    → (m : String) × (str_elem m xs ≡ true) × (str_elem m ys ≡ true)
unfolding str_elem
Distinct-overlap [] ys ms dx dy wx wy long = absurd (omega (arith, length-Within ys ms dy wy))
Distinct-overlap (x ∷ xs) ys ms dx dy wx wy long = elim (Bool-cases (str_elem x ys)) [
  | inl both ↦ (x, ground (arith, str_eq_iff x x), both)
  | inr absent ↦
      let (m, in_xs, in_ys) =
        Distinct-overlap xs ys (others x ms) dx.1 dy (Within-others x xs ms dx.0 wx.1)
          (Within-others x ys ms absent wy) (omega (arith, length-others x ms wx.0)) in
      (m, ground arith, in_ys)
]
