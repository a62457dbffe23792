-- ===== src/Prelude/Tables.antt =====
-- Go's `map[string]V` as an association list.  A key occurs once; the order is not observed.
use Prim.Native.Nat.{ℕ}
use Prim.Native.String.{String}
use mathlib.Core.Path.{◌≡◌, refl}
use mathlib.Core.Option.{Option, none, some}
use mathlib.Core.List.{List, [], ◌∷◌}
use native.Mathlib.Omega.{arith}
use mimori.Prelude.Tests.{if◌then◌else◌}
use mimori.Prelude.Texts.{str_eq, str_eq_iff}

abbrev pub Table {ℓ} : Type ℓ → Type ℓ
Table V = List (String × V)

module _ {ℓ} {V : Type ℓ} where
  -- `v, ok := m[k]`
  unfoldable pub find : String → Table V → Option V
  find k [] = none
  find k ((j, v) ∷ m) = if str_eq j k then some v else find k m

  -- `m[k] = v`
  unfoldable pub put : String → V → Table V → Table V
  put k v [] = (k, v) ∷ []
  put k v ((j, w) ∷ m) = if str_eq j k then (k, v) ∷ m else (j, w) ∷ put k v m

  -- `delete(m, k)`
  unfoldable pub remove : String → Table V → Table V
  remove k [] = []
  remove k ((j, w) ∷ m) = let rest = remove k m in if str_eq j k then rest else (j, w) ∷ rest

  pub find-put :
      (k j : String) (v : V) (m : Table V)
      → find j (put k v m) ≡ (if str_eq k j then some v else find j m)
  unfolding find put
  find-put k j v [] = refl
  find-put k j v ((i, w) ∷ m) =
      ground (arith, str_eq_iff k j, str_eq_iff i k, str_eq_iff i j, find-put k j v m)

  pub find-remove :
      (k j : String) (m : Table V) → find j (remove k m) ≡ (if str_eq k j then none else find j m)
  unfolding find remove
  find-remove k j [] = ground arith
  find-remove k j ((i, w) ∷ m) =
      ground (arith, str_eq_iff k j, str_eq_iff i k, str_eq_iff i j, find-remove k j m)

-- `m[k]` for a map into int: the zero value where the key is missing.
unfoldable pub find_int : String → Table ℕ → ℕ
unfolding find
find_int k m = elim (find k m) [ none ↦ 0 | some v ↦ v ]

pub find_int-put :
    (k j : String) (v : ℕ) (m : Table ℕ)
    → find_int j (put k v m) ≡ (if str_eq k j then v else find_int j m)
unfolding find_int
find_int-put k j v m = ground (arith, find-put k j v m)

pub ruleset table_laws = (find-put, find-remove, find_int-put)
