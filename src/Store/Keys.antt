-- ===== src/Store/Keys.antt =====
-- What encoding/json makes of the keys of a map, as internal/storage/storage.go writes them: bytes that are
-- no UTF-8 come back as the replacement character.
use mathlib.Core.Path.{ap₂}
use mimori.Prelude.{
  Bool, List, [], ap, arith, false, if◌then◌else◌, leb, ltb, not, refl, suc, true, zero, ℕ, ◌&&◌,
  ◌-◌, ◌==◌, ◌∷◌, ◌≡◌,
}
use mimori.Raft.State.{Bytes}

abbrev pub is_between : (low high c : ℕ) → Bool
is_between low high c = leb low c && leb c high

abbrev pub is_tail : ℕ → Bool
is_tail c = is_between 128 191 c

abbrev pub is_start_of_three : (a b : ℕ) → Bool
is_start_of_three a b =
    if a == 224
    then is_between 160 191 b
    else (if a == 237 then is_between 128 159 b else is_between 225 239 a && is_tail b)

abbrev pub is_start_of_four : (a b : ℕ) → Bool
is_start_of_four a b =
    if a == 240
    then is_between 144 191 b
    else (if a == 244 then is_between 128 143 b else is_between 241 243 a && is_tail b)

abbrev pub first_is_tail : Bytes → Bool
first_is_tail [] = false
first_is_tail (c ∷ s) = is_tail c

-- The length of the UTF-8 sequence that bytes start with, or 0 where they start with none.
unfoldable pub rune_len : Bytes → ℕ
rune_len [] = 0
rune_len (a ∷ []) = if ltb a 128 then 1 else 0
rune_len (a ∷ b ∷ []) =
    if ltb a 128 then 1 else (if is_between 194 223 a && is_tail b then 2 else 0)
rune_len (a ∷ b ∷ c ∷ s) =
    if ltb a 128
    then 1
    else (if is_between 194 223 a && is_tail b
        then 2
        else (if is_start_of_three a b && is_tail c
            then 3
            else (if is_start_of_four a b && is_tail c && first_is_tail s then 4 else 0)))

-- A string of a JSON text that was written from the bytes and read again.  The first
-- argument counts the bytes that are left of a sequence.
unfoldable pub json_text : (left : ℕ) → Bytes → Bytes
unfolding rune_len
json_text left [] = []
json_text (suc left) (c ∷ s) = c ∷ json_text left s
json_text zero (c ∷ s) =
    let rest = json_text (rune_len (c ∷ s) - 1) s in
    if rune_len (c ∷ s) == 0 then 239 ∷ 191 ∷ 189 ∷ rest else c ∷ rest

-- The bytes are UTF-8.
unfoldable pub is_utf8 : (left : ℕ) → Bytes → Bool
unfolding rune_len
is_utf8 left [] = true
is_utf8 (suc left) (c ∷ s) = is_utf8 left s
is_utf8 zero (c ∷ s) =
    let rest = is_utf8 (rune_len (c ∷ s) - 1) s in not (rune_len (c ∷ s) == 0) && rest

-- The entries of a map after they were written and read.
unfoldable pub json_entries : List (Bytes × Bytes) → List (Bytes × Bytes)
unfolding json_text
json_entries [] = []
json_entries ((k, v) ∷ kvs) = (json_text 0 k, v) ∷ json_entries kvs

abbrev pub AllUtf8 : List (Bytes × Bytes) → Type 0
AllUtf8 [] = Unit {0}
AllUtf8 ((k, v) ∷ kvs) = (is_utf8 0 k ≡ true) × AllUtf8 kvs

json_text-is_utf8 : (left : ℕ) (s : Bytes) → is_utf8 left s ≡ true → json_text left s ≡ s
unfolding json_text is_utf8
json_text-is_utf8 left [] h = refl
json_text-is_utf8 (suc left) (c ∷ s) h = ap (◌∷◌ c) (json_text-is_utf8 left s h)
json_text-is_utf8 zero (c ∷ s) h = ground (arith, json_text-is_utf8 (rune_len (c ∷ s) - 1) s)

pub json_entries-AllUtf8 : (kvs : List (Bytes × Bytes)) → AllUtf8 kvs → json_entries kvs ≡ kvs
unfolding json_entries
json_entries-AllUtf8 [] h = refl
json_entries-AllUtf8 ((k, v) ∷ kvs) h =
    ap₂ (λ (j : Bytes) (l : List (Bytes × Bytes)). (j, v) ∷ l) (json_text-is_utf8 0 k h.0)
      (json_entries-AllUtf8 kvs h.1)
