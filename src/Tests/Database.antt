-- ===== src/Tests/Database.antt =====
-- A database in memory that satisfies the laws of the store: a list of writes in which the last one wins.
use mathlib.Core.Option.{some-injective}
use mimori.Prelude.{
  Bool, Bool-cases, List, Option, [], ap, arith, if◌then◌else◌, inl, inr, keep, none, not, refl,
  some, subst, sym, true, ◌++◌, ◌∷◌, ◌≡◌,
}
use mimori.Raft.State.{Bytes}
use mimori.Store.{Lookup, Pebble, found, not_found}
use mimori.Store.Laws.{PebbleLaws, bytes_eq, is_in_range, last_write, overlay}

abbrev pub memory_get : Bytes → List (Bytes × Bytes) → Lookup
memory_get k d = overlay not_found (last_write k d)

abbrev pub memory : Pebble (List (Bytes × Bytes)) (List (Bytes × Bytes))
memory = record {
  set = λ k v d. some (d ++ (k, v) ∷ []);
  get = memory_get;
  delete = λ k d. some (keep (λ kv. not (bytes_eq k kv.0)) d);
  delete_range = λ start end d. some (keep (λ kv. not (is_in_range start end kv.0)) d);
  new_iter = λ d. some (d, true);
  new_batch = [];
  batch_set = λ k v b. some (b ++ (k, v) ∷ []);
  commit = λ b d. some (d ++ b);
}

bytes_eq→eq : (xs ys : Bytes) → bytes_eq xs ys ≡ true → xs ≡ ys
bytes_eq→eq [] [] h = refl
bytes_eq→eq [] (y ∷ ys) h = cc h
bytes_eq→eq (x ∷ xs) [] h = cc h
bytes_eq→eq (x ∷ xs) (y ∷ ys) h = ground (arith, bytes_eq→eq xs ys)

last_write-keep :
    (p : Bytes → Bool) (j : Bytes) (d : List (Bytes × Bytes))
    → last_write j (keep (λ kv. p kv.0) d) ≡ (if p j then last_write j d else none)
last_write-keep p j [] = ground arith
last_write-keep p j ((k, v) ∷ d) = elim (Bool-cases (bytes_eq k j)) [
  | inl same ↦ ground (arith, last_write-keep p j d, ap p (bytes_eq→eq k j same))
  | inr differs ↦ ground (arith, last_write-keep p j d)
]

abbrev later : (old now : Option Bytes) → Option Bytes
later old none = old
later old (some v) = some v

last_write-append :
    (j : Bytes) (xs ys : List (Bytes × Bytes))
    → last_write j (xs ++ ys) ≡ later (last_write j xs) (last_write j ys)
last_write-append j [] ys = ground arith
last_write-append j ((k, v) ∷ xs) ys = ground (arith, last_write-append j xs ys)

pub memory-PebbleLaws : PebbleLaws memory
memory-PebbleLaws = record {
  get-set = λ k v d d' q j.
      subst (λ x. memory_get j x ≡ (if bytes_eq k j then found v else memory_get j d))
        (some-injective _ _ q) (ground (arith, last_write-append j d ((k, v) ∷ [])));
  get-delete = λ k d d' q j.
      subst (λ x. memory_get j x ≡ (if bytes_eq k j then not_found else memory_get j d))
        (some-injective _ _ q) (ground (arith, last_write-keep (λ i. not (bytes_eq k i)) j d));
  get-delete_range = λ start end d d' q j.
      subst (λ x. memory_get j x ≡ (if is_in_range start end j then not_found else memory_get j d))
        (some-injective _ _ q)
        (ground (arith, last_write-keep (λ i. not (is_in_range start end i)) j d));
  get-new_iter = λ d kvs q j.
      ap (λ (x : List (Bytes × Bytes) × Bool). memory_get j x.0) (some-injective _ _ q);
  writes = λ b. b;
  writes-new_batch = refl;
  writes-batch_set = λ k v b b' q. sym (some-injective _ _ q);
  get-commit = λ b d d' q j.
      subst (λ x. memory_get j x ≡ overlay (memory_get j d) (last_write j b)) (some-injective _ _ q)
        (ground (arith, last_write-append j d b));
}
