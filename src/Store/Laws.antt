-- ===== src/Store/Laws.antt =====
-- What the documentation of the Pebble database says of the calls that internal/storage/storage.go makes.
use mimori.Prelude.{
  Bool, List, Option, [], false, if◌then◌else◌, ltb, none, not, some, true, ◌&&◌, ◌++◌, ◌==◌, ◌||◌,
  ◌∷◌, ◌≡◌,
}
use mimori.Raft.State.{Bytes}
use mimori.Store.{Lookup, Pebble, found, not_found}

abbrev pub bytes_eq : Bytes → Bytes → Bool
bytes_eq [] [] = true
bytes_eq [] (y ∷ ys) = false
bytes_eq (x ∷ xs) [] = false
bytes_eq (x ∷ xs) (y ∷ ys) = x == y && bytes_eq xs ys

-- The order of keys, bytewise.
abbrev pub bytes_ltb : Bytes → Bytes → Bool
bytes_ltb xs [] = false
bytes_ltb [] (y ∷ ys) = true
bytes_ltb (x ∷ xs) (y ∷ ys) = ltb x y || (x == y && bytes_ltb xs ys)

-- "the range [start,end)"
abbrev pub is_in_range : (start end key : Bytes) → Bool
is_in_range start end key = not (bytes_ltb key start) && bytes_ltb key end

-- The last value that a list of writes has for a key.
abbrev pub last_write : Bytes → List (Bytes × Bytes) → Option Bytes
last_write key [] = none
last_write key ((k, v) ∷ kvs) = elim (last_write key kvs) [
  | some w ↦ some w
  | none ↦ if bytes_eq k key then some v else none
]

-- A key after some writes, when it was `before`.
abbrev pub overlay : Lookup → Option Bytes → Lookup
overlay before none = before
overlay before (some v) = found v

pub record PebbleLaws {DB WriteBatch : Type 0} (db : Pebble DB WriteBatch) : Type 0 where
  pub get-set :
      (k v : Bytes) (d d' : DB)
      → db.set k v d ≡ some d'
      → (j : Bytes) → db.get j d' ≡ (if bytes_eq k j then found v else db.get j d)
  pub get-delete :
      (k : Bytes) (d d' : DB)
      → db.delete k d ≡ some d'
      → (j : Bytes) → db.get j d' ≡ (if bytes_eq k j then not_found else db.get j d)
  pub get-delete_range :
      (start end : Bytes) (d d' : DB)
      → db.delete_range start end d ≡ some d'
      → (j : Bytes) → db.get j d' ≡ (if is_in_range start end j then not_found else db.get j d)
  pub get-new_iter :
      (d : DB) (kvs : List (Bytes × Bytes))
      → db.new_iter d ≡ some (kvs, true)
      → (j : Bytes) → db.get j d ≡ overlay not_found (last_write j kvs)
  pub writes : WriteBatch → List (Bytes × Bytes)
  pub writes-new_batch : writes db.new_batch ≡ []
  pub writes-batch_set :
      (k v : Bytes) (b b' : WriteBatch)
      → db.batch_set k v b ≡ some b'
      → writes b' ≡ writes b ++ (k, v) ∷ []
  pub get-commit :
      (b : WriteBatch) (d d' : DB)
      → db.commit b d ≡ some d'
      → (j : Bytes) → db.get j d' ≡ overlay (db.get j d) (last_write j (writes b))
