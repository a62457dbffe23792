-- ===== src/Store/Restore.antt =====
-- What `Restore` of internal/storage/storage.go makes of a snapshot.
use mathlib.Core.Option.{some-injective}
use mimori.Prelude.{
  List, Option, Option-cases, [], ap, append-nil, append_assoc, inl, inr, none, refl, some, subst,
  sym, true, ◌++◌, ◌∙◌, ◌∷◌, ◌≡◌,
}
use mimori.Raft.State.{Bytes}
use mimori.Store.{
  Lookup, Pebble, SnapshotData, dump, failed, fill_batch, found, kv_restore, kv_snapshot, not_found,
  reset,
}
use mimori.Store.Keys.{AllUtf8, json_entries, json_entries-AllUtf8}
use mimori.Store.Laws.{PebbleLaws, last_write, overlay}

module _ {DB WriteBatch : Type 0} (db : Pebble DB WriteBatch) (laws : PebbleLaws db) where
  writes-fill_batch :
      (kvs : List (Bytes × Bytes)) (b b' : WriteBatch)
      → fill_batch db kvs b ≡ some b'
      → laws.writes b' ≡ laws.writes b ++ kvs
  unfolding fill_batch
  writes-fill_batch [] b b' q =
      ap laws.writes (sym (some-injective b b' q)) ∙ sym (append-nil (laws.writes b))
  writes-fill_batch ((k, v) ∷ kvs) b b' q = elim (Option-cases (db.batch_set k v b)) [
    | inl fails ↦ cc (q, fails)
    | inr (b1, sets) ↦
        let rest : fill_batch db kvs b1 ≡ some b' = rw (fill_batch, sets) at q in
        writes-fill_batch kvs b1 b' rest
        ∙ (ap (λ l. l ++ kvs) (laws.writes-batch_set k v b b1 sets)
            ∙ append_assoc (laws.writes b) ((k, v) ∷ []) kvs)
  ]

  -- No key lies in the range from nil to nil.
  get-reset : (d d' : DB) → reset db d ≡ some d' → (j : Bytes) → db.get j d' ≡ db.get j d
  unfolding reset
  get-reset d d' q j = laws.get-delete_range [] [] d d' q j

  -- A restore that returns without an error gives every key of the snapshot its value there, and leaves
  -- every other key what it was before.
  pub kv_restore-get :
      (kvs : List (Bytes × Bytes)) (d d' : DB)
      → kv_restore db (dump kvs) d ≡ (d', true)
      → (j : Bytes) → db.get j d' ≡ overlay (db.get j d) (last_write j kvs)
  unfolding kv_restore
  kv_restore-get kvs d d' q j = elim (Option-cases (reset db d)) [
    | inl fails ↦ cc (q, fails)
    | inr (d1, wiped) ↦ (elim (Option-cases (fill_batch db kvs db.new_batch)) [
      | inl fails ↦ cc (q, wiped, fails)
      | inr (b, filled) ↦ (elim (Option-cases (db.commit b d1)) [
        | inl fails ↦ cc (q, wiped, filled, fails)
        | inr (d2, committed) ↦
            let same : d2 ≡ d' = cc (q, wiped, filled, committed) in
            let all : laws.writes b ≡ kvs =
              writes-fill_batch kvs db.new_batch b filled
              ∙ ap (λ l. l ++ kvs) laws.writes-new_batch in
            subst (λ x. db.get j x ≡ overlay (db.get j d) (last_write j kvs)) same
              (laws.get-commit b d1 d2 committed j
                ∙ (ap (λ l. overlay (db.get j d1) (last_write j l)) all
                    ∙ ap (λ x. overlay x (last_write j kvs)) (get-reset d d1 wiped j)))
      ])
    ])
  ]

  -- A key in the database of a snapshot that was taken and another that it was restored to.
  abbrev pub restored_over : (old now : Lookup) → Lookup
  restored_over old (found v) = found v
  restored_over old not_found = old
  restored_over old failed = old

  restored_over-overlay :
      (old : Lookup) (w : Option Bytes) → restored_over old (overlay not_found w) ≡ overlay old w
  restored_over-overlay old none = refl
  restored_over-overlay old (some v) = refl

  -- When the iteration over one database ends without an error and all its keys are UTF-8: a snapshot of it,
  -- restored to another, gives every key that it holds its value there, and a key that it does not hold stays
  -- in the other database as it was.
  pub kv_restore-kv_snapshot :
      (d1 d2 d' : DB) (kvs : List (Bytes × Bytes)) (saved : SnapshotData)
      → db.new_iter d1 ≡ some (kvs, true)
      → AllUtf8 kvs
      → kv_snapshot db d1 ≡ some saved
      → kv_restore db saved d2 ≡ (d', true)
      → (j : Bytes) → db.get j d' ≡ restored_over (db.get j d2) (db.get j d1)
  unfolding kv_snapshot
  kv_restore-kv_snapshot d1 d2 d' kvs saved listed texts taken restored j =
      let made : some (dump (json_entries kvs)) ≡ some saved =
        sym (rw (kv_snapshot, listed) refl) ∙ taken in
      let same : saved ≡ dump kvs =
        sym (some-injective _ _ made) ∙ ap dump (json_entries-AllUtf8 kvs texts) in
      kv_restore-get kvs d2 d' (subst (λ x. kv_restore db x d2 ≡ (d', true)) same restored) j
      ∙ sym (
          ap (restored_over (db.get j d2)) (laws.get-new_iter d1 kvs listed j)
          ∙ restored_over-overlay (db.get j d2) (last_write j kvs))
