-- ===== src/Mimorid/Replicated.antt =====
-- The store that a log of commands leads to.
use mimori.Mimorid.{apply_entries, apply_entry, or_logged}
use mimori.Prelude.{
  List, Option, Option-cases, [], ap, arith, if◌then◌else◌, inl, inr, none, refl, some, suc, take,
  ℕ, ◌+◌, ◌==◌, ◌∙◌, ◌∷◌, ◌≡◌,
}
use mimori.Raft.Applier.{apply_loop}
use mimori.Raft.Applier.Order.{apply_loop-drains}
use mimori.Raft.Invariant.{WellFormed}
use mimori.Raft.Log.{slice_from}
use mimori.Raft.State.{Bytes, LogEntry, Raft, cmd_delete, cmd_put}
use mimori.Store.{Lookup, Pebble, found, kv_delete, kv_put, not_found}
use mimori.Store.Laws.{PebbleLaws, bytes_eq}

-- What a command does to a key: nothing, a value, or its removal.
pub data Change : Type 0 where
  kept removed : Change
  assigned : Bytes → Change

-- The specification: the last command of the log that names a key decides.
abbrev pub change_by : Bytes → LogEntry → Change
change_by key e = elim e.payload [
  | none ↦ kept
  | some cmd ↦
      if bytes_eq cmd.key key
      then (if cmd.op == cmd_put
          then assigned cmd.value
          else (if cmd.op == cmd_delete then removed else kept))
      else kept
]

abbrev pub changed : Lookup → Change → Lookup
changed before kept = before
changed before removed = not_found
changed before (assigned v) = found v

abbrev pub lookup_in_log : Bytes → Lookup → List LogEntry → Lookup
lookup_in_log key before [] = before
lookup_in_log key before (e ∷ es) = lookup_in_log key (changed before (change_by key e)) es

-- Writes of the store that do not fail.
abbrev pub WritesSucceed : {DB WriteBatch : Type 0} → Pebble DB WriteBatch → Type 0
WritesSucceed {DB} db =
    ((k v : Bytes) (d : DB) → (d' : DB) × (db.set k v d ≡ some d'))
    × ((k : Bytes) (d : DB) → (d' : DB) × (db.delete k d ≡ some d'))

module _ {DB WriteBatch : Type 0} (db : Pebble DB WriteBatch) (laws : PebbleLaws db) where
  get-apply_entry :
      (succeed : WritesSucceed db) (e : LogEntry) (d : DB) (j : Bytes)
      → db.get j (apply_entry db e d) ≡ changed (db.get j d) (change_by j e)
  unfolding apply_entry or_logged kv_put kv_delete
  get-apply_entry succeed e d j = elim (Option-cases e.payload) [
    | inl rejected ↦ ground arith
    | inr (cmd, decoded) ↦
        let (d1, sets) = succeed.0 cmd.key cmd.value d in
        let (d2, deletes) = succeed.1 cmd.key d in
        ground (
          arith,
          laws.get-set cmd.key cmd.value d d1 sets j,
          laws.get-delete cmd.key d d2 deletes j,
        )
  ]

  -- When the writes of the store succeed, every key reads in the store, after the entries of a log are
  -- applied, as the last put or delete of the log that names it says, and otherwise as before; entries that
  -- do not decode, and other commands, change nothing.
  pub get-apply_entries :
      (succeed : WritesSucceed db) (es : List LogEntry) (d : DB) (j : Bytes)
      → db.get j (apply_entries db es d) ≡ lookup_in_log j (db.get j d) es
  unfolding apply_entries
  get-apply_entries succeed [] d j = refl
  get-apply_entries succeed (e ∷ es) d j =
      get-apply_entries succeed es (apply_entry db e d) j
      ∙ ap (λ x. lookup_in_log j x es) (get-apply_entry succeed e d j)

  -- From a well-formed node, with a round of the apply loop for each committed entry that is not applied,
  -- and writes of the store that succeed, every key reads in the store afterwards as those entries say,
  -- taken in the order of the log.
  pub get-apply_loop :
      (succeed : WritesSucceed db) (n now : ℕ) (bytes : Option Bytes) (r : Raft)
      → WellFormed r
      → r.last_applied + n ≡ r.commit_index
      → (d : DB) (j : Bytes)
      → db.get j (apply_entries db (apply_loop n now bytes r).0 d)
        ≡ lookup_in_log j (db.get j d) (take n (slice_from r (suc r.last_applied)))
  get-apply_loop succeed n now bytes r v e d j =
      get-apply_entries succeed (apply_loop n now bytes r).0 d j
      ∙ ap (lookup_in_log j (db.get j d)) (apply_loop-drains n now bytes r v e).0
