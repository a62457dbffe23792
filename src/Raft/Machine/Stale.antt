-- ===== src/Raft/Machine/Stale.antt =====
-- A restart after a crash between the two saves of `createSnapshotLocked`: the snapshot file is newer than
-- the log file.
use mimori.Prelude.{
  List, ap, arith, drop, false, get_elem?, get_elem?-drop, le→ltb, refl, some, subst, suc, sym, ℕ,
  ◌-◌, ◌==◌, ◌∙◌, ◌≡◌,
}
use mimori.Raft.Disk.{load_snapshot}
use mimori.Raft.Init.{align, boot, boot_entries, new}
use mimori.Raft.Log.{entry_at}
use mimori.Raft.Machine.Files.{saved_log}
use mimori.Raft.Machine.Restart.{SameFiles-boot, indices-new, start_index}
use mimori.Raft.State.{Disk, LogEntry, NodeId, Raft, Snapshot}

boot_stale :
    (now : ℕ) (id : NodeId) (peers : List NodeId) (d : Disk) (snap : Snapshot)
    → d.snapshot ≡ some snap
    → ((boot_entries d).0.index == snap.last_included_index) ≡ false
    → ((boot now id peers d).log_base_index ≡ snap.last_included_index)
      × (drop 1 (boot now id peers d).log ≡ saved_log d)
unfolding boot load_snapshot align
boot_stale now id peers d snap saved stale = rw (saved, align, stale) (refl, refl)

entry_at-behind_base :
    (r : Raft) (xs : List LogEntry)
    → drop 1 r.log ≡ xs
    → entry_at r (suc r.log_base_index) ≡ get_elem? xs 0
unfolding entry_at
entry_at-behind_base r xs q =
    let one : suc r.log_base_index - r.log_base_index ≡ 1 = omega arith in
    rw (le→ltb (suc r.log_base_index) r.log_base_index (omega arith), one)
      (sym (get_elem?-drop 1 r.log 0) ∙ ap (λ l. get_elem? l 0) q)

-- When the first entry of the log file is not the one of the snapshot, a restart puts the whole file
-- behind a new first entry, so that the entry found behind the snapshot's index is the first one of the
-- file, whatever its own index is.
pub stale_log-misindexed :
    (now : ℕ) (id : NodeId) (peers : List NodeId) (d : Disk) (snap : Snapshot)
    → d.snapshot ≡ some snap
    → ((boot_entries d).0.index == snap.last_included_index) ≡ false
    → let s = new now id peers d in
      (entry_at s (suc snap.last_included_index) ≡ some (boot_entries d).0)
      × (s.last_applied ≡ snap.last_included_index)
      × (s.commit_index ≡ snap.last_included_index)
stale_log-misindexed now id peers d snap saved stale =
    let s = new now id peers d in
    let (base0, log0) = boot_stale now id peers d snap saved stale in
    let files = SameFiles-boot now id peers d in
    let base = files.log_base_index ∙ base0 in
    let found = entry_at-behind_base s (saved_log d) (ap (drop 1) files.log ∙ log0) in
    let (commit, applied) = indices-new now id peers d in
    let start : start_index d.snapshot ≡ snap.last_included_index = ap start_index saved in
    (
      subst (λ n. entry_at s (suc n) ≡ some (boot_entries d).0) base found,
      applied ∙ start,
      commit ∙ start,
    )
