-- ===== src/Raft/Machine/ReadBack.antt =====
-- What a node finds again when it restarts on its own files.
use mimori.Prelude.{
  List, Option, [], ap, arith, length, none, refl, some, sym, true, ℕ, ◌∙◌, ◌∷◌, ◌≡◌,
}
use mimori.Raft.Init.{boot, new}
use mimori.Raft.Invariant.{WellFormed}
use mimori.Raft.Machine.{Event, restarted, step}
use mimori.Raft.Machine.Durable.{step-InSync}
use mimori.Raft.Machine.Files.{Anchors, InSync, InSync-SameFiles, SameFiles}
use mimori.Raft.Machine.Restart.{SameFiles-boot, boot_fields, boot_log, indices-new, start_index}
use mimori.Raft.Machine.Safe.{IsRegular, step-WellFormed}
use mimori.Raft.State.{Disk, LogEntry, NodeId, Raft, Snapshot}

start_index-Anchors :
    (snap : Option Snapshot) (base : ℕ) (e : LogEntry)
    → Anchors snap base e
    → start_index snap ≡ base
start_index-Anchors none base e anchored = sym anchored.0
start_index-Anchors (some snap) base e anchored = sym anchored.0

boot_disk :
    (now : ℕ) (id : NodeId) (peers : List NodeId) (d : Disk) → (boot now id peers d).disk ≡ d
unfolding boot
boot_disk now id peers d = refl

SameFiles-new :
    (now : ℕ) (peers : List NodeId) (r : Raft) → InSync r → SameFiles r (new now r.id peers r.disk)
SameFiles-new now peers r v =
    let files = SameFiles-boot now r.id peers r.disk in
    let disk = boot_disk now r.id peers r.disk in
    let (commit, applied, snap) = boot_fields now r.id peers r.disk in
    let anchored : Anchors r.disk.snapshot r.log_base_index v.first =
      rw v.snapshot_saved v.anchored in
    let (log, base) =
      boot_log now r.id peers r.disk r.log r.log_base_index v.log_saved v.first v.first_is
        anchored in
    record {
      log = files.log ∙ log;
      log_base_index = files.log_base_index ∙ base;
      snapshot = files.snapshot ∙ (snap ∙ v.snapshot_saved);
      log_file = files.log_file ∙ ap (λ d. d.log) disk;
      snapshot_file = files.snapshot_file ∙ ap (λ d. d.snapshot) disk;
      log_writable = files.log_writable ∙ ap (λ d. d.log_writable) disk;
      snapshot_writable = files.snapshot_writable ∙ ap (λ d. d.snapshot_writable) disk;
    }

-- A node whose files are in step with memory finds its log, its snapshot and their base again when it
-- restarts on them, and takes the base as its commit index and its last applied index.
pub new_reads_back :
    (now : ℕ) (peers : List NodeId) (r : Raft)
    → InSync r
    → let s = new now r.id peers r.disk in
      (s.log ≡ r.log)
      × (s.snapshot ≡ r.snapshot)
      × (s.log_base_index ≡ r.log_base_index)
      × (s.commit_index ≡ r.log_base_index)
      × (s.last_applied ≡ r.log_base_index)
new_reads_back now peers r v =
    let files = SameFiles-new now peers r v in
    let (commit, applied) = indices-new now r.id peers r.disk in
    let start : start_index r.disk.snapshot ≡ r.log_base_index =
      ap start_index v.snapshot_saved
      ∙ start_index-Anchors r.snapshot r.log_base_index v.first v.anchored in
    (files.log, files.snapshot, files.log_base_index, commit ∙ start, applied ∙ start)

WellFormed-new :
    (now : ℕ) (peers : List NodeId) (r : Raft)
    → WellFormed r
    → InSync r
    → WellFormed (new now r.id peers r.disk)
WellFormed-new now peers r w v =
    let (log, snapshot, base, commit, applied) = new_reads_back now peers r v in
    record {
      contiguous = rw (base, log) w.contiguous;
      has_dummy = rw log w.has_dummy;
      base_applied = omega arith;
      applied_committed = omega arith;
      committed_in_log = omega (arith, w.has_dummy, ap length log);
    }

-- Memory is well formed, and the files are in step with it.
pub record Durable (r : Raft) : Type 0 where
  pub well_formed : WellFormed r
  pub in_sync : InSync r

-- Events of the form that a leader sends, and the restart.
abbrev pub IsAllowed : Event → Raft → Type 0
IsAllowed (restarted now peers) r = Unit {0}
IsAllowed e r = IsRegular e r

unfoldable pub IsAllowedRun : List Event → Raft → Type 0
unfolding step
IsAllowedRun [] r = Unit {0}
IsAllowedRun (e ∷ es) r = IsAllowed e r × IsAllowedRun es (step e r)

-- A well-formed node whose files are in step with memory and can be written stays so through every event,
-- a restart on its files included, as long as requests have the form that a leader sends.
pub step-Durable : (e : Event) (r : Raft) → IsAllowed e r → Durable r → Durable (step e r)
unfolding step
step-Durable (restarted now peers) r ok' v = record {
  well_formed = WellFormed-new now peers r v.well_formed v.in_sync;
  in_sync = InSync-SameFiles r _ (SameFiles-new now peers r v.in_sync) v.in_sync;
}
step-Durable e r reg v = record {
  well_formed = step-WellFormed e r reg v.well_formed;
  in_sync = step-InSync e r reg v.well_formed v.in_sync;
}

-- The data directory of a first boot, which can be written.
pub record IsFresh (d : Disk) : Type 0 where
  pub no_log : d.log ≡ none
  pub no_snapshot : d.snapshot ≡ none
  pub log_writable : d.log_writable ≡ true
  pub snapshot_writable : d.snapshot_writable ≡ true

abbrev first_dummy : LogEntry
first_dummy = record { index = 0; term = 0; payload = none }
