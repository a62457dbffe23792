-- ===== src/Tests/Restarts.antt =====
-- Theorems about restarts, at concrete nodes and files.
use mimori.Prelude.{List, [], none, refl, some, ◌∷◌, ◌≡◌}
use mimori.Raft.Disk.{load_log}
use mimori.Raft.Init.{boot_entries, new}
use mimori.Raft.Log.{entry_at}
use mimori.Raft.Machine.{
  Event, apply_taken, command_proposed, heartbeats_sent, restarted, snapshot_forced, timer_ticked,
}
use mimori.Raft.Machine.Files.{InSync}
use mimori.Raft.Machine.ReadBack.{new_reads_back}
use mimori.Raft.Machine.Stale.{stale_log-misindexed}
use mimori.Raft.State.{Disk, Raft}
use mimori.Tests.Nodes.{empty_disk, entry, log_of_three, voter}

-- A node without peers elects itself, proposes, commits, applies, and restarts.
abbrev one_life : List Event
one_life =
    timer_ticked 1 10
    ∷ command_proposed none
    ∷ heartbeats_sent
    ∷ apply_taken 11
    ∷ snapshot_forced 12 (some [])
    ∷ restarted 13 []
    ∷ []

-- The voter with its log on disk.
abbrev saved_voter : Raft
saved_voter = record voter { disk = record empty_disk { log = some log_of_three } }

saved_voter-InSync : InSync saved_voter
unfolding boot_entries load_log
saved_voter-InSync = record {
  log_writable = refl;
  snapshot_writable = refl;
  log_saved = refl;
  snapshot_saved = refl;
  first = entry 0 0;
  first_is = refl;
  anchored = (refl, refl);
}

new_reads_back_example :
    let s = new 9 "a" [] saved_voter.disk in
    (s.log ≡ log_of_three)
    × (s.snapshot ≡ none)
    × (s.log_base_index ≡ 0)
    × (s.commit_index ≡ 0)
    × (s.last_applied ≡ 0)
new_reads_back_example = new_reads_back 9 [] saved_voter saved_voter-InSync

-- A snapshot of entry 2 beside the log file that starts at entry 0.
abbrev stale_disk : Disk
stale_disk = record empty_disk {
  log = some log_of_three;
  snapshot =
      some (record { last_included_index = 2; last_included_term = 2; created_at = 5; bytes = [] });
}

stale_log-misindexed_example :
    let s = new 9 "a" [] stale_disk in
    (entry_at s 3 ≡ some (entry 0 0)) × (s.last_applied ≡ 2) × (s.commit_index ≡ 2)
unfolding boot_entries load_log
stale_log-misindexed_example = stale_log-misindexed 9 "a" [] stale_disk _ refl refl
