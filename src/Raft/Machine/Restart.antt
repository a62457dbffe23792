-- ===== src/Raft/Machine/Restart.antt =====
-- A restart of a node on its own files.
use mimori.Prelude.{
  List, Option, Option-cases, ap, arith, get_elem?, inl, inr, none, refl, some, suc, zero, ℕ, ◌+◌,
  ◌-◌, ◌∙◌, ◌∷◌, ◌≡◌,
}
use mimori.Raft.Config.{replay_config_changes, replay_loop, replay_one}
use mimori.Raft.Disk.{load_snapshot}
use mimori.Raft.Election.{track_peers}
use mimori.Raft.Init.{align, boot, boot_entries, new, start_from_snapshot}
use mimori.Raft.Log.{entry_at, last_log_index}
use mimori.Raft.Machine.Files.{
  Anchors, SameFiles, SameFiles-handle_config_change, SameFiles-refl, SameFiles-track_peers,
  SameFiles-trans, saved_log,
}
use mimori.Raft.Machine.SameLog.{
  SameLog, SameLog-handle_config_change, SameLog-refl, SameLog-track_peers, SameLog-trans,
}
use mimori.Raft.State.{Disk, LogEntry, NodeId, Raft, Snapshot}

SameFiles-replay_one : (now idx : ℕ) (r : Raft) → SameFiles r (replay_one now idx r)
unfolding replay_one
SameFiles-replay_one now idx r = elim (Option-cases (entry_at r idx)) [
  | inl missing ↦ rw (replay_one, missing) (SameFiles-refl r)
  | inr (e, found) ↦ rw (replay_one, found) (SameFiles-handle_config_change now e r)
]

SameFiles-replay_loop : (rounds now idx : ℕ) (r : Raft) → SameFiles r (replay_loop rounds now idx r)
unfolding replay_loop
SameFiles-replay_loop zero now idx r = SameFiles-refl r
SameFiles-replay_loop (suc rounds) now idx r =
    SameFiles-trans r _ _ (SameFiles-replay_one now idx r)
      (SameFiles-replay_loop rounds now (suc idx) (replay_one now idx r))

SameFiles-start_from_snapshot : (r : Raft) → SameFiles r (start_from_snapshot r)
unfolding start_from_snapshot
SameFiles-start_from_snapshot r = ground arith

SameFiles-replay_config_changes : (now : ℕ) (r : Raft) → SameFiles r (replay_config_changes now r)
unfolding replay_config_changes
SameFiles-replay_config_changes now r =
    SameFiles-replay_loop (last_log_index r - r.log_base_index) now (suc r.log_base_index) r

-- `New` up to its last step, and what comes after the struct literal.
abbrev replayed : ℕ → NodeId → List NodeId → Disk → Raft
replayed now id peers d =
    let r1 = replay_config_changes now (boot now id peers d) in
    track_peers r1.peers (last_log_index r1 + 1) 0 r1

SameFiles-replayed :
    (now : ℕ) (id : NodeId) (peers : List NodeId) (d : Disk)
    → SameFiles (boot now id peers d) (replayed now id peers d)
SameFiles-replayed now id peers d =
    let r0 = boot now id peers d in
    let r1 = replay_config_changes now r0 in
    SameFiles-trans r0 r1 _ (SameFiles-replay_config_changes now r0)
      (SameFiles-track_peers r1.peers (last_log_index r1 + 1) 0 r1)

-- After `boot`, the rest of `New` leaves the log and the files alone.
pub SameFiles-boot :
    (now : ℕ) (id : NodeId) (peers : List NodeId) (d : Disk)
    → SameFiles (boot now id peers d) (new now id peers d)
unfolding new
SameFiles-boot now id peers d =
    SameFiles-trans _ (replayed now id peers d) _ (SameFiles-replayed now id peers d)
      (SameFiles-start_from_snapshot (replayed now id peers d))

align-InSync :
    (snap : Option Snapshot) (base : ℕ) (e : LogEntry) (es : List LogEntry)
    → Anchors snap base e
    → align snap (e, es) ≡ (base, e ∷ es)
unfolding align
align-InSync none base e es anchored = ground arith
align-InSync (some snap) base e es anchored = ground arith

SameLog-replay_one : (now idx : ℕ) (r : Raft) → SameLog r (replay_one now idx r)
unfolding replay_one
SameLog-replay_one now idx r = elim (Option-cases (entry_at r idx)) [
  | inl missing ↦ rw (replay_one, missing) (SameLog-refl r)
  | inr (e, found) ↦ rw (replay_one, found) (SameLog-handle_config_change now e r)
]

SameLog-replay_loop : (rounds now idx : ℕ) (r : Raft) → SameLog r (replay_loop rounds now idx r)
unfolding replay_loop
SameLog-replay_loop zero now idx r = SameLog-refl r
SameLog-replay_loop (suc rounds) now idx r =
    SameLog-trans r _ _ (SameLog-replay_one now idx r)
      (SameLog-replay_loop rounds now (suc idx) (replay_one now idx r))

SameLog-replayed :
    (now : ℕ) (id : NodeId) (peers : List NodeId) (d : Disk)
    → SameLog (boot now id peers d) (replayed now id peers d)
unfolding replay_config_changes
SameLog-replayed now id peers d =
    let r0 = boot now id peers d in
    let r1 = replay_config_changes now r0 in
    SameLog-trans r0 r1 _
      (SameLog-replay_loop (last_log_index r0 - r0.log_base_index) now (suc r0.log_base_index) r0)
      (SameLog-track_peers r1.peers (last_log_index r1 + 1) 0 r1)

-- Where `New` starts the indices.
abbrev pub start_index : Option Snapshot → ℕ
start_index none = 0
start_index (some snap) = snap.last_included_index

indices-start_from_snapshot :
    (r : Raft) (snap : Option Snapshot)
    → r.snapshot ≡ snap
    → r.commit_index ≡ 0
    → r.last_applied ≡ 0
    → ((start_from_snapshot r).commit_index ≡ start_index snap)
      × ((start_from_snapshot r).last_applied ≡ start_index snap)
unfolding start_from_snapshot
indices-start_from_snapshot r none q c l = rw (start_from_snapshot, q) (c, l)
indices-start_from_snapshot r (some snap) q c l = rw (start_from_snapshot, q) (refl, refl)

pub boot_fields :
    (now : ℕ) (id : NodeId) (peers : List NodeId) (d : Disk)
    → ((boot now id peers d).commit_index ≡ 0)
      × ((boot now id peers d).last_applied ≡ 0)
      × ((boot now id peers d).snapshot ≡ d.snapshot)
unfolding boot load_snapshot
boot_fields now id peers d = (refl, refl, refl)

pub indices-new :
    (now : ℕ) (id : NodeId) (peers : List NodeId) (d : Disk)
    → ((new now id peers d).commit_index ≡ start_index d.snapshot)
      × ((new now id peers d).last_applied ≡ start_index d.snapshot)
unfolding new
indices-new now id peers d =
    let same = SameLog-replayed now id peers d in
    let (c, l, snap) = boot_fields now id peers d in
    indices-start_from_snapshot (replayed now id peers d) d.snapshot
      ((SameFiles-replayed now id peers d).snapshot ∙ snap) (same.commit_index ∙ c)
      (same.last_applied ∙ l)

pub saved-Anchors :
    (d : Disk) (log : List LogEntry) (e : LogEntry) (base : ℕ)
    → saved_log d ≡ log
    → get_elem? log 0 ≡ some e
    → Anchors d.snapshot base e
    → Anchors d.snapshot base (boot_entries d).0
saved-Anchors d log e base saved at anchored =
    let first : some (boot_entries d).0 ≡ some e = ap (λ l. get_elem? l 0) saved ∙ at in
    let same : (boot_entries d).0 ≡ e = cc first in rw same anchored

pub boot_log :
    (now : ℕ) (id : NodeId) (peers : List NodeId) (d : Disk) (log : List LogEntry) (base : ℕ)
    → saved_log d ≡ log
    → (e : LogEntry) → get_elem? log 0 ≡ some e
    → Anchors d.snapshot base e
    → ((boot now id peers d).log ≡ log) × ((boot now id peers d).log_base_index ≡ base)
unfolding boot load_snapshot
boot_log now id peers d log base saved e at anchored =
    let aligned =
      align-InSync d.snapshot base (boot_entries d).0 (boot_entries d).1
        (saved-Anchors d log e base saved at anchored) in
    (ap (λ p. p.1) aligned ∙ saved, ap (λ p. p.0) aligned)
