-- ===== src/Raft/Sender/Sent.antt =====
-- What `sendHeartbeats` of internal/raft/rpc_client.go collects for a peer is the end of the leader's log.
use mimori.Prelude.{
  List, [], arith, drop, drop-get_elem?, drop-nil, false, get_elem?, int32-of_lt, length, le→ltb,
  refl, some, subst, suc, sym, take, take-append-drop, zero, ℕ, ◌++◌, ◌+◌, ◌-◌, ◌<◌, ◌^◌, ◌∷◌, ◌≡◌,
  ◌≤◌,
}
use mimori.Raft.Invariant.{WellFormed, get_elem?-some, last_log_index-eq, length-take_le}
use mimori.Raft.Log.{entry_at, last_log_index, slice_from}
use mimori.Raft.Log.Contiguous.{Contiguous, Contiguous-split}
use mimori.Raft.Sender.{
  collect_entries, heartbeat_to, is_behind_snapshot, next_for, send_batches, term_at, wire_entry,
}
use mimori.Raft.State.{LogEntry, NodeId, Raft}

-- Indices and terms that an int32 holds.
abbrev pub FitInt32 : List LogEntry → Type 0
FitInt32 [] = Unit {0}
FitInt32 (e ∷ es) = (e.index < 2 ^ 31) × (e.term < 2 ^ 31) × FitInt32 es

wire_entry-fits : (e : LogEntry) → e.index < 2 ^ 31 → e.term < 2 ^ 31 → wire_entry e ≡ e
unfolding wire_entry
wire_entry-fits e i t = rw (int32-of_lt e.index i, int32-of_lt e.term t) refl

wire_entry-get_elem? :
    (log : List LogEntry) (i : ℕ) (e : LogEntry)
    → FitInt32 log
    → get_elem? log i ≡ some e
    → wire_entry e ≡ e
wire_entry-get_elem? [] i e fit q = cc
wire_entry-get_elem? (x ∷ xs) zero e fit q =
    let same : x ≡ e = cc q in subst (λ y. wire_entry y ≡ y) same (wire_entry-fits x fit.0 fit.1)
wire_entry-get_elem? (x ∷ xs) (suc i) e fit q = wire_entry-get_elem? xs i e fit.2 q

drop-length_le {ℓ} : {A : Type ℓ} (n : ℕ) (xs : List A) → length xs ≤ n → drop n xs ≡ []
drop-length_le n [] le = drop-nil n
drop-length_le zero (x ∷ xs) le = absurd (omega arith)
drop-length_le (suc n) (x ∷ xs) le = drop-length_le n xs (omega arith)

entry_at-above :
    (r : Raft) (idx : ℕ)
    → r.log_base_index ≤ idx
    → entry_at r idx ≡ get_elem? r.log (idx - r.log_base_index)
unfolding entry_at
entry_at-above r idx le = rw (le→ltb idx r.log_base_index le) refl

collect_entries-drop :
    (rounds idx : ℕ) (r : Raft)
    → FitInt32 r.log
    → r.log_base_index ≤ idx
    → idx + rounds ≡ r.log_base_index + length r.log
    → collect_entries rounds idx r ≡ drop (idx - r.log_base_index) r.log
unfolding collect_entries
collect_entries-drop zero idx r fit le total =
    sym (drop-length_le (idx - r.log_base_index) r.log (omega arith))
collect_entries-drop (suc rounds) idx r fit le total =
    let offset = idx - r.log_base_index in
    let (e, at) = get_elem?-some r.log offset (omega arith) in
    let next : suc idx - r.log_base_index ≡ suc offset = omega arith in
    let rest = collect_entries-drop rounds (suc idx) r fit (omega arith) (omega arith) in
    rw
      (
        collect_entries,
        entry_at-above r idx le,
        at,
        wire_entry-get_elem? r.log offset e fit at,
        drop-get_elem? offset r.log e at,
        rest,
        next,
      )
      refl

Contiguous-drop :
    (n base : ℕ) (xs : List LogEntry)
    → Contiguous base xs
    → n ≤ length xs
    → Contiguous (base + n) (drop n xs)
Contiguous-drop n base xs h le =
    let whole : Contiguous base (take n xs ++ drop n xs) =
      subst (Contiguous base) (sym (take-append-drop n xs)) h in
    subst (λ k. Contiguous (base + k) (drop n xs)) (length-take_le n xs le)
      (Contiguous-split base (take n xs) (drop n xs) whole).1

-- A peer that is not behind the snapshot, whose next index lies behind the base of the log and at most one past
-- its last index, is sent, from a well-formed node whose indices and terms fit an int32, exactly the log from
-- the peer's next index on, after the entry before it.
pub heartbeat_to-slice_from :
    (p : NodeId) (r : Raft)
    → WellFormed r
    → FitInt32 r.log
    → is_behind_snapshot (next_for p r) r ≡ false
    → r.log_base_index < next_for p r
    → next_for p r ≤ suc (last_log_index r)
    → (heartbeat_to p r
        ≡ send_batches
            (next_for p r - 1)
            (term_at (next_for p r - 1) r)
            (slice_from r (next_for p r))
            r.commit_index)
      × Contiguous (next_for p r) (slice_from r (next_for p r))
unfolding heartbeat_to slice_from
heartbeat_to-slice_from p r v fit ahead lo hi =
    let next = next_for p r in
    let collected =
      collect_entries-drop (suc (last_log_index r) - next) next r fit (omega arith)
        (omega (arith, last_log_index-eq r v)) in
    (
      rw (ahead, collected, le→ltb next r.log_base_index (omega arith)) refl,
      rw (le→ltb next r.log_base_index (omega arith)) (
          subst (λ b. Contiguous b (drop (next - r.log_base_index) r.log)) (omega arith)
            (Contiguous-drop (next - r.log_base_index) r.log_base_index r.log v.contiguous
              (omega (arith, last_log_index-eq r v)))),
    )
