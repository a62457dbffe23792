-- ===== src/Raft/Waiters/Answered.antt =====
-- A wait by `AppliedWait` of internal/raft/raft.go ends with the signal of the apply loop for its index.
use mimori.Prelude.{
  Bool-cases, List, Option-cases, [], arith, false, inl, inr, leb, map, some, subst, sym, true, ℕ,
  ◌++◌, ◌+◌, ◌<◌, ◌==◌, ◌∷◌, ◌≡◌,
}
use mimori.Raft.Pool.Numbers.{nat_elem}
use mimori.Raft.Waiters.{Waiters, applied_wait, find_waiter, signal}
use mimori.Raft.Waiters.Signals.{
  AllMade, AllMade-wait_steps, WaitEvent, asked, entry_signalled, entry_taken,
  find_waiter-put_waiter, find_waiter-remove_waiter, no_waiters, snapshot_installed, wait_step,
  wait_steps,
}

-- No wait for the index.
abbrev pub NoWaitFor : ℕ → List WaitEvent → Type 0
NoWaitFor index [] = Unit {0}
NoWaitFor index (asked i ∷ es) = ((i == index) ≡ false) × NoWaitFor index es
NoWaitFor index (e ∷ es) = NoWaitFor index es

-- The last applied index stays below the index, from a state on.
abbrev pub StaysBelow : ℕ → List WaitEvent → ℕ × Waiters → Type 0
StaysBelow index [] s = s.0 < index
StaysBelow index (e ∷ es) s = (s.0 < index) × StaysBelow index es (wait_step e s)

-- The channel waits for the index and for no other, and is open.
record IsWaiting (index ch : ℕ) (w : Waiters) : Type 0 where
  kept : find_waiter index w.waiting ≡ some ch
  only : (j : ℕ) → find_waiter j w.waiting ≡ some ch → j ≡ index
  is_open : nat_elem ch w.closed ≡ false
  was_made : ch < w.made

IsWaiting-new :
    (index last : ℕ) (w : Waiters)
    → AllMade w
    → last < index
    → IsWaiting index (applied_wait index last w).1 (applied_wait index last w).0
unfolding applied_wait
IsWaiting-new index last w h early =
    let later : leb index last ≡ false = ground (arith, early) in
    rw (applied_wait, later)
      (record {
        kept = ground (arith, find_waiter-put_waiter index index w.made w.waiting);
        only = λ j k.
            ground
              (arith, find_waiter-put_waiter index j w.made w.waiting, h.waiting_below j w.made);
        is_open = ground (arith, h.closed_below w.made);
        was_made = omega arith;
      })

IsWaiting-applied_wait :
    (index ch i last : ℕ) (w : Waiters)
    → (i == index) ≡ false
    → IsWaiting index ch w
    → IsWaiting index ch (applied_wait i last w).0
unfolding applied_wait
IsWaiting-applied_wait index ch i last w other h = elim (Bool-cases (leb i last)) [
  | inl done ↦
      rw (applied_wait, done)
        (record {
          kept = h.kept;
          only = h.only;
          is_open = ground (arith, h.is_open, h.was_made);
          was_made = omega (arith, h.was_made);
        })
  | inr early ↦
      rw (applied_wait, early)
        (record {
          kept = ground (arith, find_waiter-put_waiter i index w.made w.waiting, h.kept);
          only = λ j k.
              ground (arith, find_waiter-put_waiter i j w.made w.waiting, h.only j, h.was_made);
          is_open = h.is_open;
          was_made = omega (arith, h.was_made);
        })
]

IsWaiting-signal :
    (index ch last : ℕ) (w : Waiters)
    → last < index
    → IsWaiting index ch w
    → IsWaiting index ch (signal last w)
unfolding signal
IsWaiting-signal index ch last w early h = elim (Option-cases (find_waiter last w.waiting)) [
  | inl nobody ↦ rw (signal, nobody) h
  | inr (other, there) ↦
      rw (signal, there)
        (record {
          kept = ground (arith, find_waiter-remove_waiter last index w.waiting, h.kept);
          only = λ j k. ground (arith, find_waiter-remove_waiter last j w.waiting, h.only j);
          is_open = ground (arith, h.is_open, h.only last, there);
          was_made = h.was_made;
        })
]

IsWaiting-wait_steps :
    (index ch : ℕ) (es : List WaitEvent) (s : ℕ × Waiters)
    → NoWaitFor index es
    → StaysBelow index es s
    → IsWaiting index ch s.1
    → IsWaiting index ch (wait_steps es s).1
unfolding wait_steps wait_step
IsWaiting-wait_steps index ch [] s alone below h = h
IsWaiting-wait_steps index ch (asked i ∷ es) (last, w) alone below h =
    IsWaiting-wait_steps index ch es _ alone.1 below.1
      (IsWaiting-applied_wait index ch i last w alone.0 h)
IsWaiting-wait_steps index ch (entry_taken ∷ es) (last, w) alone below h =
    IsWaiting-wait_steps index ch es (last + 1, w) alone below.1 h
IsWaiting-wait_steps index ch (entry_signalled ∷ es) (last, w) alone below h =
    IsWaiting-wait_steps index ch es _ alone below.1 (IsWaiting-signal index ch last w below.0 h)
IsWaiting-wait_steps index ch (snapshot_installed n ∷ es) (last, w) alone below h =
    IsWaiting-wait_steps index ch es (n, w) alone below.1 h

signal-found :
    (ch last : ℕ) (w : Waiters)
    → find_waiter last w.waiting ≡ some ch
    → nat_elem ch (signal last w).closed ≡ true
unfolding signal
signal-found ch last w kept = rw (signal, kept) (ground arith)

AllMade-no_waiters : AllMade no_waiters
unfolding find_waiter
AllMade-no_waiters = record {
  waiting_below = λ j n k. ground (arith, k);
  closed_below = λ n k. ground (arith, k);
}

-- Waits while an entry is on its way through the channel leave the waiter of that entry in place.
signal-closes :
    (ch last : ℕ) (asks : List ℕ) (w : Waiters)
    → find_waiter last w.waiting ≡ some ch
    → nat_elem ch (wait_steps (map (λ i. asked i) asks ++ entry_signalled ∷ []) (last, w)).1.closed
      ≡ true
unfolding wait_steps wait_step signal applied_wait
signal-closes ch last [] w kept = signal-found ch last w kept
signal-closes ch last (i ∷ asks) w kept = elim (Bool-cases (leb i last)) [
  | inl done ↦ signal-closes ch last asks (applied_wait i last w).0 (rw (applied_wait, done) kept)
  | inr early ↦ signal-closes ch last asks (applied_wait i last w).0 (
      rw (applied_wait, early)
        (ground (arith, find_waiter-put_waiter i last w.made w.waiting, kept, early)))
]

-- After any events of a new node, a wait is asked for an index that is not applied.  While the last applied
-- index stays below it and nobody else waits for the index, the channel is open; when the apply loop then
-- takes the entry at the index and signals it, whatever is waited for in between, the channel is closed.
pub applied_wait-signals :
    (before : List WaitEvent) (start index : ℕ) (es : List WaitEvent) (asks : List ℕ)
    → let s = wait_steps before (start, no_waiters) in
      let asked_at = applied_wait index s.0 s.1 in
      s.0 < index
      → NoWaitFor index es
      → StaysBelow index es (s.0, asked_at.0)
      → (wait_steps es (s.0, asked_at.0)).0 + 1 ≡ index
      → (nat_elem asked_at.1 (wait_steps es (s.0, asked_at.0)).1.closed ≡ false)
        × (nat_elem asked_at.1
              (wait_steps
                (entry_taken ∷ map (λ i. asked i) asks ++ entry_signalled ∷ [])
                (wait_steps es (s.0, asked_at.0))).1.closed
            ≡ true)
unfolding wait_steps wait_step
applied_wait-signals before start index es asks early alone below next =
    let s = wait_steps before (start, no_waiters) in
    let all_made = AllMade-wait_steps before (start, no_waiters) AllMade-no_waiters in
    let asked_at = applied_wait index s.0 s.1 in
    let waits =
      IsWaiting-wait_steps index asked_at.1 es (s.0, asked_at.0) alone below
        (IsWaiting-new index s.0 s.1 all_made early) in
    let t = wait_steps es (s.0, asked_at.0) in
    (
      waits.is_open,
      signal-closes asked_at.1 (t.0 + 1) asks t.1
          (subst (λ k. find_waiter k t.1.waiting ≡ some asked_at.1) (sym next) waits.kept),
    )
