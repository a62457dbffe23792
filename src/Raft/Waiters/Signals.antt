-- ===== src/Raft/Waiters/Signals.antt =====
-- When the channel that `AppliedWait` of internal/raft/raft.go returns is closed.
use mimori.Prelude.{
  Bool-cases, List, Option-cases, [], arith, if◌then◌else◌, inl, inr, leb, none, some, true, ℕ, ◌+◌,
  ◌<◌, ◌==◌, ◌∷◌, ◌≡◌,
}
use mimori.Raft.Pool.Numbers.{nat_elem}
use mimori.Raft.Waiters.{Waiters, applied_wait, find_waiter, put_waiter, remove_waiter, signal}

-- What touches the waiters or the last applied index: a wait, the two critical sections of the apply loop,
-- and the installation of a snapshot.
pub data WaitEvent : Type 0 where
  asked : ℕ → WaitEvent
  entry_taken entry_signalled : WaitEvent
  snapshot_installed : ℕ → WaitEvent

unfoldable pub wait_step : WaitEvent → ℕ × Waiters → ℕ × Waiters
unfolding applied_wait signal
wait_step (asked index) (last, w) = (last, (applied_wait index last w).0)
wait_step entry_taken (last, w) = (last + 1, w)
wait_step entry_signalled (last, w) = (last, signal last w)
wait_step (snapshot_installed n) (last, w) = (n, w)

unfoldable pub wait_steps : List WaitEvent → ℕ × Waiters → ℕ × Waiters
unfolding wait_step
wait_steps [] s = s
wait_steps (e ∷ es) s = wait_steps es (wait_step e s)

abbrev pub no_waiters : Waiters
no_waiters = record { waiting = []; closed = []; made = 0 }

pub find_waiter-put_waiter :
    (i j c : ℕ) (ws : List (ℕ × ℕ))
    → find_waiter j (put_waiter i c ws) ≡ (if i == j then some c else find_waiter j ws)
unfolding find_waiter put_waiter
find_waiter-put_waiter i j c [] = ground arith
find_waiter-put_waiter i j c ((k, d) ∷ ws) = ground (arith, find_waiter-put_waiter i j c ws)

pub find_waiter-remove_waiter :
    (i j : ℕ) (ws : List (ℕ × ℕ))
    → find_waiter j (remove_waiter i ws) ≡ (if i == j then none else find_waiter j ws)
unfolding find_waiter remove_waiter
find_waiter-remove_waiter i j [] = ground arith
find_waiter-remove_waiter i j ((k, d) ∷ ws) = ground (arith, find_waiter-remove_waiter i j ws)

-- All channels have numbers below the next one.
pub record AllMade (w : Waiters) : Type 0 where
  pub waiting_below : (j n : ℕ) → find_waiter j w.waiting ≡ some n → n < w.made
  pub closed_below : (n : ℕ) → nat_elem n w.closed ≡ true → n < w.made

AllMade-applied_wait :
    (index last : ℕ) (w : Waiters) → AllMade w → AllMade (applied_wait index last w).0
unfolding applied_wait
AllMade-applied_wait index last w h = elim (Bool-cases (leb index last)) [
  | inl done ↦
      rw (applied_wait, done)
        (record {
          waiting_below = λ j n k. omega (arith, h.waiting_below j n k);
          closed_below = λ n k. ground (arith, h.closed_below n);
        })
  | inr early ↦
      rw (applied_wait, early)
        (record {
          waiting_below = λ j n k.
              ground (arith, find_waiter-put_waiter index j w.made w.waiting, h.waiting_below j n);
          closed_below = λ n k. omega (arith, h.closed_below n k);
        })
]

AllMade-signal : (last : ℕ) (w : Waiters) → AllMade w → AllMade (signal last w)
unfolding signal
AllMade-signal last w h = elim (Option-cases (find_waiter last w.waiting)) [
  | inl nobody ↦ rw (signal, nobody) h
  | inr (ch, there) ↦
      rw (signal, there)
        (record {
          waiting_below = λ j n k.
              ground (arith, find_waiter-remove_waiter last j w.waiting, h.waiting_below j n);
          closed_below = λ n k. ground (arith, h.closed_below n, h.waiting_below last ch there);
        })
]

pub AllMade-wait_steps :
    (es : List WaitEvent) (s : ℕ × Waiters) → AllMade s.1 → AllMade (wait_steps es s).1
unfolding wait_steps wait_step
AllMade-wait_steps [] s h = h
AllMade-wait_steps (asked index ∷ es) (last, w) h =
    AllMade-wait_steps es _ (AllMade-applied_wait index last w h)
AllMade-wait_steps (entry_taken ∷ es) (last, w) h = AllMade-wait_steps es (last + 1, w) h
AllMade-wait_steps (entry_signalled ∷ es) (last, w) h =
    AllMade-wait_steps es _ (AllMade-signal last w h)
AllMade-wait_steps (snapshot_installed n ∷ es) (last, w) h = AllMade-wait_steps es (n, w) h
