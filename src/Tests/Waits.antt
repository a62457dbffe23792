-- ===== src/Tests/Waits.antt =====
-- Theorems about the waiters of a node, at a concrete sequence of events.
use mimori.Prelude.{List, [], arith, false, map, refl, true, ◌++◌, ◌∷◌, ◌≡◌}
use mimori.Raft.Pool.Numbers.{nat_elem}
use mimori.Raft.Waiters.{applied_wait}
use mimori.Raft.Waiters.Answered.{applied_wait-signals}
use mimori.Raft.Waiters.Signals.{
  WaitEvent, asked, entry_signalled, entry_taken, no_waiters, wait_steps,
}

abbrev to_one : List WaitEvent
to_one = asked 5 ∷ entry_taken ∷ entry_signalled ∷ []

-- A second wait for the index 2 comes while its entry is on its way, and finds it applied.
applied_wait-signals_example :
    (nat_elem 0 (wait_steps to_one (0, (applied_wait 2 0 no_waiters).0)).1.closed ≡ false)
    × (nat_elem 0
          (wait_steps
            (entry_taken ∷ map (λ i. asked i) (2 ∷ 7 ∷ []) ++ entry_signalled ∷ [])
            (wait_steps to_one (0, (applied_wait 2 0 no_waiters).0))).1.closed
        ≡ true)
unfolding wait_steps applied_wait
applied_wait-signals_example =
    applied_wait-signals [] 0 2 to_one (2 ∷ 7 ∷ []) (omega arith) (refl, tt)
      (omega arith, (omega arith, (omega arith, omega arith))) refl
