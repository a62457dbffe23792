-- ===== src/Raft/Waiters.antt =====
-- The waiters of internal/raft/raft.go: `AppliedWait`, and the signal of the apply loop.  Channels are
-- numbered in the order in which they are made.
pub mod Signals
pub mod Answered
use mimori.Prelude.{List, Option, [], if◌then◌else◌, leb, none, some, ℕ, ◌+◌, ◌==◌, ◌∷◌}

pub record Waiters : Type 0 where
  pub waiting : List (ℕ × ℕ)
  pub closed : List ℕ
  pub made : ℕ

-- `r.waiters[index] = ch`: an older channel at the index is replaced.
unfoldable pub put_waiter : ℕ → ℕ → List (ℕ × ℕ) → List (ℕ × ℕ)
put_waiter index ch [] = (index, ch) ∷ []
put_waiter index ch ((i, c) ∷ ws) =
    if i == index then (index, ch) ∷ ws else (i, c) ∷ put_waiter index ch ws

unfoldable pub find_waiter : ℕ → List (ℕ × ℕ) → Option ℕ
find_waiter index [] = none
find_waiter index ((i, c) ∷ ws) = if i == index then some c else find_waiter index ws

unfoldable pub remove_waiter : ℕ → List (ℕ × ℕ) → List (ℕ × ℕ)
remove_waiter index [] = []
remove_waiter index ((i, c) ∷ ws) =
    let rest = remove_waiter index ws in if i == index then rest else (i, c) ∷ rest

-- `AppliedWait`: the channel, closed at once if the index is applied already.
unfoldable pub applied_wait : (index last_applied : ℕ) → Waiters → Waiters × ℕ
unfolding put_waiter
applied_wait index last_applied w =
    if leb index last_applied
    then (record w { closed = w.made ∷ w.closed; made = w.made + 1 }, w.made)
    else (record w { waiting = put_waiter index w.made w.waiting; made = w.made + 1 }, w.made)

-- The apply loop after an entry: close and forget the channel of `lastApplied`.
unfoldable pub signal : (last_applied : ℕ) → Waiters → Waiters
unfolding find_waiter remove_waiter
signal last_applied w = elim (find_waiter last_applied w.waiting) [
  | none ↦ w
  | some ch ↦ record w { waiting = remove_waiter last_applied w.waiting; closed = ch ∷ w.closed }
]
