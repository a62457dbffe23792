-- ===== src/Raft/Pool/Numbers.antt =====
-- The numbers of the connections that a pool holds or has closed.
use mimori.Prelude.{
  Bool, Bool-cases, List, Table, [], arith, false, inl, inr, put, remove, str_eq, true, ℕ, ◌<◌,
  ◌==◌, ◌||◌, ◌∷◌, ◌≡◌, ◌≤◌,
}
use mimori.Raft.Pool.{PooledConnection, close_each}
use mimori.Raft.State.{NodeId}

abbrev pub nat_elem : ℕ → List ℕ → Bool
nat_elem n [] = false
nat_elem n (m ∷ ms) = m == n || nat_elem n ms

abbrev pub AllBelow : ℕ → Table PooledConnection → Type 0
AllBelow bound [] = Unit {0}
AllBelow bound ((a, c) ∷ conns) = (c.conn < bound) × AllBelow bound conns

pub AllBelow-put :
    (bound : ℕ) (a : NodeId) (c : PooledConnection) (conns : Table PooledConnection)
    → c.conn < bound
    → AllBelow bound conns
    → AllBelow bound (put a c conns)
unfolding put
AllBelow-put bound a c [] lt all = (lt, tt)
AllBelow-put bound a c ((b, d) ∷ conns) lt all = elim (Bool-cases (str_eq b a)) [
  | inl same ↦ rw (put, same) (lt, all.1)
  | inr other ↦ rw (put, other) (all.0, AllBelow-put bound a c conns lt all.1)
]

pub AllBelow-remove :
    (bound : ℕ) (a : NodeId) (conns : Table PooledConnection)
    → AllBelow bound conns
    → AllBelow bound (remove a conns)
unfolding remove
AllBelow-remove bound a [] all = tt
AllBelow-remove bound a ((b, d) ∷ conns) all = elim (Bool-cases (str_eq b a)) [
  | inl same ↦ rw (remove, same) (AllBelow-remove bound a conns all.1)
  | inr other ↦ rw (remove, other) (all.0, AllBelow-remove bound a conns all.1)
]

pub AllBelow-weaken :
    (low high : ℕ) (conns : Table PooledConnection)
    → low ≤ high
    → AllBelow low conns
    → AllBelow high conns
AllBelow-weaken low high [] le all = tt
AllBelow-weaken low high ((b, d) ∷ conns) le all =
    (omega (arith, all.0), AllBelow-weaken low high conns le all.1)

pub close_each-below :
    (bound : ℕ) (conns : Table PooledConnection) (closed : List ℕ)
    → AllBelow bound conns
    → ((n : ℕ) → nat_elem n closed ≡ true → n < bound)
    → (n : ℕ) → nat_elem n (close_each conns closed) ≡ true
    → n < bound
unfolding close_each
close_each-below bound [] closed all below = below
close_each-below bound ((a, c) ∷ conns) closed all below =
    close_each-below bound conns (c.conn ∷ closed) all.1 λ n h. ground (arith, below n, all.0)
