-- ===== src/Raft/Pool/Handed.antt =====
-- The connections that internal/raft/conn_pool.go hands out and closes.
use mimori.Prelude.{Bool, List, Option-cases, arith, false, find, inl, inr, some, ℕ, ◌≡◌}
use mimori.Raft.Pool.{
  ConnState, Pool, PoolCall, dial, get_connection, new_pool, pool_calls, remove_connection,
}
use mimori.Raft.Pool.Numbers.{nat_elem}
use mimori.Raft.Pool.Open.{
  WellKept, WellKept-new_pool, WellKept-pool_calls, WellKept-remove_connection,
}
use mimori.Raft.State.{NodeId}

dial-open :
    (dial_succeeds : Bool) (addr : NodeId) (p : Pool) (n : ℕ)
    → WellKept p
    → (dial dial_succeeds addr p).1 ≡ some n
    → nat_elem n (dial dial_succeeds addr p).0.closed ≡ false
unfolding dial
dial-open dial_succeeds addr p n w h = ground (arith, w.closed_below p.dialed)

get_connection-WellKept-open :
    (state_of : ℕ → ConnState) (dial_succeeds : Bool) (addr : NodeId) (p : Pool) (n : ℕ)
    → WellKept p
    → (get_connection state_of dial_succeeds addr p).1 ≡ some n
    → nat_elem n (get_connection state_of dial_succeeds addr p).0.closed ≡ false
unfolding get_connection
get_connection-WellKept-open state_of dial_succeeds addr p n w h =
    elim (Option-cases (find addr p.conns)) [
      | inl absent ↦ ground (arith, dial-open dial_succeeds addr p n w)
      | inr (pooled, cached) ↦ ground (
        arith,
        dial-open dial_succeeds addr (remove_connection addr p) n
            (WellKept-remove_connection addr p w),
        w.is_open addr pooled cached,
      )
    ]

-- After any calls of a new pool, a connection that `getConnection` hands out was not closed.
pub get_connection-is_open :
    (custom : Bool) (cs : List PoolCall) (state_of : ℕ → ConnState) (dial_succeeds : Bool)
    (addr : NodeId) (n : ℕ)
    → (get_connection state_of dial_succeeds addr (pool_calls cs (new_pool custom))).1 ≡ some n
    → nat_elem n
        (get_connection state_of dial_succeeds addr (pool_calls cs (new_pool custom))).0.closed
      ≡ false
get_connection-is_open custom cs state_of dial_succeeds addr n h =
    get_connection-WellKept-open state_of dial_succeeds addr (pool_calls cs (new_pool custom)) n
      (WellKept-pool_calls cs (new_pool custom) (WellKept-new_pool custom)) h
