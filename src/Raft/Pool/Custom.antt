-- ===== src/Raft/Pool/Custom.antt =====
-- The connections of a dialer that was given to the pool of internal/raft/conn_pool.go.
use mimori.Prelude.{List, [], arith, false, find, refl, true, ℕ, ◌∷◌, ◌≡◌}
use mimori.Raft.Pool.{
  Pool, PoolCall, all_closed, close_all, close_each, connection_got, connection_released,
  connection_removed, dial, get_connection, new_pool, pool_call, pool_calls, release_connection,
  remove_connection,
}
use mimori.Raft.Pool.Numbers.{nat_elem}

-- The pool holds nothing and has closed nothing.
record IsIdle (p : Pool) : Type 0 where
  is_custom : p.custom ≡ true
  empty : p.conns ≡ []
  none_closed : p.closed ≡ []

IsIdle-pool_call : (c : PoolCall) (p : Pool) → IsIdle p → IsIdle (pool_call c p)
unfolding pool_call get_connection release_connection remove_connection close_all dial find
    close_each
IsIdle-pool_call (connection_got state_of dial_succeeds addr) p i = ground arith
IsIdle-pool_call (connection_released addr) p i = ground arith
IsIdle-pool_call (connection_removed addr) p i = ground arith
IsIdle-pool_call all_closed p i = ground arith

IsIdle-pool_calls : (cs : List PoolCall) (p : Pool) → IsIdle p → IsIdle (pool_calls cs p)
unfolding pool_calls
IsIdle-pool_calls [] p i = i
IsIdle-pool_calls (c ∷ cs) p i = IsIdle-pool_calls cs (pool_call c p) (IsIdle-pool_call c p i)

-- A pool with a dialer of its own closes no connection: after any calls, `closeAll` among them, and
-- however many were dialed, none is closed.
pub pool_calls-custom :
    (cs : List PoolCall) (n : ℕ) → nat_elem n (pool_calls cs (new_pool true)).closed ≡ false
pool_calls-custom cs n =
    let idle_pool =
      IsIdle-pool_calls cs (new_pool true)
        (record { is_custom = refl; empty = refl; none_closed = refl }) in
    rw idle_pool.none_closed refl
