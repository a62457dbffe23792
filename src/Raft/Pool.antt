-- ===== src/Raft/Pool.antt =====
-- internal/raft/conn_pool.go: the connections to the peers.
--
-- Connections are numbered in the order in which they are dialed, and `closed` holds those that `Close`
-- was called on.  What gRPC answers is an argument: the state of the cached connection, and whether a
-- dial succeeds.
pub mod Numbers
pub mod Open
pub mod Handed
pub mod Closed
pub mod Custom
use mimori.Prelude.{
  Bool, List, Option, Table, [], false, find, if◌then◌else◌, none, put, remove, some, true, ℕ, ◌+◌,
  ◌-◌, ◌∷◌,
}
use mimori.Raft.State.{NodeId}

-- `connectivity.State`
pub data ConnState : Type 0 where
  idle connecting ready transient_failure shutdown : ConnState

-- `pooledConnection`
pub record PooledConnection : Type 0 where
  pub conn : ℕ
  pub refs : ℕ

-- `connectionPool`; `custom` says whether a dialer was given.
pub record Pool : Type 0 where
  pub conns : Table PooledConnection
  pub custom : Bool
  pub dialed : ℕ
  pub closed : List ℕ

-- `newConnectionPool`
abbrev pub new_pool : (custom : Bool) → Pool
new_pool custom = record { conns = []; custom = custom; dialed = 0; closed = [] }

unfoldable pub is_usable : ConnState → Bool
is_usable ready = true
is_usable idle = true
is_usable connecting = false
is_usable transient_failure = false
is_usable shutdown = false

-- `removeConnection`, and the branch of `getConnection` for a connection that is not usable.
unfoldable pub remove_connection : NodeId → Pool → Pool
unfolding find remove
remove_connection addr p = elim (find addr p.conns) [
  | none ↦ p
  | some pooled ↦ record p { conns = remove addr p.conns; closed = pooled.conn ∷ p.closed }
]

-- The part of `getConnection` behind the cache: the connection that the answered client uses, or `none`
-- for the error of the dial.
unfoldable pub dial : (dial_succeeds : Bool) → NodeId → Pool → Pool × Option ℕ
unfolding put
dial dial_succeeds addr p =
    if dial_succeeds
    then (if p.custom then (record p { dialed = p.dialed + 1 }, some p.dialed) else (
      record p {
        conns = put addr (record { conn = p.dialed; refs = 1 }) p.conns;
        dialed = p.dialed + 1;
      },
      some p.dialed,
    ))
    else (p, none)

-- `getConnection`
unfoldable pub get_connection :
    (state_of : ℕ → ConnState) (dial_succeeds : Bool) → NodeId → Pool → Pool × Option ℕ
unfolding find is_usable put remove_connection dial
get_connection state_of dial_succeeds addr p = elim (find addr p.conns) [
  | none ↦ dial dial_succeeds addr p
  | some pooled ↦
      if is_usable (state_of pooled.conn)
      then (
        record p {
          conns = put addr (record { conn = pooled.conn; refs = pooled.refs + 1 }) p.conns;
        },
        some pooled.conn,
      )
      else dial dial_succeeds addr (remove_connection addr p)
]

-- `releaseConnection`
unfoldable pub release_connection : NodeId → Pool → Pool
unfolding find put
release_connection addr p = elim (find addr p.conns) [
  | none ↦ p
  | some pooled ↦ record p {
    conns = put addr (record { conn = pooled.conn; refs = pooled.refs - 1 }) p.conns;
  }
]

-- The loop of `closeAll`.
unfoldable pub close_each : Table PooledConnection → List ℕ → List ℕ
close_each [] closed = closed
close_each ((addr, pooled) ∷ conns) closed = close_each conns (pooled.conn ∷ closed)

-- `closeAll`
unfoldable pub close_all : Pool → Pool
unfolding close_each
close_all p = record p { conns = []; closed = close_each p.conns p.closed }

-- A call of the pool, with what gRPC answers to it.
pub data PoolCall : Type 0 where
  connection_got : (state_of : ℕ → ConnState) (dial_succeeds : Bool) → NodeId → PoolCall
  connection_released : NodeId → PoolCall
  connection_removed : NodeId → PoolCall
  all_closed : PoolCall

unfoldable pub pool_call : PoolCall → Pool → Pool
unfolding get_connection release_connection remove_connection close_all
pool_call (connection_got state_of dial_succeeds addr) p =
    (get_connection state_of dial_succeeds addr p).0
pool_call (connection_released addr) p = release_connection addr p
pool_call (connection_removed addr) p = remove_connection addr p
pool_call all_closed p = close_all p

unfoldable pub pool_calls : List PoolCall → Pool → Pool
unfolding pool_call
pool_calls [] p = p
pool_calls (c ∷ cs) p = pool_calls cs (pool_call c p)
