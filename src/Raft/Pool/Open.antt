-- ===== src/Raft/Pool/Open.antt =====
-- Which connections of internal/raft/conn_pool.go are open.
use mimori.Prelude.{
  Bool, Bool-cases, List, Option-cases, [], arith, false, find, find-put, find-remove, inl, inr,
  put, some, str_eq_iff, true, ℕ, ◌+◌, ◌-◌, ◌<◌, ◌∷◌, ◌≡◌,
}
use mimori.Raft.Pool.{
  ConnState, Pool, PoolCall, PooledConnection, all_closed, close_all, connection_got,
  connection_released, connection_removed, dial, get_connection, is_usable, new_pool, pool_call,
  pool_calls, release_connection, remove_connection,
}
use mimori.Raft.Pool.Numbers.{
  AllBelow, AllBelow-put, AllBelow-remove, AllBelow-weaken, close_each-below, nat_elem,
}
use mimori.Raft.State.{NodeId}

-- A connection of the pool is open and has one address.
pub record WellKept (p : Pool) : Type 0 where
  pub listed : AllBelow p.dialed p.conns
  pub below : (a : NodeId) (c : PooledConnection) → find a p.conns ≡ some c → c.conn < p.dialed
  pub unique :
      (a b : NodeId) (c d : PooledConnection)
      → find a p.conns ≡ some c
      → find b p.conns ≡ some d
      → c.conn ≡ d.conn
      → a ≡ b
  pub is_open :
      (a : NodeId) (c : PooledConnection)
      → find a p.conns ≡ some c
      → nat_elem c.conn p.closed ≡ false
  pub closed_below : (n : ℕ) → nat_elem n p.closed ≡ true → n < p.dialed

pub WellKept-remove_connection :
    (addr : NodeId) (p : Pool) → WellKept p → WellKept (remove_connection addr p)
unfolding remove_connection
WellKept-remove_connection addr p w = elim (Option-cases (find addr p.conns)) [
  | inl absent ↦ rw (remove_connection, absent) w
  | inr (pooled, cached) ↦
      rw (remove_connection, cached)
        (record {
          listed = AllBelow-remove p.dialed addr p.conns w.listed;
          below = λ a c h. ground (arith, find-remove addr a p.conns, w.below a c);
          unique = λ a b c d h k.
              ground
                (arith, find-remove addr a p.conns, find-remove addr b p.conns, w.unique a b c d);
          is_open = λ a c h. ground (
            arith,
            find-remove addr a p.conns,
            w.is_open a c,
            w.unique a addr c pooled,
            str_eq_iff addr a,
            cached,
          );
          closed_below = λ n h. ground (arith, w.closed_below n, w.below addr pooled cached);
        })
]

-- A change of the count of references.
WellKept-counted :
    (addr : NodeId) (pooled : PooledConnection) (refs : ℕ) (p : Pool)
    → find addr p.conns ≡ some pooled
    → WellKept p
    → WellKept (record p { conns = put addr (record { conn = pooled.conn; refs = refs }) p.conns })
WellKept-counted addr pooled refs p cached w =
    let counted : PooledConnection = record { conn = pooled.conn; refs = refs } in
    record {
      listed = AllBelow-put p.dialed addr counted p.conns (w.below addr pooled cached) w.listed;
      below = λ a c h.
          ground (arith, find-put addr a counted p.conns, w.below a c, w.below addr pooled cached);
      unique = λ a b c d h k same. ground (
        arith,
        find-put addr a counted p.conns,
        find-put addr b counted p.conns,
        str_eq_iff addr a,
        str_eq_iff addr b,
        w.unique a b c d,
        w.unique addr b pooled d cached,
        w.unique a addr c pooled,
        cached,
      );
      is_open = λ a c h.
          ground
            (arith, find-put addr a counted p.conns, w.is_open a c, w.is_open addr pooled cached);
      closed_below = w.closed_below;
    }

WellKept-dial :
    (dial_succeeds : Bool) (addr : NodeId) (p : Pool)
    → WellKept p
    → WellKept (dial dial_succeeds addr p).0
unfolding dial
WellKept-dial false addr p w = w
WellKept-dial true addr p w = elim (Bool-cases p.custom) [
  | inl custom ↦
      rw (dial, custom)
        (record {
          listed = AllBelow-weaken p.dialed (p.dialed + 1) p.conns (omega arith) w.listed;
          below = λ a c h. omega (arith, w.below a c h);
          unique = w.unique;
          is_open = w.is_open;
          closed_below = λ n h. omega (arith, w.closed_below n h);
        })
  | inr default ↦
      rw (dial, default)
        (let fresh : PooledConnection = record { conn = p.dialed; refs = 1 } in
          record {
            listed =
                AllBelow-put (p.dialed + 1) addr fresh p.conns (omega arith)
                  (AllBelow-weaken p.dialed (p.dialed + 1) p.conns (omega arith) w.listed);
            below = λ a c h. ground (arith, find-put addr a fresh p.conns, w.below a c);
            unique = λ a b c d h k same. ground (
              arith,
              find-put addr a fresh p.conns,
              find-put addr b fresh p.conns,
              str_eq_iff addr a,
              str_eq_iff addr b,
              w.unique a b c d,
              w.below a c,
              w.below b d,
            );
            is_open = λ a c h.
                ground
                  (arith, find-put addr a fresh p.conns, w.is_open a c, w.closed_below p.dialed);
            closed_below = λ n h. omega (arith, w.closed_below n h);
          })
]

WellKept-get_connection :
    (state_of : ℕ → ConnState) (dial_succeeds : Bool) (addr : NodeId) (p : Pool)
    → WellKept p
    → WellKept (get_connection state_of dial_succeeds addr p).0
unfolding get_connection
WellKept-get_connection state_of dial_succeeds addr p w = elim (Option-cases (find addr p.conns)) [
  | inl absent ↦ rw (get_connection, absent) (WellKept-dial dial_succeeds addr p w)
  | inr (pooled, cached) ↦ elim (Bool-cases (is_usable (state_of pooled.conn))) [
    | inl usable ↦
        rw (get_connection, cached, usable)
          (WellKept-counted addr pooled (pooled.refs + 1) p cached w)
    | inr unusable ↦
        rw (get_connection, cached, unusable)
          (WellKept-dial dial_succeeds addr (remove_connection addr p)
            (WellKept-remove_connection addr p w))
  ]
]

WellKept-release_connection :
    (addr : NodeId) (p : Pool) → WellKept p → WellKept (release_connection addr p)
unfolding release_connection
WellKept-release_connection addr p w = elim (Option-cases (find addr p.conns)) [
  | inl absent ↦ rw (release_connection, absent) w
  | inr (pooled, cached) ↦
      rw (release_connection, cached) (WellKept-counted addr pooled (pooled.refs - 1) p cached w)
]

WellKept-close_all : (p : Pool) → WellKept p → WellKept (close_all p)
unfolding close_all find
WellKept-close_all p w = record {
  listed = tt;
  below = λ a c h. cc;
  unique = λ a b c d h k same. cc;
  is_open = λ a c h. cc;
  closed_below = close_each-below p.dialed p.conns p.closed w.listed w.closed_below;
}

WellKept-pool_call : (c : PoolCall) (p : Pool) → WellKept p → WellKept (pool_call c p)
unfolding pool_call
WellKept-pool_call (connection_got state_of dial_succeeds addr) p w =
    WellKept-get_connection state_of dial_succeeds addr p w
WellKept-pool_call (connection_released addr) p w = WellKept-release_connection addr p w
WellKept-pool_call (connection_removed addr) p w = WellKept-remove_connection addr p w
WellKept-pool_call all_closed p w = WellKept-close_all p w

pub WellKept-pool_calls : (cs : List PoolCall) (p : Pool) → WellKept p → WellKept (pool_calls cs p)
unfolding pool_calls
WellKept-pool_calls [] p w = w
WellKept-pool_calls (c ∷ cs) p w = WellKept-pool_calls cs (pool_call c p) (WellKept-pool_call c p w)

pub WellKept-new_pool : (custom : Bool) → WellKept (new_pool custom)
unfolding find
WellKept-new_pool custom = record {
  listed = tt;
  below = λ a c h. cc;
  unique = λ a b c d h k same. cc;
  is_open = λ a c h. cc;
  closed_below = λ n h. cc;
}
