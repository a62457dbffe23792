-- ===== src/Raft/Pool/Closed.antt =====
-- What `closeAll` of internal/raft/conn_pool.go closes.
use mathlib.Core.Option.{some-injective}
use mimori.Prelude.{
  Bool, Bool-cases, List, Option-cases, Table, [], ap, arith, false, find, find-put, find-remove,
  inl, inr, ltb, ltb→lt, none, put, refl, some, str_eq, str_eq_iff, str_eq_refl, str_eq→eq, subst,
  sym, true, ℕ, ◌+◌, ◌-◌, ◌<◌, ◌∙◌, ◌∷◌, ◌≡◌, ◌⊎◌,
}
use mimori.Raft.Pool.{
  ConnState, Pool, PoolCall, PooledConnection, all_closed, close_all, close_each, connection_got,
  connection_released, connection_removed, dial, get_connection, is_usable, new_pool, pool_call,
  pool_calls, release_connection, remove_connection,
}
use mimori.Raft.Pool.Numbers.{nat_elem}
use mimori.Raft.State.{NodeId}

-- No dialed connection is lost: it is closed, or the pool holds it.
record Accounted (p : Pool) : Type 0 where
  own_dialer : p.custom ≡ false
  held :
      (n : ℕ)
      → n < p.dialed
      → (nat_elem n p.closed ≡ true)
        ⊎ ((a : NodeId) × (c : PooledConnection) × (find a p.conns ≡ some c) × (c.conn ≡ n))

Accounted-remove_connection :
    (addr : NodeId) (p : Pool) → Accounted p → Accounted (remove_connection addr p)
unfolding remove_connection
Accounted-remove_connection addr p acc = elim (Option-cases (find addr p.conns)) [
  | inl absent ↦ rw (remove_connection, absent) acc
  | inr (pooled, cached) ↦
      rw (remove_connection, cached)
        (record {
          own_dialer = acc.own_dialer;
          held = λ n lt. elim (acc.held n lt) [
            | inl shut ↦ inl (ground arith)
            | inr (a, c, found_here, same) ↦ elim (Bool-cases (str_eq addr a)) [
              | inl this ↦ inl (ground (arith, str_eq_iff addr a))
              | inr other ↦ inr (a, c, find-remove addr a p.conns ∙ rw other found_here, same)
            ]
          ];
        })
]

Accounted-put :
    (addr : NodeId) (fresh : PooledConnection) (p : Pool) (n : ℕ)
    → ((c : PooledConnection) → find addr p.conns ≡ some c → c.conn ≡ fresh.conn)
    → Accounted p
    → n < p.dialed
    → (nat_elem n p.closed ≡ true)
      ⊎ ((a : NodeId) × (c : PooledConnection) × (find a (put addr fresh p.conns) ≡ some c)
          × (c.conn ≡ n))
Accounted-put addr fresh p n keeps acc lt = elim (acc.held n lt) [
  | inl shut ↦ inl shut
  | inr (a, c, found_here, same) ↦ elim (Bool-cases (str_eq addr a)) [
    | inl this ↦ inr (
      a,
      fresh,
      find-put addr a fresh p.conns ∙ rw this refl,
      sym (keeps c (subst (λ b. find b p.conns ≡ some c) (sym (str_eq→eq addr a this)) found_here))
          ∙ same,
    )
    | inr other ↦ inr (a, c, find-put addr a fresh p.conns ∙ rw other found_here, same)
  ]
]

Accounted-counted :
    (addr : NodeId) (pooled : PooledConnection) (refs : ℕ) (p : Pool)
    → find addr p.conns ≡ some pooled
    → Accounted p
    → Accounted (record p { conns = put addr (record { conn = pooled.conn; refs = refs }) p.conns })
Accounted-counted addr pooled refs p cached acc = record {
  own_dialer = acc.own_dialer;
  held = λ n lt.
      Accounted-put addr (record { conn = pooled.conn; refs = refs }) p n
        (λ c h. ap (λ (d : PooledConnection). d.conn) (some-injective _ _ (sym h ∙ cached))) acc lt;
}

Accounted-dial :
    (dial_succeeds : Bool) (addr : NodeId) (p : Pool)
    → find addr p.conns ≡ none
    → Accounted p
    → Accounted (dial dial_succeeds addr p).0
unfolding dial
Accounted-dial false addr p absent acc = acc
Accounted-dial true addr p absent acc =
    rw (dial, acc.own_dialer)
      (let fresh : PooledConnection = record { conn = p.dialed; refs = 1 } in
        record {
          own_dialer = refl;
          held = λ n lt. elim (Bool-cases (ltb n p.dialed)) [
            | inl old ↦ Accounted-put addr fresh p n (λ c h. cc) acc (ltb→lt n p.dialed old)
            | inr new_one ↦ inr (
              addr,
              fresh,
              find-put addr addr fresh p.conns ∙ rw (str_eq_refl addr) refl,
              ground (arith, lt),
            )
          ];
        })

find-remove_connection :
    (addr : NodeId) (p : Pool) → find addr (remove_connection addr p).conns ≡ none
unfolding remove_connection
find-remove_connection addr p = elim (Option-cases (find addr p.conns)) [
  | inl absent ↦ rw (remove_connection, absent) absent
  | inr (pooled, cached) ↦
      rw (remove_connection, cached) (find-remove addr addr p.conns ∙ rw (str_eq_refl addr) refl)
]

Accounted-get_connection :
    (state_of : ℕ → ConnState) (dial_succeeds : Bool) (addr : NodeId) (p : Pool)
    → Accounted p
    → Accounted (get_connection state_of dial_succeeds addr p).0
unfolding get_connection
Accounted-get_connection state_of dial_succeeds addr p acc =
    elim (Option-cases (find addr p.conns)) [
      | inl absent ↦ rw (get_connection, absent) (Accounted-dial dial_succeeds addr p absent acc)
      | inr (pooled, cached) ↦ elim (Bool-cases (is_usable (state_of pooled.conn))) [
        | inl usable ↦
            rw (get_connection, cached, usable)
              (Accounted-counted addr pooled (pooled.refs + 1) p cached acc)
        | inr unusable ↦
            rw (get_connection, cached, unusable)
              (Accounted-dial dial_succeeds addr (remove_connection addr p)
                (find-remove_connection addr p) (Accounted-remove_connection addr p acc))
      ]
    ]

Accounted-release_connection :
    (addr : NodeId) (p : Pool) → Accounted p → Accounted (release_connection addr p)
unfolding release_connection
Accounted-release_connection addr p acc = elim (Option-cases (find addr p.conns)) [
  | inl absent ↦ rw (release_connection, absent) acc
  | inr (pooled, cached) ↦
      rw (release_connection, cached) (Accounted-counted addr pooled (pooled.refs - 1) p cached acc)
]

close_each-closed :
    (conns : Table PooledConnection) (closed : List ℕ) (n : ℕ)
    → nat_elem n closed ≡ true
    → nat_elem n (close_each conns closed) ≡ true
unfolding close_each
close_each-closed [] closed n h = h
close_each-closed ((a, c) ∷ conns) closed n h =
    close_each-closed conns (c.conn ∷ closed) n (ground arith)

close_each-held :
    (conns : Table PooledConnection) (closed : List ℕ) (a : NodeId) (c : PooledConnection)
    → find a conns ≡ some c
    → nat_elem c.conn (close_each conns closed) ≡ true
unfolding close_each find
close_each-held [] closed a c h = cc
close_each-held ((b, d) ∷ conns) closed a c h = elim (Bool-cases (str_eq b a)) [
  | inl same ↦ close_each-closed conns (d.conn ∷ closed) c.conn (ground arith)
  | inr other ↦ close_each-held conns (d.conn ∷ closed) a c (ground arith)
]

-- all
close_all-Accounted :
    (p : Pool) → Accounted p → (n : ℕ) → n < p.dialed → nat_elem n (close_all p).closed ≡ true
unfolding close_all
close_all-Accounted p acc n lt = elim (acc.held n lt) [
  | inl shut ↦ close_each-closed p.conns p.closed n shut
  | inr (a, c, here, same) ↦
      subst (λ m. nat_elem m (close_each p.conns p.closed) ≡ true) same
        (close_each-held p.conns p.closed a c here)
]

Accounted-pool_call : (c : PoolCall) (p : Pool) → Accounted p → Accounted (pool_call c p)
unfolding pool_call close_all
Accounted-pool_call (connection_got state_of dial_succeeds addr) p acc =
    Accounted-get_connection state_of dial_succeeds addr p acc
Accounted-pool_call (connection_released addr) p acc = Accounted-release_connection addr p acc
Accounted-pool_call (connection_removed addr) p acc = Accounted-remove_connection addr p acc
Accounted-pool_call all_closed p acc = record {
  own_dialer = acc.own_dialer;
  held = λ n lt. inl (close_all-Accounted p acc n lt);
}

Accounted-pool_calls : (cs : List PoolCall) (p : Pool) → Accounted p → Accounted (pool_calls cs p)
unfolding pool_calls
Accounted-pool_calls [] p acc = acc
Accounted-pool_calls (c ∷ cs) p acc =
    Accounted-pool_calls cs (pool_call c p) (Accounted-pool_call c p acc)

-- After any calls of a new pool without a dialer of its own, `closeAll` leaves each of the connections
-- that were dialed closed.
pub close_all-closes :
    (cs : List PoolCall) (n : ℕ)
    → n < (pool_calls cs (new_pool false)).dialed
    → nat_elem n (close_all (pool_calls cs (new_pool false))).closed ≡ true
close_all-closes cs n lt =
    close_all-Accounted (pool_calls cs (new_pool false))
      (Accounted-pool_calls cs (new_pool false)
        (record { own_dialer = refl; held = λ k none_dialed. absurd (omega arith) }))
      n lt
