-- ===== src/Ctl/Leaks.antt =====
-- The connections that `getConnection` of client/client.go and of cmd/mimorictl/client.go lets go.
use mimori.Ctl.Manager.{Conns, close_conns, dial_conn, drop_conn, find_conn, get_conn}
use mimori.Prelude.{Bool, List, [], arith, false, map, refl, some, ℕ, ◌++◌, ◌<◌, ◌||◌, ◌∷◌, ◌≡◌}
use mimori.Raft.Pool.{ConnState, is_usable}
use mimori.Raft.Pool.Numbers.{nat_elem}
use mimori.Raft.State.{Bytes}

nat_elem-append :
    (n : ℕ) (xs ys : List ℕ) → nat_elem n (xs ++ ys) ≡ (nat_elem n xs || nat_elem n ys)
nat_elem-append n [] ys = refl
nat_elem-append n (x ∷ xs) ys = ground (arith, nat_elem-append n xs ys)

-- A cached connection that gRPC no longer reports as ready or idle, that is cached at no other address and
-- is not closed, is not closed either by the call of `getConnection` that drops it and by closing the
-- client afterwards.
pub get_conn-leaks :
    (state_of : ℕ → ConnState) (dial_succeeds : Bool) (addr : Bytes) (n : ℕ) (c : Conns)
    → find_conn addr c.conns ≡ some n
    → is_usable (state_of n) ≡ false
    → nat_elem n (map (λ p. p.1) (drop_conn addr c.conns)) ≡ false
    → nat_elem n c.closed ≡ false
    → n < c.dialed
    → nat_elem n (close_conns (get_conn state_of dial_succeeds addr c).0).closed ≡ false
unfolding get_conn close_conns dial_conn
get_conn-leaks state_of dial_succeeds addr n c cached unusable alone still_open old =
    let rest = map (λ (p : Bytes × ℕ). p.1) (drop_conn addr c.conns) in
    ground (arith, nat_elem-append n rest c.closed, nat_elem-append n (c.dialed ∷ rest) c.closed)
