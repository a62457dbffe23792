-- ===== src/Api/Spawn/Ports.antt =====
-- The port that `nextFreePort` of internal/api/server.go finds.
use mimori.Api.Spawn.{Spawner, is_free, next_free_port, search_port}
use mimori.Prelude.{
  Bool, Bool-cases, List, Option, arith, false, inl, inr, ltb, ltb→lt, none, some, subst, suc, true,
  zero, ℕ, ◌*◌, ◌+◌, ◌-◌, ◌<◌, ◌≡◌,
}
use mimori.Utils.{ℤ}

module _ (can_listen : ℕ → Bool) (reserved : List ℤ) (m : Spawner) where
  -- The port is the first of `start`, `start + 2`, ... that is free, and is below 10000.
  pub record IsFirstFree (start port : ℕ) : Type 0 where
    pub skipped : ℕ
    pub reached : port ≡ start + 2 * skipped
    pub bounded : port < 10000
    pub free : is_free can_listen reserved m port ≡ true
    pub passed : (k : ℕ) → k < skipped → is_free can_listen reserved m (start + 2 * k) ≡ false

  abbrev pub NoneFree : ℕ → Type 0
  NoneFree start =
      (k : ℕ) → start + 2 * k < 10000 → is_free can_listen reserved m (start + 2 * k) ≡ false

  -- What a search from `start` may answer.
  pub data Searched (start : ℕ) : Option ℕ → Type 0 where
    found_port : {port : ℕ} → IsFirstFree start port → Searched start (some port)
    no_port : NoneFree start → Searched start none

  passed-suc :
      (start rounds : ℕ)
      → is_free can_listen reserved m start ≡ false
      → ((k : ℕ) → k < rounds → is_free can_listen reserved m (start + 2 + 2 * k) ≡ false)
      → (k : ℕ) → k < suc rounds
      → is_free can_listen reserved m (start + 2 * k) ≡ false
  passed-suc start rounds busy rest zero lt =
      subst (λ p. is_free can_listen reserved m p ≡ false) (omega arith) busy
  passed-suc start rounds busy rest (suc k) lt =
      subst (λ p. is_free can_listen reserved m p ≡ false) (omega arith) (rest k (omega arith))

  NoneFree-suc :
      (start : ℕ)
      → is_free can_listen reserved m start ≡ false
      → NoneFree (start + 2)
      → NoneFree start
  NoneFree-suc start busy none_free zero lt =
      subst (λ p. is_free can_listen reserved m p ≡ false) (omega arith) busy
  NoneFree-suc start busy none_free (suc k) lt =
      subst (λ p. is_free can_listen reserved m p ≡ false) (omega arith) (none_free k (omega arith))

  Searched-step :
      (start : ℕ) (o : Option ℕ)
      → is_free can_listen reserved m start ≡ false
      → Searched (start + 2) o
      → Searched start o
  Searched-step start _ busy (found_port f) = found_port (record {
    skipped = suc f.skipped;
    reached = omega (arith, f.reached);
    bounded = f.bounded;
    free = f.free;
    passed = passed-suc start f.skipped busy f.passed;
  })
  Searched-step start _ busy (no_port none_free) = no_port (NoneFree-suc start busy none_free)

  pub search_port-Searched :
      (rounds start : ℕ)
      → 10000 < start + 2 * rounds
      → Searched start (search_port can_listen rounds reserved m start)
  unfolding search_port
  search_port-Searched zero start enough = no_port λ k lt. absurd (omega arith)
  search_port-Searched (suc rounds) start enough = elim (Bool-cases (ltb start 10000)) [
    | inr above ↦ rw (search_port, above) (no_port λ k lt. absurd (ground (arith, above)))
    | inl below ↦ elim (Bool-cases (is_free can_listen reserved m start)) [
      | inl free_here ↦
          rw (search_port, below, free_here)
            (found_port (record {
              skipped = 0;
              reached = omega arith;
              bounded = ltb→lt start 10000 below;
              free = free_here;
              passed = λ k lt. absurd (omega arith);
            }))
      | inr busy ↦
          rw (search_port, below, busy)
            (Searched-step start _ busy (search_port-Searched rounds (start + 2) (omega arith)))
    ]
  ]

-- The state and the answer of `nextFreePort`.
pub data Assigned (can_listen : ℕ → Bool) (reserved : List ℤ) (m : Spawner)
    : Spawner × Option ℕ → Type 0 where
  assigned_port :
      {port : ℕ}
      → IsFirstFree can_listen reserved m m.next port
      → Assigned can_listen reserved m (record m { next = port + 2 }, some port)
  exhausted : NoneFree can_listen reserved m m.next → Assigned can_listen reserved m (m, none)

-- From any state, `nextFreePort` either returns the first of the ports `next`, `next + 2`, ... that is
-- not reserved, has no process and can be listened on together with the port above it, which is below
-- 10000, and moves `next` behind it, or none of these ports below 10000 is so, and it returns no port and
-- changes nothing.
pub next_free_port-Assigned :
    (can_listen : ℕ → Bool) (reserved : List ℤ) (m : Spawner)
    → Assigned can_listen reserved m (next_free_port can_listen reserved m)
unfolding next_free_port
next_free_port-Assigned can_listen reserved m =
    go (search_port can_listen (10000 - m.next + 1) reserved m m.next)
      (search_port-Searched can_listen reserved m (10000 - m.next + 1) m.next (omega arith))
  where
    go :
        (o : Option ℕ)
        → Searched can_listen reserved m m.next o
        → Assigned can_listen reserved m
            (elim o [ none ↦ (m, none) | some port ↦ (record m { next = port + 2 }, some port) ])
    go _ (found_port f) = assigned_port f
    go _ (no_port none_free) = exhausted none_free
