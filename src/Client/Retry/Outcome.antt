-- ===== src/Client/Retry/Outcome.antt =====
-- What `executeWithRetry` of client/client.go reports, and where it goes after a redirect.
use mimori.Client.Address.{normalize_leader_addr}
use mimori.Client.Retry.{
  CallError, Execution, Network, address_for, cached_after, cached_after_error, execute_from,
  execute_with_retry, get_leader, hint_of, is_leader_error,
}
use mimori.Prelude.{
  List, Option-cases, [], ap, arith, false, inl, inr, length, none, refl, some, suc, true, zero, ℕ,
  ◌∙◌, ◌∷◌, ◌≡◌, ◌≤◌, ◌⊎◌,
}
use mimori.Raft.State.{Bytes}
use mimori.Store.Laws.{bytes_eq}

-- The call of an attempt failed.
abbrev pub Failed : Network → ℕ × Bytes → Type 0
Failed net (k, addr) = (e : CallError) × (net.call k addr ≡ some e)

abbrev pub AllFailed : Network → List (ℕ × Bytes) → Type 0
AllFailed net [] = Unit {0}
AllFailed net (c ∷ cs) = Failed net c × AllFailed net cs

-- The last call succeeded, and no other.
abbrev pub LastSucceeded : Network → List (ℕ × Bytes) → Type 0
LastSucceeded net [] = ⊥
LastSucceeded net (c ∷ []) = net.call c.0 c.1 ≡ none
LastSucceeded net (c ∷ d ∷ cs) = Failed net c × LastSucceeded net (d ∷ cs)

-- What an execution reports is what its calls did.
record Honest (net : Network) (left : ℕ) (x : Execution) : Type 0 where
  bounded : length x.called ≤ left
  reported :
      ((x.succeeded ≡ true) × LastSucceeded net x.called)
      ⊎ ((x.succeeded ≡ false) × AllFailed net x.called)

LastSucceeded-cons :
    (net : Network) (c : ℕ × Bytes) (cs : List (ℕ × Bytes))
    → Failed net c
    → LastSucceeded net cs
    → LastSucceeded net (c ∷ cs)
LastSucceeded-cons net c [] fails h = absurd h
LastSucceeded-cons net c (d ∷ cs) fails h = (fails, h)

Honest-weaken :
    (net : Network) (left : ℕ) (x : Execution) → Honest net left x → Honest net (suc left) x
Honest-weaken net left x h = record { bounded = omega (arith, h.bounded); reported = h.reported }

Honest-after_failure :
    (net : Network) (left : ℕ) (x : Execution) (c : ℕ × Bytes)
    → Failed net c
    → Honest net left x
    → Honest net (suc left) (record x { called = c ∷ x.called })
Honest-after_failure net left x c fails h = record {
  bounded = omega (arith, h.bounded);
  reported = elim h.reported [
    | inl (done, last) ↦ inl (done, LastSucceeded-cons net c x.called fails last)
    | inr (lost, all) ↦ inr (lost, (fails, all))
  ];
}

execute_from-Honest :
    (left attempt : ℕ) (net : Network) (seeds : List Bytes) (leader_addr : Bytes)
    → Honest net left (execute_from left attempt net seeds leader_addr)
unfolding execute_from
execute_from-Honest zero attempt net seeds leader_addr = record {
  bounded = omega arith;
  reported = inr (refl, tt);
}
execute_from-Honest (suc left) attempt net seeds leader_addr =
    elim (Option-cases (address_for net attempt seeds leader_addr)) [
      | inl nowhere ↦
          rw (execute_from, nowhere)
            (Honest-weaken net left _ (execute_from-Honest left (suc attempt) net seeds _))
      | inr (addr, there) ↦ (elim (Option-cases (net.call attempt addr)) [
        | inl done ↦
            rw (execute_from, there, done)
              (record { bounded = omega arith; reported = inl (refl, done) })
        | inr (e, fails) ↦
            rw (execute_from, there, fails)
              (Honest-after_failure net left _ (attempt, addr) (e, fails)
                (execute_from-Honest left (suc attempt) net seeds _))
      ])
    ]

-- At most as many operations are called as there are retries; success is reported exactly when the last one
-- called succeeded, and no operation is called after one that succeeded.
pub execute_with_retry_sound :
    (max_retries : ℕ) (net : Network) (seeds : List Bytes) (leader_addr : Bytes)
    → let x = execute_with_retry max_retries net seeds leader_addr in
      (length x.called ≤ max_retries)
      × (((x.succeeded ≡ true) × LastSucceeded net x.called)
          ⊎ ((x.succeeded ≡ false) × AllFailed net x.called))
unfolding execute_with_retry
execute_with_retry_sound max_retries net seeds leader_addr =
    let h = execute_from-Honest max_retries 0 net seeds leader_addr in (h.bounded, h.reported)

module _ (net : Network) (seeds : List Bytes) where
  execute_from-failure :
      (left attempt : ℕ) (leader_addr addr : Bytes) (e : CallError)
      → address_for net attempt seeds leader_addr ≡ some addr
      → net.call attempt addr ≡ some e
      → let cached = cached_after (get_leader net attempt seeds leader_addr) in
        let rest =
          execute_from left (suc attempt) net seeds (cached_after_error seeds addr cached e) in
        execute_from (suc left) attempt net seeds leader_addr
        ≡ record rest { called = (attempt, addr) ∷ rest.called }
  unfolding execute_from
  execute_from-failure left attempt leader_addr addr e there lost =
      rw (execute_from, there, lost) refl

  execute_from-success :
      (left attempt : ℕ) (leader_addr addr : Bytes)
      → address_for net attempt seeds leader_addr ≡ some addr
      → net.call attempt addr ≡ none
      → execute_from (suc left) attempt net seeds leader_addr ≡ record {
        succeeded = true;
        called = (attempt, addr) ∷ [];
        leader_addr = cached_after (get_leader net attempt seeds leader_addr);
      }
  unfolding execute_from
  execute_from-success left attempt leader_addr addr there done =
      rw (execute_from, there, done) refl

  get_leader-verified :
      (attempt : ℕ) (addr : Bytes)
      → bytes_eq addr [] ≡ false
      → net.verify_leader attempt addr ≡ true
      → (get_leader net attempt seeds addr ≡ some addr)
        × (address_for net attempt seeds addr ≡ some addr)
  unfolding address_for get_leader
  get_leader-verified attempt addr named leads =
      rw (address_for, get_leader, named, leads) (refl, refl)

cached_after_error-hint :
    (seed : Bytes) (seeds : List Bytes) (addr cached : Bytes) (e : CallError) (hint : Bytes)
    → is_leader_error e ≡ true
    → hint_of e ≡ some hint
    → cached_after_error (seed ∷ seeds) addr cached e ≡ normalize_leader_addr seed hint
unfolding cached_after_error
cached_after_error-hint seed seeds addr cached e hint redirects hinted = rw (redirects, hinted) refl

-- A call that is refused with the hint of a leader, to which the operation succeeds, is followed by the call
-- of that leader, when the hint leads to an address that says that it leads, and one retry is left.
pub execute_with_retry-redirect :
    (n : ℕ) (net : Network) (seed : Bytes) (seeds : List Bytes) (leader_addr addr : Bytes)
    (e : CallError) (hint : Bytes)
    → address_for net 0 (seed ∷ seeds) leader_addr ≡ some addr
    → net.call 0 addr ≡ some e
    → is_leader_error e ≡ true
    → hint_of e ≡ some hint
    → bytes_eq (normalize_leader_addr seed hint) [] ≡ false
    → net.verify_leader 1 (normalize_leader_addr seed hint) ≡ true
    → net.call 1 (normalize_leader_addr seed hint) ≡ none
    → let x = execute_with_retry (suc (suc n)) net (seed ∷ seeds) leader_addr in
      (x.succeeded ≡ true)
      × (x.called ≡ (0, addr) ∷ (1, normalize_leader_addr seed hint) ∷ [])
      × (x.leader_addr ≡ normalize_leader_addr seed hint)
unfolding execute_with_retry cached_after
execute_with_retry-redirect n net seed seeds leader_addr addr e hint start refused redirects hinted
      named leads done =
    let all = seed ∷ seeds in
    let next = normalize_leader_addr seed hint in
    let cached = cached_after (get_leader net 0 all leader_addr) in
    let (is_leader_next, there) = get_leader-verified net all 1 next named leads in
    let first = execute_from-failure net all (suc n) 0 leader_addr addr e start refused in
    let second = execute_from-success net all n 1 next next there done in
    let turned = cached_after_error-hint seed seeds addr cached e hint redirects hinted in
    let rest : execute_from (suc n) 1 net all (cached_after_error all addr cached e)
        ≡ record { succeeded = true; called = (1, next) ∷ []; leader_addr = next } =
      ap (execute_from (suc n) 1 net all) turned
      ∙ (second
          ∙ ap
              (λ l. record {
                succeeded = true;
                called = (1, next) ∷ [];
                leader_addr = cached_after l;
              })
              is_leader_next) in
    (
      ap (λ x. x.succeeded) first ∙ ap (λ x. x.succeeded) rest,
      ap (λ x. x.called) first ∙ ap (λ x. (0, addr) ∷ x.called) rest,
      ap (λ x. x.leader_addr) first ∙ ap (λ x. x.leader_addr) rest,
    )
