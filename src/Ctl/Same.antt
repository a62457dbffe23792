-- ===== src/Ctl/Same.antt =====
-- How cmd/mimorictl/client.go and client/client.go go the same way.
use mimori.Client.{has_prefix, trim_space}
use mimori.Client.Retry.{
  CallError, Execution, Network, address_for, cached_after, cached_after_error, discover_leader,
  execute_from, execute_with_retry, get_leader, hint_of, other_error,
}
use mimori.Ctl.Hints.{ctl_normalize_leader_addr-eq}
use mimori.Ctl.Manager.{
  Conns, Dialer, addrs_to_try, ctl_address_for, ctl_cached_after_error, ctl_discover_leader,
  ctl_execute_from, ctl_execute_with_retry, ctl_get_leader, dial_conn, error_on, get_conn,
}
use mimori.Prelude.{
  Bool-cases, List, Option, Option-cases, [], arith, false, inl, inr, map, none, not, refl, some,
  suc, sym, true, zero, ℕ, ◌&&◌, ◌++◌, ◌∙◌, ◌∷◌, ◌≡◌,
}
use mimori.Raft.State.{Bytes}
use mimori.Store.Laws.{bytes_eq}
use mimori.Utils.{codes}

-- No call is refused with the hint of a node whose name starts with "mimori-node".
abbrev pub NoDockerHint : Network → Type 0
NoDockerHint net =
    (attempt : ℕ) (addr : Bytes) (e : CallError) (hint : Bytes)
    → net.call attempt addr ≡ some e
    → hint_of e ≡ some hint
    → has_prefix (trim_space hint) (codes "mimori-node") ≡ false

-- In an attempt in which no initial address leads to a leader, no address does.
abbrev pub OnlyInitial : Network → (initial : List Bytes) → Type 0
OnlyInitial net initial =
    (attempt : ℕ) (addr : Bytes)
    → discover_leader net attempt initial ≡ none
    → net.find_leader_from_node attempt addr ≡ none

-- A call at an address that cannot be dialed fails with an error that is no status.
abbrev pub FailsUndialed : Network → Dialer → Type 0
FailsUndialed net dialer =
    (attempt : ℕ) (addr : Bytes)
    → dialer.dials attempt addr ≡ false
    → net.call attempt addr ≡ some other_error

discover_leader-append :
    (net : Network) (attempt : ℕ) (xs ys : List Bytes)
    → discover_leader net attempt (xs ++ ys) ≡ (elim (discover_leader net attempt xs) [
      | none ↦ discover_leader net attempt ys
      | some l ↦ some l
    ])
unfolding discover_leader
discover_leader-append net attempt [] ys = refl
discover_leader-append net attempt (x ∷ xs) ys =
    ground (arith, discover_leader-append net attempt xs ys)

discover_leader-none :
    (net : Network) (attempt : ℕ) (ys : List Bytes)
    → ((addr : Bytes) → net.find_leader_from_node attempt addr ≡ none)
    → discover_leader net attempt ys ≡ none
unfolding discover_leader
discover_leader-none net attempt [] nobody = refl
discover_leader-none net attempt (y ∷ ys) nobody =
    ground (arith, nobody y, discover_leader-none net attempt ys nobody)

discover_leader-initial :
    (net : Network) (attempt : ℕ) (initial : List Bytes) (c : Conns)
    → OnlyInitial net initial
    → discover_leader net attempt (addrs_to_try initial c) ≡ discover_leader net attempt initial
unfolding addrs_to_try
discover_leader-initial net attempt initial c only =
    let more = map (λ p. p.0) c.conns in
    discover_leader-append net attempt initial more
    ∙ elim (Option-cases (discover_leader net attempt initial)) [
      | inl nobody ↦
          rw nobody (discover_leader-none net attempt more (λ addr. only attempt addr nobody))
      | inr (l, named) ↦ rw named refl
    ]

ctl_get_leader-eq :
    (net : Network) (attempt : ℕ) (initial : List Bytes) (c : Conns) (leader_addr : Bytes)
    → OnlyInitial net initial
    → ctl_get_leader net attempt initial c leader_addr ≡ get_leader net attempt initial leader_addr
unfolding ctl_get_leader get_leader ctl_discover_leader
ctl_get_leader-eq net attempt initial c leader_addr only =
    elim (Bool-cases (not (bytes_eq leader_addr []) && net.verify_leader attempt leader_addr)) [
      | inl verified ↦ rw (ctl_get_leader, get_leader, verified) refl
      | inr stale ↦
          rw (ctl_get_leader, get_leader, stale, ctl_discover_leader)
            (discover_leader-initial net attempt initial c only)
    ]

error_on-call :
    (net : Network) (dialer : Dialer) (attempt : ℕ) (addr : Bytes) (c : Conns)
    → FailsUndialed net dialer
    → error_on net attempt addr
        (get_conn (dialer.state_of attempt) (dialer.dials attempt addr) addr c).1
      ≡ net.call attempt addr
unfolding get_conn dial_conn
error_on-call net dialer attempt addr c undialed = ground (arith, undialed attempt addr)

ctl_cached_after_error-eq :
    (initial : List Bytes) (addr cached : Bytes) (e : CallError)
    → ((hint : Bytes)
        → hint_of e ≡ some hint
        → has_prefix (trim_space hint) (codes "mimori-node") ≡ false)
    → ctl_cached_after_error initial addr cached e ≡ cached_after_error initial addr cached e
unfolding ctl_cached_after_error cached_after_error
ctl_cached_after_error-eq initial addr cached e no_docker = elim (Option-cases (hint_of e)) [
  | inl no_hint ↦ rw (ctl_cached_after_error, cached_after_error, no_hint) refl
  | inr (hint, hinted) ↦
      rw
        (
          ctl_cached_after_error,
          cached_after_error,
          hinted,
          ctl_normalize_leader_addr-eq (elim initial [ [] ↦ addr | a ∷ _ ↦ a ]) hint
              (no_docker hint hinted),
        )
        refl
]

-- A round of either loop: `go` is the rest of the loop, from a cached leader on, after a call or without one.
abbrev called_at :
    (go : Option Bytes → Bytes → Execution) (cache : (addr cached : Bytes) → CallError → Bytes)
    (call : Bytes → Option CallError)
    → (attempt : ℕ) → (cached : Bytes) → Option Bytes
    → Execution
called_at go cache call attempt cached none = go none cached
called_at go cache call attempt cached (some addr) = elim (call addr) [
  | none ↦ record { succeeded = true; called = (attempt, addr) ∷ []; leader_addr = cached }
  | some e ↦
      let rest = go (some addr) (cache addr cached e) in
      record rest { called = (attempt, addr) ∷ rest.called }
]

called_at-eq :
    (go go' : Option Bytes → Bytes → Execution)
    (cache cache' : (addr cached : Bytes) → CallError → Bytes)
    (call call' : Bytes → Option CallError) (attempt : ℕ) (cached : Bytes) (o : Option Bytes)
    → ((a : Option Bytes) (l : Bytes) → go a l ≡ go' a l)
    → ((addr : Bytes) → call addr ≡ call' addr)
    → ((addr : Bytes) (e : CallError)
        → call' addr ≡ some e
        → cache addr cached e ≡ cache' addr cached e)
    → called_at go cache call attempt cached o ≡ called_at go' cache' call' attempt cached o
called_at-eq go go' cache cache' call call' attempt cached none same_go same_call same_cache =
    same_go none cached
called_at-eq go go' cache cache' call call' attempt cached (some addr) same_go same_call
      same_cache =
    elim (Option-cases (call' addr)) [
      | inl done ↦ rw (called_at, same_call addr, done) refl
      | inr (e, fails) ↦
          rw
            (
              called_at,
              same_call addr,
              fails,
              same_cache addr e fails,
              same_go (some addr) (cache' addr cached e),
            )
            refl
    ]

-- The connections after a round.
abbrev conns_after : Dialer → (attempt : ℕ) → Conns → Option Bytes → Conns
unfolding get_conn
conns_after dialer attempt c none = c
conns_after dialer attempt c (some addr) =
    (get_conn (dialer.state_of attempt) (dialer.dials attempt addr) addr c).0

ctl_execute_from-suc :
    (left attempt : ℕ) (net : Network) (dialer : Dialer) (initial : List Bytes) (c : Conns)
    (leader_addr : Bytes)
    → let known = ctl_get_leader net attempt initial c leader_addr in
      ctl_execute_from (suc left) attempt net dialer initial c leader_addr
      ≡ called_at
          (λ a.
            ctl_execute_from left (suc attempt) net dialer initial (conns_after dialer attempt c a))
          (ctl_cached_after_error initial)
          (λ addr.
            error_on net attempt addr
              (get_conn (dialer.state_of attempt) (dialer.dials attempt addr) addr c).1)
          attempt
          (cached_after known)
          (ctl_address_for attempt initial known)
unfolding ctl_execute_from conns_after
ctl_execute_from-suc left attempt net dialer initial c leader_addr =
    elim (Option-cases
      (ctl_address_for attempt initial (ctl_get_leader net attempt initial c leader_addr))) [
        | inl nowhere ↦ rw (ctl_execute_from, nowhere) refl
        | inr (addr, there) ↦ rw (ctl_execute_from, there) refl
      ]

address_for-eq :
    (net : Network) (attempt : ℕ) (seeds : List Bytes) (leader_addr : Bytes)
    → address_for net attempt seeds leader_addr
      ≡ ctl_address_for attempt seeds (get_leader net attempt seeds leader_addr)
unfolding address_for ctl_address_for
address_for-eq net attempt seeds leader_addr = ground arith

execute_from-suc :
    (left attempt : ℕ) (net : Network) (seeds : List Bytes) (leader_addr : Bytes)
    → let known = get_leader net attempt seeds leader_addr in
      execute_from (suc left) attempt net seeds leader_addr
      ≡ called_at
          (λ a. execute_from left (suc attempt) net seeds)
          (cached_after_error seeds)
          (net.call attempt)
          attempt
          (cached_after known)
          (ctl_address_for attempt seeds known)
unfolding execute_from
execute_from-suc left attempt net seeds leader_addr =
    rw (sym (address_for-eq net attempt seeds leader_addr))
      (elim (Option-cases (address_for net attempt seeds leader_addr)) [
        | inl nowhere ↦ rw (execute_from, nowhere) refl
        | inr (addr, there) ↦ rw (execute_from, there) refl
      ])

module _ (net : Network) (dialer : Dialer) (initial : List Bytes) (only : OnlyInitial net initial)
    (undialed : FailsUndialed net dialer) (no_docker : NoDockerHint net) where
  ctl_execute_from-eq :
      (left attempt : ℕ) (c : Conns) (leader_addr : Bytes)
      → ctl_execute_from left attempt net dialer initial c leader_addr
        ≡ execute_from left attempt net initial leader_addr
  unfolding ctl_execute_from execute_from
  ctl_execute_from-eq zero attempt c leader_addr = refl
  ctl_execute_from-eq (suc left) attempt c leader_addr =
      ctl_execute_from-suc left attempt net dialer initial c leader_addr
      ∙ rw (ctl_get_leader-eq net attempt initial c leader_addr only) (
          called_at-eq _ (λ a. execute_from left (suc attempt) net initial)
            (ctl_cached_after_error initial) (cached_after_error initial) _ (net.call attempt)
            attempt _ _
            (λ a l. ctl_execute_from-eq left (suc attempt) (conns_after dialer attempt c a) l)
            (λ addr. error_on-call net dialer attempt addr c undialed)
            (λ addr e fails.
              ctl_cached_after_error-eq initial addr _ e
                (λ hint hinted. no_docker attempt addr e hint fails hinted)))
      ∙ sym (execute_from-suc left attempt net initial leader_addr)

  -- Whatever connections the tool has cached: when no address leads to a leader in an attempt in which no
  -- initial one does, a call at an address that cannot be dialed fails with an error that is no status, and no
  -- call is refused with the hint of a leader whose name starts with "mimori-node", `executeWithRetry` of the
  -- command line tool makes the calls, reports the outcome and keeps the leader that the client library does.
  pub ctl_execute_with_retry-eq :
      (max_retries : ℕ) (c : Conns) (leader_addr : Bytes)
      → ctl_execute_with_retry max_retries net dialer initial c leader_addr
        ≡ execute_with_retry max_retries net initial leader_addr
  unfolding ctl_execute_with_retry execute_with_retry
  ctl_execute_with_retry-eq max_retries c leader_addr =
      ctl_execute_from-eq max_retries 0 c leader_addr
