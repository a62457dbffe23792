-- ===== src/Heartbeats/Rounds.antt =====
-- What `PeersStatus` of internal/cluster/cluster.go shows after any rounds of `pingPeers`.
use mathlib.Core.Path.{ap₂}
use mimori.Heartbeats.{
  Manager, Peer, new_manager, new_peers, peers_status, ping_each, ping_peer, ping_peers, probe_url,
}
use mimori.Prelude.{
  Bool, Bool-cases, List, Option, [], ap, arith, false, if◌then◌else◌, inl, inr, keep, map, none,
  not, refl, some, true, ℕ, ◌&&◌, ◌==◌, ◌∙◌, ◌∷◌, ◌≡◌,
}
use mimori.Raft.State.{Bytes}
use mimori.Store.Laws.{bytes_eq}

-- What the environment does in a round.
pub record Round : Type 0 where
  pub answer : Bytes → Option ℕ
  pub clock : Bytes → ℕ

-- The rounds of the ticker, the latest first; `none` is the end of the process.
unfoldable pub after_rounds : (parses : Bytes → Bool) → List Round → Manager → Option Manager
unfolding ping_peers
after_rounds parses [] c = some c
after_rounds parses (r ∷ rs) c = elim (after_rounds parses rs c) [
  | none ↦ none
  | some c' ↦ ping_peers parses r.answer r.clock c'
]

abbrev pub is_ok : Option ℕ → Bool
is_ok none = false
is_ok (some status_code) = status_code == 200

-- The peer answers its probe with 200 in the round.
abbrev pub is_up : Round → Bytes → Bool
is_up r addr = elim (probe_url addr) [ none ↦ false | some url ↦ is_ok (r.answer url) ]

abbrev pub was_up : List Round → Bytes → Bool
was_up [] addr = false
was_up (r ∷ rs) addr = is_up r addr

-- The time of the latest good answer.
abbrev pub latest_ok : List Round → Bytes → ℕ
latest_ok [] addr = 0
latest_ok (r ∷ rs) addr = if is_up r addr then r.clock addr else latest_ok rs addr

abbrev pub view_of : List Round → Bytes → Peer
view_of rs addr = record { addr = addr; alive = was_up rs addr; last_ok = latest_ok rs addr }

-- The URL that the peer is asked at is taken, if there is one.
abbrev pub is_asked : (parses : Bytes → Bool) → Bytes → Bool
is_asked parses addr = elim (probe_url addr) [ none ↦ true | some url ↦ parses url ]

abbrev pub all_asked : (parses : Bytes → Bool) → List Bytes → Bool
all_asked parses [] = true
all_asked parses (a ∷ addrs) = is_asked parses a && all_asked parses addrs

-- There is no round, or every peer can be asked.
abbrev pub survives : (parses : Bytes → Bool) → List Round → List Bytes → Bool
survives parses [] addrs = true
survives parses (r ∷ rs) addrs = all_asked parses addrs

-- A peer after a round in front of the others.
abbrev both : Option Peer → Option (List Peer) → Option (List Peer)
both first rest = elim first [
  | none ↦ none
  | some q ↦ elim rest [ none ↦ none | some qs ↦ some (q ∷ qs) ]
]

both-if :
    (a b : Bool) (q : Peer) (qs : List Peer)
    → both (if a then some q else none) (if b then some qs else none)
      ≡ (if a && b then some (q ∷ qs) else none)
both-if true true q qs = refl
both-if true false q qs = refl
both-if false true q qs = refl
both-if false false q qs = refl

-- The manager after a round that follows the others.
abbrev followed_by : (parses : Bytes → Bool) → Round → Option Manager → Option Manager
followed_by parses r o = elim o [ none ↦ none | some c' ↦ ping_peers parses r.answer r.clock c' ]

module _ (parses : Bytes → Bool) (r : Round) (rs : List Round) where
  ping_peer-view_of :
      (addr : Bytes)
      → ping_peer parses r.answer r.clock (view_of rs addr)
        ≡ (if is_asked parses addr then some (view_of (r ∷ rs) addr) else none)
  unfolding ping_peer
  ping_peer-view_of addr = ground arith

  ping_each-view_of :
      (addrs : List Bytes)
      → ping_each parses r.answer r.clock (map (view_of rs) addrs)
        ≡ (if all_asked parses addrs then some (map (view_of (r ∷ rs)) addrs) else none)
  unfolding ping_each
  ping_each-view_of [] = refl
  ping_each-view_of (a ∷ addrs) =
      ap₂ both (ping_peer-view_of a) (ping_each-view_of addrs)
      ∙ both-if (is_asked parses a) (all_asked parses addrs) (view_of (r ∷ rs) a)
          (map (view_of (r ∷ rs)) addrs)

survives-all_asked :
    (parses : Bytes → Bool) (rs : List Round) (addrs : List Bytes)
    → survives parses rs addrs ≡ false
    → all_asked parses addrs ≡ false
survives-all_asked parses [] addrs h = cc h
survives-all_asked parses (r ∷ rs) addrs h = h

new_peers-eq :
    (self_addr : Bytes) (addrs : List Bytes)
    → new_peers self_addr addrs ≡ map (view_of []) (keep (λ a. not (bytes_eq a self_addr)) addrs)
unfolding new_peers
new_peers-eq self_addr [] = refl
new_peers-eq self_addr (a ∷ addrs) = elim (Bool-cases (bytes_eq a self_addr)) [
  | inl same ↦ rw (same, new_peers-eq self_addr addrs) refl
  | inr other ↦ rw (other, new_peers-eq self_addr addrs) refl
]

abbrev pub manager_of : (self_addr : Bytes) → List Peer → Manager
manager_of self_addr peers = record { self_addr = self_addr; peers = peers }

with_peers-if :
    (b : Bool) (self_addr : Bytes) (ps : List Peer)
    → ◌≡◌ {A = Option Manager}
        (elim (if b then some ps else none) [
          | none ↦ none
          | some qs ↦ some (manager_of self_addr qs)
        ])
        (if b then some (manager_of self_addr ps) else none)
with_peers-if true self_addr ps = refl
with_peers-if false self_addr ps = refl

after_rounds-view_of :
    (parses : Bytes → Bool) (rs : List Round) (self_addr : Bytes) (addrs : List Bytes)
    → after_rounds parses rs (manager_of self_addr (map (view_of []) addrs)) ≡ (
        if survives parses rs addrs
        then some (manager_of self_addr (map (view_of rs) addrs))
        else none)
unfolding after_rounds ping_peers
after_rounds-view_of parses [] self_addr addrs = refl
after_rounds-view_of parses (r ∷ rs) self_addr addrs =
    ap (followed_by parses r) (after_rounds-view_of parses rs self_addr addrs)
    ∙ elim (Bool-cases (survives parses rs addrs)) [
      | inl lived ↦
          rw (lived, ping_peers, ping_each-view_of parses r rs addrs)
            (with_peers-if (all_asked parses addrs) self_addr (map (view_of (r ∷ rs)) addrs))
      | inr ended ↦ rw (ended, survives-all_asked parses rs addrs ended) refl
    ]

-- What the peers' status shows, while the process runs.
abbrev pub shown : Option Manager → Option (List Peer)
unfolding peers_status
shown none = none
shown (some c) = some (peers_status c)

shown-if :
    (b : Bool) (self_addr : Bytes) (ps : List Peer)
    → shown (if b then some (manager_of self_addr ps) else none) ≡ (if b then some ps else none)
unfolding shown
shown-if true self_addr ps = refl
shown-if false self_addr ps = refl

-- For a manager made of an own address and a list of addresses, and any rounds: if there is a round and the
-- health URL of one of the addresses, the own one left out, is not accepted by http.NewRequest, the process
-- ends.  Otherwise the peers shown are these addresses in order, a peer is alive exactly when it answered its
-- health URL with 200 in the latest round, and its last good time is that of the latest round in which it did.
pub peers_status-after_rounds :
    (parses : Bytes → Bool) (rs : List Round) (self_addr : Bytes) (addrs : List Bytes)
    → let others = keep (λ a. not (bytes_eq a self_addr)) addrs in
      shown (after_rounds parses rs (new_manager self_addr addrs))
      ≡ (if survives parses rs others then some (map (view_of rs) others) else none)
unfolding peers_status new_manager
peers_status-after_rounds parses rs self_addr addrs =
    let others = keep (λ a. not (bytes_eq a self_addr)) addrs in
    ap (λ (ps : List Peer). shown (after_rounds parses rs (manager_of self_addr ps)))
      (new_peers-eq self_addr addrs)
    ∙ (ap shown (after_rounds-view_of parses rs self_addr others)
        ∙ shown-if (survives parses rs others) self_addr (map (view_of rs) others))
