-- ===== src/Heartbeats.antt =====
-- internal/cluster/cluster.go: the manager that asks each peer whether it is alive.
--
-- The answers of the peers and the clock are arguments: `parses url` says whether `http.NewRequest` takes
-- the URL, `answer url` is the status code that the GET of the URL returns, or `none` for an error, and
-- `clock addr` the time when the answer of the peer is read.  The error of `http.NewRequest` is ignored: the
-- request is nil then and `Do` panics, which ends the process and is `none` here.
pub mod Rounds
use mimori.Prelude.{
  Bool, List, Option, [], false, if◌then◌else◌, none, some, true, ℕ, ◌++◌, ◌==◌, ◌∷◌,
}
use mimori.Raft.State.{Bytes}
use mimori.Store.Laws.{bytes_eq}
use mimori.Utils.{add_one, codes, is_zero, join_host_port, parse_host_port, ℤ}

-- `Node`.  The zero time is 0.
pub record Peer : Type 0 where
  pub addr : Bytes
  pub alive : Bool
  pub last_ok : ℕ

-- `Cluster`, without its mutex and its channel.
pub record Manager : Type 0 where
  pub self_addr : Bytes
  pub peers : List Peer

-- The loop of `New`.
unfoldable pub new_peers : (self_addr : Bytes) → List Bytes → List Peer
new_peers self_addr [] = []
new_peers self_addr (addr ∷ addrs) =
    let rest = new_peers self_addr addrs in
    if bytes_eq addr self_addr
    then rest
    else record { addr = addr; alive = false; last_ok = 0 } ∷ rest

-- `New`
unfoldable pub new_manager : (self_addr : Bytes) → List Bytes → Manager
unfolding new_peers
new_manager self_addr addrs = record { self_addr = self_addr; peers = new_peers self_addr addrs }

unfoldable pub health_url : Bytes → ℤ → Bytes
unfolding join_host_port add_one
health_url host base_port =
    codes "http://" ++ join_host_port host (add_one base_port) ++ codes "/healthz"

-- The URL that a peer is asked at, or `none` where its address has no port.
unfoldable pub probe_url : Bytes → Option Bytes
unfolding parse_host_port health_url
probe_url addr =
    let (host, base_port) = parse_host_port addr in
    if is_zero base_port
    then none
    else some (health_url (if bytes_eq host [] then codes "127.0.0.1" else host) base_port)

module _ (parses : Bytes → Bool) (answer : Bytes → Option ℕ) (clock : Bytes → ℕ) where
  -- The body of the loop of `pingPeers`.
  unfoldable pub ping_peer : Peer → Option Peer
  unfolding probe_url
  ping_peer p = elim (probe_url p.addr) [
    | none ↦ some (record p { alive = false })
    | some url ↦
        if parses url
        then (elim (answer url) [
          | none ↦ some (record p { alive = false })
          | some status_code ↦ some (
              if status_code == 200
              then record p { alive = true; last_ok = clock p.addr }
              else record p { alive = false })
        ])
        else none
  ]

  unfoldable pub ping_each : List Peer → Option (List Peer)
  unfolding ping_peer
  ping_each [] = some []
  ping_each (p ∷ ps) =
      let rest = ping_each ps in
      elim (ping_peer p) [
        | none ↦ none
        | some q ↦ elim rest [ none ↦ none | some qs ↦ some (q ∷ qs) ]
      ]

  -- `pingPeers`
  unfoldable pub ping_peers : Manager → Option Manager
  unfolding ping_each
  ping_peers c = elim (ping_each c.peers) [ none ↦ none | some ps ↦ some (record c { peers = ps }) ]

-- `PeersStatus`: a copy of each peer.
unfoldable pub peers_status : Manager → List Peer
peers_status c = c.peers
