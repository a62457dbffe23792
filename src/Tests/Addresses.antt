-- ===== src/Tests/Addresses.antt =====
-- Theorems about addresses, ports and peers, at concrete ones.
use mimori.Api.Spawn.{new_spawner, next_free_port}
use mimori.Api.Spawn.Ports.{Assigned, next_free_port-Assigned}
use mimori.Client.{has_prefix}
use mimori.Heartbeats.{new_manager}
use mimori.Heartbeats.Rounds.{
  Round, after_rounds, peers_status-after_rounds, shown, survives, view_of,
}
use mimori.Prelude.{
  Bool, List, [], arith, if◌then◌else◌, keep, map, none, not, refl, some, ℕ, ◌==◌, ◌∷◌, ◌≡◌,
}
use mimori.Raft.State.{Bytes}
use mimori.Store.Laws.{bytes_eq}
use mimori.Utils.{codes, has_byte, join_host_port, parse_host_port, pos}
use mimori.Utils.RoundTrip.{IsHostName, parse_host_port-join}

abbrev node1 : Bytes
node1 = codes "node1"

node1-IsHostName : IsHostName node1
unfolding has_byte
node1-IsHostName = record { no_colon = refl; no_open = refl; no_close = refl }

parse_host_port-join_example : parse_host_port (join_host_port node1 (pos 4000)) ≡ (node1, pos 4000)
parse_host_port-join_example = parse_host_port-join node1 (pos 4000) node1-IsHostName (omega arith)

-- A peer that answered in the first of two rounds only.
abbrev two_rounds : List Round
two_rounds =
    record { answer = λ url. none; clock = λ addr. 20 }
    ∷ record { answer = λ url. some 200; clock = λ addr. 10 }
    ∷ []

-- Hosts that start with a blank are rejected.
abbrev no_blank : Bytes → Bool
no_blank url = not (has_prefix url (codes "http:// "))

peers_status-after_rounds_example :
    shown (
      after_rounds no_blank two_rounds
        (new_manager (codes ":4000") (codes ":4000" ∷ codes ":4002" ∷ [])))
    ≡ (if survives no_blank two_rounds
          (keep (λ a. not (bytes_eq a (codes ":4000"))) (codes ":4000" ∷ codes ":4002" ∷ []))
        then some (
            map
              (view_of two_rounds)
              (keep (λ a. not (bytes_eq a (codes ":4000"))) (codes ":4000" ∷ codes ":4002" ∷ [])))
        else none)
peers_status-after_rounds_example =
    peers_status-after_rounds no_blank two_rounds (codes ":4000")
      (codes ":4000" ∷ codes ":4002" ∷ [])

-- Port 4004 is reserved, and 4002 is taken.
abbrev listens : ℕ → Bool
listens port = not (port == 4002)

next_free_port-Assigned_example :
    Assigned listens
      (pos 4004 ∷ [])
      new_spawner
      (next_free_port listens (pos 4004 ∷ []) new_spawner)
next_free_port-Assigned_example = next_free_port-Assigned listens (pos 4004 ∷ []) new_spawner
