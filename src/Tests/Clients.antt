-- ===== src/Tests/Clients.antt =====
-- Theorems about the client, at concrete networks.
use mimori.Client.Retry.{CallError, Network, execute_with_retry, status_error}
use mimori.Client.Retry.Outcome.{AllFailed, LastSucceeded, execute_with_retry_sound}
use mimori.Prelude.{[], false, if◌then◌else◌, length, none, some, true, ◌∷◌, ◌≡◌, ◌≤◌, ◌⊎◌}
use mimori.Raft.State.{Bytes}
use mimori.Store.Laws.{bytes_eq}

-- "a:1" and "b:2"
abbrev address_a : Bytes
address_a = 97 ∷ 58 ∷ 49 ∷ []

abbrev address_b : Bytes
address_b = 98 ∷ 58 ∷ 50 ∷ []

-- "not leader, leader=b:2"
abbrev redirecting : CallError
redirecting = status_error true (
    110 ∷ 111 ∷ 116 ∷ 32 ∷ 108 ∷ 101 ∷ 97 ∷ 100 ∷ 101 ∷ 114 ∷ 44 ∷ 32 ∷ 108 ∷ 101 ∷ 97 ∷ 100 ∷ 101
    ∷ 114 ∷ 61 ∷ 98 ∷ 58 ∷ 50 ∷ [])

-- "b" leads, "a" refuses, and nobody answers the question for the leader.
abbrev two_nodes : Network
two_nodes = record {
  verify_leader = λ k addr. bytes_eq addr address_b;
  find_leader_from_node = λ k seed. none;
  call = λ k addr. if bytes_eq addr address_b then none else some redirecting;
}

execute_with_retry_sound_example :
    (length (execute_with_retry 3 two_nodes (address_a ∷ []) []).called ≤ 3)
    × ((((execute_with_retry 3 two_nodes (address_a ∷ []) []).succeeded ≡ true)
          × LastSucceeded two_nodes (execute_with_retry 3 two_nodes (address_a ∷ []) []).called)
        ⊎ (((execute_with_retry 3 two_nodes (address_a ∷ []) []).succeeded ≡ false)
            × AllFailed two_nodes (execute_with_retry 3 two_nodes (address_a ∷ []) []).called))
execute_with_retry_sound_example = execute_with_retry_sound 3 two_nodes (address_a ∷ []) []
