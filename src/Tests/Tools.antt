-- ===== src/Tests/Tools.antt =====
-- Theorems about the client, the command line tool and started processes, at concrete ones.
use mathlib.Core.Option.{some-injective}
use mimori.Api.Names.{raft_status_body}
use mimori.Api.Spawning.{child_env, data_dir}
use mimori.Client.{cut_hint, extract_leader_hint, has_prefix, trim_space}
use mimori.Client.Address.{base_host, dialable, normalize_leader_addr, uses_base_host}
use mimori.Client.Discovery.{
  StatusAnswer, find_leader_from_node, get_http_addr, network_of, status_url, told_by,
  verify_leader,
}
use mimori.Client.Discovery.Asked.{find_leader_from_node-status}
use mimori.Client.Retry.{CallError, discover_leader, execute_with_retry, hint_of, status_error}
use mimori.Ctl.Discovery.{ctl_network_of}
use mimori.Ctl.Discovery.Runs.{ctl_execute_with_retry-network_of}
use mimori.Ctl.Manager.{Dialer, ctl_execute_with_retry, no_conns}
use mimori.Mimorid.Settings.{read_settings}
use mimori.Mimorid.Settings.Spawned.{read_settings-child_env}
use mimori.Prelude.{
  Bool, List, Option, [], ap, arith, false, if◌then◌else◌, none, refl, some, subst, true, ℕ, ◌∙◌,
  ◌∷◌, ◌≡◌,
}
use mimori.Raft.Pool.{idle}
use mimori.Raft.Query.{status}
use mimori.Raft.State.{Bytes, is_leader_state}
use mimori.Store.Laws.{bytes_eq}
use mimori.Tests.Nodes.{chief, voter}
use mimori.Utils.{codes, has_byte, join_host_port, pos}

abbrev two_peers : List Bytes
two_peers = codes "localhost:4000" ∷ codes "localhost:4004" ∷ []

read_settings-child_env_example :
    read_settings
      (child_env (λ name. []) (pos 4002) (codes "localhost:4002") (data_dir (pos 4002)) two_peers)
    ≡ record {
      addr = join_host_port [] (pos 4002);
      dir = data_dir (pos 4002);
      peers = two_peers;
      node_id = codes "localhost:4002";
    }
unfolding has_byte data_dir
read_settings-child_env_example =
    read_settings-child_env (λ name. []) (pos 4002) (codes "localhost:4002") (data_dir (pos 4002))
      two_peers refl refl (refl, refl, (refl, refl, tt))

-- The follower "a", which knows the leader "b".
abbrev served : Bytes → Option StatusAnswer
served url = some (record { code = 200; body = some (raft_status_body voter) })

find_leader_from_node-status_example :
    (verify_leader served (join_host_port (codes "localhost") (pos 4000))
      ≡ is_leader_state voter.state)
    × (find_leader_from_node served (join_host_port (codes "localhost") (pos 4000)) ≡ (
        if is_leader_state voter.state
        then some (join_host_port (codes "localhost") (pos 4000))
        else (if bytes_eq (codes voter.leader_id) []
            then none
            else some (
                normalize_leader_addr
                  (join_host_port (codes "localhost") (pos 4000))
                  (codes voter.leader_id)))))
unfolding has_byte
find_leader_from_node-status_example =
    find_leader_from_node-status served (codes "localhost") (pos 4000) voter
      (record { no_colon = refl; no_open = refl; no_close = refl }) (omega arith) refl

-- The node at the first address is a follower that still takes itself for the leader, and refuses calls with the
-- hint of the port 4002, where the leader stands and answers.
abbrev second_address : Bytes
second_address = codes "localhost:4002"

abbrev status_of : (is_second : Bool) → Option StatusAnswer
status_of true = some (record { code = 200; body = some (raft_status_body chief) })
status_of false =
    some
      (record { code = 200; body = some (raft_status_body (record voter { leader_id = ":4000" })) })

abbrev status_at : (attempt : ℕ) → (url : Bytes) → Option StatusAnswer
status_at attempt url = status_of (bytes_eq url (codes "http://localhost:4003/raft/status"))

abbrev refused : CallError
refused = status_error true (codes "not leader, leader=:4002")

abbrev outcome_of : (is_second : Bool) → Option CallError
outcome_of true = none
outcome_of false = some refused

abbrev outcome_at : (attempt : ℕ) → Bytes → Option CallError
outcome_at attempt addr = outcome_of (bytes_eq addr second_address)

-- A connection is idle, and every address can be dialed.
abbrev idle_dialer : Dialer
idle_dialer = record { state_of = λ k n. idle; dials = λ k addr. true }

status_of-no_docker :
    (b : Bool) (state leader_id : Bytes)
    → told_by (status_of b) ≡ some (state, leader_id)
    → has_prefix (trim_space leader_id) (codes "mimori-node") ≡ false
unfolding raft_status_body status
status_of-no_docker true state leader_id answer =
    subst (λ (p : Bytes × Bytes). has_prefix (trim_space p.1) (codes "mimori-node") ≡ false)
      (some-injective (raft_status_body chief) (state, leader_id) answer) refl
status_of-no_docker false state leader_id answer =
    subst (λ (p : Bytes × Bytes). has_prefix (trim_space p.1) (codes "mimori-node") ≡ false)
      (some-injective (raft_status_body (record voter { leader_id = ":4000" })) (state, leader_id)
        answer)
      refl

outcome_of-no_docker :
    (b : Bool) (e : CallError) (hint : Bytes)
    → outcome_of b ≡ some e
    → hint_of e ≡ some hint
    → has_prefix (trim_space hint) (codes "mimori-node") ≡ false
unfolding hint_of extract_leader_hint cut_hint
outcome_of-no_docker true e hint fails hinted = cc fails
outcome_of-no_docker false e hint fails hinted =
    subst (λ (h : Bytes). has_prefix (trim_space h) (codes "mimori-node") ≡ false)
      (some-injective (codes ":4002") hint (ap hint_of (some-injective refused e fails) ∙ hinted))
      refl

-- The first call caches a connection and is refused, the second one succeeds.
ctl_execute_with_retry-network_of_example :
    ctl_execute_with_retry 3
      (ctl_network_of status_at outcome_at)
      idle_dialer
      (codes "localhost:4000" ∷ [])
      no_conns
      []
    ≡ execute_with_retry 3 (network_of status_at outcome_at) (codes "localhost:4000" ∷ []) []
unfolding network_of discover_leader find_leader_from_node status_url get_http_addr has_byte
    raft_status_body status normalize_leader_addr base_host dialable uses_base_host
ctl_execute_with_retry-network_of_example =
    ctl_execute_with_retry-network_of 3 status_at outcome_at idle_dialer
      (codes "localhost:4000" ∷ []) no_conns [] (λ attempt addr nobody. cc nobody)
      (λ attempt addr closed. cc closed)
      (λ attempt addr state leader_id. status_of-no_docker _ state leader_id)
      (λ attempt addr e hint. outcome_of-no_docker _ e hint)
