-- ===== src/Client/Discovery/Asked.antt =====
-- What the client of client/client.go learns from a node that internal/api/server.go answers for.
use mimori.Api.Names.{raft_status_body}
use mimori.Client.Address.{normalize_leader_addr}
use mimori.Client.Discovery.{
  StatusAnswer, find_leader_from_node, get_http_addr, status_url, verify_leader,
}
use mimori.Prelude.{Option, [], if◌then◌else◌, none, refl, some, ◌++◌, ◌≡◌}
use mimori.Raft.Query.{state_name, status}
use mimori.Raft.State.{Bytes, Raft, RaftState, candidate, follower, is_leader_state, leader}
use mimori.Store.Laws.{bytes_eq}
use mimori.Utils.{add_one, codes, itoa_int, join_host_port, ℤ}
use mimori.Utils.Digits.{IsInt, atoi-itoa_int, has_byte-itoa_int}
use mimori.Utils.RoundTrip.{IsHostName}
use mimori.Utils.Splits.{split_on-append, split_on-no_byte}

get_http_addr-join :
    (host : Bytes) (port : ℤ)
    → IsHostName host
    → IsInt port
    → get_http_addr (join_host_port host port) ≡ join_host_port host (add_one port)
unfolding get_http_addr join_host_port
get_http_addr-join host port plain small =
    rw
      (
        get_http_addr,
        split_on-append b':' host (itoa_int port) plain.no_colon,
        split_on-no_byte b':' (itoa_int port) (has_byte-itoa_int b':' port refl refl),
        atoi-itoa_int port small,
      )
      refl

state_name-leader :
    (s : RaftState) → bytes_eq (codes (state_name s)) (codes "leader") ≡ is_leader_state s
unfolding state_name
state_name-leader follower = refl
state_name-leader candidate = refl
state_name-leader leader = refl

-- When a node serves its status one port above the port of a plain address: the client that asks at the
-- address finds that it leads exactly when it is in the state of a leader; from a leader it learns the
-- address that it asked at, from a node that knows a leader the name of that leader, made dialable from
-- the address, and from another nothing.
pub find_leader_from_node-status :
    (fetch : Bytes → Option StatusAnswer) (host : Bytes) (port : ℤ) (r : Raft)
    → IsHostName host
    → IsInt port
    → fetch (codes "http://" ++ join_host_port host (add_one port) ++ codes "/raft/status")
      ≡ some (record { code = 200; body = some (raft_status_body r) })
    → (verify_leader fetch (join_host_port host port) ≡ is_leader_state r.state)
      × (find_leader_from_node fetch (join_host_port host port) ≡ (
          if is_leader_state r.state
          then some (join_host_port host port)
          else (if bytes_eq (codes r.leader_id) []
              then none
              else some (normalize_leader_addr (join_host_port host port) (codes r.leader_id)))))
unfolding verify_leader find_leader_from_node status_url raft_status_body status
find_leader_from_node-status fetch host port r plain small served =
    let url = get_http_addr-join host port plain small in
    (
      rw (verify_leader, status_url, url, served, state_name-leader r.state) refl,
      rw (find_leader_from_node, status_url, url, served, state_name-leader r.state) refl,
    )
