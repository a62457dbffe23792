-- ===== src/Api/Spawning.antt =====
-- internal/api/server.go: the handlers that start and stop node processes on this host,
-- `handleSpawnNode` and `handleRemoveNode`.
--
-- A process is known by its number.  What the operating system answers is an argument.  The goroutine that
-- waits for a process and forgets it is the call `proc_removed` of Api/Spawn/History.
pub mod Cleanup
use mimori.Api.Names.{docker_digits, normalize_node_id_for_host, request_host}
use mimori.Api.Rest.{
  HttpAnswer, HttpRequest, change_answer, change_guards, goes_on, method_post, plain_error,
  proxy_to_leader, stopped,
}
use mimori.Api.Spawn.{Spawner, ensure_next_at_least, get_proc, next_free_port, remove_proc, track}
use mimori.Prelude.{
  Bool, List, Option, [], false, if◌then◌else◌, map, none, some, suc, true, zero, ℕ, ◌++◌, ◌∷◌,
}
use mimori.Raft.Machine.{Event, run}
use mimori.Raft.Members.{ChangeError, add_answer, ask_change, change_made, failed_with, remove_node}
use mimori.Raft.Pool.{Pool}
use mimori.Raft.Query.{is_leader}
use mimori.Raft.State.{Bytes, NodeId, Raft, config_add_node}
use mimori.Store.Laws.{bytes_eq}
use mimori.Utils.{add_one, codes, itoa_int, join_host_port, negsuc, parse_host_port, pos, ℤ}
use mimori.Utils.Splits.{join_with}

-- The spawn manager, the processes that were killed, and the directories that were wiped.
pub record Host : Type 0 where
  pub spawner : Spawner
  pub killed : List ℕ
  pub wiped : List Bytes

-- What the handler of a request to spawn finds out: whether ports can be listened on, whether the
-- directory can be made, the number of the process that is started or `none`, whether the entry is applied
-- in time, and what happens to the node meanwhile.  `name_of` makes the text of some bytes.
pub record SpawnWorld : Type 0 where
  pub can_listen : ℕ → Bool
  pub mkdir_succeeds : Bool
  pub started : Option ℕ
  pub in_time : Bool
  pub meanwhile : List Event
  pub name_of : Bytes → NodeId

pub data SpawnAnswer : Type 0 where
  not_spawned : HttpAnswer → SpawnAnswer
  spawn_disabled : SpawnAnswer
  no_port_free mkdir_failed start_failed : SpawnAnswer
  add_failed : ChangeError → (leader_id : NodeId) → SpawnAnswer
  spawned : (node_id data_dir : Bytes) → (peers : List Bytes) → SpawnAnswer

-- `filepath.Join("data-spawn", fmt.Sprintf("node-%d", port))`
unfoldable pub data_dir : ℤ → Bytes
unfolding itoa_int
data_dir port = codes "data-spawn/node-" ++ itoa_int port

abbrev pub is_positive : ℤ → Bool
is_positive (pos zero) = false
is_positive (pos (suc n)) = true
is_positive (negsuc n) = false

abbrev pub ensure_int : ℤ → Spawner → Spawner
unfolding ensure_next_at_least
ensure_int (pos p) m = ensure_next_at_least p m
ensure_int (negsuc p) m = m

-- The guard `if selfPort > 0`, with the port two above the own one.
unfoldable pub ensure_above : (self_port : ℤ) → Spawner → Spawner
unfolding add_one
ensure_above self_port m =
    if is_positive self_port then ensure_int (add_one (add_one self_port)) m else m

-- The loop over the peers that collects the reserved ports.
unfoldable pub peer_ports : List NodeId → List ℤ
unfolding parse_host_port
peer_ports [] = []
peer_ports (p ∷ ps) =
    let port = (parse_host_port (codes p)).1 in
    let rest = peer_ports ps in if is_positive port then port ∷ rest else rest

-- `peerIDs`
unfoldable pub peer_ids : (host_for_ids : Bytes) → Raft → List Bytes
unfolding normalize_node_id_for_host
peer_ids host_for_ids r =
    normalize_node_id_for_host (codes r.id) host_for_ids
    ∷ map (λ p. normalize_node_id_for_host (codes p) host_for_ids) r.peers

-- The end of `handleSpawnNode`, from the start of the process on.
unfoldable pub launch :
    SpawnWorld
    → (port : ℕ) (node_id : Bytes) (peers : List Bytes) → Raft
    → Host
    → Raft × Host × SpawnAnswer
unfolding track remove_proc ask_change add_answer run data_dir
launch w port node_id peers r h = elim w.started [
  | none ↦ (r, h, start_failed)
  | some proc ↦
      let h1 = record h { spawner = track port proc h.spawner } in
      let (r1, index) = ask_change config_add_node (w.name_of node_id) r in
      let r2 = run w.meanwhile r1 in
      elim (add_answer w.in_time index) [
        | change_made ↦ (r2, h1, spawned node_id (data_dir (pos port)) peers)
        | failed_with e ↦ (
          r2,
          record h1 { spawner = remove_proc port h1.spawner; killed = proc ∷ h1.killed },
          add_failed e r2.leader_id,
        )
      ]
]

-- The part of `handleSpawnNode` from the found port on.
unfoldable pub spawn_at :
    SpawnWorld
    → (host_header : Bytes) → Raft
    → Host
    → Spawner × Option ℕ
    → Raft × Host × SpawnAnswer
unfolding data_dir request_host join_host_port peer_ids launch
spawn_at w host_header r h (m, none) = (r, record h { spawner = m }, no_port_free)
spawn_at w host_header r h (m, some p) =
    let h1 = record h { spawner = m; wiped = data_dir (pos p) ∷ h.wiped } in
    let host_for_ids = request_host host_header in
    if w.mkdir_succeeds
    then launch w p (join_host_port host_for_ids (pos p)) (peer_ids host_for_ids r) r h1
    else (r, h1, mkdir_failed)

-- The part of `handleSpawnNode` behind its guards.
unfoldable pub spawn_process :
    SpawnWorld → (host_header grpc_addr : Bytes) → Raft → Host → Raft × Host × SpawnAnswer
unfolding parse_host_port ensure_above peer_ports next_free_port spawn_at
spawn_process w host_header grpc_addr r h =
    let self_port = (parse_host_port grpc_addr).1 in
    spawn_at w host_header r h (
      next_free_port w.can_listen (self_port ∷ peer_ports r.peers)
        (ensure_above self_port h.spawner))

-- What `handleRemoveNode` does about the process of a removed node: it kills the process that it knows
-- for the port, or else the one that the pid file names, and wipes the directory.
unfoldable pub stop_process : (pid_file : Bytes → Option ℕ) → (port : ℤ) → Host → Host
unfolding get_proc remove_proc data_dir
stop_process pid_file (negsuc n) h = h
stop_process pid_file (pos zero) h = h
stop_process pid_file (pos (suc n)) h =
    let dir = data_dir (pos (suc n)) in
    elim (get_proc (suc n) h.spawner) [
      | some proc ↦ record h {
        spawner = remove_proc (suc n) h.spawner;
        killed = proc ∷ h.killed;
        wiped = dir ∷ h.wiped;
      }
      | none ↦ elim (pid_file dir) [
        | some pid ↦ record h { killed = pid ∷ h.killed; wiped = dir ∷ h.wiped }
        | none ↦ record h { wiped = dir ∷ h.wiped }
      ]
    ]

module _ (forward : Bytes → Option ℕ) where
  -- `handleSpawnNode`.  Behind the third guard the own name is no name of Docker Compose, so the host for
  -- the names is the one of the request.
  unfoldable pub handle_spawn_node :
      SpawnWorld
      → HttpRequest
      → (host_header grpc_addr : Bytes) → Raft
      → Host
      → Raft × Host × SpawnAnswer
  unfolding is_leader proxy_to_leader docker_digits spawn_process
  handle_spawn_node w req host_header grpc_addr r h = elim req.method [
    | method_post ↦
        if is_leader r
        then (elim (docker_digits (codes r.id)) [
          | some number ↦ (r, h, spawn_disabled)
          | none ↦ spawn_process w host_header grpc_addr r h
        ])
        else (r, h, not_spawned (proxy_to_leader forward req r))
    | _ ↦ (r, h, not_spawned (plain_error 405))
  ]

  -- `handleRemoveNode`
  unfoldable pub handle_remove_node :
      (pid_file : Bytes → Option ℕ) (in_time : Bool)
      → List Event
      → HttpRequest
      → (body : Option NodeId) → Raft
      → Pool
      → Host
      → Raft × Pool × Host × HttpAnswer
  unfolding change_guards remove_node stop_process parse_host_port
  handle_remove_node pid_file in_time es req body r p h = elim (change_guards forward req body r) [
    | stopped answer ↦ (r, p, h, answer)
    | goes_on node ↦
        let (r1, p1, answer) = remove_node in_time es node r p in
        elim answer [
          | change_made ↦ (
            r1,
            p1,
            stop_process pid_file (parse_host_port (codes node)).1 h,
            change_answer 200 change_made,
          )
          | failed_with e ↦ (r1, p1, h, change_answer 400 (failed_with e))
        ]
  ]

-- The environment of the process that `handleSpawnNode` starts: the inherited one, with four variables set.
unfoldable pub child_env :
    (inherited : Bytes → Bytes) (port : ℤ) (node_id dir : Bytes) (peers : List Bytes)
    → Bytes
    → Bytes
unfolding join_host_port join_with
child_env inherited port node_id dir peers name =
    if bytes_eq name (codes "MIMORI_ADDR")
    then join_host_port [] port
    else (if bytes_eq name (codes "MIMORI_NODE_ID")
        then node_id
        else (if bytes_eq name (codes "MIMORI_DATA")
            then dir
            else (if bytes_eq name (codes "MIMORI_PEERS")
                then join_with b',' peers
                else inherited name)))
