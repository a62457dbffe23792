-- ===== src/Api/Spawning/Cleanup.antt =====
-- The processes that the spawn handler of internal/api/server.go leaves behind.
use mimori.Api.Names.{request_host}
use mimori.Api.Rest.{HttpRequest}
use mimori.Api.Spawn.{
  Spawner, delete_proc, ensure_next_at_least, find_proc, get_proc, is_free, is_reserved,
  next_free_port, remove_proc, track,
}
use mimori.Api.Spawn.Ports.{Assigned, assigned_port, exhausted, next_free_port-Assigned}
use mimori.Api.Spawning.{
  Host, SpawnAnswer, SpawnWorld, data_dir, ensure_above, handle_spawn_node, launch, peer_ids,
  peer_ports, spawn_at, spawn_process, spawned,
}
use mimori.Prelude.{
  ==→eq, Bool, Bool-cases, List, Option, Option-cases, [], ap, arith, false, if◌then◌else◌, inl,
  inr, none, refl, sym, true, ℕ, ◌+◌, ◌==◌, ◌∙◌, ◌∷◌, ◌≡◌,
}
use mimori.Raft.State.{Bytes, Raft}
use mimori.Utils.{join_host_port, parse_host_port, pos, ℤ}

find_proc-delete_proc :
    (p q : ℕ) (procs : List (ℕ × ℕ))
    → find_proc q (delete_proc p procs) ≡ (if p == q then none else find_proc q procs)
unfolding find_proc delete_proc
find_proc-delete_proc p q [] = ground arith
find_proc-delete_proc p q ((i, cmd) ∷ procs) = ground (arith, find_proc-delete_proc p q procs)

-- A process that was tracked at a free port and removed is forgotten.
get_proc-remove_proc-track :
    (port proc q : ℕ) (m : Spawner)
    → find_proc port m.procs ≡ none
    → get_proc q (remove_proc port (track port proc m)) ≡ get_proc q m
unfolding get_proc remove_proc track find_proc
get_proc-remove_proc-track port proc q m untracked = elim (Bool-cases (port == q)) [
  | inl same ↦
      find_proc-delete_proc port q ((port, proc) ∷ delete_proc port m.procs)
      ∙ rw same (sym untracked ∙ ap (λ k. find_proc k m.procs) (==→eq port q same))
  | inr other ↦
      find_proc-delete_proc port q ((port, proc) ∷ delete_proc port m.procs)
      ∙ rw (other, find_proc-delete_proc port q m.procs) (rw other refl)
]

abbrev pub is_spawned : SpawnAnswer → Bool
is_spawned (spawned node_id dir peers) = true
is_spawned _ = false

launch-cleans :
    (w : SpawnWorld) (port q : ℕ) (node_id : Bytes) (peers : List Bytes) (r : Raft) (h : Host)
    → find_proc port h.spawner.procs ≡ none
    → is_spawned (launch w port node_id peers r h).2 ≡ false
    → get_proc q (launch w port node_id peers r h).1.spawner ≡ get_proc q h.spawner
unfolding launch
launch-cleans w port q node_id peers r h untracked failing = elim (Option-cases w.started) [
  | inl no_process ↦ rw (launch, no_process) refl
  | inr (proc, got) ↦ ground (arith, get_proc-remove_proc-track port proc q h.spawner untracked)
]

procs-ensure_above : (z : ℤ) (m : Spawner) → (ensure_above z m).procs ≡ m.procs
unfolding ensure_above ensure_next_at_least
procs-ensure_above z m = ground arith

-- A free port has no process.
find_proc-is_free :
    (can_listen : ℕ → Bool) (reserved : List ℤ) (m : Spawner) (port : ℕ)
    → is_free can_listen reserved m port ≡ true
    → find_proc port m.procs ≡ none
unfolding is_free is_reserved
find_proc-is_free can_listen reserved m port h = ground arith

spawn_at-cleans :
    (w : SpawnWorld) (host_header : Bytes) (q : ℕ) (r : Raft) (h : Host) (reserved : List ℤ)
    (m : Spawner) (x : Spawner × Option ℕ)
    → Assigned w.can_listen reserved m x
    → m.procs ≡ h.spawner.procs
    → is_spawned (spawn_at w host_header r h x).2 ≡ false
    → get_proc q (spawn_at w host_header r h x).1.spawner ≡ get_proc q h.spawner
unfolding spawn_at get_proc
spawn_at-cleans w host_header q r h reserved m _ (exhausted none_free) same failing =
    ap (find_proc q) same
spawn_at-cleans w host_header q r h reserved m _ (assigned_port {port} f) same failing =
    elim (Bool-cases w.mkdir_succeeds) [
      | inr no_dir ↦ rw (spawn_at, no_dir) (ap (find_proc q) same)
      | inl made_dir ↦
          (let h1 = record h {
            spawner = record m { next = port + 2 };
            wiped = data_dir (pos port) ∷ h.wiped;
          } in
            ground (
              arith,
              launch-cleans w port q (join_host_port (request_host host_header) (pos port))
                  (peer_ids (request_host host_header) r) r h1
                  (find_proc-is_free w.can_listen reserved m port f.free),
            ))
    ]

-- Whatever the request to spawn a node meets, it leaves the node's processes as they are unless it answers
-- that a node was spawned: for each port the manager knows the process that it knew before.
pub handle_spawn_node-cleans :
    (forward : Bytes → Option ℕ) (w : SpawnWorld) (req : HttpRequest)
    (host_header grpc_addr : Bytes) (q : ℕ) (r : Raft) (h : Host)
    → is_spawned (handle_spawn_node forward w req host_header grpc_addr r h).2 ≡ false
    → get_proc q (handle_spawn_node forward w req host_header grpc_addr r h).1.spawner
      ≡ get_proc q h.spawner
unfolding handle_spawn_node spawn_process
handle_spawn_node-cleans forward w req host_header grpc_addr q r h failing =
    let self_port = (parse_host_port grpc_addr).1 in
    let reserved = self_port ∷ peer_ports r.peers in
    let m = ensure_above self_port h.spawner in
    ground (
      arith,
      spawn_at-cleans w host_header q r h reserved m (next_free_port w.can_listen reserved m)
          (next_free_port-Assigned w.can_listen reserved m)
          (procs-ensure_above self_port h.spawner),
    )
