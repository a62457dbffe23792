-- ===== src/Tests/Pools.antt =====
-- Theorems about the pool of connections and the handlers of the dashboard, at concrete ones.
use mimori.Api.Names.{docker_digits}
use mimori.Api.Rest.{HttpRequest, method_post}
use mimori.Api.Spawn.{
  ensure_next_at_least, find_proc, get_proc, is_free, is_reserved, new_spawner, next_free_port,
}
use mimori.Api.Spawning.{
  Host, SpawnWorld, ensure_above, handle_spawn_node, launch, spawn_at, spawn_process,
}
use mimori.Api.Spawning.Cleanup.{handle_spawn_node-cleans}
use mimori.Prelude.{List, [], arith, false, find, none, put, refl, true, ◌∷◌, ◌≡◌}
use mimori.Raft.Pool.{
  PoolCall, close_all, connection_got, connection_released, dial, get_connection, is_usable,
  new_pool, pool_calls, ready, release_connection,
}
use mimori.Raft.Pool.Closed.{close_all-closes}
use mimori.Raft.Pool.Handed.{get_connection-is_open}
use mimori.Raft.Pool.Numbers.{nat_elem}
use mimori.Raft.Query.{is_leader}
use mimori.Tests.Nodes.{chief}
use mimori.Utils.{codes}

abbrev one_call : List PoolCall
one_call = connection_got (λ n. ready) true "b" ∷ connection_released "b" ∷ []

get_connection-is_open_example :
    nat_elem 0
      (get_connection (λ n. ready) true "b" (pool_calls one_call (new_pool false))).0.closed
    ≡ false
unfolding get_connection pool_calls find put dial release_connection is_usable
get_connection-is_open_example = get_connection-is_open false one_call (λ n. ready) true "b" 0 refl

close_all-closes_example :
    nat_elem 0 (close_all (pool_calls one_call (new_pool false))).closed ≡ true
unfolding pool_calls get_connection find put dial release_connection
close_all-closes_example = close_all-closes one_call 0 (omega arith)

abbrev spawn_request : HttpRequest
spawn_request = record { method = method_post; path = []; raw_query = []; body_readable = true }

abbrev no_process : SpawnWorld
no_process = record {
  can_listen = λ port. true;
  mkdir_succeeds = true;
  started = none;
  in_time = true;
  meanwhile = [];
  name_of = λ s. "d";
}

abbrev new_host : Host
new_host = record { spawner = new_spawner; killed = []; wiped = [] }

-- The leader "a" cannot start the process.
handle_spawn_node-cleans_example :
    get_proc 4002
      (handle_spawn_node
        (λ url. none)
        no_process
        spawn_request
        (codes "localhost:4001")
        (codes ":4000")
        chief
        new_host).1.spawner
    ≡ get_proc 4002 new_host.spawner
unfolding handle_spawn_node is_leader docker_digits spawn_process next_free_port is_free is_reserved
    find_proc ensure_above ensure_next_at_least launch spawn_at
handle_spawn_node-cleans_example =
    handle_spawn_node-cleans (λ url. none) no_process spawn_request (codes "localhost:4001")
      (codes ":4000") 4002 chief new_host refl
