-- ===== src/Api/Rest/Followers.antt =====
-- The REST handlers of internal/api/server.go at a node that does not lead.
use mimori.Api.Rest.{HttpRequest, change_guards, handle_add_node, handle_delete, handle_put}
use mimori.Api.Spawning.{Host, SpawnWorld, handle_remove_node, handle_spawn_node}
use mimori.Prelude.{Bool, List, Option, arith, false, ℕ, ◌≡◌}
use mimori.Raft.Machine.{Event}
use mimori.Raft.Pool.{Pool}
use mimori.Raft.Query.{is_leader}
use mimori.Raft.State.{Bytes, NodeId, Raft}

module _ (forward : Bytes → Option ℕ) where
  -- At a node that does not lead, whatever the request: the handlers of a write, a removal of a key, an
  -- addition of a node, a spawn and a removal of a node leave the node, the pool and the processes as they
  -- are.
  pub follower-unchanged :
      (req : HttpRequest) (value : Option Bytes) (key : Bytes) (named : Option NodeId)
      (in_time : Bool) (es : List Event) (w : SpawnWorld) (host_header grpc_addr : Bytes)
      (pid_file : Bytes → Option ℕ) (r : Raft) (p : Pool) (h : Host)
      → is_leader r ≡ false
      → ((handle_put forward req value key r).0 ≡ r)
        × ((handle_delete forward req key r).0 ≡ r)
        × ((handle_add_node forward in_time es req named r).0 ≡ r)
        × ((handle_spawn_node forward w req host_header grpc_addr r h).0 ≡ r)
        × ((handle_spawn_node forward w req host_header grpc_addr r h).1 ≡ h)
        × ((handle_remove_node forward pid_file in_time es req named r p h).0 ≡ r)
        × ((handle_remove_node forward pid_file in_time es req named r p h).1 ≡ p)
        × ((handle_remove_node forward pid_file in_time es req named r p h).2 ≡ h)
  unfolding handle_put handle_delete handle_add_node handle_spawn_node handle_remove_node
      change_guards
  follower-unchanged req value key named in_time es w host_header grpc_addr pid_file r p h follows =
      ground arith
