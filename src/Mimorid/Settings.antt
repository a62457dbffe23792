-- ===== src/Mimorid/Settings.antt =====
-- cmd/mimorid/main.go: the settings that a node process reads of its environment.  Texts are the bytes of
-- Go's strings, and an unset variable reads as the empty text.
pub mod Spawned
use mimori.Prelude.{List, [], if◌then◌else◌, keep, not}
use mimori.Raft.State.{Bytes}
use mimori.Store.Laws.{bytes_eq}
use mimori.Utils.{codes}
use mimori.Utils.Splits.{split_on}

-- `env`
unfoldable pub env : (value def : Bytes) → Bytes
env value def = if bytes_eq value [] then def else value

-- `splitPeers`
unfoldable pub split_peers : Bytes → List Bytes
unfolding split_on
split_peers s = if bytes_eq s [] then [] else keep (λ p. not (bytes_eq p [])) (split_on b',' s)

-- The first lines of `main`.
pub record Settings : Type 0 where
  pub addr : Bytes
  pub dir : Bytes
  pub peers : List Bytes
  pub node_id : Bytes

unfoldable pub read_settings : (getenv : Bytes → Bytes) → Settings
unfolding env split_peers
read_settings getenv =
    let addr = env (getenv (codes "MIMORI_ADDR")) (codes ":4000") in
    let named = env (getenv (codes "MIMORI_NODE_ID")) addr in
    record {
      addr = addr;
      dir = env (getenv (codes "MIMORI_DATA")) (codes "data");
      peers = split_peers (env (getenv (codes "MIMORI_PEERS")) []);
      node_id = if bytes_eq named [] then addr else named;
    }
