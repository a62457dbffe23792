-- ===== src/Mimorid/Settings/Spawned.antt =====
-- What a node process that internal/api/server.go starts reads of the environment that it is given.
use mimori.Api.Spawning.{child_env}
use mimori.Mimorid.Settings.{env, read_settings, split_peers}
use mimori.Prelude.{List, [], false, refl, ◌∷◌, ◌≡◌}
use mimori.Raft.State.{Bytes}
use mimori.Store.Laws.{bytes_eq}
use mimori.Utils.{join_host_port, ℤ}
use mimori.Utils.Splits.{AllClean, bytes_eq-join_with, join_with, keep-AllClean, split_on-join_with}

-- The texts that peers are joined from are read back.
split_peers-join_with : (xs : List Bytes) → AllClean b',' xs → split_peers (join_with b',' xs) ≡ xs
unfolding split_peers join_with
split_peers-join_with [] clean = refl
split_peers-join_with (x ∷ xs) clean =
    rw (split_peers, bytes_eq-join_with b',' x xs clean, split_on-join_with b',' x xs clean)
      (keep-AllClean b',' (x ∷ xs) clean)

env-itself : (s : Bytes) → env s [] ≡ s
unfolding env
env-itself [] = refl
env-itself (c ∷ s) = refl

-- A process that is started for a port, a name, a directory and peers, none of them empty and the peers
-- without commas, reads these from its environment: it listens on the port, on every address.
pub read_settings-child_env :
    (inherited : Bytes → Bytes) (port : ℤ) (node_id dir : Bytes) (peers : List Bytes)
    → bytes_eq node_id [] ≡ false
    → bytes_eq dir [] ≡ false
    → AllClean b',' peers
    → read_settings (child_env inherited port node_id dir peers)
      ≡ record { addr = join_host_port [] port; dir = dir; peers = peers; node_id = node_id }
unfolding read_settings child_env env
read_settings-child_env inherited port node_id dir peers named has_dir clean =
    rw
      (
        read_settings,
        named,
        has_dir,
        env-itself (join_with b',' peers),
        named,
        split_peers-join_with peers clean,
      )
      refl
