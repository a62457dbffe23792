-- ===== src/Api/Spawn.antt =====
-- internal/api/server.go: the spawn manager and its search for a port.
--
-- A process is known by a number.  Whether a port can be listened on is an argument of the search: the
-- answer of `net.Listen` for that port.
pub mod Ports
pub mod History
use mimori.Prelude.{
  Bool, List, Option, [], false, if◌then◌else◌, ltb, none, not, some, suc, true, zero, ℕ, ◌&&◌, ◌+◌,
  ◌-◌, ◌==◌, ◌||◌, ◌∷◌,
}
use mimori.Utils.{negsuc, pos, ℤ}

-- `spawnManager`, without its mutex.
pub record Spawner : Type 0 where
  pub next : ℕ
  pub procs : List (ℕ × ℕ)

-- `newSpawnManager`
abbrev pub new_spawner : Spawner
new_spawner = record { next = 4002; procs = [] }

-- `ensureNextAtLeast`
unfoldable pub ensure_next_at_least : ℕ → Spawner → Spawner
ensure_next_at_least p m = if ltb m.next p then record m { next = p } else m

-- The lookup in the map of processes.
unfoldable pub find_proc : ℕ → List (ℕ × ℕ) → Option ℕ
find_proc port [] = none
find_proc port ((p, cmd) ∷ procs) = if p == port then some cmd else find_proc port procs

unfoldable pub delete_proc : ℕ → List (ℕ × ℕ) → List (ℕ × ℕ)
delete_proc port [] = []
delete_proc port ((p, cmd) ∷ procs) =
    let rest = delete_proc port procs in if p == port then rest else (p, cmd) ∷ rest

-- `track`
unfoldable pub track : (port cmd : ℕ) → Spawner → Spawner
unfolding delete_proc
track port cmd m = record m { procs = (port, cmd) ∷ delete_proc port m.procs }

-- `remove`
unfoldable pub remove_proc : ℕ → Spawner → Spawner
unfolding delete_proc
remove_proc port m = record m { procs = delete_proc port m.procs }

-- `get`
unfoldable pub get_proc : ℕ → Spawner → Option ℕ
unfolding find_proc
get_proc port m = find_proc port m.procs

abbrev pub int_elem : ℕ → List ℤ → Bool
int_elem p [] = false
int_elem p (pos r ∷ rs) = r == p || int_elem p rs
int_elem p (negsuc r ∷ rs) = int_elem p rs

abbrev pub is_some : Option ℕ → Bool
is_some none = false
is_some (some cmd) = true

-- `isReserved`
unfoldable pub is_reserved : (reserved : List ℤ) → Spawner → ℕ → Bool
unfolding find_proc
is_reserved reserved m p = int_elem p reserved || is_some (find_proc p m.procs)

module _ (can_listen : ℕ → Bool) where
  -- The tests of the loop of `nextFreePort` for one port: the gRPC port and the HTTP port above it.
  unfoldable pub is_free : (reserved : List ℤ) → Spawner → ℕ → Bool
  unfolding is_reserved
  is_free reserved m port =
      not (is_reserved reserved m port) && can_listen port && can_listen (port + 1)

  -- The loop, with a bound on its rounds.
  unfoldable pub search_port : (rounds : ℕ) → (reserved : List ℤ) → Spawner → ℕ → Option ℕ
  unfolding is_free
  search_port zero reserved m port = none
  search_port (suc rounds) reserved m port = elim (ltb port 10000) [
    | false ↦ none
    | true ↦ elim (is_free reserved m port) [
      | true ↦ some port
      | false ↦ search_port rounds reserved m (port + 2)
    ]
  ]

  -- `nextFreePort`
  unfoldable pub next_free_port : (reserved : List ℤ) → Spawner → Spawner × Option ℕ
  unfolding search_port
  next_free_port reserved m = elim (search_port (10000 - m.next + 1) reserved m m.next) [
    | none ↦ (m, none)
    | some port ↦ (record m { next = port + 2 }, some port)
  ]
