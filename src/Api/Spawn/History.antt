-- ===== src/Api/Spawn/History.antt =====
-- The ports that the spawn manager of internal/api/server.go hands out in the course of its calls.
use mimori.Api.Spawn.{Spawner, ensure_next_at_least, next_free_port, remove_proc, track}
use mimori.Api.Spawn.Ports.{Assigned, assigned_port, exhausted, next_free_port-Assigned}
use mimori.Prelude.{Bool, List, Option, [], arith, none, some, ℕ, ◌+◌, ◌<◌, ◌∷◌, ◌≤◌}
use mimori.Utils.{ℤ}

pub data Call : Type 0 where
  port_asked : (can_listen : ℕ → Bool) → (reserved : List ℤ) → Call
  next_ensured : ℕ → Call
  proc_tracked : (port cmd : ℕ) → Call
  proc_removed : ℕ → Call

-- The state after a call, and the port that the call returns.
unfoldable pub spawner_call : Call → Spawner → Spawner × Option ℕ
unfolding next_free_port ensure_next_at_least track remove_proc
spawner_call (port_asked can_listen reserved) m = next_free_port can_listen reserved m
spawner_call (next_ensured p) m = (ensure_next_at_least p m, none)
spawner_call (proc_tracked port cmd) m = (track port cmd m, none)
spawner_call (proc_removed port) m = (remove_proc port m, none)

-- The ports that the calls return, in order.
unfoldable pub handed_out : List Call → Spawner → List ℕ
unfolding spawner_call
handed_out [] m = []
handed_out (c ∷ cs) m = elim (spawner_call c m).1 [
  | none ↦ handed_out cs (spawner_call c m).0
  | some port ↦ port ∷ handed_out cs (spawner_call c m).0
]

-- Each port is below 10000 and at least 2 above the one before it; the first is at least `low`.
abbrev pub Climbs : (low : ℕ) → List ℕ → Type 0
Climbs low [] = Unit {0}
Climbs low (p ∷ ps) = (low ≤ p) × (p < 10000) × Climbs (p + 2) ps

Climbs-weaken : (low high : ℕ) (ps : List ℕ) → low ≤ high → Climbs high ps → Climbs low ps
Climbs-weaken low high [] le c = tt
Climbs-weaken low high (p ∷ ps) le c = (omega (arith, c.0), c.1, c.2)

Climbs-Assigned :
    (can_listen : ℕ → Bool) (reserved : List ℤ) (m : Spawner) (cs : List Call)
    (x : Spawner × Option ℕ)
    → Assigned can_listen reserved m x
    → ((m' : Spawner) → Climbs m'.next (handed_out cs m'))
    → Climbs m.next (elim x.1 [ none ↦ handed_out cs x.0 | some port ↦ port ∷ handed_out cs x.0 ])
Climbs-Assigned can_listen reserved m cs _ (assigned_port {port} f) later =
    (omega (arith, f.reached), f.bounded, later (record m { next = port + 2 }))
Climbs-Assigned can_listen reserved m cs _ (exhausted none_free) later = later m

ensure_next_at_least-le : (p : ℕ) (m : Spawner) → m.next ≤ (ensure_next_at_least p m).next
unfolding ensure_next_at_least
ensure_next_at_least-le p m = ground arith

-- Whatever calls the manager gets, the ports that it hands out are below 10000 and each is at least 2
-- above the one before it, the first at least `next`: no port is handed out twice, whether or not its
-- process was removed.
pub handed_out-Climbs : (cs : List Call) (m : Spawner) → Climbs m.next (handed_out cs m)
unfolding handed_out spawner_call
handed_out-Climbs [] m = tt
handed_out-Climbs (port_asked can_listen reserved ∷ cs) m =
    Climbs-Assigned can_listen reserved m cs (next_free_port can_listen reserved m)
      (next_free_port-Assigned can_listen reserved m) (handed_out-Climbs cs)
handed_out-Climbs (next_ensured p ∷ cs) m =
    Climbs-weaken m.next (ensure_next_at_least p m).next _ (ensure_next_at_least-le p m)
      (handed_out-Climbs cs (ensure_next_at_least p m))
handed_out-Climbs (proc_tracked port cmd ∷ cs) m = handed_out-Climbs cs (track port cmd m)
handed_out-Climbs (proc_removed port ∷ cs) m = handed_out-Climbs cs (remove_proc port m)
