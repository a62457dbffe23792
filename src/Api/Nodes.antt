-- ===== src/Api/Nodes.antt =====
-- internal/api/server.go: `handleClusterNodes`, the view of all nodes.
--
-- `ask again base` is what the status of the node at an HTTP base tells, at the first try or at the second,
-- or `none` for an error.  `sort.Slice` is a sort by insertion; the order that it sorts by leaves open only
-- the order of views with one name.
use mimori.Api.Names.{leader_http_base}
use mimori.Api.Rest.{HttpRequest, method_get}
use mimori.Prelude.{
  Bool, List, Option, [], false, if◌then◌else◌, ltb, map, none, some, true, ℕ, ◌==◌, ◌∷◌,
}
use mimori.Raft.Query.{is_leader, status}
use mimori.Raft.State.{Bytes, Raft}
use mimori.Store.Laws.{bytes_eq, bytes_ltb}
use mimori.Utils.{codes, negsuc, parse_host_port, pos, ℤ}

-- `apiStatus`
pub record ApiStatus : Type 0 where
  pub node_id : Bytes
  pub state : Bytes
  pub term : ℕ
  pub is_leader : Bool

-- `nodeView`
pub record NodeView : Type 0 where
  pub id : Bytes
  pub state : Bytes
  pub term : ℕ
  pub is_leader : Bool
  pub reachable : Bool

-- The view that is made before a peer is asked, and the one of a peer that does not answer.
abbrev pub unknown_view : Bytes → NodeView
unknown_view id = record {
  id = id;
  state = codes "unknown";
  term = 0;
  is_leader = false;
  reachable = false;
}

module _ (ask : (again : Bool) → (base : Bytes) → Option ApiStatus) where
  -- The two tries.
  unfoldable pub try_twice : (base : Bytes) → Option ApiStatus
  try_twice base = elim (ask false base) [ none ↦ ask true base | some s ↦ some s ]

  unfoldable pub peer_view : Bytes → NodeView
  unfolding leader_http_base try_twice
  peer_view p =
      let base = leader_http_base p in
      if bytes_eq base [] then unknown_view p else (elim (try_twice base) [
        | none ↦ record (unknown_view p) { state = codes "unreachable" }
        | some s ↦ record {
          id = s.node_id;
          state = s.state;
          term = s.term;
          is_leader = s.is_leader;
          reachable = true;
        }
      ])

unfoldable pub own_view : Raft → NodeView
unfolding status is_leader
own_view r = record {
  id = codes (status r).id;
  state = codes (status r).state;
  term = (status r).term;
  is_leader = is_leader r;
  reachable = true;
}

abbrev pub int_ltb : ℤ → ℤ → Bool
int_ltb (pos m) (pos n) = ltb m n
int_ltb (pos m) (negsuc n) = false
int_ltb (negsuc m) (pos n) = true
int_ltb (negsuc m) (negsuc n) = ltb n m

abbrev pub int_eq : ℤ → ℤ → Bool
int_eq (pos m) (pos n) = m == n
int_eq (pos m) (negsuc n) = false
int_eq (negsuc m) (pos n) = false
int_eq (negsuc m) (negsuc n) = m == n

-- The order: by port, and by name where the ports are the same.
unfoldable pub view_before : NodeView → NodeView → Bool
unfolding parse_host_port
view_before v w =
    let p = (parse_host_port v.id).1 in
    let q = (parse_host_port w.id).1 in if int_eq p q then bytes_ltb v.id w.id else int_ltb p q

unfoldable pub insert_view : NodeView → List NodeView → List NodeView
unfolding view_before
insert_view v [] = v ∷ []
insert_view v (w ∷ ws) =
    let rest = insert_view v ws in if view_before v w then v ∷ w ∷ ws else w ∷ rest

unfoldable pub sort_views : List NodeView → List NodeView
unfolding insert_view
sort_views [] = []
sort_views (v ∷ vs) = insert_view v (sort_views vs)

-- `handleClusterNodes`: `none` is the answer 405.
unfoldable pub handle_cluster_nodes :
    (ask : (again : Bool) → (base : Bytes) → Option ApiStatus)
    → HttpRequest
    → Raft
    → Option (List NodeView)
unfolding peer_view own_view sort_views
handle_cluster_nodes ask req r = elim req.method [
  | method_get ↦ some (sort_views (own_view r ∷ map (λ p. peer_view ask (codes p)) r.peers))
  | _ ↦ none
]
