-- ===== src/Api/Names.antt =====
-- internal/api/server.go: the HTTP addresses that the dashboard derives from the names of nodes, and the
-- names that it gives to nodes.  Texts are the bytes of Go's strings.
pub mod Bases
use mimori.Prelude.{
  Bool, Option, [], false, if◌then◌else◌, ltb, min, none, some, true, ℕ, ◌%◌, ◌&&◌, ◌*◌, ◌++◌, ◌+◌,
  ◌-◌, ◌==◌, ◌^◌, ◌∷◌,
}
use mimori.Raft.Query.{status}
use mimori.Raft.State.{Bytes, Raft}
use mimori.Store.Laws.{bytes_eq}
use mimori.Utils.{
  add_one, codes, cut_first, is_digit, is_zero, join_host_port, neg, parse_host_port, pos,
  scan_number, split_host_port, ℤ,
}

-- What the handlers read of a request's headers and connection.
pub record RequestOrigin : Type 0 where
  pub host : Bytes
  pub is_tls : Bool
  pub forwarded_proto : Bytes

abbrev pub or_localhost : Bytes → Bytes
or_localhost host = if bytes_eq host [] then codes "localhost" else host

-- `parsePort`
unfoldable pub parse_port : Bytes → ℤ
unfolding parse_host_port
parse_port addr = (parse_host_port addr).1

-- The address that `ListenAndServe` serves HTTP on.
unfoldable pub http_addr : Bytes → Bytes
unfolding parse_port add_one join_host_port
http_addr addr = join_host_port [] (add_one (parse_port addr))

-- `leaderHTTPBase`
unfoldable pub leader_http_base : Bytes → Bytes
unfolding parse_host_port add_one join_host_port
leader_http_base leader_id =
    let (host, port) = parse_host_port leader_id in
    if is_zero port
    then []
    else codes "http://" ++ join_host_port (or_localhost host) (add_one port)

-- The low 64 bits of a number, as an int.
unfoldable pub int64 : ℕ → ℤ
int64 n = let low = n % 2 ^ 64 in if ltb low (2 ^ 63) then pos low else neg (2 ^ 64 - low)

-- `strings.TrimPrefix` where the prefix is there.
unfoldable pub cut_prefix : (prefix s : Bytes) → Option Bytes
cut_prefix [] s = some s
cut_prefix (p ∷ ps) [] = none
cut_prefix (p ∷ ps) (c ∷ s) = let rest = cut_prefix ps s in if c == p then rest else none

-- `\d+`
abbrev all_digits : Bytes → Bool
all_digits [] = true
all_digits (c ∷ s) = is_digit c && all_digits s

abbrev is_digits : Bytes → Bool
is_digits [] = false
is_digits (c ∷ s) = all_digits (c ∷ s)

-- The submatch of `dockerNodeIDRe`, `^mimori-node(\d+):\d+$`.
unfoldable pub docker_digits : Bytes → Option Bytes
unfolding cut_prefix cut_first
docker_digits id = elim (cut_prefix (codes "mimori-node") id) [
  | none ↦ none
  | some rest ↦ elim (cut_first b':' rest) [
    | none ↦ none
    | some (number, port) ↦ if is_digits number && is_digits port then some number else none
  ]
]

-- The value that `strconv.Atoi` returns for digits: the largest int where they are out of range.
unfoldable pub atoi_value : Bytes → ℕ
unfolding scan_number
atoi_value s = elim (scan_number s) [ none ↦ 0 | some n ↦ min n (2 ^ 63 - 1) ]

-- The port of a node of Docker Compose: its HTTP port on the host, or `none` for another node's name.
unfoldable pub docker_http_port : Bytes → Option ℤ
unfolding docker_digits atoi_value int64 add_one
docker_http_port id = elim (docker_digits id) [
  | none ↦ none
  | some number ↦
      let n = atoi_value number in
      if ltb 0 n then some (add_one (int64 (4000 + 2 * (n - 1)))) else none
]

-- The host of `publicHTTPBaseForNodeID`.
unfoldable pub browser_host : Bytes → Bytes
unfolding split_host_port
browser_host host = elim (split_host_port host) [
  | none ↦ or_localhost host
  | some (h, _) ↦ if bytes_eq h [] then or_localhost host else h
]

unfoldable pub scheme_of : RequestOrigin → Bytes
scheme_of r =
    if bytes_eq r.forwarded_proto []
    then (if r.is_tls then codes "https" else codes "http")
    else r.forwarded_proto

-- `publicHTTPBaseForNodeID`
unfoldable pub public_http_base : RequestOrigin → Bytes → Bytes
unfolding docker_http_port browser_host scheme_of parse_host_port join_host_port add_one
public_http_base r id =
    let base =
      λ (port : ℤ). scheme_of r ++ codes "://" ++ join_host_port (browser_host r.host) port in
    elim (docker_http_port id) [
      | some port ↦ base port
      | none ↦ let port = (parse_host_port id).1 in if is_zero port then [] else base (add_one port)
    ]

-- `normalizeNodeIDForHost`
unfoldable pub normalize_node_id_for_host : (id host : Bytes) → Bytes
unfolding parse_host_port join_host_port
normalize_node_id_for_host id host =
    let (h, p) = parse_host_port id in
    if is_zero p then id else (if bytes_eq h [] then join_host_port (or_localhost host) p else id)

-- `requestHost`, of a request that is there.
unfoldable pub request_host : Bytes → Bytes
unfolding split_host_port
request_host host = elim (split_host_port host) [
  | none ↦ or_localhost host
  | some (h, _) ↦ if bytes_eq h [] then or_localhost host else h
]

-- The state and the leader in the JSON of /raft/status.
unfoldable pub raft_status_body : Raft → Bytes × Bytes
unfolding status
raft_status_body r = (codes (status r).state, codes (status r).leader_id)
