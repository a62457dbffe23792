-- ===== src/Api/Names/Bases.antt =====
-- The addresses and names of internal/api/server.go, and what `ParseHostPort` reads in them.
use mimori.Api.Names.{
  http_addr, leader_http_base, normalize_node_id_for_host, or_localhost, parse_port,
}
use mimori.Prelude.{Bool-cases, [], false, inl, inr, none, refl, subst, sym, true, ◌++◌, ◌∷◌, ◌≡◌}
use mimori.Raft.State.{Bytes}
use mimori.Store.Laws.{bytes_eq}
use mimori.Utils.{
  add_one, codes, has_byte, is_zero, itoa_int, join_host_port, parse_host_port, split_host_port, ℤ,
}
use mimori.Utils.Digits.{IsInt}
use mimori.Utils.Ranges.{parse_host_port-IsInt}
use mimori.Utils.RoundTrip.{
  IsHostName, parse_host_port-bracketed, parse_host_port-join, split_host_port-colons,
}

-- For a node named by a plain host, or none, and a port other than 0: the HTTP base that the other nodes
-- derive from its name is "http://", the host, "localhost" where there is none, and the address on which
-- a node that listens at this port serves HTTP.
pub leader_http_base-http_addr :
    (host addr : Bytes) (port : ℤ)
    → IsHostName host
    → IsInt port
    → is_zero port ≡ false
    → parse_port addr ≡ port
    → leader_http_base (join_host_port host port)
      ≡ codes "http://" ++ or_localhost host ++ http_addr addr
unfolding leader_http_base http_addr join_host_port
leader_http_base-http_addr host addr port plain small some_port listens =
    rw
      (
        leader_http_base,
        parse_host_port-join host port plain small,
        some_port,
        http_addr,
        listens,
        join_host_port,
      )
      refl

or_localhost-IsHostName : (host : Bytes) → IsHostName host → IsHostName (or_localhost host)
unfolding has_byte
or_localhost-IsHostName [] plain = record { no_colon = refl; no_open = refl; no_close = refl }
or_localhost-IsHostName (c ∷ host) plain = plain

bytes_eq-or_localhost : (host : Bytes) → bytes_eq (or_localhost host) [] ≡ false
bytes_eq-or_localhost [] = refl
bytes_eq-or_localhost (c ∷ host) = refl

normalize-join :
    (host other : Bytes) (port : ℤ)
    → IsHostName host
    → IsInt port
    → normalize_node_id_for_host (join_host_port (or_localhost host) port) other
      ≡ join_host_port (or_localhost host) port
unfolding normalize_node_id_for_host
normalize-join host other port plain small =
    rw
      (
        normalize_node_id_for_host,
        parse_host_port-join (or_localhost host) port (or_localhost-IsHostName host plain) small,
        bytes_eq-or_localhost host,
      )
      (elim (Bool-cases (is_zero port)) [
        | inl zero_port ↦ rw zero_port refl
        | inr some_port ↦ rw some_port refl
      ])

normalize-portless :
    (id host : Bytes)
    → is_zero (parse_host_port id).1 ≡ true
    → normalize_node_id_for_host id host ≡ id
unfolding normalize_node_id_for_host
normalize-portless id host portless = rw (normalize_node_id_for_host, portless) refl

normalize-has_host :
    (id host : Bytes)
    → bytes_eq (parse_host_port id).0 [] ≡ false
    → normalize_node_id_for_host id host ≡ id
unfolding normalize_node_id_for_host
normalize-has_host id host has_host = elim (Bool-cases (is_zero (parse_host_port id).1)) [
  | inl portless ↦ normalize-portless id host portless
  | inr some_port ↦ rw (normalize_node_id_for_host, some_port, has_host) refl
]

normalize-filled :
    (id host : Bytes)
    → is_zero (parse_host_port id).1 ≡ false
    → bytes_eq (parse_host_port id).0 [] ≡ true
    → normalize_node_id_for_host id host ≡ join_host_port (or_localhost host) (parse_host_port id).1
unfolding normalize_node_id_for_host
normalize-filled id host some_port hostless =
    rw (normalize_node_id_for_host, some_port, hostless) refl

-- A name that was normalized for a plain host is left as it is by any further normalization.
pub normalize_node_id_for_host-twice :
    (id host other : Bytes)
    → IsHostName host
    → normalize_node_id_for_host (normalize_node_id_for_host id host) other
      ≡ normalize_node_id_for_host id host
normalize_node_id_for_host-twice id host other plain =
    let stays = λ (s : Bytes). normalize_node_id_for_host s other ≡ s in
    elim (Bool-cases (is_zero (parse_host_port id).1)) [
      | inl portless ↦
          subst stays (sym (normalize-portless id host portless))
            (normalize-portless id other portless)
      | inr some_port ↦ elim (Bool-cases (bytes_eq (parse_host_port id).0 [])) [
        | inl hostless ↦
            subst stays (sym (normalize-filled id host some_port hostless))
              (normalize-join host other (parse_host_port id).1 plain (parse_host_port-IsInt id))
        | inr has_host ↦
            subst stays (sym (normalize-has_host id host has_host))
              (normalize-has_host id other has_host)
      ]
    ]

or_localhost-colons : (host : Bytes) → has_byte b':' host ≡ true → or_localhost host ≡ host
unfolding has_byte
or_localhost-colons [] colons = cc
or_localhost-colons (c ∷ host) colons = refl

-- For a node named by an IPv6 address in brackets and a port other than 0: the HTTP base that the other
-- nodes derive from its name is "http://", the address without its brackets, a colon and the next port,
-- which `net.SplitHostPort` refuses to split.
pub leader_http_base-bracketed :
    (host : Bytes) (port : ℤ)
    → has_byte b'[' host ≡ false
    → has_byte b']' host ≡ false
    → has_byte b':' host ≡ true
    → IsInt port
    → is_zero port ≡ false
    → (leader_http_base (b'[' ∷ host ++ b']' ∷ b':' ∷ itoa_int port)
        ≡ codes "http://" ++ join_host_port host (add_one port))
      × (split_host_port (join_host_port host (add_one port)) ≡ none)
unfolding leader_http_base
leader_http_base-bracketed host port no_open no_close colons small some_port = (
  rw
      (
        leader_http_base,
        parse_host_port-bracketed host port no_open no_close small,
        some_port,
        or_localhost-colons host colons,
      )
      refl,
  split_host_port-colons host (add_one port) no_open colons,
)
