-- ===== src/Utils/RoundTrip.antt =====
-- What `ParseHostPort` reads in an address that was printed from a host and a port.
use mimori.Prelude.{[], arith, false, none, refl, some, true, ℕ, ◌++◌, ◌||◌, ◌∷◌, ◌≡◌}
use mimori.Raft.State.{Bytes}
use mimori.Utils.{
  cut_first, cut_last, has_byte, itoa_int, join_host_port, parse_host_port, port_number,
  split_bracketed, split_host_port, split_plain, ℤ,
}
use mimori.Utils.Digits.{IsInt, atoi-itoa_int, has_byte-itoa_int}

has_byte-append : (b : ℕ) (xs ys : Bytes) → has_byte b (xs ++ ys) ≡ (has_byte b xs || has_byte b ys)
unfolding has_byte
has_byte-append b [] ys = refl
has_byte-append b (x ∷ xs) ys = ground (arith, has_byte-append b xs ys)

cut_last-none : (b : ℕ) (s : Bytes) → has_byte b s ≡ false → cut_last b s ≡ none
unfolding has_byte cut_last
cut_last-none b [] h = refl
cut_last-none b (c ∷ s) h = ground (arith, cut_last-none b s)

cut_last-append :
    (b : ℕ) (host port : Bytes)
    → has_byte b port ≡ false
    → cut_last b (host ++ b ∷ port) ≡ some (host, port)
unfolding cut_last
cut_last-append b [] port h = ground (arith, cut_last-none b port h)
cut_last-append b (c ∷ host) port h = rw (cut_last-append b host port h) refl

pub cut_first-append :
    (b : ℕ) (host rest : Bytes)
    → has_byte b host ≡ false
    → cut_first b (host ++ b ∷ rest) ≡ some (host, rest)
unfolding cut_first has_byte
cut_first-append b [] rest h = ground arith
cut_first-append b (c ∷ host) rest h = ground (arith, cut_first-append b host rest)

-- A host zame or an IPv4 address.
pub record IsHostName (host : Bytes) : Type 0 where
  pub no_colon : has_byte b':' host ≡ false
  pub no_open : has_byte b'[' host ≡ false
  pub no_close : has_byte b']' host ≡ false

pub split_plain-join :
    (host : Bytes) (z : ℤ)
    → IsHostName host
    → split_plain (join_host_port host z) ≡ some (host, itoa_int z)
unfolding split_plain has_byte join_host_port
split_plain-join host z plain =
    rw (split_plain, cut_last-append b':' host (itoa_int z) (has_byte-itoa_int b':' z refl refl))
      (ground (
        arith,
        plain.no_colon,
        plain.no_open,
        plain.no_close,
        has_byte-append b'[' host (b':' ∷ itoa_int z),
        has_byte-append b']' host (b':' ∷ itoa_int z),
        has_byte-itoa_int b'[' z refl refl,
        has_byte-itoa_int b']' z refl refl,
      ))

pub split_host_port-join :
    (host : Bytes) (z : ℤ)
    → IsHostName host
    → split_host_port (join_host_port host z) ≡ some (host, itoa_int z)
unfolding split_host_port has_byte join_host_port
split_host_port-join [] z plain = split_plain-join [] z plain
split_host_port-join (c ∷ host) n plain =
    ground (arith, split_plain-join (c ∷ host) n plain, plain.no_open)

-- c
pub parse_host_port-join :
    (host : Bytes) (z : ℤ)
    → IsHostName host
    → IsInt z
    → parse_host_port (join_host_port host z) ≡ (host, z)
unfolding parse_host_port port_number
parse_host_port-join host z plain small =
    rw (parse_host_port, split_host_port-join host z plain, port_number, atoi-itoa_int z small) refl

pub split_host_port-bracketed :
    (host : Bytes) (z : ℤ)
    → has_byte b'[' host ≡ false
    → has_byte b']' host ≡ false
    → split_host_port (b'[' ∷ host ++ b']' ∷ b':' ∷ itoa_int z) ≡ some (host, itoa_int z)
unfolding split_host_port split_bracketed
split_host_port-bracketed host z no_open no_close =
    rw (split_bracketed, cut_first-append b']' host (b':' ∷ itoa_int z) no_close)
      (ground (
        arith,
        no_open,
        has_byte-itoa_int b':' z refl refl,
        has_byte-itoa_int b'[' z refl refl,
        has_byte-itoa_int b']' z refl refl,
      ))

pub parse_host_port-bracketed :
    (host : Bytes) (z : ℤ)
    → has_byte b'[' host ≡ false
    → has_byte b']' host ≡ false
    → IsInt z
    → parse_host_port (b'[' ∷ host ++ b']' ∷ b':' ∷ itoa_int z) ≡ (host, z)
unfolding parse_host_port port_number
parse_host_port-bracketed host z no_open no_close small =
    rw
      (
        parse_host_port,
        split_host_port-bracketed host z no_open no_close,
        port_number,
        atoi-itoa_int z small,
      )
      refl

-- "too many colons in address"
pub split_host_port-colons :
    (host : Bytes) (z : ℤ)
    → has_byte b'[' host ≡ false
    → has_byte b':' host ≡ true
    → split_host_port (join_host_port host z) ≡ none
unfolding split_host_port split_plain has_byte join_host_port
split_host_port-colons [] z no_open colons = cc
split_host_port-colons (c ∷ host) z no_open colons =
    ground
      (arith, cut_last-append b':' (c ∷ host) (itoa_int z) (has_byte-itoa_int b':' z refl refl))
