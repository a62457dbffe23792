-- ===== src/Utils.antt =====
-- internal/utils/util.go, and what it takes from the standard library: `net.SplitHostPort`,
-- `strconv.Atoi` and the verb %d of `fmt`.
--
-- Texts are the bytes of Go's strings.  The numbers are int, 64 bits wide.
pub mod Digits
pub mod RoundTrip
pub mod Ranges
pub mod Splits
use Prim.Native.Char.{code}
use Prim.Native.String.{String}
use mimori.Prelude.{
  Bool, Option, [], false, if◌then◌else◌, leb, ltb, none, not, some, suc, true, zero, ℕ, ◌%◌, ◌&&◌,
  ◌*◌, ◌++◌, ◌+◌, ◌-◌, ◌/◌, ◌==◌, ◌^◌, ◌||◌, ◌∷◌,
}
use mimori.Raft.State.{Bytes}

pub data ℤ : Type 0 where
  pos negsuc : ℕ → ℤ

-- `-n`
abbrev pub neg : ℕ → ℤ
neg zero = pos 0
neg (suc n) = negsuc n

-- The digits of `n`, with the fuel that `Digits.scan-decimal` shows to be enough.
unfoldable pub decimal : (fuel n : ℕ) → Bytes
decimal zero n = (b'0' + n % 10) ∷ []
decimal (suc fuel) n = elim (ltb n 10) [
  | true ↦ (b'0' + n) ∷ []
  | false ↦ decimal fuel (n / 10) ++ (b'0' + n % 10) ∷ []
]

-- `strconv.Itoa`, and the verb %d, of a number that is not negative.
unfoldable pub itoa : ℕ → Bytes
unfolding decimal
itoa n = decimal n n

-- `fmt.Sprintf("%d", z)`
unfoldable pub itoa_int : ℤ → Bytes
unfolding itoa
itoa_int (pos n) = itoa n
itoa_int (negsuc n) = b'-' ∷ itoa (suc n)

abbrev pub is_digit : ℕ → Bool
is_digit c = leb b'0' c && leb c b'9'

-- The number that starts with the digits of `n`.
unfoldable pub scan : Bytes → ℕ → Option ℕ
scan [] n = some n
scan (c ∷ s) n = if is_digit c then scan s (n * 10 + (c - b'0')) else none

unfoldable pub scan_number : Bytes → Option ℕ
unfolding scan
scan_number [] = none
scan_number (c ∷ s) = scan (c ∷ s) 0

abbrev pub within_int : (bound : ℕ) → (ℕ → ℤ) → Option ℕ → Option ℤ
within_int bound sign none = none
within_int bound sign (some n) = if ltb n bound then some (sign n) else none

-- `strconv.Atoi`: `none` is an error, for a text that is no number or a number out of range.
unfoldable pub atoi : Bytes → Option ℤ
unfolding scan_number
atoi [] = none
atoi (c ∷ s) =
    if c == b'-'
    then within_int (2 ^ 63 + 1) neg (scan_number s)
    else (if c == b'+'
        then within_int (2 ^ 63) pos (scan_number s)
        else within_int (2 ^ 63) pos (scan_number (c ∷ s)))

-- `strings.IndexByte(s, b) >= 0`
unfoldable pub has_byte : (b : ℕ) → Bytes → Bool
has_byte b [] = false
has_byte b (c ∷ s) = c == b || has_byte b s

-- What stands before the first `b` of a text and behind it, or `none` without one.
unfoldable pub cut_first : (b : ℕ) → Bytes → Option (Bytes × Bytes)
cut_first b [] = none
cut_first b (c ∷ s) =
    let rest = cut_first b s in
    if c == b
    then some ([], s)
    else (elim rest [ none ↦ none | some (before, behind) ↦ some (c ∷ before, behind) ])

-- The same for the last `b`.
unfoldable pub cut_last : (b : ℕ) → Bytes → Option (Bytes × Bytes)
cut_last b [] = none
cut_last b (c ∷ s) = elim (cut_last b s) [
  | some (before, behind) ↦ some (c ∷ before, behind)
  | none ↦ if c == b then some ([], s) else none
]

abbrev pub no_brackets : Bytes → Bool
unfolding has_byte
no_brackets s = not (has_byte b'[' s) && not (has_byte b']' s)

-- The branch of `net.SplitHostPort` for a text that starts with '[', on what follows it.
unfoldable pub split_bracketed : Bytes → Option (Bytes × Bytes)
unfolding cut_first has_byte
split_bracketed s = elim (cut_first b']' s) [
  | none ↦ none
  | some (host, []) ↦ none
  | some (host, c ∷ port) ↦
      if c == b':' && not (has_byte b':' port) && not (has_byte b'[' host) && no_brackets port
      then some (host, port)
      else none
]

-- The other branch.
unfoldable pub split_plain : Bytes → Option (Bytes × Bytes)
unfolding cut_last has_byte
split_plain s = elim (cut_last b':' s) [
  | none ↦ none
  | some (host, port) ↦
      if has_byte b':' host || not (no_brackets s) then none else some (host, port)
]

-- `net.SplitHostPort`: the host and the port, or `none` for an error.
unfoldable pub split_host_port : Bytes → Option (Bytes × Bytes)
unfolding split_bracketed split_plain
split_host_port [] = none
split_host_port (c ∷ s) = if c == b'[' then split_bracketed s else split_plain (c ∷ s)

-- `strconv.Atoi` with 0 for an error.
unfoldable pub port_number : Bytes → ℤ
unfolding atoi
port_number s = elim (atoi s) [ none ↦ pos 0 | some p ↦ p ]

-- `ParseHostPort`
unfoldable pub parse_host_port : Bytes → Bytes × ℤ
unfolding split_host_port port_number
parse_host_port addr = elim (split_host_port addr) [
  | some (host, port_str) ↦ (host, port_number port_str)
  | none ↦ elim addr [
    | [] ↦ ([], pos 0)
    | c ∷ port_str ↦ if c == b':' then ([], port_number port_str) else ([], pos 0)
  ]
]

-- `z + 1` in 64 bits
unfoldable pub add_one : ℤ → ℤ
add_one (pos n) = if ltb (n + 1) (2 ^ 63) then pos (n + 1) else negsuc (2 ^ 63 - 1)
add_one (negsuc zero) = pos 0
add_one (negsuc (suc n)) = negsuc n

-- `z == 0`
abbrev pub is_zero : ℤ → Bool
is_zero (pos zero) = true
is_zero (pos (suc n)) = false
is_zero (negsuc n) = false

-- `fmt.Sprintf("%s:%d", host, z)`
unfoldable pub join_host_port : Bytes → ℤ → Bytes
unfolding itoa_int
join_host_port host z = host ++ b':' ∷ itoa_int z

-- The bytes of a text without other characters than ASCII.
abbrev pub codes : String → Bytes
codes String.[] = []
codes (String.◌∷◌ c s) = code c ∷ codes s
