-- ===== src/Client.antt =====
-- client/client.go: the hint of the leader in an error message, and how a hint becomes an address.
--
-- Texts are the bytes of Go's strings, since the code walks them; they are ASCII, where a rune is a byte
-- and white space is the six characters of `strings.TrimSpace`.
pub mod Hint
pub mod Address
pub mod Retry
pub mod Discovery
pub mod Operations
use mimori.Prelude.{
  Bool, Option, [], drop, false, if◌then◌else◌, length, none, some, true, ℕ, ◌&&◌, ◌==◌, ◌||◌, ◌∷◌,
}
use mimori.Raft.State.{Bytes}

-- "leader="
abbrev pub leader_eq : Bytes
leader_eq = 108 ∷ 101 ∷ 97 ∷ 100 ∷ 101 ∷ 114 ∷ 61 ∷ []

-- `strings.HasPrefix`
abbrev pub has_prefix : (s prefix : Bytes) → Bool
has_prefix s [] = true
has_prefix [] (p ∷ ps) = false
has_prefix (x ∷ xs) (p ∷ ps) = x == p && has_prefix xs ps

-- `msg[strings.Index(msg, sep)+len(sep):]`, and `none` where the index is -1.
abbrev pub after_first : (sep msg : Bytes) → Option Bytes
after_first sep [] = none
after_first sep (x ∷ xs) =
    let rest = after_first sep xs in
    if has_prefix (x ∷ xs) sep then some (drop (length sep) (x ∷ xs)) else rest

abbrev pub is_space : ℕ → Bool
is_space c = c == 32 || c == 9 || c == 10 || c == 11 || c == 12 || c == 13

abbrev pub trim_left : Bytes → Bytes
trim_left [] = []
trim_left (x ∷ xs) = let rest = trim_left xs in if is_space x then rest else x ∷ xs

abbrev pub trim_right : Bytes → Bytes
trim_right [] = []
trim_right (x ∷ xs) = elim (trim_right xs) [
  | [] ↦ if is_space x then [] else x ∷ []
  | y ∷ ys ↦ x ∷ y ∷ ys
]

-- `strings.TrimSpace`
abbrev pub trim_space : Bytes → Bytes
trim_space s = trim_right (trim_left s)

-- `' ', '\t', '\n', ')', ',', ';'`
abbrev pub ends_hint : ℕ → Bool
ends_hint c = c == 32 || c == 9 || c == 10 || c == 41 || c == 44 || c == 59

-- The loop that cuts the hint at the first of these.
unfoldable pub cut_hint : Bytes → Bytes
cut_hint [] = []
cut_hint (x ∷ xs) = let rest = cut_hint xs in if ends_hint x then [] else x ∷ rest

abbrev pub non_empty : Bytes → Option Bytes
non_empty [] = none
non_empty (x ∷ xs) = some (x ∷ xs)

-- `extractLeaderHint`, on the message of a gRPC status.
unfoldable pub extract_leader_hint : Bytes → Option Bytes
unfolding cut_hint
extract_leader_hint msg = elim (after_first leader_eq msg) [
  | none ↦ none
  | some rest ↦ non_empty (trim_space (cut_hint (trim_space rest)))
]
