-- ===== src/Client/Hint.antt =====
-- The client reads the leader back from the messages of internal/api/server.go.
use mimori.Api.{
  Refusal, lease_expired, lease_prefix, message, not_leader_prefix, propose_failed, read_not_leader,
  stale_suffix, store_failed, write_not_leader,
}
use mimori.Client.{
  cut_hint, ends_hint, extract_leader_hint, is_space, non_empty, trim_left, trim_right, trim_space,
}
use mimori.Prelude.{[], ap, arith, false, length, refl, some, true, ℕ, ◌++◌, ◌<◌, ◌∙◌, ◌∷◌, ◌≡◌}
use mimori.Raft.State.{Bytes, NodeId}

-- An address as the nodes have them: no white space and no delimiter.
abbrev pub IsPlain : Bytes → Type 0
IsPlain [] = Unit {0}
IsPlain (x ∷ xs) = (is_space x ≡ false) × (ends_hint x ≡ false) × IsPlain xs

trim_left_plain : (xs ys : Bytes) → IsPlain xs → 0 < length xs → trim_left (xs ++ ys) ≡ xs ++ ys
trim_left_plain [] ys h n = absurd (omega arith)
trim_left_plain (x ∷ xs) ys h n = rw h.0 refl

cut_hint_plain :
    (xs : Bytes) (c : ℕ) (ys : Bytes)
    → IsPlain xs
    → ends_hint c ≡ true
    → cut_hint (xs ++ c ∷ ys) ≡ xs
unfolding cut_hint
cut_hint_plain [] c ys h e = rw e refl
cut_hint_plain (x ∷ xs) c ys h e = rw h.1 (ap (◌∷◌ x) (cut_hint_plain xs c ys h.2 e))

cut_hint_whole : (xs : Bytes) → IsPlain xs → cut_hint xs ≡ xs
unfolding cut_hint
cut_hint_whole [] h = refl
cut_hint_whole (x ∷ xs) h = rw h.1 (ap (◌∷◌ x) (cut_hint_whole xs h.2))

trim_right_plain : (xs : Bytes) → IsPlain xs → trim_right xs ≡ xs
trim_right_plain [] h = refl
trim_right_plain (x ∷ []) h = rw h.0 refl
trim_right_plain (x ∷ y ∷ ys) h = rw (trim_right_plain (y ∷ ys) h.2) refl

trim_right-append :
    (xs : Bytes) (y : ℕ) (ys : Bytes)
    → trim_right (y ∷ ys) ≡ y ∷ ys
    → trim_right (xs ++ y ∷ ys) ≡ xs ++ y ∷ ys
trim_right-append [] y ys h = h
trim_right-append (x ∷ []) y ys h = rw h refl
trim_right-append (x ∷ x' ∷ xs) y ys h = rw (trim_right-append (x' ∷ xs) y ys h) refl

non_empty-some : (xs : Bytes) → 0 < length xs → non_empty xs ≡ some xs
non_empty-some [] n = absurd (omega arith)
non_empty-some (x ∷ xs) n = refl

trim_space_plain : (xs : Bytes) → IsPlain xs → trim_space xs ≡ xs
trim_space_plain [] h = refl
trim_space_plain (x ∷ xs) h = rw h.0 (trim_right_plain (x ∷ xs) h)

-- The end of a message is the leader alone, or the leader and the advice.
hint-alone :
    (xs : Bytes)
    → IsPlain xs
    → 0 < length xs
    → non_empty (trim_space (cut_hint (trim_space xs))) ≡ some xs
hint-alone xs h n =
    ap (λ l. non_empty (trim_space (cut_hint l))) (trim_space_plain xs h)
    ∙ (ap (λ l. non_empty (trim_space l)) (cut_hint_whole xs h)
        ∙ (ap non_empty (trim_space_plain xs h) ∙ non_empty-some xs n))

hint-advised :
    (xs : Bytes)
    → IsPlain xs
    → 0 < length xs
    → non_empty (trim_space (cut_hint (trim_space (xs ++ stale_suffix)))) ≡ some xs
hint-advised xs h n =
    let trimmed : trim_space (xs ++ stale_suffix) ≡ xs ++ stale_suffix =
      ap trim_right (trim_left_plain xs stale_suffix h n) ∙ trim_right-append xs _ _ refl in
    ap (λ l. non_empty (trim_space (cut_hint l))) trimmed
    ∙ (ap (λ l. non_empty (trim_space l)) (cut_hint_plain xs 32 _ h refl)
        ∙ (ap non_empty (trim_space_plain xs h) ∙ non_empty-some xs n))

-- The refusal names the leader.
abbrev pub Names : Refusal → NodeId → Type 0
Names (write_not_leader l) leader_id = l ≡ leader_id
Names (read_not_leader l) leader_id = l ≡ leader_id
Names (lease_expired l) leader_id = l ≡ leader_id
Names (propose_failed e) leader_id = ⊥
Names store_failed leader_id = ⊥

-- From the message of every refusal that names a leader the client reads the name of that leader, when the
-- name is not empty and has no white space and no delimiter.
pub extract_leader_hint-message :
    (bytes_of : NodeId → Bytes) (refusal : Refusal) (leader_id : NodeId)
    → Names refusal leader_id
    → IsPlain (bytes_of leader_id)
    → 0 < length (bytes_of leader_id)
    → (msg : Bytes) × (message bytes_of refusal ≡ some msg)
      × (extract_leader_hint msg ≡ some (bytes_of leader_id))
unfolding message extract_leader_hint
extract_leader_hint-message bytes_of (write_not_leader l) leader_id q h n =
    (not_leader_prefix ++ bytes_of leader_id, rw q refl, hint-alone (bytes_of leader_id) h n)
extract_leader_hint-message bytes_of (read_not_leader l) leader_id q h n = (
  not_leader_prefix ++ bytes_of leader_id ++ stale_suffix,
  rw q refl,
  hint-advised (bytes_of leader_id) h n,
)
extract_leader_hint-message bytes_of (lease_expired l) leader_id q h n =
    (lease_prefix ++ bytes_of leader_id, rw q refl, hint-alone (bytes_of leader_id) h n)
extract_leader_hint-message bytes_of (propose_failed e) leader_id q h n = absurd q
extract_leader_hint-message bytes_of store_failed leader_id q h n = absurd q

-- When no leader is known, the client takes the word "(use" of the advice in the message of a refused read
-- for the leader.
pub extract_leader_hint-no_leader :
    (bytes_of : NodeId → Bytes) (leader_id : NodeId)
    → bytes_of leader_id ≡ []
    → (msg : Bytes) × (message bytes_of (read_not_leader leader_id) ≡ some msg)
      × (extract_leader_hint msg ≡ some (40 ∷ 117 ∷ 115 ∷ 101 ∷ []))
unfolding message extract_leader_hint cut_hint
extract_leader_hint-no_leader bytes_of leader_id unknown =
    (not_leader_prefix ++ stale_suffix, rw unknown refl, refl)
