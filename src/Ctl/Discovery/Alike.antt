-- ===== src/Ctl/Discovery/Alike.antt =====
-- The questions for the leader of cmd/mimorictl/client.go are those of client/client.go.
use mimori.Client.{has_prefix, trim_space}
use mimori.Client.Discovery.{
  StatusAnswer, find_leader_from_node, get_http_addr, status_url, told_by, verify_leader,
}
use mimori.Ctl.{ctl_http_addr}
use mimori.Ctl.Discovery.{ctl_find_leader_from_node, ctl_status_url, ctl_verify_leader}
use mimori.Ctl.Hints.{ctl_normalize_leader_addr-eq}
use mimori.Prelude.{
  Bool-cases, List, Option, Option-cases, [], ap, arith, false, inl, inr, none, refl, some, subst,
  sym, true, ℕ, ◌++◌, ◌==◌, ◌∙◌, ◌∷◌, ◌≡◌, ◌≢◌, ◌⊎◌,
}
use mimori.Raft.State.{Bytes}
use mimori.Utils.{atoi, codes, cut_first, has_byte, scan, scan_number}
use mimori.Utils.Digits.{scan-has_byte}
use mimori.Utils.RoundTrip.{cut_first-append}
use mimori.Utils.Splits.{split_on, split_on-append, split_on-no_byte, split_on-nonempty}

cut_first-cases :
    (b : ℕ) (s : Bytes)
    → ((cut_first b s ≡ none) × (has_byte b s ≡ false))
      ⊎ ((x : Bytes) × (rest : Bytes) × (has_byte b x ≡ false) × (s ≡ x ++ b ∷ rest))
unfolding cut_first has_byte
cut_first-cases b [] = inl (refl, refl)
cut_first-cases b (c ∷ s) = elim (Bool-cases (c == b)) [
  | inl same ↦ inr ([], s, refl, ground (arith, same))
  | inr other ↦ elim (cut_first-cases b s) [
    | inl (uncut, clean) ↦ inl (rw (other, uncut) refl, rw (other, clean) refl)
    | inr (x, rest, clean, there) ↦ inr (c ∷ x, rest, rw (other, clean) refl, ap (◌∷◌ c) there)
  ]
]

scan-has_colon : (s : Bytes) (n : ℕ) → has_byte b':' s ≡ true → scan s n ≡ none
scan-has_colon s n h = elim (Option-cases (scan s n)) [
  | inl failed_scan ↦ failed_scan
  | inr (m, there) ↦ ground (arith, h, scan-has_byte b':' s n m refl there)
]

scan_number-has_colon : (s : Bytes) → has_byte b':' s ≡ true → scan_number s ≡ none
unfolding scan_number
scan_number-has_colon [] h = refl
scan_number-has_colon (c ∷ s) h = scan-has_colon (c ∷ s) 0 h

atoi-has_colon : (s : Bytes) → has_byte b':' s ≡ true → atoi s ≡ none
unfolding atoi has_byte
atoi-has_colon [] h = refl
atoi-has_colon (c ∷ s) h =
    let whole = scan_number-has_colon (c ∷ s) h in
    elim (Bool-cases (has_byte b':' s)) [
      | inl in_rest ↦ (let rest = scan_number-has_colon s in_rest in ground (arith, whole, rest))
      | inr clean ↦ ground (arith, whole, clean)
    ]

nonempty_cons : (xs : List Bytes) → xs ≢ [] → (q : Bytes) × (ps : List Bytes) × (xs ≡ q ∷ ps)
nonempty_cons [] n = absurd (n refl)
nonempty_cons (q ∷ ps) n = (q, ps, refl)

split_on-has_byte :
    (b : ℕ) (s : Bytes)
    → has_byte b s ≡ true
    → (p : Bytes) × (q : Bytes) × (ps : List Bytes) × (split_on b s ≡ p ∷ q ∷ ps)
split_on-has_byte b s h = elim (cut_first-cases b s) [
  | inl (uncut, clean) ↦ ground (arith, h, clean)
  | inr (x, rest, clean, there) ↦
      (let (q, ps, parts) = nonempty_cons (split_on b rest) (split_on-nonempty b rest) in
        (x, q, ps, ap (split_on b) there ∙ (split_on-append b x rest clean ∙ ap (◌∷◌ x) parts)))
]

ctl_http_addr-cut :
    (x rest : Bytes)
    → has_byte b':' x ≡ false
    → ctl_http_addr (x ++ b':' ∷ rest) ≡ get_http_addr (x ++ b':' ∷ rest)
unfolding ctl_http_addr get_http_addr
ctl_http_addr-cut x rest clean = elim (Bool-cases (has_byte b':' rest)) [
  | inl again ↦
      (let (p, q, ps, parts) = split_on-has_byte b':' rest again in
        rw
          (
            ctl_http_addr,
            get_http_addr,
            cut_first-append b':' x rest clean,
            split_on-append b':' x rest clean,
            parts,
            atoi-has_colon rest again,
          )
          refl)
  | inr once ↦
      rw
        (
          ctl_http_addr,
          get_http_addr,
          cut_first-append b':' x rest clean,
          split_on-append b':' x rest clean,
          split_on-no_byte b':' rest once,
        )
        refl
]

-- The two ways to split an address give the same HTTP address.
ctl_http_addr-eq : (addr : Bytes) → ctl_http_addr addr ≡ get_http_addr addr
unfolding ctl_http_addr get_http_addr
ctl_http_addr-eq addr = elim (cut_first-cases b':' addr) [
  | inl (uncut, clean) ↦
      rw (ctl_http_addr, get_http_addr, uncut, split_on-no_byte b':' addr clean) refl
  | inr (x, rest, clean, there) ↦
      subst (λ a. ctl_http_addr a ≡ get_http_addr a) (sym there) (ctl_http_addr-cut x rest clean)
]

ctl_status_url-eq : (addr : Bytes) → ctl_status_url addr ≡ status_url addr
unfolding ctl_status_url status_url
ctl_status_url-eq addr =
    ap (λ a. codes "http://" ++ a ++ codes "/raft/status") (ctl_http_addr-eq addr)

-- From an answer that names no leader whose name starts with "mimori-node", the command line tool learns
-- what the client library learns: whether an address leads, and where the leader is.
pub ctl_find_leader_from_node-eq :
    (fetch : Bytes → Option StatusAnswer) (addr : Bytes)
    → ((state leader_id : Bytes)
        → told_by (fetch (status_url addr)) ≡ some (state, leader_id)
        → has_prefix (trim_space leader_id) (codes "mimori-node") ≡ false)
    → (ctl_verify_leader fetch addr ≡ verify_leader fetch addr)
      × (ctl_find_leader_from_node fetch addr ≡ find_leader_from_node fetch addr)
unfolding ctl_verify_leader verify_leader ctl_find_leader_from_node find_leader_from_node
ctl_find_leader_from_node-eq fetch addr no_docker =
    let url = ap (λ u. told_by (fetch u)) (ctl_status_url-eq addr) in
    elim (Option-cases (told_by (fetch (status_url addr)))) [
      | inl silent ↦
          rw
            (
              ctl_verify_leader, verify_leader, ctl_find_leader_from_node, find_leader_from_node,
              url, silent,
            )
            (refl, refl)
      | inr ((state, leader_id), answer) ↦
          rw
            (
              ctl_verify_leader,
              verify_leader,
              ctl_find_leader_from_node,
              find_leader_from_node,
              url,
              answer,
              ctl_normalize_leader_addr-eq addr leader_id (no_docker state leader_id answer),
            )
            (refl, refl)
    ]
