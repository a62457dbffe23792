-- ===== src/Client/Operations/Redirected.antt =====
-- How a put of client/client.go follows the refusal of a follower of internal/api/server.go to the leader.
use mathlib.Core.Path.{ap₂}
use mathlib.Core.Option.{some-injective}
use mimori.Api.{
  PutRequest, after_applied, encode_put_cmd, message, propose_write, put_key, write_not_leader,
  write_refused,
}
use mimori.Api.Writes.{propose_write-leader}
use mimori.Client.{extract_leader_hint}
use mimori.Client.Address.{normalize_leader_addr}
use mimori.Client.Hint.{IsPlain, extract_leader_hint-message}
use mimori.Client.Operations.{calling, client_put, error_of, executed, finished}
use mimori.Client.Operations.Nodes.{Course, Site, refusal_error, served_by, wait_ends, write_reply}
use mimori.Client.Retry.{
  Network, address_for, discover_leader, get_leader, hint_of, is_leader_error,
}
use mimori.Client.Retry.Outcome.{execute_with_retry-redirect}
use mimori.Prelude.{
  Bool, List, Option, [], ap, false, length, none, refl, some, suc, true, ℕ, ◌+◌, ◌<◌, ◌∙◌, ◌∷◌,
  ◌≡◌,
}
use mimori.Raft.Log.{last_log_index}
use mimori.Raft.Query.{is_leader}
use mimori.Raft.State.{Bytes, NodeId, Raft}
use mimori.Store.{Pebble}
use mimori.Store.Laws.{bytes_eq}
use mimori.Utils.{codes}

refusal_error-redirects :
    (leader_id : NodeId)
    → IsPlain (codes leader_id)
    → 0 < length (codes leader_id)
    → (is_leader_error (refusal_error (write_not_leader leader_id)) ≡ true)
      × (hint_of (refusal_error (write_not_leader leader_id)) ≡ some (codes leader_id))
unfolding is_leader_error hint_of refusal_error message
refusal_error-redirects leader_id plain named =
    let (msg, told_text, hint) =
      extract_leader_hint-message (λ id. codes id) (write_not_leader leader_id) leader_id refl plain
        named in
    (refl, ap extract_leader_hint (some-injective _ _ told_text) ∙ hint)

put_key-follower :
    (req : PutRequest) (r : Raft)
    → is_leader r ≡ false
    → (put_key req r).1 ≡ write_refused (write_not_leader r.leader_id)
unfolding put_key propose_write
put_key-follower req r follows = rw follows refl

put_key-leader :
    (req : PutRequest) (r : Raft)
    → is_leader r ≡ true
    → (put_key req r).1 ≡ after_applied (last_log_index r + 1)
unfolding put_key
put_key-leader req r leads = (propose_write-leader (encode_put_cmd req.key req.value) r leads).1

module _ {DB WriteBatch : Type 0} (db : Pebble DB WriteBatch) (net : Network) (course : Course)
    (site_at : ℕ → Bytes → Option (Site DB)) where
  on_put-refused :
      (req : PutRequest) (k : ℕ) (addr : Bytes) (s : Site DB)
      → site_at k addr ≡ some s
      → is_leader s.raft ≡ false
      → error_of ((served_by db course site_at).on_put k addr req)
        ≡ some (refusal_error (write_not_leader s.raft.leader_id))
  unfolding served_by write_reply
  on_put-refused req k addr s there follows = rw (there, put_key-follower req s.raft follows) refl

  on_put-done :
      (req : PutRequest) (k : ℕ) (addr : Bytes) (s : Site DB)
      → site_at k addr ≡ some s
      → is_leader s.raft ≡ true
      → wait_ends (course.events k addr) (last_log_index s.raft + 1) s ≡ true
      → error_of ((served_by db course site_at).on_put k addr req) ≡ none
  unfolding served_by write_reply
  on_put-done req k addr s there leads applied =
      rw (there, put_key-leader req s.raft leads, applied) refl

  -- A put with two attempts at least that goes to a follower first, which knows a leader by a name without
  -- white space and delimiters, succeeds and the client keeps that leader, when the name leads from the first
  -- seed to an address that says that it leads, and there a leader stands at which the wait for the index behind
  -- its last one ends in time.
  pub client_put-redirect :
      (key value : Bytes) (n : ℕ) (seed : Bytes) (seeds : List Bytes) (leader_addr addr : Bytes)
      (s t : Site DB)
      → address_for net 0 (seed ∷ seeds) leader_addr ≡ some addr
      → site_at 0 addr ≡ some s
      → is_leader s.raft ≡ false
      → IsPlain (codes s.raft.leader_id)
      → 0 < length (codes s.raft.leader_id)
      → bytes_eq (normalize_leader_addr seed (codes s.raft.leader_id)) [] ≡ false
      → net.verify_leader 1 (normalize_leader_addr seed (codes s.raft.leader_id)) ≡ true
      → site_at 1 (normalize_leader_addr seed (codes s.raft.leader_id)) ≡ some t
      → is_leader t.raft ≡ true
      → wait_ends
          (course.events 1 (normalize_leader_addr seed (codes s.raft.leader_id)))
          (last_log_index t.raft + 1)
          t
        ≡ true
      → client_put net
          (served_by db course site_at)
          key
          value
          (record { seeds = seed ∷ seeds; max_retries = suc (suc n); leader_addr = leader_addr })
        ≡ (
          record {
            seeds = seed ∷ seeds;
            max_retries = suc (suc n);
            leader_addr = normalize_leader_addr seed (codes s.raft.leader_id);
          },
          true,
        )
  unfolding client_put executed finished address_for get_leader discover_leader
  client_put-redirect key value n seed seeds leader_addr addr s t start there follows plain named
        dialed_next says there_next leads applied =
      let req : PutRequest = record { key = key; value = value } in
      let (redirects, hinted) = refusal_error-redirects s.raft.leader_id plain named in
      let x =
        execute_with_retry-redirect n
          (calling net (λ k a. (served_by db course site_at).on_put k a req)) seed seeds leader_addr
          addr (refusal_error (write_not_leader s.raft.leader_id)) (codes s.raft.leader_id) start
          (on_put-refused req 0 addr s there follows) redirects hinted dialed_next says
          (on_put-done req 1 _ t there_next leads applied) in
      ap₂
        (λ (l : Bytes) (b : Bool).
          (record { seeds = seed ∷ seeds; max_retries = suc (suc n); leader_addr = l }, b))
        x.2 x.0
