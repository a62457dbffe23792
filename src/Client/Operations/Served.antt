-- ===== src/Client/Operations/Served.antt =====
-- What the operations of client/client.go report of nodes whose handlers are those of
-- internal/api/server.go.
use mimori.Api.{
  GetRequest, PutRequest, ReadAnswer, WriteAnswer, after_applied, answered, propose_write, put_key,
  read_refused, write_refused,
}
use mimori.Api.Reads.{get_key_sound}
use mimori.Api.Writes.{put_key-proposes}
use mimori.Client.Operations.{
  Client, KvClient, Reply, calling, client_put, executed, finished, get_failed, get_result,
  get_with_options, got, lost, resp_after, response_of, value_of,
}
use mimori.Client.Operations.Nodes.{
  Course, Site, read_reply, reply_of, served_by, wait_ends, write_reply,
}
use mimori.Client.Retry.{CallError, Network}
use mimori.Client.Retry.Outcome.{LastSucceeded, execute_with_retry_sound}
use mimori.Mimorid.Replicated.{assigned, change_by}
use mimori.Prelude.{
  Bool, Bool-cases, List, Option, [], ap, arith, false, inl, inr, none, refl, some, str_eq, subst,
  sym, true, ℕ, ◌+◌, ◌-◌, ◌<◌, ◌∙◌, ◌∷◌, ◌≡◌, ◌⊎◌,
}
use mimori.Raft.Invariant.{WellFormed}
use mimori.Raft.Log.{entry_at, last_log_index}
use mimori.Raft.Query.{is_leader}
use mimori.Raft.State.{Bytes, LogEntry, Raft, follower, leader}
use mimori.Store.{Pebble, kv_get}

Reply-cases :
    {A : Type 0} (x : Reply A) → ((e : CallError) × (x ≡ lost e)) ⊎ ((a : A) × (x ≡ got a))
Reply-cases (lost e) = inl (e, refl)
Reply-cases (got a) = inr (a, refl)

-- The last call of those that ended in a success is one that was answered.
answered_call :
    {A : Type 0} (net : Network) (ask : ℕ → Bytes → Reply A) (cs : List (ℕ × Bytes))
    (resp : Option A)
    → LastSucceeded (calling net ask) cs
    → (k : ℕ) × (addr : Bytes) × (a : A) × (ask k addr ≡ got a) × (resp_after ask cs resp ≡ some a)
unfolding resp_after
answered_call net ask [] resp h = absurd h
answered_call net ask ((k, addr) ∷ []) resp h = elim (Reply-cases (ask k addr)) [
  | inl (e, fails) ↦ ground (arith, h, fails)
  | inr (a, there) ↦ (k, addr, a, there, ap response_of there)
]
answered_call net ask ((k, addr) ∷ d ∷ cs) resp (fails, h) =
    answered_call net ask (d ∷ cs) (response_of (ask k addr)) h

-- An operation that ends without an error was answered at its last call.
executed-answered :
    {A : Type 0} (net : Network) (kv : KvClient) (c : Client) (ask : ℕ → Bytes → Reply A)
    → (executed net kv c ask).succeeded ≡ true
    → (k : ℕ) × (addr : Bytes) × (a : A) × (ask k addr ≡ got a)
      × (resp_after ask (executed net kv c ask).called none ≡ some a)
unfolding executed
executed-answered net kv c ask done =
    let sound = execute_with_retry_sound c.max_retries (calling net ask) c.seeds c.leader_addr in
    elim sound.1 [
      | inl (reported, last) ↦ answered_call net ask _ none last
      | inr (reported, all) ↦ ground (arith, done, reported)
    ]

-- A get that succeeds returns the response of its last call.
get_with_options-answered :
    (net : Network) (kv : KvClient) (key : Bytes) (allow_stale : Bool) (c : Client)
    → let result = (get_with_options net kv key allow_stale c).1 in
      (result ≡ get_failed)
      ⊎ ((k : ℕ) × (addr : Bytes) × (value : Bytes) × (is_found : Bool) × (kv.on_get k addr
              (record { key = key; allow_stale = allow_stale })
            ≡ got (value, is_found))
          × (result ≡ value_of value is_found))
unfolding get_with_options get_result
get_with_options-answered net kv key allow_stale c =
    let ask : ℕ → Bytes → Reply (Bytes × Bool) =
      λ k addr. kv.on_get k addr (record { key = key; allow_stale = allow_stale }) in
    elim (Bool-cases (executed net kv c ask).succeeded) [
      | inl done ↦
          (let (k, addr, (value, is_found), there, resp) = executed-answered net kv c ask done in
            inr (k, addr, value, is_found, there, rw (done, resp) refl))
      | inr lost_all ↦ inl (rw lost_all refl)
    ]

reply_of-got :
    {A DB : Type 0} (reply : Site DB → Reply A) (o : Option (Site DB)) (a : A)
    → reply_of reply o ≡ got a
    → (s : Site DB) × (o ≡ some s) × (reply s ≡ got a)
reply_of-got reply none a h = ground (arith, h)
reply_of-got reply (some s) a h = (s, refl, h)

read_reply-got :
    (x : ReadAnswer) (value : Bytes) (is_found : Bool)
    → read_reply x ≡ got (value, is_found)
    → x ≡ answered value is_found
unfolding read_reply
read_reply-got (answered v f) value is_found h = ground (arith, h)
read_reply-got (read_refused e) value is_found h = ground (arith, h)

write_reply-got :
    (wait_ended : ℕ → Bool) (x : WriteAnswer) (a : Unit {0})
    → write_reply wait_ended x ≡ got a
    → (index : ℕ) × (x ≡ after_applied index) × (wait_ended index ≡ true)
unfolding write_reply
write_reply-got wait_ended (after_applied index) a h = elim (Bool-cases (wait_ended index)) [
  | inl ended ↦ (index, refl, ended)
  | inr waits ↦ ground (arith, h, waits)
]
write_reply-got wait_ended (write_refused e) a h = ground (arith, h)

after_applied_injective : (i j : ℕ) → after_applied i ≡ after_applied j → i ≡ j
after_applied_injective i j h = cc h

put_key-led :
    (req : PutRequest) (r : Raft) (index : ℕ)
    → (put_key req r).1 ≡ after_applied index
    → (is_leader r ≡ true) × (r.state ≡ leader)
unfolding put_key propose_write is_leader
put_key-led req r index h = ground arith

module _ {DB WriteBatch : Type 0} (db : Pebble DB WriteBatch) (net : Network) (course : Course)
    (site_at : ℕ → Bytes → Option (Site DB)) where
  -- What a get through the client returns is an error, or the value that the store of a node had for the
  -- key when it was asked: the node had not been removed, and it was the leader, or stale data are allowed
  -- and it was a follower that knew a leader and had reset its election timer less than four seconds ago, be it
  -- for that leader or for a vote.  A response that is nil is never used.
  pub get_with_options_sound :
      (key : Bytes) (allow_stale : Bool) (c : Client)
      → let result = (get_with_options net (served_by db course site_at) key allow_stale c).1 in
        (result ≡ get_failed)
        ⊎ ((k : ℕ) × (addr : Bytes) × (s : Site DB) × (value : Bytes) × (is_found : Bool) × (result
              ≡ value_of value is_found)
            × (site_at k addr ≡ some s)
            × (kv_get db key s.store ≡ some (value, is_found))
            × (s.raft.removed_from_cluster ≡ false)
            × ((s.raft.state ≡ leader)
                ⊎ ((allow_stale ≡ true)
                    × (s.raft.state ≡ follower)
                    × (str_eq s.raft.leader_id "" ≡ false)
                    × (course.now k addr - s.raft.election_reset < 4000))))
  unfolding get_with_options served_by get_result
  get_with_options_sound key allow_stale c =
      let kv = served_by db course site_at in
      let req : GetRequest = record { key = key; allow_stale = allow_stale } in
      elim (get_with_options-answered net kv key allow_stale c) [
        | inl lost_all ↦ inl lost_all
        | inr (k, addr, value, is_found, replied, returned) ↦
            (let (s, there, answer) = reply_of-got _ (site_at k addr) (value, is_found) replied in
              let sound =
                get_key_sound db (course.now k addr) req s.raft s.store value is_found
                  (read_reply-got _ value is_found answer) in
              inr (k, addr, s, value, is_found, returned, there, sound.0, sound.1, sound.2))
      ]

  -- When every node is well formed, a put through the client that succeeds was proposed by a leader: at the
  -- index behind its last one its log has an entry of its term, which the state machine reads as the
  -- assignment of the value to the key; and the channel that AppliedWait made for that index was closed before
  -- it answered, which the apply loop does for whichever entry stands at the index then.
  pub client_put-proposes :
      (key value : Bytes) (c : Client)
      → ((k : ℕ) (addr : Bytes) (s : Site DB) → site_at k addr ≡ some s → WellFormed s.raft)
      → (client_put net (served_by db course site_at) key value c).1 ≡ true
      → (k : ℕ) × (addr : Bytes) × (s : Site DB) × (e : LogEntry) × (site_at k addr ≡ some s)
        × (s.raft.state ≡ leader)
        × (wait_ends (course.events k addr) (last_log_index s.raft + 1) s ≡ true)
        × (entry_at
              (put_key (record { key = key; value = value }) s.raft).0
              (last_log_index s.raft + 1)
            ≡ some e)
        × (e.term ≡ s.raft.term)
        × (change_by key e ≡ assigned value)
  unfolding client_put finished served_by
  client_put-proposes key value c formed done =
      let kv = served_by db course site_at in
      let req : PutRequest = record { key = key; value = value } in
      let ask : ℕ → Bytes → Reply (Unit {0}) = λ k addr. kv.on_put k addr req in
      let (k, addr, a, replied, resp) = executed-answered net kv c ask done in
      let (s, there, answer) = reply_of-got _ (site_at k addr) a replied in
      let (index, proposed, ended) =
        write_reply-got (λ i. wait_ends (course.events k addr) i s) _ a answer in
      let leads = put_key-led req s.raft index proposed in
      let (e, behind, there_e, term, change) =
        put_key-proposes req s.raft (formed k addr s there) leads.0 in
      (
        k,
        addr,
        s,
        e,
        there,
        leads.1,
        subst (λ (i : ℕ). wait_ends (course.events k addr) i s ≡ true)
            (after_applied_injective index _ (sym proposed ∙ behind)) ended,
        there_e,
        term,
        change,
      )
