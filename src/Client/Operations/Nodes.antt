-- ===== src/Client/Operations/Nodes.antt =====
-- The nodes of internal/api/server.go as the client of client/client.go meets them: the answers of the
-- handlers `Put`, `Get`, `Delete` and `Health` as replies.
use mimori.Api.{
  ReadAnswer, Refusal, WriteAnswer, after_applied, answered, delete_key, get_key, message, put_key,
  read_refused, write_refused,
}
use mimori.Client.Operations.{KvClient, Reply, got, lost}
use mimori.Client.Retry.{CallError, other_error, status_error}
use mimori.Prelude.{Bool, List, Option, if◌then◌else◌, none, some, true, ℕ}
use mimori.Raft.Pool.Numbers.{nat_elem}
use mimori.Raft.State.{Bytes, Raft}
use mimori.Raft.Waiters.{Waiters, applied_wait}
use mimori.Raft.Waiters.Signals.{WaitEvent, wait_steps}
use mimori.Store.{Pebble}
use mimori.Utils.{codes}

-- A server when a request reaches it: its node, the node's waiters, and its store.
pub record Site (DB : Type 0) : Type 0 where
  pub raft : Raft
  pub waiters : Waiters
  pub store : DB

-- What the environment brings in an attempt at an address: the time, and what happens to the node's waiters
-- after a write was proposed and before the caller's deadline.
pub record Course : Type 0 where
  pub now : (attempt : ℕ) → Bytes → ℕ
  pub events : (attempt : ℕ) → Bytes → List WaitEvent

-- The channel of `AppliedWait` for the index is closed before the deadline.  The apply loop closes it for the
-- entry that stands at the index then.
unfoldable pub wait_ends : {DB : Type 0} → List WaitEvent → (index : ℕ) → Site DB → Bool
unfolding applied_wait wait_steps
wait_ends es index s =
    let asked_at = applied_wait index s.raft.last_applied s.waiters in
    nat_elem asked_at.1 (wait_steps es (s.raft.last_applied, asked_at.0)).1.closed

-- The error of a refusal; of the code and the text of the others the client reads nothing.
unfoldable pub refusal_error : Refusal → CallError
unfolding message
refusal_error e = elim (message (λ id. codes id) e) [
  | none ↦ other_error
  | some text ↦ status_error true text
]

unfoldable pub write_reply : (wait_ended : (index : ℕ) → Bool) → WriteAnswer → Reply (Unit {0})
unfolding refusal_error
write_reply wait_ended (after_applied index) = if wait_ended index then got tt else lost other_error
write_reply wait_ended (write_refused e) = lost (refusal_error e)

unfoldable pub read_reply : ReadAnswer → Reply (Bytes × Bool)
unfolding refusal_error
read_reply (answered value is_found) = got (value, is_found)
read_reply (read_refused e) = lost (refusal_error e)

-- What a node replies, if there is one.
abbrev pub reply_of : {A DB : Type 0} → (Site DB → Reply A) → Option (Site DB) → Reply A
reply_of reply none = lost other_error
reply_of reply (some s) = reply s

-- The service that the nodes offer that stand at the addresses in each attempt.
unfoldable pub served_by :
    {DB WriteBatch : Type 0}
    → Pebble DB WriteBatch
    → Course
    → ((attempt : ℕ) → Bytes → Option (Site DB))
    → KvClient
unfolding write_reply read_reply put_key get_key delete_key wait_ends
served_by db course site_at = record {
  on_put = λ k addr req.
      reply_of
        (λ s.
          write_reply (λ index. wait_ends (course.events k addr) index s) (put_key req s.raft).1)
        (site_at k addr);
  on_get = λ k addr req.
      reply_of (λ s. read_reply (get_key db (course.now k addr) req s.raft s.store))
        (site_at k addr);
  on_delete = λ k addr req.
      reply_of
        (λ s.
          write_reply (λ index. wait_ends (course.events k addr) index s) (delete_key req s.raft).1)
        (site_at k addr);
  on_health = λ k addr. reply_of (λ s. got tt) (site_at k addr);
}
