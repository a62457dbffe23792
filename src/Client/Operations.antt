-- ===== src/Client/Operations.antt =====
-- client/client.go: `Put`, `Get`, `GetWithOptions`, `Delete` and `Health`, over the generated client of the
-- key-value service.
pub mod Nodes
pub mod Served
pub mod Redirected
use mimori.Api.{DeleteRequest, GetRequest, PutRequest}
use mimori.Client.Retry.{CallError, Execution, Network, execute_with_retry}
use mimori.Prelude.{Bool, List, Option, [], false, none, some, true, ℕ, ◌∷◌}
use mimori.Raft.State.{Bytes}

-- What a call at an address brings: an error, also where no connection is made, or the response.
pub data Reply (A : Type 0) : Type 0 where
  lost : CallError → Reply A
  got : A → Reply A

-- The generated `kv.KVClient`, with `getKVClient` in front: what a request brings in an attempt at an
-- address.  The responses of `Put`, `Delete` and `Health` hold nothing that the client reads.
pub record KvClient : Type 0 where
  pub on_put : (attempt : ℕ) → Bytes → PutRequest → Reply (Unit {0})
  pub on_get : (attempt : ℕ) → Bytes → GetRequest → Reply (Bytes × Bool)
  pub on_delete : (attempt : ℕ) → Bytes → DeleteRequest → Reply (Unit {0})
  pub on_health : (attempt : ℕ) → Bytes → Reply (Unit {0})

-- `Client`, without its connections and timeouts.
pub record Client : Type 0 where
  pub seeds : List Bytes
  pub max_retries : ℕ
  pub leader_addr : Bytes

abbrev pub error_of : {A : Type 0} → Reply A → Option CallError
error_of (lost e) = some e
error_of (got a) = none

abbrev pub response_of : {A : Type 0} → Reply A → Option A
response_of (lost e) = none
response_of (got a) = some a

-- The network whose calls are the requests of one operation.
abbrev pub calling : {A : Type 0} → Network → ((attempt : ℕ) → Bytes → Reply A) → Network
calling net ask = record net { call = λ attempt addr. error_of (ask attempt addr) }

-- The variable `resp` behind the calls.
unfoldable pub resp_after :
    {A : Type 0} → ((attempt : ℕ) → Bytes → Reply A) → List (ℕ × Bytes) → Option A → Option A
resp_after ask [] resp = resp
resp_after ask ((attempt, addr) ∷ called) resp =
    resp_after ask called (response_of (ask attempt addr))

-- What `GetWithOptions` returns; `no_response` is the use of a response that is nil.
pub data GetResult : Type 0 where
  get_failed no_response : GetResult
  value_of : (value : Bytes) (is_found : Bool) → GetResult

unfoldable pub get_result : (succeeded : Bool) → Option (Bytes × Bool) → GetResult
get_result false resp = get_failed
get_result true none = no_response
get_result true (some (value, is_found)) = value_of value is_found

module _ (net : Network) (kv : KvClient) where
  unfoldable pub executed : {A : Type 0} → Client → ((attempt : ℕ) → Bytes → Reply A) → Execution
  unfolding execute_with_retry
  executed c ask = execute_with_retry c.max_retries (calling net ask) c.seeds c.leader_addr

  -- The client afterwards, and whether the error is nil.
  unfoldable pub finished : Client → Execution → Client × Bool
  finished c x = (record c { leader_addr = x.leader_addr }, x.succeeded)

  -- `Put`
  unfoldable pub client_put : (key value : Bytes) → Client → Client × Bool
  unfolding executed finished
  client_put key value c =
      finished c (executed c (λ k addr. kv.on_put k addr (record { key = key; value = value })))

  -- `Delete`
  unfoldable pub client_delete : (key : Bytes) → Client → Client × Bool
  unfolding executed finished
  client_delete key c =
      finished c (executed c (λ k addr. kv.on_delete k addr (record { key = key })))

  -- `Health`
  unfoldable pub client_health : Client → Client × Bool
  unfolding executed finished
  client_health c = finished c (executed c (λ k addr. kv.on_health k addr))

  -- `GetWithOptions`
  unfoldable pub get_with_options : (key : Bytes) (allow_stale : Bool) → Client → Client × GetResult
  unfolding executed finished resp_after get_result
  get_with_options key allow_stale c =
      let ask : ℕ → Bytes → Reply (Bytes × Bool) =
        λ k addr. kv.on_get k addr (record { key = key; allow_stale = allow_stale }) in
      let x = executed c ask in
      ((finished c x).0, get_result x.succeeded (resp_after ask x.called none))

  -- `Get`
  unfoldable pub client_get : (key : Bytes) → Client → Client × GetResult
  unfolding get_with_options
  client_get key c = get_with_options key false c
