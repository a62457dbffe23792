-- ===== src/Tests/Operations.antt =====
-- Theorems about the client's operations, at concrete clients and nodes.
use mathlib.Core.Option.{some-injective}
use mimori.Api.{put_key}
use mimori.Client.Address.{base_host, dialable, normalize_leader_addr, uses_base_host}
use mimori.Client.Operations.{Client, client_put, finished, get_failed, get_with_options, value_of}
use mimori.Client.Operations.Nodes.{Course, Site, served_by, wait_ends}
use mimori.Client.Operations.Redirected.{client_put-redirect}
use mimori.Client.Operations.Served.{client_put-proposes, get_with_options_sound}
use mimori.Client.Retry.{Network, address_for, discover_leader, get_leader, other_error}
use mimori.Mimorid.Replicated.{assigned, change_by}
use mimori.Prelude.{
  Bool, List, Option, [], arith, false, if◌then◌else◌, none, refl, some, str_eq, subst, true, ℕ,
  ◌+◌, ◌-◌, ◌<◌, ◌∷◌, ◌≡◌, ◌⊎◌,
}
use mimori.Raft.Invariant.{WellFormed}
use mimori.Raft.Log.{entry_at, last_log_index}
use mimori.Raft.Query.{is_leader}
use mimori.Raft.State.{Bytes, LogEntry, follower, leader}
use mimori.Raft.Waiters.Signals.{entry_signalled, entry_taken, no_waiters}
use mimori.Store.{kv_get}
use mimori.Store.Laws.{bytes_eq}
use mimori.Tests.Database.{memory}
use mimori.Tests.Nodes.{chief, chief-WellFormed, voter}
use mimori.Utils.{codes}

-- The leader stands at every address and says so.
abbrev one_site : ℕ → Bytes → Option (Site (List (Bytes × Bytes)))
one_site k addr = some (record { raft = chief; waiters = no_waiters; store = [] })

-- The entry at the index 3 and those before it are taken and signalled before the deadline.
abbrev in_time : Course
in_time = record {
  now = λ k addr. 1000;
  events = λ k addr.
      entry_taken ∷ entry_signalled ∷ entry_taken ∷ entry_signalled ∷ entry_taken ∷ entry_signalled
      ∷ [];
}

abbrev says_so : Network
says_so = record {
  verify_leader = λ k addr. true;
  find_leader_from_node = λ k addr. some addr;
  call = λ k addr. some other_error;
}

abbrev fresh_client : Client
fresh_client = record { seeds = codes "localhost:4000" ∷ []; max_retries = 3; leader_addr = [] }

one_site-WellFormed :
    (k : ℕ) (addr : Bytes) (s : Site (List (Bytes × Bytes)))
    → one_site k addr ≡ some s
    → WellFormed s.raft
one_site-WellFormed k addr s there =
    subst (λ (t : Site (List (Bytes × Bytes))). WellFormed t.raft) (some-injective _ _ there)
      chief-WellFormed

client_put-proposes_example :
    (k : ℕ) × (addr : Bytes) × (s : Site (List (Bytes × Bytes))) × (e : LogEntry) × (one_site k addr
      ≡ some s)
    × (s.raft.state ≡ leader)
    × (wait_ends (in_time.events k addr) (last_log_index s.raft + 1) s ≡ true)
    × (entry_at
          (put_key (record { key = 1 ∷ []; value = 5 ∷ [] }) s.raft).0
          (last_log_index s.raft + 1)
        ≡ some e)
    × (e.term ≡ s.raft.term)
    × (change_by (1 ∷ []) e ≡ assigned (5 ∷ []))
unfolding client_put finished served_by wait_ends is_leader address_for get_leader discover_leader
client_put-proposes_example =
    client_put-proposes memory says_so in_time one_site (1 ∷ []) (5 ∷ []) fresh_client
      one_site-WellFormed refl

get_with_options_sound_example :
    ((get_with_options says_so (served_by memory in_time one_site) (1 ∷ []) false fresh_client).1
      ≡ get_failed)
    ⊎ ((k : ℕ) × (addr : Bytes) × (s : Site (List (Bytes × Bytes))) × (value : Bytes)
        × (is_found : Bool) × ((get_with_options says_so
              (served_by memory in_time one_site)
              (1 ∷ [])
              false
              fresh_client).1
            ≡ value_of value is_found)
        × (one_site k addr ≡ some s)
        × (kv_get memory (1 ∷ []) s.store ≡ some (value, is_found))
        × (s.raft.removed_from_cluster ≡ false)
        × ((s.raft.state ≡ leader)
            ⊎ ((false ≡ true)
                × (s.raft.state ≡ follower)
                × (str_eq s.raft.leader_id "" ≡ false)
                × (1000 - s.raft.election_reset < 4000))))
get_with_options_sound_example =
    get_with_options_sound memory says_so in_time one_site (1 ∷ []) false fresh_client

-- The first seed is a follower that knows the leader by the name ":4002", which leads to the other address.
abbrev second_address : Bytes
second_address = codes "localhost:4002"

abbrev follower_site : Site (List (Bytes × Bytes))
follower_site = record {
  raft = record voter { leader_id = ":4002" };
  waiters = no_waiters;
  store = [];
}

abbrev leader_site : Site (List (Bytes × Bytes))
leader_site = record { raft = chief; waiters = no_waiters; store = [] }

abbrev two_sites : ℕ → Bytes → Option (Site (List (Bytes × Bytes)))
two_sites k addr = if bytes_eq addr second_address then some leader_site else some follower_site

abbrev second_leads : Network
second_leads = record {
  verify_leader = λ k addr. bytes_eq addr second_address;
  find_leader_from_node = λ k addr. none;
  call = λ k addr. some other_error;
}

client_put-redirect_example :
    client_put second_leads (served_by memory in_time two_sites) (1 ∷ []) (5 ∷ []) fresh_client
    ≡ (record fresh_client { leader_addr = second_address }, true)
unfolding address_for get_leader discover_leader wait_ends last_log_index normalize_leader_addr
    base_host dialable uses_base_host is_leader
client_put-redirect_example =
    client_put-redirect memory second_leads in_time two_sites (1 ∷ []) (5 ∷ []) 1
      (codes "localhost:4000") [] [] (codes "localhost:4000") follower_site leader_site refl refl
      refl (refl, refl, (refl, refl, (refl, refl, (refl, refl, (refl, refl, tt))))) (omega arith)
      refl refl refl refl refl
