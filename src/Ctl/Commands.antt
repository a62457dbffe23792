-- ===== src/Ctl/Commands.antt =====
-- What the commands of cmd/mimorictl/main.go fetch and show.
use mimori.Client.{has_prefix}
use mimori.Client.Retry.{Execution, Network, lower_case}
use mimori.Ctl.{ctl_http_addr, ctl_normalize_leader_addr}
use mimori.Ctl.Manager.{Dialer, change_call_error, ctl_execute_with_retry, no_conns}
use mimori.Prelude.{
  Bool, List, Option, [], false, if◌then◌else◌, keep, none, not, some, ℕ, ◌&&◌, ◌++◌, ◌==◌, ◌||◌,
  ◌∷◌,
}
use mimori.Raft.Members.{ChangeAnswer}
use mimori.Raft.State.{Bytes}
use mimori.Store.Laws.{bytes_eq}
use mimori.Utils.{codes}
use mimori.Utils.Splits.{split_on}

-- The answer to a GET: the status code and the body, or `none` where the body cannot be read.
pub record HttpReply : Type 0 where
  pub code : ℕ
  pub body : Option Bytes

-- The body of a reply that counts.
unfoldable pub good_body : Option HttpReply → Option Bytes
good_body none = none
good_body (some reply) = elim reply.body [
  | none ↦ none
  | some body ↦ if reply.code == 200 then some body else none
]

unfoldable pub seed_url : (seed path : Bytes) → Bytes
unfolding ctl_http_addr
seed_url seed path = codes "http://" ++ ctl_http_addr seed ++ path

module _ (fetch : (url : Bytes) → Option HttpReply) where
  -- The loop of `mustHTTPGetFromSeeds`; `none` is the fatal end.
  unfoldable pub http_get_from_seeds : (path : Bytes) → (seeds : List Bytes) → Option Bytes
  unfolding good_body seed_url
  http_get_from_seeds path [] = none
  http_get_from_seeds path (seed ∷ seeds) =
      let rest = http_get_from_seeds path seeds in
      elim (good_body (fetch (seed_url seed path))) [ none ↦ rest | some body ↦ some body ]

  -- The loop of `mustDiscoverLeaderFromSeeds`; `decode` is what the JSON of a status holds, the state and
  -- the leader, or `none` for a body that does not decode.
  unfoldable pub discover_leader_from_seeds :
      (decode : Bytes → Option (Bytes × Bytes)) → (seeds : List Bytes) → Option Bytes
  unfolding good_body seed_url ctl_normalize_leader_addr
  discover_leader_from_seeds decode [] = none
  discover_leader_from_seeds decode (seed ∷ seeds) =
      let rest = discover_leader_from_seeds decode seeds in
      elim (good_body (fetch (seed_url seed (codes "/raft/status")))) [
        | none ↦ rest
        | some body ↦ elim (decode body) [
          | none ↦ rest
          | some (state, leader_id) ↦
              if bytes_eq (lower_case state) (codes "leader")
              then some seed
              else (if bytes_eq leader_id []
                  then rest
                  else some (ctl_normalize_leader_addr seed leader_id))
        ]
      ]

-- `keyMetrics`
abbrev pub key_metrics : List Bytes
key_metrics =
    codes "raft_node_is_leader"
    ∷ codes "raft_term"
    ∷ codes "raft_commit_index"
    ∷ codes "raft_last_applied_index"
    ∷ codes "raft_log_length"
    ∷ codes "raft_proposals_total"
    ∷ codes "raft_applied_total"
    ∷ codes "raft_snapshots_created_total"
    ∷ []

unfoldable pub starts_with_any : (metrics : List Bytes) → (line : Bytes) → Bool
starts_with_any [] line = false
starts_with_any (m ∷ ms) line =
    (has_prefix line m && not (has_prefix line (b'#' ∷ []))) || starts_with_any ms line

-- The lines that the command "metrics" prints of the body of /metrics.
unfoldable pub shown_metrics : (body : Bytes) → List Bytes
unfolding split_on starts_with_any
shown_metrics body = keep (λ line. starts_with_any key_metrics line) (split_on b'\n' body)

-- The address that the command "health" asks: the leader's, or else the text of the flag.
unfoldable pub health_addr : (known : Option Bytes) → (flag : Bytes) → Bytes
health_addr none flag = flag
health_addr (some leader_addr) flag = leader_addr

-- `doAddNode`, `doRemoveNode` and `doTransferLeadership`: three attempts, in which `ask` is the answer of
-- the node at an address, or `none` where the call itself fails with the error of `call`.
unfoldable pub change_network :
    Network → (ask : (attempt : ℕ) → Bytes → Option ChangeAnswer) → Network
unfolding change_call_error
change_network net ask = record net {
  call = λ attempt addr. elim (ask attempt addr) [
    | none ↦ net.call attempt addr
    | some answer ↦ change_call_error answer
  ];
}

unfoldable pub do_change :
    Network
    → Dialer
    → (ask : (attempt : ℕ) → Bytes → Option ChangeAnswer) → (initial : List Bytes) → Execution
unfolding change_network ctl_execute_with_retry
do_change net dialer ask initial =
    ctl_execute_with_retry 3 (change_network net ask) dialer initial no_conns []
