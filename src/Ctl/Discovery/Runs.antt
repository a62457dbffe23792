-- ===== src/Ctl/Discovery/Runs.antt =====
-- `executeWithRetry` of cmd/mimorictl/client.go and of client/client.go, over the same servers.
use mathlib.Core.Path.{ap₂, fun_ext}
use mimori.Client.{has_prefix, trim_space}
use mimori.Client.Discovery.{
  StatusAnswer, find_leader_from_node, network_of, status_url, told_by, verify_leader,
}
use mimori.Client.Retry.{CallError, execute_with_retry}
use mimori.Ctl.Discovery.{ctl_find_leader_from_node, ctl_network_of, ctl_verify_leader}
use mimori.Ctl.Discovery.Alike.{ctl_find_leader_from_node-eq}
use mimori.Ctl.Manager.{Conns, Dialer, ctl_execute_with_retry}
use mimori.Ctl.Same.{FailsUndialed, NoDockerHint, OnlyInitial, ctl_execute_with_retry-eq}
use mimori.Prelude.{List, Option, ap, false, some, ℕ, ◌∙◌, ◌≡◌}
use mimori.Raft.State.{Bytes}
use mimori.Utils.{codes}

-- No status names a leader whose name starts with "mimori-node".
abbrev pub NoDockerLeader : ((attempt : ℕ) → (url : Bytes) → Option StatusAnswer) → Type 0
NoDockerLeader fetch =
    (attempt : ℕ) (addr state leader_id : Bytes)
    → told_by (fetch attempt (status_url addr)) ≡ some (state, leader_id)
    → has_prefix (trim_space leader_id) (codes "mimori-node") ≡ false

ctl_network_of-eq :
    (fetch : (attempt : ℕ) → (url : Bytes) → Option StatusAnswer)
    (call : (attempt : ℕ) → Bytes → Option CallError)
    → NoDockerLeader fetch
    → ctl_network_of fetch call ≡ network_of fetch call
unfolding ctl_network_of network_of
ctl_network_of-eq fetch call no_docker =
    let same : (attempt : ℕ) (addr : Bytes)
        → (ctl_verify_leader (fetch attempt) addr ≡ verify_leader (fetch attempt) addr)
          × (ctl_find_leader_from_node (fetch attempt) addr
              ≡ find_leader_from_node (fetch attempt) addr) =
      λ attempt addr.
        ctl_find_leader_from_node-eq (fetch attempt) addr
          (λ state leader_id. no_docker attempt addr state leader_id) in
    ap₂ (λ v f. record { verify_leader = v; find_leader_from_node = f; call = call })
      (fun_ext λ attempt. fun_ext λ addr. (same attempt addr).0)
      (fun_ext λ attempt. fun_ext λ addr. (same attempt addr).1)

-- Over the same answers to status requests and to calls, and from any cached connections of the tool: when
-- neither the statuses nor the refusals name a leader whose name starts with "mimori-node", no address leads to
-- a leader in an attempt in which no initial address does, and a call at an address that cannot be dialed fails
-- with an error that is no status, executeWithRetry of the command line tool makes the calls, reports the
-- outcome and keeps the leader that the client library does.
pub ctl_execute_with_retry-network_of :
    (max_retries : ℕ) (fetch : (attempt : ℕ) → (url : Bytes) → Option StatusAnswer)
    (call : (attempt : ℕ) → Bytes → Option CallError) (dialer : Dialer) (initial : List Bytes)
    (c : Conns) (leader_addr : Bytes)
    → OnlyInitial (network_of fetch call) initial
    → FailsUndialed (network_of fetch call) dialer
    → NoDockerLeader fetch
    → NoDockerHint (network_of fetch call)
    → ctl_execute_with_retry max_retries (ctl_network_of fetch call) dialer initial c leader_addr
      ≡ execute_with_retry max_retries (network_of fetch call) initial leader_addr
ctl_execute_with_retry-network_of max_retries fetch call dialer initial c leader_addr only undialed
      no_leader no_hint =
    ap (λ net. ctl_execute_with_retry max_retries net dialer initial c leader_addr)
      (ctl_network_of-eq fetch call no_leader)
    ∙ ctl_execute_with_retry-eq (network_of fetch call) dialer initial only undialed no_hint
        max_retries c leader_addr
