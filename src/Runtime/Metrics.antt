-- ===== src/Runtime/Metrics.antt =====
-- raft-runtime/src/metrics.rs: what a node shows of itself. The lock is held for one call each, and
-- only the node writes.
pub mod Window
use raft_craft.Prelude.{
  ℕ, String, List, [], ◌∷◌, ◌++◌, Option, none, leb, length, drop, if◌then◌else◌,
}
use raft_craft.Protocol.{NodeId}
use raft_craft.Raft.State.{Role, follower}

abbrev pub message_log_cap : ℕ
message_log_cap = 200

pub record MessageEvent : Type 0 where
  pub tick : ℕ
  pub from : NodeId
  pub to : NodeId
  pub label : String

-- `Inner`, and `MetricsSnapshot` with the same fields. The log is oldest first.
pub record Metrics : Type 0 where
  pub node_id : NodeId
  pub role : Role
  pub term : ℕ
  pub commit_index : ℕ
  pub last_applied : ℕ
  pub log_length : ℕ
  pub leader_id : Option NodeId
  pub message_log : List MessageEvent

abbrev pub MetricsSnapshot : Type 0
MetricsSnapshot = Metrics

unfoldable pub new_metrics : NodeId → Metrics
new_metrics id = record {
  node_id = id;
  role = follower;
  term = 0;
  commit_index = 0;
  last_applied = 0;
  log_length = 0;
  leader_id = none;
  message_log = [];
}

unfoldable pub snapshot : Metrics → MetricsSnapshot
snapshot m = m

unfoldable pub update : Metrics → Role → ℕ → ℕ → ℕ → ℕ → Option NodeId → Metrics
update m role term commit_index last_applied log_length leader_id = record m {
  role = role;
  term = term;
  commit_index = commit_index;
  last_applied = last_applied;
  log_length = log_length;
  leader_id = leader_id;
}

-- `pop_front` drops the oldest.
unfoldable pub record_message : Metrics → MessageEvent → Metrics
record_message m event = record m {
  message_log =
      (if leb message_log_cap (length m.message_log) then drop 1 m.message_log else m.message_log)
      ++ event ∷ [];
}
