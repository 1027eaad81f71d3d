-- ===== src/Protocol.antt =====
-- raft-core/src/protocol: commands, log entries, messages, events and actions. `NodeId`, `Term` and
-- `LogIndex` are `u64`.
use raft_craft.Prelude.{ℕ, String, Bool, List, Option}

abbrev pub NodeId : Type 0
NodeId = ℕ

abbrev pub Term : Type 0
Term = ℕ

abbrev pub LogIndex : Type 0
LogIndex = ℕ

pub data Op : Type 0 where
  set : (key value : String) → Op
  delete : (key : String) → Op

pub record Command : Type 0 where
  pub op : Op

pub record LogEntry : Type 0 where
  pub term : Term
  pub index : LogIndex
  pub command : Command

pub record RequestVote : Type 0 where
  pub term : Term
  pub candidate_id : NodeId
  pub last_log_index : LogIndex
  pub last_log_term : Term

pub record RequestVoteResponse : Type 0 where
  pub term : Term
  pub vote_granted : Bool
  pub vote_from : NodeId

pub record AppendEntries : Type 0 where
  pub term : Term
  pub leader_id : NodeId
  pub prev_log_index : LogIndex
  pub prev_log_term : Term
  pub entries : List LogEntry
  pub leader_commit : LogIndex

pub record AppendEntriesResponse : Type 0 where
  pub term : Term
  pub success : Bool
  pub from : NodeId
  pub match_index : LogIndex

pub data Message : Type 0 where
  request_vote : RequestVote → Message
  request_vote_response : RequestVoteResponse → Message
  append_entries : AppendEntries → Message
  append_entries_response : AppendEntriesResponse → Message

pub data Event : Type 0 where
  message : Message → Event
  election_timeout : Event
  heartbeat_timeout : Event
  client_request : Command → Event

pub data Action : Type 0 where
  send : NodeId → Message → Action
  reset_election_timer : Action
  reset_heartbeat_timer : Action
  persist_state : Action
  not_leader : Option NodeId → Action
  apply_command : Command → Action

abbrev pub set_command : String → String → Command
set_command key value = record { op = Op.set key value }

abbrev pub delete_command : String → Command
delete_command key = record { op = delete key }

-- `Command::default`.
abbrev pub default_command : Command
default_command = set_command "key" "value"
