-- ===== src/Raft/Validity.antt =====
-- When the state of raft-core/src/lib.rs is well formed, and which events keep it so.
pub mod Elections
pub mod Replication
pub mod Leaders
pub mod Steps
use raft_craft.Prelude.{
  ℕ, suc, ◌+◌, ◌-◌, ◌≤◌, ◌<◌, ◌≡◌, true, false, List, Option, none, some, length, drop, u64_mod,
}
use raft_craft.Protocol.{
  AppendEntries, Message, append_entries, append_entries_response, request_vote,
  request_vote_response, Event, message, election_timeout, heartbeat_timeout, client_request,
}
use raft_craft.Raft.State.{Raft, Role, LeaderState, is_leader}
use raft_craft.Raft.AppendEntries.{log_matches}
use raft_craft.Raft.Log.Numbered.{IsNumbered}
use raft_craft.Raft.Log.Agreement.{AgreeBelow}

-- A leader has its vectors, and vectors have an entry for each peer.
abbrev pub HasShape : ℕ → Role → Option LeaderState → Type 0
HasShape n role none = is_leader role ≡ false
HasShape n role (some ls) = (length ls.next_index ≡ n) × (length ls.match_index ≡ n)

-- The entries carry the indices 1, 2, …; what is applied is committed and what is committed is
-- there; no index overflows.
pub record IsValid (r : Raft) : Type 0 where
  pub numbered : IsNumbered 1 r.log
  pub applied : r.last_applied ≤ r.commit_index
  pub committed : r.commit_index ≤ length r.log
  pub short : length r.log < u64_mod
  pub shaped : HasShape (length r.peers) r.role r.leader_state

-- What a message of a leader owes its receiver: its entries follow `prev_log_index` without gaps or
-- overflow; if it moves the receiver's commit index, it reaches to that index at least, so that the
-- commit index, which becomes the smaller of `leader_commit` and the last index of the message,
-- does not go back; and, if the logs match at `prev_log_index`, its entries do not contradict what
-- the receiver has committed.
pub record Respects (r : Raft) (m : AppendEntries) : Type 0 where
  pub follows : IsNumbered (suc m.prev_log_index) m.entries
  pub fits : m.prev_log_index + length m.entries < u64_mod
  pub advances :
      r.commit_index < m.leader_commit → r.commit_index ≤ m.prev_log_index + length m.entries
  pub agrees :
      log_matches r m.prev_log_index m.prev_log_term ≡ true
      → AgreeBelow (r.commit_index - m.prev_log_index) (drop m.prev_log_index r.log) m.entries

abbrev pub MessageRespects : Raft → Message → Type 0
MessageRespects r (append_entries m) = Respects r m
MessageRespects r (append_entries_response m) = Unit {0}
MessageRespects r (request_vote m) = Unit {0}
MessageRespects r (request_vote_response m) = Unit {0}

abbrev pub IsAdmissible : Raft → Event → Type 0
IsAdmissible r (message m) = MessageRespects r m
IsAdmissible r (client_request c) = suc (length r.log) < u64_mod
IsAdmissible r election_timeout = Unit {0}
IsAdmissible r heartbeat_timeout = Unit {0}
