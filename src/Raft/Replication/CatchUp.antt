-- ===== src/Raft/Replication/CatchUp.antt =====
-- heartbeat.rs with append_entries.rs: a leader and one follower, round by round, until the
-- leader has found where their logs agree.
pub mod Replies
pub mod Rounds
use raft_craft.Prelude.{
  drop, get_elem?-lt, ℕ, zero, suc, ◌+◌, ◌-◌, ◌≤◌, ◌<◌, ◌==◌, ◌≡◌, refl, sym, ap, ◌∙◌, inl, inr,
  Bool, true, false, List, [], ◌∷◌, Option, none, some, arith, ltb, max, length, get_elem?,
  position, get_elem?-in_range, get_elem?-set_self, get_elem?-lt, Bool-cases, ◌>>=◌,
}
use raft_craft.Protocol.{
  NodeId, LogEntry, LogIndex, AppendEntries, AppendEntriesResponse, Action, send, append_entries,
  append_entries_response as response_message,
}
use raft_craft.Raft.State.{Raft, LeaderState, is_leader}
use raft_craft.Raft.Vote.{catch_up, step_down}
use raft_craft.Raft.AppendEntries.{
  log_matches, revert_candidate, handle_append_entries, receive_entries, accept_entries, accepted,
  append_entries_response, back_up, advance_peer, advance_commit_index, try_advance_commit_index,
  record_reply, reply_of_peer, handle_append_entries_response, advance_follower_commit,
}
use raft_craft.Raft.Heartbeat.{append_entries_msg, append_entries_for_peer, next_index_of}
use raft_craft.Raft.Apply.{apply_committed_entries-frame}
use raft_craft.Raft.Log.Numbered.{IsNumbered}
use raft_craft.Raft.Replication.{
  term_at, append_entries_msg_lem, prepared, prepared-log, catch_up_current, same_log_matches,
}
use raft_craft.Raft.Replication.Exchange.{exchange-replicates, exchange-confirms}

-- The `AppendEntries` that an action sends, and the first reply among some actions.
abbrev pub request_in : Action → Option AppendEntries
request_in (send to (append_entries m)) = some m
request_in _ = none

abbrev pub reply_in : List Action → Option AppendEntriesResponse
reply_in [] = none
reply_in (send to (response_message m) ∷ actions) = some m
reply_in (_ ∷ actions) = reply_in actions

-- One round: what a heartbeat of the leader sends to its peer `i` reaches that peer, and the
-- reply reaches the leader. The states of both after it.
unfoldable pub round : ℕ → Raft → Raft → Option (Raft × Raft)
round i leader follower = do
  action ← append_entries_for_peer leader i
  m ← request_in action
  let (follower', actions) = handle_append_entries follower m
  reply ← reply_in actions
  p ← handle_append_entries_response leader reply
  some (p.0, follower')

abbrev pub rounds : ℕ → ℕ → Raft → Raft → Option (Raft × Raft)
rounds zero i leader follower = some (leader, follower)
rounds (suc k) i leader follower = do p ← round i leader follower; rounds k i p.0 p.1

-- A leader whose peer `i` is the follower, and next index for it is `n + 1`.
pub record InTouch (i n : ℕ) (l f : Raft) : Type 0 where
  pub leads : is_leader l.role ≡ true
  pub peer : position (λ id. id == f.id) l.peers ≡ some i
  pub state : LeaderState
  pub kept : l.leader_state ≡ some state
  pub next : get_elem? state.next_index i ≡ some (suc n)
  pub shaped : i < length state.match_index
  pub leader_numbered : IsNumbered 1 l.log
  pub follower_numbered : IsNumbered 1 f.log
  pub current : f.current_term ≤ l.current_term
  pub within : n ≤ length l.log
