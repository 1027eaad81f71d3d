-- ===== src/Raft/Heartbeat.antt =====
-- raft-core/src/raft/heartbeat.rs: what a leader sends to each peer. Indexing out of range panics:
-- `none`.
use raft_craft.Prelude.{
  ℕ, zero, suc, ◌-◌, ◌==◌, not, List, [], ◌∷◌, Option, none, some, leb, length, get_elem?, filter,
  find, map_or, if◌then◌else◌, ◌>>=◌,
}
use raft_craft.Protocol.{
  LogIndex, Term, Action, send, reset_heartbeat_timer, AppendEntries, append_entries,
}
use raft_craft.Raft.State.{Raft, LeaderState, is_leader}

unfoldable pub prev_log_info : Raft → LogIndex → LogIndex × Term
prev_log_info r next_index =
    if leb next_index 1
    then (0, 0)
    else (let prev_index = next_index - 1 in
        (prev_index, map_or 0 (λ e. e.term) (find (λ e. e.index == prev_index) r.log)))

unfoldable pub append_entries_msg : Raft → LogIndex → AppendEntries
append_entries_msg r next_index = record {
  term = r.current_term;
  leader_id = r.id;
  prev_log_index = (prev_log_info r next_index).0;
  prev_log_term = (prev_log_info r next_index).1;
  entries = filter (λ e. leb next_index e.index) r.log;
  leader_commit = r.commit_index;
}

-- `map_or(1, |ls| ls.next_index[peer_index])`.
unfoldable pub next_index_of : Option LeaderState → ℕ → Option LogIndex
next_index_of none peer_index = some 1
next_index_of (some ls) peer_index = get_elem? ls.next_index peer_index

unfoldable pub append_entries_for_peer : Raft → ℕ → Option Action
append_entries_for_peer r peer_index = do
  peer_id ← get_elem? r.peers peer_index
  next_index ← next_index_of r.leader_state peer_index
  some (send peer_id (append_entries (append_entries_msg r next_index)))

-- `for i in 0..peer_count`, with `todo` rounds left from `i`.
unfoldable pub append_entries_from : Raft → ℕ → ℕ → Option (List Action)
append_entries_from r i zero = some []
append_entries_from r i (suc todo) = do
  action ← append_entries_for_peer r i
  actions ← append_entries_from r (suc i) todo
  some (action ∷ actions)

unfoldable pub handle_heartbeat_timeout : Raft → Option (Raft × List Action)
handle_heartbeat_timeout r = if not (is_leader r.role) then some (r, []) else (do
  actions ← append_entries_from r 0 (length r.peers)
  some (r, reset_heartbeat_timer ∷ actions))
