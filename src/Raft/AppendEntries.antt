-- ===== src/Raft/AppendEntries.antt =====
-- raft-core/src/raft/append_entries.rs: the follower's side of replication, the leader's bookkeeping
-- of the replies, and the commit index. Indexing out of range panics: `none`.
use raft_craft.Prelude.{
  ℕ, zero, suc, ◌+◌, ◌-◌, ◌==◌, Bool, false, true, not, ◌&&◌, List, [], ◌∷◌, ◌++◌, Option, none,
  some, ltb, leb, min, max, get_elem?, set, take, last, is_some, count, find, any, position, map_or,
  wrapping_add, if◌then◌else◌, ◌>>=◌,
}
use mathlib.Core.List.{reverse}
use raft_craft.Protocol.{
  NodeId, LogIndex, Term, LogEntry, Action, send, reset_election_timer, persist_state,
  apply_command, AppendEntries, AppendEntriesResponse,
  append_entries_response as append_entries_response_message,
}
use raft_craft.Raft.State.{
  Raft, LeaderState, follower, is_candidate, is_leader, quorum, last_log_index, with_log,
  with_commit_index, with_last_applied,
}
use raft_craft.Raft.Vote.{step_down, catch_up}

unfoldable pub log_matches : Raft → LogIndex → Term → Bool
log_matches r index term =
    if index == 0 then true else any (λ e. (e.index == index) && (e.term == term)) r.log

-- The entry at `pos` exists where `position` found it.
abbrev pub conflicts_at : List LogEntry → ℕ → LogEntry → Bool
conflicts_at log pos new_entry =
    map_or false (λ e. not (e.term == new_entry.term)) (get_elem? log pos)

-- The loop over `msg.entries`: `new_entry ∷ rest` is `msg.entries[i..]`.
unfoldable pub reconcile : List LogEntry → List LogEntry → List LogEntry
reconcile log [] = log
reconcile log (new_entry ∷ rest) =
    let skipped = reconcile log rest in
    elim (position (λ e. e.index == new_entry.index) log) [
      | none ↦ log ++ new_entry ∷ rest
      | some pos ↦
          if conflicts_at log pos new_entry then take pos log ++ new_entry ∷ rest else skipped
    ]

-- `last_new_index`.
abbrev pub last_new_index : AppendEntries → LogIndex
last_new_index msg = map_or msg.prev_log_index (λ e. e.index) (last msg.entries)

unfoldable pub advance_follower_commit : Raft → AppendEntries → Raft
advance_follower_commit r msg =
    if ltb r.commit_index msg.leader_commit
    then with_commit_index r (min msg.leader_commit (last_new_index msg))
    else r

-- The `while` loop, with `todo` rounds left: `commit_index - last_applied` of them are enough.
unfoldable pub apply_loop : ℕ → Raft → Raft × List Action
apply_loop zero r = (r, [])
apply_loop (suc todo) r =
    let target = wrapping_add r.last_applied 1 in
    let r' = with_last_applied r target in
    let rest = apply_loop todo r' in
    if ltb r.last_applied r.commit_index
    then (
      rest.0,
      map_or rest.1 (λ e. apply_command e.command ∷ rest.1) (find (λ e. e.index == target) r.log),
    )
    else (r, [])

unfoldable pub apply_committed_entries : Raft → Raft × List Action
apply_committed_entries r = apply_loop (r.commit_index - r.last_applied) r

unfoldable pub append_entries_response : Raft → NodeId → Bool → Action
append_entries_response r leader_id success = send leader_id (
    append_entries_response_message (record {
      term = r.current_term;
      success = success;
      from = r.id;
      match_index = if success then last_log_index r else 0;
    }))

-- "A candidate receiving a valid AppendEntries must revert to follower".
unfoldable pub revert_candidate : Raft → Raft
revert_candidate r =
    if is_candidate r.role then record r { role = follower; candidate_state = none } else r

-- From the line after the consistency check on, up to the commit index.
abbrev pub accepted : Raft → AppendEntries → Raft
accepted r msg =
    advance_follower_commit
      (with_log (record r { known_leader = some msg.leader_id }) (reconcile r.log msg.entries)) msg

unfoldable pub accept_entries : Raft → AppendEntries → Raft × List Action
accept_entries r msg =
    let applied = apply_committed_entries (accepted r msg) in
    (
      applied.0,
      persist_state
          ∷ reset_election_timer
          ∷ append_entries_response applied.0 msg.leader_id true
          ∷ applied.1,
    )

unfoldable pub receive_entries : Raft → AppendEntries → Raft × List Action
receive_entries r msg =
    if ltb msg.term r.current_term
    then (r, append_entries_response r msg.leader_id false ∷ [])
    else (let r' = revert_candidate r in
        if not (log_matches r' msg.prev_log_index msg.prev_log_term)
        then (r', append_entries_response r' msg.leader_id false ∷ [])
        else accept_entries r' msg)

unfoldable pub handle_append_entries : Raft → AppendEntries → Raft × List Action
handle_append_entries r msg = receive_entries (catch_up r msg.term) msg

-- The scan of the log from its end, for the highest index that may be committed. `current_commit`
-- if there is none.
unfoldable pub scan_commit : Term → LogIndex → ℕ → List LogIndex → List LogEntry → LogIndex
scan_commit current_term current_commit quorum peer_matches [] = current_commit
scan_commit current_term current_commit quorum peer_matches (entry ∷ below) =
    let lower = scan_commit current_term current_commit quorum peer_matches below in
    if leb entry.index current_commit
    then current_commit
    else if not (entry.term == current_term)
    then lower
    else if leb quorum (1 + count (λ m. leb entry.index m) peer_matches)
    then entry.index
    else lower

abbrev pub peer_matches : Raft → List LogIndex
peer_matches r = map_or [] (λ ls. ls.match_index) r.leader_state

unfoldable pub advance_commit_index : Raft → Raft
advance_commit_index r =
    let new_commit =
      scan_commit r.current_term r.commit_index (quorum r) (peer_matches r) (reverse r.log) in
    if ltb r.commit_index new_commit then with_commit_index r new_commit else r

unfoldable pub try_advance_commit_index : Raft → Raft × List Action
try_advance_commit_index r = apply_committed_entries (advance_commit_index r)

-- A write through `ls.next_index[peer_index]`, and both writes on success.
unfoldable pub back_up : LeaderState → ℕ → LogIndex → LeaderState
back_up ls i next = record ls { next_index = set ls.next_index i (max (next - 1) 1) }

unfoldable pub advance_peer : LeaderState → ℕ → LogIndex → LogIndex → LeaderState
advance_peer ls i matched match_index =
    if ltb matched match_index
    then record ls {
      match_index = set ls.match_index i match_index;
      next_index = set ls.next_index i (wrapping_add match_index 1);
    }
    else ls

-- Both vectors are indexed only on the path that reads or writes them.
unfoldable pub record_reply :
    Raft → LeaderState → ℕ → AppendEntriesResponse → Option (Raft × List Action)
record_reply r ls i msg =
    if not msg.success
    then (do
      next ← get_elem? ls.next_index i
      some (record r { leader_state = some (back_up ls i next) }, []))
    else (do
      matched ← get_elem? ls.match_index i
      ls' ←
          (if ltb matched msg.match_index && not (is_some (get_elem? ls.next_index i))
            then none
            else some (advance_peer ls i matched msg.match_index))
      some (try_advance_commit_index (record r { leader_state = some ls' })))

unfoldable pub reply_of_peer : Raft → AppendEntriesResponse → Option (Raft × List Action)
reply_of_peer r msg = elim (position (λ id. id == msg.from) r.peers) [
  | none ↦ some (r, [])
  | some i ↦ elim r.leader_state [ none ↦ some (r, []) | some ls ↦ record_reply r ls i msg ]
]

unfoldable pub handle_append_entries_response :
    Raft → AppendEntriesResponse → Option (Raft × List Action)
handle_append_entries_response r msg =
    if ltb r.current_term msg.term
    then some (step_down r msg.term, [])
    else if ltb msg.term r.current_term
    then some (r, [])
    else if not (is_leader r.role)
    then some (r, [])
    else reply_of_peer r msg
