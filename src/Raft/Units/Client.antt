-- ===== src/Raft/Units/Client.antt =====
-- The unit tests of raft-core/src/raft/client.rs.
use text.Mathlib.Text.{◌==◌ as ◌==ₛ◌}
use raft_craft.Prelude.{
  ℕ, zero, suc, false, map_or, ◌==◌, ◌≡◌, refl, Bool, true, not, ◌&&◌, List, [], ◌∷◌, map, Option,
  none, some, length, is_empty, is_some, any, last, find, count, wrapping_add,
}
use raft_craft.Protocol.{Action, not_leader, Command, Op, set_command, default_command}
use raft_craft.Raft.State.{Raft, candidate, new, last_log_index, quorum}
use raft_craft.Raft.AppendEntries.{
  try_advance_commit_index, advance_commit_index, scan_commit, apply_committed_entries, apply_loop,
}
use raft_craft.Raft.Client.{handle_client_request, append_command}
use raft_craft.Raft.Units.{
  passes, is_follower, is_reset_heartbeat, is_apply, each, at, are_exactly, is_exactly, make_leader,
  push_entry, with_term, with_role, next_indices,
}

-- `matches!(actions[..], [Action::NotLeader(_)])`, and with a given leader.
abbrev only_not_leader : List Action → Bool
only_not_leader (not_leader id ∷ []) = true
only_not_leader actions = false

abbrev only_not_leader_with : (Option ℕ → Bool) → List Action → Bool
only_not_leader_with p (not_leader id ∷ []) = p id
only_not_leader_with p actions = false

abbrev same_op : Op → Op → Bool
same_op (Op.set k v) (Op.set k' v') = (k ==ₛ k') && (v ==ₛ v')
same_op (Op.delete k) (Op.delete k') = k ==ₛ k'
same_op o o' = false

abbrev same_command : Command → Command → Bool
same_command c d = same_op c.op d.op

-- The node after some requests.
abbrev requested : Raft → ℕ → Raft
requested r zero = r
requested r (suc n) = requested (handle_client_request r default_command).0 n

abbrev follower_returns_not_leader : Bool
follower_returns_not_leader =
    let raft = new 1 (2 ∷ 3 ∷ []) in
    passes
      (is_follower raft.role ∷ only_not_leader (handle_client_request raft default_command).1 ∷ [])

abbrev candidate_returns_not_leader : Bool
candidate_returns_not_leader =
    only_not_leader
      (handle_client_request (with_role (new 1 (2 ∷ 3 ∷ [])) candidate) default_command).1

abbrev not_leader_carries_known_leader_id : Bool
not_leader_carries_known_leader_id =
    only_not_leader_with (λ id. is_exactly id 2)
      (handle_client_request (record (new 1 (2 ∷ 3 ∷ [])) { known_leader = some 2 })
        default_command).1

abbrev not_leader_carries_none_when_leader_unknown : Bool
not_leader_carries_none_when_leader_unknown =
    only_not_leader_with (λ id. not (is_some id))
      (handle_client_request (record (new 1 (2 ∷ 3 ∷ [])) { known_leader = none })
        default_command).1

abbrev follower_does_not_append_to_log : Bool
follower_does_not_append_to_log =
    is_empty (handle_client_request (new 1 (2 ∷ 3 ∷ [])) default_command).0.log

abbrev leader_appends_entry_to_log : Bool
leader_appends_entry_to_log =
    length (handle_client_request (make_leader 1 (2 ∷ 3 ∷ [])) default_command).0.log == 1

abbrev appended_entry_has_current_term : Bool
appended_entry_has_current_term =
    let (raft, _) =
      handle_client_request (with_term (make_leader 1 (2 ∷ 3 ∷ [])) 4) default_command in
    at raft.log 0 (λ e. e.term == 4)

abbrev appended_entry_has_next_available_index_on_empty_log : Bool
appended_entry_has_next_available_index_on_empty_log =
    let (raft, _) = handle_client_request (make_leader 1 (2 ∷ 3 ∷ [])) default_command in
    at raft.log 0 (λ e. e.index == 1)

abbrev appended_entry_follows_last_log_index : Bool
appended_entry_follows_last_log_index =
    let raft = push_entry (push_entry (make_leader 1 (2 ∷ 3 ∷ [])) 1 1) 2 1 in
    let (raft', _) = handle_client_request raft default_command in
    map_or false (λ e. e.index == 3) (last raft'.log)

abbrev appended_entry_carries_the_submitted_command : Bool
appended_entry_carries_the_submitted_command =
    let cmd = set_command "key" "value" in
    let (raft, _) = handle_client_request (make_leader 1 (2 ∷ 3 ∷ [])) cmd in
    at raft.log 0 (λ e. same_command e.command cmd)

abbrev multiple_requests_produce_sequential_indices : Bool
multiple_requests_produce_sequential_indices =
    are_exactly (map (λ e. e.index) (requested (make_leader 1 (2 ∷ 3 ∷ [])) 5).log)
      (1 ∷ 2 ∷ 3 ∷ 4 ∷ 5 ∷ [])

abbrev multiple_requests_all_use_current_term : Bool
multiple_requests_all_use_current_term =
    each (λ e. e.term == 7) (requested (with_term (make_leader 1 (2 ∷ 3 ∷ [])) 7) 3).log

abbrev leader_returns_reset_heartbeat_timer : Bool
leader_returns_reset_heartbeat_timer =
    any is_reset_heartbeat (handle_client_request (make_leader 1 (2 ∷ 3 ∷ [])) default_command).1

abbrev multi_node_leader_returns_exactly_one_action : Bool
multi_node_leader_returns_exactly_one_action =
    length (handle_client_request (make_leader 1 (2 ∷ 3 ∷ [])) default_command).1 == 2

abbrev multi_node_leader_does_not_commit_entry_immediately : Bool
multi_node_leader_does_not_commit_entry_immediately =
    (handle_client_request (make_leader 1 (2 ∷ 3 ∷ [])) default_command).0.commit_index == 0

abbrev multi_node_leader_does_not_apply_entry_immediately : Bool
multi_node_leader_does_not_apply_entry_immediately =
    (handle_client_request (make_leader 1 (2 ∷ 3 ∷ [])) default_command).0.last_applied == 0

abbrev leader_does_not_change_next_index_on_append : Bool
leader_does_not_change_next_index_on_append =
    let raft = make_leader 1 (2 ∷ 3 ∷ []) in
    let (raft', _) = handle_client_request raft default_command in
    are_exactly (next_indices raft) (next_indices raft')

abbrev single_node_leader_commits_entry_immediately : Bool
single_node_leader_commits_entry_immediately =
    let (raft, actions) = handle_client_request (make_leader 1 []) default_command in
    passes ((raft.commit_index == 1) ∷ (raft.last_applied == 1) ∷ any is_apply actions ∷ [])

abbrev single_node_multiple_requests_all_committed_immediately : Bool
single_node_multiple_requests_all_committed_immediately =
    each
      (λ i.
        let raft = requested (make_leader 1 []) i in
        (raft.commit_index == i) && (raft.last_applied == i))
      (1 ∷ 2 ∷ 3 ∷ [])

all_pass :
    passes (
      follower_returns_not_leader ∷ candidate_returns_not_leader
      ∷ not_leader_carries_known_leader_id ∷ not_leader_carries_none_when_leader_unknown
      ∷ follower_does_not_append_to_log ∷ leader_appends_entry_to_log
      ∷ appended_entry_has_current_term ∷ appended_entry_has_next_available_index_on_empty_log
      ∷ appended_entry_follows_last_log_index ∷ appended_entry_carries_the_submitted_command
      ∷ multiple_requests_produce_sequential_indices ∷ multiple_requests_all_use_current_term
      ∷ leader_returns_reset_heartbeat_timer ∷ multi_node_leader_returns_exactly_one_action
      ∷ multi_node_leader_does_not_commit_entry_immediately
      ∷ multi_node_leader_does_not_apply_entry_immediately
      ∷ leader_does_not_change_next_index_on_append ∷ single_node_leader_commits_entry_immediately
      ∷ single_node_multiple_requests_all_committed_immediately ∷ [])
    ≡ true
unfolding new handle_client_request append_command try_advance_commit_index advance_commit_index
    scan_commit apply_committed_entries apply_loop last_log_index quorum any count find wrapping_add
all_pass = refl
