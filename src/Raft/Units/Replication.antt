-- ===== src/Raft/Units/Replication.antt =====
-- The unit tests of raft-core/src/raft/append_entries.rs, on the side of the follower.
use raft_craft.Prelude.{
  ◌==◌, ◌≡◌, refl, Bool, true, not, List, [], ◌∷◌, length, is_some, any, count, find, position,
  wrapping_add,
}
use raft_craft.Protocol.{Term, Action}
use raft_craft.Raft.State.{
  candidate, leader, new, quorum, with_commit_index, with_last_applied, last_log_index,
}
use raft_craft.Raft.Vote.{catch_up, step_down}
use raft_craft.Raft.AppendEntries.{
  handle_append_entries, receive_entries, revert_candidate, log_matches, accept_entries, reconcile,
  advance_follower_commit, apply_committed_entries, apply_loop, append_entries_response,
  handle_append_entries_response, reply_of_peer, record_reply, advance_peer, back_up,
  try_advance_commit_index, advance_commit_index, scan_commit,
}
use raft_craft.Raft.Units.{
  passes, is_follower, is_reset_election, is_apply, entries_responses, first, at, push_entry,
  with_term, with_role, create_log_entry, create_append_entries,
}

abbrev response_success : List Action → Bool
response_success actions = any (λ x. x.1.success) (entries_responses actions)

abbrev response_term : List Action → (Term → Bool) → Bool
response_term actions p = first (entries_responses actions) (λ x. p x.1.term)

abbrev has_election_timer_reset : List Action → Bool
has_election_timer_reset actions = any is_reset_election actions

abbrev reject_stale_leader_term : Bool
reject_stale_leader_term =
    let (_, actions) =
      handle_append_entries (with_term (new 1 (2 ∷ 3 ∷ [])) 5)
        (create_append_entries 4 1 0 0 [] 0) in
    passes (
      not (response_success actions)
      ∷ response_term actions (λ t. t == 5)
      ∷ not (has_election_timer_reset actions)
      ∷ [])

abbrev higher_term_causes_step_down_then_accepts : Bool
higher_term_causes_step_down_then_accepts =
    let (raft', actions) =
      handle_append_entries (with_term (with_role (new 1 (2 ∷ 3 ∷ [])) leader) 3)
        (create_append_entries 5 2 0 0 [] 0) in
    passes ((raft'.current_term == 5) ∷ is_follower raft'.role ∷ response_success actions ∷ [])

abbrev candidate_steps_down_on_same_term_append_entries : Bool
candidate_steps_down_on_same_term_append_entries =
    let (raft', actions) =
      handle_append_entries (with_term (with_role (new 1 (2 ∷ 3 ∷ [])) candidate) 3)
        (create_append_entries 3 2 0 0 [] 0) in
    passes
      (is_follower raft'.role ∷ not (is_some raft'.candidate_state) ∷ response_success actions ∷ [])

abbrev reject_if_prev_log_entry_missing : Bool
reject_if_prev_log_entry_missing =
    let (_, actions) =
      handle_append_entries (new 1 (2 ∷ 3 ∷ [])) (create_append_entries 1 2 5 1 [] 0) in
    passes (not (response_success actions) ∷ not (has_election_timer_reset actions) ∷ [])

abbrev reject_if_prev_log_term_mismatch : Bool
reject_if_prev_log_term_mismatch =
    let (_, actions) =
      handle_append_entries (push_entry (new 1 (2 ∷ 3 ∷ [])) 1 2)
        (create_append_entries 4 2 1 3 [] 0) in
    not (response_success actions)

abbrev accept_if_prev_log_matches : Bool
accept_if_prev_log_matches =
    let (_, actions) =
      handle_append_entries (push_entry (new 1 (2 ∷ 3 ∷ [])) 1 2)
        (create_append_entries 3 2 1 2 [] 0) in
    passes (response_success actions ∷ has_election_timer_reset actions ∷ [])

abbrev accept_with_empty_log_and_zero_prev : Bool
accept_with_empty_log_and_zero_prev =
    let (_, actions) =
      handle_append_entries (new 1 (2 ∷ 3 ∷ [])) (create_append_entries 1 2 0 0 [] 0) in
    passes (response_success actions ∷ has_election_timer_reset actions ∷ [])

abbrev appends_new_entries_to_empty_log : Bool
appends_new_entries_to_empty_log =
    let (raft', _) =
      handle_append_entries (new 1 (2 ∷ 3 ∷ []))
        (create_append_entries 1 2 0 0 (create_log_entry 1 1 ∷ create_log_entry 2 1 ∷ []) 0) in
    passes (
      (length raft'.log == 2)
      ∷ at raft'.log 0 (λ e. e.index == 1)
      ∷ at raft'.log 1 (λ e. e.index == 2)
      ∷ [])

abbrev appends_entries_after_existing_log : Bool
appends_entries_after_existing_log =
    let (raft', _) =
      handle_append_entries (push_entry (push_entry (new 1 (2 ∷ 3 ∷ [])) 1 1) 2 1)
        (create_append_entries 1 2 2 1 (create_log_entry 3 1 ∷ create_log_entry 4 1 ∷ []) 0) in
    length raft'.log == 4

abbrev skips_entries_already_in_log : Bool
skips_entries_already_in_log =
    let (raft', _) =
      handle_append_entries (push_entry (push_entry (new 1 (2 ∷ 3 ∷ [])) 1 1) 2 1)
        (create_append_entries 1 2 0 0 (create_log_entry 1 1 ∷ create_log_entry 2 1 ∷ []) 0) in
    length raft'.log == 2

abbrev truncates_conflicting_suffix_and_appends : Bool
truncates_conflicting_suffix_and_appends =
    let (raft', _) =
      handle_append_entries (push_entry (push_entry (push_entry (new 1 (2 ∷ 3 ∷ [])) 1 1) 2 1) 3 1)
        (create_append_entries 2 2 2 1 (create_log_entry 3 2 ∷ create_log_entry 4 2 ∷ []) 0) in
    passes (
      (length raft'.log == 4)
      ∷ at raft'.log 2 (λ e. e.term == 2)
      ∷ at raft'.log 3 (λ e. e.index == 4)
      ∷ [])

abbrev truncation_removes_all_entries_after_conflict_point : Bool
truncation_removes_all_entries_after_conflict_point =
    let (raft', _) =
      handle_append_entries
        (push_entry
          (push_entry (push_entry (push_entry (push_entry (new 1 (2 ∷ 3 ∷ [])) 1 1) 2 1) 3 1) 4 1) 5
          1)
        (create_append_entries 2 2 1 1 (create_log_entry 2 2 ∷ []) 0) in
    passes ((length raft'.log == 2) ∷ at raft'.log 1 (λ e. e.term == 2) ∷ [])

abbrev commit_index_advances_to_leader_commit_when_log_is_longer : Bool
commit_index_advances_to_leader_commit_when_log_is_longer =
    let (raft', _) =
      handle_append_entries (push_entry (push_entry (push_entry (new 1 (2 ∷ 3 ∷ [])) 1 1) 2 1) 3 1)
        (create_append_entries 1 2 3 1 [] 2) in
    raft'.commit_index == 2

abbrev commit_index_capped_at_last_new_entry : Bool
commit_index_capped_at_last_new_entry =
    let (raft', _) =
      handle_append_entries (new 1 (2 ∷ 3 ∷ []))
        (create_append_entries 1 2 0 0 (create_log_entry 1 1 ∷ create_log_entry 2 1 ∷ []) 5) in
    raft'.commit_index == 2

abbrev commit_index_does_not_go_backwards : Bool
commit_index_does_not_go_backwards =
    let (raft', _) =
      handle_append_entries
        (with_commit_index (push_entry (push_entry (new 1 (2 ∷ 3 ∷ [])) 1 1) 2 1) 2)
        (create_append_entries 1 2 2 1 [] 1) in
    raft'.commit_index == 2

abbrev commit_index_not_advanced_when_leader_commit_is_zero : Bool
commit_index_not_advanced_when_leader_commit_is_zero =
    let (raft', _) =
      handle_append_entries (push_entry (new 1 (2 ∷ 3 ∷ [])) 1 1)
        (create_append_entries 1 2 0 0 (create_log_entry 1 1 ∷ []) 0) in
    raft'.commit_index == 0

abbrev apply_actions_emitted_for_newly_committed_entries : Bool
apply_actions_emitted_for_newly_committed_entries =
    let (raft', actions) =
      handle_append_entries (push_entry (push_entry (new 1 (2 ∷ 3 ∷ [])) 1 1) 2 1)
        (create_append_entries 1 2 2 1 [] 2) in
    passes ((count is_apply actions == 2) ∷ (raft'.last_applied == 2) ∷ [])

abbrev no_apply_actions_when_nothing_newly_committed : Bool
no_apply_actions_when_nothing_newly_committed =
    let (_, actions) =
      handle_append_entries
        (with_last_applied (with_commit_index (push_entry (new 1 (2 ∷ 3 ∷ [])) 1 1) 1) 1)
        (create_append_entries 1 2 1 1 [] 1) in
    not (any is_apply actions)

abbrev election_timer_reset_on_success : Bool
election_timer_reset_on_success =
    let (_, actions) =
      handle_append_entries (new 1 (2 ∷ 3 ∷ [])) (create_append_entries 1 2 0 0 [] 0) in
    has_election_timer_reset actions

abbrev no_election_timer_reset_on_rejection : Bool
no_election_timer_reset_on_rejection =
    let (_, actions) =
      handle_append_entries (with_term (new 1 (2 ∷ 3 ∷ [])) 5)
        (create_append_entries 3 2 0 0 [] 0) in
    not (has_election_timer_reset actions)

all_pass :
    passes (
      reject_stale_leader_term ∷ higher_term_causes_step_down_then_accepts
      ∷ candidate_steps_down_on_same_term_append_entries ∷ reject_if_prev_log_entry_missing
      ∷ reject_if_prev_log_term_mismatch ∷ accept_if_prev_log_matches
      ∷ accept_with_empty_log_and_zero_prev ∷ appends_new_entries_to_empty_log
      ∷ appends_entries_after_existing_log ∷ skips_entries_already_in_log
      ∷ truncates_conflicting_suffix_and_appends
      ∷ truncation_removes_all_entries_after_conflict_point
      ∷ commit_index_advances_to_leader_commit_when_log_is_longer
      ∷ commit_index_capped_at_last_new_entry ∷ commit_index_does_not_go_backwards
      ∷ commit_index_not_advanced_when_leader_commit_is_zero
      ∷ apply_actions_emitted_for_newly_committed_entries
      ∷ no_apply_actions_when_nothing_newly_committed ∷ election_timer_reset_on_success
      ∷ no_election_timer_reset_on_rejection ∷ [])
    ≡ true
unfolding new handle_append_entries receive_entries revert_candidate log_matches accept_entries
    reconcile advance_follower_commit apply_committed_entries apply_loop append_entries_response
    handle_append_entries_response reply_of_peer record_reply advance_peer back_up
    try_advance_commit_index advance_commit_index scan_commit catch_up step_down quorum
    last_log_index any count find position wrapping_add
all_pass = refl
