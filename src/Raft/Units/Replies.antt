-- ===== src/Raft/Units/Replies.antt =====
-- The unit tests of raft-core/src/raft/append_entries.rs, on the replies to a leader.
use raft_craft.Prelude.{
  ◌==◌, ◌≡◌, refl, Bool, true, false, not, [], ◌∷◌, is_empty, any, count, find, position,
  wrapping_add,
}
use raft_craft.Raft.State.{follower, is_leader, new, quorum, last_log_index}
use raft_craft.Raft.Vote.{catch_up, step_down}
use raft_craft.Raft.AppendEntries.{
  handle_append_entries, receive_entries, revert_candidate, log_matches, accept_entries, reconcile,
  advance_follower_commit, apply_committed_entries, apply_loop, append_entries_response,
  handle_append_entries_response, reply_of_peer, record_reply, advance_peer, back_up,
  try_advance_commit_index, advance_commit_index, scan_commit,
}
use raft_craft.Raft.Units.{
  passes, is_follower, is_apply, at, ran, make_leader, push_entry, with_term, with_role,
  with_next_index, with_match_index, next_indices, match_indices, create_append_entries_response,
}

abbrev step_down_on_higher_term_response : Bool
step_down_on_higher_term_response =
    ran
      (handle_append_entries_response (with_term (make_leader 1 (2 ∷ 3 ∷ [])) 4)
        (create_append_entries_response 6 2 true 3))
      (λ raft' actions.
        passes (is_follower raft'.role ∷ (raft'.current_term == 6) ∷ is_empty actions ∷ []))

abbrev ignore_stale_response : Bool
ignore_stale_response =
    ran
      (handle_append_entries_response (with_term (make_leader 1 (2 ∷ 3 ∷ [])) 5)
        (create_append_entries_response 4 2 true 3))
      (λ raft' actions. passes (is_empty actions ∷ is_leader raft'.role ∷ []))

abbrev ignore_if_not_leader : Bool
ignore_if_not_leader =
    ran
      (handle_append_entries_response (with_role (new 1 (2 ∷ 3 ∷ [])) follower)
        (create_append_entries_response 1 2 true 1))
      (λ raft' actions. is_empty actions)

abbrev ignore_response_from_unknown_peer : Bool
ignore_response_from_unknown_peer =
    ran
      (handle_append_entries_response (make_leader 1 (2 ∷ 3 ∷ []))
        (create_append_entries_response 0 99 true 1))
      (λ raft' actions. is_empty actions)

abbrev failure_decrements_next_index : Bool
failure_decrements_next_index =
    ran
      (handle_append_entries_response (with_next_index (make_leader 1 (2 ∷ 3 ∷ [])) 0 5)
        (create_append_entries_response 0 2 false 0))
      (λ raft' actions. at (next_indices raft') 0 (λ n. n == 4))

abbrev failure_does_not_decrement_next_index_below_one : Bool
failure_does_not_decrement_next_index_below_one =
    ran
      (handle_append_entries_response (with_next_index (make_leader 1 (2 ∷ 3 ∷ [])) 0 1)
        (create_append_entries_response 0 2 false 0))
      (λ raft' actions. at (next_indices raft') 0 (λ n. n == 1))

abbrev failure_does_not_advance_match_index : Bool
failure_does_not_advance_match_index =
    ran
      (handle_append_entries_response (with_match_index (make_leader 1 (2 ∷ 3 ∷ [])) 0 0)
        (create_append_entries_response 0 2 false 0))
      (λ raft' actions. at (match_indices raft') 0 (λ n. n == 0))

abbrev success_advances_next_and_match_index : Bool
success_advances_next_and_match_index =
    ran
      (handle_append_entries_response (make_leader 1 (2 ∷ 3 ∷ []))
        (create_append_entries_response 0 2 true 4))
      (λ raft' actions.
        passes
          (at (match_indices raft') 0 (λ n. n == 4) ∷ at (next_indices raft') 0 (λ n. n == 5) ∷ []))

abbrev success_does_not_go_backwards_on_duplicate_response : Bool
success_does_not_go_backwards_on_duplicate_response =
    ran
      (handle_append_entries_response
        (with_next_index (with_match_index (make_leader 1 (2 ∷ 3 ∷ [])) 0 5) 0 6)
        (create_append_entries_response 0 2 true 3))
      (λ raft' actions.
        passes
          (at (match_indices raft') 0 (λ n. n == 5) ∷ at (next_indices raft') 0 (λ n. n == 6) ∷ []))

abbrev commit_index_advances_when_quorum_reached : Bool
commit_index_advances_when_quorum_reached =
    ran
      (handle_append_entries_response
        (push_entry (push_entry (with_term (make_leader 1 (2 ∷ 3 ∷ [])) 1) 1 1) 2 1)
        (create_append_entries_response 1 2 true 2))
      (λ raft' actions. raft'.commit_index == 2)

abbrev commit_index_does_not_advance_without_quorum : Bool
commit_index_does_not_advance_without_quorum =
    ran
      (handle_append_entries_response
        (push_entry (with_term (make_leader 1 (2 ∷ 3 ∷ 4 ∷ 5 ∷ [])) 1) 1 1)
        (create_append_entries_response 1 2 true 1))
      (λ raft' actions. raft'.commit_index == 0)

abbrev commit_index_advances_only_for_current_term_entries : Bool
commit_index_advances_only_for_current_term_entries =
    ran
      (handle_append_entries_response
        (push_entry (push_entry (with_term (make_leader 1 (2 ∷ 3 ∷ [])) 3) 1 1) 2 1)
        (create_append_entries_response 3 2 true 2))
      (λ raft' actions. raft'.commit_index == 0)

abbrev old_term_entries_committed_indirectly_via_current_term_entry : Bool
old_term_entries_committed_indirectly_via_current_term_entry =
    ran
      (handle_append_entries_response
        (push_entry (push_entry (with_term (make_leader 1 (2 ∷ 3 ∷ [])) 3) 1 1) 2 3)
        (create_append_entries_response 3 2 true 2))
      (λ raft' actions. raft'.commit_index == 2)

abbrev apply_actions_emitted_after_commit_index_advances : Bool
apply_actions_emitted_after_commit_index_advances =
    ran
      (handle_append_entries_response
        (push_entry (push_entry (with_term (make_leader 1 (2 ∷ 3 ∷ [])) 1) 1 1) 2 1)
        (create_append_entries_response 1 2 true 2))
      (λ raft' actions. passes ((count is_apply actions == 2) ∷ (raft'.last_applied == 2) ∷ []))

abbrev no_apply_actions_when_commit_index_unchanged : Bool
no_apply_actions_when_commit_index_unchanged =
    ran
      (handle_append_entries_response
        (push_entry (with_term (make_leader 1 (2 ∷ 3 ∷ 4 ∷ 5 ∷ [])) 1) 1 1)
        (create_append_entries_response 1 2 true 1))
      (λ raft' actions. not (any is_apply actions))

abbrev multiple_peers_confirming_same_index_does_not_double_apply : Bool
multiple_peers_confirming_same_index_does_not_double_apply =
    let raft = push_entry (with_term (make_leader 1 (2 ∷ 3 ∷ [])) 1) 1 1 in
    ran (handle_append_entries_response raft (create_append_entries_response 1 2 true 1))
      (λ raft₁ _.
        ran (handle_append_entries_response raft₁ (create_append_entries_response 1 3 true 1))
          (λ raft₂ actions. count is_apply actions == 0))

all_pass :
    passes (
      step_down_on_higher_term_response ∷ ignore_stale_response ∷ ignore_if_not_leader
      ∷ ignore_response_from_unknown_peer ∷ failure_decrements_next_index
      ∷ failure_does_not_decrement_next_index_below_one ∷ failure_does_not_advance_match_index
      ∷ success_advances_next_and_match_index ∷ success_does_not_go_backwards_on_duplicate_response
      ∷ commit_index_advances_when_quorum_reached ∷ commit_index_does_not_advance_without_quorum
      ∷ commit_index_advances_only_for_current_term_entries
      ∷ old_term_entries_committed_indirectly_via_current_term_entry
      ∷ apply_actions_emitted_after_commit_index_advances
      ∷ no_apply_actions_when_commit_index_unchanged
      ∷ multiple_peers_confirming_same_index_does_not_double_apply ∷ [])
    ≡ true
unfolding new handle_append_entries receive_entries revert_candidate log_matches accept_entries
    reconcile advance_follower_commit apply_committed_entries apply_loop append_entries_response
    handle_append_entries_response reply_of_peer record_reply advance_peer back_up
    try_advance_commit_index advance_commit_index scan_commit catch_up step_down quorum
    last_log_index any count find position wrapping_add
all_pass = refl
