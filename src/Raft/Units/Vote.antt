-- ===== src/Raft/Units/Vote.antt =====
-- The unit tests of raft-core/src/raft/vote.rs.
use raft_craft.Prelude.{
  ◌+◌, ◌==◌, ◌≡◌, refl, Bool, true, false, not, List, [], ◌∷◌, some, length, is_empty, is_some, any,
  contains, insert, replicate, wrapping_add,
}
use raft_craft.Protocol.{Term, Action}
use raft_craft.Raft.State.{
  follower, candidate, leader, is_leader, is_candidate, new, quorum, has_majority, with_voted_for,
  last_log_index, last_log_term,
}
use raft_craft.Raft.Vote.{
  catch_up, step_down, candidate_log_up_to_date, vote_response, decide_vote, handle_request_vote,
  count_vote, become_leader, handle_vote_response,
}
use raft_craft.Raft.Units.{
  passes, is_follower, is_reset_election, is_reset_heartbeat, vote_responses, first, at, is_exactly,
  are_exactly, push_entry, with_term, with_role, with_votes, granted_votes, next_indices,
  match_indices, vote_request, vote_resp,
}

abbrev grant : List Action → Bool
grant actions = any (λ x. x.1.vote_granted) (vote_responses actions)

abbrev response_term : List Action → (Term → Bool) → Bool
response_term actions p = first (vote_responses actions) (λ x. p x.1.term)

abbrev has_reset_timer : List Action → Bool
has_reset_timer actions = any is_reset_election actions

abbrev reject_stale_candidate_term : Bool
reject_stale_candidate_term =
    let raft = with_term (new 1 (2 ∷ 3 ∷ [])) 5 in
    let (_, actions) = handle_request_vote raft (vote_request 4 2 0 0) in
    passes (
      not (grant actions)
      ∷ response_term actions (λ t. t == 5)
      ∷ not (has_reset_timer actions)
      ∷ [])

abbrev higher_term_causes_step_down_before_vote : Bool
higher_term_causes_step_down_before_vote =
    let raft = with_voted_for (with_role (with_term (new 1 (2 ∷ 3 ∷ [])) 2) leader) (some 3) in
    let (raft', _) = handle_request_vote raft (vote_request 5 2 0 0) in
    passes ((raft'.current_term == 5) ∷ is_follower raft'.role ∷ is_exactly raft'.voted_for 2 ∷ [])

abbrev higher_term_vote_response_triggers_step_down_before_other_checks : Bool
higher_term_vote_response_triggers_step_down_before_other_checks =
    let raft = with_term (with_role (new 1 (2 ∷ 3 ∷ [])) candidate) 5 in
    let (raft', actions) = handle_vote_response raft (vote_resp 9 99 true) in
    passes (is_follower raft'.role ∷ (raft'.current_term == 9) ∷ is_empty actions ∷ [])

abbrev reject_if_already_voted_for_different_candidate : Bool
reject_if_already_voted_for_different_candidate =
    let raft = with_voted_for (with_term (new 1 (2 ∷ 3 ∷ [])) 3) (some 10) in
    let (_, actions) = handle_request_vote raft (vote_request 3 2 0 0) in
    passes (not (grant actions) ∷ not (has_reset_timer actions) ∷ [])

abbrev allow_same_candidate_to_retry_vote : Bool
allow_same_candidate_to_retry_vote =
    let raft = with_voted_for (with_term (new 1 (2 ∷ 3 ∷ [])) 3) (some 2) in
    let (_, actions) = handle_request_vote raft (vote_request 3 2 0 0) in
    passes (grant actions ∷ has_reset_timer actions ∷ [])

abbrev reject_if_candidate_log_term_is_older : Bool
reject_if_candidate_log_term_is_older =
    let raft = push_entry (new 1 (2 ∷ 3 ∷ [])) 5 3 in
    not (grant (handle_request_vote raft (vote_request 4 2 10 2)).1)

abbrev reject_if_same_log_term_but_shorter_log : Bool
reject_if_same_log_term_but_shorter_log =
    let raft = push_entry (new 1 (2 ∷ 3 ∷ [])) 10 3 in
    not (grant (handle_request_vote raft (vote_request 4 2 5 3)).1)

abbrev accept_if_candidate_log_term_is_newer : Bool
accept_if_candidate_log_term_is_newer =
    let raft = push_entry (new 1 (2 ∷ 3 ∷ [])) 10 2 in
    grant (handle_request_vote raft (vote_request 3 2 1 5)).1

abbrev accept_if_same_log_term_and_longer_log : Bool
accept_if_same_log_term_and_longer_log =
    let raft = push_entry (new 1 (2 ∷ 3 ∷ [])) 5 3 in
    grant (handle_request_vote raft (vote_request 4 2 10 3)).1

abbrev accept_if_logs_identical : Bool
accept_if_logs_identical =
    let raft = push_entry (new 1 (2 ∷ 3 ∷ [])) 5 3 in
    grant (handle_request_vote raft (vote_request 4 2 5 3)).1

abbrev accept_if_follower_log_empty : Bool
accept_if_follower_log_empty =
    grant (handle_request_vote (new 1 (2 ∷ 3 ∷ [])) (vote_request 1 2 0 0)).1

abbrev log_term_takes_priority_over_log_length : Bool
log_term_takes_priority_over_log_length =
    let raft = push_entry (new 1 (2 ∷ 3 ∷ [])) 100 9 in
    grant (handle_request_vote raft (vote_request 11 2 5 10)).1

abbrev reject_if_same_index_but_older_term : Bool
reject_if_same_index_but_older_term =
    let raft = push_entry (new 1 (2 ∷ 3 ∷ [])) 10 5 in
    not (grant (handle_request_vote raft (vote_request 6 2 10 4)).1)

abbrev never_vote_twice_in_same_term : Bool
never_vote_twice_in_same_term =
    let raft = with_term (new 1 (2 ∷ 3 ∷ [])) 4 in
    let (raft₁, a₁) = handle_request_vote raft (vote_request 4 2 0 0) in
    let (_, a₂) = handle_request_vote raft₁ (vote_request 4 3 0 0) in
    passes (grant a₁ ∷ not (grant a₂) ∷ [])

abbrev higher_term_clears_previous_vote : Bool
higher_term_clears_previous_vote =
    let raft = with_voted_for (with_term (new 1 (2 ∷ 3 ∷ [])) 3) (some 10) in
    let (raft', actions) = handle_request_vote raft (vote_request 4 2 0 0) in
    passes (grant actions ∷ (raft'.current_term == 4) ∷ is_exactly raft'.voted_for 2 ∷ [])

abbrev timer_reset_only_on_vote_granted : Bool
timer_reset_only_on_vote_granted =
    let raft = with_voted_for (new 1 (2 ∷ 3 ∷ [])) (some 9) in
    not (has_reset_timer (handle_request_vote raft (vote_request 0 2 0 0)).1)

abbrev ignore_stale_vote_response : Bool
ignore_stale_vote_response =
    let raft = with_term (new 1 (2 ∷ 3 ∷ [])) 5 in
    is_empty (handle_vote_response raft (vote_resp 4 1 true)).1

abbrev ignore_vote_response_when_not_candidate : Bool
ignore_vote_response_when_not_candidate =
    let raft = with_role (new 1 (2 ∷ 3 ∷ [])) follower in
    is_empty (handle_vote_response raft (vote_resp 0 2 true)).1

abbrev ignore_vote_from_unknown_peer : Bool
ignore_vote_from_unknown_peer =
    let raft = with_role (new 1 (2 ∷ 3 ∷ [])) candidate in
    let (raft', actions) = handle_vote_response raft (vote_resp 0 99 true) in
    passes (is_empty actions ∷ is_candidate raft'.role ∷ [])

abbrev become_leader_on_majority : Bool
become_leader_on_majority =
    let raft = with_term (with_role (new 1 (2 ∷ 3 ∷ [])) candidate) 1 in
    let self = with_votes raft (1 ∷ []) (1 ∷ []) in
    let (raft', actions) = handle_vote_response self (vote_resp 1 2 true) in
    passes (is_leader raft'.role ∷ at actions 0 is_reset_heartbeat ∷ [])

abbrev continue_waiting_if_majority_not_reached : Bool
continue_waiting_if_majority_not_reached =
    let raft = with_term (with_role (new 1 (2 ∷ 3 ∷ 4 ∷ 5 ∷ [])) candidate) 3 in
    let self = with_votes raft (1 ∷ []) (1 ∷ []) in
    let (raft', actions) = handle_vote_response self (vote_resp 3 2 true) in
    passes (is_candidate raft'.role ∷ is_empty actions ∷ [])

abbrev step_down_on_higher_term_vote_response : Bool
step_down_on_higher_term_vote_response =
    let raft = with_term (with_role (new 1 (2 ∷ 3 ∷ [])) candidate) 5 in
    let (raft', actions) = handle_vote_response raft (vote_resp 6 2 true) in
    passes (
      is_follower raft'.role
      ∷ (raft'.current_term == 6)
      ∷ not (is_some raft'.voted_for)
      ∷ not (is_some raft'.candidate_state)
      ∷ is_empty actions
      ∷ [])

abbrev duplicate_vote_response_is_ignored : Bool
duplicate_vote_response_is_ignored =
    let raft = with_role (new 1 (2 ∷ 3 ∷ [])) candidate in
    let seen = with_votes raft (2 ∷ 1 ∷ []) (1 ∷ []) in
    let (raft', actions) = handle_vote_response seen (vote_resp 0 2 true) in
    passes (is_empty actions ∷ (length (granted_votes raft') == 1) ∷ [])

abbrev rejected_vote_does_not_increase_granted_count : Bool
rejected_vote_does_not_increase_granted_count =
    let raft = with_role (new 1 (2 ∷ 3 ∷ 4 ∷ 5 ∷ [])) candidate in
    let self = with_votes raft (1 ∷ []) (1 ∷ []) in
    length (granted_votes (handle_vote_response self (vote_resp 0 2 false)).0) == 1

abbrev leader_transition_happens_only_once : Bool
leader_transition_happens_only_once =
    let raft = with_term (with_role (new 1 (2 ∷ 3 ∷ 4 ∷ [])) candidate) 1 in
    let two = with_votes raft (2 ∷ 1 ∷ []) (2 ∷ 1 ∷ []) in
    let (raft₁, _) = handle_vote_response two (vote_resp 1 3 true) in
    let (_, actions) = handle_vote_response raft₁ (vote_resp 1 4 true) in
    passes (is_leader raft₁.role ∷ is_empty actions ∷ [])

abbrev leader_state_initialized_correctly_on_win : Bool
leader_state_initialized_correctly_on_win =
    let raft = with_term (with_role (new 1 (2 ∷ 3 ∷ [])) candidate) 1 in
    let self = with_votes raft (1 ∷ []) (1 ∷ []) in
    let (raft', _) = handle_vote_response self (vote_resp 1 2 true) in
    let expected_next = last_log_index raft' + 1 in
    passes (
      is_some raft'.leader_state
      ∷ are_exactly (next_indices raft') (replicate (length raft'.peers) expected_next)
      ∷ are_exactly (match_indices raft') (replicate (length raft'.peers) 0)
      ∷ [])

abbrev quorum_correct_for_odd_and_even_clusters : Bool
quorum_correct_for_odd_and_even_clusters = passes (
    (quorum (new 1 (2 ∷ 3 ∷ 4 ∷ 5 ∷ [])) == 3)
    ∷ (quorum (new 1 (2 ∷ 3 ∷ 4 ∷ [])) == 3)
    ∷ (quorum (new 1 (2 ∷ 3 ∷ [])) == 2)
    ∷ (quorum (new 1 (2 ∷ [])) == 2)
    ∷ (quorum (new 1 []) == 1)
    ∷ [])

all_pass :
    passes (
      reject_stale_candidate_term ∷ higher_term_causes_step_down_before_vote
      ∷ higher_term_vote_response_triggers_step_down_before_other_checks
      ∷ reject_if_already_voted_for_different_candidate ∷ allow_same_candidate_to_retry_vote
      ∷ reject_if_candidate_log_term_is_older ∷ reject_if_same_log_term_but_shorter_log
      ∷ accept_if_candidate_log_term_is_newer ∷ accept_if_same_log_term_and_longer_log
      ∷ accept_if_logs_identical ∷ accept_if_follower_log_empty
      ∷ log_term_takes_priority_over_log_length ∷ reject_if_same_index_but_older_term
      ∷ never_vote_twice_in_same_term ∷ higher_term_clears_previous_vote
      ∷ timer_reset_only_on_vote_granted ∷ ignore_stale_vote_response
      ∷ ignore_vote_response_when_not_candidate ∷ ignore_vote_from_unknown_peer
      ∷ become_leader_on_majority ∷ continue_waiting_if_majority_not_reached
      ∷ step_down_on_higher_term_vote_response ∷ duplicate_vote_response_is_ignored
      ∷ rejected_vote_does_not_increase_granted_count ∷ leader_transition_happens_only_once
      ∷ leader_state_initialized_correctly_on_win ∷ quorum_correct_for_odd_and_even_clusters ∷ [])
    ≡ true
unfolding new handle_request_vote handle_vote_response catch_up step_down candidate_log_up_to_date
    vote_response decide_vote count_vote become_leader quorum has_majority last_log_index
    last_log_term contains any insert wrapping_add
all_pass = refl
