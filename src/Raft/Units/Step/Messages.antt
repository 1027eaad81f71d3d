-- ===== src/Raft/Units/Step/Messages.antt =====
-- The unit tests of raft-core/src/raft/step.rs, on messages.
use raft_craft.Prelude.{
  ◌==◌, ◌≡◌, refl, Bool, true, not, [], ◌∷◌, length, is_empty, any, count, contains, insert, filter,
  find, position, wrapping_add,
}
use raft_craft.Protocol.{
  message, election_timeout, client_request, request_vote, request_vote_response, append_entries,
  append_entries_response, default_command,
}
use raft_craft.Raft.State.{is_leader, new, quorum, has_majority, last_log_index, last_log_term}
use raft_craft.Raft.Vote.{
  catch_up, step_down, candidate_log_up_to_date, vote_response, decide_vote, handle_request_vote,
  count_vote, become_leader, handle_vote_response,
}
use raft_craft.Raft.Election.{handle_election_timeout, start_candidacy, create_vote_action}
use raft_craft.Raft.AppendEntries.{
  handle_append_entries, receive_entries, revert_candidate, log_matches, accept_entries, reconcile,
  advance_follower_commit, apply_committed_entries, apply_loop,
  append_entries_response as append_response, handle_append_entries_response, reply_of_peer,
  record_reply, advance_peer, back_up, try_advance_commit_index, advance_commit_index, scan_commit,
}
use raft_craft.Raft.Heartbeat.{
  handle_heartbeat_timeout, append_entries_from, append_entries_for_peer, append_entries_msg,
  prev_log_info, next_index_of,
}
use raft_craft.Raft.Client.{handle_client_request, append_command}
use raft_craft.Raft.Step.{step, handle_message}
use raft_craft.Raft.Units.{
  passes, is_follower, is_reset_election, is_reset_heartbeat, is_persist, is_apply, vote_responses,
  entries_responses, first, at, ran, with_term, next_indices, match_indices, vote_request,
  vote_resp, create_append_entries, create_append_entries_response,
}
use raft_craft.Raft.Units.Step.{new_follower, make_leader}

abbrev request_vote_from_peer_with_same_term_is_granted : Bool
request_vote_from_peer_with_same_term_is_granted =
    ran (step new_follower (message (request_vote (vote_request 0 2 0 0)))) (λ raft actions.
      passes (
        (count is_reset_election actions == 1)
        ∷ (count is_persist actions == 1)
        ∷ (length (vote_responses actions) == 1)
        ∷ (length actions == 3)
        ∷ first (vote_responses actions) (λ x. x.1.vote_granted)
        ∷ first (vote_responses actions) (λ x. x.1.term == 0)
        ∷ []))

abbrev request_vote_from_higher_term_steps_down_and_grants : Bool
request_vote_from_higher_term_steps_down_and_grants = make_leader (λ raft₀.
    ran (step raft₀ (message (request_vote (vote_request 3 2 0 0))))
      (λ raft actions. passes (is_follower raft.role ∷ (raft.current_term == 3) ∷ [])))

abbrev request_vote_from_stale_term_is_rejected : Bool
request_vote_from_stale_term_is_rejected =
    ran (step (with_term new_follower 5) (message (request_vote (vote_request 3 2 0 0))))
      (λ raft actions. passes (
        first (vote_responses actions) (λ x. not x.1.vote_granted)
        ∷ first (vote_responses actions) (λ x. x.1.term == 5)
        ∷ (count is_reset_election actions == 0)
        ∷ []))

abbrev request_vote_response_as_follower_is_ignored : Bool
request_vote_response_as_follower_is_ignored =
    ran (step new_follower (message (request_vote_response (vote_resp 0 2 true))))
      (λ raft actions. passes (is_empty actions ∷ is_follower raft.role ∷ []))

abbrev request_vote_response_grants_cause_leader_promotion : Bool
request_vote_response_grants_cause_leader_promotion =
    ran (step new_follower election_timeout) (λ raft₁ _.
      ran (step raft₁ (message (request_vote_response (vote_resp 1 2 true)))) (λ raft actions.
        passes (is_leader raft.role ∷ (count is_reset_heartbeat actions == 1) ∷ [])))

abbrev append_entries_with_matching_term_accepted_and_resets_timer : Bool
append_entries_with_matching_term_accepted_and_resets_timer =
    ran (step new_follower (message (append_entries (create_append_entries 0 2 0 0 [] 0))))
      (λ raft actions. passes (
        (count is_reset_election actions == 1)
        ∷ (count is_persist actions == 1)
        ∷ (length (entries_responses actions) == 1)
        ∷ (length actions == 3)
        ∷ first (entries_responses actions) (λ x. x.1.success)
        ∷ first (entries_responses actions) (λ x. x.1.term == 0)
        ∷ []))

abbrev append_entries_with_stale_term_is_rejected : Bool
append_entries_with_stale_term_is_rejected =
    ran
      (step (with_term new_follower 5)
        (message (append_entries (create_append_entries 3 2 0 0 [] 0))))
      (λ raft actions. passes (
        first (entries_responses actions) (λ x. not x.1.success)
        ∷ first (entries_responses actions) (λ x. x.1.term == 5)
        ∷ (count is_reset_election actions == 0)
        ∷ []))

abbrev append_entries_from_higher_term_steps_down_and_accepts : Bool
append_entries_from_higher_term_steps_down_and_accepts = make_leader (λ raft₀.
    ran (step raft₀ (message (append_entries (create_append_entries 5 2 0 0 [] 0))))
      (λ raft actions. passes (is_follower raft.role ∷ (raft.current_term == 5) ∷ [])))

abbrev append_entries_response_as_follower_is_ignored : Bool
append_entries_response_as_follower_is_ignored =
    ran
      (step new_follower
        (message (append_entries_response (create_append_entries_response 0 2 true 0))))
      (λ raft actions. is_empty actions)

abbrev append_entries_response_success_advances_match_index_on_leader : Bool
append_entries_response_success_advances_match_index_on_leader = make_leader (λ raft₀.
    ran (step raft₀ (client_request default_command)) (λ raft₁ _.
      ran
        (step raft₁ (message (append_entries_response (create_append_entries_response 1 2 true 1))))
        (λ raft actions.
          passes (
            at (match_indices raft) 0 (λ n. n == 1)
            ∷ at (next_indices raft) 0 (λ n. n == 2)
            ∷ []))))

abbrev append_entries_response_reaching_quorum_commits_and_applies : Bool
append_entries_response_reaching_quorum_commits_and_applies = make_leader (λ raft₀.
    ran (step raft₀ (client_request default_command)) (λ raft₁ _.
      ran
        (step raft₁ (message (append_entries_response (create_append_entries_response 1 2 true 1))))
        (λ raft actions. passes (
          (raft.commit_index == 1)
          ∷ (raft.last_applied == 1)
          ∷ (count is_apply actions == 1)
          ∷ []))))

all_pass :
    passes (
      request_vote_from_peer_with_same_term_is_granted
      ∷ request_vote_from_higher_term_steps_down_and_grants
      ∷ request_vote_from_stale_term_is_rejected ∷ request_vote_response_as_follower_is_ignored
      ∷ request_vote_response_grants_cause_leader_promotion
      ∷ append_entries_with_matching_term_accepted_and_resets_timer
      ∷ append_entries_with_stale_term_is_rejected
      ∷ append_entries_from_higher_term_steps_down_and_accepts
      ∷ append_entries_response_as_follower_is_ignored
      ∷ append_entries_response_success_advances_match_index_on_leader
      ∷ append_entries_response_reaching_quorum_commits_and_applies ∷ [])
    ≡ true
unfolding step handle_message new handle_request_vote handle_vote_response candidate_log_up_to_date
    vote_response decide_vote count_vote become_leader has_majority last_log_term insert
    handle_election_timeout start_candidacy create_vote_action handle_client_request append_command
    handle_heartbeat_timeout append_entries_from append_entries_for_peer append_entries_msg
    prev_log_info next_index_of filter contains handle_append_entries receive_entries
    revert_candidate log_matches accept_entries reconcile advance_follower_commit
    apply_committed_entries apply_loop append_response handle_append_entries_response reply_of_peer
    record_reply advance_peer back_up try_advance_commit_index advance_commit_index scan_commit
    catch_up step_down quorum last_log_index any count find position wrapping_add
all_pass = refl
