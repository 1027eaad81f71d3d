-- ===== src/Raft/Units/Step.antt =====
-- The unit tests of raft-core/src/raft/step.rs, on timeouts and requests.
pub mod Messages
use raft_craft.Prelude.{
  ℕ, zero, suc, ◌==◌, ◌≡◌, refl, Bool, true, false, not, ◌&&◌, List, [], ◌∷◌, map, some, length,
  is_empty, any, count, contains, insert, filter, find, position, wrapping_add,
}
use raft_craft.Protocol.{
  Action, not_leader, message, election_timeout, heartbeat_timeout, client_request, request_vote,
  request_vote_response, append_entries, append_entries_response, default_command,
}
use raft_craft.Raft.State.{
  Raft, candidate, is_leader, is_candidate, new, quorum, has_majority, with_voted_for,
  last_log_index, last_log_term,
}
use raft_craft.Raft.Vote.{
  catch_up, step_down, candidate_log_up_to_date, vote_response, decide_vote, handle_request_vote,
  count_vote, become_leader, handle_vote_response,
}
use raft_craft.Raft.Election.{handle_election_timeout, start_candidacy, create_vote_action}
use raft_craft.Raft.AppendEntries.{
  handle_append_entries, receive_entries, revert_candidate, log_matches, accept_entries, reconcile,
  advance_follower_commit, apply_committed_entries, apply_loop,
  append_entries_response as append_response, handle_append_entries_response, reply_of_peer,
  record_reply, advance_peer, back_up, try_advance_commit_index, advance_commit_index, scan_commit,
}
use raft_craft.Raft.Heartbeat.{
  handle_heartbeat_timeout, append_entries_from, append_entries_for_peer, append_entries_msg,
  prev_log_info, next_index_of,
}
use raft_craft.Raft.Client.{handle_client_request, append_command}
use raft_craft.Raft.Step.{step, handle_message}
use raft_craft.Raft.Units.{
  passes, is_follower, is_reset_election, is_reset_heartbeat, is_persist, is_not_leader, is_apply,
  vote_requests, vote_responses, sent_entries, entries_responses, each, first, at, ran, is_exactly,
  with_term, with_role, with_votes, next_indices, match_indices, vote_request, vote_resp,
  create_append_entries, create_append_entries_response,
}

abbrev pub new_follower : Raft
new_follower = new 1 (2 ∷ 3 ∷ [])

-- A test on the leader that wins with the vote of peer 2.
abbrev pub make_leader : (Raft → Bool) → Bool
make_leader test =
    let raft = with_voted_for (with_term (with_role new_follower candidate) 1) (some 1) in
    ran
      (step (with_votes raft (1 ∷ []) (1 ∷ []))
        (message (request_vote_response (vote_resp 1 2 true))))
      (λ raft' actions. is_leader raft'.role && test raft')

abbrev election_timeout_as_follower_starts_election : Bool
election_timeout_as_follower_starts_election =
    ran (step new_follower election_timeout) (λ raft actions. passes (
      (count is_reset_election actions == 1)
      ∷ (count is_persist actions == 1)
      ∷ (length (vote_requests actions) == 2)
      ∷ (length actions == 4)
      ∷ is_candidate raft.role
      ∷ (raft.current_term == 1)
      ∷ is_exactly raft.voted_for raft.id
      ∷ []))

abbrev election_timeout_vote_requests_target_correct_peers : Bool
election_timeout_vote_requests_target_correct_peers =
    ran (step new_follower election_timeout) (λ raft actions. passes (
      contains (map (λ x. x.0) (vote_requests actions)) 2
      ∷ contains (map (λ x. x.0) (vote_requests actions)) 3
      ∷ not (contains (map (λ x. x.0) (vote_requests actions)) 1)
      ∷ []))

abbrev election_timeout_vote_requests_carry_correct_term : Bool
election_timeout_vote_requests_carry_correct_term =
    ran (step new_follower election_timeout) (λ raft actions.
      each (λ x. (x.1.term == 1) && (x.1.candidate_id == 1)) (vote_requests actions))

abbrev election_timeout_as_candidate_increments_term_again : Bool
election_timeout_as_candidate_increments_term_again =
    ran (step new_follower election_timeout) (λ raft₁ _.
      ran (step raft₁ election_timeout) (λ raft actions. passes (
        (raft.current_term == 2)
        ∷ is_candidate raft.role
        ∷ (count is_reset_election actions == 1)
        ∷ (length (vote_requests actions) == 2)
        ∷ [])))

abbrev election_timeout_as_leader_is_ignored : Bool
election_timeout_as_leader_is_ignored = make_leader (λ raft₀.
    ran (step raft₀ election_timeout) (λ raft actions.
      passes (is_empty actions ∷ is_leader raft.role ∷ (raft.current_term == 1) ∷ [])))

abbrev heartbeat_timeout_as_follower_is_ignored : Bool
heartbeat_timeout_as_follower_is_ignored =
    ran (step new_follower heartbeat_timeout) (λ raft actions. is_empty actions)

abbrev heartbeat_timeout_as_candidate_is_ignored : Bool
heartbeat_timeout_as_candidate_is_ignored =
    ran (step new_follower election_timeout)
      (λ raft₁ _. ran (step raft₁ heartbeat_timeout) (λ raft actions. is_empty actions))

abbrev heartbeat_timeout_as_leader_sends_append_entries_to_all_peers : Bool
heartbeat_timeout_as_leader_sends_append_entries_to_all_peers = make_leader (λ raft₀.
    ran (step raft₀ heartbeat_timeout) (λ raft actions. passes (
      (count is_reset_heartbeat actions == 1)
      ∷ (length (sent_entries actions) == 2)
      ∷ (length actions == 3)
      ∷ [])))

abbrev heartbeat_timeout_append_entries_carry_correct_term_and_leader_id : Bool
heartbeat_timeout_append_entries_carry_correct_term_and_leader_id = make_leader (λ raft₀.
    ran (step raft₀ heartbeat_timeout)
      (λ raft actions. each (λ x. (x.1.term == 1) && (x.1.leader_id == 1)) (sent_entries actions)))

abbrev heartbeat_timeout_append_entries_target_correct_peers : Bool
heartbeat_timeout_append_entries_target_correct_peers = make_leader (λ raft₀.
    ran (step raft₀ heartbeat_timeout) (λ raft actions. passes (
      contains (map (λ x. x.0) (sent_entries actions)) 2
      ∷ contains (map (λ x. x.0) (sent_entries actions)) 3
      ∷ not (contains (map (λ x. x.0) (sent_entries actions)) 1)
      ∷ [])))

abbrev client_request_as_follower_returns_not_leader : Bool
client_request_as_follower_returns_not_leader =
    ran (step new_follower (client_request default_command)) (λ raft actions.
      passes ((count is_not_leader actions == 1) ∷ (length actions == 1) ∷ is_empty raft.log ∷ []))

abbrev client_request_as_candidate_returns_not_leader : Bool
client_request_as_candidate_returns_not_leader =
    ran (step new_follower election_timeout) (λ raft₁ _.
      ran (step raft₁ (client_request default_command)) (λ raft actions.
        passes
          ((count is_not_leader actions == 1) ∷ (length actions == 1) ∷ is_empty raft.log ∷ [])))

abbrev client_request_as_leader_appends_and_triggers_heartbeat : Bool
client_request_as_leader_appends_and_triggers_heartbeat = make_leader (λ raft₀.
    ran (step raft₀ (client_request default_command)) (λ raft actions. passes (
      (count is_reset_heartbeat actions == 1)
      ∷ (count is_persist actions == 1)
      ∷ (length actions == 2)
      ∷ (length raft.log == 1)
      ∷ at raft.log 0 (λ e. e.index == 1)
      ∷ at raft.log 0 (λ e. e.term == 1)
      ∷ [])))

abbrev client_request_as_leader_does_not_commit_without_quorum : Bool
client_request_as_leader_does_not_commit_without_quorum = make_leader (λ raft₀.
    ran (step raft₀ (client_request default_command)) (λ raft actions. raft.commit_index == 0))

all_pass :
    passes (
      election_timeout_as_follower_starts_election
      ∷ election_timeout_vote_requests_target_correct_peers
      ∷ election_timeout_vote_requests_carry_correct_term
      ∷ election_timeout_as_candidate_increments_term_again ∷ election_timeout_as_leader_is_ignored
      ∷ heartbeat_timeout_as_follower_is_ignored ∷ heartbeat_timeout_as_candidate_is_ignored
      ∷ heartbeat_timeout_as_leader_sends_append_entries_to_all_peers
      ∷ heartbeat_timeout_append_entries_carry_correct_term_and_leader_id
      ∷ heartbeat_timeout_append_entries_target_correct_peers
      ∷ client_request_as_follower_returns_not_leader
      ∷ client_request_as_candidate_returns_not_leader
      ∷ client_request_as_leader_appends_and_triggers_heartbeat
      ∷ client_request_as_leader_does_not_commit_without_quorum ∷ [])
    ≡ true
unfolding step handle_message new handle_request_vote handle_vote_response candidate_log_up_to_date
    vote_response decide_vote count_vote become_leader has_majority last_log_term insert
    handle_election_timeout start_candidacy create_vote_action handle_client_request append_command
    handle_heartbeat_timeout append_entries_from append_entries_for_peer append_entries_msg
    prev_log_info next_index_of filter contains handle_append_entries receive_entries
    revert_candidate log_matches accept_entries reconcile advance_follower_commit
    apply_committed_entries apply_loop append_response handle_append_entries_response reply_of_peer
    record_reply advance_peer back_up try_advance_commit_index advance_commit_index scan_commit
    catch_up step_down quorum last_log_index any count find position wrapping_add
all_pass = refl
