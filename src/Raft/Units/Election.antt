-- ===== src/Raft/Units/Election.antt =====
-- The unit tests of raft-core/src/raft/election.rs.
use raft_craft.Prelude.{
  ◌==◌, ◌≡◌, refl, Bool, true, not, ◌&&◌, [], ◌∷◌, map, some, length, is_empty, is_some, any, count,
  contains, insert, filter, wrapping_add,
}
use raft_craft.Raft.State.{
  candidate, leader, is_leader, is_candidate, new, with_log, with_voted_for, last_log_index,
  last_log_term,
}
use raft_craft.Raft.Vote.{become_leader}
use raft_craft.Raft.Election.{handle_election_timeout, start_candidacy, create_vote_action}
use raft_craft.Raft.Units.{
  passes, is_follower, is_reset_election, is_reset_heartbeat, is_persist, is_send, vote_requests,
  each, is_exactly, with_term, with_role, with_votes, granted_votes,
}

abbrev election_timeout_promotes_follower_to_candidate_and_sends_votes : Bool
election_timeout_promotes_follower_to_candidate_and_sends_votes =
    let raft = new 1 (2 ∷ 3 ∷ []) in
    let (raft', actions) = handle_election_timeout raft in
    passes (
      is_follower raft.role
      ∷ (raft.current_term == 0)
      ∷ not (is_some raft.voted_for)
      ∷ is_candidate raft'.role
      ∷ (raft'.current_term == 1)
      ∷ is_exactly raft'.voted_for raft'.id
      ∷ any is_reset_election actions
      ∷ each
          (λ peer.
            any
              (λ x.
                (x.0 == peer) && (x.1.candidate_id == raft'.id) && (x.1.term == raft'.current_term))
              (vote_requests actions))
          raft'.peers
      ∷ (length (vote_requests actions) == length raft'.peers)
      ∷ [])

abbrev election_timeout_with_empty_log_sends_zero_indices : Bool
election_timeout_with_empty_log_sends_zero_indices =
    let (_, actions) = handle_election_timeout (with_log (new 1 (2 ∷ 3 ∷ [])) []) in
    each (λ x. (x.1.last_log_index == 0) && (x.1.last_log_term == 0)) (vote_requests actions)

abbrev election_timeout_for_candidate_increments_term : Bool
election_timeout_for_candidate_increments_term =
    let raft = with_term (with_role (new 1 (2 ∷ 3 ∷ [])) candidate) 5 in
    let (raft', actions) = handle_election_timeout raft in
    passes (
      is_candidate raft'.role
      ∷ (raft'.current_term == 6)
      ∷ is_exactly raft'.voted_for raft'.id
      ∷ (length (vote_requests actions) == 2)
      ∷ [])

abbrev election_timeout_does_nothing_if_leader : Bool
election_timeout_does_nothing_if_leader =
    let raft = with_term (with_role (new 1 (2 ∷ 3 ∷ [])) leader) 3 in
    let (raft', actions) = handle_election_timeout raft in
    passes (
      is_leader raft'.role
      ∷ (raft'.current_term == 3)
      ∷ not (is_some raft'.voted_for)
      ∷ is_empty actions
      ∷ [])

abbrev election_timeout_sends_vote_to_all_peers : Bool
election_timeout_sends_vote_to_all_peers =
    let (_, actions) = handle_election_timeout (new 1 (2 ∷ 3 ∷ 4 ∷ 5 ∷ [])) in
    let voted_peers = map (λ x. x.0) (vote_requests actions) in
    passes (
      (length voted_peers == 4)
      ∷ not (contains voted_peers 1)
      ∷ each (contains voted_peers) (2 ∷ 3 ∷ 4 ∷ 5 ∷ [])
      ∷ [])

abbrev election_timeout_returns_one_reset_timer : Bool
election_timeout_returns_one_reset_timer =
    let (_, actions) = handle_election_timeout (new 1 (2 ∷ 3 ∷ 4 ∷ [])) in
    passes (
      (count is_reset_election actions == 1)
      ∷ (count is_persist actions == 1)
      ∷ (count is_send actions == 3)
      ∷ (length actions == 5)
      ∷ [])

abbrev single_node_cluster_becomes_leader_immediately : Bool
single_node_cluster_becomes_leader_immediately =
    let (raft, actions) = handle_election_timeout (new 1 []) in
    passes (
      is_leader raft.role
      ∷ (count is_persist actions == 1)
      ∷ (count is_reset_heartbeat actions == 1)
      ∷ (length actions == 2)
      ∷ [])

abbrev candidate_restart_election_resets_votes : Bool
candidate_restart_election_resets_votes =
    let five = 1 ∷ 2 ∷ 3 ∷ 4 ∷ 5 ∷ [] in
    let raft = with_term (with_role (new 1 (2 ∷ 3 ∷ [])) candidate) 3 in
    let (raft', _) =
      handle_election_timeout (with_votes (with_voted_for raft (some 99)) five five) in
    passes (
      (raft'.current_term == 4)
      ∷ is_exactly raft'.voted_for raft'.id
      ∷ (length (granted_votes raft') == 1)
      ∷ contains (granted_votes raft') 1
      ∷ [])

abbrev multiple_calls_produce_one_reset_timer_each : Bool
multiple_calls_produce_one_reset_timer_each =
    let (raft₁, actions₁) = handle_election_timeout (new 1 (2 ∷ 3 ∷ [])) in
    let (raft₂, actions₂) = handle_election_timeout raft₁ in
    let (_, actions₃) = handle_election_timeout raft₂ in
    each (λ actions. count is_reset_election actions == 1) (actions₁ ∷ actions₂ ∷ actions₃ ∷ [])

all_pass :
    passes (
      election_timeout_promotes_follower_to_candidate_and_sends_votes
      ∷ election_timeout_with_empty_log_sends_zero_indices
      ∷ election_timeout_for_candidate_increments_term ∷ election_timeout_does_nothing_if_leader
      ∷ election_timeout_sends_vote_to_all_peers ∷ election_timeout_returns_one_reset_timer
      ∷ single_node_cluster_becomes_leader_immediately ∷ candidate_restart_election_resets_votes
      ∷ multiple_calls_produce_one_reset_timer_each ∷ [])
    ≡ true
unfolding new handle_election_timeout start_candidacy create_vote_action become_leader contains any
    insert filter count last_log_index last_log_term wrapping_add
all_pass = refl
