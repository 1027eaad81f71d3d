-- ===== src/Consensus/Tests.antt =====
-- A run of a cluster of three nodes in which node 1 is elected, and the theorems on it.
pub mod Replication
pub mod EarlyCommit
pub mod Divergence
use raft_craft.Prelude.{
  ◌≡◌, refl, arith, true, List, [], ◌∷◌, inl, inr, contains, any, filter, insert, wrapping_add,
}
use raft_craft.Protocol.{
  NodeId, RequestVote, RequestVoteResponse, request_vote, request_vote_response, message,
  election_timeout, Action,
}
use raft_craft.Raft.State.{
  Raft, new, is_leader, quorum, has_majority, last_log_index, last_log_term,
}
use raft_craft.Raft.Vote.{
  handle_request_vote, handle_vote_response, catch_up, decide_vote, step_down,
  candidate_log_up_to_date, vote_response, count_vote, become_leader,
}
use raft_craft.Raft.Election.{handle_election_timeout, start_candidacy, create_vote_action}
use raft_craft.Raft.Step.{step, handle_message}
use raft_craft.Raft.Supporters.{IsDistinct}
use raft_craft.Consensus.System.{System, start, after_step, handle, Reach, begin, next, Voted}
use raft_craft.Consensus.Progress.{Continues}
use raft_craft.Consensus.Progress.Elections.{Reach-can_elect}
use raft_craft.Consensus.Election.{Reach-one_vote, Reach-one_leader}

abbrev pub members : List NodeId
members = 1 ∷ 2 ∷ 3 ∷ []

abbrev pub members-IsDistinct : IsDistinct members
unfolding contains any
members-IsDistinct = (refl, (refl, (refl, tt)))

-- Node 1 runs, node 2 votes for it, and the vote arrives.
abbrev runs : Raft × List Action
runs = handle_election_timeout ((start members).nodes 1)

abbrev state₁ : System
state₁ = after_step (start members) 1 runs

abbrev asks : RequestVote
asks = record { term = 1; candidate_id = 1; last_log_index = 0; last_log_term = 0 }

abbrev votes : Raft × List Action
votes = handle_request_vote (state₁.nodes 2) asks

abbrev state₂ : System
state₂ = after_step state₁ 2 votes

abbrev grants : RequestVoteResponse
grants = record { term = 1; vote_granted = true; vote_from = 2 }

abbrev wins : Raft × List Action
wins = handle_vote_response (state₂.nodes 1) grants

abbrev pub state₃ : System
state₃ = after_step state₂ 1 wins

pub elected : Reach members state₃
unfolding step handle_message new handle_election_timeout start_candidacy create_vote_action
    handle_request_vote handle_vote_response catch_up decide_vote step_down candidate_log_up_to_date
    vote_response count_vote become_leader filter contains any insert last_log_index last_log_term
    wrapping_add quorum has_majority
elected =
    next
      (next (next begin (handle 1 election_timeout runs refl tt (omega arith) (omega arith) refl)) (
        handle 2 (message (request_vote asks)) votes refl (inl refl) (omega arith) (omega arith)
          refl))
      (handle 1 (message (request_vote_response grants)) wins refl (inl refl) (omega arith)
        (omega arith) refl)

leads : is_leader (state₃.nodes 1).role ≡ true
unfolding step handle_message new handle_election_timeout start_candidacy create_vote_action
    handle_request_vote handle_vote_response catch_up decide_vote step_down candidate_log_up_to_date
    vote_response count_vote become_leader filter contains any insert last_log_index last_log_term
    wrapping_add quorum has_majority
leads = refl

Reach-one_leader_example : ◌≡◌ {A = NodeId} 1 1
unfolding contains any
Reach-one_leader_example =
    Reach-one_leader members-IsDistinct elected 1 1 refl refl leads leads refl

-- The first two votes of the history are those of the nodes 1 and 2 for node 1.
was_cast : Voted state₃ 2 1 1
unfolding step handle_message new handle_election_timeout start_candidacy create_vote_action
    handle_request_vote handle_vote_response catch_up decide_vote step_down candidate_log_up_to_date
    vote_response count_vote become_leader filter contains any insert last_log_index last_log_term
    wrapping_add quorum has_majority
was_cast = inr (inl refl)

Reach-one_vote_example : ◌≡◌ {A = NodeId} 1 1
Reach-one_vote_example = Reach-one_vote elected 2 1 1 1 was_cast was_cast

-- Node 1 leads in term 1; node 2 has not led and can win term 2 with the vote of node 3.
Reach-can_elect_example :
    (t : System) × Continues members state₃ t × (is_leader (t.nodes 2).role ≡ true)
unfolding step handle_message new handle_election_timeout start_candidacy create_vote_action
    handle_request_vote handle_vote_response catch_up decide_vote step_down candidate_log_up_to_date
    vote_response count_vote become_leader filter contains any insert last_log_index last_log_term
    wrapping_add quorum has_majority
Reach-can_elect_example =
    Reach-can_elect members state₃ elected 2 refl refl (omega arith) (omega arith) (3 ∷ [])
      (refl, tt) refl
      (record { member = refl; behind = omega arith; fresh = refl; short = omega arith }, tt)
      (omega arith)
