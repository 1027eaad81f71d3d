-- ===== src/Raft/Tests/Votes.antt =====
-- Elections on small states.
use raft_craft.Prelude.{◌≡◌, ◌↔◌, refl, arith, true, [], ◌∷◌, some, contains, any, insert}
use raft_craft.Protocol.{RequestVote, RequestVoteResponse, request_vote, message}
use raft_craft.Raft.State.{
  Raft, CandidateState, candidate, quorum, is_leader, is_candidate, has_majority,
}
use raft_craft.Raft.Vote.{handle_request_vote, handle_vote_response, count_vote}
use raft_craft.Raft.Step.{step, handle_message}
use raft_craft.Raft.Terms.{Later, step-Later}
use raft_craft.Raft.Durability.{PersistsFirst, step-PersistsFirst}
use raft_craft.Raft.Durability.Unsaved.{SavedOrRaised, step-SavedOrRaised}
use raft_craft.Raft.Majority.{CountsVotes, Decides, handle_vote_response_wins}
use raft_craft.Raft.Tests.{node, lead_log}

-- A candidate with its own vote, in a cluster of five.
abbrev own_vote : CandidateState
own_vote = record { votes_received = 1 ∷ []; votes_granted = 1 ∷ [] }

abbrev running : Raft
running = record (node 1 (2 ∷ 3 ∷ 4 ∷ 5 ∷ []) 3 lead_log 0) {
  role = candidate;
  candidate_state = some own_vote;
}

-- The same in a cluster of three, where one more vote decides.
abbrev nearly : Raft
nearly = record (node 1 (2 ∷ 3 ∷ []) 3 lead_log 0) {
  role = candidate;
  candidate_state = some own_vote;
}

abbrev grant : RequestVoteResponse
grant = record { term = 3; vote_granted = true; vote_from = 2 }

running-CountsVotes : CountsVotes running own_vote
unfolding quorum contains any
running-CountsVotes = record { own = refl; answered = λ x h. h; undecided = omega arith }

nearly-CountsVotes : CountsVotes nearly own_vote
unfolding quorum contains any
nearly-CountsVotes = record { own = refl; answered = λ x h. h; undecided = omega arith }

still_running : is_candidate (handle_vote_response running grant).0.role ≡ true
unfolding handle_vote_response count_vote has_majority quorum contains any insert
still_running = refl

abbrev ask : RequestVote
ask = record { term = 4; candidate_id = 3; last_log_index = 3; last_log_term = 2 }

handle_vote_response_wins_example :
    (is_leader (handle_vote_response nearly grant).0.role ≡ true) ↔ Decides nearly own_vote grant
handle_vote_response_wins_example =
    handle_vote_response_wins nearly own_vote grant refl refl nearly-CountsVotes

step-Later_example : Later nearly (handle_request_vote nearly ask).0
unfolding step handle_message
step-Later_example =
    step-Later nearly (message (request_vote ask)) (handle_request_vote nearly ask) (omega arith)
      refl

step-PersistsFirst_example : PersistsFirst (handle_request_vote nearly ask).1
unfolding step handle_message
step-PersistsFirst_example =
    step-PersistsFirst nearly (message (request_vote ask)) (handle_request_vote nearly ask) refl

-- A refusal in a newer term: the term is taken over and not saved.
abbrev ask_behind : RequestVote
ask_behind = record { term = 4; candidate_id = 3; last_log_index = 1; last_log_term = 1 }

step-SavedOrRaised_example : SavedOrRaised nearly (handle_request_vote nearly ask_behind)
unfolding step handle_message
step-SavedOrRaised_example =
    step-SavedOrRaised nearly (message (request_vote ask_behind))
      (handle_request_vote nearly ask_behind) refl
