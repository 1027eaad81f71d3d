-- ===== src/Raft/Validity/Elections.antt =====
-- vote.rs and election.rs keep the state valid.
use raft_craft.Prelude.{some, arith, length-replicate}
use raft_craft.Protocol.{Term, RequestVote, RequestVoteResponse}
use raft_craft.Raft.State.{Raft, CandidateState}
use raft_craft.Raft.Vote.{
  step_down, catch_up, become_leader, decide_vote, handle_request_vote, count_vote,
  handle_vote_response,
}
use raft_craft.Raft.Election.{start_candidacy, handle_election_timeout}
use raft_craft.Raft.Validity.{IsValid}

pub step_down-IsValid : (r : Raft) (t : Term) → IsValid r → IsValid (step_down r t)
unfolding step_down
step_down-IsValid r t v = ground arith

pub catch_up-IsValid : (r : Raft) (t : Term) → IsValid r → IsValid (catch_up r t)
unfolding catch_up
catch_up-IsValid r t v = ground (arith, step_down-IsValid r t v)

become_leader-IsValid : (r : Raft) → IsValid r → IsValid (become_leader r)
unfolding become_leader
become_leader-IsValid r v = record {
  numbered = v.numbered;
  applied = v.applied;
  committed = v.committed;
  short = v.short;
  shaped = (length-replicate _ _, length-replicate _ _);
}

decide_vote-IsValid : (r : Raft) (m : RequestVote) → IsValid r → IsValid (decide_vote r m).0
unfolding decide_vote
decide_vote-IsValid r m v = ground arith

pub handle_request_vote-IsValid :
    (r : Raft) (m : RequestVote) → IsValid r → IsValid (handle_request_vote r m).0
unfolding handle_request_vote
handle_request_vote-IsValid r m v =
    decide_vote-IsValid (catch_up r m.term) m (catch_up-IsValid r m.term v)

pub with_candidate_state-IsValid :
    (r : Raft) (c : CandidateState) → IsValid r → IsValid (record r { candidate_state = some c })
with_candidate_state-IsValid r c v = ground arith

count_vote-IsValid :
    (r : Raft) (c : CandidateState) (m : RequestVoteResponse)
    → IsValid r
    → IsValid (count_vote r c m).0
unfolding count_vote
count_vote-IsValid r c m v = grind (arith, become_leader-IsValid, with_candidate_state-IsValid)

pub handle_vote_response-IsValid :
    (r : Raft) (m : RequestVoteResponse) → IsValid r → IsValid (handle_vote_response r m).0
unfolding handle_vote_response
handle_vote_response-IsValid r m v = grind (arith, step_down-IsValid, count_vote-IsValid)

start_candidacy-IsValid : (r : Raft) → IsValid r → IsValid (start_candidacy r)
unfolding start_candidacy
start_candidacy-IsValid r v = ground arith

pub handle_election_timeout-IsValid : (r : Raft) → IsValid r → IsValid (handle_election_timeout r).0
unfolding handle_election_timeout
handle_election_timeout-IsValid r v = grind (arith, start_candidacy-IsValid, become_leader-IsValid)
