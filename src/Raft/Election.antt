-- ===== src/Raft/Election.antt =====
-- raft-core/src/raft/election.rs: the election timeout.
use raft_craft.Prelude.{
  List, [], ◌∷◌, map, none, some, is_empty, insert, wrapping_add, if◌then◌else◌,
}
use raft_craft.Protocol.{
  NodeId, Action, send, reset_election_timer, reset_heartbeat_timer, persist_state, request_vote,
}
use raft_craft.Raft.State.{
  Raft, CandidateState, candidate, is_leader, default_candidate, last_log_index, last_log_term,
}
use raft_craft.Raft.Vote.{become_leader}

unfoldable pub create_vote_action : Raft → NodeId → Action
create_vote_action r peer_id = send peer_id (
    request_vote (record {
      term = r.current_term;
      candidate_id = r.id;
      last_log_index = last_log_index r;
      last_log_term = last_log_term r;
    }))

-- The state in which the votes are asked for: a new term, a vote for oneself, counted.
unfoldable pub start_candidacy : Raft → Raft
start_candidacy r =
    let state : CandidateState = record {
      votes_received = insert r.id default_candidate.votes_received;
      votes_granted = insert r.id default_candidate.votes_granted;
    } in
    record r {
      role = candidate;
      persistent = record r.persistent {
        current_term = wrapping_add r.current_term 1;
        voted_for = some r.id;
      };
      leader_state = none;
      candidate_state = some state;
    }

unfoldable pub handle_election_timeout : Raft → Raft × List Action
handle_election_timeout r =
    if is_leader r.role
    then (r, [])
    else (let r' = start_candidacy r in
        if is_empty r'.peers
        then (become_leader r', reset_heartbeat_timer ∷ persist_state ∷ [])
        else (r', reset_election_timer ∷ persist_state ∷ map (create_vote_action r') r'.peers))
