-- ===== src/Raft/Vote.antt =====
-- raft-core/src/raft/vote.rs: granting votes, counting them, stepping down and becoming leader.
use raft_craft.Prelude.{
  ◌==◌, Bool, not, ◌&&◌, ◌||◌, true, false, List, [], ◌∷◌, Option, none, some, ltb, leb, length,
  replicate, contains, insert, wrapping_add, map_or, if◌then◌else◌,
}
use raft_craft.Protocol.{
  NodeId, Term, Action, send, reset_election_timer, reset_heartbeat_timer, persist_state,
  RequestVote, RequestVoteResponse, request_vote_response,
}
use raft_craft.Raft.State.{
  Raft, follower, leader, is_candidate, CandidateState, default_candidate, has_majority, quorum,
  last_log_index, last_log_term, with_voted_for,
}

unfoldable pub step_down : Raft → Term → Raft
step_down r new_term = record r {
  persistent = record r.persistent { current_term = new_term; voted_for = none };
  role = follower;
  candidate_state = none;
  leader_state = none;
  known_leader = none;
}

-- The handlers begin so: "Always handle a higher term first".
unfoldable pub catch_up : Raft → Term → Raft
catch_up r term = if ltb r.current_term term then step_down r term else r

unfoldable pub candidate_log_up_to_date : Raft → RequestVote → Bool
candidate_log_up_to_date r msg =
    ltb (last_log_term r) msg.last_log_term
    || ((msg.last_log_term == last_log_term r) && leb (last_log_index r) msg.last_log_index)

unfoldable pub vote_response : Raft → NodeId → Bool → Action
vote_response r candidate_id granted = send candidate_id (
    request_vote_response
      (record { term = r.current_term; vote_granted = granted; vote_from = r.id }))

-- The `debug_assert_eq!` on the role is off in release builds.
unfoldable pub become_leader : Raft → Raft
become_leader r =
    let next = wrapping_add (last_log_index r) 1 in
    record r {
      role = leader;
      known_leader = some r.id;
      candidate_state = none;
      leader_state = some (record {
        next_index = replicate (length r.peers) next;
        match_index = replicate (length r.peers) 0;
      });
    }

-- Whether `voted_for` names another candidate.
abbrev pub voted_for_other : Option NodeId → NodeId → Bool
voted_for_other v candidate_id = map_or false (λ x. not (x == candidate_id)) v

unfoldable pub decide_vote : Raft → RequestVote → Raft × List Action
decide_vote r msg =
    if ltb msg.term r.current_term
    then (r, vote_response r msg.candidate_id false ∷ [])
    else if voted_for_other r.voted_for msg.candidate_id
    then (r, vote_response r msg.candidate_id false ∷ [])
    else if not (candidate_log_up_to_date r msg)
    then (r, vote_response r msg.candidate_id false ∷ [])
    else (let r' = with_voted_for r (some msg.candidate_id) in
        (r', persist_state ∷ reset_election_timer ∷ vote_response r' msg.candidate_id true ∷ []))

unfoldable pub handle_request_vote : Raft → RequestVote → Raft × List Action
handle_request_vote r msg = decide_vote (catch_up r msg.term) msg

-- `get_or_insert_with(Default::default)`.
abbrev pub candidate_state_or_default : Raft → CandidateState
candidate_state_or_default r = map_or default_candidate (λ c. c) r.candidate_state

-- The tail of `handle_vote_response`, with the votes of this election.
unfoldable pub count_vote : Raft → CandidateState → RequestVoteResponse → Raft × List Action
count_vote r c msg =
    if contains c.votes_received msg.vote_from
    then (record r { candidate_state = some c }, [])
    else (let c' : CandidateState = record {
      votes_received = insert msg.vote_from c.votes_received;
      votes_granted =
          if msg.vote_granted then insert msg.vote_from c.votes_granted else c.votes_granted;
    } in
        let r' = record r { candidate_state = some c' } in
        if not (has_majority c' (quorum r))
        then (r', [])
        else (become_leader r', reset_heartbeat_timer ∷ []))

unfoldable pub handle_vote_response : Raft → RequestVoteResponse → Raft × List Action
handle_vote_response r msg =
    if ltb r.current_term msg.term
    then (step_down r msg.term, [])
    else if ltb msg.term r.current_term
    then (r, [])
    else if not (is_candidate r.role)
    then (r, [])
    else if not (contains r.peers msg.vote_from)
    then (r, [])
    else count_vote r (candidate_state_or_default r) msg
