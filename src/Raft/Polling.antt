-- ===== src/Raft/Polling.antt =====
-- vote.rs and election.rs: a poll that goes well, step by step.
use raft_craft.Prelude.{
  ◌==◌, ==_iff, le→ltb, if◌then◌else◌, ◌≡◌, refl, ap, ◌<◌, ◌⊎◌, inl, inr, true, false, suc, List,
  [], ◌∷◌, map, some, arith, length, Any, Bool-cases, leb, is_empty, contains, any, insert,
  wrapping_add, wrapping_add_lem, u64_mod,
}
use raft_craft.Protocol.{
  NodeId, Term, RequestVote, request_vote, request_vote_response, Action, send,
  reset_heartbeat_timer,
}
use raft_craft.Raft.State.{
  Raft, is_leader, is_candidate, quorum, has_majority, last_log_index, last_log_term,
}
use raft_craft.Raft.Vote.{
  catch_up, step_down, candidate_log_up_to_date, vote_response, decide_vote, handle_request_vote,
  count_vote, become_leader, handle_vote_response,
}
use raft_craft.Raft.Election.{handle_election_timeout, start_candidacy, create_vote_action}
use raft_craft.Raft.Ballots.{sends}

-- A candidate in term `t` that has asked the peers and has these votes, all granted.
pub record IsPolling (r : Raft) (t : Term) (votes : List NodeId) : Type 0 where
  pub running : is_candidate r.role ≡ true
  pub term : r.current_term ≡ t
  pub books : r.candidate_state ≡ some (record { votes_received = votes; votes_granted = votes })

-- The request that a node sends when its election timer fires.
abbrev pub request_of : Raft → RequestVote
request_of r = record {
  term = suc r.current_term;
  candidate_id = r.id;
  last_log_index = last_log_index r;
  last_log_term = last_log_term r;
}

pub request_vote-grants :
    (r : Raft) (m : RequestVote)
    → r.current_term < m.term
    → candidate_log_up_to_date r m ≡ true
    → Any
        (λ x. x ≡ (
          m.candidate_id,
          request_vote_response (record { term = m.term; vote_granted = true; vote_from = r.id }),
        ))
        (sends (handle_request_vote r m).1)
unfolding handle_request_vote catch_up step_down decide_vote vote_response candidate_log_up_to_date
    last_log_index last_log_term
request_vote-grants r m newer fresh = ground arith

module _ (r : Raft) (t : Term) (votes : List NodeId) (v : NodeId) (poll : IsPolling r t votes)
    (peer : contains r.peers v ≡ true) (first : contains votes v ≡ false) where
  abbrev heard : Raft × List Action
  heard = handle_vote_response r (record { term = t; vote_granted = true; vote_from = v })

  abbrev counted : Raft
  counted = record r {
    candidate_state = some (record { votes_received = v ∷ votes; votes_granted = v ∷ votes });
  }

  heard-counted : heard ≡ (
      if leb (quorum r) (suc (length votes))
      then (become_leader counted, reset_heartbeat_timer ∷ [])
      else (counted, []))
  unfolding handle_vote_response count_vote has_majority insert quorum
  heard-counted =
      rw (poll.term, le→ltb t t (omega arith), poll.running, peer, poll.books, first)
        (elim (Bool-cases (leb (quorum r) (suc (length votes)))) [
          | inl e ↦ rw e refl
          | inr e ↦ rw e refl
        ])

  -- A granted vote of a new peer wins, or the poll goes on with it.
  pub vote_response-counts :
      ((is_leader heard.0.role ≡ true)
        ⊎ (IsPolling heard.0 t (v ∷ votes) × (suc (length votes) < quorum heard.0)))
      × (heard.0.id ≡ r.id)
      × (heard.0.peers ≡ r.peers)
      × (heard.0.log ≡ r.log)
  unfolding become_leader quorum
  vote_response-counts = elim (Bool-cases (leb (quorum r) (suc (length votes)))) [
    | inl e ↦ rw (heard-counted, e) (inl refl, refl, refl, refl)
    | inr e ↦
        rw (heard-counted, e)
          (
            inr (record { running = poll.running; term = poll.term; books = refl }, ground arith),
            refl,
            refl,
            refl,
          )
  ]

module _ (r : Raft) (others : is_empty r.peers ≡ false) (idle : is_leader r.role ≡ false)
    (fits : suc r.current_term < u64_mod) where
  abbrev asked : Raft × List Action
  asked = handle_election_timeout r

  sends-requests :
      (xs : List NodeId) (m : RequestVote) (v : NodeId)
      → contains xs v ≡ true
      → Any (λ x. x ≡ (v, request_vote m)) (sends (map (λ p. send p (request_vote m)) xs))
  unfolding contains any
  sends-requests [] m v h = cc
  sends-requests (x ∷ xs) m v h = elim (Bool-cases (x == v)) [
    | inl e ↦ inl (ap (λ y. (y, request_vote m)) ((==_iff x v).0 e))
    | inr e ↦ inr (sends-requests xs m v (rw e at h))
  ]

  -- When its timer fires, a node that does not lead and has peers polls every one of them.
  pub election_timeout-polls :
      IsPolling asked.0 (suc r.current_term) (r.id ∷ [])
      × (asked.0.id ≡ r.id)
      × (asked.0.peers ≡ r.peers)
      × (asked.0.log ≡ r.log)
      × ((v : NodeId)
          → contains r.peers v ≡ true
          → Any (λ x. x ≡ (v, request_vote (request_of r))) (sends asked.1))
  unfolding handle_election_timeout start_candidacy create_vote_action insert contains any
      last_log_index last_log_term
  election_timeout-polls =
      let next = wrapping_add_lem r.current_term 1 (omega arith) in
      let up : wrapping_add r.current_term 1 ≡ suc r.current_term = omega (arith, next) in
      rw (idle, others, up)
        (
          record { running = refl; term = refl; books = refl },
          refl,
          refl,
          refl,
          λ v h. sends-requests r.peers (request_of r) v h,
        )

-- Without peers it leads at once.
pub election_timeout-leads :
    (r : Raft)
    → is_empty r.peers ≡ true
    → is_leader r.role ≡ false
    → is_leader (handle_election_timeout r).0.role ≡ true
unfolding handle_election_timeout start_candidacy become_leader
election_timeout-leads r alone idle = rw (idle, alone) refl
