-- ===== src/Raft/Supporters.antt =====
-- vote.rs and election.rs: whose votes stand behind a candidate and a leader.
use mathlib.Core.Option.{some-injective}
use raft_craft.Prelude.{
  ◌≤◌, ◌≡◌, refl, sym, ap, ◌∙◌, subst, inl, inr, true, false, List, [], ◌∷◌, some, arith, All, leb,
  leb→le, length, contains, insert, any, is_empty, ltb, if◌then◌else◌, Bool-cases,
}
use raft_craft.Protocol.{
  NodeId, Term, Action, RequestVoteResponse, request_vote, request_vote_response, append_entries,
  append_entries_response, Event, message, election_timeout, heartbeat_timeout, client_request,
}
use raft_craft.Raft.State.{
  Raft, CandidateState, has_majority, quorum, is_candidate, is_leader, follower,
}
use raft_craft.Raft.Vote.{
  become_leader, count_vote, candidate_state_or_default, handle_vote_response, step_down,
}
use raft_craft.Raft.Election.{start_candidacy, handle_election_timeout}
use raft_craft.Raft.Step.{handle_message, step}
use raft_craft.Raft.Terms.{handle_heartbeat_timeout-same}
use raft_craft.Raft.Races.{
  Retires, handle_request_vote-Retires, handle_append_entries-Retires,
  handle_append_entries_response-Retires, handle_client_request-Retires,
}

-- No node twice.
abbrev pub IsDistinct : List NodeId → Type 0
IsDistinct [] = Unit {0}
IsDistinct (x ∷ xs) = (contains xs x ≡ false) × IsDistinct xs

-- `voted v t c` is meant to say that node `v` has voted for `c` in term `t`.
module _ (voted : NodeId → Term → NodeId → Type 0) where
  -- One vote of the cluster for the node in its term.
  abbrev Supporter : Raft → NodeId → Type 0
  Supporter r v = voted v r.current_term r.id × (contains (r.id ∷ r.peers) v ≡ true)

  abbrev pub Supports : Raft → List NodeId → Type 0
  Supports r vs = IsDistinct vs × All (Supporter r) vs

  -- The votes a candidate counts were cast, and a quorum was cast for a leader.
  pub record IsBacked (r : Raft) : Type 0 where
    pub running :
        is_candidate r.role ≡ true → Supports r (candidate_state_or_default r).votes_granted
    pub elected :
        is_leader r.role ≡ true → (vs : List NodeId) × Supports r vs × (quorum r ≤ length vs)

  pub follower-IsBacked : (r : Raft) → r.role ≡ follower → IsBacked r
  follower-IsBacked r h = record {
    running = λ c. absurd (let e = ap is_candidate h in cc);
    elected = λ c. absurd (let e = ap is_leader h in cc);
  }

  Retires-IsBacked : (r r' : Raft) → Retires r r' → IsBacked r → IsBacked r'
  unfolding quorum
  Retires-IsBacked r r' (same, inl f) b = follower-IsBacked r' f
  Retires-IsBacked r r' ((i, p), inr (role, votes, term)) b = record {
    running = λ c. rw (i, p, term, votes) (b.running (ap is_candidate (sym role) ∙ c));
    elected = λ c.
        let (vs, s, q) = b.elected (ap is_leader (sym role) ∙ c) in (vs, rw (i, p, term) s, rw p q);
  }

  insert-Supports :
      (r : Raft) (v : NodeId) (vs : List NodeId)
      → Supporter r v
      → Supports r vs
      → Supports r (insert v vs)
  unfolding insert
  insert-Supports r v vs h s = elim (Bool-cases (contains vs v)) [
    | inl old ↦ rw old s
    | inr new ↦ rw new ((new, s.0), (h, s.1))
  ]

  module _ (r : Raft) (c : CandidateState) (m : RequestVoteResponse)
      (s : Supports r c.votes_granted) (peer : contains r.peers m.vote_from ≡ true)
      (cast : m.vote_granted ≡ true → voted m.vote_from r.current_term r.id) where
    abbrev counted : CandidateState
    counted = record {
      votes_received = insert m.vote_from c.votes_received;
      votes_granted =
          if m.vote_granted then insert m.vote_from c.votes_granted else c.votes_granted;
    }

    counted-Supports : Supports r counted.votes_granted
    unfolding contains any
    counted-Supports = elim (Bool-cases m.vote_granted) [
      | inr refused ↦ rw refused s
      | inl granted ↦
          let known : contains (r.id ∷ r.peers) m.vote_from ≡ true = ground arith in
          rw granted (insert-Supports r m.vote_from c.votes_granted (cast granted, known) s)
    ]

    count_vote-IsBacked : is_candidate r.role ≡ true → IsBacked (count_vote r c m).0
    unfolding count_vote has_majority become_leader quorum
    count_vote-IsBacked role = elim (Bool-cases (contains c.votes_received m.vote_from)) [
      | inl e ↦ rw e (record { running = λ k. s; elected = λ k. absurd (ground arith) })
      | inr e ↦ elim (Bool-cases (leb (quorum r) (length counted.votes_granted))) [
        | inl won ↦
            rw (e, won)
              (record {
                running = λ k. absurd (ground arith);
                elected = λ k. (counted.votes_granted, counted-Supports, leb→le _ _ won);
              })
        | inr more ↦
            rw (e, more)
              (record { running = λ k. counted-Supports; elected = λ k. absurd (ground arith) })
      ]
    ]

  handle_vote_response-IsBacked :
      (r : Raft) (m : RequestVoteResponse)
      → IsBacked r
      → (m.vote_granted ≡ true → voted m.vote_from m.term r.id)
      → IsBacked (handle_vote_response r m).0
  unfolding handle_vote_response
  handle_vote_response-IsBacked r m b cast = elim (Bool-cases (ltb r.current_term m.term)) [
    | inl newer ↦ rw newer (follower-IsBacked (step_down r m.term) (unfold step_down in refl))
    | inr a ↦ elim (Bool-cases (ltb m.term r.current_term)) [
      | inl stale ↦ rw (a, stale) b
      | inr c ↦ elim (Bool-cases (is_candidate r.role)) [
        | inr other ↦ rw (a, c, other) b
        | inl role ↦ elim (Bool-cases (contains r.peers m.vote_from)) [
          | inr unknown ↦ rw (a, c, role, unknown) b
          | inl peer ↦
              let now : m.term ≡ r.current_term = ground arith in
              rw (a, c, role, peer)
                (count_vote-IsBacked r (candidate_state_or_default r) m (b.running role) peer
                  (λ g. rw (← now) (cast g)) role)
        ]
      ]
    ]
  ]

  handle_election_timeout-IsBacked :
      (r : Raft)
      → IsBacked r
      → (let r' = (handle_election_timeout r).0 in
          (c : NodeId) → r'.voted_for ≡ some c → voted r'.id r'.current_term c)
      → IsBacked (handle_election_timeout r).0
  unfolding handle_election_timeout start_candidacy become_leader insert contains any quorum
  handle_election_timeout-IsBacked r b cast = elim (Bool-cases (is_leader r.role)) [
    | inl l ↦ rw l b
    | inr l ↦ elim (Bool-cases (is_empty r.peers)) [
      | inl alone ↦
          let own = (rw (l, alone) at cast) r.id refl in
          rw (l, alone)
            (record {
              running = λ k. absurd (ground arith);
              elected = λ k. (r.id ∷ [], ((refl, tt), ((own, ground arith), tt)), ground arith);
            })
      | inr peers ↦
          let own = (rw (l, peers) at cast) r.id refl in
          rw (l, peers)
            (record {
              running = λ k. ((refl, tt), ((own, ground arith), tt));
              elected = λ k. absurd (ground arith);
            })
    ]
  ]

  -- The votes that an event reports to the node were cast.
  abbrev pub IsGenuine : Raft → Event → Type 0
  IsGenuine r (message (request_vote_response m)) =
      m.vote_granted ≡ true → voted m.vote_from m.term r.id
  IsGenuine r (message (request_vote m)) = Unit {0}
  IsGenuine r (message (append_entries m)) = Unit {0}
  IsGenuine r (message (append_entries_response m)) = Unit {0}
  IsGenuine r election_timeout = Unit {0}
  IsGenuine r heartbeat_timeout = Unit {0}
  IsGenuine r (client_request c) = Unit {0}

  -- Steps keep a candidate and a leader backed by votes that were cast, if the votes that reach the
  -- node are genuine and its own vote counts as cast.
  pub step-IsBacked :
      (r : Raft) (e : Event) (p : Raft × List Action)
      → step r e ≡ some p
      → IsBacked r
      → IsGenuine r e
      → ((c : NodeId) → p.0.voted_for ≡ some c → voted p.0.id p.0.current_term c)
      → IsBacked p.0
  unfolding step handle_message
  step-IsBacked r (message (request_vote m)) p h b g own =
      Retires-IsBacked r p.0 (ground (arith, handle_request_vote-Retires r m)) b
  step-IsBacked r (message (request_vote_response m)) p h b g own =
      subst (λ (q : Raft × List Action). IsBacked q.0) (some-injective _ p h)
        (handle_vote_response-IsBacked r m b g)
  step-IsBacked r (message (append_entries m)) p h b g own =
      Retires-IsBacked r p.0 (ground (arith, handle_append_entries-Retires r m)) b
  step-IsBacked r (message (append_entries_response m)) p h b g own =
      Retires-IsBacked r p.0 (handle_append_entries_response-Retires r m p h) b
  step-IsBacked r election_timeout p h b g own =
      let same = some-injective _ p h in
      subst (λ (q : Raft × List Action). IsBacked q.0) same
        (handle_election_timeout-IsBacked r b (
          subst
            (λ (q : Raft × List Action).
              (c : NodeId) → q.0.voted_for ≡ some c → voted q.0.id q.0.current_term c)
            (sym same) own))
  step-IsBacked r heartbeat_timeout p h b g own =
      let same = handle_heartbeat_timeout-same r p h in subst IsBacked (sym same) b
  step-IsBacked r (client_request c) p h b g own =
      Retires-IsBacked r p.0 (ground (arith, handle_client_request-Retires r c)) b

-- More votes back no less.
pub IsBacked-mono :
    (old new : NodeId → Term → NodeId → Type 0)
    → ((v : NodeId) (t : Term) (c : NodeId) → old v t c → new v t c)
    → (r : Raft) → IsBacked old r
    → IsBacked new r
IsBacked-mono old new more r b = record {
  running = λ c. raised _ (b.running c);
  elected = λ c. let (vs, s, q) = b.elected c in (vs, raised vs s, q);
}
  where
    raised : (vs : List NodeId) → Supports old r vs → Supports new r vs
    raised vs (d, a) = (d, go vs a)
      where
        go : (xs : List NodeId) → All (Supporter old r) xs → All (Supporter new r) xs
        go [] u = tt
        go (x ∷ xs) ((c, k), u) = ((more x r.current_term r.id c, k), go xs u)
