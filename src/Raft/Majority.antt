-- ===== src/Raft/Majority.antt =====
-- vote.rs and lib.rs: how many votes make a leader, and which vote decides.
use raft_craft.Prelude.{
  suc, ◌+◌, ◌/◌, ◌≤◌, ◌<◌, ◌≡◌, ◌↔◌, refl, subst, inl, inr, true, false, List, [], ◌∷◌, some, arith,
  ltb, leb, length, length-insert, contains, contains-insert, insert, any, Bool-cases,
  if◌then◌else◌, is_empty,
}
use raft_craft.Protocol.{NodeId, RequestVoteResponse}
use raft_craft.Raft.State.{Raft, CandidateState, has_majority, is_leader, is_candidate, quorum}
use raft_craft.Raft.Vote.{
  step_down, become_leader, count_vote, candidate_state_or_default, handle_vote_response,
}
use raft_craft.Raft.Election.{start_candidacy, handle_election_timeout}

-- `quorum` is the documented majority of the cluster of the node and its peers, so that two quorums
-- always share a member, and it is never out of reach.
pub quorum-majority :
    (r : Raft)
    → (quorum r ≡ (length r.peers + 1) / 2 + 1)
      × (length r.peers + 1 < quorum r + quorum r)
      × (quorum r ≤ length r.peers + 1)
unfolding quorum
quorum-majority r = ground arith

-- The books of a candidate: its own vote is in, who granted has answered, and the race is open.
pub record CountsVotes (r : Raft) (c : CandidateState) : Type 0 where
  pub own : contains c.votes_granted r.id ≡ true
  pub answered :
      (x : NodeId) → contains c.votes_granted x ≡ true → contains c.votes_received x ≡ true
  pub undecided : length c.votes_granted < quorum r

-- The answer that decides: of this term, from a peer not heard yet, a grant, and the last one
-- needed.
abbrev pub Decides : Raft → CandidateState → RequestVoteResponse → Type 0
Decides r c m =
    (m.term ≡ r.current_term)
    × (contains r.peers m.vote_from ≡ true)
    × (contains c.votes_received m.vote_from ≡ false)
    × (m.vote_granted ≡ true)
    × (suc (length c.votes_granted) ≡ quorum r)

not_granted :
    (r : Raft) (c : CandidateState) (x : NodeId)
    → CountsVotes r c
    → contains c.votes_received x ≡ false
    → contains c.votes_granted x ≡ false
not_granted r c x v h = elim (Bool-cases (contains c.votes_granted x)) [
  | inl e ↦ absurd (ground (arith, v.answered x e))
  | inr e ↦ e
]

count_vote_wins :
    (r : Raft) (c : CandidateState) (m : RequestVoteResponse)
    → is_candidate r.role ≡ true
    → CountsVotes r c
    → (is_leader (count_vote r c m).0.role ≡ true) ↔ (
        (contains c.votes_received m.vote_from ≡ false)
        × (m.vote_granted ≡ true)
        × (suc (length c.votes_granted) ≡ quorum r))
unfolding count_vote has_majority become_leader
count_vote_wins r c m role v = (
  λ won. ground (
    arith,
    v.undecided,
    length-insert m.vote_from c.votes_granted,
    not_granted r c m.vote_from v,
  ),
  λ d. ground (
    arith,
    v.undecided,
    length-insert m.vote_from c.votes_granted,
    not_granted r c m.vote_from v,
  ),
)

-- A candidate whose own vote is counted, whose granting peers are recorded as heard and who has
-- no quorum yet becomes leader on an answer if and only if the answer is of its term, from a peer
-- that it has not heard, grants the vote, and is the last vote that was missing.
pub handle_vote_response_wins :
    (r : Raft) (c : CandidateState) (m : RequestVoteResponse)
    → is_candidate r.role ≡ true
    → r.candidate_state ≡ some c
    → CountsVotes r c
    → (is_leader (handle_vote_response r m).0.role ≡ true) ↔ Decides r c m
unfolding handle_vote_response step_down
handle_vote_response_wins r c m role e v = (
  λ won. ground (arith, (count_vote_wins r c m role v).0),
  λ d. ground (arith, (count_vote_wins r c m role v).1),
)

length-pos : (xs : List NodeId) → is_empty xs ≡ false → 0 < length xs
length-pos [] h = cc
length-pos (x ∷ xs) h = omega arith

-- The books of a candidate in a cluster of more than one node.
abbrev pub IsElecting : Raft → Type 0
IsElecting r = (c : CandidateState) × (r.candidate_state ≡ some c) × CountsVotes r c

start_candidacy-CountsVotes :
    (r : Raft)
    → is_empty r.peers ≡ false
    → CountsVotes
        (start_candidacy r)
        (record { votes_received = insert r.id []; votes_granted = insert r.id [] })
unfolding start_candidacy quorum insert contains any
start_candidacy-CountsVotes r p = record {
  own = ground arith;
  answered = λ x h. h;
  undecided = ground (arith, length-pos r.peers p);
}

-- An election timeout makes a node with peers that is not leader a candidate whose own vote is
-- counted, whose granting peers are recorded as heard, and who has no quorum yet.
handle_election_timeout-IsElecting :
    (r : Raft)
    → is_leader r.role ≡ false
    → is_empty r.peers ≡ false
    → IsElecting (handle_election_timeout r).0
      × (is_candidate (handle_election_timeout r).0.role ≡ true)
unfolding handle_election_timeout start_candidacy
handle_election_timeout-IsElecting r l p =
    rw (l, p) ((_, refl, start_candidacy-CountsVotes r p), refl)

module _ (r : Raft) (c : CandidateState) (m : RequestVoteResponse) (v : CountsVotes r c) where
  counted : CandidateState
  counted = record {
    votes_received = insert m.vote_from c.votes_received;
    votes_granted = if m.vote_granted then insert m.vote_from c.votes_granted else c.votes_granted;
  }

  counted-own : contains counted.votes_granted r.id ≡ true
  unfolding counted
  counted-own = ground (arith, v.own, contains-insert m.vote_from r.id c.votes_granted)

  counted-answered :
      (x : NodeId)
      → contains counted.votes_granted x ≡ true
      → contains counted.votes_received x ≡ true
  unfolding counted
  counted-answered x h = ground (
    arith,
    v.answered x,
    contains-insert m.vote_from x c.votes_granted,
    contains-insert m.vote_from x c.votes_received,
  )

  count_vote-IsElecting :
      is_candidate (count_vote r c m).0.role ≡ true → IsElecting (count_vote r c m).0
  unfolding count_vote has_majority become_leader counted quorum
  count_vote-IsElecting h = elim (Bool-cases (contains c.votes_received m.vote_from)) [
    | inl e ↦ rw e (c, refl, record { own = v.own; answered = v.answered; undecided = v.undecided })
    | inr e ↦ elim (Bool-cases (leb (quorum r) (length counted.votes_granted))) [
      | inl won ↦ absurd (ground arith)
      | inr more ↦
          rw (e, more)
            (
              counted,
              refl,
              record { own = counted-own; answered = counted-answered; undecided = ground arith },
            )
    ]
  ]

-- An answer after which a candidate is still candidate leaves its own vote counted, the granting
-- peers recorded as heard, and the quorum open, if they were so before.
handle_vote_response-IsElecting :
    (r : Raft) (m : RequestVoteResponse)
    → IsElecting r
    → is_candidate (handle_vote_response r m).0.role ≡ true
    → IsElecting (handle_vote_response r m).0
unfolding handle_vote_response step_down
handle_vote_response-IsElecting r m (c, e, v) h = elim (Bool-cases (ltb r.current_term m.term)) [
  | inl newer ↦ absurd (ground arith)
  | inr a ↦ elim (Bool-cases (ltb m.term r.current_term)) [
    | inl stale ↦ rw (a, stale) (c, e, v)
    | inr b ↦ elim (Bool-cases (is_candidate r.role)) [
      | inr other ↦ rw (a, b, other) (c, e, v)
      | inl role ↦ elim (Bool-cases (contains r.peers m.vote_from)) [
        | inr unknown ↦ rw (a, b, role, unknown) (c, e, v)
        | inl peer ↦
            let d = candidate_state_or_default r in
            let same : c ≡ d = ground arith in
            rw (a, b, role, peer)
              (count_vote-IsElecting r d m (subst (CountsVotes r) same v) (ground arith))
      ]
    ]
  ]
]
