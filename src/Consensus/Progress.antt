-- ===== src/Consensus/Progress.antt =====
-- How a cluster can come to a leader: raft-core/src/raft/vote.rs, the votes of a poll one by one.
pub mod Elections
use raft_craft.Prelude.{
  ◌==◌, ==_iff, ==_refl, ◌≡◌, refl, sym, ap, ◌∙◌, subst, inl, inr, ℕ, suc, ◌+◌, ◌≤◌, ◌<◌, arith,
  true, false, not, ◌||◌, Bool-cases, ◌⊎◌, List, [], ◌∷◌, ◌++◌, length, is_empty, contains, any,
  filter, All, Any, Any-append_left, Any-append_right, u64_mod, if◌then◌else◌,
}
use raft_craft.Protocol.{
  NodeId, RequestVote, RequestVoteResponse, request_vote, request_vote_response, message,
  election_timeout, Action,
}
use raft_craft.Raft.State.{Raft, is_leader, quorum}
use raft_craft.Raft.Vote.{candidate_log_up_to_date, handle_request_vote, handle_vote_response}
use raft_craft.Raft.Election.{handle_election_timeout}
use raft_craft.Raft.Step.{step, handle_message}
use raft_craft.Raft.Ballots.{sends}
use raft_craft.Raft.Polling.{
  IsPolling, request_of, request_vote-grants, vote_response-counts, election_timeout-polls,
  election_timeout-leads,
}
use raft_craft.Raft.Supporters.{IsDistinct}
use raft_craft.Consensus.System.{
  System, after_step, peers_in, update, CanOccur, Step, handle, Reach,
}
use raft_craft.Consensus.Election.{Reach-Invariant}

-- A run that goes on from one state of the cluster to another.
pub data Continues (members : List NodeId) : System → System → Type 0 where
  stays : {s : System} → Continues members s s
  goes : {s t u : System} → Step members s t → Continues members t u → Continues members s u

-- A member that has not reached the term of the request, and that finds the candidate's log at
-- least as new as its own.
pub record WouldVote (members : List NodeId) (s : System) (m : RequestVote) (v : NodeId)
    : Type 0 where
  pub member : contains members v ≡ true
  pub behind : (s.nodes v).current_term < m.term
  pub fresh : candidate_log_up_to_date (s.nodes v) m ≡ true
  pub short : suc (length (s.nodes v).log) < u64_mod

quorum-same : (r r' : Raft) → r.peers ≡ r'.peers → quorum r ≡ quorum r'
unfolding quorum
quorum-same r r' e = rw e refl

module _ (members : List NodeId) (i : NodeId) (m : RequestVote) where
  -- A voter whose request is on its way, and who has not answered yet.
  record IsAsked (s : System) (votes : List NodeId) (v : NodeId) : Type 0 where
    willing : WouldVote members s m v
    other : (i == v) ≡ false
    known : (s.nodes v).id ≡ v
    asked : Any (λ x. x ≡ (v, request_vote m)) s.sent
    new : contains votes v ≡ false
    peer : contains (s.nodes i).peers v ≡ true

  IsAsked-kept :
      (s t : System) (votes : List NodeId) (v x : NodeId)
      → (v == x) ≡ false
      → t.nodes x ≡ s.nodes x
      → (t.nodes i).peers ≡ (s.nodes i).peers
      → (Any (λ y. y ≡ (x, request_vote m)) s.sent → Any (λ y. y ≡ (x, request_vote m)) t.sent)
      → IsAsked s votes x
      → IsAsked t (v ∷ votes) x
  unfolding contains any
  IsAsked-kept s t votes v x apart same peers more a = record {
    willing = record {
      member = a.willing.member;
      behind = rw same a.willing.behind;
      fresh = rw same a.willing.fresh;
      short = rw same a.willing.short;
    };
    other = a.other;
    known = rw same a.known;
    asked = more a.asked;
    new = rw (apart, a.new) refl;
    peer = rw peers a.peer;
  }

  all_kept :
      (s t : System) (votes : List NodeId) (v : NodeId) (xs : List NodeId)
      → contains xs v ≡ false
      → ((x : NodeId) → (v == x) ≡ false → IsAsked s votes x → IsAsked t (v ∷ votes) x)
      → All (IsAsked s votes) xs
      → All (IsAsked t (v ∷ votes)) xs
  unfolding contains any
  all_kept s t votes v [] h f a = tt
  all_kept s t votes v (x ∷ xs) h f (a, others) = elim (Bool-cases (x == v)) [
    | inl e ↦ absurd (let clash = rw e at h in cc)
    | inr e ↦
        let apart : (v == x) ≡ false = ground arith in
        (f x apart a, all_kept s t votes v xs (rw e at h) f others)
  ]

  -- The poll of node `i`, which lacks votes.
  record IsOpen (s : System) (votes : List NodeId) : Type 0 where
    member : contains members i ≡ true
    self : m.candidate_id ≡ i
    poll : IsPolling (s.nodes i) m.term votes
    few : length votes < quorum (s.nodes i)
    fits : suc m.term < u64_mod
    short : suc (length (s.nodes i).log) < u64_mod

  abbrev answer : NodeId → RequestVoteResponse
  answer v = record { term = m.term; vote_granted = true; vote_from = v }

  module _ (s : System) (votes : List NodeId) (v : NodeId) (o : IsOpen s votes)
      (a : IsAsked s votes v) where
    abbrev cast : Raft × List Action
    cast = handle_request_vote (s.nodes v) m

    abbrev voted : System
    voted = after_step s v cast

    abbrev heard : Raft × List Action
    heard = handle_vote_response (voted.nodes i) (answer v)

    abbrev next : System
    next = after_step voted i heard

    candidate_waits : voted.nodes i ≡ s.nodes i
    candidate_waits = let apart : (v == i) ≡ false = ground (arith, a.other) in rw apart refl

    next_here : next.nodes i ≡ heard.0
    next_here = rw (==_refl i) refl

    votes_now : Step members s voted
    unfolding step handle_message
    votes_now =
        handle v (message (request_vote m)) cast a.willing.member a.asked
          (omega (arith, a.willing.behind, o.fits)) a.willing.short refl

    answer_sent : CanOccur voted i (message (request_vote_response (answer v)))
    answer_sent =
        let l = sends cast.1 in
        let from_voter =
          subst (λ z. Any (λ x. x ≡ (m.candidate_id, request_vote_response (answer z))) l) a.known
            (request_vote-grants (s.nodes v) m a.willing.behind a.willing.fresh) in
        Any-append_left (λ x. x ≡ (i, request_vote_response (answer v))) l s.sent
          (subst (λ z. Any (λ x. x ≡ (z, request_vote_response (answer v))) l) o.self from_voter)

    open_poll : IsPolling (voted.nodes i) m.term votes
    open_poll = rw candidate_waits o.poll

    hears_now : Step members voted next
    unfolding step handle_message
    hears_now =
        let before : (voted.nodes i).current_term ≡ m.term = open_poll.term in
        handle i (message (request_vote_response (answer v))) heard o.member answer_sent
          (omega (arith, before, o.fits)) (rw candidate_waits o.short) refl

    counts :
        ((is_leader heard.0.role ≡ true)
          ⊎ (IsPolling heard.0 m.term (v ∷ votes) × (suc (length votes) < quorum heard.0)))
        × (heard.0.id ≡ (voted.nodes i).id)
        × (heard.0.peers ≡ (voted.nodes i).peers)
        × (heard.0.log ≡ (voted.nodes i).log)
    counts =
        vote_response-counts (voted.nodes i) m.term votes v open_poll (rw candidate_waits a.peer)
          a.new

    next_peers : (next.nodes i).peers ≡ (s.nodes i).peers
    next_peers = ap (λ r. r.peers) next_here ∙ counts.2 ∙ ap (λ r. r.peers) candidate_waits

    still-IsAsked : (x : NodeId) → (v == x) ≡ false → IsAsked s votes x → IsAsked next (v ∷ votes) x
    still-IsAsked x apart b =
        let same : next.nodes x ≡ s.nodes x = rw (b.other, apart) refl in
        IsAsked-kept s next votes v x apart same next_peers
          (λ y.
            Any-append_right _ (sends heard.1) voted.sent
              (Any-append_right _ (sends cast.1) s.sent y))
          b

    still-IsOpen :
        IsPolling heard.0 m.term (v ∷ votes)
        → suc (length votes) < quorum heard.0
        → IsOpen next (v ∷ votes)
    still-IsOpen poll few = record {
      member = o.member;
      self = o.self;
      poll = rw next_here poll;
      few = rw next_here few;
      fits = o.fits;
      short = rw (next_here, counts.3, candidate_waits) o.short;
    }

  -- The votes that are asked for are cast and heard one after the other until they are enough.
  polled :
      (s : System) (votes vs : List NodeId)
      → IsOpen s votes
      → All (IsAsked s votes) vs
      → IsDistinct vs
      → quorum (s.nodes i) ≤ length votes + length vs
      → (t : System) × Continues members s t × (is_leader (t.nodes i).role ≡ true)
  polled s votes [] o a d enough = absurd (omega (arith, o.few))
  polled s votes (v ∷ vs) o (a, rest) (new, d) enough =
      let t = next s votes v o a in
      let onward : (u : System) → Continues members t u → Continues members s u =
        λ u c. goes (votes_now s votes v o a) (goes (hears_now s votes v o a) c) in
      let here = next_here s votes v o a in
      elim (counts s votes v o a).0 [
        | inl leads ↦ (t, onward t stays, ap (λ r. is_leader r.role) here ∙ leads)
        | inr (poll, few) ↦
            let kept = all_kept s t votes v vs new (still-IsAsked s votes v o a) rest in
            let size = quorum-same (t.nodes i) (s.nodes i) (next_peers s votes v o a) in
            let (u, c, leads) =
              polled t (v ∷ votes) vs (still-IsOpen s votes v o a poll few) kept d
                (omega (arith, size)) in
            (u, onward u c, leads)
      ]
