-- ===== src/Consensus/Progress/Elections.antt =====
-- An election from any state of a cluster: election.rs.
use raft_craft.Prelude.{
  ◌==◌, ==_refl, ◌≡◌, refl, ap, ◌∙◌, inl, inr, suc, ◌≤◌, ◌<◌, arith, true, false, Bool-cases, List,
  [], ◌∷◌, length, is_empty, contains, any, filter, All, Any, Any-append_left, u64_mod,
}
use raft_craft.Protocol.{NodeId, RequestVote, request_vote, election_timeout, Action}
use raft_craft.Raft.State.{Raft, is_leader, quorum}
use raft_craft.Raft.Election.{handle_election_timeout}
use raft_craft.Raft.Step.{step}
use raft_craft.Raft.Ballots.{sends}
use raft_craft.Raft.Polling.{IsPolling, request_of, election_timeout-polls, election_timeout-leads}
use raft_craft.Raft.Supporters.{IsDistinct}
use raft_craft.Consensus.System.{System, after_step, peers_in, Step, handle, Reach}
use raft_craft.Consensus.Election.{Reach-Invariant}
use raft_craft.Consensus.Progress.{
  Continues, stays, goes, WouldVote, IsAsked, IsOpen, polled, quorum-same,
}

contains-peers_in :
    (members : List NodeId) (i v : NodeId)
    → contains members v ≡ true
    → (i == v) ≡ false
    → contains (peers_in members i) v ≡ true
unfolding contains any filter
contains-peers_in [] i v h apart = h
contains-peers_in (x ∷ xs) i v h apart = ground (arith, contains-peers_in xs i v)

length_above_zero : (xs : List NodeId) → is_empty xs ≡ false → 0 < length xs
length_above_zero [] h = cc
length_above_zero (x ∷ xs) h = omega arith

quorum_above_one : (r : Raft) → is_empty r.peers ≡ false → 1 < quorum r
unfolding quorum
quorum_above_one r others = ground (arith, length_above_zero r.peers others)

module _ (members : List NodeId) (s : System) (run : Reach members s) (i : NodeId)
    (member : contains members i ≡ true) (idle : is_leader (s.nodes i).role ≡ false)
    (term_fits : suc (suc (s.nodes i).current_term) < u64_mod)
    (log_fits : suc (length (s.nodes i).log) < u64_mod) where
  abbrev m : RequestVote
  m = request_of (s.nodes i)

  abbrev asks : Raft × List Action
  asks = handle_election_timeout (s.nodes i)

  abbrev asked : System
  asked = after_step s i asks

  asks_now : Step members s asked
  unfolding step
  asks_now = handle i election_timeout asks member tt (omega (arith, term_fits)) log_fits refl

  asked_here : asked.nodes i ≡ asks.0
  asked_here = rw (==_refl i) refl

  module _ (others : is_empty (s.nodes i).peers ≡ false) where
    polls :
        IsPolling asks.0 m.term ((s.nodes i).id ∷ [])
        × (asks.0.id ≡ (s.nodes i).id)
        × (asks.0.peers ≡ (s.nodes i).peers)
        × (asks.0.log ≡ (s.nodes i).log)
        × ((v : NodeId)
            → contains (s.nodes i).peers v ≡ true
            → Any (λ x. x ≡ (v, request_vote m)) (sends asks.1))
    polls = election_timeout-polls (s.nodes i) others idle (omega (arith, term_fits))

    opened : IsOpen members i m asked ((s.nodes i).id ∷ [])
    opened = record {
      member = member;
      self = ((Reach-Invariant run).identity i).0;
      poll = rw asked_here polls.0;
      few =
          rw (asked_here, quorum-same asks.0 (s.nodes i) polls.2)
            (quorum_above_one (s.nodes i) others);
      fits = term_fits;
      short = rw (asked_here, polls.3) log_fits;
    }

    is_asked :
        (v : NodeId)
        → (i == v) ≡ false
        → WouldVote members s m v
        → IsAsked members i m asked ((s.nodes i).id ∷ []) v
    unfolding contains any
    is_asked v apart w =
        let (self, peers) = (Reach-Invariant run).identity i in
        let same : asked.nodes v ≡ s.nodes v = rw apart refl in
        let peer : contains (s.nodes i).peers v ≡ true =
          rw peers (contains-peers_in members i v w.member apart) in
        record {
          willing = record {
            member = w.member;
            behind = rw same w.behind;
            fresh = rw same w.fresh;
            short = rw same w.short;
          };
          other = apart;
          known = ap (λ r. r.id) same ∙ ((Reach-Invariant run).identity v).0;
          asked =
              Any-append_left (λ x. x ≡ (v, request_vote m)) (sends asks.1) s.sent (polls.4 v peer);
          new = rw (self, apart) refl;
          peer = rw (asked_here, polls.2) peer;
        }

    all_asked :
        (vs : List NodeId)
        → contains vs i ≡ false
        → All (WouldVote members s m) vs
        → All (IsAsked members i m asked ((s.nodes i).id ∷ [])) vs
    unfolding contains any
    all_asked [] h w = tt
    all_asked (v ∷ vs) h (w, rest) = elim (Bool-cases (v == i)) [
      | inl e ↦ absurd (let clash = rw e at h in cc)
      | inr e ↦
          let apart : (i == v) ≡ false = ground arith in
          (is_asked v apart w, all_asked vs (rw e at h) rest)
    ]

  -- From every state that a cluster can reach, a member that does not lead can become leader, if
  -- there are other members, a quorum together with it, that have not reached the term after its own
  -- and find its log at least as new as their own: there is a run that goes on from there to a state
  -- in which it leads. (The terms and the logs of these members have room to grow.)
  pub Reach-can_elect :
      (vs : List NodeId)
      → IsDistinct vs
      → contains vs i ≡ false
      → All (WouldVote members s m) vs
      → quorum (s.nodes i) ≤ suc (length vs)
      → (t : System) × Continues members s t × (is_leader (t.nodes i).role ≡ true)
  Reach-can_elect vs distinct apart willing enough =
      elim (Bool-cases (is_empty (s.nodes i).peers)) [
        | inl alone ↦ (
          asked,
          goes asks_now stays,
          ap (λ r. is_leader r.role) asked_here ∙ election_timeout-leads (s.nodes i) alone idle,
        )
        | inr others ↦
            let size =
              quorum-same (asked.nodes i) (s.nodes i)
                (ap (λ r. r.peers) asked_here ∙ (polls others).2) in
            let (t, c, leads) =
              polled members i m asked ((s.nodes i).id ∷ []) vs (opened others)
                (all_asked others vs apart willing) distinct (omega (arith, size, enough)) in
            (t, goes asks_now c, leads)
      ]
