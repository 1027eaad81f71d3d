-- ===== src/Consensus/Election.antt =====
-- Election safety: at most one leader in a term, in every run of a cluster.
use raft_craft.Prelude.{
  suc, ◌+◌, ◌/◌, ◌<◌, ◌==◌, ◌≡◌, refl, sym, ap, ◌∙◌, inl, inr, true, List, [], ◌∷◌, arith, length,
  contains, any, ==_iff, Bool-cases, u64_mod,
}
use raft_craft.Protocol.{
  NodeId, Term, request_vote, request_vote_response, append_entries, append_entries_response, Event,
  message, election_timeout, heartbeat_timeout, client_request, Action,
}
use raft_craft.Raft.State.{Raft, new, restore, quorum, is_leader}
use raft_craft.Raft.Terms.{step-Later}
use raft_craft.Raft.Races.{step-SameIdentity}
use raft_craft.Raft.Majority.{quorum-majority}
use raft_craft.Raft.Supporters.{
  IsDistinct, Supports, IsBacked, IsGenuine, step-IsBacked, IsBacked-mono, follower-IsBacked,
}
use raft_craft.Raft.Parts.{Performs, whole-Performs, first_part-cases}
use raft_craft.Consensus.System.{
  System, start, after_step, after_restart, peers_in, CanOccur, handle, interrupt, crash, Reach,
  begin, next, Voted,
}
use raft_craft.Consensus.Ballots.{
  update-elim, Archives, Voted-old, Voted-own, after_step-Archives, after_restart-Archives,
}
use raft_craft.Consensus.Quorums.{Within, quorums_meet, length-peers_in, contains-peers_in}

-- Every node is itself among the members, the history of votes is sound, and candidates and leaders
-- are backed by it.
pub record Invariant (members : List NodeId) (s : System) : Type 0 where
  pub identity : (i : NodeId) → ((s.nodes i).id ≡ i) × ((s.nodes i).peers ≡ peers_in members i)
  pub archives : Archives s
  pub backed : (i : NodeId) → IsBacked (Voted s) (s.nodes i)

begin-Invariant : (members : List NodeId) → Invariant members (start members)
unfolding new
begin-Invariant members = record {
  identity = λ i. (refl, refl);
  archives = record {
    on_nodes = λ i c h. cc;
    on_disks = λ i c h. cc;
    final_on_nodes = λ i t c h. absurd h;
    final_on_disks = λ i t c h. absurd h;
    unique = λ i t b c h k. absurd h;
    on_network = λ to m h g. absurd h;
  };
  backed = λ i. follower-IsBacked (Voted (start members)) (new i (peers_in members i)) refl;
}

CanOccur-IsGenuine :
    (s : System) (i : NodeId) (e : Event)
    → Archives s
    → (s.nodes i).id ≡ i
    → CanOccur s i e
    → IsGenuine (Voted s) (s.nodes i) e
CanOccur-IsGenuine s i (message (request_vote_response m)) a self o =
    λ granted. rw self (a.on_network i m o granted)
CanOccur-IsGenuine s i (message (request_vote m)) a self o = tt
CanOccur-IsGenuine s i (message (append_entries m)) a self o = tt
CanOccur-IsGenuine s i (message (append_entries_response m)) a self o = tt
CanOccur-IsGenuine s i election_timeout a self o = tt
CanOccur-IsGenuine s i heartbeat_timeout a self o = tt
CanOccur-IsGenuine s i (client_request c) a self o = tt

IsGenuine-mono :
    (old new : NodeId → Term → NodeId → Type 0)
    → ((v : NodeId) (t : Term) (c : NodeId) → old v t c → new v t c)
    → (r : Raft) (e : Event) → IsGenuine old r e
    → IsGenuine new r e
IsGenuine-mono old new more r (message (request_vote_response m)) g =
    λ granted. more m.vote_from m.term r.id (g granted)
IsGenuine-mono old new more r (message (request_vote m)) g = tt
IsGenuine-mono old new more r (message (append_entries m)) g = tt
IsGenuine-mono old new more r (message (append_entries_response m)) g = tt
IsGenuine-mono old new more r election_timeout g = tt
IsGenuine-mono old new more r heartbeat_timeout g = tt
IsGenuine-mono old new more r (client_request c) g = tt

pub after_step-Invariant :
    (members : List NodeId) (s : System) (i : NodeId) (e : Event) (p : Raft × List Action)
    → Invariant members s
    → CanOccur s i e
    → suc (s.nodes i).current_term < u64_mod
    → Performs (s.nodes i) e p
    → Invariant members (after_step s i p)
after_step-Invariant members s i e p v o fits done =
    let r = s.nodes i in
    let t = after_step s i p in
    let (id_same, peers_same) = step-SameIdentity r e _ done.stepped in
    let (self, peers) = v.identity i in
    let more = Voted-old s i p in
    record {
      identity =
          update-elim (λ j x. (x.id ≡ j) × (x.peers ≡ peers_in members j)) s.nodes i p.0
            (id_same ∙ self, peers_same ∙ peers) (λ j other. v.identity j);
      archives =
          after_step-Archives s i e p v.archives self (step-Later r e _ fits done.stepped) done;
      backed =
          update-elim (λ j x. IsBacked (Voted t) x) s.nodes i p.0
            (step-IsBacked (Voted t) r e _ done.stepped
              (IsBacked-mono (Voted s) (Voted t) more r (v.backed i))
              (IsGenuine-mono (Voted s) (Voted t) more r e
                (CanOccur-IsGenuine s i e v.archives self o))
              (λ c vote. rw (id_same, self) (Voted-own s i p c vote)))
            (λ j other. IsBacked-mono (Voted s) (Voted t) more (s.nodes j) (v.backed j));
    }

after_restart-Invariant :
    (members : List NodeId) (s : System) (i : NodeId)
    → Invariant members s
    → Invariant members (after_restart members s i)
unfolding restore new
after_restart-Invariant members s i v = record {
  identity =
      update-elim (λ j x. (x.id ≡ j) × (x.peers ≡ peers_in members j)) s.nodes i _ (refl, refl)
        (λ j other. v.identity j);
  archives = after_restart-Archives members s i v.archives;
  backed =
      update-elim (λ j x. IsBacked (Voted s) x) s.nodes i _ (follower-IsBacked (Voted s) _ refl)
        (λ j other. v.backed j);
}

pub Reach-Invariant : {members : List NodeId} {s : System} → Reach members s → Invariant members s
Reach-Invariant {members} begin = begin-Invariant members
Reach-Invariant {members} (next {s} r (handle i e p here o fits short done)) =
    after_step-Invariant members s i e p (Reach-Invariant r) o fits
      (whole-Performs (s.nodes i) e p done)
Reach-Invariant {members} (next {s} r (interrupt i e p acts rest here o fits short done split)) =
    elim (first_part-cases (s.nodes i) e p acts rest done split) [
      | inl (kept, part) ↦ rw kept (
          after_restart-Invariant members (after_step s i (p.0, acts)) i
            (after_step-Invariant members s i e (p.0, acts) (Reach-Invariant r) o fits part))
      | inr (lost, _, silent) ↦
          rw (lost, silent) (after_restart-Invariant members s i (Reach-Invariant r))
    ]
Reach-Invariant {members} (next {s} r (crash i here)) =
    after_restart-Invariant members s i (Reach-Invariant r)

-- In every run of a cluster no node ever votes for two candidates in one term, whatever is lost,
-- repeated or reordered on the network and however often nodes crash, also between two actions of a
-- step, and start again from what they had saved. (A vote that a crash has lost before its save
-- counts as not cast. Terms and logs stay below the largest number.)
pub Reach-one_vote :
    {members : List NodeId} {s : System}
    → Reach members s
    → (v : NodeId) (t : Term) (a b : NodeId) → Voted s v t a
    → Voted s v t b
    → a ≡ b
Reach-one_vote r v t a b x y = (Reach-Invariant r).archives.unique v t a b x y

pub quorum_of_member :
    (members : List NodeId) (s : System) (i : NodeId)
    → Invariant members s
    → IsDistinct members
    → contains members i ≡ true
    → quorum (s.nodes i) ≡ length members / 2 + 1
quorum_of_member members s i v d here =
    let all : length (s.nodes i).peers + 1 ≡ length members =
      omega (arith, ap length (v.identity i).1, length-peers_in members i d here) in
    (quorum-majority (s.nodes i)).0 ∙ ap (λ n. n / 2 + 1) all

pub voters-Within :
    (members : List NodeId) (s : System) (i : NodeId) (vs : List NodeId)
    → Invariant members s
    → contains members i ≡ true
    → Supports (Voted s) (s.nodes i) vs
    → Within members vs
voters-Within members s i [] v here h = tt
voters-Within members s i (x ∷ vs) v here ((new, d), ((cast, known), hs)) =
    let (self, peers) = v.identity i in
    (
      contains-peers_in members i x here (rw (self, peers) at known),
      voters-Within members s i vs v here (d, hs),
    )

voter-Voted :
    (s : System) (i x : NodeId) (vs : List NodeId)
    → Supports (Voted s) (s.nodes i) vs
    → contains vs x ≡ true
    → Voted s x (s.nodes i).current_term (s.nodes i).id
unfolding contains any
voter-Voted s i x [] h there = cc
voter-Voted s i x (v ∷ vs) ((new, d), ((cast, known), hs)) there = elim (Bool-cases (v == x)) [
  | inl e ↦ rw (← (==_iff v x).0 e) cast
  | inr e ↦ voter-Voted s i x vs (d, hs) (rw e at there)
]

-- Election safety: in every run of a cluster of distinct members, two members that are leaders in
-- the same term are the same. (The network may lose, repeat, delay and reorder messages, and
-- nodes may crash, also between two actions of a step, and start again from what they had saved;
-- terms and logs stay below the largest number.)
pub Reach-one_leader :
    {members : List NodeId} {s : System}
    → IsDistinct members
    → Reach members s
    → (i j : NodeId) → contains members i ≡ true
    → contains members j ≡ true
    → is_leader (s.nodes i).role ≡ true
    → is_leader (s.nodes j).role ≡ true
    → (s.nodes i).current_term ≡ (s.nodes j).current_term
    → i ≡ j
Reach-one_leader {members} {s} d r i j here there leads leads' same =
    let v = Reach-Invariant r in
    let (vs, support, enough) = (v.backed i).elected leads in
    let (ws, support', enough') = (v.backed j).elected leads' in
    let (x, in_vs, in_ws) =
      quorums_meet members vs ws support.0 support'.0 (voters-Within members s i vs v here support)
        (voters-Within members s j ws v there support')
        (omega (
          arith,
          quorum_of_member members s i v d here,
          quorum_of_member members s j v d there,
          enough,
          enough',
        )) in
    sym (v.identity i).0
    ∙ Reach-one_vote r x (s.nodes i).current_term (s.nodes i).id (s.nodes j).id
        (voter-Voted s i x vs support in_vs) (rw same (voter-Voted s j x ws support' in_ws))
    ∙ (v.identity j).0
