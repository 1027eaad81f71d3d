-- ===== src/Consensus/Ballots.antt =====
-- The history of votes in a cluster: no node votes for two candidates in one term, across crashes
-- too.
use raft_craft.Prelude.{
  ◌<◌, ◌==◌, ==_iff, ◌≡◌, refl, sym, ap, ◌∙◌, subst, ◌⊎◌, inl, inr, true, false, List, some, arith,
  Any, All-occurs, Any-append, Any-append_right, Bool-cases, Option-cases,
}
use raft_craft.Protocol.{NodeId, Term, RequestVoteResponse, request_vote_response, Action, Event}
use raft_craft.Raft.State.{Raft, PersistentState, new, restore}
use raft_craft.Raft.Terms.{Later}
use raft_craft.Raft.Races.{step-SameIdentity}
use raft_craft.Raft.Ballots.{IsHonest, sends}
use raft_craft.Raft.Parts.{Performs, Performs-SavedOrRaised, Performs-AllHonest}
use raft_craft.Raft.Durability.Unsaved.{saves}
use raft_craft.Consensus.System.{System, update, ballot_of, after_step, after_restart, Voted}

pub update-elim :
    {A : Type 0} (P : NodeId → A → Type 0) (f : NodeId → A) (i : NodeId) (a : A)
    → P i a
    → ((j : NodeId) → (i == j) ≡ false → P j (f j))
    → (j : NodeId) → P j (update f i a j)
update-elim P f i a here others j = elim (Bool-cases (i == j)) [
  | inl e ↦ rw e (subst (λ k. P k a) ((==_iff i j).0 e) here)
  | inr e ↦ rw e (others j e)
]

-- The vote of a term is over, or it stands in this state.
abbrev pub IsFinal : Term → NodeId → PersistentState → Type 0
IsFinal t c s = (t < s.current_term) ⊎ ((t ≡ s.current_term) × (s.voted_for ≡ some c))

Later-IsFinal :
    (t : Term) (c : NodeId) (r r' : Raft)
    → Later r r'
    → IsFinal t c r.persistent
    → IsFinal t c r'.persistent
Later-IsFinal t c r r' l f = ground arith

-- What the history is worth: it has one vote of a node in a term, the states on nodes and disks
-- are in it and have not gone back behind it, and every granted vote on the network is in it.
pub record Archives (s : System) : Type 0 where
  pub on_nodes :
      (i c : NodeId) → (s.nodes i).voted_for ≡ some c → Voted s i (s.nodes i).current_term c
  pub on_disks :
      (i c : NodeId) → (s.disks i).voted_for ≡ some c → Voted s i (s.disks i).current_term c
  pub final_on_nodes :
      (i : NodeId) (t : Term) (c : NodeId) → Voted s i t c → IsFinal t c (s.nodes i).persistent
  pub final_on_disks :
      (i : NodeId) (t : Term) (c : NodeId) → Voted s i t c → IsFinal t c (s.disks i)
  pub unique : (i : NodeId) (t : Term) (b c : NodeId) → Voted s i t b → Voted s i t c → b ≡ c
  pub on_network :
      (to : NodeId) (m : RequestVoteResponse)
      → Any (λ x. x ≡ (to, request_vote_response m)) s.sent
      → m.vote_granted ≡ true
      → Voted s m.vote_from m.term to

module _ (s : System) (i : NodeId) (p : Raft × List Action) where
  abbrev s' : System
  s' = after_step s i p

  pub Voted-old : (v : NodeId) (t : Term) (c : NodeId) → Voted s v t c → Voted s' v t c
  Voted-old v t c h =
      Any-append_right (λ b. b ≡ record { voter = v; term = t; candidate = c })
        (ballot_of i p.0.persistent) s.ballots h

  pub Voted-own : (c : NodeId) → p.0.voted_for ≡ some c → Voted s' i p.0.current_term c
  Voted-own c e = rw e (inl refl)

  Voted-cases :
      (v : NodeId) (t : Term) (c : NodeId)
      → Voted s' v t c
      → Voted s v t c ⊎ ((v ≡ i) × (t ≡ p.0.current_term) × (p.0.voted_for ≡ some c))
  Voted-cases v t c h = elim (Option-cases p.0.voted_for) [
    | inl e ↦ inl (rw e at h)
    | inr (x, e) ↦ elim (rw e at h) [
      | inr old ↦ inl old
      | inl b ↦ inr (
        sym (ap (λ y. y.voter) b),
        sym (ap (λ y. y.term) b),
        e ∙ ap some (ap (λ y. y.candidate) b),
      )
    ]
  ]

module _ (s : System) (i : NodeId) (e : Event) (p : Raft × List Action) (a : Archives s)
    (self : (s.nodes i).id ≡ i) (later : Later (s.nodes i) p.0)
    (done : Performs (s.nodes i) e p) where
  abbrev r : Raft
  r = s.nodes i

  abbrev t' : System
  t' = after_step s i p

  after_step-on_nodes :
      (j c : NodeId) → (t'.nodes j).voted_for ≡ some c → Voted t' j (t'.nodes j).current_term c
  after_step-on_nodes =
      update-elim (λ j x. (c : NodeId) → x.voted_for ≡ some c → Voted t' j x.current_term c) s.nodes
        i p.0 (Voted-own s i p) (λ j other c h. Voted-old s i p _ _ c (a.on_nodes j c h))

  after_step-IsFinal_on_nodes :
      (j : NodeId) (t : Term) (c : NodeId) → Voted t' j t c → IsFinal t c (t'.nodes j).persistent
  after_step-IsFinal_on_nodes =
      update-elim (λ j x. (t : Term) (c : NodeId) → Voted t' j t c → IsFinal t c x.persistent)
        s.nodes i p.0
        (λ t c h. elim (Voted-cases s i p i t c h) [
          | inl old ↦ Later-IsFinal t c r p.0 later (a.final_on_nodes i t c old)
          | inr (_, now, vote) ↦ inr (now, vote)
        ])
        (λ j other t c h. elim (Voted-cases s i p j t c h) [
          | inl old ↦ a.final_on_nodes j t c old
          | inr (self, _, _) ↦ absurd (let same = (==_iff i j).1 (sym self) in cc)
        ])

  -- What is not saved adds no vote.
  unsaved_is_old :
      saves p.1 ≡ false → (v : NodeId) (t : Term) (c : NodeId) → Voted t' v t c → Voted s v t c
  unsaved_is_old off v t c h = elim (Voted-cases s i p v t c h) [
    | inl old ↦ old
    | inr (who, now, vote) ↦ elim (Performs-SavedOrRaised r e p done) [
      | inl on ↦ absurd (cc)
      | inr (inr raised) ↦ absurd (let none_cast = raised.no_vote in cc)
      | inr (inl same) ↦
          let before : r.voted_for ≡ some c = sym (ap (λ x. x.voted_for) same) ∙ vote in
          let moment : t ≡ r.current_term = now ∙ ap (λ x. x.current_term) same in
          rw (who, moment) (a.on_nodes i c before)
    ]
  ]

  abbrev RecordedAt : NodeId → PersistentState → Type 0
  RecordedAt j x = (c : NodeId) → x.voted_for ≡ some c → Voted t' j x.current_term c

  abbrev FinalAt : NodeId → PersistentState → Type 0
  FinalAt j x = (t : Term) (c : NodeId) → Voted t' j t c → IsFinal t c x

  after_step-disks :
      (P : NodeId → PersistentState → Type 0)
      → P i p.0.persistent
      → ((j : NodeId) → (i == j) ≡ false → P j (s.disks j))
      → (saves p.1 ≡ false → P i (s.disks i))
      → (j : NodeId) → P j (t'.disks j)
  after_step-disks P here others unsaved j = elim (Bool-cases (saves p.1)) [
    | inl on ↦ rw on (update-elim P s.disks i p.0.persistent here others j)
    | inr off ↦ rw off (elim (Bool-cases (i == j)) [
      | inl e ↦ subst (λ k. P k (s.disks k)) ((==_iff i j).0 e) (unsaved off)
      | inr e ↦ others j e
    ])
  ]

  after_step-on_disks : (j : NodeId) → RecordedAt j (t'.disks j)
  after_step-on_disks =
      after_step-disks RecordedAt (Voted-own s i p)
        (λ j other c h. Voted-old s i p _ _ c (a.on_disks j c h))
        (λ off c h. Voted-old s i p _ _ c (a.on_disks i c h))

  after_step-IsFinal_on_disks : (j : NodeId) → FinalAt j (t'.disks j)
  after_step-IsFinal_on_disks =
      after_step-disks FinalAt (after_step-IsFinal_here)
        (λ j other t c h. elim (Voted-cases s i p j t c h) [
          | inl old ↦ a.final_on_disks j t c old
          | inr (who, _, _) ↦ absurd (let same = (==_iff i j).1 (sym who) in cc)
        ])
        (λ off t c h. a.final_on_disks i t c (unsaved_is_old off i t c h))
    where
      after_step-IsFinal_here : FinalAt i p.0.persistent
      after_step-IsFinal_here t c h = elim (Voted-cases s i p i t c h) [
        | inl old ↦ Later-IsFinal t c r p.0 later (a.final_on_nodes i t c old)
        | inr (_, now, vote) ↦ inr (now, vote)
      ]

  after_step-on_network :
      (to : NodeId) (m : RequestVoteResponse)
      → Any (λ x. x ≡ (to, request_vote_response m)) t'.sent
      → m.vote_granted ≡ true
      → Voted t' m.vote_from m.term to
  after_step-on_network to m h granted =
      elim (Any-append (λ x. x ≡ (to, request_vote_response m)) (sends p.1) s.sent h) [
        | inr old ↦ Voted-old s i p _ _ to (a.on_network to m old granted)
        | inl fresh ↦
            let honest =
              All-occurs (λ x. IsHonest p.0 x.0 x.1) (sends p.1) (to, request_vote_response m)
                (Performs-AllHonest r e p done) fresh in
            elim honest [
              | inl refused ↦ absurd (cc)
              | inr (now, who, vote) ↦
                  let whom : m.vote_from ≡ i =
                    who ∙ (step-SameIdentity r e _ done.stepped).0 ∙ self in
                  rw (whom, now) (Voted-own s i p to vote)
            ]
      ]

  -- A vote that was cast before is the one that the new state holds.
  new_is_old : (b c : NodeId) → Voted s i p.0.current_term b → p.0.voted_for ≡ some c → b ≡ c
  new_is_old b c old vote =
      let f = Later-IsFinal p.0.current_term b r p.0 later (a.final_on_nodes i _ b old) in
      ground arith

  after_step_unique :
      (v : NodeId) (t : Term) (b c : NodeId) → Voted t' v t b → Voted t' v t c → b ≡ c
  after_step_unique v t b c x y = elim (Voted-cases s i p v t b x) [
    | inl old ↦ elim (Voted-cases s i p v t c y) [
      | inl old' ↦ a.unique v t b c old old'
      | inr (who, now, vote) ↦ new_is_old b c (rw (who, now) at old) vote
    ]
    | inr (who, now, vote) ↦ elim (Voted-cases s i p v t c y) [
      | inl old' ↦ sym (new_is_old c b (rw (who, now) at old') vote)
      | inr (_, _, vote') ↦ cc
    ]
  ]

  pub after_step-Archives : Archives t'
  after_step-Archives = record {
    on_nodes = after_step-on_nodes;
    on_disks = after_step-on_disks;
    final_on_nodes = after_step-IsFinal_on_nodes;
    final_on_disks = after_step-IsFinal_on_disks;
    unique = after_step_unique;
    on_network = after_step-on_network;
  }

pub after_restart-Archives :
    (members : List NodeId) (s : System) (i : NodeId)
    → Archives s
    → Archives (after_restart members s i)
unfolding restore new
after_restart-Archives members s i a = record {
  on_nodes =
      update-elim (λ j x. (c : NodeId) → x.voted_for ≡ some c → Voted s j x.current_term c) s.nodes
        i _ (a.on_disks i) (λ j other. a.on_nodes j);
  on_disks = a.on_disks;
  final_on_nodes =
      update-elim (λ j x. (t : Term) (c : NodeId) → Voted s j t c → IsFinal t c x.persistent)
        s.nodes i _ (a.final_on_disks i) (λ j other. a.final_on_nodes j);
  final_on_disks = a.final_on_disks;
  unique = a.unique;
  on_network = a.on_network;
}
