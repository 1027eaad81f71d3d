-- ===== src/Consensus/Chronicle/Steps.antt =====
-- The history of the leaders stays sound under every step of a cluster.
use raft_craft.Prelude.{
  ◌≤◌, ◌==◌, ==_iff, ◌≡◌, sym, ap, ◌∙◌, subst, ◌⊎◌, inl, inr, true, false, List, [], ◌∷◌, some,
  arith, get_elem?, Any, All, All-occurs, All-get_elem?, Any-append, filter, Bool-cases,
}
use raft_craft.Protocol.{
  NodeId, Message, append_entries, append_entries_response, request_vote, request_vote_response,
  Event, Action,
}
use raft_craft.Raft.State.{Raft, follower, is_leader}
use raft_craft.Raft.Ballots.{sends}
use raft_craft.Raft.Races.{step-SameIdentity}
use raft_craft.Raft.Heartbeat.{append_entries_msg}
use raft_craft.Raft.Announcements.{IsOwn, Brings, append_entries_msg-Brings}
use raft_craft.Raft.Parts.{Performs-AllOwn}
use raft_craft.Consensus.System.{Reign, System, after_step, peers_in}
use raft_craft.Consensus.Ballots.{update-elim, Voted-old}
use raft_craft.Consensus.Histories.{
  IsPrefix, IsPrefix-refl, Held, IsElected, IsElected-unique, IsElected-mono,
}
use raft_craft.Consensus.Chronicle.{IsSound, IsOver, IsSourced, Chronicle}
use raft_craft.Consensus.Chronicle.Growth.{
  Taken, IsSound-mono, Held-old, Held-own, Held-cases, own-IsElected, continues, own-IsSound,
}
use raft_craft.Consensus.Chronicle.Terms.{
  own-IsOver, other-IsOver, on_all_disks, running_own, running_other, unsaved-IsOver,
}

IsSourced-mono :
    (hs ks : List Reign) (to : NodeId) (m : Message)
    → ((h : Reign) → Held hs h → Held ks h)
    → IsSourced hs to m
    → IsSourced ks to m
IsSourced-mono hs ks to (append_entries m) more (h, held, term, other, brings) =
    (h, more h held, term, other, brings)
IsSourced-mono hs ks to (append_entries_response m) more x = tt
IsSourced-mono hs ks to (request_vote m) more x = tt
IsSourced-mono hs ks to (request_vote_response m) more x = tt

peers_are_others :
    (i : NodeId) (members : List NodeId) → All (λ x. (x == i) ≡ false) (peers_in members i)
unfolding filter
peers_are_others i [] = tt
peers_are_others i (x ∷ members) = elim (Bool-cases (x == i)) [
  | inl e ↦ rw e (peers_are_others i members)
  | inr e ↦ rw e (e, peers_are_others i members)
]

module _ {members : List NodeId} {s : System} {i : NodeId} {e : Event} {p : Raft × List Action}
    (g : Taken members s i e p) where
  abbrev t : System
  t = after_step s i p

  abbrev mine : Reign
  mine = record { leader = i; term = p.0.current_term; log = p.0.log }

  old : (h : Reign) → Held s.reigns h → Held t.reigns h
  old = Held-old g

  cases :
      (h : Reign) → Held t.reigns h → Held s.reigns h ⊎ ((is_leader p.0.role ≡ true) × (mine ≡ h))
  cases = Held-cases g

  goes_on :
      (h : Reign)
      → is_leader p.0.role ≡ true
      → Held s.reigns h
      → h.term ≡ p.0.current_term
      → IsPrefix h.log p.0.log
  goes_on = continues g

  sound : IsSound t.reigns p.0.log
  sound = own-IsSound g

  elected' : (h : Reign) → Held t.reigns h → IsElected members t h
  elected' h x = elim (cases h x) [
    | inl held ↦ IsElected-mono members s t h (Voted-old s i p) (g.chronicle.elected h held)
    | inr (leads, same) ↦ subst (IsElected members t) same (own-IsElected g leads)
  ]

  ordered' :
      (h k : Reign)
      → Held t.reigns h
      → Held t.reigns k
      → h.term ≡ k.term
      → IsPrefix h.log k.log ⊎ IsPrefix k.log h.log
  ordered' h k x y same = elim (cases h x) [
    | inl held ↦ elim (cases k y) [
      | inl held' ↦ g.chronicle.ordered h k held held' same
      | inr (leads, now) ↦ inl (
          subst (λ z. IsPrefix h.log z.log) now
            (goes_on h leads held (same ∙ sym (ap (λ z. z.term) now))))
    ]
    | inr (leads, now) ↦ elim (cases k y) [
      | inl held' ↦ inr (
          subst (λ z. IsPrefix k.log z.log) now
            (goes_on k leads held' (sym same ∙ sym (ap (λ z. z.term) now))))
      | inr (_, now') ↦
          inl (subst (λ z. IsPrefix h.log z.log) (sym now ∙ now') (IsPrefix-refl h.log))
    ]
  ]

  latest_own :
      is_leader p.0.role ≡ true
      → (h : Reign) → Held t.reigns h
      → h.term ≡ p.0.current_term
      → IsPrefix h.log p.0.log
  latest_own leads h x same = elim (cases h x) [
    | inl held ↦ goes_on h leads held same
    | inr (_, now) ↦ subst (λ z. IsPrefix z.log p.0.log) now (IsPrefix-refl p.0.log)
  ]

  -- Another leader is in another term.
  latest_other :
      (j : NodeId)
      → (i == j) ≡ false
      → is_leader (s.nodes j).role ≡ true
      → (h : Reign) → Held t.reigns h
      → h.term ≡ (s.nodes j).current_term
      → IsPrefix h.log (s.nodes j).log
  latest_other j other leads h x same = elim (cases h x) [
    | inl held ↦ g.chronicle.latest j leads h held same
    | inr (mine_leads, now) ↦
        let theirs = elected' _ (old _ (g.chronicle.present j leads)) in
        let ours = elected' h x in
        let one = IsElected-unique members t h _ g.invariant_after.archives ours theirs same in
        absurd (let equal : (i == j) ≡ true = (==_iff i j).1 (ap (λ z. z.leader) now ∙ one) in cc)
  ]

  own_message : (to : NodeId) (m : Message) → IsOwn p.0 to m → IsSourced t.reigns to m
  unfolding append_entries_msg
  own_message to (append_entries m) (start_index, leads, peer, found, is) = (
    mine,
    Held-own g leads,
    sym (ap (λ x. x.term) is),
    All-get_elem? (λ x. (x == i) ≡ false) (peers_in members i) peer to (peers_are_others i members)
        (subst (λ ps. get_elem? ps peer ≡ some to)
          ((step-SameIdentity (s.nodes i) e _ g.done.stepped).1 ∙ (g.invariant.identity i).1)
          found),
    subst (Brings p.0.log) (sym is) (append_entries_msg-Brings p.0 start_index sound.1),
  )
  own_message to (append_entries_response m) x = tt
  own_message to (request_vote m) x = tt
  own_message to (request_vote_response m) x = tt

  network' : (to : NodeId) (m : Message) → Any (λ x. x ≡ (to, m)) t.sent → IsSourced t.reigns to m
  network' to m x = elim (Any-append (λ y. y ≡ (to, m)) (sends p.1) s.sent x) [
    | inr before ↦ IsSourced-mono s.reigns t.reigns to m old (g.chronicle.on_network to m before)
    | inl fresh ↦ own_message to m (
        All-occurs (λ y. IsOwn p.0 y.0 y.1) (sends p.1) (to, m)
          (Performs-AllOwn (s.nodes i) e p g.done) fresh)
  ]

  in_reigns' : (h : Reign) → Held t.reigns h → IsSound t.reigns h.log
  in_reigns' h x = elim (cases h x) [
    | inl held ↦ IsSound-mono s.reigns t.reigns h.log old (g.chronicle.in_reigns h held)
    | inr (_, now) ↦ subst (λ z. IsSound t.reigns z.log) now sound
  ]

  pub after_step-Chronicle : Chronicle members t
  after_step-Chronicle = record {
    elected = elected';
    ordered = ordered';
    present =
        update-elim
          (λ j x.
            is_leader x.role ≡ true
            → Held t.reigns (record { leader = j; term = x.current_term; log = x.log }))
          s.nodes i p.0 (Held-own g) (λ j other l. old _ (g.chronicle.present j l));
    latest =
        update-elim
          (λ j x.
            is_leader x.role ≡ true
            → (h : Reign) → Held t.reigns h
            → h.term ≡ x.current_term
            → IsPrefix h.log x.log)
          s.nodes i p.0 latest_own latest_other;
    over =
        update-elim (λ j x. (h : Reign) → Held t.reigns h → h.leader ≡ j → IsOver h x) s.nodes i p.0
          (own-IsOver g) (other-IsOver g);
    over_on_disks =
        (on_all_disks g)
          (λ j x. (h : Reign) → Held t.reigns h → h.leader ≡ j → h.term ≤ x.current_term)
          (λ on h x self. let o = (own-IsOver g) h x self in ground arith)
          (λ j other h x self. elim (cases h x) [
            | inl held ↦ g.chronicle.over_on_disks j h held self
            | inr (_, now) ↦
                absurd (
                  let equal : (i == j) ≡ true = (==_iff i j).1 (ap (λ z. z.leader) now ∙ self) in
                  cc)
          ])
          (unsaved-IsOver g);
    running =
        update-elim (λ j x. (x.role ≡ follower) ⊎ (x.current_term ≤ (t.disks j).current_term))
          s.nodes i p.0 (running_own g) (running_other g);
    in_reigns = in_reigns';
    on_nodes =
        update-elim (λ j x. IsSound t.reigns x.log) s.nodes i p.0 sound
          (λ j other. IsSound-mono s.reigns t.reigns _ old (g.chronicle.on_nodes j));
    on_disks =
        (on_all_disks g) (λ j x. IsSound t.reigns x.log) (λ on. sound)
          (λ j other. IsSound-mono s.reigns t.reigns _ old (g.chronicle.on_disks j))
          (λ off. IsSound-mono s.reigns t.reigns _ old (g.chronicle.on_disks i));
    on_network = network';
  }
