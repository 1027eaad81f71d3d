-- ===== src/Consensus/Chronicle/Terms.antt =====
-- One node takes a step: the reigns that are over, and the terms on the disks.
use raft_craft.Prelude.{
  ◌≤◌, ◌==◌, ==_iff, ==_refl, ◌≡◌, sym, ap, ◌∙◌, subst, ◌⊎◌, inl, inr, true, false, List, arith,
  Bool-cases,
}
use raft_craft.Protocol.{NodeId, Event, Action}
use raft_craft.Raft.State.{Raft, PersistentState, follower}
use raft_craft.Raft.Durability.Unsaved.{saves}
use raft_craft.Raft.Course.{Course}
use raft_craft.Raft.Parts.{Performs-Course}
use raft_craft.Consensus.System.{Reign, System, after_step}
use raft_craft.Consensus.Ballots.{update-elim}
use raft_craft.Consensus.Histories.{Held}
use raft_craft.Consensus.Chronicle.{IsOver}
use raft_craft.Consensus.Chronicle.Growth.{Taken, Held-cases, later}

IsOver-step :
    (h : Reign) (r : Raft) (p : Raft × List Action)
    → Course r p
    → r.current_term ≤ p.0.current_term
    → IsOver h r
    → IsOver h p.0
IsOver-step h r p c l o = ground arith

module _ {members : List NodeId} {s : System} {i : NodeId} {e : Event} {p : Raft × List Action}
    (g : Taken members s i e p) where
  abbrev t : System
  t = after_step s i p

  abbrev mine : Reign
  mine = record { leader = i; term = p.0.current_term; log = p.0.log }

  not_earlier : (s.nodes i).current_term ≤ p.0.current_term
  not_earlier = let l = later g in ground arith

  pub own-IsOver : (h : Reign) → Held t.reigns h → h.leader ≡ i → IsOver h p.0
  own-IsOver h x self = elim (Held-cases g h x) [
    | inl held ↦
        IsOver-step h (s.nodes i) p (Performs-Course (s.nodes i) e p g.done g.fits) not_earlier
          (g.chronicle.over i h held self)
    | inr (leads, now) ↦ inr (sym (ap (λ z. z.term) now), ground arith)
  ]

  pub other-IsOver :
      (j : NodeId)
      → (i == j) ≡ false
      → (h : Reign) → Held t.reigns h
      → h.leader ≡ j
      → IsOver h (s.nodes j)
  other-IsOver j other h x self = elim (Held-cases g h x) [
    | inl held ↦ g.chronicle.over j h held self
    | inr (_, now) ↦
        absurd (let equal : (i == j) ≡ true = (==_iff i j).1 (ap (λ z. z.leader) now ∙ self) in cc)
  ]

  -- What holds of the new state and of the disks, holds of the disks after the step.
  pub on_all_disks :
      (P : NodeId → PersistentState → Type 0)
      → (saves p.1 ≡ true → P i p.0.persistent)
      → ((j : NodeId) → (i == j) ≡ false → P j (s.disks j))
      → (saves p.1 ≡ false → P i (s.disks i))
      → (j : NodeId) → P j (t.disks j)
  on_all_disks P saved others unsaved j = elim (Bool-cases (saves p.1)) [
    | inl on ↦ rw on (update-elim P s.disks i p.0.persistent (saved on) others j)
    | inr off ↦ rw off (elim (Bool-cases (i == j)) [
      | inl equal ↦ subst (λ k. P k (s.disks k)) ((==_iff i j).0 equal) (unsaved off)
      | inr other ↦ others j other
    ])
  ]

  -- A node that runs or leads has its term on its disk.
  kept_on_disk :
      p.0.current_term ≡ (s.nodes i).current_term
      → (s.nodes i).current_term ≤ (s.disks i).current_term
      → p.0.current_term ≤ (t.disks i).current_term
  kept_on_disk same below = elim (Bool-cases (saves p.1)) [
    | inl on ↦ rw (on, ==_refl) (omega arith)
    | inr off ↦ rw off (omega (arith, same, below))
  ]

  pub running_own : (p.0.role ≡ follower) ⊎ (p.0.current_term ≤ (t.disks i).current_term)
  running_own = elim (Performs-Course (s.nodes i) e p g.done g.fits) [
    | inl down ↦ inl down
    | inr (inl (role, same)) ↦ elim (g.chronicle.running i) [
      | inl was ↦ inl (role ∙ was)
      | inr below ↦ inr (kept_on_disk same below)
    ]
    | inr (inr (inl (role, same))) ↦ elim (g.chronicle.running i) [
      | inl was ↦ absurd (cc)
      | inr below ↦ inr (kept_on_disk same below)
    ]
    | inr (inr (inr (_, saved))) ↦ inr (rw (saved, ==_refl) (omega arith))
  ]

  pub running_other :
      (j : NodeId)
      → (i == j) ≡ false
      → ((s.nodes j).role ≡ follower) ⊎ ((s.nodes j).current_term ≤ (t.disks j).current_term)
  running_other j other = elim (Bool-cases (saves p.1)) [
    | inl on ↦ rw (on, other) (g.chronicle.running j)
    | inr off ↦ rw off (g.chronicle.running j)
  ]

  pub unsaved-IsOver :
      saves p.1 ≡ false
      → (h : Reign) → Held t.reigns h
      → h.leader ≡ i
      → h.term ≤ (s.disks i).current_term
  unsaved-IsOver off h x self = elim (Held-cases g h x) [
    | inl held ↦ g.chronicle.over_on_disks i h held self
    | inr (leads, now) ↦ elim running_own [
      | inl down ↦ absurd (ground arith)
      | inr below ↦ omega (arith, ap (λ z. z.term) now, rw off at below)
    ]
  ]
