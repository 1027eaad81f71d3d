-- ===== src/Consensus/Chronicle/Growth.antt =====
-- One node takes a step: what its log becomes, and that it continues the logs of its term.
use raft_craft.Prelude.{
  suc, ◌<◌, ◌==◌, ==_iff, ==_refl, ◌≡◌, refl, sym, ap, ◌∙◌, subst, ◌⊎◌, inl, inr, true, List, [],
  arith, length, u64_mod, wrapping_add_lem, Any-append_right, contains, Bool-cases,
}
use raft_craft.Protocol.{NodeId, LogEntry, AppendEntries, append_entries, Event, message, Action}
use raft_craft.Raft.State.{Raft, is_leader, last_log_index}
use raft_craft.Raft.Terms.{Later, step-Later}
use raft_craft.Raft.AppendEntries.{reconcile, log_matches}
use raft_craft.Raft.Log.Numbered.{IsNumbered-append}
use raft_craft.Raft.Replication.{last_log_index-length}
use raft_craft.Raft.Replication.Matching.{reconcile-Matching}
use raft_craft.Raft.Course.{step-Writes}
use raft_craft.Raft.Supporters.{IsDistinct}
use raft_craft.Raft.Parts.{Performs, Performs-Course}
use raft_craft.Consensus.System.{Reign, System, reign_of, after_step, CanOccur}
use raft_craft.Consensus.Ballots.{Voted-old}
use raft_craft.Consensus.Election.{Invariant}
use raft_craft.Consensus.Histories.{
  IsPrefix, IsPrefix-append, Held, Records-Matching, Records-mono, Records-append, IsElected,
  IsElected-unique, IsElected-mono, leader-IsElected,
}
use raft_craft.Consensus.Chronicle.{IsSound, IsOver, Chronicle}

pub IsSound-mono :
    (hs ks : List Reign) (xs : List LogEntry)
    → ((h : Reign) → Held hs h → Held ks h)
    → IsSound hs xs
    → IsSound ks xs
IsSound-mono hs ks xs more (r, w) = (Records-mono hs ks xs more r, w)

reconcile_nothing : (log : List LogEntry) → reconcile log [] ≡ log
unfolding reconcile
reconcile_nothing log = refl

-- A step of one member of a cluster, in a run whose history is sound.
pub record Taken (members : List NodeId) (s : System) (i : NodeId) (e : Event)
    (p : Raft × List Action) : Type 0 where
  pub chronicle : Chronicle members s
  pub invariant : Invariant members s
  pub invariant_after : Invariant members (after_step s i p)
  pub distinct : IsDistinct members
  pub here : contains members i ≡ true
  pub occurs : CanOccur s i e
  pub fits : suc (s.nodes i).current_term < u64_mod
  pub short : suc (length (s.nodes i).log) < u64_mod
  pub done : Performs (s.nodes i) e p

module _ {members : List NodeId} {s : System} {i : NodeId} {e : Event} {p : Raft × List Action}
    (g : Taken members s i e p) where
  abbrev r : Raft
  r = s.nodes i

  abbrev t : System
  t = after_step s i p

  -- The log of the node as that of a leader.
  abbrev pub own : Reign
  own = record { leader = i; term = p.0.current_term; log = p.0.log }

  pub Held-old : (h : Reign) → Held s.reigns h → Held t.reigns h
  Held-old h x = Any-append_right (λ k. k ≡ h) (reign_of i p.0) s.reigns x

  pub Held-own : is_leader p.0.role ≡ true → Held t.reigns own
  Held-own l = rw l (inl refl)

  pub Held-cases :
      (h : Reign) → Held t.reigns h → Held s.reigns h ⊎ ((is_leader p.0.role ≡ true) × (own ≡ h))
  Held-cases h x = elim (Bool-cases (is_leader p.0.role)) [
    | inl l ↦ elim (rw l at x) [ inl same ↦ inr (l, same) | inr old ↦ inl old ]
    | inr l ↦ inl (rw l at x)
  ]

  pub later : Later r p.0
  later = step-Later r e _ g.fits g.done.stepped

  -- In its own term a leader gets no entries of another leader.
  not_another :
      (m : AppendEntries)
      → is_leader r.role ≡ true
      → e ≡ message (append_entries m)
      → m.term ≡ r.current_term
      → ⊥
  not_another m leads is same =
      let (k, held, term, other, _) =
        g.chronicle.on_network i (append_entries m) (subst (λ x. CanOccur s i x) is g.occurs) in
      let one =
        IsElected-unique members s k (record { leader = i; term = r.current_term; log = r.log })
          g.invariant.archives (g.chronicle.elected k held)
          (g.chronicle.elected _ (g.chronicle.present i leads)) (term ∙ same) in
      absurd (let mine : (i == k.leader) ≡ true = (==_iff i k.leader).1 (sym one) in cc)

  -- The log of a leader goes on from what it was.
  still_leads :
      (h : Reign)
      → is_leader r.role ≡ true
      → Held s.reigns h
      → p.0.current_term ≡ r.current_term
      → h.term ≡ p.0.current_term
      → IsPrefix h.log p.0.log
  still_leads h leads held same term =
      let before = g.chronicle.latest i leads h held (term ∙ same) in
      elim (step-Writes r e _ g.done.stepped) [
        | inl kept ↦ rw kept before
        | inr (inl (c, _, _, longer)) ↦ rw longer (IsPrefix-append h.log r.log _ before)
        | inr (inr (m, is, (_, now, _, _))) ↦ absurd (not_another m leads is (sym now ∙ same))
      ]

  own_state : t.nodes i ≡ p.0
  own_state = rw ==_refl refl

  pub own-IsElected : is_leader p.0.role ≡ true → IsElected members t own
  own-IsElected leads =
      subst (λ x. IsElected members t (record { leader = i; term = x.current_term; log = x.log }))
        own_state
        (leader-IsElected members t i g.invariant_after g.distinct g.here (rw own_state leads))

  -- A new leader finds no log of its term.
  none_before :
      (h : Reign)
      → is_leader p.0.role ≡ true
      → Held s.reigns h
      → h.term ≡ p.0.current_term
      → IsOver h r
  none_before h leads held term =
      let mine = own-IsElected leads in
      let before = IsElected-mono members s t h (Voted-old s i p) (g.chronicle.elected h held) in
      g.chronicle.over i h held
        (IsElected-unique members t h own g.invariant_after.archives before mine term)

  pub continues :
      (h : Reign)
      → is_leader p.0.role ≡ true
      → Held s.reigns h
      → h.term ≡ p.0.current_term
      → IsPrefix h.log p.0.log
  continues h leads held term = elim (Performs-Course r e p g.done g.fits) [
    | inl down ↦ absurd (ground arith)
    | inr (inl (role, same)) ↦ still_leads h (ap is_leader (sym role) ∙ leads) held same term
    | inr (inr (inl (role, same))) ↦ absurd (let o = none_before h leads held term in ground arith)
    | inr (inr (inr (newer, _))) ↦ absurd (let o = none_before h leads held term in ground arith)
  ]

  -- What the new log consists of.
  pub own-IsSound : IsSound t.reigns p.0.log
  own-IsSound =
      let (records, numbered) =
        IsSound-mono s.reigns t.reigns r.log Held-old (g.chronicle.on_nodes i) in
      elim (step-Writes r e _ g.done.stepped) [
        | inl kept ↦ subst (IsSound t.reigns) (sym kept) (records, numbered)
        | inr (inl (c, leads, same, longer)) ↦ subst (IsSound t.reigns) (sym longer) (
          Records-append t.reigns own r.log _ records (Held-own leads) same longer,
          IsNumbered-append 1 (suc (length r.log)) r.log _ numbered (omega arith) (
            omega (arith, last_log_index-length r numbered, wrapping_add_lem (last_log_index r) 1),
            tt,
          ),
        )
        | inr (inr (m, is, (_, _, matches, taken))) ↦ taken_on m is matches taken
      ]
    where
      taken_on :
          (m : AppendEntries)
          → e ≡ message (append_entries m)
          → log_matches r m.prev_log_index m.prev_log_term ≡ true
          → p.0.log ≡ reconcile r.log m.entries
          → IsSound t.reigns p.0.log
      taken_on m is matches taken =
          let (k, held, _, _, brought) =
            g.chronicle.on_network i (append_entries m) (subst (λ x. CanOccur s i x) is g.occurs) in
          let (records, numbered) = g.chronicle.on_nodes i in
          let (records', numbered') = g.chronicle.in_reigns k held in
          IsSound-mono s.reigns t.reigns p.0.log Held-old (elim brought [
            | inl nothing ↦
                subst (IsSound s.reigns)
                  (sym (taken ∙ ap (reconcile r.log) nothing ∙ reconcile_nothing r.log))
                  (g.chronicle.on_nodes i)
            | inr (q, within, place, term, entries) ↦
                elim (reconcile-Matching r q k.log numbered numbered'
                  (Records-Matching s.reigns r.log k.log g.chronicle.ordered records records')
                  within (rw (place, term) at matches)) [
                    | inl kept ↦
                        subst (IsSound s.reigns) (sym (taken ∙ ap (reconcile r.log) entries ∙ kept))
                          (g.chronicle.on_nodes i)
                    | inr theirs ↦
                        subst (IsSound s.reigns)
                          (sym (taken ∙ ap (reconcile r.log) entries ∙ theirs))
                          (g.chronicle.in_reigns k held)
                  ]
          ])
