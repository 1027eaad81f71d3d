-- ===== src/Raft/Parts.antt =====
-- A step of raft-core/src/raft/step.rs of whose actions a first part is executed.
use mathlib.Core.List.{append-nil}
use raft_craft.Prelude.{
  ◌≡◌, refl, sym, ap, ◌∙◌, inl, inr, Bool, true, false, ◌&&◌, not, Bool-cases, List, [], ◌∷◌, ◌++◌,
  some, suc, ◌<◌, ◌⊎◌, u64_mod, All,
}
use raft_craft.Protocol.{
  Action, send, reset_election_timer, reset_heartbeat_timer, persist_state, not_leader,
  apply_command, Event,
}
use raft_craft.Raft.State.{Raft}
use raft_craft.Raft.Step.{step}
use raft_craft.Raft.Ballots.{sends, AllHonest, step-AllHonest}
use raft_craft.Raft.Announcements.{AllOwn, step-AllOwn}
use raft_craft.Raft.Durability.Unsaved.{saves, SavedOrRaised, step-SavedOrRaised}
use raft_craft.Raft.Durability.Early.{step-SavesEarly, SavesEarly-silent}
use raft_craft.Raft.Course.{Course, step-Course}

-- The node has handled `e` and executed the actions `q.1`; the others, `rest`, save nothing that
-- these have not saved.
pub record Performs (r : Raft) (e : Event) (q : Raft × List Action) : Type 0 where
  pub rest : List Action
  pub stepped : step r e ≡ some (q.0, q.1 ++ rest)
  pub saved : saves q.1 ≡ saves (q.1 ++ rest)

-- All actions are executed.
pub whole-Performs :
    (r : Raft) (e : Event) (p : Raft × List Action) → step r e ≡ some p → Performs r e p
whole-Performs r e p h =
    let all : p.1 ++ [] ≡ p.1 = append-nil p.1 in
    record { rest = []; stepped = rw all h; saved = sym (ap saves all) }

sends-append : (acts rest : List Action) → sends (acts ++ rest) ≡ sends acts ++ sends rest
sends-append [] rest = refl
sends-append (send to m ∷ acts) rest = ap (◌∷◌ (to, m)) (sends-append acts rest)
sends-append (persist_state ∷ acts) rest = sends-append acts rest
sends-append (reset_election_timer ∷ acts) rest = sends-append acts rest
sends-append (reset_heartbeat_timer ∷ acts) rest = sends-append acts rest
sends-append (not_leader id ∷ acts) rest = sends-append acts rest
sends-append (apply_command c ∷ acts) rest = sends-append acts rest

saves-append : (acts rest : List Action) → saves acts ≡ true → saves (acts ++ rest) ≡ true
saves-append [] rest h = cc
saves-append (persist_state ∷ acts) rest h = refl
saves-append (send to m ∷ acts) rest h = saves-append acts rest h
saves-append (reset_election_timer ∷ acts) rest h = saves-append acts rest h
saves-append (reset_heartbeat_timer ∷ acts) rest h = saves-append acts rest h
saves-append (not_leader id ∷ acts) rest h = saves-append acts rest h
saves-append (apply_command c ∷ acts) rest h = saves-append acts rest h

All-first : {A : Type 0} (P : A → Type 0) (xs ys : List A) → All P (xs ++ ys) → All P xs
All-first P [] ys a = tt
All-first P (x ∷ xs) ys a = (a.0, All-first P xs ys a.1)

module _ (r : Raft) (e : Event) (q : Raft × List Action) (d : Performs r e q) where
  pub Performs-AllHonest : AllHonest q.0 (sends q.1)
  Performs-AllHonest =
      All-first _ (sends q.1) (sends d.rest)
        (rw (sends-append q.1 d.rest) at (step-AllHonest r e (q.0, q.1 ++ d.rest) d.stepped))

  pub Performs-AllOwn : AllOwn q.0 (sends q.1)
  Performs-AllOwn =
      All-first _ (sends q.1) (sends d.rest)
        (rw (sends-append q.1 d.rest) at (step-AllOwn r e (q.0, q.1 ++ d.rest) d.stepped))

  pub Performs-SavedOrRaised : SavedOrRaised r q
  Performs-SavedOrRaised = elim (step-SavedOrRaised r e (q.0, q.1 ++ d.rest) d.stepped) [
    | inl saved ↦ inl (d.saved ∙ saved)
    | inr other ↦ inr other
  ]

  pub Performs-Course : suc r.current_term < u64_mod → Course r q
  Performs-Course fits = elim (step-Course r e (q.0, q.1 ++ d.rest) fits d.stepped) [
    | inr (inr (inr (newer, saved))) ↦ inr (inr (inr (newer, d.saved ∙ saved)))
    | inr (inr (inl wins)) ↦ inr (inr (inl wins))
    | inr (inl same) ↦ inr (inl same)
    | inl follows ↦ inl follows
  ]

-- The step saves, and the part of its actions that was executed does not.
abbrev pub loses_save : List Action → List Action → Bool
loses_save all acts = saves all && not (saves acts)

-- A first part of the actions has done what the step is about to save, or has sent nothing.
pub first_part-cases :
    (r : Raft) (e : Event) (p : Raft × List Action) (acts rest : List Action)
    → step r e ≡ some p
    → p.1 ≡ acts ++ rest
    → ((loses_save p.1 acts ≡ false) × Performs r e (p.0, acts))
      ⊎ ((loses_save p.1 acts ≡ true) × (saves acts ≡ false) × (sends acts ≡ []))
first_part-cases r e p acts rest h split =
    let h' : step r e ≡ some (p.0, acts ++ rest) = h ∙ ap (λ l. some (p.0, l)) split in
    elim (Bool-cases (saves acts)) [
      | inl on ↦ inl (
        rw (split, saves-append acts rest on, on) refl,
        record { rest = rest; stepped = h'; saved = on ∙ sym (saves-append acts rest on) },
      )
      | inr off ↦ elim (Bool-cases (saves (acts ++ rest))) [
        | inr none_saved ↦ inl (
          rw (split, none_saved) refl,
          record { rest = rest; stepped = h'; saved = off ∙ sym none_saved },
        )
        | inl later ↦ inr (
          rw (split, later, off) refl,
          off,
          SavesEarly-silent acts rest (step-SavesEarly r e (p.0, acts ++ rest) h') off later,
        )
      ]
    ]
