-- ===== src/Runtime/Node/Replay.antt =====
-- node.rs: the state machine of a node is the replay of the applied part of its log.
use raft_craft.Prelude.{
  ℕ, zero, suc, ◌-◌, ◌≤◌, ◌≡◌, refl, sym, ap, ◌∙◌, List, [], ◌∷◌, ◌++◌, some, arith, take, drop,
  subst,
}
use mathlib.Core.List.{map-append}
use raft_craft.Protocol.{LogEntry, Action}
use raft_craft.Raft.State.{Raft}
use raft_craft.Raft.Applied.{applied_commands, commands, HandsOn}
use raft_craft.Raft.Validity.{IsValid, IsAdmissible}
use raft_craft.Raft.Validity.Steps.{step-Succeeds}
use raft_craft.Runtime.Platform.{Platform, StateMachine}
use raft_craft.Runtime.Timer.{HasRange}
use raft_craft.Runtime.Node.{Node, Input, update_metrics, process_actions, handle_input}
use raft_craft.Runtime.Node.Effects.{
  replay, replay-append, process_actions-Executes, process_actions-runs, event_of, entered,
  entered-frame, handle_input-acts,
}

take-none : (n : ℕ) → let none_left : List LogEntry = [] in take n none_left ≡ none_left
take-none zero = refl
take-none (suc n) = refl

take-split :
    (a b : ℕ) (xs : List LogEntry) → a ≤ b → take b xs ≡ take a xs ++ take (b - a) (drop a xs)
take-split zero b xs h = let e : b - 0 ≡ b = omega arith in rw e refl
take-split (suc a) zero xs h = absurd (omega arith)
take-split (suc a) (suc b) [] h = sym (take-none (suc b - suc a))
take-split (suc a) (suc b) (x ∷ xs) h =
    let e : suc b - suc a ≡ b - a = omega arith in
    rw e (ap (◌∷◌ x) (take-split a b xs (omega arith)))

module _ (P : Platform) (S : StateMachine) where
  -- The core is valid, and the state machine is the replay of the applied entries from `init`.
  pub record IsReplay (init : S.State) (n : Node P S) : Type 0 where
    pub valid : IsValid n.raft
    pub replayed : n.state_machine ≡ replay S init (commands (take n.raft.last_applied n.raft.log))

  after_step-IsReplay :
      (init : S.State) (n m n' : Node P S) (p : Raft × List Action)
      → IsReplay init n
      → IsValid p.0
      → HandsOn n.raft p
      → m.raft ≡ p.0
      → m.state_machine ≡ n.state_machine
      → process_actions P S m p.1 ≡ some n'
      → IsReplay init n'
  after_step-IsReplay init n m n' p v w h r s done =
      let a = n.raft.last_applied in
      let b = p.0.last_applied in
      let x = process_actions-Executes P S m n' p.1 done in
      let whole : commands (take b p.0.log) ≡ commands (take a n.raft.log) ++ applied_commands p.1 =
        ap commands (take-split a b p.0.log h.grows)
        ∙ map-append (λ e. e.command) (take a p.0.log) (take (b - a) (drop a p.0.log))
        ∙ ap (λ l. commands l ++ commands (take (b - a) (drop a p.0.log))) h.stays
        ∙ ap (commands (take a n.raft.log) ++◌) (sym h.hands) in
      record {
        valid = rw (x.raft, r) w;
        replayed =
            x.state_machine
            ∙ ap (λ y. replay S y (applied_commands p.1)) (s ∙ v.replayed)
            ∙ sym (replay-append S init (commands (take a n.raft.log)) (applied_commands p.1))
            ∙ ap (replay S init) (sym whole)
            ∙ ap (λ y. replay S init (commands (take y.last_applied y.log))) (sym (x.raft ∙ r));
      }

  measured-IsReplay :
      (init : S.State) (n : Node P S) → IsReplay init n → IsReplay init (update_metrics P S n)
  unfolding update_metrics
  measured-IsReplay init n h = record { valid = h.valid; replayed = h.replayed }

  measured-HasRange :
      (n : Node P S)
      → HasRange P n.election_timer
      → HasRange P (update_metrics P S n).election_timer
  unfolding update_metrics
  measured-HasRange n h = h

  -- A node with a valid core, whose state machine is the replay, from `init`, of the commands of
  -- the applied entries of its log, and whose range of election timeouts is not empty, handles
  -- every admissible input without a panic, whatever the transport, the storage and the clients
  -- do, and all of this holds again afterwards. (A timer, a vote request and any response are
  -- always admissible; a command is if the log has room for it; an AppendEntries is if its entries
  -- follow `prev_log_index` without gaps or overflow, if its `leader_commit` is not
  -- above the commit index or its last index is not below it, and if its entries do not contradict
  -- what is committed when the logs match at `prev_log_index`.)
  pub handle_input-IsReplay :
      (init : S.State) (n : Node P S) (i : Input P)
      → IsReplay init n
      → HasRange P n.election_timer
      → IsAdmissible n.raft (event_of P S i)
      → (n' : Node P S) × (handle_input P S n i ≡ some n')
        × IsReplay init n'
        × HasRange P n'.election_timer
  handle_input-IsReplay init n i v ranged a =
      let (p, stepped, w, h) = step-Succeeds n.raft (event_of P S i) v.valid a in
      let m = entered P S n i p.0 in
      let (r, t, s) = entered-frame P S n i p.0 in
      let ranged' = subst (HasRange P) (sym t) ranged in
      let (n', acted) = process_actions-runs P S m p.1 ranged' in
      (
        update_metrics P S n',
        handle_input-acts P S n i ∙ rw (stepped, acted) refl,
        measured-IsReplay init n' (after_step-IsReplay init n m n' p v w h r s acted),
        measured-HasRange n' ((process_actions-Executes P S m n' p.1 acted).election_timer ranged'),
      )
