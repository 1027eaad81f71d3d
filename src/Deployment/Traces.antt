-- ===== src/Deployment/Traces.antt =====
-- node.rs: what the actions of a step leave in the storage and hand to the transport.
use mathlib.Core.List.{append_assoc, append-nil}
use raft_craft.Prelude.{
  ◌≡◌, refl, sym, ap, ◌∙◌, subst, inl, inr, Bool-cases, ltb, ◌==◌, List, [], ◌∷◌, ◌++◌, Option,
  some, lookup, Option-cases, >>=-eq-some, if◌then◌else◌,
}
use mathlib.Core.Option.{some-injective}
use raft_craft.Protocol.{
  NodeId, LogIndex, Message, Action, send, reset_election_timer, reset_heartbeat_timer,
  persist_state, not_leader as not_leader_action, apply_command,
}
use raft_craft.Raft.State.{Raft, PersistentState, last_log_index}
use raft_craft.Raft.Step.{step}
use raft_craft.Raft.Ballots.{sends}
use raft_craft.Raft.Durability.Unsaved.{saves}
use raft_craft.Runtime.Platform.{Platform, StateMachine, ClientResponse, applied, not_leader}
use raft_craft.Runtime.Timer.{reset_election, cancel_election}
use raft_craft.Runtime.Timer.Tasks.{
  IgnoresTasks, reset_election-keeps, cancel_election-keeps, reset_heartbeat-keeps,
}
use raft_craft.Runtime.Node.{
  Node, Input, timer, incoming, client, update_metrics, record_outgoing, reply_to, drain, resolve,
  process_action, process_actions, handle_input,
}
use raft_craft.Runtime.Node.Effects.{
  event_of, entered, entered-frame, handle_input-acts, process_action-Executes,
  process_actions-Executes,
}

-- What the storage holds, if anything was saved, and the messages handed to the transport, the
-- oldest first.
pub record Trace : Type 0 where
  pub stored : Option PersistentState
  pub sent : List (NodeId × Message)

-- The storage never fails and keeps the last state, the transport takes every message, and nothing
-- else touches either.
pub record IsTraced (P : Platform) (trace : P.World → Trace) : Type 0 where
  pub save_stores :
      (s : PersistentState) (w : P.World)
      → trace (P.save s w).1 ≡ record { stored = some s; sent = (trace w).sent }
  pub send_appends :
      (to : NodeId) (m : Message) (w : P.World)
      → trace (P.send to m w)
        ≡ record { stored = (trace w).stored; sent = (trace w).sent ++ (to, m) ∷ [] }
  pub tasks : IgnoresTasks P trace
  pub reply_keeps :
      (tx : P.Sender) (r : ClientResponse) (w : P.World) → trace (P.reply tx r w) ≡ trace w

-- The actions are done, by a node whose persistent state is `s`.
abbrev pub performed : PersistentState → List Action → Trace → Trace
performed s acts t = record {
  stored = if saves acts then some s else t.stored;
  sent = t.sent ++ sends acts;
}

performed-none : (s : PersistentState) (t : Trace) → performed s [] t ≡ t
performed-none s t = ap (λ l. record { stored = t.stored; sent = l }) (append-nil t.sent)

performed-cons :
    (s : PersistentState) (a : Action) (acts : List Action) (t : Trace)
    → performed s acts (performed s (a ∷ []) t) ≡ performed s (a ∷ acts) t
performed-cons s (send to m) acts t = rw (append_assoc t.sent ((to, m) ∷ []) (sends acts)) refl
performed-cons s reset_election_timer acts t = rw (append-nil t.sent) refl
performed-cons s reset_heartbeat_timer acts t = rw (append-nil t.sent) refl
performed-cons s persist_state acts t = elim (Bool-cases (saves acts)) [
  | inl e ↦ rw (append-nil t.sent, e) refl
  | inr e ↦ rw (append-nil t.sent, e) refl
]
performed-cons s (not_leader_action id) acts t = rw (append-nil t.sent) refl
performed-cons s (apply_command c) acts t = rw (append-nil t.sent) refl

module _ (P : Platform) (S : StateMachine) (trace : P.World → Trace) (h : IsTraced P trace) where
  drain-keeps :
      (n : Node P S) (id : Option NodeId) (l : List (LogIndex × P.Sender))
      → trace (drain P S n id l).world ≡ trace n.world
  unfolding drain reply_to
  drain-keeps n id [] = refl
  drain-keeps n id ((i, tx) ∷ l) =
      drain-keeps (reply_to P S n tx (not_leader id)) id l
      ∙ h.reply_keeps tx (not_leader id) n.world

  resolve-keeps : (n : Node P S) (i : LogIndex) → trace (resolve P S n i).world ≡ trace n.world
  unfolding resolve reply_to
  resolve-keeps n i = elim (Option-cases (lookup ◌==◌ i n.pending)) [
    | inl e ↦ rw (resolve, e) refl
    | inr (tx, e) ↦ rw (resolve, e) (h.reply_keeps tx applied n.world)
  ]

  process_action-trace :
      (n n' : Node P S) (a : Action)
      → process_action P S n a ≡ some n'
      → trace n'.world ≡ performed n.raft.persistent (a ∷ []) (trace n.world)
  unfolding process_action record_outgoing
  process_action-trace n n' (send to m) done =
      ap (λ x. trace x.world) (sym (some-injective _ n' done)) ∙ h.send_appends to m n.world
  process_action-trace n n' reset_election_timer done =
      let ((t, w), reset, same) = >>=-eq-some (reset_election P n.election_timer n.world) _ done in
      ap (λ x. trace x.world) (sym (some-injective _ n' same))
      ∙ reset_election-keeps P trace h.tasks n.election_timer t n.world w reset
      ∙ sym (performed-none n.raft.persistent (trace n.world))
  process_action-trace n n' reset_heartbeat_timer done =
      ap (λ x. trace x.world) (sym (some-injective _ n' done))
      ∙ reset_heartbeat-keeps P trace h.tasks n.heartbeat_timer
          (cancel_election P n.election_timer n.world).1
      ∙ cancel_election-keeps P trace h.tasks n.election_timer n.world
      ∙ sym (performed-none n.raft.persistent (trace n.world))
  process_action-trace n n' persist_state done =
      ap (λ x. trace x.world) (sym (some-injective _ n' done))
      ∙ h.save_stores n.raft.persistent n.world
      ∙ ap (λ l. record { stored = some n.raft.persistent; sent = l })
          (sym (append-nil (trace n.world).sent))
  process_action-trace n n' (not_leader_action id) done =
      ap (λ x. trace x.world) (sym (some-injective _ n' done))
      ∙ drain-keeps (record n { pending = [] }) id n.pending
      ∙ sym (performed-none n.raft.persistent (trace n.world))
  process_action-trace n n' (apply_command c) done =
      ap (λ x. trace x.world) (sym (some-injective _ n' done))
      ∙ resolve-keeps (record n { state_machine = S.apply n.state_machine c }) n.raft.last_applied
      ∙ sym (performed-none n.raft.persistent (trace n.world))

  process_actions-trace :
      (n n' : Node P S) (acts : List Action)
      → process_actions P S n acts ≡ some n'
      → trace n'.world ≡ performed n.raft.persistent acts (trace n.world)
  unfolding process_actions
  process_actions-trace n n' [] done =
      ap (λ x. trace x.world) (sym (some-injective n n' done))
      ∙ sym (performed-none n.raft.persistent (trace n.world))
  process_actions-trace n n' (a ∷ acts) done =
      let (m, first, rest) = >>=-eq-some (process_action P S n a) _ done in
      process_actions-trace m n' acts rest
      ∙ ap (λ r. performed r.persistent acts (trace m.world))
          (process_action-Executes P S n m a first).raft
      ∙ ap (performed n.raft.persistent acts) (process_action-trace n m a first)
      ∙ performed-cons n.raft.persistent a acts (trace n.world)

  -- The node has taken the step `p` of its core and done its actions.
  pub record HasStepped (n : Node P S) (p : Raft × List Action) (n' : Node P S) : Type 0 where
    pub raft : n'.raft ≡ p.0
    pub traced : trace n'.world ≡ performed p.0.persistent p.1 (trace n.world)

  entered-trace :
      (n : Node P S) (i : Input P) (r : Raft) → trace (entered P S n i r).world ≡ trace n.world
  unfolding reply_to
  entered-trace n (timer e) r = refl
  entered-trace n (incoming from m) r = refl
  entered-trace n (client c tx) r =
      elim (Bool-cases (ltb (last_log_index n.raft) (last_log_index r))) [
        | inl g ↦ rw g refl
        | inr g ↦ rw g (h.reply_keeps tx (not_leader r.known_leader) n.world)
      ]

  -- The node has done a part of the actions for an input.
  pub entered-HasStepped :
      (n n' : Node P S) (i : Input P) (r : Raft) (acts : List Action)
      → process_actions P S (entered P S n i r) acts ≡ some n'
      → HasStepped n (r, acts) n'
  entered-HasStepped n n' i r acts done =
      let m = entered P S n i r in
      let same = (entered-frame P S n i r).0 in
      record {
        raft = (process_actions-Executes P S m n' acts done).raft ∙ same;
        traced =
            process_actions-trace m n' acts done
            ∙ ap (λ x. performed x.persistent acts (trace m.world)) same
            ∙ ap (performed r.persistent acts) (entered-trace n i r);
      }

  measured-HasStepped :
      (n m : Node P S) (p : Raft × List Action)
      → HasStepped n p m
      → HasStepped n p (update_metrics P S m)
  unfolding update_metrics
  measured-HasStepped n m p st = record { raft = st.raft; traced = st.traced }

  -- Whatever arrives at a node, what the storage holds and the transport was handed afterwards is
  -- what the actions of the core's step ask for.
  pub handle_input-HasStepped :
      (n n' : Node P S) (i : Input P)
      → handle_input P S n i ≡ some n'
      → (p : Raft × List Action) × (step n.raft (event_of P S i) ≡ some p) × HasStepped n p n'
  handle_input-HasStepped n n' i done =
      let (p, stepped, rest) =
        >>=-eq-some (step n.raft (event_of P S i)) _ (sym (handle_input-acts P S n i) ∙ done) in
      let (m, acted, same) = >>=-eq-some (process_actions P S (entered P S n i p.0) p.1) _ rest in
      (
        p,
        stepped,
        subst (HasStepped n p) (some-injective _ n' same)
            (measured-HasStepped n m p (entered-HasStepped n m i p.0 p.1 acted)),
      )
