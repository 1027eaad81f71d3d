-- ===== src/Runtime/Node/Effects.antt =====
-- node.rs: what the actions of a step do to the node that executes them, and when they panic.
use raft_craft.Prelude.{
  ◌≡◌, refl, sym, ap, ◌∙◌, ◌==◌, inl, inr, List, [], ◌∷◌, ◌++◌, Option, some, arith, ltb, put,
  subst, ◌>>=◌, >>=-eq-some, Bool-cases, if◌then◌else◌,
}
use mathlib.Core.Option.{some-injective}
use raft_craft.Protocol.{
  NodeId, LogIndex, Command, Action, send, reset_election_timer, reset_heartbeat_timer,
  persist_state, not_leader as not_leader_action, apply_command, Event, message, client_request,
}
use raft_craft.Raft.State.{Raft, last_log_index}
use raft_craft.Raft.Applied.{applied_commands}
use raft_craft.Raft.Step.{step}
use raft_craft.Runtime.Platform.{Platform, StateMachine, not_leader}
use raft_craft.Runtime.Timer.{HasRange, reset_election, cancel_election}
use raft_craft.Runtime.Timer.Tasks.{reset_to, reset_election-some, reset_election-HasRange}
use raft_craft.Runtime.Node.{
  Node, Input, timer, incoming, client, timer_to_event, update_metrics, record_outgoing, reply_to,
  drain, resolve, process_action, process_actions, node_step, handle_client, handle_input,
}

-- What the state machine is after some commands.
abbrev pub replay : (S : StateMachine) → S.State → List Command → S.State
replay S s [] = s
replay S s (c ∷ cs) = replay S (S.apply s c) cs

pub replay-append :
    (S : StateMachine) (s : S.State) (cs ds : List Command)
    → replay S s (cs ++ ds) ≡ replay S (replay S s cs) ds
replay-append S s [] ds = refl
replay-append S s (c ∷ cs) ds = replay-append S (S.apply s c) cs ds

module _ (P : Platform) (S : StateMachine) where
  drain-frame :
      (n : Node P S) (id : Option NodeId) (l : List (LogIndex × P.Sender))
      → ((drain P S n id l).raft ≡ n.raft)
        × ((drain P S n id l).election_timer ≡ n.election_timer)
        × ((drain P S n id l).state_machine ≡ n.state_machine)
  unfolding drain reply_to
  drain-frame n id [] = (refl, refl, refl)
  drain-frame n id ((i, tx) ∷ l) = drain-frame (reply_to P S n tx (not_leader id)) id l

  resolve-frame :
      (n : Node P S) (i : LogIndex)
      → ((resolve P S n i).raft ≡ n.raft)
        × ((resolve P S n i).election_timer ≡ n.election_timer)
        × ((resolve P S n i).state_machine ≡ n.state_machine)
  unfolding resolve reply_to
  resolve-frame n i = ground arith

  -- The core is untouched, and the commands have reached the state machine.
  pub record Executes (n : Node P S) (acts : List Action) (n' : Node P S) : Type 0 where
    pub raft : n'.raft ≡ n.raft
    pub election_timer : HasRange P n.election_timer → HasRange P n'.election_timer
    pub state_machine : n'.state_machine ≡ replay S n.state_machine (applied_commands acts)

  pub process_action-Executes :
      (n n' : Node P S) (a : Action) → process_action P S n a ≡ some n' → Executes n (a ∷ []) n'
  unfolding process_action record_outgoing cancel_election
  process_action-Executes n n' (send to m) done =
      subst (Executes n _) (some-injective _ n' done)
        (record { raft = refl; election_timer = λ h. h; state_machine = refl })
  process_action-Executes n n' reset_election_timer done =
      let ((t, w), reset, same) = >>=-eq-some (reset_election P n.election_timer n.world) _ done in
      let ranged : HasRange P n.election_timer → HasRange P t = λ h.
        subst (λ p. HasRange P p.0) (reset_election-some P n.election_timer n.world _ reset) h in
      subst (Executes n _) (some-injective _ n' same)
        (record { raft = refl; election_timer = ranged; state_machine = refl })
  process_action-Executes n n' reset_heartbeat_timer done =
      subst (Executes n _) (some-injective _ n' done)
        (record { raft = refl; election_timer = λ h. h; state_machine = refl })
  process_action-Executes n n' persist_state done =
      subst (Executes n _) (some-injective _ n' done)
        (record { raft = refl; election_timer = λ h. h; state_machine = refl })
  process_action-Executes n n' (not_leader_action id) done =
      let (r, t, s) = drain-frame (record n { pending = [] }) id n.pending in
      subst (Executes n _) (some-injective _ n' done)
        (record { raft = r; election_timer = λ h. subst (HasRange P) (sym t) h; state_machine = s })
  process_action-Executes n n' (apply_command c) done =
      let (r, t, s) =
        resolve-frame (record n { state_machine = S.apply n.state_machine c })
          n.raft.last_applied in
      subst (Executes n _) (some-injective _ n' done)
        (record { raft = r; election_timer = λ h. subst (HasRange P) (sym t) h; state_machine = s })

  -- Only the reset of the election timer can panic.
  process_action-runs :
      (n : Node P S) (a : Action)
      → HasRange P n.election_timer
      → (n' : Node P S) × (process_action P S n a ≡ some n')
  unfolding process_action
  process_action-runs n (send to m) h = (_, refl)
  process_action-runs n reset_election_timer h =
      let (t, w) = reset_to P n.election_timer n.world in
      let reset = reset_election-HasRange P n.election_timer n.world h in
      (record n { election_timer = t; world = w }, rw reset refl)
  process_action-runs n reset_heartbeat_timer h = (_, refl)
  process_action-runs n persist_state h = (_, refl)
  process_action-runs n (not_leader_action id) h = (_, refl)
  process_action-runs n (apply_command c) h = (_, refl)

  applied_commands-cons :
      (a : Action) (acts : List Action)
      → applied_commands (a ∷ acts) ≡ applied_commands (a ∷ []) ++ applied_commands acts
  applied_commands-cons (apply_command c) acts = refl
  applied_commands-cons (send to m) acts = refl
  applied_commands-cons reset_election_timer acts = refl
  applied_commands-cons reset_heartbeat_timer acts = refl
  applied_commands-cons persist_state acts = refl
  applied_commands-cons (not_leader_action id) acts = refl

  -- The actions leave the core alone, and reach the state machine as the commands among them.
  pub process_actions-Executes :
      (n n' : Node P S) (acts : List Action)
      → process_actions P S n acts ≡ some n'
      → Executes n acts n'
  unfolding process_actions
  process_actions-Executes n n' [] done =
      subst (Executes n []) (some-injective n n' done)
        (record { raft = refl; election_timer = λ h. h; state_machine = refl })
  process_actions-Executes n n' (a ∷ acts) done =
      let (m, first, rest) = >>=-eq-some (process_action P S n a) _ done in
      let x = process_action-Executes n m a first in
      let y = process_actions-Executes m n' acts rest in
      record {
        raft = y.raft ∙ x.raft;
        election_timer = λ h. y.election_timer (x.election_timer h);
        state_machine =
            y.state_machine
            ∙ ap (λ s. replay S s (applied_commands acts)) x.state_machine
            ∙ sym (
                replay-append S n.state_machine (applied_commands (a ∷ [])) (applied_commands acts))
            ∙ ap (replay S n.state_machine) (sym (applied_commands-cons a acts));
      }

  pub process_actions-runs :
      (n : Node P S) (acts : List Action)
      → HasRange P n.election_timer
      → (n' : Node P S) × (process_actions P S n acts ≡ some n')
  unfolding process_actions
  process_actions-runs n [] h = (n, refl)
  process_actions-runs n (a ∷ acts) h =
      let (m, first) = process_action-runs n a h in
      let (n', rest) =
        process_actions-runs m acts ((process_action-Executes n m a first).election_timer h) in
      (n', rw first rest)

  -- What an input is to the core.
  abbrev pub event_of : Input P → Event
  event_of (timer e) = timer_to_event e
  event_of (incoming from m) = message m
  event_of (client c tx) = client_request c

  -- The node when the core has stepped to `r` and its actions are about to be executed.
  abbrev pub entered : Node P S → Input P → Raft → Node P S
  entered n (timer e) r = record n { raft = r }
  entered n (incoming from m) r = record n { raft = r }
  entered n (client c tx) r =
      if ltb (last_log_index n.raft) (last_log_index r)
      then record n { raft = r; pending = put ◌==◌ (last_log_index r) tx n.pending }
      else reply_to P S (record n { raft = r }) tx (not_leader r.known_leader)

  -- An input is a step of the core, and its actions, from there on.
  pub handle_input-acts :
      (n : Node P S) (i : Input P)
      → handle_input P S n i ≡ (do
        p ← step n.raft (event_of i)
        n' ← process_actions P S (entered n i p.0) p.1
        some (update_metrics P S n'))
  unfolding handle_input node_step handle_client
  handle_input-acts n (timer e) = refl
  handle_input-acts n (incoming from m) = refl
  handle_input-acts n (client c tx) = refl

  pub entered-frame :
      (n : Node P S) (i : Input P) (r : Raft)
      → ((entered n i r).raft ≡ r)
        × ((entered n i r).election_timer ≡ n.election_timer)
        × ((entered n i r).state_machine ≡ n.state_machine)
  unfolding reply_to
  entered-frame n (timer e) r = (refl, refl, refl)
  entered-frame n (incoming from m) r = (refl, refl, refl)
  entered-frame n (client c tx) r =
      elim (Bool-cases (ltb (last_log_index n.raft) (last_log_index r))) [
        | inl g ↦ rw g (refl, refl, refl)
        | inr g ↦ rw g (refl, refl, refl)
      ]
