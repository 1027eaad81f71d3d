-- ===== src/Runtime/Node/Tasks.antt =====
-- timer.rs and node.rs: how many tasks of the timers there are that were not told to end.
use mathlib.Core.Option.{some-injective}
use raft_craft.Prelude.{
  ◌≡◌, subst, inl, inr, ltb, put, lookup, remove, ◌==◌, Bool-cases, Option-cases, List, [], ◌∷◌,
  Option, none, some, >>=-eq-some, if◌then◌else◌,
}
use raft_craft.Protocol.{
  NodeId, Command, LogIndex, Action, send, reset_election_timer, reset_heartbeat_timer,
  persist_state, not_leader as not_leader_action, apply_command, Event, client_request,
}
use raft_craft.Raft.State.{last_log_index}
use raft_craft.Raft.Step.{step}
use raft_craft.Runtime.Platform.{
  Platform, StateMachine, TimerEvent, ClientResponse, applied, not_leader,
}
use raft_craft.Runtime.Timer.{reset_election, cancel_election}
use raft_craft.Runtime.Node.{
  Node, Input, timer, incoming, client, update_metrics, record_outgoing, reply_to, drain, resolve,
  process_action, process_actions, node_step, handle_client, handle_input, event_loop, run,
}
use raft_craft.Runtime.Timer.Live.{
  TracksTasks, Keeps, abort_election-Keeps, reset_election-Keeps, reset_heartbeat-Keeps,
}

module _ (P : Platform) (S : StateMachine)
    (Uncancelled : P.World → P.JoinHandle → TimerEvent → Type 0) where
  -- Every task whose cancellation has not been requested is the one whose handle its timer keeps.
  abbrev pub HasTasksInHand : Node P S → Type 0
  HasTasksInHand n = Keeps P Uncancelled n.election_timer.handle n.heartbeat_timer.handle n.world

  module _ (law : TracksTasks P Uncancelled) where
    reply_to-HasTasksInHand :
        (n : Node P S) (tx : P.Sender) (r : ClientResponse)
        → HasTasksInHand n
        → HasTasksInHand (reply_to P S n tx r)
    unfolding reply_to
    reply_to-HasTasksInHand n tx r k h e live = k h e (law.reply_adds_none tx r n.world h e live)

    drain-HasTasksInHand :
        (n : Node P S) (id : Option NodeId) (l : List (LogIndex × P.Sender))
        → HasTasksInHand n
        → HasTasksInHand (drain P S n id l)
    unfolding drain
    drain-HasTasksInHand n id [] k = k
    drain-HasTasksInHand n id ((i, tx) ∷ l) k =
        drain-HasTasksInHand (reply_to P S n tx (not_leader id)) id l
          (reply_to-HasTasksInHand n tx (not_leader id) k)

    resolve-HasTasksInHand :
        (n : Node P S) (i : LogIndex) → HasTasksInHand n → HasTasksInHand (resolve P S n i)
    unfolding resolve
    resolve-HasTasksInHand n i k = elim (Option-cases (lookup ◌==◌ i n.pending)) [
      | inl e ↦ rw (resolve, e) k
      | inr (tx, e) ↦
          rw (resolve, e)
            (reply_to-HasTasksInHand (record n { pending = remove ◌==◌ i n.pending }) tx applied k)
    ]

    process_action-HasTasksInHand :
        (n n' : Node P S) (a : Action)
        → HasTasksInHand n
        → process_action P S n a ≡ some n'
        → HasTasksInHand n'
    unfolding process_action record_outgoing cancel_election
    process_action-HasTasksInHand n n' (send to m) k done =
        subst HasTasksInHand (some-injective _ n' done)
          (λ h e live. k h e (law.send_adds_none to m n.world h e live))
    process_action-HasTasksInHand n n' reset_election_timer k done =
        let ((t, w), reset, same) =
          >>=-eq-some (reset_election P n.election_timer n.world) _ done in
        subst HasTasksInHand (some-injective _ n' same) (
          reset_election-Keeps P Uncancelled law n.election_timer t n.heartbeat_timer.handle n.world
            w k reset)
    process_action-HasTasksInHand n n' reset_heartbeat_timer k done =
        subst HasTasksInHand (some-injective _ n' done) (
          reset_heartbeat-Keeps P Uncancelled law n.heartbeat_timer none _ (
            abort_election-Keeps P Uncancelled law n.election_timer.handle n.heartbeat_timer.handle
              n.world k))
    process_action-HasTasksInHand n n' persist_state k done =
        subst HasTasksInHand (some-injective _ n' done)
          (λ h e live. k h e (law.save_adds_none n.raft.persistent n.world h e live))
    process_action-HasTasksInHand n n' (not_leader_action id) k done =
        subst HasTasksInHand (some-injective _ n' done)
          (drain-HasTasksInHand (record n { pending = [] }) id n.pending k)
    process_action-HasTasksInHand n n' (apply_command c) k done =
        subst HasTasksInHand (some-injective _ n' done) (
          resolve-HasTasksInHand (record n { state_machine = S.apply n.state_machine c })
            n.raft.last_applied k)

    process_actions-HasTasksInHand :
        (n n' : Node P S) (acts : List Action)
        → HasTasksInHand n
        → process_actions P S n acts ≡ some n'
        → HasTasksInHand n'
    unfolding process_actions
    process_actions-HasTasksInHand n n' [] k done =
        subst HasTasksInHand (some-injective n n' done) k
    process_actions-HasTasksInHand n n' (a ∷ acts) k done =
        let (m, first, rest) = >>=-eq-some (process_action P S n a) _ done in
        process_actions-HasTasksInHand m n' acts (process_action-HasTasksInHand n m a k first) rest

    node_step-HasTasksInHand :
        (n n' : Node P S) (e : Event)
        → HasTasksInHand n
        → node_step P S n e ≡ some n'
        → HasTasksInHand n'
    unfolding node_step update_metrics
    node_step-HasTasksInHand n n' e k done =
        let (p, stepped, rest) = >>=-eq-some (step n.raft e) _ done in
        let (m, acted, same) =
          >>=-eq-some (process_actions P S (record n { raft = p.0 }) p.1) _ rest in
        subst HasTasksInHand (some-injective _ n' same)
          (process_actions-HasTasksInHand (record n { raft = p.0 }) m p.1 k acted)

    handle_client-HasTasksInHand :
        (n n' : Node P S) (c : Command) (tx : P.Sender)
        → HasTasksInHand n
        → handle_client P S n c tx ≡ some n'
        → HasTasksInHand n'
    unfolding handle_client update_metrics
    handle_client-HasTasksInHand n n' c tx k done =
        let (p, stepped, rest) = >>=-eq-some (step n.raft (client_request c)) _ done in
        let grew = ltb (last_log_index n.raft) (last_log_index p.0) in
        let n₁ = record n { raft = p.0 } in
        let n₂ =
          if grew
          then record n₁ { pending = put ◌==◌ (last_log_index p.0) tx n₁.pending }
          else reply_to P S n₁ tx (not_leader p.0.known_leader) in
        let k₂ : HasTasksInHand n₂ = elim (Bool-cases grew) [
          | inl g ↦ rw g k
          | inr g ↦ rw g (reply_to-HasTasksInHand n₁ tx (not_leader p.0.known_leader) k)
        ] in
        let (m, acted, same) = >>=-eq-some (process_actions P S n₂ p.1) _ rest in
        subst HasTasksInHand (some-injective _ n' same)
          (process_actions-HasTasksInHand n₂ m p.1 k₂ acted)

    handle_input-HasTasksInHand :
        (n n' : Node P S) (i : Input P)
        → HasTasksInHand n
        → handle_input P S n i ≡ some n'
        → HasTasksInHand n'
    unfolding handle_input
    handle_input-HasTasksInHand n n' (timer e) k done = node_step-HasTasksInHand n n' _ k done
    handle_input-HasTasksInHand n n' (incoming from m) k done =
        node_step-HasTasksInHand n n' _ k done
    handle_input-HasTasksInHand n n' (client c tx) k done =
        handle_client-HasTasksInHand n n' c tx k done

    event_loop-HasTasksInHand :
        (n n' : Node P S) (inputs : List (Input P))
        → HasTasksInHand n
        → event_loop P S n inputs ≡ some n'
        → HasTasksInHand n'
    unfolding event_loop
    event_loop-HasTasksInHand n n' [] k done = subst HasTasksInHand (some-injective n n' done) k
    event_loop-HasTasksInHand n n' (i ∷ inputs) k done =
        let (m, handled, rest) = >>=-eq-some (handle_input P S n i) _ done in
        event_loop-HasTasksInHand m n' inputs (handle_input-HasTasksInHand n m i k handled) rest

    -- Whatever inputs a node handles from its start on, every task of its timers whose cancellation
    -- has not been requested is the one whose handle its timer keeps, so each of the two timers has
    -- at most one such task, if this holds of every task at the start.
    pub run-HasTasksInHand :
        (n n' : Node P S) (inputs : List (Input P))
        → HasTasksInHand n
        → run P S n inputs ≡ some n'
        → HasTasksInHand n'
    unfolding run update_metrics
    run-HasTasksInHand n n' inputs k done =
        let ((t, w), reset, looped) =
          >>=-eq-some (reset_election P n.election_timer n.world) _ done in
        event_loop-HasTasksInHand _ n' inputs
          (reset_election-Keeps P Uncancelled law n.election_timer t n.heartbeat_timer.handle
            n.world w k reset)
          looped
