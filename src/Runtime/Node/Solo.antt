-- ===== src/Runtime/Node/Solo.antt =====
-- node.rs: the service of a cluster of one node.
use raft_craft.Prelude.{
  suc, ◌+◌, ◌%◌, ◌≤◌, ◌<◌, ◌==◌, ==_refl, ltb, lt→ltb, put, remove, lookup, ◌≡◌, refl, sym, ap, ◌∙◌,
  subst, true, List, [], ◌∷◌, ◌++◌, map, none, some, arith, length, u64_mod,
}
use mathlib.Core.List.{append_assoc, append-nil}
use mathlib.Core.Option.{some-injective}
use raft_craft.Protocol.{
  NodeId, LogIndex, Command, Action, election_timeout, reset_heartbeat_timer, persist_state,
  apply_command,
}
use raft_craft.Raft.State.{new, last_log_index}
use raft_craft.Raft.Step.{step}
use raft_craft.Raft.Client.{handle_client_request}
use raft_craft.Raft.Vote.{become_leader}
use raft_craft.Raft.Election.{start_candidacy, handle_election_timeout}
use raft_craft.Raft.Validity.{IsValid}
use raft_craft.Raft.Validity.Steps.{step-Succeeds}
use raft_craft.Raft.Replication.{last_log_index-length}
use raft_craft.Raft.Solo.{IsSolo, handle_client_request-IsSolo}
use raft_craft.Runtime.Platform.{Platform, StateMachine, TimerEvent, ClientResponse, applied}
use raft_craft.Runtime.Timer.{reset_heartbeat, cancel_election}
use raft_craft.Runtime.Metrics.{Metrics}
use raft_craft.Runtime.Timer.Tasks.{
  reset_to, reset_election-HasRange, reset_election-keeps, cancel_election-keeps,
  reset_heartbeat-keeps,
}
use raft_craft.Runtime.Node.{
  Node, NodeConfig, new_node, run, Input, timer, client, node_step, update_metrics, reply_to,
  resolve, process_action, process_actions, handle_client, handle_input, event_loop,
}
use raft_craft.Runtime.Node.Effects.{replay, process_actions-Executes}
use raft_craft.Runtime.Node.Replies.{IsAnswering}

module _ (P : Platform) (S : StateMachine) where
  abbrev pub requests : List (Command × P.Sender) → List (Input P)
  requests = map (λ x. client x.0 x.1)

  -- A leader without peers, with nothing left to apply and no client that waits.
  pub record IsServing (n : Node P S) : Type 0 where
    pub solo : IsSolo n.raft
    pub idle : n.pending ≡ []

  resolve_only :
      (m : Node P S) (i : LogIndex) (tx : P.Sender)
      → m.pending ≡ (i, tx) ∷ []
      → resolve P S m i ≡ reply_to P S (record m { pending = [] }) tx applied
  unfolding resolve lookup remove
  resolve_only m i tx h =
      let found : lookup ◌==◌ i m.pending ≡ some tx = rw (h, ==_refl i) refl in
      let gone : remove ◌==◌ i m.pending ≡ [] = rw (h, ==_refl i) refl in
      rw (resolve, found, gone) refl

  module _ (answers : P.World → List (P.Sender × ClientResponse))
      (law : IsAnswering P answers) where
    -- The node after the client's command: served, and ready for the next.
    pub record Serves (n : Node P S) (c : Command) (tx : P.Sender) (n' : Node P S) : Type 0 where
      pub serving : IsServing n'
      pub grown : length n'.raft.log ≡ suc (length n.raft.log)
      pub executed : n'.state_machine ≡ S.apply n.state_machine c
      pub answered : answers n'.world ≡ answers n.world ++ (tx, applied) ∷ []

    abbrev work : Command → List Action
    work c = reset_heartbeat_timer ∷ persist_state ∷ apply_command c ∷ []

    -- Of the three actions of a served command the last answers the client that waits for it.
    work_answers :
        (m : Node P S) (c : Command) (tx : P.Sender)
        → m.pending ≡ (m.raft.last_applied, tx) ∷ []
        → (n' : Node P S) × (process_actions P S m (work c) ≡ some n')
          × (n'.pending ≡ [])
          × (answers n'.world ≡ answers m.world ++ (tx, applied) ∷ [])
    unfolding process_actions process_action reply_to
    work_answers m c tx h =
        let (t, w) = cancel_election P m.election_timer m.world in
        let (b, w') = reset_heartbeat P m.heartbeat_timer w in
        let m' = record m {
          election_timer = t;
          heartbeat_timer = b;
          world = (P.save m.raft.persistent w').1;
          state_machine = S.apply m.state_machine c;
        } in
        let e = resolve_only m' m.raft.last_applied tx h in
        (
          resolve P S m' m.raft.last_applied,
          refl,
          ap (λ n. n.pending) e,
          ap (λ n. answers n.world) e
              ∙ law.reply_appends tx applied m'.world
              ∙ ap (λ l. l ++ (tx, applied) ∷ [])
                  (law.save_keeps m.raft.persistent _
                    ∙ reset_heartbeat-keeps P answers law.tasks m.heartbeat_timer
                        (cancel_election P m.election_timer m.world).1
                    ∙ cancel_election-keeps P answers law.tasks m.election_timer m.world),
        )

    handle_client-Serves :
        (n : Node P S) (c : Command) (tx : P.Sender)
        → IsServing n
        → suc (length n.raft.log) < u64_mod
        → (n' : Node P S) × (handle_client P S n c tx ≡ some n') × Serves n c tx n'
    unfolding handle_client step update_metrics put remove
    handle_client-Serves n c tx v fits =
        let (acts, solo, grown) = handle_client_request-IsSolo n.raft c v.solo fits in
        let r = (handle_client_request n.raft c).0 in
        let at : last_log_index r ≡ suc (length n.raft.log) =
          last_log_index-length r solo.valid.numbered ∙ grown in
        let before = last_log_index-length n.raft v.solo.valid.numbered in
        let grew : ltb (last_log_index n.raft) (last_log_index r) ≡ true =
          lt→ltb _ _ (omega (arith, before, at)) in
        let m = record n { raft = r; pending = (last_log_index r, tx) ∷ [] } in
        let waits : m.pending ≡ (r.last_applied, tx) ∷ [] =
          ap (λ i. (i, tx) ∷ []) (at ∙ sym (solo.current ∙ grown)) in
        let (n', acted, idle, answered) = work_answers m c tx waits in
        let x = process_actions-Executes P S m n' (work c) acted in
        (
          update_metrics P S n',
          rw (grew, acts, v.idle, acted) refl,
          record {
            serving = record { solo = subst IsSolo (sym x.raft) solo; idle = idle };
            grown = ap (λ r. length r.log) x.raft ∙ grown;
            executed = x.state_machine;
            answered = answered;
          },
        )

    -- A node without peers that is leader, has applied its log and has no waiting client handles any
    -- clients' commands that its log has room for without a panic: the state machine has executed
    -- exactly these commands, in their order, every client has been answered `applied`, once and in
    -- that order, and the node is ready for more. (The tasks, the storage and
    -- the transport send no answers.)
    pub event_loop_serves :
        (n : Node P S) (cs : List (Command × P.Sender))
        → IsServing n
        → length n.raft.log + length cs < u64_mod
        → (n' : Node P S) × (event_loop P S n (requests cs) ≡ some n')
          × IsServing n'
          × (n'.state_machine ≡ replay S n.state_machine (map (λ x. x.0) cs))
          × (answers n'.world ≡ answers n.world ++ map (λ x. (x.1, applied)) cs)
    unfolding event_loop handle_input
    event_loop_serves n [] v room = (n, refl, v, refl, sym (append-nil (answers n.world)))
    event_loop_serves n ((c, tx) ∷ cs) v room =
        let (n₁, handled, s) = handle_client-Serves n c tx v (omega arith) in
        let (n₂, ran, v₂, executed, answered) =
          event_loop_serves n₁ cs s.serving (omega (arith, s.grown)) in
        (
          n₂,
          rw handled ran,
          v₂,
          executed ∙ ap (λ x. replay S x (map (λ x. x.0) cs)) s.executed,
          answered
              ∙ ap (λ l. l ++ map (λ x. (x.1, applied)) cs) s.answered
              ∙ append_assoc (answers n.world) ((tx, applied) ∷ []) (map (λ x. (x.1, applied)) cs),
        )

    -- The election timer of a new node without peers makes it a leader that is ready to serve.
    elected-IsServing :
        (n : Node P S) (id : NodeId)
        → n.raft ≡ new id []
        → n.pending ≡ []
        → (n' : Node P S) × (handle_input P S n (timer TimerEvent.election_timeout) ≡ some n')
          × IsServing n'
          × (length n'.raft.log ≡ 0)
          × (n'.state_machine ≡ n.state_machine)
          × (answers n'.world ≡ answers n.world)
    unfolding handle_input node_step step handle_election_timeout start_candidacy become_leader new
        update_metrics process_actions process_action
    elected-IsServing n id e idle =
        let valid : IsValid (new id []) = record {
          numbered = tt;
          applied = omega arith;
          committed = omega arith;
          short = omega arith;
          shaped = refl;
        } in
        let (p, stepped, w, _) = step-Succeeds (new id []) election_timeout valid tt in
        rw e (
          _,
          refl,
          record {
            solo = record {
              valid = subst (λ q. IsValid q.0) (sym (some-injective _ p stepped)) w;
              alone = refl;
              leads = refl;
              current = refl;
            };
            idle = idle;
          },
          refl,
          refl,
          law.save_keeps _ _
              ∙ reset_heartbeat-keeps P answers law.tasks n.heartbeat_timer
                  (cancel_election P n.election_timer n.world).1
              ∙ cancel_election-keeps P answers law.tasks n.election_timer n.world,
        )

    -- A new node without peers whose election timer fires and to which clients then send commands
    -- runs without a panic: its state machine has executed exactly these commands, in their order,
    -- and every client has been answered `applied`, once and in that order. (The smallest election
    -- timeout is not above the largest, in 64 bits; there are fewer than `2 ^ 64` commands; the
    -- tasks, the storage and the transport send no answers.)
    pub run_serves :
        (id : NodeId) (w : P.World) (s : S.State) (config : NodeConfig) (metrics : Metrics)
        (cs : List (Command × P.Sender))
        → config.election_timeout_min % u64_mod ≤ config.election_timeout_max % u64_mod
        → length cs < u64_mod
        → (n : Node P S) × (run P S
              (new_node P S id [] none w s config metrics)
              (timer TimerEvent.election_timeout ∷ requests cs)
            ≡ some n)
          × (n.state_machine ≡ replay S s (map (λ x. x.0) cs))
          × (answers n.world ≡ answers w ++ map (λ x. (x.1, applied)) cs)
    unfolding run event_loop new_node update_metrics
    run_serves id w s config metrics cs ranged room =
        let n₀ = new_node P S id [] none w s config metrics in
        let (t, w₀) = reset_to P n₀.election_timer w in
        let reset = reset_election-HasRange P n₀.election_timer w ranged in
        let n₁ = update_metrics P S (record n₀ { election_timer = t; world = w₀ }) in
        let (n₂, handled, v, empty, kept, quiet) = elected-IsServing n₁ id refl refl in
        let (n₃, served, _, executed, answered) =
          event_loop_serves n₂ cs v (omega (arith, empty)) in
        (
          n₃,
          rw (reset, handled) served,
          executed ∙ ap (λ x. replay S x (map (λ x. x.0) cs)) kept,
          answered
              ∙ ap (λ l. l ++ map (λ x. (x.1, applied)) cs)
                  (quiet ∙ reset_election-keeps P answers law.tasks n₀.election_timer t w w₀ reset),
        )
