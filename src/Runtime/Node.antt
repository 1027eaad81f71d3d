-- ===== src/Runtime/Node.antt =====
-- raft-runtime/src/node.rs: one node, its event loop and the execution of the core's actions. `none`
-- is a panic, in the core or in a timer. A log line (`info!`, `error!`) is not modelled.
pub mod Effects
pub mod Replay
pub mod Replies
pub mod Solo
pub mod Tasks
use Prim.Native.String.{◌++◌ as ◌<>◌}
use raft_craft.Prelude.{
  ℕ, ◌==◌, String, Bool, true, false, List, [], ◌∷◌, Option, none, some, ltb, length, lookup,
  remove, put, ◌>>=◌, if◌then◌else◌,
}
use raft_craft.Protocol.{
  NodeId, LogIndex, Command, Action, send, reset_election_timer, reset_heartbeat_timer,
  persist_state, not_leader as not_leader_action, apply_command, Message, request_vote,
  request_vote_response, append_entries, append_entries_response, Event, message, client_request,
}
use raft_craft.Raft.State.{Raft, PersistentState, new, restore, last_log_index}
use raft_craft.Raft.Step.{step}
use raft_craft.Runtime.Platform.{
  Platform, StateMachine, TimerEvent, ClientResponse, applied, not_leader,
}
use raft_craft.Runtime.Timer.{
  ElectionTimer, HeartbeatTimer, new_election_timer, new_heartbeat_timer, reset_election,
  cancel_election, reset_heartbeat,
}
use raft_craft.Runtime.Metrics.{Metrics, MessageEvent, update, record_message}

-- raft-runtime/src/config.rs, durations in milliseconds.
pub record NodeConfig : Type 0 where
  pub election_timeout_min : ℕ
  pub election_timeout_max : ℕ
  pub heartbeat_interval : ℕ
  pub incoming_channel_capacity : ℕ
  pub client_channel_capacity : ℕ

abbrev pub default_config : NodeConfig
default_config = record {
  election_timeout_min = 150;
  election_timeout_max = 300;
  heartbeat_interval = 50;
  incoming_channel_capacity = 256;
  client_channel_capacity = 64;
}

-- The transport, the storage, the tasks and the channels are in `world`.
pub record Node (P : Platform) (S : StateMachine) : Type 0 where
  pub raft : Raft
  pub state_machine : S.State
  pub metrics : Metrics
  pub election_timer : ElectionTimer P
  pub heartbeat_timer : HeartbeatTimer P
  pub pending : List (LogIndex × P.Sender)
  pub world : P.World

-- What arrives at the event loop, in the order in which `select!` takes it.
pub data Input (P : Platform) : Type 0 where
  timer : TimerEvent → Input P
  incoming : (from : NodeId) → Message → Input P
  client : Command → P.Sender → Input P

abbrev timer_to_event : TimerEvent → Event
timer_to_event TimerEvent.election_timeout = Event.election_timeout
timer_to_event TimerEvent.heartbeat_timeout = Event.heartbeat_timeout

abbrev display_bool : Bool → String
display_bool true = "true"
display_bool false = "false"

module _ (P : Platform) (S : StateMachine) where
  open P use {World, Sender}

  unfoldable pub new_node :
      NodeId
      → List NodeId
      → Option PersistentState
      → World
      → S.State
      → NodeConfig
      → Metrics
      → Node P S
  new_node id peers initial_state world state_machine config metrics = record {
    raft = elim initial_state [ some state ↦ restore id peers state | none ↦ new id peers ];
    state_machine = state_machine;
    metrics = metrics;
    election_timer = new_election_timer P config.election_timeout_min config.election_timeout_max;
    heartbeat_timer = new_heartbeat_timer P config.heartbeat_interval;
    pending = [];
    world = world;
  }

  unfoldable pub msg_label : Message → String
  msg_label (request_vote m) = "RequestVote(t=" <> P.display m.term <> ")"
  msg_label (request_vote_response m) =
      "VoteResponse(t=" <> P.display m.term <> ", granted=" <> display_bool m.vote_granted <> ")"
  msg_label (append_entries m) =
      "AppendEntries(t=" <> P.display m.term <> ", n=" <> P.display (length m.entries) <> ")"
  msg_label (append_entries_response m) =
      "AppendEntriesResponse(t=" <> P.display m.term <> ", ok=" <> display_bool m.success <> ")"

  unfoldable pub update_metrics : Node P S → Node P S
  update_metrics n = record n {
    metrics =
        update n.metrics n.raft.role n.raft.current_term n.raft.commit_index n.raft.last_applied
          (length n.raft.log) n.raft.known_leader;
  }

  unfoldable pub record_outgoing : Node P S → Message → NodeId → Node P S
  record_outgoing n msg to =
      let event : MessageEvent = record {
        tick = P.clock_tick n.world;
        from = n.raft.id;
        to = to;
        label = msg_label msg;
      } in
      record n { metrics = record_message n.metrics event }

  unfoldable pub reply_to : Node P S → Sender → ClientResponse → Node P S
  reply_to n tx response = record n { world = P.reply tx response n.world }

  -- `for (_, client) in pending`, in the order of the list; a `HashMap` has none of its own.
  unfoldable pub drain : Node P S → Option NodeId → List (LogIndex × Sender) → Node P S
  drain n leader_id [] = n
  drain n leader_id ((_, tx) ∷ rest) = drain (reply_to n tx (not_leader leader_id)) leader_id rest

  unfoldable pub resolve : Node P S → LogIndex → Node P S
  resolve n index = elim (lookup ◌==◌ index n.pending) [
    | none ↦ n
    | some tx ↦ reply_to (record n { pending = remove ◌==◌ index n.pending }) tx applied
  ]

  -- A failed save is logged, and the actions go on.
  unfoldable pub process_action : Node P S → Action → Option (Node P S)
  process_action n (send to msg) =
      let n' = record_outgoing n msg to in some (record n' { world = P.send to msg n'.world })
  process_action n reset_election_timer = do
    (t, w) ← reset_election P n.election_timer n.world
    some (record n { election_timer = t; world = w })
  process_action n reset_heartbeat_timer =
      let (t, w) = cancel_election P n.election_timer n.world in
      let (h, w') = reset_heartbeat P n.heartbeat_timer w in
      some (record n { election_timer = t; heartbeat_timer = h; world = w' })
  process_action n persist_state = some (record n { world = (P.save n.raft.persistent n.world).1 })
  process_action n (not_leader_action leader_id) =
      some (drain (record n { pending = [] }) leader_id n.pending)
  process_action n (apply_command cmd) =
      some (resolve (record n { state_machine = S.apply n.state_machine cmd }) n.raft.last_applied)

  unfoldable pub process_actions : Node P S → List Action → Option (Node P S)
  process_actions n [] = some n
  process_actions n (action ∷ rest) = do n' ← process_action n action; process_actions n' rest

  unfoldable pub node_step : Node P S → Event → Option (Node P S)
  node_step n event = do
    (raft, actions) ← step n.raft event
    n' ← process_actions (record n { raft = raft }) actions
    some (update_metrics n')

  unfoldable pub handle_client : Node P S → Command → Sender → Option (Node P S)
  handle_client n cmd reply_tx = do
    (raft, actions) ← step n.raft (client_request cmd)
    let n₁ = record n { raft = raft }
    let n₂ =
        if ltb (last_log_index n.raft) (last_log_index raft)
        then record n₁ { pending = put ◌==◌ (last_log_index raft) reply_tx n₁.pending }
        else reply_to n₁ reply_tx (not_leader raft.known_leader)
    n₃ ← process_actions n₂ actions
    some (update_metrics n₃)

  unfoldable pub handle_input : Node P S → Input P → Option (Node P S)
  handle_input n (timer e) = node_step n (timer_to_event e)
  handle_input n (incoming from msg) = node_step n (message msg)
  handle_input n (client cmd reply_tx) = handle_client n cmd reply_tx

  unfoldable pub event_loop : Node P S → List (Input P) → Option (Node P S)
  event_loop n [] = some n
  event_loop n (input ∷ rest) = do n' ← handle_input n input; event_loop n' rest

  -- `run`, until the channels are closed behind the given inputs.
  unfoldable pub run : Node P S → List (Input P) → Option (Node P S)
  run n inputs = do
    (t, w) ← reset_election P n.election_timer n.world
    event_loop (update_metrics (record n { election_timer = t; world = w })) inputs
