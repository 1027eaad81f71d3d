-- ===== src/Deployment/Cluster.antt =====
-- raft-runtime/src/node.rs: nodes that run their event loops and start again from their storage,
-- and a network that delivers what some node has sent, as often and as late as it likes.
use raft_craft.Prelude.{
  suc, length, ◌<◌, ◌≡◌, true, List, [], ◌++◌, Option, none, some, Any, contains, u64_mod,
}
use raft_craft.Protocol.{NodeId, Action}
use raft_craft.Raft.State.{Raft, PersistentState, default_persistent}
use raft_craft.Raft.Step.{step}
use raft_craft.Runtime.Platform.{Platform, StateMachine}
use raft_craft.Runtime.Metrics.{Metrics}
use raft_craft.Runtime.Node.{
  Node, NodeConfig, Input, timer, incoming, client, new_node, run, handle_input, process_actions,
}
use raft_craft.Runtime.Node.Effects.{event_of, entered}
use raft_craft.Consensus.System.{peers_in, update}
use raft_craft.Deployment.Traces.{Trace}

abbrev pub nothing_yet : Trace
nothing_yet = record { stored = none; sent = [] }

-- What a storage stands for: a node without one starts as a new node.
abbrev pub on_disk : Option PersistentState → PersistentState
on_disk none = default_persistent
on_disk (some s) = s

module _ (P : Platform) (S : StateMachine) (trace : P.World → Trace) where
  -- The node was made from its storage and has come to its event loop; its state machine, its
  -- configuration and its metrics are whatever the caller gives it.
  pub record IsBooted (members : List NodeId) (i : NodeId) (t : Trace) (n : Node P S) : Type 0 where
    pub world : P.World
    pub state_machine : S.State
    pub config : NodeConfig
    pub metrics : Metrics
    pub outside : trace world ≡ t
    pub ran :
        run P S (new_node P S i (peers_in members i) t.stored world state_machine config metrics) []
        ≡ some n

  -- A message arrives only if some node has sent it there; the timers and the clients may do
  -- anything at any time.
  abbrev pub Arrives : (NodeId → Node P S) → NodeId → Input P → Type 0
  Arrives d i (incoming from m) = (j : NodeId) × Any (λ x. x ≡ (i, m)) (trace (d j).world).sent
  Arrives d i (timer e) = Unit {0}
  Arrives d i (client c tx) = Unit {0}

  -- A node handles an input, with room for its term and its log to grow; or it crashes
  -- after a part of the actions for an input (a panic of its own in the next one included), or
  -- between two inputs, and starts again from its storage.
  pub data Turn (members : List NodeId) (d : NodeId → Node P S) : (NodeId → Node P S) → Type 0 where
    takes :
        (i : NodeId) (input : Input P) (n : Node P S)
        → contains members i ≡ true
        → Arrives d i input
        → suc (d i).raft.current_term < u64_mod
        → suc (length (d i).raft.log) < u64_mod
        → handle_input P S (d i) input ≡ some n
        → Turn members d (update d i n)
    breaks :
        (i : NodeId) (input : Input P) (p : Raft × List Action) (acts rest : List Action)
        (m n : Node P S)
        → contains members i ≡ true
        → Arrives d i input
        → suc (d i).raft.current_term < u64_mod
        → suc (length (d i).raft.log) < u64_mod
        → step (d i).raft (event_of P S input) ≡ some p
        → p.1 ≡ acts ++ rest
        → process_actions P S (entered P S (d i) input p.0) acts ≡ some m
        → IsBooted members i (trace m.world) n
        → Turn members d (update d i n)
    restarts :
        (i : NodeId) (n : Node P S)
        → contains members i ≡ true
        → IsBooted members i (trace (d i).world) n
        → Turn members d (update d i n)

  pub data Deployed (members : List NodeId) : (NodeId → Node P S) → Type 0 where
    boots :
        (d : NodeId → Node P S)
        → ((i : NodeId) → IsBooted members i nothing_yet (d i))
        → Deployed members d
    goes_on :
        {d d' : NodeId → Node P S} → Deployed members d → Turn members d d' → Deployed members d'
