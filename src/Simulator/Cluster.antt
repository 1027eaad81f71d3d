-- ===== src/Simulator/Cluster.antt =====
-- raft-simulator/src/cluster.rs: the nodes of the simulator, its network and its clock. The tasks
-- and channels of tokio are a parameter. `nodes` is a `HashMap`, here an association list; the
-- network and the clock, which the nodes share and only read, are fields. A log line (`info!`) is
-- not modelled.
pub mod Lifecycle
pub mod Partitions
use raft_craft.Prelude.{
  ℕ, ◌==◌, Bool, true, false, not, List, [], ◌∷◌, Option, none, some, filter, map_or, lookup, put,
  ◌>>=◌, if◌then◌else◌,
}
use raft_craft.Protocol.{NodeId, Command}
use raft_craft.Raft.State.{Raft, new}
use raft_craft.Runtime.Node.{NodeConfig}
use raft_craft.Runtime.Metrics.{Metrics, new_metrics}
use raft_craft.Simulator.Clock.{SimulatedClock, set_speed}
use raft_craft.Simulator.Network.{
  set_drop_rate as network_set_drop_rate, set_latency_ms as network_set_latency_ms, Float, Network,
  new_network, register, deregister, partition, heal,
}
use raft_craft.Simulator.Store.{KeyValueStore, new_store}

-- What `Node::new` is given, with no persisted state: `raft` is the core it makes of that.
pub record NodeTask (IncomingReceiver ClientReceiver : Type 0) : Type 0 where
  pub raft : Raft
  pub transport : NodeId
  pub incoming_rx : IncomingReceiver
  pub client_rx : ClientReceiver
  pub state_machine : KeyValueStore
  pub config : NodeConfig
  pub metrics : Metrics

-- Bounded channels of messages and of client requests, tasks, and `try_send` of a request with a
-- fresh `oneshot` channel, of which the receiver is the result. `wake` lets a task that sleeps
-- run on.
pub record Tasks : Type 1 where
  pub World : Type 0
  pub Task : Type 0
  pub Waker : Type 0
  pub IncomingSender : Type 0
  pub IncomingReceiver : Type 0
  pub ClientSender : Type 0
  pub ClientReceiver : Type 0
  pub ReplyReceiver : Type 0
  pub incoming_channel : ℕ → World → IncomingSender × IncomingReceiver × World
  pub client_channel : ℕ → World → ClientSender × ClientReceiver × World
  pub spawn : NodeTask IncomingReceiver ClientReceiver → World → Task × World
  pub abort : Task → World → World
  pub wake : Waker → World → World
  pub try_send : ClientSender → Command → World → Option ReplyReceiver × World

-- `metrics` is shared with the running task: it is held as it was when the node was started.
pub record NodeHandle (T : Tasks) : Type 0 where
  pub metrics : Metrics
  pub client_tx : T.ClientSender
  pub task : Option T.Task
  pub alive : Bool

pub record Cluster (F : Float) (T : Tasks) : Type 0 where
  pub nodes : List (NodeId × NodeHandle T)
  pub network : Network F T.IncomingSender
  pub clock : SimulatedClock T.Waker
  pub node_ids : List NodeId
  pub config : NodeConfig
  pub world : T.World

module _ (F : Float) (T : Tasks) where
  -- The other nodes.
  abbrev pub peers_of : NodeId → List NodeId → List NodeId
  peers_of id node_ids = filter (λ p. not (p == id)) node_ids

  unfoldable pub start_node :
      NodeId
      → List NodeId
      → Network F T.IncomingSender
      → NodeConfig
      → T.World
      → NodeHandle T × Network F T.IncomingSender × T.World
  start_node id peers network config world =
      let (incoming_tx, incoming_rx, w₁) =
        T.incoming_channel config.incoming_channel_capacity world in
      let (client_tx, client_rx, w₂) = T.client_channel config.client_channel_capacity w₁ in
      let metrics = new_metrics id in
      let (task, w₃) =
        T.spawn
          (record {
            raft = new id peers;
            transport = id;
            incoming_rx = incoming_rx;
            client_rx = client_rx;
            state_machine = new_store;
            config = config;
            metrics = metrics;
          })
          w₂ in
      (
        record { metrics = metrics; client_tx = client_tx; task = some task; alive = true },
        register F network id incoming_tx,
        w₃,
      )

  -- `self.nodes.insert` of a started node.
  unfoldable pub start_in : Cluster F T → NodeId → Cluster F T
  start_in c id =
      let (handle, network, world) =
        start_node id (peers_of id c.node_ids) c.network c.config c.world in
      record c { nodes = put ◌==◌ id handle c.nodes; network = network; world = world }

  unfoldable pub start_all : Cluster F T → List NodeId → Cluster F T
  start_all c [] = c
  start_all c (id ∷ ids) = start_all (start_in c id) ids

  unfoldable pub new_cluster :
      List NodeId → SimulatedClock T.Waker → NodeConfig → T.World → Cluster F T
  new_cluster node_ids clock config world =
      start_all
        (record {
          nodes = [];
          network = new_network F;
          clock = clock;
          node_ids = node_ids;
          config = config;
          world = world;
        })
        node_ids

  unfoldable pub is_alive : Cluster F T → NodeId → Bool
  is_alive c id = map_or false (λ h. h.alive) (lookup ◌==◌ id c.nodes)

  unfoldable pub kill_node : Cluster F T → NodeId → Cluster F T
  kill_node c id = elim (lookup ◌==◌ id c.nodes) [
    | none ↦ c
    | some h ↦ if not h.alive then c else record c {
      nodes = put ◌==◌ id (record h { task = none; alive = false }) c.nodes;
      network = deregister F c.network id;
      world = elim h.task [ none ↦ c.world | some task ↦ T.abort task c.world ];
    }
  ]

  unfoldable pub restart_node : Cluster F T → NodeId → Cluster F T
  restart_node c id = if is_alive c id then c else start_in c id

  unfoldable pub isolate_links :
      Network F T.IncomingSender → NodeId → List NodeId → Network F T.IncomingSender
  isolate_links n node [] = n
  isolate_links n node (other ∷ rest) =
      isolate_links (if not (other == node) then partition F n node other else n) node rest

  unfoldable pub unisolate_links :
      Network F T.IncomingSender → NodeId → List NodeId → Network F T.IncomingSender
  unisolate_links n node [] = n
  unisolate_links n node (other ∷ rest) =
      unisolate_links (if not (other == node) then heal F n node other else n) node rest

  unfoldable pub isolate : Cluster F T → NodeId → Cluster F T
  isolate c node = record c { network = isolate_links c.network node c.node_ids }

  unfoldable pub unisolate : Cluster F T → NodeId → Cluster F T
  unisolate c node = record c { network = unisolate_links c.network node c.node_ids }

  -- The receiver of the reply, and the world after it.
  unfoldable pub submit : Cluster F T → NodeId → Command → Option T.ReplyReceiver × T.World
  submit c id cmd = elim (lookup ◌==◌ id c.nodes) [
    | none ↦ (none, c.world)
    | some h ↦ if not h.alive then (none, c.world) else T.try_send h.client_tx cmd c.world
  ]

  -- The controls of the network and the clock.
  unfoldable pub set_drop_rate : Cluster F T → F.Carrier → Cluster F T
  set_drop_rate c rate = record c { network = network_set_drop_rate F c.network rate }

  unfoldable pub set_latency_ms : Cluster F T → ℕ → Cluster F T
  set_latency_ms c ms = record c { network = network_set_latency_ms F c.network ms }

  unfoldable pub set_speed_us : Cluster F T → ℕ → Cluster F T
  set_speed_us c us = record c { clock = set_speed c.clock us }

  unfoldable pub drop_rate : Cluster F T → F.Carrier
  drop_rate c = c.network.config.drop_rate

  unfoldable pub latency_ms : Cluster F T → ℕ
  latency_ms c = c.network.config.latency_ms

  unfoldable pub speed_us : Cluster F T → ℕ
  speed_us c = c.clock.step
