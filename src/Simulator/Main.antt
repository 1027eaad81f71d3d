-- ===== src/Simulator/Main.antt =====
-- raft-simulator/src/main.rs: the cluster that the simulator starts with. The runtime of tokio
-- and the tracing are not modelled.
use raft_craft.Prelude.{List, [], ◌∷◌}
use raft_craft.Protocol.{NodeId}
use raft_craft.Runtime.Node.{NodeConfig}
use raft_craft.Simulator.Clock.{new_clock}
use raft_craft.Simulator.Network.{Float}
use raft_craft.Simulator.Cluster.{Tasks, Cluster, new_cluster}

-- Times in milliseconds.
abbrev simulator_config : NodeConfig
simulator_config = record {
  election_timeout_min = 150;
  election_timeout_max = 300;
  heartbeat_interval = 50;
  incoming_channel_capacity = 256;
  client_channel_capacity = 64;
}

abbrev node_ids : List NodeId
node_ids = 1 ∷ 2 ∷ 3 ∷ 4 ∷ 5 ∷ []

-- `async_main`, up to the interface; the task that advances the clock is already in `world`.
unfoldable pub async_main : (F : Float) (T : Tasks) → T.World → Cluster F T
async_main F T world = new_cluster F T node_ids new_clock simulator_config world
