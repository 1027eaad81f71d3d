-- ===== src/Deployment.antt =====
-- The nodes of raft-runtime/src/node.rs, each with its event loop, its storage and its transport,
-- as one cluster of cores.
pub mod Traces
pub mod Cluster
pub mod Simulation
pub mod Tests
