-- ===== src/Consensus.antt =====
-- Several nodes together: what the cores of raft-core guarantee over every run of a cluster.
pub mod System
pub mod Ballots
pub mod Quorums
pub mod Election
pub mod Histories
pub mod Chronicle
pub mod LogMatching
pub mod Progress
pub mod CatchUp
pub mod Tests
