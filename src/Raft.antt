-- ===== src/Raft.antt =====
-- raft-core: the consensus core of one node, a state and a step on events.
pub mod State
pub mod Log
pub mod Election
pub mod Vote
pub mod AppendEntries
pub mod Heartbeat
pub mod Client
pub mod Step
pub mod Apply
pub mod Commit
pub mod Validity
pub mod Terms
pub mod Applied
pub mod Replication
pub mod Majority
pub mod Durability
pub mod AppendOnly
pub mod Races
pub mod Course
pub mod Announcements
pub mod Supporters
pub mod Ballots
pub mod Polling
pub mod Parts
pub mod Solo
pub mod Units
pub mod Tests
