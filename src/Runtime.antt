-- ===== src/Runtime.antt =====
-- raft-runtime: the event loop round the core, its timers, metrics and storage.
pub mod Platform
pub mod Timer
pub mod Metrics
pub mod Node
pub mod Persistence
pub mod Tests
