-- ===== src/Raft/Log.antt =====
-- The log of a node as a sequence: entries numbered one after the other, as the `index` fields of
-- raft-core/src/protocol/log.rs are meant to be, and what the searches by index then find.
pub mod Numbered
pub mod Slices
pub mod Merge
pub mod Agreement
