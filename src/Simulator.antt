-- ===== src/Simulator.antt =====
-- raft-simulator: nodes on a simulated network with a simulated clock.
pub mod Clock
pub mod Store
pub mod Network
pub mod Cluster
pub mod App
pub mod Input
pub mod Renderer
pub mod Widgets
pub mod Main
pub mod Tests
