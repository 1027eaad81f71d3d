-- ===== src/Lib.antt =====
-- raft-craft: a Raft consensus library in Rust, and a terminal simulator for it.
--
-- The program has three crates. raft-core is the consensus core of one node: a state, and `step`,
-- which turns an event into the changes of that state and a list of actions. raft-runtime runs one
-- node: an event loop that takes timers, messages and client commands to the core and executes its
-- actions. raft-simulator runs several nodes in one process, on a network that can drop and delay
-- messages and a clock that advances by ticks, under a terminal interface.
--
-- The files, and the code that each is about (paths from the repository's root):
--   Protocol: raft-core/src/protocol, the messages, the events and the actions.
--   Raft/State: raft-core/src/lib.rs, `Raft` and its parts, `new`, `restore`, `quorum`.
--   Raft/Vote, Raft/Election, Raft/AppendEntries, Raft/Heartbeat, Raft/Client, Raft/Step: the files
--     of the same names in raft-core/src/raft, one function for each method.
--   Raft/Log, Raft/Apply, Raft/Commit, Raft/Majority, Raft/Replication: what the loops of the
--     handlers compute, one exchange between a leader and a follower, and repeated ones
--     (Raft/Replication/CatchUp).
--   Raft/Validity, Raft/Applied, Raft/Terms, Raft/AppendOnly, Raft/Durability: what every step
--     preserves.
--   Raft/Races, Raft/Ballots, Raft/Supporters: what every step does to the race for leader: who the node
--     is, which votes it sends, and who has voted for a candidate. Raft/Course, Raft/Announcements: what
--     every step does to the role and the log, and which AppendEntries it sends.
--   Consensus: several nodes of raft-core together. Consensus/System is the step relation of a cluster,
--     Consensus/Ballots the history of the votes, Consensus/Quorums the members that two quorums share,
--     Consensus/Election what holds of leaders in every run. Consensus/Histories and Consensus/Chronicle
--     are the history of the logs that leaders have had, Consensus/LogMatching what it says of all logs,
--     Consensus/CatchUp what it means for a follower that lags behind,
--     Consensus/Progress how a cluster comes to a leader (its steps on one node: Raft/Polling).
--   Raft/Units: the unit tests in the files of raft-core/src/raft, run on the model: each test is a Boolean
--     with the asserts of the source.
--   Raft/Parts: a step of which only a first part of the actions is executed.
--   Runtime/Timer, Runtime/Metrics, Runtime/Node, Runtime/Persistence: the files of the same names in
--     raft-runtime/src, with config.rs in Runtime/Node; Runtime/Platform is what they call.
--     Runtime/Node/Effects is about what actions do to a node, Runtime/Node/Replay about its state
--     machine, Runtime/Node/Replies about the clients that are answered and that wait,
--     Runtime/Node/Solo about the service of a node without peers (its core: Raft/Solo),
--     Runtime/Node/Tasks and Runtime/Timer about the timers' tasks, Runtime/Metrics/Window about the
--     message log, and Runtime/Persistence/RoundTrip about loading what was saved.
--   Deployment: a cluster of nodes of raft-runtime/src/node.rs. Deployment/Traces is what a node leaves in
--     its storage and hands to its transport, Deployment/Cluster the step relation, with `run` and
--     `new_node` at a start and a restart, Deployment/Simulation its runs as runs of Consensus/System.
--   Simulator/Clock, Simulator/Network, Simulator/Cluster, Simulator/Store, Simulator/App: clock.rs,
--     network.rs, cluster.rs, state_machine.rs and ui/app.rs of raft-simulator/src; their children
--     hold the theorems.
--   Simulator/Input, Simulator/Renderer: ui/input.rs and, of ui/renderer.rs, `apply` and the handling of
--     a key. Simulator/Renderer/Runs is about whole runs of the simulator.
--   Simulator/Widgets, Simulator/Main: what the panels of ui/widgets show, and the start in main.rs.
--   Raft/Tests, Runtime/Tests, Consensus/Tests, Deployment/Tests, Simulator/Tests: the theorems on
--     concrete states; Consensus/Tests/EarlyCommit and Consensus/Tests/Divergence are runs in which a
--     reply confirms too much.
--
-- How the code corresponds to the model. A method on `&mut self` is a function from the state to the
-- new state and the actions. A method that may panic, on an index out of range or on an empty range
-- of election timeouts, returns an `Option`, and `none` is the panic. A `u64` is a native number;
-- additions wrap as in a release build, in which the `debug_assert`s are off. A `HashSet` of nodes
-- is a list without repetitions, a `HashMap` an association list: where the code iterates over one,
-- the order of the list stands for the order that the code does not fix. `Raft` has the persistent
-- and the volatile state as fields, as in the code.
--
-- Bounds. The loop of `apply_committed_entries` has as fuel the number of entries that are committed
-- and not applied, which is the number of its rounds. The other loops are recursions on their lists
-- or on the number of peers. The rounds of Raft/Replication/CatchUp are counted, and the next index
-- bounds how many of them are enough.
-- An index or a term that would overflow is excluded by a hypothesis where a theorem needs it.
--
-- The runtime's platform (tasks, channels, random numbers, transport, storage and the application)
-- is a parameter, a record of functions on a world. Where a theorem needs what they do, the
-- documented behaviour is a named hypothesis: `IsTraced` (storage and transport), `IsAnswering` (the
-- channels to the clients, which the tasks, the storage and the transport do not touch),
-- `TracksTasks` and `IgnoresTasks` (starting tasks and requesting that they end; `abort` returns
-- before the task has ended). The panic of `random_range` on an empty range is written out in
-- `random_in`. Of the simulator's tasks, channels and floating-point numbers nothing is assumed.
--
-- The files of Runtime/Persistence are a file system and a JSON format, parameters as well; its
-- theorems assume their documented behaviour, `IsFaithful`.
--
-- A cluster (Consensus/System) has a set of members; each node handles any event at any time, its
-- persistent state goes to its disk exactly when the actions ask for it, and it may crash and restart
-- from the disk at any time. A message arrives only if it was sent, at any later time, any number of
-- times or never. A step is taken only while the term and the log have room to grow in a `u64`. The
-- histories of the votes and of the leaders are kept beside the states and have no influence on them. A
-- crash falls between two events, or after any part of the actions of one; a change that is lost because
-- its save was not reached enters no history. This is a cluster of nodes with the persistence of
-- raft-runtime; the nodes of raft-simulator restart without their state (`NoPersistence`), and the
-- theorems on a cluster are not about those.
--
-- Deployment puts the nodes of Runtime/Node in the place of the cores: each turn is one input of
-- `handle_input`, a part of the actions of one followed by a restart, or a restart. What the storage and
-- the transport were given is a function of the platform's world, with the laws that the storage does not
-- fail and the transport takes every message (`IsTraced`).
--
-- Of the user interface, the key codes of crossterm and the formats of numbers are parameters or a data
-- type with the codes that the code names. A long-lived task of a node is seen by the simulator only as
-- the sleeps that it polls.
--
-- Not modelled: the real clock of raft-runtime/src/clock.rs, the set-up of the terminal, styles, layout and
-- the panel of controls (raft-simulator/src/ui/renderer.rs, widgets), the start of the runtime in main.rs,
-- log lines, the derivation of serialization, and the tests of raft-runtime (src/tests.rs), which wait for
-- real time and threads.
pub mod Prelude
pub mod Protocol
pub mod Raft
pub mod Runtime
pub mod Consensus
pub mod Deployment
pub mod Simulator
