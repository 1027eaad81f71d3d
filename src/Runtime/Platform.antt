-- ===== src/Runtime/Platform.antt =====
-- What raft-runtime calls and does not implement: tokio's tasks and channels, the random numbers,
-- and its own traits `Transport`, `Persistence` and `StateMachine`, which its users implement
-- (raft-runtime/src/transport.rs, persistence.rs, state_machine.rs, clock.rs).
use raft_craft.Prelude.{ℕ, String, Bool, Option}
use raft_craft.Protocol.{NodeId, Command, Message}
use raft_craft.Raft.State.{PersistentState}

pub data TimerEvent : Type 0 where
  election_timeout heartbeat_timeout : TimerEvent

pub data ClientResponse : Type 0 where
  applied : ClientResponse
  not_leader : (leader_id : Option NodeId) → ClientResponse

pub record StateMachine : Type 1 where
  pub State : Type 0
  pub apply : State → Command → State

-- `World` is all that lies outside the node. `spawn ms e` starts a task that sleeps for `ms`
-- milliseconds and then sends `e` to the event loop, `abort` requests that one end;
-- `random_range` is called for a range that is not empty; `save` tells whether it succeeded;
-- `reply` sends on a `oneshot` channel; `display` is the standard format of a number.
pub record Platform : Type 1 where
  pub World : Type 0
  pub JoinHandle : Type 0
  pub Sender : Type 0
  pub spawn : ℕ → TimerEvent → World → JoinHandle × World
  pub abort : JoinHandle → World → World
  pub random_range : ℕ → ℕ → World → ℕ × World
  pub send : NodeId → Message → World → World
  pub save : PersistentState → World → Bool × World
  pub reply : Sender → ClientResponse → World → World
  pub clock_tick : World → ℕ
  pub display : ℕ → String
