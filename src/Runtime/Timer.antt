-- ===== src/Runtime/Timer.antt =====
-- raft-runtime/src/timer.rs: the two timers, each with at most one task. Durations are in
-- milliseconds; the tasks, the clock and the channel are the platform's.
pub mod Tasks
pub mod Live
use raft_craft.Prelude.{ℕ, ◌%◌, ◌≤◌, ltb, Option, none, some, u64_mod, ◌>>=◌, if◌then◌else◌}
use raft_craft.Runtime.Platform.{Platform, election_timeout, heartbeat_timeout}

pub record ElectionTimer (P : Platform) : Type 0 where
  pub min : ℕ
  pub max : ℕ
  pub handle : Option P.JoinHandle

pub record HeartbeatTimer (P : Platform) : Type 0 where
  pub interval : ℕ
  pub handle : Option P.JoinHandle

module _ (P : Platform) where
  open P use {World, JoinHandle, spawn, abort, random_range}

  abbrev pub new_election_timer : ℕ → ℕ → ElectionTimer P
  new_election_timer min max = record { min = min; max = max; handle = none }

  abbrev pub new_heartbeat_timer : ℕ → HeartbeatTimer P
  new_heartbeat_timer interval = record { interval = interval; handle = none }

  -- `if let Some(h) = self.handle.take() { h.abort() }`
  unfoldable pub abort_handle : Option JoinHandle → World → World
  abort_handle none w = w
  abort_handle (some h) w = abort h w

  -- `random_range` of rand, which is documented to panic on an empty range.
  unfoldable pub random_in : ℕ → ℕ → World → Option (ℕ × World)
  random_in min max w = if ltb max min then none else some (random_range min max w)

  -- `none` is a panic.
  unfoldable pub reset_election : ElectionTimer P → World → Option (ElectionTimer P × World)
  reset_election t w = do
    (ms, w₁) ← random_in (t.min % u64_mod) (t.max % u64_mod) (abort_handle t.handle w)
    let (h, w₂) = spawn ms election_timeout w₁
    some (record t { handle = some h }, w₂)

  -- The range of the timeouts, in 64 bits, is not empty.
  abbrev pub HasRange : ElectionTimer P → Type 0
  HasRange t = t.min % u64_mod ≤ t.max % u64_mod

  unfoldable pub cancel_election : ElectionTimer P → World → ElectionTimer P × World
  cancel_election t w = (record t { handle = none }, abort_handle t.handle w)

  unfoldable pub reset_heartbeat : HeartbeatTimer P → World → HeartbeatTimer P × World
  reset_heartbeat t w =
      let (h, w₁) = spawn t.interval heartbeat_timeout (abort_handle t.handle w) in
      (record t { handle = some h }, w₁)
