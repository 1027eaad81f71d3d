-- ===== src/Simulator/Clock.antt =====
-- raft-simulator/src/clock.rs: time that advances only by `tick`. Times are in microseconds. The
-- `BinaryHeap` with `Reverse` is a list in the order of the deadlines; among equal ones it takes the
-- order of registration, which the heap leaves open. `now_us` is the source's `now_μs`.
pub mod Wakes
use raft_craft.Prelude.{
  ℕ, ◌+◌, Bool, true, false, List, [], ◌∷◌, leb, min, max, wrapping_add, if◌then◌else◌,
}

abbrev pub default_step : ℕ
default_step = 10000

-- A `Waker` is a task that waits.
pub record WakeEntry (Waker : Type 0) : Type 0 where
  pub deadline : ℕ
  pub waker : Waker

pub record SimulatedClock (Waker : Type 0) : Type 0 where
  pub now_us : ℕ
  pub paused : Bool
  pub step : ℕ
  pub wakers : List (WakeEntry Waker)

module _ {Waker : Type 0} where
  abbrev pub new_clock : SimulatedClock Waker
  new_clock = record { now_us = 0; paused = false; step = default_step; wakers = [] }

  unfoldable pub pause : SimulatedClock Waker → SimulatedClock Waker
  pause c = record c { paused = true }

  unfoldable pub resume : SimulatedClock Waker → SimulatedClock Waker
  resume c = record c { paused = false }

  -- `clamp(1, 10_000)`
  unfoldable pub set_speed : SimulatedClock Waker → ℕ → SimulatedClock Waker
  set_speed c us = record c { step = max 1 (min us 10000) }

  -- `peek`, `pop` and `wake` while the first deadline has passed: the wakers in the order in which
  -- they are woken, and those that stay.
  unfoldable pub wake_due :
      ℕ → List (WakeEntry Waker) → List (WakeEntry Waker) × List (WakeEntry Waker)
  wake_due now [] = ([], [])
  wake_due now (e ∷ heap) =
      let (woken, rest) = wake_due now heap in
      if leb e.deadline now then (e ∷ woken, rest) else ([], e ∷ heap)

  unfoldable pub tick : SimulatedClock Waker → ℕ → List (WakeEntry Waker) × SimulatedClock Waker
  tick c us =
      let new_now = wrapping_add c.now_us us in
      let (woken, rest) = wake_due new_now c.wakers in
      (woken, record c { now_us = new_now; wakers = rest })

  unfoldable pub push : WakeEntry Waker → List (WakeEntry Waker) → List (WakeEntry Waker)
  push e [] = e ∷ []
  push e (x ∷ heap) = if leb x.deadline e.deadline then x ∷ push e heap else e ∷ x ∷ heap

  unfoldable pub register_waker : SimulatedClock Waker → ℕ → Waker → SimulatedClock Waker
  register_waker c deadline waker = record c {
    wakers = push (record { deadline = deadline; waker = waker }) c.wakers;
  }

  -- The deadline of `sleep`, for a duration in microseconds.
  unfoldable pub sleep_deadline : SimulatedClock Waker → ℕ → ℕ
  sleep_deadline c us = wrapping_add c.now_us us

  -- `SimSleep::poll`: whether the sleep is over, and the clock after it.
  unfoldable pub poll : SimulatedClock Waker → ℕ → Waker → Bool × SimulatedClock Waker
  poll c deadline waker =
      if leb deadline c.now_us then (true, c) else (false, register_waker c deadline waker)

  -- One turn of the task of `spawn_auto_advance`.
  unfoldable pub auto_advance : SimulatedClock Waker → List (WakeEntry Waker) × SimulatedClock Waker
  auto_advance c = if c.paused then ([], c) else tick c c.step
