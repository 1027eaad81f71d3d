-- ===== src/Runtime/Timer/Tasks.antt =====
-- timer.rs: starting and ending tasks leaves alone whatever does not show tasks.
use mathlib.Core.Option.{some-injective, none-ne-some}
use raft_craft.Prelude.{
  ℕ, ◌%◌, ◌≡◌, refl, sym, ap, ◌∙◌, inl, inr, false, ltb, arith, Bool-cases, Option, none, some,
  u64_mod,
}
use raft_craft.Runtime.Platform.{Platform, TimerEvent}
use raft_craft.Runtime.Timer.{
  ElectionTimer, HeartbeatTimer, HasRange, abort_handle, random_in, reset_election, cancel_election,
  reset_heartbeat,
}

module _ (P : Platform) where
  -- A timer that is reset, and the world.
  abbrev pub reset_to : ElectionTimer P → P.World → ElectionTimer P × P.World
  reset_to t w =
      let (ms, w₁) =
        P.random_range (t.min % u64_mod) (t.max % u64_mod) (abort_handle P t.handle w) in
      let (h, w₂) = P.spawn ms TimerEvent.election_timeout w₁ in (record t { handle = some h }, w₂)

  -- A reset that does not panic.
  pub reset_election-some :
      (t : ElectionTimer P) (w : P.World) (p : ElectionTimer P × P.World)
      → reset_election P t w ≡ some p
      → reset_to t w ≡ p
  unfolding reset_election random_in
  reset_election-some t w p done = elim (Bool-cases (ltb (t.max % u64_mod) (t.min % u64_mod))) [
    | inl e ↦ absurd (none-ne-some p (rw e at done))
    | inr e ↦ some-injective _ p (rw e at done)
  ]

  -- A reset does not panic if the range of the timeouts is not empty.
  pub reset_election-HasRange :
      (t : ElectionTimer P) (w : P.World)
      → HasRange P t
      → reset_election P t w ≡ some (reset_to t w)
  unfolding reset_election random_in
  reset_election-HasRange t w h =
      let e : ltb (t.max % u64_mod) (t.min % u64_mod) ≡ false = ground arith in rw e refl

-- A view of the world that neither tasks nor random numbers change.
pub record IgnoresTasks (P : Platform) {A : Type 0} (view : P.World → A) : Type 0 where
  pub spawn_keeps : (ms : ℕ) (e : TimerEvent) (w : P.World) → view (P.spawn ms e w).1 ≡ view w
  pub abort_keeps : (h : P.JoinHandle) (w : P.World) → view (P.abort h w) ≡ view w
  pub random_keeps : (a b : ℕ) (w : P.World) → view (P.random_range a b w).1 ≡ view w

module _ (P : Platform) {A : Type 0} (view : P.World → A) (h : IgnoresTasks P view) where
  abort_handle-keeps :
      (handle : Option P.JoinHandle) (w : P.World) → view (abort_handle P handle w) ≡ view w
  unfolding abort_handle
  abort_handle-keeps none w = refl
  abort_handle-keeps (some j) w = h.abort_keeps j w

  pub reset_election-keeps :
      (t t' : ElectionTimer P) (w w' : P.World)
      → reset_election P t w ≡ some (t', w')
      → view w' ≡ view w
  reset_election-keeps t t' w w' done =
      ap (λ p. view p.1) (sym (reset_election-some P t w _ done))
      ∙ h.spawn_keeps _ _ _
      ∙ h.random_keeps _ _ _
      ∙ abort_handle-keeps t.handle w

  pub cancel_election-keeps :
      (t : ElectionTimer P) (w : P.World) → view (cancel_election P t w).1 ≡ view w
  unfolding cancel_election
  cancel_election-keeps t w = abort_handle-keeps t.handle w

  pub reset_heartbeat-keeps :
      (t : HeartbeatTimer P) (w : P.World) → view (reset_heartbeat P t w).1 ≡ view w
  unfolding reset_heartbeat
  reset_heartbeat-keeps t w = h.spawn_keeps _ _ _ ∙ abort_handle-keeps t.handle w
