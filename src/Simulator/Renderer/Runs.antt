-- ===== src/Simulator/Renderer/Runs.antt =====
-- A whole run of the simulator: keys, ticks of the clock and sleeps of the nodes in any order
-- (renderer.rs, cluster.rs, clock.rs).
use Prim.Native.Char.{Char}
use raft_craft.Prelude.{
  ℕ, ◌≡◌, refl, inl, inr, List, [], ◌∷◌, arith, Bool-cases, Option-cases, wrapping_add,
}
use raft_craft.Protocol.{NodeId}
use raft_craft.Runtime.Node.{NodeConfig}
use raft_craft.Simulator.Clock.{SimulatedClock, new_clock, tick, auto_advance, poll, register_waker}
use raft_craft.Simulator.Clock.Wakes.{IsHeap, poll-IsHeap, wake_due-Splits}
use raft_craft.Simulator.Network.{Float}
use raft_craft.Simulator.Cluster.{Tasks, Cluster, new_cluster, start_all, start_in, is_alive}
use raft_craft.Simulator.Cluster.Lifecycle.{new_cluster-IsConsistent}
use raft_craft.Simulator.App.{App, default_app, start_command, cancel_input}
use raft_craft.Simulator.Input.{
  Key, decode, decode_normal, decode_entering_key, decode_entering_value,
}
use raft_craft.Simulator.Renderer.{Formats, handle_key, apply, wake_all}
use raft_craft.Simulator.Renderer.Upkeep.{InOrder, Selects, perform-InOrder}

decode_normal-selected : (k : Key) (a : App Char) → (decode_normal k a).1.selected ≡ a.selected
unfolding decode_normal start_command
decode_normal-selected k a = ground arith

decode_entering_key-selected :
    (k : Key) (a : App Char) → (decode_entering_key k a).1.selected ≡ a.selected
unfolding decode_entering_key cancel_input
decode_entering_key-selected k a = ground arith

decode_entering_value-selected :
    (k : Key) (a : App Char) → (decode_entering_value k a).1.selected ≡ a.selected
unfolding decode_entering_value cancel_input
decode_entering_value-selected k a = ground arith

decode-selected : (k : Key) (a : App Char) → (decode k a).1.selected ≡ a.selected
unfolding decode
decode-selected k a = ground (
  arith,
  decode_entering_key-selected k a,
  decode_entering_value-selected k a,
  decode_normal-selected k a,
)

module _ (F : Float) (T : Tasks) (D : Formats F) where
  -- What may happen: a key is pressed, the clock advances, a sleep of a node is polled.
  pub data Change (c : Cluster F T) (a : App Char) : Cluster F T → App Char → Type 0 where
    press : (k : Key) → Change c a (handle_key F T D k c a).1 (handle_key F T D k c a).2
    advance :
        Change c a
          (record c {
            clock = (auto_advance c.clock).1;
            world = wake_all F T D (auto_advance c.clock).0 c.world;
          })
          a
    wait :
        (deadline : ℕ) (waker : T.Waker)
        → Change c a (record c { clock = (poll c.clock deadline waker).1 }) a

  pub data Run (ids : List NodeId) (config : NodeConfig) (world : T.World)
      : Cluster F T → App Char → Type 0 where
    begin : Run ids config world (new_cluster F T ids new_clock config world) default_app
    next :
        {c d : Cluster F T} {a b : App Char}
        → Run ids config world c a
        → Change c a d b
        → Run ids config world d b

  handle_key-InOrder :
      (k : Key) (c : Cluster F T) (a : App Char)
      → InOrder F T D c
      → Selects F T D c a
      → InOrder F T D (handle_key F T D k c a).1
        × Selects F T D (handle_key F T D k c a).1 (handle_key F T D k c a).2
  unfolding apply handle_key
  handle_key-InOrder k c a o s =
      let here : Selects F T D c (decode k a).1 = rw (decode-selected k a) s in
      elim (Option-cases (decode k a).0) [
        | inl e ↦ rw (handle_key, e) (o, here)
        | inr (action, e) ↦
            rw (handle_key, e) (perform-InOrder F T D action c (decode k a).1 o here)
      ]

  -- Another clock.
  same_nodes :
      (c : Cluster F T) (clock : SimulatedClock T.Waker) (w : T.World)
      → InOrder F T D c
      → IsHeap clock.wakers
      → clock.step ≡ c.clock.step
      → InOrder F T D (record c { clock = clock; world = w })
  unfolding is_alive
  same_nodes c clock w o heap step = record {
    consistent = o.consistent;
    ordered = heap;
    moving = rw step o.moving;
    bounded = rw step o.bounded;
  }

  auto_advance-frame :
      (c : SimulatedClock T.Waker)
      → IsHeap c.wakers
      → IsHeap (auto_advance c).1.wakers × ((auto_advance c).1.step ≡ c.step)
  unfolding auto_advance tick
  auto_advance-frame c h = elim (Bool-cases c.paused) [
    | inl e ↦ rw e (h, refl)
    | inr e ↦ rw e ((wake_due-Splits (wrapping_add c.now_us c.step) c.wakers h).ordered, refl)
  ]

  poll-step :
      (c : SimulatedClock T.Waker) (deadline : ℕ) (waker : T.Waker)
      → (poll c deadline waker).1.step ≡ c.step
  unfolding poll register_waker
  poll-step c deadline waker = ground arith

  Change-InOrder :
      (c : Cluster F T) (a : App Char) (d : Cluster F T) (b : App Char)
      → Change c a d b
      → InOrder F T D c
      → Selects F T D c a
      → InOrder F T D d × Selects F T D d b
  Change-InOrder c a _ _ (press k) o s = handle_key-InOrder k c a o s
  Change-InOrder c a _ _ advance o s =
      let (heap, step) = auto_advance-frame c.clock o.ordered in (same_nodes c _ _ o heap step, s)
  Change-InOrder c a _ _ (wait deadline waker) o s = (
    same_nodes c _ _ o (poll-IsHeap c.clock deadline waker o.ordered)
        (poll-step c.clock deadline waker),
    s,
  )

  start_all-frame :
      (c : Cluster F T) (ids : List NodeId)
      → ((start_all F T c ids).clock ≡ c.clock) × ((start_all F T c ids).node_ids ≡ c.node_ids)
  unfolding start_all start_in
  start_all-frame c [] = (refl, refl)
  start_all-frame c (id ∷ ids) = start_all-frame (start_in F T c id) ids

  begin-InOrder :
      (ids : List NodeId) (config : NodeConfig) (world : T.World)
      → InOrder F T D (new_cluster F T ids new_clock config world)
        × Selects F T D (new_cluster F T ids new_clock config world) default_app
  unfolding new_cluster
  begin-InOrder ids config world =
      let c = new_cluster F T ids new_clock config world in
      let same : c.clock ≡ new_clock = (start_all-frame _ ids).0 in
      (
        record {
          consistent = new_cluster-IsConsistent F T ids new_clock config world;
          ordered = rw same tt;
          moving = rw same (omega arith);
          bounded = rw same (omega arith);
        },
        omega arith,
      )

  -- Once the simulator runs, whatever keys are pressed, however the clock advances and whichever
  -- sleeps are polled, in any order: exactly the live nodes have a channel in the network, the
  -- sleeps are in the order of their deadlines, the speed of the clock is between 1 and 10000,
  -- and the selection is one of the nodes, or the first place if there is no node.
  pub Run-InOrder :
      {ids : List NodeId} {config : NodeConfig} {world : T.World} {c : Cluster F T} {a : App Char}
      → Run ids config world c a
      → InOrder F T D c × Selects F T D c a
  Run-InOrder {ids} {config} {world} begin = begin-InOrder ids config world
  Run-InOrder (next run change) = let (o, s) = Run-InOrder run in Change-InOrder _ _ _ _ change o s
