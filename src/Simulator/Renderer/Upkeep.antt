-- ===== src/Simulator/Renderer/Upkeep.antt =====
-- renderer.rs with cluster.rs, clock.rs and app.rs: whatever the user does, the cluster and the
-- interface stay in order.
use Prim.Native.Char.{Char}
use raft_craft.Prelude.{
  ℕ, ◌≤◌, ◌<◌, ◌==◌, ◌≡◌, refl, inl, inr, max, String, List, [], ◌∷◌, arith, length, get_elem?,
  wrapping_add, Bool-cases, Option-cases,
}
use raft_craft.Protocol.{NodeId, set_command}
use raft_craft.Simulator.Clock.{set_speed, pause, resume, tick}
use raft_craft.Simulator.Clock.Wakes.{IsHeap, wake_due-Splits}
use raft_craft.Simulator.Network.{
  Float, Network, partition, heal, set_drop_rate as network_set_drop_rate,
  set_latency_ms as network_set_latency_ms,
}
use raft_craft.Simulator.Cluster.{
  Tasks, Cluster, kill_node as kill, restart_node as restart, start_in, isolate, unisolate,
  isolate_links, unisolate_links, set_drop_rate, set_latency_ms, set_speed_us, is_alive, submit,
}
use raft_craft.Simulator.Cluster.Lifecycle.{
  IsConsistent, kill_node-IsConsistent, restart_node-IsConsistent,
}
use raft_craft.Simulator.Cluster.Partitions.{isolate_links_step, unisolate_links_step}
use raft_craft.Simulator.App.{App}
use raft_craft.Simulator.App.Selection.{select-in_range}
use raft_craft.Simulator.Input.{
  UiAction, quit, toggle_pause, step_clock, kill_node, restart_node, select_next, select_prev,
  isolate_node, unisolate_node, inc_drop_rate, dec_drop_rate, inc_latency, dec_latency, inc_speed,
  dec_speed, inc10_speed, dec10_speed, submit_command, handled,
}
use raft_craft.Simulator.Renderer.{
  Formats, perform, step_clock_by, submit_to_target, target, on_selected, clock_step_ms,
}

module _ (F : Float) (T : Tasks) (D : Formats F) where
  -- Exactly the live nodes have a channel, the sleeps are in the order of their deadlines, and the
  -- speed is within its bounds.
  pub record InOrder (c : Cluster F T) : Type 0 where
    pub consistent : IsConsistent F T c
    pub ordered : IsHeap c.clock.wakers
    pub moving : 1 ≤ c.clock.step
    pub bounded : c.clock.step ≤ 10000

  -- The selection is one of the nodes, or the first if there is none.
  abbrev pub Selects : Cluster F T → App Char → Type 0
  Selects c a = a.selected < max (length c.node_ids) 1

  abbrev Kept : Cluster F T × App Char → Type 0
  Kept (c, a) = InOrder c × Selects c a

  -- A change of the nodes and the network alone.
  same_clock :
      (c c' : Cluster F T) → InOrder c → c'.clock ≡ c.clock → IsConsistent F T c' → InOrder c'
  same_clock c c' o e k = record {
    consistent = k;
    ordered = rw e o.ordered;
    moving = rw e o.moving;
    bounded = rw e o.bounded;
  }

  kill-frame :
      (c : Cluster F T) (id : NodeId)
      → ((kill F T c id).clock ≡ c.clock) × ((kill F T c id).node_ids ≡ c.node_ids)
  unfolding kill
  kill-frame c id = ground arith

  restart-frame :
      (c : Cluster F T) (id : NodeId)
      → ((restart F T c id).clock ≡ c.clock) × ((restart F T c id).node_ids ≡ c.node_ids)
  unfolding restart start_in
  restart-frame c id = elim (Bool-cases (is_alive F T c id)) [
    | inl e ↦ rw e (refl, refl)
    | inr e ↦ rw e (refl, refl)
  ]

  isolate_links-senders :
      (n : Network F T.IncomingSender) (node : NodeId) (ids : List NodeId)
      → (isolate_links F T n node ids).senders ≡ n.senders
  unfolding partition
  isolate_links-senders n node [] = unfold isolate_links in refl
  isolate_links-senders n node (x ∷ ids) = elim (Bool-cases (x == node)) [
    | inl e ↦ rw (isolate_links_step F T node n x ids, e) (isolate_links-senders n node ids)
    | inr e ↦
        rw (isolate_links_step F T node n x ids, e)
          (isolate_links-senders (partition F n node x) node ids)
  ]

  unisolate_links-senders :
      (n : Network F T.IncomingSender) (node : NodeId) (ids : List NodeId)
      → (unisolate_links F T n node ids).senders ≡ n.senders
  unfolding heal
  unisolate_links-senders n node [] = unfold unisolate_links in refl
  unisolate_links-senders n node (x ∷ ids) = elim (Bool-cases (x == node)) [
    | inl e ↦ rw (unisolate_links_step F T node n x ids, e) (unisolate_links-senders n node ids)
    | inr e ↦
        rw (unisolate_links_step F T node n x ids, e)
          (unisolate_links-senders (heal F n node x) node ids)
  ]

  -- Another network with the same channels.
  same_channels :
      (c : Cluster F T) (n : Network F T.IncomingSender)
      → n.senders ≡ c.network.senders
      → InOrder c
      → InOrder (record c { network = n })
  unfolding is_alive
  same_channels c n e o =
      same_clock c (record c { network = n }) o refl (λ id. rw e (o.consistent id))

  on_selected-Kept :
      (c : Cluster F T) (a : App Char) (f : NodeId → Cluster F T) (before after : String)
      → InOrder c
      → Selects c a
      → ((id : NodeId) → InOrder (f id) × ((f id).node_ids ≡ c.node_ids))
      → Kept (on_selected F T D c a f before after)
  on_selected-Kept c a f before after o s k =
      elim (Option-cases (get_elem? c.node_ids a.selected)) [
        | inl e ↦ rw (on_selected, e) (o, s)
        | inr (id, e) ↦ let (o', same) = k id in rw (on_selected, e) (o', rw same s)
      ]

  kill-InOrder :
      (c : Cluster F T) (id : NodeId)
      → InOrder c
      → InOrder (kill F T c id) × ((kill F T c id).node_ids ≡ c.node_ids)
  kill-InOrder c id o =
      let (clock, ids) = kill-frame c id in
      (same_clock c (kill F T c id) o clock (kill_node-IsConsistent F T c id o.consistent), ids)

  restart-InOrder :
      (c : Cluster F T) (id : NodeId)
      → InOrder c
      → InOrder (restart F T c id) × ((restart F T c id).node_ids ≡ c.node_ids)
  restart-InOrder c id o =
      let (clock, ids) = restart-frame c id in
      (
        same_clock c (restart F T c id) o clock (restart_node-IsConsistent F T c id o.consistent),
        ids,
      )

  step_clock_by-InOrder :
      (c : Cluster F T) (us : ℕ) → InOrder c → InOrder (step_clock_by F T D c us)
  unfolding step_clock_by tick is_alive
  step_clock_by-InOrder c us o = record {
    consistent = o.consistent;
    ordered = (wake_due-Splits (wrapping_add c.clock.now_us us) c.clock.wakers o.ordered).ordered;
    moving = o.moving;
    bounded = o.bounded;
  }

  set_speed-InOrder : (c : Cluster F T) (us : ℕ) → InOrder c → InOrder (set_speed_us F T c us)
  unfolding set_speed_us set_speed is_alive
  set_speed-InOrder c us o = record {
    consistent = o.consistent;
    ordered = o.ordered;
    moving = omega arith;
    bounded = omega arith;
  }

  submit-Kept :
      (c : Cluster F T) (a : App Char) (key value : String)
      → InOrder c
      → Selects c a
      → Kept (submit_to_target F T D c a key value)
  unfolding submit_to_target is_alive
  submit-Kept c a key value o s = elim (Option-cases (target F T D c a)) [
    | inl e ↦ rw (submit_to_target, e) (o, s)
    | inr (id, e) ↦
        rw (submit_to_target, e)
          (
            same_clock c (record c { world = (submit F T c id (set_command key value)).1 }) o refl
                o.consistent,
            s,
          )
  ]

  -- Whatever the user does, exactly the live nodes keep a channel in the network, the sleeps stay
  -- in the order of their deadlines, the speed of the clock stays between 1 and 10000, and the
  -- selection stays on one of the nodes.
  pub perform-InOrder :
      (action : UiAction) (c : Cluster F T) (a : App Char)
      → InOrder c
      → Selects c a
      → InOrder (perform F T D action c a).0
        × Selects (perform F T D action c a).0 (perform F T D action c a).1
  unfolding perform set_drop_rate set_latency_ms network_set_drop_rate network_set_latency_ms
      isolate unisolate pause resume is_alive
  perform-InOrder quit c a o s = (o, s)
  perform-InOrder toggle_pause c a o s = elim (Bool-cases c.clock.paused) [
    | inl e ↦ rw e (
      record {
        consistent = o.consistent;
        ordered = o.ordered;
        moving = o.moving;
        bounded = o.bounded;
      },
      s,
    )
    | inr e ↦ rw e (
      record {
        consistent = o.consistent;
        ordered = o.ordered;
        moving = o.moving;
        bounded = o.bounded;
      },
      s,
    )
  ]
  perform-InOrder step_clock c a o s =
      (step_clock_by-InOrder c clock_step_ms o, unfold step_clock_by in s)
  perform-InOrder kill_node c a o s = on_selected-Kept c a _ _ _ o s (λ id. kill-InOrder c id o)
  perform-InOrder restart_node c a o s =
      on_selected-Kept c a _ _ _ o s (λ id. restart-InOrder c id o)
  perform-InOrder select_next c a o s =
      (o, (select-in_range a (max (length c.node_ids) 1) (omega arith)).0)
  perform-InOrder select_prev c a o s =
      (o, (select-in_range a (max (length c.node_ids) 1) (omega arith)).1)
  perform-InOrder isolate_node c a o s =
      on_selected-Kept c a _ _ _ o s
        (λ id. (same_channels c _ (isolate_links-senders c.network id c.node_ids) o, refl))
  perform-InOrder unisolate_node c a o s =
      on_selected-Kept c a _ _ _ o s
        (λ id. (same_channels c _ (unisolate_links-senders c.network id c.node_ids) o, refl))
  perform-InOrder inc_drop_rate c a o s = (same_channels c _ refl o, s)
  perform-InOrder dec_drop_rate c a o s = (same_channels c _ refl o, s)
  perform-InOrder inc_latency c a o s = (same_channels c _ refl o, s)
  perform-InOrder dec_latency c a o s = (same_channels c _ refl o, s)
  perform-InOrder inc_speed c a o s = (set_speed-InOrder c _ o, unfold set_speed_us in s)
  perform-InOrder dec_speed c a o s = (set_speed-InOrder c _ o, unfold set_speed_us in s)
  perform-InOrder inc10_speed c a o s = (set_speed-InOrder c _ o, unfold set_speed_us in s)
  perform-InOrder dec10_speed c a o s = (set_speed-InOrder c _ o, unfold set_speed_us in s)
  perform-InOrder (submit_command key value) c a o s = submit-Kept c a key value o s
  perform-InOrder handled c a o s = (o, s)
