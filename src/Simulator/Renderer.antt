-- ===== src/Simulator/Renderer.antt =====
-- raft-simulator/src/ui/renderer.rs: what an action of the user does to the cluster and the
-- interface. The terminal and the drawing are not modelled.
pub mod Upkeep
pub mod Runs
use Prim.Native.String.{◌++◌ as ◌<>◌}
use Prim.Native.Char.{Char}
use raft_craft.Prelude.{
  ℕ, ◌+◌, ◌-◌, ◌*◌, max, min, String, Bool, true, false, List, [], ◌∷◌, Option, none, some, length,
  get_elem?, find, wrapping_add, if◌then◌else◌,
}
use raft_craft.Protocol.{NodeId, set_command}
use raft_craft.Simulator.Clock.{WakeEntry, SimulatedClock, pause, resume, tick}
use raft_craft.Simulator.Network.{Float}
use raft_craft.Simulator.Cluster.{
  Tasks, Cluster, is_alive, submit, set_drop_rate, set_latency_ms, set_speed_us, drop_rate,
  latency_ms, speed_us, kill_node as kill, restart_node as restart, isolate, unisolate,
}
use raft_craft.Simulator.App.{App, select_next as next_of, select_prev as prev_of}
use raft_craft.Simulator.Input.{
  UiAction, quit, toggle_pause, step_clock, kill_node, restart_node, select_next, select_prev,
  isolate_node, unisolate_node, inc_drop_rate, dec_drop_rate, inc_latency, dec_latency, inc_speed,
  dec_speed, inc10_speed, dec10_speed, submit_command, handled, Key, decode,
}

abbrev latency_step_ms : ℕ
latency_step_ms = 10

abbrev clock_step_ms : ℕ
clock_step_ms = 1000

abbrev speed_step_ms : ℕ
speed_step_ms = 10

pub data LoopControl : Type 0 where
  continue break : LoopControl

-- The formats of the status line: a number, a share in percent without decimals, and a time in
-- seconds from microseconds.
pub record Formats (F : Float) : Type 0 where
  pub number : ℕ → String
  pub share : F.Carrier → String
  pub seconds : ℕ → String

module _ (F : Float) (T : Tasks) (D : Formats F) where
  abbrev drop_rate_step : F.Carrier
  drop_rate_step = F.hundredths 5

  abbrev pub with_status : App Char → String → App Char
  with_status a status = record a { status = status }

  unfoldable pub wake_all : List (WakeEntry T.Waker) → T.World → T.World
  wake_all [] w = w
  wake_all (e ∷ woken) w = wake_all woken (T.wake e.waker w)

  unfoldable pub step_clock_by : Cluster F T → ℕ → Cluster F T
  step_clock_by c us =
      let (woken, clock) = tick c.clock us in
      record c { clock = clock; world = wake_all woken c.world }

  -- `if let Some(&id) = node_ids.get(app.selected)`
  abbrev pub on_selected :
      Cluster F T
      → App Char
      → (NodeId → Cluster F T)
      → (before after : String) → Cluster F T × App Char
  on_selected c a f before after = elim (get_elem? c.node_ids a.selected) [
    | none ↦ (c, a)
    | some id ↦ (f id, with_status a (before <> D.number id <> after))
  ]

  -- The node for a command: the selected one if it is alive, else any that is.
  unfoldable pub target : Cluster F T → App Char → Option NodeId
  target c a =
      let any_alive = find (is_alive F T c) c.node_ids in
      elim (get_elem? c.node_ids a.selected) [
        | none ↦ any_alive
        | some id ↦ if is_alive F T c id then some id else any_alive
      ]

  unfoldable pub submit_to_target :
      Cluster F T → App Char → (key value : String) → Cluster F T × App Char
  submit_to_target c a key value = elim (target c a) [
    | none ↦ (c, with_status a "No alive nodes to send command to.")
    | some id ↦
        let (sent, world) = submit F T c id (set_command key value) in
        let status : String = elim sent [
          | some _ ↦ "SET " <> key <> "=" <> value <> " → node " <> D.number id
          | none ↦ "Node " <> D.number id <> " channel full."
        ] in
        (record c { world = world }, with_status a status)
  ]

  abbrev pub change_drop_rate : Cluster F T → App Char → F.Carrier → Cluster F T × App Char
  change_drop_rate c a new =
      (set_drop_rate F T c new, with_status a ("Drop rate: " <> D.share new <> "%"))

  abbrev pub change_latency : Cluster F T → App Char → ℕ → Cluster F T × App Char
  change_latency c a new =
      (set_latency_ms F T c new, with_status a ("Latency: " <> D.number new <> "ms"))

  abbrev pub change_speed : Cluster F T → App Char → ℕ → Cluster F T × App Char
  change_speed c a new =
      (set_speed_us F T c new, with_status a ("Clock speed: " <> D.number new <> " sim-μs/tick"))

  -- Every action but `quit`.
  unfoldable pub perform : UiAction → Cluster F T → App Char → Cluster F T × App Char
  perform quit c a = (c, a)
  perform toggle_pause c a =
      if c.clock.paused
      then (record c { clock = resume c.clock }, with_status a "Clock resumed.")
      else (record c { clock = pause c.clock }, with_status a "Clock paused.")
  perform step_clock c a =
      let c' = step_clock_by c clock_step_ms in
      (c', with_status a ("Stepped to t=" <> D.seconds c'.clock.now_us <> "s"))
  perform kill_node c a = on_selected c a (kill F T c) "Node " " killed."
  perform restart_node c a = on_selected c a (restart F T c) "Node " " restarted."
  perform select_next c a = (c, next_of a (max (length c.node_ids) 1))
  perform select_prev c a = (c, prev_of a (max (length c.node_ids) 1))
  perform isolate_node c a = on_selected c a (isolate F T c) "Node " " isolated from all peers."
  perform unisolate_node c a =
      on_selected c a (unisolate F T c) "Node " " reconnected to all peers."
  perform inc_drop_rate c a =
      change_drop_rate c a (F.smaller (F.add (drop_rate F T c) drop_rate_step) F.one)
  perform dec_drop_rate c a =
      change_drop_rate c a (F.larger (F.sub (drop_rate F T c) drop_rate_step) F.zero)
  perform inc_latency c a = change_latency c a (wrapping_add (latency_ms F T c) latency_step_ms)
  perform dec_latency c a = change_latency c a (latency_ms F T c - latency_step_ms)
  perform inc_speed c a = change_speed c a (min (wrapping_add (speed_us F T c) speed_step_ms) 10000)
  perform dec_speed c a = change_speed c a (max (speed_us F T c - speed_step_ms) 1)
  perform inc10_speed c a =
      change_speed c a (min (wrapping_add (speed_us F T c) (speed_step_ms * 10)) 10000)
  perform dec10_speed c a = change_speed c a (max (speed_us F T c - speed_step_ms * 10) 1)
  perform (submit_command key value) c a = submit_to_target c a key value
  perform handled c a = (c, a)

  abbrev loop_control : UiAction → LoopControl
  loop_control quit = break
  loop_control _ = continue

  unfoldable pub apply : UiAction → Cluster F T → App Char → LoopControl × Cluster F T × App Char
  apply action c a = let (c', a') = perform action c a in (loop_control action, c', a')

  -- What the event loop does with a key that is pressed.
  unfoldable pub handle_key : Key → Cluster F T → App Char → LoopControl × Cluster F T × App Char
  handle_key key c a =
      let (decoded, a') = decode key a in
      elim decoded [ none ↦ (continue, c, a') | some action ↦ apply action c a' ]
