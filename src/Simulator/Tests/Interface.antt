-- ===== src/Simulator/Tests/Interface.antt =====
-- The interface of the simulator: typing a command, and actions on the cluster of three nodes.
use Prim.Native.Char.{Char}
use raft_craft.Prelude.{arith, ◌≡◌, refl, [], ◌∷◌, ◌++◌, none, some, map}
use raft_craft.Simulator.App.{App, default_app}
use raft_craft.Simulator.Cluster.{Cluster}
use raft_craft.Simulator.Clock.{poll, auto_advance}
use raft_craft.Runtime.Node.{default_config}
use raft_craft.Simulator.Input.{char, enter, down, submit_command}
use raft_craft.Simulator.Input.Typing.{press as type_keys, press_command}
use raft_craft.Simulator.Renderer.{Formats, LoopControl, handle_key, wake_all}
use raft_craft.Simulator.Renderer.Upkeep.{InOrder, Selects}
use raft_craft.Simulator.Renderer.Runs.{Run, begin, next, press, wait, advance, Run-InOrder}
use raft_craft.Runtime.Metrics.{MetricsSnapshot, new_metrics}
use raft_craft.Simulator.Widgets.{line, message_log, log_view}
use raft_craft.Simulator.Widgets.LogMarks.{log_view-sections}
use raft_craft.Simulator.Tests.{percent, idle, trio}

-- The user sets `ab` to `7`.
press_command_example :
    type_keys
      (char "c" ∷ map char ("a" ∷ "b" ∷ []) ++ enter ∷ (map char ("7" ∷ []) ++ enter ∷ []))
      none
      default_app
    ≡ (some (submit_command "ab" "7"), default_app)
press_command_example = press_command ("a" ∷ "b" ∷ []) ("7" ∷ []) default_app refl refl

abbrev plain : Formats percent
plain = record { number = λ n. "n"; share = λ n. "n"; seconds = λ n. "n" }

-- The user selects the next node and kills it, while the clock advances and a node sleeps.
abbrev stage₁ : LoopControl × Cluster percent idle × App Char
stage₁ = handle_key percent idle plain down trio default_app

abbrev stage₂ : Cluster percent idle
stage₂ = record stage₁.1 { clock = (poll stage₁.1.clock 500 7).1 }

abbrev stage₃ : Cluster percent idle
stage₃ = record stage₂ {
  clock = (auto_advance stage₂.clock).1;
  world = wake_all percent idle plain (auto_advance stage₂.clock).0 tt;
}

abbrev stage₄ : LoopControl × Cluster percent idle × App Char
stage₄ = handle_key percent idle plain (char "k") stage₃ stage₁.2

abbrev killing : Run percent idle plain (1 ∷ 2 ∷ 3 ∷ []) default_config tt stage₄.1 stage₄.2
killing = next (next (next (next begin (press down)) (wait 500 7)) advance) (press (char "k"))

Run-InOrder_example :
    InOrder percent idle plain stage₄.1 × Selects percent idle plain stage₄.1 stage₄.2
Run-InOrder_example = Run-InOrder percent idle plain killing

-- A node with three entries, of which two are committed and one is applied, that has sent two
-- messages; and another node that has sent one.
abbrev busy : MetricsSnapshot
busy = record (new_metrics 1) {
  commit_index = 2;
  last_applied = 1;
  log_length = 3;
  message_log =
      record { tick = 5; from = 1; to = 2; label = "VoteResp" }
      ∷ record { tick = 9; from = 1; to = 3; label = "VoteResp" }
      ∷ [];
}

abbrev quiet : MetricsSnapshot
quiet = record (new_metrics 2) {
  message_log = record { tick = 7; from = 2; to = 1; label = "VoteResp" } ∷ [];
}

log_view-sections_example : log_view (some busy) ≡ line "✓" 1 ∷ line "○" 2 ∷ line "·" 3 ∷ []
log_view-sections_example = log_view-sections busy (omega arith) (omega arith) (omega arith)
