-- ===== src/Runtime/Tests.antt =====
-- A node on a platform that records what is sent, and the theorems on it.
pub mod Files
pub mod Serving
use raft_craft.Prelude.{ℕ, suc, ◌≤◌, ◌≡◌, arith, length, refl, true, List, [], ◌∷◌, ◌++◌, some}
use raft_craft.Protocol.{NodeId, Command, Message, default_command, append_entries, apply_command}
use raft_craft.Raft.Tests.{laggard, laggard-IsValid, replicate_two, replicate_two-Respects}
use raft_craft.Runtime.Platform.{Platform, StateMachine}
use raft_craft.Runtime.Timer.{HasRange, new_election_timer, new_heartbeat_timer}
use raft_craft.Runtime.Metrics.{new_metrics}
use raft_craft.Runtime.Node.{Node, incoming, handle_input, process_actions}
use raft_craft.Runtime.Node.Replay.{IsReplay, handle_input-IsReplay}
use raft_craft.Runtime.Metrics.{MessageEvent, message_log_cap}
use raft_craft.Runtime.Metrics.Window.{record_all, last_n, record_all-window}

-- The world is the number of tasks and the messages sent.
abbrev pub recorder : Platform
recorder = record {
  World = ℕ × List (NodeId × Message);
  JoinHandle = ℕ;
  Sender = ℕ;
  spawn = λ ms e w. (w.0, (suc w.0, w.1));
  abort = λ h w. w;
  random_range = λ a b w. (a, w);
  send = λ to m w. (w.0, (to, m) ∷ w.1);
  save = λ s w. (true, w);
  reply = λ tx r w. w;
  clock_tick = λ w. w.0;
  display = λ n. "n";
}

abbrev pub journal : StateMachine
journal = record { State = List Command; apply = λ s c. s ++ c ∷ [] }

abbrev follower_node : Node recorder journal
follower_node = record {
  raft = laggard;
  state_machine = default_command ∷ [];
  metrics = new_metrics 2;
  election_timer = new_election_timer recorder 150 300;
  heartbeat_timer = new_heartbeat_timer recorder 50;
  pending = [];
  world = (0, []);
}

follower_node-IsReplay : IsReplay recorder journal [] follower_node
follower_node-IsReplay = record { valid = laggard-IsValid; replayed = refl }

handle_input-IsReplay_example :
    (n : Node recorder journal) × (handle_input recorder journal follower_node
        (incoming 1 (append_entries replicate_two))
      ≡ some n)
    × IsReplay recorder journal [] n
    × HasRange recorder n.election_timer
handle_input-IsReplay_example =
    handle_input-IsReplay recorder journal [] follower_node
      (incoming 1 (append_entries replicate_two)) follower_node-IsReplay (omega arith)
      replicate_two-Respects

abbrev sent : MessageEvent
sent = record { tick = 1; from = 1; to = 2; label = "RequestVote(t=1)" }

record_all-window_example :
    ((record_all (new_metrics 1) (sent ∷ sent ∷ [])).message_log
      ≡ last_n message_log_cap ((new_metrics 1).message_log ++ sent ∷ sent ∷ []))
    × (length (record_all (new_metrics 1) (sent ∷ sent ∷ [])).message_log ≤ message_log_cap)
unfolding new_metrics
record_all-window_example = record_all-window (new_metrics 1) (sent ∷ sent ∷ []) (omega arith)
