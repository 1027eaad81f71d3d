-- ===== src/Simulator/Tests.antt =====
-- A cluster of three nodes on idle tasks, and the theorems on the simulator.
pub mod Interface
use raft_craft.Prelude.{
  ℕ, ◌+◌, ◌-◌, ◌<◌, ◌≡◌, arith, false, [], ◌∷◌, none, ltb, min, max, ◌&&◌, ◌||◌, not,
}
use raft_craft.Protocol.{default_command, set, Message, request_vote_response}
use raft_craft.Runtime.Node.{default_config}
use raft_craft.Simulator.Clock.{SimulatedClock, new_clock, tick, poll}
use raft_craft.Simulator.Clock.Wakes.{IsHeap, Splits, poll-IsHeap, tick-Splits}
use raft_craft.Simulator.Network.{Float, has_link, deliver, node_dead}
use raft_craft.Simulator.Cluster.{
  Tasks, Cluster, new_cluster, kill_node, restart_node, isolate, unisolate, is_alive, submit,
}
use raft_craft.Simulator.App.{App, default_app, select_next, select_prev}
use raft_craft.Simulator.App.Selection.{select-in_range, select_prev-select_next}
use raft_craft.Simulator.Store.{new_store, apply}
use raft_craft.Simulator.Cluster.Partitions.{touches, isolate-cuts, unisolate-restores}
use raft_craft.Simulator.Cluster.Lifecycle.{
  IsConsistent, new_cluster-IsConsistent, kill_node-IsConsistent, restart_node-IsConsistent,
  kill_node-silences,
}

-- Probabilities in percent.
abbrev pub percent : Float
percent = record {
  Carrier = ℕ;
  zero = 0;
  one = 100;
  less = ltb;
  clamp = λ x a b. max a (min x b);
  add = λ a b. a + b;
  sub = λ a b. a - b;
  smaller = min;
  larger = max;
  hundredths = λ n. n;
}

abbrev pub idle : Tasks
idle = record {
  World = Unit {0};
  Task = Unit {0};
  Waker = ℕ;
  IncomingSender = Unit {0};
  IncomingReceiver = Unit {0};
  ClientSender = Unit {0};
  ClientReceiver = Unit {0};
  ReplyReceiver = Unit {0};
  incoming_channel = λ n w. (tt, tt, tt);
  client_channel = λ n w. (tt, tt, tt);
  spawn = λ t w. (tt, tt);
  abort = λ t w. tt;
  wake = λ k w. w;
  try_send = λ tx c w. (none, tt);
}

abbrev pub trio : Cluster percent idle
trio = new_cluster percent idle (1 ∷ 2 ∷ 3 ∷ []) new_clock default_config tt

pub trio-IsConsistent : IsConsistent percent idle trio
trio-IsConsistent =
    new_cluster-IsConsistent percent idle (1 ∷ 2 ∷ 3 ∷ []) new_clock default_config tt

abbrev sleepers : SimulatedClock ℕ
sleepers = record new_clock {
  now_us = 10;
  wakers =
      record { deadline = 20; waker = 1 }
      ∷ record { deadline = 30; waker = 2 }
      ∷ record { deadline = 90; waker = 3 }
      ∷ [];
}

sleepers-IsHeap : IsHeap sleepers.wakers
sleepers-IsHeap = ((omega arith, (omega arith, tt)), ((omega arith, tt), (tt, tt)))

tick-Splits_example :
    ((tick sleepers 20).1.now_us ≡ 10 + 20)
    × Splits (10 + 20) sleepers.wakers ((tick sleepers 20).0, (tick sleepers 20).1.wakers)
tick-Splits_example = tick-Splits sleepers 20 sleepers-IsHeap (omega arith)

abbrev answer : Message
answer = request_vote_response (record { term = 1; vote_granted = false; vote_from = 1 })

kill_node-silences_example :
    (is_alive percent idle (kill_node percent idle trio 2) 2 ≡ false)
    × ((submit percent idle (kill_node percent idle trio 2) 2 default_command).0 ≡ none)
    × (deliver percent (kill_node percent idle trio 2).network 1 2 answer 50 ≡ node_dead)
kill_node-silences_example =
    kill_node-silences percent idle trio 2 1 answer 50 default_command trio-IsConsistent

isolate-cuts_example :
    has_link (isolate percent idle trio 2).network.partitions (2, 3)
    ≡ (has_link trio.network.partitions (2, 3) || touches 2 trio.node_ids (2, 3))
isolate-cuts_example = isolate-cuts percent idle trio 2 2 3

-- Nodes 2 and 3 are isolated, and then 2 is no more: its link to 3 is back.
abbrev half_healed : Cluster percent idle
half_healed = isolate percent idle (isolate percent idle trio 2) 3

unisolate-restores_example :
    has_link (unisolate percent idle half_healed 2).network.partitions (2, 3) ≡ (
      has_link half_healed.network.partitions (2, 3) && not (touches 2 half_healed.node_ids (2, 3)))
unisolate-restores_example = unisolate-restores percent idle half_healed 2 2 3
