-- ===== src/Runtime/Tests/Serving.antt =====
-- A node without peers on a platform that numbers its tasks and keeps the answers, and the theorems
-- on a run in which two clients are served.
use raft_craft.Prelude.{
  ℕ, suc, ◌≡◌, ◌≢◌, refl, arith, true, false, List, [], ◌∷◌, ◌++◌, none, some, inl, inr, ◌⊎◌, ap,
  Any, Bool-cases, filter, not, ◌==◌, lookup, remove,
}
use raft_craft.Protocol.{Command, default_command, apply_command}
use raft_craft.Raft.Tests.{laggard}
use raft_craft.Runtime.Platform.{Platform, TimerEvent, ClientResponse, applied}
use raft_craft.Runtime.Timer.Live.{TracksTasks}
use raft_craft.Runtime.Metrics.{new_metrics}
use raft_craft.Runtime.Node.{
  Node, timer, default_config, new_node, run, process_actions, process_action, resolve, reply_to,
}
use raft_craft.Runtime.Node.Solo.{requests, run_serves}
use raft_craft.Runtime.Node.Replies.{IsAnswering, waiting, owed, process_actions_answers}
use raft_craft.Runtime.Node.Tasks.{HasTasksInHand, run-HasTasksInHand}
use raft_craft.Runtime.Tests.{journal}

-- The answers so far, and the tasks that were started and not aborted.
record Desk : Type 0 where
  answers : List (ℕ × ClientResponse)
  next_task : ℕ
  uncancelled : List (ℕ × TimerEvent)

abbrev desk : Platform
desk = record {
  World = Desk;
  JoinHandle = ℕ;
  Sender = ℕ;
  spawn = λ ms e w. (
    w.next_task,
    record w { next_task = suc w.next_task; uncancelled = (w.next_task, e) ∷ w.uncancelled },
  );
  abort = λ j w. record w { uncancelled = filter (λ x. not (x.0 == j)) w.uncancelled };
  random_range = λ a b w. (a, w);
  send = λ to m w. w;
  save = λ s w. (true, w);
  reply = λ tx r w. record w { answers = w.answers ++ (tx, r) ∷ [] };
  clock_tick = λ w. 0;
  display = λ n. "n";
}

abbrev answers_of : Desk → List (ℕ × ClientResponse)
answers_of w = w.answers

desk-IsAnswering : IsAnswering desk answers_of
desk-IsAnswering = record {
  reply_appends = λ tx r w. refl;
  save_keeps = λ s w. refl;
  send_keeps = λ to m w. refl;
  tasks = record {
    spawn_keeps = λ ms e w. refl;
    abort_keeps = λ h w. refl;
    random_keeps = λ a b w. refl;
  };
}

abbrev open_desk : Desk
open_desk = record { answers = []; next_task = 0; uncancelled = [] }

abbrev two_clients : List (Command × ℕ)
two_clients = (default_command, 11) ∷ (default_command, 22) ∷ []

run_serves_example :
    (n : Node desk journal) × (run desk journal
        (new_node desk journal 1 [] none open_desk [] default_config (new_metrics 1))
        (timer TimerEvent.election_timeout ∷ requests desk journal two_clients)
      ≡ some n)
    × (n.state_machine ≡ default_command ∷ default_command ∷ [])
    × (n.world.answers ≡ (11, applied) ∷ (22, applied) ∷ [])
run_serves_example =
    run_serves desk journal answers_of desk-IsAnswering 1 open_desk [] default_config
      (new_metrics 1) two_clients (omega arith) (omega arith)

abbrev Uncancelled : Desk → ℕ → TimerEvent → Type 0
Uncancelled w h f = Any (λ x. x ≡ (h, f)) w.uncancelled

first_apart : (x y : ℕ × TimerEvent) (j : ℕ) → (x.0 == j) ≡ false → x ≡ y → y.0 ≢ j
first_apart x y j e a b = let same : x.0 ≡ y.0 = ap (λ z. z.0) a in ground arith

aborted :
    (j h : ℕ) (f : TimerEvent) (l : List (ℕ × TimerEvent))
    → Any (λ x. x ≡ (h, f)) (filter (λ x. not (x.0 == j)) l)
    → Any (λ x. x ≡ (h, f)) l × (h ≢ j)
unfolding filter
aborted j h f [] a = absurd a
aborted j h f ((i, g) ∷ l) a = elim (Bool-cases (i == j)) [
  | inl e ↦ let (old, apart) = aborted j h f l (rw e at a) in (inr old, apart)
  | inr e ↦
      let kept : (◌≡◌ {A = ℕ × TimerEvent} (i, g) (h, f))
          ⊎ Any (λ x. x ≡ (h, f)) (filter (λ x. not (x.0 == j)) l) =
        rw e at a in
      elim kept [
        | inl same ↦ (inl same, first_apart (i, g) (h, f) j e same)
        | inr rest ↦ let (old, apart) = aborted j h f l rest in (inr old, apart)
      ]
]

desk-TracksTasks : TracksTasks desk Uncancelled
unfolding filter
desk-TracksTasks = record {
  spawn_adds = λ ms e w h f live. ground arith;
  abort_requests = λ j w h f live. aborted j h f w.uncancelled live;
  random_adds_none = λ a b w h f live. live;
  send_adds_none = λ to m w h f live. live;
  save_adds_none = λ s w h f live. live;
  reply_adds_none = λ tx r w h f live. live;
}

run-HasTasksInHand_example : HasTasksInHand desk journal Uncancelled run_serves_example.0
unfolding new_node
run-HasTasksInHand_example =
    run-HasTasksInHand desk journal Uncancelled desk-TracksTasks
      (new_node desk journal 1 [] none open_desk [] default_config (new_metrics 1))
      run_serves_example.0 (timer TimerEvent.election_timeout ∷ requests desk journal two_clients)
      (λ h e live. absurd live) run_serves_example.1

-- A batch of two commands, applied up to index 1; the client at index 2 waits.
abbrev busy_node : Node desk journal
busy_node =
    record (new_node desk journal 2 (1 ∷ []) none open_desk [] default_config (new_metrics 2)) {
      raft = laggard;
      pending = (1, 11) ∷ (2, 22) ∷ [];
    }

abbrev relieved_node : Node desk journal
relieved_node = record busy_node {
  state_machine = default_command ∷ default_command ∷ [];
  pending = (2, 22) ∷ [];
  world = record open_desk { answers = (11, applied) ∷ [] };
}

process_actions_answers_example :
    (relieved_node.world.answers
      ≡ busy_node.world.answers
        ++ owed desk journal busy_node
            (apply_command default_command ∷ apply_command default_command ∷ []))
    × (waiting desk journal relieved_node 2 ≡ waiting desk journal busy_node 2)
unfolding new_node process_actions process_action resolve reply_to lookup remove
process_actions_answers_example =
    process_actions_answers desk journal answers_of desk-IsAnswering busy_node relieved_node
      (apply_command default_command ∷ apply_command default_command ∷ []) 2 tt refl (ground arith)
