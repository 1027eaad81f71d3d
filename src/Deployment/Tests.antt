-- ===== src/Deployment/Tests.antt =====
-- Three nodes on a platform that keeps the last saved state and every message, and the theorems on
-- a run in which node 1 is elected.
use raft_craft.Prelude.{
  ◌≡◌, refl, true, arith, List, [], ◌∷◌, ◌++◌, inl, inr, none, some, any, contains, filter, insert,
  put, remove, position, find, take, wrapping_add,
}
use raft_craft.Protocol.{
  NodeId, LogEntry, default_command, append_entries, Command, Action, persist_state, request_vote,
  request_vote_response,
}
use raft_craft.Raft.State.{
  Raft, is_leader, new, restore, quorum, has_majority, last_log_index, last_log_term,
}
use raft_craft.Raft.Vote.{
  handle_request_vote, handle_vote_response, catch_up, decide_vote, step_down,
  candidate_log_up_to_date, vote_response, count_vote, become_leader,
}
use raft_craft.Raft.Election.{handle_election_timeout, start_candidacy, create_vote_action}
use raft_craft.Raft.AppendEntries.{
  handle_append_entries, receive_entries, revert_candidate, log_matches, accept_entries, reconcile,
  advance_follower_commit, apply_committed_entries, apply_loop, append_entries_response,
}
use raft_craft.Raft.Heartbeat.{
  handle_heartbeat_timeout, append_entries_from, append_entries_for_peer, append_entries_msg,
  prev_log_info, next_index_of,
}
use raft_craft.Raft.Client.{handle_client_request, append_command}
use raft_craft.Raft.Step.{step, handle_message}
use raft_craft.Runtime.Platform.{Platform, StateMachine, TimerEvent}
use raft_craft.Runtime.Timer.{
  random_in, reset_election, abort_handle, reset_heartbeat, cancel_election,
}
use raft_craft.Runtime.Metrics.{new_metrics}
use raft_craft.Runtime.Node.{
  Node, Input, timer, incoming, client, handle_client, reply_to, default_config, new_node,
  update_metrics, record_outgoing, process_action, process_actions, node_step, handle_input,
  event_loop, run,
}
use raft_craft.Runtime.Node.Effects.{entered}
use raft_craft.Consensus.System.{System, Reach, peers_in, update}
use raft_craft.Consensus.Tests.{members, members-IsDistinct}
use raft_craft.Deployment.Traces.{Trace, IsTraced}
use raft_craft.Deployment.Cluster.{nothing_yet, Deployed, IsBooted, boots, goes_on, takes, breaks}
use raft_craft.Deployment.Simulation.{
  Simulates, Deployed-Simulates, Deployed-one_leader, Deployed-logs_match,
}

abbrev ledger : Platform
ledger = record {
  World = Trace;
  JoinHandle = Unit {0};
  Sender = Unit {0};
  spawn = λ ms e w. (tt, w);
  abort = λ h w. w;
  random_range = λ a b w. (a, w);
  send = λ to m w. record { stored = w.stored; sent = w.sent ++ (to, m) ∷ [] };
  save = λ s w. (true, record { stored = some s; sent = w.sent });
  reply = λ tx r w. w;
  clock_tick = λ w. 0;
  display = λ n. "n";
}

abbrev trace : ledger.World → Trace
trace w = w

ledger-IsTraced : IsTraced ledger trace
ledger-IsTraced = record {
  save_stores = λ s w. refl;
  send_appends = λ to m w. refl;
  tasks = record {
    spawn_keeps = λ ms e w. refl;
    abort_keeps = λ h w. refl;
    random_keeps = λ a b w. refl;
  };
  reply_keeps = λ tx r w. refl;
}

abbrev journal : StateMachine
journal = record { State = List Command; apply = λ s c. s ++ c ∷ [] }

abbrev fresh : NodeId → Node ledger journal
fresh i =
    new_node ledger journal i (peers_in members i) none nothing_yet [] default_config
      (new_metrics i)

abbrev Nodes : Type 0
Nodes = NodeId → Node ledger journal

abbrev deployed₀ : Nodes
deployed₀ i = elim (run ledger journal (fresh i) []) [ some n ↦ n | none ↦ fresh i ]

abbrev handled : Nodes → NodeId → Input ledger → Node ledger journal
handled d i input = elim (handle_input ledger journal (d i) input) [ some n ↦ n | none ↦ d i ]

abbrev asks : Input ledger
asks =
    incoming 1
      (request_vote record { term = 1; candidate_id = 1; last_log_index = 0; last_log_term = 0 })

abbrev grants : Input ledger
grants = incoming 2 (request_vote_response record { term = 1; vote_granted = true; vote_from = 2 })

abbrev deployed₁ : Nodes
deployed₁ = update deployed₀ 1 (handled deployed₀ 1 (timer TimerEvent.election_timeout))

-- Node 3 handles the same request, saves its vote, and crashes before it answers.
abbrev voted : Raft × List Action
voted =
    handle_request_vote (deployed₁ 3).raft
      (record { term = 1; candidate_id = 1; last_log_index = 0; last_log_term = 0 })

abbrev cut_off : Node ledger journal
cut_off =
    elim (process_actions ledger journal (entered ledger journal (deployed₁ 3) asks voted.0)
      (persist_state ∷ [])) [ some n ↦ n | none ↦ fresh 3 ]

abbrev left_behind : Trace
left_behind = cut_off.world

abbrev started_again : Node ledger journal
started_again =
    elim (run ledger journal
      (new_node ledger journal 3 (peers_in members 3) left_behind.stored left_behind []
        default_config (new_metrics 3))
      []) [ some n ↦ n | none ↦ fresh 3 ]

abbrev deployed₂ : Nodes
deployed₂ = update deployed₁ 3 started_again

abbrev deployed₃ : Nodes
deployed₃ = update deployed₂ 2 (handled deployed₂ 2 asks)

abbrev deployed₄ : Nodes
deployed₄ = update deployed₃ 1 (handled deployed₃ 1 grants)

booted : (i : NodeId) → IsBooted ledger journal trace members i nothing_yet (deployed₀ i)
unfolding new_node run event_loop reset_election random_in abort_handle update_metrics
booted i = record {
  world = nothing_yet;
  state_machine = [];
  config = default_config;
  metrics = new_metrics i;
  outside = refl;
  ran = refl;
}

restarted : IsBooted ledger journal trace members 3 left_behind started_again
unfolding new restore step handle_message handle_election_timeout start_candidacy create_vote_action
    handle_request_vote handle_vote_response catch_up decide_vote step_down candidate_log_up_to_date
    vote_response count_vote become_leader filter contains any insert last_log_index last_log_term
    wrapping_add quorum has_majority new_node run event_loop handle_input node_step process_actions
    process_action record_outgoing update_metrics reset_election random_in abort_handle
    reset_heartbeat cancel_election
restarted = record {
  world = left_behind;
  state_machine = [];
  config = default_config;
  metrics = new_metrics 3;
  outside = refl;
  ran = refl;
}

elected : Deployed ledger journal trace members deployed₄
unfolding new restore step handle_message handle_election_timeout start_candidacy create_vote_action
    handle_request_vote handle_vote_response catch_up decide_vote step_down candidate_log_up_to_date
    vote_response count_vote become_leader filter contains any insert last_log_index last_log_term
    wrapping_add quorum has_majority new_node run event_loop handle_input node_step process_actions
    process_action record_outgoing update_metrics reset_election random_in abort_handle
    reset_heartbeat cancel_election
elected =
    let timed_out =
      goes_on (boots deployed₀ booted)
        (takes 1 (timer TimerEvent.election_timeout) _ refl tt (omega arith) (omega arith) refl) in
    let broken = goes_on timed_out (
      breaks 3 asks voted (persist_state ∷ []) _ cut_off started_again refl (1, inr (inl refl))
        (omega arith) (omega arith) refl refl refl restarted) in
    goes_on (goes_on broken (takes 2 asks _ refl (1, inl refl) (omega arith) (omega arith) refl))
      (takes 1 grants _ refl (2, inl refl) (omega arith) (omega arith) refl)

-- Node 3 knows its vote again.
kept_vote : ((deployed₄ 3).raft.voted_for ≡ some 1) × ((deployed₄ 3).raft.current_term ≡ 1)
unfolding new restore step handle_message handle_election_timeout start_candidacy create_vote_action
    handle_request_vote handle_vote_response catch_up decide_vote step_down candidate_log_up_to_date
    vote_response count_vote become_leader filter contains any insert last_log_index last_log_term
    wrapping_add quorum has_majority new_node run event_loop handle_input node_step process_actions
    process_action record_outgoing update_metrics reset_election random_in abort_handle
    reset_heartbeat cancel_election
kept_vote = (refl, refl)

leads : is_leader (deployed₄ 1).raft.role ≡ true
unfolding new restore step handle_message handle_election_timeout start_candidacy create_vote_action
    handle_request_vote handle_vote_response catch_up decide_vote step_down candidate_log_up_to_date
    vote_response count_vote become_leader filter contains any insert last_log_index last_log_term
    wrapping_add quorum has_majority new_node run event_loop handle_input node_step process_actions
    process_action record_outgoing update_metrics reset_election random_in abort_handle
    reset_heartbeat cancel_election
leads = refl

Deployed-Simulates_example :
    (s : System) × Reach members s × Simulates ledger journal trace deployed₄ s
Deployed-Simulates_example = Deployed-Simulates ledger journal trace ledger-IsTraced elected

Deployed-one_leader_example : ◌≡◌ {A = NodeId} 1 1
unfolding contains any
Deployed-one_leader_example =
    Deployed-one_leader ledger journal trace ledger-IsTraced members-IsDistinct elected 1 1 refl
      refl leads leads refl

-- A client sends a command, and node 2 gets its entry.
abbrev entry : LogEntry
entry = record { term = 1; index = 1; command = default_command }

abbrev carries : Input ledger
carries = incoming 1 (
    append_entries record {
      term = 1;
      leader_id = 1;
      prev_log_index = 0;
      prev_log_term = 0;
      entries = entry ∷ [];
      leader_commit = 0;
    })

abbrev deployed₅ : Nodes
deployed₅ = update deployed₄ 1 (handled deployed₄ 1 (client default_command tt))

abbrev deployed₆ : Nodes
deployed₆ = update deployed₅ 1 (handled deployed₅ 1 (timer TimerEvent.heartbeat_timeout))

abbrev deployed₇ : Nodes
deployed₇ = update deployed₆ 2 (handled deployed₆ 2 carries)

replicated : Deployed ledger journal trace members deployed₇
unfolding new restore step handle_message handle_election_timeout start_candidacy create_vote_action
    handle_request_vote handle_vote_response catch_up decide_vote step_down candidate_log_up_to_date
    vote_response count_vote become_leader filter contains any insert last_log_index last_log_term
    wrapping_add quorum has_majority new_node run event_loop handle_input node_step process_actions
    process_action record_outgoing update_metrics reset_election random_in abort_handle
    reset_heartbeat cancel_election handle_client reply_to put remove handle_client_request
    append_command handle_heartbeat_timeout append_entries_from append_entries_for_peer
    next_index_of append_entries_msg prev_log_info handle_append_entries receive_entries
    revert_candidate log_matches accept_entries reconcile advance_follower_commit
    apply_committed_entries apply_loop append_entries_response position find
replicated =
    goes_on
      (goes_on
        (goes_on elected
          (takes 1 (client default_command tt) _ refl tt (omega arith) (omega arith) refl))
        (takes 1 (timer TimerEvent.heartbeat_timeout) _ refl tt (omega arith) (omega arith) refl))
      (takes 2 carries _ refl (1, inr (inr (inl refl))) (omega arith) (omega arith) refl)

Deployed-logs_match_example : take 1 (deployed₇ 1).raft.log ≡ take 1 (deployed₇ 2).raft.log
unfolding new restore step handle_message handle_election_timeout start_candidacy create_vote_action
    handle_request_vote handle_vote_response catch_up decide_vote step_down candidate_log_up_to_date
    vote_response count_vote become_leader filter contains any insert last_log_index last_log_term
    wrapping_add quorum has_majority new_node run event_loop handle_input node_step process_actions
    process_action record_outgoing update_metrics reset_election random_in abort_handle
    reset_heartbeat cancel_election handle_client reply_to put remove handle_client_request
    append_command handle_heartbeat_timeout append_entries_from append_entries_for_peer
    next_index_of append_entries_msg prev_log_info handle_append_entries receive_entries
    revert_candidate log_matches accept_entries reconcile advance_follower_commit
    apply_committed_entries apply_loop append_entries_response position find
Deployed-logs_match_example =
    Deployed-logs_match ledger journal trace ledger-IsTraced members-IsDistinct replicated 1 2 0
      entry entry refl refl refl
