-- ===== src/Consensus/Tests/Replication.antt =====
-- The run goes on: the leader takes a command of a client, and its heartbeat brings it to node 2.
use raft_craft.Prelude.{
  ◌≡◌, refl, arith, List, [], ◌∷◌, inl, take, contains, any, filter, insert, position, wrapping_add,
}
use raft_craft.Protocol.{
  LogEntry, AppendEntries, append_entries, message, heartbeat_timeout, client_request, Action, send,
  reset_heartbeat_timer, default_command,
}
use raft_craft.Raft.State.{Raft, new, quorum, has_majority, last_log_index, last_log_term}
use raft_craft.Raft.Vote.{
  handle_request_vote, handle_vote_response, catch_up, decide_vote, step_down,
  candidate_log_up_to_date, vote_response, count_vote, become_leader,
}
use raft_craft.Raft.Election.{handle_election_timeout, start_candidacy, create_vote_action}
use raft_craft.Raft.AppendEntries.{
  handle_append_entries, receive_entries, revert_candidate, log_matches, accept_entries, reconcile,
  advance_follower_commit, apply_committed_entries, apply_loop, append_entries_response,
}
use raft_craft.Raft.Heartbeat.{
  handle_heartbeat_timeout, append_entries_from, append_entries_for_peer, next_index_of,
  append_entries_msg, prev_log_info,
}
use raft_craft.Raft.Client.{handle_client_request, append_command}
use raft_craft.Raft.Step.{step, handle_message}
use raft_craft.Consensus.System.{System, after_step, handle, Reach, next}
use raft_craft.Consensus.LogMatching.{Reach-logs_match, Reach-IsNumbered}
use raft_craft.Raft.Log.Numbered.{IsNumbered}
use raft_craft.Consensus.Tests.{members, members-IsDistinct, state₃, elected}

abbrev takes : Raft × List Action
takes = handle_client_request (state₃.nodes 1) default_command

abbrev state₄ : System
state₄ = after_step state₃ 1 takes

abbrev first : LogEntry
first = record { term = 1; index = 1; command = default_command }

abbrev brings : AppendEntries
brings = record {
  term = 1;
  leader_id = 1;
  prev_log_index = 0;
  prev_log_term = 0;
  entries = first ∷ [];
  leader_commit = 0;
}

abbrev beats : Raft × List Action
beats = (
  state₄.nodes 1,
  reset_heartbeat_timer ∷ send 2 (append_entries brings) ∷ send 3 (append_entries brings) ∷ [],
)

abbrev state₅ : System
state₅ = after_step state₄ 1 beats

abbrev accepts : Raft × List Action
accepts = handle_append_entries (state₅.nodes 2) brings

abbrev state₆ : System
state₆ = after_step state₅ 2 accepts

replicated : Reach members state₆
unfolding step handle_message new handle_election_timeout start_candidacy create_vote_action
    handle_request_vote handle_vote_response catch_up decide_vote step_down candidate_log_up_to_date
    vote_response count_vote become_leader filter contains any insert last_log_index last_log_term
    wrapping_add quorum has_majority handle_client_request append_command handle_heartbeat_timeout
    append_entries_from append_entries_for_peer next_index_of append_entries_msg prev_log_info
    handle_append_entries receive_entries revert_candidate log_matches accept_entries reconcile
    advance_follower_commit apply_committed_entries apply_loop append_entries_response
replicated =
    next
      (next
        (next elected (
          handle 1 (client_request default_command) takes refl tt (omega arith) (omega arith) refl))
        (handle 1 heartbeat_timeout beats refl tt (omega arith) (omega arith) refl))
      (handle 2 (message (append_entries brings)) accepts refl (inl refl) (omega arith)
        (omega arith) refl)

Reach-logs_match_example : take 1 (state₆.nodes 1).log ≡ take 1 (state₆.nodes 2).log
unfolding step handle_message new handle_election_timeout start_candidacy create_vote_action
    handle_request_vote handle_vote_response catch_up decide_vote step_down candidate_log_up_to_date
    vote_response count_vote become_leader filter contains any insert last_log_index last_log_term
    wrapping_add quorum has_majority handle_client_request append_command handle_heartbeat_timeout
    append_entries_from append_entries_for_peer next_index_of append_entries_msg prev_log_info
    handle_append_entries receive_entries revert_candidate log_matches accept_entries reconcile
    advance_follower_commit apply_committed_entries apply_loop append_entries_response position
Reach-logs_match_example =
    Reach-logs_match members-IsDistinct replicated 1 2 0 first first refl refl refl

Reach-IsNumbered_example : IsNumbered 1 (state₆.nodes 2).log × IsNumbered 1 (state₆.disks 2).log
Reach-IsNumbered_example = Reach-IsNumbered members-IsDistinct replicated 2
