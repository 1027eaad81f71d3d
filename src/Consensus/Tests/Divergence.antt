-- ===== src/Consensus/Tests/Divergence.antt =====
-- The run of EarlyCommit goes on: the entry that node 2 has committed is not on the others, and they
-- elect node 1, which commits another entry in its place.
use raft_craft.Prelude.{
  Option, none, some, is_some, List, map, ◌≡◌, refl, arith, true, false, [], ◌∷◌, inl, inr,
  contains, any, filter, insert, find, position, count, wrapping_add,
}
use raft_craft.Protocol.{
  Action, LogEntry, RequestVote, RequestVoteResponse, AppendEntries, AppendEntriesResponse,
  append_entries, append_entries_response as response, request_vote, request_vote_response, message,
  election_timeout, heartbeat_timeout, client_request, default_command, delete_command,
}
use raft_craft.Raft.State.{Raft, new, quorum, has_majority, last_log_index, last_log_term}
use raft_craft.Raft.Vote.{
  handle_request_vote, handle_vote_response, catch_up, decide_vote, step_down,
  candidate_log_up_to_date, vote_response, count_vote, become_leader,
}
use raft_craft.Raft.Election.{handle_election_timeout, start_candidacy, create_vote_action}
use raft_craft.Raft.AppendEntries.{
  handle_append_entries, receive_entries, revert_candidate, log_matches, accept_entries, reconcile,
  advance_follower_commit, apply_committed_entries, apply_loop, append_entries_response,
  handle_append_entries_response, reply_of_peer, record_reply, advance_peer, back_up,
  try_advance_commit_index, advance_commit_index, scan_commit,
}
use raft_craft.Raft.Heartbeat.{
  handle_heartbeat_timeout, append_entries_from, append_entries_for_peer, next_index_of,
  append_entries_msg, prev_log_info,
}
use raft_craft.Raft.Client.{handle_client_request, append_command}
use raft_craft.Raft.Step.{step, handle_message}
use raft_craft.Consensus.System.{System, after_step, handle, Reach, next}
use raft_craft.Consensus.Tests.{members}
use raft_craft.Consensus.Tests.EarlyCommit.{result, s₁₀, committing}

-- Node 1 wins term 3 with the vote of node 3, and takes a command.
abbrev s₁₁ : System
s₁₁ = after_step s₁₀ 1 (handle_election_timeout (s₁₀.nodes 1))

abbrev asks : RequestVote
asks = record { term = 3; candidate_id = 1; last_log_index = 1; last_log_term = 1 }

abbrev s₁₂ : System
s₁₂ = after_step s₁₁ 3 (handle_request_vote (s₁₁.nodes 3) asks)

abbrev grants : RequestVoteResponse
grants = record { term = 3; vote_granted = true; vote_from = 3 }

abbrev s₁₃ : System
s₁₃ = after_step s₁₂ 1 (handle_vote_response (s₁₂.nodes 1) grants)

abbrev s₁₄ : System
s₁₄ = after_step s₁₃ 1 (handle_client_request (s₁₃.nodes 1) default_command)

-- Node 3 refuses the first heartbeat and stores both entries of the second.
abbrev s₁₅ : System
s₁₅ = after_step s₁₄ 1 (result (s₁₄.nodes 1) (handle_heartbeat_timeout (s₁₄.nodes 1)))

abbrev old_entry : LogEntry
old_entry = record { term = 1; index = 1; command = delete_command "key" }

abbrev new_entry : LogEntry
new_entry = record { term = 3; index = 2; command = default_command }

abbrev beat : AppendEntries
beat = record {
  term = 3;
  leader_id = 1;
  prev_log_index = 1;
  prev_log_term = 1;
  entries = new_entry ∷ [];
  leader_commit = 0;
}

abbrev s₁₆ : System
s₁₆ = after_step s₁₅ 3 (handle_append_entries (s₁₅.nodes 3) beat)

abbrev refuses : AppendEntriesResponse
refuses = record { term = 3; success = false; from = 3; match_index = 0 }

abbrev s₁₇ : System
s₁₇ = after_step s₁₆ 1 (result (s₁₆.nodes 1) (handle_append_entries_response (s₁₆.nodes 1) refuses))

abbrev s₁₈ : System
s₁₈ = after_step s₁₇ 1 (result (s₁₇.nodes 1) (handle_heartbeat_timeout (s₁₇.nodes 1)))

abbrev whole : AppendEntries
whole = record {
  term = 3;
  leader_id = 1;
  prev_log_index = 0;
  prev_log_term = 0;
  entries = old_entry ∷ new_entry ∷ [];
  leader_commit = 0;
}

abbrev s₁₉ : System
s₁₉ = after_step s₁₈ 3 (handle_append_entries (s₁₈.nodes 3) whole)

abbrev stores : AppendEntriesResponse
stores = record { term = 3; success = true; from = 3; match_index = 2 }

abbrev s₂₀ : System
s₂₀ = after_step s₁₉ 1 (result (s₁₉.nodes 1) (handle_append_entries_response (s₁₉.nodes 1) stores))

led_again : Reach members s₁₄
unfolding step handle_message new handle_election_timeout start_candidacy create_vote_action
    handle_request_vote handle_vote_response catch_up decide_vote step_down candidate_log_up_to_date
    vote_response count_vote become_leader filter contains any insert last_log_index last_log_term
    wrapping_add quorum has_majority position count find handle_client_request append_command
    handle_heartbeat_timeout append_entries_from append_entries_for_peer next_index_of
    append_entries_msg prev_log_info handle_append_entries receive_entries revert_candidate
    log_matches accept_entries reconcile advance_follower_commit apply_committed_entries apply_loop
    append_entries_response handle_append_entries_response reply_of_peer record_reply advance_peer
    back_up try_advance_commit_index advance_commit_index scan_commit
led_again =
    let r₁₁ =
      next committing (handle 1 election_timeout _ refl tt (omega arith) (omega arith) refl) in
    let r₁₂ = next r₁₁ (
      handle 3 (message (request_vote asks)) _ refl (inr (inl refl)) (omega arith) (omega arith)
        refl) in
    let r₁₃ = next r₁₂ (
      handle 1 (message (request_vote_response grants)) _ refl (inl refl) (omega arith)
        (omega arith) refl) in
    next r₁₃ (handle 1 (client_request default_command) _ refl tt (omega arith) (omega arith) refl)

refused : Reach members s₁₇
unfolding step handle_message new handle_election_timeout start_candidacy create_vote_action
    handle_request_vote handle_vote_response catch_up decide_vote step_down candidate_log_up_to_date
    vote_response count_vote become_leader filter contains any insert last_log_index last_log_term
    wrapping_add quorum has_majority position count find handle_client_request append_command
    handle_heartbeat_timeout append_entries_from append_entries_for_peer next_index_of
    append_entries_msg prev_log_info handle_append_entries receive_entries revert_candidate
    log_matches accept_entries reconcile advance_follower_commit apply_committed_entries apply_loop
    append_entries_response handle_append_entries_response reply_of_peer record_reply advance_peer
    back_up try_advance_commit_index advance_commit_index scan_commit
refused =
    let r₁₅ = next led_again (
      handle 1 heartbeat_timeout (result (s₁₄.nodes 1) (handle_heartbeat_timeout (s₁₄.nodes 1)))
        refl tt (omega arith) (omega arith) refl) in
    let r₁₆ = next r₁₅ (
      handle 3 (message (append_entries beat)) _ refl (inr (inl refl)) (omega arith) (omega arith)
        refl) in
    next r₁₆ (
      handle 1 (message (response refuses))
        (result (s₁₆.nodes 1) (handle_append_entries_response (s₁₆.nodes 1) refuses)) refl
        (inl refl) (omega arith) (omega arith) refl)

stored : Reach members s₁₉
unfolding step handle_message new handle_election_timeout start_candidacy create_vote_action
    handle_request_vote handle_vote_response catch_up decide_vote step_down candidate_log_up_to_date
    vote_response count_vote become_leader filter contains any insert last_log_index last_log_term
    wrapping_add quorum has_majority position count find handle_client_request append_command
    handle_heartbeat_timeout append_entries_from append_entries_for_peer next_index_of
    append_entries_msg prev_log_info handle_append_entries receive_entries revert_candidate
    log_matches accept_entries reconcile advance_follower_commit apply_committed_entries apply_loop
    append_entries_response handle_append_entries_response reply_of_peer record_reply advance_peer
    back_up try_advance_commit_index advance_commit_index scan_commit
stored =
    let r₁₈ = next refused (
      handle 1 heartbeat_timeout (result (s₁₇.nodes 1) (handle_heartbeat_timeout (s₁₇.nodes 1)))
        refl tt (omega arith) (omega arith) refl) in
    next r₁₈ (
      handle 3 (message (append_entries whole)) _ refl (inr (inl refl)) (omega arith) (omega arith)
        refl)

result-some :
    (r : Raft) (o : Option (Raft × List Action)) → is_some o ≡ true → o ≡ some (result r o)
result-some r none h = cc
result-some r (some p) h = refl

is_handled : is_some (handle_append_entries_response (s₁₉.nodes 1) stores) ≡ true
unfolding step handle_message new handle_election_timeout start_candidacy create_vote_action
    handle_request_vote handle_vote_response catch_up decide_vote step_down candidate_log_up_to_date
    vote_response count_vote become_leader filter contains any insert last_log_index last_log_term
    wrapping_add quorum has_majority position count find handle_client_request append_command
    handle_heartbeat_timeout append_entries_from append_entries_for_peer next_index_of
    append_entries_msg prev_log_info handle_append_entries receive_entries revert_candidate
    log_matches accept_entries reconcile advance_follower_commit apply_committed_entries apply_loop
    append_entries_response handle_append_entries_response reply_of_peer record_reply advance_peer
    back_up try_advance_commit_index advance_commit_index scan_commit
is_handled = refl

goes_through :
    step (s₁₉.nodes 1) (message (response stores))
    ≡ some (result (s₁₉.nodes 1) (handle_append_entries_response (s₁₉.nodes 1) stores))
unfolding step handle_message
goes_through = result-some (s₁₉.nodes 1) _ is_handled

diverging : Reach members s₂₀
unfolding step handle_message new handle_election_timeout start_candidacy create_vote_action
    handle_request_vote handle_vote_response catch_up decide_vote step_down candidate_log_up_to_date
    vote_response count_vote become_leader filter contains any insert last_log_index last_log_term
    wrapping_add quorum has_majority position count find handle_client_request append_command
    handle_heartbeat_timeout append_entries_from append_entries_for_peer next_index_of
    append_entries_msg prev_log_info handle_append_entries receive_entries revert_candidate
    log_matches accept_entries reconcile advance_follower_commit apply_committed_entries apply_loop
    append_entries_response handle_append_entries_response reply_of_peer record_reply advance_peer
    back_up try_advance_commit_index advance_commit_index scan_commit
diverging = next stored (
    handle 1 (message (response stores))
      (result (s₁₉.nodes 1) (handle_append_entries_response (s₁₉.nodes 1) stores)) refl (inl refl)
      (omega arith) (omega arith) goes_through)

-- Both have applied an entry at index 1, one has deleted the key and the other has set it.
applied_differently :
    ((s₂₀.nodes 1).last_applied ≡ 2)
    × ((s₂₀.nodes 2).last_applied ≡ 1)
    × (map (λ e. e.command) (s₂₀.nodes 1).log ≡ delete_command "key" ∷ default_command ∷ [])
    × (map (λ e. e.command) (s₂₀.nodes 2).log ≡ default_command ∷ [])
unfolding step handle_message new handle_election_timeout start_candidacy create_vote_action
    handle_request_vote handle_vote_response catch_up decide_vote step_down candidate_log_up_to_date
    vote_response count_vote become_leader filter contains any insert last_log_index last_log_term
    wrapping_add quorum has_majority position count find handle_client_request append_command
    handle_heartbeat_timeout append_entries_from append_entries_for_peer next_index_of
    append_entries_msg prev_log_info handle_append_entries receive_entries revert_candidate
    log_matches accept_entries reconcile advance_follower_commit apply_committed_entries apply_loop
    append_entries_response handle_append_entries_response reply_of_peer record_reply advance_peer
    back_up try_advance_commit_index advance_commit_index scan_commit
applied_differently = (refl, refl, refl, refl)
