-- ===== src/Consensus/Tests/EarlyCommit.antt =====
-- A run in which a leader commits an entry that no other node has: a follower confirms the whole of
-- its log, not only what the message covers (append_entries.rs).
use raft_craft.Prelude.{
  ℕ, ◌≤◌, length, take, get_elem?, map, map_or, Option, ◌≡◌, refl, arith, true, List, [], ◌∷◌, inl,
  inr, some, contains, any, filter, insert, find, position, count, wrapping_add,
}
use raft_craft.Protocol.{
  LogIndex, RequestVote, RequestVoteResponse, AppendEntries, AppendEntriesResponse, append_entries,
  append_entries_response as response, request_vote, request_vote_response, message,
  election_timeout, heartbeat_timeout, client_request, Action, send, reset_heartbeat_timer,
  default_command, delete_command,
}
use raft_craft.Raft.State.{
  Raft, LeaderState, new, quorum, has_majority, last_log_index, last_log_term,
}
use raft_craft.Raft.Vote.{
  handle_request_vote, handle_vote_response, catch_up, decide_vote, step_down,
  candidate_log_up_to_date, vote_response, count_vote, become_leader,
}
use raft_craft.Raft.Election.{handle_election_timeout, start_candidacy, create_vote_action}
use raft_craft.Raft.AppendEntries.{
  handle_append_entries, receive_entries, revert_candidate, log_matches, accept_entries, reconcile,
  advance_follower_commit, apply_committed_entries, apply_loop, append_entries_response,
  handle_append_entries_response, reply_of_peer, record_reply, advance_peer, back_up,
  try_advance_commit_index, advance_commit_index, scan_commit,
}
use raft_craft.Raft.Heartbeat.{
  handle_heartbeat_timeout, append_entries_from, append_entries_for_peer, next_index_of,
  append_entries_msg, prev_log_info,
}
use raft_craft.Raft.Client.{handle_client_request, append_command}
use raft_craft.Raft.Step.{step, handle_message}
use raft_craft.Consensus.System.{System, after_step, handle, Reach, next}
use raft_craft.Consensus.Tests.{members, members-IsDistinct, state₃, elected}
use raft_craft.Raft.Replication.CatchUp.{rounds, InTouch}
use raft_craft.Consensus.CatchUp.{Reach-catches_up}

-- Node 1, the leader of term 1, takes a command; nobody hears of it. Node 2 runs in term 2 and
-- wins with the vote of node 3.
abbrev s₁ : System
s₁ = after_step state₃ 1 (handle_client_request (state₃.nodes 1) (delete_command "key"))

abbrev s₂ : System
s₂ = after_step s₁ 2 (handle_election_timeout (s₁.nodes 2))

abbrev asks : RequestVote
asks = record { term = 2; candidate_id = 2; last_log_index = 0; last_log_term = 0 }

abbrev s₃ : System
s₃ = after_step s₂ 3 (handle_request_vote (s₂.nodes 3) asks)

abbrev grants : RequestVoteResponse
grants = record { term = 2; vote_granted = true; vote_from = 3 }

abbrev s₄ : System
s₄ = after_step s₃ 2 (handle_vote_response (s₃.nodes 2) grants)

-- Its heartbeat has no entries. Node 1 accepts it and confirms its own entry, node 3 confirms
-- nothing.
abbrev beat : AppendEntries
beat = record {
  term = 2;
  leader_id = 2;
  prev_log_index = 0;
  prev_log_term = 0;
  entries = [];
  leader_commit = 0;
}

abbrev s₅ : System
s₅ = after_step s₄ 2 (
  s₄.nodes 2,
  reset_heartbeat_timer ∷ send 1 (append_entries beat) ∷ send 3 (append_entries beat) ∷ [],
)

abbrev s₆ : System
s₆ = after_step s₅ 1 (handle_append_entries (s₅.nodes 1) beat)

abbrev s₇ : System
s₇ = after_step s₆ 3 (handle_append_entries (s₆.nodes 3) beat)

abbrev claims : AppendEntriesResponse
claims = record { term = 2; success = true; from = 1; match_index = 1 }

abbrev quiet : AppendEntriesResponse
quiet = record { term = 2; success = true; from = 3; match_index = 0 }

-- Node 2 hears node 1, takes a command, hears node 3, and commits.
abbrev pub result : Raft → Option (Raft × List Action) → Raft × List Action
result r o = map_or (r, []) (λ p. p) o

abbrev s₈ : System
s₈ = after_step s₇ 2 (result (s₇.nodes 2) (handle_append_entries_response (s₇.nodes 2) claims))

abbrev s₉ : System
s₉ = after_step s₈ 2 (handle_client_request (s₈.nodes 2) default_command)

abbrev pub s₁₀ : System
s₁₀ = after_step s₉ 2 (result (s₉.nodes 2) (handle_append_entries_response (s₉.nodes 2) quiet))

pub committing : Reach members s₁₀
unfolding step handle_message new handle_election_timeout start_candidacy create_vote_action
    handle_request_vote handle_vote_response catch_up decide_vote step_down candidate_log_up_to_date
    vote_response count_vote become_leader filter contains any insert last_log_index last_log_term
    wrapping_add quorum has_majority position count find handle_client_request append_command
    handle_heartbeat_timeout append_entries_from append_entries_for_peer next_index_of
    append_entries_msg prev_log_info handle_append_entries receive_entries revert_candidate
    log_matches accept_entries reconcile advance_follower_commit apply_committed_entries apply_loop
    append_entries_response handle_append_entries_response reply_of_peer record_reply advance_peer
    back_up try_advance_commit_index advance_commit_index scan_commit
committing =
    let r₁ = next elected (
      handle 1 (client_request (delete_command "key")) _ refl tt (omega arith) (omega arith)
        refl) in
    let r₂ = next r₁ (handle 2 election_timeout _ refl tt (omega arith) (omega arith) refl) in
    let r₃ = next r₂ (
      handle 3 (message (request_vote asks)) _ refl (inr (inl refl)) (omega arith) (omega arith)
        refl) in
    let r₄ = next r₃ (
      handle 2 (message (request_vote_response grants)) _ refl (inl refl) (omega arith)
        (omega arith) refl) in
    let r₅ = next r₄ (handle 2 heartbeat_timeout _ refl tt (omega arith) (omega arith) refl) in
    let r₆ = next r₅ (
      handle 1 (message (append_entries beat)) _ refl (inl refl) (omega arith) (omega arith)
        refl) in
    let r₇ = next r₆ (
      handle 3 (message (append_entries beat)) _ refl (inr (inr (inl refl))) (omega arith)
        (omega arith) refl) in
    let r₈ = next r₇ (
      handle 2 (message (response claims))
        (result (s₇.nodes 2) (handle_append_entries_response (s₇.nodes 2) claims)) refl
        (inr (inl refl)) (omega arith) (omega arith) refl) in
    let r₉ =
      next r₈
        (handle 2 (client_request default_command) _ refl tt (omega arith) (omega arith) refl) in
    next r₉ (
      handle 2 (message (response quiet))
        (result (s₉.nodes 2) (handle_append_entries_response (s₉.nodes 2) quiet)) refl (inl refl)
        (omega arith) (omega arith) refl)

-- Node 2 has committed its entry, node 3 has none, and that of node 1 is another, at which node 1
-- refuses the next message.
committed_early :
    ((s₁₀.nodes 2).commit_index ≡ 1)
    × ((s₁₀.nodes 3).log ≡ [])
    × (map (λ e. e.term) (s₁₀.nodes 1).log ≡ 1 ∷ [])
    × (map (λ e. e.term) (s₁₀.nodes 2).log ≡ 2 ∷ [])
    × InTouch 0 1 (s₁₀.nodes 2) (s₁₀.nodes 1)
unfolding step handle_message new handle_election_timeout start_candidacy create_vote_action
    handle_request_vote handle_vote_response catch_up decide_vote step_down candidate_log_up_to_date
    vote_response count_vote become_leader filter contains any insert last_log_index last_log_term
    wrapping_add quorum has_majority position count find handle_client_request append_command
    handle_heartbeat_timeout append_entries_from append_entries_for_peer next_index_of
    append_entries_msg prev_log_info handle_append_entries receive_entries revert_candidate
    log_matches accept_entries reconcile advance_follower_commit apply_committed_entries apply_loop
    append_entries_response handle_append_entries_response reply_of_peer record_reply advance_peer
    back_up try_advance_commit_index advance_commit_index scan_commit
committed_early = (
  refl,
  refl,
  refl,
  refl,
  record {
    leads = refl;
    peer = refl;
    state = record { next_index = 2 ∷ 1 ∷ []; match_index = 1 ∷ 0 ∷ [] };
    kept = refl;
    next = refl;
    shaped = omega arith;
    leader_numbered = (refl, tt);
    follower_numbered = (refl, tt);
    current = omega arith;
    within = omega arith;
  },
)

Reach-catches_up_example :
    (k : ℕ) × (l' : Raft) × (f' : Raft) × (ls : LeaderState) × (known : LogIndex) × (k ≤ 2)
    × (rounds k 0 (s₁₀.nodes 2) (s₁₀.nodes 1) ≡ some (l', f'))
    × (take (length (s₁₀.nodes 2).log) f'.log ≡ (s₁₀.nodes 2).log)
    × (l'.leader_state ≡ some ls)
    × (get_elem? ls.match_index 0 ≡ some known)
    × (length (s₁₀.nodes 2).log ≤ known)
Reach-catches_up_example = Reach-catches_up members-IsDistinct committing 2 1 0 1 committed_early.4
