-- ===== src/Raft/Applied.antt =====
-- Which commands the actions of a step hand to the state machine, event by event.
pub mod Entries
use raft_craft.Prelude.{
  ℕ, zero, suc, ◌-◌, ◌≤◌, ◌<◌, ◌≡◌, refl, ap, ◌∙◌, inl, inr, true, List, [], ◌∷◌, ◌++◌, map, Option,
  some, arith, ltb, length, take, drop, u64_mod, Bool-cases, is_empty,
}
use raft_craft.Protocol.{
  Command, NodeId, Term, LogEntry, Action, send, reset_election_timer, reset_heartbeat_timer,
  persist_state, not_leader, apply_command, RequestVote, RequestVoteResponse, AppendEntries,
}
use raft_craft.Raft.State.{Raft, with_last_applied, is_leader}
use raft_craft.Raft.Vote.{
  step_down, catch_up, become_leader, vote_response, decide_vote, handle_request_vote, count_vote,
  handle_vote_response,
}
use raft_craft.Raft.Election.{start_candidacy, create_vote_action, handle_election_timeout}
use raft_craft.Raft.AppendEntries.{
  apply_committed_entries, advance_commit_index, try_advance_commit_index, revert_candidate,
  advance_follower_commit, log_matches, append_entries_response as append_response, accepted,
  accept_entries, receive_entries, handle_append_entries, reconcile,
}
use raft_craft.Raft.Client.{append_command, handle_client_request}
use raft_craft.Raft.Apply.{commands_between, apply_committed_entries-slice}
use raft_craft.Raft.Log.Agreement.{reconcile-keeps}
use raft_craft.Raft.Validity.Replication.{
  accepted-IsValid, log_matches-reach, revert_candidate-IsValid, revert_candidate-Respects,
  catch_up-Respects, advance_commit_index-IsValid, append_command-IsValid,
}
use raft_craft.Raft.Validity.Elections.{catch_up-IsValid}
use raft_craft.Raft.Validity.{IsValid, Respects}

-- The commands among the actions.
abbrev pub applied_commands : List Action → List Command
applied_commands [] = []
applied_commands (apply_command c ∷ rest) = c ∷ applied_commands rest
applied_commands (send to m ∷ rest) = applied_commands rest
applied_commands (reset_election_timer ∷ rest) = applied_commands rest
applied_commands (reset_heartbeat_timer ∷ rest) = applied_commands rest
applied_commands (persist_state ∷ rest) = applied_commands rest
applied_commands (not_leader id ∷ rest) = applied_commands rest

abbrev pub commands : List LogEntry → List Command
commands = map (λ e. e.command)

pub applied_commands-between :
    (a n : ℕ) (log : List LogEntry)
    → applied_commands (commands_between a n log) ≡ commands (take n (drop a log))
applied_commands-between a n log = go (take n (drop a log))
  where
    go :
        (xs : List LogEntry)
        → applied_commands (map (λ e. apply_command e.command) xs) ≡ commands xs
    go [] = refl
    go (x ∷ xs) = ap (◌∷◌ x.command) (go xs)

-- What was applied stays where it is in the log, and the commands handed on are those of the entries
-- that follow it, up to the new `last_applied`.
pub record HandsOn (r : Raft) (p : Raft × List Action) : Type 0 where
  pub stays : take r.last_applied p.0.log ≡ take r.last_applied r.log
  pub grows : r.last_applied ≤ p.0.last_applied
  pub hands :
      applied_commands p.1
      ≡ commands (take (p.0.last_applied - r.last_applied) (drop r.last_applied p.0.log))

-- A handler that leaves what was applied, and applies nothing.
pub quiet :
    (r : Raft) (p : Raft × List Action)
    → take r.last_applied p.0.log ≡ take r.last_applied r.log
    → p.0.last_applied ≡ r.last_applied
    → applied_commands p.1 ≡ []
    → HandsOn r p
quiet r p l a none_applied = record {
  stays = l;
  grows = omega arith;
  hands =
      let zero_more : p.0.last_applied - r.last_applied ≡ 0 = omega arith in
      rw zero_more none_applied;
}

pub handle_request_vote-HandsOn : (r : Raft) (m : RequestVote) → HandsOn r (handle_request_vote r m)
unfolding handle_request_vote decide_vote vote_response catch_up step_down
handle_request_vote-HandsOn r m =
    quiet r _ (ap (take r.last_applied) (ground arith)) (ground arith) (ground arith)

pub handle_vote_response-HandsOn :
    (r : Raft) (m : RequestVoteResponse) → HandsOn r (handle_vote_response r m)
unfolding handle_vote_response count_vote become_leader step_down
handle_vote_response-HandsOn r m =
    quiet r _ (ap (take r.last_applied) (ground arith)) (ground arith) (ground arith)

applied_commands-votes :
    (f : NodeId → Action) (xs : List NodeId)
    → ((x : NodeId) (rest : List Action) → applied_commands (f x ∷ rest) ≡ applied_commands rest)
    → applied_commands (map f xs) ≡ []
applied_commands-votes f [] h = refl
applied_commands-votes f (x ∷ xs) h = h x (map f xs) ∙ applied_commands-votes f xs h

pub handle_election_timeout-HandsOn : (r : Raft) → HandsOn r (handle_election_timeout r)
unfolding handle_election_timeout start_candidacy become_leader create_vote_action
handle_election_timeout-HandsOn r =
    quiet r _ (ap (take r.last_applied) (ground arith)) (ground arith) (
      ground (
        arith,
        applied_commands-votes (create_vote_action (start_candidacy r)) r.peers (λ x rest. refl),
      ))

-- A state in which the same was applied serves as well.
pub HandsOn-from :
    (r r' : Raft) (p : Raft × List Action)
    → take r.last_applied r'.log ≡ take r.last_applied r.log
    → r'.last_applied ≡ r.last_applied
    → HandsOn r' p
    → HandsOn r p
HandsOn-from r r' p l a h = record {
  stays = rw a at h.stays ∙ l;
  grows = omega (arith, h.grows);
  hands = rw (← a) h.hands;
}

-- A result without a panic, in a valid state, that hands on what it applies.
abbrev pub Succeeds : Raft → Option (Raft × List Action) → Type 0
Succeeds r o = (p : Raft × List Action) × (o ≡ some p) × IsValid p.0 × HandsOn r p
