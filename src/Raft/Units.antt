-- ===== src/Raft/Units.antt =====
-- raft-core/src/raft: the helpers of the unit tests in these files. The tests themselves are run on
-- the model, file by file; each is a test here with the asserts of the source, in their order.
pub mod Election
pub mod Vote
pub mod Heartbeat
pub mod Replication
pub mod Replies
pub mod Client
pub mod Step
use raft_craft.Prelude.{
  ℕ, ◌+◌, ◌==◌, Bool, true, false, ◌&&◌, List, [], ◌∷◌, ◌++◌, map, Option, none, some, length,
  count, map_or, replicate, set, get_elem?,
}
use raft_craft.Protocol.{
  NodeId, Term, LogIndex, LogEntry, Action, send, reset_election_timer, reset_heartbeat_timer,
  persist_state, not_leader, apply_command, RequestVote, RequestVoteResponse, AppendEntries,
  AppendEntriesResponse, Message, request_vote, request_vote_response, append_entries,
  append_entries_response, default_command,
}
use raft_craft.Raft.State.{
  Raft, Role, follower, candidate, leader, LeaderState, CandidateState, new, with_log,
}

-- The asserts of a test.
abbrev pub passes : List Bool → Bool
passes [] = true
passes (b ∷ bs) = b && passes bs

abbrev pub is_follower : Role → Bool
is_follower follower = true
is_follower r = false

-- `matches!` on an action.
abbrev pub is_reset_election : Action → Bool
is_reset_election reset_election_timer = true
is_reset_election a = false

abbrev pub is_reset_heartbeat : Action → Bool
is_reset_heartbeat reset_heartbeat_timer = true
is_reset_heartbeat a = false

abbrev pub is_persist : Action → Bool
is_persist persist_state = true
is_persist a = false

abbrev pub is_send : Action → Bool
is_send (send to m) = true
is_send a = false

abbrev pub is_not_leader : Action → Bool
is_not_leader (not_leader id) = true
is_not_leader a = false

abbrev pub is_apply : Action → Bool
is_apply (apply_command c) = true
is_apply a = false

-- The messages of one kind among the actions, with their receivers.
abbrev pub vote_requests : List Action → List (NodeId × RequestVote)
vote_requests [] = []
vote_requests (send to (request_vote m) ∷ rest) = (to, m) ∷ vote_requests rest
vote_requests (a ∷ rest) = vote_requests rest

abbrev pub vote_responses : List Action → List (NodeId × RequestVoteResponse)
vote_responses [] = []
vote_responses (send to (request_vote_response m) ∷ rest) = (to, m) ∷ vote_responses rest
vote_responses (a ∷ rest) = vote_responses rest

abbrev pub sent_entries : List Action → List (NodeId × AppendEntries)
sent_entries [] = []
sent_entries (send to (append_entries m) ∷ rest) = (to, m) ∷ sent_entries rest
sent_entries (a ∷ rest) = sent_entries rest

abbrev pub entries_responses : List Action → List (NodeId × AppendEntriesResponse)
entries_responses [] = []
entries_responses (send to (append_entries_response m) ∷ rest) = (to, m) ∷ entries_responses rest
entries_responses (a ∷ rest) = entries_responses rest

-- `for x in xs { assert!(…) }`, and the first element, where a test expects one.
abbrev pub each : {A : Type 0} → (A → Bool) → List A → Bool
each p [] = true
each p (x ∷ xs) = p x && each p xs

abbrev pub first : {A : Type 0} → List A → (A → Bool) → Bool
first [] p = false
first (x ∷ xs) p = p x

-- `xs[i]`: a test with an index out of range fails.
abbrev pub at : {A : Type 0} → List A → ℕ → (A → Bool) → Bool
at xs i p = map_or false p (get_elem? xs i)

-- A panic in the handler fails the test.
abbrev pub ran : Option (Raft × List Action) → (Raft → List Action → Bool) → Bool
ran none test = false
ran (some p) test = test p.0 p.1

-- `assert_eq!` on `Option<u64>` and on a vector.
abbrev pub is_exactly : Option ℕ → ℕ → Bool
is_exactly o n = map_or false (λ x. x == n) o

abbrev pub are_exactly : List ℕ → List ℕ → Bool
are_exactly [] [] = true
are_exactly (x ∷ xs) (y ∷ ys) = (x == y) && are_exactly xs ys
are_exactly xs ys = false

abbrev pub make_leader : NodeId → List NodeId → Raft
make_leader id peers = record (new id peers) {
  role = leader;
  leader_state = some (record {
    next_index = replicate (length peers) 1;
    match_index = replicate (length peers) 0;
  });
}

abbrev pub create_log_entry : LogIndex → Term → LogEntry
create_log_entry index term = record { index = index; term = term; command = default_command }

abbrev pub push_entry : Raft → LogIndex → Term → Raft
push_entry r index term = with_log r (r.log ++ create_log_entry index term ∷ [])

abbrev pub with_term : Raft → Term → Raft
with_term r term = record r { persistent = record r.persistent { current_term = term } }

abbrev pub with_role : Raft → Role → Raft
with_role r role = record r { role = role }

-- Writes through `raft.leader_state.as_mut().unwrap()`.
abbrev pub with_next_index : Raft → ℕ → LogIndex → Raft
with_next_index r i n = record r {
  leader_state = elim r.leader_state [
    | none ↦ none
    | some ls ↦ some (record ls { next_index = set ls.next_index i n })
  ];
}

abbrev pub with_match_index : Raft → ℕ → LogIndex → Raft
with_match_index r i n = record r {
  leader_state = elim r.leader_state [
    | none ↦ none
    | some ls ↦ some (record ls { match_index = set ls.match_index i n })
  ];
}

abbrev pub next_indices : Raft → List LogIndex
next_indices r = map_or [] (λ ls. ls.next_index) r.leader_state

abbrev pub match_indices : Raft → List LogIndex
match_indices r = map_or [] (λ ls. ls.match_index) r.leader_state

-- A candidate with the votes of `votes_received` and `votes_granted`.
abbrev pub with_votes : Raft → List NodeId → List NodeId → Raft
with_votes r received granted = record r {
  candidate_state = some (record { votes_received = received; votes_granted = granted });
}

abbrev pub granted_votes : Raft → List NodeId
granted_votes r = map_or [] (λ c. c.votes_granted) r.candidate_state

abbrev pub vote_request : Term → NodeId → LogIndex → Term → RequestVote
vote_request term candidate_id last_index last_term = record {
  term = term;
  candidate_id = candidate_id;
  last_log_index = last_index;
  last_log_term = last_term;
}

abbrev pub vote_resp : Term → NodeId → Bool → RequestVoteResponse
vote_resp term from granted = record { term = term; vote_granted = granted; vote_from = from }

abbrev pub create_append_entries :
    Term → NodeId → LogIndex → Term → List LogEntry → LogIndex → AppendEntries
create_append_entries term leader_id prev_index prev_term entries leader_commit = record {
  term = term;
  leader_id = leader_id;
  prev_log_index = prev_index;
  prev_log_term = prev_term;
  entries = entries;
  leader_commit = leader_commit;
}

abbrev pub create_append_entries_response : Term → NodeId → Bool → LogIndex → AppendEntriesResponse
create_append_entries_response term from success match_index = record {
  term = term;
  from = from;
  success = success;
  match_index = match_index;
}
