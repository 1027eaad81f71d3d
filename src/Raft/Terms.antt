-- ===== src/Raft/Terms.antt =====
-- How the term and the vote of a node move: `current_term` and `voted_for` of raft-core/src/lib.rs
-- under every handler.
use raft_craft.Prelude.{
  ℕ, suc, ◌<◌, ◌≡◌, refl, sym, ◌⊎◌, inl, inr, none, some, List, arith, u64_mod, wrapping_add_lem,
}
use raft_craft.Protocol.{
  Term, Action, RequestVote, RequestVoteResponse, AppendEntries, AppendEntriesResponse, Message,
  request_vote, request_vote_response, append_entries, append_entries_response, Event, message,
  election_timeout, heartbeat_timeout, client_request, Command,
}
use raft_craft.Raft.State.{Raft, CandidateState, LeaderState}
use raft_craft.Raft.Vote.{
  step_down, catch_up, become_leader, decide_vote, handle_request_vote, count_vote,
  candidate_state_or_default, handle_vote_response,
}
use raft_craft.Raft.Election.{start_candidacy, handle_election_timeout}
use raft_craft.Raft.AppendEntries.{
  accepted, advance_follower_commit, revert_candidate, accept_entries, receive_entries,
  handle_append_entries, advance_commit_index, try_advance_commit_index, record_reply,
  reply_of_peer, handle_append_entries_response,
}
use raft_craft.Raft.Heartbeat.{handle_heartbeat_timeout}
use raft_craft.Raft.Client.{append_command, handle_client_request}
use raft_craft.Raft.Step.{handle_message, step}
use raft_craft.Raft.Apply.{apply_committed_entries-frame}

-- A later state of the same node: the term has grown, or it is the same and a vote once cast in it
-- stands.
abbrev pub Later : Raft → Raft → Type 0
Later r r' =
    (r.current_term < r'.current_term)
    ⊎ ((r.current_term ≡ r'.current_term) × ((r.voted_for ≡ none) ⊎ (r'.voted_for ≡ r.voted_for)))

-- The same term and vote.
abbrev SameBallot : Raft → Raft → Type 0
SameBallot r r' = (r'.current_term ≡ r.current_term) × (r'.voted_for ≡ r.voted_for)

Later-refl : (r : Raft) → Later r r
Later-refl r = inr (refl, inr refl)

Later-trans : (r s t : Raft) → Later r s → Later s t → Later r t
Later-trans r s t h k = ground arith

Later-same : (r r' : Raft) → SameBallot r r' → Later r r'
Later-same r r' h = inr (sym h.0, inr h.1)

step_down-Later : (r : Raft) (t : Term) → r.current_term < t → Later r (step_down r t)
unfolding step_down
step_down-Later r t h = inl h

catch_up-Later : (r : Raft) (t : Term) → Later r (catch_up r t)
unfolding catch_up
catch_up-Later r t = ground (arith, step_down-Later r t)

decide_vote-Later : (r : Raft) (m : RequestVote) → Later r (decide_vote r m).0
unfolding decide_vote
decide_vote-Later r m = ground arith

handle_request_vote-Later : (r : Raft) (m : RequestVote) → Later r (handle_request_vote r m).0
unfolding handle_request_vote
handle_request_vote-Later r m =
    let r' = catch_up r m.term in
    Later-trans r r' (decide_vote r' m).0 (catch_up-Later r m.term) (decide_vote-Later r' m)

count_vote-SameBallot :
    (r : Raft) (c : CandidateState) (m : RequestVoteResponse) → SameBallot r (count_vote r c m).0
unfolding count_vote become_leader
count_vote-SameBallot r c m = ground arith

handle_vote_response-Later :
    (r : Raft) (m : RequestVoteResponse) → Later r (handle_vote_response r m).0
unfolding handle_vote_response step_down
handle_vote_response-Later r m =
    ground (arith, count_vote-SameBallot r (candidate_state_or_default r) m)

handle_election_timeout-Later :
    (r : Raft) → suc r.current_term < u64_mod → Later r (handle_election_timeout r).0
unfolding handle_election_timeout start_candidacy become_leader
handle_election_timeout-Later r h = ground (arith, wrapping_add_lem r.current_term 1)

try_advance-SameBallot : (r : Raft) → SameBallot r (try_advance_commit_index r).0
unfolding try_advance_commit_index advance_commit_index
try_advance-SameBallot r =
    ground (arith, (apply_committed_entries-frame (advance_commit_index r)).1)

handle_client_request-SameBallot :
    (r : Raft) (c : Command) → SameBallot r (handle_client_request r c).0
unfolding handle_client_request append_command
handle_client_request-SameBallot r c = ground (arith, try_advance-SameBallot (append_command r c))

accept_entries-SameBallot : (r : Raft) (m : AppendEntries) → SameBallot r (accept_entries r m).0
unfolding accept_entries advance_follower_commit
accept_entries-SameBallot r m =
    let r' = accepted r m in ground (arith, (apply_committed_entries-frame r').1)

pub receive_entries-SameBallot :
    (r : Raft) (m : AppendEntries) → SameBallot r (receive_entries r m).0
unfolding receive_entries revert_candidate
receive_entries-SameBallot r m = ground (arith, accept_entries-SameBallot (revert_candidate r) m)

handle_append_entries-Later : (r : Raft) (m : AppendEntries) → Later r (handle_append_entries r m).0
unfolding handle_append_entries
handle_append_entries-Later r m =
    let r' = catch_up r m.term in
    Later-trans r r' (receive_entries r' m).0 (catch_up-Later r m.term)
      (Later-same r' (receive_entries r' m).0 (receive_entries-SameBallot r' m))

record_reply-SameBallot :
    (r : Raft) (ls : LeaderState) (i : ℕ) (m : AppendEntriesResponse) (p : Raft × List Action)
    → record_reply r ls i m ≡ some p
    → SameBallot r p.0
unfolding record_reply
record_reply-SameBallot r ls i m p h = grind (arith, try_advance-SameBallot)

reply_of_peer-SameBallot :
    (r : Raft) (m : AppendEntriesResponse) (p : Raft × List Action)
    → reply_of_peer r m ≡ some p
    → SameBallot r p.0
unfolding reply_of_peer
reply_of_peer-SameBallot r m p h = grind (arith, record_reply-SameBallot)

handle_append_entries_response-Later :
    (r : Raft) (m : AppendEntriesResponse) (p : Raft × List Action)
    → handle_append_entries_response r m ≡ some p
    → Later r p.0
unfolding handle_append_entries_response
handle_append_entries_response-Later r m p h =
    ground (arith, step_down-Later r m.term, reply_of_peer-SameBallot r m p)

pub handle_heartbeat_timeout-same :
    (r : Raft) (p : Raft × List Action) → handle_heartbeat_timeout r ≡ some p → p.0 ≡ r
unfolding handle_heartbeat_timeout
handle_heartbeat_timeout-same r p h = ground arith

handle_message-Later :
    (r : Raft) (m : Message) (p : Raft × List Action) → handle_message r m ≡ some p → Later r p.0
unfolding handle_message
handle_message-Later r (request_vote m) p h = ground (arith, handle_request_vote-Later r m)
handle_message-Later r (request_vote_response m) p h =
    ground (arith, handle_vote_response-Later r m)
handle_message-Later r (append_entries m) p h = ground (arith, handle_append_entries-Later r m)
handle_message-Later r (append_entries_response m) p h =
    handle_append_entries_response-Later r m p h

-- A step never lowers the term of a node, and a vote once cast in a term stands for as long as the
-- term does: no node votes for two candidates in one term. (The term has room to grow.)
pub step-Later :
    (r : Raft) (e : Event) (p : Raft × List Action)
    → suc r.current_term < u64_mod
    → step r e ≡ some p
    → Later r p.0
unfolding step
step-Later r (message m) p fits h = handle_message-Later r m p h
step-Later r election_timeout p fits h = ground (arith, handle_election_timeout-Later r fits)
step-Later r heartbeat_timeout p fits h = ground (arith, handle_heartbeat_timeout-same r p h)
step-Later r (client_request c) p fits h = ground (arith, handle_client_request-SameBallot r c)
