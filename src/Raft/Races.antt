-- ===== src/Raft/Races.antt =====
-- How the role of a node and the votes it has gathered move, under the handlers that do not count
-- votes: raft-core/src/lib.rs, `Raft`.
use raft_craft.Prelude.{◌≡◌, refl, ◌⊎◌, inr, List, some, arith, ℕ}
use raft_craft.Protocol.{
  Command, Term, Action, RequestVote, RequestVoteResponse, AppendEntries, AppendEntriesResponse,
  request_vote, request_vote_response, append_entries, append_entries_response, Event, message,
  election_timeout, heartbeat_timeout, client_request,
}
use raft_craft.Raft.State.{Raft, LeaderState, follower, with_last_applied}
use raft_craft.Raft.Vote.{
  step_down, catch_up, become_leader, decide_vote, handle_request_vote, count_vote,
  handle_vote_response,
}
use raft_craft.Raft.Election.{start_candidacy, handle_election_timeout}
use raft_craft.Raft.AppendEntries.{
  accepted, advance_follower_commit, revert_candidate, accept_entries, receive_entries,
  handle_append_entries, advance_commit_index, try_advance_commit_index, record_reply,
  reply_of_peer, handle_append_entries_response,
}
use raft_craft.Raft.Client.{append_command, handle_client_request}
use raft_craft.Raft.Step.{handle_message, step}
use raft_craft.Raft.Apply.{apply_committed_entries-frame}
use raft_craft.Raft.Terms.{handle_heartbeat_timeout-same}

abbrev pub SameIdentity : Raft → Raft → Type 0
SameIdentity r r' = (r'.id ≡ r.id) × (r'.peers ≡ r.peers)

-- The same node, and the same race: role, term and votes gathered.
abbrev pub SameRace : Raft → Raft → Type 0
SameRace r r' =
    (r'.role ≡ r.role)
    × (r'.candidate_state ≡ r.candidate_state)
    × (r'.current_term ≡ r.current_term)

-- The node has become follower, or its race is the same.
abbrev pub Retires : Raft → Raft → Type 0
Retires r r' = SameIdentity r r' × ((r'.role ≡ follower) ⊎ SameRace r r')

Retires-trans : (r s t : Raft) → Retires r s → Retires s t → Retires r t
Retires-trans r s t h k = ground arith

catch_up-Retires : (r : Raft) (t : Term) → Retires r (catch_up r t)
unfolding catch_up step_down
catch_up-Retires r t = ground arith

decide_vote-Retires : (r : Raft) (m : RequestVote) → Retires r (decide_vote r m).0
unfolding decide_vote
decide_vote-Retires r m = ground arith

pub handle_request_vote-Retires :
    (r : Raft) (m : RequestVote) → Retires r (handle_request_vote r m).0
unfolding handle_request_vote
handle_request_vote-Retires r m =
    let r' = catch_up r m.term in
    Retires-trans r r' (decide_vote r' m).0 (catch_up-Retires r m.term) (decide_vote-Retires r' m)

apply-Retires : (r s : Raft) (n : ℕ) → s ≡ with_last_applied r n → Retires r s
apply-Retires r s n e = rw e ((refl, refl), inr (refl, refl, refl))

pub try_advance-Retires : (r : Raft) → Retires r (try_advance_commit_index r).0
unfolding try_advance_commit_index advance_commit_index
try_advance-Retires r =
    let r' = advance_commit_index r in
    let (n, e) = apply_committed_entries-frame r' in
    Retires-trans r r' (try_advance_commit_index r).0 (ground arith) (apply-Retires r' _ n e)

revert_candidate-Retires : (r : Raft) → Retires r (revert_candidate r)
unfolding revert_candidate
revert_candidate-Retires r = ground arith

accept_entries-Retires : (r : Raft) (m : AppendEntries) → Retires r (accept_entries r m).0
unfolding accept_entries advance_follower_commit
accept_entries-Retires r m =
    let r' = accepted r m in
    let (n, e) = apply_committed_entries-frame r' in
    Retires-trans r r' (accept_entries r m).0 (ground arith) (apply-Retires r' _ n e)

receive_entries-Retires : (r : Raft) (m : AppendEntries) → Retires r (receive_entries r m).0
unfolding receive_entries
receive_entries-Retires r m =
    let r' = revert_candidate r in
    let done =
      Retires-trans r r' (accept_entries r' m).0 (revert_candidate-Retires r)
        (accept_entries-Retires r' m) in
    ground (arith, revert_candidate-Retires r, done)

pub handle_append_entries-Retires :
    (r : Raft) (m : AppendEntries) → Retires r (handle_append_entries r m).0
unfolding handle_append_entries
handle_append_entries-Retires r m =
    let r' = catch_up r m.term in
    Retires-trans r r' (receive_entries r' m).0 (catch_up-Retires r m.term)
      (receive_entries-Retires r' m)

record_reply-Retires :
    (r : Raft) (ls : LeaderState) (i : ℕ) (m : AppendEntriesResponse) (p : Raft × List Action)
    → record_reply r ls i m ≡ some p
    → Retires r p.0
unfolding record_reply
record_reply-Retires r ls i m p h = grind (arith, try_advance-Retires)

reply_of_peer-Retires :
    (r : Raft) (m : AppendEntriesResponse) (p : Raft × List Action)
    → reply_of_peer r m ≡ some p
    → Retires r p.0
unfolding reply_of_peer
reply_of_peer-Retires r m p h = grind (arith, record_reply-Retires)

pub handle_append_entries_response-Retires :
    (r : Raft) (m : AppendEntriesResponse) (p : Raft × List Action)
    → handle_append_entries_response r m ≡ some p
    → Retires r p.0
unfolding handle_append_entries_response step_down
handle_append_entries_response-Retires r m p h = ground (arith, reply_of_peer-Retires r m p)

pub handle_client_request-Retires :
    (r : Raft) (c : Command) → Retires r (handle_client_request r c).0
unfolding handle_client_request append_command
handle_client_request-Retires r c = ground (arith, try_advance-Retires (append_command r c))

handle_vote_response-SameIdentity :
    (r : Raft) (m : RequestVoteResponse) → SameIdentity r (handle_vote_response r m).0
unfolding handle_vote_response count_vote become_leader step_down
handle_vote_response-SameIdentity r m = ground arith

handle_election_timeout-SameIdentity : (r : Raft) → SameIdentity r (handle_election_timeout r).0
unfolding handle_election_timeout start_candidacy become_leader
handle_election_timeout-SameIdentity r = ground arith

-- A step changes neither the id of a node nor its peers.
pub step-SameIdentity :
    (r : Raft) (e : Event) (p : Raft × List Action) → step r e ≡ some p → SameIdentity r p.0
unfolding step handle_message
step-SameIdentity r (message (request_vote m)) p h = ground (arith, handle_request_vote-Retires r m)
step-SameIdentity r (message (request_vote_response m)) p h =
    ground (arith, handle_vote_response-SameIdentity r m)
step-SameIdentity r (message (append_entries m)) p h =
    ground (arith, handle_append_entries-Retires r m)
step-SameIdentity r (message (append_entries_response m)) p h =
    (handle_append_entries_response-Retires r m p h).0
step-SameIdentity r election_timeout p h = ground (arith, handle_election_timeout-SameIdentity r)
step-SameIdentity r heartbeat_timeout p h =
    let e = handle_heartbeat_timeout-same r p h in rw e (refl, refl)
step-SameIdentity r (client_request c) p h = ground (arith, handle_client_request-Retires r c)
