-- ===== src/Raft/Ballots.antt =====
-- vote.rs: a vote that a node announces is the one that it holds.
use mathlib.Core.Option.{some-injective}
use raft_craft.Prelude.{
  ℕ, zero, suc, ◌≡◌, refl, ap, ◌∙◌, subst, ◌⊎◌, inl, inr, false, List, [], ◌∷◌, map, some, arith,
  length, wrapping_add, Bool-cases, >>=-eq-some, All,
}
use raft_craft.Protocol.{
  NodeId, Command, Action, send, reset_election_timer, reset_heartbeat_timer, persist_state,
  not_leader, apply_command, RequestVote, RequestVoteResponse, AppendEntries, AppendEntriesResponse,
  Message, request_vote, request_vote_response, append_entries, append_entries_response, Event,
  message, election_timeout, heartbeat_timeout, client_request,
}
use raft_craft.Raft.State.{Raft, LeaderState, is_leader, with_last_applied}
use raft_craft.Raft.Vote.{
  catch_up, vote_response, decide_vote, handle_request_vote, count_vote, handle_vote_response,
}
use raft_craft.Raft.Election.{create_vote_action, start_candidacy, handle_election_timeout}
use raft_craft.Raft.AppendEntries.{
  accepted, revert_candidate, apply_loop, apply_committed_entries,
  append_entries_response as append_response, accept_entries, receive_entries,
  handle_append_entries, try_advance_commit_index, record_reply, reply_of_peer,
  handle_append_entries_response,
}
use raft_craft.Raft.Heartbeat.{
  append_entries_from, append_entries_for_peer, handle_heartbeat_timeout,
}
use raft_craft.Raft.Client.{append_command, handle_client_request}
use raft_craft.Raft.Step.{handle_message, step}
use raft_craft.Raft.Durability.{append_entries_for_peer_shape}

-- A granted vote names the sender's term, the sender, and the candidate that it has voted for.
abbrev pub IsHonest : Raft → NodeId → Message → Type 0
IsHonest r to (request_vote_response m) =
    (m.vote_granted ≡ false)
    ⊎ ((m.term ≡ r.current_term) × (m.vote_from ≡ r.id) × (r.voted_for ≡ some to))
IsHonest r to (request_vote m) = Unit {0}
IsHonest r to (append_entries m) = Unit {0}
IsHonest r to (append_entries_response m) = Unit {0}

-- What the actions send.
abbrev pub sends : List Action → List (NodeId × Message)
sends [] = []
sends (send to m ∷ rest) = (to, m) ∷ sends rest
sends (reset_election_timer ∷ rest) = sends rest
sends (reset_heartbeat_timer ∷ rest) = sends rest
sends (persist_state ∷ rest) = sends rest
sends (not_leader id ∷ rest) = sends rest
sends (apply_command c ∷ rest) = sends rest

abbrev pub AllHonest : Raft → List (NodeId × Message) → Type 0
AllHonest r = All (λ x. IsHonest r x.0 x.1)

apply_loop-sends : (todo : ℕ) (r : Raft) → sends (apply_loop todo r).1 ≡ []
unfolding apply_loop
apply_loop-sends zero r = refl
apply_loop-sends (suc todo) r =
    ground (arith, apply_loop-sends todo (with_last_applied r (wrapping_add r.last_applied 1)))

try_advance-sends : (r : Raft) → sends (try_advance_commit_index r).1 ≡ []
unfolding try_advance_commit_index apply_committed_entries
try_advance-sends r = apply_loop-sends _ _

decide_vote-AllHonest :
    (r : Raft) (m : RequestVote) → AllHonest (decide_vote r m).0 (sends (decide_vote r m).1)
unfolding decide_vote vote_response
decide_vote-AllHonest r m = ground arith

pub handle_vote_response-sends :
    (r : Raft) (m : RequestVoteResponse) → sends (handle_vote_response r m).1 ≡ []
unfolding handle_vote_response count_vote
handle_vote_response-sends r m = ground arith

pub apply-sends : (r : Raft) → sends (apply_committed_entries r).1 ≡ []
unfolding apply_committed_entries
apply-sends r = apply_loop-sends _ r

accept_entries-AllHonest :
    (r s : Raft) (m : AppendEntries) → AllHonest s (sends (accept_entries r m).1)
unfolding accept_entries append_response
accept_entries-AllHonest r s m = rw (apply-sends (accepted r m)) (tt, tt)

receive_entries-AllHonest :
    (r s : Raft) (m : AppendEntries) → AllHonest s (sends (receive_entries r m).1)
unfolding receive_entries append_response
receive_entries-AllHonest r s m = ground (arith, accept_entries-AllHonest (revert_candidate r) s m)

vote_requests-AllHonest :
    (r s : Raft) (peers : List NodeId) → AllHonest s (sends (map (create_vote_action r) peers))
unfolding create_vote_action
vote_requests-AllHonest r s [] = tt
vote_requests-AllHonest r s (x ∷ peers) = (tt, vote_requests-AllHonest r s peers)

handle_election_timeout-AllHonest : (r s : Raft) → AllHonest s (sends (handle_election_timeout r).1)
unfolding handle_election_timeout start_candidacy
handle_election_timeout-AllHonest r s =
    ground (arith, vote_requests-AllHonest (start_candidacy r) s r.peers)

record_reply-sends :
    (r : Raft) (ls : LeaderState) (i : ℕ) (m : AppendEntriesResponse) (p : Raft × List Action)
    → record_reply r ls i m ≡ some p
    → sends p.1 ≡ []
unfolding record_reply
record_reply-sends r ls i m p h = grind (arith, try_advance-sends)

reply_of_peer-sends :
    (r : Raft) (m : AppendEntriesResponse) (p : Raft × List Action)
    → reply_of_peer r m ≡ some p
    → sends p.1 ≡ []
unfolding reply_of_peer
reply_of_peer-sends r m p h = grind (arith, record_reply-sends)

pub handle_append_entries_response-sends :
    (r : Raft) (m : AppendEntriesResponse) (p : Raft × List Action)
    → handle_append_entries_response r m ≡ some p
    → sends p.1 ≡ []
unfolding handle_append_entries_response
handle_append_entries_response-sends r m p h = ground (arith, reply_of_peer-sends r m p)

append_entries_from-AllHonest :
    (r s : Raft) (i todo : ℕ) (actions : List Action)
    → append_entries_from r i todo ≡ some actions
    → AllHonest s (sends actions)
unfolding append_entries_from
append_entries_from-AllHonest r s i zero actions h =
    subst (λ a. AllHonest s (sends a)) (some-injective [] actions h) tt
append_entries_from-AllHonest r s i (suc todo) actions h =
    let (a, first, more) = >>=-eq-some (append_entries_for_peer r i) _ h in
    let (rest, later, same) = >>=-eq-some (append_entries_from r (suc i) todo) _ more in
    let (to, next, is_send) = append_entries_for_peer_shape r i a first in
    subst (λ a. AllHonest s (sends a))
      (ap (λ x. x ∷ rest) is_send ∙ some-injective (a ∷ rest) actions same)
      (tt, append_entries_from-AllHonest r s (suc i) todo rest later)

handle_heartbeat_timeout-AllHonest :
    (r s : Raft) (p : Raft × List Action)
    → handle_heartbeat_timeout r ≡ some p
    → AllHonest s (sends p.1)
unfolding handle_heartbeat_timeout
handle_heartbeat_timeout-AllHonest r s p h = elim (Bool-cases (is_leader r.role)) [
  | inl l ↦
      let (actions, made, same) =
        >>=-eq-some (append_entries_from r 0 (length r.peers)) _ (rw l at h) in
      subst (λ (q : Raft × List Action). AllHonest s (sends q.1)) (some-injective _ p same)
        (append_entries_from-AllHonest r s 0 (length r.peers) actions made)
  | inr l ↦
      subst (λ (q : Raft × List Action). AllHonest s (sends q.1)) (some-injective _ p (rw l at h))
        tt
]

pub handle_client_request-sends :
    (r : Raft) (c : Command) → sends (handle_client_request r c).1 ≡ []
unfolding handle_client_request
handle_client_request-sends r c = ground (arith, try_advance-sends (append_command r c))

-- Every granted vote that a step sends carries the term of the new state and its node, and goes
-- to the candidate for which the new state has voted.
pub step-AllHonest :
    (r : Raft) (e : Event) (p : Raft × List Action) → step r e ≡ some p → AllHonest p.0 (sends p.1)
unfolding step handle_message handle_request_vote handle_append_entries
step-AllHonest r (message (request_vote m)) p h =
    ground (arith, decide_vote-AllHonest (catch_up r m.term) m)
step-AllHonest r (message (request_vote_response m)) p h =
    ground (arith, handle_vote_response-sends r m)
step-AllHonest r (message (append_entries m)) p h =
    ground (arith, receive_entries-AllHonest (catch_up r m.term) p.0 m)
step-AllHonest r (message (append_entries_response m)) p h =
    let none_sent = handle_append_entries_response-sends r m p h in rw none_sent tt
step-AllHonest r election_timeout p h = ground (arith, handle_election_timeout-AllHonest r p.0)
step-AllHonest r heartbeat_timeout p h = handle_heartbeat_timeout-AllHonest r p.0 p h
step-AllHonest r (client_request c) p h = ground (arith, handle_client_request-sends r c)
