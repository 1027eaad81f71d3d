-- ===== src/Raft/Durability.antt =====
-- `Action::PersistState` against what it protects: raft-core/src/lib.rs asks that the persistent
-- state is saved before a reply that rests on it.
pub mod Unsaved
pub mod Early
use raft_craft.Prelude.{
  ℕ, zero, suc, ◌≡◌, refl, ◌∙◌, ap, subst, length, get_elem?, >>=-eq-some, inl, inr, Bool, true,
  false, List, [], ◌∷◌, some, arith, Bool-cases, wrapping_add,
}
use raft_craft.Protocol.{
  LogIndex, NodeId, Action, send, reset_election_timer, reset_heartbeat_timer, persist_state,
  not_leader, apply_command, RequestVote, RequestVoteResponse, AppendEntries, AppendEntriesResponse,
  Message, request_vote, request_vote_response, append_entries, append_entries_response, Event,
  message, election_timeout, heartbeat_timeout, client_request, Command,
}
use raft_craft.Raft.State.{Raft, LeaderState, is_leader, with_last_applied}
use raft_craft.Raft.Vote.{
  catch_up, vote_response, decide_vote, handle_request_vote, count_vote, handle_vote_response,
}
use raft_craft.Raft.Election.{handle_election_timeout}
use raft_craft.Raft.AppendEntries.{
  apply_loop, apply_committed_entries, append_entries_response as append_response, accept_entries,
  receive_entries, handle_append_entries, try_advance_commit_index, record_reply, reply_of_peer,
  handle_append_entries_response,
}
use mathlib.Core.Option.{some-injective}
use raft_craft.Raft.Heartbeat.{
  next_index_of, append_entries_msg, append_entries_for_peer, append_entries_from,
  handle_heartbeat_timeout,
}
use raft_craft.Raft.Client.{handle_client_request}
use raft_craft.Raft.Step.{handle_message, step}

-- The messages by which a node commits itself: a request for votes in a new term, a vote, and the
-- confirmation that entries are stored.
abbrev pub promises : Message → Bool
promises (request_vote m) = true
promises (request_vote_response m) = m.vote_granted
promises (append_entries m) = false
promises (append_entries_response m) = m.success

-- Every such message stands behind a `persist_state`.
abbrev pub PersistsFirst : List Action → Type 0
PersistsFirst [] = Unit {0}
PersistsFirst (persist_state ∷ rest) = Unit {0}
PersistsFirst (send to m ∷ rest) = (promises m ≡ false) × PersistsFirst rest
PersistsFirst (reset_election_timer ∷ rest) = PersistsFirst rest
PersistsFirst (reset_heartbeat_timer ∷ rest) = PersistsFirst rest
PersistsFirst (not_leader id ∷ rest) = PersistsFirst rest
PersistsFirst (apply_command c ∷ rest) = PersistsFirst rest

apply_loop-PersistsFirst : (todo : ℕ) (r : Raft) → PersistsFirst (apply_loop todo r).1
unfolding apply_loop
apply_loop-PersistsFirst zero r = tt
apply_loop-PersistsFirst (suc todo) r =
    ground
      (arith, apply_loop-PersistsFirst todo (with_last_applied r (wrapping_add r.last_applied 1)))

try_advance-PersistsFirst : (r : Raft) → PersistsFirst (try_advance_commit_index r).1
unfolding try_advance_commit_index apply_committed_entries
try_advance-PersistsFirst r = apply_loop-PersistsFirst _ _

decide_vote-PersistsFirst : (r : Raft) (m : RequestVote) → PersistsFirst (decide_vote r m).1
unfolding decide_vote vote_response
decide_vote-PersistsFirst r m = ground arith

handle_vote_response-PersistsFirst :
    (r : Raft) (m : RequestVoteResponse) → PersistsFirst (handle_vote_response r m).1
unfolding handle_vote_response count_vote
handle_vote_response-PersistsFirst r m = ground arith

receive_entries-PersistsFirst :
    (r : Raft) (m : AppendEntries) → PersistsFirst (receive_entries r m).1
unfolding receive_entries accept_entries append_response
receive_entries-PersistsFirst r m = ground arith

handle_election_timeout-PersistsFirst : (r : Raft) → PersistsFirst (handle_election_timeout r).1
unfolding handle_election_timeout
handle_election_timeout-PersistsFirst r = ground arith

record_reply-PersistsFirst :
    (r : Raft) (ls : LeaderState) (i : ℕ) (m : AppendEntriesResponse) (p : Raft × List Action)
    → record_reply r ls i m ≡ some p
    → PersistsFirst p.1
unfolding record_reply
record_reply-PersistsFirst r ls i m p h = grind (arith, try_advance-PersistsFirst)

reply_of_peer-PersistsFirst :
    (r : Raft) (m : AppendEntriesResponse) (p : Raft × List Action)
    → reply_of_peer r m ≡ some p
    → PersistsFirst p.1
unfolding reply_of_peer
reply_of_peer-PersistsFirst r m p h = grind (arith, record_reply-PersistsFirst)

handle_append_entries_response-PersistsFirst :
    (r : Raft) (m : AppendEntriesResponse) (p : Raft × List Action)
    → handle_append_entries_response r m ≡ some p
    → PersistsFirst p.1
unfolding handle_append_entries_response
handle_append_entries_response-PersistsFirst r m p h =
    ground (arith, reply_of_peer-PersistsFirst r m p)

pub append_entries_for_peer_shape :
    (r : Raft) (i : ℕ) (a : Action)
    → append_entries_for_peer r i ≡ some a
    → (to : NodeId) × (next : LogIndex) × (send to (append_entries (append_entries_msg r next)) ≡ a)
unfolding append_entries_for_peer
append_entries_for_peer_shape r i a h =
    let (to, at, rest) = >>=-eq-some (get_elem? r.peers i) _ h in
    let (next, from, same) = >>=-eq-some (next_index_of r.leader_state i) _ rest in
    (to, next, some-injective _ _ same)

append_entries_from-PersistsFirst :
    (r : Raft) (i todo : ℕ) (actions : List Action)
    → append_entries_from r i todo ≡ some actions
    → PersistsFirst actions
unfolding append_entries_from
append_entries_from-PersistsFirst r i zero actions h =
    subst PersistsFirst (some-injective [] actions h) tt
append_entries_from-PersistsFirst r i (suc todo) actions h =
    let (a, first, more) = >>=-eq-some (append_entries_for_peer r i) _ h in
    let (rest, later, same) = >>=-eq-some (append_entries_from r (suc i) todo) _ more in
    let (to, next, is_send) = append_entries_for_peer_shape r i a first in
    subst PersistsFirst (ap (λ x. x ∷ rest) is_send ∙ some-injective (a ∷ rest) actions same)
      (refl, append_entries_from-PersistsFirst r (suc i) todo rest later)

handle_heartbeat_timeout-PersistsFirst :
    (r : Raft) (p : Raft × List Action) → handle_heartbeat_timeout r ≡ some p → PersistsFirst p.1
unfolding handle_heartbeat_timeout
handle_heartbeat_timeout-PersistsFirst r p h = elim (Bool-cases (is_leader r.role)) [
  | inl l ↦
      let (actions, made, same) =
        >>=-eq-some (append_entries_from r 0 (length r.peers)) _ (rw l at h) in
      subst (λ (q : Raft × List Action). PersistsFirst q.1) (some-injective _ p same)
        (append_entries_from-PersistsFirst r 0 (length r.peers) actions made)
  | inr l ↦
      subst (λ (q : Raft × List Action). PersistsFirst q.1) (some-injective _ p (rw l at h)) tt
]

handle_client_request-PersistsFirst :
    (r : Raft) (c : Command) → PersistsFirst (handle_client_request r c).1
unfolding handle_client_request
handle_client_request-PersistsFirst r c = ground arith

handle_message-PersistsFirst :
    (r : Raft) (m : Message) (p : Raft × List Action)
    → handle_message r m ≡ some p
    → PersistsFirst p.1
unfolding handle_message handle_request_vote handle_append_entries
handle_message-PersistsFirst r (request_vote m) p h =
    ground (arith, decide_vote-PersistsFirst (catch_up r m.term) m)
handle_message-PersistsFirst r (request_vote_response m) p h =
    ground (arith, handle_vote_response-PersistsFirst r m)
handle_message-PersistsFirst r (append_entries m) p h =
    ground (arith, receive_entries-PersistsFirst (catch_up r m.term) m)
handle_message-PersistsFirst r (append_entries_response m) p h =
    handle_append_entries_response-PersistsFirst r m p h

-- Whatever the event, the actions of a step save the persistent state before the first message that
-- commits the node: a request for votes, a granted vote, or the confirmation of entries.
pub step-PersistsFirst :
    (r : Raft) (e : Event) (p : Raft × List Action) → step r e ≡ some p → PersistsFirst p.1
unfolding step
step-PersistsFirst r (message m) p h = handle_message-PersistsFirst r m p h
step-PersistsFirst r election_timeout p h = ground (arith, handle_election_timeout-PersistsFirst r)
step-PersistsFirst r heartbeat_timeout p h = handle_heartbeat_timeout-PersistsFirst r p h
step-PersistsFirst r (client_request c) p h =
    ground (arith, handle_client_request-PersistsFirst r c)
