-- ===== src/Raft/Durability/Early.antt =====
-- raft-core/src/raft: no message is sent before the save of the same step.
use mathlib.Core.Option.{some-injective}
use raft_craft.Prelude.{
  ℕ, zero, suc, ◌≡◌, refl, ap, ◌∙◌, subst, inl, inr, true, false, length, List, [], ◌∷◌, ◌++◌, some,
  arith, Bool-cases, wrapping_add, >>=-eq-some,
}
use raft_craft.Protocol.{
  Command, Action, send, reset_election_timer, reset_heartbeat_timer, persist_state, not_leader,
  apply_command, RequestVote, RequestVoteResponse, AppendEntries, AppendEntriesResponse,
  request_vote, request_vote_response, append_entries, append_entries_response, Event, message,
  election_timeout, heartbeat_timeout, client_request,
}
use raft_craft.Raft.State.{Raft, LeaderState, is_leader, with_last_applied}
use raft_craft.Raft.Vote.{
  catch_up, vote_response, decide_vote, handle_request_vote, count_vote, handle_vote_response,
}
use raft_craft.Raft.Election.{handle_election_timeout}
use raft_craft.Raft.AppendEntries.{
  apply_loop, apply_committed_entries, append_entries_response as append_response, accept_entries,
  receive_entries, handle_append_entries, try_advance_commit_index, record_reply, reply_of_peer,
  handle_append_entries_response,
}
use raft_craft.Raft.Heartbeat.{
  append_entries_from, append_entries_for_peer, handle_heartbeat_timeout,
}
use raft_craft.Raft.Client.{handle_client_request}
use raft_craft.Raft.Step.{handle_message, step}
use raft_craft.Raft.Ballots.{sends}
use raft_craft.Raft.Durability.{append_entries_for_peer_shape}
use raft_craft.Raft.Durability.Unsaved.{saves}

-- A message that is sent has every save of the list before it.
abbrev pub SavesEarly : List Action → Type 0
SavesEarly [] = Unit {0}
SavesEarly (persist_state ∷ rest) = Unit {0}
SavesEarly (send to m ∷ rest) = saves rest ≡ false
SavesEarly (reset_election_timer ∷ rest) = SavesEarly rest
SavesEarly (reset_heartbeat_timer ∷ rest) = SavesEarly rest
SavesEarly (not_leader id ∷ rest) = SavesEarly rest
SavesEarly (apply_command c ∷ rest) = SavesEarly rest

unsaved-SavesEarly : (acts : List Action) → saves acts ≡ false → SavesEarly acts
unsaved-SavesEarly [] h = tt
unsaved-SavesEarly (persist_state ∷ rest) h = tt
unsaved-SavesEarly (send to m ∷ rest) h = h
unsaved-SavesEarly (reset_election_timer ∷ rest) h = unsaved-SavesEarly rest h
unsaved-SavesEarly (reset_heartbeat_timer ∷ rest) h = unsaved-SavesEarly rest h
unsaved-SavesEarly (not_leader id ∷ rest) h = unsaved-SavesEarly rest h
unsaved-SavesEarly (apply_command c ∷ rest) h = unsaved-SavesEarly rest h

apply_loop-saves : (todo : ℕ) (r : Raft) → saves (apply_loop todo r).1 ≡ false
unfolding apply_loop
apply_loop-saves zero r = refl
apply_loop-saves (suc todo) r =
    ground (arith, apply_loop-saves todo (with_last_applied r (wrapping_add r.last_applied 1)))

try_advance-saves : (r : Raft) → saves (try_advance_commit_index r).1 ≡ false
unfolding try_advance_commit_index apply_committed_entries
try_advance-saves r = apply_loop-saves _ _

decide_vote-SavesEarly : (r : Raft) (m : RequestVote) → SavesEarly (decide_vote r m).1
unfolding decide_vote vote_response
decide_vote-SavesEarly r m = ground arith

handle_vote_response-SavesEarly :
    (r : Raft) (m : RequestVoteResponse) → SavesEarly (handle_vote_response r m).1
unfolding handle_vote_response count_vote
handle_vote_response-SavesEarly r m = ground arith

receive_entries-SavesEarly : (r : Raft) (m : AppendEntries) → SavesEarly (receive_entries r m).1
unfolding receive_entries accept_entries append_response
receive_entries-SavesEarly r m = ground arith

handle_election_timeout-SavesEarly : (r : Raft) → SavesEarly (handle_election_timeout r).1
unfolding handle_election_timeout
handle_election_timeout-SavesEarly r = ground arith

handle_client_request-SavesEarly :
    (r : Raft) (c : Command) → SavesEarly (handle_client_request r c).1
unfolding handle_client_request
handle_client_request-SavesEarly r c = ground arith

record_reply-saves :
    (r : Raft) (ls : LeaderState) (i : ℕ) (m : AppendEntriesResponse) (p : Raft × List Action)
    → record_reply r ls i m ≡ some p
    → saves p.1 ≡ false
unfolding record_reply
record_reply-saves r ls i m p h = grind (arith, try_advance-saves)

reply_of_peer-saves :
    (r : Raft) (m : AppendEntriesResponse) (p : Raft × List Action)
    → reply_of_peer r m ≡ some p
    → saves p.1 ≡ false
unfolding reply_of_peer
reply_of_peer-saves r m p h = grind (arith, record_reply-saves)

handle_append_entries_response-saves :
    (r : Raft) (m : AppendEntriesResponse) (p : Raft × List Action)
    → handle_append_entries_response r m ≡ some p
    → saves p.1 ≡ false
unfolding handle_append_entries_response
handle_append_entries_response-saves r m p h = ground (arith, reply_of_peer-saves r m p)

append_entries_from-saves :
    (r : Raft) (i todo : ℕ) (actions : List Action)
    → append_entries_from r i todo ≡ some actions
    → saves actions ≡ false
unfolding append_entries_from
append_entries_from-saves r i zero actions h =
    subst (λ l. saves l ≡ false) (some-injective [] actions h) refl
append_entries_from-saves r i (suc todo) actions h =
    let (a, first, more) = >>=-eq-some (append_entries_for_peer r i) _ h in
    let (rest, later, same) = >>=-eq-some (append_entries_from r (suc i) todo) _ more in
    let (to, next, is_send) = append_entries_for_peer_shape r i a first in
    subst (λ l. saves l ≡ false)
      (ap (λ x. x ∷ rest) is_send ∙ some-injective (a ∷ rest) actions same)
      (append_entries_from-saves r (suc i) todo rest later)

handle_heartbeat_timeout-saves :
    (r : Raft) (p : Raft × List Action) → handle_heartbeat_timeout r ≡ some p → saves p.1 ≡ false
unfolding handle_heartbeat_timeout
handle_heartbeat_timeout-saves r p h = elim (Bool-cases (is_leader r.role)) [
  | inl l ↦
      let (actions, made, same) =
        >>=-eq-some (append_entries_from r 0 (length r.peers)) _ (rw l at h) in
      subst (λ (q : Raft × List Action). saves q.1 ≡ false) (some-injective _ p same)
        (append_entries_from-saves r 0 (length r.peers) actions made)
  | inr l ↦
      subst (λ (q : Raft × List Action). saves q.1 ≡ false) (some-injective _ p (rw l at h)) refl
]

-- Whatever the event, the save comes before every message.
pub step-SavesEarly :
    (r : Raft) (e : Event) (p : Raft × List Action) → step r e ≡ some p → SavesEarly p.1
unfolding step handle_message handle_request_vote handle_append_entries
step-SavesEarly r (message (request_vote m)) p h =
    ground (arith, decide_vote-SavesEarly (catch_up r m.term) m)
step-SavesEarly r (message (request_vote_response m)) p h =
    ground (arith, handle_vote_response-SavesEarly r m)
step-SavesEarly r (message (append_entries m)) p h =
    ground (arith, receive_entries-SavesEarly (catch_up r m.term) m)
step-SavesEarly r (message (append_entries_response m)) p h =
    unsaved-SavesEarly p.1 (handle_append_entries_response-saves r m p h)
step-SavesEarly r election_timeout p h = ground (arith, handle_election_timeout-SavesEarly r)
step-SavesEarly r heartbeat_timeout p h =
    unsaved-SavesEarly p.1 (handle_heartbeat_timeout-saves r p h)
step-SavesEarly r (client_request c) p h = ground (arith, handle_client_request-SavesEarly r c)

-- What is done before the save is silent.
pub SavesEarly-silent :
    (acts rest : List Action)
    → SavesEarly (acts ++ rest)
    → saves acts ≡ false
    → saves (acts ++ rest) ≡ true
    → sends acts ≡ []
SavesEarly-silent [] rest s a b = refl
SavesEarly-silent (persist_state ∷ acts) rest s a b = cc
SavesEarly-silent (send to m ∷ acts) rest s a b = cc
SavesEarly-silent (reset_election_timer ∷ acts) rest s a b = SavesEarly-silent acts rest s a b
SavesEarly-silent (reset_heartbeat_timer ∷ acts) rest s a b = SavesEarly-silent acts rest s a b
SavesEarly-silent (not_leader id ∷ acts) rest s a b = SavesEarly-silent acts rest s a b
SavesEarly-silent (apply_command c ∷ acts) rest s a b = SavesEarly-silent acts rest s a b
