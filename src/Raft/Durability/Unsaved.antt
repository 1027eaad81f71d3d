-- ===== src/Raft/Durability/Unsaved.antt =====
-- raft-core/src/lib.rs against its handlers: which changes of the persistent state are not saved.
use raft_craft.Prelude.{
  ℕ, ◌<◌, ◌≡◌, refl, ap, ◌∙◌, ◌⊎◌, inl, inr, Bool, true, false, List, [], ◌∷◌, none, some, arith,
  ltb, Bool-cases,
}
use raft_craft.Protocol.{
  Term, Command, Action, send, reset_election_timer, reset_heartbeat_timer, persist_state,
  not_leader, apply_command, RequestVote, RequestVoteResponse, AppendEntries, AppendEntriesResponse,
  Message, request_vote, request_vote_response, append_entries, append_entries_response, Event,
  message, election_timeout, heartbeat_timeout, client_request,
}
use raft_craft.Raft.State.{Raft, LeaderState}
use raft_craft.Raft.Vote.{
  step_down, catch_up, become_leader, vote_response, decide_vote, handle_request_vote, count_vote,
  candidate_state_or_default, handle_vote_response,
}
use raft_craft.Raft.Election.{handle_election_timeout}
use raft_craft.Raft.AppendEntries.{
  revert_candidate, accept_entries, receive_entries, handle_append_entries, advance_commit_index,
  try_advance_commit_index, record_reply, reply_of_peer, handle_append_entries_response,
}
use raft_craft.Raft.Client.{handle_client_request}
use raft_craft.Raft.Step.{handle_message, step}
use raft_craft.Raft.Apply.{apply_committed_entries-frame}
use raft_craft.Raft.Terms.{handle_heartbeat_timeout-same}

-- Whether the actions save the persistent state.
abbrev pub saves : List Action → Bool
saves [] = false
saves (persist_state ∷ rest) = true
saves (send to m ∷ rest) = saves rest
saves (reset_election_timer ∷ rest) = saves rest
saves (reset_heartbeat_timer ∷ rest) = saves rest
saves (not_leader id ∷ rest) = saves rest
saves (apply_command c ∷ rest) = saves rest

-- A newer term was taken over: the vote is forgotten and the log is the same.
pub record Raises (r r' : Raft) : Type 0 where
  pub newer : r.current_term < r'.current_term
  pub no_vote : r'.voted_for ≡ none
  pub same_log : r'.log ≡ r.log

-- Saved, unchanged, or raised without being saved.
abbrev pub SavedOrRaised : Raft → Raft × List Action → Type 0
SavedOrRaised r p = (saves p.1 ≡ true) ⊎ ((p.0.persistent ≡ r.persistent) ⊎ Raises r p.0)

-- Saved or unchanged.
abbrev SavedOrSame : Raft → Raft × List Action → Type 0
SavedOrSame r p = (saves p.1 ≡ true) ⊎ (p.0.persistent ≡ r.persistent)

weaken : (r : Raft) (p : Raft × List Action) → SavedOrSame r p → SavedOrRaised r p
weaken r p (inl s) = inl s
weaken r p (inr s) = inr (inl s)

step_down-Raises : (r : Raft) (t : Term) → r.current_term < t → Raises r (step_down r t)
unfolding step_down
step_down-Raises r t h = record { newer = h; no_vote = refl; same_log = refl }

Raises-same : (r s t : Raft) → Raises r s → t.persistent ≡ s.persistent → Raises r t
Raises-same r s t h e = record {
  newer = rw (ap (λ p. p.current_term) e) h.newer;
  no_vote = ap (λ p. p.voted_for) e ∙ h.no_vote;
  same_log = ap (λ p. p.log) e ∙ h.same_log;
}

-- A handler that first takes over a newer term.
after_catch_up :
    (r : Raft) (t : Term) (p : Raft × List Action)
    → SavedOrSame (catch_up r t) p
    → SavedOrRaised r p
after_catch_up r t p (inl s) = inl s
after_catch_up r t p (inr same) = elim (Bool-cases (ltb r.current_term t)) [
  | inl newer ↦
      let down : catch_up r t ≡ step_down r t = unfold catch_up in rw newer refl in
      inr (
        inr (
          Raises-same r (step_down r t) p.0 (step_down-Raises r t (ground arith))
            (same ∙ ap (λ x. x.persistent) down)))
  | inr current ↦
      let stay : catch_up r t ≡ r = unfold catch_up in rw current refl in
      inr (inl (same ∙ ap (λ x. x.persistent) stay))
]

decide_vote-SavedOrSame : (r : Raft) (m : RequestVote) → SavedOrSame r (decide_vote r m)
unfolding decide_vote vote_response
decide_vote-SavedOrSame r m = ground arith

count_vote-SavedOrSame :
    (r : Raft) (m : RequestVoteResponse)
    → SavedOrSame r (count_vote r (candidate_state_or_default r) m)
unfolding count_vote become_leader
count_vote-SavedOrSame r m = ground arith

handle_vote_response-SavedOrRaised :
    (r : Raft) (m : RequestVoteResponse) → SavedOrRaised r (handle_vote_response r m)
unfolding handle_vote_response
handle_vote_response-SavedOrRaised r m = ground (
  arith,
  step_down-Raises r m.term,
  weaken r (count_vote r (candidate_state_or_default r) m) (count_vote-SavedOrSame r m),
)

receive_entries-SavedOrSame : (r : Raft) (m : AppendEntries) → SavedOrSame r (receive_entries r m)
unfolding receive_entries revert_candidate accept_entries
receive_entries-SavedOrSame r m = ground arith

try_advance-SavedOrSame : (r : Raft) → SavedOrSame r (try_advance_commit_index r)
unfolding try_advance_commit_index advance_commit_index
try_advance-SavedOrSame r = inr (
    ap (λ x. x.persistent) (apply_committed_entries-frame (advance_commit_index r)).1
    ∙ ground arith)

record_reply-same :
    (r : Raft) (ls : LeaderState) (i : ℕ) (m : AppendEntriesResponse) (p : Raft × List Action)
    → record_reply r ls i m ≡ some p
    → SavedOrSame r p
unfolding record_reply
record_reply-same r ls i m p h = grind (arith, try_advance-SavedOrSame)

reply_of_peer-same :
    (r : Raft) (m : AppendEntriesResponse) (p : Raft × List Action)
    → reply_of_peer r m ≡ some p
    → SavedOrSame r p
unfolding reply_of_peer
reply_of_peer-same r m p h = grind (arith, record_reply-same)

handle_append_entries_response-SavedOrRaised :
    (r : Raft) (m : AppendEntriesResponse) (p : Raft × List Action)
    → handle_append_entries_response r m ≡ some p
    → SavedOrRaised r p
unfolding handle_append_entries_response
handle_append_entries_response-SavedOrRaised r m p h =
    ground (arith, step_down-Raises r m.term, reply_of_peer-same r m p)

handle_election_timeout-SavedOrSame : (r : Raft) → SavedOrSame r (handle_election_timeout r)
unfolding handle_election_timeout
handle_election_timeout-SavedOrSame r = ground arith

handle_client_request-SavedOrSame :
    (r : Raft) (c : Command) → SavedOrSame r (handle_client_request r c)
unfolding handle_client_request
handle_client_request-SavedOrSame r c = ground arith

handle_message-SavedOrRaised :
    (r : Raft) (m : Message) (p : Raft × List Action)
    → handle_message r m ≡ some p
    → SavedOrRaised r p
unfolding handle_message handle_request_vote handle_append_entries
handle_message-SavedOrRaised r (request_vote m) p h = ground (
  arith,
  after_catch_up r m.term (decide_vote (catch_up r m.term) m)
      (decide_vote-SavedOrSame (catch_up r m.term) m),
)
handle_message-SavedOrRaised r (request_vote_response m) p h =
    ground (arith, handle_vote_response-SavedOrRaised r m)
handle_message-SavedOrRaised r (append_entries m) p h = ground (
  arith,
  after_catch_up r m.term (receive_entries (catch_up r m.term) m)
      (receive_entries-SavedOrSame (catch_up r m.term) m),
)
handle_message-SavedOrRaised r (append_entries_response m) p h =
    handle_append_entries_response-SavedOrRaised r m p h

-- Whatever the event, a step saves the persistent state, or leaves it as it was, or does no more
-- to it than to take over a newer term, with no vote in it and the same log.
pub step-SavedOrRaised :
    (r : Raft) (e : Event) (p : Raft × List Action) → step r e ≡ some p → SavedOrRaised r p
unfolding step
step-SavedOrRaised r (message m) p h = handle_message-SavedOrRaised r m p h
step-SavedOrRaised r election_timeout p h = ground (arith, handle_election_timeout-SavedOrSame r)
step-SavedOrRaised r heartbeat_timeout p h =
    inr (inl (ap (λ x. x.persistent) (handle_heartbeat_timeout-same r p h)))
step-SavedOrRaised r (client_request c) p h = ground (arith, handle_client_request-SavedOrSame r c)
