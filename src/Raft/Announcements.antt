-- ===== src/Raft/Announcements.antt =====
-- heartbeat.rs: which AppendEntries a node sends.
use mathlib.Core.Option.{some-injective}
use raft_craft.Prelude.{
  ℕ, zero, suc, ◌≤◌, ◌≡◌, refl, ap, ◌∙◌, subst, ◌⊎◌, inl, inr, true, List, [], ◌∷◌, map, some,
  arith, All, get_elem?, length, drop, Bool-cases, >>=-eq-some,
}
use native.Mathlib.Decide.{dec_le}
use raft_craft.Protocol.{
  NodeId, LogEntry, LogIndex, Action, RequestVote, AppendEntries, Message, request_vote,
  request_vote_response, append_entries, append_entries_response, Event, message, election_timeout,
  heartbeat_timeout, client_request,
}
use raft_craft.Raft.State.{Raft, is_leader}
use raft_craft.Raft.Vote.{catch_up, vote_response, decide_vote, handle_request_vote}
use raft_craft.Raft.Election.{create_vote_action, start_candidacy, handle_election_timeout}
use raft_craft.Raft.AppendEntries.{
  accepted, revert_candidate, append_entries_response as append_response, accept_entries,
  receive_entries, handle_append_entries,
}
use raft_craft.Raft.Heartbeat.{
  prev_log_info, append_entries_msg, next_index_of, append_entries_from, append_entries_for_peer,
  handle_heartbeat_timeout,
}
use raft_craft.Raft.Step.{handle_message, step}
use raft_craft.Raft.Ballots.{
  sends, apply-sends, handle_vote_response-sends, handle_append_entries_response-sends,
  handle_client_request-sends,
}
use raft_craft.Raft.Log.Numbered.{IsNumbered, filter_all}
use raft_craft.Raft.Log.Merge.{take_all}
use raft_craft.Raft.Replication.{term_at, append_entries_msg_lem}

-- The message is one of a leader to its peer, about its log.
abbrev pub IsOwn : Raft → NodeId → Message → Type 0
IsOwn r to (append_entries m) =
    (next : LogIndex) × (is_leader r.role ≡ true)
    × (peer : ℕ) × (get_elem? r.peers peer ≡ some to)
    × (m ≡ append_entries_msg r next)
IsOwn r to (request_vote m) = Unit {0}
IsOwn r to (request_vote_response m) = Unit {0}
IsOwn r to (append_entries_response m) = Unit {0}

abbrev pub AllOwn : Raft → List (NodeId × Message) → Type 0
AllOwn r = All (λ x. IsOwn r x.0 x.1)

decide_vote-AllOwn : (r s : Raft) (m : RequestVote) → AllOwn s (sends (decide_vote r m).1)
unfolding decide_vote vote_response
decide_vote-AllOwn r s m = ground arith

accept_entries-AllOwn : (r s : Raft) (m : AppendEntries) → AllOwn s (sends (accept_entries r m).1)
unfolding accept_entries append_response
accept_entries-AllOwn r s m = rw (apply-sends (accepted r m)) (tt, tt)

receive_entries-AllOwn : (r s : Raft) (m : AppendEntries) → AllOwn s (sends (receive_entries r m).1)
unfolding receive_entries append_response
receive_entries-AllOwn r s m = ground (arith, accept_entries-AllOwn (revert_candidate r) s m)

vote_requests-AllOwn :
    (r s : Raft) (peers : List NodeId) → AllOwn s (sends (map (create_vote_action r) peers))
unfolding create_vote_action
vote_requests-AllOwn r s [] = tt
vote_requests-AllOwn r s (x ∷ peers) = (tt, vote_requests-AllOwn r s peers)

handle_election_timeout-AllOwn : (r s : Raft) → AllOwn s (sends (handle_election_timeout r).1)
unfolding handle_election_timeout start_candidacy
handle_election_timeout-AllOwn r s =
    ground (arith, vote_requests-AllOwn (start_candidacy r) s r.peers)

append_entries_from-AllOwn :
    (r : Raft) (i todo : ℕ) (actions : List Action)
    → is_leader r.role ≡ true
    → append_entries_from r i todo ≡ some actions
    → AllOwn r (sends actions)
unfolding append_entries_from append_entries_for_peer
append_entries_from-AllOwn r i zero actions l h =
    subst (λ a. AllOwn r (sends a)) (some-injective [] actions h) tt
append_entries_from-AllOwn r i (suc todo) actions l h =
    let (a, first, more) = >>=-eq-some (append_entries_for_peer r i) _ h in
    let (to, found, made) = >>=-eq-some (get_elem? r.peers i) _ first in
    let (next, _, is_send) = >>=-eq-some (next_index_of r.leader_state i) _ made in
    let (rest, later, same) = >>=-eq-some (append_entries_from r (suc i) todo) _ more in
    subst (λ a. AllOwn r (sends a))
      (ap (λ x. x ∷ rest) (some-injective _ a is_send) ∙ some-injective (a ∷ rest) actions same)
      ((next, l, i, found, refl), append_entries_from-AllOwn r (suc i) todo rest l later)

handle_heartbeat_timeout-AllOwn :
    (r : Raft) (p : Raft × List Action)
    → handle_heartbeat_timeout r ≡ some p
    → AllOwn p.0 (sends p.1)
unfolding handle_heartbeat_timeout
handle_heartbeat_timeout-AllOwn r p h = elim (Bool-cases (is_leader r.role)) [
  | inl l ↦
      let (actions, made, same) =
        >>=-eq-some (append_entries_from r 0 (length r.peers)) _ (rw l at h) in
      subst (λ (q : Raft × List Action). AllOwn q.0 (sends q.1)) (some-injective _ p same)
        (append_entries_from-AllOwn r 0 (length r.peers) actions l made)
  | inr l ↦
      subst (λ (q : Raft × List Action). AllOwn q.0 (sends q.1)) (some-injective _ p (rw l at h)) tt
]

-- Every AppendEntries that a step sends is one of the new state, which is a leader's, to one of
-- its peers.
pub step-AllOwn :
    (r : Raft) (e : Event) (p : Raft × List Action) → step r e ≡ some p → AllOwn p.0 (sends p.1)
unfolding step handle_message handle_request_vote handle_append_entries
step-AllOwn r (message (request_vote m)) p h =
    ground (arith, decide_vote-AllOwn (catch_up r m.term) p.0 m)
step-AllOwn r (message (request_vote_response m)) p h =
    ground (arith, handle_vote_response-sends r m)
step-AllOwn r (message (append_entries m)) p h =
    ground (arith, receive_entries-AllOwn (catch_up r m.term) p.0 m)
step-AllOwn r (message (append_entries_response m)) p h =
    let none_sent = handle_append_entries_response-sends r m p h in rw none_sent tt
step-AllOwn r election_timeout p h = ground (arith, handle_election_timeout-AllOwn r p.0)
step-AllOwn r heartbeat_timeout p h = handle_heartbeat_timeout-AllOwn r p h
step-AllOwn r (client_request c) p h = ground (arith, handle_client_request-sends r c)

-- The message brings entries of the log from a place within it on, or none.
abbrev pub Brings : List LogEntry → AppendEntries → Type 0
Brings log m =
    (m.entries ≡ [])
    ⊎ ((p : ℕ) × (p ≤ length log)
        × (m.prev_log_index ≡ p)
        × (m.prev_log_term ≡ term_at log p)
        × (m.entries ≡ drop p log))

pub append_entries_msg-Brings :
    (r : Raft) (next : LogIndex) → IsNumbered 1 r.log → Brings r.log (append_entries_msg r next)
unfolding append_entries_msg prev_log_info
append_entries_msg-Brings r zero w =
    inr (0, omega arith, refl, refl, filter_all 1 0 r.log w (omega arith))
append_entries_msg-Brings r (suc n) w = elim (dec_le n (length r.log)) [
  | yes le ↦
      let e = append_entries_msg_lem r n w in
      inr (n, le, ap (λ m. m.prev_log_index) e, ap (λ m. m.prev_log_term) e, ap (λ m. m.entries) e)
  | no beyond ↦
      inl (ap (λ m. m.entries) (append_entries_msg_lem r n w) ∙ (take_all n r.log (omega arith)).1)
]
