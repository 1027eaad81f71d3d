-- ===== src/Raft/AppendOnly.antt =====
-- How the log of raft-core/src/lib.rs changes while the term of the node stays the same.
use raft_craft.Prelude.{
  ℕ, ◌≡◌, ◌≢◌, refl, sym, ap, ◌∙◌, subst, ◌⊎◌, inl, inr, true, List, [], ◌∷◌, ◌++◌, some, arith,
  ltb, wrapping_add, Bool-cases,
}
use mathlib.Core.Option.{some-injective}
use raft_craft.Protocol.{
  Command, LogEntry, Action, RequestVote, RequestVoteResponse, AppendEntries, AppendEntriesResponse,
  request_vote, request_vote_response, append_entries, append_entries_response, Event, message,
  election_timeout, heartbeat_timeout, client_request,
}
use raft_craft.Raft.State.{Raft, LeaderState, is_leader, last_log_index}
use raft_craft.Raft.Vote.{
  step_down, catch_up, become_leader, decide_vote, handle_request_vote, count_vote,
  handle_vote_response,
}
use raft_craft.Raft.Election.{start_candidacy, handle_election_timeout}
use raft_craft.Raft.AppendEntries.{
  receive_entries, handle_append_entries, advance_commit_index, try_advance_commit_index,
  record_reply, reply_of_peer, handle_append_entries_response,
}
use raft_craft.Raft.Client.{append_command, handle_client_request}
use raft_craft.Raft.Step.{handle_message, step}
use raft_craft.Raft.Apply.{apply_committed_entries-frame}
use raft_craft.Raft.Terms.{handle_heartbeat_timeout-same, receive_entries-SameBallot}

-- Any event but entries from a leader of the node's own term.
abbrev pub IsForeign : Raft → Event → Type 0
IsForeign r (message (append_entries m)) = m.term ≢ r.current_term
IsForeign r (message (append_entries_response m)) = Unit {0}
IsForeign r (message (request_vote m)) = Unit {0}
IsForeign r (message (request_vote_response m)) = Unit {0}
IsForeign r election_timeout = Unit {0}
IsForeign r heartbeat_timeout = Unit {0}
IsForeign r (client_request c) = Unit {0}

-- A leader has added one entry of its term.
abbrev pub Appended : Raft → Raft → Type 0
Appended r r' =
    (e : LogEntry) × (r'.log ≡ r.log ++ e ∷ [])
    × (e.term ≡ r.current_term)
    × (is_leader r.role ≡ true)

pub handle_request_vote-log : (r : Raft) (m : RequestVote) → (handle_request_vote r m).0.log ≡ r.log
unfolding handle_request_vote decide_vote catch_up step_down
handle_request_vote-log r m = ground arith

pub handle_vote_response-log :
    (r : Raft) (m : RequestVoteResponse) → (handle_vote_response r m).0.log ≡ r.log
unfolding handle_vote_response count_vote become_leader step_down
handle_vote_response-log r m = ground arith

pub handle_election_timeout-log : (r : Raft) → (handle_election_timeout r).0.log ≡ r.log
unfolding handle_election_timeout start_candidacy become_leader
handle_election_timeout-log r = ground arith

pub try_advance-log : (r : Raft) → (try_advance_commit_index r).0.log ≡ r.log
unfolding try_advance_commit_index advance_commit_index
try_advance-log r =
    ap (λ x. x.log) (apply_committed_entries-frame (advance_commit_index r)).1 ∙ ground arith

record_reply-log :
    (r : Raft) (ls : LeaderState) (i : ℕ) (m : AppendEntriesResponse) (p : Raft × List Action)
    → record_reply r ls i m ≡ some p
    → p.0.log ≡ r.log
unfolding record_reply
record_reply-log r ls i m p h = grind (arith, try_advance-log)

reply_of_peer-log :
    (r : Raft) (m : AppendEntriesResponse) (p : Raft × List Action)
    → reply_of_peer r m ≡ some p
    → p.0.log ≡ r.log
unfolding reply_of_peer
reply_of_peer-log r m p h = grind (arith, record_reply-log)

pub handle_append_entries_response-log :
    (r : Raft) (m : AppendEntriesResponse) (p : Raft × List Action)
    → handle_append_entries_response r m ≡ some p
    → p.0.log ≡ r.log
unfolding handle_append_entries_response step_down
handle_append_entries_response-log r m p h = ground (arith, reply_of_peer-log r m p)

-- Entries of an older term change nothing, and those of a newer one change the term.
handle_append_entries-foreign :
    (r : Raft) (m : AppendEntries)
    → m.term ≢ r.current_term
    → (handle_append_entries r m).0.current_term ≡ r.current_term
    → (handle_append_entries r m).0.log ≡ r.log
unfolding handle_append_entries
handle_append_entries-foreign r m foreign same = elim (Bool-cases (ltb r.current_term m.term)) [
  | inl newer ↦
      let down : (catch_up r m.term).current_term ≡ m.term =
        unfold catch_up step_down in rw newer refl in
      absurd (foreign (sym down ∙ sym (receive_entries-SameBallot (catch_up r m.term) m).0 ∙ same))
  | inr not_newer ↦
      let stay : catch_up r m.term ≡ r = unfold catch_up in rw not_newer refl in
      let old : ltb m.term r.current_term ≡ true = ground arith in
      rw stay (unfold receive_entries in rw old refl)
]

handle_client_request-Appended :
    (r : Raft) (c : Command)
    → ((handle_client_request r c).0.log ≡ r.log) ⊎ Appended r (handle_client_request r c).0
unfolding handle_client_request append_command
handle_client_request-Appended r c =
    let new_entry : LogEntry = record {
      term = r.current_term;
      index = wrapping_add (last_log_index r) 1;
      command = c;
    } in
    elim (Bool-cases (is_leader r.role)) [
      | inr other ↦ rw other (inl refl)
      | inl leads ↦
          rw leads
            (inr (new_entry, ground (arith, try_advance-log (append_command r c)), refl, refl))
    ]

-- While the term of a node stays the same, a step leaves its log as it is, or adds one entry of that
-- term at the end, and then the node is leader. (The event is not an AppendEntries of the node's own
-- term: on that the log is reconciled, whatever the role.)
pub step-AppendOnly :
    (r : Raft) (e : Event) (p : Raft × List Action)
    → IsForeign r e
    → step r e ≡ some p
    → p.0.current_term ≡ r.current_term
    → (p.0.log ≡ r.log) ⊎ Appended r p.0
unfolding step handle_message
step-AppendOnly r (message (request_vote m)) p f h t = ground (arith, handle_request_vote-log r m)
step-AppendOnly r (message (request_vote_response m)) p f h t =
    ground (arith, handle_vote_response-log r m)
step-AppendOnly r (message (append_entries m)) p f h t =
    ground (arith, handle_append_entries-foreign r m f)
step-AppendOnly r (message (append_entries_response m)) p f h t =
    inl (handle_append_entries_response-log r m p h)
step-AppendOnly r election_timeout p f h t = ground (arith, handle_election_timeout-log r)
step-AppendOnly r heartbeat_timeout p f h t =
    inl (ap (λ x. x.log) (handle_heartbeat_timeout-same r p h))
step-AppendOnly r (client_request c) p f h t =
    let same : handle_client_request r c ≡ p = some-injective _ p h in
    subst (λ (q : Raft × List Action). (q.0.log ≡ r.log) ⊎ Appended r q.0) same
      (handle_client_request-Appended r c)
