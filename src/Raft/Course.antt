-- ===== src/Raft/Course.antt =====
-- How a step moves the role and the log of a node: raft-core/src/raft/step.rs.
use mathlib.Core.Option.{some-injective}
use raft_craft.Prelude.{
  ℕ, suc, ◌≤◌, ◌<◌, ◌≡◌, refl, sym, ap, ◌∙◌, subst, ◌⊎◌, inl, inr, true, false, List, [], ◌∷◌, ◌++◌,
  some, arith, ltb, is_empty, wrapping_add, wrapping_add_lem, u64_mod, Bool-cases,
}
use raft_craft.Protocol.{
  Command, Action, RequestVoteResponse, AppendEntries, request_vote, request_vote_response,
  append_entries, append_entries_response, Event, message, election_timeout, heartbeat_timeout,
  client_request,
}
use raft_craft.Raft.State.{Raft, follower, candidate, is_leader, last_log_index}
use raft_craft.Raft.Vote.{step_down, catch_up, become_leader, count_vote, handle_vote_response}
use raft_craft.Raft.Election.{start_candidacy, handle_election_timeout}
use raft_craft.Raft.AppendEntries.{
  log_matches, reconcile, revert_candidate, receive_entries, handle_append_entries,
  try_advance_commit_index, advance_commit_index,
}
use raft_craft.Raft.Client.{append_command, handle_client_request}
use raft_craft.Raft.Step.{handle_message, step}
use raft_craft.Raft.Apply.{apply_committed_entries-frame}
use raft_craft.Raft.Replication.{same_log_matches, accept_entries-Accepts}
use raft_craft.Raft.Terms.{receive_entries-SameBallot, handle_heartbeat_timeout-same}
use raft_craft.Raft.Durability.Unsaved.{saves}
use raft_craft.Raft.Races.{
  Retires, handle_request_vote-Retires, handle_append_entries-Retires,
  handle_append_entries_response-Retires, handle_client_request-Retires,
}
use raft_craft.Raft.AppendOnly.{
  handle_request_vote-log, handle_vote_response-log, handle_election_timeout-log,
  handle_append_entries_response-log, try_advance-log,
}

-- A candidate has won its term.
abbrev pub Wins : Raft → Raft → Type 0
Wins r r' = (r.role ≡ candidate) × (r'.current_term ≡ r.current_term)

-- A new term has been started, and is saved.
abbrev pub Campaigns : Raft → Raft × List Action → Type 0
Campaigns r p = (r.current_term < p.0.current_term) × (saves p.1 ≡ true)

-- The node is follower, or it is in the term and the role as before, or it has won, or it runs.
abbrev pub Course : Raft → Raft × List Action → Type 0
Course r p =
    (p.0.role ≡ follower)
    ⊎ (((p.0.role ≡ r.role) × (p.0.current_term ≡ r.current_term)) ⊎ (Wins r p.0 ⊎ Campaigns r p))

Retires-Course : (r : Raft) (p : Raft × List Action) → Retires r p.0 → Course r p
Retires-Course r p h = ground arith

handle_vote_response-Course :
    (r : Raft) (m : RequestVoteResponse) → Course r (handle_vote_response r m)
unfolding handle_vote_response count_vote step_down become_leader
handle_vote_response-Course r m = ground arith

handle_election_timeout-Course :
    (r : Raft) → suc r.current_term < u64_mod → Course r (handle_election_timeout r)
unfolding handle_election_timeout start_candidacy become_leader
handle_election_timeout-Course r fits = ground (arith, wrapping_add_lem r.current_term 1)

pub step-Course :
    (r : Raft) (e : Event) (p : Raft × List Action)
    → suc r.current_term < u64_mod
    → step r e ≡ some p
    → Course r p
unfolding step handle_message
step-Course r (message (request_vote m)) p fits h =
    Retires-Course r p (ground (arith, handle_request_vote-Retires r m))
step-Course r (message (request_vote_response m)) p fits h =
    subst (λ q. Course r q) (some-injective _ p h) (handle_vote_response-Course r m)
step-Course r (message (append_entries m)) p fits h =
    Retires-Course r p (ground (arith, handle_append_entries-Retires r m))
step-Course r (message (append_entries_response m)) p fits h =
    Retires-Course r p (handle_append_entries_response-Retires r m p h)
step-Course r election_timeout p fits h =
    subst (λ q. Course r q) (some-injective _ p h) (handle_election_timeout-Course r fits)
step-Course r heartbeat_timeout p fits h =
    let e = handle_heartbeat_timeout-same r p h in
    inr (inl (ap (λ s. s.role) e, ap (λ s. s.current_term) e))
step-Course r (client_request c) p fits h =
    Retires-Course r p (ground (arith, handle_client_request-Retires r c))

-- A leader has added an entry of its term, with the index behind its last one.
abbrev pub Extends : Raft → Raft → Type 0
Extends r r' =
    (c : Command) × (is_leader r'.role ≡ true)
    × (r'.current_term ≡ r.current_term)
    × (r'.log
        ≡ r.log
          ++ record {
            term = r.current_term;
            index = wrapping_add (last_log_index r) 1;
            command = c;
          }
            ∷ [])

-- The entries of a message were taken on.
abbrev pub TakesOn : Raft → Raft → AppendEntries → Type 0
TakesOn r r' m =
    (r.current_term ≤ m.term)
    × (r'.current_term ≡ m.term)
    × (log_matches r m.prev_log_index m.prev_log_term ≡ true)
    × (r'.log ≡ reconcile r.log m.entries)

-- What a step makes of the log.
abbrev pub Writes : Raft → Event → Raft → Type 0
Writes r e r' =
    (r'.log ≡ r.log)
    ⊎ (Extends r r' ⊎ ((m : AppendEntries) × (e ≡ message (append_entries m)) × TakesOn r r' m))

reverted : (r : Raft) → (revert_candidate r).log ≡ r.log
unfolding revert_candidate
reverted r = ground arith

receive_entries-log :
    (r : Raft) (m : AppendEntries)
    → r.current_term ≤ m.term
    → ((receive_entries r m).0.log ≡ r.log)
      ⊎ ((log_matches r m.prev_log_index m.prev_log_term ≡ true)
          × ((receive_entries r m).0.log ≡ reconcile r.log m.entries))
unfolding receive_entries
receive_entries-log r m h =
    let r' = revert_candidate r in
    let now : ltb m.term r.current_term ≡ false = ground arith in
    let same = same_log_matches r' r m.prev_log_index m.prev_log_term (reverted r) in
    elim (Bool-cases (log_matches r' m.prev_log_index m.prev_log_term)) [
      | inl e ↦ inr (
        sym same ∙ e,
        rw (now, e)
            ((accept_entries-Accepts r' m).0 ∙ ap (λ l. reconcile l m.entries) (reverted r)),
      )
      | inr e ↦ inl (rw (now, e) (reverted r))
    ]

caught_up :
    (r : Raft) (t : ℕ)
    → r.current_term ≤ t
    → ((catch_up r t).current_term ≡ t) × ((catch_up r t).log ≡ r.log)
unfolding catch_up step_down
caught_up r t h = ground arith

handle_append_entries-Writes :
    (r : Raft) (m : AppendEntries)
    → ((handle_append_entries r m).0.log ≡ r.log) ⊎ TakesOn r (handle_append_entries r m).0 m
unfolding handle_append_entries
handle_append_entries-Writes r m = elim (Bool-cases (ltb m.term r.current_term)) [
  | inl stale ↦
      let stay : catch_up r m.term ≡ r = unfold catch_up in ground arith in
      inl (rw stay (unfold receive_entries in rw stale refl))
  | inr fresh ↦
      let s = catch_up r m.term in
      let (term, log) = caught_up r m.term (ground arith) in
      elim (receive_entries-log s m (omega (arith, term))) [
        | inl same ↦ inl (same ∙ log)
        | inr (matches, taken) ↦ inr (
          ground arith,
          (receive_entries-SameBallot s m).0 ∙ term,
          sym (same_log_matches s r m.prev_log_index m.prev_log_term log) ∙ matches,
          taken ∙ ap (λ l. reconcile l m.entries) log,
        )
      ]
]

try_advance-race :
    (r : Raft)
    → ((try_advance_commit_index r).0.role ≡ r.role)
      × ((try_advance_commit_index r).0.current_term ≡ r.current_term)
unfolding try_advance_commit_index advance_commit_index
try_advance-race r = ground (arith, (apply_committed_entries-frame (advance_commit_index r)).1)

handle_client_request-Extends :
    (r : Raft) (c : Command)
    → ((handle_client_request r c).0.log ≡ r.log) ⊎ Extends r (handle_client_request r c).0
unfolding handle_client_request append_command
handle_client_request-Extends r c =
    let s = append_command r c in
    let (role, term) = try_advance-race s in
    elim (Bool-cases (is_leader r.role)) [
      | inr other ↦ rw other (inl refl)
      | inl leads ↦ elim (Bool-cases (is_empty r.peers)) [
        | inl alone ↦
            rw (leads, alone) (inr (c, ap is_leader role ∙ leads, term, try_advance-log s))
        | inr peers ↦ rw (leads, peers) (inr (c, leads, refl, refl))
      ]
    ]

pub step-Writes :
    (r : Raft) (e : Event) (p : Raft × List Action) → step r e ≡ some p → Writes r e p.0
unfolding step handle_message
step-Writes r (message (request_vote m)) p h = ground (arith, handle_request_vote-log r m)
step-Writes r (message (request_vote_response m)) p h = ground (arith, handle_vote_response-log r m)
step-Writes r (message (append_entries m)) p h =
    subst (λ (q : Raft × List Action). Writes r (message (append_entries m)) q.0)
      (some-injective _ p h)
      (elim (handle_append_entries-Writes r m) [
        | inl same ↦ inl same
        | inr t ↦ inr (inr (m, refl, t))
      ])
step-Writes r (message (append_entries_response m)) p h =
    inl (handle_append_entries_response-log r m p h)
step-Writes r election_timeout p h = ground (arith, handle_election_timeout-log r)
step-Writes r heartbeat_timeout p h = inl (ap (λ x. x.log) (handle_heartbeat_timeout-same r p h))
step-Writes r (client_request c) p h =
    subst (λ (q : Raft × List Action). Writes r (client_request c) q.0) (some-injective _ p h)
      (elim (handle_client_request-Extends r c) [ inl same ↦ inl same | inr t ↦ inr (inl t) ])
