-- ===== src/Raft/Replication/Replies.antt =====
-- append_entries.rs: what a follower answers to a leader, and what it has then.
use raft_craft.Prelude.{
  max, ◌≡◌, refl, ap, ◌∙◌, ◌&&◌, inl, inr, true, false, List, [], ◌∷◌, arith, ltb, leb, Bool-cases,
  if◌then◌else◌,
}
use raft_craft.Protocol.{NodeId, Term, AppendEntries, Message, append_entries_response}
use raft_craft.Raft.State.{Raft, last_log_index}
use raft_craft.Raft.Vote.{catch_up, step_down}
use raft_craft.Raft.AppendEntries.{
  log_matches, reconcile, revert_candidate, accepted, accept_entries, receive_entries,
  handle_append_entries, advance_follower_commit, apply_committed_entries,
  append_entries_response as append_entries_response_action,
}
use raft_craft.Raft.Apply.{apply_committed_entries-frame}
use raft_craft.Raft.Ballots.{sends, apply-sends}
use raft_craft.Raft.Replication.{same_log_matches, prepared, prepared-log, catch_up_current}

-- What is answered with `term` and `success` by a follower `r`, whose log is then `r'`'s.
abbrev pub answer : Raft → AppendEntries → Raft → List (NodeId × Message)
answer r m r' =
    let success = leb r.current_term m.term && log_matches r m.prev_log_index m.prev_log_term in
    (
      m.leader_id,
      append_entries_response (record {
        term = max r.current_term m.term;
        success = success;
        from = r.id;
        match_index = if success then last_log_index r' else 0;
      }),
    )
    ∷ []

prepared-frame :
    (r : Raft) (m : AppendEntries)
    → ((prepared r m).current_term ≡ max r.current_term m.term) × ((prepared r m).id ≡ r.id)
unfolding revert_candidate catch_up step_down
prepared-frame r m = ground arith

catch_up_stale : (r : Raft) (t : Term) → ltb t r.current_term ≡ true → catch_up r t ≡ r
unfolding catch_up
catch_up_stale r t stale = ground arith

accepted-frame :
    (r : Raft) (m : AppendEntries)
    → let r' = (apply_committed_entries (accepted r m)).0 in
      (r'.log ≡ reconcile r.log m.entries) × (r'.current_term ≡ r.current_term) × (r'.id ≡ r.id)
unfolding advance_follower_commit
accepted-frame r m = ground (arith, (apply_committed_entries-frame (accepted r m)).1)

-- Whatever a node's state and an AppendEntries, the node sends exactly one message, its answer to
-- the `leader_id`: a success if and only if the message's term is not below its own and its log has
-- the previous entry, with the larger of the two terms, and with the last index of its whole log
-- then, or 0 in a refusal. After a success its log is the old one reconciled with the entries of
-- the message, after a refusal it is the old one.
pub handle_append_entries_answers :
    (r : Raft) (m : AppendEntries)
    → let (r', acts) = handle_append_entries r m in
      let success = leb r.current_term m.term && log_matches r m.prev_log_index m.prev_log_term in
      (sends acts ≡ answer r m r')
      × (r'.log ≡ (if success then reconcile r.log m.entries else r.log))
unfolding handle_append_entries receive_entries accept_entries append_entries_response_action
handle_append_entries_answers r m =
    let i = m.prev_log_index in
    let t = m.prev_log_term in
    let r₁ = prepared r m in
    let (term, id) = prepared-frame r m in
    let log = prepared-log r m in
    let same = same_log_matches r₁ r i t log in
    elim (Bool-cases (ltb m.term r.current_term)) [
      | inl stale ↦
          let kept = catch_up_stale r m.term stale in
          let off : leb r.current_term m.term ≡ false = ground arith in
          let largest : max r.current_term m.term ≡ r.current_term = ground arith in
          rw (kept, stale, off, largest) (refl, refl)
      | inr current ↦
          let on : leb r.current_term m.term ≡ true = ground arith in
          let taken = catch_up_current r m.term (ground arith) in
          elim (Bool-cases (log_matches r i t)) [
            | inl found ↦
                let (logs, terms, ids) = accepted-frame r₁ m in
                rw (taken, same, found, on)
                  (
                    rw (apply-sends (accepted r₁ m), terms, ids, term, id) refl,
                    logs ∙ ap (λ l. reconcile l m.entries) log,
                  )
            | inr missing ↦ rw (taken, same, missing, on) (rw (term, id) refl, log)
          ]
    ]
