-- ===== src/Raft/Solo.antt =====
-- client.rs: a cluster of one node, which is its own majority.
use raft_craft.Prelude.{
  ℕ, suc, ◌+◌, ◌≤◌, ◌<◌, ◌≡◌, refl, sym, ap, ◌∙◌, true, [], ◌∷◌, ◌++◌, some, arith, length, drop,
  get_elem?, is_empty, length-append, u64_mod, subst, wrapping_add, ◌-◌,
}
use raft_craft.Protocol.{Command, LogEntry, reset_heartbeat_timer, persist_state, apply_command}
use raft_craft.Raft.State.{Raft, quorum, is_leader, last_log_index, with_last_applied}
use raft_craft.Raft.AppendEntries.{
  advance_commit_index, apply_committed_entries, try_advance_commit_index,
}
use raft_craft.Raft.Client.{append_command, handle_client_request}
use raft_craft.Raft.Commit.{advance_commit_index_maximal}
use raft_craft.Raft.Apply.{commands_between, apply_committed_entries-slice}
use raft_craft.Raft.Log.Slices.{get_elem?-append, drop-append}
use raft_craft.Raft.Validity.{IsValid}
use raft_craft.Raft.Validity.Replication.{
  append_command-IsValid, advance_commit_index-IsValid, try_advance_commit_index-IsValid,
}

-- A leader without peers that has applied its whole log.
pub record IsSolo (r : Raft) : Type 0 where
  pub valid : IsValid r
  pub alone : r.peers ≡ []
  pub leads : is_leader r.role ≡ true
  pub current : r.last_applied ≡ length r.log

advance_commit_index-frame :
    (r : Raft)
    → ((advance_commit_index r).log ≡ r.log)
      × ((advance_commit_index r).last_applied ≡ r.last_applied)
      × ((advance_commit_index r).peers ≡ r.peers)
      × ((advance_commit_index r).role ≡ r.role)
unfolding advance_commit_index
advance_commit_index-frame r = ground arith

-- The quorum of one is reached by the leader itself.
quorum_alone : (r : Raft) (n : ℕ) → r.peers ≡ [] → quorum r ≤ 1 + n
unfolding quorum
quorum_alone r n e = rw e (omega arith)

abbrev new_entry : Raft → Command → LogEntry
new_entry r c = record {
  term = r.current_term;
  index = wrapping_add (last_log_index r) 1;
  command = c;
}

append_command-log :
    (r : Raft) (c : Command) → (append_command r c).log ≡ r.log ++ new_entry r c ∷ []
unfolding append_command
append_command-log r c = refl

append_command-frame :
    (r : Raft) (c : Command)
    → ((append_command r c).last_applied ≡ r.last_applied)
      × ((append_command r c).peers ≡ r.peers)
      × ((append_command r c).role ≡ r.role)
      × ((append_command r c).current_term ≡ r.current_term)
unfolding append_command
append_command-frame r c = (refl, refl, refl, refl)

module _ (r : Raft) (c : Command) (s : IsSolo r) (fits : suc (length r.log) < u64_mod) where
  abbrev appended : Raft
  appended = append_command r c

  abbrev advanced : Raft
  advanced = advance_commit_index appended

  log_grows : length appended.log ≡ suc (length r.log)
  log_grows = rw (append_command-log r c) (omega (arith, length-append r.log (new_entry r c ∷ [])))

  advanced-IsValid : IsValid advanced
  advanced-IsValid = advance_commit_index-IsValid appended (append_command-IsValid r c s.valid fits)

  commits_all : advanced.commit_index ≡ suc (length r.log)
  commits_all =
      let v = append_command-IsValid r c s.valid fits in
      let (_, peers, _, term) = append_command-frame r c in
      let at_end : length r.log + 0 ≡ length r.log = omega arith in
      let there : get_elem? appended.log (length r.log) ≡ some (new_entry r c) =
        rw (append_command-log r c) (
          subst (λ k. get_elem? (r.log ++ new_entry r c ∷ []) k ≡ some (new_entry r c)) at_end
            (get_elem?-append r.log (new_entry r c ∷ []) (length r.log) 0 refl)) in
      let reached =
        advance_commit_index_maximal appended v.numbered (length r.log) (new_entry r c) there
          (record {
            own_term = sym term;
            replicated = quorum_alone appended _ (peers ∙ s.alone);
          }) in
      let bound = advanced-IsValid.committed in
      let same = ap length (advance_commit_index-frame appended).0 in omega (arith, log_grows)

  applies_it :
      apply_committed_entries advanced
      ≡ (with_last_applied advanced advanced.commit_index, apply_command c ∷ [])
  applies_it =
      let v = advanced-IsValid in
      let (log, applied, _, _) = advance_commit_index-frame appended in
      let (before, _, _, _) = append_command-frame r c in
      let last : advanced.last_applied ≡ length r.log = applied ∙ before ∙ s.current in
      let one : advanced.commit_index - advanced.last_applied ≡ 1 = omega (arith, commits_all) in
      let rest : drop (length r.log) advanced.log ≡ new_entry r c ∷ [] =
        ap (drop (length r.log)) (log ∙ append_command-log r c)
        ∙ drop-append (length r.log) r.log (new_entry r c ∷ []) refl in
      let handed : commands_between advanced.last_applied
            (advanced.commit_index - advanced.last_applied) advanced.log
          ≡ apply_command c ∷ [] =
        rw (one, last, rest) refl in
      apply_committed_entries-slice advanced v.numbered v.applied v.committed v.short
      ∙ ap (λ l. (with_last_applied advanced advanced.commit_index, l)) handed

  -- The command of a client is appended, committed and handed on in one step, and the node is as
  -- before.
  pub handle_client_request-IsSolo :
      ((handle_client_request r c).1 ≡ reset_heartbeat_timer ∷ persist_state ∷ apply_command c ∷ [])
      × IsSolo (handle_client_request r c).0
      × (length (handle_client_request r c).0.log ≡ suc (length r.log))
  unfolding handle_client_request try_advance_commit_index
  handle_client_request-IsSolo =
      let (log, _, peers, role) = advance_commit_index-frame appended in
      let (_, peers', role', _) = append_command-frame r c in
      let none_there : is_empty appended.peers ≡ true = rw (peers', s.alone) refl in
      let valid : IsValid (with_last_applied advanced advanced.commit_index) =
        subst (λ q. IsValid q.0) applies_it
          (try_advance_commit_index-IsValid appended (append_command-IsValid r c s.valid fits)) in
      let same_length : length advanced.log ≡ suc (length r.log) = ap length log ∙ log_grows in
      rw (s.leads, none_there, applies_it)
        (
          refl,
          record {
            valid = valid;
            alone = peers ∙ peers' ∙ s.alone;
            leads = ap is_leader (role ∙ role') ∙ s.leads;
            current = commits_all ∙ sym same_length;
          },
          same_length,
        )
