-- ===== src/Raft/Applied/Entries.antt =====
-- Which commands the handlers that apply entries hand to the state machine.
use raft_craft.Prelude.{
  ℕ, zero, suc, ◌-◌, ◌≤◌, ◌<◌, ◌≡◌, refl, ap, ◌∙◌, inl, inr, true, List, [], ◌∷◌, ◌++◌, arith, ltb,
  length, take, drop, u64_mod, Bool-cases, is_empty,
}
use raft_craft.Protocol.{Command, Term, LogEntry, Action, not_leader, AppendEntries}
use raft_craft.Raft.State.{Raft, with_last_applied, is_leader}
use raft_craft.Raft.Vote.{step_down, catch_up}
use raft_craft.Raft.AppendEntries.{
  apply_committed_entries, advance_commit_index, try_advance_commit_index, revert_candidate,
  advance_follower_commit, log_matches, append_entries_response as append_response, accepted,
  accept_entries, receive_entries, handle_append_entries, reconcile,
}
use raft_craft.Raft.Client.{append_command, handle_client_request}
use raft_craft.Raft.Apply.{apply_committed_entries-slice}
use raft_craft.Raft.Log.Agreement.{reconcile-keeps}
use raft_craft.Raft.Validity.Replication.{
  accepted-IsValid, log_matches-reach, revert_candidate-IsValid, revert_candidate-Respects,
  catch_up-Respects, advance_commit_index-IsValid, append_command-IsValid,
}
use raft_craft.Raft.Validity.Elections.{catch_up-IsValid}
use raft_craft.Raft.Validity.{IsValid, Respects}
use raft_craft.Raft.Applied.{
  applied_commands, commands, applied_commands-between, HandsOn, quiet, HandsOn-from,
}

take_mono :
    (m n : ℕ) (xs ys : List LogEntry) → m ≤ n → take n xs ≡ take n ys → take m xs ≡ take m ys
take_mono zero n xs ys h e = refl
take_mono (suc m) zero xs ys h e = absurd (omega arith)
take_mono (suc m) (suc n) [] [] h e = refl
take_mono (suc m) (suc n) [] (y ∷ ys) h e = cc
take_mono (suc m) (suc n) (x ∷ xs) [] h e = cc
take_mono (suc m) (suc n) (x ∷ xs) (y ∷ ys) h e =
    let ih = take_mono m n xs ys (omega arith) (cc) in cc

revert_candidate-frame :
    (r : Raft)
    → ((revert_candidate r).log ≡ r.log) × ((revert_candidate r).last_applied ≡ r.last_applied)
unfolding revert_candidate
revert_candidate-frame r = ground arith

catch_up-frame :
    (r : Raft) (t : Term)
    → ((catch_up r t).log ≡ r.log) × ((catch_up r t).last_applied ≡ r.last_applied)
unfolding catch_up step_down
catch_up-frame r t = ground arith

-- A handler that ends by applying, in the valid state `s`.
applying :
    (r s : Raft) (p : Raft × List Action)
    → IsValid s
    → s.last_applied ≡ r.last_applied
    → take r.last_applied s.log ≡ take r.last_applied r.log
    → p.0 ≡ (apply_committed_entries s).0
    → applied_commands p.1 ≡ applied_commands (apply_committed_entries s).1
    → HandsOn r p
applying r s p v same prefix state actions =
    let slice = apply_committed_entries-slice s v.numbered v.applied v.committed v.short in
    let end : p.0 ≡ with_last_applied s s.commit_index = state ∙ ap (λ q. q.0) slice in
    let handed : applied_commands p.1
        ≡ commands (take (s.commit_index - s.last_applied) (drop s.last_applied s.log)) =
      actions
      ∙ ap (λ q. applied_commands q.1) slice
      ∙ applied_commands-between s.last_applied (s.commit_index - s.last_applied) s.log in
    record {
      stays = rw end prefix;
      grows = rw end (omega (arith, v.applied));
      hands = rw (end, ← same) handed;
    }

accept_entries-HandsOn :
    (r : Raft) (m : AppendEntries)
    → IsValid r
    → Respects r m
    → log_matches r m.prev_log_index m.prev_log_term ≡ true
    → HandsOn r (accept_entries r m)
unfolding accept_entries advance_follower_commit append_response
accept_entries-HandsOn r m v a matches =
    let reach = log_matches-reach r m.prev_log_index m.prev_log_term v.numbered matches in
    let kept =
      reconcile-keeps m.prev_log_index r.log m.entries v.numbered a.follows reach r.commit_index
        (a.agrees matches) v.committed in
    let logs : (accepted r m).log ≡ reconcile r.log m.entries = ground arith in
    applying r (accepted r m) (accept_entries r m) (accepted-IsValid r m v a matches) (ground arith)
      (ap (take r.last_applied) logs
        ∙ take_mono r.last_applied r.commit_index (reconcile r.log m.entries) r.log v.applied
            kept.0)
      refl refl

receive_entries-HandsOn :
    (r : Raft) (m : AppendEntries) → IsValid r → Respects r m → HandsOn r (receive_entries r m)
unfolding receive_entries append_response
receive_entries-HandsOn r m v a =
    let r' = revert_candidate r in
    let (l, n) = revert_candidate-frame r in
    elim (Bool-cases (ltb m.term r.current_term)) [
      | inl stale ↦ rw stale (quiet r (r, _) refl refl refl)
      | inr fresh ↦ elim (Bool-cases (log_matches r' m.prev_log_index m.prev_log_term)) [
        | inl f ↦
            rw (fresh, f)
              (HandsOn-from r r' (accept_entries r' m) (ap (take r.last_applied) l) n (
                accept_entries-HandsOn r' m (revert_candidate-IsValid r v)
                  (revert_candidate-Respects r m a) f))
        | inr f ↦ rw (fresh, f) (quiet r (r', _) (ap (take r.last_applied) l) n refl)
      ]
    ]

pub handle_append_entries-HandsOn :
    (r : Raft) (m : AppendEntries)
    → IsValid r
    → Respects r m
    → HandsOn r (handle_append_entries r m)
unfolding handle_append_entries
handle_append_entries-HandsOn r m v a =
    let r' = catch_up r m.term in
    let (l, n) = catch_up-frame r m.term in
    HandsOn-from r r' (handle_append_entries r m) (ap (take r.last_applied) l) n
      (receive_entries-HandsOn r' m (catch_up-IsValid r m.term v) (catch_up-Respects r m.term m a))

pub try_advance-HandsOn : (r : Raft) → IsValid r → HandsOn r (try_advance_commit_index r)
unfolding try_advance_commit_index advance_commit_index
try_advance-HandsOn r v =
    let s = advance_commit_index r in
    applying r s (try_advance_commit_index r) (advance_commit_index-IsValid r v) (ground arith)
      (ap (take r.last_applied) (ground arith)) refl refl

append_command-prefix :
    (log : List LogEntry) (n : ℕ) (e : LogEntry)
    → n ≤ length log
    → take n (log ++ e ∷ []) ≡ take n log
append_command-prefix log zero e h = refl
append_command-prefix [] (suc n) e h = absurd (omega arith)
append_command-prefix (x ∷ log) (suc n) e h =
    ap (◌∷◌ x) (append_command-prefix log n e (omega arith))

pub handle_client_request-HandsOn :
    (r : Raft) (c : Command)
    → IsValid r
    → suc (length r.log) < u64_mod
    → HandsOn r (handle_client_request r c)
unfolding handle_client_request
handle_client_request-HandsOn r c v h =
    let r' = append_command r c in
    let prefix : take r.last_applied r'.log ≡ take r.last_applied r.log =
      unfold append_command in
      append_command-prefix r.log r.last_applied _ (omega (arith, v.applied, v.committed)) in
    let same : r'.last_applied ≡ r.last_applied = unfold append_command in refl in
    elim (Bool-cases (is_leader r.role)) [
      | inr other ↦ rw other (quiet r (r, not_leader r.known_leader ∷ []) refl refl refl)
      | inl l ↦ elim (Bool-cases (is_empty r'.peers)) [
        | inl alone ↦
            let h' = try_advance-HandsOn r' (append_command-IsValid r c v h) in
            rw (l, alone)
              (HandsOn-from r r' _ prefix same
                (record { stays = h'.stays; grows = h'.grows; hands = h'.hands }))
        | inr peers ↦ rw (l, peers) (quiet r (r', _) prefix same refl)
      ]
    ]
