-- ===== src/Raft/Replication.antt =====
-- heartbeat.rs against append_entries.rs: what a leader sends, and what its follower has afterwards.
pub mod Exchange
pub mod Replies
pub mod CatchUp
pub mod Matching
use raft_craft.Prelude.{
  ℕ, zero, suc, ◌+◌, ◌-◌, ◌≤◌, ◌<◌, ◌≡◌, refl, ap, ◌∙◌, true, false, List, [], ◌∷◌, some, arith,
  ltb, leb, length, get_elem?, drop, map_or,
}
use raft_craft.Protocol.{
  NodeId, LogEntry, LogIndex, Term, AppendEntries, Action, send,
  append_entries_response as append_entries_response_message, persist_state, reset_election_timer,
}
use raft_craft.Raft.State.{Raft, last_log_index}
use raft_craft.Raft.Vote.{catch_up, step_down}
use raft_craft.Raft.AppendEntries.{
  log_matches, reconcile, revert_candidate, accepted, accept_entries, receive_entries,
  handle_append_entries, advance_follower_commit, apply_committed_entries, append_entries_response,
}
use raft_craft.Raft.Heartbeat.{prev_log_info, append_entries_msg}
use raft_craft.Raft.Apply.{apply_committed_entries-frame}
use raft_craft.Raft.Log.Numbered.{
  IsNumbered, IsNumbered-drop, find-numbered, filter-numbered, last-index-length,
}
use raft_craft.Raft.Log.Merge.{take_all}
use raft_craft.Raft.Log.Slices.{length-drop}
use raft_craft.Raft.Log.Agreement.{
  AgreeBelow, length-reconcile, reconcile-keeps, reconcile-IsNumbered, reconcile-contains,
}
use raft_craft.Raft.Validity.{IsValid}
use raft_craft.Raft.Validity.Replication.{log_matches-reach}

-- The term of the entry with index `n`, and 0 before the first.
abbrev pub term_at : List LogEntry → ℕ → Term
term_at log zero = 0
term_at log (suc n) = map_or 0 (λ e. e.term) (get_elem? log n)

prev_log_info_lem :
    (r : Raft) (n : ℕ) → IsNumbered 1 r.log → prev_log_info r (suc n) ≡ (n, term_at r.log n)
unfolding prev_log_info
prev_log_info_lem r zero w = refl
prev_log_info_lem r (suc n) w =
    let before : suc (suc n) - 1 ≡ suc n = omega arith in
    let second : leb (suc (suc n)) 1 ≡ false = ground arith in
    rw (second, before)
      (ap (λ o. (suc n, map_or 0 (λ e. e.term) o))
        (find-numbered 1 n (suc n) r.log w (omega arith)))

-- To a peer whose next index is `n + 1` a leader whose entries are numbered 1, 2, … sends exactly
-- the entries behind the first `n`, with the index and the term of entry `n`.
pub append_entries_msg_lem :
    (r : Raft) (n : ℕ)
    → IsNumbered 1 r.log
    → append_entries_msg r (suc n) ≡ record {
      term = r.current_term;
      leader_id = r.id;
      prev_log_index = n;
      prev_log_term = term_at r.log n;
      entries = drop n r.log;
      leader_commit = r.commit_index;
    }
unfolding append_entries_msg
append_entries_msg_lem r n w =
    rw (prev_log_info_lem r n w, filter-numbered 1 n (suc n) r.log w (omega arith)) refl

-- The confirmation that a follower sends.
abbrev pub confirmation : Raft → NodeId → LogIndex → Action
confirmation r leader_id match_index = send leader_id (
    append_entries_response_message
      (record { term = r.current_term; success = true; from = r.id; match_index = match_index }))

-- The follower takes the entries on: what it then has and what it answers.
abbrev pub Accepts : Raft → AppendEntries → Raft × List Action → Type 0
Accepts f m p =
    (p.0.log ≡ reconcile f.log m.entries)
    × (rest : List Action) × (p.1
        ≡ persist_state
          ∷ reset_election_timer
          ∷ confirmation p.0 m.leader_id (last_log_index p.0)
          ∷ rest)

pub accept_entries-Accepts : (f : Raft) (m : AppendEntries) → Accepts f m (accept_entries f m)
unfolding accept_entries advance_follower_commit append_entries_response
accept_entries-Accepts f m =
    let s = accepted f m in
    (ground (arith, (apply_committed_entries-frame s).1), (apply_committed_entries s).1, refl)

pub same_log_matches :
    (r s : Raft) (i t : ℕ) → r.log ≡ s.log → log_matches r i t ≡ log_matches s i t
unfolding log_matches
same_log_matches r s i t e = rw e refl

-- The receiver as `accept_entries` finds it.
abbrev pub prepared : Raft → AppendEntries → Raft
prepared f m = revert_candidate (catch_up f m.term)

pub prepared-log : (f : Raft) (m : AppendEntries) → (prepared f m).log ≡ f.log
unfolding revert_candidate catch_up step_down
prepared-log f m = ground arith

pub catch_up_current :
    (f : Raft) (t : Term) → f.current_term ≤ t → ltb t (catch_up f t).current_term ≡ false
unfolding catch_up step_down
catch_up_current f t h = ground arith

-- A message of a term that is not stale, with a previous entry that the log has, is taken on: the
-- log is reconciled with its entries, and the answer confirms the whole of the log.
pub handle_append_entries-Accepts :
    (f : Raft) (m : AppendEntries)
    → f.current_term ≤ m.term
    → log_matches f m.prev_log_index m.prev_log_term ≡ true
    → Accepts f m (handle_append_entries f m)
unfolding handle_append_entries receive_entries
handle_append_entries-Accepts f m h matches =
    let f' = prepared f m in
    let same = prepared-log f m in
    let ok = same_log_matches f' f m.prev_log_index m.prev_log_term same ∙ matches in
    let (logs, rest, acts) = accept_entries-Accepts f' m in
    rw (catch_up_current f m.term h, ok) (logs ∙ ap (λ l. reconcile l m.entries) same, rest, acts)

pub get_elem?-drop : (n i : ℕ) (xs : List LogEntry) → get_elem? (drop n xs) i ≡ get_elem? xs (n + i)
get_elem?-drop zero i xs = let e : 0 + i ≡ i = omega arith in rw e refl
get_elem?-drop (suc n) i [] = refl
get_elem?-drop (suc n) i (x ∷ xs) =
    let e : suc n + i ≡ suc (n + i) = omega arith in rw e (get_elem?-drop n i xs)

pub AgreeBelow-nil : (n : ℕ) (log : List LogEntry) → AgreeBelow n log []
AgreeBelow-nil zero log = tt
AgreeBelow-nil (suc n) [] = tt
AgreeBelow-nil (suc n) (x ∷ log) = tt

pub last_log_index-length : (r : Raft) → IsNumbered 1 r.log → last_log_index r ≡ length r.log
unfolding last_log_index
last_log_index-length r w = last-index-length r.log w
