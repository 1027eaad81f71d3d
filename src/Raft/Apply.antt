-- ===== src/Raft/Apply.antt =====
-- raft-core/src/raft/append_entries.rs, `apply_committed_entries`: which commands are handed on.
pub mod Termination
use raft_craft.Prelude.{
  ltb, inl, inr, Bool-cases, ℕ, zero, suc, ◌+◌, ◌-◌, ◌≤◌, ◌<◌, ◌≡◌, refl, ap, ◌∙◌, List, [], ◌∷◌,
  map, some, arith, length, take, drop, find, wrapping_add, wrapping_add_lem, u64_mod,
}
use raft_craft.Protocol.{LogEntry, Action, apply_command}
use raft_craft.Raft.State.{Raft, with_last_applied}
use raft_craft.Raft.AppendEntries.{apply_loop, apply_committed_entries}
use raft_craft.Raft.Log.Numbered.{IsNumbered, has_index, find-numbered}
use raft_craft.Raft.Log.Merge.{take-drop_step}

-- The commands of the `n` entries behind the first `a`, in the order of the log.
abbrev pub commands_between : ℕ → ℕ → List LogEntry → List Action
commands_between a n log = map (λ e. apply_command e.command) (take n (drop a log))

-- One round of the loop, at the entry that is next.
apply_loop_step :
    (todo : ℕ) (r : Raft) (e : LogEntry)
    → r.last_applied < r.commit_index
    → r.commit_index < u64_mod
    → find (has_index (suc r.last_applied)) r.log ≡ some e
    → apply_loop (suc todo) r ≡ (
        let rest = apply_loop todo (with_last_applied r (suc r.last_applied)) in
        (rest.0, apply_command e.command ∷ rest.1))
unfolding apply_loop
apply_loop_step todo r e h small found =
    let next : wrapping_add r.last_applied 1 ≡ suc r.last_applied =
      omega (arith, wrapping_add_lem r.last_applied 1) in
    rw next (ground arith)

apply_loop-slice :
    (todo : ℕ) (r : Raft)
    → IsNumbered 1 r.log
    → r.last_applied + todo ≡ r.commit_index
    → r.commit_index ≤ length r.log
    → r.commit_index < u64_mod
    → apply_loop todo r
      ≡ (with_last_applied r r.commit_index, commands_between r.last_applied todo r.log)
apply_loop-slice zero r w sum h small =
    let same : r.last_applied ≡ r.commit_index = omega arith in
    unfold apply_loop in ap (λ n. (with_last_applied r n, [])) same
apply_loop-slice (suc todo) r w sum h small =
    let (e, got, split, _) = take-drop_step r.last_applied r.log (omega arith) in
    let found = find-numbered 1 r.last_applied (suc r.last_applied) r.log w (omega arith) ∙ got in
    rw
      (
        apply_loop_step todo r e (omega arith) small found,
        split,
        apply_loop-slice todo (with_last_applied r (suc r.last_applied)) w (omega arith) h small,
      )
      refl

-- The commands of exactly the entries above `last_applied` and up to `commit_index` are handed
-- on, in the order of the log, and `last_applied` reaches `commit_index`; nothing else changes.
-- (The entries are numbered 1, 2, …, `last_applied ≤ commit_index ≤` the length of the log, which
-- fits a `u64`.)
pub apply_committed_entries-slice :
    (r : Raft)
    → IsNumbered 1 r.log
    → r.last_applied ≤ r.commit_index
    → r.commit_index ≤ length r.log
    → length r.log < u64_mod
    → apply_committed_entries r ≡ (
      with_last_applied r r.commit_index,
      commands_between r.last_applied (r.commit_index - r.last_applied) r.log,
    )
unfolding apply_committed_entries
apply_committed_entries-slice r w le h small =
    apply_loop-slice (r.commit_index - r.last_applied) r w (omega arith) h (omega arith)

-- Whatever the indices are, applying changes nothing but `last_applied`.
apply_loop-frame : (todo : ℕ) (r : Raft) → (n : ℕ) × ((apply_loop todo r).0 ≡ with_last_applied r n)
unfolding apply_loop
apply_loop-frame zero r = (r.last_applied, refl)
apply_loop-frame (suc todo) r =
    let (n, ih) = apply_loop-frame todo (with_last_applied r (wrapping_add r.last_applied 1)) in
    elim (Bool-cases (ltb r.last_applied r.commit_index)) [
      | inl more ↦ (n, rw more ih)
      | inr done ↦ (r.last_applied, rw done refl)
    ]

pub apply_committed_entries-frame :
    (r : Raft) → (n : ℕ) × ((apply_committed_entries r).0 ≡ with_last_applied r n)
unfolding apply_committed_entries
apply_committed_entries-frame r = apply_loop-frame (r.commit_index - r.last_applied) r
