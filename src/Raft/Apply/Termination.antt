-- ===== src/Raft/Apply/Termination.antt =====
-- raft-core/src/raft/append_entries.rs, `apply_committed_entries`: the `while` loop ends.
use raft_craft.Prelude.{
  ℕ, zero, suc, ◌+◌, ◌-◌, ◌≤◌, ◌<◌, ◌≡◌, refl, inl, inr, false, [], arith, ltb, Bool-cases,
  wrapping_add, wrapping_add_lem, u64_mod,
}
use raft_craft.Raft.State.{Raft, with_last_applied}
use raft_craft.Raft.AppendEntries.{apply_loop, apply_committed_entries}

-- Nothing is left to apply: the test of the loop fails.
abbrev IsDone : Raft → Type 0
IsDone r = ltb r.last_applied r.commit_index ≡ false

apply_loop_done : (todo : ℕ) (r : Raft) → IsDone r → apply_loop todo r ≡ (r, [])
unfolding apply_loop
apply_loop_done zero r h = refl
apply_loop_done (suc todo) r h = rw h refl

apply_loop_ends :
    (todo extra : ℕ) (r : Raft)
    → r.commit_index < u64_mod
    → r.commit_index - r.last_applied ≤ todo
    → IsDone (apply_loop todo r).0 × (apply_loop (todo + extra) r ≡ apply_loop todo r)
unfolding apply_loop
apply_loop_ends zero extra r h enough =
    let ended : IsDone r = ground arith in (ended, apply_loop_done (0 + extra) r ended)
apply_loop_ends (suc todo) extra r h enough =
    let sum : suc todo + extra ≡ suc (todo + extra) = omega arith in
    let next = wrapping_add r.last_applied 1 in
    elim (Bool-cases (ltb r.last_applied r.commit_index)) [
      | inr ended ↦ rw (sum, ended) (ended, refl)
      | inl more ↦
          let small : r.last_applied < r.commit_index = ground arith in
          let (over, same) =
            apply_loop_ends todo extra (with_last_applied r next) h
              (omega (arith, wrapping_add_lem r.last_applied 1)) in
          rw (sum, more) (over, rw same refl)
    ]

-- The `while` loop of `apply_committed_entries` ends, in any state whose commit index fits a
-- `u64`: after at most as many rounds as entries are committed and not applied, the condition of
-- the loop is false, and more rounds would change nothing.
pub apply_committed_entries_terminates :
    (r : Raft) (extra : ℕ)
    → r.commit_index < u64_mod
    → (let r' = (apply_committed_entries r).0 in ltb r'.last_applied r'.commit_index ≡ false)
      × (apply_loop ((r.commit_index - r.last_applied) + extra) r ≡ apply_committed_entries r)
unfolding apply_committed_entries
apply_committed_entries_terminates r extra h =
    apply_loop_ends (r.commit_index - r.last_applied) extra r h (omega arith)
