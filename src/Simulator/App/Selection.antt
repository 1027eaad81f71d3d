-- ===== src/Simulator/App/Selection.antt =====
-- app.rs: the selected node.
use native.Mathlib.Decide.{dec_lt}
use native.Mathlib.Nat.{mod-lt, mod-eq_of_lt, mod_self, add-mod_right}
use raft_craft.Prelude.{
  ℕ, suc, ◌+◌, ◌-◌, ◌<◌, ◌≡◌, ◌%◌, ap, ◌∙◌, arith, u64_mod, wrapping_add, wrapping_add_lem,
}
use raft_craft.Simulator.App.{App, select_next, select_prev}

module _ {Char : Type 0} (a : App Char) (total : ℕ) (some_node : 0 < total) where
  -- Where there are nodes, the selection is one of them after each move.
  pub select-in_range :
      ((select_next a total).selected < total) × ((select_prev a total).selected < total)
  unfolding select_next select_prev
  select-in_range = (ground (arith, mod-lt _ some_node), ground (arith, mod-lt _ some_node))

  next_lem : (select_next a total).selected ≡ wrapping_add a.selected 1 % total
  unfolding select_next
  next_lem = ground arith

  prev_lem :
      (select_prev a total).selected
      ≡ wrapping_add (wrapping_add a.selected total) (u64_mod - 1) % total
  unfolding select_prev
  prev_lem = ground arith

back_one :
    (s total : ℕ)
    → s + total < u64_mod
    → 0 < total
    → wrapping_add (wrapping_add s total) (u64_mod - 1) ≡ s + total - 1
unfolding wrapping_add
back_one s total h k = omega arith

module _ {Char : Type 0} (a : App Char) (total : ℕ) (inside : a.selected < total)
    (fits : total + total < u64_mod) where
  next_mod : (select_next a total).selected ≡ (a.selected + 1) % total
  next_mod =
      next_lem a total (omega arith)
      ∙ ap (λ n. n % total) (wrapping_add_lem a.selected 1 (omega arith))

  prev_of :
      (b : App Char)
      → b.selected < total
      → (select_prev b total).selected ≡ (b.selected + total - 1) % total
  prev_of b h =
      prev_lem b total (omega arith)
      ∙ ap (λ n. n % total) (back_one b.selected total (omega arith) (omega arith))

  -- Moving the selection forward and back again returns to the same node. (The selection is one
  -- of the `total` nodes, and twice that number fits in a `u64`.)
  pub select_prev-select_next : (select_prev (select_next a total) total).selected ≡ a.selected
  select_prev-select_next =
      let next = select_next a total in
      let known = next_mod in
      elim (dec_lt (suc a.selected) total) [
        | yes lt ↦
            let moved : next.selected ≡ suc a.selected =
              known ∙ mod-eq_of_lt (omega arith) ∙ omega arith in
            let sum : next.selected + total - 1 ≡ a.selected + total = omega arith in
            prev_of next (omega arith)
            ∙ ap (λ n. n % total) sum
            ∙ add-mod_right a.selected total
            ∙ mod-eq_of_lt inside
        | no ge ↦
            let whole : a.selected + 1 ≡ total = omega arith in
            let moved : next.selected ≡ 0 = known ∙ ap (λ n. n % total) whole ∙ mod_self total in
            let sum : next.selected + total - 1 ≡ a.selected = omega arith in
            prev_of next (omega arith) ∙ ap (λ n. n % total) sum ∙ mod-eq_of_lt inside
      ]
