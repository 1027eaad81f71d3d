-- ===== src/Simulator/Widgets/LogMarks.antt =====
-- log_view.rs: the marks of the entries.
use raft_craft.Prelude.{
  ℕ, ◌==◌, zero, suc, ◌+◌, ◌-◌, ◌≤◌, ◌<◌, ◌≡◌, refl, ap, ◌∙◌, String, true, false, List, [], ◌∷◌,
  ◌++◌, some, arith, leb,
}
use raft_craft.Runtime.Metrics.{MetricsSnapshot}
use raft_craft.Simulator.Widgets.{LogItem, line, marker, log_lines, log_view}

-- `n` lines with one mark, from an index on.
abbrev pub marked : String → ℕ → ℕ → List LogItem
marked m from zero = []
marked m from (suc n) = line m from ∷ marked m (suc from) n

log_lines-split :
    (commit applied from a b : ℕ)
    → log_lines commit applied from (a + b)
      ≡ log_lines commit applied from a ++ log_lines commit applied (from + a) b
unfolding log_lines
log_lines-split commit applied from zero b =
    let sum : 0 + b ≡ b = omega arith in
    let same : from + 0 ≡ from = omega arith in rw (sum, same) refl
log_lines-split commit applied from (suc a) b =
    let sum : suc a + b ≡ suc (a + b) = omega arith in
    let same : from + suc a ≡ suc from + a = omega arith in
    rw (sum, same)
      (ap (◌∷◌ (line (marker commit applied from) from))
        (log_lines-split commit applied (suc from) a b))

log_lines-marked :
    (m : String) (commit applied from n : ℕ)
    → ((i : ℕ) → from ≤ i → i < from + n → marker commit applied i ≡ m)
    → log_lines commit applied from n ≡ marked m from n
unfolding log_lines
log_lines-marked m commit applied from zero h = refl
log_lines-marked m commit applied from (suc n) h =
    let first = h from (omega arith) (omega arith) in
    let rest =
      log_lines-marked m commit applied (suc from) n
        (λ i low high. h i (omega arith) (omega arith)) in
    rw (first, rest) refl

module _ (commit applied : ℕ) where
  done : (i : ℕ) → applied ≤ commit → i ≤ applied → marker commit applied i ≡ "✓"
  unfolding marker
  done i le h =
      let below : leb i commit ≡ true = ground arith in
      let seen : leb i applied ≡ true = ground arith in rw (below, seen) refl

  waiting : (i : ℕ) → applied < i → i ≤ commit → marker commit applied i ≡ "○"
  unfolding marker
  waiting i h k =
      let below : leb i commit ≡ true = ground arith in
      let unseen : leb i applied ≡ false = ground arith in rw (below, unseen) refl

  pending : (i : ℕ) → commit < i → marker commit applied i ≡ "·"
  unfolding marker
  pending i h = let above : leb i commit ≡ false = ground arith in rw above refl

-- The panel of the log of a live node that has entries has one line for each of them, in order:
-- first those that are applied, with ✓, then those that are committed and not applied, with ○,
-- then the others, with ·. (At most what is committed is applied, and at most what is in the log
-- is committed.)
pub log_view-sections :
    (snap : MetricsSnapshot)
    → snap.last_applied ≤ snap.commit_index
    → snap.commit_index ≤ snap.log_length
    → 0 < snap.log_length
    → log_view (some snap)
      ≡ marked "✓" 1 snap.last_applied
        ++ (marked "○" (1 + snap.last_applied) (snap.commit_index - snap.last_applied)
            ++ marked "·" (1 + snap.commit_index) (snap.log_length - snap.commit_index))
unfolding log_view
log_view-sections snap le le' some_entry =
    let c = snap.commit_index in
    let a = snap.last_applied in
    let len = snap.log_length in
    let present : (len == 0) ≡ false = ground arith in
    let sum : len ≡ a + ((c - a) + (len - c)) = omega arith in
    let there : 1 + a + (c - a) ≡ 1 + c = omega arith in
    rw present (
      ap (log_lines c a 1) sum
      ∙ log_lines-split c a 1 a ((c - a) + (len - c))
      ∙ ap (λ l. log_lines c a 1 a ++ l) (log_lines-split c a (1 + a) (c - a) (len - c))
      ∙ rw
          (
            there,
            log_lines-marked "✓" c a 1 a (λ i low high. done c a i le (omega arith)),
            log_lines-marked "○" c a (1 + a) (c - a)
                (λ i low high. waiting c a i (omega arith) (omega arith)),
            log_lines-marked "·" c a (1 + c) (len - c) (λ i low high. pending c a i (omega arith)),
          )
          refl)
