-- ===== src/Raft/Log/Agreement.antt =====
-- What a merge keeps of the old log and what it takes from the message.
use raft_craft.Prelude.{
  max, ℕ, zero, suc, ◌+◌, ◌-◌, ◌≤◌, ◌≡◌, refl, ap, ◌∙◌, ◌==◌, ==_refl, ==_iff, inl, inr, List, [],
  ◌∷◌, some, arith, length, get_elem?, take, drop, Bool-cases, length-append,
}
use raft_craft.Protocol.{LogEntry}
use raft_craft.Raft.AppendEntries.{reconcile}
use raft_craft.Raft.Log.Numbered.{IsNumbered, IsNumbered-append, IsNumbered-take, IsNumbered-drop}
use raft_craft.Raft.Log.Slices.{
  get_elem?-append, length-drop, length-take, take-append, drop-append, take_by_parts,
}
use raft_craft.Raft.Log.Merge.{merge, reconcile-merge}

-- Where both logs reach, the first `n` entries have the same terms.
abbrev pub AgreeBelow : ℕ → List LogEntry → List LogEntry → Type 0
AgreeBelow zero old new = Unit {0}
AgreeBelow (suc n) [] new = Unit {0}
AgreeBelow (suc n) (o ∷ old) [] = Unit {0}
AgreeBelow (suc n) (o ∷ old) (e ∷ new) = (o.term ≡ e.term) × AgreeBelow n old new

pub merge-keeps :
    (n : ℕ) (old new : List LogEntry)
    → AgreeBelow n old new
    → n ≤ length old
    → (take n (merge old new) ≡ take n old) × (n ≤ length (merge old new))
unfolding merge
merge-keeps zero old new a h = (refl, omega arith)
merge-keeps (suc n) [] new a h = absurd (omega arith)
merge-keeps (suc n) (o ∷ old) [] a h = (refl, h)
merge-keeps (suc n) (o ∷ old) (e ∷ new) a h =
    let (kept, long) = merge-keeps n old new a.1 (omega arith) in
    let same = (==_iff o.term e.term).1 a.0 in rw same (ap (◌∷◌ o) kept, omega arith)

merge_self : (xs : List LogEntry) → merge xs xs ≡ xs
unfolding merge
merge_self [] = refl
merge_self (x ∷ xs) = rw ==_refl (ap (◌∷◌ x) (merge_self xs))

merge_idempotent : (old new : List LogEntry) → merge (merge old new) new ≡ merge old new
unfolding merge
merge_idempotent old [] = refl
merge_idempotent [] (e ∷ new) = merge_self (e ∷ new)
merge_idempotent (o ∷ old) (e ∷ new) = elim (Bool-cases (o.term == e.term)) [
  | inl same ↦ rw (same, same) (ap (◌∷◌ o) (merge_idempotent old new))
  | inr other ↦ rw other (merge_self (e ∷ new))
]

pub length-merge : (old new : List LogEntry) → length new ≤ length (merge old new)
unfolding merge
length-merge old [] = omega arith
length-merge [] (e ∷ new) = omega arith
length-merge (o ∷ old) (e ∷ new) = ground (arith, length-merge old new)

length-merge_bound :
    (old new : List LogEntry) → length (merge old new) ≤ max (length old) (length new)
unfolding merge
length-merge_bound old [] = omega arith
length-merge_bound [] (e ∷ new) = omega arith
length-merge_bound (o ∷ old) (e ∷ new) = ground (arith, length-merge_bound old new)

-- At every position of the message the merge has an entry of the same term.
pub merge-contains :
    (old new : List LogEntry) (n : ℕ) (e : LogEntry)
    → get_elem? new n ≡ some e
    → (x : LogEntry) × (get_elem? (merge old new) n ≡ some x) × (x.term ≡ e.term)
unfolding merge
merge-contains old [] n e h = ground arith
merge-contains [] (d ∷ new) n e h = (e, h, refl)
merge-contains (o ∷ old) (d ∷ new) zero e h = elim (Bool-cases (o.term == d.term)) [
  | inl same ↦ rw same (o, refl, ground arith)
  | inr other ↦ rw other (d, refl, ground arith)
]
merge-contains (o ∷ old) (d ∷ new) (suc n) e h = elim (Bool-cases (o.term == d.term)) [
  | inl same ↦ rw same (merge-contains old new n e h)
  | inr other ↦ rw other (e, h, refl)
]

IsNumbered-merge :
    (k : ℕ) (old new : List LogEntry)
    → IsNumbered k old
    → IsNumbered k new
    → IsNumbered k (merge old new)
unfolding merge
IsNumbered-merge k old [] w v = w
IsNumbered-merge k [] (e ∷ new) w v = v
IsNumbered-merge k (o ∷ old) (e ∷ new) w v =
    ground (arith, IsNumbered-merge (suc k) old new w.1 v.1)

-- The hypotheses under which the loop runs: a numbered log that reaches the entry before the
-- message, and a message numbered from there on.
module _ (p : ℕ) (log entries : List LogEntry) (w : IsNumbered 1 log)
    (v : IsNumbered (suc p) entries) (reach : p ≤ length log) where
  pub reconcile-IsNumbered : IsNumbered 1 (reconcile log entries)
  reconcile-IsNumbered = rw (reconcile-merge p log entries w v reach) (
      IsNumbered-append 1 (suc p) (take p log) (merge (drop p log) entries)
        (IsNumbered-take 1 p log w) (omega (arith, length-take p log reach))
        (IsNumbered-merge (suc p) (drop p log) entries
          (IsNumbered-drop 1 p (suc p) log w (omega arith)) v))

  -- The loop reaches past the message's last entry.
  pub length-reconcile : p + length entries ≤ length (reconcile log entries)
  length-reconcile = rw (reconcile-merge p log entries w v reach) (
      omega (
        arith,
        length-append {0} (take p log) (merge (drop p log) entries),
        length-take p log reach,
        length-merge (drop p log) entries,
      ))

  pub length-reconcile_bound :
      length (reconcile log entries) ≤ max (length log) (p + length entries)
  length-reconcile_bound = rw (reconcile-merge p log entries w v reach) (
      omega (
        arith,
        length-append {0} (take p log) (merge (drop p log) entries),
        length-take p log reach,
        length-drop p log,
        length-merge_bound (drop p log) entries,
      ))

  -- The entries up to the one before the message stay as they are.
  pub take-reconcile : take p (reconcile log entries) ≡ take p log
  take-reconcile =
      rw (reconcile-merge p log entries w v reach)
        (take-append p (take p log) (merge (drop p log) entries) (length-take p log reach))

  -- A message that arrives twice changes nothing the second time. (The log is numbered 1, 2, …
  -- and reaches entry `p`, the message is numbered from `p + 1` on.)
  reconcile_idempotent : reconcile (reconcile log entries) entries ≡ reconcile log entries
  reconcile_idempotent =
      reconcile-merge p (reconcile log entries) entries reconcile-IsNumbered v
        (omega (arith, length-reconcile))
      ∙ rw
          (
            take-reconcile,
            reconcile-merge p log entries w v reach,
            drop-append p (take p log) (merge (drop p log) entries) (length-take p log reach),
            merge_idempotent,
          )
          refl

  -- Every entry of the message is in the log afterwards, under its index and with its term.
  -- (The log is numbered 1, 2, … and reaches entry `p`, the message is
  -- numbered from `p + 1` on.)
  pub reconcile-contains :
      (n : ℕ) (e : LogEntry)
      → get_elem? entries n ≡ some e
      → (x : LogEntry) × (get_elem? (reconcile log entries) (p + n) ≡ some x) × (x.term ≡ e.term)
  reconcile-contains n e h =
      rw
        (
          reconcile-merge p log entries w v reach,
          get_elem?-append (take p log) (merge (drop p log) entries) p n (length-take p log reach),
        )
        (merge-contains (drop p log) entries n e h)

  -- The first `c` entries of the log stay as they are if those behind the first `p` have the
  -- terms of the message's entries wherever it reaches. (The log is numbered 1, 2, … and reaches
  -- entry `p`, the message is numbered from `p + 1` on.)
  pub reconcile-keeps :
      (c : ℕ)
      → AgreeBelow (c - p) (drop p log) entries
      → c ≤ length log
      → (take c (reconcile log entries) ≡ take c log) × (c ≤ length (reconcile log entries))
  reconcile-keeps c agree long =
      let split : drop p (reconcile log entries) ≡ merge (drop p log) entries =
        rw (reconcile-merge p log entries w v reach)
          (drop-append p (take p log) (merge (drop p log) entries) (length-take p log reach)) in
      let (same, below) =
        merge-keeps (c - p) (drop p log) entries agree (omega (arith, length-drop p log)) in
      (
        take_by_parts p c (reconcile log entries) log take-reconcile (rw split same),
        omega (
          arith,
          length-drop p (reconcile log entries),
          ap length split,
          below,
          length-reconcile,
        ),
      )
