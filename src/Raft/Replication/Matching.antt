-- ===== src/Raft/Replication/Matching.antt =====
-- Two logs that agree up to every entry in which their terms agree, and what the loop of
-- `handle_append_entries` makes of them.
use raft_craft.Prelude.{
  ℕ, zero, suc, ◌+◌, ◌≤◌, ◌==◌, ==_iff, ◌≡◌, refl, sym, ap, ◌∙◌, ◌⊎◌, inl, inr, true, List, [], ◌∷◌,
  ◌++◌, some, arith, length, get_elem?, take, drop, Bool-cases, Option-cases, get_elem?-in_range,
}
use raft_craft.Protocol.{LogEntry}
use raft_craft.Raft.State.{Raft}
use raft_craft.Raft.AppendEntries.{reconcile, log_matches}
use raft_craft.Raft.Log.Numbered.{IsNumbered, IsNumbered-drop, any-numbered}
use raft_craft.Raft.Log.Merge.{merge, reconcile-merge, take-append-drop}
use raft_craft.Raft.Validity.Replication.{log_matches-reach}
use raft_craft.Raft.Replication.{term_at, get_elem?-drop}

-- Entries of the same index and term have the same logs up to them.
abbrev pub Matching : List LogEntry → List LogEntry → Type 0
Matching xs ys =
    (n : ℕ) (e f : LogEntry)
    → get_elem? xs n ≡ some e
    → get_elem? ys n ≡ some f
    → e.term ≡ f.term
    → take (suc n) xs ≡ take (suc n) ys

Matching-tail : (o : LogEntry) (xs ys : List LogEntry) → Matching (o ∷ xs) (o ∷ ys) → Matching xs ys
Matching-tail o xs ys m n e f x y t = ap (drop 1) (m (suc n) e f x y t)

merge-Matching :
    (old new : List LogEntry) → Matching old new → (merge old new ≡ old) ⊎ (merge old new ≡ new)
unfolding merge
merge-Matching old [] m = inl refl
merge-Matching [] (e ∷ new) m = inr refl
merge-Matching (o ∷ old) (e ∷ new) m = elim (Bool-cases (o.term == e.term)) [
  | inr other ↦ rw other (inr refl)
  | inl same ↦
      let one : o ∷ [] ≡ e ∷ [] = m 0 o e refl refl ((==_iff o.term e.term).0 same) in
      let equal : o ≡ e = cc in
      rw same (elim (merge-Matching old new (Matching-tail o old new (rw (sym equal) at m))) [
        | inl kept ↦ inl (ap (◌∷◌ o) kept)
        | inr taken ↦ inr (cc)
      ])
]

drop-take : (p m : ℕ) (xs : List LogEntry) → drop p (take (p + m) xs) ≡ take m (drop p xs)
drop-take zero m xs = let e : 0 + m ≡ m = omega arith in rw e refl
drop-take (suc p) zero [] = let e : suc p + 0 ≡ suc p = omega arith in rw e refl
drop-take (suc p) (suc m) [] = let e : suc p + suc m ≡ suc (p + suc m) = omega arith in rw e refl
drop-take (suc p) m (x ∷ xs) =
    let e : suc p + m ≡ suc (p + m) = omega arith in rw e (drop-take p m xs)

Matching-drop : (p : ℕ) (xs ys : List LogEntry) → Matching xs ys → Matching (drop p xs) (drop p ys)
Matching-drop p xs ys m n e f x y t =
    let sum : p + suc n ≡ suc (p + n) = omega arith in
    sym (drop-take p (suc n) xs)
    ∙ rw sum (
        ap (drop p)
          (m (p + n) e f (sym (get_elem?-drop p n xs) ∙ x) (sym (get_elem?-drop p n ys) ∙ y) t))
    ∙ drop-take p (suc n) ys

-- Where the consistency check succeeds, the logs agree up to there.
pub log_matches-Matching :
    (r : Raft) (p : ℕ) (ys : List LogEntry)
    → IsNumbered 1 r.log
    → Matching r.log ys
    → p ≤ length ys
    → log_matches r p (term_at ys p) ≡ true
    → (take p r.log ≡ take p ys) × (p ≤ length r.log)
unfolding log_matches
log_matches-Matching r zero ys w m within h = (refl, omega arith)
log_matches-Matching r (suc p) ys w m within h =
    let (y, there) = get_elem?-in_range ys p within in
    let found = any-numbered 1 p (suc p) (term_at ys (suc p)) r.log w (omega arith) in
    elim (Option-cases (get_elem? r.log p)) [
      | inl e ↦ absurd (ground (arith, found, h, e))
      | inr (x, e) ↦
          let terms : (x.term == y.term) ≡ true = ground (arith, found, h, e, there) in
          (
            m p x y e there ((==_iff x.term y.term).0 terms),
            log_matches-reach r (suc p) (term_at ys (suc p)) w h,
          )
    ]

-- The reconciled log is one of the two.
pub reconcile-Matching :
    (r : Raft) (p : ℕ) (ys : List LogEntry)
    → IsNumbered 1 r.log
    → IsNumbered 1 ys
    → Matching r.log ys
    → p ≤ length ys
    → log_matches r p (term_at ys p) ≡ true
    → (reconcile r.log (drop p ys) ≡ r.log) ⊎ (reconcile r.log (drop p ys) ≡ ys)
reconcile-Matching r p ys w v m within h =
    let (same, reach) = log_matches-Matching r p ys w m within h in
    let whole =
      reconcile-merge p r.log (drop p ys) w (IsNumbered-drop 1 p (suc p) ys v (omega arith))
        reach in
    elim (merge-Matching (drop p r.log) (drop p ys) (Matching-drop p r.log ys m)) [
      | inl kept ↦ inl (whole ∙ ap (λ l. take p r.log ++ l) kept ∙ take-append-drop p r.log)
      | inr taken ↦ inr (
          whole
          ∙ ap (λ l. take p r.log ++ l) taken
          ∙ ap (λ l. l ++ drop p ys) same
          ∙ take-append-drop p ys)
    ]
