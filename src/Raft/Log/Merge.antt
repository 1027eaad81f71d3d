-- ===== src/Raft/Log/Merge.antt =====
-- What the loop of `handle_append_entries` computes: below the first entry of the message the log
-- stays, from there on it is merged with the message.
use raft_craft.Prelude.{
  ℕ, zero, suc, ◌≤◌, ◌<◌, ◌≡◌, refl, sym, ap, ◌∙◌, ◌==◌, inl, inr, List, [], ◌∷◌, ◌++◌, none, some,
  arith, length, get_elem?, take, drop, position, if◌then◌else◌, Bool-cases,
}
use mathlib.Core.List.{append_assoc}
use native.Mathlib.Decide.{dec_lt}
use raft_craft.Protocol.{LogEntry}
use raft_craft.Raft.AppendEntries.{reconcile}
use raft_craft.Raft.Log.Numbered.{IsNumbered, has_index, position-numbered}

-- Entry by entry: what agrees in its term stays; the first that differs, and all behind it, gives
-- way to the message; what the message does not reach stays.
unfoldable pub merge : List LogEntry → List LogEntry → List LogEntry
merge old [] = old
merge [] (e ∷ new) = e ∷ new
merge (o ∷ old) (e ∷ new) = if o.term == e.term then o ∷ merge old new else e ∷ new

pub take-drop_step :
    (p : ℕ) (log : List LogEntry)
    → p < length log
    → (x : LogEntry) × (get_elem? log p ≡ some x)
      × (drop p log ≡ x ∷ drop (suc p) log)
      × (take (suc p) log ≡ take p log ++ x ∷ [])
take-drop_step p [] h = elim h [ ]
take-drop_step zero (x ∷ log) h = (x, refl, refl, refl)
take-drop_step (suc p) (y ∷ log) h =
    let (x, found, split, taken) = take-drop_step p log (omega arith) in
    (x, found, split, ap (◌∷◌ y) taken)

pub take_all :
    (p : ℕ) (log : List LogEntry) → length log ≤ p → (take p log ≡ log) × (drop p log ≡ [])
take_all zero [] h = (refl, refl)
take_all zero (x ∷ log) h = absurd (omega arith)
take_all (suc p) [] h = (refl, refl)
take_all (suc p) (x ∷ log) h =
    let (taken, rest) = take_all p log (omega arith) in (ap (◌∷◌ x) taken, rest)

pub take-append-drop : (p : ℕ) (log : List LogEntry) → take p log ++ drop p log ≡ log
take-append-drop zero log = refl
take-append-drop (suc p) [] = refl
take-append-drop (suc p) (x ∷ log) = ap (◌∷◌ x) (take-append-drop p log)

module _ (log rest : List LogEntry) (e : LogEntry) where
  reconcile_beyond :
      position (has_index e.index) log ≡ none → reconcile log (e ∷ rest) ≡ log ++ e ∷ rest
  unfolding reconcile
  reconcile_beyond miss = ground arith

  reconcile_within :
      (p : ℕ) (x : LogEntry)
      → position (has_index e.index) log ≡ some p
      → get_elem? log p ≡ some x
      → reconcile log (e ∷ rest)
        ≡ (if x.term == e.term then reconcile log rest else take p log ++ e ∷ rest)
  unfolding reconcile
  reconcile_within p x hit got = ground arith

pub merge_step :
    (x e : LogEntry) (old new : List LogEntry)
    → merge (x ∷ old) (e ∷ new) ≡ (if x.term == e.term then x ∷ merge old new else e ∷ new)
unfolding merge
merge_step x e old new = refl

pub merge_nil : (new : List LogEntry) → merge [] new ≡ new
unfolding merge
merge_nil [] = refl
merge_nil (e ∷ new) = refl

-- The search by index and the truncation keep the first `p` entries and merge the others with the
-- message, when the log is numbered 1, 2, … and reaches entry `p`, and the message is numbered from
-- `p + 1` on.
pub reconcile-merge :
    (p : ℕ) (log entries : List LogEntry)
    → IsNumbered 1 log
    → IsNumbered (suc p) entries
    → p ≤ length log
    → reconcile log entries ≡ take p log ++ merge (drop p log) entries
reconcile-merge p log [] w v h = unfold reconcile merge in sym (take-append-drop p log)
reconcile-merge p log (e ∷ rest) w v h =
    let found = position-numbered 1 p e.index log w (omega arith) in
    elim (dec_lt p (length log)) [
      | yes lt ↦
          let (x, got, split, taken) = take-drop_step p log lt in
          rw (reconcile_within log rest e p x (ground arith) got, split, merge_step)
            (elim (Bool-cases (x.term == e.term)) [
              | inl same ↦ rw same (
                  reconcile-merge (suc p) log rest w v.1 lt
                  ∙ rw taken (append_assoc (take p log) (x ∷ []) _))
              | inr other ↦ rw other refl
            ])
      | no beyond ↦
          let (taken, rest_nil) = take_all p log (omega arith) in
          rw (reconcile_beyond log rest e (ground arith), taken, rest_nil, merge_nil) refl
    ]
