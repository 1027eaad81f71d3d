-- ===== src/Raft/Commit.antt =====
-- raft-core/src/raft/append_entries.rs, `try_advance_commit_index`: which index the scan finds.
use raft_craft.Prelude.{
  ℕ, zero, suc, ◌+◌, ◌≤◌, ◌<◌, ◌≡◌, refl, ap, ◌∙◌, ◌⊎◌, inl, inr, List, [], ◌∷◌, ◌++◌, some, arith,
  ltb, leb, get_elem?, count, All, Any, All-append, All-reverse, All-get_elem?, Any-reverse,
  Any-get_elem?, reverse-Any, get_elem?-Any, if◌then◌else◌,
}
use mathlib.Core.List.{reverse, reverse-cons}
use raft_craft.Protocol.{Term, LogIndex, LogEntry}
use raft_craft.Raft.State.{Raft, quorum}
use raft_craft.Raft.AppendEntries.{scan_commit, peer_matches, advance_commit_index}
use raft_craft.Raft.Log.Numbered.{IsNumbered, get_elem?-numbered, numbered_above}

-- An entry of the term `t` that a quorum stores: the leader itself and the peers whose match index
-- has reached it.
pub record IsCommittable (t : Term) (q : ℕ) (matches : List LogIndex) (e : LogEntry) : Type 0 where
  pub own_term : e.term ≡ t
  pub replicated : q ≤ 1 + count (λ m. leb e.index m) matches

abbrev IsDescending : List LogEntry → Type 0
IsDescending [] = Unit {0}
IsDescending (e ∷ log) = All (λ x. x.index < e.index) log × IsDescending log

module _ (t : Term) (c : LogIndex) (q : ℕ) (matches : List LogIndex) where
  abbrev Found : LogIndex → LogEntry → Type 0
  Found n e = (e.index ≡ n) × (c < e.index) × IsCommittable t q matches e

  scan_sound :
      (log : List LogEntry)
      → (scan_commit t c q matches log ≡ c) ⊎ Any (Found (scan_commit t c q matches log)) log
  unfolding scan_commit
  scan_sound [] = inl refl
  scan_sound (e ∷ log) = ground (arith, scan_sound log)

  scan_maximal :
      (log : List LogEntry) (i : ℕ) (e : LogEntry)
      → IsDescending log
      → get_elem? log i ≡ some e
      → IsCommittable t q matches e
      → (e.index ≤ scan_commit t c q matches log) ⊎ (e.index ≤ c)
  unfolding scan_commit
  scan_maximal [] i e d got w = cc
  scan_maximal (x ∷ log) zero e d got w = ground arith
  scan_maximal (x ∷ log) (suc i) e d got w = ground (
    arith,
    scan_maximal log i e d.1 got w,
    All-get_elem? (λ y. y.index < x.index) log i e d.0 got,
  )

IsDescending-append :
    (log : List LogEntry) (e : LogEntry)
    → IsDescending log
    → All (λ x. e.index < x.index) log
    → IsDescending (log ++ e ∷ [])
IsDescending-append [] e d a = (tt, tt)
IsDescending-append (x ∷ log) e d a = (
  All-append (λ y. y.index < x.index) log (e ∷ []) d.0 (a.0, tt),
  IsDescending-append log e d.1 a.1,
)

reverse-IsDescending : (k : ℕ) (log : List LogEntry) → IsNumbered k log → IsDescending (reverse log)
reverse-IsDescending k [] w = tt
reverse-IsDescending k (e ∷ log) w = rw (reverse-cons e log) (
    IsDescending-append (reverse log) e (reverse-IsDescending (suc k) log w.1) (
      All-reverse (λ x. e.index < x.index) log
        (numbered_above e.index (suc k) log w.1 (omega arith))))

abbrev scanned : Raft → LogIndex
scanned r = scan_commit r.current_term r.commit_index (quorum r) (peer_matches r) (reverse r.log)

advance_commit_index-scanned :
    (r : Raft)
    → (advance_commit_index r).commit_index
      ≡ (if ltb r.commit_index (scanned r) then scanned r else r.commit_index)
unfolding advance_commit_index
advance_commit_index-scanned r = ground arith

module _ (r : Raft) (w : IsNumbered 1 r.log) where
  -- Whenever the commit index moves, with entries numbered 1, 2, …, the entry there is of the
  -- current term and the match indices of a quorum, the node itself included, have reached it.
  pub advance_commit_index_sound :
      r.commit_index < (advance_commit_index r).commit_index
      → (i : ℕ) × (e : LogEntry) × (get_elem? r.log i ≡ some e)
        × (suc i ≡ (advance_commit_index r).commit_index)
        × IsCommittable r.current_term (quorum r) (peer_matches r) e
  advance_commit_index_sound h =
      elim (scan_sound r.current_term r.commit_index (quorum r) (peer_matches r) (reverse r.log)) [
        | inl unmoved ↦ absurd (ground (arith, advance_commit_index-scanned r))
        | inr found ↦
            let P = Found r.current_term r.commit_index (quorum r) (peer_matches r) (scanned r) in
            let (i, e, got, f) = Any-get_elem? P r.log (Any-reverse P r.log found) in
            (
              i,
              e,
              got,
              ground (
                arith,
                advance_commit_index-scanned r,
                get_elem?-numbered 1 i r.log e w got,
                f.0,
                f.1,
              ),
              f.2,
            )
      ]

  -- No entry above the new commit index could have been committed: every entry of the current
  -- term that the match indices of a quorum have reached is at or below it. (The entries are
  -- numbered 1, 2, ….)
  pub advance_commit_index_maximal :
      (i : ℕ) (e : LogEntry)
      → get_elem? r.log i ≡ some e
      → IsCommittable r.current_term (quorum r) (peer_matches r) e
      → suc i ≤ (advance_commit_index r).commit_index
  advance_commit_index_maximal i e got c =
      let (j, x, there, same) =
        Any-get_elem? (λ y. y ≡ e) (reverse r.log)
          (reverse-Any (λ y. y ≡ e) r.log (get_elem?-Any r.log i e got)) in
      ground (
        arith,
        advance_commit_index-scanned r,
        get_elem?-numbered 1 i r.log e w got,
        scan_maximal r.current_term r.commit_index (quorum r) (peer_matches r) (reverse r.log) j e
            (reverse-IsDescending 1 r.log w) (there ∙ ap some same) c,
      )
