-- ===== src/Consensus/CatchUp.antt =====
-- A leader and a lagging follower in a cluster: with the log matching property the rounds of
-- heartbeat.rs and append_entries.rs bring the follower the whole log.
use native.Mathlib.Decide.{dec_le}
use raft_craft.Prelude.{
  ℕ, suc, ◌+◌, ◌-◌, ◌≤◌, ◌≡◌, sym, ap, ◌∙◌, inl, inr, true, List, some, arith, length, get_elem?,
  take, drop, get_elem?-in_range,
}
use raft_craft.Protocol.{NodeId, LogEntry, LogIndex}
use raft_craft.Raft.State.{Raft, LeaderState}
use raft_craft.Raft.AppendEntries.{log_matches, reconcile}
use raft_craft.Raft.Log.Numbered.{IsNumbered}
use raft_craft.Raft.Log.Merge.{take_all}
use raft_craft.Raft.Replication.{term_at}
use raft_craft.Raft.Replication.Matching.{Matching, log_matches-Matching, reconcile-Matching}
use raft_craft.Raft.Replication.CatchUp.{rounds, InTouch}
use raft_craft.Raft.Replication.CatchUp.Rounds.{rounds-catch_up}
use raft_craft.Raft.Supporters.{IsDistinct}
use raft_craft.Consensus.System.{System, Reach}
use raft_craft.Consensus.LogMatching.{Reach-logs_match}

-- A log that matches the leader's, and what the reconciliation makes of it.
module _ (f : Raft) (ys log' : List LogEntry) (p : ℕ) (w : IsNumbered 1 f.log) (v : IsNumbered 1 ys)
    (m : Matching f.log ys) (within : p ≤ length ys)
    (matches : log_matches f p (term_at ys p) ≡ true) (made : log' ≡ reconcile f.log (drop p ys))
    (brought : (j : ℕ) (e : LogEntry)
      → get_elem? ys (p + j) ≡ some e
      → (x : LogEntry) × (get_elem? log' (p + j) ≡ some x) × (x.term ≡ e.term)) where
  whole_of : (k : ℕ) → k ≡ length ys → take k f.log ≡ take k ys → take (length ys) f.log ≡ ys
  whole_of k size same =
      ap (λ n. take n f.log) (sym size)
      ∙ same
      ∙ ap (λ n. take n ys) size
      ∙ (take_all (length ys) ys (omega arith)).0

  kept_whole : log' ≡ f.log → take (length ys) f.log ≡ ys
  kept_whole kept = elim (dec_le (length ys) p) [
    | yes all ↦ whole_of p (omega arith) (log_matches-Matching f p ys w m within matches).0
    | no more ↦
        let q = length ys - suc p in
        let (e, got) = get_elem?-in_range ys (p + q) (omega arith) in
        let (x, there, term) = brought q e got in
        whole_of (suc (p + q)) (omega arith) (m (p + q) x e (rw kept at there) got term)
  ]

  whole_log : take (length ys) log' ≡ ys
  whole_log = elim (reconcile-Matching f p ys w v m within matches) [
    | inl kept ↦ ap (take (length ys)) (made ∙ kept) ∙ kept_whole (made ∙ kept)
    | inr theirs ↦ ap (take (length ys)) (made ∙ theirs) ∙ (take_all (length ys) ys (omega arith)).0
  ]

-- In every run of a cluster of distinct members, if from some moment on a leader and one of its
-- peers exchange messages undisturbed, then after at most as many rounds as the next index says,
-- the log of the peer begins with the whole log of the leader, and the leader knows it. (The
-- leader's term is at least the peer's, it has an index for the peer in both its vectors, and the
-- next index is at most one beyond the end of its log.)
pub Reach-catches_up :
    {members : List NodeId} {s : System}
    → IsDistinct members
    → Reach members s
    → (i j : NodeId) (peer n : ℕ) → InTouch peer n (s.nodes i) (s.nodes j)
    → (k : ℕ) × (l' : Raft) × (f' : Raft) × (ls : LeaderState) × (known : LogIndex) × (k ≤ suc n)
      × (rounds k peer (s.nodes i) (s.nodes j) ≡ some (l', f'))
      × (take (length (s.nodes i).log) f'.log ≡ (s.nodes i).log)
      × (l'.leader_state ≡ some ls)
      × (get_elem? ls.match_index peer ≡ some known)
      × (length (s.nodes i).log ≤ known)
Reach-catches_up {members} {s} d r i j peer n t =
    let (p, k, l', f', low, sum, matches, done, (made, brought, ls, known, kept, noted, enough)) =
      rounds-catch_up peer n (s.nodes i) (s.nodes j) t in
    (
      k,
      l',
      f',
      ls,
      known,
      omega arith,
      done,
      whole_log (s.nodes j) (s.nodes i).log f'.log p t.follower_numbered t.leader_numbered
          (Reach-logs_match d r j i) (omega (arith, t.within)) matches made brought,
      kept,
      noted,
      enough,
    )
