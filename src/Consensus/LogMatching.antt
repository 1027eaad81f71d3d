-- ===== src/Consensus/LogMatching.antt =====
-- The log matching property: raft-core/src/raft/append_entries.rs, heartbeat.rs and client.rs in
-- a cluster.
use raft_craft.Prelude.{
  ℕ, suc, ◌≡◌, ◌<◌, inl, inr, true, length, List, some, get_elem?, take, contains, u64_mod,
}
use raft_craft.Protocol.{NodeId, LogEntry, Event, Action}
use raft_craft.Raft.State.{Raft}
use raft_craft.Raft.Log.Numbered.{IsNumbered}
use raft_craft.Raft.Parts.{Performs, whole-Performs, first_part-cases}
use raft_craft.Raft.Supporters.{IsDistinct}
use raft_craft.Consensus.System.{
  System, after_step, CanOccur, handle, interrupt, crash, Reach, begin, next,
}
use raft_craft.Consensus.Election.{Reach-Invariant, after_step-Invariant}
use raft_craft.Consensus.Histories.{Records-Matching}
use raft_craft.Consensus.Chronicle.{Chronicle, start-Chronicle, restart-Chronicle}
use raft_craft.Consensus.Chronicle.Steps.{after_step-Chronicle}

-- A member performs a part of a step, in a run with distinct members.
performed :
    {members : List NodeId} {s : System} (i : NodeId) (e : Event) (p : Raft × List Action)
    → IsDistinct members
    → Chronicle members s
    → Reach members s
    → contains members i ≡ true
    → CanOccur s i e
    → suc (s.nodes i).current_term < u64_mod
    → suc (length (s.nodes i).log) < u64_mod
    → Performs (s.nodes i) e p
    → Chronicle members (after_step s i p)
performed {members} {s} i e p d c r here o fits short done = after_step-Chronicle (record {
  chronicle = c;
  invariant = Reach-Invariant r;
  invariant_after = after_step-Invariant members s i e p (Reach-Invariant r) o fits done;
  distinct = d;
  here = here;
  occurs = o;
  fits = fits;
  short = short;
  done = done;
})

pub Reach-Chronicle :
    {members : List NodeId} {s : System}
    → IsDistinct members
    → Reach members s
    → Chronicle members s
Reach-Chronicle {members} d begin = start-Chronicle members
Reach-Chronicle {members} d (next {s} r (handle i e p here o fits short done)) =
    performed i e p d (Reach-Chronicle d r) r here o fits short
      (whole-Performs (s.nodes i) e p done)
Reach-Chronicle {members} d (next {s} r (interrupt i e p acts rest here o fits short done split)) =
    elim (first_part-cases (s.nodes i) e p acts rest done split) [
      | inl (kept, part) ↦ rw kept (
          restart-Chronicle members (after_step s i (p.0, acts)) i
            (performed i e (p.0, acts) d (Reach-Chronicle d r) r here o fits short part))
      | inr (lost, _, silent) ↦
          rw (lost, silent) (restart-Chronicle members s i (Reach-Chronicle d r))
    ]
Reach-Chronicle {members} d (next {s} r (crash i here)) =
    restart-Chronicle members s i (Reach-Chronicle d r)

-- Log matching: in every run of a cluster of distinct members, if the logs of two nodes have
-- entries of the same term at the same place, they are the same up to and including that place:
-- indices, terms and commands. (The network may lose, repeat, delay and reorder messages, and
-- nodes may crash, also between two actions of a step, and start again from what they had saved;
-- terms and logs stay below the largest number.)
pub Reach-logs_match :
    {members : List NodeId} {s : System}
    → IsDistinct members
    → Reach members s
    → (i j : NodeId) (n : ℕ) (e f : LogEntry) → get_elem? (s.nodes i).log n ≡ some e
    → get_elem? (s.nodes j).log n ≡ some f
    → e.term ≡ f.term
    → take (suc n) (s.nodes i).log ≡ take (suc n) (s.nodes j).log
Reach-logs_match {members} {s} d r i j =
    let c = Reach-Chronicle d r in
    Records-Matching s.reigns (s.nodes i).log (s.nodes j).log c.ordered (c.on_nodes i).0
      (c.on_nodes j).0

-- In every run of a cluster of distinct members the entries of every log, on the nodes and on
-- their disks, carry the indices 1, 2, …. (The same runs as for the log matching property.)
pub Reach-IsNumbered :
    {members : List NodeId} {s : System}
    → IsDistinct members
    → Reach members s
    → (i : NodeId) → IsNumbered 1 (s.nodes i).log × IsNumbered 1 (s.disks i).log
Reach-IsNumbered d r i = let c = Reach-Chronicle d r in ((c.on_nodes i).1, (c.on_disks i).1)
