-- ===== src/Consensus/Chronicle.antt =====
-- What the history of the leaders is worth in a run: every log on a node, on a disk or on its way
-- consists of entries of leaders, and the leaders of one term are one.
pub mod Growth
pub mod Terms
pub mod Steps
use mathlib.Core.Option.{some-injective}
use raft_craft.Prelude.{
  ℕ, zero, suc, ◌+◌, ◌≤◌, ◌<◌, ◌==◌, ==_iff, ◌≡◌, refl, sym, ap, ◌∙◌, subst, ◌⊎◌, inl, inr, true,
  false, not, List, [], ◌∷◌, ◌++◌, some, arith, length, get_elem?, take, drop, u64_mod,
  wrapping_add, wrapping_add_lem, Any, All, All-occurs, Any-append, Any-append_right, contains,
  filter, Bool-cases,
}
use raft_craft.Protocol.{
  NodeId, Term, LogEntry, Message, AppendEntries, append_entries, Event, message, Action,
}
use raft_craft.Raft.State.{Raft, follower, is_leader, is_candidate, last_log_index, new, restore}
use raft_craft.Raft.Step.{step}
use raft_craft.Raft.Terms.{step-Later}
use raft_craft.Raft.Ballots.{sends}
use raft_craft.Raft.Durability.Unsaved.{saves}
use raft_craft.Raft.AppendEntries.{reconcile}
use raft_craft.Raft.Heartbeat.{append_entries_msg}
use raft_craft.Raft.Log.Numbered.{IsNumbered, IsNumbered-append}
use raft_craft.Raft.Replication.{last_log_index-length}
use raft_craft.Raft.Replication.Matching.{reconcile-Matching}
use raft_craft.Raft.Course.{
  Course, Wins, Campaigns, step-Course, Extends, TakesOn, Writes, step-Writes,
}
use raft_craft.Raft.Announcements.{IsOwn, Brings, step-AllOwn, append_entries_msg-Brings}
use raft_craft.Raft.Supporters.{IsDistinct}
use raft_craft.Consensus.System.{
  Reign, System, reign_of, start, update, after_step, after_restart, peers_in, CanOccur, Step,
  handle, crash, Reach, begin, next, Voted,
}
use raft_craft.Consensus.Ballots.{update-elim, Voted-old}
use raft_craft.Consensus.Election.{Invariant, Reach-Invariant}
use raft_craft.Consensus.Histories.{
  IsPrefix, IsPrefix-refl, IsPrefix-append, Held, Records, Records-Matching, Records-mono,
  Records-append, IsOrdered, IsElected, IsElected-unique, IsElected-mono, leader-IsElected,
}

-- A log of leaders' entries, numbered 1, 2, ….
abbrev pub IsSound : List Reign → List LogEntry → Type 0
IsSound hs xs = Records hs xs × IsNumbered 1 xs

-- The term of the leader is over, or the node is in it and runs for it no more.
abbrev pub IsOver : Reign → Raft → Type 0
IsOver h r = (h.term < r.current_term) ⊎ ((h.term ≡ r.current_term) × (is_candidate r.role ≡ false))

-- An AppendEntries is from a leader that has been, to another node, about the log that it had.
abbrev pub IsSourced : List Reign → NodeId → Message → Type 0
IsSourced hs to (append_entries m) =
    (h : Reign) × Held hs h × (h.term ≡ m.term) × ((to == h.leader) ≡ false) × Brings h.log m
IsSourced hs to _ = Unit {0}

pub record Chronicle (members : List NodeId) (s : System) : Type 0 where
  pub elected : (h : Reign) → Held s.reigns h → IsElected members s h
  pub ordered : IsOrdered s.reigns
  pub present :
      (i : NodeId)
      → is_leader (s.nodes i).role ≡ true
      → Held s.reigns
          (record { leader = i; term = (s.nodes i).current_term; log = (s.nodes i).log })
  pub latest :
      (i : NodeId)
      → is_leader (s.nodes i).role ≡ true
      → (h : Reign) → Held s.reigns h
      → h.term ≡ (s.nodes i).current_term
      → IsPrefix h.log (s.nodes i).log
  pub over : (i : NodeId) (h : Reign) → Held s.reigns h → h.leader ≡ i → IsOver h (s.nodes i)
  pub over_on_disks :
      (i : NodeId) (h : Reign) → Held s.reigns h → h.leader ≡ i → h.term ≤ (s.disks i).current_term
  pub running :
      (i : NodeId)
      → ((s.nodes i).role ≡ follower) ⊎ ((s.nodes i).current_term ≤ (s.disks i).current_term)
  pub in_reigns : (h : Reign) → Held s.reigns h → IsSound s.reigns h.log
  pub on_nodes : (i : NodeId) → IsSound s.reigns (s.nodes i).log
  pub on_disks : (i : NodeId) → IsSound s.reigns (s.disks i).log
  pub on_network :
      (to : NodeId) (m : Message) → Any (λ x. x ≡ (to, m)) s.sent → IsSourced s.reigns to m

pub start-Chronicle : (members : List NodeId) → Chronicle members (start members)
unfolding new
start-Chronicle members = record {
  elected = λ h k. absurd k;
  ordered = λ h k x y. absurd x;
  present = λ i l. absurd (ground arith);
  latest = λ i l h x. absurd x;
  over = λ i h x. absurd x;
  over_on_disks = λ i h x. absurd x;
  running = λ i. inl refl;
  in_reigns = λ h x. absurd x;
  on_nodes = λ i. (λ n e x. cc, tt);
  on_disks = λ i. (λ n e x. cc, tt);
  on_network = λ to m x. absurd x;
}

pub restart-Chronicle :
    (members : List NodeId) (s : System) (i : NodeId)
    → Chronicle members s
    → Chronicle members (after_restart members s i)
unfolding restore new
restart-Chronicle members s i v = record {
  elected =
      λ h k. IsElected-mono members s (after_restart members s i) h (λ x t c y. y) (v.elected h k);
  ordered = v.ordered;
  present =
      update-elim
        (λ j x.
          is_leader x.role ≡ true
          → Held s.reigns (record { leader = j; term = x.current_term; log = x.log }))
        s.nodes i _ (λ l. absurd (ground arith)) (λ j other. v.present j);
  latest =
      update-elim
        (λ j x.
          is_leader x.role ≡ true
          → (h : Reign) → Held s.reigns h
          → h.term ≡ x.current_term
          → IsPrefix h.log x.log)
        s.nodes i _ (λ l. absurd (ground arith)) (λ j other. v.latest j);
  over =
      update-elim (λ j x. (h : Reign) → Held s.reigns h → h.leader ≡ j → IsOver h x) s.nodes i _
        (λ h x self. let below = v.over_on_disks i h x self in ground arith) (λ j other. v.over j);
  over_on_disks = v.over_on_disks;
  running =
      update-elim (λ j x. (x.role ≡ follower) ⊎ (x.current_term ≤ (s.disks j).current_term)) s.nodes
        i _ (inl refl) (λ j other. v.running j);
  in_reigns = v.in_reigns;
  on_nodes =
      update-elim (λ j x. IsSound s.reigns x.log) s.nodes i _ (v.on_disks i)
        (λ j other. v.on_nodes j);
  on_disks = v.on_disks;
  on_network = v.on_network;
}
