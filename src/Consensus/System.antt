-- ===== src/Consensus/System.antt =====
-- A cluster of the nodes of raft-core/src/lib.rs, each with a disk for its persistent state, on a
-- network that loses, delays, repeats and reorders messages as it likes.
use raft_craft.Prelude.{
  length, suc, ◌<◌, ◌==◌, ◌≡◌, true, not, List, [], ◌∷◌, ◌++◌, none, some, Any, contains, filter,
  if◌then◌else◌, u64_mod,
}
use raft_craft.Protocol.{
  NodeId, Term, LogEntry, Message, Event, message, election_timeout, heartbeat_timeout,
  client_request, Action,
}
use raft_craft.Raft.State.{Raft, PersistentState, default_persistent, is_leader, new, restore}
use raft_craft.Raft.Step.{step}
use raft_craft.Raft.Ballots.{sends}
use raft_craft.Raft.Durability.Unsaved.{saves}
use raft_craft.Raft.Parts.{loses_save}

-- A vote that was cast at some time.
pub record Ballot : Type 0 where
  pub voter : NodeId
  pub term : Term
  pub candidate : NodeId

-- A log that a leader had in its term.
pub record Reign : Type 0 where
  pub leader : NodeId
  pub term : Term
  pub log : List LogEntry

-- `sent` are the messages ever sent, with their receivers; `ballots` is the history of the votes,
-- `reigns` the history of the leaders and their logs.
pub record System : Type 0 where
  pub nodes : NodeId → Raft
  pub disks : NodeId → PersistentState
  pub sent : List (NodeId × Message)
  pub ballots : List Ballot
  pub reigns : List Reign

abbrev pub peers_in : List NodeId → NodeId → List NodeId
peers_in members i = filter (λ p. not (p == i)) members

abbrev pub start : List NodeId → System
start members = record {
  nodes = λ i. new i (peers_in members i);
  disks = λ i. default_persistent;
  sent = [];
  ballots = [];
  reigns = [];
}

abbrev pub update {ℓ} : {A : Type ℓ} → (NodeId → A) → NodeId → A → NodeId → A
update f i a j = if i == j then a else f j

-- The vote in a state, if there is one.
abbrev pub ballot_of : NodeId → PersistentState → List Ballot
ballot_of i s = elim s.voted_for [
  | none ↦ []
  | some c ↦ record { voter = i; term = s.current_term; candidate = c } ∷ []
]

abbrev pub reign_of : NodeId → Raft → List Reign
reign_of i r =
    if is_leader r.role then record { leader = i; term = r.current_term; log = r.log } ∷ [] else []

-- A node handles an event and its actions are executed: the state is saved if they ask for it, and
-- the messages are sent.
abbrev pub after_step : System → NodeId → Raft × List Action → System
after_step s i p = record {
  nodes = update s.nodes i p.0;
  disks = if saves p.1 then update s.disks i p.0.persistent else s.disks;
  sent = sends p.1 ++ s.sent;
  ballots = ballot_of i p.0.persistent ++ s.ballots;
  reigns = reign_of i p.0 ++ s.reigns;
}

-- A node crashes and starts again from its disk.
abbrev pub after_restart : List NodeId → System → NodeId → System
after_restart members s i = record s {
  nodes = update s.nodes i (restore i (peers_in members i) (s.disks i));
}

-- A message arrives only if it was sent to the node, as often as the network likes; the timers
-- and the clients may do anything at any time.
abbrev pub CanOccur : System → NodeId → Event → Type 0
CanOccur s i (message m) = Any (λ x. x ≡ (i, m)) s.sent
CanOccur s i election_timeout = Unit {0}
CanOccur s i heartbeat_timeout = Unit {0}
CanOccur s i (client_request c) = Unit {0}

-- A node crashes after a first part of the actions and starts again from its disk. What it has
-- changed without the save that its actions ask for is lost, and enters no history.
abbrev pub after_cut : List NodeId → System → NodeId → Raft × List Action → List Action → System
after_cut members s i p acts =
    let executed =
      if loses_save p.1 acts
      then record s { sent = sends acts ++ s.sent }
      else after_step s i (p.0, acts) in
    after_restart members executed i

-- One step of one node; its term and its log have room to grow.
pub data Step (members : List NodeId) (s : System) : System → Type 0 where
  handle :
      (i : NodeId) (e : Event) (p : Raft × List Action)
      → contains members i ≡ true
      → CanOccur s i e
      → suc (s.nodes i).current_term < u64_mod
      → suc (length (s.nodes i).log) < u64_mod
      → step (s.nodes i) e ≡ some p
      → Step members s (after_step s i p)
  interrupt :
      (i : NodeId) (e : Event) (p : Raft × List Action) (acts rest : List Action)
      → contains members i ≡ true
      → CanOccur s i e
      → suc (s.nodes i).current_term < u64_mod
      → suc (length (s.nodes i).log) < u64_mod
      → step (s.nodes i) e ≡ some p
      → p.1 ≡ acts ++ rest
      → Step members s (after_cut members s i p acts)
  crash : (i : NodeId) → contains members i ≡ true → Step members s (after_restart members s i)

pub data Reach (members : List NodeId) : System → Type 0 where
  begin : Reach members (start members)
  next : {s t : System} → Reach members s → Step members s t → Reach members t

-- The vote was cast.
abbrev pub Voted : System → NodeId → Term → NodeId → Type 0
Voted s v t c = Any (λ b. b ≡ record { voter = v; term = t; candidate = c }) s.ballots
