-- ===== src/Raft/State.antt =====
-- raft-core/src/lib.rs: the state of a node, its construction, its quorum and the end of its log.
use raft_craft.Prelude.{
  ℕ, ◌+◌, ◌/◌, ◌%◌, ◌==◌, Bool, true, false, List, [], Option, none, leb, length, last, map_or,
  if◌then◌else◌,
}
use raft_craft.Protocol.{NodeId, Term, LogIndex, LogEntry}

pub data Role : Type 0 where
  follower candidate leader : Role

pub record PersistentState : Type 0 where
  pub current_term : Term
  pub voted_for : Option NodeId
  pub log : List LogEntry

pub record CandidateState : Type 0 where
  pub votes_received : List NodeId
  pub votes_granted : List NodeId

pub record VolatileState : Type 0 where
  pub commit_index : LogIndex
  pub last_applied : LogIndex

pub record LeaderState : Type 0 where
  pub next_index : List LogIndex
  pub match_index : List LogIndex

pub record Raft : Type 0 where
  pub id : NodeId
  pub peers : List NodeId
  pub role : Role
  pub known_leader : Option NodeId
  pub persistent : PersistentState
  pub open persistent use *
  pub volatile : VolatileState
  pub open volatile use *
  pub leader_state : Option LeaderState
  pub candidate_state : Option CandidateState

-- `==` on `Role`.
abbrev pub is_leader : Role → Bool
is_leader leader = true
is_leader candidate = false
is_leader follower = false

abbrev pub is_candidate : Role → Bool
is_candidate candidate = true
is_candidate leader = false
is_candidate follower = false

abbrev pub default_persistent : PersistentState
default_persistent = record { current_term = 0; voted_for = none; log = [] }

abbrev pub default_volatile : VolatileState
default_volatile = record { commit_index = 0; last_applied = 0 }

abbrev pub default_candidate : CandidateState
default_candidate = record { votes_received = []; votes_granted = [] }

-- The `debug_assert!` on `peers` is off in release builds.
unfoldable pub new : NodeId → List NodeId → Raft
new id peers = record {
  id = id;
  peers = peers;
  role = follower;
  known_leader = none;
  persistent = default_persistent;
  volatile = default_volatile;
  leader_state = none;
  candidate_state = none;
}

unfoldable pub restore : NodeId → List NodeId → PersistentState → Raft
restore id peers persistent = record (new id peers) { persistent = persistent }

unfoldable pub has_majority : CandidateState → ℕ → Bool
has_majority c quorum = leb quorum (length c.votes_granted)

-- `usize::div_ceil` rounds up.
abbrev pub div_ceil : ℕ → ℕ → ℕ
div_ceil a b = a / b + (if a % b == 0 then 0 else 1)

unfoldable pub quorum : Raft → ℕ
quorum r = div_ceil (length r.peers) 2 + 1

unfoldable pub last_log_index : Raft → LogIndex
last_log_index r = map_or 0 (λ e. e.index) (last r.log)

unfoldable pub last_log_term : Raft → Term
last_log_term r = map_or 0 (λ e. e.term) (last r.log)

-- Shorthands for assignments to nested fields.
abbrev pub with_log : Raft → List LogEntry → Raft
with_log r log = record r { persistent = record r.persistent { log = log } }

abbrev pub with_voted_for : Raft → Option NodeId → Raft
with_voted_for r v = record r { persistent = record r.persistent { voted_for = v } }

abbrev pub with_commit_index : Raft → LogIndex → Raft
with_commit_index r n = record r { volatile = record r.volatile { commit_index = n } }

abbrev pub with_last_applied : Raft → LogIndex → Raft
with_last_applied r n = record r { volatile = record r.volatile { last_applied = n } }
