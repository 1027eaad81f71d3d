-- ===== src/Raft/Tests.antt =====
-- Small states and messages, and the theorems on them: logs and the commit index here, the rest
-- in the children.
pub mod Votes
pub mod Exchange
use raft_craft.Prelude.{
  ltb, ◌⊎◌, ℕ, suc, ◌+◌, ◌++◌, any, count, ◌≤◌, ◌<◌, ◌≡◌, refl, arith, true, false, List, [], ◌∷◌,
  none, some, length, get_elem?, take, drop, max,
}
use raft_craft.Protocol.{
  NodeId, Term, LogIndex, LogEntry, default_command, AppendEntries, AppendEntriesResponse, Message,
  append_entries, append_entries_response, Event, message, election_timeout, client_request, Action,
  persist_state, reset_election_timer,
}
use raft_craft.Raft.State.{Raft, follower, leader, quorum, with_commit_index, with_last_applied}
use raft_craft.Raft.AppendEntries.{
  apply_loop, log_matches, scan_commit, reconcile, apply_committed_entries, advance_commit_index,
  peer_matches, handle_append_entries,
}
use raft_craft.Raft.Heartbeat.{append_entries_msg}
use raft_craft.Raft.Step.{step}
use raft_craft.Raft.Client.{append_command, handle_client_request}
use raft_craft.Raft.AppendOnly.{Appended, step-AppendOnly}
use raft_craft.Raft.Applied.{Succeeds}
use raft_craft.Raft.Apply.Termination.{apply_committed_entries_terminates}
use raft_craft.Raft.Apply.{commands_between, apply_committed_entries-slice}
use raft_craft.Raft.Commit.{IsCommittable, advance_commit_index_sound, advance_commit_index_maximal}
use raft_craft.Raft.Validity.{IsValid, Respects}
use raft_craft.Raft.Validity.Steps.{step-Succeeds}
use raft_craft.Raft.Log.Merge.{merge, reconcile-merge}
use raft_craft.Raft.Log.Agreement.{length-reconcile, reconcile-contains, reconcile-keeps}
use raft_craft.Raft.Replication.{
  Accepts, confirmation, append_entries_msg_lem, handle_append_entries-Accepts,
}
use raft_craft.Raft.Terms.{Later, step-Later}
use raft_craft.Raft.Durability.{PersistsFirst, step-PersistsFirst}

abbrev pub entry : Term → LogIndex → LogEntry
entry t i = record { term = t; index = i; command = default_command }

-- Two logs that part at the third entry.
abbrev pub long_log : List LogEntry
long_log = entry 1 1 ∷ entry 1 2 ∷ entry 1 3 ∷ []

abbrev pub new_entries : List LogEntry
new_entries = entry 1 2 ∷ entry 2 3 ∷ []

abbrev pub lead_log : List LogEntry
lead_log = entry 1 1 ∷ entry 1 2 ∷ entry 2 3 ∷ []

abbrev pub node : NodeId → List NodeId → Term → List LogEntry → LogIndex → Raft
node id peers t log applied = record {
  id = id;
  peers = peers;
  role = follower;
  known_leader = none;
  persistent = record { current_term = t; voted_for = none; log = log };
  volatile = record { commit_index = applied; last_applied = applied };
  leader_state = none;
  candidate_state = none;
}

-- Node 2, behind its leader.
abbrev pub laggard : Raft
laggard = node 2 (1 ∷ 3 ∷ []) 1 long_log 1

-- Node 1, the leader of term 2; node 2 has confirmed all three entries.
abbrev pub chief : Raft
chief = record (node 1 (2 ∷ 3 ∷ []) 2 lead_log 1) {
  role = leader;
  leader_state = some (record { next_index = 4 ∷ 4 ∷ []; match_index = 3 ∷ 0 ∷ [] });
}

-- A leader of term 2 that only has the first two entries.
abbrev pub short_chief : Raft
short_chief = record (node 1 (2 ∷ 3 ∷ []) 2 (entry 1 1 ∷ entry 1 2 ∷ []) 1) {
  role = leader;
  leader_state = some (record { next_index = 3 ∷ 3 ∷ []; match_index = 0 ∷ 0 ∷ [] });
}

abbrev pub laggard-IsValid : IsValid laggard
laggard-IsValid = record {
  numbered = (refl, (refl, (refl, tt)));
  applied = omega arith;
  committed = omega arith;
  short = omega arith;
  shaped = refl;
}

abbrev pub chief-IsValid : IsValid chief
chief-IsValid = record {
  numbered = (refl, (refl, (refl, tt)));
  applied = omega arith;
  committed = omega arith;
  short = omega arith;
  shaped = (refl, refl);
}

abbrev pub short_chief-IsValid : IsValid short_chief
short_chief-IsValid = record {
  numbered = (refl, (refl, tt));
  applied = omega arith;
  committed = omega arith;
  short = omega arith;
  shaped = (refl, refl);
}

abbrev pub replicate_two : AppendEntries
replicate_two = record {
  term = 2;
  leader_id = 1;
  prev_log_index = 1;
  prev_log_term = 1;
  entries = new_entries;
  leader_commit = 2;
}

abbrev pub replicate_two-Respects : Respects laggard replicate_two
replicate_two-Respects = record {
  follows = (refl, (refl, tt));
  fits = omega arith;
  advances = λ h. omega arith;
  agrees = λ h. tt;
}

step-Succeeds_example : Succeeds laggard (step laggard (message (append_entries replicate_two)))
step-Succeeds_example =
    step-Succeeds laggard (message (append_entries replicate_two)) laggard-IsValid
      replicate_two-Respects

reconcile-merge_example :
    reconcile long_log new_entries ≡ take 1 long_log ++ merge (drop 1 long_log) new_entries
reconcile-merge_example =
    reconcile-merge 1 long_log new_entries (refl, (refl, (refl, tt))) (refl, (refl, tt))
      (omega arith)

reconcile-keeps_example :
    (take 2 (reconcile long_log new_entries) ≡ take 2 long_log)
    × (2 ≤ length (reconcile long_log new_entries))
reconcile-keeps_example =
    reconcile-keeps 1 long_log new_entries (refl, (refl, (refl, tt))) (refl, (refl, tt))
      (omega arith) 2 (refl, tt) (omega arith)

-- The commit index of `chief` moves from 1 to 3.
chief_scans : (advance_commit_index chief).commit_index ≡ 3
unfolding advance_commit_index quorum scan_commit count
chief_scans = refl

chief-IsCommittable :
    IsCommittable chief.current_term (quorum chief) (peer_matches chief) (entry 2 3)
unfolding quorum count
chief-IsCommittable = record { own_term = refl; replicated = omega arith }

advance_commit_index_sound_example :
    (i : ℕ) × (e : LogEntry) × (get_elem? chief.log i ≡ some e)
    × (suc i ≡ (advance_commit_index chief).commit_index)
    × IsCommittable chief.current_term (quorum chief) (peer_matches chief) e
advance_commit_index_sound_example =
    advance_commit_index_sound chief (refl, (refl, (refl, tt))) (omega (arith, chief_scans))

advance_commit_index_maximal_example : 3 ≤ (advance_commit_index chief).commit_index
advance_commit_index_maximal_example =
    advance_commit_index_maximal chief (refl, (refl, (refl, tt))) 2 (entry 2 3) refl
      chief-IsCommittable

abbrev ready : Raft
ready = with_commit_index laggard 3

apply_committed_entries-slice_example :
    apply_committed_entries ready ≡ (with_last_applied ready 3, commands_between 1 2 long_log)
apply_committed_entries-slice_example =
    apply_committed_entries-slice ready (refl, (refl, (refl, tt))) (omega arith) (omega arith)
      (omega arith)

apply_committed_entries_terminates_example :
    (ltb
        (apply_committed_entries ready).0.last_applied
        (apply_committed_entries ready).0.commit_index
      ≡ false)
    × (apply_loop (2 + 5) ready ≡ apply_committed_entries ready)
apply_committed_entries_terminates_example =
    apply_committed_entries_terminates ready 5 (omega arith)

step-AppendOnly_example :
    ((handle_client_request chief default_command).0.log ≡ lead_log)
    ⊎ Appended chief (handle_client_request chief default_command).0
unfolding step handle_client_request append_command
step-AppendOnly_example =
    step-AppendOnly chief (client_request default_command)
      (handle_client_request chief default_command) tt refl refl
