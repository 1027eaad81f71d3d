-- ===== src/Raft/Tests/Exchange.antt =====
-- A leader and a follower on small logs.
use raft_craft.Prelude.{
  ℕ, ◌+◌, any, [], position, ◌<◌, ◌≡◌, refl, arith, List, ◌∷◌, some, get_elem?,
}
use raft_craft.Protocol.{LogEntry, Action, persist_state, reset_election_timer}
use raft_craft.Raft.AppendEntries.{log_matches, reconcile, handle_append_entries}
use raft_craft.Raft.Heartbeat.{append_entries_msg}
use raft_craft.Raft.Replication.{confirmation}
use raft_craft.Raft.Replication.Replies.{answer, handle_append_entries_answers}
use raft_craft.Raft.Ballots.{sends}
use raft_craft.Raft.Replication.CatchUp.{InTouch}
use raft_craft.Raft.Replication.CatchUp.Rounds.{CatchesUp, rounds-catch_up}
use raft_craft.Raft.Replication.Exchange.{exchange-replicates, exchange-overclaims}
use raft_craft.Raft.Tests.{
  entry, laggard, chief, short_chief, laggard-IsValid, chief-IsValid, short_chief-IsValid,
  replicate_two,
}

handle_append_entries_answers_example :
    (sends (handle_append_entries laggard replicate_two).1
      ≡ answer laggard replicate_two (handle_append_entries laggard replicate_two).0)
    × ((handle_append_entries laggard replicate_two).0.log
        ≡ reconcile laggard.log replicate_two.entries)
unfolding log_matches any
handle_append_entries_answers_example = handle_append_entries_answers laggard replicate_two

exchange-replicates_example :
    (x : LogEntry) × (get_elem?
        (handle_append_entries laggard (append_entries_msg chief 2)).0.log
        (1 + 1)
      ≡ some x)
    × (x.term ≡ 2)
exchange-replicates_example =
    exchange-replicates chief laggard 1 chief-IsValid.numbered laggard-IsValid.numbered
      (omega arith) (unfold log_matches any in refl) (omega arith) 1 (entry 2 3) refl

exchange-overclaims_example :
    (matched : ℕ) × (rest : List Action) × (2 < matched)
    × ((handle_append_entries laggard (append_entries_msg short_chief 3)).1
        ≡ persist_state
          ∷ reset_election_timer
          ∷ confirmation
              (handle_append_entries laggard (append_entries_msg short_chief 3)).0
              1
              matched
          ∷ rest)
exchange-overclaims_example =
    exchange-overclaims short_chief laggard 2 short_chief-IsValid.numbered laggard-IsValid.numbered
      (omega arith) (unfold log_matches any in refl) (omega arith) refl (omega arith)

-- The laggard refuses at entries 3 and 2 before the logs match.
chief_to_laggard : InTouch 0 3 chief laggard
unfolding position
chief_to_laggard = record {
  leads = refl;
  peer = refl;
  state = record { next_index = 4 ∷ 4 ∷ []; match_index = 3 ∷ 0 ∷ [] };
  kept = refl;
  next = refl;
  shaped = omega arith;
  leader_numbered = chief-IsValid.numbered;
  follower_numbered = laggard-IsValid.numbered;
  current = omega arith;
  within = omega arith;
}

rounds-catch_up_example : CatchesUp 0 3 chief laggard
rounds-catch_up_example = rounds-catch_up 0 3 chief laggard chief_to_laggard
