-- ===== src/Raft/Validity/Steps.antt =====
-- step.rs: every step from a valid state succeeds in a valid state.
use raft_craft.Prelude.{refl}
use raft_craft.Protocol.{
  Message, request_vote, request_vote_response, append_entries, append_entries_response, Event,
  message, election_timeout, heartbeat_timeout, client_request,
}
use raft_craft.Raft.State.{Raft}
use raft_craft.Raft.Election.{handle_election_timeout}
use raft_craft.Raft.Vote.{handle_request_vote, handle_vote_response}
use raft_craft.Raft.AppendEntries.{handle_append_entries}
use raft_craft.Raft.Client.{handle_client_request}
use raft_craft.Raft.Step.{handle_message, step}
use raft_craft.Raft.Applied.{
  Succeeds, handle_request_vote-HandsOn, handle_vote_response-HandsOn,
  handle_election_timeout-HandsOn,
}
use raft_craft.Raft.Applied.Entries.{handle_append_entries-HandsOn, handle_client_request-HandsOn}
use raft_craft.Raft.Validity.{IsValid, MessageRespects, IsAdmissible}
use raft_craft.Raft.Validity.Elections.{
  handle_request_vote-IsValid, handle_vote_response-IsValid, handle_election_timeout-IsValid,
}
use raft_craft.Raft.Validity.Replication.{
  handle_append_entries-IsValid, handle_client_request-IsValid,
}
use raft_craft.Raft.Validity.Leaders.{
  handle_append_entries_response-Succeeds, handle_heartbeat_timeout-Succeeds,
}

handle_message-Succeeds :
    (r : Raft) (m : Message) → IsValid r → MessageRespects r m → Succeeds r (handle_message r m)
unfolding handle_message
handle_message-Succeeds r (request_vote m) v a = (
  handle_request_vote r m,
  refl,
  handle_request_vote-IsValid r m v,
  handle_request_vote-HandsOn r m,
)
handle_message-Succeeds r (request_vote_response m) v a = (
  handle_vote_response r m,
  refl,
  handle_vote_response-IsValid r m v,
  handle_vote_response-HandsOn r m,
)
handle_message-Succeeds r (append_entries m) v a = (
  handle_append_entries r m,
  refl,
  handle_append_entries-IsValid r m v a,
  handle_append_entries-HandsOn r m v a,
)
handle_message-Succeeds r (append_entries_response m) v a =
    handle_append_entries_response-Succeeds r m v

-- From a valid state every admissible event is handled without a panic, and the new state is valid:
-- the entries keep the indices 1, 2, …, nothing is applied that is not committed and nothing
-- committed is missing from the log. The entries that were applied before stay where they are, and
-- the commands handed to the state machine are those of the entries that follow them, in order, up
-- to the new `last_applied`. (A command is admissible if there is still an index for it. An
-- AppendEntries is if its entries follow `prev_log_index` without gaps or overflow; if its
-- `leader_commit` is not above the receiver's commit index, or its last index is not below that
-- index, which excludes that the commit index goes back; and if its entries do not contradict what
-- is committed when the logs match at `prev_log_index`. Every other event is admissible.)
pub step-Succeeds : (r : Raft) (e : Event) → IsValid r → IsAdmissible r e → Succeeds r (step r e)
unfolding step
step-Succeeds r (message m) v a = handle_message-Succeeds r m v a
step-Succeeds r election_timeout v a = (
  handle_election_timeout r,
  refl,
  handle_election_timeout-IsValid r v,
  handle_election_timeout-HandsOn r,
)
step-Succeeds r heartbeat_timeout v a = handle_heartbeat_timeout-Succeeds r v
step-Succeeds r (client_request c) v a = (
  handle_client_request r c,
  refl,
  handle_client_request-IsValid r c v a,
  handle_client_request-HandsOn r c v a,
)
