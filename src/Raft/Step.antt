-- ===== src/Raft/Step.antt =====
-- raft-core/src/raft/step.rs: the dispatch on events. `none` is a panic.
use raft_craft.Prelude.{List, Option, some}
use raft_craft.Protocol.{
  Message, request_vote, request_vote_response, append_entries, append_entries_response, Event,
  message, election_timeout, heartbeat_timeout, client_request, Action,
}
use raft_craft.Raft.State.{Raft}
use raft_craft.Raft.Election.{handle_election_timeout}
use raft_craft.Raft.Vote.{handle_request_vote, handle_vote_response}
use raft_craft.Raft.AppendEntries.{handle_append_entries, handle_append_entries_response}
use raft_craft.Raft.Heartbeat.{handle_heartbeat_timeout}
use raft_craft.Raft.Client.{handle_client_request}

unfoldable pub handle_message : Raft → Message → Option (Raft × List Action)
handle_message r (request_vote m) = some (handle_request_vote r m)
handle_message r (request_vote_response m) = some (handle_vote_response r m)
handle_message r (append_entries m) = some (handle_append_entries r m)
handle_message r (append_entries_response m) = handle_append_entries_response r m

unfoldable pub step : Raft → Event → Option (Raft × List Action)
step r (message m) = handle_message r m
step r election_timeout = some (handle_election_timeout r)
step r heartbeat_timeout = handle_heartbeat_timeout r
step r (client_request command) = some (handle_client_request r command)
