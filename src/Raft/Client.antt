-- ===== src/Raft/Client.antt =====
-- raft-core/src/raft/client.rs: a command of a client.
use raft_craft.Prelude.{List, [], ◌∷◌, ◌++◌, not, is_empty, wrapping_add, if◌then◌else◌}
use raft_craft.Protocol.{
  Command, LogEntry, Action, reset_heartbeat_timer, persist_state, not_leader,
}
use raft_craft.Raft.State.{Raft, is_leader, last_log_index, with_log}
use raft_craft.Raft.AppendEntries.{try_advance_commit_index}

unfoldable pub append_command : Raft → Command → Raft
append_command r command =
    let entry : LogEntry = record {
      term = r.current_term;
      index = wrapping_add (last_log_index r) 1;
      command = command;
    } in
    with_log r (r.log ++ entry ∷ [])

unfoldable pub handle_client_request : Raft → Command → Raft × List Action
handle_client_request r command =
    if not (is_leader r.role)
    then (r, not_leader r.known_leader ∷ [])
    else (let r' = append_command r command in
        let actions = reset_heartbeat_timer ∷ persist_state ∷ [] in
        if is_empty r'.peers
        then (let advanced = try_advance_commit_index r' in (advanced.0, actions ++ advanced.1))
        else (r', actions))
