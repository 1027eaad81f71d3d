-- ===== src/Raft/Units/Heartbeat.antt =====
-- The unit tests of raft-core/src/raft/heartbeat.rs.
use raft_craft.Prelude.{
  ◌==◌, ◌≡◌, refl, Bool, true, false, not, ◌&&◌, List, [], ◌∷◌, map, length, is_empty, any, map_or,
  count, contains, filter, find, wrapping_add,
}
use raft_craft.Protocol.{NodeId, Action, AppendEntries}
use raft_craft.Raft.State.{follower, candidate, new, with_commit_index}
use raft_craft.Raft.Heartbeat.{
  handle_heartbeat_timeout, append_entries_from, append_entries_for_peer, append_entries_msg,
  prev_log_info, next_index_of,
}
use raft_craft.Raft.Units.{
  passes, is_reset_heartbeat, sent_entries, each, at, ran, are_exactly, make_leader, push_entry,
  with_term, with_role, with_next_index,
}

abbrev append_entry_targets : List Action → List NodeId
append_entry_targets actions = map (λ x. x.0) (sent_entries actions)

-- A test on the first message to the peer; without one the test fails.
abbrev find_append_entries : List Action → NodeId → (AppendEntries → Bool) → Bool
find_append_entries actions peer p =
    map_or false (λ x. p x.1) (find (λ x. x.0 == peer) (sent_entries actions))

abbrev follower_does_nothing : Bool
follower_does_nothing =
    ran (handle_heartbeat_timeout (with_role (new 1 (2 ∷ 3 ∷ [])) follower))
      (λ raft' actions. is_empty actions)

abbrev candidate_does_nothing : Bool
candidate_does_nothing =
    ran (handle_heartbeat_timeout (with_role (new 1 (2 ∷ 3 ∷ [])) candidate))
      (λ raft' actions. is_empty actions)

abbrev leader_resets_heartbeat_timer : Bool
leader_resets_heartbeat_timer =
    ran (handle_heartbeat_timeout (make_leader 1 (2 ∷ 3 ∷ [])))
      (λ raft' actions. count is_reset_heartbeat actions == 1)

abbrev sends_one_message_per_peer : Bool
sends_one_message_per_peer =
    ran (handle_heartbeat_timeout (make_leader 1 (2 ∷ 3 ∷ 4 ∷ [])))
      (λ raft' actions. length (append_entry_targets actions) == 3)

abbrev messages_go_to_correct_peers : Bool
messages_go_to_correct_peers =
    ran (handle_heartbeat_timeout (make_leader 1 (2 ∷ 3 ∷ 4 ∷ []))) (λ raft' actions.
      let targets = append_entry_targets actions in
      passes (
        contains targets 2
        ∷ contains targets 3
        ∷ contains targets 4
        ∷ not (contains targets 1)
        ∷ []))

abbrev single_peer_cluster_sends_one_message : Bool
single_peer_cluster_sends_one_message =
    ran (handle_heartbeat_timeout (make_leader 1 (2 ∷ [])))
      (λ raft' actions. length (append_entry_targets actions) == 1)

abbrev heartbeat_with_empty_log_sends_zero_prev_and_empty_entries : Bool
heartbeat_with_empty_log_sends_zero_prev_and_empty_entries =
    ran (handle_heartbeat_timeout (make_leader 1 (2 ∷ 3 ∷ []))) (λ raft' actions.
      each (λ x. (x.1.prev_log_index == 0) && (x.1.prev_log_term == 0) && is_empty x.1.entries)
        (sent_entries actions))

abbrev messages_carry_current_term_and_leader_id : Bool
messages_carry_current_term_and_leader_id =
    ran (handle_heartbeat_timeout (with_term (make_leader 1 (2 ∷ 3 ∷ [])) 7))
      (λ raft' actions. each (λ x. (x.1.term == 7) && (x.1.leader_id == 1)) (sent_entries actions))

abbrev messages_carry_leader_commit_index : Bool
messages_carry_leader_commit_index =
    ran (handle_heartbeat_timeout (with_commit_index (make_leader 1 (2 ∷ 3 ∷ [])) 5))
      (λ raft' actions. each (λ x. x.1.leader_commit == 5) (sent_entries actions))

abbrev includes_entries_peer_has_not_yet_seen : Bool
includes_entries_peer_has_not_yet_seen =
    let raft = push_entry (push_entry (push_entry (make_leader 1 (2 ∷ 3 ∷ [])) 1 1) 2 1) 3 1 in
    ran (handle_heartbeat_timeout (with_next_index (with_next_index raft 0 4) 1 2))
      (λ raft' actions. passes (
        find_append_entries actions 2 (λ m. is_empty m.entries)
        ∷ find_append_entries actions 3 (λ m. length m.entries == 2)
        ∷ find_append_entries actions 3 (λ m. at m.entries 0 (λ e. e.index == 2))
        ∷ find_append_entries actions 3 (λ m. at m.entries 1 (λ e. e.index == 3))
        ∷ []))

abbrev prev_log_fields_reflect_entry_before_next_index : Bool
prev_log_fields_reflect_entry_before_next_index =
    let raft = push_entry (push_entry (push_entry (make_leader 1 (2 ∷ [])) 1 3) 2 5) 3 5 in
    ran (handle_heartbeat_timeout (with_next_index raft 0 3)) (λ raft' actions.
      find_append_entries actions 2 (λ m. passes (
        (m.prev_log_index == 2)
        ∷ (m.prev_log_term == 5)
        ∷ (length m.entries == 1)
        ∷ at m.entries 0 (λ e. e.index == 3)
        ∷ [])))

abbrev peer_needs_full_log_from_beginning : Bool
peer_needs_full_log_from_beginning =
    let raft = push_entry (push_entry (make_leader 1 (2 ∷ [])) 1 1) 2 2 in
    ran (handle_heartbeat_timeout (with_next_index raft 0 1)) (λ raft' actions.
      find_append_entries actions 2 (λ m.
        passes ((m.prev_log_index == 0) ∷ (m.prev_log_term == 0) ∷ (length m.entries == 2) ∷ [])))

abbrev all_peers_up_to_date_sends_empty_entries : Bool
all_peers_up_to_date_sends_empty_entries =
    let raft = push_entry (push_entry (make_leader 1 (2 ∷ 3 ∷ [])) 1 1) 2 1 in
    ran (handle_heartbeat_timeout (with_next_index (with_next_index raft 0 3) 1 3))
      (λ raft' actions.
        each (λ x. is_empty x.1.entries && (x.1.prev_log_index == 2) && (x.1.prev_log_term == 1))
          (sent_entries actions))

abbrev peers_at_different_offsets_receive_different_entries : Bool
peers_at_different_offsets_receive_different_entries =
    let two = push_entry (push_entry (make_leader 1 (2 ∷ 3 ∷ 4 ∷ [])) 1 1) 2 1 in
    let five = push_entry (push_entry (push_entry two 3 1) 4 1) 5 1 in
    let raft = with_next_index (with_next_index (with_next_index five 0 1) 1 4) 2 6 in
    ran (handle_heartbeat_timeout raft) (λ raft' actions. passes (
      find_append_entries actions 2 (λ m. length m.entries == 5)
      ∷ find_append_entries actions 3 (λ m. length m.entries == 2)
      ∷ find_append_entries actions 4 (λ m. is_empty m.entries)
      ∷ []))

abbrev multiple_heartbeats_produce_same_messages : Bool
multiple_heartbeats_produce_same_messages =
    ran (handle_heartbeat_timeout (push_entry (make_leader 1 (2 ∷ 3 ∷ [])) 1 1)) (λ raft₁ a₁.
      ran (handle_heartbeat_timeout raft₁) (λ raft₂ a₂.
        are_exactly (map (λ x. length x.1.entries) (sent_entries a₁))
          (map (λ x. length x.1.entries) (sent_entries a₂))))

all_pass :
    passes (
      follower_does_nothing ∷ candidate_does_nothing ∷ leader_resets_heartbeat_timer
      ∷ sends_one_message_per_peer ∷ messages_go_to_correct_peers
      ∷ single_peer_cluster_sends_one_message
      ∷ heartbeat_with_empty_log_sends_zero_prev_and_empty_entries
      ∷ messages_carry_current_term_and_leader_id ∷ messages_carry_leader_commit_index
      ∷ includes_entries_peer_has_not_yet_seen ∷ prev_log_fields_reflect_entry_before_next_index
      ∷ peer_needs_full_log_from_beginning ∷ all_peers_up_to_date_sends_empty_entries
      ∷ peers_at_different_offsets_receive_different_entries
      ∷ multiple_heartbeats_produce_same_messages ∷ [])
    ≡ true
unfolding new handle_heartbeat_timeout append_entries_from append_entries_for_peer
    append_entries_msg prev_log_info next_index_of filter find count contains any wrapping_add
all_pass = refl
