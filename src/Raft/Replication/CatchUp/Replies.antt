-- ===== src/Raft/Replication/CatchUp/Replies.antt =====
-- heartbeat.rs with append_entries.rs: the message of a round, the reply to it, and what the
-- leader makes of the reply.
use raft_craft.Prelude.{
  ℕ, zero, suc, ◌≤◌, ◌<◌, ◌==◌, ◌≡◌, refl, ap, ◌∙◌, inl, inr, Bool, true, false, List, [], ◌∷◌,
  some, arith, ltb, length, get_elem?, position, get_elem?-in_range, get_elem?-set_self, Bool-cases,
}
use raft_craft.Protocol.{
  NodeId, LogIndex, AppendEntries, AppendEntriesResponse, Action, send, append_entries,
}
use raft_craft.Raft.State.{Raft, LeaderState}
use raft_craft.Raft.Vote.{catch_up, step_down}
use raft_craft.Raft.AppendEntries.{
  log_matches, revert_candidate, handle_append_entries, receive_entries, append_entries_response,
  back_up, advance_peer, advance_commit_index, try_advance_commit_index, record_reply,
  reply_of_peer, handle_append_entries_response,
}
use raft_craft.Raft.Heartbeat.{append_entries_msg, append_entries_for_peer, next_index_of}
use raft_craft.Raft.Apply.{apply_committed_entries-frame}
use raft_craft.Raft.Replication.{prepared, prepared-log, catch_up_current, same_log_matches}
use raft_craft.Raft.Replication.CatchUp.{InTouch}

position-peer :
    (xs : List NodeId) (a i : ℕ) → position (λ id. id == a) xs ≡ some i → get_elem? xs i ≡ some a
unfolding position
position-peer [] a i h = ground arith
position-peer (x ∷ xs) a zero h = ground arith
position-peer (x ∷ xs) a (suc i) h = ground (arith, position-peer xs a i)

pub append_entries_for_peer_lem :
    (i n : ℕ) (l f : Raft)
    → InTouch i n l f
    → append_entries_for_peer l i ≡ some (send f.id (append_entries (append_entries_msg l (suc n))))
unfolding append_entries_for_peer next_index_of
append_entries_for_peer_lem i n l f t =
    rw (position-peer l.peers f.id i t.peer, t.kept, t.next) refl

-- What a reply of the follower, in the leader's term, says.
abbrev pub answer : Raft → Raft → Bool → LogIndex → AppendEntriesResponse
answer l f success matched = record {
  term = l.current_term;
  success = success;
  from = f.id;
  match_index = matched;
}

pub prepared-frame :
    (f : Raft) (m : AppendEntries)
    → f.current_term ≤ m.term
    → ((prepared f m).current_term ≡ m.term) × ((prepared f m).id ≡ f.id)
unfolding revert_candidate catch_up step_down
prepared-frame f m h = ground arith

pub refuses :
    (f : Raft) (m : AppendEntries)
    → f.current_term ≤ m.term
    → log_matches f m.prev_log_index m.prev_log_term ≡ false
    → handle_append_entries f m
      ≡ (prepared f m, append_entries_response (prepared f m) m.leader_id false ∷ [])
unfolding handle_append_entries receive_entries
refuses f m h misses =
    let ok =
      same_log_matches (prepared f m) f m.prev_log_index m.prev_log_term (prepared-log f m)
      ∙ misses in
    rw (catch_up_current f m.term h, ok) refl

pub reply_reaches :
    (i n : ℕ) (l f : Raft) (success : Bool) (matched : LogIndex)
    → (t : InTouch i n l f)
    → handle_append_entries_response l (answer l f success matched)
      ≡ record_reply l t.state i (answer l f success matched)
unfolding handle_append_entries_response reply_of_peer record_reply
reply_reaches i n l f success matched t =
    let now : ltb l.current_term l.current_term ≡ false = ground arith in
    rw (now, t.leads, reply_of_peer, t.peer, t.kept) refl

pub reply_of_refusal :
    (i n : ℕ) (l f : Raft)
    → (t : InTouch i n l f)
    → record_reply l t.state i (answer l f false 0)
      ≡ some (record l { leader_state = some (back_up t.state i (suc n)) }, [])
unfolding record_reply
reply_of_refusal i n l f t = rw t.next refl

try_advance-leader_state : (r : Raft) → (try_advance_commit_index r).0.leader_state ≡ r.leader_state
unfolding try_advance_commit_index advance_commit_index
try_advance-leader_state r =
    ap (λ s. s.leader_state) (apply_committed_entries-frame (advance_commit_index r)).1
    ∙ ground arith

-- The leader notes a confirmation, or has noted more.
advance_peer-noted :
    (ls : LeaderState) (i old matched : ℕ)
    → get_elem? ls.match_index i ≡ some old
    → i < length ls.match_index
    → (known : LogIndex) × (get_elem? (advance_peer ls i old matched).match_index i ≡ some known)
      × (matched ≤ known)
unfolding advance_peer
advance_peer-noted ls i old matched got bound = elim (Bool-cases (ltb old matched)) [
  | inl more ↦ rw more (matched, get_elem?-set_self ls.match_index i matched bound, omega arith)
  | inr less ↦ rw less (old, got, ground arith)
]

-- What the leader knows of the follower after a confirmation.
pub reply_of_success :
    (i n : ℕ) (l f : Raft) (matched : LogIndex)
    → (t : InTouch i n l f)
    → (p : Raft × List Action) × (ls : LeaderState) × (known : LogIndex) × (record_reply l t.state i
          (answer l f true matched)
        ≡ some p)
      × (p.0.leader_state ≡ some ls)
      × (get_elem? ls.match_index i ≡ some known)
      × (matched ≤ known)
unfolding record_reply
reply_of_success i n l f matched t =
    let (old, got) = get_elem?-in_range t.state.match_index i t.shaped in
    let ls = advance_peer t.state i old matched in
    let (known, noted, enough) = advance_peer-noted t.state i old matched got t.shaped in
    let r = record l { leader_state = some ls } in
    (
      try_advance_commit_index r,
      ls,
      known,
      rw (got, t.next) (ground arith),
      try_advance-leader_state r,
      noted,
      enough,
    )
