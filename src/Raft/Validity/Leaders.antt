-- ===== src/Raft/Validity/Leaders.antt =====
-- append_entries.rs, the leader's side, and heartbeat.rs keep the state valid and do not index
-- out of range.
use raft_craft.Prelude.{
  ℕ, zero, suc, ◌+◌, ◌<◌, ◌≡◌, ◌∙◌, refl, sym, subst, >>=-eq-some, ap, wrapping_add, true, false,
  inl, inr, List, [], ◌∷◌, Option, none, some, arith, ltb, length, length-set, get_elem?-in_range,
  position, position-lt, ◌==◌, Bool-cases, Option-cases,
}
use raft_craft.Protocol.{
  LogIndex, send, reset_heartbeat_timer, append_entries, Action, AppendEntriesResponse,
}
use mathlib.Core.Option.{some-injective}
use raft_craft.Raft.State.{Raft, Role, LeaderState, is_leader}
use raft_craft.Raft.Vote.{step_down}
use raft_craft.Raft.AppendEntries.{
  back_up, advance_peer, try_advance_commit_index, record_reply, reply_of_peer,
  handle_append_entries_response,
}
use raft_craft.Raft.Heartbeat.{
  append_entries_msg, next_index_of, append_entries_for_peer, append_entries_from,
  handle_heartbeat_timeout,
}
use raft_craft.Raft.Applied.{Succeeds, quiet, HandsOn-from, applied_commands}
use raft_craft.Raft.Applied.Entries.{try_advance-HandsOn}
use raft_craft.Raft.Durability.{append_entries_for_peer_shape}
use raft_craft.Raft.Validity.{IsValid, HasShape}
use raft_craft.Raft.Validity.Elections.{step_down-IsValid}
use raft_craft.Raft.Validity.Replication.{try_advance_commit_index-IsValid}

with_leader_state-IsValid :
    (r : Raft) (ls : LeaderState)
    → IsValid r
    → length ls.next_index ≡ length r.peers
    → length ls.match_index ≡ length r.peers
    → IsValid (record r { leader_state = some ls })
with_leader_state-IsValid r ls v n m = record {
  numbered = v.numbered;
  applied = v.applied;
  committed = v.committed;
  short = v.short;
  shaped = (n, m);
}

advance_peer-shape :
    (ls : LeaderState) (i matched n : ℕ)
    → (length (advance_peer ls i matched n).next_index ≡ length ls.next_index)
      × (length (advance_peer ls i matched n).match_index ≡ length ls.match_index)
unfolding advance_peer
advance_peer-shape ls i matched n =
    ground (arith, length-set ls.match_index i n, length-set ls.next_index i (wrapping_add n 1))

module _ (r : Raft) (ls : LeaderState) (i : ℕ) (m : AppendEntriesResponse) (v : IsValid r)
    (next_shape : length ls.next_index ≡ length r.peers)
    (match_shape : length ls.match_index ≡ length r.peers) (bound : i < length r.peers) where
  refusal-Succeeds : m.success ≡ false → Succeeds r (record_reply r ls i m)
  unfolding record_reply back_up
  refusal-Succeeds e =
      let (next, got) = get_elem?-in_range ls.next_index i (omega arith) in
      (
        (record r { leader_state = some (back_up ls i next) }, []),
        rw (e, got) refl,
        with_leader_state-IsValid r (back_up ls i next) v
            (length-set ls.next_index i _ ∙ next_shape) match_shape,
        quiet r _ refl refl refl,
      )

  success-Succeeds : m.success ≡ true → Succeeds r (record_reply r ls i m)
  unfolding record_reply
  success-Succeeds e =
      let (next, there) = get_elem?-in_range ls.next_index i (omega arith) in
      let (matched, got) = get_elem?-in_range ls.match_index i (omega arith) in
      let (n, k) = advance_peer-shape ls i matched m.match_index in
      let r' = record r { leader_state = some (advance_peer ls i matched m.match_index) } in
      let v' =
        with_leader_state-IsValid r (advance_peer ls i matched m.match_index) v (n ∙ next_shape)
          (k ∙ match_shape) in
      (
        try_advance_commit_index r',
        rw (e, got, there) (ground arith),
        try_advance_commit_index-IsValid r' v',
        HandsOn-from r r' (try_advance_commit_index r') refl refl (try_advance-HandsOn r' v'),
      )

record_reply-Succeeds :
    (r : Raft) (ls : LeaderState) (i : ℕ) (m : AppendEntriesResponse)
    → IsValid r
    → r.leader_state ≡ some ls
    → i < length r.peers
    → Succeeds r (record_reply r ls i m)
record_reply-Succeeds r ls i m v e bound =
    let (n, k) = subst (HasShape (length r.peers) r.role) e v.shaped in
    elim (Bool-cases m.success) [
      | inl ok ↦ success-Succeeds r ls i m v n k bound ok
      | inr refused ↦ refusal-Succeeds r ls i m v n k bound refused
    ]

reply_of_peer-Succeeds :
    (r : Raft) (m : AppendEntriesResponse) → IsValid r → Succeeds r (reply_of_peer r m)
unfolding reply_of_peer
reply_of_peer-Succeeds r m v = elim (Option-cases (position (λ id. id == m.from) r.peers)) [
  | inl e ↦ ((r, []), rw (e, reply_of_peer) refl, v, quiet r (r, []) refl refl refl)
  | inr (i, e) ↦ elim (Option-cases r.leader_state) [
    | inl f ↦ ((r, []), ground arith, v, quiet r (r, []) refl refl refl)
    | inr (ls, f) ↦
        let (p, ok, w, h) = record_reply-Succeeds r ls i m v f (position-lt _ r.peers i e) in
        (p, ground arith, w, h)
  ]
]

pub handle_append_entries_response-Succeeds :
    (r : Raft) (m : AppendEntriesResponse)
    → IsValid r
    → Succeeds r (handle_append_entries_response r m)
unfolding handle_append_entries_response
handle_append_entries_response-Succeeds r m v = elim (Bool-cases (ltb r.current_term m.term)) [
  | inl e ↦ (
    (step_down r m.term, []),
    rw e refl,
    step_down-IsValid r m.term v,
    quiet r (step_down r m.term, []) (unfold step_down in refl) (unfold step_down in refl) refl,
  )
  | inr e ↦ rw e (elim (Bool-cases (ltb m.term r.current_term)) [
    | inl f ↦ ((r, []), rw f refl, v, quiet r (r, []) refl refl refl)
    | inr f ↦ rw f (elim (Bool-cases (is_leader r.role)) [
      | inl l ↦ rw l (reply_of_peer-Succeeds r m v)
      | inr l ↦ ((r, []), rw l refl, v, quiet r (r, []) refl refl refl)
    ])
  ])
]

next_index_of-total :
    (n i : ℕ) (role : Role) (o : Option LeaderState)
    → HasShape n role o
    → i < n
    → (next : LogIndex) × (next_index_of o i ≡ some next)
unfolding next_index_of
next_index_of-total n i role none shape h = (1, refl)
next_index_of-total n i role (some ls) shape h = get_elem?-in_range ls.next_index i (omega arith)

append_entries_from-total :
    (r : Raft) (i todo : ℕ)
    → IsValid r
    → i + todo ≡ length r.peers
    → (actions : List Action) × (append_entries_from r i todo ≡ some actions)
unfolding append_entries_from append_entries_for_peer
append_entries_from-total r i zero v h = ([], refl)
append_entries_from-total r i (suc todo) v h =
    let (peer, at) = get_elem?-in_range r.peers i (omega arith) in
    let (rest, done) = append_entries_from-total r (suc i) todo v (omega arith) in
    let (next, from) =
      next_index_of-total (length r.peers) i r.role r.leader_state v.shaped (omega arith) in
    (send peer (append_entries (append_entries_msg r next)) ∷ rest, rw (at, from, done) refl)

append_entries_from-applies :
    (r : Raft) (i todo : ℕ) (actions : List Action)
    → append_entries_from r i todo ≡ some actions
    → applied_commands actions ≡ []
unfolding append_entries_from
append_entries_from-applies r i zero actions h = ground arith
append_entries_from-applies r i (suc todo) actions h =
    let (a, first, more) = >>=-eq-some (append_entries_for_peer r i) _ h in
    let (rest, later, same) = >>=-eq-some (append_entries_from r (suc i) todo) _ more in
    let (to, next, is_send) = append_entries_for_peer_shape r i a first in
    let tail = append_entries_from-applies r (suc i) todo rest later in
    ap applied_commands (sym (ap (λ x. x ∷ rest) is_send ∙ some-injective (a ∷ rest) actions same))
    ∙ tail

pub handle_heartbeat_timeout-Succeeds :
    (r : Raft) → IsValid r → Succeeds r (handle_heartbeat_timeout r)
unfolding handle_heartbeat_timeout
handle_heartbeat_timeout-Succeeds r v = elim (Bool-cases (is_leader r.role)) [
  | inl l ↦
      let (actions, done) = append_entries_from-total r 0 (length r.peers) v (omega arith) in
      (
        (r, reset_heartbeat_timer ∷ actions),
        rw (l, done) refl,
        v,
        quiet r _ refl refl (append_entries_from-applies r 0 (length r.peers) actions done),
      )
  | inr l ↦ ((r, []), rw l refl, v, quiet r (r, []) refl refl refl)
]
