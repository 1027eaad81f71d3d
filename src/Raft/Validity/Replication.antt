-- ===== src/Raft/Validity/Replication.antt =====
-- append_entries.rs, the follower's side, and client.rs keep the state valid.
use raft_craft.Prelude.{
  ℕ, zero, suc, ◌+◌, ◌≤◌, ◌<◌, ◌≡◌, refl, true, inl, inr, List, [], ◌∷◌, none, some, arith, ltb,
  length, length-append, get_elem?, map_or, last, Bool-cases, u64_mod, wrapping_add,
  wrapping_add_lem,
}
use native.Mathlib.Decide.{dec_lt}
use raft_craft.Protocol.{NodeId, LogEntry, Term, Command, AppendEntries}
use raft_craft.Raft.Vote.{step_down, catch_up}
use raft_craft.Raft.State.{is_candidate, Raft, with_log, last_log_index}
use raft_craft.Raft.Log.Numbered.{
  IsNumbered, IsNumbered-append, any-numbered, last-numbered, last-index-length,
}
use raft_craft.Raft.Log.Agreement.{
  reconcile-IsNumbered, length-reconcile, length-reconcile_bound, reconcile-keeps,
}
use raft_craft.Raft.AppendEntries.{
  log_matches, reconcile, last_new_index, advance_follower_commit, apply_committed_entries,
  revert_candidate, accepted, accept_entries, receive_entries, handle_append_entries,
  advance_commit_index, try_advance_commit_index,
}
use raft_craft.Raft.Client.{append_command, handle_client_request}
use raft_craft.Raft.Commit.{advance_commit_index_sound}
use raft_craft.Raft.Apply.{apply_committed_entries-slice}
use raft_craft.Raft.Validity.{IsValid, Respects}
use raft_craft.Raft.Validity.Elections.{catch_up-IsValid}

get_elem?-beyond : (log : List LogEntry) (i : ℕ) → length log ≤ i → get_elem? log i ≡ none
get_elem?-beyond [] i h = refl
get_elem?-beyond (x ∷ log) zero h = absurd (omega arith)
get_elem?-beyond (x ∷ log) (suc i) h = get_elem?-beyond log i (omega arith)

get_elem?-lt :
    (log : List LogEntry) (i : ℕ) (e : LogEntry) → get_elem? log i ≡ some e → i < length log
get_elem?-lt [] i e h = cc
get_elem?-lt (x ∷ log) zero e h = omega arith
get_elem?-lt (x ∷ log) (suc i) e h = omega (arith, get_elem?-lt log i e h)

-- Where the logs match, the log reaches `prev_log_index`.
pub log_matches-reach :
    (r : Raft) (i t : ℕ) → IsNumbered 1 r.log → log_matches r i t ≡ true → i ≤ length r.log
unfolding log_matches
log_matches-reach r zero t w h = omega arith
log_matches-reach r (suc i) t w h = elim (dec_lt i (length r.log)) [
  | yes lt ↦ lt
  | no beyond ↦
      absurd
        (ground (arith, any-numbered 1 i (suc i) t r.log w, get_elem?-beyond r.log i (omega arith)))
]

pub apply_committed_entries-IsValid : (r : Raft) → IsValid r → IsValid (apply_committed_entries r).0
apply_committed_entries-IsValid r v =
    rw (apply_committed_entries-slice r v.numbered v.applied v.committed v.short) (record {
      numbered = v.numbered;
      applied = omega arith;
      committed = v.committed;
      short = v.short;
      shaped = v.shaped;
    })

last-numbered_or :
    (p : ℕ) (entries : List LogEntry)
    → IsNumbered (suc p) entries
    → map_or p (λ e. e.index) (last entries) ≡ p + length entries
last-numbered_or p [] w = omega arith
last-numbered_or p (e ∷ rest) w = omega (arith, last-numbered p (suc p) e rest w)

-- `last_new_index` is the index of the last entry of the message.
pub last_new_index-numbered :
    (m : AppendEntries)
    → IsNumbered (suc m.prev_log_index) m.entries
    → last_new_index m ≡ m.prev_log_index + length m.entries
last_new_index-numbered m w = last-numbered_or m.prev_log_index m.entries w

pub revert_candidate-IsValid : (r : Raft) → IsValid r → IsValid (revert_candidate r)
unfolding revert_candidate
revert_candidate-IsValid r v = ground arith

pub append_command-IsValid :
    (r : Raft) (c : Command)
    → IsValid r
    → suc (length r.log) < u64_mod
    → IsValid (append_command r c)
unfolding append_command last_log_index
append_command-IsValid r c v h =
    let next : wrapping_add (last_log_index r) 1 ≡ suc (length r.log) =
      omega (arith, wrapping_add_lem (last_log_index r) 1, last-index-length r.log v.numbered) in
    record {
      numbered =
          IsNumbered-append 1 (suc (length r.log)) r.log _ v.numbered (omega arith) (next, tt);
      applied = v.applied;
      committed = omega (arith, length-append {0} r.log);
      short = omega (arith, length-append {0} r.log);
      shaped = v.shaped;
    }

with_entries-IsValid :
    (r : Raft) (m : AppendEntries)
    → IsValid r
    → Respects r m
    → log_matches r m.prev_log_index m.prev_log_term ≡ true
    → IsValid (with_log r (reconcile r.log m.entries))
with_entries-IsValid r m v a matches =
    let reach = log_matches-reach r m.prev_log_index m.prev_log_term v.numbered matches in
    let keeps =
      reconcile-keeps m.prev_log_index r.log m.entries v.numbered a.follows reach r.commit_index
        (a.agrees matches) v.committed in
    record {
      numbered = reconcile-IsNumbered m.prev_log_index r.log m.entries v.numbered a.follows reach;
      applied = v.applied;
      committed = keeps.1;
      short = omega (
        arith,
        length-reconcile_bound m.prev_log_index r.log m.entries v.numbered a.follows reach,
      );
      shaped = v.shaped;
    }

advance_follower_commit-IsValid :
    (r : Raft) (m : AppendEntries)
    → IsValid r
    → IsNumbered (suc m.prev_log_index) m.entries
    → (r.commit_index < m.leader_commit → r.commit_index ≤ m.prev_log_index + length m.entries)
    → m.prev_log_index + length m.entries ≤ length r.log
    → IsValid (advance_follower_commit r m)
unfolding advance_follower_commit
advance_follower_commit-IsValid r m v w c h = ground (arith, last_new_index-numbered m w)

advance_commit_index_bound :
    (r : Raft) → IsValid r → (advance_commit_index r).commit_index ≤ length r.log
advance_commit_index_bound r v =
    elim (dec_lt r.commit_index (advance_commit_index r).commit_index) [
      | yes moved ↦
          let (i, e, got, at, _) = advance_commit_index_sound r v.numbered moved in
          omega (arith, get_elem?-lt r.log i e got)
      | no h ↦ omega (arith, v.committed)
    ]

pub advance_commit_index-IsValid : (r : Raft) → IsValid r → IsValid (advance_commit_index r)
unfolding advance_commit_index
advance_commit_index-IsValid r v = ground (arith, advance_commit_index_bound r v)

pub try_advance_commit_index-IsValid :
    (r : Raft) → IsValid r → IsValid (try_advance_commit_index r).0
unfolding try_advance_commit_index
try_advance_commit_index-IsValid r v =
    apply_committed_entries-IsValid (advance_commit_index r) (advance_commit_index-IsValid r v)

with_leader-IsValid :
    (r : Raft) (id : NodeId) → IsValid r → IsValid (record r { known_leader = some id })
with_leader-IsValid r id v = ground arith

pub accepted-IsValid :
    (r : Raft) (m : AppendEntries)
    → IsValid r
    → Respects r m
    → log_matches r m.prev_log_index m.prev_log_term ≡ true
    → IsValid (accepted r m)
accepted-IsValid r m v a matches =
    let r₁ = record r { known_leader = some m.leader_id } in
    let reach = log_matches-reach r m.prev_log_index m.prev_log_term v.numbered matches in
    advance_follower_commit-IsValid (with_log r₁ (reconcile r.log m.entries)) m
      (with_leader-IsValid (with_log r (reconcile r.log m.entries)) m.leader_id
        (with_entries-IsValid r m v a matches))
      a.follows a.advances
      (length-reconcile m.prev_log_index r.log m.entries v.numbered a.follows reach)

accept_entries-IsValid :
    (r : Raft) (m : AppendEntries)
    → IsValid r
    → Respects r m
    → log_matches r m.prev_log_index m.prev_log_term ≡ true
    → IsValid (accept_entries r m).0
unfolding accept_entries
accept_entries-IsValid r m v a matches =
    apply_committed_entries-IsValid (accepted r m) (accepted-IsValid r m v a matches)

pub revert_candidate-Respects :
    (r : Raft) (m : AppendEntries) → Respects r m → Respects (revert_candidate r) m
unfolding revert_candidate log_matches
revert_candidate-Respects r m a = elim (Bool-cases (is_candidate r.role)) [
  | inl e ↦
      rw e (record { follows = a.follows; fits = a.fits; advances = a.advances; agrees = a.agrees })
  | inr e ↦ rw e a
]

pub catch_up-Respects :
    (r : Raft) (t : Term) (m : AppendEntries) → Respects r m → Respects (catch_up r t) m
unfolding catch_up step_down log_matches
catch_up-Respects r t m a = elim (Bool-cases (ltb r.current_term t)) [
  | inl e ↦
      rw e (record { follows = a.follows; fits = a.fits; advances = a.advances; agrees = a.agrees })
  | inr e ↦ rw e a
]

receive_entries-IsValid :
    (r : Raft) (m : AppendEntries) → IsValid r → Respects r m → IsValid (receive_entries r m).0
unfolding receive_entries
receive_entries-IsValid r m v a =
    let r' = revert_candidate r in
    let v' = revert_candidate-IsValid r v in
    elim (Bool-cases (ltb m.term r.current_term)) [
      | inl e ↦ rw e v
      | inr e ↦ rw e (elim (Bool-cases (log_matches r' m.prev_log_index m.prev_log_term)) [
        | inl f ↦ rw f (accept_entries-IsValid r' m v' (revert_candidate-Respects r m a) f)
        | inr f ↦ rw f v'
      ])
    ]

pub handle_append_entries-IsValid :
    (r : Raft) (m : AppendEntries)
    → IsValid r
    → Respects r m
    → IsValid (handle_append_entries r m).0
unfolding handle_append_entries
handle_append_entries-IsValid r m v a =
    receive_entries-IsValid (catch_up r m.term) m (catch_up-IsValid r m.term v)
      (catch_up-Respects r m.term m a)

pub handle_client_request-IsValid :
    (r : Raft) (c : Command)
    → IsValid r
    → suc (length r.log) < u64_mod
    → IsValid (handle_client_request r c).0
unfolding handle_client_request
handle_client_request-IsValid r c v h =
    grind (arith, append_command-IsValid r c v h, try_advance_commit_index-IsValid)
