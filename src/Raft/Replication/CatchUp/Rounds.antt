-- ===== src/Raft/Replication/CatchUp/Rounds.antt =====
-- heartbeat.rs with append_entries.rs: rounds of a leader and one follower until their logs agree.
use raft_craft.Prelude.{
  drop, get_elem?-lt, ℕ, zero, suc, ◌+◌, ◌-◌, ◌≤◌, ◌<◌, ◌≡◌, refl, sym, ap, ◌∙◌, inl, inr, true,
  false, List, [], some, arith, max, length, get_elem?, get_elem?-set_self, get_elem?-lt,
  Bool-cases,
}
use raft_craft.Protocol.{LogEntry, LogIndex, AppendEntries, AppendEntriesResponse, Action}
use raft_craft.Raft.State.{Raft, LeaderState}
use raft_craft.Raft.AppendEntries.{
  log_matches, handle_append_entries, receive_entries, accept_entries, accepted,
  append_entries_response, back_up, reconcile, handle_append_entries_response,
  advance_follower_commit,
}
use raft_craft.Raft.Apply.{apply_committed_entries-frame}
use raft_craft.Raft.Replication.{
  handle_append_entries-Accepts, term_at, append_entries_msg_lem, prepared, prepared-log,
  catch_up_current, same_log_matches,
}
use raft_craft.Raft.Replication.Exchange.{exchange-replicates, exchange-confirms}
use raft_craft.Raft.Replication.CatchUp.{reply_in, round, rounds, InTouch}
use raft_craft.Raft.Replication.CatchUp.Replies.{
  append_entries_for_peer_lem, answer, prepared-frame, refuses, reply_reaches, reply_of_refusal,
  reply_of_success,
}

-- What the leader sends to its peer `i`.
abbrev asked : ℕ → Raft → AppendEntries
asked n l = record {
  term = l.current_term;
  leader_id = l.id;
  prev_log_index = n;
  prev_log_term = term_at l.log n;
  entries = drop n l.log;
  leader_commit = l.commit_index;
}

-- A round, when the reply of the follower is known.
round_by_reply :
    (i n : ℕ) (l f : Raft) (reply : AppendEntriesResponse) (p : Raft × List Action)
    → InTouch i n l f
    → reply_in (handle_append_entries f (asked n l)).1 ≡ some reply
    → handle_append_entries_response l reply ≡ some p
    → round i l f ≡ some (p.0, (handle_append_entries f (asked n l)).0)
unfolding round
round_by_reply i n l f reply p t replied handled =
    rw
      (
        append_entries_for_peer_lem i n l f t,
        append_entries_msg_lem l n t.leader_numbered,
        replied,
        handled,
      )
      refl

back_up-next :
    (ls : LeaderState) (i n : ℕ)
    → i < length ls.next_index
    → get_elem? (back_up ls i (suc (suc n))).next_index i ≡ some (suc n)
unfolding back_up
back_up-next ls i n bound =
    let before : max (suc (suc n) - 1) 1 ≡ suc n = omega arith in
    rw before (get_elem?-set_self ls.next_index i (suc n) bound)

back_up-shaped :
    (ls : LeaderState) (i next : ℕ)
    → i < length ls.match_index
    → i < length (back_up ls i next).match_index
unfolding back_up
back_up-shaped ls i next h = h

-- A round in which the follower refuses: the leader goes one entry back, and no log changes.
refused_round :
    (i n : ℕ) (l f : Raft)
    → InTouch i (suc n) l f
    → log_matches f (suc n) (term_at l.log (suc n)) ≡ false
    → (l' : Raft) × (f' : Raft) × (round i l f ≡ some (l', f'))
      × (l'.log ≡ l.log)
      × (f'.log ≡ f.log)
      × InTouch i n l' f'
refused_round i n l f t misses =
    let m = asked (suc n) l in
    let (term, id) = prepared-frame f m t.current in
    let no = refuses f m t.current misses in
    let ls = back_up t.state i (suc (suc n)) in
    let l' = record l { leader_state = some ls } in
    (
      l',
      prepared f m,
      round_by_reply i (suc n) l f (answer l f false 0) (l', []) t
            (unfold append_entries_response in rw (no, term, id) refl)
            (reply_reaches i (suc n) l f false 0 t ∙ reply_of_refusal i (suc n) l f t)
          ∙ ap (λ q. some (l', q.0)) no,
      refl,
      prepared-log f m,
      record {
        leads = t.leads;
        peer = rw id t.peer;
        state = ls;
        kept = refl;
        next = back_up-next t.state i n (get_elem?-lt t.state.next_index i _ t.next);
        shaped = back_up-shaped t.state i _ t.shaped;
        leader_numbered = t.leader_numbered;
        follower_numbered = rw (prepared-log f m) t.follower_numbered;
        current = omega (arith, term);
        within = omega (arith, t.within);
      },
    )

-- What a round achieves in which the logs match.
abbrev pub Achieves : ℕ → ℕ → Raft → Raft → Raft → Raft → Type 0
Achieves i p l f l' f' =
    (f'.log ≡ reconcile f.log (drop p l.log))
    × ((j : ℕ) (e : LogEntry)
        → get_elem? l.log (p + j) ≡ some e
        → (x : LogEntry) × (get_elem? f'.log (p + j) ≡ some x) × (x.term ≡ e.term))
    × (ls : LeaderState) × (known : LogIndex) × (l'.leader_state ≡ some ls)
    × (get_elem? ls.match_index i ≡ some known)
    × (length l.log ≤ known)

-- The follower that takes entries on is in the term of the message.
takes_on-frame :
    (f : Raft) (m : AppendEntries)
    → f.current_term ≤ m.term
    → log_matches f m.prev_log_index m.prev_log_term ≡ true
    → ((handle_append_entries f m).0.current_term ≡ m.term)
      × ((handle_append_entries f m).0.id ≡ f.id)
unfolding handle_append_entries receive_entries accept_entries advance_follower_commit
takes_on-frame f m h matches =
    let f' = prepared f m in
    let (term, id) = prepared-frame f m h in
    let ok = same_log_matches f' f m.prev_log_index m.prev_log_term (prepared-log f m) ∙ matches in
    rw (catch_up_current f m.term h, ok)
      (ground (arith, (apply_committed_entries-frame (accepted f' m)).1, term, id))

accepted_round :
    (i n : ℕ) (l f : Raft)
    → InTouch i n l f
    → log_matches f n (term_at l.log n) ≡ true
    → (l' : Raft) × (f' : Raft) × (round i l f ≡ some (l', f')) × Achieves i n l f l' f'
accepted_round i n l f t matches =
    let m = asked n l in
    let f' = (handle_append_entries f m).0 in
    let sent = append_entries_msg_lem l n t.leader_numbered in
    let (term, id) = takes_on-frame f m t.current matches in
    let (matched, rest, enough, acts) =
      exchange-confirms l f n t.leader_numbered t.follower_numbered t.current matches t.within in
    let (p, ls, known, done, kept, noted, more) = reply_of_success i n l f matched t in
    (
      p.0,
      f',
      round_by_reply i n l f (answer l f true matched) p t (rw (rw sent at acts, term, id) refl)
          (reply_reaches i n l f true matched t ∙ done),
      (
        (handle_append_entries-Accepts f m t.current matches).0,
        λ j e got. rw sent at (
            exchange-replicates l f n t.leader_numbered t.follower_numbered t.current matches
              t.within j e got),
        ls,
        known,
        kept,
        noted,
        omega (arith, enough, more),
      ),
    )

-- The logs match at an entry `p ≤ n`, and `n + 1 - p` rounds achieve the rest.
abbrev pub CatchesUp : ℕ → ℕ → Raft → Raft → Type 0
CatchesUp i n l f =
    (p : ℕ) × (k : ℕ) × (l' : Raft) × (f' : Raft) × (p ≤ n)
    × (p + k ≡ suc n)
    × (log_matches f p (term_at l.log p) ≡ true)
    × (rounds k i l f ≡ some (l', f'))
    × Achieves i p l f l' f'

at_once :
    (i n : ℕ) (l f : Raft)
    → InTouch i n l f
    → log_matches f n (term_at l.log n) ≡ true
    → CatchesUp i n l f
at_once i n l f t matches =
    let (l', f', done, achieved) = accepted_round i n l f t matches in
    (n, 1, l', f', omega arith, omega arith, matches, rw done refl, achieved)

-- A refused round before the others.
one_later :
    (i n : ℕ) (l f l₁ f₁ : Raft)
    → round i l f ≡ some (l₁, f₁)
    → l₁.log ≡ l.log
    → f₁.log ≡ f.log
    → CatchesUp i n l₁ f₁
    → CatchesUp i (suc n) l f
one_later i n l f l₁ f₁ done same_l same_f (p, k, l', f', within, sum, matches, rest, achieved) = (
  p,
  suc k,
  l',
  f',
  omega arith,
  omega arith,
  same_log_matches f f₁ p (term_at l.log p) (sym same_f) ∙ rw same_l at matches,
  rw done rest,
  rw (same_l, same_f) at achieved,
)

-- A leader and one follower that exchange messages undisturbed agree in the end. If the next index
-- is `n + 1`, there is an entry `p ≤ n` at which the logs match, and after `n + 1 - p` rounds the
-- follower's log is reconciled with the entries behind `p` of the leader's, has every one of them,
-- under its index and with its term, and the leader knows that the follower has its whole log.
-- (The leader has the follower as a peer and an index in both its vectors for it, both logs are
-- numbered 1, 2, …, the follower's term is not above the leader's, and `n` is at most the length of
-- the leader's log.)
pub rounds-catch_up : (i n : ℕ) (l f : Raft) → InTouch i n l f → CatchesUp i n l f
rounds-catch_up i zero l f t = at_once i zero l f t (unfold log_matches in refl)
rounds-catch_up i (suc n) l f t =
    elim (Bool-cases (log_matches f (suc n) (term_at l.log (suc n)))) [
      | inl matches ↦ at_once i (suc n) l f t matches
      | inr misses ↦
          let (l₁, f₁, done, same_l, same_f, t₁) = refused_round i n l f t misses in
          one_later i n l f l₁ f₁ done same_l same_f (rounds-catch_up i n l₁ f₁ t₁)
    ]
