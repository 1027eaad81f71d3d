-- ===== src/Raft/Replication/Exchange.antt =====
-- heartbeat.rs against append_entries.rs: one message of a leader and the answer of its follower.
use raft_craft.Prelude.{
  ℕ, suc, ◌+◌, ◌-◌, ◌≤◌, ◌<◌, ◌≡◌, ap, ◌∙◌, true, List, ◌∷◌, some, arith, length, get_elem?, drop,
}
use raft_craft.Protocol.{LogEntry, AppendEntries, Action, persist_state, reset_election_timer}
use raft_craft.Raft.State.{Raft, last_log_index}
use raft_craft.Raft.AppendEntries.{log_matches, handle_append_entries}
use raft_craft.Raft.Heartbeat.{append_entries_msg}
use raft_craft.Raft.Log.Numbered.{IsNumbered, IsNumbered-drop}
use raft_craft.Raft.Log.Merge.{take_all}
use raft_craft.Raft.Log.Slices.{length-drop}
use raft_craft.Raft.Log.Agreement.{
  length-reconcile, reconcile-keeps, reconcile-IsNumbered, reconcile-contains,
}
use raft_craft.Raft.Validity.Replication.{log_matches-reach}
use raft_craft.Raft.Replication.{
  AgreeBelow-nil, term_at, append_entries_msg_lem, confirmation, Accepts,
  handle_append_entries-Accepts, get_elem?-drop, last_log_index-length,
}

-- A leader and a follower that shares its first `n` entries: `log_matches` holds at `n`.
module _ (l f : Raft) (n : ℕ) (lw : IsNumbered 1 l.log) (fw : IsNumbered 1 f.log)
    (current : f.current_term ≤ l.current_term) (matches : log_matches f n (term_at l.log n) ≡ true)
    (within : n ≤ length l.log) where
  abbrev content : AppendEntries
  content = record {
    term = l.current_term;
    leader_id = l.id;
    prev_log_index = n;
    prev_log_term = term_at l.log n;
    entries = drop n l.log;
    leader_commit = l.commit_index;
  }

  accepts : Accepts f content (handle_append_entries f content)
  accepts = handle_append_entries-Accepts f content current matches

  reach : n ≤ length f.log
  reach = log_matches-reach f n (term_at l.log n) fw matches

  follows : IsNumbered (suc n) (drop n l.log)
  follows = IsNumbered-drop 1 n (suc n) l.log lw (omega arith)

  -- After one exchange the follower's log has, behind entry `n`, every entry of the leader's log
  -- under its index and with its term. (Both logs are numbered 1, 2, …, the follower's term is
  -- not above the leader's, and the logs match at entry `n` of the leader's log.)
  pub exchange-replicates :
      (i : ℕ) (e : LogEntry)
      → get_elem? l.log (n + i) ≡ some e
      → (x : LogEntry) × (get_elem?
            (handle_append_entries f (append_entries_msg l (suc n))).0.log
            (n + i)
          ≡ some x)
        × (x.term ≡ e.term)
  exchange-replicates i e got =
      rw (append_entries_msg_lem l n lw, accepts.0)
        (reconcile-contains n f.log (drop n l.log) fw follows reach i e
          (get_elem?-drop n i l.log ∙ got))

  -- The length of what the follower has then is what it confirms, and it is at least the length of
  -- the leader's log.
  confirms :
      (length l.log ≤ length (handle_append_entries f content).0.log)
      × (last_log_index (handle_append_entries f content).0
          ≡ length (handle_append_entries f content).0.log)
  confirms = (
    omega (
      arith,
      ap length accepts.0,
      length-reconcile n f.log (drop n l.log) fw follows reach,
      length-drop n l.log,
    ),
    last_log_index-length (handle_append_entries f content).0
        (rw accepts.0 (reconcile-IsNumbered n f.log (drop n l.log) fw follows reach)),
  )

  -- The follower saves its state, restarts its timer and confirms at least the whole of the leader's
  -- log. (Both logs are numbered 1, 2, …, the follower's term is not above the leader's,
  -- and the logs match at entry `n` of the leader's log.)
  pub exchange-confirms :
      (matched : ℕ) × (rest : List Action) × (length l.log ≤ matched)
      × ((handle_append_entries f (append_entries_msg l (suc n))).1
          ≡ persist_state
            ∷ reset_election_timer
            ∷ confirmation (handle_append_entries f (append_entries_msg l (suc n))).0 l.id matched
            ∷ rest)
  exchange-confirms = rw (append_entries_msg_lem l n lw) (
    last_log_index (handle_append_entries f content).0,
    accepts.1,
    omega (arith, confirms.0, confirms.1),
    accepts.2,
  )

  -- A follower that holds more entries than the leader, and none that the message contradicts,
  -- confirms an index beyond the leader's last one: the confirmation covers entries that the leader
  -- does not have. (Both logs are numbered 1, 2, …, the follower's term is not above the leader's,
  -- and the logs match at entry `n` of the leader's log, which is its last one.)
  pub exchange-overclaims :
      length l.log ≡ n
      → n < length f.log
      → (matched : ℕ) × (rest : List Action) × (length l.log < matched)
        × ((handle_append_entries f (append_entries_msg l (suc n))).1
            ≡ persist_state
              ∷ reset_election_timer
              ∷ confirmation (handle_append_entries f (append_entries_msg l (suc n))).0 l.id matched
              ∷ rest)
  exchange-overclaims all more =
      let kept =
        reconcile-keeps n f.log (drop n l.log) fw follows reach (length f.log)
          (rw (take_all n l.log (omega arith)).1 (AgreeBelow-nil (length f.log - n) (drop n f.log)))
          (omega arith) in
      rw (append_entries_msg_lem l n lw) (
        last_log_index (handle_append_entries f content).0,
        accepts.1,
        omega (arith, confirms.1, confirms.0, ap length accepts.0, kept.1),
        accepts.2,
      )
