-- ===== src/Runtime/Node/Replies.antt =====
-- node.rs: which waiting clients the actions of one step answer, and with what.
use mathlib.Core.List.{append-nil}
use mathlib.Core.Option.{some-injective}
use raft_craft.Prelude.{
  ◌==◌, ==_iff, ==_refl, ◌≡◌, ◌≢◌, refl, sym, ap, ◌∙◌, inl, inr, Bool, true, false, List, [], ◌∷◌,
  ◌++◌, Option, none, some, arith, lookup, lookup-remove, Option-cases, Bool-cases, >>=-eq-some,
  if◌then◌else◌,
}
use raft_craft.Protocol.{
  NodeId, LogIndex, Message, Action, send, reset_election_timer, reset_heartbeat_timer,
  persist_state, not_leader, apply_command,
}
use raft_craft.Raft.State.{PersistentState}
use raft_craft.Raft.Applied.{applied_commands}
use raft_craft.Runtime.Platform.{Platform, StateMachine, ClientResponse, applied}
use raft_craft.Runtime.Timer.{reset_election, cancel_election}
use raft_craft.Runtime.Timer.Tasks.{
  IgnoresTasks, reset_election-keeps, cancel_election-keeps, reset_heartbeat-keeps,
}
use raft_craft.Runtime.Node.{
  Node, record_outgoing, reply_to, resolve, process_action, process_actions,
}
use raft_craft.Runtime.Node.Effects.{process_action-Executes}

-- No action tells the clients that the node is not the leader.
abbrev pub IsQuiet : List Action → Type 0
IsQuiet [] = Unit {0}
IsQuiet (not_leader id ∷ rest) = ⊥
IsQuiet (send to m ∷ rest) = IsQuiet rest
IsQuiet (reset_election_timer ∷ rest) = IsQuiet rest
IsQuiet (reset_heartbeat_timer ∷ rest) = IsQuiet rest
IsQuiet (persist_state ∷ rest) = IsQuiet rest
IsQuiet (apply_command c ∷ rest) = IsQuiet rest

-- `answers` are the replies to the clients, the oldest first; the tasks, the storage and the
-- transport do not touch them.
pub record IsAnswering (P : Platform) (answers : P.World → List (P.Sender × ClientResponse))
    : Type 0 where
  pub reply_appends :
      (tx : P.Sender) (r : ClientResponse) (w : P.World)
      → answers (P.reply tx r w) ≡ answers w ++ (tx, r) ∷ []
  pub save_keeps : (s : PersistentState) (w : P.World) → answers (P.save s w).1 ≡ answers w
  pub send_keeps : (to : NodeId) (m : Message) (w : P.World) → answers (P.send to m w) ≡ answers w
  pub tasks : IgnoresTasks P answers

abbrev has_command : List Action → Bool
has_command acts = elim (applied_commands acts) [ [] ↦ false | _ ∷ _ ↦ true ]

module _ (P : Platform) (S : StateMachine) where
  -- The client that waits at an index.
  abbrev pub waiting : Node P S → LogIndex → Option P.Sender
  waiting n i = lookup ◌==◌ i n.pending

  -- The one answer that applying commands gives: `applied`, to the client at `last_applied`, if
  -- there is one.
  abbrev due : Option P.Sender → List (P.Sender × ClientResponse)
  due none = []
  due (some tx) = (tx, applied) ∷ []

  abbrev pub owed : Node P S → List Action → List (P.Sender × ClientResponse)
  owed n acts = if has_command acts then due (waiting n n.raft.last_applied) else []

  module _ (answers : P.World → List (P.Sender × ClientResponse))
      (law : IsAnswering P answers) where
    -- From `n` to `n'` exactly `replies` were sent, and at any index but `n`'s `last_applied` the
    -- same client waits as before.
    pub record Answers (n : Node P S) (replies : List (P.Sender × ClientResponse)) (n' : Node P S)
        : Type 0 where
      pub sent : answers n'.world ≡ answers n.world ++ replies
      pub others : (i : LogIndex) → (n.raft.last_applied == i) ≡ false → waiting n' i ≡ waiting n i

    silent :
        (n n' : Node P S)
        → answers n'.world ≡ answers n.world
        → n'.pending ≡ n.pending
        → Answers n [] n'
    silent n n' e same = record {
      sent = e ∙ sym (append-nil (answers n.world));
      others = λ i h. ap (λ l. lookup ◌==◌ i l) same;
    }

    -- `resolve` answers the client at `last_applied`, after which none waits there.
    resolve-Answers :
        (n : Node P S) (s : S.State)
        → let j = n.raft.last_applied in
          let n' = resolve P S (record n { state_machine = s }) j in
          Answers n (due (waiting n j)) n' × (waiting n' j ≡ none)
    unfolding resolve reply_to
    resolve-Answers n s =
        let j = n.raft.last_applied in
        elim (Option-cases (lookup ◌==◌ j n.pending)) [
          | inl e ↦ rw (resolve, e) (silent n (record n { state_machine = s }) refl refl, e)
          | inr (tx, e) ↦
              rw (resolve, e)
                (
                  record {
                    sent = law.reply_appends tx applied n.world;
                    others = λ i h. lookup-remove ◌==◌ ==_iff j i n.pending ∙ rw h refl;
                  },
                  lookup-remove ◌==◌ ==_iff j j n.pending ∙ rw (==_refl j) refl,
                )
        ]

    -- The first action has touched neither the answers nor the clients that wait.
    after_silence :
        (n m n' : Node P S) (acts : List Action)
        → m.raft ≡ n.raft
        → answers m.world ≡ answers n.world
        → m.pending ≡ n.pending
        → Answers m (owed m acts) n'
        → Answers n (owed n acts) n'
    after_silence n m n' acts r e p h =
        let same_owed : owed m acts ≡ owed n acts = rw (r, p) refl in
        record {
          sent = h.sent ∙ rw (e, same_owed) refl;
          others = λ i apart. h.others i (rw r apart) ∙ ap (λ l. lookup ◌==◌ i l) p;
        }

    -- The first action has answered the client that waits at `last_applied`.
    after_answer :
        (n m n' : Node P S) (acts : List Action)
        → m.raft ≡ n.raft
        → Answers n (due (waiting n n.raft.last_applied)) m
        → waiting m n.raft.last_applied ≡ none
        → Answers m (owed m acts) n'
        → Answers n (due (waiting n n.raft.last_applied)) n'
    after_answer n m n' acts r first nobody h =
        let nothing : owed m acts ≡ [] = elim (Bool-cases (has_command acts)) [
          | inl c ↦ rw (c, r, nobody) refl
          | inr c ↦ rw c refl
        ] in
        record {
          sent = h.sent ∙ rw (nothing, append-nil (answers m.world)) first.sent;
          others = λ i apart. h.others i (rw r apart) ∙ first.others i apart;
        }

    actions-Answers :
        (n n' : Node P S) (acts : List Action)
        → IsQuiet acts
        → process_actions P S n acts ≡ some n'
        → Answers n (owed n acts) n'
    unfolding process_actions process_action record_outgoing cancel_election
    actions-Answers n n' [] quiet done =
        silent n n' (ap (λ m. answers m.world) (sym (some-injective n n' done)))
          (ap (λ m. m.pending) (sym (some-injective n n' done)))
    actions-Answers n n' (send to msg ∷ acts) quiet done =
        after_silence n _ n' acts refl (law.send_keeps to msg n.world) refl
          (actions-Answers _ n' acts quiet done)
    actions-Answers n n' (reset_election_timer ∷ acts) quiet done =
        let (m, first, rest) = >>=-eq-some (process_action P S n reset_election_timer) _ done in
        let ((t, w), reset, same) =
          >>=-eq-some (reset_election P n.election_timer n.world) _ first in
        let kept = reset_election-keeps P answers law.tasks n.election_timer t n.world w reset in
        let m₁ = record n { election_timer = t; world = w } in
        after_silence n m₁ n' acts refl kept refl
          (actions-Answers m₁ n' acts quiet (rw (some-injective m₁ m same) rest))
    actions-Answers n n' (reset_heartbeat_timer ∷ acts) quiet done =
        after_silence n _ n' acts refl
          (reset_heartbeat-keeps P answers law.tasks n.heartbeat_timer
              (cancel_election P n.election_timer n.world).1
            ∙ cancel_election-keeps P answers law.tasks n.election_timer n.world)
          refl (actions-Answers _ n' acts quiet done)
    actions-Answers n n' (persist_state ∷ acts) quiet done =
        after_silence n _ n' acts refl (law.save_keeps n.raft.persistent n.world) refl
          (actions-Answers _ n' acts quiet done)
    actions-Answers n n' (not_leader id ∷ acts) quiet done = absurd quiet
    actions-Answers n n' (apply_command c ∷ acts) quiet done =
        let s = S.apply n.state_machine c in
        let m = resolve P S (record n { state_machine = s }) n.raft.last_applied in
        let (first, nobody) = resolve-Answers n s in
        let same = (process_action-Executes P S n m (apply_command c) refl).raft in
        after_answer n m n' acts same first nobody (actions-Answers m n' acts quiet done)

    -- However many commands the actions of a step apply, at most one reply is sent, `applied`: to
    -- the client that waits at the node's `last_applied`, if one does and the actions apply a
    -- command. At any other index the same client waits afterwards as before. (No action is a
    -- redirection, the actions do not panic, and the tasks, the storage and the transport send no
    -- replies.)
    pub process_actions_answers :
        (n n' : Node P S) (acts : List Action) (i : LogIndex)
        → IsQuiet acts
        → process_actions P S n acts ≡ some n'
        → n.raft.last_applied ≢ i
        → (answers n'.world ≡ answers n.world ++ owed n acts) × (waiting n' i ≡ waiting n i)
    process_actions_answers n n' acts i quiet done apart =
        let h = actions-Answers n n' acts quiet done in (h.sent, h.others i (ground arith))
