-- ===== src/Deployment/Simulation.antt =====
-- Every run of the nodes of node.rs is a run of the cores of raft-core/src/lib.rs.
use mathlib.Core.Option.{some-injective}
use mathlib.Core.Path.{fun_ext}
use mathlib.Core.List.{append-nil}
use raft_craft.Prelude.{
  ℕ, take, get_elem?, suc, length, ◌==◌, ==_iff, ==_refl, ◌≡◌, refl, sym, ap, ◌∙◌, subst, inl, inr,
  true, Bool-cases, List, Option, none, some, Any, Any-append, Any-append_left, Any-append_right,
  contains, ◌<◌, ◌++◌, u64_mod, >>=-eq-some,
}
use raft_craft.Protocol.{NodeId, Message, LogEntry, Action}
use raft_craft.Raft.State.{Raft, PersistentState, is_leader, new, restore}
use raft_craft.Raft.Ballots.{sends}
use raft_craft.Raft.Step.{step}
use raft_craft.Raft.Durability.Unsaved.{saves}
use raft_craft.Raft.Supporters.{IsDistinct}
use raft_craft.Runtime.Platform.{Platform, StateMachine, TimerEvent}
use raft_craft.Runtime.Timer.{reset_election}
use raft_craft.Runtime.Timer.Tasks.{reset_election-keeps}
use raft_craft.Runtime.Node.{
  Node, Input, timer, incoming, client, update_metrics, new_node, event_loop, run, process_actions,
}
use raft_craft.Runtime.Node.Effects.{event_of, entered}
use raft_craft.Raft.Parts.{first_part-cases}
use raft_craft.Consensus.System.{
  System, start, peers_in, update, after_step, after_restart, CanOccur, after_cut, handle,
  interrupt, crash, Reach, begin, next,
}
use raft_craft.Consensus.Election.{Reach-one_leader}
use raft_craft.Consensus.LogMatching.{Reach-logs_match}
use raft_craft.Deployment.Traces.{
  Trace, IsTraced, performed, HasStepped, entered-HasStepped, handle_input-HasStepped,
}
use raft_craft.Deployment.Cluster.{
  nothing_yet, on_disk, IsBooted, Arrives, Turn, takes, breaks, restarts, Deployed, boots, goes_on,
}

restored :
    (i : NodeId) (peers : List NodeId) (o : Option PersistentState)
    → (elim o [ some s ↦ restore i peers s | none ↦ new i peers ]) ≡ restore i peers (on_disk o)
unfolding restore new
restored i peers none = refl
restored i peers (some s) = refl

update-update :
    {A : Type 0} (f : NodeId → A) (i : NodeId) (a b : A) → update (update f i a) i b ≡ update f i b
update-update f i a b =
    fun_ext (λ j. elim (Bool-cases (i == j)) [ inl e ↦ rw e refl | inr e ↦ rw e refl ])

module _ (P : Platform) (S : StateMachine) (trace : P.World → Trace) where
  -- The cores of the nodes, their storages and their messages are those of the cluster.
  pub record Simulates (d : NodeId → Node P S) (s : System) : Type 0 where
    pub cores : (i : NodeId) → s.nodes i ≡ (d i).raft
    pub storages : (i : NodeId) → s.disks i ≡ on_disk (trace (d i).world).stored
    pub messages :
        (i to : NodeId) (m : Message)
        → Any (λ x. x ≡ (to, m)) (trace (d i).world).sent
        → Any (λ x. x ≡ (to, m)) s.sent

  module _ (h : IsTraced P trace) where
    booted :
        (members : List NodeId) (i : NodeId) (t : Trace) (n : Node P S)
        → IsBooted P S trace members i t n
        → (n.raft ≡ restore i (peers_in members i) (on_disk t.stored)) × (trace n.world ≡ t)
    unfolding new_node run event_loop update_metrics
    booted members i t n b =
        let n₀ =
          new_node P S i (peers_in members i) t.stored b.world b.state_machine b.config b.metrics in
        let ((started, w), reset, looped) =
          >>=-eq-some (reset_election P n₀.election_timer b.world) _ b.ran in
        let done = some-injective _ n looped in
        (
          sym (ap (λ x. x.raft) done) ∙ restored i (peers_in members i) t.stored,
          sym (ap (λ x. trace x.world) done)
              ∙ reset_election-keeps P trace h.tasks n₀.election_timer started b.world w reset
              ∙ b.outside,
        )

    start-Simulates :
        (members : List NodeId) (d : NodeId → Node P S)
        → ((i : NodeId) → IsBooted P S trace members i nothing_yet (d i))
        → Simulates d (start members)
    unfolding restore new
    start-Simulates members d b = record {
      cores = λ i. sym (booted members i nothing_yet (d i) (b i)).0;
      storages = λ i. sym (ap (λ t. on_disk t.stored) (booted members i nothing_yet (d i) (b i)).1);
      messages = λ i to m o.
          subst (λ t. Any (λ x. x ≡ (to, m)) t.sent) (booted members i nothing_yet (d i) (b i)).1 o;
    }

    arrived :
        (d : NodeId → Node P S) (s : System) (i : NodeId) (input : Input P)
        → Simulates d s
        → Arrives P S trace d i input
        → CanOccur s i (event_of P S input)
    arrived d s i (incoming from m) v (j, o) = v.messages j i m o
    arrived d s i (timer TimerEvent.election_timeout) v a = tt
    arrived d s i (timer TimerEvent.heartbeat_timeout) v a = tt
    arrived d s i (client c tx) v a = tt

    after_step-Simulates :
        (d : NodeId → Node P S) (s : System) (i : NodeId) (p : Raft × List Action) (n : Node P S)
        → Simulates d s
        → HasStepped P S trace h (d i) p n
        → Simulates (update d i n) (after_step s i p)
    after_step-Simulates d s i p n v st =
        let saved : (j : NodeId)
            → (i == j) ≡ true
            → (after_step s i p).disks j
              ≡ on_disk (performed p.0.persistent p.1 (trace (d i).world)).stored =
          λ j e. elim (Bool-cases (saves p.1)) [
            | inl w ↦ rw (w, e) refl
            | inr w ↦ rw w (ap s.disks (sym ((==_iff i j).0 e)) ∙ v.storages i)
          ] in
        record {
          cores = λ j. elim (Bool-cases (i == j)) [
            | inl e ↦ rw e (sym st.raft)
            | inr e ↦ rw e (v.cores j)
          ];
          storages = λ j. elim (Bool-cases (i == j)) [
            | inl e ↦ rw e (saved j e ∙ sym (ap (λ t. on_disk t.stored) st.traced))
            | inr e ↦ elim (Bool-cases (saves p.1)) [
              | inl w ↦ rw (e, w, e) (v.storages j)
              | inr w ↦ rw (e, w) (v.storages j)
            ]
          ];
          messages = λ j to m o. elim (Bool-cases (i == j)) [
            | inl e ↦
                let old : NodeId × Message → Type 0 = λ x. x ≡ (to, m) in
                elim (Any-append old (trace (d i).world).sent (sends p.1)
                  (subst (λ t. Any old t.sent) st.traced (rw e at o))) [
                    | inl sent_before ↦
                        Any-append_right old (sends p.1) s.sent (v.messages i to m sent_before)
                    | inr sent_now ↦ Any-append_left old (sends p.1) s.sent sent_now
                  ]
            | inr e ↦
                Any-append_right (λ x. x ≡ (to, m)) (sends p.1) s.sent
                  (v.messages j to m (rw e at o))
          ];
        }

    after_restart-Simulates :
        (members : List NodeId) (d : NodeId → Node P S) (s : System) (i : NodeId) (n : Node P S)
        → Simulates d s
        → IsBooted P S trace members i (trace (d i).world) n
        → Simulates (update d i n) (after_restart members s i)
    after_restart-Simulates members d s i n v b =
        let (core, outside) = booted members i (trace (d i).world) n b in
        record {
          cores = λ j. elim (Bool-cases (i == j)) [
            | inl e ↦ rw e (ap (restore i (peers_in members i)) (v.storages i) ∙ sym core)
            | inr e ↦ rw e (v.cores j)
          ];
          storages = λ j. elim (Bool-cases (i == j)) [
            | inl e ↦ rw e (
                ap s.disks (sym ((==_iff i j).0 e))
                ∙ v.storages i
                ∙ sym (ap (λ t. on_disk t.stored) outside))
            | inr e ↦ rw e (v.storages j)
          ];
          messages = λ j to m o. elim (Bool-cases (i == j)) [
            | inl e ↦
                v.messages i to m (subst (λ t. Any (λ x. x ≡ (to, m)) t.sent) outside (rw e at o))
            | inr e ↦ v.messages j to m (rw e at o)
          ];
        }

    -- A restart from what a part of the actions has left.
    after_cut-Simulates :
        (members : List NodeId) (d : NodeId → Node P S) (s : System) (i : NodeId) (input : Input P)
        (p : Raft × List Action) (acts rest : List Action) (m n : Node P S)
        → Simulates d s
        → step (s.nodes i) (event_of P S input) ≡ some p
        → p.1 ≡ acts ++ rest
        → process_actions P S (entered P S (d i) input p.0) acts ≡ some m
        → IsBooted P S trace members i (trace m.world) n
        → Simulates (update d i n) (after_cut members s i p acts)
    after_cut-Simulates members d s i input p acts rest m n v stepped split acted b =
        let st = entered-HasStepped P S trace h (d i) m input p.0 acts acted in
        elim (first_part-cases (s.nodes i) (event_of P S input) p acts rest stepped split) [
          | inl (kept, _) ↦
              let once = after_step-Simulates d s i (p.0, acts) m v st in
              let here : update d i m i ≡ m = rw (==_refl i) refl in
              let twice =
                after_restart-Simulates members (update d i m) (after_step s i (p.0, acts)) i n once
                  (subst (λ x. IsBooted P S trace members i (trace x.world) n) (sym here) b) in
              rw kept (
                subst (λ f. Simulates f (after_restart members (after_step s i (p.0, acts)) i))
                  (update-update d i m n) twice)
          | inr (lost, off, silent) ↦
              let untouched : performed p.0.persistent acts (trace (d i).world)
                  ≡ trace (d i).world =
                rw (off, silent, append-nil (trace (d i).world).sent) refl in
              rw (lost, silent)
                (after_restart-Simulates members d s i n v
                  (subst (λ t. IsBooted P S trace members i t n) (st.traced ∙ untouched) b))
        ]

    turn-Simulates :
        (members : List NodeId) (d d' : NodeId → Node P S) (s : System)
        → Reach members s
        → Simulates d s
        → Turn P S trace members d d'
        → (s' : System) × Reach members s' × Simulates d' s'
    turn-Simulates members d _ s r v (takes i input n member arrives term_fits log_fits done) =
        let (p, stepped, after) = handle_input-HasStepped P S trace h (d i) n input done in
        let core = sym (v.cores i) in
        (
          after_step s i p,
          next r (
              handle i (event_of P S input) p member (arrived d s i input v arrives)
                (subst (λ r. suc r.current_term < u64_mod) core term_fits)
                (subst (λ r. suc (length r.log) < u64_mod) core log_fits)
                (ap (λ r. step r (event_of P S input)) (v.cores i) ∙ stepped)),
          after_step-Simulates d s i p n v after,
        )
    turn-Simulates members d _ s r v
          (breaks i input p acts rest m n member arrives term_fits log_fits stepped split acted b) =
        let core = sym (v.cores i) in
        let stepped' = ap (λ r. step r (event_of P S input)) (v.cores i) ∙ stepped in
        (
          after_cut members s i p acts,
          next r (
              interrupt i (event_of P S input) p acts rest member (arrived d s i input v arrives)
                (subst (λ r. suc r.current_term < u64_mod) core term_fits)
                (subst (λ r. suc (length r.log) < u64_mod) core log_fits) stepped' split),
          after_cut-Simulates members d s i input p acts rest m n v stepped' split acted b,
        )
    turn-Simulates members d _ s r v (restarts i n member b) = (
      after_restart members s i,
      next r (crash i member),
      after_restart-Simulates members d s i n v b,
    )

    -- Whatever the nodes do on their event loops, with storages that do not fail and transports
    -- that take every message, also when they crash between two inputs or between two actions and
    -- start again from their storages: the cluster of cores has a run in which every core is in
    -- the state of its node, its disk holds what the storage of the node holds, and every message
    -- was sent that a node has handed to its transport. (Terms and logs stay below the largest
    -- number.)
    pub Deployed-Simulates :
        {members : List NodeId} {d : NodeId → Node P S}
        → Deployed P S trace members d
        → (s : System) × Reach members s × Simulates d s
    Deployed-Simulates {members} (boots d b) = (start members, begin, start-Simulates members d b)
    Deployed-Simulates {members} (goes_on {d} {d'} runs turn) =
        let (s, r, v) = Deployed-Simulates runs in turn-Simulates members d d' s r v turn

    -- Of the nodes that run on their event loops, no two different members are leaders of one
    -- term, however often nodes crash, between two inputs or between two actions, and start again
    -- from their storages, and whatever the network does with their messages. (The members are
    -- distinct, the storages do not fail, and terms and logs stay below the largest number.)
    pub Deployed-one_leader :
        {members : List NodeId} {d : NodeId → Node P S}
        → IsDistinct members
        → Deployed P S trace members d
        → (i j : NodeId) → contains members i ≡ true
        → contains members j ≡ true
        → is_leader (d i).raft.role ≡ true
        → is_leader (d j).raft.role ≡ true
        → (d i).raft.current_term ≡ (d j).raft.current_term
        → i ≡ j
    Deployed-one_leader {d = d} distinct runs i j here there leads leads' same =
        let (s, r, v) = Deployed-Simulates runs in
        let core = λ (k : NodeId). sym (v.cores k) in
        Reach-one_leader distinct r i j here there
          (subst (λ r. is_leader r.role ≡ true) (core i) leads)
          (subst (λ r. is_leader r.role ≡ true) (core j) leads')
          (subst (λ r. r.current_term ≡ (s.nodes j).current_term) (core i)
            (subst (λ r. (d i).raft.current_term ≡ r.current_term) (core j) same))

    -- The logs of the nodes that run on their event loops match: if two of them have entries of
    -- the same term at the same place, they are the same up to and including that place, however
    -- often nodes crash, between two inputs or between two actions, and start again from their
    -- storages, and whatever the network does. (The members are distinct, the storages do not
    -- fail, and terms and logs stay below the largest number.)
    pub Deployed-logs_match :
        {members : List NodeId} {d : NodeId → Node P S}
        → IsDistinct members
        → Deployed P S trace members d
        → (i j : NodeId) (k : ℕ) (e f : LogEntry) → get_elem? (d i).raft.log k ≡ some e
        → get_elem? (d j).raft.log k ≡ some f
        → e.term ≡ f.term
        → take (suc k) (d i).raft.log ≡ take (suc k) (d j).raft.log
    Deployed-logs_match {d = d} distinct runs i j k e f found found' same =
        let (s, r, v) = Deployed-Simulates runs in
        rw (← v.cores i, ← v.cores j)
          (Reach-logs_match distinct r i j k e f (ap (λ x. get_elem? x.log k) (v.cores i) ∙ found)
            (ap (λ x. get_elem? x.log k) (v.cores j) ∙ found') same)
