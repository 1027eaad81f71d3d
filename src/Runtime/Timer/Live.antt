-- ===== src/Runtime/Timer/Live.antt =====
-- timer.rs: which tasks of the timers have not been told to end.
use mathlib.Core.Option.{some-injective}
use raft_craft.Prelude.{ℕ, ◌≡◌, ◌≢◌, sym, subst, ap, ◌⊎◌, inl, inr, Option, none, some}
use raft_craft.Protocol.{NodeId, Message}
use raft_craft.Raft.State.{PersistentState}
use raft_craft.Runtime.Platform.{Platform, TimerEvent, ClientResponse}
use raft_craft.Runtime.Timer.Tasks.{reset_election-some}
use raft_craft.Runtime.Timer.{
  ElectionTimer, HeartbeatTimer, abort_handle, reset_election, reset_heartbeat,
}

-- `Uncancelled w h e`: the task `h`, which is to send `e`, was started and its cancellation has not
-- been requested. `spawn` starts one task, `abort` requests the cancellation of one (a cancelled
-- task may still be running when `abort` returns), and nothing else starts a task.
pub record TracksTasks (P : Platform) (Uncancelled : P.World → P.JoinHandle → TimerEvent → Type 0)
    : Type 0 where
  pub spawn_adds :
      (ms : ℕ) (e : TimerEvent) (w : P.World) (h : P.JoinHandle) (f : TimerEvent)
      → Uncancelled (P.spawn ms e w).1 h f
      → ((h ≡ (P.spawn ms e w).0) × (f ≡ e)) ⊎ Uncancelled w h f
  pub abort_requests :
      (j : P.JoinHandle) (w : P.World) (h : P.JoinHandle) (f : TimerEvent)
      → Uncancelled (P.abort j w) h f
      → Uncancelled w h f × (h ≢ j)
  pub random_adds_none :
      (a b : ℕ) (w : P.World) (h : P.JoinHandle) (f : TimerEvent)
      → Uncancelled (P.random_range a b w).1 h f
      → Uncancelled w h f
  pub send_adds_none :
      (to : NodeId) (m : Message) (w : P.World) (h : P.JoinHandle) (f : TimerEvent)
      → Uncancelled (P.send to m w) h f
      → Uncancelled w h f
  pub save_adds_none :
      (s : PersistentState) (w : P.World) (h : P.JoinHandle) (f : TimerEvent)
      → Uncancelled (P.save s w).1 h f
      → Uncancelled w h f
  pub reply_adds_none :
      (tx : P.Sender) (r : ClientResponse) (w : P.World) (h : P.JoinHandle) (f : TimerEvent)
      → Uncancelled (P.reply tx r w) h f
      → Uncancelled w h f

module _ (P : Platform) (Uncancelled : P.World → P.JoinHandle → TimerEvent → Type 0) where
  -- The handle that a timer keeps for its task.
  abbrev pub kept : Option P.JoinHandle → Option P.JoinHandle → TimerEvent → Option P.JoinHandle
  kept election heartbeat TimerEvent.election_timeout = election
  kept election heartbeat TimerEvent.heartbeat_timeout = heartbeat

  abbrev pub Keeps : Option P.JoinHandle → Option P.JoinHandle → P.World → Type 0
  Keeps election heartbeat w =
      (h : P.JoinHandle) (e : TimerEvent) → Uncancelled w h e → kept election heartbeat e ≡ some h

  module _ (law : TracksTasks P Uncancelled) where
    pub abort_election-Keeps :
        (a b : Option P.JoinHandle) (w : P.World) → Keeps a b w → Keeps none b (abort_handle P a w)
    unfolding abort_handle
    abort_election-Keeps none b w k h e live = k h e live
    abort_election-Keeps (some j) b w k h TimerEvent.election_timeout live =
        let (before, apart) = law.abort_requests j w h _ live in
        absurd (apart (sym (some-injective j h (k h _ before))))
    abort_election-Keeps (some j) b w k h TimerEvent.heartbeat_timeout live =
        k h _ (law.abort_requests j w h _ live).0

    abort_heartbeat-Keeps :
        (a b : Option P.JoinHandle) (w : P.World) → Keeps a b w → Keeps a none (abort_handle P b w)
    unfolding abort_handle
    abort_heartbeat-Keeps a none w k h e live = k h e live
    abort_heartbeat-Keeps a (some j) w k h TimerEvent.heartbeat_timeout live =
        let (before, apart) = law.abort_requests j w h _ live in
        absurd (apart (sym (some-injective j h (k h _ before))))
    abort_heartbeat-Keeps a (some j) w k h TimerEvent.election_timeout live =
        k h _ (law.abort_requests j w h _ live).0

    start_election-Keeps :
        (ms : ℕ) (b : Option P.JoinHandle) (w : P.World)
        → Keeps none b w
        → let (h, w') = P.spawn ms TimerEvent.election_timeout w in Keeps (some h) b w'
    start_election-Keeps ms b w k h TimerEvent.election_timeout live =
        elim (law.spawn_adds ms _ w h _ live) [
          | inl (new, same) ↦ ap some (sym new)
          | inr old ↦ let impossible = k h _ old in absurd cc
        ]
    start_election-Keeps ms b w k h TimerEvent.heartbeat_timeout live =
        elim (law.spawn_adds ms _ w h _ live) [ inl (new, same) ↦ absurd cc | inr old ↦ k h _ old ]

    start_heartbeat-Keeps :
        (ms : ℕ) (a : Option P.JoinHandle) (w : P.World)
        → Keeps a none w
        → let (h, w') = P.spawn ms TimerEvent.heartbeat_timeout w in Keeps a (some h) w'
    start_heartbeat-Keeps ms a w k h TimerEvent.heartbeat_timeout live =
        elim (law.spawn_adds ms _ w h _ live) [
          | inl (new, same) ↦ ap some (sym new)
          | inr old ↦ let impossible = k h _ old in absurd cc
        ]
    start_heartbeat-Keeps ms a w k h TimerEvent.election_timeout live =
        elim (law.spawn_adds ms _ w h _ live) [ inl (new, same) ↦ absurd cc | inr old ↦ k h _ old ]

    pub reset_election-Keeps :
        (t t' : ElectionTimer P) (b : Option P.JoinHandle) (w w' : P.World)
        → Keeps t.handle b w
        → reset_election P t w ≡ some (t', w')
        → Keeps t'.handle b w'
    reset_election-Keeps t t' b w w' k done =
        let stopped = abort_election-Keeps t.handle b w k in
        subst (λ p. Keeps p.0.handle b p.1) (reset_election-some P t w _ done)
          (start_election-Keeps _ b _
            (λ h e live. stopped h e (law.random_adds_none _ _ _ h e live)))

    pub reset_heartbeat-Keeps :
        (t : HeartbeatTimer P) (a : Option P.JoinHandle) (w : P.World)
        → Keeps a t.handle w
        → Keeps a (reset_heartbeat P t w).0.handle (reset_heartbeat P t w).1
    unfolding reset_heartbeat
    reset_heartbeat-Keeps t a w k =
        start_heartbeat-Keeps _ a _ (abort_heartbeat-Keeps a t.handle w k)
