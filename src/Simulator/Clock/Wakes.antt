-- ===== src/Simulator/Clock/Wakes.antt =====
-- clock.rs: the clock wakes the sleeps whose time has come, earliest first, and no others.
use raft_craft.Prelude.{
  ℕ, suc, ◌+◌, ◌≤◌, ◌<◌, ◌≡◌, refl, ap, inl, inr, List, [], ◌∷◌, ◌++◌, arith, leb, leb→le, u64_mod,
  wrapping_add_lem, Bool-cases, All,
}
use raft_craft.Simulator.Clock.{
  WakeEntry, SimulatedClock, wake_due, tick, push, register_waker, poll,
}

module _ {Waker : Type 0} where
  abbrev pub From : ℕ → List (WakeEntry Waker) → Type 0
  From d heap = All (λ e. d ≤ e.deadline) heap

  -- The first deadline is the least, and so on.
  abbrev pub IsHeap : List (WakeEntry Waker) → Type 0
  IsHeap [] = Unit {0}
  IsHeap (e ∷ heap) = From e.deadline heap × IsHeap heap

  From-mono : (a b : ℕ) (heap : List (WakeEntry Waker)) → a ≤ b → From b heap → From a heap
  From-mono a b [] h f = tt
  From-mono a b (e ∷ heap) h (x, f) = (omega (arith, x), From-mono a b heap h f)

  push-From :
      (d : ℕ) (e : WakeEntry Waker) (heap : List (WakeEntry Waker))
      → d ≤ e.deadline
      → From d heap
      → From d (push e heap)
  unfolding push
  push-From d e [] h f = (h, tt)
  push-From d e (x ∷ heap) h (y, f) = elim (Bool-cases (leb x.deadline e.deadline)) [
    | inl b ↦ rw b (y, push-From d e heap h f)
    | inr b ↦ rw b (h, (y, f))
  ]

  push-IsHeap :
      (e : WakeEntry Waker) (heap : List (WakeEntry Waker)) → IsHeap heap → IsHeap (push e heap)
  unfolding push
  push-IsHeap e [] h = (tt, tt)
  push-IsHeap e (x ∷ heap) (f, h) = elim (Bool-cases (leb x.deadline e.deadline)) [
    | inl b ↦ rw b (push-From x.deadline e heap (leb→le _ _ b) f, push-IsHeap e heap h)
    | inr b ↦
        let le : e.deadline ≤ x.deadline = ground arith in
        rw b ((le, From-mono e.deadline x.deadline heap le f), (f, h))
  ]

  -- Polling a sleep keeps the wakers in the order of their deadlines.
  pub poll-IsHeap :
      (c : SimulatedClock Waker) (deadline : ℕ) (w : Waker)
      → IsHeap c.wakers
      → IsHeap (poll c deadline w).1.wakers
  unfolding poll register_waker
  poll-IsHeap c deadline w h = elim (Bool-cases (leb deadline c.now_us)) [
    | inl b ↦ rw b h
    | inr b ↦ rw b (push-IsHeap _ c.wakers h)
  ]

  -- What waking has done: it split the heap at the time `now`.
  pub record Splits (now : ℕ) (heap : List (WakeEntry Waker))
      (p : List (WakeEntry Waker) × List (WakeEntry Waker)) : Type 0 where
    pub whole : p.0 ++ p.1 ≡ heap
    pub past : All (λ e. e.deadline ≤ now) p.0
    pub future : All (λ e. now < e.deadline) p.1
    pub ordered : IsHeap p.1

  pub wake_due-Splits :
      (now : ℕ) (heap : List (WakeEntry Waker)) → IsHeap heap → Splits now heap (wake_due now heap)
  unfolding wake_due
  wake_due-Splits now [] h = record { whole = refl; past = tt; future = tt; ordered = tt }
  wake_due-Splits now (e ∷ heap) (f, h) =
      let ih = wake_due-Splits now heap h in
      elim (Bool-cases (leb e.deadline now)) [
        | inl b ↦ rw b (record {
          whole = ap (e ∷◌) ih.whole;
          past = (leb→le _ _ b, ih.past);
          future = ih.future;
          ordered = ih.ordered;
        })
        | inr b ↦
            let lt : now < e.deadline = ground arith in
            rw b (record {
              whole = refl;
              past = tt;
              future = (lt, From-mono (suc now) e.deadline heap lt f);
              ordered = (f, h);
            })
      ]

  -- With the wakers in the order of their deadlines, and while the time does not overflow, a tick of
  -- `us` advances the time by `us`, wakes exactly the sleeps whose deadline is at
  -- most the new time, in the order of the heap, and leaves the others in their order.
  pub tick-Splits :
      (c : SimulatedClock Waker) (us : ℕ)
      → IsHeap c.wakers
      → c.now_us + us < u64_mod
      → ((tick c us).1.now_us ≡ c.now_us + us)
        × Splits (c.now_us + us) c.wakers ((tick c us).0, (tick c us).1.wakers)
  unfolding tick
  tick-Splits c us h fits =
      let sum = wrapping_add_lem c.now_us us fits in
      (sum, rw sum (wake_due-Splits (c.now_us + us) c.wakers h))
