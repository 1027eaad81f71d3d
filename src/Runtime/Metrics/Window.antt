-- ===== src/Runtime/Metrics/Window.antt =====
-- metrics.rs: the message log is a window on the last messages.
use mathlib.Core.List.{append_assoc, append-nil}
use raft_craft.Prelude.{
  ℕ, zero, suc, ◌-◌, ◌≤◌, ◌<◌, ◌≡◌, refl, ap, ◌∙◌, inl, inr, List, [], ◌∷◌, ◌++◌, arith, leb,
  length, drop, length-append, Bool-cases,
}
use raft_craft.Runtime.Metrics.{Metrics, MessageEvent, message_log_cap, record_message}

-- The messages recorded one after the other.
abbrev pub record_all : Metrics → List MessageEvent → Metrics
record_all m [] = m
record_all m (e ∷ events) = record_all (record_message m e) events

-- The last `n` elements, all of them if there are fewer.
abbrev pub last_n : ℕ → List MessageEvent → List MessageEvent
last_n n xs = drop (length xs - n) xs

drop_twice : (k : ℕ) (xs : List MessageEvent) → drop k (drop 1 xs) ≡ drop (suc k) xs
drop_twice zero [] = refl
drop_twice (suc k) [] = refl
drop_twice k (x ∷ xs) = refl

drop_first : (xs ys : List MessageEvent) → 0 < length xs → drop 1 xs ++ ys ≡ drop 1 (xs ++ ys)
drop_first [] ys h = absurd (omega arith)
drop_first (x ∷ xs) ys h = refl

length-drop_first : (xs : List MessageEvent) → length (drop 1 xs) ≡ length xs - 1
length-drop_first [] = omega arith
length-drop_first (x ∷ xs) = omega arith

record_message-length :
    (m : Metrics) (e : MessageEvent)
    → length m.message_log ≤ message_log_cap
    → length (record_message m e).message_log ≤ message_log_cap
unfolding record_message
record_message-length m e h = elim (Bool-cases (leb message_log_cap (length m.message_log))) [
  | inl full ↦ rw full (
      omega (arith, length-append (drop 1 m.message_log) (e ∷ []), length-drop_first m.message_log))
  | inr room ↦ rw room (ground (arith, length-append m.message_log (e ∷ [])))
]

record_message-window :
    (m : Metrics) (e : MessageEvent) (events : List MessageEvent)
    → length m.message_log ≤ message_log_cap
    → last_n message_log_cap ((record_message m e).message_log ++ events)
      ≡ last_n message_log_cap (m.message_log ++ e ∷ events)
unfolding record_message
record_message-window m e events h =
    let log = m.message_log in
    elim (Bool-cases (leb message_log_cap (length log))) [
      | inr room ↦ rw room (ap (last_n message_log_cap) (append_assoc log (e ∷ []) events))
      | inl full ↦
          let exact : length log ≡ 200 = ground arith in
          let shifted : (drop 1 log ++ e ∷ []) ++ events ≡ drop 1 (log ++ e ∷ events) =
            append_assoc (drop 1 log) (e ∷ []) events ∙ drop_first log (e ∷ events) (omega arith) in
          let k = length (drop 1 (log ++ e ∷ events)) - 200 in
          let more : suc k ≡ length (log ++ e ∷ events) - 200 =
            omega (arith, length-drop_first (log ++ e ∷ events), length-append log (e ∷ events)) in
          rw full (
            ap (last_n message_log_cap) shifted
            ∙ drop_twice k (log ++ e ∷ events)
            ∙ ap (λ n. drop n (log ++ e ∷ events)) more)
    ]

-- However many messages are recorded, the log holds the last 200 of what it held and of these, in
-- their order, and never more, if it held no more before.
pub record_all-window :
    (m : Metrics) (events : List MessageEvent)
    → length m.message_log ≤ message_log_cap
    → ((record_all m events).message_log ≡ last_n message_log_cap (m.message_log ++ events))
      × (length (record_all m events).message_log ≤ message_log_cap)
record_all-window m [] h =
    let none_dropped : length m.message_log - message_log_cap ≡ 0 = omega arith in
    (rw (append-nil, none_dropped) refl, h)
record_all-window m (e ∷ events) h =
    let (same, bound) =
      record_all-window (record_message m e) events (record_message-length m e h) in
    (same ∙ record_message-window m e events h, bound)
