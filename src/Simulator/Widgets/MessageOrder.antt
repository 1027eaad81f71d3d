-- ===== src/Simulator/Widgets/MessageOrder.antt =====
-- message_log.rs: which messages are shown.
use raft_craft.Prelude.{min, ◌≤◌, ◌≡◌, Bool, List, [], ◌∷◌, ◌++◌, length, count, All}
use raft_craft.Runtime.Metrics.{MessageEvent}

-- No event of the list is newer.
abbrev pub IsNewest : MessageEvent → List MessageEvent → Type 0
IsNewest x = All (λ e. e.tick ≤ x.tick)

abbrev pub IsNewestFirst : List MessageEvent → Type 0
IsNewestFirst [] = Unit {0}
IsNewestFirst (x ∷ xs) = IsNewest x xs × IsNewestFirst xs

-- What is shown of some events.
pub record Shows (events shown : List MessageEvent) : Type 0 where
  pub filled : length shown ≡ min 200 (length events)
  pub sorted : IsNewestFirst shown
  pub hidden : List MessageEvent
  pub whole : (p : MessageEvent → Bool) → count p (shown ++ hidden) ≡ count p events
  pub older : All (λ x. IsNewest x hidden) shown
