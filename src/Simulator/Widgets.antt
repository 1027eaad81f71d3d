-- ===== src/Simulator/Widgets.antt =====
-- raft-simulator/src/ui/widgets: what the panels show, without styles and layout: log_view.rs,
-- message_log.rs and cluster_overview.rs. How numbers are written is a parameter.
pub mod MessageOrder
pub mod LogMarks
use Prim.Native.String.{◌++◌ as ◌<>◌}
use raft_craft.Prelude.{
  ℕ, zero, suc, ◌==◌, String, Bool, true, false, ◌&&◌, List, [], ◌∷◌, ◌++◌, Option, none, some, ltb,
  leb, map, take, if◌then◌else◌,
}
use raft_craft.Protocol.{NodeId}
use raft_craft.Raft.State.{Role, follower, candidate, leader}
use raft_craft.Runtime.Metrics.{MessageEvent, MetricsSnapshot}

-- What a line of the log panel says: that the node is dead, that there is no entry, or the mark
-- of an entry with its index.
pub data LogItem : Type 0 where
  node_dead empty_log : LogItem
  line : (mark : String) (idx : ℕ) → LogItem

-- The mark of an entry.
unfoldable pub marker : (commit applied idx : ℕ) → String
marker commit applied idx =
    if leb idx commit && leb idx applied then "✓" else if leb idx commit then "○" else "·"

-- `for idx in from..=length`, with `todo` indices left.
unfoldable pub log_lines : (commit applied : ℕ) (from todo : ℕ) → List LogItem
log_lines commit applied from zero = []
log_lines commit applied from (suc todo) =
    line (marker commit applied from) from ∷ log_lines commit applied (suc from) todo

unfoldable pub log_view : Option MetricsSnapshot → List LogItem
log_view none = node_dead ∷ []
log_view (some snap) =
    if snap.log_length == 0
    then empty_log ∷ []
    else log_lines snap.commit_index snap.last_applied 1 snap.log_length

-- `sort_by` on the ticks, newest first: equal ones keep their order.
unfoldable pub place : MessageEvent → List MessageEvent → List MessageEvent
place e [] = e ∷ []
place e (x ∷ xs) = if ltb e.tick x.tick then x ∷ place e xs else e ∷ x ∷ xs

unfoldable pub newest_first : List MessageEvent → List MessageEvent
newest_first [] = []
newest_first (e ∷ es) = place e (newest_first es)

-- `flat_map`
unfoldable pub all_events : List MetricsSnapshot → List MessageEvent
all_events [] = []
all_events (s ∷ snapshots) = s.message_log ++ all_events snapshots

unfoldable pub message_log : List MetricsSnapshot → List MessageEvent
message_log snapshots = take 200 (newest_first (all_events snapshots))

abbrev pub role_name : Role → String
role_name leader = "Leader"
role_name candidate = "Candidate"
role_name follower = "Follower"

-- The cells of a row.
unfoldable pub overview_row : (ℕ → String) → NodeId → Option MetricsSnapshot → List String
overview_row number id none = number id ∷ "DEAD" ∷ "—" ∷ "—" ∷ "—" ∷ "—" ∷ "—" ∷ []
overview_row number id (some s) =
    number id
    ∷ "alive"
    ∷ role_name s.role
    ∷ number s.term
    ∷ number s.commit_index
    ∷ number s.last_applied
    ∷ number s.log_length
    ∷ []
