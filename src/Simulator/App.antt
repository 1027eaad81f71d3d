-- ===== src/Simulator/App.antt =====
-- raft-simulator/src/ui/app.rs: the state of the terminal interface. The typed text is a list of
-- characters.
pub mod Selection
use raft_craft.Prelude.{ℕ, ◌-◌, ◌%◌, String, List, [], ltb, u64_mod, wrapping_add, if◌then◌else◌}

pub data InputMode : Type 0 where
  normal entering_key entering_value : InputMode

pub record App (Char : Type 0) : Type 0 where
  pub selected : ℕ
  pub input_mode : InputMode
  pub input_key : List Char
  pub input_val : List Char
  pub status : String

module _ {Char : Type 0} where
  abbrev pub default_app : App Char
  default_app = record {
    selected = 0;
    input_mode = normal;
    input_key = [];
    input_val = [];
    status = "Ready — press ? for help";
  }

  unfoldable pub select_next : App Char → ℕ → App Char
  select_next a total =
      if ltb 0 total then record a { selected = wrapping_add a.selected 1 % total } else a

  -- `usize` subtraction wraps; what is subtracted is never more than what it is subtracted from.
  unfoldable pub select_prev : App Char → ℕ → App Char
  select_prev a total =
      if ltb 0 total
      then record a {
        selected = wrapping_add (wrapping_add a.selected total) (u64_mod - 1) % total;
      }
      else a

  unfoldable pub start_command : App Char → App Char
  start_command a = record a { input_mode = entering_key; input_key = []; input_val = [] }

  unfoldable pub cancel_input : App Char → App Char
  cancel_input a = record a { input_mode = normal; input_key = []; input_val = [] }
