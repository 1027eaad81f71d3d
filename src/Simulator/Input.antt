-- ===== src/Simulator/Input.antt =====
-- raft-simulator/src/ui/input.rs: what a key press means. `Key` has the key codes of crossterm
-- that the code names, and `other` for the rest.
pub mod Typing
use Prim.Native.Char.{Char, code}
use Prim.Native.String.{[] as []ₛ, ◌∷◌ as ◌∷ₛ◌}
use raft_craft.Prelude.{
  ℕ, ◌==◌, String, Bool, ◌||◌, List, [], ◌∷◌, ◌++◌, Option, none, some, is_empty, if◌then◌else◌,
}
use raft_craft.Simulator.App.{
  App, normal, entering_key, entering_value, start_command, cancel_input,
}

pub data Key : Type 0 where
  char : Char → Key
  backspace enter tab esc right up down page_up page_down other : Key

pub data UiAction : Type 0 where
  quit toggle_pause step_clock kill_node restart_node select_next select_prev isolate_node
        unisolate_node :
      UiAction
  inc_drop_rate dec_drop_rate inc_latency dec_latency inc_speed dec_speed inc10_speed dec10_speed :
      UiAction
  submit_command : (key value : String) → UiAction
  handled : UiAction

-- The `String` of some characters.
abbrev pub text : List Char → String
text [] = []ₛ
text (c ∷ cs) = c ∷ₛ text cs

-- `String::pop`, whose result the code drops.
unfoldable pub pop : List Char → List Char
pop [] = []
pop (c ∷ []) = []
pop (c ∷ d ∷ cs) = c ∷ pop (d ∷ cs)

unfoldable pub decode_entering_key : Key → App Char → UiAction × App Char
decode_entering_key (char c) a = (handled, record a { input_key = a.input_key ++ c ∷ [] })
decode_entering_key backspace a = (handled, record a { input_key = pop a.input_key })
decode_entering_key enter a =
    (handled, if is_empty a.input_key then a else record a { input_mode = entering_value })
decode_entering_key tab a =
    (handled, if is_empty a.input_key then a else record a { input_mode = entering_value })
decode_entering_key esc a = (handled, cancel_input a)
decode_entering_key right a = (handled, a)
decode_entering_key up a = (handled, a)
decode_entering_key down a = (handled, a)
decode_entering_key page_up a = (handled, a)
decode_entering_key page_down a = (handled, a)
decode_entering_key other a = (handled, a)

unfoldable pub decode_entering_value : Key → App Char → UiAction × App Char
decode_entering_value (char c) a = (handled, record a { input_val = a.input_val ++ c ∷ [] })
decode_entering_value backspace a = (handled, record a { input_val = pop a.input_val })
decode_entering_value enter a =
    (submit_command (text a.input_key) (text a.input_val), cancel_input a)
decode_entering_value tab a = (handled, a)
decode_entering_value esc a = (handled, cancel_input a)
decode_entering_value right a = (handled, a)
decode_entering_value up a = (handled, a)
decode_entering_value down a = (handled, a)
decode_entering_value page_up a = (handled, a)
decode_entering_value page_down a = (handled, a)
decode_entering_value other a = (handled, a)

abbrev is : Char → ℕ → Bool
is c n = code c == n

-- The arms for a character, but `c`, in their order.
unfoldable pub char_action : Char → Option UiAction
char_action c =
    if is c b'q' || is c b'Q'
    then some quit
    else if is c b'p'
    then some toggle_pause
    else if is c b'k'
    then some kill_node
    else if is c b'r'
    then some restart_node
    else if is c b'P'
    then some isolate_node
    else if is c b'H'
    then some unisolate_node
    else if is c b'd'
    then some inc_drop_rate
    else if is c b'D'
    then some dec_drop_rate
    else if is c b'l'
    then some inc_latency
    else if is c b'L'
    then some dec_latency
    else if is c b'+'
    then some inc_speed
    else if is c b'-'
    then some dec_speed
    else none

unfoldable pub decode_normal : Key → App Char → Option UiAction × App Char
decode_normal (char c) a = if is c b'c' then (some handled, start_command a) else (char_action c, a)
decode_normal right a = (some step_clock, a)
decode_normal page_up a = (some inc10_speed, a)
decode_normal page_down a = (some dec10_speed, a)
decode_normal down a = (some select_next, a)
decode_normal up a = (some select_prev, a)
decode_normal backspace a = (none, a)
decode_normal enter a = (none, a)
decode_normal tab a = (none, a)
decode_normal esc a = (none, a)
decode_normal other a = (none, a)

unfoldable pub decode : Key → App Char → Option UiAction × App Char
decode key a = elim a.input_mode [
  | entering_key ↦ let (action, a') = decode_entering_key key a in (some action, a')
  | entering_value ↦ let (action, a') = decode_entering_value key a in (some action, a')
  | normal ↦ decode_normal key a
]
