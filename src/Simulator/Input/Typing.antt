-- ===== src/Simulator/Input/Typing.antt =====
-- input.rs: typing a SET command key by key.
use Prim.Native.Char.{Char}
use mathlib.Core.List.{append_assoc, append-nil}
use raft_craft.Prelude.{
  ◌≡◌, refl, sym, ap, ◌∙◌, false, List, [], ◌∷◌, ◌++◌, Option, none, some, map, is_empty,
}
use raft_craft.Simulator.App.{
  App, InputMode, normal, entering_key, entering_value, start_command, cancel_input,
}
use raft_craft.Simulator.Input.{
  Key, char, enter, UiAction, submit_command, handled, text, decode_entering_key,
  decode_entering_value, decode_normal, decode,
}

-- The keys pressed one after the other: the meaning of the last one, and the state then.
abbrev pub press : List Key → Option UiAction → App Char → Option UiAction × App Char
press [] last a = (last, a)
press (k ∷ ks) last a = let (action, a') = decode k a in press ks action a'

press-append :
    (ks ls : List Key) (last : Option UiAction) (a : App Char)
    → press (ks ++ ls) last a ≡ press ls (press ks last a).0 (press ks last a).1
press-append [] ls last a = refl
press-append (k ∷ ks) ls last a = let (action, a') = decode k a in press-append ks ls action a'

-- The state while a command is typed.
abbrev typing : InputMode → List Char → List Char → App Char → App Char
typing mode key val a = record a { input_mode = mode; input_key = key; input_val = val }

type_key :
    (cs key val : List Char) (last : Option UiAction) (a : App Char)
    → (press (map char cs) last (typing entering_key key val a)).1
      ≡ typing entering_key (key ++ cs) val a
unfolding decode decode_entering_key
type_key [] key val last a = ap (λ k. typing entering_key k val a) (sym (append-nil key))
type_key (c ∷ cs) key val last a =
    type_key cs (key ++ c ∷ []) val (some handled) a
    ∙ ap (λ k. typing entering_key k val a) (append_assoc key (c ∷ []) cs)

type_value :
    (cs key val : List Char) (last : Option UiAction) (a : App Char)
    → (press (map char cs) last (typing entering_value key val a)).1
      ≡ typing entering_value key (val ++ cs) a
unfolding decode decode_entering_value
type_value [] key val last a = ap (λ v. typing entering_value key v a) (sym (append-nil val))
type_value (c ∷ cs) key val last a =
    type_value cs key (val ++ c ∷ []) (some handled) a
    ∙ ap (λ v. typing entering_value key v a) (append_assoc val (c ∷ []) cs)

confirm_key :
    (key val : List Char) (a : App Char)
    → is_empty key ≡ false
    → (decode enter (typing entering_key key val a)).1 ≡ typing entering_value key val a
unfolding decode decode_entering_key
confirm_key key val a h = rw h refl

finish_value :
    (key val : List Char) (last : Option UiAction) (a : App Char)
    → press (map char val ++ enter ∷ []) last (typing entering_value key [] a)
      ≡ (some (submit_command (text key) (text val)), typing normal [] [] a)
unfolding decode decode_entering_value cancel_input
finish_value key val last a =
    press-append (map char val) (enter ∷ []) last (typing entering_value key [] a)
    ∙ ap (λ x. press (enter ∷ []) (press (map char val) last (typing entering_value key [] a)).0 x)
        (type_value val key [] last a)

finish_key :
    (key val : List Char) (last : Option UiAction) (a : App Char)
    → is_empty key ≡ false
    → press
        (map char key ++ enter ∷ (map char val ++ enter ∷ []))
        last
        (typing entering_key [] [] a)
      ≡ (some (submit_command (text key) (text val)), typing normal [] [] a)
finish_key key val last a h =
    let rest = map char val ++ enter ∷ [] in
    let start = typing entering_key [] [] a in
    press-append (map char key) (enter ∷ rest) last start
    ∙ ap (λ x. press (enter ∷ rest) (press (map char key) last start).0 x)
        (type_key key [] [] last a)
    ∙ ap (λ x. press rest (decode enter (typing entering_key key [] a)).0 x)
        (confirm_key key [] a h)
    ∙ finish_value key val _ a

begin_command :
    (a : App Char)
    → a.input_mode ≡ normal
    → decode (char "c") a ≡ (some handled, typing entering_key [] [] a)
unfolding decode decode_normal start_command
begin_command a mode = rw (decode, mode) refl

-- Pressing `c`, the characters of a key that is not empty, Enter, any characters of a value and
-- Enter submits exactly that key and value, and the input is as it was before any typing: in
-- normal mode, with nothing typed.
pub press_command :
    (key val : List Char) (a : App Char)
    → a.input_mode ≡ normal
    → is_empty key ≡ false
    → press (char "c" ∷ map char key ++ enter ∷ (map char val ++ enter ∷ [])) none a
      ≡ (some (submit_command (text key) (text val)), typing normal [] [] a)
press_command key val a mode h =
    ap (λ x. press (map char key ++ enter ∷ (map char val ++ enter ∷ [])) x.0 x.1)
      (begin_command a mode)
    ∙ finish_key key val (some handled) a h
