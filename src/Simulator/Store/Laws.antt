-- ===== src/Simulator/Store/Laws.antt =====
-- state_machine.rs: what a command does to every key.
use text.Mathlib.Text.{◌==◌ as ◌==ₛ◌}
use text.Mathlib.TextEquality.{eq_iff}
use raft_craft.Prelude.{
  ◌≡◌, String, Option, none, some, lookup, lookup-put, lookup-remove, if◌then◌else◌,
}
use raft_craft.Protocol.{Op, Command, set, delete}
use raft_craft.Simulator.Store.{KeyValueStore, apply}

-- The value of a key.
abbrev value_of : KeyValueStore → String → Option String
value_of s key = lookup ◌==ₛ◌ key s.«data»

-- What an operation makes of the value of a key.
abbrev after : Op → String → Option String → Option String
after (set key value) k old = if key ==ₛ k then some value else old
after (delete key) k old = if key ==ₛ k then none else old

apply_op :
    (s : KeyValueStore) (op : Op) (k : String)
    → value_of (apply s (record { op = op })) k ≡ after op k (value_of s k)
unfolding apply
apply_op s (set key value) k = lookup-put ◌==ₛ◌ eq_iff key k value s.«data»
apply_op s (delete key) k = lookup-remove ◌==ₛ◌ eq_iff key k s.«data»

-- A command changes the value of its own key and no other: a set gives it the value, a delete leaves
-- it without one.
apply_after :
    (s : KeyValueStore) (c : Command) (k : String)
    → value_of (apply s c) k ≡ after c.op k (value_of s k)
apply_after s c k = apply_op s c.op k
