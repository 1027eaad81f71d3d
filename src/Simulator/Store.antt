-- ===== src/Simulator/Store.antt =====
-- raft-simulator/src/state_machine.rs: the key-value store. The `HashMap` is an association list.
pub mod Laws
use text.Mathlib.Text.{◌==◌ as ◌==ₛ◌}
use raft_craft.Prelude.{String, List, [], remove, put}
use raft_craft.Protocol.{Command, set, delete}
use raft_craft.Runtime.Platform.{StateMachine}

pub record KeyValueStore : Type 0 where
  pub «data» : List (String × String)

abbrev pub new_store : KeyValueStore
new_store = record { «data» = [] }

unfoldable pub apply : KeyValueStore → Command → KeyValueStore
apply s command = record s {
  «data» = elim command.op [
    | set key value ↦ put ◌==ₛ◌ key value s.«data»
    | delete key ↦ remove ◌==ₛ◌ key s.«data»
  ];
}

-- The application of the simulated nodes.
abbrev pub key_value_store : StateMachine
key_value_store = record { State = KeyValueStore; apply = apply }
