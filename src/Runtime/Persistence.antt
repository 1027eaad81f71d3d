-- ===== src/Runtime/Persistence.antt =====
-- raft-runtime/src/persistence.rs: the persistent state in a file. The file system and the JSON
-- format of serde are parameters. An error is `none` or `false`; which error it is does not
-- matter here.
pub mod RoundTrip
use raft_craft.Prelude.{ℕ, Bool, true, false, not, Option, none, some, ◌>>=◌, if◌then◌else◌}
use raft_craft.Raft.State.{PersistentState}

pub record FileSystem : Type 1 where
  pub World : Type 0
  pub PathBuf : Type 0
  pub Bytes : Type 0
  pub create_dir_all : PathBuf → World → Bool × World
  pub write : PathBuf → Bytes → World → Bool × World
  pub rename : (from to : PathBuf) → World → Bool × World
  pub exists : PathBuf → World → Bool
  pub read : PathBuf → World → Option Bytes
  pub node_file : PathBuf → ℕ → PathBuf
  pub with_tmp_extension : PathBuf → PathBuf
  pub to_vec_pretty : PersistentState → Option Bytes
  pub from_slice : Bytes → Option PersistentState

module _ (S : FileSystem) where
  open S use {World, PathBuf}

  -- `dir.join(format!("node_{node_id}.json"))` is `node_file dir node_id`.
  unfoldable pub new_file_persistence : PathBuf → ℕ → World → Option PathBuf × World
  new_file_persistence dir node_id w =
      let (ok, w') = S.create_dir_all dir w in
      (if ok then some (S.node_file dir node_id) else none, w')

  unfoldable pub save : PathBuf → PersistentState → World → Bool × World
  save path state w = elim (S.to_vec_pretty state) [
    | none ↦ (false, w)
    | some json ↦
        let tmp = S.with_tmp_extension path in
        let (written, w') = S.write tmp json w in
        if not written then (false, w') else S.rename tmp path w'
  ]

  unfoldable pub load : PathBuf → World → Option (Option PersistentState)
  load path w =
      if not (S.exists path w)
      then some none
      else (do bytes ← S.read path w; state ← S.from_slice bytes; some (some state))

-- `NoPersistence`.
abbrev pub no_save : {World : Type 0} → PersistentState → World → Bool × World
no_save state w = (true, w)

abbrev pub no_load : {World : Type 0} → World → Option (Option PersistentState)
no_load w = some none
