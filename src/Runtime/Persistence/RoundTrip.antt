-- ===== src/Runtime/Persistence/RoundTrip.antt =====
-- persistence.rs: what was saved is what is loaded, and a save that fails changes nothing.
use raft_craft.Prelude.{◌≡◌, ◌≢◌, refl, ◌∙◌, inl, inr, true, false, some, Bool-cases, Option-cases}
use raft_craft.Raft.State.{PersistentState}
use raft_craft.Runtime.Persistence.{FileSystem, save, load}

-- The documented behaviour of `std::fs` and of serde_json. A write that succeeds puts the bytes into
-- the file, and no write touches another one. A rename that succeeds puts the content of the one
-- file into the other, one that fails changes neither. What serde_json prints it parses back.
pub record IsFaithful (S : FileSystem) : Type 0 where
  pub write_read :
      (p : S.PathBuf) (b : S.Bytes) (w : S.World)
      → (S.write p b w).0 ≡ true
      → S.read p (S.write p b w).1 ≡ some b
  pub write_other :
      (p q : S.PathBuf) (b : S.Bytes) (w : S.World)
      → p ≢ q
      → (S.read q (S.write p b w).1 ≡ S.read q w) × (S.exists q (S.write p b w).1 ≡ S.exists q w)
  pub rename_read :
      (p q : S.PathBuf) (w : S.World)
      → (S.rename p q w).0 ≡ true
      → (S.read q (S.rename p q w).1 ≡ S.read p w) × (S.exists q (S.rename p q w).1 ≡ true)
  pub rename_failed :
      (p q : S.PathBuf) (w : S.World)
      → (S.rename p q w).0 ≡ false
      → (S.read q (S.rename p q w).1 ≡ S.read q w) × (S.exists q (S.rename p q w).1 ≡ S.exists q w)
  pub tmp_apart : (p : S.PathBuf) → S.with_tmp_extension p ≢ p
  pub parses :
      (s : PersistentState) (b : S.Bytes) → S.to_vec_pretty s ≡ some b → S.from_slice b ≡ some s

module _ (S : FileSystem) (f : IsFaithful S) where
  load_same :
      (path : S.PathBuf) (w v : S.World)
      → S.read path w ≡ S.read path v
      → S.exists path w ≡ S.exists path v
      → load S path w ≡ load S path v
  unfolding load
  load_same path w v r e = rw (r, e) refl

  -- On a file system and a JSON format that behave as documented, a save that reports success is
  -- followed by a load of the very state that was saved.
  pub load-save :
      (path : S.PathBuf) (state : PersistentState) (w : S.World)
      → (save S path state w).0 ≡ true
      → load S path (save S path state w).1 ≡ some (some state)
  unfolding save load
  load-save path state w h = elim (Option-cases (S.to_vec_pretty state)) [
    | inl e ↦ absurd (let g = rw (save, e) at h in cc)
    | inr (json, e) ↦
        let tmp = S.with_tmp_extension path in
        let w' = (S.write tmp json w).1 in
        elim (Bool-cases (S.write tmp json w).0) [
          | inr refused ↦ absurd (let g = rw (save, e, refused) at h in cc)
          | inl wrote ↦
              let (content, there) = f.rename_read tmp path w' (rw (save, e, wrote) at h) in
              rw
                (
                  save,
                  e,
                  wrote,
                  there,
                  content,
                  f.write_read tmp json w wrote,
                  f.parses state json e,
                )
                refl
        ]
  ]

  -- There also, a save that reports an error leaves what a load returns as it was: the file is never
  -- partly written.
  pub load-save_failed :
      (path : S.PathBuf) (state : PersistentState) (w : S.World)
      → (save S path state w).0 ≡ false
      → load S path (save S path state w).1 ≡ load S path w
  unfolding save
  load-save_failed path state w h = elim (Option-cases (S.to_vec_pretty state)) [
    | inl e ↦ rw (save, e) refl
    | inr (json, e) ↦
        let tmp = S.with_tmp_extension path in
        let w' = (S.write tmp json w).1 in
        let (kept, stays) = f.write_other tmp path json w (f.tmp_apart path) in
        elim (Bool-cases (S.write tmp json w).0) [
          | inr refused ↦ rw (save, e, refused) (load_same path w' w kept stays)
          | inl wrote ↦
              let (content, there) = f.rename_failed tmp path w' (rw (save, e, wrote) at h) in
              rw (save, e, wrote)
                (load_same path (S.rename tmp path w').1 w (content ∙ kept) (there ∙ stays))
        ]
  ]
