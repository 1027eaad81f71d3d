-- ===== src/Runtime/Tests/Files.antt =====
-- File systems of two files: one on which everything succeeds, and one that is full.
use raft_craft.Prelude.{
  ◌≡◌, ◌≢◌, refl, sym, ap, Bool, true, false, not, is_some, Option, none, some,
}
use raft_craft.Raft.State.{PersistentState, default_persistent}
use raft_craft.Runtime.Persistence.{FileSystem, save, load}
use raft_craft.Runtime.Persistence.RoundTrip.{IsFaithful, load-save, load-save_failed}

-- The file at `true` and the one at `false`, its temporary one.
abbrev Files : Type 0
Files = Option PersistentState × Option PersistentState

abbrev get_file : Bool → Files → Option PersistentState
get_file true (a, b) = a
get_file false (a, b) = b

abbrev put_file : Bool → PersistentState → Files → Files
put_file true s (a, b) = (some s, b)
put_file false s (a, b) = (a, some s)

abbrev move_file : Bool → Bool → Files → Bool × Files
move_file true true (a, b) = (is_some a, (a, b))
move_file false false (a, b) = (is_some b, (a, b))
move_file true false (none, b) = (false, (none, b))
move_file true false (some s, b) = (true, (none, some s))
move_file false true (a, none) = (false, (a, none))
move_file false true (a, some s) = (true, (some s, none))

abbrev two_files : FileSystem
two_files = record {
  World = Files;
  PathBuf = Bool;
  Bytes = PersistentState;
  create_dir_all = λ p w. (true, w);
  write = λ p s w. (true, put_file p s w);
  rename = move_file;
  exists = λ p w. is_some (get_file p w);
  read = get_file;
  node_file = λ p n. true;
  with_tmp_extension = not;
  to_vec_pretty = some;
  from_slice = some;
}

put_get : (p : Bool) (s : PersistentState) (w : Files) → get_file p (put_file p s w) ≡ some s
put_get true s (a, b) = refl
put_get false s (a, b) = refl

put_other :
    (p q : Bool) (s : PersistentState) (w : Files)
    → p ≢ q
    → get_file q (put_file p s w) ≡ get_file q w
put_other true true s w h = absurd (h refl)
put_other true false s (a, b) h = refl
put_other false true s (a, b) h = refl
put_other false false s w h = absurd (h refl)

moved :
    (p q : Bool) (w : Files)
    → (move_file p q w).0 ≡ true
    → (get_file q (move_file p q w).1 ≡ get_file p w)
      × (is_some (get_file q (move_file p q w).1) ≡ true)
moved true true (a, b) h = (refl, h)
moved false false (a, b) h = (refl, h)
moved true false (none, b) h = cc
moved true false (some s, b) h = (refl, refl)
moved false true (a, none) h = cc
moved false true (a, some s) h = (refl, refl)

not_moved :
    (p q : Bool) (w : Files)
    → (move_file p q w).0 ≡ false
    → get_file q (move_file p q w).1 ≡ get_file q w
not_moved true true (a, b) h = refl
not_moved false false (a, b) h = refl
not_moved true false (none, b) h = refl
not_moved true false (some s, b) h = cc
not_moved false true (a, none) h = refl
not_moved false true (a, some s) h = cc

not_apart : (p : Bool) → not p ≢ p
not_apart true e = cc
not_apart false e = cc

two_files-IsFaithful : IsFaithful two_files
two_files-IsFaithful = record {
  write_read = λ p b w h. put_get p b w;
  write_other = λ p q b w h. (put_other p q b w h, ap is_some (put_other p q b w h));
  rename_read = moved;
  rename_failed = λ p q w h. (not_moved p q w h, ap is_some (not_moved p q w h));
  tmp_apart = not_apart;
  parses = λ s b h. sym h;
}

load-save_example :
    load two_files true (save two_files true default_persistent (none, none)).1
    ≡ some (some default_persistent)
load-save_example =
    load-save two_files two_files-IsFaithful true default_persistent (none, none)
      (unfold save in refl)

abbrev full_disk : FileSystem
full_disk = record two_files { write = λ p s w. (false, w) }

full_disk-IsFaithful : IsFaithful full_disk
full_disk-IsFaithful = record {
  write_read = λ p b w h. cc;
  write_other = λ p q b w h. (refl, refl);
  rename_read = moved;
  rename_failed = λ p q w h. (not_moved p q w h, ap is_some (not_moved p q w h));
  tmp_apart = not_apart;
  parses = λ s b h. sym h;
}

load-save_failed_example :
    load full_disk true (save full_disk true default_persistent (some default_persistent, none)).1
    ≡ load full_disk true (some default_persistent, none)
load-save_failed_example =
    load-save_failed full_disk full_disk-IsFaithful true default_persistent
      (some default_persistent, none) (unfold save in refl)
