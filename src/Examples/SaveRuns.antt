-- ===== src/Examples/SaveRuns.antt =====
-- Runs of saving with an empty database; the "encoding" is a fixed text.
use kpxcd.Prelude.{
  ◌⊎◌, Bool, true, false, [], ◌∷◌, none, some, codes, bytes_Eq, bytes_eq, ◌≡◌, ◌≢◌, refl,
}
use kpxcd.Keepass.{leaf, group, In}
use kpxcd.Pool.Database.{
  RootData, Content, Db, File, FileFingerprint, fingerprint_file, equal, OpenDatabase,
}
use kpxcd.Pool.Save.{
  SaveLibrary, World, update_and_save, update_open, save_mutated, save_locked, encode_locked,
  atomic_encode, write_temp, replace_file, renamed, after_encode, finish, roll_back,
  clone_root_data,
}
use kpxcd.Pool.Save.Undisturbed.{IsQuiet, update_and_save_quiet}
use kpxcd.Pool.Save.Success.{matches, Stored, update_and_save_success}
use kpxcd.Pool.Save.Refusal.{looks, update_and_save_raced, update_and_save_roll_back, replaced}

abbrev pub empty_db : Db
empty_db = record {
  credentials = some record { passphrase = codes "p"; key = []; windows = [] };
  content = some record { meta = none; root = some record { groups = leaf; deleted_objects = [] } };
}

abbrev pub file : File
file = record { dev = 1; ino = 2; mtime = 3; ctime = 4; mode = 384; content = codes "old" }

abbrev pub print : FileFingerprint
print = record { dev = 1; ino = 2; size = 3; mtime = 3; ctime = 4; sha256 = codes "old" }

abbrev pub opened : OpenDatabase
opened = record {
  uuid = codes "u";
  name = codes "n";
  path = codes "/n";
  locked = false;
  db = some empty_db;
  fingerprint = print;
  watcher = some 0;
}

abbrev pub library : SaveLibrary
library = record {
  sha256_hex = λ b. b;
  lock_protected_entries = λ db. (db, true);
  unlock_protected_entries = λ db. (db, true);
  encode = λ db. (db, some (codes "new"));
  clone = λ gs. gs;
}

-- Nobody else touches the file, and every call succeeds.
abbrev pub quiet : World
quiet = record {
  at_update = λ d. d;
  at_save = λ d. d;
  at_stat = λ d. d;
  at_check = λ d. d;
  at_rename = λ d. d;
  at_finish = λ d. d;
  create_fails = false;
  chmod_fails = false;
  sync_fails = false;
  close_fails = false;
  rename_fails = false;
  temp_file = record { dev = 1; ino = 9; mtime = 8; ctime = 8; mode = 0; content = [] };
}

-- Another process removes the file before the last check.
abbrev busy : World
busy = record quiet { at_check = λ d. none }

abbrev keep_db : Db → Db × Bool
keep_db db = (db, true)

saves : (update_and_save library quiet opened (some file) keep_db).error ≡ none
unfolding update_and_save update_open save_mutated save_locked encode_locked atomic_encode
    write_temp replace_file after_encode finish roll_back fingerprint_file equal bytes_eq renamed
saves = refl

update_and_save_success_example :
    (db : Db) × (opened.db ≡ some db)
    × (matches library quiet print (some file) ≡ true)
    × ((keep_db db).1 ≡ true)
    × (matches library quiet print (some file) ≡ true)
    × Stored library quiet print
        ((keep_db db).0)
        (some file)
        (update_and_save library quiet opened (some file) keep_db)
update_and_save_success_example =
    update_and_save_success library quiet opened (some file) keep_db saves

gone : matches library busy print none ≡ false
unfolding matches fingerprint_file
gone = refl

update_and_save_raced_example :
    ((update_and_save library busy opened (some file) keep_db).error ≢ none)
    × In
        ((update_and_save library busy opened (some file) keep_db).disk)
        (some file ∷ some file ∷ looks library busy (some file))
update_and_save_raced_example = update_and_save_raced library busy opened (some file) keep_db gone

-- The encoder fails.
abbrev failing : SaveLibrary
failing = record library {
  encode = λ db. (db, none);
  clone = λ gs.
      group (record { uuid = codes "new"; name = []; notes = []; last_top_visible = [] }) [] gs
        leaf;
}

abbrev old_root : RootData
old_root = record { groups = leaf; deleted_objects = [] }

abbrev old_content : Content
old_content = record { meta = none; root = some old_root }

same : matches failing quiet print (some file) ≡ true
unfolding matches fingerprint_file equal bytes_eq
same = refl

fails : (update_and_save failing quiet opened (some file) keep_db).error ≢ none
unfolding update_and_save update_open save_mutated save_locked encode_locked atomic_encode
    write_temp after_encode roll_back fingerprint_file equal bytes_eq
fails = λ e. cc e

update_and_save_roll_back_example :
    let result = update_and_save failing quiet opened (some file) keep_db in
    let attempt = save_locked failing quiet opened empty_db (some file) in
    ((matches failing quiet print (some file) ≡ false) × (result.database ≡ opened))
    ⊎ ((matches failing quiet print (some file) ≡ true)
        × (result.error ≡ attempt.error)
        × (result.disk ≡ attempt.disk)
        × (left : Db) × (attempt.database ≡ record opened { db = some left })
        × (result.database ≡ record opened {
          db = some (replaced failing quiet (clone_root_data failing quiet old_root) left);
        }))
update_and_save_roll_back_example =
    update_and_save_roll_back failing quiet opened (some file) keep_db empty_db empty_db old_content
      old_root refl refl refl refl refl fails

quiet-IsQuiet : IsQuiet quiet
quiet-IsQuiet = record {
  update = λ d. refl;
  save = λ d. refl;
  stat = λ d. refl;
  check = λ d. refl;
  finish = λ d. refl;
  creates = refl;
  chmods = refl;
  syncs = refl;
  closes = refl;
  renames = refl;
}

expected : matches library quiet print (some file) ≡ true
unfolding matches fingerprint_file equal bytes_eq
expected = refl

update_and_save_quiet_example :
    (update_and_save library quiet opened (some file) keep_db).error ≡ none
update_and_save_quiet_example =
    update_and_save_quiet library quiet opened file keep_db empty_db empty_db empty_db empty_db
      empty_db (record { meta = none; root = some record { groups = leaf; deleted_objects = [] } })
      (codes "new") quiet-IsQuiet refl refl refl expected refl refl refl refl
