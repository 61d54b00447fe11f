-- ===== src/Pool/Save.antt =====
-- internal/dbpool/save.go: changing a database and writing its file. Each look at the path is
-- preceded by what other processes do to it in the meantime; each system call on the temporary
-- file may fail. The locks are held throughout, so the steps of one save are not interleaved with
-- those of another save of the daemon.
pub mod Success
pub mod Refusal
pub mod Undisturbed
use kpxcd.Prelude.{ℕ, ◌%◌, Bool, true, false, Option, none, some, Bytes, if◌then◌else◌}
use kpxcd.Keepass.{Groups}
use kpxcd.Pool.Database.{
  RootData, Content, Db, File, Disk, FileFingerprint, fingerprint_file, equal, OpenDatabase,
}

-- What save.go calls of gokeepasslib and of `crypto/sha256`. `true` beside a database is a call
-- without an error; all four change the database they are given.
pub record SaveLibrary : Type 0 where
  pub sha256_hex : Bytes → Bytes
  pub lock_protected_entries : Db → Db × Bool
  pub unlock_protected_entries : Db → Db × Bool
  pub encode : Db → Db × Option Bytes
  -- `Group.Clone` of every group.
  pub clone : Groups → Groups

-- The surroundings of one save: the changes by others before each look at the path, which calls
-- fail, and the file that the kernel makes for `CreateTemp`.
pub record World : Type 0 where
  pub at_update : Disk → Disk
  pub at_save : Disk → Disk
  pub at_stat : Disk → Disk
  pub at_check : Disk → Disk
  pub at_rename : Disk → Disk
  pub at_finish : Disk → Disk
  pub create_fails : Bool
  pub chmod_fails : Bool
  pub sync_fails : Bool
  pub close_fails : Bool
  pub rename_fails : Bool
  pub temp_file : File

pub data SaveError : Type 0 where
  is_locked no_fingerprint changed_on_disk mutate_failed lock_failed unlock_failed stat_failed
        create_failed chmod_failed encode_failed sync_failed close_failed changed_during_save
        rename_failed :
      SaveError

-- The error, the disk and the database that a call leaves; `none` is Go's nil error.
pub record Saved : Type 0 where
  pub error : Option SaveError
  pub disk : Disk
  pub db : Db

pub record Updated : Type 0 where
  pub error : Option SaveError
  pub disk : Disk
  pub database : OpenDatabase

module _ (lib : SaveLibrary) (w : World) where
  saved : Option SaveError → Disk → Db → Saved
  saved e d db = record { error = e; disk = d; db = db }

  -- The temporary file, written, at the path: the rename replaces whatever stands there.
  unfoldable pub renamed : ℕ → Bytes → File
  renamed mode bytes = record w.temp_file { mode = mode; content = bytes }

  -- From the check before the rename on.
  unfoldable pub replace_file : FileFingerprint → ℕ → Bytes → Disk → Db → Saved
  unfolding saved
  replace_file expected mode bytes d db = elim (fingerprint_file lib.sha256_hex (w.at_check d)) [
    | none ↦ saved (some no_fingerprint) (w.at_check d) db
    | some current ↦
        if equal expected current
        then if w.rename_fails
          then saved (some rename_failed) (w.at_rename (w.at_check d)) db
          else saved none (some (renamed mode bytes)) db
        else saved (some changed_during_save) (w.at_check d) db
  ]

  -- From the encoding on; the encoder leaves the protected values locked.
  unfoldable pub write_temp : FileFingerprint → ℕ → Disk → Db × Option Bytes → Saved
  unfolding saved
  write_temp expected mode d (db, none) = saved (some encode_failed) d db
  write_temp expected mode d (db, some bytes) =
      if w.sync_fails
      then saved (some sync_failed) d db
      else if w.close_fails
      then saved (some close_failed) d db
      else replace_file expected mode bytes d db

  -- The permission bits of the old mode are kept.
  unfoldable pub atomic_encode : Db → FileFingerprint → Disk → Saved
  unfolding saved
  atomic_encode db expected d = elim (w.at_stat d) [
    | none ↦ saved (some stat_failed) (w.at_stat d) db
    | some f ↦
        if w.create_fails
        then saved (some create_failed) (w.at_stat d) db
        else if w.chmod_fails
        then saved (some chmod_failed) (w.at_stat d) db
        else write_temp expected (f.mode % 512) (w.at_stat d) (lib.encode db)
  ]

  updated : Option SaveError → Disk → OpenDatabase → Db → Updated
  updated e d o db = record { error = e; disk = d; database = record o { db = some db } }

  unfoldable pub finish : OpenDatabase → Disk → Db × Bool → Updated
  unfolding updated
  finish o d (db, false) = updated (some unlock_failed) d o db
  finish o d (db, true) = elim (fingerprint_file lib.sha256_hex (w.at_finish d)) [
    | none ↦ updated (some no_fingerprint) (w.at_finish d) o db
    | some fp ↦ updated none (w.at_finish d) (record o { fingerprint = fp }) db
  ]

  -- After `atomicEncode`: unlocked again, on success and on failure.
  unfoldable pub after_encode : OpenDatabase → Saved → Updated
  unfolding updated
  after_encode o s = elim s.error [
    | some e ↦ updated (some e) s.disk o ((lib.unlock_protected_entries s.db).0)
    | none ↦ finish o s.disk (lib.unlock_protected_entries s.db)
  ]

  unfoldable pub encode_locked : OpenDatabase → Disk → Db × Bool → Updated
  unfolding updated
  encode_locked o d (db, false) = updated (some lock_failed) d o db
  encode_locked o d (db, true) = after_encode o (atomic_encode db o.fingerprint d)

  unfoldable pub save_locked : OpenDatabase → Db → Disk → Updated
  unfolding updated
  save_locked o db d = elim (fingerprint_file lib.sha256_hex (w.at_save d)) [
    | none ↦ updated (some no_fingerprint) (w.at_save d) o db
    | some current ↦
        if equal o.fingerprint current
        then encode_locked o (w.at_save d) (lib.lock_protected_entries db)
        else updated (some changed_on_disk) (w.at_save d) o db
  ]

  unfoldable pub clone_root_data : RootData → RootData
  clone_root_data root = record root { groups = lib.clone root.groups }

  -- `o.Db.Content.Root = originalRoot`.
  unfoldable pub with_root : RootData → OpenDatabase → OpenDatabase
  with_root root o = elim o.db [
    | none ↦ o
    | some db ↦ elim db.content [
      | none ↦ o
      | some content ↦ record o {
        db = some (record db { content = some (record content { root = some root }) });
      }
    ]
  ]

  unfoldable pub roll_back : Option RootData → Updated → Updated
  roll_back original u = elim u.error [
    | none ↦ u
    | some _ ↦ elim original [
      | none ↦ u
      | some root ↦ record u { database = with_root (clone_root_data root) u.database }
    ]
  ]

  -- `mutate` changes the database and may report an error, after which nothing is undone.
  unfoldable pub save_mutated : OpenDatabase → Option RootData → Disk → Db × Bool → Updated
  unfolding updated
  save_mutated o original d (db, false) = updated (some mutate_failed) d o db
  save_mutated o original d (db, true) =
      roll_back original (save_locked (record o { db = some db }) db d)

  unchanged : SaveError → Disk → OpenDatabase → Updated
  unchanged e d o = record { error = some e; disk = d; database = o }

  unfoldable pub update_open :
      OpenDatabase → Db → Option RootData → Disk → (Db → Db × Bool) → Updated
  unfolding unchanged
  update_open o db original d mutate = elim (fingerprint_file lib.sha256_hex (w.at_update d)) [
    | none ↦ unchanged no_fingerprint (w.at_update d) o
    | some current ↦
        if equal o.fingerprint current
        then save_mutated o original (w.at_update d) (mutate db)
        else unchanged changed_on_disk (w.at_update d) o
  ]

  -- A nil database or content counts as locked.
  unfoldable pub update_and_save : OpenDatabase → Disk → (Db → Db × Bool) → Updated
  unfolding unchanged
  update_and_save o d mutate = if o.locked then unchanged is_locked d o else elim o.db [
    | none ↦ unchanged is_locked d o
    | some db ↦ elim db.content [
      | none ↦ unchanged is_locked d o
      | some content ↦ update_open o db content.root d mutate
    ]
  ]
