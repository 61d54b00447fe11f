-- ===== src/Pool/Save/Undisturbed.antt =====
-- A save that nothing disturbs.
use kpxcd.Prelude.{◌%◌, Bool, true, false, Option, none, some, Bytes, ◌≡◌, refl, ap, ◌∙◌, arith}
use kpxcd.Pool.Database.{
  RootData, Content, Db, File, Disk, FileFingerprint, fingerprint_file, OpenDatabase,
}
use kpxcd.Pool.Save.{
  SaveLibrary, World, Updated, saved, updated, update_and_save, update_open, save_mutated,
  save_locked, encode_locked, atomic_encode, write_temp, replace_file, renamed, after_encode,
  finish, roll_back,
}
use kpxcd.Pool.Save.Success.{matches}

-- No other process touches the file, and no call fails.
pub record IsQuiet (w : World) : Type 0 where
  pub update : (d : Disk) → w.at_update d ≡ d
  pub save : (d : Disk) → w.at_save d ≡ d
  pub stat : (d : Disk) → w.at_stat d ≡ d
  pub check : (d : Disk) → w.at_check d ≡ d
  pub finish : (d : Disk) → w.at_finish d ≡ d
  pub creates : w.create_fails ≡ false
  pub chmods : w.chmod_fails ≡ false
  pub syncs : w.sync_fails ≡ false
  pub closes : w.close_fails ≡ false
  pub renames : w.rename_fails ≡ false

module _ (lib : SaveLibrary) (w : World) where
  replaced :
      (fp : FileFingerprint) (f : File) (bytes : Bytes) (db : Db)
      → IsQuiet w
      → matches lib w fp (some f) ≡ true
      → replace_file lib w fp (f.mode % 512) bytes (some f) db
        ≡ saved lib w none (some (renamed lib w (f.mode % 512) bytes)) db
  unfolding replace_file matches fingerprint_file
  replaced fp f bytes db q same = rw (replace_file, q.check (some f), same, q.renames) refl

  encoded :
      (fp : FileFingerprint) (f : File) (bytes : Bytes) (shut coded : Db)
      → IsQuiet w
      → matches lib w fp (some f) ≡ true
      → lib.encode shut ≡ (coded, some bytes)
      → atomic_encode lib w shut fp (some f)
        ≡ saved lib w none (some (renamed lib w (f.mode % 512) bytes)) coded
  unfolding atomic_encode write_temp
  encoded fp f bytes shut coded q same e =
      let opened : atomic_encode lib w shut fp (some f)
          ≡ write_temp lib w fp (f.mode % 512) (some f) (lib.encode shut) =
        ground (arith, q.stat (some f), q.creates, q.chmods) in
      let closed : write_temp lib w fp (f.mode % 512) (some f) (coded, some bytes)
          ≡ replace_file lib w fp (f.mode % 512) bytes (some f) coded =
        ground (arith, q.syncs, q.closes) in
      opened
      ∙ (ap (λ x. write_temp lib w fp (f.mode % 512) (some f) x) e
          ∙ (closed ∙ replaced fp f bytes coded q same))

  finished :
      (o : OpenDatabase) (f : File) (coded clear : Db)
      → IsQuiet w
      → lib.unlock_protected_entries coded ≡ (clear, true)
      → (after_encode lib w o (saved lib w none (some f) coded)).error ≡ none
  unfolding after_encode saved finish fingerprint_file updated
  finished o f coded clear q u = rw (after_encode, u, finish, q.finish (some f)) refl

  locked_saved :
      (o : OpenDatabase) (f : File) (bytes : Bytes) (changed shut coded clear : Db)
      → IsQuiet w
      → matches lib w o.fingerprint (some f) ≡ true
      → lib.lock_protected_entries changed ≡ (shut, true)
      → lib.encode shut ≡ (coded, some bytes)
      → lib.unlock_protected_entries coded ≡ (clear, true)
      → (save_locked lib w o changed (some f)).error ≡ none
  unfolding save_locked encode_locked matches fingerprint_file
  locked_saved o f bytes changed shut coded clear q same locks e u =
      let checked : save_locked lib w o changed (some f)
          ≡ encode_locked lib w o (some f) (lib.lock_protected_entries changed) =
        ground (arith, q.save (some f), same) in
      let locked : save_locked lib w o changed (some f)
          ≡ after_encode lib w o (atomic_encode lib w shut o.fingerprint (some f)) =
        checked ∙ ap (λ x. encode_locked lib w o (some f) x) locks in
      let whole =
        locked
        ∙ ap (λ s. after_encode lib w o s) (encoded o.fingerprint f bytes shut coded q same e) in
      ap (λ r. r.error) whole ∙ finished o (renamed lib w (f.mode % 512) bytes) coded clear q u

  rolled : (original : Option RootData) (u : Updated) → (roll_back lib w original u).error ≡ u.error
  unfolding roll_back
  rolled original u = ground arith

  -- `UpdateAndSave` succeeds on an unlocked database whose file is the expected one, if no other
  -- process touches the file, no system call fails, and the change, the locking, the encoding and
  -- the unlocking report no error.
  pub update_and_save_quiet :
      (o : OpenDatabase) (f : File) (mutate : Db → Db × Bool) (db changed shut coded clear : Db)
      (content : Content) (bytes : Bytes)
      → IsQuiet w
      → o.locked ≡ false
      → o.db ≡ some db
      → db.content ≡ some content
      → matches lib w o.fingerprint (some f) ≡ true
      → mutate db ≡ (changed, true)
      → lib.lock_protected_entries changed ≡ (shut, true)
      → lib.encode shut ≡ (coded, some bytes)
      → lib.unlock_protected_entries coded ≡ (clear, true)
      → (update_and_save lib w o (some f) mutate).error ≡ none
  unfolding update_and_save update_open save_mutated matches fingerprint_file
  update_and_save_quiet o f mutate db changed shut coded clear content bytes q opened here full same
        went locks e u =
      let now : OpenDatabase = record o { db = some changed } in
      let saves = locked_saved now f bytes changed shut coded clear q same locks e u in
      let outer : update_and_save lib w o (some f) mutate
          ≡ update_open lib w o db content.root (some f) mutate =
        ground arith in
      let checked : update_open lib w o db content.root (some f) mutate
          ≡ save_mutated lib w o content.root (some f) (mutate db) =
        ground (arith, q.update (some f), same) in
      let inner : update_open lib w o db content.root (some f) mutate
          ≡ roll_back lib w content.root (save_locked lib w now changed (some f)) =
        checked ∙ ap (λ x. save_mutated lib w o content.root (some f) x) went in
      ap (λ r. r.error) (outer ∙ inner)
      ∙ (rolled content.root (save_locked lib w now changed (some f)) ∙ saves)
