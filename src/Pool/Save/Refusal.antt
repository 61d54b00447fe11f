-- ===== src/Pool/Save/Refusal.antt =====
-- What stands on the disk after a save in every case, and what a failed save leaves in memory.
use kpxcd.Prelude.{
  ◌%◌, ℕ, Bool, true, false, Option, none, some, List, [], ◌∷◌, Bytes, ◌≡◌, ◌≢◌, ◌⊎◌, inl, inr,
  refl, sym, ap, subst, ◌∙◌, arith, Bool-cases, Option-cases,
}
use kpxcd.Keepass.{In}
use kpxcd.Pool.Database.{
  RootData, Content, Db, Disk, FileFingerprint, fingerprint_file, equal, OpenDatabase,
}
use kpxcd.Pool.Save.{
  no_fingerprint, SaveLibrary, World, SaveError, changed_on_disk, Saved, Updated, saved,
  replace_file, write_temp, atomic_encode, updated, after_encode, finish, encode_locked,
  save_locked, clone_root_data, with_root, roll_back, save_mutated, unchanged, update_open,
  update_and_save,
}
use kpxcd.Pool.Save.Success.{matches, atomic_encode-none}

module _ (lib : SaveLibrary) (w : World) where
  replace_file-kept :
      (fp : FileFingerprint) (mode : ℕ) (bytes : Bytes) (d : Disk) (db : Db)
      → ((replace_file lib w fp mode bytes d db).disk ≡ w.at_check d)
        ⊎ (matches lib w fp (w.at_check d) ≡ true)
  unfolding replace_file saved matches
  replace_file-kept fp mode bytes d db = elim (Bool-cases (matches lib w fp (w.at_check d))) [
    | inl same ↦ inr same
    | inr off ↦ inl (ground arith)
  ]

  write_temp-kept :
      (fp : FileFingerprint) (mode : ℕ) (d : Disk) (e : Db × Option Bytes)
      → ((write_temp lib w fp mode d e).disk ≡ d)
        ⊎ ((write_temp lib w fp mode d e).disk ≡ w.at_check d)
        ⊎ (matches lib w fp (w.at_check d) ≡ true)
  unfolding write_temp saved
  write_temp-kept fp mode d (db, none) = inl refl
  write_temp-kept fp mode d (db, some bytes) = ground (arith, replace_file-kept fp mode bytes d db)

  atomic_encode-kept :
      (db : Db) (fp : FileFingerprint) (d : Disk)
      → ((atomic_encode lib w db fp d).disk ≡ w.at_stat d)
        ⊎ ((atomic_encode lib w db fp d).disk ≡ w.at_check (w.at_stat d))
        ⊎ (matches lib w fp (w.at_check (w.at_stat d)) ≡ true)
  unfolding atomic_encode saved
  atomic_encode-kept db fp d = elim (Option-cases (w.at_stat d)) [
    | inl gone ↦ inl (ground arith)
    | inr (f, here) ↦
        ground (arith, write_temp-kept fp (f.mode % 512) (w.at_stat d) (lib.encode db))
  ]

  -- The disks that other processes leave, until the check before the rename.
  abbrev pub looks : Disk → List Disk
  looks d = w.at_save d ∷ w.at_stat (w.at_save d) ∷ w.at_check (w.at_stat (w.at_save d)) ∷ []

  atomic_encode-raced :
      (db : Db) (fp : FileFingerprint) (d : Disk)
      → matches lib w fp (w.at_check (w.at_stat d)) ≡ false
      → ((atomic_encode lib w db fp d).error ≢ none)
        × (((atomic_encode lib w db fp d).disk ≡ w.at_stat d)
            ⊎ ((atomic_encode lib w db fp d).disk ≡ w.at_check (w.at_stat d)))
  atomic_encode-raced db fp d off = (
    λ fine. cc ((atomic_encode-none lib w db fp d fine).0, off),
    elim (atomic_encode-kept db fp d) [
      | inl a ↦ inl a
      | inr (inl b) ↦ inr b
      | inr (inr same) ↦ absurd (cc (same, off))
    ],
  )

  after_encode-error :
      (o : OpenDatabase) (s : Saved)
      → s.error ≢ none
      → ((after_encode lib w o s).error ≢ none) × ((after_encode lib w o s).disk ≡ s.disk)
  unfolding after_encode updated
  after_encode-error o s bad = elim (Option-cases s.error) [
    | inl fine ↦ absurd (bad fine)
    | inr (e, is_e) ↦ (ground arith, ground arith)
  ]

  encode_locked-raced :
      (o : OpenDatabase) (d : Disk) (l : Db × Bool)
      → matches lib w o.fingerprint (w.at_check (w.at_stat d)) ≡ false
      → ((encode_locked lib w o d l).error ≢ none)
        × In ((encode_locked lib w o d l).disk) (d ∷ w.at_stat d ∷ w.at_check (w.at_stat d) ∷ [])
  unfolding encode_locked updated
  encode_locked-raced o d (db, false) off = (λ e. cc e, inl refl)
  encode_locked-raced o d (db, true) off =
      let raced = atomic_encode-raced db o.fingerprint d off in
      let use_it = after_encode-error o (atomic_encode lib w db o.fingerprint d) (raced.0) in
      (
        use_it.0,
        elim (raced.1) [
          | inl a ↦ inr (inl (use_it.1 ∙ a))
          | inr b ↦ inr (inr (inl (use_it.1 ∙ b)))
        ],
      )

  save_locked-raced :
      (o : OpenDatabase) (db : Db) (d : Disk)
      → matches lib w o.fingerprint (w.at_check (w.at_stat (w.at_save d))) ≡ false
      → ((save_locked lib w o db d).error ≢ none) × In ((save_locked lib w o db d).disk) (looks d)
  unfolding save_locked updated
  save_locked-raced o db d off =
      elim (Option-cases (fingerprint_file lib.sha256_hex (w.at_save d))) [
        | inl gone ↦ (ground arith, inl (ground arith))
        | inr (fp, here) ↦ elim (Bool-cases (equal o.fingerprint fp)) [
          | inl same ↦
              rw (save_locked, here, same)
                (encode_locked-raced o (w.at_save d) (lib.lock_protected_entries db) off)
          | inr differs ↦ (ground arith, inl (ground arith))
        ]
      ]

  roll_back-error :
      (original : Option RootData) (u : Updated)
      → ((roll_back lib w original u).disk ≡ u.disk)
        × ((roll_back lib w original u).error ≡ u.error)
  unfolding roll_back
  roll_back-error original u = (ground arith, ground arith)

  save_mutated-raced :
      (o : OpenDatabase) (original : Option RootData) (d : Disk) (m : Db × Bool)
      → matches lib w o.fingerprint (w.at_check (w.at_stat (w.at_save d))) ≡ false
      → ((save_mutated lib w o original d m).error ≢ none)
        × In ((save_mutated lib w o original d m).disk) (d ∷ looks d)
  unfolding save_mutated updated
  save_mutated-raced o original d (db, false) off = (λ e. cc e, inl refl)
  save_mutated-raced o original d (db, true) off =
      let now : OpenDatabase = record o { db = some db } in
      let same = roll_back-error original (save_locked lib w now db d) in
      let raced = save_locked-raced now db d off in
      (λ fine. raced.0 (cc (same.1, fine)), inr (rw (same.0) (raced.1)))

  update_open-raced :
      (o : OpenDatabase) (db : Db) (original : Option RootData) (d : Disk) (mutate : Db → Db × Bool)
      → matches lib w o.fingerprint (w.at_check (w.at_stat (w.at_save (w.at_update d)))) ≡ false
      → ((update_open lib w o db original d mutate).error ≢ none)
        × In
            ((update_open lib w o db original d mutate).disk)
            (d ∷ w.at_update d ∷ looks (w.at_update d))
  unfolding update_open unchanged
  update_open-raced o db original d mutate off =
      elim (Option-cases (fingerprint_file lib.sha256_hex (w.at_update d))) [
        | inl gone ↦ (ground arith, inr (inl (ground arith)))
        | inr (fp, here) ↦ elim (Bool-cases (equal o.fingerprint fp)) [
          | inl same ↦
              rw (update_open, here, same)
                (let raced = save_mutated-raced o original (w.at_update d) (mutate db) off in
                  (raced.0, inr (raced.1)))
          | inr differs ↦ (ground arith, inr (inl (ground arith)))
        ]
      ]

  -- Another process's version is not overwritten: if the file at the last check before the rename is
  -- not the one that the fingerprint was taken of, then `UpdateAndSave` returns an error, and the
  -- disk is as others left it at one of the looks, whatever else fails.
  pub update_and_save_raced :
      (o : OpenDatabase) (d : Disk) (mutate : Db → Db × Bool)
      → matches lib w o.fingerprint (w.at_check (w.at_stat (w.at_save (w.at_update d)))) ≡ false
      → ((update_and_save lib w o d mutate).error ≢ none)
        × In ((update_and_save lib w o d mutate).disk) (d ∷ w.at_update d ∷ looks (w.at_update d))
  unfolding update_and_save unchanged
  update_and_save_raced o d mutate off = elim (Bool-cases o.locked) [
    | inl closed ↦ (ground arith, inl (ground arith))
    | inr opened ↦ elim (Option-cases o.db) [
      | inl gone ↦ (ground arith, inl (ground arith))
      | inr (db, here) ↦ elim (Option-cases db.content) [
        | inl empty ↦ (ground arith, inl (ground arith))
        | inr (content, full) ↦
            rw (opened, here, full) (update_open-raced o db content.root d mutate off)
      ]
    ]
  ]

  update_open-stale :
      (o : OpenDatabase) (db : Db) (original : Option RootData) (d : Disk) (mutate : Db → Db × Bool)
      → matches lib w o.fingerprint (w.at_update d) ≡ false
      → (e : SaveError) × (update_open lib w o db original d mutate
          ≡ unchanged lib w e (w.at_update d) o)
  unfolding update_open unchanged matches
  update_open-stale o db original d mutate off =
      elim (Option-cases (fingerprint_file lib.sha256_hex (w.at_update d))) [
        | inl gone ↦ (no_fingerprint, ground arith)
        | inr (fp, here) ↦ (changed_on_disk, ground arith)
      ]

  -- A change that finds another file than the expected one from the start is not even tried: the
  -- database in memory is untouched as well.
  pub update_and_save_stale :
      (o : OpenDatabase) (d : Disk) (mutate : Db → Db × Bool)
      → matches lib w o.fingerprint (w.at_update d) ≡ false
      → ((update_and_save lib w o d mutate).error ≢ none)
        × ((update_and_save lib w o d mutate).database ≡ o)
        × In ((update_and_save lib w o d mutate).disk) (d ∷ w.at_update d ∷ [])
  unfolding update_and_save unchanged
  update_and_save_stale o d mutate off = elim (Bool-cases o.locked) [
    | inl closed ↦ (ground arith, ground arith, inl (ground arith))
    | inr opened ↦ elim (Option-cases o.db) [
      | inl gone ↦ (ground arith, ground arith, inl (ground arith))
      | inr (db, here) ↦ elim (Option-cases db.content) [
        | inl empty ↦ (ground arith, ground arith, inl (ground arith))
        | inr (content, full) ↦
            let stale = update_open-stale o db content.root d mutate off in
            let whole : update_and_save lib w o d mutate
                ≡ unchanged lib w (stale.0) (w.at_update d) o =
              ground (arith, stale.1) in
            rw whole ((λ e. cc e), refl, inr (inl refl))
      ]
    ]
  ]

  -- An error of the save leaves everything of the opened database but its content in memory.
  abbrev Remains : OpenDatabase → Updated → Type 0
  Remains o u = (left : Db) × (u.database ≡ record o { db = some left })

  finish-Remains :
      (o : OpenDatabase) (d : Disk) (l : Db × Bool)
      → (finish lib w o d l).error ≢ none
      → Remains o (finish lib w o d l)
  unfolding finish updated
  finish-Remains o d (db, false) bad = (db, refl)
  finish-Remains o d (db, true) bad =
      elim (Option-cases (fingerprint_file lib.sha256_hex (w.at_finish d))) [
        | inl gone ↦ (db, ground arith)
        | inr (fp, here) ↦ absurd (bad (ground arith))
      ]

  after_encode-Remains :
      (o : OpenDatabase) (s : Saved)
      → (after_encode lib w o s).error ≢ none
      → Remains o (after_encode lib w o s)
  unfolding after_encode updated
  after_encode-Remains o s bad = elim (Option-cases s.error) [
    | inr (e, is_e) ↦ ((lib.unlock_protected_entries s.db).0, ground arith)
    | inl fine ↦
        let whole : after_encode lib w o s
            ≡ finish lib w o s.disk (lib.unlock_protected_entries s.db) =
          ground arith in
        subst (λ u. u.error ≢ none → Remains o u) (sym whole)
          (finish-Remains o s.disk (lib.unlock_protected_entries s.db)) bad
  ]

  encode_locked-Remains :
      (o : OpenDatabase) (d : Disk) (l : Db × Bool)
      → (encode_locked lib w o d l).error ≢ none
      → Remains o (encode_locked lib w o d l)
  unfolding encode_locked updated
  encode_locked-Remains o d (db, false) bad = (db, refl)
  encode_locked-Remains o d (db, true) bad =
      after_encode-Remains o (atomic_encode lib w db o.fingerprint d) bad

  save_locked-Remains :
      (o : OpenDatabase) (db : Db) (d : Disk)
      → (save_locked lib w o db d).error ≢ none
      → Remains o (save_locked lib w o db d)
  unfolding save_locked updated
  save_locked-Remains o db d bad =
      elim (Option-cases (fingerprint_file lib.sha256_hex (w.at_save d))) [
        | inl gone ↦ (db, ground arith)
        | inr (fp, here) ↦ elim (Bool-cases (equal o.fingerprint fp)) [
          | inr differs ↦ (db, ground arith)
          | inl same ↦
              let l = lib.lock_protected_entries db in
              let whole : save_locked lib w o db d ≡ encode_locked lib w o (w.at_save d) l =
                ground arith in
              subst (λ u. u.error ≢ none → Remains o u) (sym whole)
                (encode_locked-Remains o (w.at_save d) l) bad
        ]
      ]

  -- The database with other groups, where it has content.
  unfoldable pub replaced : RootData → Db → Db
  replaced root db = elim db.content [
    | none ↦ db
    | some content ↦ record db { content = some (record content { root = some root }) }
  ]

  with_root-replaced :
      (root : RootData) (o : OpenDatabase) (left : Db)
      → with_root lib w root (record o { db = some left })
        ≡ record o { db = some (replaced root left) }
  unfolding with_root replaced
  with_root-replaced root o left = elim (Option-cases left.content) [
    | inl empty ↦ ground arith
    | inr (content, full) ↦ ground arith
  ]

  roll_back-replaced :
      (root : RootData) (o : OpenDatabase) (u : Updated) (left : Db)
      → u.error ≢ none
      → u.database ≡ record o { db = some left }
      → (roll_back lib w (some root) u).database
        ≡ record o { db = some (replaced (clone_root_data lib w root) left) }
  unfolding roll_back
  roll_back-replaced root o u left bad same = elim (Option-cases u.error) [
    | inl fine ↦ absurd (bad fine)
    | inr (e, is_e) ↦
        let rolled : (roll_back lib w (some root) u).database
            ≡ with_root lib w (clone_root_data lib w root) u.database =
          ground arith in
        rolled
        ∙ ap (with_root lib w (clone_root_data lib w root)) same
        ∙ with_root-replaced (clone_root_data lib w root) o left
  ]

  -- When `UpdateAndSave` fails on an open database whose change has reported no error, then either
  -- the file at the first look was not the expected one, and the database in memory is untouched;
  -- or the save of the changed database has failed with the same error and left some database in
  -- memory, and what remains is that database with the groups that gokeepasslib's `Clone` made of
  -- the old ones before the change: its credentials and metadata stay as the save left them, and
  -- the fingerprint, the path, the watcher and the lock state as they were before.
  pub update_and_save_roll_back :
      (o : OpenDatabase) (d : Disk) (mutate : Db → Db × Bool) (db changed : Db) (content : Content)
      (root : RootData)
      → o.locked ≡ false
      → o.db ≡ some db
      → db.content ≡ some content
      → content.root ≡ some root
      → mutate db ≡ (changed, true)
      → (update_and_save lib w o d mutate).error ≢ none
      → let result = update_and_save lib w o d mutate in
        let attempt = save_locked lib w (record o { db = some changed }) changed (w.at_update d) in
        ((matches lib w o.fingerprint (w.at_update d) ≡ false) × (result.database ≡ o))
        ⊎ ((matches lib w o.fingerprint (w.at_update d) ≡ true)
            × (result.error ≡ attempt.error)
            × (result.disk ≡ attempt.disk)
            × (left : Db) × (attempt.database ≡ record o { db = some left })
            × (result.database
                ≡ record o { db = some (replaced (clone_root_data lib w root) left) }))
  unfolding update_and_save update_open save_mutated unchanged matches
  update_and_save_roll_back o d mutate db changed content root opened here full rooted went bad =
      elim (Bool-cases (matches lib w o.fingerprint (w.at_update d))) [
        | inr off ↦ inl (off, (update_and_save_stale o d mutate off).1)
        | inl same ↦
            let now : OpenDatabase = record o { db = some changed } in
            let u = save_locked lib w now changed (w.at_update d) in
            let whole : update_and_save lib w o d mutate ≡ roll_back lib w (some root) u =
              ground (arith, went) in
            let kept = roll_back-error (some root) u in
            let failed : u.error ≢ none = λ fine. bad (ap (λ x. x.error) whole ∙ kept.1 ∙ fine) in
            let (left, remains) = save_locked-Remains now changed (w.at_update d) failed in
            inr (
              same,
              ap (λ x. x.error) whole ∙ kept.1,
              ap (λ x. x.disk) whole ∙ kept.0,
              left,
              remains,
              ap (λ x. x.database) whole ∙ roll_back-replaced root o u left failed remains,
            )
      ]
