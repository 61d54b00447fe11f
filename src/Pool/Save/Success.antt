-- ===== src/Pool/Save/Success.antt =====
-- A save without an error: what has been checked, and what stands on the disk then.
use kpxcd.Prelude.{
  ◌%◌, ℕ, Bool, true, false, Option, none, some, Bytes, ◌≡◌, inl, inr, refl, arith, Bool-cases,
  Option-cases,
}
use kpxcd.Pool.Database.{
  RootData, Content, Db, File, Disk, FileFingerprint, fingerprint_file, equal, OpenDatabase,
}
use kpxcd.Pool.Save.{
  SaveLibrary, World, Saved, Updated, saved, renamed, replace_file, write_temp, atomic_encode,
  updated, finish, after_encode, encode_locked, save_locked, roll_back, save_mutated, unchanged,
  update_open, update_and_save,
}

module _ (lib : SaveLibrary) (w : World) where
  -- The file on the disk is the one that the fingerprint was taken of.
  unfoldable pub matches : FileFingerprint → Disk → Bool
  matches fp d = elim (fingerprint_file lib.sha256_hex d) [
    | none ↦ false
    | some current ↦ equal fp current
  ]

  replace_file-none :
      (fp : FileFingerprint) (mode : ℕ) (bytes : Bytes) (d : Disk) (db : Db)
      → (replace_file lib w fp mode bytes d db).error ≡ none
      → (matches fp (w.at_check d) ≡ true)
        × ((replace_file lib w fp mode bytes d db).disk ≡ some (renamed lib w mode bytes))
  unfolding replace_file saved matches
  replace_file-none fp mode bytes d db h = (ground arith, ground arith)

  write_temp-none :
      (fp : FileFingerprint) (mode : ℕ) (d : Disk) (e : Db × Option Bytes)
      → (write_temp lib w fp mode d e).error ≡ none
      → (matches fp (w.at_check d) ≡ true)
        × (bytes : Bytes) × (e.1 ≡ some bytes)
        × ((write_temp lib w fp mode d e).disk ≡ some (renamed lib w mode bytes))
  unfolding write_temp saved
  write_temp-none fp mode d (db, none) h = cc
  write_temp-none fp mode d (db, some bytes) h =
      let use_it = replace_file-none fp mode bytes d db (ground arith) in
      (use_it.0, bytes, refl, ground (arith, use_it.1))

  -- The temporary file with the encoded database has replaced a file that was the expected one at
  -- the last check, and has taken over the permission bits of its mode.
  abbrev pub Written : FileFingerprint → Db → Disk → Disk → Type 0
  Written fp db d disk =
      (matches fp (w.at_check (w.at_stat d)) ≡ true)
      × (f : File) × (bytes : Bytes) × (w.at_stat d ≡ some f)
      × ((lib.encode db).1 ≡ some bytes)
      × (disk ≡ some (renamed lib w (f.mode % 512) bytes))

  pub atomic_encode-none :
      (db : Db) (fp : FileFingerprint) (d : Disk)
      → (atomic_encode lib w db fp d).error ≡ none
      → Written fp db d ((atomic_encode lib w db fp d).disk)
  unfolding atomic_encode saved
  atomic_encode-none db fp d h = elim (Option-cases (w.at_stat d)) [
    | inl gone ↦ absurd (ground arith)
    | inr (f, here) ↦
        let use_it =
          write_temp-none fp (f.mode % 512) (w.at_stat d) (lib.encode db) (ground arith) in
        (use_it.0, f, use_it.1, here, use_it.2, ground (arith, use_it.3))
  ]

  finish-none :
      (o : OpenDatabase) (d : Disk) (u : Db × Bool)
      → (finish lib w o d u).error ≡ none
      → ((finish lib w o d u).disk ≡ w.at_finish d)
        × (fingerprint_file lib.sha256_hex (w.at_finish d)
            ≡ some ((finish lib w o d u).database.fingerprint))
        × ((finish lib w o d u).database.db ≡ some (u.0))
        × (u.1 ≡ true)
  unfolding finish updated
  finish-none o d (db, false) h = cc
  finish-none o d (db, true) h = (ground arith, ground arith, ground arith, refl)

  -- A save that has succeeded.
  abbrev pub Stored : FileFingerprint → Db → Disk → Updated → Type 0
  Stored fp db d r =
      (locked : Db) × (disk : Disk) × (lib.lock_protected_entries db ≡ (locked, true))
      × Written fp locked d disk
      × (r.disk ≡ w.at_finish disk)
      × (fingerprint_file lib.sha256_hex (r.disk) ≡ some (r.database.fingerprint))

  after_encode-none :
      (o : OpenDatabase) (s : Saved)
      → (after_encode lib w o s).error ≡ none
      → (s.error ≡ none)
        × ((after_encode lib w o s).disk ≡ w.at_finish (s.disk))
        × (fingerprint_file lib.sha256_hex ((after_encode lib w o s).disk)
            ≡ some ((after_encode lib w o s).database.fingerprint))
  unfolding after_encode updated
  after_encode-none o s h = elim (Option-cases s.error) [
    | inl fine ↦
        let use_it = finish-none o s.disk (lib.unlock_protected_entries s.db) (ground arith) in
        (fine, ground (arith, use_it.0), ground (arith, use_it.0, use_it.1))
    | inr (e, bad) ↦ absurd (ground arith)
  ]

  save_locked-none :
      (o : OpenDatabase) (db : Db) (d : Disk)
      → (save_locked lib w o db d).error ≡ none
      → (matches o.fingerprint (w.at_save d) ≡ true)
        × Stored o.fingerprint db (w.at_save d) (save_locked lib w o db d)
  unfolding save_locked updated matches encode_locked
  save_locked-none o db d h = elim (Bool-cases (matches o.fingerprint (w.at_save d))) [
    | inr off ↦ absurd (differs off)
    | inl same ↦ (same, stored same (lib.lock_protected_entries db) refl)
  ]
    where
      differs : matches o.fingerprint (w.at_save d) ≡ false → ⊥
      differs off = ground arith

      stored :
          matches o.fingerprint (w.at_save d) ≡ true
          → (l : Db × Bool) → lib.lock_protected_entries db ≡ l
          → Stored o.fingerprint db (w.at_save d) (save_locked lib w o db d)
      stored same (ldb, false) e = absurd (ground arith)
      stored same (ldb, true) e =
          let r : save_locked lib w o db d
              ≡ after_encode lib w o (atomic_encode lib w ldb o.fingerprint (w.at_save d)) =
            ground arith in
          let use_it =
            after_encode-none o (atomic_encode lib w ldb o.fingerprint (w.at_save d))
              (ground arith) in
          let written = atomic_encode-none ldb o.fingerprint (w.at_save d) use_it.0 in
          (
            ldb,
            (atomic_encode lib w ldb o.fingerprint (w.at_save d)).disk,
            e,
            written,
            rw r (use_it.1),
            rw r (use_it.2),
          )

  roll_back-none :
      (original : Option RootData) (u : Updated)
      → (roll_back lib w original u).error ≡ none
      → roll_back lib w original u ≡ u
  unfolding roll_back
  roll_back-none original u h = ground arith

  save_mutated-none :
      (o : OpenDatabase) (original : Option RootData) (d : Disk) (m : Db × Bool)
      → (save_mutated lib w o original d m).error ≡ none
      → (m.1 ≡ true)
        × (matches o.fingerprint (w.at_save d) ≡ true)
        × Stored o.fingerprint (m.0) (w.at_save d) (save_mutated lib w o original d m)
  unfolding save_mutated updated
  save_mutated-none o original d (db, false) h = cc
  save_mutated-none o original d (db, true) h =
      let now : OpenDatabase = record o { db = some db } in
      let same = roll_back-none original (save_locked lib w now db d) h in
      let use_it = save_locked-none now db d (cc (same, h)) in (refl, use_it.0, rw same (use_it.1))

  update_open-none :
      (o : OpenDatabase) (db : Db) (original : Option RootData) (d : Disk) (mutate : Db → Db × Bool)
      → (update_open lib w o db original d mutate).error ≡ none
      → (matches o.fingerprint (w.at_update d) ≡ true)
        × (update_open lib w o db original d mutate
            ≡ save_mutated lib w o original (w.at_update d) (mutate db))
  unfolding update_open unchanged matches
  update_open-none o db original d mutate h = (ground arith, ground arith)

  update_and_save-none :
      (o : OpenDatabase) (d : Disk) (mutate : Db → Db × Bool)
      → (update_and_save lib w o d mutate).error ≡ none
      → (o.locked ≡ false)
        × (db : Db) × (content : Content) × (o.db ≡ some db)
        × (db.content ≡ some content)
        × (update_and_save lib w o d mutate ≡ update_open lib w o db (content.root) d mutate)
  unfolding update_and_save unchanged
  update_and_save-none o d mutate h =
      let opened : o.locked ≡ false = ground arith in
      elim (Option-cases o.db) [
        | inl gone ↦ absurd (ground arith)
        | inr (db, here) ↦ elim (Option-cases db.content) [
          | inl empty ↦ absurd (ground arith)
          | inr (content, full) ↦ (opened, db, content, here, full, ground arith)
        ]
      ]

  -- A call of `UpdateAndSave` that returns no error has found the expected file at each of its three
  -- looks at the path, has applied the change, has replaced the file by the encoding of the changed
  -- database under the permission bits of the old mode, and keeps the fingerprint of the file that
  -- stands there then.
  pub update_and_save_success :
      (o : OpenDatabase) (d : Disk) (mutate : Db → Db × Bool)
      → (update_and_save lib w o d mutate).error ≡ none
      → (db : Db) × (o.db ≡ some db)
        × (matches o.fingerprint (w.at_update d) ≡ true)
        × ((mutate db).1 ≡ true)
        × (matches o.fingerprint (w.at_save (w.at_update d)) ≡ true)
        × Stored o.fingerprint
            ((mutate db).0)
            (w.at_save (w.at_update d))
            (update_and_save lib w o d mutate)
  update_and_save_success o d mutate h =
      let outer = update_and_save-none o d mutate h in
      let db = outer.1 in
      let root = outer.2.root in
      let open' = update_open-none o db root d mutate (cc (outer.5, h)) in
      let inner = save_mutated-none o root (w.at_update d) (mutate db) (cc (outer.5, open'.1, h)) in
      (db, outer.3, open'.0, inner.0, inner.1, rw (outer.5, open'.1) (inner.2))
