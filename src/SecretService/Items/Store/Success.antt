-- ===== src/SecretService/Items/Store/Success.antt =====
-- An item that a client has stored.
use kpxcd.Prelude.{
  Bool, true, List, Option, none, some, ◌>>=◌, Bytes, codes, Option-cases, ◌≡◌, refl, sym, ap,
  subst, ◌∙◌, inl, inr, arith,
}
use kpxcd.Prelude.Results.{ok, Result-cases}
use kpxcd.Keepass.{Entry}
use kpxcd.Pool.Database.{Db, Disk, OpenDatabase}
use kpxcd.Pool.Save.{update_and_save, Updated}
use kpxcd.Pool.Save.Success.{Stored, update_and_save_success}
use kpxcd.SecretService.Service.{SecretService, expose_group}
use kpxcd.SecretService.Service.Requests.{validate_session, decrypt_secret}
use kpxcd.SecretService.Service.Secrets.{DbusSecret}
use kpxcd.SecretService.Paths.{item_path_for_entry}
use kpxcd.SecretService.Items.{PropertyValue, property_string, property_attributes}
use kpxcd.SecretService.Items.Store.{
  Environment, create_or_replace, applied, on_content, answered, create_item,
}

module _ (env : Environment) where
  -- What the request makes of the database, from the decrypted secret.
  abbrev pub stored_by :
      SecretService
      → OpenDatabase
      → List (Bytes × PropertyValue)
      → Bool
      → Bytes
      → Db
      → Option (Db × Entry)
  stored_by ss o properties replace plaintext = on_content env (
      create_or_replace env o (expose_group ss.database_configs o) replace
        (property_string properties (codes "Label")) (property_attributes properties) plaintext)

  answered-ok :
      {A : Type 0} (o : OpenDatabase) (u : Updated) (value : Db → Option A) (a : A)
      → (answered env o u value).answer ≡ ok a
      → (u.error ≡ none) × ((o.db >>= value) ≡ some a)
  unfolding answered
  answered-ok o u value a done = elim (Option-cases u.error) [
    | inr (_, failed) ↦ absurd (ground arith)
    | inl good ↦ elim (Option-cases (o.db >>= value)) [
      | inl missing ↦ absurd (ground arith)
      | inr (b, found) ↦ (good, ground arith)
    ]
  ]

  applied-true :
      (db : Db) (stored : Option (Db × Entry))
      → (applied env db (stored >>= λ s. some (s.0))).1 ≡ true
      → (made : Db × Entry) × (stored ≡ some made)
        × ((applied env db (stored >>= λ s. some (s.0))).0 ≡ made.0)
  unfolding applied
  applied-true db none h = absurd (cc)
  applied-true db (some made) h = (made, refl, refl)

named_path :
    (name : Entry → Bytes) (stored : Option (Db × Entry)) (made : Db × Entry) (path : Bytes)
    → stored ≡ some made
    → (stored >>= λ s. some (name (s.1))) ≡ some path
    → path ≡ name made.1
named_path name none made path h named = absurd (cc)
named_path name (some s) made path h named = let same : s ≡ made = ground arith in ground arith

-- If a request to create an item is answered with a path, then its session is open and its secret
-- has been decrypted; the request's change has been made to the database, without an error, and the
-- file has been replaced by the encoding of the changed database; and the path is that of the entry
-- which this change has stored.
pub create_item_success :
    (env : Environment) (ss : SecretService) (o : OpenDatabase) (d : Disk)
    (properties : List (Bytes × PropertyValue)) (secret : DbusSecret) (replace : Bool)
    (path : Bytes)
    → (create_item env ss o d properties secret replace).answer ≡ ok path
    → (plaintext : Bytes) × (db : Db) × (made : Db × Entry) × (decrypt_secret env.cipher ss
          secret.session secret.parameters secret.value
        ≡ ok plaintext)
      × (o.db ≡ some db)
      × (stored_by env ss o properties replace plaintext db ≡ some made)
      × (path ≡ item_path_for_entry o.name made.1)
      × (written : Updated) × ((create_item env ss o d properties secret replace).disk
          ≡ written.disk)
      × ((create_item env ss o d properties secret replace).database ≡ written.database)
      × Stored env.save env.world o.fingerprint made.0
          ((env.world).at_save ((env.world).at_update d))
          written
unfolding create_item answered
create_item_success env ss o d properties secret replace path done =
    elim (Result-cases (validate_session ss secret.session)) [
      | inr (e, invalid) ↦ let bad = rw (create_item, invalid) at (done) in absurd (cc)
      | inl (sess, valid) ↦
          elim (Result-cases
            (decrypt_secret env.cipher ss secret.session secret.parameters secret.value)) [
              | inr (e, garbled) ↦
                  let bad = rw (create_item, valid, garbled) at (done) in absurd (cc)
              | inl (plaintext, text) ↦
                  let store = stored_by env ss o properties replace plaintext in
                  let mutate : Db → Db × Bool =
                    λ db. applied env db (store db >>= λ stored. some (stored.0)) in
                  let saved = update_and_save env.save env.world o d mutate in
                  let both =
                    answered-ok env o saved
                      (λ db. store db >>= λ stored. some (item_path_for_entry o.name (stored.1)))
                      path (rw (create_item, valid, text) at (done)) in
                  let (db, here, at0, changed, at1, kept) =
                    update_and_save_success env.save env.world o d mutate both.0 in
                  let made = applied-true env db (store db) changed in
                  let whole : create_item env ss o d properties secret replace
                      ≡ answered env o saved (λ db.
                        store db >>= λ stored. some (item_path_for_entry o.name (stored.1))) =
                    rw (create_item, valid, text) refl in
                  let same = named_path (item_path_for_entry o.name) (store db) made.0 path made.1 (
                    ap
                      (λ odb. odb >>= λ db.
                        store db >>= λ stored. some (item_path_for_entry o.name (stored.1)))
                      (sym here)
                    ∙ both.1) in
                  (
                    plaintext,
                    db,
                    made.0,
                    text,
                    here,
                    made.1,
                    same,
                    saved,
                    ap (λ w. w.disk) whole,
                    ap (λ w. w.database) whole,
                    subst
                        (λ c.
                          Stored env.save env.world o.fingerprint c
                            ((env.world).at_save ((env.world).at_update d)) saved)
                        made.2 kept,
                  )
            ]
    ]
