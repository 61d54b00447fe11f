-- ===== src/Pam/Unlock/Bootstrap.antt =====
-- The first login and the ones after it.
use kpxcd.Prelude.{
  Bool, true, false, ◌++◌, ◌∷◌, [], Option, none, some, Bytes, null, ◌≡◌, refl, arith, Option-cases,
  inl, inr, ◌∙◌, ap,
}
use kpxcd.Prelude.Results.{ok, Result-cases}
use kpxcd.Config.{DatabaseConfig}
use kpxcd.Pam.{
  DbCredential, Age, open_identity, open_credential, seal_identity, seal_credential,
  new_random_db_credential, credential_version,
}
use kpxcd.Pam.Sealing.{open_identity-seal_identity, open_credential-seal_credential}
use kpxcd.Pam.Unlock.{
  Files, Login, failed, Write, write_private_file, create_database, open_with_password,
  after_credential, after_identity, after_create, bootstrap, unlock_with, unlock_sealed,
  unlock_or_bootstrap_with_pam,
}

write_private_file-true :
    (w : Write) (old : Option Bytes) (bytes : Bytes)
    → (write_private_file w old bytes).1 ≡ true
    → (write_private_file w old bytes).0 ≡ some bytes
unfolding write_private_file
write_private_file-true w old bytes h = ground arith

after_credential-none :
    (w : Login) (files : Files) (pw : Bytes) (c : Option Bytes × Bool)
    → (after_credential w files pw c).error ≡ none
    → (c.1 ≡ true)
      × (after_credential w files pw c
          ≡ open_with_password w (record files { credential = c.0 }) pw)
unfolding after_credential failed
after_credential-none w files pw (c, false) h = cc
after_credential-none w files pw (c, true) h = (refl, refl)

after_identity-none :
    (age : Age) (w : Login) (files : Files) (id : Bytes) (cred : DbCredential)
    (s : Option Bytes × Bool)
    → (after_identity age w files id cred s).error ≡ none
    → (s.1 ≡ true)
      × (sc : Bytes) × (seal_credential age cred (age.recipient id) ≡ ok sc)
      × (after_identity age w files id cred s
          ≡ open_with_password w
              (record files { identity = s.0; credential = some sc })
              cred.db_password)
unfolding after_identity failed
after_identity-none age w files id cred (s, false) h = cc
after_identity-none age w files id cred (s, true) h =
    elim (Result-cases (seal_credential age cred (age.recipient id))) [
      | inr (e, bad) ↦ absurd (ground arith)
      | inl (sc, good) ↦
          let c = write_private_file w.credential_write files.credential sc in
          let now : Files = record files { identity = s } in
          let step : after_identity age w files id cred (s, true)
              ≡ after_credential w now cred.db_password c =
            ground arith in
          let rest = after_credential-none w now cred.db_password c (cc (step, h)) in
          let full = write_private_file-true w.credential_write files.credential sc (rest.0) in
          (
            refl,
            sc,
            good,
            step
                ∙ (rest.1
                    ∙ ap
                        (λ o. open_with_password w (record now { credential = o }) cred.db_password)
                        full),
          )
    ]

after_create-none :
    (age : Age) (w : Login) (files : Files) (id token : Bytes) (cred : DbCredential)
    (d : Option Bytes × Bool)
    → (after_create age w files id cred token d).error ≡ none
    → (si sc : Bytes) × (seal_identity age id token ≡ ok si)
      × (seal_credential age cred (age.recipient id) ≡ ok sc)
      × (after_create age w files id cred token d
          ≡ open_with_password w
              (record { identity = some si; credential = some sc; database = d.0 })
              cred.db_password)
unfolding after_create failed
after_create-none age w files id token cred (d, false) h = cc
after_create-none age w files id token cred (d, true) h =
    elim (Result-cases (seal_identity age id token)) [
      | inr (e, bad) ↦ absurd (ground arith)
      | inl (si, good) ↦
          let s = write_private_file w.identity_write files.identity si in
          let now : Files = record files { database = d } in
          let step : after_create age w files id cred token (d, true)
              ≡ after_identity age w now id cred s =
            ground arith in
          let rest = after_identity-none age w now id cred s (cc (step, h)) in
          let full = write_private_file-true w.identity_write files.identity si (rest.0) in
          (
            si,
            rest.1,
            good,
            rest.2,
            step
                ∙ (rest.3
                    ∙ ap
                        (λ o.
                          open_with_password w
                            (record now { identity = o; credential = some (rest.1) })
                            cred.db_password)
                        full),
          )
    ]

open_with_password-none :
    (w : Login) (files : Files) (pw : Bytes)
    → (open_with_password w files pw).error ≡ none
    → (f : Bytes) × (files.database ≡ some f)
      × (w.opens f pw ≡ true)
      × ((open_with_password w files pw).opened ≡ some pw)
      × ((open_with_password w files pw).files ≡ files)
unfolding open_with_password failed
open_with_password-none w files pw h = elim (Option-cases files.database) [
  | inl gone ↦ absurd (ground arith)
  | inr (f, here) ↦ (f, here, ground arith, ground arith, ground arith)
]

later_login :
    (age : Age) (w : Login) (db : DatabaseConfig) (si sc f id token : Bytes) (cred : DbCredential)
    → open_identity age si token ≡ ok id
    → open_credential age sc id ≡ ok cred
    → w.secures cred.db_password ≡ true
    → w.opens f cred.db_password ≡ true
    → unlock_or_bootstrap_with_pam age w db
        (record { identity = some si; credential = some sc; database = some f })
        token
      ≡ record {
        error = none;
        files = record { identity = some si; credential = some sc; database = some f };
        opened = some cred.db_password;
      }
unfolding unlock_or_bootstrap_with_pam unlock_sealed unlock_with open_with_password
later_login age w db si sc f id token cred opened decrypted secures opens =
    ground (arith, opened, decrypted, secures, opens)

abbrev pub no_files : Files
no_files = record { identity = none; credential = none; database = none }

first_login :
    (age : Age) (w : Login) (db : DatabaseConfig) (identity secret token : Bytes)
    → w.new_identity ≡ some identity
    → w.secret ≡ some secret
    → (unlock_or_bootstrap_with_pam age w db no_files token).error ≡ none
    → unlock_or_bootstrap_with_pam age w db no_files token
      ≡ after_create age w no_files identity
          (record {
            version = credential_version;
            db_path = db.path;
            db_password = secret;
            created_at = w.now;
          })
          token
          (create_database w none secret)
unfolding unlock_or_bootstrap_with_pam bootstrap new_random_db_credential failed
first_login age w db identity secret token id_is secret_is h = ground arith

-- After a first login that has succeeded, without any of the files before it, the three files are
-- there and the database is open under the new random password; a later login with the same token
-- opens it under that password again and changes no file, if the locked memory is available and the
-- file can still be opened. The path and the password must not be empty, and age must read the
-- identity that it prints.
pub unlock-bootstrap :
    (age : Age) (w later : Login) (db : DatabaseConfig) (identity secret token : Bytes)
    → (age.parse_identity (age.trim_space (identity ++ b'\n' ∷ [])) ≡ some identity)
    → w.new_identity ≡ some identity
    → w.secret ≡ some secret
    → null secret ≡ false
    → null db.path ≡ false
    → (unlock_or_bootstrap_with_pam age w db no_files token).error ≡ none
    → later.secures secret ≡ true
    → ((file : Bytes) → w.opens file secret ≡ true → later.opens file secret ≡ true)
    → let first = unlock_or_bootstrap_with_pam age w db no_files token in
      let second = unlock_or_bootstrap_with_pam age later db first.files token in
      (first.opened ≡ some secret)
      × (second.error ≡ none)
      × (second.opened ≡ some secret)
      × (second.files ≡ first.files)
unlock-bootstrap age w later db identity secret token reads id_is secret_is pw path h secures
      opens =
    let cred : DbCredential = record {
      version = credential_version;
      db_path = db.path;
      db_password = secret;
      created_at = w.now;
    } in
    let made = create_database w none secret in
    let first = first_login age w db identity secret token id_is secret_is h in
    let inner = after_create-none age w no_files identity token cred made (cc (first, h)) in
    let si = inner.0 in
    let sc = inner.1 in
    let now : Files = record { identity = some si; credential = some sc; database = made.0 } in
    let whole = first ∙ inner.4 in
    let done = open_with_password-none w now secret (cc (whole, h)) in
    let f = done.0 in
    let opened = open_identity-seal_identity age identity token si reads (inner.2) in
    let decrypted = open_credential-seal_credential age cred identity sc refl pw path (inner.3) in
    let again =
      later_login age later db si sc f identity token cred opened decrypted secures
        (opens f (done.2)) in
    let left : (open_with_password w now secret).files
        ≡ record { identity = some si; credential = some sc; database = some f } =
      done.4 ∙ ap (λ d. record now { database = d }) (done.1) in
    rw (whole, left, again) (done.3, refl, refl, refl)
