-- ===== src/Examples/PamRuns.antt =====
-- Runs of logins: sealing changes nothing, and a credential is written as its version, the lengths
-- of its path and password, and the texts.
use kpxcd.Prelude.{
  ◌-◌, true, [], ◌∷◌, ◌++◌, Option, none, some, Bytes, codes, length, take, drop, ◌≡◌, refl, sym,
  is_some, ◌||◌, take-length, drop-length,
}
use kpxcd.Prelude.Results.{ok}
use kpxcd.Pam.{
  DbCredential, Age, seal_identity, seal_credential, open_credential, new_random_db_credential,
  check_credential,
}
use kpxcd.Pam.Unlock.{
  Files, Outcome, unlock_or_bootstrap_with_pam, bootstrap, after_create, after_identity,
  after_credential, create_database, write_private_file, open_with_password,
}
use kpxcd.Pam.Unlock.Safety.{unlock_or_bootstrap_keeps}
use kpxcd.Pam.Unlock.Bootstrap.{unlock-bootstrap, no_files}
use kpxcd.Examples.LoginRuns.{login, database}

abbrev write_credential : DbCredential → Bytes
write_credential c =
    c.version
    ∷ length c.db_path
    ∷ length c.db_password
    ∷ (c.db_path ++ (c.db_password ++ c.created_at))

abbrev read_credential : Bytes → Option DbCredential
read_credential (v ∷ p ∷ w ∷ s) = some record {
  version = v;
  db_path = take p s;
  db_password = take w (drop p s);
  created_at = drop w (drop p s);
}
read_credential s = none

read-write_credential : (c : DbCredential) → read_credential (write_credential c) ≡ some c
read-write_credential c =
    let tail = c.db_password ++ c.created_at in
    rw
      (
        take-length c.db_path tail,
        drop-length c.db_path tail,
        take-length c.db_password c.created_at,
        drop-length c.db_password c.created_at,
      )
      refl

abbrev age : Age
age = record {
  encrypt_scrypt = λ f t p. some p;
  decrypt_scrypt = λ m t s. some s;
  encrypt_to = λ r p. some p;
  decrypt_with = λ i s. some s;
  recipient = λ i. i;
  parse_identity = λ s. some s;
  trim_space = λ s. take (length s - 1) s;
  marshal = write_credential;
  unmarshal = read_credential;
  decrypt_scrypt-encrypt = λ f m t p s b h. sym h;
  decrypt_with-encrypt = λ i p s h. sym h;
  unmarshal-marshal = read-write_credential;
}

abbrev sealed : Bytes
sealed = 1 ∷ 2 ∷ 1 ∷ codes "/dp"

abbrev sealed_value : DbCredential
sealed_value = record {
  version = 1;
  db_path = codes "/d";
  db_password = codes "p";
  created_at = [];
}

opened : open_credential age sealed (codes "id") ≡ ok sealed_value
unfolding open_credential check_credential
opened = refl

abbrev half : Files
half = record { identity = none; credential = some sealed; database = some (codes "db") }

abbrev token : Bytes
token = codes "token"

unlock_or_bootstrap_keeps_example :
    (is_some half.database ≡ true
      → (unlock_or_bootstrap_with_pam age login database half token).files ≡ half)
    × (is_some half.identity || is_some half.credential ≡ true
        → ((unlock_or_bootstrap_with_pam age login database half token).files.identity
            ≡ half.identity)
          × ((unlock_or_bootstrap_with_pam age login database half token).files.credential
              ≡ half.credential))
unlock_or_bootstrap_keeps_example = unlock_or_bootstrap_keeps age login database half token

abbrev first : Outcome
first = unlock_or_bootstrap_with_pam age login database no_files token

boots : first.error ≡ none
unfolding unlock_or_bootstrap_with_pam bootstrap after_create after_identity after_credential
    create_database write_private_file open_with_password new_random_db_credential seal_identity
    seal_credential
boots = refl

unlock-bootstrap_example :
    (first.opened ≡ some (codes "pw"))
    × ((unlock_or_bootstrap_with_pam age login database first.files token).error ≡ none)
    × ((unlock_or_bootstrap_with_pam age login database first.files token).opened
        ≡ some (codes "pw"))
    × ((unlock_or_bootstrap_with_pam age login database first.files token).files ≡ first.files)
unlock-bootstrap_example =
    unlock-bootstrap age login login database (codes "id") (codes "pw") token refl refl refl refl
      refl boots refl (λ f h. h)
