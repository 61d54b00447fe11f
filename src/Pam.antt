-- ===== src/Pam.antt =====
-- internal/pamcred/pamcred.go: the sealed credential of the default database. The age library, JSON
-- and random numbers are the record `Age`.
pub mod Sealing
pub mod Unlock
use kpxcd.Prelude.{
  ℕ, ◌≤◌, Bool, true, false, ◌||◌, List, [], ◌∷◌, ◌++◌, Option, none, some, Bytes, null, nat_eq,
  if◌then◌else◌, ◌≡◌,
}
use kpxcd.Prelude.Results.{Result, ok, err}

pub record DbCredential : Type 0 where
  pub version : ℕ
  pub db_path : Bytes
  pub db_password : Bytes
  pub created_at : Bytes

abbrev pub credential_version : ℕ
credential_version = 1

abbrev pub scrypt_work_factor : ℕ
scrypt_work_factor = 18

abbrev pub max_work_factor : ℕ
max_work_factor = 20

abbrev pub pam_token_len : ℕ
pam_token_len = 32

pub data PamcredError : Type 0 where
  sealing_failed opening_failed bad_identity bad_json incomplete_credential no_randomness :
      PamcredError
  unsupported_version : ℕ → PamcredError

-- What an identity or a token has encrypted can be decrypted with it again; a work factor up to the
-- allowed one is no obstacle. An identity is the text that age prints.
pub record Age : Type 0 where
  pub encrypt_scrypt : ℕ → Bytes → Bytes → Option Bytes
  pub decrypt_scrypt : ℕ → Bytes → Bytes → Option Bytes
  pub encrypt_to : Bytes → Bytes → Option Bytes
  pub decrypt_with : Bytes → Bytes → Option Bytes
  pub recipient : Bytes → Bytes
  pub parse_identity : Bytes → Option Bytes
  pub trim_space : Bytes → Bytes
  pub marshal : DbCredential → Bytes
  pub unmarshal : Bytes → Option DbCredential
  pub decrypt_scrypt-encrypt :
      (factor max : ℕ) (token plain sealed : Bytes)
      → factor ≤ max
      → encrypt_scrypt factor token plain ≡ some sealed
      → decrypt_scrypt max token sealed ≡ some plain
  pub decrypt_with-encrypt :
      (identity plain sealed : Bytes)
      → encrypt_to (recipient identity) plain ≡ some sealed
      → decrypt_with identity sealed ≡ some plain
  -- For texts in UTF-8, as the daemon's are; `encoding/json` replaces other bytes.
  pub unmarshal-marshal : (c : DbCredential) → unmarshal (marshal c) ≡ some c

module _ (age : Age) where
  unfoldable pub seal_identity : Bytes → Bytes → Result PamcredError Bytes
  seal_identity identity pam_token =
      elim (age.encrypt_scrypt scrypt_work_factor pam_token (identity ++ b'\n' ∷ [])) [
        | none ↦ err sealing_failed
        | some sealed ↦ ok sealed
      ]

  unfoldable pub open_identity : Bytes → Bytes → Result PamcredError Bytes
  open_identity sealed_identity pam_token =
      elim (age.decrypt_scrypt max_work_factor pam_token sealed_identity) [
        | none ↦ err opening_failed
        | some plain ↦ elim (age.parse_identity (age.trim_space plain)) [
          | none ↦ err bad_identity
          | some identity ↦ ok identity
        ]
      ]

  unfoldable pub seal_credential : DbCredential → Bytes → Result PamcredError Bytes
  seal_credential cred recipient = elim (age.encrypt_to recipient (age.marshal cred)) [
    | none ↦ err sealing_failed
    | some sealed ↦ ok sealed
  ]

  -- The checks of a decoded credential.
  unfoldable pub check_credential : DbCredential → Result PamcredError DbCredential
  check_credential cred =
      if nat_eq cred.version credential_version
      then if null cred.db_password || null cred.db_path then err incomplete_credential else ok cred
      else err (unsupported_version cred.version)

  unfoldable pub open_credential : Bytes → Bytes → Result PamcredError DbCredential
  open_credential sealed_credential identity = elim (age.decrypt_with identity sealed_credential) [
    | none ↦ err opening_failed
    | some plain ↦ elim (age.unmarshal plain) [
      | none ↦ err bad_json
      | some cred ↦ check_credential cred
    ]
  ]

-- `secret` is the random password in base64, if the random source delivers; `now` is the time.
unfoldable pub new_random_db_credential :
    Bytes → Option Bytes → Bytes → Result PamcredError DbCredential
new_random_db_credential db_path none now = err no_randomness
new_random_db_credential db_path (some secret) now = ok record {
  version = credential_version;
  db_path = db_path;
  db_password = secret;
  created_at = now;
}
