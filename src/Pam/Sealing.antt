-- ===== src/Pam/Sealing.antt =====
-- What sealing preserves, and what opening accepts.
use kpxcd.Prelude.{
  false, ◌++◌, ◌∷◌, [], some, Bytes, null, ◌≡◌, refl, arith, Option-cases, inl, inr, subst,
}
use kpxcd.Prelude.Results.{ok}
use kpxcd.Pam.{
  DbCredential, Age, seal_identity, open_identity, seal_credential, open_credential,
  check_credential, credential_version, scrypt_work_factor, max_work_factor,
}

-- An identity sealed with a token is opened by the same token, if age reads what it prints.
pub open_identity-seal_identity :
    (age : Age) (identity token sealed : Bytes)
    → age.parse_identity (age.trim_space (identity ++ b'\n' ∷ [])) ≡ some identity
    → seal_identity age identity token ≡ ok sealed
    → open_identity age sealed token ≡ ok identity
unfolding seal_identity open_identity
open_identity-seal_identity age identity token sealed reads h =
    let plain = identity ++ b'\n' ∷ [] in
    elim (Option-cases (age.encrypt_scrypt scrypt_work_factor token plain)) [
      | inl failed ↦ absurd (ground arith)
      | inr (s, good) ↦
          let same : s ≡ sealed = ground arith in
          let undo =
            age.decrypt_scrypt-encrypt scrypt_work_factor max_work_factor token plain sealed
              (omega arith) (cc (good, same)) in
          rw (open_identity, undo, reads) refl
    ]

-- A credential sealed to an identity's recipient is opened by that identity, if it is of the
-- current version and complete.
pub open_credential-seal_credential :
    (age : Age) (cred : DbCredential) (identity sealed : Bytes)
    → cred.version ≡ credential_version
    → null cred.db_password ≡ false
    → null cred.db_path ≡ false
    → seal_credential age cred (age.recipient identity) ≡ ok sealed
    → open_credential age sealed identity ≡ ok cred
unfolding seal_credential open_credential check_credential
open_credential-seal_credential age cred identity sealed version password path h =
    elim (Option-cases (age.encrypt_to (age.recipient identity) (age.marshal cred))) [
      | inl failed ↦ absurd (ground arith)
      | inr (s, good) ↦
          let same : s ≡ sealed = ground arith in
          let undo =
            age.decrypt_with-encrypt identity (age.marshal cred) sealed (cc (good, same)) in
          rw (open_credential, undo, age.unmarshal-marshal cred) (ground arith)
    ]

-- Only a complete credential of the current version is opened.
pub open_credential_sound :
    (age : Age) (sealed identity : Bytes) (cred : DbCredential)
    → open_credential age sealed identity ≡ ok cred
    → (cred.version ≡ credential_version)
      × (null cred.db_password ≡ false)
      × (null cred.db_path ≡ false)
unfolding open_credential check_credential
open_credential_sound age sealed identity cred h =
    elim (Option-cases (age.decrypt_with identity sealed)) [
      | inl failed ↦ absurd (ground arith)
      | inr (plain, decrypted) ↦ elim (Option-cases (age.unmarshal plain)) [
        | inl failed ↦ absurd (ground arith)
        | inr (c, decoded) ↦
            let passed : check_credential age c ≡ ok cred = ground arith in
            let same : c ≡ cred = ground arith in
            subst
              (λ d.
                (d.version ≡ credential_version)
                × (null d.db_password ≡ false)
                × (null d.db_path ≡ false))
              same (ground arith, ground arith, ground arith)
      ]
    ]
