-- ===== src/Pam/Unlock/Safety.antt =====
-- What a login leaves untouched.
use kpxcd.Prelude.{
  Bool, true, false, ◌||◌, Option, none, Bytes, is_some, ◌≡◌, refl, arith, Option-cases, Bool-cases,
  inl, inr, ◌⊎◌,
}
use kpxcd.Prelude.Results.{Result-cases}
use kpxcd.Config.{DatabaseConfig}
use kpxcd.Pam.{Age, open_identity, open_credential}
use kpxcd.Pam.Unlock.{
  Files, Login, failed, existing_database, create_database, open_with_password, open_created,
  unlock_with, unlock_sealed, refuse, unlock_or_bootstrap_with_pam,
}

open_with_password-files :
    (w : Login) (files : Files) (password : Bytes)
    → (open_with_password w files password).files ≡ files
unfolding open_with_password failed
open_with_password-files w files password = elim (Option-cases files.database) [
  | inl gone ↦ ground arith
  | inr (f, here) ↦ ground arith
]

open_created-files :
    (w : Login) (files : Files) (password : Bytes) (c : Option Bytes × Bool)
    → (open_created w files password c).files ≡ record files { database = c.0 }
unfolding open_created failed
open_created-files w files password (d, false) = refl
open_created-files w files password (d, true) =
    open_with_password-files w (record files { database = d }) password

-- Only a missing database is created.
unlock_sealed-files :
    (age : Age) (w : Login) (files : Files) (i c token : Bytes)
    → ((unlock_sealed age w files i c token).files.identity ≡ files.identity)
      × ((unlock_sealed age w files i c token).files.credential ≡ files.credential)
      × (is_some files.database ≡ true → (unlock_sealed age w files i c token).files ≡ files)
unfolding unlock_sealed unlock_with failed
unlock_sealed-files age w files i c token = elim (Result-cases (open_identity age i token)) [
  | inr (e, bad) ↦ rw (unlock_sealed, bad) (refl, refl, λ h. refl)
  | inl (identity, good) ↦ elim (Result-cases (open_credential age c identity)) [
    | inr (e, bad) ↦ rw (unlock_sealed, good, bad) (refl, refl, λ h. refl)
    | inl (cred, fine) ↦ elim (Bool-cases (is_some files.database)) [
      | inl there ↦
          let same = open_with_password-files w files cred.db_password in
          (ground (arith, same), ground (arith, same), λ h. ground (arith, same))
      | inr missing ↦
          let same =
            open_created-files w files cred.db_password
              (create_database w files.database cred.db_password) in
          (ground (arith, same), ground (arith, same), λ h. absurd (ground arith))
    ]
  ]
]

-- A login changes no file that exists: with a database there, no file changes, and with one of the
-- sealed files there, neither of them does.
pub unlock_or_bootstrap_keeps :
    (age : Age) (w : Login) (db : DatabaseConfig) (files : Files) (token : Bytes)
    → (is_some files.database ≡ true
        → (unlock_or_bootstrap_with_pam age w db files token).files ≡ files)
      × (is_some files.identity || is_some files.credential ≡ true
          → ((unlock_or_bootstrap_with_pam age w db files token).files.identity ≡ files.identity)
            × ((unlock_or_bootstrap_with_pam age w db files token).files.credential
                ≡ files.credential))
unfolding unlock_or_bootstrap_with_pam refuse failed
unlock_or_bootstrap_keeps age w db files token = elim (Option-cases files.identity) [
  | inr (i, here) ↦ elim (Option-cases files.credential) [
    | inr (c, there) ↦
        let sealed = unlock_sealed-files age w files i c token in
        (
          (λ h. ground (arith, sealed.2 h)),
          λ h. (ground (arith, sealed.0), ground (arith, sealed.1)),
        )
    | inl missing ↦ ((λ h. ground arith), λ h. (ground arith, ground arith))
  ]
  | inl gone ↦ elim (Option-cases files.credential) [
    | inr (c, there) ↦ ((λ h. ground arith), λ h. (ground arith, ground arith))
    | inl missing ↦ ((λ h. ground arith), λ h. absurd (ground arith))
  ]
]

-- A database with one of the sealed files missing stays closed at every login: each one is refused
-- and changes nothing.
pub unlock_or_bootstrap_refuses :
    (age : Age) (w : Login) (db : DatabaseConfig) (files : Files) (token : Bytes)
    → is_some files.database ≡ true
    → (files.identity ≡ none) ⊎ (files.credential ≡ none)
    → unlock_or_bootstrap_with_pam age w db files token ≡ failed existing_database files
unfolding unlock_or_bootstrap_with_pam refuse
unlock_or_bootstrap_refuses age w db files token there (inl gone) =
    elim (Option-cases files.credential) [
      | inl missing ↦ ground arith
      | inr (c, here) ↦ ground arith
    ]
unlock_or_bootstrap_refuses age w db files token there (inr missing) =
    elim (Option-cases files.identity) [ inl gone ↦ ground arith | inr (i, here) ↦ ground arith ]
