-- ===== src/Daemon/Startup.antt =====
-- Automatic unlocking: which credentials it can use, and the pool that it leaves.
use kpxcd.Prelude.{
  Bool, true, false, List, [], ◌∷◌, some, Bytes, codes, bytes_Eq, bytes_eq, ◌==◌, null, ◌≡◌, refl,
  arith, All, is_some, Bool-cases, bytes_eq_iff, inl, inr, Option-cases, sym, ap, ◌∙◌,
}
use kpxcd.Prelude.Results.{Result, ok, err, Result-cases}
use kpxcd.Config.{DatabaseConfig, known_credential}
use kpxcd.Config.Validation.{IsUsable}
use kpxcd.Pool.Database.{Db, FileFingerprint}
use kpxcd.Pool.Wipe.{wipe_database_content}
use kpxcd.Pool.Manage.{DatabasePool, PoolLibrary, Credential, load, open_database}
use kpxcd.Pool.Manage.Locking.{WellFormed}
use kpxcd.Pool.Manage.Opening.{open_database_lem}
use kpxcd.Daemon.{
  Environment, ResolveError, resolve_credential, read_systemd_credential, no_keyfile,
  no_credential_name, unknown_credential, no_slot, unlock_configured, auto_unlock,
}

not_yubikey : (c : Bytes) → known_credential c ≡ true → (c == codes "yubikey") ≡ false
unfolding known_credential bytes_eq
not_yubikey c known = elim (Bool-cases (c == codes "yubikey")) [
  | inr other ↦ other
  | inl same ↦
      let wrong : known_credential (codes "yubikey") ≡ true =
        ap known_credential (sym ((bytes_eq_iff c (codes "yubikey")).0 same)) ∙ known in
      cc wrong
]

-- The settings are not to blame for the error.
unfoldable pub not_of_settings : Result ResolveError Credential → Bool
not_of_settings (ok cred) = true
not_of_settings (err no_keyfile) = false
not_of_settings (err no_credential_name) = false
not_of_settings (err no_slot) = false
not_of_settings (err unknown_credential) = false
not_of_settings (err e) = true

systemd-not_of_settings :
    (env : Environment) (name : Bytes)
    → null name ≡ false
    → not_of_settings (read_systemd_credential env name) ≡ true
unfolding read_systemd_credential not_of_settings
systemd-not_of_settings env name full = elim (Option-cases (env.read_credential name)) [
  | inl missing ↦ ground arith
  | inr (bytes, here) ↦ ground arith
]

-- For validated settings no credential fails because of the settings themselves: what is left is
-- the surroundings, or a credential that is given in another way.
pub resolve_credential-IsUsable :
    (env : Environment) (db : DatabaseConfig)
    → IsUsable db
    → not_of_settings (resolve_credential env db) ≡ true
unfolding resolve_credential not_of_settings known_credential
resolve_credential-IsUsable env db (path, full, known, sys, key) =
    let c = db.unlock_credential in
    let other = not_yubikey c known in
    elim (Bool-cases (c == codes "none")) [
      | inl e ↦ rw (other, e) refl
      | inr n ↦ elim (Bool-cases (c == codes "keyfile")) [
        | inl e ↦ rw (other, n, e, key ((bytes_eq_iff c (codes "keyfile")).0 e)) refl
        | inr k ↦ elim (Bool-cases (c == codes "systemd-credential")) [
          | inl e ↦
              let name = sys ((bytes_eq_iff c (codes "systemd-credential")).0 e) in
              rw (other, n, k, e) (systemd-not_of_settings env db.systemd_credential_name name)
          | inr s ↦ elim (Bool-cases (c == codes "pam")) [
            | inl e ↦ rw (other, n, k, s, e) refl
            | inr m ↦ elim (Bool-cases (c == codes "prompt")) [
              | inl e ↦ rw (other, n, k, s, m, e) refl
              | inr q ↦ absurd (nothing_left n k s m q)
            ]
          ]
        ]
      ]
    ]
  where
    nothing_left :
        (db.unlock_credential == codes "none") ≡ false
        → (db.unlock_credential == codes "keyfile") ≡ false
        → (db.unlock_credential == codes "systemd-credential") ≡ false
        → (db.unlock_credential == codes "pam") ≡ false
        → (db.unlock_credential == codes "prompt") ≡ false
        → ⊥
    nothing_left n k s m q = cc (rw (known_credential, full, n, k, s, m, q) at known)

-- Every database that can be decoded can also be wiped.
abbrev pub Wipes : PoolLibrary → Type 0
Wipes lib =
    (path : Bytes) (cred : Credential) (db : Db) (fp : FileFingerprint)
    → load lib path cred ≡ ok (db, fp)
    → is_some (wipe_database_content (some db)) ≡ true

unlock_configured-WellFormed :
    (lib : PoolLibrary) (env : Environment) (p : DatabasePool) (db : DatabaseConfig)
    → Wipes lib
    → All WellFormed p.dbs
    → All WellFormed (unlock_configured lib env p db).dbs
unfolding unlock_configured
unlock_configured-WellFormed lib env p db wipes good =
    elim (Result-cases (resolve_credential env db)) [
      | inr (e, bad) ↦ ground arith
      | inl (cred, fine) ↦ elim (Result-cases (open_database lib p db.path cred)) [
        | inr (e, bad) ↦ ground arith
        | inl (opened, went) ↦
            let now = open_database_lem lib p (opened.1) db.path (opened.0) cred went in
            let after : All WellFormed opened.1.dbs =
              now.3.9 (wipes db.path cred (now.0) (now.1) (now.2)) good in
            ground arith
      ]
    ]

-- The pool after automatic unlocking is well-formed, whatever fails, so that everything in it can
-- be locked.
pub auto_unlock-WellFormed :
    (lib : PoolLibrary) (env : Environment) (p : DatabasePool) (dbs : List DatabaseConfig)
    → Wipes lib
    → All WellFormed p.dbs
    → All WellFormed (auto_unlock lib env p dbs).dbs
unfolding auto_unlock
auto_unlock-WellFormed lib env p [] wipes good = good
auto_unlock-WellFormed lib env p (db ∷ dbs) wipes good =
    auto_unlock-WellFormed lib env (unlock_configured lib env p db) dbs wipes
      (unlock_configured-WellFormed lib env p db wipes good)
