-- ===== src/Pam/Unlock.antt =====
-- internal/daemon/pam.go and pamsocket.go, with internal/dbpool/create.go and the writing of
-- private files in internal/xdg/xdg.go: opening the default database at login, or creating it. The
-- files at the three paths are explicit; what the system calls and the random source do in one
-- login is the record `Login`.
pub mod Safety
pub mod Bootstrap
use kpxcd.Prelude.{
  ℕ, Bool, true, false, not, ◌&&◌, ◌||◌, List, [], ◌∷◌, Option, none, some, Bytes, codes, bytes_Eq,
  ◌==◌, length, take, ltb, if◌then◌else◌, is_some,
}
use kpxcd.Prelude.Results.{Result, ok, err}
use kpxcd.Config.{DatabaseConfig}
use kpxcd.Pam.{
  DbCredential, Age, seal_identity, open_identity, seal_credential, open_credential,
  new_random_db_credential, pam_token_len,
}
use kpxcd.Pool.Database.{OpenDatabase}

-- The contents of the sealed identity, the sealed credential and the database.
pub record Files : Type 0 where
  pub identity : Option Bytes
  pub credential : Option Bytes
  pub database : Option Bytes

-- One write of a private file: `partial` is what a failing write leaves.
pub record Write : Type 0 where
  pub dir_fails : Bool
  pub open_fails : Bool
  pub partial : Option Bytes
  pub sync_fails : Bool
  pub close_fails : Bool

pub record Login : Type 0 where
  -- `NewSecureString` gets its locked memory.
  pub secures : Bytes → Bool
  pub new_identity : Option Bytes
  pub secret : Option Bytes
  pub now : Bytes
  -- The directory and the new file can be made.
  pub can_create : Bool
  -- gokeepasslib's encoding of a new database under a password.
  pub encode_new : Bytes → Option Bytes
  pub create_syncs : Bool
  pub identity_write : Write
  pub credential_write : Write
  -- `pool.Open` succeeds on a file with a password.
  pub opens : Bytes → Bytes → Bool

pub data PamError : Type 0 where
  unwrap_identity decrypt_credential wrap_password create_failed existing_database incomplete_state
        no_identity no_credential write_identity write_credential open_failed :
      PamError

-- `opened` is the password under which the database has been opened.
pub record Outcome : Type 0 where
  pub error : Option PamError
  pub files : Files
  pub opened : Option Bytes

unfoldable pub failed : PamError → Files → Outcome
failed e files = record { error = some e; files = files; opened = none }

-- What stands at the path afterwards, and whether there was no error.
unfoldable pub write_private_file : Write → Option Bytes → Bytes → Option Bytes × Bool
write_private_file w old bytes =
    if w.dir_fails || w.open_fails then (old, false) else elim w.partial [
      | some part ↦ (some part, false)
      | none ↦ (some bytes, not (w.sync_fails || w.close_fails))
    ]

-- An existing file is never overwritten; a failed encoding is removed again, a failed sync is not.
unfoldable pub create_database : Login → Option Bytes → Bytes → Option Bytes × Bool
create_database w old password = elim old [
  | some file ↦ (some file, false)
  | none ↦
      if w.can_create
      then elim (w.encode_new password) [
        | none ↦ (none, false)
        | some file ↦ (some file, w.create_syncs)
      ]
      else (none, false)
]

unfoldable pub open_with_password : Login → Files → Bytes → Outcome
open_with_password w files password =
    if w.secures password
    then elim files.database [
      | none ↦ failed open_failed files
      | some file ↦
          if w.opens file password
          then record { error = none; files = files; opened = some password }
          else failed open_failed files
    ]
    else failed wrap_password files

unfoldable pub open_created : Login → Files → Bytes → Option Bytes × Bool → Outcome
open_created w files password (database, false) =
    failed create_failed (record files { database = database })
open_created w files password (database, true) =
    open_with_password w (record files { database = database }) password

-- With both sealed files there, a missing database is created under the sealed password.
unfoldable pub unlock_with : Login → Files → DbCredential → Outcome
unlock_with w files cred =
    if is_some files.database
    then open_with_password w files cred.db_password
    else if w.secures cred.db_password
    then open_created w files cred.db_password (create_database w files.database cred.db_password)
    else failed wrap_password files

unfoldable pub unlock_sealed : Age → Login → Files → Bytes → Bytes → Bytes → Outcome
unlock_sealed age w files sealed_identity sealed_credential token =
    elim (open_identity age sealed_identity token) [
      | err e ↦ failed unwrap_identity files
      | ok identity ↦ elim (open_credential age sealed_credential identity) [
        | err e ↦ failed decrypt_credential files
        | ok cred ↦ unlock_with w files cred
      ]
    ]

unfoldable pub after_credential : Login → Files → Bytes → Option Bytes × Bool → Outcome
after_credential w files password (credential, false) =
    failed write_credential (record files { credential = credential })
after_credential w files password (credential, true) =
    open_with_password w (record files { credential = credential }) password

unfoldable pub after_identity :
    Age → Login → Files → Bytes → DbCredential → Option Bytes × Bool → Outcome
after_identity age w files identity cred (sealed, false) =
    failed write_identity (record files { identity = sealed })
after_identity age w files identity cred (sealed, true) =
    let now = record files { identity = sealed } in
    elim (seal_credential age cred (age.recipient identity)) [
      | err e ↦ failed write_credential now
      | ok sealed ↦
          after_credential w now cred.db_password
            (write_private_file w.credential_write now.credential sealed)
    ]

unfoldable pub after_create :
    Age → Login → Files → Bytes → DbCredential → Bytes → Option Bytes × Bool → Outcome
after_create age w files identity cred token (database, false) =
    failed create_failed (record files { database = database })
after_create age w files identity cred token (database, true) =
    let now = record files { database = database } in
    elim (seal_identity age identity token) [
      | err e ↦ failed write_identity now
      | ok sealed ↦
          after_identity age w now identity cred
            (write_private_file w.identity_write now.identity sealed)
    ]

-- The first login: a new identity, a new password, the database, then the two sealed files.
unfoldable pub bootstrap : Age → Login → DatabaseConfig → Files → Bytes → Outcome
bootstrap age w db files token = elim w.new_identity [
  | none ↦ failed no_identity files
  | some identity ↦ elim (new_random_db_credential db.path w.secret w.now) [
    | err e ↦ failed no_credential files
    | ok cred ↦
        if w.secures cred.db_password
        then after_create age w files identity cred token
            (create_database w files.database cred.db_password)
        else failed wrap_password files
  ]
]

unfoldable pub refuse : Files → Outcome
refuse files = failed (if is_some files.database then existing_database else incomplete_state) files

unfoldable pub unlock_or_bootstrap_with_pam : Age → Login → DatabaseConfig → Files → Bytes → Outcome
unlock_or_bootstrap_with_pam age w db files token = elim files.identity [
  | some sealed_identity ↦ elim files.credential [
    | some sealed_credential ↦ unlock_sealed age w files sealed_identity sealed_credential token
    | none ↦ refuse files
  ]
  | none ↦ elim files.credential [
    | some _ ↦ refuse files
    | none ↦
        if is_some files.database
        then failed existing_database files
        else bootstrap age w db files token
  ]
]

unfoldable pub marked_default : List DatabaseConfig → Option DatabaseConfig
marked_default [] = none
marked_default (db ∷ dbs) = if db.default then some db else marked_default dbs

-- The first database marked as default, or else the first one.
unfoldable pub default_database : List DatabaseConfig → Option DatabaseConfig
default_database [] = none
default_database (db ∷ dbs) = elim (marked_default (db ∷ dbs)) [ some d ↦ some d | none ↦ some db ]

unfoldable pub is_database_open : List OpenDatabase → Bytes → Bool
is_database_open [] path = false
is_database_open (o ∷ os) path = (o.path == path && not o.locked) || is_database_open os path

unfoldable pub has_pam_database : List DatabaseConfig → Bool
has_pam_database [] = false
has_pam_database (db ∷ dbs) =
    (db.auto_unlock && db.unlock_credential == codes "pam") || has_pam_database dbs

-- One connection that sends the given bytes; `files_of` are the files for a configured database.
unfoldable pub handle_conn :
    Age
    → Login
    → List DatabaseConfig
    → List OpenDatabase
    → (DatabaseConfig → Files)
    → Bytes
    → Option Outcome
handle_conn age w databases pool files_of received =
    if ltb (length received) pam_token_len then none else elim (default_database databases) [
      | none ↦ none
      | some db ↦
          if not db.auto_unlock
            || (not (db.unlock_credential == codes "pam") || is_database_open pool db.path)
          then none
          else some
              (unlock_or_bootstrap_with_pam age w db (files_of db) (take pam_token_len received))
    ]
