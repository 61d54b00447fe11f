-- ===== src/Config.antt =====
-- internal/config/config.go: the settings and their validation. An error's callers drop the
-- settings, so the defaults that a failing call has filled in are not kept here. TOML and the
-- expansion of paths are not modelled.
pub mod Validation
use kpxcd.Prelude.{
  ℕ, suc, ◌+◌, Bool, true, false, not, ◌&&◌, ◌||◌, List, [], ◌∷◌, Bytes, codes, bytes_Eq, ◌==◌,
  null, ltb, if◌then◌else◌,
}
use kpxcd.Prelude.Results.{Result, ok, err}
use kpxcd.Text.{Unicode}

pub record DaemonConfig : Type 0 where
  pub idle_timeout : ℕ
  pub lock_on_screenlock : Bool
  pub log_level : Bytes
  pub log_to_journald : Bool
  pub ssh_socket_path : Bytes
  pub ssh_mode : Bytes

-- A slot that is not positive is 0.
pub record DatabaseConfig : Type 0 where
  pub path : Bytes
  pub name : Bytes
  pub default : Bool
  pub auto_unlock : Bool
  pub unlock_credential : Bytes
  pub systemd_credential_name : Bytes
  pub keyfile : Bytes
  pub yubikey_slot : ℕ
  pub secret_service_expose_group : Bytes
  pub ssh_auto_add : Bool

-- The parts that `Validate` reads.
pub record Config : Type 0 where
  pub daemon : DaemonConfig
  pub databases : List DatabaseConfig

-- The number is that of the database.
pub data ConfigError : Type 0 where
  invalid_ssh_mode several_defaults : ConfigError
  path_required invalid_unlock_credential credential_name_required keyfile_required :
      ℕ → ConfigError

unfoldable pub known_mode : Bytes → Bool
known_mode mode =
    null mode || (mode == codes "agent" || (mode == codes "proxy" || mode == codes "client"))

unfoldable pub known_credential : Bytes → Bool
known_credential c =
    null c
    || (c == codes "prompt"
        || (c == codes "systemd-credential"
            || (c == codes "keyfile" || (c == codes "pam" || c == codes "none"))))

-- One round of the loop over the databases.
unfoldable pub check_database : ℕ → DatabaseConfig → Result ConfigError DatabaseConfig
check_database i db =
    if null db.path
    then err (path_required i)
    else if not (known_credential db.unlock_credential)
    then err (invalid_unlock_credential i)
    else if db.unlock_credential == codes "systemd-credential" && null db.systemd_credential_name
    then err (credential_name_required i)
    else if db.unlock_credential == codes "keyfile" && null db.keyfile
    then err (keyfile_required i)
    else ok
        (if null db.unlock_credential then record db { unlock_credential = codes "prompt" } else db)

unfoldable pub check_databases : ℕ → List DatabaseConfig → Result ConfigError (List DatabaseConfig)
check_databases i [] = ok []
check_databases i (db ∷ dbs) = elim (check_database i db) [
  | err e ↦ err e
  | ok checked ↦ elim (check_databases (suc i) dbs) [
    | err e ↦ err e
    | ok rest ↦ ok (checked ∷ rest)
  ]
]

-- `defaultCount` at the end of the loop.
unfoldable pub default_count : List DatabaseConfig → ℕ
default_count [] = 0
default_count (db ∷ dbs) = if db.default then suc (default_count dbs) else default_count dbs

unfoldable pub with_defaults : Unicode → DaemonConfig → DaemonConfig
with_defaults U d = record d {
  log_level = (if null (U.trim_space d.log_level) then codes "info" else d.log_level);
  ssh_mode = (if null d.ssh_mode then codes "agent" else d.ssh_mode);
}

unfoldable pub validate : Unicode → Config → Result ConfigError Config
validate U c =
    if known_mode c.daemon.ssh_mode
    then elim (check_databases 0 c.databases) [
      | err e ↦ err e
      | ok dbs ↦
          if ltb 1 (default_count c.databases)
          then err several_defaults
          else ok (record { daemon = with_defaults U c.daemon; databases = dbs })
    ]
    else err invalid_ssh_mode
