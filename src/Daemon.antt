-- ===== src/Daemon.antt =====
-- internal/daemon/daemon.go: the credentials of automatic unlocking, and how events of the pool
-- reach the SSH agent and the Secret Service. The client of another SSH agent is not modelled.
pub mod Startup
pub mod Events
use kpxcd.Prelude.{
  ℕ, Bool, true, false, not, List, [], ◌∷◌, ◌++◌, Option, none, some, Bytes, codes, bytes_Eq, ◌==◌,
  null, nat_eq, if◌then◌else◌,
}
use kpxcd.Prelude.Results.{Result, ok, err}
use kpxcd.Config.{DatabaseConfig}
use kpxcd.Pool.Database.{OpenDatabase}
use kpxcd.Pool.Manage.{
  Credential, credential_none, credential_password, credential_keyfile, credential_yubikey,
  DatabasePool, PoolLibrary, open_database, get, Event, EventType, database_unlocked,
  database_locked, database_reloaded, database_error,
}
use kpxcd.Ssh.Identity.{Key, Identities}
use kpxcd.Ssh.Server.{SshAgentConfig, on_database_unlocked, on_database_locked}

pub data ResolveError : Type 0 where
  no_keyfile no_slot no_credential_name no_directory read_failed wrap_failed handled_by_pam
        manual_unlock unknown_credential :
      ResolveError

-- The variable CREDENTIALS_DIRECTORY, the files in it by their names, and locked memory.
pub record Environment : Type 0 where
  pub credentials_directory : Bytes
  pub read_credential : Bytes → Option Bytes
  pub secures : Bytes → Bool

unfoldable pub plain_credential : Credential
plain_credential = record {
  kind = credential_none;
  password = none;
  keyfile = [];
  slot = 0;
  name = [];
}

unfoldable pub read_systemd_credential : Environment → Bytes → Result ResolveError Credential
unfolding plain_credential
read_systemd_credential env name =
    if null name
    then err no_credential_name
    else if null env.credentials_directory
    then err no_directory
    else elim (env.read_credential name) [
      | none ↦ err read_failed
      | some bytes ↦
          if env.secures bytes
          then ok (record plain_credential { kind = credential_password; password = some bytes })
          else err wrap_failed
    ]

unfoldable pub resolve_credential : Environment → DatabaseConfig → Result ResolveError Credential
unfolding plain_credential
resolve_credential env db =
    if db.unlock_credential == codes "none"
    then ok plain_credential
    else if db.unlock_credential == codes "keyfile"
    then (if null db.keyfile
        then err no_keyfile
        else ok (record plain_credential { kind = credential_keyfile; keyfile = db.keyfile }))
    else if db.unlock_credential == codes "yubikey"
    then (if nat_eq db.yubikey_slot 0
        then err no_slot
        else ok (record plain_credential { kind = credential_yubikey; slot = db.yubikey_slot }))
    else if db.unlock_credential == codes "systemd-credential"
    then read_systemd_credential env db.systemd_credential_name
    else if db.unlock_credential == codes "pam"
    then err handled_by_pam
    else if db.unlock_credential == codes "prompt"
    then err manual_unlock
    else if null db.unlock_credential
    then err manual_unlock
    else err unknown_credential

-- One database at startup; a failure is only logged.
unfoldable pub unlock_configured :
    PoolLibrary → Environment → DatabasePool → DatabaseConfig → DatabasePool
unlock_configured lib env p db =
    if not db.auto_unlock
    then p
    else if db.unlock_credential == codes "pam"
    then p
    else elim (resolve_credential env db) [
      | err e ↦ p
      | ok cred ↦ elim (open_database lib p db.path cred) [ err e ↦ p | ok opened ↦ opened.1 ]
    ]

unfoldable pub auto_unlock :
    PoolLibrary → Environment → DatabasePool → List DatabaseConfig → DatabasePool
auto_unlock lib env p [] = p
auto_unlock lib env p (db ∷ dbs) = auto_unlock lib env (unlock_configured lib env p db) dbs

-- The services, absent when they are disabled; the Secret Service is what it has been told.
pub record App (S : Type 0) : Type 0 where
  pub pool : DatabasePool
  pub secret_service : Option (List Event)
  pub ssh_agent : Option (Identities S)

module _ {S : Type 0} (digest : Bytes → Bytes) (cfg : SshAgentConfig)
    (extract : OpenDatabase → List (Key S)) where
  unfoldable pub tell : Event → Option (List Event) → Option (List Event)
  tell evt none = none
  tell evt (some told) = some (told ++ evt ∷ [])

  -- The agent's handler, called with the database that the pool has under the event's identifier.
  unfoldable pub notify_agent :
      (OpenDatabase → Identities S → Identities S)
      → DatabasePool
      → Bytes
      → Option (Identities S)
      → Option (Identities S)
  notify_agent handler pool uuid none = none
  notify_agent handler pool uuid (some m) = elim (get pool uuid) [
    | err e ↦ some m
    | ok odb ↦ some (handler odb m)
  ]

  unfoldable pub handle_pool_event : Event → App S → App S
  handle_pool_event evt app = elim evt.type [
    | database_unlocked ↦ record app {
      secret_service = tell evt app.secret_service;
      ssh_agent =
          notify_agent (λ odb m. on_database_unlocked digest cfg (extract odb) odb.uuid m) app.pool
            evt.uuid app.ssh_agent;
    }
    | database_locked ↦ record app {
      secret_service = tell evt app.secret_service;
      ssh_agent =
          notify_agent (λ odb m. on_database_locked digest cfg odb.uuid m) app.pool evt.uuid
            app.ssh_agent;
    }
    | database_reloaded ↦ record app { secret_service = tell evt app.secret_service }
    | database_error ↦ app
  ]
