-- ===== src/Examples/LoginRuns.antt =====
-- Runs of the settings and of the daemon, where every system call succeeds.
use kpxcd.Prelude.{
  true, false, [], ◌∷◌, none, some, Bytes, codes, bytes_eq, bytes_Eq, lookup, ◌≡◌, refl, All,
}
use kpxcd.Prelude.Results.{ok}
use kpxcd.Text.{Unicode}
use kpxcd.Config.{
  DatabaseConfig, Config, validate, known_mode, known_credential, check_databases, check_database,
  default_count, with_defaults,
}
use kpxcd.Config.Validation.{IsValid, validate-IsValid}
use kpxcd.Pam.Unlock.{Write, Login}
use kpxcd.Pool.Manage.{get, Event, EventType, database_unlocked, database_locked}
use kpxcd.Ssh.Identity.{Identities}
use kpxcd.Ssh.Server.Database.{NotOf}
use kpxcd.Daemon.{App, Environment, resolve_credential, handle_pool_event}
use kpxcd.Daemon.Startup.{resolve_credential-IsUsable, not_of_settings}
use kpxcd.Daemon.Events.{handle_pool_event-locked}
use kpxcd.Examples.SaveRuns.{opened}
use kpxcd.Examples.PoolRuns.{pool}
use kpxcd.Examples.SshRuns.{identities, agent_config, key}

abbrev unicode : Unicode
unicode = record { fold = λ s. s; lower = λ s. s; trim_space = λ s. s }

abbrev pub database : DatabaseConfig
database = record {
  path = codes "/d";
  name = codes "d";
  default = true;
  auto_unlock = true;
  unlock_credential = codes "pam";
  systemd_credential_name = [];
  keyfile = [];
  yubikey_slot = 0;
  secret_service_expose_group = [];
  ssh_auto_add = false;
}

abbrev settings : Config
settings = record {
  daemon = record {
    idle_timeout = 0;
    lock_on_screenlock = false;
    log_level = [];
    log_to_journald = true;
    ssh_socket_path = [];
    ssh_mode = [];
  };
  databases = record database { unlock_credential = [] } ∷ [];
}

abbrev filled : Config
filled = record {
  daemon = record {
    idle_timeout = 0;
    lock_on_screenlock = false;
    log_level = codes "info";
    log_to_journald = true;
    ssh_socket_path = [];
    ssh_mode = codes "agent";
  };
  databases = record database { unlock_credential = codes "prompt" } ∷ [];
}

accepted : validate unicode settings ≡ ok filled
unfolding validate known_mode known_credential check_databases check_database default_count
    with_defaults bytes_eq
accepted = refl

validate-IsValid_example : IsValid unicode filled × (validate unicode filled ≡ ok filled)
validate-IsValid_example = validate-IsValid unicode settings filled refl accepted

abbrev write : Write
write = record {
  dir_fails = false;
  open_fails = false;
  partial = none;
  sync_fails = false;
  close_fails = false;
}

abbrev pub login : Login
login = record {
  secures = λ p. true;
  new_identity = some (codes "id");
  secret = some (codes "pw");
  now = codes "t";
  can_create = true;
  encode_new = λ p. some p;
  create_syncs = true;
  identity_write = write;
  credential_write = write;
  opens = λ f p. true;
}

abbrev app : App Bytes
app = record { pool = pool; secret_service = some []; ssh_agent = some identities }

abbrev event : EventType → Event
event t = record { type = t; uuid = codes "u"; name = codes "n"; path = codes "/n" }

known : get pool (codes "u") ≡ ok opened
unfolding get lookup bytes_eq
known = refl

handle_pool_event-locked_example :
    (left : Identities Bytes) × ((handle_pool_event
        (λ b. b)
        agent_config
        (λ o. key ∷ [])
        (event database_locked)
        (handle_pool_event
          (λ b. b)
          agent_config
          (λ o. key ∷ [])
          (event database_unlocked)
          app)).ssh_agent
      ≡ some left)
    × All (NotOf (codes "u")) left
    × ((handle_pool_event
          (λ b. b)
          agent_config
          (λ o. key ∷ [])
          (event database_locked)
          (handle_pool_event
            (λ b. b)
            agent_config
            (λ o. key ∷ [])
            (event database_unlocked)
            app)).pool
        ≡ pool)
handle_pool_event-locked_example =
    handle_pool_event-locked (λ b. b) agent_config (λ o. key ∷ []) app identities opened
      (event database_unlocked) (event database_locked) refl refl refl refl refl refl known
      ((λ e. refl), tt)

abbrev environment : Environment
environment = record {
  credentials_directory = [];
  read_credential = λ n. none;
  secures = λ b. true;
}

is_known : known_credential (codes "pam") ≡ true
unfolding known_credential bytes_eq
is_known = refl

resolve_credential-IsUsable_example :
    not_of_settings (resolve_credential environment database) ≡ true
resolve_credential-IsUsable_example =
    resolve_credential-IsUsable environment database (refl, refl, is_known, (λ e. cc e), λ e. cc e)
