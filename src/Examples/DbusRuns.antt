-- ===== src/Examples/DbusRuns.antt =====
-- Runs of the daemon's own interface, and of the client of another SSH agent.
use kpxcd.Prelude.{
  ℕ, true, false, [], ◌∷◌, none, some, ◌>>=◌, Bytes, codes, bytes_Eq, bytes_eq, ◌==◌, if◌then◌else◌,
  lookup, ◌≡◌, ◌≢◌, refl,
}
use kpxcd.Prelude.Results.{ok, err}
use kpxcd.Pool.Wipe.{wipe_database_content, wipe_content}
use kpxcd.DbusApi.{
  not_authorized, done, entries, State, Environment, authorize, lock_all_databases, search_entries,
}
use kpxcd.DbusApi.Caller.{unlock, handle, handle-stranger}
use kpxcd.DbusApi.Search.{lock_all_databases-search_entries}
use kpxcd.Ssh.Identity.{Key}
use kpxcd.Ssh.Server.{SshAgentConfig}
use kpxcd.Ssh.Client.{AgentClient, Upstream, on_database_locked}
use kpxcd.Ssh.Client.Tracking.{on_database_locked-lookup}
use kpxcd.Examples.SecretRuns.{unicode, library, full}
use kpxcd.Examples.PoolRuns.{pool_library}

abbrev env : Environment Bytes
env = record {
  connected = true;
  get_connection_unix_user = λ s. if s == codes ":1.9" then some 1000 else some 33;
  own_uid = 1000;
  unicode = unicode;
  library = library;
  pool_library = pool_library;
  secures = λ s. true;
  extract = λ e db. some none;
  digest = λ s. s;
  sign = λ k s. none;
  remove_on_lock = true;
}

abbrev state : State Bytes
state = record {
  pool = record {
    dbs = (codes "u", full) ∷ [];
    events = none;
    capacity = 16;
    watchers = [];
    next_watcher = 1;
  };
  ssh_agent = none;
}

stranger : env.get_connection_unix_user (codes ":1.5") ≢ some 1000
unfolding bytes_eq
stranger = λ e. cc e

handle-stranger_example :
    handle env (codes ":1.5") (unlock (codes "/n") (codes "password") (some (codes "p"))) state
    ≡ (state, err not_authorized)
handle-stranger_example =
    handle-stranger env (codes ":1.5") (unlock (codes "/n") (codes "password") (some (codes "p")))
      state refl stranger

owner : authorize env (codes ":1.9") ≡ true
unfolding authorize bytes_eq
owner = refl

lock_all_databases-search_entries_example :
    ((lock_all_databases env (codes ":1.9") state).1 ≡ ok done)
    × (search_entries env
          (codes ":1.9")
          []
          (codes "bank")
          (lock_all_databases env (codes ":1.9") state).0
        ≡ ((lock_all_databases env (codes ":1.9") state).0, ok (entries [])))
unfolding lookup wipe_database_content wipe_content
lock_all_databases-search_entries_example =
    lock_all_databases-search_entries env (codes ":1.9") (codes "bank") state owner refl (refl, tt)
      ((refl, λ h. absurd (cc h)), tt)

abbrev key : Key Bytes
key = record {
  format = codes "ssh-ed25519";
  blob = codes "b";
  comment = [];
  signer = none;
  entry_uuid = [];
  db_uuid = codes "u";
}

-- The other agent cannot be reached.
abbrev upstream : Upstream Bytes ℕ
upstream = record {
  reachable = λ a. false;
  add = λ k l c a. (a, true);
  remove = λ k a. (a, true);
  private_key = λ k. true;
  public_key = λ k. true;
  extract = λ o. none;
}

abbrev cfg : SshAgentConfig
cfg = record { enabled = true; remove_on_lock = true; confirm_on_use = false; lifetime = 0 }

abbrev client : AgentClient Bytes
client = record { socket = codes "/agent"; keys = (codes "SHA256:b", key) ∷ [] }

on_database_locked-lookup_example :
    lookup (codes "SHA256:b") (on_database_locked (λ s. s) cfg upstream full (client, 0)).0.keys ≡ (
      lookup (codes "SHA256:b") client.keys >>= λ k.
      if k.db_uuid == full.uuid then none else some k)
unfolding lookup
on_database_locked-lookup_example =
    on_database_locked-lookup (λ s. s) cfg upstream full (codes "SHA256:b") client 0 refl refl
      (refl, tt)
