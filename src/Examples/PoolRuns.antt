-- ===== src/Examples/PoolRuns.antt =====
-- Runs of the pool with one database, and of wiping one with entries.
use kpxcd.Prelude.{
  true, [], ◌∷◌, none, some, Bytes, codes, lookup, bytes_Eq, bytes_eq, is_some, ◌≡◌, refl, arith,
  All, insert,
}
use kpxcd.Prelude.Results.{ok}
use kpxcd.Keepass.{all_entries}
use kpxcd.Pool.Database.{RootData, Content, Db, FileFingerprint, OpenDatabase}
use kpxcd.Pool.Wipe.{wipe_database_content, wipe_content, wipe_groups}
use kpxcd.Pool.Wipe.Blank.{IsBlank, wipe_database_content_lem}
use kpxcd.Pool.Manage.{
  DatabasePool, PoolLibrary, Credential, credential_password, lock, lock_all, send,
  database_unlocked, open_database, load, build_credentials, extract_uuid, root_uuid, add,
}
use kpxcd.Pool.Manage.Locking.{WellFormed, lock_all_lem}
use kpxcd.Pool.Manage.Opening.{Opened, open_database_lem, lock-open_database_again}
use kpxcd.Examples.SaveRuns.{empty_db, print, opened}
use kpxcd.Examples.SecretRuns.{groups}

abbrev pub pool : DatabasePool
pool = record {
  dbs = (codes "u", opened) ∷ [];
  events = some [];
  capacity = 16;
  watchers = 0 ∷ [];
  next_watcher = 1;
}

good : All WellFormed pool.dbs
unfolding wipe_database_content wipe_content
good = ((refl, λ e. cc e), tt)

found : lookup (codes "u") pool.dbs ≡ some opened
unfolding lookup bytes_eq
found = refl

lock_all_lem_example :
    ((lock_all pool).1 ≡ none)
    × ((j : Bytes) → is_some (lookup j (lock_all pool).0.dbs) ≡ is_some (lookup j pool.dbs))
    × ((j : Bytes) (o : OpenDatabase)
        → lookup j (lock_all pool).0.dbs ≡ some o
        → (o.locked ≡ true) × (o.db ≡ none) × (o.watcher ≡ none))
lock_all_lem_example = lock_all_lem pool good

abbrev full_content : Content
full_content = record { meta = none; root = some record { groups = groups; deleted_objects = [] } }

abbrev full_db : Db
full_db = record {
  credentials = some record { passphrase = codes "p"; key = []; windows = [] };
  content = some full_content;
}

abbrev wiped_db : Db
wiped_db = record {
  credentials = none;
  content = some record {
    meta = none;
    root = some record { groups = wipe_groups groups; deleted_objects = [] };
  };
}

wipes : wipe_database_content (some full_db) ≡ some (some wiped_db)
unfolding wipe_database_content wipe_content
wipes = refl

wipe_database_content_lem_example :
    (wiped_db.credentials ≡ none)
    × (after : Content) × (blank : RootData) × (wiped_db.content ≡ some after)
    × (after.root ≡ some blank)
    × All IsBlank (all_entries blank.groups)
wipe_database_content_lem_example =
    wipe_database_content_lem full_db wiped_db full_content
      (record { groups = groups; deleted_objects = [] }) refl refl wipes

abbrev pub pool_library : PoolLibrary
pool_library = record {
  can_open = λ p. true;
  base = λ p. p;
  fingerprint_file = λ p. some print;
  new_password_credentials = λ p. record { passphrase = p; key = []; windows = [] };
  new_key_credentials = λ p. none;
  new_password_and_key_credentials = λ p k. none;
  decode = λ p c. some empty_db;
  unlock_protected_entries = λ db. some db;
  marshal_uuid = λ u. u;
  path_digest = λ p. p;
}

abbrev credential : Credential
credential = record {
  kind = credential_password;
  password = some (codes "p");
  keyfile = [];
  slot = 0;
  name = [];
}

-- The database of the pool, opened again.
abbrev again : DatabasePool
again = record {
  dbs = (codes "u", record opened { name = codes "u"; path = codes "u"; watcher = some 1 }) ∷ [];
  events = some (
      record { type = database_unlocked; uuid = codes "u"; name = codes "u"; path = codes "u" }
      ∷ []);
  capacity = 16;
  watchers = 1 ∷ 0 ∷ [];
  next_watcher = 2;
}

opens : open_database pool_library pool (codes "u") credential ≡ ok (codes "u", again)
unfolding open_database load build_credentials extract_uuid root_uuid add insert send bytes_eq
opens = refl

open_database_lem_example :
    (db : Db) × (fp : FileFingerprint) × (load pool_library (codes "u") credential ≡ ok (db, fp))
    × Opened pool_library pool (codes "u") db fp (codes "u", again)
open_database_lem_example =
    open_database_lem pool_library pool again (codes "u") (codes "u") credential opens

again-good : All WellFormed again.dbs
unfolding wipe_database_content wipe_content
again-good = ((refl, λ e. cc e), tt)

lock-open_database_again_example :
    (again.watchers ≡ 1 ∷ 0 ∷ [])
    × (r : DatabasePool) × (lock again (codes "u") ≡ ok r)
    × (r.watchers ≡ 0 ∷ [])
    × (o : OpenDatabase) × (lookup (codes "u") r.dbs ≡ some o)
    × (o.locked ≡ true)
    × (o.watcher ≡ none)
lock-open_database_again_example =
    lock-open_database_again pool_library pool again (codes "u") (codes "u") credential again-good
      opens (omega arith, tt)
