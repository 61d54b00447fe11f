-- ===== src/SecretService/Service.antt =====
-- internal/secretservice/service.go, with the parts of collection.go, item.go and access.go it
-- uses: the collections, sessions and aliases of the Secret Service. A pointer to an open database
-- is a number, and the heap says what it points at; the pool maps identifiers to pointers. The
-- order of a list stands for the unspecified order of `range` over a map. The service has been
-- exported; what it puts on the bus is not modelled.
pub mod Objects
pub mod Access
pub mod Requests
pub mod Secrets
pub mod Removal
pub mod Lifecycle
use kpxcd.Prelude.{
  ℕ, suc, ◌*◌, Bool, true, false, not, ◌&&◌, ◌||◌, List, [], ◌∷◌, ◌++◌, map, Option, none, some,
  ◌>>=◌, Bytes, codes, bytes_Eq, ◌==◌, null, nat_eq, if◌then◌else◌, lookup, insert, delete, is_some,
}
use kpxcd.Prelude.Results.{Result, ok, err}
use kpxcd.Text.{Unicode}
use kpxcd.Keepass.{Entry, Library, zero_uuid}
use kpxcd.Config.{DatabaseConfig}
use kpxcd.Pool.Database.{Content, Db, OpenDatabase}
use kpxcd.Pool.Wipe.{wipe_database_content}
use kpxcd.Pool.Manage.{
  Event, EventType, database_unlocked, database_locked, database_reloaded, database_error,
}
use kpxcd.SecretService.Entries.{collect_entries_visible}
use kpxcd.SecretService.NotifyCache.{Cache, CallerInfo, allow, notify_cache_key}
use kpxcd.SecretService.Session.{Session}
use kpxcd.SecretService.Paths.{collection_path, alias_path, prompt_path}

-- The parts that the service reads; a lifetime that is not positive is 0.
pub record SecretServiceConfig : Type 0 where
  pub notify_on_access : Bool
  pub notify_cache_ttl : ℕ
  pub require_confirmation : Bool

pub record Collection : Type 0 where
  pub path : Bytes
  pub db : ℕ

pub record SecretService : Type 0 where
  pub config : SecretServiceConfig
  pub database_configs : List DatabaseConfig
  pub collections : List (Bytes × Collection)
  pub sessions : List (Bytes × Session)
  pub aliases : List (Bytes × Bytes)
  pub notify_cache : Cache
  pub next_id : ℕ

unfoldable pub new_secret_service : SecretServiceConfig → SecretService
new_secret_service cfg = record {
  config = cfg;
  database_configs = [];
  collections = [];
  sessions = [];
  aliases = [];
  notify_cache = [];
  next_id = 0;
}

unfoldable pub update_config : SecretServiceConfig → SecretService → SecretService
update_config cfg ss = record ss { config = cfg }

unfoldable pub update_database_configs : List DatabaseConfig → SecretService → SecretService
update_database_configs dbs ss = record ss { database_configs = dbs }

-- The open databases: what pointers point at, and the pool's map from identifiers to pointers.
pub record Databases : Type 0 where
  pub heap : ℕ → OpenDatabase
  pub dbs : List (Bytes × ℕ)

unfoldable pub expose_group : List DatabaseConfig → OpenDatabase → Bytes
expose_group [] odb = []
expose_group (cfg ∷ cfgs) odb =
    if cfg.path == odb.path || cfg.name == odb.name
    then cfg.secret_service_expose_group
    else expose_group cfgs odb

module _ (u : Unicode) where
  unfoldable pub collect_entries_for_db : SecretService → OpenDatabase → List Entry
  collect_entries_for_db ss odb = elim (odb.db >>= λ db. db.content) [
    | none ↦ []
    | some content ↦ elim content.root [
      | none ↦ []
      | some root ↦
          collect_entries_visible u root.groups
            (elim content.meta [ none ↦ zero_uuid | some meta ↦ meta.recycle_bin_uuid ])
            (expose_group ss.database_configs odb)
    ]
  ]

  -- The guard of every loop over the collections: nothing of a locked or missing database.
  unfoldable pub open_entries : SecretService → OpenDatabase → List Entry
  unfolding collect_entries_for_db
  open_entries ss odb = if odb.locked then [] else collect_entries_for_db ss odb

-- The collection, under its path, and the alias "default" if nothing has it.
unfoldable pub create_collection : Databases → ℕ → SecretService → SecretService
create_collection d p ss =
    let path = collection_path (d.heap p).name in
    record ss {
      collections = insert path (record { path = path; db = p }) ss.collections;
      aliases =
          (if is_some (lookup (codes "default") ss.aliases)
            then ss.aliases
            else insert (codes "default") path ss.aliases);
    }

unfoldable pub seed_each : Databases → List (Bytes × ℕ) → SecretService → SecretService
seed_each d [] ss = ss
seed_each d ((uuid, p) ∷ dbs) ss =
    seed_each d dbs (if (d.heap p).locked then ss else create_collection d p ss)

unfoldable pub seed_collections : Databases → SecretService → SecretService
seed_collections d ss = seed_each d d.dbs ss

unfoldable pub on_database_unlocked : Databases → Bytes → SecretService → SecretService
on_database_unlocked d uuid ss = elim (lookup uuid d.dbs) [
  | none ↦ ss
  | some p ↦ create_collection d p ss
]

-- The loop removes keys of the map it ranges over, which Go defines.
unfoldable pub remove_collections :
    Databases → Bytes → List (Bytes × Collection) → List (Bytes × Collection)
remove_collections d uuid [] = []
remove_collections d uuid ((path, coll) ∷ cs) =
    let rest = remove_collections d uuid cs in
    if (d.heap coll.db).uuid == uuid then rest else (path, coll) ∷ rest

unfoldable pub on_database_locked : Databases → Bytes → SecretService → SecretService
on_database_locked d uuid ss = record ss { collections = remove_collections d uuid ss.collections }

-- The same loop, left after the first removal.
unfoldable pub remove_first_collection :
    Databases → Bytes → List (Bytes × Collection) → List (Bytes × Collection)
remove_first_collection d uuid [] = []
remove_first_collection d uuid ((path, coll) ∷ cs) =
    if (d.heap coll.db).uuid == uuid then cs else (path, coll) ∷ remove_first_collection d uuid cs

unfoldable pub on_database_reloaded : Databases → Bytes → SecretService → SecretService
on_database_reloaded d uuid ss = elim (lookup uuid d.dbs) [
  | none ↦ ss
  | some p ↦
      let removed = record ss { collections = remove_first_collection d uuid ss.collections } in
      if (d.heap p).locked then removed else create_collection d p removed
]

unfoldable pub handle_pool_event : Databases → Event → SecretService → SecretService
handle_pool_event d evt ss = elim evt.type [
  | database_unlocked ↦ on_database_unlocked d evt.uuid ss
  | database_locked ↦ on_database_locked d evt.uuid ss
  | database_reloaded ↦ on_database_reloaded d evt.uuid ss
  | database_error ↦ ss
]

unfoldable pub next_prompt : SecretService → Bytes × SecretService
next_prompt ss = (prompt_path ss.next_id, record ss { next_id = suc ss.next_id })
