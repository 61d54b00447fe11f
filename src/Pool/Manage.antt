-- ===== src/Pool/Manage.antt =====
-- internal/dbpool/pool.go: the pool of databases, its events and its file watchers. A watcher is
-- the number of a goroutine; cancelling it waits for its end. The pool's lock makes each operation
-- one step; `LockAll` releases it between the databases.
pub mod Locking
pub mod Opening
use kpxcd.Prelude.{
  ℕ, suc, ◌+◌, Bool, true, false, not, ◌&&◌, List, [], ◌∷◌, ◌++◌, map, Option, none, some, ◌>>=◌,
  Bytes, bytes_Eq, length, take, keep, nat_eq, ltb, if◌then◌else◌, ◌==◌, lookup, insert,
}
use kpxcd.Prelude.Results.{Result, ok, err}
use kpxcd.Keepass.{Groups, leaf, group, zero_uuid}
use kpxcd.Pool.Database.{Credentials, RootData, Content, Db, FileFingerprint, OpenDatabase}
use kpxcd.Pool.Wipe.{wipe_database_content}

pub data CredentialKind : Type 0 where
  credential_none credential_password credential_keyfile credential_password_and_keyfile
        credential_yubikey credential_systemd :
      CredentialKind

pub record Credential : Type 0 where
  pub kind : CredentialKind
  pub password : Option Bytes
  pub keyfile : Bytes
  pub slot : ℕ
  pub name : Bytes

pub data EventType : Type 0 where
  database_unlocked database_locked database_reloaded database_error : EventType

pub record Event : Type 0 where
  pub type : EventType
  pub uuid : Bytes
  pub name : Bytes
  pub path : Bytes

-- The channel of events: `none` for nil, else what waits in it, up to the capacity.
pub record DatabasePool : Type 0 where
  pub dbs : List (Bytes × OpenDatabase)
  pub events : Option (List Event)
  pub capacity : ℕ
  pub watchers : List ℕ
  pub next_watcher : ℕ

pub data PoolError : Type 0 where
  open_failed keyfile_failed decode_failed unlock_failed fingerprint_failed not_found : PoolError
  -- A nil dereference.
  panic : PoolError

-- The file system, gokeepasslib and the hash functions, as `Open` calls them.
pub record PoolLibrary : Type 0 where
  pub can_open : Bytes → Bool
  pub base : Bytes → Bytes
  pub fingerprint_file : Bytes → Option FileFingerprint
  pub new_password_credentials : Bytes → Credentials
  pub new_key_credentials : Bytes → Option Credentials
  pub new_password_and_key_credentials : Bytes → Bytes → Option Credentials
  pub decode : Bytes → Option Credentials → Option Db
  pub unlock_protected_entries : Db → Option Db
  pub marshal_uuid : Bytes → Bytes
  pub path_digest : Bytes → Bytes

unfoldable pub new_database_pool : ℕ → Option (List Event) → DatabasePool
new_database_pool capacity events = record {
  dbs = [];
  events = events;
  capacity = capacity;
  watchers = [];
  next_watcher = 0;
}

-- `select` with a `default`: a full channel drops the event.
unfoldable pub send : ℕ → Event → Option (List Event) → Option (List Event)
send capacity event none = none
send capacity event (some waiting) =
    some (if ltb (length waiting) capacity then waiting ++ event ∷ [] else waiting)

module _ (lib : PoolLibrary) where
  unfoldable pub build_credentials : Credential → Result PoolError (Option Credentials)
  build_credentials cred = elim cred.kind [
    | credential_password ↦ elim cred.password [
      | none ↦ ok none
      | some pw ↦ ok (some (lib.new_password_credentials pw))
    ]
    | credential_keyfile ↦ elim (lib.new_key_credentials cred.keyfile) [
      | none ↦ err keyfile_failed
      | some c ↦ ok (some c)
    ]
    | credential_password_and_keyfile ↦
        elim (lib.new_password_and_key_credentials (elim cred.password [ none ↦ [] | some pw ↦ pw ])
          cred.keyfile) [ none ↦ err keyfile_failed | some c ↦ ok (some c) ]
    | _ ↦ ok none
  ]

  -- The identifier of the first root group, unless it is zero or missing.
  unfoldable pub root_uuid : Groups → Bytes → Bytes
  root_uuid leaf path = lib.path_digest path
  root_uuid (group g es children rest) path =
      if g.uuid == zero_uuid then lib.path_digest path else lib.marshal_uuid g.uuid

  unfoldable pub extract_uuid : Db → Bytes → Bytes
  extract_uuid db path = elim (db.content >>= λ content. content.root) [
    | none ↦ lib.path_digest path
    | some root ↦ root_uuid root.groups path
  ]

  -- Everything that `Open` reads before it changes the pool.
  unfoldable pub load : Bytes → Credential → Result PoolError (Db × FileFingerprint)
  load path cred =
      if lib.can_open path
      then elim (build_credentials cred) [
        | err e ↦ err e
        | ok creds ↦ elim (lib.decode path creds) [
          | none ↦ err decode_failed
          | some raw ↦ elim (lib.unlock_protected_entries raw) [
            | none ↦ err unlock_failed
            | some db ↦ elim (lib.fingerprint_file path) [
              | none ↦ err fingerprint_failed
              | some fp ↦ ok (db, fp)
            ]
          ]
        ]
      ]
      else err open_failed

  -- The pool with a freshly opened database in the place of any other under the same identifier.
  unfoldable pub add : DatabasePool → Bytes → Db → FileFingerprint → Bytes × DatabasePool
  add p path db fp =
      let uuid = extract_uuid db path in
      let name = lib.base path in
      let event : Event = record {
        type = database_unlocked;
        uuid = uuid;
        name = name;
        path = path;
      } in
      (
        uuid,
        record p {
          dbs =
              insert uuid
                record {
                  uuid = uuid;
                  name = name;
                  path = path;
                  locked = false;
                  db = some db;
                  fingerprint = fp;
                  watcher = some p.next_watcher;
                }
                p.dbs;
          events = send p.capacity event p.events;
          watchers = p.next_watcher ∷ p.watchers;
          next_watcher = suc p.next_watcher;
        },
      )

  unfoldable pub open_database :
      DatabasePool → Bytes → Credential → Result PoolError (Bytes × DatabasePool)
  open_database p path cred = elim (load path cred) [
    | err e ↦ err e
    | ok loaded ↦ ok (add p path (loaded.0) (loaded.1))
  ]

unfoldable pub cancel : Option ℕ → List ℕ → List ℕ
cancel none running = running
cancel (some w) running = keep (λ v. not (nat_eq v w)) running

unfoldable pub lock : DatabasePool → Bytes → Result PoolError DatabasePool
lock p uuid = elim (lookup uuid p.dbs) [
  | none ↦ err not_found
  | some odb ↦ elim (wipe_database_content odb.db) [
    | none ↦ err panic
    | some wiped ↦
        let event : Event = record {
          type = database_locked;
          uuid = uuid;
          name = odb.name;
          path = odb.path;
        } in
        ok record p {
          dbs = insert uuid (record odb { db = none; locked = true; watcher = none }) p.dbs;
          events = send p.capacity event p.events;
          watchers = cancel odb.watcher p.watchers;
        }
  ]
]

-- The identifiers that `LockAll` collects.
unfoldable pub unlocked_uuids : List (Bytes × OpenDatabase) → List Bytes
unlocked_uuids [] = []
unlocked_uuids ((uuid, odb) ∷ dbs) =
    if odb.locked then unlocked_uuids dbs else uuid ∷ unlocked_uuids dbs

unfoldable pub first_error : Option PoolError → PoolError → Option PoolError
first_error none e = some e
first_error (some f) e = some f

-- The loop over them, with the first error so far.
unfoldable pub lock_each :
    DatabasePool → List Bytes → Option PoolError → DatabasePool × Option PoolError
lock_each p [] first = (p, first)
lock_each p (uuid ∷ uuids) first = elim (lock p uuid) [
  | ok q ↦ lock_each q uuids first
  | err e ↦ lock_each p uuids (first_error first e)
]

unfoldable pub lock_all : DatabasePool → DatabasePool × Option PoolError
lock_all p = lock_each p (unlocked_uuids p.dbs) none

unfoldable pub get : DatabasePool → Bytes → Result PoolError OpenDatabase
get p uuid = elim (lookup uuid p.dbs) [ none ↦ err not_found | some odb ↦ ok odb ]

unfoldable pub list : DatabasePool → List OpenDatabase
list p = map (λ entry. entry.1) p.dbs

unfoldable pub close : DatabasePool → DatabasePool × Option PoolError
close p = let closed = lock_all p in (record closed.0 { dbs = [] }, closed.1)
