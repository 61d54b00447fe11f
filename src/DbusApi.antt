-- ===== src/DbusApi.antt =====
-- internal/dbusapi/dbusapi.go: the daemon's own interface on the session bus, for the command line
-- client. The bus' answer about the caller, gokeepasslib, the extraction of SSH keys and the SSH
-- library are parameters. Making and importing keys is not modelled.
pub mod Caller
pub mod Scan
pub mod Search
use kpxcd.Prelude.{
  ℕ, Bool, true, false, not, ◌&&◌, ◌||◌, List, [], ◌∷◌, ◌++◌, map, Option, none, some, ◌>>=◌, Bytes,
  codes, bytes_Eq, ◌==◌, null, nat_eq, if◌then◌else◌, keep,
}
use kpxcd.Prelude.Results.{Result, ok, err}
use kpxcd.Text.{Unicode, contains}
use kpxcd.Keepass.{Entry, Library, zero_uuid}
use kpxcd.Pool.Database.{Db, Content, RootData, OpenDatabase}
use kpxcd.Pool.Entries.{root_entries}
use kpxcd.Pool.Manage.{
  Credential, CredentialKind, credential_none, credential_password, credential_keyfile,
  DatabasePool, PoolLibrary, open_database, lock, lock_all, get, list,
}
use kpxcd.Ssh.Identity.{
  Key, LoadedKey, Identities, set_db_uuid, fingerprint, list_identities, add_identity,
  remove_identity, find_identity_by_fingerprint,
}

pub data ApiError : Type 0 where
  not_authorized invalid_credential secure_string_failed unsupported_credential open_failed
        lock_failed no_database database_locked no_entry empty_query not_implemented no_agent
        extract_failed no_key key_not_found sign_failed export_disabled :
      ApiError

-- The value of a credential: a text, or none.
abbrev pub Variant : Type 0
Variant = Option Bytes

pub record DatabaseInfo : Type 0 where
  pub uuid : Bytes
  pub name : Bytes
  pub path : Bytes
  pub locked : Bool

-- `db_uuid` is empty where the answer does not name the database.
pub record EntryInfo : Type 0 where
  pub title : Bytes
  pub username : Bytes
  pub url : Bytes
  pub uuid : Bytes
  pub db_uuid : Bytes

pub record KeyInfo : Type 0 where
  pub fingerprint : Bytes
  pub comment : Bytes
  pub type : Bytes
  pub entry_path : Bytes
  pub db_uuid : Bytes

-- A key that a scan has found in an entry.
pub record FoundKey : Type 0 where
  pub title : Bytes
  pub uuid : Bytes
  pub type : Bytes
  pub fingerprint : Bytes
  pub db_uuid : Bytes
  pub db_name : Bytes

pub data Reply : Type 0 where
  pong done : Reply
  databases : List DatabaseInfo → Reply
  entry : EntryInfo → Reply
  entries : List EntryInfo → Reply
  keys : List KeyInfo → Reply
  found_keys : List FoundKey → Reply
  signature : Bytes → Reply

-- The pool, and the SSH agent where the daemon runs one.
pub record State (S : Type 0) : Type 0 where
  pub pool : DatabasePool
  pub ssh_agent : Option (Identities S)

-- `extract` is `ExtractKeyFromEntry`: `none` for an error, and within it `none` for an entry
-- without a key. `sign` gives the marshalled signature.
pub record Environment (S : Type 0) : Type 0 where
  pub connected : Bool
  pub get_connection_unix_user : Bytes → Option ℕ
  pub own_uid : ℕ
  pub unicode : Unicode
  pub library : Library
  pub pool_library : PoolLibrary
  pub secures : Bytes → Bool
  pub extract : Entry → Option Db → Option (Option (Key S))
  pub digest : Bytes → Bytes
  pub sign : Key S → Bytes → Option Bytes
  pub remove_on_lock : Bool

-- The entries of a database outside its recycle bin.
unfoldable pub entries_of : OpenDatabase → List Entry
entries_of o = elim (o.db >>= λ db. db.content) [
  | none ↦ []
  | some content ↦ elim content.root [
    | none ↦ []
    | some root ↦
        root_entries root.groups
          (elim content.meta [ none ↦ zero_uuid | some m ↦ m.recycle_bin_uuid ])
  ]
]

module _ {S : Type 0} (env : Environment S) where
  abbrev pub Answer : Type 0
  Answer = State S × Result ApiError Reply

  unfoldable pub authorize : Bytes → Bool
  authorize sender =
      if env.connected
      then elim (env.get_connection_unix_user sender) [
        | none ↦ false
        | some uid ↦ nat_eq uid env.own_uid
      ]
      else null sender

  -- The first lines of every method.
  unfoldable pub authorized : Bytes → State S → Answer → Answer
  authorized sender st answer = if authorize sender then answer else (st, err not_authorized)

  content : Entry → Bytes → Bytes
  content e key = (env.library).get_content e.values key

  unfoldable pub entry_info : Bytes → Entry → EntryInfo
  unfolding content
  entry_info db_uuid e = record {
    title = content e (codes "Title");
    username = content e (codes "UserName");
    url = content e (codes "URL");
    uuid = e.uuid;
    db_uuid = db_uuid;
  }

  unfoldable pub list_databases : Bytes → State S → Answer
  list_databases sender st = authorized sender st (
    st,
    ok (
        databases (
          map (λ o. record { uuid = o.uuid; name = o.name; path = o.path; locked = o.locked })
            (list st.pool))),
  )

  unfoldable pub make_credential : Bytes → Variant → Result ApiError Credential
  make_credential type value =
      let plain : Credential = record {
        kind = credential_none;
        password = none;
        keyfile = [];
        slot = 0;
        name = [];
      } in
      if type == codes "password"
      then elim value [
        | none ↦ err invalid_credential
        | some pw ↦
            if env.secures pw
            then ok (record plain { kind = credential_password; password = some pw })
            else err secure_string_failed
      ]
      else if type == codes "keyfile"
      then elim value [
        | none ↦ err invalid_credential
        | some path ↦ ok (record plain { kind = credential_keyfile; keyfile = path })
      ]
      else if type == codes "none"
      then ok plain
      else err unsupported_credential

  unfoldable pub unlock_database : Bytes → Bytes → Bytes → Variant → State S → Answer
  unlock_database sender path type value st =
      authorized sender st (elim (make_credential type value) [
        | err e ↦ (st, err e)
        | ok cred ↦ elim (open_database env.pool_library st.pool path cred) [
          | err _ ↦ (st, err open_failed)
          | ok opened ↦ (record st { pool = opened.1 }, ok done)
        ]
      ])

  unfoldable pub lock_database : Bytes → Bytes → State S → Answer
  lock_database sender uuid st = authorized sender st (elim (lock st.pool uuid) [
    | err _ ↦ (st, err lock_failed)
    | ok pool ↦ (record st { pool = pool }, ok done)
  ])

  unfoldable pub lock_all_databases : Bytes → State S → Answer
  lock_all_databases sender st = authorized sender st (
      let locked = lock_all st.pool in
      (
        record st { pool = locked.0 },
        elim (locked.1) [ none ↦ ok done | some _ ↦ err lock_failed ],
      ))

  unfoldable pub find_path_in : List Entry → Bytes → Option Entry
  unfolding content
  find_path_in [] path = none
  find_path_in (e ∷ es) path =
      if content e (codes "Title") == path || content e (codes "UserName") == path
      then some e
      else find_path_in es path

  unfoldable pub find_entry_by_path : OpenDatabase → Bytes → Option Entry
  unfolding find_path_in
  find_entry_by_path o path = find_path_in (entries_of o) path

  -- The database that a method works on: one of the pool that is not locked.
  unfoldable pub open_one : Bytes → State S → Result ApiError OpenDatabase
  open_one uuid st = elim (get st.pool uuid) [
    | err _ ↦ err no_database
    | ok o ↦ if o.locked then err database_locked else ok o
  ]

  unfoldable pub get_entry : Bytes → Bytes → Bytes → State S → Answer
  get_entry sender uuid path st = authorized sender st (elim (open_one uuid st) [
    | err e ↦ (st, err e)
    | ok o ↦ elim (find_entry_by_path o path) [
      | none ↦ (st, err no_entry)
      | some e ↦ (st, ok (entry (entry_info [] e)))
    ]
  ])

  lowered : Entry → Bytes → Bytes → Bool
  unfolding content
  lowered e key query = contains ((env.unicode).lower (content e key)) ((env.unicode).lower query)

  unfoldable pub matches_query : Entry → Bytes → Bool
  unfolding lowered
  matches_query e query =
      lowered e (codes "Title") query
      || (lowered e (codes "UserName") query || lowered e (codes "URL") query)

  unfoldable pub search_each : Bytes → List OpenDatabase → List EntryInfo
  search_each query [] = []
  search_each query (o ∷ os) =
      let rest = search_each query os in
      if o.locked
      then rest
      else map (entry_info o.uuid) (keep (λ e. matches_query e query) (entries_of o)) ++ rest

  -- One database, or with an empty identifier all of them.
  unfoldable pub selected : Bytes → State S → Result ApiError (List OpenDatabase)
  selected uuid st =
      if null uuid
      then ok (list st.pool)
      else elim (get st.pool uuid) [ err _ ↦ err no_database | ok o ↦ ok (o ∷ []) ]

  unfoldable pub search_entries : Bytes → Bytes → Bytes → State S → Answer
  unfolding search_each
  search_entries sender uuid query st = authorized sender st (
      if null ((env.unicode).trim_space query)
      then (st, err empty_query)
      else elim (selected uuid st) [
        | err e ↦ (st, err e)
        | ok os ↦ (st, ok (entries (search_each query os)))
      ])

  -- TOTP codes, generated passwords and passphrases, and passkeys.
  unfoldable pub unimplemented : Bytes → State S → Answer
  unimplemented sender st = authorized sender st (st, err not_implemented)

  unfoldable pub key_info : LoadedKey S → KeyInfo
  key_info lk = record {
    fingerprint = fingerprint env.digest lk.key;
    comment = (lk.key).comment;
    type = (lk.key).format;
    entry_path = (lk.key).entry_uuid;
    db_uuid = lk.db_uuid;
  }

  unfoldable pub ssh_list_keys : Bytes → Bytes → State S → Answer
  ssh_list_keys sender uuid st = authorized sender st (elim st.ssh_agent [
    | none ↦ (st, err no_agent)
    | some m ↦ (
      st,
      ok (keys (map key_info (keep (λ lk. null uuid || lk.db_uuid == uuid) (list_identities m)))),
    )
  ])

  unfoldable pub add_extracted : OpenDatabase → ℕ → Bool → Entry → Identities S → State S → Answer
  add_extracted o lifetime confirm e m st = elim (env.extract e o.db) [
    | none ↦ (st, err extract_failed)
    | some none ↦ (st, err no_key)
    | some (some key) ↦ (
      record st {
        ssh_agent = some (
            add_identity env.digest (set_db_uuid o.uuid key) lifetime confirm env.remove_on_lock
              o.uuid key.entry_uuid m);
      },
      ok done,
    )
  ]

  unfoldable pub ssh_add_key : Bytes → Bytes → Bytes → ℕ → Bool → State S → Answer
  unfolding add_extracted
  ssh_add_key sender uuid path lifetime confirm st = authorized sender st (elim st.ssh_agent [
    | none ↦ (st, err no_agent)
    | some m ↦ elim (open_one uuid st) [
      | err e ↦ (st, err e)
      | ok o ↦ elim (find_entry_by_path o path) [
        | none ↦ (st, err no_entry)
        | some e ↦ add_extracted o lifetime confirm e m st
      ]
    ]
  ])

  unfoldable pub ssh_export_key : Bytes → Bytes → State S → Answer
  ssh_export_key sender fp st = authorized sender st (st, err export_disabled)

  unfoldable pub ssh_test_sign : Bytes → Bytes → Bytes → State S → Answer
  ssh_test_sign sender fp bytes st = authorized sender st (elim st.ssh_agent [
    | none ↦ (st, err no_agent)
    | some m ↦ elim (find_identity_by_fingerprint fp m) [
      | none ↦ (st, err key_not_found)
      | some lk ↦ elim (env.sign lk.key bytes) [
        | none ↦ (st, err sign_failed)
        | some sig ↦ (st, ok (signature sig))
      ]
    ]
  ])

  unfoldable pub ssh_remove_key : Bytes → Bytes → State S → Answer
  ssh_remove_key sender fp st = authorized sender st (elim st.ssh_agent [
    | none ↦ (st, err no_agent)
    | some m ↦ elim (remove_identity fp m) [
      | err _ ↦ (st, err key_not_found)
      | ok m' ↦ (record st { ssh_agent = some m' }, ok done)
    ]
  ])
