-- ===== src/SecretService/Items/Store.antt =====
-- internal/secretservice/collection.go and item.go: the requests that write a database's file. The
-- service's sessions are checked first; the signals about the change are not modelled.
pub mod Success
use kpxcd.Prelude.{
  ℕ, Bool, true, false, not, ◌&&◌, List, [], ◌∷◌, ◌++◌, Option, none, some, ◌>>=◌, Bytes, codes,
  bytes_Eq, ◌==◌, null, if◌then◌else◌, is_some,
}
use kpxcd.Prelude.Results.{Result, ok, err}
use kpxcd.Text.{Unicode}
use kpxcd.Keepass.{Value, Version, Entry, GroupData, Groups, leaf, group, Library, zero_uuid}
use kpxcd.Pool.Database.{RootData, Content, Db, Disk, OpenDatabase}
use kpxcd.Pool.Save.{SaveLibrary, World, SaveError, Updated, update_and_save}
use kpxcd.SecretService.Session.{Cipher}
use kpxcd.SecretService.Write.{
  HistoryLimits, append_history, set_entry_value, update_modification_time, remove_entry_by_uuid,
  update_entry_by_uuid, find_entry_by_uuid,
}
use kpxcd.SecretService.Paths.{item_path_for_entry}
use kpxcd.SecretService.Service.{SecretService, Databases, expose_group}
use kpxcd.SecretService.Service.Objects.{Item, refresh}
use kpxcd.SecretService.Service.Requests.{
  DbusError, no_session, no_such_object, is_locked, validate_session, decrypt_secret,
}
use kpxcd.SecretService.Service.Secrets.{DbusSecret}
use kpxcd.SecretService.Items.{
  Attributes, PropertyValue, property_string, property_attributes, Names,
  match_attributes_for_write, apply_entry_fields, change_matching_visible, add_to_exposed,
  add_to_named,
}

-- The libraries, with what gokeepasslib makes afresh, the history limits that it reads from the
-- metadata, the clock, and what surrounds the save.
pub record Environment : Type 0 where
  pub unicode : Unicode
  pub library : Library
  pub cipher : Cipher
  pub clone : Version → Version
  pub limits : Db → Option HistoryLimits
  pub new_entry : Entry
  pub new_group : GroupData
  pub new_root_group : GroupData
  pub new_root_data : RootData
  pub now : ℕ
  pub save : SaveLibrary
  pub world : World

-- What a write leaves: the answer, the disk and the database.
pub record Written (A : Type 0) : Type 0 where
  pub answer : Result DbusError A
  pub disk : Disk
  pub database : OpenDatabase

unfoldable pub with_groups : Db → Content → RootData → Groups → Db
with_groups db content root groups = record db {
  content = some (record content { root = some (record root { groups = groups }) });
}

unfoldable pub recycle_bin_uuid : Content → Bytes
recycle_bin_uuid content = elim content.meta [ none ↦ zero_uuid | some m ↦ m.recycle_bin_uuid ]

module _ (env : Environment) where
  -- The entry under its history, with the new fields.
  unfoldable pub replaced_entry : Db → Bytes → Attributes → Bytes → Entry → Entry
  replaced_entry db label attrs secret entry = update_modification_time env.now (
      apply_entry_fields env.unicode env.library env.now
        (append_history env.clone (env.limits db) entry) label attrs secret)

  unfoldable pub replace_item :
      OpenDatabase
      → Bytes
      → Db
      → Content
      → RootData
      → Bytes
      → Attributes
      → Bytes
      → Option (Db × Entry)
  unfolding replaced_entry
  replace_item o expose db content root label attrs secret =
      let names : Names = record { name = o.name; uuid = o.uuid } in
      elim (change_matching_visible env.unicode
        (λ e. match_attributes_for_write env.unicode env.library e names attrs)
        (replaced_entry db label attrs secret) root.groups (recycle_bin_uuid content) expose
        false) [
          | none ↦ none
          | some (groups, entry) ↦ some (with_groups db content root groups, entry)
        ]

  -- The first group of the root is made where it is missing.
  unfoldable pub add_to_secret_service_group : Entry → Groups → Groups
  add_to_secret_service_group entry leaf =
      group (record (env.new_root_group) { name = codes "Root" }) []
        (add_to_named env.new_group entry leaf) leaf
  add_to_secret_service_group entry (group g es children rest) =
      group g es (add_to_named env.new_group entry children) rest

  -- A new item. Without a root an exposed group is a nil dereference, which is `none` like the error
  -- about a group that is not found.
  unfoldable pub add_item : Bytes → Db → Content → Entry → Option (Db × Entry)
  unfolding add_to_secret_service_group
  add_item expose db content entry =
      if null expose
      then (let root : RootData = elim content.root [
        | none ↦ env.new_root_data
        | some root ↦ root
      ] in
          some (with_groups db content root (add_to_secret_service_group entry root.groups), entry))
      else elim content.root [
        | none ↦ none
        | some root ↦
            elim (add_to_exposed env.unicode entry root.groups (recycle_bin_uuid content) expose) [
              | none ↦ none
              | some groups ↦ some (with_groups db content root groups, entry)
            ]
      ]

  unfoldable pub create_or_replace :
      OpenDatabase → Bytes → Bool → Bytes → Attributes → Bytes → Db → Content → Option (Db × Entry)
  unfolding replace_item add_item
  create_or_replace o expose replace label attrs secret db content =
      let fresh =
        apply_entry_fields env.unicode env.library env.now env.new_entry label attrs secret in
      let added = add_item expose db content fresh in
      if replace && not (null attrs)
      then elim content.root [
        | none ↦ none
        | some root ↦ elim (replace_item o expose db content root label attrs secret) [
          | some stored ↦ some stored
          | none ↦ added
        ]
      ]
      else added

  -- A change of a database that may fail, as `UpdateAndSave` takes it.
  unfoldable pub applied : Db → Option Db → Db × Bool
  applied db none = (db, false)
  applied db (some changed) = (changed, true)

  unfoldable pub on_content : {A : Type 0} → (Db → Content → Option A) → Db → Option A
  on_content store db = db.content >>= store db

  answered : {A : Type 0} → OpenDatabase → Updated → (Db → Option A) → Written A
  answered o u value = record {
    answer = (elim u.error [
      | some _ ↦ err is_locked
      | none ↦ elim (o.db >>= value) [ none ↦ err is_locked | some a ↦ ok a ]
    ]);
    disk = u.disk;
    database = u.database;
  }

  unfoldable pub create_item :
      SecretService
      → OpenDatabase
      → Disk
      → List (Bytes × PropertyValue)
      → DbusSecret
      → Bool
      → Written Bytes
  unfolding create_or_replace applied on_content answered
  create_item ss o d properties secret replace = elim (validate_session ss secret.session) [
    | err _ ↦ record { answer = err no_session; disk = d; database = o }
    | ok _ ↦ elim (decrypt_secret env.cipher ss secret.session secret.parameters secret.value) [
      | err _ ↦ record { answer = err no_session; disk = d; database = o }
      | ok plaintext ↦
          let label = property_string properties (codes "Label") in
          let attrs = property_attributes properties in
          let store = on_content (
            create_or_replace o (expose_group ss.database_configs o) replace label attrs
              plaintext) in
          answered o
            (update_and_save env.save env.world o d
              (λ db. applied db (store db >>= λ stored. some stored.0)))
            (λ db. store db >>= λ stored. some (item_path_for_entry o.name stored.1))
    ]
  ]

  unfoldable pub in_groups : (Groups → Option Groups) → Db → Content → Option Db
  in_groups change db content = content.root >>= λ root.
      change root.groups >>= λ groups. some (with_groups db content root groups)

  -- Without a root the removal is a nil dereference, which is `none` like an item not found.
  unfoldable pub delete_item : Databases → SecretService → Disk → Item → Written (Unit {0})
  unfolding applied on_content answered in_groups
  delete_item ds ss d item =
      let o = ds.heap (item.coll).db in
      elim (refresh env.unicode ds ss item) [
        | none ↦ record { answer = err no_such_object; disk = d; database = o }
        | some _ ↦
            let store = on_content (in_groups (λ gs. remove_entry_by_uuid gs item.entry_uuid)) in
            answered o (update_and_save env.save env.world o d (λ db. applied db (store db)))
              (λ db. store db >>= λ _. some tt)
      ]

  unfoldable pub set_password : Db → Bytes → Entry → Entry
  set_password db secret entry = update_modification_time env.now (
      set_entry_value env.library (append_history env.clone (env.limits db) entry)
        (codes "Password") secret true)

  unfoldable pub set_secret :
      Databases → SecretService → Disk → Item → DbusSecret → Written (Unit {0})
  unfolding applied on_content answered in_groups set_password
  set_secret ds ss d item secret =
      let o = ds.heap (item.coll).db in
      elim (validate_session ss secret.session) [
        | err _ ↦ record { answer = err no_session; disk = d; database = o }
        | ok _ ↦ elim (decrypt_secret env.cipher ss secret.session secret.parameters secret.value) [
          | err _ ↦ record { answer = err no_session; disk = d; database = o }
          | ok plaintext ↦ elim (refresh env.unicode ds ss item) [
            | none ↦ record { answer = err no_such_object; disk = d; database = o }
            | some _ ↦
                let store = on_content (λ db.
                  in_groups
                    (λ gs. update_entry_by_uuid (set_password db plaintext) gs item.entry_uuid)
                    db) in
                answered o (update_and_save env.save env.world o d (λ db. applied db (store db)))
                  (λ db. store db >>= λ _. some tt)
          ]
        ]
      ]
