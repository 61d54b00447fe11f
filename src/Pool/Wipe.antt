-- ===== src/Pool/Wipe.antt =====
-- internal/dbpool/wipe.go: what locking removes from the memory of a database. The byte slices of
-- the credentials are overwritten before the pointer is dropped; here they are gone with it.
pub mod Blank
use kpxcd.Prelude.{ℕ, List, [], ◌∷◌, map, Option, none, some, ◌>>=◌, Bytes, ◌≡◌, refl, arith, All}
use kpxcd.Keepass.{Value, Version, Entry, GroupData, Groups, leaf, group, all_entries}
use kpxcd.Pool.Database.{Credentials, Meta, RootData, Content, Db}

unfoldable pub wipe_custom_data : List Bytes → List Bytes
wipe_custom_data items = map (λ item. []) items

unfoldable pub wipe_value : Value → Value
wipe_value v = record v { content = [] }

-- An entry's own part; versions of the history are entries without a history.
unfoldable pub wipe_version : Version → Version
wipe_version v = record v {
  foreground = [];
  background = [];
  override_url = [];
  tags = [];
  values = map wipe_value v.values;
  binary_names = map (λ name. []) v.binary_names;
  custom_values = wipe_custom_data v.custom_values;
}

unfoldable pub wipe_entry : Entry → Entry
wipe_entry e = record {
  version = wipe_version e.version;
  histories = map (map wipe_version) e.histories;
}

unfoldable pub wipe_groups : Groups → Groups
wipe_groups leaf = leaf
wipe_groups (group g es children rest) =
    group (record g { name = []; notes = []; last_top_visible = [] }) (map wipe_entry es)
      (wipe_groups children) (wipe_groups rest)

unfoldable pub wipe_meta : Meta → Meta
wipe_meta m = record m {
  binaries = map (λ b. []) m.binaries;
  custom_data = wipe_custom_data m.custom_data;
  default_user_name = [];
}

-- `none` is the panic on a content without a root.
unfoldable pub wipe_content : Content → Option Content
wipe_content content = elim content.root [
  | none ↦ none
  | some root ↦ some record {
    meta = (content.meta >>= λ m. some (wipe_meta m));
    root = some (record root { groups = wipe_groups root.groups });
  }
]

unfoldable pub wipe_database_content : Option Db → Option (Option Db)
wipe_database_content none = some none
wipe_database_content (some db) = elim db.content [
  | none ↦ some (some (record db { credentials = none }))
  | some content ↦ wipe_content content >>= λ wiped.
      some (some record { credentials = none; content = some wiped })
]
