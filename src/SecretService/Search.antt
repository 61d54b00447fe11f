-- ===== src/SecretService/Search.antt =====
-- internal/secretservice/attributes.go: the attributes of an entry and the search for them. A Go
-- map of attributes is an association list; a database's groups are taken with its root there.
pub mod Matching
use kpxcd.Prelude.{
  Bool, true, false, ◌||◌, List, [], ◌∷◌, ◌++◌, Option, none, some, ◌>>=◌, Bytes, codes, bytes_Eq,
  ◌==◌, null, if◌then◌else◌, insert,
}
use kpxcd.Text.{Unicode, equal_fold, has_prefix, contains, trim_prefix}
use kpxcd.Keepass.{Value, Entry, Library, zero_uuid}
use kpxcd.Pool.Database.{Content, Db, OpenDatabase}
use kpxcd.SecretService.Entries.{collect_entries}

abbrev pub attr_title : Bytes
attr_title = codes "title"

abbrev pub attr_user_name : Bytes
attr_user_name = codes "UserName"

abbrev pub attr_url : Bytes
attr_url = codes "URL"

abbrev pub attr_notes : Bytes
attr_notes = codes "Notes"

abbrev pub attr_db_name : Bytes
attr_db_name = codes "kpxcd:dbname"

abbrev pub attr_db_uuid : Bytes
attr_db_uuid = codes "kpxcd:dbuuid"

abbrev pub attr_custom_prefix : Bytes
attr_custom_prefix = codes "custom:"

module _ (u : Unicode) (lib : Library) where
  content : Entry → Bytes → Bytes
  content entry key = lib.get_content entry.values key

  unfoldable pub entry_attributes : OpenDatabase → Entry → List (Bytes × Bytes)
  unfolding content
  entry_attributes odb entry = insert attr_url (content entry (codes "URL")) (
      insert attr_user_name (content entry (codes "UserName")) (
        insert attr_title (content entry (codes "Title"))
          (insert attr_db_uuid odb.uuid (insert attr_db_name odb.name []))))

  -- The match of the first value with the key, or `none` without one.
  unfoldable pub match_exact_entry_attribute : List Value → Bytes → Bytes → Option Bool
  match_exact_entry_attribute [] key value = none
  match_exact_entry_attribute (v ∷ vs) key value =
      if v.key == key
      then some (equal_fold u v.content value)
      else match_exact_entry_attribute vs key value

  -- The loop for a custom attribute: any value with the key.
  unfoldable pub match_custom : List Value → Bytes → Bytes → Bool
  match_custom [] key value = false
  match_custom (v ∷ vs) key value =
      if v.key == key
      then equal_fold u v.content value || match_custom vs key value
      else match_custom vs key value

  unfoldable pub contains_folded : Bytes → Bytes → Bool
  contains_folded text part = contains (u.lower text) (u.lower part)

  -- The keys that the `default` case of the switch gets.
  unfoldable pub match_other : Entry → Bytes → Bytes → Bool
  match_other entry key value =
      if has_prefix key attr_custom_prefix
      then match_custom entry.values (trim_prefix key attr_custom_prefix) value
      else elim (match_exact_entry_attribute entry.values key value) [
        | some matched ↦ matched
        | none ↦ false
      ]

  unfoldable pub match_attribute : Entry → OpenDatabase → Bytes → Bytes → Bool
  unfolding content contains_folded
  match_attribute entry odb key value =
      if key == attr_title
      then equal_fold u (content entry (codes "Title")) value
        || contains_folded (content entry (codes "Title")) value
      else if key == attr_user_name
      then equal_fold u (content entry (codes "UserName")) value
      else if key == codes "username"
      then elim (match_exact_entry_attribute entry.values key value) [
        | some matched ↦ matched
        | none ↦ equal_fold u (content entry (codes "UserName")) value
      ]
      else if key == attr_url
      then equal_fold u (content entry (codes "URL")) value
        || contains_folded (content entry (codes "URL")) value
      else if key == codes "url"
      then elim (match_exact_entry_attribute entry.values key value) [
        | some matched ↦ matched
        | none ↦ equal_fold u (content entry (codes "URL")) value
      ]
      else if key == attr_notes
      then contains_folded (content entry (codes "Notes")) value
      else if key == attr_db_name
      then equal_fold u odb.name value
      else if key == attr_db_uuid
      then equal_fold u odb.uuid value
      else match_other entry key value

  unfoldable pub match_attributes : Entry → OpenDatabase → List (Bytes × Bytes) → Bool
  match_attributes entry odb [] = true
  match_attributes entry odb ((key, value) ∷ attributes) =
      if match_attribute entry odb key value then match_attributes entry odb attributes else false

  -- The groups of an unlocked database with their recycle bin; nothing of one that is skipped. On
  -- content with a nil root the source panics; here it has nothing.
  unfoldable pub searched : OpenDatabase → List Entry
  searched odb = if odb.locked then [] else elim (odb.db >>= λ db. db.content) [
    | none ↦ []
    | some c ↦ elim c.root [
      | none ↦ []
      | some root ↦
          collect_entries u root.groups
            (elim c.meta [ none ↦ zero_uuid | some meta ↦ meta.recycle_bin_uuid ])
    ]
  ]

  unfoldable pub matching :
      OpenDatabase → List (Bytes × Bytes) → List Entry → List (OpenDatabase × Entry)
  matching odb attributes [] = []
  matching odb attributes (entry ∷ entries) =
      if match_attributes entry odb attributes
      then (odb, entry) ∷ matching odb attributes entries
      else matching odb attributes entries

  unfoldable pub search_each :
      List (Bytes × Bytes) → List OpenDatabase → List (OpenDatabase × Entry)
  search_each attributes [] = []
  search_each attributes (odb ∷ dbs) =
      matching odb attributes (searched odb) ++ search_each attributes dbs

  unfoldable pub search_entries :
      List OpenDatabase → List (Bytes × Bytes) → List (OpenDatabase × Entry)
  search_entries dbs [] = []
  search_entries dbs (a ∷ attributes) = search_each (a ∷ attributes) dbs
