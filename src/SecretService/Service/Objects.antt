-- ===== src/SecretService/Service/Objects.antt =====
-- internal/secretservice/service.go, item.go and collection.go: what object paths stand for, the
-- items of collections, and the search in all of them.
use kpxcd.Prelude.{
  List, [], ◌∷◌, ◌++◌, map, Option, none, some, Bytes, bytes_Eq, ◌==◌, if◌then◌else◌, lookup, keep,
}
use kpxcd.Text.{Unicode}
use kpxcd.Keepass.{Entry, Library}
use kpxcd.SecretService.Search.{match_attributes}
use kpxcd.SecretService.Write.{entry_uuid_string}
use kpxcd.SecretService.Paths.{item_path_for_entry, alias_path}
use kpxcd.SecretService.Service.{
  Collection, SecretService, Databases, collect_entries_for_db, open_entries,
}

pub record Item : Type 0 where
  pub path : Bytes
  pub coll : Collection
  pub entry : Entry
  pub entry_uuid : Bytes

unfoldable pub new_item : Databases → Collection → Entry → Item
new_item d coll entry = record {
  path = item_path_for_entry ((d.heap coll.db).name) entry;
  coll = coll;
  entry = entry;
  entry_uuid = entry_uuid_string entry;
}

-- The loop over the aliases: a fitting alias of a missing collection is passed over.
unfoldable pub resolve_alias :
    Bytes → List (Bytes × Collection) → List (Bytes × Bytes) → Option Collection
resolve_alias path cs [] = none
resolve_alias path cs ((alias, target) ∷ aliases) =
    let later = resolve_alias path cs aliases in
    if alias_path alias == path
    then elim (lookup target cs) [ some coll ↦ some coll | none ↦ later ]
    else later

unfoldable pub get_collection_by_path : SecretService → Bytes → Option Collection
get_collection_by_path ss path = elim (lookup path ss.collections) [
  | some coll ↦ some coll
  | none ↦ resolve_alias path ss.collections ss.aliases
]

-- The loop over the entries of one database.
unfoldable pub find_item : Databases → Collection → Bytes → List Entry → Option Item
find_item d coll path [] = none
find_item d coll path (entry ∷ entries) =
    if item_path_for_entry ((d.heap coll.db).name) entry == path
    then some (new_item d coll entry)
    else find_item d coll path entries

unfoldable pub find_entry : Bytes → List Entry → Option Entry
find_entry uuid [] = none
find_entry uuid (entry ∷ entries) =
    if entry_uuid_string entry == uuid then some entry else find_entry uuid entries

module _ (u : Unicode) (d : Databases) where
  unfoldable pub items_in : SecretService → Collection → List Item
  items_in ss coll = map (new_item d coll) (open_entries u ss (d.heap coll.db))

  unfoldable pub items_for_collection : SecretService → Bytes → List Item
  unfolding items_in
  items_for_collection ss path = elim (lookup path ss.collections) [
    | none ↦ []
    | some coll ↦ items_in ss coll
  ]

  -- The property "Items" of a collection, which asks the service for the items under its path.
  unfoldable pub collection_items : SecretService → Collection → List Bytes
  collection_items ss coll =
      if (d.heap coll.db).locked
      then []
      else map (λ item. item.path) (items_for_collection ss coll.path)

  unfoldable pub find_in_collections :
      SecretService → Bytes → List (Bytes × Collection) → Option Item
  find_in_collections ss path [] = none
  find_in_collections ss path ((_, coll) ∷ cs) =
      let later = find_in_collections ss path cs in
      elim (find_item d coll path (open_entries u ss (d.heap coll.db))) [
        | some item ↦ some item
        | none ↦ later
      ]

  unfoldable pub get_item_by_path : SecretService → Bytes → Option Item
  unfolding find_in_collections
  get_item_by_path ss path = find_in_collections ss path ss.collections

  -- The item with the entry as the database has it now; `none` if the entry is gone.
  unfoldable pub refresh : SecretService → Item → Option Item
  refresh ss item =
      elim (find_entry item.entry_uuid (collect_entries_for_db u ss (d.heap (item.coll).db))) [
        | none ↦ none
        | some entry ↦ some record item { entry = entry }
      ]

  unfoldable pub search_collection :
      Library → SecretService → List (Bytes × Bytes) → Collection → List Bytes
  search_collection lib ss attributes coll =
      let odb = d.heap coll.db in
      map (item_path_for_entry odb.name)
        (keep (λ entry. match_attributes u lib entry odb attributes) (open_entries u ss odb))

  unfoldable pub search_items_each :
      Library → SecretService → List (Bytes × Bytes) → List (Bytes × Collection) → List Bytes
  search_items_each lib ss attributes [] = []
  search_items_each lib ss attributes ((_, coll) ∷ cs) =
      search_collection lib ss attributes coll ++ search_items_each lib ss attributes cs

  -- The unlocked items that match, and the locked ones, of which there are none.
  unfoldable pub search_items :
      Library → SecretService → List (Bytes × Bytes) → List Bytes × List Bytes
  search_items lib ss attributes = (search_items_each lib ss attributes ss.collections, [])
