-- ===== src/SecretService/Service/Removal.antt =====
-- The collections after a database has been locked.
use kpxcd.Prelude.{
  Bool, false, not, List, [], ◌∷◌, Option, none, some, ◌>>=◌, Bytes, bytes_Eq, ◌==◌, Bool-cases,
  Option-cases, if◌then◌else◌, lookup, keep, All, All-lookup, Distinct, lookup-keep, ◌≡◌, ◌≢◌, refl,
  ◌∙◌, inl, inr, arith,
}
use kpxcd.Text.{Unicode}
use kpxcd.Keepass.{Entry}
use kpxcd.Pool.Manage.{Event, database_locked}
use kpxcd.SecretService.Service.{
  SecretService, Databases, Collection, remove_collections, on_database_locked, handle_pool_event,
  open_entries,
}
use kpxcd.SecretService.Service.Objects.{
  Item, new_item, find_item, resolve_alias, find_in_collections, get_item_by_path,
  get_collection_by_path,
}

remains : Databases → Bytes → Bytes × Collection → Bool
remains d uuid entry = not ((d.heap (entry.1).db).uuid == uuid)

remove_collections-keep :
    (d : Databases) (uuid : Bytes) (cs : List (Bytes × Collection))
    → remove_collections d uuid cs ≡ keep (remains d uuid) cs
unfolding remove_collections remains
remove_collections-keep d uuid [] = refl
remove_collections-keep d uuid ((path, coll) ∷ cs) =
    ground (arith, remove_collections-keep d uuid cs)

-- The collections of other databases.
abbrev Others : Databases → Bytes → List (Bytes × Collection) → Type 0
Others d uuid = All (λ entry. ((d.heap (entry.1).db).uuid == uuid) ≡ false)

remove_collections-Others :
    (d : Databases) (uuid : Bytes) (cs : List (Bytes × Collection))
    → Others d uuid (remove_collections d uuid cs)
unfolding remove_collections
remove_collections-Others d uuid [] = tt
remove_collections-Others d uuid ((path, coll) ∷ cs) =
    elim (Bool-cases ((d.heap coll.db).uuid == uuid)) [
      | inl same ↦ rw (remove_collections, same) (remove_collections-Others d uuid cs)
      | inr other ↦ rw (remove_collections, other) (other, remove_collections-Others d uuid cs)
    ]

find_item-coll :
    (d : Databases) (coll : Collection) (path : Bytes) (entries : List Entry) (item : Item)
    → find_item d coll path entries ≡ some item
    → item.coll ≡ coll
unfolding find_item new_item
find_item-coll d coll path [] item found = absurd (cc)
find_item-coll d coll path (entry ∷ entries) item found =
    ground (arith, find_item-coll d coll path entries item)

find_in_collections-Others :
    (u : Unicode) (d : Databases) (ss : SecretService) (uuid path : Bytes)
    (cs : List (Bytes × Collection)) (item : Item)
    → Others d uuid cs
    → find_in_collections u d ss path cs ≡ some item
    → (d.heap (item.coll).db).uuid ≢ uuid
unfolding find_in_collections
find_in_collections-Others u d ss uuid path [] item others found = absurd (cc)
find_in_collections-Others u d ss uuid path ((_, coll) ∷ cs) item others found =
    elim (Option-cases (find_item d coll path (open_entries u ss (d.heap coll.db)))) [
      | inl missing ↦ find_in_collections-Others u d ss uuid path cs item others.1 (ground arith)
      | inr (first, here) ↦
          let entries = open_entries u ss (d.heap coll.db) in
          let same = find_item-coll d coll path entries first here in
          let whole : first ≡ item = ground arith in
          λ bad. ground (arith, same, bytes_Eq.beq_iff ((d.heap coll.db).uuid) uuid)
    ]

resolve_alias-Others :
    (d : Databases) (uuid path : Bytes) (cs : List (Bytes × Collection))
    (aliases : List (Bytes × Bytes)) (coll : Collection)
    → Others d uuid cs
    → resolve_alias path cs aliases ≡ some coll
    → ((d.heap coll.db).uuid == uuid) ≡ false
unfolding resolve_alias
resolve_alias-Others d uuid path cs [] coll others found = absurd (cc)
resolve_alias-Others d uuid path cs ((alias, target) ∷ aliases) coll others found =
    elim (Option-cases (lookup target cs)) [
      | inl missing ↦ ground (arith, resolve_alias-Others d uuid path cs aliases coll others)
      | inr (first, there) ↦
          let at =
            All-lookup (λ entry. ((d.heap (entry.1).db).uuid == uuid) ≡ false) target first cs
              others there in
          ground (arith, at, resolve_alias-Others d uuid path cs aliases coll others)
    ]

get_collection_by_path-Others :
    (d : Databases) (ss : SecretService) (uuid path : Bytes) (coll : Collection)
    → Others d uuid ss.collections
    → get_collection_by_path ss path ≡ some coll
    → (d.heap coll.db).uuid ≢ uuid
unfolding get_collection_by_path
get_collection_by_path-Others d ss uuid path coll others found =
    let other : ((d.heap coll.db).uuid == uuid) ≡ false =
      elim (Option-cases (lookup path ss.collections)) [
        | inr (first, there) ↦
            let at =
              All-lookup (λ entry. ((d.heap (entry.1).db).uuid == uuid) ≡ false) path first
                ss.collections others there in
            ground (arith, at)
        | inl missing ↦
            resolve_alias-Others d uuid path ss.collections ss.aliases coll others (ground arith)
      ] in
    λ same. ground (arith, other, (bytes_Eq.beq_iff (d.heap coll.db).uuid uuid).1 same)

swap_none :
    (d : Databases) (uuid path : Bytes) (found : Option Collection)
    → (found >>= λ coll. if remains d uuid (path, coll) then some coll else none)
      ≡ (found >>= λ coll. if (d.heap coll.db).uuid == uuid then none else some coll)
unfolding remains
swap_none d uuid path none = refl
swap_none d uuid path (some coll) = ground arith

-- After the service has handled the locking of a database, neither an item nor a collection of this
-- database stands under any path or alias, whatever the state was before; if no path stood twice
-- among the collections, then those of other databases are under their paths as before.
pub handle_pool_event-locked_gone :
    (u : Unicode) (d : Databases) (evt : Event) (ss : SecretService)
    → evt.type ≡ database_locked
    → Distinct ss.collections
    → let after = handle_pool_event d evt ss in
      ((path : Bytes) (item : Item)
        → get_item_by_path u d after path ≡ some item
        → (d.heap (item.coll).db).uuid ≢ evt.uuid)
      × ((path : Bytes) (coll : Collection)
          → get_collection_by_path after path ≡ some coll
          → (d.heap coll.db).uuid ≢ evt.uuid)
      × ((path : Bytes)
          → lookup path after.collections ≡ (
              lookup path ss.collections >>= λ coll.
              if (d.heap coll.db).uuid == evt.uuid then none else some coll))
unfolding handle_pool_event on_database_locked get_item_by_path
handle_pool_event-locked_gone u d evt ss locked distinct =
    rw (handle_pool_event, locked)
      (let others = remove_collections-Others d evt.uuid ss.collections in
        (
          λ path item found.
              find_in_collections-Others u d (on_database_locked d evt.uuid ss) evt.uuid path
                (remove_collections d evt.uuid ss.collections) item others found,
          λ path coll found.
              get_collection_by_path-Others d (on_database_locked d evt.uuid ss) evt.uuid path coll
                others found,
          λ path. rw (remove_collections-keep d evt.uuid ss.collections) (
              lookup-keep (remains d evt.uuid) path ss.collections distinct
              ∙ swap_none d evt.uuid path (lookup path ss.collections)),
        ))
