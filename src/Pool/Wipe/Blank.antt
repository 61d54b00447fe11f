-- ===== src/Pool/Wipe/Blank.antt =====
-- What is left of the entries after wiping.
use kpxcd.Prelude.{
  List, [], ◌∷◌, ◌++◌, map, none, some, ◌≡◌, refl, ap, sym, ◌∙◌, ◌>>=◌, All, All-append,
}
use kpxcd.Keepass.{Version, Entry, Groups, leaf, group, all_entries}
use kpxcd.Pool.Database.{Db, Content, RootData}
use kpxcd.Pool.Wipe.{
  wipe_value, wipe_version, wipe_entry, wipe_groups, wipe_content, wipe_meta, wipe_custom_data,
  wipe_database_content,
}

-- No content of a value, name of a binary or custom value is left, and none of the texts.
abbrev pub IsBlankVersion : Version → Type 0
IsBlankVersion v =
    All (λ x. x.content ≡ []) v.values
    × All (λ x. x ≡ []) v.binary_names
    × All (λ x. x ≡ []) v.custom_values
    × (v.tags ≡ [])
    × (v.override_url ≡ [])
    × (v.foreground ≡ [])
    × (v.background ≡ [])

-- The same for all earlier versions.
abbrev pub IsBlank : Entry → Type 0
IsBlank e = IsBlankVersion e.version × All (λ h. All IsBlankVersion h) e.histories

All-map :
    {A B : Type 0} (P : B → Type 0) (f : A → B) (xs : List A)
    → ((x : A) → P (f x))
    → All P (map f xs)
All-map P f [] h = tt
All-map P f (x ∷ xs) h = (h x, All-map P f xs h)

wipe_version-IsBlank : (v : Version) → IsBlankVersion (wipe_version v)
unfolding wipe_version wipe_value wipe_custom_data
wipe_version-IsBlank v = (
  All-map (λ x. x.content ≡ []) wipe_value v.values (λ x. refl),
  All-map (λ x. x ≡ []) (λ name. []) v.binary_names (λ x. refl),
  All-map (λ x. x ≡ []) (λ item. []) v.custom_values (λ x. refl),
  refl,
  refl,
  refl,
  refl,
)

wipe_entry-IsBlank : (e : Entry) → IsBlank (wipe_entry e)
unfolding wipe_entry
wipe_entry-IsBlank e = (
  wipe_version-IsBlank e.version,
  All-map (λ h. All IsBlankVersion h) (map wipe_version) e.histories
      (λ h. All-map IsBlankVersion wipe_version h wipe_version-IsBlank),
)

wipe_groups-IsBlank : (gs : Groups) → All IsBlank (all_entries (wipe_groups gs))
unfolding wipe_groups all_entries
wipe_groups-IsBlank leaf = tt
wipe_groups-IsBlank (group g es children rest) =
    All-append IsBlank (map wipe_entry es)
      (all_entries (wipe_groups children) ++ all_entries (wipe_groups rest))
      (All-map IsBlank wipe_entry es wipe_entry-IsBlank)
      (All-append IsBlank (all_entries (wipe_groups children)) (all_entries (wipe_groups rest))
        (wipe_groups-IsBlank children) (wipe_groups-IsBlank rest))

Option_some : {A : Type 0} {x y : A} → some x ≡ some y → x ≡ y
Option_some h = cc h

-- A database with content and a root that has been wiped has no credentials, and every entry in
-- it is blank, with its whole history.
pub wipe_database_content_lem :
    (db wiped : Db) (content : Content) (root : RootData)
    → db.content ≡ some content
    → content.root ≡ some root
    → wipe_database_content (some db) ≡ some (some wiped)
    → (wiped.credentials ≡ none)
      × (after : Content) × (blank : RootData) × (wiped.content ≡ some after)
      × (after.root ≡ some blank)
      × All IsBlank (all_entries blank.groups)
unfolding wipe_database_content wipe_content
wipe_database_content_lem db wiped content root here rooted h =
    let left : RootData = record root { groups = wipe_groups root.groups } in
    let after : Content = record {
      meta = (content.meta >>= λ m. some (wipe_meta m));
      root = some left;
    } in
    let computed : wipe_database_content (some db)
        ≡ some (some (record { credentials = none; content = some after })) =
      rw (here, rooted) refl in
    let same : record { credentials = none; content = some after } ≡ wiped =
      Option_some (Option_some (sym computed ∙ h)) in
    (
      ap (λ d. d.credentials) (sym same),
      after,
      left,
      ap (λ d. d.content) (sym same),
      refl,
      wipe_groups-IsBlank root.groups,
    )
