-- ===== src/SecretService/Items.antt =====
-- internal/secretservice/write.go, collection.go and item.go: items created, changed and deleted in
-- the file of a database. What gokeepasslib makes afresh, with new random identifiers, and the
-- clock are arguments.
pub mod Store
pub mod Matching
pub mod Fields
pub mod Placement
use kpxcd.Prelude.{
  ℕ, Bool, true, false, not, ◌&&◌, ◌||◌, List, [], ◌∷◌, ◌++◌, Option, none, some, Bytes, codes,
  bytes_Eq, ◌==◌, null, if◌then◌else◌, lookup, insert, is_some,
}
use kpxcd.Text.{Unicode, equal_fold}
use kpxcd.Keepass.{Value, Entry, GroupData, Groups, leaf, group, Library}
use kpxcd.Pool.Entries.{is_recycled}
use kpxcd.SecretService.Entries.{is_exposed}
use kpxcd.SecretService.Search.{
  attr_title, attr_user_name, attr_url, attr_notes, attr_db_name, attr_db_uuid,
  match_exact_entry_attribute,
}
use kpxcd.SecretService.Write.{set_entry_value, update_modification_time}

-- A Go map of attributes.
abbrev pub Attributes : Type 0
Attributes = List (Bytes × Bytes)

-- The value of a property: a text, a map of texts, a map of values (`none` for one that is no
-- text), or anything else.
pub data PropertyValue : Type 0 where
  text : Bytes → PropertyValue
  text_map : Attributes → PropertyValue
  value_map : List (Bytes × Option Bytes) → PropertyValue
  other_value : PropertyValue

abbrev pub interface_item : Bytes
interface_item = codes "org.freedesktop.Secret.Item"

text_of : Option PropertyValue → Option Bytes
text_of (some (text s)) = some s
text_of (some (text_map m)) = none
text_of (some (value_map m)) = none
text_of (some other_value) = none
text_of none = none

-- The loop over the two keys.
unfoldable pub property_string : List (Bytes × PropertyValue) → Bytes → Bytes
unfolding text_of
property_string properties property =
    elim (text_of (lookup (interface_item ++ codes "." ++ property) properties)) [
      | some s ↦ s
      | none ↦ elim (text_of (lookup property properties)) [ some s ↦ s | none ↦ [] ]
    ]

unfoldable pub texts : List (Bytes × Option Bytes) → Attributes
texts [] = []
texts ((k, some s) ∷ m) = (k, s) ∷ texts m
texts ((k, none) ∷ m) = texts m

map_of : Option PropertyValue → Option Attributes
map_of (some (text s)) = none
map_of (some (text_map m)) = some m
map_of (some (value_map m)) = some (texts m)
map_of (some other_value) = none
map_of none = none

unfoldable pub property_attributes : List (Bytes × PropertyValue) → Attributes
unfolding map_of
property_attributes properties =
    elim (map_of (lookup (interface_item ++ codes ".Attributes") properties)) [
      | some m ↦ m
      | none ↦ elim (map_of (lookup (codes "Attributes") properties)) [ some m ↦ m | none ↦ [] ]
    ]

-- `m[k]` without its second result.
unfoldable pub text_at : Bytes → Attributes → Bytes
text_at key attrs = elim (lookup key attrs) [ none ↦ [] | some s ↦ s ]

-- The database's name and identifier, as the matching for writes knows it.
pub record Names : Type 0 where
  pub name : Bytes
  pub uuid : Bytes

module _ (u : Unicode) (lib : Library) where
  exact : Entry → Bytes → Bytes → Bool → Bool
  exact entry key value otherwise =
      elim (match_exact_entry_attribute u lib entry.values key value) [
        | some matched ↦ matched
        | none ↦ otherwise
      ]

  has_content : Entry → Bytes → Bytes → Bool
  has_content entry key value = equal_fold u (lib.get_content entry.values key) value

  unfoldable pub entry_has_attribute : Entry → Bytes → Bytes → Bool
  unfolding exact has_content
  entry_has_attribute entry key value =
      if key == attr_title
      then has_content entry (codes "Title") value
      else if key == attr_user_name
      then has_content entry (codes "UserName") value
      else if key == codes "username"
      then exact entry key value (has_content entry (codes "UserName") value)
      else if key == attr_url
      then has_content entry (codes "URL") value
      else if key == codes "url"
      then exact entry key value (has_content entry (codes "URL") value)
      else if key == attr_notes
      then has_content entry (codes "Notes") value
      else exact entry key value false

  unfoldable pub match_one_for_write : Entry → Names → Bytes → Bytes → Bool
  match_one_for_write entry odb key value =
      if key == attr_db_name
      then equal_fold u odb.name value
      else if key == attr_db_uuid
      then equal_fold u odb.uuid value
      else entry_has_attribute entry key value

  unfoldable pub match_attributes_for_write : Entry → Names → Attributes → Bool
  match_attributes_for_write entry odb [] = true
  match_attributes_for_write entry odb ((key, value) ∷ attrs) =
      if match_one_for_write entry odb key value
      then match_attributes_for_write entry odb attrs
      else false

  unfoldable pub set_attribute : Bytes → Entry → Bytes → Bytes → Entry
  set_attribute label entry key value =
      if key == attr_db_name || key == attr_db_uuid
      then entry
      else if key == attr_title
      then set_entry_value lib entry (codes "Title") label false
      else set_entry_value lib entry key value false

  unfoldable pub set_attributes : Bytes → Entry → Attributes → Entry
  unfolding set_attribute
  set_attributes label entry [] = entry
  set_attributes label entry ((key, value) ∷ attrs) =
      set_attributes label (set_attribute label entry key value) attrs

  first_filled : Bytes → Bytes → Bytes
  first_filled s otherwise = if null s then otherwise else s

  unfoldable pub item_label : Bytes → Attributes → Bytes
  unfolding first_filled
  item_label label attrs = first_filled label (
      first_filled (text_at attr_title attrs)
        (first_filled (text_at (codes "application") attrs) (codes "Secret Service Item")))

  unfoldable pub apply_entry_fields : ℕ → Entry → Bytes → Attributes → Bytes → Entry
  apply_entry_fields now entry label attrs secret =
      let title = item_label label attrs in
      let titled = set_entry_value lib entry (codes "Title") title false in
      let secured = set_entry_value lib titled (codes "Password") secret true in
      update_modification_time now (set_attributes title secured attrs)

-- The first visible entry that passes the test, changed in place: the groups, and the entry as it
-- is afterwards.
unfoldable pub change_first :
    (Entry → Bool) → (Entry → Entry) → List Entry → Option (List Entry × Entry)
change_first test change [] = none
change_first test change (e ∷ es) =
    let later = change_first test change es in
    if test e
    then some (change e ∷ es, change e)
    else elim later [ none ↦ none | some (es', changed) ↦ some (e ∷ es', changed) ]

-- The groups with a part that was changed in them.
unfoldable pub in_place : {A : Type 0} → (A → Groups) → Option (A × Entry) → Option (Groups × Entry)
in_place whole none = none
in_place whole (some (part, changed)) = some (whole part, changed)

unfoldable pub or_next : Option (Groups × Entry) → Option (Groups × Entry) → Option (Groups × Entry)
or_next none later = later
or_next (some found) later = some found

module _ (u : Unicode) where
  -- The group is searched only where it is shown; its groups in any case.
  unfoldable pub change_matching_visible :
      (Entry → Bool) → (Entry → Entry) → Groups → Bytes → Bytes → Bool → Option (Groups × Entry)
  unfolding change_first in_place or_next
  change_matching_visible test change leaf recycle_bin expose_group visible = none
  change_matching_visible test change (group g es children rest) recycle_bin expose_group visible =
      let wanted = u.trim_space expose_group in
      let shown = visible || (null wanted || is_exposed u g wanted) in
      let deep = change_matching_visible test change children recycle_bin wanted shown in
      let later = change_matching_visible test change rest recycle_bin expose_group visible in
      let after = in_place (λ rest'. group g es children rest') later in
      let below = or_next (in_place (λ children'. group g es children' rest) deep) after in
      if is_recycled g recycle_bin
      then after
      else if shown
      then or_next (in_place (λ es'. group g es' children rest) (change_first test change es)) below
      else below

  -- The first group outside the recycle bin that is the exposed one, with a new entry at its end.
  unfoldable pub add_to_exposed : Entry → Groups → Bytes → Bytes → Option Groups
  add_to_exposed entry leaf recycle_bin expose_group = none
  add_to_exposed entry (group g es children rest) recycle_bin expose_group =
      let wanted = u.trim_space expose_group in
      let deep = add_to_exposed entry children recycle_bin wanted in
      let later = add_to_exposed entry rest recycle_bin expose_group in
      let after : Option Groups = elim later [
        | none ↦ none
        | some rest' ↦ some (group g es children rest')
      ] in
      if null wanted
      then none
      else if is_recycled g recycle_bin
      then after
      else if is_exposed u g wanted
      then some (group g (es ++ entry ∷ []) children rest)
      else elim deep [ some children' ↦ some (group g es children' rest) | none ↦ after ]

abbrev pub secret_service_group_name : Bytes
secret_service_group_name = codes "Secret Service"

-- The groups of the first group, with the entry in the first one that has the name, or in a new one
-- behind them.
unfoldable pub add_to_named : GroupData → Entry → Groups → Groups
add_to_named fresh entry leaf =
    group (record fresh { name = secret_service_group_name }) (entry ∷ []) leaf leaf
add_to_named fresh entry (group g es children rest) =
    let later = add_to_named fresh entry rest in
    if g.name == secret_service_group_name
    then group g (es ++ entry ∷ []) children rest
    else group g es children later
