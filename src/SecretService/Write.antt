-- ===== src/SecretService/Write.antt =====
-- internal/secretservice/write.go: entries found, changed in place and removed by their UUID, and
-- the history of an entry. A pointer into the groups that is written through is a function that
-- changes the entry in place.
pub mod ByUuid
pub mod History
pub mod Values
use kpxcd.Prelude.{
  ℕ, zero, suc, ◌+◌, ◌*◌, Bool, true, false, List, [], ◌∷◌, ◌++◌, Option, none, some, Bytes, codes,
  length, ltb, leb, nat_eq, ◌==◌, bytes_Eq, if◌then◌else◌,
}
use kpxcd.Text.{hex}
use kpxcd.Keepass.{Value, Version, Entry, GroupData, Groups, leaf, group, Library}

unfoldable pub entry_uuid_string : Entry → Bytes
entry_uuid_string e = hex e.uuid

-- The loop over the entries of one group.
unfoldable pub find_in : List Entry → Bytes → Option Entry
find_in [] uuid = none
find_in (e ∷ es) uuid = if entry_uuid_string e == uuid then some e else find_in es uuid

unfoldable pub find_entry_by_uuid : Groups → Bytes → Option Entry
unfolding find_in
find_entry_by_uuid leaf uuid = none
find_entry_by_uuid (group g es children rest) uuid =
    let deep = find_entry_by_uuid children uuid in
    let later = find_entry_by_uuid rest uuid in
    elim (find_in es uuid) [ some e ↦ some e | none ↦ elim deep [ some e ↦ some e | none ↦ later ] ]

-- `none` where no entry of the group matches.
unfoldable pub remove_in : List Entry → Bytes → Option (List Entry)
remove_in [] uuid = none
remove_in (e ∷ es) uuid =
    if entry_uuid_string e == uuid
    then some es
    else elim (remove_in es uuid) [ none ↦ none | some r ↦ some (e ∷ r) ]

-- The groups without the first matching entry; `none` stands for the result `false`.
unfoldable pub remove_entry_by_uuid : Groups → Bytes → Option Groups
unfolding remove_in
remove_entry_by_uuid leaf uuid = none
remove_entry_by_uuid (group g es children rest) uuid =
    let deep = remove_entry_by_uuid children uuid in
    let later = remove_entry_by_uuid rest uuid in
    elim (remove_in es uuid) [
      | some es' ↦ some (group g es' children rest)
      | none ↦ elim deep [
        | some children' ↦ some (group g es children' rest)
        | none ↦ elim later [ none ↦ none | some rest' ↦ some (group g es children rest') ]
      ]
    ]

unfoldable pub update_in : (Entry → Entry) → List Entry → Bytes → Option (List Entry)
update_in f [] uuid = none
update_in f (e ∷ es) uuid =
    if entry_uuid_string e == uuid
    then some (f e ∷ es)
    else elim (update_in f es uuid) [ none ↦ none | some r ↦ some (e ∷ r) ]

-- The entry that `find_entry_by_uuid` finds, changed in place.
unfoldable pub update_entry_by_uuid : (Entry → Entry) → Groups → Bytes → Option Groups
unfolding update_in
update_entry_by_uuid f leaf uuid = none
update_entry_by_uuid f (group g es children rest) uuid =
    let deep = update_entry_by_uuid f children uuid in
    let later = update_entry_by_uuid f rest uuid in
    elim (update_in f es uuid) [
      | some es' ↦ some (group g es' children rest)
      | none ↦ elim deep [
        | some children' ↦ some (group g es children' rest)
        | none ↦ elim later [ none ↦ none | some rest' ↦ some (group g es children rest') ]
      ]
    ]

-- The limits of the database's metadata; one that is not positive there gives the default.
pub record HistoryLimits : Type 0 where
  pub max_items : ℕ
  pub max_size : ℕ

positive_or : ℕ → ℕ → ℕ
positive_or n d = if ltb 0 n then n else d

-- `meta` is `none` where the database has no metadata.
unfoldable pub history_limits : Option HistoryLimits → HistoryLimits
unfolding positive_or
history_limits none = record { max_items = 10; max_size = 6 * 1024 * 1024 }
history_limits (some meta) = record {
  max_items = positive_or meta.max_items 10;
  max_size = positive_or meta.max_size (6 * 1024 * 1024);
}

unfoldable pub values_size : List Value → ℕ
values_size [] = 0
values_size (v ∷ vs) = length v.key + length v.content + values_size vs

unfoldable pub history_size : List Version → ℕ
unfolding values_size
history_size [] = 0
history_size (e ∷ es) =
    values_size e.values + (length e.tags + length e.override_url) + history_size es

-- Drop the oldest while over the item limit.
unfoldable pub limit_items : ℕ → List Version → List Version
limit_items n [] = []
limit_items n (e ∷ es) =
    let rest = limit_items n es in if ltb n (length (e ∷ es)) then rest else e ∷ es

-- Drop the oldest while over the size limit, but never the last one.
unfoldable pub limit_size : ℕ → List Version → List Version
limit_size n [] = []
limit_size n (e ∷ []) = e ∷ []
limit_size n (e ∷ f ∷ es) =
    let rest = limit_size n (f ∷ es) in
    if leb (history_size (e ∷ f ∷ es)) n then e ∷ f ∷ es else rest

unfoldable pub trim_versions : HistoryLimits → List Version → List Version
unfolding limit_items limit_size
trim_versions lim es = limit_size lim.max_size (limit_items lim.max_items es)

-- Only the first history of an entry is trimmed.
unfoldable pub trim_history : Option HistoryLimits → List (List Version) → List (List Version)
trim_history meta [] = []
trim_history meta (h ∷ hs) = trim_versions (history_limits meta) h ∷ hs

-- `clone` is the library's copy of the entry without its history.
unfoldable pub append_version : Version → List (List Version) → List (List Version)
append_version v [] = (v ∷ []) ∷ []
append_version v (h ∷ hs) = (h ++ v ∷ []) ∷ hs

unfoldable pub append_history : (Version → Version) → Option HistoryLimits → Entry → Entry
unfolding append_version
append_history clone meta e = record e {
  histories = trim_history meta (append_version (clone e.version) e.histories);
}

-- The write `Values[i] = v`; the index is in range where the library finds the key.
unfoldable pub set_at : List Value → ℕ → Value → List Value
set_at [] i v = []
set_at (w ∷ ws) zero v = v ∷ ws
set_at (w ∷ ws) (suc i) v = w ∷ set_at ws i v

module _ (lib : Library) where
  unfoldable pub set_value : List Value → Value → List Value
  unfolding set_at
  set_value vs v = elim (lib.get_index vs v.key) [ none ↦ vs ++ v ∷ [] | some i ↦ set_at vs i v ]

  unfoldable pub set_entry_value : Entry → Bytes → Bytes → Bool → Entry
  unfolding set_value
  set_entry_value e key content protected = record e {
    version = record (e.version) {
      values =
          set_value e.values (record { key = key; content = content; is_protected = protected });
    };
  }

unfoldable pub update_modification_time : ℕ → Entry → Entry
update_modification_time now e = record e {
  version = record (e.version) { modified = now; accessed = now };
}
