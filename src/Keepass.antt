-- ===== src/Keepass.antt =====
-- The data of an opened KeePass database, as far as the daemon reads or writes it: entries with
-- their values and earlier versions, and the forest of groups. These types belong to
-- github.com/tobischo/gokeepasslib; its functions on them are the parameters `Library`.
use kpxcd.Prelude.{
  ℕ, suc, Bool, List, [], ◌∷◌, ◌++◌, Option, none, some, Bytes, bytes_Eq, ◌==◌, ◌≡◌, replicate,
  if◌then◌else◌, ◌⊎◌, inl, inr,
}

pub record Value : Type 0 where
  pub key : Bytes
  pub content : Bytes
  pub is_protected : Bool

-- An entry without its history; in a file the earlier versions carry no history of their own.
pub record Version : Type 0 where
  pub uuid : Bytes
  pub values : List Value
  pub tags : Bytes
  pub override_url : Bytes
  pub foreground : Bytes
  pub background : Bytes
  pub binary_names : List Bytes
  pub custom_values : List Bytes
  pub modified : ℕ
  pub accessed : ℕ

pub record Entry : Type 0 where
  pub version : Version
  pub open version use *
  pub histories : List (List Version)

pub record GroupData : Type 0 where
  pub uuid : Bytes
  pub name : Bytes
  pub notes : Bytes
  pub last_top_visible : Bytes

-- A slice of groups: the first one with its entries and its own groups, then the groups behind it.
pub data Groups : Type 0 where
  leaf : Groups
  group : GroupData → List Entry → Groups → Groups → Groups

abbrev pub zero_uuid : Bytes
zero_uuid = replicate 16 0

-- The first position of a key among the values, counted from 0.
unfoldable pub first_index : Bytes → List Value → Option ℕ
first_index k [] = none
first_index k (v ∷ vs) =
    if v.key == k then some 0 else elim (first_index k vs) [ none ↦ none | some i ↦ some (suc i) ]

-- The content of the first value with a key, or the empty text.
unfoldable pub first_content : Bytes → List Value → Bytes
first_content k [] = []
first_content k (v ∷ vs) = if v.key == k then v.content else first_content k vs

-- What the daemon calls of the library: `GetIndex` (`none` for -1) and `GetContent`, with what
-- their documentation says of them.
pub record Library : Type 0 where
  pub get_index : List Value → Bytes → Option ℕ
  pub get_content : List Value → Bytes → Bytes
  pub get_index_first : (vs : List Value) (k : Bytes) → get_index vs k ≡ first_index k vs
  pub get_content_first : (vs : List Value) (k : Bytes) → get_content vs k ≡ first_content k vs

-- All entries, a group's own before those of its groups.
unfoldable pub all_entries : Groups → List Entry
all_entries leaf = []
all_entries (group g es children rest) = es ++ (all_entries children ++ all_entries rest)

abbrev pub In : {A : Type 0} → A → List A → Type 0
In a [] = ⊥
In a (x ∷ xs) = (a ≡ x) ⊎ In a xs

pub In-append_left : {A : Type 0} (a : A) (xs ys : List A) → In a xs → In a (xs ++ ys)
In-append_left a [] ys h = absurd h
In-append_left a (x ∷ xs) ys (inl h) = inl h
In-append_left a (x ∷ xs) ys (inr h) = inr (In-append_left a xs ys h)

pub In-append_right : {A : Type 0} (a : A) (xs ys : List A) → In a ys → In a (xs ++ ys)
In-append_right a [] ys h = h
In-append_right a (x ∷ xs) ys h = inr (In-append_right a xs ys h)

pub In-append : {A : Type 0} (a : A) (xs ys : List A) → In a (xs ++ ys) → In a xs ⊎ In a ys
In-append a [] ys h = inr h
In-append a (x ∷ xs) ys (inl h) = inl (inl h)
In-append a (x ∷ xs) ys (inr h) = elim (In-append a xs ys h) [ inl l ↦ inl (inr l) | inr r ↦ inr r ]
