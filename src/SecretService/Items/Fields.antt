-- ===== src/SecretService/Items/Fields.antt =====
-- The fields of an item that has been created or replaced.
use kpxcd.Prelude.{
  ℕ, Bool, true, false, ◌||◌, [], ◌∷◌, Option, none, some, Bytes, codes, bytes_Eq, ◌==◌, Distinct,
  Bool-cases, if◌then◌else◌, lookup, ◌≡◌, refl, ap, subst, ◌∙◌, inl, inr, arith,
}
use kpxcd.Text.{Unicode}
use kpxcd.Keepass.{Entry, Library}
use kpxcd.SecretService.Search.{attr_title, attr_db_name, attr_db_uuid}
use kpxcd.SecretService.Write.{set_entry_value, update_modification_time}
use kpxcd.SecretService.Write.Values.{get_content-set_entry_value}
use kpxcd.SecretService.Items.{
  Attributes, set_attribute, set_attributes, item_label, apply_entry_fields,
}

-- The attributes that do not stand for a value of the entry under their own key.
abbrev pub special : Bytes → Bool
special key =
    key == codes "Title" || (key == attr_title || (key == attr_db_name || key == attr_db_uuid))

module _ (u : Unicode) (lib : Library) where
  set_attribute-content :
      (label : Bytes) (e : Entry) (key value at : Bytes)
      → special at ≡ false
      → lib.get_content (set_attribute u lib label e key value).values at
        ≡ (if key == at then value else lib.get_content e.values at)
  unfolding set_attribute
  set_attribute-content label e key value at plain = ground (
    arith,
    bytes_Eq.beq_iff key at,
    bytes_Eq.beq_iff at key,
    bytes_Eq.beq_iff at attr_title,
    bytes_Eq.beq_iff at attr_db_name,
    bytes_Eq.beq_iff at attr_db_uuid,
    bytes_Eq.beq_iff at (codes "Title"),
    bytes_Eq.beq_iff key attr_title,
    bytes_Eq.beq_iff key attr_db_name,
    bytes_Eq.beq_iff key attr_db_uuid,
    get_content-set_entry_value lib e (codes "Title") label at false,
    get_content-set_entry_value lib e key value at false,
  )

  abbrev pub or_old : Option Bytes → Bytes → Bytes
  or_old none old = old
  or_old (some value) old = value

  set_attributes-content :
      (label at : Bytes) (e : Entry) (attrs : Attributes)
      → special at ≡ false
      → Distinct attrs
      → lib.get_content (set_attributes u lib label e attrs).values at
        ≡ or_old (lookup at attrs) (lib.get_content e.values at)
  unfolding set_attributes lookup
  set_attributes-content label at e [] plain distinct = refl
  set_attributes-content label at e ((key, value) ∷ attrs) plain distinct =
      let now = set_attribute u lib label e key value in
      let later = set_attributes-content label at now attrs plain distinct.1 in
      let here = set_attribute-content label e key value at plain in
      elim (Bool-cases (key == at)) [
        | inl same ↦
            let missing : lookup at attrs ≡ none =
              subst (λ k. lookup k attrs ≡ none) ((bytes_Eq.beq_iff key at).0 same) distinct.0 in
            rw same (later ∙ rw missing (here ∙ rw same refl))
        | inr other ↦ rw other (later ∙ ap (or_old (lookup at attrs)) (here ∙ rw other refl))
      ]

-- After the fields of an item have been written from a map of attributes in which no key stands
-- twice, the entry has, under every key but "title", "Title", "kpxcd:dbname" and "kpxcd:dbuuid", the
-- attribute of that key if there is one, and otherwise the secret under "Password" and the old
-- content under any other key.
pub apply_entry_fields-content :
    (u : Unicode) (lib : Library) (now : ℕ) (e : Entry) (label secret at : Bytes)
    (attrs : Attributes)
    → special at ≡ false
    → Distinct attrs
    → lib.get_content (apply_entry_fields u lib now e label attrs secret).values at
      ≡ or_old u lib
          (lookup at attrs)
          (if at == codes "Password" then secret else lib.get_content e.values at)
unfolding apply_entry_fields update_modification_time
apply_entry_fields-content u lib now e label secret at attrs plain distinct =
    let title = item_label u lib label attrs in
    let titled = set_entry_value lib e (codes "Title") title false in
    let secured = set_entry_value lib titled (codes "Password") secret true in
    let one = get_content-set_entry_value lib e (codes "Title") title at false in
    let two = get_content-set_entry_value lib titled (codes "Password") secret at true in
    let no_title : (at == codes "Title") ≡ false = ground arith in
    set_attributes-content u lib title at secured attrs plain distinct
    ∙ ap (or_old u lib (lookup at attrs))
        (two ∙ ap (λ old. if at == codes "Password" then secret else old) (one ∙ rw no_title refl))
