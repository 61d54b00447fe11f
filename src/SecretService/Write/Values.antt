-- ===== src/SecretService/Write/Values.antt =====
-- Writing one value of an entry, read back through the library.
use kpxcd.Prelude.{
  ℕ, Bool, List, [], ◌∷◌, ◌++◌, Option, none, some, Bytes, ◌≡◌, refl, ap, ◌∙◌, arith, bytes_Eq,
  ◌==◌, bytes_eq_iff, if◌then◌else◌,
}
use kpxcd.Keepass.{Value, Entry, Library, first_index, first_content}
use kpxcd.SecretService.Write.{set_at, set_value, set_entry_value}

-- The write without the index.
put : List Value → Value → List Value
put [] v = v ∷ []
put (w ∷ ws) v = if w.key == v.key then v ∷ ws else w ∷ put ws v

write_first : List Value → Value → Option ℕ → List Value
write_first vs v o = elim o [ none ↦ vs ++ v ∷ [] | some i ↦ set_at vs i v ]

write_first-put : (vs : List Value) (v : Value) → write_first vs v (first_index v.key vs) ≡ put vs v
unfolding write_first first_index put set_at
write_first-put [] v = refl
write_first-put (w ∷ ws) v = ground (arith, write_first-put ws v)

first_content-put :
    (vs : List Value) (v : Value) (key : Bytes)
    → first_content key (put vs v) ≡ (if key == v.key then v.content else first_content key vs)
unfolding first_content put
first_content-put [] v key = ground (arith, bytes_eq_iff v.key key, bytes_eq_iff key v.key)
first_content-put (w ∷ ws) v key = ground (
  arith,
  first_content-put ws v key,
  bytes_eq_iff w.key v.key,
  bytes_eq_iff w.key key,
  bytes_eq_iff key v.key,
  bytes_eq_iff v.key key,
)

module _ (lib : Library) where
  set_value-put : (vs : List Value) (v : Value) → set_value lib vs v ≡ put vs v
  unfolding set_value write_first
  set_value-put vs v = ap (write_first vs v) (lib.get_index_first vs v.key) ∙ write_first-put vs v

  -- After a write the library reads the new content under the key and the old content under every
  -- other key, whether the key was there or not.
  pub get_content-set_entry_value :
      (e : Entry) (key content other : Bytes) (protected : Bool)
      → lib.get_content (set_entry_value lib e key content protected).values other
        ≡ (if other == key then content else lib.get_content e.values other)
  unfolding set_entry_value
  get_content-set_entry_value e key content other protected =
      let v : Value = record { key = key; content = content; is_protected = protected } in
      rw
        (
          set_value-put e.values v,
          lib.get_content_first (put e.values v) other,
          lib.get_content_first e.values other,
        )
        (first_content-put e.values v other)
