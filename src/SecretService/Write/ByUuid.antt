-- ===== src/SecretService/Write/ByUuid.antt =====
-- Finding, changing and removing an entry by UUID, against the list of all entries.
use kpxcd.Prelude.{
  ◌≢◌, All, Bool-cases, List, [], ◌∷◌, ◌++◌, Option, none, some, Bytes, ◌≡◌, refl, sym, ap, ◌∙◌,
  inl, inr, arith, bytes_Eq, ◌==◌, bytes_eq_iff, Option-cases,
}
use mathlib.Core.Option
use kpxcd.Keepass.{Entry, Groups, leaf, group, all_entries}
use kpxcd.SecretService.Write.{
  entry_uuid_string, find_in, find_entry_by_uuid, remove_in, remove_entry_by_uuid, update_in,
  update_entry_by_uuid,
}

find_in-append :
    (xs ys : List Entry) (uuid : Bytes)
    → find_in (xs ++ ys) uuid ≡ elim (find_in xs uuid) [ some e ↦ some e | none ↦ find_in ys uuid ]
unfolding find_in
find_in-append [] ys uuid = refl
find_in-append (x ∷ xs) ys uuid = ground (arith, find_in-append xs ys uuid)

-- The entry found is the first of all entries, a group's own before those of its groups, with the
-- UUID.
pub find_entry_by_uuid-all_entries :
    (gs : Groups) (uuid : Bytes) → find_entry_by_uuid gs uuid ≡ find_in (all_entries gs) uuid
unfolding find_entry_by_uuid all_entries
find_entry_by_uuid-all_entries leaf uuid = refl
find_entry_by_uuid-all_entries (group g es children rest) uuid = ground (
  arith,
  find_in-append es (all_entries children ++ all_entries rest) uuid,
  find_in-append (all_entries children) (all_entries rest) uuid,
  find_entry_by_uuid-all_entries children uuid,
  find_entry_by_uuid-all_entries rest uuid,
)

remove_in-append :
    (xs ys : List Entry) (uuid : Bytes)
    → remove_in (xs ++ ys) uuid ≡ elim (remove_in xs uuid) [
      | some r ↦ some (r ++ ys)
      | none ↦ elim (remove_in ys uuid) [ none ↦ none | some r ↦ some (xs ++ r) ]
    ]
unfolding remove_in
remove_in-append [] ys uuid = ground arith
remove_in-append (x ∷ xs) ys uuid = ground (arith, remove_in-append xs ys uuid)

remove-all_entries :
    (gs : Groups) (uuid : Bytes)
    → Option.map all_entries (remove_entry_by_uuid gs uuid) ≡ remove_in (all_entries gs) uuid
unfolding remove_entry_by_uuid all_entries
remove-all_entries leaf uuid = refl
remove-all_entries (group g es children rest) uuid = ground (
  arith,
  remove_in-append es (all_entries children ++ all_entries rest) uuid,
  remove_in-append (all_entries children) (all_entries rest) uuid,
  remove-all_entries children uuid,
  remove-all_entries rest uuid,
)

update_in-append :
    (f : Entry → Entry) (xs ys : List Entry) (uuid : Bytes)
    → update_in f (xs ++ ys) uuid ≡ elim (update_in f xs uuid) [
      | some r ↦ some (r ++ ys)
      | none ↦ elim (update_in f ys uuid) [ none ↦ none | some r ↦ some (xs ++ r) ]
    ]
unfolding update_in
update_in-append f [] ys uuid = ground arith
update_in-append f (x ∷ xs) ys uuid = ground (arith, update_in-append f xs ys uuid)

update-all_entries :
    (f : Entry → Entry) (gs : Groups) (uuid : Bytes)
    → Option.map all_entries (update_entry_by_uuid f gs uuid) ≡ update_in f (all_entries gs) uuid
unfolding update_entry_by_uuid all_entries
update-all_entries f leaf uuid = refl
update-all_entries f (group g es children rest) uuid = ground (
  arith,
  update_in-append f es (all_entries children ++ all_entries rest) uuid,
  update_in-append f (all_entries children) (all_entries rest) uuid,
  update-all_entries f children uuid,
  update-all_entries f rest uuid,
)

-- `ys` is `xs` without its first entry that has the UUID.
abbrev pub WithoutFirst : Bytes → Entry → List Entry → List Entry → Type 0
WithoutFirst uuid e xs ys =
    (front : List Entry) × (back : List Entry) × (xs ≡ front ++ e ∷ back)
    × (ys ≡ front ++ back)
    × All (λ x. entry_uuid_string x ≢ uuid) front
    × (entry_uuid_string e ≡ uuid)

-- What removal does to a flat list.
remove_in_lem :
    (xs ys : List Entry) (uuid : Bytes)
    → remove_in xs uuid ≡ some ys
    → (e : Entry) × (find_in xs uuid ≡ some e)
      × WithoutFirst uuid e xs ys
      × ((other : Bytes) → other ≢ uuid → find_in ys other ≡ find_in xs other)
unfolding remove_in find_in
remove_in_lem [] ys uuid h = absurd (cc)
remove_in_lem (x ∷ xs) ys uuid h = elim (Bool-cases (entry_uuid_string x == uuid)) [
  | inl hit ↦
      let rest : ys ≡ xs = ground arith in
      let same = (bytes_eq_iff (entry_uuid_string x) uuid).0 hit in
      (
        x,
        rw hit,
        ([], xs, refl, rest, tt, same),
        λ other ne. ground (
          arith,
          bytes_eq_iff (entry_uuid_string x) uuid,
          bytes_eq_iff (entry_uuid_string x) other,
        ),
      )
  | inr miss ↦ elim (Option-cases (remove_in xs uuid)) [
    | inl gone ↦ absurd (ground arith)
    | inr (zs, left) ↦
        let (e, found, without, same) = remove_in_lem xs zs uuid left in
        let (front, back, before, after, none_of, at) = without in
        let whole : ys ≡ x ∷ zs = ground arith in
        let differs : entry_uuid_string x ≢ uuid =
          λ eq. absurd (ground (arith, (bytes_eq_iff (entry_uuid_string x) uuid).1 eq)) in
        (
          e,
          rw miss found,
          (
            x ∷ front,
            back,
            ap (λ l. x ∷ l) before,
            whole ∙ ap (λ l. x ∷ l) after,
            (differs, none_of),
            at,
          ),
          λ other ne. ground (arith, same other),
        )
  ]
]

-- What an update does to a flat list, if it leaves UUIDs alone.
update_in_lem :
    (f : Entry → Entry) (xs ys : List Entry) (uuid : Bytes)
    → ((e : Entry) → entry_uuid_string (f e) ≡ entry_uuid_string e)
    → update_in f xs uuid ≡ some ys
    → (e : Entry) × (find_in xs uuid ≡ some e)
      × (find_in ys uuid ≡ some (f e))
      × ((other : Bytes) → other ≢ uuid → find_in ys other ≡ find_in xs other)
unfolding update_in find_in
update_in_lem f [] ys uuid keeps h = absurd (cc)
update_in_lem f (x ∷ xs) ys uuid keeps h = elim (Bool-cases (entry_uuid_string x == uuid)) [
  | inl hit ↦
      let new : f x ∷ xs ≡ ys = ground arith in
      (
        x,
        rw hit,
        rw (← new) (rw (keeps x, hit)),
        λ other ne. rw (← new) (
            ground (
              arith,
              keeps x,
              bytes_eq_iff (entry_uuid_string x) uuid,
              bytes_eq_iff (entry_uuid_string x) other,
            )),
      )
  | inr miss ↦ elim (Option-cases (update_in f xs uuid)) [
    | inl gone ↦ absurd (ground arith)
    | inr (zs, left) ↦
        let (e, found, after, same) = update_in_lem f xs zs uuid keeps left in
        let new : x ∷ zs ≡ ys = ground arith in
        (
          e,
          rw miss found,
          rw (← new) (rw miss after),
          λ other ne. rw (← new) (ground (arith, same other)),
        )
  ]
]

map-eq-some :
    (o : Option Groups) (p : Option (List Entry)) {gs : Groups}
    → Option.map all_entries o ≡ p
    → o ≡ some gs
    → p ≡ some (all_entries gs)
map-eq-some o p e h = sym e ∙ ap (Option.map all_entries) h

-- Deleting by UUID, when it deletes, takes exactly one entry out of the list of all entries, a
-- group's own before those of its groups, and leaves the others in their order: the one that is
-- found under the UUID, which has it and before which no entry has it; what is found under every
-- other UUID stays the same.
pub remove_entry_by_uuid_lem :
    (gs gs' : Groups) (uuid : Bytes)
    → remove_entry_by_uuid gs uuid ≡ some gs'
    → (e : Entry) × (find_entry_by_uuid gs uuid ≡ some e)
      × WithoutFirst uuid e (all_entries gs) (all_entries gs')
      × ((other : Bytes)
          → other ≢ uuid
          → find_entry_by_uuid gs' other ≡ find_entry_by_uuid gs other)
remove_entry_by_uuid_lem gs gs' uuid h =
    let flat = map-eq-some _ _ (remove-all_entries gs uuid) h in
    let (e, found, without, same) = remove_in_lem (all_entries gs) (all_entries gs') uuid flat in
    (
      e,
      find_entry_by_uuid-all_entries gs uuid ∙ found,
      without,
      λ other ne.
          find_entry_by_uuid-all_entries gs' other
          ∙ same other ne
          ∙ sym (find_entry_by_uuid-all_entries gs other),
    )

-- Changing an entry in place, without its UUID, changes what is found under that UUID and nothing
-- that is found under another.
pub update_entry_by_uuid_lem :
    (f : Entry → Entry) (gs gs' : Groups) (uuid : Bytes)
    → ((e : Entry) → entry_uuid_string (f e) ≡ entry_uuid_string e)
    → update_entry_by_uuid f gs uuid ≡ some gs'
    → (e : Entry) × (find_entry_by_uuid gs uuid ≡ some e)
      × (find_entry_by_uuid gs' uuid ≡ some (f e))
      × ((other : Bytes)
          → other ≢ uuid
          → find_entry_by_uuid gs' other ≡ find_entry_by_uuid gs other)
update_entry_by_uuid_lem f gs gs' uuid keeps h =
    let flat = map-eq-some _ _ (update-all_entries f gs uuid) h in
    let (e, found, after, same) =
      update_in_lem f (all_entries gs) (all_entries gs') uuid keeps flat in
    (
      e,
      find_entry_by_uuid-all_entries gs uuid ∙ found,
      find_entry_by_uuid-all_entries gs' uuid ∙ after,
      λ other ne.
          find_entry_by_uuid-all_entries gs' other
          ∙ same other ne
          ∙ sym (find_entry_by_uuid-all_entries gs other),
    )

remove_in-find_in :
    (xs : List Entry) (uuid : Bytes) → find_in xs uuid ≡ none → remove_in xs uuid ≡ none
unfolding remove_in find_in
remove_in-find_in [] uuid h = refl
remove_in-find_in (x ∷ xs) uuid h = ground (arith, remove_in-find_in xs uuid)

map-eq-none : (o : Option Groups) → Option.map all_entries o ≡ none → o ≡ none
map-eq-none none h = refl
map-eq-none (some gs) h = absurd (cc)

-- Deleting fails where no entry has the UUID.
pub remove_entry_by_uuid-none :
    (gs : Groups) (uuid : Bytes)
    → find_entry_by_uuid gs uuid ≡ none
    → remove_entry_by_uuid gs uuid ≡ none
remove_entry_by_uuid-none gs uuid h = map-eq-none _ (
    remove-all_entries gs uuid
    ∙ remove_in-find_in (all_entries gs) uuid (sym (find_entry_by_uuid-all_entries gs uuid) ∙ h))
