-- ===== src/SecretService/Search/Matching.antt =====
-- What a search finds.
use kpxcd.Prelude.{
  false, none, some, null, All, arith, Option-cases, true, List, [], ◌∷◌, Bytes, codes, bytes_Eq,
  bytes_eq, insert, ◌≡◌, ◌↔◌, inl, inr, refl, sym, ap, ◌∙◌, subst, Bool-cases, bytes_eq_iff,
}
use kpxcd.Text.{Unicode, equal_fold}
use kpxcd.Keepass.{
  Entry, Groups, Library, zero_uuid, In, In-append, In-append_left, In-append_right,
}
use kpxcd.Pool.Database.{OpenDatabase, Db, Content, RootData}
use kpxcd.SecretService.Entries.{collect_entries}
use kpxcd.SecretService.Entries.Visible.{Exposed, collect_entries_visible_iff}
use kpxcd.SecretService.Search.{
  entry_attributes, match_attribute, match_attributes, searched, matching, search_each,
  search_entries, content,
}

equal_fold_refl : (u : Unicode) (s : Bytes) → equal_fold u s s ≡ true
unfolding equal_fold
equal_fold_refl u s = (bytes_eq_iff (u.fold s) (u.fold s)).1 refl

module _ (u : Unicode) (lib : Library) where
  -- The attributes that are published for an entry match this entry.
  pub match_attributes-entry_attributes :
      (odb : OpenDatabase) (entry : Entry)
      → match_attributes u lib entry odb (entry_attributes u lib odb entry) ≡ true
  unfolding match_attributes match_attribute entry_attributes insert content bytes_eq
  match_attributes-entry_attributes odb entry =
      let title = content u lib entry (codes "Title") in
      let user_name = content u lib entry (codes "UserName") in
      let url = content u lib entry (codes "URL") in
      rw
        (
          equal_fold_refl u odb.name,
          equal_fold_refl u odb.uuid,
          equal_fold_refl u title,
          equal_fold_refl u user_name,
          equal_fold_refl u url,
        )
        refl

  matching_sound :
      (odb o : OpenDatabase) (attributes : List (Bytes × Bytes)) (entries : List Entry) (e : Entry)
      → In (o, e) (matching u lib odb attributes entries)
      → (o ≡ odb) × In e entries × (match_attributes u lib e odb attributes ≡ true)
  unfolding matching
  matching_sound odb o attributes [] e h = absurd h
  matching_sound odb o attributes (entry ∷ entries) e h =
      elim (Bool-cases (match_attributes u lib entry odb attributes)) [
        | inl hit ↦ elim (rw hit at h) [
          | inl same ↦ (
            ap (λ p. p.0) same,
            inl (ap (λ p. p.1) same),
            ap (λ p. match_attributes u lib p.1 odb attributes) same ∙ hit,
          )
          | inr later ↦
              let rest = matching_sound odb o attributes entries e later in
              (rest.0, inr (rest.1), rest.2)
        ]
        | inr miss ↦
            let rest = matching_sound odb o attributes entries e (rw miss at h) in
            (rest.0, inr (rest.1), rest.2)
      ]

  matching_complete :
      (odb : OpenDatabase) (attributes : List (Bytes × Bytes)) (entries : List Entry) (e : Entry)
      → In e entries
      → match_attributes u lib e odb attributes ≡ true
      → In (odb, e) (matching u lib odb attributes entries)
  unfolding matching
  matching_complete odb attributes [] e h hit = absurd h
  matching_complete odb attributes (entry ∷ entries) e (inl same) hit =
      let now : match_attributes u lib entry odb attributes ≡ true =
        ap (λ x. match_attributes u lib x odb attributes) (sym same) ∙ hit in
      rw now (inl (ap (λ x. (odb, x)) same))
  matching_complete odb attributes (entry ∷ entries) e (inr later) hit =
      let rest = matching_complete odb attributes entries e later hit in
      elim (Bool-cases (match_attributes u lib entry odb attributes)) [
        | inl now ↦ rw now (inr rest)
        | inr miss ↦ rw miss rest
      ]

  search_each_sound :
      (attributes : List (Bytes × Bytes)) (dbs : List OpenDatabase) (o : OpenDatabase) (e : Entry)
      → In (o, e) (search_each u lib attributes dbs)
      → In o dbs × In e (searched u lib o) × (match_attributes u lib e o attributes ≡ true)
  unfolding search_each
  search_each_sound attributes [] o e h = absurd h
  search_each_sound attributes (odb ∷ dbs) o e h =
      let here = matching u lib odb attributes (searched u lib odb) in
      elim (In-append (o, e) here (search_each u lib attributes dbs) h) [
        | inl l ↦
            let found = matching_sound odb o attributes (searched u lib odb) e l in
            (
              inl (found.0),
              subst (λ x. In e (searched u lib x)) (sym (found.0)) (found.1),
              ap (λ x. match_attributes u lib e x attributes) (found.0) ∙ found.2,
            )
        | inr r ↦
            let rest = search_each_sound attributes dbs o e r in (inr (rest.0), rest.1, rest.2)
      ]

  search_each_complete :
      (attributes : List (Bytes × Bytes)) (dbs : List OpenDatabase) (o : OpenDatabase) (e : Entry)
      → In o dbs
      → In e (searched u lib o)
      → match_attributes u lib e o attributes ≡ true
      → In (o, e) (search_each u lib attributes dbs)
  unfolding search_each
  search_each_complete attributes [] o e h there hit = absurd h
  search_each_complete attributes (odb ∷ dbs) o e (inl same) there hit =
      let found = matching_complete o attributes (searched u lib o) e there hit in
      In-append_left (o, e) (matching u lib odb attributes (searched u lib odb))
        (search_each u lib attributes dbs)
        (subst (λ x. In (o, e) (matching u lib x attributes (searched u lib x))) same found)
  search_each_complete attributes (odb ∷ dbs) o e (inr later) there hit =
      In-append_right (o, e) (matching u lib odb attributes (searched u lib odb))
        (search_each u lib attributes dbs) (search_each_complete attributes dbs o e later there hit)

  -- The attribute matches the entry.
  abbrev pub Agrees : OpenDatabase → Entry → Bytes × Bytes → Type 0
  Agrees o e a = match_attribute u lib e o a.0 a.1 ≡ true

  match_attributes_iff :
      (e : Entry) (o : OpenDatabase) (attributes : List (Bytes × Bytes))
      → (match_attributes u lib e o attributes ≡ true) ↔ All (Agrees o e) attributes
  unfolding match_attributes
  match_attributes_iff e o [] = (λ h. tt, λ h. refl)
  match_attributes_iff e o ((key, value) ∷ attributes) =
      let rest = match_attributes_iff e o attributes in
      elim (Bool-cases (match_attribute u lib e o key value)) [
        | inl hit ↦ (
          λ h. (hit, rest.0 (rw (match_attributes, hit) at (h))),
          λ h. rw (match_attributes, hit) (rest.1 (h.1)),
        )
        | inr miss ↦ (λ h. absurd (ground arith), λ h. absurd (ground (arith, h.0)))
      ]

  -- The database is unlocked, and the entry stands in its groups, not in the recycle bin of its
  -- metadata nor below it.
  abbrev pub Searchable : OpenDatabase → Entry → Type 0
  Searchable o e =
      (o.locked ≡ false)
      × (db : Db) × (content : Content) × (root : RootData) × (o.db ≡ some db)
      × (db.content ≡ some content)
      × (content.root ≡ some root)
      × Exposed u (elim content.meta [ none ↦ zero_uuid | some meta ↦ meta.recycle_bin_uuid ]) [] e
          true root.groups

  collect_entries_iff :
      (e : Entry) (gs : Groups) (recycle_bin : Bytes)
      → u.trim_space [] ≡ []
      → In e (collect_entries u gs recycle_bin) ↔ Exposed u recycle_bin [] e true gs
  unfolding collect_entries
  collect_entries_iff e gs recycle_bin blank =
      subst (λ t. In e (collect_entries u gs recycle_bin) ↔ Exposed u recycle_bin t e (null t) gs)
        blank (collect_entries_visible_iff u e gs recycle_bin [])

  searched_iff :
      (o : OpenDatabase) (e : Entry)
      → u.trim_space [] ≡ []
      → In e (searched u lib o) ↔ Searchable o e
  unfolding searched
  searched_iff o e blank = (there, back)
    where
      there : In e (searched u lib o) → Searchable o e
      there h = elim (Bool-cases o.locked) [
        | inl shut ↦ absurd (rw (searched, shut) at (h))
        | inr opened ↦ elim (Option-cases o.db) [
          | inl gone ↦ absurd (rw (searched, opened, gone) at (h))
          | inr (db, has) ↦ elim (Option-cases db.content) [
            | inl empty ↦ absurd (rw (searched, opened, has, empty) at (h))
            | inr (content, full) ↦ elim (Option-cases content.root) [
              | inl bare ↦ absurd (rw (searched, opened, has, full, bare) at (h))
              | inr (root, rooted) ↦ (
                opened,
                db,
                content,
                root,
                has,
                full,
                rooted,
                (collect_entries_iff e root.groups _ blank).0
                    (rw (searched, opened, has, full, rooted) at (h)),
              )
            ]
          ]
        ]
      ]

      back : Searchable o e → In e (searched u lib o)
      back (opened, db, content, root, has, full, rooted, exposed) =
          rw (searched, opened, has, full, rooted)
            ((collect_entries_iff e root.groups _ blank).1 exposed)

  -- A search by at least one attribute finds exactly the pairs of a database and an entry such that
  -- the database is one of those searched and is unlocked, the entry stands in its groups with
  -- neither its own group nor one above it in the recycle bin, and each of the attributes matches it.
  -- Trimming the empty text must leave it empty.
  pub search_entries_iff :
      (dbs : List OpenDatabase) (a : Bytes × Bytes) (attributes : List (Bytes × Bytes))
      (o : OpenDatabase) (e : Entry)
      → u.trim_space [] ≡ []
      → In (o, e) (search_entries u lib dbs (a ∷ attributes))
        ↔ (In o dbs × Searchable o e × All (Agrees o e) (a ∷ attributes))
  unfolding search_entries
  search_entries_iff dbs a attributes o e blank = (
    λ h.
        let (member, inside, matches) = search_each_sound (a ∷ attributes) dbs o e h in
        (
          member,
          (searched_iff o e blank).0 inside,
          (match_attributes_iff e o (a ∷ attributes)).0 matches,
        ),
    λ (member, inside, matches).
        search_each_complete (a ∷ attributes) dbs o e member ((searched_iff o e blank).1 inside)
          ((match_attributes_iff e o (a ∷ attributes)).1 matches),
  )
