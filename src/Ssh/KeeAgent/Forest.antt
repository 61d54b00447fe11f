-- ===== src/Ssh/KeeAgent/Forest.antt =====
-- The keys of a whole database.
use kpxcd.Prelude.{
  List, [], ◌∷◌, ◌++◌, some, ◌≡◌, ◌⊎◌, ◌↔◌, inl, inr, refl, sym, ap, ◌∙◌, subst, arith,
  Option-cases,
}
use kpxcd.Text.{Unicode}
use kpxcd.Keepass.{Entry, Library, Groups, leaf, group, all_entries, In}
use kpxcd.Ssh.Identity.{Key}
use kpxcd.Ssh.PrivateKey.{Formats}
use kpxcd.Ssh.KeeAgent.{
  Attachments, extract_key_from_entry, keys_of_entries, extract_keys_from_groups,
  extract_keys_from_database,
}

module _ {R S : Type 0} (u : Unicode) (lib : Library) (formats : Formats R S)
    (files : Attachments) where
  keys_of_entries-append :
      (es fs : List Entry)
      → keys_of_entries u lib formats files (es ++ fs)
        ≡ keys_of_entries u lib formats files es ++ keys_of_entries u lib formats files fs
  unfolding keys_of_entries
  keys_of_entries-append [] fs = refl
  keys_of_entries-append (e ∷ es) fs = ground (arith, keys_of_entries-append es fs)

  extract_keys_from_groups-all_entries :
      (gs : Groups)
      → extract_keys_from_groups u lib formats files gs
        ≡ keys_of_entries u lib formats files (all_entries gs)
  unfolding extract_keys_from_groups keys_of_entries all_entries
  extract_keys_from_groups-all_entries leaf = refl
  extract_keys_from_groups-all_entries (group g es children rest) =
      rw
        (
          keys_of_entries-append es (all_entries children ++ all_entries rest),
          keys_of_entries-append (all_entries children) (all_entries rest),
          extract_keys_from_groups-all_entries children,
          extract_keys_from_groups-all_entries rest,
        )
        refl

  keys_of_entries-In :
      (es : List Entry) (k : Key S)
      → In k (keys_of_entries u lib formats files es)
      → (e : Entry) × In e es × (extract_key_from_entry u lib formats files e ≡ some k)
  unfolding keys_of_entries
  keys_of_entries-In [] k h = absurd h
  keys_of_entries-In (e ∷ es) k h =
      elim (Option-cases (extract_key_from_entry u lib formats files e)) [
        | inl without ↦
            let later = rw (keys_of_entries, without) at (h) in
            let (f, there, found) = keys_of_entries-In es k later in (f, inr there, found)
        | inr (key, yields) ↦
            let split : (k ≡ key) ⊎ In k (keys_of_entries u lib formats files es) =
              rw (keys_of_entries, yields) at (h) in
            elim split [
              | inl same ↦ (e, inl refl, yields ∙ ap some (sym same))
              | inr later ↦
                  let (f, there, found) = keys_of_entries-In es k later in (f, inr there, found)
            ]
      ]

  In-keys_of_entries :
      (es : List Entry) (e : Entry) (k : Key S)
      → In e es
      → extract_key_from_entry u lib formats files e ≡ some k
      → In k (keys_of_entries u lib formats files es)
  unfolding keys_of_entries
  In-keys_of_entries [] e k h found = absurd h
  In-keys_of_entries (f ∷ es) e k (inl here) found =
      let now : extract_key_from_entry u lib formats files f ≡ some k =
        ap (extract_key_from_entry u lib formats files) (sym here) ∙ found in
      rw (keys_of_entries, now) (inl refl)
  In-keys_of_entries (f ∷ es) e k (inr there) found =
      let later = In-keys_of_entries es e k there found in
      elim (Option-cases (extract_key_from_entry u lib formats files f)) [
        | inl without ↦ rw (keys_of_entries, without) later
        | inr (key, yields) ↦ rw (keys_of_entries, yields) (inr later)
      ]

  -- The keys of a database are exactly those that its entries yield, in whatever group they stand.
  pub extract_keys_from_database_iff :
      (gs : Groups) (k : Key S)
      → In k (extract_keys_from_database u lib formats files (some gs)) ↔ (
          (e : Entry) × In e (all_entries gs)
          × (extract_key_from_entry u lib formats files e ≡ some k))
  unfolding extract_keys_from_database
  extract_keys_from_database_iff gs k =
      let flat = extract_keys_from_groups-all_entries gs in
      (
        λ h. keys_of_entries-In (all_entries gs) k (subst (In k) flat h),
        λ (e, there, found).
            subst (In k) (sym flat) (In-keys_of_entries (all_entries gs) e k there found),
      )
