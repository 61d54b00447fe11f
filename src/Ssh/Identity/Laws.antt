-- ===== src/Ssh/Identity/Laws.antt =====
-- Every method keeps the identities filed under their fingerprints, and what removal removes.
use kpxcd.Prelude.{
  ℕ, Bool, [], ◌∷◌, none, some, Bytes, lookup, delete, ◌==◌, bytes_eq, bytes_eq_iff, bytes_Eq, ◌≡◌,
  refl, sym, ap, ◌∙◌, inl, inr, All, Distinct, Distinct-insert, Distinct-delete, Distinct-keep,
  All-insert, All-delete, All-keep, lookup-keep, Bool-cases, if◌then◌else◌, arith, ◌>>=◌, not, ◌&&◌,
}
use kpxcd.Prelude.Results.{ok}
use kpxcd.Ssh.Identity.{
  Key, LoadedKey, Identities, fingerprint, find_identity_by_blob, remove_identity,
  remove_identities_for_database, add_identity, Filed, IsValid, stays,
}

module _ {S : Type 0} (digest : Bytes → Bytes) where
  pub add_identity-IsValid :
      (key : Key S) (lifetime : ℕ) (confirm auto : Bool) (db entry : Bytes) (m : Identities S)
      → IsValid digest m
      → IsValid digest (add_identity digest key lifetime confirm auto db entry m)
  unfolding add_identity
  add_identity-IsValid key lifetime confirm auto db entry m v = record {
    distinct = Distinct-insert _ _ m v.distinct;
    filed = All-insert (Filed digest) _ _ m (λ j e. e) v.filed;
  }

  pub delete-IsValid :
      (fp : Bytes) (m : Identities S) → IsValid digest m → IsValid digest (delete fp m)
  delete-IsValid fp m v = record {
    distinct = Distinct-delete fp m v.distinct;
    filed = All-delete (Filed digest) fp m v.filed;
  }

  pub remove_identity-IsValid :
      (fp : Bytes) (m m' : Identities S)
      → IsValid digest m
      → remove_identity fp m ≡ ok m'
      → IsValid digest m'
  unfolding remove_identity
  remove_identity-IsValid fp m m' v e = ground (arith, delete-IsValid fp m v)

  pub remove_identities_for_database-IsValid :
      (uuid : Bytes) (m : Identities S)
      → IsValid digest m
      → IsValid digest (remove_identities_for_database uuid m)
  unfolding remove_identities_for_database
  remove_identities_for_database-IsValid uuid m v = record {
    distinct = Distinct-keep (stays uuid) m v.distinct;
    filed = All-keep (Filed digest) (stays uuid) m v.filed;
  }

module _ {S : Type 0} where
  -- A key that is found has the blob.
  pub find_identity_by_blob-blob :
      (blob : Bytes) (m : Identities S) {lk : LoadedKey S}
      → find_identity_by_blob blob m ≡ some lk
      → lk.key.blob ≡ blob
  unfolding find_identity_by_blob
  find_identity_by_blob-blob blob [] e = absurd (cc)
  find_identity_by_blob-blob blob ((fp, x) ∷ m) {lk} e =
      elim (Bool-cases (bytes_eq x.key.blob blob)) [
        | inl hit ↦
            let same : x ≡ lk = ground arith in
            sym (ap (λ y. y.key.blob) same) ∙ (bytes_eq_iff x.key.blob blob).0 hit
        | inr miss ↦ find_identity_by_blob-blob blob m {lk = lk} (ground arith)
      ]

  pub lookup-remove_identities_for_database :
      (uuid fp : Bytes) (m : Identities S)
      → Distinct m
      → lookup fp (remove_identities_for_database uuid m) ≡ (
          lookup fp m >>= λ lk.
          if not (lk.db_uuid == uuid && lk.auto_remove) then some lk else none)
  unfolding remove_identities_for_database
  lookup-remove_identities_for_database uuid fp m d = lookup-keep (stays uuid) fp m d

module _ {S : Type 0} (digest : Bytes → Bytes) where
  pub find_identity_by_blob-lookup :
      (blob : Bytes) (m : Identities S) {lk : LoadedKey S}
      → All (Filed digest) m
      → Distinct m
      → find_identity_by_blob blob m ≡ some lk
      → lookup (fingerprint digest lk.key) m ≡ some lk
  unfolding find_identity_by_blob lookup
  find_identity_by_blob-lookup blob [] f d e = absurd (cc)
  find_identity_by_blob-lookup blob ((fp, x) ∷ m) {lk} f d e =
      elim (Bool-cases (bytes_eq x.key.blob blob)) [
        | inl hit ↦
            let same : x ≡ lk = ground arith in
            let own : fp ≡ fingerprint digest lk.key =
              f.0 ∙ ap (λ y. fingerprint digest y.key) same in
            ground (arith, bytes_eq_iff fp (fingerprint digest lk.key))
        | inr miss ↦
            let rest = find_identity_by_blob-lookup blob m {lk = lk} f.1 d.1 (ground arith) in
            ground (arith, bytes_eq_iff fp (fingerprint digest lk.key))
      ]

  -- With one blob's fingerprint deleted no key with that blob is left.
  pub find-delete :
      (fp blob : Bytes) (m : Identities S)
      → All (Filed digest) m
      → ((k : Key S) → k.blob ≡ blob → fingerprint digest k ≡ fp)
      → find_identity_by_blob blob (delete fp m) ≡ none
  unfolding find_identity_by_blob delete
  find-delete fp blob [] f h = refl
  find-delete fp blob ((j, x) ∷ m) f h = ground (
    arith,
    find-delete fp blob m f.1 h,
    bytes_eq_iff x.key.blob blob,
    bytes_eq_iff j fp,
    h x.key,
    f.0,
  )
