-- ===== src/Ssh/KeeAgent/Loaded.antt =====
-- What the agent has loaded after a database has been unlocked.
use kpxcd.Prelude.{
  ℕ, Bool, List, [], ◌∷◌, some, Bytes, bytes_Eq, ◌==◌, bytes_eq_iff, lookup, lookup-insert, ◌≡◌,
  ◌⊎◌, inl, inr, refl, sym, ap, ◌∙◌, arith, Bool-cases,
}
use kpxcd.Text.{Unicode}
use kpxcd.Keepass.{Entry, Library, Groups, all_entries, In}
use kpxcd.Ssh.Identity.{Key, LoadedKey, Identities, fingerprint, set_db_uuid, add_identity}
use kpxcd.Ssh.Server.{SshAgentConfig, add_keys, on_database_unlocked}
use kpxcd.Ssh.PrivateKey.{Formats}
use kpxcd.Ssh.KeeAgent.{Attachments, extract_key_from_entry, extract_keys_from_database}
use kpxcd.Ssh.KeeAgent.Forest.{extract_keys_from_database_iff}

module _ {S : Type 0} (digest : Bytes → Bytes) (cfg : SshAgentConfig) where
  -- The identity that stands for a key of the database.
  abbrev pub Stands : Bytes → Key S → LoadedKey S → Type 0
  Stands uuid k lk =
      (lk.key ≡ set_db_uuid uuid k)
      × (lk.db_uuid ≡ uuid)
      × (lk.entry_uuid ≡ k.entry_uuid)
      × (lk.auto_remove ≡ cfg.remove_on_lock)

  lookup-add_identity :
      (key : Key S) (lifetime : ℕ) (confirm auto : Bool) (uuid entry fp : Bytes) (m : Identities S)
      (lk : LoadedKey S)
      → lookup fp (add_identity digest key lifetime confirm auto uuid entry m) ≡ some lk
      → (lookup fp m ≡ some lk)
        ⊎ ((fp ≡ fingerprint digest key)
            × (lk.key ≡ key)
            × (lk.db_uuid ≡ uuid)
            × (lk.entry_uuid ≡ entry)
            × (lk.auto_remove ≡ auto))
  unfolding add_identity
  lookup-add_identity key lifetime confirm auto uuid entry fp m lk h =
      let loaded : LoadedKey S = record {
        key = key;
        lifetime = lifetime;
        confirm = confirm;
        auto_remove = auto;
        db_uuid = uuid;
        entry_uuid = entry;
      } in
      let given = sym (lookup-insert (fingerprint digest key) fp loaded m) ∙ h in
      elim (Bool-cases (fingerprint digest key == fp)) [
        | inr other ↦ inl (ground arith)
        | inl found ↦
            let same : lk ≡ loaded = ground arith in
            inr (
              sym ((bytes_eq_iff (fingerprint digest key) fp).0 found),
              ap (λ x. x.key) same,
              ap (λ x. x.db_uuid) same,
              ap (λ x. x.entry_uuid) same,
              ap (λ x. x.auto_remove) same,
            )
      ]

  lookup-add_keys :
      (keys : List (Key S)) (uuid fp : Bytes) (m : Identities S) (lk : LoadedKey S)
      → lookup fp (add_keys digest cfg keys uuid m) ≡ some lk
      → (lookup fp m ≡ some lk)
        ⊎ ((k : Key S) × In k keys × (fp ≡ fingerprint digest lk.key) × Stands uuid k lk)
  unfolding add_keys add_identity set_db_uuid
  lookup-add_keys [] uuid fp m lk h = inl h
  lookup-add_keys (k ∷ ks) uuid fp m lk h = elim (lookup-add_keys ks uuid fp _ lk h) [
    | inr (key, later, filed, stands) ↦ inr (key, inr later, filed, stands)
    | inl here ↦ elim (lookup-add_identity (set_db_uuid uuid k) _ _ _ uuid _ fp m lk here) [
      | inl before ↦ inl before
      | inr (filed, key, db, of_entry, auto) ↦
          inr (k, inl refl, filed ∙ ap (fingerprint digest) (sym key), (key, db, of_entry, auto))
    ]
  ]

module _ {R S : Type 0} (u : Unicode) (lib : Library) (formats : Formats R S) (files : Attachments)
    (digest : Bytes → Bytes) (cfg : SshAgentConfig) where
  -- Whatever identity the agent finds under a fingerprint after a database has been unlocked, it
  -- either found it there before, or it stands under its own fingerprint for the key that an entry
  -- of this database yields, with the database's identifier and the entry's UUID, and it is marked
  -- for removal as `remove_on_lock` says.
  pub on_database_unlocked-extracted :
      (gs : Groups) (uuid fp : Bytes) (m : Identities S) (lk : LoadedKey S)
      → let keys = extract_keys_from_database u lib formats files (some gs) in
        lookup fp (on_database_unlocked digest cfg keys uuid m) ≡ some lk
        → (lookup fp m ≡ some lk)
          ⊎ ((e : Entry) × (k : Key S) × In e (all_entries gs)
              × (extract_key_from_entry u lib formats files e ≡ some k)
              × (fp ≡ fingerprint digest lk.key)
              × Stands digest cfg uuid k lk)
  unfolding on_database_unlocked
  on_database_unlocked-extracted gs uuid fp m lk h =
      let keys = extract_keys_from_database u lib formats files (some gs) in
      elim (Bool-cases cfg.enabled) [
        | inr off ↦ inl (ground arith)
        | inl on ↦ elim (lookup-add_keys digest cfg keys uuid fp m lk (ground arith)) [
          | inl before ↦ inl before
          | inr (k, there, filed, stands) ↦
              let (e, inside, yields) =
                (extract_keys_from_database_iff u lib formats files gs k).0 there in
              inr (e, k, inside, yields, filed, stands)
        ]
      ]
