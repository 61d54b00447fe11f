-- ===== src/Ssh/Server/Database.antt =====
-- What a database's unlock and lock do to the loaded identities.
use kpxcd.Prelude.{
  true, not, ◌&&◌, List, [], ◌∷◌, none, some, Bytes, lookup, keep, ◌≡◌, ◌≢◌, inl, inr, arith, All,
  ◌==◌, bytes_Eq, bytes_eq, bytes_eq_iff, if◌then◌else◌, ◌>>=◌, All-insert, Bool-cases,
}
use kpxcd.Ssh.Identity.{
  Key, LoadedKey, Identities, IsValid, add_identity, remove_identities_for_database, stays,
}
use kpxcd.Ssh.Identity.Laws.{lookup-remove_identities_for_database, add_identity-IsValid}
use kpxcd.Ssh.Server.{SshAgentConfig, on_database_unlocked, on_database_locked, add_keys}

module _ {S : Type 0} where
  -- Every key of the database goes when it locks.
  abbrev pub Leaves : Bytes → Bytes × LoadedKey S → Type 0
  Leaves uuid (fp, lk) = lk.db_uuid ≡ uuid → lk.auto_remove ≡ true

  abbrev pub NotOf : Bytes → Bytes × LoadedKey S → Type 0
  NotOf uuid (fp, lk) = lk.db_uuid ≢ uuid

  keep-NotOf :
      (uuid : Bytes) (m : Identities S)
      → All (Leaves uuid) m
      → All (NotOf uuid) (keep (stays uuid) m)
  unfolding stays
  keep-NotOf uuid [] h = tt
  keep-NotOf uuid ((fp, lk) ∷ m) h =
      let rest = keep-NotOf uuid m h.1 in
      let test = bytes_eq_iff lk.db_uuid uuid in
      elim (Bool-cases (bytes_eq lk.db_uuid uuid)) [
        | inl same ↦ let gone : lk.auto_remove ≡ true = h.0 (test.0 same) in rw (same, gone) rest
        | inr other ↦ rw other ((λ e. absurd (ground (arith, test.1 e))), rest)
      ]

module _ {S : Type 0} (digest : Bytes → Bytes) (cfg : SshAgentConfig) where
  add_keys-IsValid :
      (keys : List (Key S)) (uuid : Bytes) (m : Identities S)
      → IsValid digest m
      → IsValid digest (add_keys digest cfg keys uuid m)
  unfolding add_keys
  add_keys-IsValid [] uuid m v = v
  add_keys-IsValid (k ∷ ks) uuid m v =
      add_keys-IsValid ks uuid _ (add_identity-IsValid digest _ _ _ _ _ _ m v)

  add_keys-Leaves :
      (keys : List (Key S)) (uuid : Bytes) (m : Identities S)
      → cfg.remove_on_lock ≡ true
      → All (Leaves uuid) m
      → All (Leaves uuid) (add_keys digest cfg keys uuid m)
  unfolding add_keys add_identity
  add_keys-Leaves [] uuid m on h = h
  add_keys-Leaves (k ∷ ks) uuid m on h =
      add_keys-Leaves ks uuid _ on (All-insert (Leaves uuid) _ _ m (λ j e same. on) h)

  -- With the agent enabled and `remove_on_lock` set, no key of a database stays in the agent
  -- when the database locks after an unlock, if every key of it that was loaded before is marked
  -- for removal.
  pub on_database_locked-unlocked :
      (keys : List (Key S)) (uuid : Bytes) (m : Identities S)
      → cfg.enabled ≡ true
      → cfg.remove_on_lock ≡ true
      → All (Leaves uuid) m
      → All
          (NotOf uuid)
          (on_database_locked digest cfg uuid (on_database_unlocked digest cfg keys uuid m))
  unfolding on_database_locked on_database_unlocked remove_identities_for_database
  on_database_locked-unlocked keys uuid m on leave h =
      simp on (keep-NotOf uuid _ (add_keys-Leaves keys uuid m leave h))

  -- Locking a database takes exactly its own keys that are marked for removal: every other loaded
  -- key is found as before, and nothing is found that was not there.
  pub lookup-on_database_locked :
      (uuid fp : Bytes) (m : Identities S)
      → cfg.enabled ≡ true
      → IsValid digest m
      → lookup fp (on_database_locked digest cfg uuid m) ≡ (
          lookup fp m >>= λ lk.
          if not (lk.db_uuid == uuid && lk.auto_remove) then some lk else none)
  unfolding on_database_locked
  lookup-on_database_locked uuid fp m on v =
      simp on (lookup-remove_identities_for_database uuid fp m v.distinct)
