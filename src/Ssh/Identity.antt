-- ===== src/Ssh/Identity.antt =====
-- internal/sshagent/manager.go and the data of key.go: the keys loaded into the agent, a map from
-- fingerprints. The lock of the manager makes each method one step. A signer is a value of a type
-- `S` that golang.org/x/crypto/ssh provides; `digest` is the SHA-256 of a blob in base64.
pub mod Laws
use kpxcd.Prelude.{
  ℕ, Bool, true, false, not, ◌&&◌, List, [], ◌∷◌, ◌++◌, map, Option, none, some, Bytes, codes,
  length, keep, null, lookup, insert, delete, ◌==◌, bytes_eq, bytes_Eq, if◌then◌else◌, is_some, ◌≡◌,
  All, Distinct,
}
use kpxcd.Prelude.Results.{Result, ok, err}

pub record Key (S : Type 0) : Type 0 where
  pub format : Bytes
  pub blob : Bytes
  pub comment : Bytes
  pub signer : Option S
  pub entry_uuid : Bytes
  pub db_uuid : Bytes

pub record LoadedKey (S : Type 0) : Type 0 where
  pub key : Key S
  pub lifetime : ℕ
  pub confirm : Bool
  pub auto_remove : Bool
  pub db_uuid : Bytes
  pub entry_uuid : Bytes

pub data AgentError : Type 0 where
  key_not_found bad_key_blob bad_data truncated_flags trailing_bytes reserved_flag : AgentError
  conflicting_flags unsupported_flags unsupported_algorithm sign_failed : AgentError
  unknown_message : ℕ → AgentError

abbrev pub Identities : Type 0 → Type 0
Identities S = List (Bytes × LoadedKey S)

module _ {S : Type 0} (digest : Bytes → Bytes) where
  unfoldable pub fingerprint : Key S → Bytes
  fingerprint k = if null k.blob then codes "SHA256:(empty)" else codes "SHA256:" ++ digest k.blob

module _ {S : Type 0} where
  unfoldable pub set_db_uuid : Bytes → Key S → Key S
  set_db_uuid u k = record k { db_uuid = u }

  -- The result of the loop over the map: its iteration order is that of the list.
  unfoldable pub find_identity_by_blob : Bytes → Identities S → Option (LoadedKey S)
  find_identity_by_blob blob [] = none
  find_identity_by_blob blob ((fp, lk) ∷ m) =
      if bytes_eq lk.key.blob blob then some lk else find_identity_by_blob blob m

  unfoldable pub find_identity_by_fingerprint : Bytes → Identities S → Option (LoadedKey S)
  find_identity_by_fingerprint fp m = lookup fp m

  unfoldable pub list_identities : Identities S → List (LoadedKey S)
  list_identities m = map (λ p. p.1) m

  -- The new map, or the error for a fingerprint that is not loaded.
  unfoldable pub remove_identity : Bytes → Identities S → Result AgentError (Identities S)
  remove_identity fp m = if is_some (lookup fp m) then ok (delete fp m) else err key_not_found

  unfoldable pub remove_all_identities : Identities S → Identities S
  remove_all_identities m = []

  -- The test of the loop that deletes a database's keys, negated.
  unfoldable pub stays : Bytes → Bytes × LoadedKey S → Bool
  stays uuid (fp, lk) = not (lk.db_uuid == uuid && lk.auto_remove)

  unfoldable pub remove_identities_for_database : Bytes → Identities S → Identities S
  unfolding stays
  remove_identities_for_database uuid m = keep (stays uuid) m

  unfoldable pub count : Identities S → ℕ
  count m = length m

module _ {S : Type 0} (digest : Bytes → Bytes) where
  unfoldable pub add_identity :
      Key S → ℕ → Bool → Bool → Bytes → Bytes → Identities S → Identities S
  unfolding fingerprint
  add_identity key lifetime confirm auto_remove db_uuid entry_uuid m =
      insert (fingerprint digest key)
        (record {
          key = key;
          lifetime = lifetime;
          confirm = confirm;
          auto_remove = auto_remove;
          db_uuid = db_uuid;
          entry_uuid = entry_uuid;
        })
        m

  -- A loaded key stands under its own fingerprint.
  abbrev pub Filed : Bytes × LoadedKey S → Type 0
  Filed (fp, lk) = fp ≡ fingerprint digest lk.key

  -- One entry for a fingerprint, and each under its own.
  pub record IsValid (m : Identities S) : Type 0 where
    pub distinct : Distinct m
    pub filed : All Filed m
