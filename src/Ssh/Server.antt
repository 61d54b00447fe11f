-- ===== src/Ssh/Server.antt =====
-- internal/sshagent/server.go: the handlers of the agent's messages and the loop over one
-- connection. golang.org/x/crypto/ssh is the record `SshLibrary` over its signer type `S` and its
-- signature type `G`; a handler returns the identities after it and the answer or the error. The
-- bytes that a client sends are known from the start, and writes to the client succeed.
pub mod Flags
pub mod Handlers
pub mod Removing
pub mod Connection
pub mod Database
use kpxcd.Prelude.{
  ℕ, zero, suc, ◌+◌, ◌/◌, ◌%◌, Bool, true, false, not, ◌&&◌, ◌||◌, List, [], ◌∷◌, ◌++◌, map, Option,
  none, some, Bytes, codes, length, ltb, nat_eq, null, if◌then◌else◌,
}
use kpxcd.Prelude.Results.{Result, ok, err, ◌>>=◌, ◌>>◌, guard}
use kpxcd.Ssh.Wire.{
  agent_failure, agent_success, request_identities, sign_request, sign_response, extension_request,
  add_identity_request, add_id_constrained_request, remove_identity_request,
  remove_all_identities_request, remove_all_rsa_identities_request, decode_message_type,
  decode_string, decode_uint32, encode_string, encode_identities_answer, read_message,
  write_message, uint32,
}
use kpxcd.Ssh.Identity.{
  Key, LoadedKey, Identities, AgentError, bad_key_blob, bad_data, truncated_flags, trailing_bytes,
  key_not_found, reserved_flag, conflicting_flags, unsupported_flags, unsupported_algorithm,
  sign_failed, unknown_message, fingerprint, find_identity_by_blob, list_identities,
  remove_identity, remove_all_identities, remove_identities_for_database, add_identity, set_db_uuid,
}

-- What the agent uses of golang.org/x/crypto/ssh, with the SHA-256 digest in base64. A signer that
-- is no `AlgorithmSigner` has no `sign_with_algorithm`; `none` in its result is an error.
pub record SshLibrary (S G : Type 0) : Type 0 where
  pub digest : Bytes → Bytes
  pub sign : S → Bytes → Option G
  pub sign_with_algorithm : S → Option (Bytes → Bytes → Option G)
  pub marshal : G → Bytes

-- The bit of `flags` with the value `mask`, a power of two.
has_flag : ℕ → ℕ → Bool
has_flag flags mask = nat_eq (flags / mask % 2) 1

abbrev pub rsa_sha256 : Bytes
rsa_sha256 = codes "rsa-sha2-256"

abbrev pub rsa_sha512 : Bytes
rsa_sha512 = codes "rsa-sha2-512"

-- `flags &^ known` keeps the bits above the three known ones.
unfoldable pub signature_algorithm_for_flags : ℕ → Result AgentError Bytes
unfolding has_flag
signature_algorithm_for_flags flags =
    let rsa256 = has_flag flags 2 in
    let rsa512 = has_flag flags 4 in
    if has_flag flags 1
    then err reserved_flag
    else if rsa256 && rsa512
    then err conflicting_flags
    else if ltb 0 (flags / 8)
    then err unsupported_flags
    else if rsa256
    then ok rsa_sha256
    else if rsa512
    then ok rsa_sha512
    else ok []

-- The optional flags behind the data of a sign request.
unfoldable pub sign_flags : Bytes → Result AgentError ℕ
sign_flags rest = if null rest then ok 0 else elim (decode_uint32 rest) [
  | none ↦ err truncated_flags
  | some (flags, more) ↦ if null more then ok flags else err trailing_bytes
]

abbrev or_fail {ℓ} : {A : Type ℓ} → Option A → AgentError → Result AgentError A
or_fail none e = err e
or_fail (some a) e = ok a

module _ {S G : Type 0} (ssh : SshLibrary S G) where
  -- With an algorithm name the signer has to support algorithms; with none its default is used.
  sign_by : Option S → Bytes → Bytes → Result AgentError G
  sign_by none algorithm text =
      if null algorithm then err sign_failed else err unsupported_algorithm
  sign_by (some signer) algorithm text =
      if null algorithm
      then or_fail (ssh.sign signer text) sign_failed
      else elim (ssh.sign_with_algorithm signer) [
        | none ↦ err unsupported_algorithm
        | some sign_with ↦ or_fail (sign_with text algorithm) sign_failed
      ]

  unfoldable pub handle_sign_request : Bytes → Identities S → Result AgentError Bytes
  unfolding sign_by
  handle_sign_request payload m = do
    (blob, rest) ← or_fail (decode_string payload) bad_key_blob
    (text, tail) ← or_fail (decode_string rest) bad_data
    flags ← sign_flags tail
    lk ← or_fail (find_identity_by_blob blob m) key_not_found
    algorithm ← signature_algorithm_for_flags flags
    sig ← sign_by lk.key.signer algorithm text
    ok (encode_string (sign_response ∷ []) (ssh.marshal sig))

  unfoldable pub handle_list_identities : Identities S → Bytes
  handle_list_identities m =
      let keys = list_identities m in
      encode_identities_answer (map (λ lk. lk.key.blob) keys) (map (λ lk. lk.key.comment) keys)

  -- The error of `RemoveIdentity` is dropped by the source: the map then stays as it is.
  removed : Result AgentError (Identities S) → Identities S → Identities S
  removed (ok m') m = m'
  removed (err _) m = m

  remove_found : Option (LoadedKey S) → Identities S → Identities S × Bytes
  unfolding removed
  remove_found none m = (m, agent_failure ∷ [])
  remove_found (some lk) m =
      (removed (remove_identity (fingerprint ssh.digest lk.key) m) m, agent_success ∷ [])

  unfoldable pub handle_remove_identity : Bytes → Identities S → Identities S × Bytes
  unfolding remove_found
  handle_remove_identity payload m = elim (decode_string payload) [
    | none ↦ (m, agent_failure ∷ [])
    | some (blob, rest) ↦
        if null rest then remove_found (find_identity_by_blob blob m) m else (m, agent_failure ∷ [])
  ]

  -- The identities after the message, and the answer or the error.
  unfoldable pub process_message : Bytes → Identities S → Identities S × Result AgentError Bytes
  process_message msg m =
      let (typ, payload) = decode_message_type msg in
      if nat_eq typ request_identities
      then (m, ok (handle_list_identities m))
      else if nat_eq typ sign_request
      then (m, handle_sign_request payload m)
      else if nat_eq typ extension_request
      then (m, ok (agent_failure ∷ []))
      else if nat_eq typ add_identity_request || nat_eq typ add_id_constrained_request
      then (m, ok (agent_failure ∷ []))
      else if nat_eq typ remove_identity_request
      then (let (m', answer) = handle_remove_identity payload m in (m', ok answer))
      else if nat_eq typ remove_all_identities_request
      then (remove_all_identities m, ok (agent_success ∷ []))
      else if nat_eq typ remove_all_rsa_identities_request
      then (m, ok (agent_success ∷ []))
      else (m, err (unknown_message typ))

  -- What is done with the result of one message; `rest` serves the messages behind it.
  answer_message :
      Identities S × Result AgentError Bytes
      → (Identities S → Option (Identities S × Bytes))
      → Option (Identities S × Bytes)
  answer_message (m, err e) rest = some (m, write_message (agent_failure ∷ []))
  answer_message (m, ok answer) rest = elim (rest m) [
    | none ↦ none
    | some (m', out) ↦ some (m', write_message answer ++ out)
  ]

  -- One connection: the identities at its end and the bytes written to the client. `none` means
  -- that the fuel ran out; a fuel above the number of bytes is enough.
  unfoldable pub handle_conn : ℕ → Bytes → Identities S → Option (Identities S × Bytes)
  unfolding answer_message
  handle_conn zero s m = none
  handle_conn (suc fuel) s m = elim (read_message s) [
    | err e ↦ some (m, [])
    | ok (msg, rest) ↦ answer_message (process_message msg m) (λ m'. handle_conn fuel rest m')
  ]

-- The settings that the handlers of pool events read; the lifetime is not negative.
pub record SshAgentConfig : Type 0 where
  pub enabled : Bool
  pub remove_on_lock : Bool
  pub confirm_on_use : Bool
  pub lifetime : ℕ

module _ {S : Type 0} (digest : Bytes → Bytes) (cfg : SshAgentConfig) where
  -- The loop over the extracted keys.
  unfoldable pub add_keys : List (Key S) → Bytes → Identities S → Identities S
  add_keys [] uuid m = m
  add_keys (k ∷ ks) uuid m =
      let key = set_db_uuid uuid k in
      add_keys ks uuid (
        add_identity digest key (uint32 cfg.lifetime) cfg.confirm_on_use cfg.remove_on_lock uuid
          key.entry_uuid m)

  -- `keys` are those that `ExtractKeysFromDatabase` found.
  unfoldable pub on_database_unlocked : List (Key S) → Bytes → Identities S → Identities S
  unfolding add_keys
  on_database_unlocked keys uuid m = if cfg.enabled then add_keys keys uuid m else m

  unfoldable pub on_database_locked : Bytes → Identities S → Identities S
  on_database_locked uuid m = if cfg.enabled then remove_identities_for_database uuid m else m
