-- ===== src/Examples/SshRuns.antt =====
-- Runs of the SSH agent with one loaded key; a signer is its own signature's prefix.
use kpxcd.Prelude.{
  ℕ, true, false, List, [], ◌∷◌, ◌++◌, some, Bytes, codes, lookup, bytes_Eq, bytes_eq, ◌≡◌, refl,
  arith,
}
use kpxcd.Prelude.Results.{ok}
use kpxcd.Ssh.Wire.{
  sign_response, encode_string, decode_string, decode_uint32, write_message,
  remove_identity_request, encode_uint32,
}
use kpxcd.Ssh.Identity.{Key, LoadedKey, Identities, IsValid, fingerprint, find_identity_by_blob}
use kpxcd.Ssh.Server.{
  handle_sign_request, sign_flags, SshLibrary, SshAgentConfig, handle_conn,
  signature_algorithm_for_flags, rsa_sha256,
}
use kpxcd.Ssh.Server.Handlers.{handle_sign_request_sound, Signed}
use kpxcd.Ssh.Server.Connection.{handle_conn-serve, handle_conn_total, frames, serve}

abbrev ssh : SshLibrary Bytes Bytes
ssh = record {
  digest = λ b. b;
  sign = λ s t. some (s ++ t);
  sign_with_algorithm = λ s. some (λ t a. some (s ++ (t ++ a)));
  marshal = λ g. g;
}

abbrev blob : Bytes
blob = 7 ∷ 8 ∷ 9 ∷ []

abbrev pub key : Key Bytes
key = record {
  format = codes "ssh-ed25519";
  blob = blob;
  comment = codes "me";
  signer = some (codes "s");
  entry_uuid = codes "e";
  db_uuid = codes "d";
}

abbrev loaded : LoadedKey Bytes
loaded = record {
  key = key;
  lifetime = 0;
  confirm = false;
  auto_remove = true;
  db_uuid = codes "d";
  entry_uuid = codes "e";
}

abbrev pub identities : Identities Bytes
identities = (codes "SHA256:" ++ blob, loaded) ∷ []

identities-IsValid : IsValid ssh.digest identities
unfolding fingerprint lookup
identities-IsValid = record { distinct = (refl, tt); filed = (refl, tt) }

abbrev remove_payload : Bytes
remove_payload = 0 ∷ 0 ∷ 0 ∷ 3 ∷ 7 ∷ 8 ∷ 9 ∷ []

parsed : decode_string remove_payload ≡ some (blob, [])
unfolding decode_string decode_uint32
parsed = refl

abbrev messages : List Bytes
messages = (11 ∷ []) ∷ (remove_identity_request ∷ remove_payload) ∷ []

handle_conn-serve_example :
    handle_conn ssh 100 (frames messages) identities ≡ some (serve ssh messages identities)
unfolding write_message encode_uint32
handle_conn-serve_example =
    handle_conn-serve ssh messages 100 identities
      ((omega arith, omega arith), ((omega arith, omega arith), tt)) (omega arith)

handle_conn_total_example :
    (m' : Identities Bytes) × (out : Bytes) × (handle_conn ssh 9
        (0 ∷ 0 ∷ 0 ∷ 1 ∷ 19 ∷ 255 ∷ [])
        identities
      ≡ some (m', out))
    × IsValid ssh.digest m'
handle_conn_total_example =
    handle_conn_total ssh 9 (0 ∷ 0 ∷ 0 ∷ 1 ∷ 19 ∷ 255 ∷ []) identities identities-IsValid
      (omega arith)

abbrev four : ℕ
four = 4

abbrev pairs : List (Bytes × Bytes)
pairs = (blob, codes "me") ∷ []

abbrev pub agent_config : SshAgentConfig
agent_config = record {
  enabled = true;
  remove_on_lock = true;
  confirm_on_use = false;
  lifetime = 0;
}

abbrev sign_payload : Bytes
sign_payload = 0 ∷ 0 ∷ 0 ∷ 3 ∷ 7 ∷ 8 ∷ 9 ∷ 0 ∷ 0 ∷ 0 ∷ 1 ∷ 5 ∷ 0 ∷ 0 ∷ 0 ∷ 2 ∷ []

abbrev signature : Bytes
signature = codes "s" ++ (5 ∷ rsa_sha256)

signs :
    handle_sign_request ssh sign_payload identities
    ≡ ok (encode_string (sign_response ∷ []) signature)
unfolding handle_sign_request decode_string decode_uint32 sign_flags find_identity_by_blob
    signature_algorithm_for_flags bytes_eq
signs = refl

handle_sign_request_sound_example :
    (b : Bytes) × (rest : Bytes) × (text : Bytes) × (tail : Bytes) × (lk : LoadedKey Bytes)
    × (s : Bytes) × (g : Bytes) × (decode_string sign_payload ≡ some (b, rest))
    × (decode_string rest ≡ some (text, tail))
    × (lookup (fingerprint ssh.digest lk.key) identities ≡ some lk)
    × (lk.key.blob ≡ b)
    × (lk.key.signer ≡ some s)
    × Signed ssh s text g
    × (encode_string (sign_response ∷ []) signature ≡ encode_string (sign_response ∷ []) g)
handle_sign_request_sound_example =
    handle_sign_request_sound ssh sign_payload identities
      (encode_string (sign_response ∷ []) signature) identities-IsValid signs
