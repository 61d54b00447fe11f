-- ===== src/SecretService/Service/Lifecycle/Encrypted.antt =====
-- A client that opens an encrypted session reads the secret it asks for, if the secret it shares
-- with the service does not begin with a zero.
use kpxcd.Prelude.{
  ◌^◌, ◌≤◌, ◌∙◌, ℕ, suc, true, false, [], ◌∷◌, none, some, Bytes, codes, bytes_Eq, bytes_eq, ◌==◌,
  null, insert, lookup-insert_self, ◌≡◌, refl, sym, ap, subst, arith,
}
use kpxcd.Prelude.Results.{ok}
use kpxcd.SecretService.Session.{new_encrypted_session, decrypt}
use kpxcd.SecretService.Session.RoundTrip.{decrypt-encrypt_session}
use kpxcd.SecretService.Paths.{session_path}
use kpxcd.SecretService.DiffieHellman.{
  bytes, client_public_key, generate_dh_key_pair, exp, set_bytes, int_bytes, dh_prime,
}
use kpxcd.SecretService.DiffieHellman.Agreement.{generate_dh_key_pair_agree}
use kpxcd.SecretService.DiffieHellman.Numbers.{set_bytes-int_bytes, padded, padded_iff}
use kpxcd.SecretService.Service.{SecretService, Databases, open_entries, collect_entries_for_db}
use kpxcd.SecretService.Service.Objects.{Item, get_item_by_path, find_in_collections}
use kpxcd.SecretService.Service.Access.{caller_info, authorize_secret_access}
use kpxcd.SecretService.Service.Requests.{
  open_session, is_dh, negotiate_dh, handle_dh_key_exchange, public_key, validate_session,
}
use kpxcd.SecretService.Service.Secrets.{
  Environment, DbusSecret, dbus_secret, password, get_secrets_each, get_secrets,
}

-- The name of the algorithm of encrypted sessions.
abbrev pub dh : Bytes
dh = codes "dh-ietf1024-sha256-aes128-cbc"

not_plain : (dh == codes "plain") ≡ false
unfolding bytes_eq
not_plain = refl

dh_known : is_dh dh ≡ true
unfolding is_dh bytes_eq
dh_known = refl

-- The secret that a side with a private key shares with the one that sends it a public key.
abbrev pub shared : Bytes → ℕ → ℕ
shared public private = exp (set_bytes public) private dh_prime

-- The service derives its key from the bytes that `Int.Bytes` gives of the shared secret.
abbrev derived : (Bytes → Bytes) → Bytes → ℕ → Bytes
derived derive public private = derive (int_bytes (shared public private))

-- A client that derives its key from the shared secret in 128 bytes, the length of the prime.
abbrev pub client_key : (Bytes → Bytes) → Bytes → ℕ → Bytes
client_key derive public private = derive (padded (shared public private))

-- The secret as the client of one key pair has it, from the public key of the other.
abbrev pub client_secret : Bytes → Bytes → ℕ
client_secret server client =
    shared (int_bytes (generate_dh_key_pair server).1) (generate_dh_key_pair client).0

derived-client_secret :
    (derive : Bytes → Bytes) (server client : Bytes)
    → derived derive (int_bytes (generate_dh_key_pair client).1) (generate_dh_key_pair server).0
      ≡ derive (int_bytes (client_secret server client))
derived-client_secret derive server client =
    rw
      (
        set_bytes-int_bytes (generate_dh_key_pair client).1,
        set_bytes-int_bytes (generate_dh_key_pair server).1,
      )
      (generate_dh_key_pair_agree derive server client).0

-- The service's state and answer after a client has sent its public key.
opened_with :
    (ss : SecretService) (derive : Bytes → Bytes) (random client : Bytes)
    → let mine = generate_dh_key_pair client in
      let theirs = generate_dh_key_pair random in
      let session = session_path ss.next_id in
      let sess = new_encrypted_session session (derived derive (int_bytes mine.1) theirs.0) in
      open_session derive random dh (bytes (int_bytes mine.1)) ss ≡ (
        record ss { next_id = suc ss.next_id; sessions = insert session sess ss.sessions },
        ok (public_key (int_bytes theirs.1), session),
      )
unfolding open_session negotiate_dh handle_dh_key_exchange client_public_key
opened_with ss derive random client =
    rw (open_session, not_plain, dh_known, negotiate_dh, handle_dh_key_exchange, client_public_key)
      refl

-- If no confirmation is required, AES takes every derived key, and the secret that a client shares
-- with the service needs all of the 128 bytes in which the client writes it, then in every state in
-- which an item stands under a path, the client that sends its public key opens an encrypted
-- session, and the answer to its request for that item is one secret, which the key that the client
-- derives decrypts to the password of the item's entry.
pub open_session-encrypted :
    (env : Environment) (d : Databases) (ss : SecretService) (derive : Bytes → Bytes)
    (random client sender path : Bytes) (item : Item)
    → (ss.config).require_confirmation ≡ false
    → get_item_by_path env.unicode d ss path ≡ some item
    → ((s : Bytes) → null (derive s) ≡ false)
    → ((s : Bytes) → (env.cipher).accepts (derive s) ≡ true)
    → 256 ^ 127 ≤ client_secret random client
    → let mine = generate_dh_key_pair client in
      let opened = open_session derive random dh (bytes (int_bytes mine.1)) ss in
      let session = session_path ss.next_id in
      (public : Bytes) × (opened.1 ≡ ok (public_key public, session))
      × (secret : DbusSecret) × ((get_secrets env d sender (path ∷ []) session opened.0).1
          ≡ ok ((path, secret) ∷ []))
      × (decrypt env.cipher
            (new_encrypted_session session (client_key derive public mine.0))
            secret.parameters
            secret.value
          ≡ ok (password env d item.entry))
unfolding open_session get_secrets get_secrets_each validate_session get_item_by_path
    find_in_collections open_entries collect_entries_for_db authorize_secret_access insert
    new_encrypted_session negotiate_dh handle_dh_key_exchange client_public_key dbus_secret
open_session-encrypted env d ss derive random client sender path item free found filled accepted
      large =
    let mine = generate_dh_key_pair client in
    let theirs = generate_dh_key_pair random in
    let session = session_path ss.next_id in
    let key = derived derive (int_bytes mine.1) theirs.0 in
    let sess = new_encrypted_session session key in
    let opened = record ss {
      next_id = suc ss.next_id;
      sessions = insert session sess ss.sessions;
    } in
    let valid : validate_session opened session ≡ ok sess =
      rw (validate_session, lookup-insert_self session sess ss.sessions) refl in
    let there : get_item_by_path env.unicode d opened path ≡ some item = found in
    let granted : authorize_secret_access env.polkit env.bus opened
          (caller_info (some env.bus) sender)
        ≡ none =
      ground arith in
    let (iv, sent, done, back) =
      decrypt-encrypt_session env.cipher sess (env.random 0) (password env d item.entry) refl
        (filled _) (accepted _) in
    let given : (get_secrets env d sender (path ∷ []) session opened).1
        ≡ ok ((path, dbus_secret session (iv, sent)) ∷ []) =
      rw (get_secrets, valid, get_secrets_each, there, granted, done) refl in
    let whole = opened_with ss derive random client in
    let secret = client_secret random client in
    let agreed : key ≡ client_key derive (int_bytes theirs.1) mine.0 =
      derived-client_secret derive random client ∙ ap derive (sym ((padded_iff secret).1 large)) in
    (
      int_bytes theirs.1,
      ap (λ r. r.1) whole,
      dbus_secret session (iv, sent),
      subst
          (λ r.
            (get_secrets env d sender (path ∷ []) session r.0).1
            ≡ ok ((path, dbus_secret session (iv, sent)) ∷ []))
          (sym whole) given,
      subst
          (λ k.
            decrypt env.cipher (new_encrypted_session session k) iv sent
            ≡ ok (password env d item.entry))
          agreed back,
    )
