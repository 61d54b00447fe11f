-- ===== src/SecretService/Service/Secrets/Delivery.antt =====
-- What a request for secrets hands out.
use kpxcd.Prelude.{
  ℕ, suc, false, List, [], ◌∷◌, none, some, Bytes, bytes_Eq, Bool-cases, Option-cases, lookup,
  insert, All, All-insert, ◌≡◌, refl, sym, ap, subst, ◌∙◌, inl, inr, arith,
}
use kpxcd.Prelude.Results.{Result, ok, Result-cases}
use kpxcd.SecretService.NotifyCache.{Cache, CallerInfo}
use kpxcd.SecretService.Session.{Session, encrypt, decrypt}
use kpxcd.SecretService.Session.RoundTrip.{decrypt-encrypted}
use kpxcd.SecretService.Service.{SecretService, Databases, open_entries, collect_entries_for_db}
use kpxcd.SecretService.Service.Objects.{Item, get_item_by_path, find_in_collections}
use kpxcd.SecretService.Service.Access.{caller_info, authorize_secret_access, notify_secret_access}
use kpxcd.SecretService.Service.Requests.{DbusError, validate_session}
use kpxcd.SecretService.Service.Secrets.{
  Environment, DbusSecret, dbus_secret, password, notified, get_secrets_each, get_secrets, Secrets,
}

-- Only an open session is valid.
pub validate_session-ok :
    (ss : SecretService) (path : Bytes) (sess : Session)
    → validate_session ss path ≡ ok sess
    → (lookup path ss.sessions ≡ some sess) × (sess.closed ≡ false)
unfolding validate_session
validate_session-ok ss path sess valid = elim (Option-cases (lookup path ss.sessions)) [
  | inl missing ↦ absurd (ground arith)
  | inr (found, there) ↦ elim (Bool-cases found.closed) [
    | inl shut ↦ absurd (ground arith)
    | inr open' ↦
        let same : found ≡ sess = ground arith in
        (there ∙ ap some same, subst (λ s. s.closed ≡ false) same open')
  ]
]

-- Sending notifications changes their cache and nothing else.
abbrev pub SameBut : SecretService → SecretService → Type 0
SameBut ss after = (cache : Cache) × (after ≡ record ss { notify_cache = cache })

pub notified-SameBut :
    (env : Environment) (d : Databases) (k : ℕ) (caller : CallerInfo) (ss : SecretService)
    → SameBut ss (notified env d k caller ss)
unfolding notified notify_secret_access
notified-SameBut env d k caller ss = elim (Bool-cases (ss.config).notify_on_access) [
  | inl on ↦ rw on (_, refl)
  | inr off ↦ rw off (ss.notify_cache, refl)
]

module _ (env : Environment) (d : Databases) (caller : CallerInfo) (sess : Session)
    (path : Bytes) where
  -- The secret of an item that the caller may have, for the session.
  abbrev pub Delivered : SecretService → Bytes × DbusSecret → Type 0
  Delivered ss (item_path, secret) =
      (item : Item) × (get_item_by_path env.unicode d ss item_path ≡ some item)
      × (authorize_secret_access env.polkit env.bus ss caller ≡ none)
      × (decrypt env.cipher sess secret.parameters secret.value ≡ ok (password env d item.entry))
      × (secret.session ≡ path)

  All-Delivered :
      (ss : SecretService) (cache : Cache) (secrets : Secrets env d)
      → All (Delivered (record ss { notify_cache = cache })) secrets ≡ All (Delivered ss) secrets
  unfolding get_item_by_path find_in_collections open_entries collect_entries_for_db
      authorize_secret_access
  All-Delivered ss cache secrets = refl

  abbrev Sound : SecretService → SecretService × Result DbusError (Secrets env d) → Type 0
  Sound ss r = (secrets : Secrets env d) → r.1 ≡ ok secrets → All (Delivered ss) secrets

  -- One more item for a granted caller.
  Delivered-insert :
      (k : ℕ) (item_path : Bytes) (ss : SecretService) (secrets : Secrets env d) (item : Item)
      (encrypted : Bytes × Bytes)
      → sess.closed ≡ false
      → get_item_by_path env.unicode d ss item_path ≡ some item
      → authorize_secret_access env.polkit env.bus ss caller ≡ none
      → encrypt env.cipher sess (env.random k) (password env d item.entry) ≡ ok encrypted
      → All (Delivered ss) secrets
      → All (Delivered ss) (insert item_path (dbus_secret path encrypted) secrets)
  unfolding dbus_secret
  Delivered-insert k item_path ss secrets item encrypted open' found granted done sound =
      let back =
        decrypt-encrypted env.cipher sess (env.random k) (password env d item.entry) encrypted open'
          done in
      All-insert (Delivered ss) item_path (dbus_secret path encrypted) secrets
        (λ j same. (item, rw same found, granted, back, refl)) sound

  -- The service after a notification hands out what it would have handed out before.
  Sound-notified :
      (k : ℕ) (items : List Bytes) (ss : SecretService) (secrets : Secrets env d)
      → ((after : SecretService)
          → All (Delivered after) secrets
          → Sound after (get_secrets_each env d (suc k) caller sess path items after secrets))
      → All (Delivered ss) secrets
      → Sound ss (
          get_secrets_each env d
            (suc k)
            caller
            sess
            path
            items
            (notified env d k caller ss)
            secrets)
  Sound-notified k items ss secrets later sound =
      let (cache, same) = notified-SameBut env d k caller ss in
      let after = record ss { notify_cache = cache } in
      let kept = subst (λ T. T) (sym (All-Delivered ss cache secrets)) sound in
      subst (λ s. Sound ss (get_secrets_each env d (suc k) caller sess path items s secrets))
        (sym same)
        (λ all done. subst (λ T. T) (All-Delivered ss cache all) (later after kept all done))

  get_secrets_each-Sound :
      (k : ℕ) (items : List Bytes) (ss : SecretService) (secrets : Secrets env d)
      → sess.closed ≡ false
      → All (Delivered ss) secrets
      → Sound ss (get_secrets_each env d k caller sess path items ss secrets)
  unfolding get_secrets_each
  get_secrets_each-Sound k [] ss secrets open' sound =
      λ all done. subst (All (Delivered ss)) (ground arith) sound
  get_secrets_each-Sound k (item_path ∷ items) ss secrets open' sound =
      elim (Option-cases (get_item_by_path env.unicode d ss item_path)) [
        | inl missing ↦
            rw (get_secrets_each, missing)
              (get_secrets_each-Sound (suc k) items ss secrets open' sound)
        | inr (item, found) ↦
            elim (Option-cases (authorize_secret_access env.polkit env.bus ss caller)) [
              | inr (_, refused) ↦ rw (get_secrets_each, found, refused) (λ all done. absurd (cc))
              | inl granted ↦
                  elim (Result-cases
                    (encrypt env.cipher sess (env.random k) (password env d item.entry))) [
                      | inr (_, failed) ↦
                          rw (get_secrets_each, found, granted, failed)
                            (get_secrets_each-Sound (suc k) items ss secrets open' sound)
                      | inl (encrypted, done) ↦
                          rw (get_secrets_each, found, granted, done)
                            (Sound-notified k items ss
                              (insert item_path (dbus_secret path encrypted) secrets)
                              (λ after kept.
                                get_secrets_each-Sound (suc k) items after
                                  (insert item_path (dbus_secret path encrypted) secrets) open'
                                  kept)
                              (Delivered-insert k item_path ss secrets item encrypted open' found
                                granted done sound))
                    ]
            ]
      ]

-- If a request for secrets succeeds, then its session exists and is open, and every secret in the
-- answer is that of the item under its path: the caller may have it, and decrypting it in the
-- session gives the password of the item's entry.
pub get_secrets_sound :
    (env : Environment) (d : Databases) (ss : SecretService) (sender path : Bytes)
    (items : List Bytes) (secrets : Secrets env d)
    → (get_secrets env d sender items path ss).1 ≡ ok secrets
    → (sess : Session) × (lookup path ss.sessions ≡ some sess)
      × (sess.closed ≡ false)
      × All (Delivered env d (caller_info (some env.bus) sender) sess path ss) secrets
unfolding get_secrets
get_secrets_sound env d ss sender path items secrets done =
    elim (Result-cases (validate_session ss path)) [
      | inr (e, invalid) ↦ let bad = rw (get_secrets, invalid) at (done) in absurd (cc)
      | inl (sess, valid) ↦
          let caller = caller_info (some env.bus) sender in
          let (found, open') = validate_session-ok ss path sess valid in
          let each = rw (get_secrets, valid) at (done) in
          (
            sess,
            found,
            open',
            get_secrets_each-Sound env d caller sess path 0 items ss [] open' tt secrets each,
          )
    ]
