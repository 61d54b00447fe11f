-- ===== src/SecretService/Service/Secrets.antt =====
-- internal/secretservice/service.go and item.go: secrets handed out. Encryptions and looks at the
-- clock are numbered by the place of the item in the request.
pub mod Delivery
use kpxcd.Prelude.{
  ℕ, suc, Bool, true, false, List, [], ◌∷◌, Option, none, some, Bytes, codes, bytes_Eq, ◌==◌,
  if◌then◌else◌, lookup, insert,
}
use kpxcd.Prelude.Results.{Result, ok, err}
use kpxcd.Text.{Unicode}
use kpxcd.Keepass.{Entry, Library}
use kpxcd.SecretService.NotifyCache.{CallerInfo}
use kpxcd.SecretService.Session.{Session, Cipher, encrypt}
use kpxcd.SecretService.Service.{SecretService, Databases}
use kpxcd.SecretService.Service.Objects.{Item, get_item_by_path, refresh}
use kpxcd.SecretService.Service.Access.{
  Bus, Polkit, caller_info, authorize_secret_access, notify_secret_access,
}
use kpxcd.SecretService.Service.Requests.{
  DbusError, is_locked, no_such_object, access_denied, validate_session,
}

pub record DbusSecret : Type 0 where
  pub session : Bytes
  pub parameters : Bytes
  pub value : Bytes
  pub content_type : Bytes

unfoldable pub dbus_secret : Bytes → Bytes × Bytes → DbusSecret
dbus_secret path encrypted = record {
  session = path;
  parameters = encrypted.0;
  value = encrypted.1;
  content_type = codes "text/plain";
}

-- What the environment contributes: the libraries, the bus, polkit, random bytes and times.
pub record Environment : Type 0 where
  pub unicode : Unicode
  pub library : Library
  pub cipher : Cipher
  pub bus : Bus
  pub polkit : Polkit
  pub random : ℕ → Bytes
  pub now : ℕ → ℕ

module _ (env : Environment) (d : Databases) where
  unfoldable pub password : Entry → Bytes
  password entry = (env.library).get_content entry.values (codes "Password")

  abbrev pub Secrets : Type 0
  Secrets = List (Bytes × DbusSecret)

  unfoldable pub notified : ℕ → CallerInfo → SecretService → SecretService
  notified k caller ss = (notify_secret_access env.bus (env.now k) caller ss).0

  -- The loop over the items, with the secrets so far.
  unfoldable pub get_secrets_each :
      ℕ
      → CallerInfo
      → Session
      → Bytes
      → List Bytes
      → SecretService
      → Secrets
      → SecretService × Result DbusError Secrets
  unfolding password notified
  get_secrets_each k caller sess path [] ss secrets = (ss, ok secrets)
  get_secrets_each k caller sess path (item_path ∷ items) ss secrets =
      elim (get_item_by_path env.unicode d ss item_path) [
        | none ↦ get_secrets_each (suc k) caller sess path items ss secrets
        | some item ↦ elim (authorize_secret_access env.polkit env.bus ss caller) [
          | some _ ↦ (ss, err access_denied)
          | none ↦ elim (encrypt env.cipher sess (env.random k) (password item.entry)) [
            | err _ ↦ get_secrets_each (suc k) caller sess path items ss secrets
            | ok encrypted ↦
                get_secrets_each (suc k) caller sess path items (notified k caller ss)
                  (insert item_path (dbus_secret path encrypted) secrets)
          ]
        ]
      ]

  unfoldable pub get_secrets :
      Bytes → List Bytes → Bytes → SecretService → SecretService × Result DbusError Secrets
  unfolding get_secrets_each
  get_secrets sender items path ss = elim (validate_session ss path) [
    | err e ↦ (ss, err e)
    | ok sess ↦ get_secrets_each 0 (caller_info (some env.bus) sender) sess path items ss []
  ]

  -- The request to one item.
  unfoldable pub get_secret :
      Bytes → Bytes → Item → SecretService → SecretService × Result DbusError DbusSecret
  unfolding password notified
  get_secret sender path item ss = elim (refresh env.unicode d ss item) [
    | none ↦ (ss, err no_such_object)
    | some fresh ↦
        let caller = caller_info (some env.bus) sender in
        elim (authorize_secret_access env.polkit env.bus ss caller) [
          | some _ ↦ (ss, err access_denied)
          | none ↦ elim (validate_session ss path) [
            | err e ↦ (ss, err e)
            | ok sess ↦ elim (encrypt env.cipher sess (env.random 0) (password fresh.entry)) [
              | err _ ↦ (ss, err is_locked)
              | ok encrypted ↦ (notified 0 caller ss, ok (dbus_secret path encrypted))
            ]
          ]
        ]
  ]
