-- ===== src/SecretService/Service/Lifecycle/Later.antt =====
-- A session that has been opened serves its client for as long as the service runs.
use kpxcd.Prelude.{
  [], ◌∷◌, none, some, false, Bytes, codes, bytes_Eq, insert, lookup, lookup-insert_self, ◌≡◌, refl,
  arith,
}
use kpxcd.Prelude.Results.{ok}
use kpxcd.SecretService.Session.{new_plain_session, encrypt}
use kpxcd.SecretService.Paths.{session_path}
use kpxcd.SecretService.DiffieHellman.{Variant}
use kpxcd.SecretService.Service.{SecretService, SecretServiceConfig, Databases, new_secret_service}
use kpxcd.SecretService.Service.Objects.{Item, get_item_by_path}
use kpxcd.SecretService.Service.Access.{caller_info, authorize_secret_access}
use kpxcd.SecretService.Service.Requests.{open_session, validate_session}
use kpxcd.SecretService.Service.Secrets.{
  Environment, dbus_secret, password, get_secrets_each, get_secrets,
}
use kpxcd.SecretService.Service.Lifecycle.{Steps, next, done, session_opened}
use kpxcd.SecretService.Service.Lifecycle.Plain.{is_plain}
use kpxcd.SecretService.Service.Lifecycle.Sessions.{Steps-Extends}

-- Once a client has opened a plain session in a state that the service has reached from its
-- start, then in every later state, whatever requests and events lie between, the request in this
-- session for an item that stands under a path there is answered with the password of its entry, if
-- no confirmation is required there.
pub open_session-get_secrets_later :
    (cfg : SecretServiceConfig) (env : Environment) (d : Databases) (ss last : SecretService)
    (derive : Bytes → Bytes) (random sender path : Bytes) (input : Variant) (item : Item)
    → Steps (new_secret_service cfg) ss
    → Steps (open_session derive random (codes "plain") input ss).0 last
    → (last.config).require_confirmation ≡ false
    → get_item_by_path env.unicode d last path ≡ some item
    → (get_secrets env d sender (path ∷ []) (session_path ss.next_id) last).1
      ≡ ok ((path, dbus_secret (session_path ss.next_id) ([], password env d item.entry)) ∷ [])
unfolding new_secret_service open_session get_secrets get_secrets_each validate_session
    authorize_secret_access encrypt new_plain_session insert
open_session-get_secrets_later cfg env d ss last derive random sender path input item start later
      free found =
    let session = session_path ss.next_id in
    let opened = (open_session derive random (codes "plain") input ss).0 in
    let issued = (Steps-Extends (new_secret_service cfg) ss start tt).issued in
    let first =
      Steps-Extends ss opened
        (next ss opened opened (session_opened derive random (codes "plain") input ss)
          (done opened))
        issued in
    let there : lookup session opened.sessions ≡ some (new_plain_session session) =
      rw (open_session, is_plain)
        (lookup-insert_self session (new_plain_session session) ss.sessions) in
    let kept =
      (Steps-Extends opened last later first.issued).kept session (new_plain_session session)
        there in
    let valid : validate_session last session ≡ ok (new_plain_session session) =
      rw (validate_session, kept) refl in
    let granted : authorize_secret_access env.polkit env.bus last
          (caller_info (some env.bus) sender)
        ≡ none =
      ground arith in
    rw (get_secrets, valid, get_secrets_each, found, granted) refl
