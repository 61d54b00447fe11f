-- ===== src/SecretService/Service/Lifecycle/Plain.antt =====
-- A client that opens a plain session gets the secret it asks for.
use kpxcd.Prelude.{
  suc, true, false, [], ◌∷◌, none, some, Bytes, codes, bytes_Eq, bytes_eq, ◌==◌, insert,
  lookup-insert_self, ◌≡◌, refl, arith,
}
use kpxcd.Prelude.Results.{ok}
use kpxcd.SecretService.Session.{new_plain_session, encrypt}
use kpxcd.SecretService.Paths.{session_path}
use kpxcd.SecretService.DiffieHellman.{Variant}
use kpxcd.SecretService.Service.{SecretService, Databases, open_entries, collect_entries_for_db}
use kpxcd.SecretService.Service.Objects.{Item, get_item_by_path, find_in_collections}
use kpxcd.SecretService.Service.Access.{caller_info, authorize_secret_access}
use kpxcd.SecretService.Service.Requests.{open_session, empty, validate_session}
use kpxcd.SecretService.Service.Secrets.{
  Environment, dbus_secret, password, get_secrets_each, get_secrets,
}

pub is_plain : (codes "plain" == codes "plain") ≡ true
unfolding bytes_eq
is_plain = refl

-- If no confirmation is required, then in every state in which an item stands under a path, opening
-- a plain session succeeds, and the request for that item in the new session is answered with the
-- password of its entry and nothing else.
pub open_session-get_secrets :
    (env : Environment) (d : Databases) (ss : SecretService) (derive : Bytes → Bytes)
    (random sender path : Bytes) (input : Variant) (item : Item)
    → (ss.config).require_confirmation ≡ false
    → get_item_by_path env.unicode d ss path ≡ some item
    → let opened = open_session derive random (codes "plain") input ss in
      let session = session_path ss.next_id in
      (opened.1 ≡ ok (empty, session))
      × ((get_secrets env d sender (path ∷ []) session opened.0).1
          ≡ ok ((path, dbus_secret session ([], password env d item.entry)) ∷ []))
unfolding open_session get_secrets get_secrets_each validate_session get_item_by_path
    find_in_collections open_entries collect_entries_for_db authorize_secret_access insert encrypt
    new_plain_session
open_session-get_secrets env d ss derive random sender path input item free found =
    let session = session_path ss.next_id in
    let sess = new_plain_session session in
    let opened = record ss {
      next_id = suc ss.next_id;
      sessions = insert session sess ss.sessions;
    } in
    let valid : validate_session opened session ≡ ok sess =
      rw (validate_session, lookup-insert_self session sess ss.sessions) refl in
    let there : get_item_by_path env.unicode d opened path ≡ some item = found in
    let granted : authorize_secret_access env.polkit env.bus opened
          (caller_info (some env.bus) sender)
        ≡ none =
      ground arith in
    let given : (get_secrets env d sender (path ∷ []) session opened).1
        ≡ ok ((path, dbus_secret session ([], password env d item.entry)) ∷ []) =
      rw (get_secrets, valid, get_secrets_each, there, granted) refl in
    rw (open_session, is_plain) (refl, given)
