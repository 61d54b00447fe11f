-- ===== src/SecretService/Service/Requests.antt =====
-- internal/secretservice/service.go and write.go: sessions, prompts, aliases, unlocking and
-- locking, as clients ask for them. The library drops the values of a call that returns an error.
pub mod Aliases
pub mod Pool
use kpxcd.Prelude.{
  ℕ, suc, Bool, true, false, not, ◌&&◌, ◌||◌, List, [], ◌∷◌, ◌++◌, Option, none, some, Bytes, codes,
  bytes_Eq, ◌==◌, null, nat_eq, if◌then◌else◌, lookup, insert, is_some,
}
use kpxcd.Prelude.Results.{Result, ok, err, ◌>>=◌, guard}
use kpxcd.Text.{Unicode}
use kpxcd.Pool.Database.{OpenDatabase}
use kpxcd.Pool.Wipe.{wipe_database_content}
use kpxcd.Pool.Manage.{PoolError, not_found, panic}
use kpxcd.SecretService.Session.{
  Session, SessionError, Cipher, new_plain_session, new_encrypted_session, close, decrypt,
}
use kpxcd.SecretService.Paths.{alias_path, session_path}
use kpxcd.SecretService.DiffieHellman.{
  Variant, bytes, client_public_key, generate_dh_key_pair, set_bytes, int_bytes, exp, dh_prime,
}
use kpxcd.SecretService.Service.{SecretService, Databases, Collection, next_prompt}
use kpxcd.SecretService.Service.Objects.{get_collection_by_path, get_item_by_path}

pub data DbusError : Type 0 where
  is_locked no_session no_such_object access_denied not_supported : DbusError

-- What the client gets as output: an empty text, or the server's public key.
pub data Output : Type 0 where
  empty : Output
  public_key : Bytes → Output

-- The path "/", which stands for no object.
abbrev pub no_path : Bytes
no_path = codes "/"

unfoldable pub is_dh : Bytes → Bool
is_dh algorithm =
    algorithm == codes "dh-ietf1024-sha256-aes128-cbc"
    || algorithm == codes "dh-ietf1024-sha256-aes128-cbc-pkcs7"

module _ (derive : Bytes → Bytes) (random : Bytes) where
  unfoldable pub handle_dh_key_exchange :
      Variant → Bytes → SecretService → Option (Bytes × SecretService)
  handle_dh_key_exchange input path ss = elim (client_public_key input) [
    | none ↦ none
    | some client_pub ↦
        let pair = generate_dh_key_pair random in
        let shared = exp (set_bytes client_pub) (pair.0) dh_prime in
        let sess = new_encrypted_session path (derive (int_bytes shared)) in
        some (int_bytes (pair.1), record ss { sessions = insert path sess ss.sessions })
  ]

  unfoldable pub negotiate_dh :
      Variant → Bytes → SecretService → SecretService × Result DbusError (Output × Bytes)
  negotiate_dh input path ss = elim (handle_dh_key_exchange input path ss) [
    | none ↦ (ss, err is_locked)
    | some exchanged ↦ (exchanged.1, ok (public_key exchanged.0, path))
  ]

  -- The number of the session is used up in any case.
  unfoldable pub open_session :
      Bytes → Variant → SecretService → SecretService × Result DbusError (Output × Bytes)
  unfolding negotiate_dh is_dh
  open_session algorithm input ss =
      let path = session_path ss.next_id in
      let counted = record ss { next_id = suc ss.next_id } in
      if algorithm == codes "plain"
      then (
        record counted { sessions = insert path (new_plain_session path) ss.sessions },
        ok (empty, path),
      )
      else if is_dh algorithm
      then negotiate_dh input path counted
      else (counted, err not_supported)

unfoldable pub validate_session : SecretService → Bytes → Result DbusError Session
validate_session ss path = elim (lookup path ss.sessions) [
  | none ↦ err no_session
  | some sess ↦ if sess.closed then err no_session else ok sess
]

-- An error of the decryption is reported as a missing session.
unfoldable pub decrypt_secret :
    Cipher → SecretService → Bytes → Bytes → Bytes → Result DbusError Bytes
decrypt_secret c ss path parameters value = elim (validate_session ss path) [
  | err e ↦ err e
  | ok sess ↦ elim (decrypt c sess parameters value) [ err _ ↦ err no_session | ok text ↦ ok text ]
]

-- No collection is created: the client gets a prompt.
unfoldable pub create_collection_request : SecretService → SecretService × (Bytes × Bytes)
create_collection_request ss = let prompt = next_prompt ss in (prompt.1, (no_path, prompt.0))

unfoldable pub read_alias : Bytes → SecretService → Bytes
read_alias alias ss = if is_some (lookup alias ss.aliases) then alias_path alias else no_path

unfoldable pub set_alias :
    Bytes → Bytes → SecretService → SecretService × Result DbusError (Unit {0})
set_alias alias path ss =
    if is_some (lookup path ss.collections)
    then (record ss { aliases = insert alias path ss.aliases }, ok tt)
    else (ss, err no_such_object)

module _ (u : Unicode) (d : Databases) where
  coll_locked : Collection → Bool
  coll_locked coll = (d.heap coll.db).locked

  unfoldable pub already_unlocked : SecretService → Bytes → Bool
  unfolding coll_locked
  already_unlocked ss path = elim (get_collection_by_path ss path) [
    | some coll ↦ not (coll_locked coll)
    | none ↦ is_some (get_item_by_path u d ss path)
  ]

  unfoldable pub unlocked_objects : SecretService → List Bytes → List Bytes
  unfolding already_unlocked
  unlocked_objects ss [] = []
  unlocked_objects ss (path ∷ paths) =
      let rest = unlocked_objects ss paths in if already_unlocked ss path then path ∷ rest else rest

  -- Whether some collection among the objects is locked.
  unfoldable pub needs_unlock : SecretService → List Bytes → Bool
  unfolding coll_locked
  needs_unlock ss [] = false
  needs_unlock ss (path ∷ paths) = elim (get_collection_by_path ss path) [
    | some coll ↦ coll_locked coll || needs_unlock ss paths
    | none ↦ needs_unlock ss paths
  ]

  unfoldable pub unlock : List Bytes → SecretService → SecretService × (List Bytes × Bytes)
  unlock paths ss =
      if needs_unlock ss paths
      then (let prompt = next_prompt ss in (prompt.1, (unlocked_objects ss paths, prompt.0)))
      else (ss, (unlocked_objects ss paths, no_path))

unfoldable pub write : ℕ → OpenDatabase → (ℕ → OpenDatabase) → ℕ → OpenDatabase
write p odb heap q = if nat_eq q p then odb else heap q

unfoldable pub locked_at : Databases → ℕ → Databases
unfolding write
locked_at d p = record d {
  heap = write p (record (d.heap p) { db = none; locked = true; watcher = none }) d.heap;
}

-- The pool's operation `Lock` on the heap, without its event and its watchers.
unfoldable pub lock_database : Databases → Bytes → Result PoolError Databases
lock_database d uuid = elim (lookup uuid d.dbs) [
  | none ↦ err not_found
  | some p ↦ elim (wipe_database_content (d.heap p).db) [
    | none ↦ err panic
    | some _ ↦ ok (locked_at d p)
  ]
]

unfoldable pub lock_objects : SecretService → List Bytes → Databases → Databases × List Bytes
lock_objects ss [] d = (d, [])
lock_objects ss (path ∷ paths) d = elim (get_collection_by_path ss path) [
  | none ↦ lock_objects ss paths d
  | some coll ↦ elim (lock_database d (d.heap coll.db).uuid) [
    | err _ ↦ lock_objects ss paths d
    | ok e ↦ let rest = lock_objects ss paths e in (rest.0, path ∷ rest.1)
  ]
]

unfoldable pub lock :
    List Bytes → Databases → SecretService → Databases × SecretService × (List Bytes × Bytes)
lock paths d ss =
    let done = lock_objects ss paths d in
    if null (done.1)
    then (done.0, ss, ([], no_path))
    else (let prompt = next_prompt ss in (done.0, prompt.1, (done.1, prompt.0)))
