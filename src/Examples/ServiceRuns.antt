-- ===== src/Examples/ServiceRuns.antt =====
-- Runs of the Secret Service with one open database and one collection.
use kpxcd.Prelude.{
  ◌^◌, ◌≤◌, ◌<◌, ltb→lt, true, false, [], ◌∷◌, none, some, ◌>>=◌, Bytes, codes, bytes_Eq, bytes_eq,
  ◌==◌, if◌then◌else◌, lookup, insert, All, ◌≡◌, ◌≢◌, refl, sym, ap, subst, ◌∙◌, inl, arith,
}
use kpxcd.Prelude.Results.{ok}
use kpxcd.Text.{hex}
use kpxcd.Keepass.{In}
use kpxcd.Pool.Entries.{is_recycled}
use kpxcd.Pool.Wipe.{wipe_database_content, wipe_content}
use kpxcd.Pool.Manage.{Event, database_locked}
use kpxcd.SecretService.Entries.{collect_entries_visible, collect_entries_visible_into, is_exposed}
use kpxcd.SecretService.Write.{entry_uuid_string}
use kpxcd.SecretService.Session.{Session, new_encrypted_session, decrypt}
use kpxcd.SecretService.Paths.{
  sanitize_collection_name, guard_first, replace_unsafe, is_safe, is_digit, in_range,
  item_path_for_entry, collection_path, session_path,
}
use kpxcd.SecretService.DiffieHellman.{
  other, bytes, int_bytes, generate_dh_key_pair, private_key, exp, dh_prime, set_hex, set_bytes,
  set_bytes_from,
}
use kpxcd.SecretService.Service.Lifecycle.Encrypted.{
  dh, client_key, client_secret, open_session-encrypted,
}
use kpxcd.SecretService.Service.Lifecycle.Later.{open_session-get_secrets_later}
use kpxcd.SecretService.DiffieHellman.Numbers.{set_bytes-int_bytes}
use kpxcd.SecretService.Service.{
  SecretService, SecretServiceConfig, Collection, Databases, expose_group, collect_entries_for_db,
  open_entries, new_secret_service, handle_pool_event, seed_collections, seed_each,
  create_collection,
}
use kpxcd.SecretService.Service.Objects.{
  Item, new_item, find_item, find_in_collections, get_item_by_path, get_collection_by_path,
  resolve_alias, items_in,
}
use kpxcd.SecretService.Service.Access.{Bus, caller_info}
use kpxcd.SecretService.Service.Requests.{
  open_session, lock, lock_objects, lock_database, locked_at, write, empty, public_key,
}
use kpxcd.SecretService.Service.Requests.Pool.{Current, lock-locked}
use kpxcd.SecretService.Service.Removal.{handle_pool_event-locked_gone}
use kpxcd.SecretService.Service.Secrets.{
  Environment, DbusSecret, dbus_secret, password, get_secrets,
}
use kpxcd.SecretService.Service.Secrets.Delivery.{Delivered, get_secrets_sound}
use kpxcd.SecretService.Service.Lifecycle.{Steps, done, next, seeded, session_opened}
use kpxcd.SecretService.Service.Lifecycle.Sessions.{Issued, Extends, sessions_kept}
use kpxcd.SecretService.Service.Lifecycle.Plain.{open_session-get_secrets}
use kpxcd.Examples.SecretRuns.{unicode, library, first_entry, cipher, full}

abbrev config : SecretServiceConfig
config = record { notify_on_access = true; notify_cache_ttl = 60; require_confirmation = false }

abbrev pub path : Bytes
path = codes "/org/freedesktop/secrets/collection/n"

abbrev collection : Collection
collection = record { path = path; db = 0 }

abbrev pub service : SecretService
service = record {
  config = config;
  database_configs = [];
  collections = (path, collection) ∷ [];
  sessions = [];
  aliases = (codes "default", path) ∷ [];
  notify_cache = [];
  next_id = 0;
}

abbrev pub dbs : Databases
dbs = record { heap = λ p. full; dbs = (codes "u", 0) ∷ [] }

abbrev bus : Bus
bus = record {
  get_connection_unix_process_id = λ s. some 7;
  get_connection_unix_user = λ s. some 1000;
  exe = λ p. some (codes "/bin/app");
  cmdline = λ p. none;
  stat = λ p. none;
  base = λ s. s;
  fields = λ s. s ∷ [];
}

abbrev env : Environment
env = record {
  unicode = unicode;
  library = library;
  cipher = cipher;
  bus = bus;
  polkit = record { connects = false; check = λ s a. none };
  random = λ k. codes "iv";
  now = λ k. k;
}

abbrev item_path : Bytes
item_path = codes "/org/freedesktop/secrets/collection/n/01"

abbrev item : Item
item = record { path = item_path; coll = collection; entry = first_entry; entry_uuid = codes "01" }

item_found : get_item_by_path unicode dbs service item_path ≡ some item
unfolding get_item_by_path find_in_collections find_item new_item open_entries
    collect_entries_for_db collect_entries_visible collect_entries_visible_into is_exposed
    is_recycled expose_group item_path_for_entry sanitize_collection_name guard_first replace_unsafe
    is_safe is_digit in_range entry_uuid_string hex bytes_eq
item_found = refl

abbrev prefixed : Bytes → Bytes
prefixed s = b'k' ∷ s

-- With the private keys 511 and 2 the shared secret is the number 2 to the power 1022.
abbrev server : Bytes
server = 1 ∷ 253 ∷ []

second_power : 256 ^ 127 < exp (generate_dh_key_pair server).1 (generate_dh_key_pair []).0 dh_prime
unfolding generate_dh_key_pair private_key exp dh_prime set_hex set_bytes set_bytes_from
second_power = ltb→lt _ _ refl

long_secret : 256 ^ 127 ≤ client_secret server []
long_secret =
    subst (λ x. 256 ^ 127 ≤ exp x (generate_dh_key_pair []).0 dh_prime)
      (sym (set_bytes-int_bytes (generate_dh_key_pair server).1)) (omega (arith, second_power))

open_session-encrypted_example :
    let mine = generate_dh_key_pair [] in
    let answer = open_session prefixed server dh (bytes (int_bytes mine.1)) service in
    (public : Bytes) × (answer.1 ≡ ok (public_key public, session_path 0))
    × (secret : DbusSecret) × ((get_secrets env dbs
          (codes ":1.5")
          (item_path ∷ [])
          (session_path 0)
          answer.0).1
        ≡ ok ((item_path, secret) ∷ []))
    × (decrypt cipher
          (new_encrypted_session (session_path 0) (client_key prefixed public mine.0))
          secret.parameters
          secret.value
        ≡ ok (password env dbs first_entry))
open_session-encrypted_example =
    open_session-encrypted env dbs service prefixed server [] (codes ":1.5") item_path item refl
      item_found (λ s. refl) (λ s. refl) long_secret

abbrev opened : SecretService
opened = (open_session (λ s. s) (codes "r") (codes "plain") other service).0

open_session-get_secrets_example :
    ((open_session (λ s. s) (codes "r") (codes "plain") other service).1
      ≡ ok (empty, session_path 0))
    × ((get_secrets env dbs (codes ":1.5") (item_path ∷ []) (session_path 0) opened).1
        ≡ ok ((item_path, dbus_secret (session_path 0) ([], password env dbs first_entry)) ∷ []))
open_session-get_secrets_example =
    open_session-get_secrets env dbs service (λ s. s) (codes "r") (codes ":1.5") item_path other
      item refl item_found

delivered :
    (get_secrets env dbs (codes ":1.5") (item_path ∷ []) (session_path 0) opened).1
    ≡ ok ((item_path, dbus_secret (session_path 0) ([], password env dbs first_entry)) ∷ [])
delivered =
    (open_session-get_secrets env dbs service (λ s. s) (codes "r") (codes ":1.5") item_path other
      item refl item_found).1

get_secrets_sound_example :
    (sess : Session) × (lookup (session_path 0) opened.sessions ≡ some sess)
    × (sess.closed ≡ false)
    × All
        (Delivered env dbs (caller_info (some bus) (codes ":1.5")) sess (session_path 0) opened)
        ((item_path, dbus_secret (session_path 0) ([], password env dbs first_entry)) ∷ [])
get_secrets_sound_example =
    get_secrets_sound env dbs opened (codes ":1.5") (session_path 0) (item_path ∷ [])
      ((item_path, dbus_secret (session_path 0) ([], password env dbs first_entry)) ∷ []) delivered

-- From its start the service has opened a session.
abbrev start : SecretService
start = new_secret_service config

abbrev with_one : SecretService
with_one = (open_session (λ s. s) (codes "r") (codes "plain") other start).0

begun : Steps start with_one
begun =
    next start with_one with_one (session_opened (λ s. s) (codes "r") (codes "plain") other start)
      (done with_one)

further : Steps with_one (seed_collections dbs with_one)
further =
    next with_one (seed_collections dbs with_one) (seed_collections dbs with_one)
      (seeded dbs with_one) (done (seed_collections dbs with_one))

sessions_kept_example :
    Issued with_one
    × (lookup (session_path with_one.next_id) with_one.sessions ≡ none)
    × Extends with_one (seed_collections dbs with_one)
sessions_kept_example = sessions_kept config with_one (seed_collections dbs with_one) begun further

found_later : get_item_by_path unicode dbs (seed_collections dbs with_one) item_path ≡ some item
unfolding get_item_by_path find_in_collections find_item new_item open_entries
    collect_entries_for_db collect_entries_visible collect_entries_visible_into is_exposed
    is_recycled expose_group item_path_for_entry sanitize_collection_name guard_first replace_unsafe
    is_safe is_digit in_range entry_uuid_string hex bytes_eq seed_collections seed_each
    create_collection collection_path insert open_session new_secret_service
found_later = refl

unconfirmed : (seed_collections dbs with_one).config.require_confirmation ≡ false
unfolding seed_collections seed_each create_collection open_session bytes_eq new_secret_service
unconfirmed = refl

open_session-get_secrets_later_example :
    (get_secrets env dbs
      (codes ":1.5")
      (item_path ∷ [])
      (session_path 0)
      (seed_collections dbs with_one)).1
    ≡ ok ((item_path, dbus_secret (session_path 0) ([], password env dbs first_entry)) ∷ [])
unfolding new_secret_service
open_session-get_secrets_later_example =
    open_session-get_secrets_later config env dbs start (seed_collections dbs with_one) (λ s. s)
      (codes "r") (codes ":1.5") item_path other item (done start) further unconfirmed found_later

u_known : lookup (codes "u") dbs.dbs ≡ some 0
unfolding lookup bytes_eq
u_known = refl

current : Current service dbs
unfolding get_collection_by_path resolve_alias lookup
current p coll found = let first : coll.db ≡ 0 = ground arith in u_known ∙ ap some (sym first)

locks : (lock (path ∷ []) dbs service).2.0 ≡ path ∷ []
unfolding lock lock_objects lock_database locked_at write get_collection_by_path lookup bytes_eq
    wipe_database_content wipe_content
locks = refl

named : In path (lock (path ∷ []) dbs service).2.0
named = subst (In path) (sym locks) (inl refl)

lock-locked_example :
    (coll : Collection) × (get_collection_by_path service path ≡ some coll)
    × (((lock (path ∷ []) dbs service).0.heap coll.db).locked ≡ true)
    × (items_in unicode (lock (path ∷ []) dbs service).0 service coll ≡ [])
lock-locked_example = lock-locked unicode service (path ∷ []) dbs current path named

abbrev event : Event
event = record { type = database_locked; uuid = codes "u"; name = codes "n"; path = codes "/n" }

abbrev after : SecretService
after = handle_pool_event dbs event service

handle_pool_event-locked_gone_example :
    ((p : Bytes) (i : Item)
      → get_item_by_path unicode dbs after p ≡ some i
      → (dbs.heap (i.coll).db).uuid ≢ codes "u")
    × ((p : Bytes) (coll : Collection)
        → get_collection_by_path after p ≡ some coll
        → (dbs.heap coll.db).uuid ≢ codes "u")
    × ((p : Bytes)
        → lookup p after.collections ≡ (
            lookup p service.collections >>= λ coll.
            if (dbs.heap coll.db).uuid == codes "u" then none else some coll))
unfolding lookup
handle_pool_event-locked_gone_example =
    handle_pool_event-locked_gone unicode dbs event service refl (refl, tt)
