-- ===== src/SecretService/Service/Lifecycle/Quiet.antt =====
-- The steps that leave the sessions alone.
use kpxcd.Prelude.{
  ℕ, suc, ◌≤◌, List, [], ◌∷◌, some, Bytes, bytes_Eq, Bool-cases, Option-cases, is_some, null,
  lookup, insert, ◌≡◌, refl, sym, subst, ◌∙◌, inl, inr, arith,
}
use kpxcd.Prelude.Results.{Result-cases}
use kpxcd.Text.{Unicode}
use kpxcd.Config.{DatabaseConfig}
use kpxcd.Pool.Manage.{
  Event, EventType, database_unlocked, database_locked, database_reloaded, database_error,
}
use kpxcd.SecretService.NotifyCache.{CallerInfo}
use kpxcd.SecretService.Session.{Session, encrypt}
use kpxcd.SecretService.Service.{
  SecretService, SecretServiceConfig, Databases, update_config, update_database_configs,
  create_collection, seed_each, seed_collections, on_database_unlocked, on_database_locked,
  on_database_reloaded, handle_pool_event, next_prompt, remove_first_collection,
}
use kpxcd.SecretService.Service.Objects.{Item, get_item_by_path, refresh}
use kpxcd.SecretService.Service.Access.{caller_info, authorize_secret_access}
use kpxcd.SecretService.Service.Requests.{
  validate_session, create_collection_request, set_alias, unlock, lock, lock_objects, needs_unlock,
}
use kpxcd.SecretService.Service.Secrets.Delivery.{notified-SameBut}
use kpxcd.SecretService.Service.Secrets.{
  Environment, Secrets, notified, password, dbus_secret, get_secrets_each, get_secrets, get_secret,
}

-- The same sessions, and numbers that have been given out stay given out.
pub record Quiet (ss after : SecretService) : Type 0 where
  pub same_sessions : after.sessions ≡ ss.sessions
  pub grown : ss.next_id ≤ after.next_id

Quiet-refl : (ss : SecretService) → Quiet ss ss
Quiet-refl ss = record { same_sessions = refl; grown = omega arith }

Quiet-trans : (a b c : SecretService) → Quiet a b → Quiet b c → Quiet a c
Quiet-trans a b c m n = record {
  same_sessions = n.same_sessions ∙ m.same_sessions;
  grown = omega (arith, m.grown, n.grown);
}

next_prompt-Quiet : (ss : SecretService) → Quiet ss (next_prompt ss).1
unfolding next_prompt
next_prompt-Quiet ss = record { same_sessions = refl; grown = omega arith }

pub update_config-Quiet :
    (cfg : SecretServiceConfig) (ss : SecretService) → Quiet ss (update_config cfg ss)
unfolding update_config
update_config-Quiet cfg ss = record { same_sessions = refl; grown = omega arith }

pub update_database_configs-Quiet :
    (cfgs : List DatabaseConfig) (ss : SecretService) → Quiet ss (update_database_configs cfgs ss)
unfolding update_database_configs
update_database_configs-Quiet cfgs ss = record { same_sessions = refl; grown = omega arith }

create_collection-Quiet :
    (d : Databases) (p : ℕ) (ss : SecretService) → Quiet ss (create_collection d p ss)
unfolding create_collection
create_collection-Quiet d p ss = record { same_sessions = refl; grown = omega arith }

seed_each-Quiet :
    (d : Databases) (dbs : List (Bytes × ℕ)) (ss : SecretService) → Quiet ss (seed_each d dbs ss)
unfolding seed_each
seed_each-Quiet d [] ss = Quiet-refl ss
seed_each-Quiet d ((uuid, p) ∷ dbs) ss = elim (Bool-cases (d.heap p).locked) [
  | inl locked ↦ rw (seed_each, locked) (seed_each-Quiet d dbs ss)
  | inr open' ↦
      rw (seed_each, open')
        (Quiet-trans ss (create_collection d p ss) _ (create_collection-Quiet d p ss)
          (seed_each-Quiet d dbs (create_collection d p ss)))
]

pub seed_collections-Quiet : (d : Databases) (ss : SecretService) → Quiet ss (seed_collections d ss)
unfolding seed_collections
seed_collections-Quiet d ss = seed_each-Quiet d d.dbs ss

on_database_reloaded-Quiet :
    (d : Databases) (uuid : Bytes) (ss : SecretService) → Quiet ss (on_database_reloaded d uuid ss)
unfolding on_database_reloaded
on_database_reloaded-Quiet d uuid ss = elim (Option-cases (lookup uuid d.dbs)) [
  | inl missing ↦ rw (on_database_reloaded, missing) (Quiet-refl ss)
  | inr (p, found) ↦
      let removed = record ss { collections = remove_first_collection d uuid ss.collections } in
      let quiet : Quiet ss removed = record { same_sessions = refl; grown = omega arith } in
      elim (Bool-cases (d.heap p).locked) [
        | inl locked ↦ rw (on_database_reloaded, found, locked) quiet
        | inr open' ↦
            rw (on_database_reloaded, found, open')
              (Quiet-trans ss removed _ quiet (create_collection-Quiet d p removed))
      ]
]

on_database_unlocked-Quiet :
    (d : Databases) (uuid : Bytes) (ss : SecretService) → Quiet ss (on_database_unlocked d uuid ss)
unfolding on_database_unlocked
on_database_unlocked-Quiet d uuid ss = elim (Option-cases (lookup uuid d.dbs)) [
  | inl missing ↦ rw (on_database_unlocked, missing) (Quiet-refl ss)
  | inr (p, found) ↦ rw (on_database_unlocked, found) (create_collection-Quiet d p ss)
]

on_database_locked-Quiet :
    (d : Databases) (uuid : Bytes) (ss : SecretService) → Quiet ss (on_database_locked d uuid ss)
unfolding on_database_locked
on_database_locked-Quiet d uuid ss = record { same_sessions = refl; grown = omega arith }

pub handle_pool_event-Quiet :
    (d : Databases) (evt : Event) (ss : SecretService) → Quiet ss (handle_pool_event d evt ss)
unfolding handle_pool_event
handle_pool_event-Quiet d evt ss = by_type evt.type
  where
    by_type :
        (type : EventType)
        → Quiet ss (elim type [
          | database_unlocked ↦ on_database_unlocked d evt.uuid ss
          | database_locked ↦ on_database_locked d evt.uuid ss
          | database_reloaded ↦ on_database_reloaded d evt.uuid ss
          | database_error ↦ ss
        ])
    by_type database_unlocked = on_database_unlocked-Quiet d evt.uuid ss
    by_type database_locked = on_database_locked-Quiet d evt.uuid ss
    by_type database_reloaded = on_database_reloaded-Quiet d evt.uuid ss
    by_type database_error = Quiet-refl ss

pub create_collection_request-Quiet :
    (ss : SecretService) → Quiet ss (create_collection_request ss).0
unfolding create_collection_request
create_collection_request-Quiet ss = next_prompt-Quiet ss

pub set_alias-Quiet :
    (alias path : Bytes) (ss : SecretService) → Quiet ss (set_alias alias path ss).0
unfolding set_alias
set_alias-Quiet alias path ss = elim (Bool-cases (is_some (lookup path ss.collections))) [
  | inl found ↦ rw (set_alias, found) record { same_sessions = refl; grown = omega arith }
  | inr missing ↦ rw (set_alias, missing) (Quiet-refl ss)
]

pub unlock-Quiet :
    (u : Unicode) (d : Databases) (paths : List Bytes) (ss : SecretService)
    → Quiet ss (unlock u d paths ss).0
unfolding unlock
unlock-Quiet u d paths ss = elim (Bool-cases (needs_unlock u d ss paths)) [
  | inl needs ↦ rw (unlock, needs) (next_prompt-Quiet ss)
  | inr idle ↦ rw (unlock, idle) (Quiet-refl ss)
]

pub lock-Quiet :
    (d : Databases) (paths : List Bytes) (ss : SecretService) → Quiet ss (lock paths d ss).1
unfolding lock
lock-Quiet d paths ss = elim (Bool-cases (null (lock_objects ss paths d).1)) [
  | inl idle ↦ rw (lock, idle) (Quiet-refl ss)
  | inr locked ↦ rw (lock, locked) (next_prompt-Quiet ss)
]

notified-Quiet :
    (env : Environment) (d : Databases) (k : ℕ) (caller : CallerInfo) (ss : SecretService)
    → Quiet ss (notified env d k caller ss)
notified-Quiet env d k caller ss =
    let (cache, same) = notified-SameBut env d k caller ss in
    subst (Quiet ss) (sym same) (record { same_sessions = refl; grown = omega arith })

get_secrets_each-Quiet :
    (env : Environment) (d : Databases) (k : ℕ) (caller : CallerInfo) (sess : Session)
    (path : Bytes) (items : List Bytes) (ss : SecretService) (secrets : Secrets env d)
    → Quiet ss (get_secrets_each env d k caller sess path items ss secrets).0
unfolding get_secrets_each
get_secrets_each-Quiet env d k caller sess path [] ss secrets = Quiet-refl ss
get_secrets_each-Quiet env d k caller sess path (item_path ∷ items) ss secrets =
    let skip = get_secrets_each-Quiet env d (suc k) caller sess path items ss secrets in
    elim (Option-cases (get_item_by_path env.unicode d ss item_path)) [
      | inl missing ↦ rw (get_secrets_each, missing) skip
      | inr (item, found) ↦
          elim (Option-cases (authorize_secret_access env.polkit env.bus ss caller)) [
            | inr (_, refused) ↦ rw (get_secrets_each, found, refused) (Quiet-refl ss)
            | inl granted ↦
                elim (Result-cases
                  (encrypt env.cipher sess (env.random k) (password env d item.entry))) [
                    | inr (_, failed) ↦ rw (get_secrets_each, found, granted, failed) skip
                    | inl (encrypted, done) ↦
                        rw (get_secrets_each, found, granted, done)
                          (Quiet-trans ss (notified env d k caller ss) _
                            (notified-Quiet env d k caller ss)
                            (get_secrets_each-Quiet env d (suc k) caller sess path items
                              (notified env d k caller ss)
                              (insert item_path (dbus_secret path encrypted) secrets)))
                  ]
          ]
    ]

pub get_secrets-Quiet :
    (env : Environment) (d : Databases) (sender path : Bytes) (items : List Bytes)
    (ss : SecretService)
    → Quiet ss (get_secrets env d sender items path ss).0
unfolding get_secrets
get_secrets-Quiet env d sender path items ss = elim (Result-cases (validate_session ss path)) [
  | inr (_, failed) ↦ rw (get_secrets, failed) (Quiet-refl ss)
  | inl (sess, valid) ↦
      rw (get_secrets, valid)
        (get_secrets_each-Quiet env d 0 (caller_info (some env.bus) sender) sess path items ss [])
]

pub get_secret-Quiet :
    (env : Environment) (d : Databases) (sender path : Bytes) (item : Item) (ss : SecretService)
    → Quiet ss (get_secret env d sender path item ss).0
unfolding get_secret
get_secret-Quiet env d sender path item ss =
    let caller = caller_info (some env.bus) sender in
    elim (Option-cases (refresh env.unicode d ss item)) [
      | inl gone ↦ rw (get_secret, gone) (Quiet-refl ss)
      | inr (fresh, there) ↦
          elim (Option-cases (authorize_secret_access env.polkit env.bus ss caller)) [
            | inr (_, refused) ↦ rw (get_secret, there, refused) (Quiet-refl ss)
            | inl granted ↦ elim (Result-cases (validate_session ss path)) [
              | inr (_, failed) ↦ rw (get_secret, there, granted, failed) (Quiet-refl ss)
              | inl (sess, valid) ↦
                  elim (Result-cases
                    (encrypt env.cipher sess (env.random 0) (password env d fresh.entry))) [
                      | inr (_, failed) ↦
                          rw (get_secret, there, granted, valid, failed) (Quiet-refl ss)
                      | inl (encrypted, done) ↦
                          rw (get_secret, there, granted, valid, done)
                            (notified-Quiet env d 0 caller ss)
                    ]
            ]
          ]
    ]
