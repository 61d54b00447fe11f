-- ===== src/SecretService/Service/Lifecycle.antt =====
-- The life of the Secret Service as a step relation: every request and every event is a step, and
-- what all of them preserve. The databases may change in any way between the steps. No step closes a
-- session: the object of a session is not exported, and the program does not call `Session.Close`.
pub mod Quiet
pub mod Sessions
pub mod Plain
pub mod Encrypted
pub mod Later
use kpxcd.Prelude.{ℕ, List, Bytes}
use kpxcd.Text.{Unicode}
use kpxcd.Config.{DatabaseConfig}
use kpxcd.Pool.Manage.{Event}
use kpxcd.SecretService.DiffieHellman.{Variant}
use kpxcd.SecretService.Service.{
  SecretService, SecretServiceConfig, Databases, update_config, update_database_configs,
  seed_collections, handle_pool_event,
}
use kpxcd.SecretService.Service.Objects.{Item}
use kpxcd.SecretService.Service.Requests.{
  open_session, create_collection_request, set_alias, unlock, lock,
}
use kpxcd.SecretService.Service.Secrets.{Environment, get_secrets, get_secret}

pub data Step : SecretService → SecretService → Type 0 where
  seeded : (d : Databases) (ss : SecretService) → Step ss (seed_collections d ss)
  told : (d : Databases) (evt : Event) (ss : SecretService) → Step ss (handle_pool_event d evt ss)
  configured : (cfg : SecretServiceConfig) (ss : SecretService) → Step ss (update_config cfg ss)
  databases_configured :
      (cfgs : List DatabaseConfig) (ss : SecretService) → Step ss (update_database_configs cfgs ss)
  session_opened :
      (derive : Bytes → Bytes) (random algorithm : Bytes) (input : Variant) (ss : SecretService)
      → Step ss (open_session derive random algorithm input ss).0
  collection_asked : (ss : SecretService) → Step ss (create_collection_request ss).0
  alias_set : (alias path : Bytes) (ss : SecretService) → Step ss (set_alias alias path ss).0
  unlock_asked :
      (u : Unicode) (d : Databases) (paths : List Bytes) (ss : SecretService)
      → Step ss (unlock u d paths ss).0
  lock_asked :
      (d : Databases) (paths : List Bytes) (ss : SecretService) → Step ss (lock paths d ss).1
  secrets_given :
      (env : Environment) (d : Databases) (sender path : Bytes) (items : List Bytes)
      (ss : SecretService)
      → Step ss (get_secrets env d sender items path ss).0
  secret_given :
      (env : Environment) (d : Databases) (sender path : Bytes) (item : Item) (ss : SecretService)
      → Step ss (get_secret env d sender path item ss).0

pub data Steps : SecretService → SecretService → Type 0 where
  done : (ss : SecretService) → Steps ss ss
  next : (ss mid last : SecretService) → Step ss mid → Steps mid last → Steps ss last
