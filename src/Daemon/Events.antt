-- ===== src/Daemon/Events.antt =====
-- Events reach the SSH agent: no key outlives the lock of its database.
use kpxcd.Prelude.{true, List, some, Bytes, bytes_Eq, ◌≡◌, arith, All}
use kpxcd.Prelude.Results.{ok}
use kpxcd.Pool.Database.{OpenDatabase}
use kpxcd.Pool.Manage.{get, Event, database_unlocked, database_locked}
use kpxcd.Ssh.Identity.{Key, Identities}
use kpxcd.Ssh.Server.{SshAgentConfig, on_database_unlocked, on_database_locked}
use kpxcd.Ssh.Server.Database.{Leaves, NotOf, on_database_locked-unlocked}
use kpxcd.Daemon.{App, notify_agent, handle_pool_event}

module _ {S : Type 0} (digest : Bytes → Bytes) (cfg : SshAgentConfig)
    (extract : OpenDatabase → List (Key S)) where
  -- With the agent enabled and `remove_on_lock` set, when the events of an unlock and a later
  -- lock of a known database are handled, no key of that database is left in the agent, provided
  -- that its keys from before, if any, were marked to leave. The pool is not touched.
  pub handle_pool_event-locked :
      (app : App S) (m : Identities S) (odb : OpenDatabase) (unlocked locked : Event)
      → cfg.enabled ≡ true
      → cfg.remove_on_lock ≡ true
      → app.ssh_agent ≡ some m
      → unlocked.type ≡ database_unlocked
      → locked.type ≡ database_locked
      → unlocked.uuid ≡ locked.uuid
      → get app.pool locked.uuid ≡ ok odb
      → All (Leaves odb.uuid) m
      → let after =
          handle_pool_event digest cfg extract locked
            (handle_pool_event digest cfg extract unlocked app) in
        (left : Identities S) × (after.ssh_agent ≡ some left)
        × All (NotOf odb.uuid) left
        × (after.pool ≡ app.pool)
  unfolding handle_pool_event notify_agent
  handle_pool_event-locked app m odb unlocked locked on leave agent u l same known leaves =
      let left =
        on_database_locked digest cfg odb.uuid
          (on_database_unlocked digest cfg (extract odb) odb.uuid m) in
      (
        left,
        ground arith,
        on_database_locked-unlocked digest cfg (extract odb) odb.uuid m on leave leaves,
        ground arith,
      )
