-- ===== src/Ssh/Client.antt =====
-- internal/sshagent/client.go: keys pushed into another SSH agent. The other agent, with whatever
-- it does between two calls, is a state of a type `A`; a step of it may fail. The map of the keys
-- that this client has added is an association list; nothing else uses the client meanwhile.
pub mod Tracking
use kpxcd.Prelude.{
  ℕ, Bool, true, false, not, List, [], ◌∷◌, map, Option, none, some, Bytes, bytes_Eq, ◌==◌, null,
  if◌then◌else◌, keep, lookup, insert, delete,
}
use kpxcd.Prelude.Results.{Result, ok, err}
use kpxcd.Pool.Database.{OpenDatabase}
use kpxcd.Ssh.Identity.{Key, fingerprint, set_db_uuid}
use kpxcd.Ssh.Wire.{uint32}
use kpxcd.Ssh.Server.{SshAgentConfig}

pub record AgentClient (S : Type 0) : Type 0 where
  pub socket : Bytes
  pub keys : List (Bytes × Key S)

pub data ClientError : Type 0 where
  no_socket no_private_key unreachable refused no_public_key : ClientError

-- What the agent behind the socket does: a call gives its next state and whether it succeeded.
-- `private_key` tells whether a key has private material, `public_key` whether a public part.
pub record Upstream (S A : Type 0) : Type 0 where
  pub reachable : A → Bool
  -- With the lifetime in seconds and whether to confirm each use.
  pub add : Key S → ℕ → Bool → A → A × Bool
  pub remove : Key S → A → A × Bool
  pub private_key : Key S → Bool
  pub public_key : Key S → Bool
  -- `ExtractKeysFromDatabase`, `none` for its error.
  pub extract : OpenDatabase → Option (List (Key S))

-- `none` stands for an error.
unfoldable pub new_agent_client : {S : Type 0} → Bytes → Option (AgentClient S)
new_agent_client sock = if null sock then none else some (record { socket = sock; keys = [] })

-- The client and the other agent.
abbrev pub Both : Type 0 → Type 0 → Type 0
Both S A = AgentClient S × A

module _ {S A : Type 0} (digest : Bytes → Bytes) (cfg : SshAgentConfig) (up : Upstream S A) where
  unfoldable pub track : Key S → AgentClient S → AgentClient S
  track key c = record c { keys = insert (fingerprint digest key) key c.keys }

  unfoldable pub add_key : Key S → Both S A → Both S A × Option ClientError
  unfolding track
  add_key key (c, a) =
      if not (up.private_key key)
      then ((c, a), some no_private_key)
      else if not (up.reachable a)
      then ((c, a), some unreachable)
      else (let added = up.add key (uint32 cfg.lifetime) cfg.confirm_on_use a in
          if added.1 then ((track key c, added.0), none) else ((c, added.0), some refused))

  -- The loop over the extracted keys; failures are only logged.
  unfoldable pub add_keys : Bytes → List (Key S) → Both S A → Both S A
  add_keys uuid [] both = both
  add_keys uuid (key ∷ keys) both = add_keys uuid keys ((add_key (set_db_uuid uuid key) both).0)

  unfoldable pub on_database_unlocked : OpenDatabase → Both S A → Both S A
  unfolding add_keys
  on_database_unlocked db both =
      if not cfg.enabled
      then both
      else elim (up.extract db) [ none ↦ both | some keys ↦ add_keys db.uuid keys both ]

module _ {S A : Type 0} (up : Upstream S A) where
  untrack : Bytes → AgentClient S → AgentClient S
  untrack fp c = record c { keys = delete fp c.keys }

  -- The key is no longer tracked, whatever the other agent says.
  unfoldable pub remove_by_fingerprint : Bytes → Both S A → Both S A × Option ClientError
  unfolding untrack
  remove_by_fingerprint fp (c, a) = elim (lookup fp c.keys) [
    | none ↦ ((c, a), none)
    | some key ↦
        if not (up.public_key key)
        then ((untrack fp c, a), some no_public_key)
        else if not (up.reachable a)
        then ((untrack fp c, a), none)
        else ((untrack fp c, (up.remove key a).0), none)
  ]

  unfoldable pub remove_each : List Bytes → Both S A → Both S A
  remove_each [] both = both
  remove_each (fp ∷ fps) both = remove_each fps ((remove_by_fingerprint fp both).0)

  fingerprints : List (Bytes × Key S) → List Bytes
  fingerprints keys = map (λ entry. entry.0) keys

  unfoldable pub remove_all_keys : Both S A → Both S A
  unfolding fingerprints remove_each
  remove_all_keys (c, a) = remove_each (fingerprints c.keys) (c, a)

  unfoldable pub belongs : Bytes → Bytes × Key S → Bool
  belongs uuid entry = (entry.1).db_uuid == uuid

  unfoldable pub remove_keys_for_db : Bytes → Both S A → Both S A
  unfolding fingerprints belongs
  remove_keys_for_db uuid (c, a) = remove_each (fingerprints (keep (belongs uuid) c.keys)) (c, a)

  unfoldable pub close : Both S A → Both S A
  close both = remove_all_keys both

module _ {S A : Type 0} (digest : Bytes → Bytes) (cfg : SshAgentConfig) (up : Upstream S A) where
  unfoldable pub remove_key : Key S → Both S A → Both S A × Option ClientError
  remove_key key both = remove_by_fingerprint up (fingerprint digest key) both

  unfoldable pub on_database_locked : OpenDatabase → Both S A → Both S A
  on_database_locked db both =
      if not cfg.enabled
      then both
      else if cfg.remove_on_lock
      then remove_keys_for_db up db.uuid both
      else both
