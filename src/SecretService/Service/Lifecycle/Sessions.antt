-- ===== src/SecretService/Service/Lifecycle/Sessions.antt =====
-- Sessions in the life of the service: their paths are new, and they stay as they are.
use kpxcd.Prelude.{
  ℕ, suc, ◌≤◌, ◌<◌, false, List, [], ◌∷◌, none, some, Bytes, codes, bytes_Eq, ◌==◌, Bool-cases,
  Option-cases, lookup, insert, lookup-insert, All, All-insert, All-lookup, ◌≡◌, refl, subst, ◌∙◌,
  inl, inr, arith,
}
use kpxcd.SecretService.Session.{Session, new_plain_session, new_encrypted_session}
use kpxcd.SecretService.Paths.{session_path}
use kpxcd.SecretService.Paths.Numbers.{session_path_injective}
use kpxcd.SecretService.DiffieHellman.{Variant, client_public_key}
use kpxcd.SecretService.Service.{SecretService, SecretServiceConfig, new_secret_service}
use kpxcd.SecretService.Service.Requests.{open_session, is_dh, negotiate_dh, handle_dh_key_exchange}
use kpxcd.SecretService.Service.Lifecycle.{
  Step, seeded, told, configured, databases_configured, session_opened, collection_asked, alias_set,
  unlock_asked, lock_asked, secrets_given, secret_given, Steps, done, next,
}
use kpxcd.SecretService.Service.Lifecycle.Quiet.{
  Quiet, update_config-Quiet, update_database_configs-Quiet, seed_collections-Quiet,
  handle_pool_event-Quiet, create_collection_request-Quiet, set_alias-Quiet, unlock-Quiet,
  lock-Quiet, get_secrets-Quiet, get_secret-Quiet,
}

-- A session below the number, open, under the path of its own number.
abbrev pub IssuedBelow : ℕ → Bytes × Session → Type 0
IssuedBelow bound entry =
    (n : ℕ) × (n < bound) × (entry.0 ≡ session_path n) × (entry.1.closed ≡ false)

-- Every session is open and has a path with a number that has been given out.
abbrev pub Issued : SecretService → Type 0
Issued ss = All (IssuedBelow ss.next_id) ss.sessions

pub record Extends (ss after : SecretService) : Type 0 where
  pub issued : Issued after
  pub grown : ss.next_id ≤ after.next_id
  pub kept :
      (path : Bytes) (sess : Session)
      → lookup path ss.sessions ≡ some sess
      → lookup path after.sessions ≡ some sess

Issued-grow :
    (n m : ℕ) (sessions : List (Bytes × Session))
    → n ≤ m
    → All (IssuedBelow n) sessions
    → All (IssuedBelow m) sessions
Issued-grow n m [] h a = tt
Issued-grow n m (entry ∷ sessions) h ((i, below, at, usable), rest) =
    ((i, omega (arith, h, below), at, usable), Issued-grow n m sessions h rest)

Quiet-Extends : (ss after : SecretService) → Issued ss → Quiet ss after → Extends ss after
Quiet-Extends ss after issued quiet = record {
  issued =
      rw quiet.same_sessions (Issued-grow ss.next_id after.next_id ss.sessions quiet.grown issued);
  grown = quiet.grown;
  kept = λ path sess found. rw quiet.same_sessions found;
}

-- A path with the next number is free.
Issued-free : (ss : SecretService) → Issued ss → lookup (session_path ss.next_id) ss.sessions ≡ none
Issued-free ss issued = elim (Option-cases (lookup (session_path ss.next_id) ss.sessions)) [
  | inl free ↦ free
  | inr (sess, taken) ↦
      let (n, below, at, usable) =
        All-lookup _ (session_path ss.next_id) sess ss.sessions issued taken in
      absurd (omega (arith, below, session_path_injective ss.next_id n at))
]

lookup-insert_other :
    (free path : Bytes) (sess old : Session) (sessions : List (Bytes × Session))
    → lookup free sessions ≡ none
    → lookup path sessions ≡ some old
    → lookup path (insert free sess sessions) ≡ some old
lookup-insert_other free path sess old sessions missing found = elim (Bool-cases (free == path)) [
  | inl same ↦
      let bad =
        subst (λ k. lookup k sessions ≡ none) ((bytes_Eq.beq_iff free path).0 same) missing in
      absurd (cc)
  | inr other ↦ lookup-insert free path sess sessions ∙ rw other found
]

abbrev with_session : Session → SecretService → SecretService
with_session sess ss = record ss {
  next_id = suc ss.next_id;
  sessions = insert (session_path ss.next_id) sess ss.sessions;
}

with_session-Extends :
    (sess : Session) (ss : SecretService)
    → sess.closed ≡ false
    → Issued ss
    → Extends ss (with_session sess ss)
with_session-Extends sess ss usable issued = record {
  issued =
      All-insert (IssuedBelow (suc ss.next_id)) (session_path ss.next_id) sess ss.sessions
        (λ j same. (ss.next_id, omega arith, same, usable))
        (Issued-grow ss.next_id (suc ss.next_id) ss.sessions (omega arith) issued);
  grown = omega arith;
  kept = λ path old found.
      lookup-insert_other (session_path ss.next_id) path sess old ss.sessions
        (Issued-free ss issued) found;
}

counted-Extends :
    (ss : SecretService) → Issued ss → Extends ss (record ss { next_id = suc ss.next_id })
counted-Extends ss issued =
    Quiet-Extends ss _ issued (record { same_sessions = refl; grown = omega arith })

negotiate_dh-Extends :
    (derive : Bytes → Bytes) (random : Bytes) (input : Variant) (ss : SecretService)
    → Issued ss
    → Extends ss
        (negotiate_dh derive random input
          (session_path ss.next_id)
          (record ss { next_id = suc ss.next_id })).0
unfolding negotiate_dh handle_dh_key_exchange new_encrypted_session
negotiate_dh-Extends derive random input ss issued = elim (Option-cases (client_public_key input)) [
  | inl missing ↦ rw (negotiate_dh, handle_dh_key_exchange, missing) (counted-Extends ss issued)
  | inr (client_pub, found) ↦
      rw (negotiate_dh, handle_dh_key_exchange, found) (with_session-Extends _ ss refl issued)
]

open_session-Extends :
    (derive : Bytes → Bytes) (random algorithm : Bytes) (input : Variant) (ss : SecretService)
    → Issued ss
    → Extends ss (open_session derive random algorithm input ss).0
unfolding open_session new_plain_session
open_session-Extends derive random algorithm input ss issued =
    elim (Bool-cases (algorithm == codes "plain")) [
      | inl plain ↦
          rw (open_session, plain)
            (with_session-Extends (new_plain_session (session_path ss.next_id)) ss refl issued)
      | inr other ↦ elim (Bool-cases (is_dh algorithm)) [
        | inl dh ↦ rw (open_session, other, dh) (negotiate_dh-Extends derive random input ss issued)
        | inr unknown ↦ rw (open_session, other, unknown) (counted-Extends ss issued)
      ]
    ]

Step-Extends : (ss after : SecretService) → Step ss after → Issued ss → Extends ss after
Step-Extends ss _ (seeded d _) i = Quiet-Extends ss _ i (seed_collections-Quiet d ss)
Step-Extends ss _ (told d evt _) i = Quiet-Extends ss _ i (handle_pool_event-Quiet d evt ss)
Step-Extends ss _ (configured cfg _) i = Quiet-Extends ss _ i (update_config-Quiet cfg ss)
Step-Extends ss _ (databases_configured cfgs _) i =
    Quiet-Extends ss _ i (update_database_configs-Quiet cfgs ss)
Step-Extends ss _ (session_opened derive random algorithm input _) i =
    open_session-Extends derive random algorithm input ss i
Step-Extends ss _ (collection_asked _) i = Quiet-Extends ss _ i (create_collection_request-Quiet ss)
Step-Extends ss _ (alias_set alias path _) i = Quiet-Extends ss _ i (set_alias-Quiet alias path ss)
Step-Extends ss _ (unlock_asked u d paths _) i = Quiet-Extends ss _ i (unlock-Quiet u d paths ss)
Step-Extends ss _ (lock_asked d paths _) i = Quiet-Extends ss _ i (lock-Quiet d paths ss)
Step-Extends ss _ (secrets_given env d sender path items _) i =
    Quiet-Extends ss _ i (get_secrets-Quiet env d sender path items ss)
Step-Extends ss _ (secret_given env d sender path item _) i =
    Quiet-Extends ss _ i (get_secret-Quiet env d sender path item ss)

pub Steps-Extends : (ss last : SecretService) → Steps ss last → Issued ss → Extends ss last
Steps-Extends ss _ (done _) i = record {
  issued = i;
  grown = omega arith;
  kept = λ path sess found. found;
}
Steps-Extends ss _ (next _ mid last step steps) i =
    let first = Step-Extends ss mid step i in
    let rest = Steps-Extends mid last steps first.issued in
    record {
      issued = rest.issued;
      grown = omega (arith, first.grown, rest.grown);
      kept = λ path sess found. rest.kept path sess (first.kept path sess found);
    }

-- In every state that the service reaches from its start, each session is open and has a path made
-- from a number below the next one, so the path of the next session is free; and in every state
-- reached from there each of its sessions is still under its path, with nothing changed in it.
pub sessions_kept :
    (cfg : SecretServiceConfig) (ss last : SecretService)
    → Steps (new_secret_service cfg) ss
    → Steps ss last
    → Issued ss × (lookup (session_path ss.next_id) ss.sessions ≡ none) × Extends ss last
unfolding new_secret_service
sessions_kept cfg ss last start steps =
    let issued = (Steps-Extends (new_secret_service cfg) ss start tt).issued in
    (issued, Issued-free ss issued, Steps-Extends ss last steps issued)
