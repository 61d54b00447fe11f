-- ===== src/Ssh/Client/Tracking.antt =====
-- The keys that the client of another agent keeps track of.
use kpxcd.Prelude.{
  Bool, true, false, List, [], ◌∷◌, Option, none, some, ◌>>=◌, Bytes, bytes_Eq, ◌==◌, Bool-cases,
  Option-cases, is_some, if◌then◌else◌, keep, lookup, lookup-delete, lookup-keep, Distinct, ◌≡◌,
  refl, subst, ◌∙◌, inl, inr, arith,
}
use kpxcd.Pool.Database.{OpenDatabase}
use kpxcd.Ssh.Identity.{Key}
use kpxcd.Ssh.Server.{SshAgentConfig}
use kpxcd.Ssh.Client.{
  AgentClient, Upstream, Both, untrack, fingerprints, belongs, remove_by_fingerprint, remove_each,
  remove_keys_for_db, on_database_locked,
}

elem : Bytes → List Bytes → Bool
elem j [] = false
elem j (fp ∷ fps) = if fp == j then true else elem j fps

module _ {S A : Type 0} (up : Upstream S A) where
  untracked : Bytes → Bytes → List (Bytes × Key S) → Option (Key S)
  untracked fp j keys = if fp == j then none else lookup j keys

  -- In every case the fingerprint is not tracked afterwards, and no other is touched.
  remove_by_fingerprint-lookup :
      (fp j : Bytes) (c : AgentClient S) (a : A)
      → lookup j (remove_by_fingerprint up fp (c, a)).0.0.keys ≡ untracked fp j c.keys
  unfolding remove_by_fingerprint untrack untracked
  remove_by_fingerprint-lookup fp j c a = elim (Option-cases (lookup fp c.keys)) [
    | inl missing ↦
        rw (remove_by_fingerprint, missing)
          (elim (Bool-cases (fp == j)) [
            | inl same ↦
                rw same
                  (subst (λ k. lookup k c.keys ≡ none) ((bytes_Eq.beq_iff fp j).0 same) missing)
            | inr other ↦ rw other refl
          ])
    | inr (key, found) ↦ elim (Bool-cases (up.public_key key)) [
      | inr without ↦ rw (remove_by_fingerprint, found, without) (lookup-delete fp j c.keys)
      | inl with ↦ elim (Bool-cases (up.reachable a)) [
        | inr gone ↦ rw (remove_by_fingerprint, found, with, gone) (lookup-delete fp j c.keys)
        | inl there ↦ rw (remove_by_fingerprint, found, with, there) (lookup-delete fp j c.keys)
      ]
    ]
  ]

  gone : Option (Key S)
  gone = none

  either : (b : Bool) → (if b then gone else gone) ≡ gone
  either true = refl
  either false = refl

  remove_each-lookup :
      (fps : List Bytes) (j : Bytes) (both : Both S A)
      → lookup j (remove_each up fps both).0.keys
        ≡ (if elem j fps then none else lookup j both.0.keys)
  unfolding remove_each elem untracked gone
  remove_each-lookup [] j both = refl
  remove_each-lookup (fp ∷ fps) j both =
      let later = remove_each-lookup fps j (remove_by_fingerprint up fp both).0 in
      let here = remove_by_fingerprint-lookup fp j (both.0) (both.1) in
      later
      ∙ rw here (elim (Bool-cases (fp == j)) [
        | inl same ↦ rw same (either (elem j fps))
        | inr other ↦ rw other refl
      ])

  elem-lookup :
      (j : Bytes) (keys : List (Bytes × Key S))
      → elem j (fingerprints up keys) ≡ is_some (lookup j keys)
  unfolding elem fingerprints lookup
  elem-lookup j [] = refl
  elem-lookup j ((fp, key) ∷ keys) = ground (arith, elem-lookup j keys)

  left_over : Bytes → Option (Key S) → Option (Key S)
  left_over uuid found = found >>= λ key. if key.db_uuid == uuid then none else some key

  choose :
      (uuid j : Bytes) (found : Option (Key S))
      → (if is_some (found >>= λ key. if belongs up uuid (j, key) then some key else none)
          then none
          else found)
        ≡ left_over uuid found
  unfolding left_over belongs
  choose uuid j none = refl
  choose uuid j (some key) = ground arith

-- When a database is locked, the client being enabled and set to remove keys on lock, it no longer
-- tracks the keys of that database, and tracks every other key as before, whatever the other agent
-- answers and whether it can be reached, if no fingerprint was tracked twice.
pub on_database_locked-lookup :
    {S A : Type 0} (digest : Bytes → Bytes) (cfg : SshAgentConfig) (up : Upstream S A)
    (db : OpenDatabase) (fp : Bytes) (c : AgentClient S) (a : A)
    → cfg.enabled ≡ true
    → cfg.remove_on_lock ≡ true
    → Distinct c.keys
    → lookup fp (on_database_locked digest cfg up db (c, a)).0.keys
      ≡ (lookup fp c.keys >>= λ key. if key.db_uuid == db.uuid then none else some key)
unfolding on_database_locked remove_keys_for_db left_over
on_database_locked-lookup digest cfg up db fp c a enabled removes distinct =
    let gone = keep (belongs up db.uuid) c.keys in
    rw (on_database_locked, enabled, removes)
      (remove_each-lookup up (fingerprints up gone) fp (c, a)
        ∙ rw (elem-lookup up fp gone, lookup-keep (belongs up db.uuid) fp c.keys distinct)
            (choose up db.uuid fp (lookup fp c.keys)))
