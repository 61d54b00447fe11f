-- ===== src/Ssh/Server/Removing.antt =====
-- What messages can change, and what the removal of one key means for its client.
use kpxcd.Prelude.{
  [], ◌∷◌, none, some, Bytes, bytes_Eq, nat_eq, lookup, ◌≡◌, ◌≢◌, ◌⊎◌, inl, inr, sym, ap, ◌∙◌,
  subst, arith, Bool-cases, Option-cases,
}
use kpxcd.Ssh.Wire.{
  decode_string, decode_message_type, remove_identity_request, remove_all_identities_request,
}
use kpxcd.Ssh.Identity.{
  LoadedKey, Identities, IsValid, fingerprint, find_identity_by_blob, remove_all_identities,
}
use kpxcd.Ssh.Server.{SshLibrary, process_message, handle_remove_identity, remove_found}
use kpxcd.Ssh.Server.Handlers.{handle_remove_identity_lem}

module _ {S G : Type 0} (ssh : SshLibrary S G) where
  -- One key is gone: none is left with its blob, and every other fingerprint has what it had.
  abbrev Without : Bytes → Identities S → Identities S → Type 0
  Without blob m m' =
      (lk : LoadedKey S) × (find_identity_by_blob blob m ≡ some lk)
      × (find_identity_by_blob blob m' ≡ none)
      × ((fp : Bytes) → fp ≢ fingerprint ssh.digest lk.key → lookup fp m' ≡ lookup fp m)

  -- A request to remove one key, with its blob and nothing behind, that was answered with success.
  abbrev RemovedOne : Bytes → Identities S → Identities S → Type 0
  RemovedOne msg m m' =
      (payload : Bytes) × (blob : Bytes) × (decode_message_type msg
        ≡ (remove_identity_request, payload))
      × (decode_string payload ≡ some (blob, []))
      × Without blob m m'

  handle_remove_identity-cases :
      (payload : Bytes) (m : Identities S)
      → IsValid ssh.digest m
      → ((handle_remove_identity ssh payload m).0 ≡ m)
        ⊎ ((blob : Bytes) × (decode_string payload ≡ some (blob, []))
            × Without blob m (handle_remove_identity ssh payload m).0)
  unfolding handle_remove_identity remove_found
  handle_remove_identity-cases payload m v = elim (Option-cases (decode_string payload)) [
    | inl bad ↦ inl (ground arith)
    | inr ((blob, []), good) ↦ elim (Option-cases (find_identity_by_blob blob m)) [
      | inl missing ↦ inl (ground arith)
      | inr (lk, found) ↦
          let gone = handle_remove_identity_lem ssh payload blob m lk v good found in
          inr (blob, good, (lk, found, gone.1, gone.2))
    ]
    | inr ((blob, c ∷ more), good) ↦ inl (ground arith)
  ]

  -- What a message can do to the loaded identities, if they are filed under their fingerprints: it
  -- leaves them as they are; or it is the request to remove all of them, and none is left; or it is
  -- the request to remove one key, with the blob of a loaded key and nothing behind it, and then no
  -- key with this blob is left and every other fingerprint has the key that it had.
  process_message_changes :
      (msg : Bytes) (m : Identities S)
      → IsValid ssh.digest m
      → let after = (process_message ssh msg m).0 in
        (after ≡ m)
        ⊎ (((decode_message_type msg).0 ≡ remove_all_identities_request) × (after ≡ []))
        ⊎ RemovedOne msg m after
  unfolding process_message remove_all_identities
  process_message_changes msg m v =
      let (typ, payload) = decode_message_type msg in
      elim (Bool-cases (nat_eq typ remove_identity_request)) [
        | inl one ↦
            let kind : typ ≡ remove_identity_request = ground arith in
            let whole : (process_message ssh msg m).0 ≡ (handle_remove_identity ssh payload m).0 =
              ground arith in
            elim (handle_remove_identity-cases payload m v) [
              | inl same ↦ inl (whole ∙ same)
              | inr (blob, parsed, without) ↦ inr (
                  inr (
                    payload,
                    blob,
                    ap (λ t. (t, payload)) kind,
                    parsed,
                    subst (Without blob m) (sym whole) without,
                  ))
            ]
        | inr other ↦ elim (Bool-cases (nat_eq typ remove_all_identities_request)) [
          | inl everything ↦ inr (inl (ground arith, ground arith))
          | inr neither ↦ inl (ground arith)
        ]
      ]
