-- ===== src/Ssh/Server/Handlers.antt =====
-- What the handlers of single messages do to the loaded identities, and whose key signs.
use kpxcd.Prelude.{
  [], ◌∷◌, Option, none, some, Bytes, lookup, delete, ◌≡◌, ◌≢◌, ◌⊎◌, refl, sym, ◌∙◌, inl, inr,
  Option-cases, arith, lookup-delete, bytes_Eq, bytes_eq_iff,
}
use kpxcd.Prelude.Results.{ok, >>=-eq-ok}
use kpxcd.Ssh.Wire.{decode_string, encode_string, agent_success, sign_response, decode_message_type}
use kpxcd.Ssh.Identity.{
  Key, LoadedKey, Identities, AgentError, bad_key_blob, bad_data, key_not_found, fingerprint,
  find_identity_by_blob, remove_identity, IsValid, remove_all_identities,
}
use kpxcd.Ssh.Identity.Laws.{
  find_identity_by_blob-lookup, find_identity_by_blob-blob, find-delete, delete-IsValid,
}
use kpxcd.Ssh.Server.{
  SshLibrary, handle_remove_identity, process_message, remove_found, handle_sign_request, or_fail,
  sign_by, sign_flags, signature_algorithm_for_flags,
}

module _ {S G : Type 0} (ssh : SshLibrary S G) where
  fingerprint_blob :
      (k : Key S) (l : Key S)
      → k.blob ≡ l.blob
      → fingerprint ssh.digest k ≡ fingerprint ssh.digest l
  unfolding fingerprint
  fingerprint_blob k l e = rw e

  remove_found-IsValid :
      (o : Option (LoadedKey S)) (m : Identities S)
      → IsValid ssh.digest m
      → IsValid ssh.digest (remove_found ssh o m).0
  unfolding remove_found remove_identity
  remove_found-IsValid none m v = v
  remove_found-IsValid (some lk) m v =
      ground (arith, delete-IsValid ssh.digest (fingerprint ssh.digest lk.key) m v)

  handle_remove_identity-IsValid :
      (payload : Bytes) (m : Identities S)
      → IsValid ssh.digest m
      → IsValid ssh.digest (handle_remove_identity ssh payload m).0
  unfolding handle_remove_identity
  handle_remove_identity-IsValid payload m v = elim (Option-cases (decode_string payload)) [
    | inl bad ↦ rw (bad, handle_remove_identity) v
    | inr ((blob, rest), good) ↦
        let kept = remove_found-IsValid (find_identity_by_blob blob m) m v in
        rw (good, handle_remove_identity) (ground arith)
  ]

  nothing-IsValid : IsValid {S = S} ssh.digest []
  nothing-IsValid = record { distinct = tt; filed = tt }

  -- Every message, whatever its bytes, leaves the loaded keys filed under their fingerprints
  -- with one entry for each, if they were before it.
  pub process_message-IsValid :
      (msg : Bytes) (m : Identities S)
      → IsValid ssh.digest m
      → IsValid ssh.digest (process_message ssh msg m).0
  unfolding process_message remove_all_identities
  process_message-IsValid msg m v =
      ground
        (arith, handle_remove_identity-IsValid (decode_message_type msg).1 m v, nothing-IsValid)

  handle_remove_identity-delete :
      (payload blob : Bytes) (m : Identities S) (lk : LoadedKey S)
      → IsValid ssh.digest m
      → decode_string payload ≡ some (blob, [])
      → find_identity_by_blob blob m ≡ some lk
      → handle_remove_identity ssh payload m
        ≡ (delete (fingerprint ssh.digest lk.key) m, agent_success ∷ [])
  unfolding handle_remove_identity remove_identity
  handle_remove_identity-delete payload blob m lk v parsed found =
      let loaded = find_identity_by_blob-lookup ssh.digest blob m v.filed v.distinct found in
      rw (parsed, handle_remove_identity, found) (ground arith)

  -- A request to remove the blob of a loaded key, with nothing behind the blob, is answered with
  -- success, when the loaded keys are filed under their fingerprints; then no key with that blob
  -- is left, and all other fingerprints have the entries that they had.
  pub handle_remove_identity_lem :
      (payload blob : Bytes) (m : Identities S) (lk : LoadedKey S)
      → IsValid ssh.digest m
      → decode_string payload ≡ some (blob, [])
      → find_identity_by_blob blob m ≡ some lk
      → let r = handle_remove_identity ssh payload m in
        (r.1 ≡ agent_success ∷ [])
        × (find_identity_by_blob blob r.0 ≡ none)
        × ((fp : Bytes) → fp ≢ fingerprint ssh.digest lk.key → lookup fp r.0 ≡ lookup fp m)
  handle_remove_identity_lem payload blob m lk v parsed found =
      let fp = fingerprint ssh.digest lk.key in
      rw (handle_remove_identity-delete payload blob m lk v parsed found) (
        refl,
        find-delete ssh.digest fp blob m v.filed
            (λ k e. fingerprint_blob k lk.key (e ∙ sym (find_identity_by_blob-blob blob m found))),
        λ j other. ground (arith, lookup-delete fp j m, bytes_eq_iff fp j),
      )

  or_fail-eq-ok {ℓ} :
      {A : Type ℓ} (o : Option A) (x : AgentError) {a : A} → or_fail o x ≡ ok a → o ≡ some a
  or_fail-eq-ok none x h = cc
  or_fail-eq-ok (some b) x h = cc

  abbrev pub Signed : S → Bytes → G → Type 0
  Signed s text g =
      (ssh.sign s text ≡ some g)
      ⊎ ((f : Bytes → Bytes → Option G) × (algorithm : Bytes) × (ssh.sign_with_algorithm s ≡ some f)
          × (f text algorithm ≡ some g))

  sign_by_sound :
      (o : Option S) (algorithm text : Bytes) {g : G}
      → sign_by ssh o algorithm text ≡ ok g
      → (s : S) × (o ≡ some s) × Signed s text g
  unfolding sign_by
  sign_by_sound none algorithm text h = absurd (ground arith)
  sign_by_sound (some s) [] text h = (s, refl, inl (or_fail-eq-ok _ _ h))
  sign_by_sound (some s) (c ∷ cs) text h = elim (Option-cases (ssh.sign_with_algorithm s)) [
    | inl missing ↦ absurd (ground arith)
    | inr (f, found) ↦ (s, refl, inr (f, c ∷ cs, found, ground arith))
  ]

  -- What a signature answers for, when the loaded keys are filed under their fingerprints: a key
  -- that is loaded under its fingerprint and has the blob of the request, with a signer that
  -- made the signature over the data of the request.
  pub handle_sign_request_sound :
      (payload : Bytes) (m : Identities S) (answer : Bytes)
      → IsValid ssh.digest m
      → handle_sign_request ssh payload m ≡ ok answer
      → (blob : Bytes) × (rest : Bytes) × (text : Bytes) × (tail : Bytes) × (lk : LoadedKey S)
        × (s : S) × (g : G) × (decode_string payload ≡ some (blob, rest))
        × (decode_string rest ≡ some (text, tail))
        × (lookup (fingerprint ssh.digest lk.key) m ≡ some lk)
        × (lk.key.blob ≡ blob)
        × (lk.key.signer ≡ some s)
        × Signed s text g
        × (answer ≡ encode_string (sign_response ∷ []) (ssh.marshal g))
  unfolding handle_sign_request
  handle_sign_request_sound payload m answer v e =
      let ((blob, rest), e₁, k₁) = >>=-eq-ok (or_fail (decode_string payload) bad_key_blob) _ e in
      let ((text, tail), e₂, k₂) = >>=-eq-ok (or_fail (decode_string rest) bad_data) _ k₁ in
      let (flags, e₃, k₃) = >>=-eq-ok (sign_flags tail) _ k₂ in
      let (lk, e₄, k₄) = >>=-eq-ok (or_fail (find_identity_by_blob blob m) key_not_found) _ k₃ in
      let (algorithm, e₅, k₅) = >>=-eq-ok (signature_algorithm_for_flags flags) _ k₄ in
      let (g, e₆, k₆) = >>=-eq-ok (sign_by ssh lk.key.signer algorithm text) _ k₅ in
      let (s, signer, signed) = sign_by_sound lk.key.signer algorithm text e₆ in
      let found = or_fail-eq-ok _ _ e₄ in
      (
        blob,
        rest,
        text,
        tail,
        lk,
        s,
        g,
        or_fail-eq-ok _ _ e₁,
        or_fail-eq-ok _ _ e₂,
        find_identity_by_blob-lookup ssh.digest blob m v.filed v.distinct found,
        find_identity_by_blob-blob blob m found,
        signer,
        signed,
        cc,
      )
