-- ===== src/Ssh/KeeAgent/Origin.antt =====
-- What an extracted key holds: the public key of its file and the labels of its entry.
use kpxcd.Prelude.{
  false, [], Option, none, some, Bytes, codes, null, bytes_Eq, bytes_eq_iff, ◌==◌, ◌≡◌, ◌⊎◌, inl,
  inr, refl, sym, ap, ◌∙◌, subst, arith, Bool-cases, Option-cases,
}
use kpxcd.Prelude.Results.{ok, Result-cases}
use kpxcd.Text.{Unicode}
use kpxcd.Keepass.{Entry, Library, In}
use kpxcd.Ssh.Identity.{Key}
use kpxcd.Ssh.OpenSsh.{extract_public_blob}
use kpxcd.Ssh.PrivateKey.{
  Raw, Formats, parsed, malformed, passphrase_missing, parse_private_key,
  parse_encrypted_key_public_only, public_only, with_signer, key_of_raw,
}
use kpxcd.Ssh.KeeAgent.{
  KeeAgentSettings, Reference, Attachments, attachment_content, parse_key_bytes, labelled,
  extract_key_from_entry,
}
use kpxcd.Ssh.KeeAgent.Sound.{
  settings_in_effect, Allowed, extract_key_from_entry-in_effect, extract_in_effect-Parsed,
}

module _ {R S : Type 0} (formats : Formats R S) where
  -- What the library takes a private key file for, without a passphrase or with one.
  abbrev pub Reads : Bytes → Bytes → Raw R → Type 0
  Reads content password raw =
      (formats.parse_raw_private_key content ≡ raw)
      ⊎ ((null password ≡ false)
          × (formats.parse_raw_private_key_with_passphrase content password ≡ raw))

  -- A key whose public part stands in front of the encrypted part of its file.
  abbrev PublicOnly : Bytes → Key S → Type 0
  PublicOnly content k =
      (k.signer ≡ none)
      × (raw : Bytes) × (blob : Bytes) × (formats.pem_decode content
          ≡ some (codes "OPENSSH PRIVATE KEY", raw))
      × (extract_public_blob raw ≡ some blob)
      × (formats.parse_public_key blob ≡ some (k.format, k.blob))

  -- A key that can sign has the signer of the private key in its file, and carries the public key
  -- of this signer; one that cannot comes from a file that asks for a passphrase, and carries the
  -- public key that stands in front of the encrypted part.
  abbrev pub Genuine : Bytes → Bytes → Key S → Type 0
  Genuine content password k =
      ((r : R) × (s : S) × Reads content password (parsed r)
        × (formats.signer r ≡ some s)
        × (k.signer ≡ some s)
        × (k.format ≡ formats.kind s)
        × (k.blob ≡ formats.marshal s))
      ⊎ (Reads content password passphrase_missing × PublicOnly content k)

  parse_encrypted-Genuine :
      (content : Bytes) (k : Key S)
      → parse_encrypted_key_public_only formats content ≡ ok k
      → PublicOnly content k
  unfolding parse_encrypted_key_public_only public_only
  parse_encrypted-Genuine content k h = elim (Option-cases (formats.pem_decode content)) [
    | inl without ↦ absurd (ground arith)
    | inr (block, decoded) ↦ elim (Bool-cases (block.0 == codes "OPENSSH PRIVATE KEY")) [
      | inr other ↦ absurd (ground arith)
      | inl open_ssh ↦ elim (Option-cases (extract_public_blob block.1)) [
        | inl without ↦ absurd (ground arith)
        | inr (blob, extracted) ↦ elim (Option-cases (formats.parse_public_key blob)) [
          | inl without ↦ absurd (ground arith)
          | inr (public, read) ↦
              let same : public_only formats public.0 public.1 ≡ k = ground arith in
              let kind : block.0 ≡ codes "OPENSSH PRIVATE KEY" = (bytes_eq_iff _ _).0 open_ssh in
              (
                ap (λ x. x.signer) (sym same),
                block.1,
                blob,
                decoded ∙ ap (λ x. some (x, block.1)) kind,
                extracted,
                read ∙ ap (λ x. some (x.format, x.blob)) same,
              )
        ]
      ]
    ]
  ]

  key_of_raw-Genuine :
      (content password : Bytes) (raw : Raw R) (k : Key S)
      → Reads content password raw
      → key_of_raw formats content raw ≡ ok k
      → Genuine content password k
  unfolding key_of_raw with_signer
  key_of_raw-Genuine content password malformed k reads h = cc
  key_of_raw-Genuine content password passphrase_missing k reads h =
      inr (reads, parse_encrypted-Genuine content k h)
  key_of_raw-Genuine content password (parsed r) k reads h =
      elim (Option-cases (formats.signer r)) [
        | inl without ↦ absurd (ground arith)
        | inr (s, signs) ↦
            let same : with_signer formats s ≡ k = ground arith in
            subst (Genuine content password) same (inl (r, s, reads, signs, refl, refl, refl))
      ]

  pub parse_private_key-Genuine :
      (content passphrase : Bytes) (k : Key S)
      → parse_private_key formats content passphrase ≡ ok k
      → Genuine content passphrase k
  unfolding parse_private_key
  parse_private_key-Genuine content passphrase k h = elim (Bool-cases (null passphrase)) [
    | inl without ↦
        key_of_raw-Genuine content passphrase (formats.parse_raw_private_key content) k (inl refl)
          (rw (parse_private_key, without) at (h))
    | inr with_one ↦
        key_of_raw-Genuine content passphrase
          (formats.parse_raw_private_key_with_passphrase content passphrase) k
          (inr (with_one, refl)) (rw (parse_private_key, with_one) at (h))
  ]

  Reads-weaken :
      (content password : Bytes) (raw : Raw R) → Reads content [] raw → Reads content password raw
  Reads-weaken content password raw (inl plainly) = inl plainly
  Reads-weaken content password raw (inr (full, reads)) = absurd (cc full)

  Genuine-weaken :
      (content password : Bytes) (k : Key S) → Genuine content [] k → Genuine content password k
  Genuine-weaken content password k (inl (r, s, reads, signs, has, kind, blob)) =
      inl (r, s, Reads-weaken content password (parsed r) reads, signs, has, kind, blob)
  Genuine-weaken content password k (inr (reads, rest)) =
      inr (Reads-weaken content password passphrase_missing reads, rest)

module _ {R S : Type 0} (u : Unicode) (lib : Library) (formats : Formats R S)
    (files : Attachments) where
  abbrev pub Labelled : Entry → Bytes → Key S → Type 0
  Labelled e content k =
      Genuine formats content (lib.get_content e.values (codes "Password")) k
      × (k.comment ≡ lib.get_content e.values (codes "Title"))
      × (k.entry_uuid ≡ files.uuid_text e.uuid)

  labelled-Labelled :
      (e : Entry) (content : Bytes) (key k : Key S)
      → Genuine formats content (lib.get_content e.values (codes "Password")) key
      → labelled u lib formats files e key ≡ k
      → Labelled e content k
  unfolding labelled
  labelled-Labelled e content key k genuine same =
      subst (Labelled e content) same (genuine, refl, refl)

  parse_key_bytes-Labelled :
      (e : Entry) (content : Bytes) (k : Key S)
      → parse_key_bytes u lib formats files e content ≡ ok k
      → Labelled e content k
  unfolding parse_key_bytes
  parse_key_bytes-Labelled e content k h =
      let password = lib.get_content e.values (codes "Password") in
      elim (Result-cases (parse_private_key formats content password)) [
        | inl (key, read) ↦
            labelled-Labelled e content key k
              (parse_private_key-Genuine formats content password key read) (ground arith)
        | inr (failed, bad) ↦ elim (Bool-cases (null password)) [
          | inl without ↦ absurd (ground arith)
          | inr with_one ↦ elim (Result-cases (parse_private_key formats content [])) [
            | inl (key, read) ↦
                labelled-Labelled e content key k
                  (Genuine-weaken formats content password key
                    (parse_private_key-Genuine formats content [] key read))
                  (ground arith)
            | inr (again, worse) ↦ absurd (ground arith)
          ]
        ]
      ]

  -- If an entry yields a key, then the settings in effect do not forbid it. These are the settings in
  -- its attachment; where it has no such attachment, or one that cannot be read, they are those in
  -- its custom data, which then can be read or are missing. Where there are settings in effect, they
  -- allow the use of the key and do not place it in a file outside the database. The key comes from
  -- the content of an attachment of the entry: either the library has parsed this content, plainly or
  -- with the entry's password, and the key has the signer of what was parsed and the signer's public
  -- key; or the content asks for a passphrase, and the key has no signer and the public key in front
  -- of the encrypted part. It has the entry's title and UUID.
  pub extract_key_from_entry_sound :
      (e : Entry) (k : Key S)
      → extract_key_from_entry u lib formats files e ≡ some k
      → ((found : Option KeeAgentSettings) × (settings_in_effect u lib formats files e ≡ ok found)
          × Allowed u lib formats files found)
        × ((r : Reference) × (content : Bytes) × In r (files.binaries e)
            × (attachment_content u lib formats files r.id ≡ ok content)
            × Genuine formats content (lib.get_content e.values (codes "Password")) k)
        × (k.comment ≡ lib.get_content e.values (codes "Title"))
        × (k.entry_uuid ≡ files.uuid_text e.uuid)
  extract_key_from_entry_sound e k h =
      let (found, read, allows, origin) =
        extract_in_effect-Parsed u lib formats files (settings_in_effect u lib formats files e) e k
          (sym (extract_key_from_entry-in_effect u lib formats files e) ∙ h) in
      let (r, content, there, got, good) = origin in
      let (genuine, title, uuid) = parse_key_bytes-Labelled e content k good in
      ((found, read, allows), (r, content, there, got, genuine), title, uuid)
