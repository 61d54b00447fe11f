-- ===== src/Ssh/KeeAgent/Sound.antt =====
-- Where an extracted key comes from, and what the settings of its entry say.
use kpxcd.Prelude.{
  true, List, [], ◌∷◌, Option, none, some, Bytes, codes, null, bytes_Eq, ◌==◌, ◌≡◌, ◌≢◌, inl, inr,
  refl, arith, Bool-cases, Option-cases, bytes_eq_iff,
}
use kpxcd.Prelude.Results.{Result, ok, err, Result-cases}
use kpxcd.Text.{Unicode, equal_fold}
use kpxcd.Keepass.{Entry, Library, In}
use kpxcd.Ssh.Identity.{Key}
use kpxcd.Ssh.PrivateKey.{Formats, KeyError}
use kpxcd.Ssh.KeeAgent.{
  KeeAgentSettings, Reference, Attachments, attachment_content, attachment_key, scan,
  find_reference, parse_key_bytes, parse_key_attachment, parse_kee_agent_settings,
  resolve_kee_agent_settings, extract_key_from_any_private_key_attachment, extract_key_from_named,
  extract_key_with, extract_key_from_entry, fallback, looks_like_private_key,
  attachment_name_matches,
}

module _ {R S : Type 0} (u : Unicode) (lib : Library) (formats : Formats R S)
    (files : Attachments) where
  -- The settings that count: those of the attachment, or those of the custom data without them.
  unfoldable pub settings_in_effect : Entry → Result KeyError (Option KeeAgentSettings)
  settings_in_effect e = elim (resolve_kee_agent_settings u lib formats files e) [
    | ok (some st) ↦ ok (some st)
    | ok none ↦ parse_kee_agent_settings u lib formats files e
    | err failed ↦ parse_kee_agent_settings u lib formats files e
  ]

  unfoldable pub extract_in_effect :
      Result KeyError (Option KeeAgentSettings) → Entry → Option (Key S)
  extract_in_effect (err failed) e = none
  extract_in_effect (ok none) e = extract_key_from_any_private_key_attachment u lib formats files e
  extract_in_effect (ok (some st)) e = extract_key_with u lib formats files st e

  fallback-in_effect :
      (e : Entry)
      → fallback u lib formats files e
        ≡ extract_in_effect (parse_kee_agent_settings u lib formats files e) e
  unfolding fallback extract_in_effect
  fallback-in_effect e = ground arith

  pub extract_key_from_entry-in_effect :
      (e : Entry)
      → extract_key_from_entry u lib formats files e ≡ extract_in_effect (settings_in_effect e) e
  unfolding extract_key_from_entry settings_in_effect extract_in_effect
  extract_key_from_entry-in_effect e = ground (arith, fallback-in_effect e)

  -- A key with the entry's labels, parsed from the content of one of its attachments.
  abbrev pub Parsed : Entry → Key S → Type 0
  Parsed e k =
      (r : Reference) × (content : Bytes) × In r (files.binaries e)
      × (attachment_content u lib formats files r.id ≡ ok content)
      × (parse_key_bytes u lib formats files e content ≡ ok k)

  abbrev pub Allowed : Option KeeAgentSettings → Type 0
  Allowed none = Unit
  Allowed (some st) = (st.allow_use_of_ssh_key ≡ true) × (st.location.selected_type ≢ codes "file")

  attachment_key-Parsed :
      (e : Entry) (r : Reference) (k : Key S)
      → attachment_key u lib formats files e r ≡ some k
      → (content : Bytes) × (attachment_content u lib formats files r.id ≡ ok content)
        × (parse_key_bytes u lib formats files e content ≡ ok k)
  unfolding attachment_key
  attachment_key-Parsed e r k h =
      elim (Bool-cases (equal_fold u r.name (codes "KeeAgent.settings"))) [
        | inl same ↦ absurd (ground arith)
        | inr other ↦ elim (Result-cases (attachment_content u lib formats files r.id)) [
          | inr (failed, eq) ↦ absurd (ground arith)
          | inl (content, eq) ↦ elim (Bool-cases (looks_like_private_key u content)) [
            | inr public ↦ absurd (ground arith)
            | inl private ↦ elim (Result-cases (parse_key_bytes u lib formats files e content)) [
              | inr (failed, bad) ↦ absurd (ground arith)
              | inl (found, good) ↦ (content, eq, ground arith)
            ]
          ]
        ]
      ]

  scan-Parsed :
      (e : Entry) (rs : List Reference) (k : Key S)
      → scan u lib formats files e rs ≡ some k
      → (r : Reference) × (content : Bytes) × In r rs
        × (attachment_content u lib formats files r.id ≡ ok content)
        × (parse_key_bytes u lib formats files e content ≡ ok k)
  unfolding scan
  scan-Parsed e [] k h = cc
  scan-Parsed e (r ∷ rs) k h = elim (Option-cases (attachment_key u lib formats files e r)) [
    | inl without ↦
        let (at, content, there, read, good) = scan-Parsed e rs k (ground arith) in
        (at, content, inr there, read, good)
    | inr (found, eq) ↦
        let (content, read, good) = attachment_key-Parsed e r k (ground arith) in
        (r, content, inl refl, read, good)
  ]

  find_reference-In :
      (want : Bytes) (rs : List Reference) (r : Reference)
      → find_reference u lib formats files want rs ≡ some r
      → In r rs
  unfolding find_reference
  find_reference-In want [] r h = cc
  find_reference-In want (x ∷ rs) r h =
      elim (Bool-cases (attachment_name_matches u lib formats files x.name want)) [
        | inl same ↦ inl (ground arith)
        | inr other ↦ inr (find_reference-In want rs r (ground arith))
      ]

  parse_key_attachment-Parsed :
      (e : Entry) (name : Bytes) (k : Key S)
      → parse_key_attachment u lib formats files e name ≡ ok k
      → Parsed e k
  unfolding parse_key_attachment
  parse_key_attachment-Parsed e name k h =
      elim (Option-cases (find_reference u lib formats files name (files.binaries e))) [
        | inl without ↦ absurd (ground arith)
        | inr (r, found) ↦ elim (Result-cases (attachment_content u lib formats files r.id)) [
          | inr (failed, eq) ↦ absurd (ground arith)
          | inl (content, eq) ↦
              (r, content, find_reference-In name (files.binaries e) r found, eq, ground arith)
        ]
      ]

  extract_key_from_named-Parsed :
      (want : Bytes) (e : Entry) (k : Key S)
      → extract_key_from_named u lib formats files want e ≡ some k
      → Parsed e k
  unfolding extract_key_from_named extract_key_from_any_private_key_attachment
  extract_key_from_named-Parsed want e k h =
      elim (Option-cases (find_reference u lib formats files want (files.binaries e))) [
        | inl without ↦ scan-Parsed e (files.binaries e) k (ground arith)
        | inr (r, found) ↦ elim (Result-cases (parse_key_attachment u lib formats files e r.name)) [
          | inr (failed, eq) ↦ absurd (ground arith)
          | inl (key, eq) ↦ parse_key_attachment-Parsed e r.name k (ground arith)
        ]
      ]

  extract_key_with-Parsed :
      (st : KeeAgentSettings) (e : Entry) (k : Key S)
      → extract_key_with u lib formats files st e ≡ some k
      → Parsed e k × Allowed (some st)
  unfolding extract_key_with extract_key_from_any_private_key_attachment
  extract_key_with-Parsed st e k h = elim (Bool-cases (st.allow_use_of_ssh_key)) [
    | inr forbidden ↦ absurd (ground arith)
    | inl allowed ↦ elim (Bool-cases (st.location.selected_type == codes "file")) [
      | inl file ↦ absurd (ground arith)
      | inr other ↦
          let allows : Allowed (some st) =
            (allowed, λ e. absurd (ground (arith, (bytes_eq_iff _ _).1 e))) in
          elim (Bool-cases (null st.location.attachment)) [
            | inl unnamed ↦ (scan-Parsed e (files.binaries e) k (ground arith), allows)
            | inr named ↦
                (extract_key_from_named-Parsed st.location.attachment e k (ground arith), allows)
          ]
    ]
  ]

  pub extract_in_effect-Parsed :
      (settings : Result KeyError (Option KeeAgentSettings)) (e : Entry) (k : Key S)
      → extract_in_effect settings e ≡ some k
      → (found : Option KeeAgentSettings) × (settings ≡ ok found) × Allowed found × Parsed e k
  unfolding extract_in_effect extract_key_from_any_private_key_attachment
  extract_in_effect-Parsed (err failed) e k h = cc
  extract_in_effect-Parsed (ok none) e k h = (none, refl, tt, scan-Parsed e (files.binaries e) k h)
  extract_in_effect-Parsed (ok (some st)) e k h =
      let (good, allows) = extract_key_with-Parsed st e k h in (some st, refl, allows, good)
