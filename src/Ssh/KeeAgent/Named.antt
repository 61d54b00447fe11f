-- ===== src/Ssh/KeeAgent/Named.antt =====
-- An attachment that the settings name.
use kpxcd.Prelude.{
  true, false, List, [], ◌∷◌, Option, none, some, Bytes, codes, null, bytes_Eq, ◌==◌, bytes_eq,
  bytes_eq_iff, ◌≡◌, ◌≢◌, inl, inr, refl, sym, ap, ◌∙◌, arith, Bool-cases,
}
use kpxcd.Prelude.Results.{Result, ok, err, ◌>>=◌}
use kpxcd.Text.{Unicode, equal_fold}
use kpxcd.Keepass.{Entry, Library}
use kpxcd.Ssh.Identity.{Key}
use kpxcd.Ssh.PrivateKey.{Formats, KeyError}
use kpxcd.Ssh.KeeAgent.{
  KeeAgentSettings, Reference, Attachments, attachment_content, find_reference, parse_key_bytes,
  parse_key_attachment, extract_key_from_named, extract_key_with, extract_key_from_entry,
  attachment_name_matches,
}
use kpxcd.Ssh.KeeAgent.Sound.{
  settings_in_effect, extract_in_effect, extract_key_from_entry-in_effect,
}

module _ {R S : Type 0} (u : Unicode) (lib : Library) (formats : Formats R S)
    (files : Attachments) where
  -- Texts that are equal under case folding have last path elements that are.
  abbrev pub Folds : Type 0
  Folds = (s t : Bytes) → u.fold s ≡ u.fold t → u.fold (files.base s) ≡ u.fold (files.base t)

  attachment_name_matches_iff :
      (got want : Bytes)
      → Folds
      → attachment_name_matches u lib formats files got want
        ≡ equal_fold u (files.base got) (files.base want)
  unfolding attachment_name_matches equal_fold
  attachment_name_matches_iff got want folds =
      let same = bytes_eq_iff (u.fold got) (u.fold want) in
      let last = bytes_eq_iff (u.fold (files.base got)) (u.fold (files.base want)) in
      let equal = bytes_eq_iff got want in
      elim (Bool-cases (bytes_eq (u.fold (files.base got)) (u.fold (files.base want)))) [
        | inl here ↦ ground arith
        | inr other ↦
            let unfolded : bytes_eq (u.fold got) (u.fold want) ≡ false =
              elim (Bool-cases (bytes_eq (u.fold got) (u.fold want))) [
                | inr differ ↦ differ
                | inl agree ↦ absurd (ground (arith, last.1 (folds got want (same.0 agree))))
              ] in
            let unequal : bytes_eq got want ≡ false = elim (Bool-cases (bytes_eq got want)) [
              | inr differ ↦ differ
              | inl agree ↦
                  absurd (ground (arith, last.1 (ap (λ s. u.fold (files.base s)) (equal.0 agree))))
            ] in
            ground arith
      ]

  matches_same :
      (s t want : Bytes)
      → Folds
      → attachment_name_matches u lib formats files t want ≡ true
      → attachment_name_matches u lib formats files s t
        ≡ attachment_name_matches u lib formats files s want
  unfolding equal_fold
  matches_same s t want folds h =
      let end : u.fold (files.base t) ≡ u.fold (files.base want) =
        (bytes_eq_iff _ _).0 (sym (attachment_name_matches_iff t want folds) ∙ h) in
      attachment_name_matches_iff s t folds
      ∙ ap (bytes_eq (u.fold (files.base s))) end
      ∙ sym (attachment_name_matches_iff s want folds)

  find_reference-matches :
      (want : Bytes) (rs : List Reference) (r : Reference)
      → find_reference u lib formats files want rs ≡ some r
      → attachment_name_matches u lib formats files r.name want ≡ true
  unfolding find_reference
  find_reference-matches want [] r h = cc
  find_reference-matches want (x ∷ rs) r h =
      elim (Bool-cases (attachment_name_matches u lib formats files x.name want)) [
        | inl same ↦
            let here : x ≡ r = ground arith in
            ap (λ y. attachment_name_matches u lib formats files y.name want) (sym here) ∙ same
        | inr other ↦ find_reference-matches want rs r (ground arith)
      ]

  find_reference-again :
      (s want : Bytes) (rs : List Reference)
      → ((t : Bytes)
          → attachment_name_matches u lib formats files t s
            ≡ attachment_name_matches u lib formats files t want)
      → find_reference u lib formats files s rs ≡ find_reference u lib formats files want rs
  unfolding find_reference
  find_reference-again s want [] same = refl
  find_reference-again s want (x ∷ rs) same =
      rw (same x.name, find_reference-again s want rs same) refl

  abbrev pub result : Result KeyError (Key S) → Option (Key S)
  result (ok k) = some k
  result (err failed) = none

  extract_key_from_named-found :
      (e : Entry) (want : Bytes) (r : Reference)
      → find_reference u lib formats files want (files.binaries e) ≡ some r
      → find_reference u lib formats files r.name (files.binaries e) ≡ some r
      → extract_key_from_named u lib formats files want e
        ≡ result
            (attachment_content u lib formats files r.id >>= parse_key_bytes u lib formats files e)
  unfolding extract_key_from_named parse_key_attachment
  extract_key_from_named-found e want r found again =
      rw (extract_key_from_named, found, parse_key_attachment, again) (ground arith)

  -- If texts that are equal under case folding have last path elements that are, and the settings in
  -- effect allow the use of the key and name an attachment of the database, then the first
  -- attachment whose last path element is the named one under case folding decides alone: the entry
  -- yields the key in its content, and no key if it cannot be read or parsed.
  pub extract_key_from_entry-named :
      (e : Entry) (st : KeeAgentSettings) (r : Reference)
      → Folds
      → settings_in_effect u lib formats files e ≡ ok (some st)
      → st.allow_use_of_ssh_key ≡ true
      → st.location.selected_type ≢ codes "file"
      → null st.location.attachment ≡ false
      → find_reference u lib formats files st.location.attachment (files.binaries e) ≡ some r
      → extract_key_from_entry u lib formats files e
        ≡ result
            (attachment_content u lib formats files r.id >>= parse_key_bytes u lib formats files e)
  unfolding extract_key_with extract_in_effect
  extract_key_from_entry-named e st r folds settings allowed inside named found =
      let again : find_reference u lib formats files r.name (files.binaries e) ≡ some r =
        find_reference-again r.name st.location.attachment (files.binaries e) (λ t.
          matches_same t r.name st.location.attachment folds
            (find_reference-matches st.location.attachment (files.binaries e) r found))
        ∙ found in
      let outside : (st.location.selected_type == codes "file") ≡ false =
        ground (arith, bytes_eq_iff st.location.selected_type (codes "file")) in
      let with_settings : extract_key_with u lib formats files st e
          ≡ result (
              attachment_content u lib formats files r.id
              >>= parse_key_bytes u lib formats files e) =
        rw (extract_key_with, allowed, outside, named)
          (extract_key_from_named-found e st.location.attachment r found again) in
      extract_key_from_entry-in_effect u lib formats files e
      ∙ ap (λ x. extract_in_effect u lib formats files x e) settings
      ∙ with_settings
