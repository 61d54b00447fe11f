-- ===== src/Ssh/KeeAgent.antt =====
-- internal/sshagent/keeagent.go: which attachment of an entry is its SSH key. What an entry and a
-- database hold of attachments, and the calls of `encoding/xml` and `filepath`, is `Attachments`.
pub mod Sound
pub mod Origin
pub mod Forest
pub mod Named
pub mod Loaded
use kpxcd.Prelude.{
  ℕ, Bool, true, false, ◌||◌, List, [], ◌∷◌, ◌++◌, Option, none, some, Bytes, codes, null, bytes_Eq,
  ◌==◌, if◌then◌else◌,
}
use kpxcd.Prelude.Results.{Result, ok, err}
use kpxcd.Text.{Unicode, equal_fold, contains, has_prefix}
use kpxcd.Keepass.{Entry, Library, Groups, leaf, group}
use kpxcd.Ssh.Identity.{Key}
use kpxcd.Ssh.OpenSsh.{magic}
use kpxcd.Ssh.PrivateKey.{
  Formats, KeyError, bad_settings, no_binary, bad_content, no_attachment, parse_private_key,
}

pub record Location : Type 0 where
  pub selected_type : Bytes
  pub attachment : Bytes
  pub file_name : Bytes

pub record KeeAgentSettings : Type 0 where
  pub allow_use_of_ssh_key : Bool
  pub add_at_database_open : Bool
  pub remove_at_database_close : Bool
  pub location : Location

-- gokeepasslib's reference from an entry to a binary of its database.
pub record Reference : Type 0 where
  pub name : Bytes
  pub id : ℕ

-- An entry's references and custom data; `FindBinary` with `GetContentBytes` of its result: no
-- binary, or one whose content cannot be decoded, or the content; `xml.Unmarshal`, `filepath.Base`,
-- and `MarshalText` of a UUID.
pub record Attachments : Type 0 where
  pub binaries : Entry → List Reference
  pub custom_data : Entry → List (Bytes × Bytes)
  pub find_binary : ℕ → Option (Option Bytes)
  pub uuid_text : Bytes → Bytes
  pub base : Bytes → Bytes
  pub unmarshal : Bytes → Option KeeAgentSettings

unfoldable pub looks_like_private_key : Unicode → Bytes → Bool
looks_like_private_key u content =
    let trimmed = u.trim_space content in
    contains trimmed (codes "BEGIN OPENSSH PRIVATE KEY")
    || contains trimmed (codes "BEGIN RSA PRIVATE KEY")
    || contains trimmed (codes "BEGIN EC PRIVATE KEY")
    || contains trimmed (codes "BEGIN DSA PRIVATE KEY")
    || contains trimmed (codes "BEGIN PRIVATE KEY")
    || has_prefix trimmed magic

module _ {R S : Type 0} (u : Unicode) (lib : Library) (formats : Formats R S)
    (files : Attachments) where
  -- The loop over the custom data: the first settings decide, readable or not.
  parse_settings_in : List (Bytes × Bytes) → Result KeyError (Option KeeAgentSettings)
  parse_settings_in [] = ok none
  parse_settings_in ((key, value) ∷ cds) =
      if equal_fold u key (codes "KeeAgent.settings")
      then elim (files.unmarshal value) [ none ↦ err bad_settings | some st ↦ ok (some st) ]
      else parse_settings_in cds

  unfoldable pub parse_kee_agent_settings : Entry → Result KeyError (Option KeeAgentSettings)
  unfolding parse_settings_in
  parse_kee_agent_settings e = parse_settings_in (files.custom_data e)

  unfoldable pub attachment_content : ℕ → Result KeyError Bytes
  attachment_content id = elim (files.find_binary id) [
    | none ↦ err no_binary
    | some none ↦ err bad_content
    | some (some content) ↦ ok content
  ]

  resolve_settings_in : List Reference → Result KeyError (Option KeeAgentSettings)
  unfolding attachment_content
  resolve_settings_in [] = ok none
  resolve_settings_in (r ∷ rs) =
      if equal_fold u r.name (codes "KeeAgent.settings")
      then elim (attachment_content r.id) [
        | err e ↦ err e
        | ok content ↦ elim (files.unmarshal content) [
          | none ↦ err bad_settings
          | some st ↦ ok (some st)
        ]
      ]
      else resolve_settings_in rs

  unfoldable pub resolve_kee_agent_settings : Entry → Result KeyError (Option KeeAgentSettings)
  unfolding resolve_settings_in
  resolve_kee_agent_settings e = resolve_settings_in (files.binaries e)

  unfoldable pub attachment_name_matches : Bytes → Bytes → Bool
  attachment_name_matches got want =
      got == want || equal_fold u got want || equal_fold u (files.base got) (files.base want)

  unfoldable pub labelled : Entry → Key S → Key S
  labelled e k = record k {
    comment = lib.get_content e.values (codes "Title");
    entry_uuid = files.uuid_text e.uuid;
  }

  unfoldable pub parse_key_bytes : Entry → Bytes → Result KeyError (Key S)
  unfolding labelled
  parse_key_bytes e content =
      let passphrase = lib.get_content e.values (codes "Password") in
      elim (parse_private_key formats content passphrase) [
        | ok k ↦ ok (labelled e k)
        | err failed ↦
            if null passphrase then err failed else elim (parse_private_key formats content []) [
              | ok k ↦ ok (labelled e k)
              | err again ↦ err again
            ]
      ]

  -- The first reference with a matching name.
  unfoldable pub find_reference : Bytes → List Reference → Option Reference
  find_reference want [] = none
  find_reference want (r ∷ rs) =
      if attachment_name_matches r.name want then some r else find_reference want rs

  unfoldable pub parse_key_attachment : Entry → Bytes → Result KeyError (Key S)
  parse_key_attachment e name = elim (find_reference name (files.binaries e)) [
    | none ↦ err no_attachment
    | some r ↦ elim (attachment_content r.id) [
      | err failed ↦ err failed
      | ok content ↦ parse_key_bytes e content
    ]
  ]

  -- One attachment of the scan: not the settings, readable, like a private key, and parsed.
  unfoldable pub attachment_key : Entry → Reference → Option (Key S)
  attachment_key e r =
      if equal_fold u r.name (codes "KeeAgent.settings")
      then none
      else elim (attachment_content r.id) [
        | err failed ↦ none
        | ok content ↦
            if looks_like_private_key u content
            then elim (parse_key_bytes e content) [ err failed ↦ none | ok k ↦ some k ]
            else none
      ]

  unfoldable pub scan : Entry → List Reference → Option (Key S)
  scan e [] = none
  scan e (r ∷ rs) = elim (attachment_key e r) [ none ↦ scan e rs | some k ↦ some k ]

  unfoldable pub extract_key_from_any_private_key_attachment : Entry → Option (Key S)
  extract_key_from_any_private_key_attachment e = scan e (files.binaries e)

  unfoldable pub extract_key_from_named : Bytes → Entry → Option (Key S)
  extract_key_from_named want e = elim (find_reference want (files.binaries e)) [
    | none ↦ extract_key_from_any_private_key_attachment e
    | some r ↦ elim (parse_key_attachment e r.name) [ err failed ↦ none | ok k ↦ some k ]
  ]

  -- What the settings allow.
  unfoldable pub extract_key_with : KeeAgentSettings → Entry → Option (Key S)
  extract_key_with st e =
      if st.allow_use_of_ssh_key
      then (if (st.location).selected_type == codes "file"
          then none
          else if null (st.location).attachment
          then extract_key_from_any_private_key_attachment e
          else extract_key_from_named (st.location).attachment e)
      else none

  unfoldable pub fallback : Entry → Option (Key S)
  fallback e = elim (parse_kee_agent_settings e) [
    | err failed ↦ none
    | ok none ↦ extract_key_from_any_private_key_attachment e
    | ok (some st) ↦ extract_key_with st e
  ]

  -- No path of the function returns an error.
  unfoldable pub extract_key_from_entry : Entry → Option (Key S)
  unfolding fallback
  extract_key_from_entry e = elim (resolve_kee_agent_settings e) [
    | err failed ↦ fallback e
    | ok none ↦ fallback e
    | ok (some st) ↦ extract_key_with st e
  ]

  unfoldable pub keys_of_entries : List Entry → List (Key S)
  keys_of_entries [] = []
  keys_of_entries (e ∷ es) = elim (extract_key_from_entry e) [
    | none ↦ keys_of_entries es
    | some k ↦ k ∷ keys_of_entries es
  ]

  unfoldable pub extract_keys_from_groups : Groups → List (Key S)
  unfolding keys_of_entries
  extract_keys_from_groups leaf = []
  extract_keys_from_groups (group g es children rest) =
      keys_of_entries es ++ (extract_keys_from_groups children ++ extract_keys_from_groups rest)

  -- `none` stands for a database without content or root.
  unfoldable pub extract_keys_from_database : Option Groups → List (Key S)
  extract_keys_from_database none = []
  extract_keys_from_database (some gs) = extract_keys_from_groups gs
