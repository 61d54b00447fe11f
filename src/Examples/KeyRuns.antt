-- ===== src/Examples/KeyRuns.antt =====
-- Runs of the key extraction on one entry with KeeAgent settings and one key.
use kpxcd.Prelude.{
  ℕ, ◌∙◌, true, false, [], ◌∷◌, ◌++◌, Option, none, some, Bytes, codes, bytes_Eq, bytes_eq, lookup,
  insert, ◌≡◌, ◌≢◌, ◌⊎◌, refl,
}
use kpxcd.Prelude.Results.{ok, ◌>>=◌}
use kpxcd.Text.{equal_fold}
use kpxcd.Keepass.{In, first_content, all_entries, Entry, Groups, leaf, group}
use kpxcd.Ssh.Identity.{Key, LoadedKey, fingerprint, set_db_uuid, add_identity}
use kpxcd.Ssh.Server.{on_database_unlocked, add_keys}
use kpxcd.Ssh.PrivateKey.{Formats, parsed, parse_private_key, key_of_raw, with_signer}
use kpxcd.Ssh.KeeAgent.{
  KeeAgentSettings, Reference, Attachments, attachment_content, attachment_name_matches,
  find_reference, parse_key_bytes, labelled, extract_key_from_entry, extract_keys_from_database,
  extract_keys_from_groups, keys_of_entries, resolve_kee_agent_settings,
}
use kpxcd.Ssh.KeeAgent.Sound.{settings_in_effect, Allowed}
use kpxcd.Ssh.KeeAgent.Origin.{Genuine, extract_key_from_entry_sound}
use kpxcd.Ssh.KeeAgent.Named.{result, extract_key_from_entry-named}
use kpxcd.Ssh.KeeAgent.Loaded.{Stands, on_database_unlocked-extracted}
use kpxcd.Examples.SecretRuns.{unicode, library, first_entry, general}
use kpxcd.Examples.SshRuns.{agent_config}

abbrev settings : KeeAgentSettings
settings = record {
  allow_use_of_ssh_key = true;
  add_at_database_open = true;
  remove_at_database_close = true;
  location = record { selected_type = codes "attachment"; attachment = codes "id"; file_name = [] };
}

abbrev reference : Reference
reference = record { name = codes "id"; id = 1 }

abbrev files : Attachments
files = record {
  binaries = λ e. record { name = codes "KeeAgent.settings"; id = 0 } ∷ reference ∷ [];
  custom_data = λ e. [];
  find_binary = λ id. some (some (codes "key"));
  unmarshal = λ s. some settings;
  base = λ s. s;
  uuid_text = λ s. s;
}

abbrev formats : Formats ℕ ℕ
formats = record {
  parse_raw_private_key = λ s. parsed 7;
  parse_raw_private_key_with_passphrase = λ s p. parsed 7;
  signer = some;
  kind = λ s. codes "ssh-ed25519";
  marshal = λ s. s ∷ [];
  pem_decode = λ s. none;
  parse_public_key = λ s. none;
}

abbrev key : Key ℕ
key = record {
  format = codes "ssh-ed25519";
  blob = 7 ∷ [];
  comment = codes "bank";
  signer = some 7;
  entry_uuid = 1 ∷ [];
  db_uuid = [];
}

in_effect : settings_in_effect unicode library formats files first_entry ≡ ok (some settings)
unfolding settings_in_effect resolve_kee_agent_settings equal_fold bytes_eq attachment_content
in_effect = refl

named :
    find_reference unicode library formats files (codes "id") (files.binaries first_entry)
    ≡ some reference
unfolding find_reference attachment_name_matches equal_fold bytes_eq
named = refl

content_key :
    result unicode library formats files (
      attachment_content unicode library formats files 1
      >>= parse_key_bytes unicode library formats files first_entry)
    ≡ some key
unfolding attachment_content parse_key_bytes labelled parse_private_key key_of_raw with_signer
    first_content bytes_eq
content_key = refl

not_file : codes "attachment" ≢ codes "file"
not_file e = cc

extract_key_from_entry-named_example :
    extract_key_from_entry unicode library formats files first_entry
    ≡ result unicode library formats files (
        attachment_content unicode library formats files 1
        >>= parse_key_bytes unicode library formats files first_entry)
extract_key_from_entry-named_example =
    extract_key_from_entry-named unicode library formats files first_entry settings reference
      (λ s t same. same) in_effect refl not_file refl named

extracted : extract_key_from_entry unicode library formats files first_entry ≡ some key
extracted = extract_key_from_entry-named_example ∙ content_key

extract_key_from_entry_sound_example :
    ((found : Option KeeAgentSettings) × (settings_in_effect unicode library formats files
          first_entry
        ≡ ok found)
      × Allowed unicode library formats files found)
    × ((r : Reference) × (content : Bytes) × In r (files.binaries first_entry)
        × (attachment_content unicode library formats files r.id ≡ ok content)
        × Genuine formats content (library.get_content first_entry.values (codes "Password")) key)
    × (key.comment ≡ library.get_content first_entry.values (codes "Title"))
    × (key.entry_uuid ≡ files.uuid_text first_entry.uuid)
extract_key_from_entry_sound_example =
    extract_key_from_entry_sound unicode library formats files first_entry key extracted

abbrev tree : Groups
tree = group general (first_entry ∷ []) leaf leaf

abbrev loaded : LoadedKey ℕ
loaded = record {
  key = record key { db_uuid = codes "u" };
  lifetime = 0;
  confirm = false;
  auto_remove = true;
  db_uuid = codes "u";
  entry_uuid = 1 ∷ [];
}

abbrev label : Bytes
label = codes "SHA256:" ++ 7 ∷ []

found_after :
    lookup label (
      on_database_unlocked
        (λ b. b)
        agent_config
        (extract_keys_from_database unicode library formats files (some tree))
        (codes "u")
        [])
    ≡ some loaded
unfolding on_database_unlocked add_keys add_identity set_db_uuid fingerprint insert lookup bytes_eq
    extract_keys_from_database extract_keys_from_groups keys_of_entries
found_after = rw (keys_of_entries, extracted) refl

on_database_unlocked-extracted_example :
    (lookup label [] ≡ some loaded)
    ⊎ ((e : Entry) × (k : Key ℕ) × In e (all_entries tree)
        × (extract_key_from_entry unicode library formats files e ≡ some k)
        × (label ≡ fingerprint (λ b. b) loaded.key)
        × Stands (λ b. b) agent_config (codes "u") k loaded)
on_database_unlocked-extracted_example =
    on_database_unlocked-extracted unicode library formats files (λ b. b) agent_config tree
      (codes "u") label [] loaded found_after
