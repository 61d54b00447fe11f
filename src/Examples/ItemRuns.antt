-- ===== src/Examples/ItemRuns.antt =====
-- Runs of creating items in a database with one group.
use kpxcd.Prelude.{
  true, false, List, [], ◌∷◌, none, some, Bytes, codes, bytes_Eq, bytes_eq, ◌==◌, if◌then◌else◌,
  lookup, ◌≡◌, refl,
}
use kpxcd.Prelude.Results.{ok}
use kpxcd.Keepass.{Entry, leaf, first_index, first_content}
use kpxcd.Pool.Database.{Db, fingerprint_file, equal}
use kpxcd.Pool.Save
use kpxcd.Pool.Save.Success.{Stored}
use kpxcd.SecretService.Entries.{collect_entries_visible}
use kpxcd.SecretService.Write.{update_modification_time, set_entry_value, entry_uuid_string}
use kpxcd.SecretService.Session.{plain, decrypt}
use kpxcd.SecretService.Paths.{item_path_for_entry}
use kpxcd.SecretService.Service.{SecretService, expose_group}
use kpxcd.SecretService.Service.Requests.{validate_session, decrypt_secret}
use kpxcd.SecretService.Service.Secrets.{DbusSecret}
use kpxcd.SecretService.Items.{
  set_attributes, item_label, PropertyValue, text, apply_entry_fields, change_matching_visible,
  add_to_named, property_string, property_attributes,
}
use kpxcd.SecretService.Items.Matching.{changed, mapped, find, change_matching_visible-find}
use kpxcd.SecretService.Items.Fields.{special, or_old, apply_entry_fields-content}
use kpxcd.SecretService.Items.Store.{
  Environment, create_item, create_or_replace, applied, on_content, with_groups, recycle_bin_uuid,
  add_item, add_to_secret_service_group,
}
use kpxcd.SecretService.Items.Store.Success.{stored_by, create_item_success}
use kpxcd.Examples.SaveRuns
use kpxcd.Examples.SecretRuns.{
  unicode, library, first_entry, second_entry, general, groups, cipher, full,
}
use kpxcd.Examples.ServiceRuns.{service}

abbrev marked : Entry → Entry
marked e = record e { histories = [] }

change_matching_visible-find_example :
    changed (
      change_matching_visible unicode (λ e. true) marked groups (codes "r") (codes "General") false)
    ≡ mapped marked
        (find (λ e. true) (collect_entries_visible unicode groups (codes "r") (codes "General")))
change_matching_visible-find_example =
    change_matching_visible-find unicode (λ e. true) marked groups (codes "r") (codes "General")
      (λ s. refl)

not_special : special (codes "Password") ≡ false
unfolding bytes_eq
not_special = refl

apply_entry_fields-content_example :
    first_content
      (codes "Password")
      (apply_entry_fields unicode library 5 first_entry []
        ((codes "service", codes "mail") ∷ [])
        (codes "secret")).values
    ≡ or_old unicode library (lookup (codes "Password") ((codes "service", codes "mail") ∷ [])) (
        if codes "Password" == codes "Password"
        then codes "secret"
        else first_content (codes "Password") first_entry.values)
unfolding lookup
apply_entry_fields-content_example =
    apply_entry_fields-content unicode library 5 first_entry [] (codes "secret") (codes "Password")
      ((codes "service", codes "mail") ∷ []) not_special (refl, tt)

-- A service with a plain session.
abbrev serving : SecretService
serving = record service {
  sessions = (codes "/s", record { path = codes "/s"; alg = plain; key = []; closed = false }) ∷ [];
}

abbrev env : Environment
env = record {
  unicode = unicode;
  library = library;
  cipher = cipher;
  clone = λ v. v;
  limits = λ db. none;
  new_entry = second_entry;
  new_group = general;
  new_root_group = general;
  new_root_data = record { groups = leaf; deleted_objects = [] };
  now = 5;
  save = SaveRuns.library;
  world = SaveRuns.quiet;
}

abbrev secret : DbusSecret
secret = record {
  session = codes "/s";
  parameters = [];
  value = codes "hidden";
  content_type = codes "text/plain";
}

abbrev properties : List (Bytes × PropertyValue)
properties = (codes "Label", text (codes "mail")) ∷ []

created :
    (create_item env serving full (some SaveRuns.file) properties secret false).answer
    ≡ ok (item_path_for_entry full.name second_entry)
unfolding create_item validate_session decrypt_secret decrypt lookup bytes_eq expose_group
    property_string property_attributes create_or_replace applied on_content add_item
    add_to_secret_service_group add_to_named with_groups recycle_bin_uuid apply_entry_fields
    item_path_for_entry Save.update_and_save Save.update_open Save.save_mutated Save.save_locked
    Save.encode_locked Save.atomic_encode Save.write_temp Save.replace_file Save.after_encode
    Save.finish Save.roll_back Save.renamed fingerprint_file equal update_modification_time
    set_attributes set_entry_value first_index item_label entry_uuid_string
created = refl

create_item_success_example :
    (plaintext : Bytes) × (db : Db) × (made : Db × Entry) × (decrypt_secret cipher serving
        (codes "/s")
        []
        (codes "hidden")
      ≡ ok plaintext)
    × (full.db ≡ some db)
    × (stored_by env serving full properties false plaintext db ≡ some made)
    × (item_path_for_entry full.name second_entry ≡ item_path_for_entry full.name made.1)
    × (written : Save.Updated) × ((create_item env serving full
          (some SaveRuns.file)
          properties
          secret
          false).disk
        ≡ written.disk)
    × ((create_item env serving full (some SaveRuns.file) properties secret false).database
        ≡ written.database)
    × Stored SaveRuns.library SaveRuns.quiet full.fingerprint made.0 (some SaveRuns.file) written
create_item_success_example =
    create_item_success env serving full (some SaveRuns.file) properties secret false
      (item_path_for_entry full.name second_entry) created
