-- ===== src/Examples/SecretRuns.antt =====
-- Runs of the Secret Service on one group with two entries; Unicode's tables are the identity and
-- the block cipher changes nothing.
use kpxcd.Prelude.{
  All, ℕ, ◌≤◌, true, false, List, [], ◌∷◌, ◌++◌, Option, none, some, Bytes, codes, length, bytes_Eq,
  bytes_eq, ◌≡◌, ◌≢◌, ◌⊎◌, ◌↔◌, refl,
}
use kpxcd.Prelude.Results.{ok}
use kpxcd.Text.{Unicode, hex}
use kpxcd.Keepass.{
  Version, Entry, GroupData, Groups, leaf, group, Library, first_index, first_content, all_entries,
  In,
}
use kpxcd.Pool.Database.{OpenDatabase}
use kpxcd.SecretService.Entries.{collect_entries_visible}
use kpxcd.SecretService.Entries.Visible.{Exposed, collect_entries_visible_iff}
use kpxcd.SecretService.Write.{
  find_entry_by_uuid, remove_entry_by_uuid, remove_in, entry_uuid_string, HistoryLimits,
  history_limits, history_size, append_history,
}
use kpxcd.SecretService.Write.ByUuid.{WithoutFirst, remove_entry_by_uuid_lem}
use kpxcd.SecretService.Write.History.{append_history_lem, first_history, more_histories}
use kpxcd.SecretService.NotifyCache.{CallerInfo, max_entries}
use kpxcd.SecretService.NotifyCache.Bound.{accesses, length-accesses}
use kpxcd.SecretService.Session.{Session, Cipher, dh_ietf1024_sha256_aes128_cbc, encrypt, decrypt}
use kpxcd.SecretService.Session.RoundTrip.{decrypt-encrypt_session}
use kpxcd.SecretService.Search.{search_entries}
use kpxcd.SecretService.Search.Matching.{Searchable, Agrees, search_entries_iff}
use kpxcd.Examples.SaveRuns.{opened}

abbrev pub unicode : Unicode
unicode = record { fold = λ s. s; lower = λ s. s; trim_space = λ s. s }

abbrev pub library : Library
library = record {
  get_index = λ vs k. first_index k vs;
  get_content = λ vs k. first_content k vs;
  get_index_first = λ vs k. refl;
  get_content_first = λ vs k. refl;
}

abbrev version : ℕ → Version
version n = record {
  uuid = n ∷ [];
  values = record { key = codes "Title"; content = codes "bank"; is_protected = false } ∷ [];
  tags = [];
  override_url = [];
  foreground = [];
  background = [];
  binary_names = [];
  custom_values = [];
  modified = n;
  accessed = n;
}

abbrev pub first_entry : Entry
first_entry = record { version = version 1; histories = (version 3 ∷ []) ∷ [] }

abbrev pub second_entry : Entry
second_entry = record { version = version 2; histories = [] }

abbrev pub general : GroupData
general = record { uuid = codes "g"; name = codes "General"; notes = []; last_top_visible = [] }

abbrev pub groups : Groups
groups = group general (first_entry ∷ second_entry ∷ []) leaf leaf

collect_entries_visible_iff_example :
    In second_entry (collect_entries_visible unicode groups (codes "r") (codes "General"))
    ↔ Exposed unicode (codes "r") (codes "General") second_entry false groups
collect_entries_visible_iff_example =
    collect_entries_visible_iff unicode second_entry groups (codes "r") (codes "General")

removed :
    remove_entry_by_uuid groups (codes "01") ≡ some (group general (second_entry ∷ []) leaf leaf)
unfolding remove_entry_by_uuid remove_in entry_uuid_string hex bytes_eq
removed = refl

remove_entry_by_uuid_lem_example :
    (e : Entry) × (find_entry_by_uuid groups (codes "01") ≡ some e)
    × WithoutFirst
        (codes "01")
        e
        (all_entries groups)
        (all_entries (group general (second_entry ∷ []) leaf leaf))
    × ((other : Bytes)
        → other ≢ codes "01"
        → find_entry_by_uuid (group general (second_entry ∷ []) leaf leaf) other
          ≡ find_entry_by_uuid groups other)
remove_entry_by_uuid_lem_example =
    remove_entry_by_uuid_lem groups (group general (second_entry ∷ []) leaf leaf) (codes "01")
      removed

abbrev limits : Option HistoryLimits
limits = some record { max_items = 1; max_size = 1000 }

append_history_lem_example :
    (old : List Version) × (kept : List Version) × ((append_history
        (λ v. v)
        limits
        first_entry).histories
      ≡ (kept ++ first_entry.version ∷ []) ∷ more_histories first_entry.histories)
    × (first_history first_entry.histories ++ first_entry.version ∷ []
        ≡ old ++ (kept ++ first_entry.version ∷ []))
    × (length (kept ++ first_entry.version ∷ []) ≤ (history_limits limits).max_items)
    × ((history_size (kept ++ first_entry.version ∷ []) ≤ (history_limits limits).max_size)
        ⊎ (length (kept ++ first_entry.version ∷ []) ≤ 1))
    × ((append_history (λ v. v) limits first_entry).version ≡ first_entry.version)
append_history_lem_example = append_history_lem (λ v. v) limits first_entry

abbrev caller : CallerInfo
caller = record { sender = codes ":1.5"; pid = 1; uid = 1000; exe = codes "/bin/app"; command = [] }

length-accesses_example :
    length (
      accesses
        (λ s. s ∷ [])
        (record { caller = caller; ttl = 5; at = 1 }
          ∷ record { caller = caller; ttl = 5; at = 9 }
          ∷ [])
        [])
    ≤ max_entries
length-accesses_example =
    length-accesses (λ s. s ∷ [])
      (record { caller = caller; ttl = 5; at = 1 }
        ∷ record { caller = caller; ttl = 5; at = 9 }
        ∷ [])

abbrev pub cipher : Cipher
cipher = record {
  accepts = λ k. true;
  encrypt = λ k iv t. t;
  decrypt = λ k iv t. t;
  length-encrypt = λ k iv t. refl;
  decrypt-encrypt = λ k iv t h. refl;
}

abbrev session : Session
session = record {
  path = codes "/s/1";
  alg = dh_ietf1024_sha256_aes128_cbc;
  key = codes "key";
  closed = false;
}

decrypt-encrypt_session_example :
    (iv : Bytes) × (sent : Bytes) × (encrypt cipher session (codes "iv") (codes "secret")
      ≡ ok (iv, sent))
    × (decrypt cipher session iv sent ≡ ok (codes "secret"))
decrypt-encrypt_session_example =
    decrypt-encrypt_session cipher session (codes "iv") (codes "secret") refl refl refl

abbrev pub full : OpenDatabase
full = record opened {
  db = some record {
    credentials = none;
    content =
        some record { meta = none; root = some record { groups = groups; deleted_objects = [] } };
  };
}

search_entries_iff_example :
    In
      (full, first_entry)
      (search_entries unicode library (full ∷ []) ((codes "title", codes "bank") ∷ []))
    ↔ (In full (full ∷ [])
        × Searchable unicode library full first_entry
        × All (Agrees unicode library full first_entry) ((codes "title", codes "bank") ∷ []))
search_entries_iff_example =
    search_entries_iff unicode library (full ∷ []) (codes "title", codes "bank") [] full first_entry
      refl
