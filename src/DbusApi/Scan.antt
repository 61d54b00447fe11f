-- ===== src/DbusApi/Scan.antt =====
-- internal/dbusapi/dbusapi.go: the search for SSH keys in open databases.
use kpxcd.Prelude.{List, [], ◌∷◌, ◌++◌, none, some, Bytes, codes, if◌then◌else◌}
use kpxcd.Prelude.Results.{ok, err}
use kpxcd.Text.{hex}
use kpxcd.Keepass.{Entry}
use kpxcd.Pool.Database.{OpenDatabase}
use kpxcd.Ssh.Identity.{fingerprint}
use kpxcd.DbusApi.{
  FoundKey, found_keys, State, Environment, Answer, entries_of, authorized, selected,
}

module _ {S : Type 0} (env : Environment S) where
  unfoldable pub scan_entries : OpenDatabase → List Entry → List FoundKey
  scan_entries o [] = []
  scan_entries o (e ∷ es) =
      let rest = scan_entries o es in
      elim (env.extract e o.db) [
        | none ↦ rest
        | some none ↦ rest
        | some (some key) ↦
            record {
              title = (env.library).get_content e.values (codes "Title");
              uuid = hex e.uuid;
              type = key.format;
              fingerprint = fingerprint env.digest key;
              db_uuid = o.uuid;
              db_name = o.name;
            }
            ∷ rest
      ]

  unfoldable pub scan_each : List OpenDatabase → List FoundKey
  unfolding scan_entries
  scan_each [] = []
  scan_each (o ∷ os) =
      let rest = scan_each os in if o.locked then rest else scan_entries o (entries_of o) ++ rest

  unfoldable pub ssh_scan_database : Bytes → Bytes → State S → Answer env
  unfolding scan_each
  ssh_scan_database sender uuid st = authorized env sender st (elim (selected env uuid st) [
    | err e ↦ (st, err e)
    | ok os ↦ (st, ok (found_keys (scan_each os)))
  ])
