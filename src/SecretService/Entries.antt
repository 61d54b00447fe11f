-- ===== src/SecretService/Entries.antt =====
-- internal/secretservice/attributes.go: the entries that a database exposes to clients.
pub mod Visible
use kpxcd.Prelude.{Bool, true, false, ◌||◌, List, [], ◌∷◌, ◌++◌, Bytes, null, if◌then◌else◌}
use kpxcd.Text.{Unicode, equal_fold, hex}
use kpxcd.Keepass.{Entry, GroupData, Groups, leaf, group}
use kpxcd.Pool.Entries.{is_recycled}

module _ (u : Unicode) where
  -- Whether a group is the exposed one, by its name or its UUID in hexadecimal.
  unfoldable pub is_exposed : GroupData → Bytes → Bool
  is_exposed g wanted = equal_fold u g.name wanted || equal_fold u (hex g.uuid) wanted

  unfoldable pub collect_entries_visible_into :
      Groups → Bytes → Bytes → Bool → List Entry → List Entry
  unfolding is_exposed
  collect_entries_visible_into leaf recycle_bin wanted visible entries = entries
  collect_entries_visible_into (group g es children rest) recycle_bin wanted visible entries =
      let shown = visible || is_exposed g wanted in
      let inside =
        collect_entries_visible_into children recycle_bin wanted shown
          (if shown then entries ++ es else entries) in
      collect_entries_visible_into rest recycle_bin wanted visible
        (if is_recycled g recycle_bin then entries else inside)

  unfoldable pub collect_entries_visible : Groups → Bytes → Bytes → List Entry
  collect_entries_visible groups recycle_bin expose_group =
      let wanted = u.trim_space expose_group in
      collect_entries_visible_into groups recycle_bin wanted (null wanted) []

  unfoldable pub collect_entries : Groups → Bytes → List Entry
  unfolding collect_entries_visible
  collect_entries groups recycle_bin = collect_entries_visible groups recycle_bin []
