-- ===== src/Pool/Entries.antt =====
-- internal/dbpool/pool.go: the entries outside the recycle bin.
use kpxcd.Prelude.{
  Bool, not, ◌&&◌, ◌||◌, List, [], ◌++◌, Bytes, codes, bytes_Eq, ◌==◌, if◌then◌else◌,
}
use kpxcd.Keepass.{Entry, GroupData, Groups, leaf, group, zero_uuid}

unfoldable pub is_recycled : GroupData → Bytes → Bool
is_recycled g recycle_bin =
    g.name == codes "Recycle Bin" || (not (recycle_bin == zero_uuid) && g.uuid == recycle_bin)

-- The loop over a slice of groups; `entries` are those collected so far.
unfoldable pub collect_entries : Groups → Bytes → List Entry → List Entry
collect_entries leaf recycle_bin entries = entries
collect_entries (group g es children rest) recycle_bin entries =
    let own = collect_entries children recycle_bin (entries ++ es) in
    collect_entries rest recycle_bin (if is_recycled g recycle_bin then entries else own)

-- `none` for a database whose content is gone.
unfoldable pub root_entries : Groups → Bytes → List Entry
root_entries roots recycle_bin = collect_entries roots recycle_bin []
