-- ===== src/SecretService/Entries/Visible.antt =====
-- Which entries are exposed: an independent description, and agreement with the pool's own view.
use mathlib.Core.Path.{subst}
use kpxcd.Prelude.{
  Bool, true, false, ◌||◌, List, [], ◌++◌, Bytes, null, ◌≡◌, refl, sym, ◌↔◌, inl, inr, append_assoc,
  append-nil, if◌then◌else◌, Bool-cases,
}
use kpxcd.Text.{Unicode}
use kpxcd.Keepass.{
  Entry, GroupData, Groups, leaf, group, In, In-append_left, In-append_right, In-append,
}
use kpxcd.Pool.Entries.{is_recycled}
use kpxcd.Pool.Entries
use kpxcd.SecretService.Entries.{
  is_exposed, collect_entries_visible_into, collect_entries_visible, collect_entries,
}

module _ (u : Unicode) (recycle_bin wanted : Bytes) where
  -- `Exposed e visible groups`: the entry lies in a group that is exposed or has an exposed group
  -- above it (or everything is visible), and neither that group nor one above it is recycled.
  pub data Exposed (e : Entry) : Bool → Groups → Type 0 where
    own :
        {visible : Bool} {g : GroupData} {es : List Entry} {children rest : Groups}
        → is_recycled g recycle_bin ≡ false
        → (visible || is_exposed u g wanted) ≡ true
        → In e es
        → Exposed e visible (group g es children rest)
    inside :
        {visible : Bool} {g : GroupData} {es : List Entry} {children rest : Groups}
        → is_recycled g recycle_bin ≡ false
        → Exposed e (visible || is_exposed u g wanted) children
        → Exposed e visible (group g es children rest)
    behind :
        {visible : Bool} {g : GroupData} {es : List Entry} {children rest : Groups}
        → Exposed e visible rest
        → Exposed e visible (group g es children rest)

  -- The loop without its accumulator.
  unfoldable pub visible_entries : Bool → Groups → List Entry
  visible_entries visible leaf = []
  visible_entries visible (group g es children rest) =
      let shown = visible || is_exposed u g wanted in
      (if is_recycled g recycle_bin
        then []
        else (if shown then es else []) ++ visible_entries shown children)
      ++ visible_entries visible rest

  into-visible_entries :
      (gs : Groups) (visible : Bool) (acc : List Entry)
      → collect_entries_visible_into u gs recycle_bin wanted visible acc
        ≡ acc ++ visible_entries visible gs
  unfolding collect_entries_visible_into visible_entries
  into-visible_entries leaf visible acc = sym (append-nil acc)
  into-visible_entries (group g es children rest) visible acc =
      let shown = visible || is_exposed u g wanted in
      let kids = visible_entries shown children in
      let tail = visible_entries visible rest in
      rw (into-visible_entries rest visible _, into-visible_entries children shown _)
        (elim (Bool-cases (is_recycled g recycle_bin)) [
          | inl gone ↦ rw gone
          | inr live ↦ elim (Bool-cases shown) [
            | inl seen ↦ rw (live, seen) (simp append_assoc)
            | inr hidden ↦ rw (live, hidden) (simp append_assoc)
          ]
        ])

  visible_entries-Exposed :
      (e : Entry) (gs : Groups) (visible : Bool)
      → In e (visible_entries visible gs)
      → Exposed e visible gs
  unfolding visible_entries
  visible_entries-Exposed e leaf visible h = absurd h
  visible_entries-Exposed e (group g es children rest) visible h =
      let shown = visible || is_exposed u g wanted in
      let kids = visible_entries shown children in
      elim (Bool-cases (is_recycled g recycle_bin)) [
        | inl gone ↦ behind (visible_entries-Exposed e rest visible (rw gone at h))
        | inr live ↦ elim (In-append e ((if shown then es else []) ++ kids) _ (rw live at h)) [
          | inr later ↦ behind (visible_entries-Exposed e rest visible later)
          | inl here ↦ elim (In-append e (if shown then es else []) _ here) [
            | inr deep ↦ inside live (visible_entries-Exposed e children shown deep)
            | inl mine ↦ elim (Bool-cases shown) [
              | inl seen ↦ own live seen (rw seen at mine)
              | inr hidden ↦ absurd (rw hidden at mine)
            ]
          ]
        ]
      ]

  Exposed-visible_entries :
      {e : Entry} {gs : Groups} {visible : Bool}
      → Exposed e visible gs
      → In e (visible_entries visible gs)
  unfolding visible_entries
  Exposed-visible_entries {e}
        (own {visible = vis} {g = g} {es = es} {children = cs} {rest = rs} live shown h) =
      rw (live, shown)
        (In-append_left e (es ++ visible_entries true cs) _ (In-append_left e es _ h))
  Exposed-visible_entries {e}
        (inside {visible = vis} {g = g} {es = es} {children = cs} {rest = rs} live h) =
      let shown = vis || is_exposed u g wanted in
      let own = if shown then es else [] in
      rw live (
        In-append_left e (own ++ visible_entries shown cs) (visible_entries vis rs)
          (In-append_right e own (visible_entries shown cs) (Exposed-visible_entries h)))
  Exposed-visible_entries {e} (behind {visible = vis} {rest = rs} h) =
      In-append_right e _ (visible_entries vis rs) (Exposed-visible_entries h)

module _ (u : Unicode) where
  -- An entry is exposed to clients exactly when it lies in or below the group that is named by the
  -- setting, with no recycled group above it; with a blank setting every group is exposed.
  pub collect_entries_visible_iff :
      (e : Entry) (gs : Groups) (recycle_bin expose_group : Bytes)
      → In e (collect_entries_visible u gs recycle_bin expose_group)
        ↔ Exposed u recycle_bin (u.trim_space expose_group) e (null (u.trim_space expose_group)) gs
  unfolding collect_entries_visible
  collect_entries_visible_iff e gs recycle_bin expose_group =
      let wanted = u.trim_space expose_group in
      let flat = into-visible_entries u recycle_bin wanted gs (null wanted) [] in
      (
        λ h. visible_entries-Exposed u recycle_bin wanted e gs (null wanted) (subst (In e) flat h),
        λ h. subst (In e) (sym flat) (Exposed-visible_entries u recycle_bin wanted h),
      )

  -- The entries that are exposed, without the accumulator.
  pub collect_entries_visible-entries :
      (gs : Groups) (recycle_bin expose_group : Bytes)
      → collect_entries_visible u gs recycle_bin expose_group
        ≡ visible_entries u recycle_bin
            (u.trim_space expose_group)
            (null (u.trim_space expose_group))
            gs
  unfolding collect_entries_visible
  collect_entries_visible-entries gs recycle_bin expose_group =
      let wanted = u.trim_space expose_group in
      into-visible_entries u recycle_bin wanted gs (null wanted) []

  into-pool :
      (gs : Groups) (recycle_bin wanted : Bytes) (acc : List Entry)
      → collect_entries_visible_into u gs recycle_bin wanted true acc
        ≡ Entries.collect_entries gs recycle_bin acc
  unfolding collect_entries_visible_into Entries.collect_entries
  into-pool leaf recycle_bin wanted acc = refl
  into-pool (group g es children rest) recycle_bin wanted acc =
      rw (into-pool children recycle_bin wanted (acc ++ es)) (into-pool rest recycle_bin wanted _)

  -- With no exposed group configured the Secret Service shows the entries, in the order, that the
  -- database pool lists, if trimming an empty text leaves it empty.
  pub collect_entries-root_entries :
      (gs : Groups) (recycle_bin : Bytes)
      → u.trim_space [] ≡ []
      → collect_entries u gs recycle_bin ≡ Entries.root_entries gs recycle_bin
  unfolding collect_entries Entries.root_entries
  collect_entries-root_entries gs recycle_bin blank = rw blank (into-pool gs recycle_bin [] [])
