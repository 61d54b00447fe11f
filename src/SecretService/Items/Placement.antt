-- ===== src/SecretService/Items/Placement.antt =====
-- Where a new item goes: clients that are shown the exposed group are shown it.
use kpxcd.Prelude.{
  Bool, false, ◌||◌, List, [], ◌∷◌, ◌++◌, Option, none, some, Bytes, null, Bool-cases, ◌≡◌, refl,
  subst, inl, inr, arith,
}
use kpxcd.Text.{Unicode}
use kpxcd.Keepass.{Entry, GroupData, Groups, leaf, group, In, In-append_right}
use kpxcd.Pool.Entries.{is_recycled}
use kpxcd.SecretService.Entries.{is_exposed, collect_entries_visible}
use kpxcd.SecretService.Entries.Visible.{Exposed, own, inside, behind, collect_entries_visible_iff}
use kpxcd.SecretService.Items.{add_to_exposed}

module _ (u : Unicode) (recycle_bin wanted : Bytes) (trimmed : u.trim_space wanted ≡ wanted)
    (entry : Entry) where
  abbrev Placed : Bool → Option Groups → Type 0
  Placed visible o = (gs : Groups) → o ≡ some gs → Exposed u recycle_bin wanted entry visible gs

  Placed-behind :
      (g : GroupData) (es : List Entry) (children : Groups) (visible : Bool) (later : Option Groups)
      → Placed visible later
      → Placed visible (elim later [ none ↦ none | some rest' ↦ some (group g es children rest') ])
  Placed-behind g es children visible none placed = λ out made. absurd (cc)
  Placed-behind g es children visible (some rest') placed = λ out made.
      subst (Exposed u recycle_bin wanted entry visible) (ground arith)
        (behind {g = g} {es = es} {children = children} (placed rest' refl))

  Placed-inside :
      (g : GroupData) (es : List Entry) (rest : Groups) (visible : Bool)
      (deep after : Option Groups)
      → is_recycled g recycle_bin ≡ false
      → Placed (visible || is_exposed u g wanted) deep
      → Placed visible after
      → Placed visible
          (elim deep [ some children' ↦ some (group g es children' rest) | none ↦ after ])
  Placed-inside g es rest visible none after live placed later = later
  Placed-inside g es rest visible (some children') after live placed later = λ out made.
      subst (Exposed u recycle_bin wanted entry visible) (ground arith)
        (inside {g = g} {es = es} {rest = rest} live (placed children' refl))

  add_to_exposed-Exposed :
      (expose_group : Bytes)
      → u.trim_space expose_group ≡ wanted
      → (gs : Groups) (visible : Bool)
      → Placed visible (add_to_exposed u entry gs recycle_bin expose_group)
  unfolding add_to_exposed
  add_to_exposed-Exposed expose_group same leaf visible = λ out made. absurd (cc)
  add_to_exposed-Exposed expose_group same (group g es children rest) visible =
      let later = add_to_exposed-Exposed expose_group same rest visible in
      let deep =
        add_to_exposed-Exposed wanted trimmed children (visible || is_exposed u g wanted) in
      let after =
        Placed-behind g es children visible (add_to_exposed u entry rest recycle_bin expose_group)
          later in
      rw (add_to_exposed, same)
        (elim (Bool-cases (null wanted)) [
          | inl blank ↦ rw blank (λ out made. absurd (cc))
          | inr filled ↦ elim (Bool-cases (is_recycled g recycle_bin)) [
            | inl gone ↦ rw (filled, gone) after
            | inr live ↦ elim (Bool-cases (is_exposed u g wanted)) [
              | inl fits ↦
                  rw (filled, live, fits)
                    (λ out made. subst (Exposed u recycle_bin wanted entry visible) (ground arith) (
                      own {g = g} {es = es ++ entry ∷ []} {children = children} {rest = rest} live
                        (ground arith) (In-append_right entry es (entry ∷ []) (inl refl))))
              | inr other ↦
                  rw (filled, live, other) (Placed-inside g es rest visible _ _ live deep after)
            ]
          ]
        ])

-- If trimming a text twice is trimming it once, and a group is exposed by a setting that is not
-- blank and the new entry has been added to it, then clients are shown this entry among those of
-- the exposed groups.
pub add_to_exposed-collect_entries_visible :
    (u : Unicode) (entry : Entry) (gs out : Groups) (recycle_bin expose_group : Bytes)
    → ((s : Bytes) → u.trim_space (u.trim_space s) ≡ u.trim_space s)
    → add_to_exposed u entry gs recycle_bin expose_group ≡ some out
    → In entry (collect_entries_visible u out recycle_bin expose_group)
add_to_exposed-collect_entries_visible u entry gs out recycle_bin expose_group idempotent made =
    let wanted = u.trim_space expose_group in
    (collect_entries_visible_iff u entry out recycle_bin expose_group).1 (
      add_to_exposed-Exposed u recycle_bin wanted (idempotent expose_group) entry expose_group refl
        gs (null wanted) out made)
