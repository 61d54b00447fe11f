-- ===== src/SecretService/Items/Matching.antt =====
-- The search that a write makes in the groups, and the entries that clients are shown.
use kpxcd.Prelude.{
  Bool, false, ◌||◌, List, [], ◌∷◌, ◌++◌, Option, none, some, Bytes, null, Bool-cases, append_assoc,
  Option-cases, if◌then◌else◌, ◌≡◌, refl, sym, ap, ◌∙◌, inl, inr, arith,
}
use kpxcd.Text.{Unicode}
use kpxcd.Keepass.{Entry, GroupData, Groups, leaf, group}
use kpxcd.Pool.Entries.{is_recycled}
use kpxcd.SecretService.Entries.{is_exposed, collect_entries_visible}
use kpxcd.SecretService.Entries.Visible.{visible_entries, collect_entries_visible-entries}
use kpxcd.SecretService.Items.{change_first, in_place, or_next, change_matching_visible}

-- The first element that passes a test.
pub find : (Entry → Bool) → List Entry → Option Entry
find test [] = none
find test (e ∷ es) = if test e then some e else find test es

abbrev pub changed : {A : Type 0} → Option (A × Entry) → Option Entry
changed none = none
changed (some r) = some (r.1)

abbrev pub mapped : (Entry → Entry) → Option Entry → Option Entry
mapped change none = none
mapped change (some e) = some (change e)

or_else : Option Entry → Option Entry → Option Entry
or_else none b = b
or_else (some a) b = some a

find-append :
    (test : Entry → Bool) (xs ys : List Entry)
    → find test (xs ++ ys) ≡ or_else (find test xs) (find test ys)
unfolding find or_else
find-append test [] ys = refl
find-append test (x ∷ xs) ys = ground (arith, find-append test xs ys)

mapped-or_else :
    (change : Entry → Entry) (a b : Option Entry)
    → mapped change (or_else a b) ≡ or_else (mapped change a) (mapped change b)
unfolding or_else
mapped-or_else change none b = refl
mapped-or_else change (some a) b = refl

change_first-find :
    (test : Entry → Bool) (change : Entry → Entry) (es : List Entry)
    → changed (change_first test change es) ≡ mapped change (find test es)
unfolding change_first find
change_first-find test change [] = refl
change_first-find test change (e ∷ es) = elim (Bool-cases (test e)) [
  | inl fits ↦ rw fits refl
  | inr other ↦ elim (Option-cases (change_first test change es)) [
    | inl missing ↦ rw (other, missing) (rw missing at (change_first-find test change es))
    | inr (r, found) ↦ rw (other, found) (rw found at (change_first-find test change es))
  ]
]

changed-in_place :
    {A : Type 0} (whole : A → Groups) (o : Option (A × Entry))
    → changed (in_place whole o) ≡ changed o
unfolding in_place
changed-in_place whole none = refl
changed-in_place whole (some r) = refl

changed-or_next :
    (a b : Option (Groups × Entry)) → changed (or_next a b) ≡ or_else (changed a) (changed b)
unfolding or_next or_else
changed-or_next none b = refl
changed-or_next (some r) b = refl

mapped-find-append :
    (test : Entry → Bool) (change : Entry → Entry) (xs ys : List Entry)
    → mapped change (find test (xs ++ ys))
      ≡ or_else (mapped change (find test xs)) (mapped change (find test ys))
mapped-find-append test change xs ys =
    ap (mapped change) (find-append test xs ys)
    ∙ mapped-or_else change (find test xs) (find test ys)

-- The entries of one group, of the groups in it and of those behind it.
changed-combine :
    {A B C : Type 0} (test : Entry → Bool) (change : Entry → Entry) (f : A → Groups)
    (g : B → Groups) (h : C → Groups) (shown shown' : Bool)
    → shown' ≡ shown
    → (own : Option (A × Entry)) (deep : Option (B × Entry)) (later : Option (C × Entry))
    → (es kids tail : List Entry) → changed own ≡ mapped change (find test es)
    → changed deep ≡ mapped change (find test kids)
    → changed later ≡ mapped change (find test tail)
    → changed (
        if shown
        then or_next (in_place f own) (or_next (in_place g deep) (in_place h later))
        else or_next (in_place g deep) (in_place h later))
      ≡ mapped change (find test (((if shown' then es else []) ++ kids) ++ tail))
changed-combine test change f g h shown shown' same own deep later es kids tail ho hd hl =
    let below : changed (or_next (in_place g deep) (in_place h later))
        ≡ mapped change (find test (kids ++ tail)) =
      changed-or_next (in_place g deep) (in_place h later)
      ∙ rw (changed-in_place g deep, changed-in_place h later, hd, hl)
          (sym (mapped-find-append test change kids tail)) in
    rw same (elim (Bool-cases shown) [
      | inr hidden ↦ rw hidden below
      | inl seen ↦ rw seen (
          changed-or_next (in_place f own) (or_next (in_place g deep) (in_place h later))
          ∙ rw (changed-in_place f own, ho, below, append_assoc es kids tail)
              (sym (mapped-find-append test change es (kids ++ tail))))
    ])

module _ (u : Unicode) (recycle_bin wanted : Bytes) (trimmed : u.trim_space wanted ≡ wanted)
    (test : Entry → Bool) (change : Entry → Entry) where
  shown_same :
      (g : GroupData) (visible : Bool)
      → ((visible || (null wanted || is_exposed u g wanted)) || null wanted)
        ≡ ((visible || null wanted) || is_exposed u g wanted)
  shown_same g visible = ground arith

  change_matching-visible :
      (expose_group : Bytes)
      → u.trim_space expose_group ≡ wanted
      → (gs : Groups) (visible : Bool)
      → changed (change_matching_visible u test change gs recycle_bin expose_group visible)
        ≡ mapped change
            (find test (visible_entries u recycle_bin wanted (visible || null wanted) gs))
  unfolding change_matching_visible visible_entries find
  change_matching-visible expose_group same leaf visible = refl
  change_matching-visible expose_group same (group g es children rest) visible =
      let later = change_matching-visible expose_group same rest visible in
      let shown = visible || (null wanted || is_exposed u g wanted) in
      let deep = change_matching-visible wanted trimmed children shown in
      let own = change_first-find test change es in
      let kids = visible_entries u recycle_bin wanted (shown || null wanted) children in
      let tail = visible_entries u recycle_bin wanted (visible || null wanted) rest in
      rw (same, sym (shown_same g visible))
        (elim (Bool-cases (is_recycled g recycle_bin)) [
          | inl gone ↦ rw gone (rw (changed-in_place _ _) later)
          | inr live ↦ rw live (
              changed-combine test change _ _ _ shown (shown || null wanted) (ground arith)
                (change_first test change es)
                (change_matching_visible u test change children recycle_bin wanted shown)
                (change_matching_visible u test change rest recycle_bin expose_group visible) es
                kids tail own deep later)
        ])

-- If trimming a text twice is trimming it once, then the search of a write, which changes an entry
-- in place and skips the recycle bin and the groups that are not exposed, gives the changed form of
-- the first entry that fits among those that clients are shown, in their order, and fails where
-- none of them fits.
pub change_matching_visible-find :
    (u : Unicode) (test : Entry → Bool) (change : Entry → Entry) (gs : Groups)
    (recycle_bin expose_group : Bytes)
    → ((s : Bytes) → u.trim_space (u.trim_space s) ≡ u.trim_space s)
    → changed (change_matching_visible u test change gs recycle_bin expose_group false)
      ≡ mapped change (find test (collect_entries_visible u gs recycle_bin expose_group))
change_matching_visible-find u test change gs recycle_bin expose_group idempotent =
    rw (collect_entries_visible-entries u gs recycle_bin expose_group) (
      change_matching-visible u recycle_bin (u.trim_space expose_group) (idempotent expose_group)
        test change expose_group refl gs false)
