-- ===== src/SecretService/Write/History.antt =====
-- Archiving: what is kept of an entry's history, and how much.
use kpxcd.Prelude.{
  ℕ, ◌≤◌, ◌<◌, List, [], ◌∷◌, ◌++◌, Option, none, some, length, ◌≡◌, refl, sym, ap, ◌∙◌, ◌⊎◌, inl,
  inr, arith, Bool-cases, ltb, leb, append_assoc,
}
use kpxcd.Keepass.{Version, Entry}
use kpxcd.SecretService.Write.{
  HistoryLimits, history_limits, history_size, limit_items, limit_size, trim_versions, trim_history,
  append_history, append_version,
}

-- `ys` is what is left of `xs` when versions are dropped from its front.
abbrev IsSuffix : List Version → List Version → Type 0
IsSuffix ys xs = (old : List Version) × (xs ≡ old ++ ys)

limit_items-IsSuffix : (n : ℕ) (es : List Version) → IsSuffix (limit_items n es) es
unfolding limit_items
limit_items-IsSuffix n [] = ([], refl)
limit_items-IsSuffix n (e ∷ es) =
    let (old, q) = limit_items-IsSuffix n es in
    elim (Bool-cases (ltb n (length (e ∷ es)))) [
      | inl over ↦ rw over (e ∷ old, ap (◌∷◌ e) q)
      | inr fits ↦ rw fits ([], refl)
    ]

length-limit_items : (n : ℕ) (es : List Version) → length (limit_items n es) ≤ n
unfolding limit_items
length-limit_items n [] = omega arith
length-limit_items n (e ∷ es) = ground (arith, length-limit_items n es)

limit_items_kept : (n : ℕ) (es : List Version) → length es ≤ n → limit_items n es ≡ es
unfolding limit_items
limit_items_kept n [] h = refl
limit_items_kept n (e ∷ es) h = ground arith

limit_size-IsSuffix : (n : ℕ) (es : List Version) → IsSuffix (limit_size n es) es
unfolding limit_size
limit_size-IsSuffix n [] = ([], refl)
limit_size-IsSuffix n (e ∷ []) = ([], refl)
limit_size-IsSuffix n (e ∷ f ∷ es) =
    let (old, q) = limit_size-IsSuffix n (f ∷ es) in
    elim (Bool-cases (leb (history_size (e ∷ f ∷ es)) n)) [
      | inl fits ↦ rw fits ([], refl)
      | inr over ↦ rw over (e ∷ old, ap (◌∷◌ e) q)
    ]

length-limit_size-le : (n : ℕ) (es : List Version) → length (limit_size n es) ≤ length es
unfolding limit_size
length-limit_size-le n [] = omega arith
length-limit_size-le n (e ∷ []) = omega arith
length-limit_size-le n (e ∷ f ∷ es) = ground (arith, length-limit_size-le n (f ∷ es))

limit_size-fits :
    (n : ℕ) (es : List Version)
    → (history_size (limit_size n es) ≤ n) ⊎ (length (limit_size n es) ≤ 1)
unfolding limit_size
limit_size-fits n [] = inr (omega arith)
limit_size-fits n (e ∷ []) = inr (omega arith)
limit_size-fits n (e ∷ f ∷ es) = ground (arith, limit_size-fits n (f ∷ es))

limit_size-last :
    (n : ℕ) (es : List Version) (v : Version)
    → (kept : List Version) × (limit_size n (es ++ v ∷ []) ≡ kept ++ v ∷ [])
unfolding limit_size
limit_size-last n [] v = ([], refl)
limit_size-last n (e ∷ []) v = elim (Bool-cases (leb (history_size (e ∷ v ∷ [])) n)) [
  | inl fits ↦ rw fits (e ∷ [], refl)
  | inr over ↦ rw over ([], refl)
]
limit_size-last n (e ∷ f ∷ es) v =
    let (kept, q) = limit_size-last n (f ∷ es) v in
    elim (Bool-cases (leb (history_size (e ∷ f ∷ es ++ v ∷ [])) n)) [
      | inl fits ↦ rw fits (e ∷ f ∷ es, refl)
      | inr over ↦ rw over (kept, q)
    ]

limit_items-last :
    (n : ℕ) (es : List Version) (v : Version)
    → 0 < n
    → (kept : List Version) × (limit_items n (es ++ v ∷ []) ≡ kept ++ v ∷ [])
unfolding limit_items
limit_items-last n [] v pos = ([], ground arith)
limit_items-last n (e ∷ es) v pos =
    let (kept, q) = limit_items-last n es v pos in
    elim (Bool-cases (ltb n (length (e ∷ es ++ v ∷ [])))) [
      | inl over ↦ rw over (kept, q)
      | inr fits ↦ rw fits (e ∷ es, refl)
    ]

trim_versions-last :
    (lim : HistoryLimits) (es : List Version) (v : Version)
    → 0 < lim.max_items
    → (kept : List Version) × (trim_versions lim (es ++ v ∷ []) ≡ kept ++ v ∷ [])
unfolding trim_versions
trim_versions-last lim es v pos =
    let (kept, q) = limit_items-last lim.max_items es v pos in
    rw q (limit_size-last lim.max_size kept v)

trim_versions-IsSuffix :
    (lim : HistoryLimits) (es : List Version) → IsSuffix (trim_versions lim es) es
unfolding trim_versions
trim_versions-IsSuffix lim es =
    let (old, p) = limit_items-IsSuffix lim.max_items es in
    let (more, q) = limit_size-IsSuffix lim.max_size (limit_items lim.max_items es) in
    (old ++ more, p ∙ ap (◌++◌ old) q ∙ sym (append_assoc old more _))

length-trim_versions :
    (lim : HistoryLimits) (es : List Version) → length (trim_versions lim es) ≤ lim.max_items
unfolding trim_versions
length-trim_versions lim es = omega (
  arith,
  length-limit_size-le lim.max_size (limit_items lim.max_items es),
  length-limit_items lim.max_items es,
)

trim_versions-fits :
    (lim : HistoryLimits) (es : List Version)
    → (history_size (trim_versions lim es) ≤ lim.max_size) ⊎ (length (trim_versions lim es) ≤ 1)
unfolding trim_versions
trim_versions-fits lim es = limit_size-fits lim.max_size (limit_items lim.max_items es)

max_items-pos : (meta : Option HistoryLimits) → 0 < (history_limits meta).max_items
unfolding history_limits
max_items-pos none = omega arith
max_items-pos (some meta) = ground arith

-- The history that versions are archived in, and those behind it.
abbrev pub first_history : List (List Version) → List Version
first_history [] = []
first_history (h ∷ hs) = h

abbrev pub more_histories : List (List Version) → List (List Version)
more_histories [] = []
more_histories (h ∷ hs) = hs

append_history-trim :
    (clone : Version → Version) (meta : Option HistoryLimits) (e : Entry)
    → (append_history clone meta e).histories
      ≡ trim_versions (history_limits meta) (first_history e.histories ++ clone e.version ∷ [])
        ∷ more_histories e.histories
unfolding append_history append_version trim_history
append_history-trim clone meta e = by_histories e.histories
  where
    by_histories :
        (hs : List (List Version))
        → trim_history meta (append_version (clone e.version) hs)
          ≡ trim_versions (history_limits meta) (first_history hs ++ clone e.version ∷ [])
            ∷ more_histories hs
    by_histories [] = refl
    by_histories (h ∷ hs) = refl

-- Archiving puts the copy of the current version last in the entry's first history and keeps the
-- newest of the earlier versions before it: those kept are the end of what there was, no more than
-- the item limit with the copy, and within the size limit or the copy alone. The current version
-- and further histories stay as they are.
pub append_history_lem :
    (clone : Version → Version) (meta : Option HistoryLimits) (e : Entry)
    → let e' = append_history clone meta e in
      let lim = history_limits meta in
      (old : List Version) × (kept : List Version) × (e'.histories
        ≡ (kept ++ clone e.version ∷ []) ∷ more_histories e.histories)
      × (first_history e.histories ++ clone e.version ∷ [] ≡ old ++ (kept ++ clone e.version ∷ []))
      × (length (kept ++ clone e.version ∷ []) ≤ lim.max_items)
      × ((history_size (kept ++ clone e.version ∷ []) ≤ lim.max_size)
          ⊎ (length (kept ++ clone e.version ∷ []) ≤ 1))
      × (e'.version ≡ e.version)
append_history_lem clone meta e =
    let lim = history_limits meta in
    let h = first_history e.histories in
    let v = clone e.version in
    let (kept, q) = trim_versions-last lim h v (max_items-pos meta) in
    let (old, p) = trim_versions-IsSuffix lim (h ++ v ∷ []) in
    (
      old,
      kept,
      append_history-trim clone meta e ∙ ap (λ x. x ∷ more_histories e.histories) q,
      p ∙ ap (◌++◌ old) q,
      rw (← q) (length-trim_versions lim (h ++ v ∷ [])),
      rw (← q) (trim_versions-fits lim (h ++ v ∷ [])),
      unfold append_history in refl,
    )
