-- ===== src/DbusApi/Search.antt =====
-- What requests show of databases, and that they show nothing of locked ones.
use kpxcd.Prelude.{
  true, false, List, [], ◌∷◌, ◌++◌, map, Option, none, some, Bytes, bytes_Eq, ◌==◌, null, keep,
  Bool-cases, Option-cases, lookup, insert, All, Distinct, Distinct-insert, ==_refl, ◌≡◌, ◌↔◌, refl,
  sym, ap, subst, ◌∙◌, inl, inr, arith,
}
use kpxcd.Prelude.Results.{ok, Result-cases}
use kpxcd.Keepass.{Entry, In, In-append, In-append_left, In-append_right}
use kpxcd.Pool.Database.{OpenDatabase}
use kpxcd.Pool.Wipe.{wipe_database_content}
use kpxcd.Pool.Manage.{
  DatabasePool, PoolError, lock, lock_each, lock_all, first_error, unlocked_uuids, list,
}
use kpxcd.Pool.Manage.Locking.{WellFormed, lock_all_lem}
use kpxcd.DbusApi.{
  EntryInfo, entries, done, State, Environment, entries_of, matches_query, entry_info, search_each,
  search_entries, authorize, authorized, selected, lock_all_databases,
}

module _ {S : Type 0} (env : Environment S) where
  -- What the entries of one database contribute.
  abbrev Matches : Bytes → Bytes → EntryInfo → List Entry → Type 0
  Matches uuid query info es =
      (e : Entry) × In e es × (matches_query env e query ≡ true) × (info ≡ entry_info env uuid e)

  found_in : Bytes → Bytes → List Entry → List EntryInfo
  found_in uuid query es = map (entry_info env uuid) (keep (λ e. matches_query env e query) es)

  found_in→ :
      (uuid query : Bytes) (info : EntryInfo) (es : List Entry)
      → In info (found_in uuid query es)
      → Matches uuid query info es
  unfolding found_in
  found_in→ uuid query info [] h = absurd h
  found_in→ uuid query info (e ∷ es) h = elim (Bool-cases (matches_query env e query)) [
    | inl fits ↦ elim (rw fits at h) [
      | inl same ↦ (e, inl refl, fits, same)
      | inr later ↦
          let (x, at, ok', eq) = found_in→ uuid query info es later in (x, inr at, ok', eq)
    ]
    | inr other ↦
        let (x, at, ok', eq) = found_in→ uuid query info es (rw other at h) in (x, inr at, ok', eq)
  ]

  found_in← :
      (uuid query : Bytes) (info : EntryInfo) (es : List Entry)
      → Matches uuid query info es
      → In info (found_in uuid query es)
  unfolding found_in
  found_in← uuid query info [] m = absurd m.1
  found_in← uuid query info (e ∷ es) (x, inl same, fits, eq) =
      let here = subst (λ y. matches_query env y query ≡ true) same fits in
      rw here (inl (eq ∙ ap (entry_info env uuid) same))
  found_in← uuid query info (e ∷ es) (x, inr later, fits, eq) =
      let rest = found_in← uuid query info es (x, later, fits, eq) in
      elim (Bool-cases (matches_query env e query)) [
        | inl here ↦ rw here (inr rest)
        | inr other ↦ rw other rest
      ]

  abbrev pub Found : Bytes → EntryInfo → List OpenDatabase → Type 0
  Found query info os =
      (o : OpenDatabase) × In o os × (o.locked ≡ false) × Matches o.uuid query info (entries_of o)

  search_each-locked :
      (query : Bytes) (o : OpenDatabase) (os : List OpenDatabase)
      → o.locked ≡ true
      → search_each env query (o ∷ os) ≡ search_each env query os
  unfolding search_each
  search_each-locked query o os shut = ground arith

  search_each-open :
      (query : Bytes) (o : OpenDatabase) (os : List OpenDatabase)
      → o.locked ≡ false
      → search_each env query (o ∷ os)
        ≡ found_in o.uuid query (entries_of o) ++ search_each env query os
  unfolding search_each found_in
  search_each-open query o os opened = ground arith

  search_each→ :
      (query : Bytes) (info : EntryInfo) (os : List OpenDatabase)
      → In info (search_each env query os)
      → Found query info os
  unfolding search_each
  search_each→ query info [] h = absurd h
  search_each→ query info (o ∷ os) h = elim (Bool-cases o.locked) [
    | inl shut ↦
        let (x, at, free, rest) =
          search_each→ query info os (subst (In info) (search_each-locked query o os shut) h) in
        (x, inr at, free, rest)
    | inr opened ↦
        let here = found_in o.uuid query (entries_of o) in
        elim (In-append info here (search_each env query os)
          (subst (In info) (search_each-open query o os opened) h)) [
            | inl mine ↦ (o, inl refl, opened, found_in→ o.uuid query info (entries_of o) mine)
            | inr later ↦
                let (x, at, free, rest) = search_each→ query info os later in
                (x, inr at, free, rest)
          ]
  ]

  search_each← :
      (query : Bytes) (info : EntryInfo) (os : List OpenDatabase)
      → Found query info os
      → In info (search_each env query os)
  unfolding search_each
  search_each← query info [] f = absurd f.1
  search_each← query info (o ∷ os) (x, inr at, opened, m) =
      let rest = search_each← query info os (x, at, opened, m) in
      elim (Bool-cases o.locked) [
        | inl shut ↦ subst (In info) (sym (search_each-locked query o os shut)) rest
        | inr open' ↦ subst (In info) (sym (search_each-open query o os open')) (
            In-append_right info (found_in o.uuid query (entries_of o)) (search_each env query os)
              rest)
      ]
  search_each← query info (o ∷ os) (x, inl same, opened, m) =
      let open' = subst (λ y. y.locked ≡ false) same opened in
      let mine = subst (λ y. Matches y.uuid query info (entries_of y)) same m in
      subst (In info) (sym (search_each-open query o os open')) (
        In-append_left info (found_in o.uuid query (entries_of o)) (search_each env query os)
          (found_in← o.uuid query info (entries_of o) mine))

  shown :
      (sender query : Bytes) (st : State S) (uuid : Bytes)
      → authorize env sender ≡ true
      → null (env.unicode.trim_space query) ≡ false
      → null uuid ≡ true
      → search_entries env sender uuid query st
        ≡ (st, ok (entries (search_each env query (list st.pool))))
  unfolding search_entries authorized selected
  shown sender query st uuid granted filled all =
      rw (search_entries, authorized, granted, filled, selected, all) refl

-- If the caller is authorized and the query is not blank, then the search in all databases is
-- answered, without a change of the state, with the entries outside the recycle bin that match the
-- query, of the databases that are not locked, and with nothing else.
pub search_entries_iff :
    {S : Type 0} (env : Environment S) (sender query : Bytes) (st : State S)
    → authorize env sender ≡ true
    → null ((env.unicode).trim_space query) ≡ false
    → (infos : List EntryInfo) × (search_entries env sender [] query st ≡ (st, ok (entries infos)))
      × ((info : EntryInfo) → In info infos ↔ Found env query info (list st.pool))
search_entries_iff env sender query st granted filled = (
  search_each env query (list st.pool),
  shown env sender query st [] granted filled refl,
  λ info. (search_each→ env query info (list st.pool), search_each← env query info (list st.pool)),
)

lock-Distinct :
    (p q : DatabasePool) (uuid : Bytes) → lock p uuid ≡ ok q → Distinct p.dbs → Distinct q.dbs
unfolding lock
lock-Distinct p q uuid locked distinct = elim (Option-cases (lookup uuid p.dbs)) [
  | inl missing ↦ absurd (ground arith)
  | inr (o, found) ↦ elim (Option-cases (wipe_database_content o.db)) [
    | inl nil ↦ absurd (ground arith)
    | inr (wiped, here) ↦
        let closed = record o { db = none; locked = true; watcher = none } in
        let same : q.dbs ≡ insert uuid closed p.dbs = ground arith in
        subst Distinct (sym same) (Distinct-insert uuid closed p.dbs distinct)
  ]
]

lock_each-Distinct :
    (p : DatabasePool) (uuids : List Bytes) (first : Option PoolError)
    → Distinct p.dbs
    → Distinct (lock_each p uuids first).0.dbs
unfolding lock_each
lock_each-Distinct p [] first distinct = distinct
lock_each-Distinct p (uuid ∷ uuids) first distinct = elim (Result-cases (lock p uuid)) [
  | inl (q, locked) ↦
      rw (lock_each, locked)
        (lock_each-Distinct q uuids first (lock-Distinct p q uuid locked distinct))
  | inr (e, failed) ↦
      rw (lock_each, failed) (lock_each-Distinct p uuids (first_error first e) distinct)
]

-- With each key once, what holds at every key holds of every element.
all_elements :
    (P : OpenDatabase → Type 0) (dbs : List (Bytes × OpenDatabase))
    → Distinct dbs
    → ((j : Bytes) (o : OpenDatabase) → lookup j dbs ≡ some o → P o)
    → (o : OpenDatabase) → In o (map (λ entry. entry.1) dbs)
    → P o
unfolding lookup
all_elements P [] distinct at o h = absurd h
all_elements P ((k, first) ∷ dbs) distinct at o (inl here) =
    subst P (sym here) (at k first (rw (==_refl k) refl))
all_elements P ((k, first) ∷ dbs) distinct at o (inr later) =
    all_elements P dbs distinct.1
      (λ j x found. at j x (elim (Bool-cases (k == j)) [
        | inl same ↦
            let bad = subst (λ i. lookup i dbs ≡ none) ((bytes_Eq.beq_iff k j).0 same) distinct.0 in
            absurd (ground arith)
        | inr other ↦ rw other found
      ]))
      o later

search_each-none :
    {S : Type 0} (env : Environment S) (query : Bytes) (os : List OpenDatabase)
    → ((o : OpenDatabase) → In o os → o.locked ≡ true)
    → search_each env query os ≡ []
unfolding search_each
search_each-none env query [] shut = refl
search_each-none env query (o ∷ os) shut =
    search_each-locked env query o os (shut o (inl refl))
    ∙ search_each-none env query os (λ x at. shut x (inr at))

-- If the caller is authorized, no identifier stands twice in the pool, wiping panics on none of its
-- databases, and those locked before hold neither content nor watcher, then a request to lock all
-- databases succeeds, and a search after it with a query that is not blank finds nothing.
pub lock_all_databases-search_entries :
    {S : Type 0} (env : Environment S) (sender query : Bytes) (st : State S)
    → authorize env sender ≡ true
    → null ((env.unicode).trim_space query) ≡ false
    → Distinct (st.pool).dbs
    → All WellFormed (st.pool).dbs
    → ((lock_all_databases env sender st).1 ≡ ok done)
      × (search_entries env sender [] query (lock_all_databases env sender st).0
          ≡ ((lock_all_databases env sender st).0, ok (entries [])))
unfolding lock_all_databases authorized lock_all list
lock_all_databases-search_entries env sender query st granted filled distinct good =
    let lem = lock_all_lem st.pool good in
    let after = (lock_all st.pool).0 in
    let kept = lock_each-Distinct st.pool (unlocked_uuids (st.pool).dbs) none distinct in
    let shut =
      all_elements (λ o. o.locked ≡ true) after.dbs kept (λ j o found. (lem.2 j o found).0) in
    let state : (lock_all_databases env sender st).0 ≡ record st { pool = after } =
      rw (lock_all_databases, authorized, granted) refl in
    let nothing = search_each-none env query (list after) shut in
    (
      rw (lock_all_databases, authorized, granted) (rw lem.0 refl),
      rw state (
          shown env sender query (record st { pool = after }) [] granted filled refl
          ∙ ap (λ infos. (record st { pool = after }, ok (entries infos))) nothing),
    )
