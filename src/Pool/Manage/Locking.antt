-- ===== src/Pool/Manage/Locking.antt =====
-- Locking one database, and all of them.
use kpxcd.Prelude.{
  Bool, true, false, List, [], ◌∷◌, none, some, Bytes, bytes_Eq, if◌then◌else◌, ◌==◌, lookup,
  insert, ◌≡◌, ◌⊎◌, inl, inr, refl, sym, ◌∙◌, arith, All, is_some, Bool-cases, Option-cases,
  lookup-insert, bytes_eq_iff, All-insert, All-lookup,
}
use kpxcd.Prelude.Results.{ok}
use kpxcd.Keepass.{In}
use kpxcd.Pool.Database.{OpenDatabase}
use kpxcd.Pool.Wipe.{wipe_database_content}
use kpxcd.Pool.Manage.{
  DatabasePool, cancel, lock, unlocked_uuids, lock_each, lock_all, send, Event, database_locked,
}

-- Locking does not panic on the database, and a locked one holds neither content nor watcher.
abbrev pub WellFormed : Bytes × OpenDatabase → Type 0
WellFormed e =
    (is_some (wipe_database_content e.1.db) ≡ true)
    × (e.1.locked ≡ true → (e.1.db ≡ none) × (e.1.watcher ≡ none))

-- A missing database counts as locked.
unfoldable pub is_locked_at : Bytes → DatabasePool → Bool
is_locked_at uuid p = elim (lookup uuid p.dbs) [ none ↦ true | some odb ↦ odb.locked ]

locked_database : OpenDatabase → OpenDatabase
locked_database odb = record odb { db = none; locked = true; watcher = none }

locked-WellFormed :
    (j uuid : Bytes) (odb : OpenDatabase) → j ≡ uuid → WellFormed (j, locked_database odb)
unfolding locked_database wipe_database_content
locked-WellFormed j uuid odb same = (refl, λ _. (refl, refl))

lock-ok :
    (p : DatabasePool) (uuid : Bytes) (odb : OpenDatabase)
    → All WellFormed p.dbs
    → lookup uuid p.dbs ≡ some odb
    → (q : DatabasePool) × (lock p uuid ≡ ok q)
      × (q.dbs ≡ insert uuid (locked_database odb) p.dbs)
      × (q.watchers ≡ cancel odb.watcher p.watchers)
      × (q.events
          ≡ send p.capacity
              (record { type = database_locked; uuid = uuid; name = odb.name; path = odb.path })
              p.events)
unfolding lock locked_database
lock-ok p uuid odb good here =
    let wf = All-lookup WellFormed uuid odb p.dbs good here in
    let event : Event = record {
      type = database_locked;
      uuid = uuid;
      name = odb.name;
      path = odb.path;
    } in
    let q : DatabasePool = record p {
      dbs = insert uuid (record odb { db = none; locked = true; watcher = none }) p.dbs;
      events = send p.capacity event p.events;
      watchers = cancel odb.watcher p.watchers;
    } in
    elim (Option-cases (wipe_database_content odb.db)) [
      | inl crash ↦ absurd (ground (arith, wf.0))
      | inr (wiped, fine) ↦ (q, ground (arith), refl, refl, refl)
    ]

-- Locking a database that the pool knows succeeds, if the pool is well-formed (wiping panics on
-- no database, and a locked one holds neither content nor watcher): it holds neither content nor
-- watcher afterwards, its watcher has ended, every other database is as before, the pool stays
-- well-formed, and the event is sent.
pub lock_lem :
    (p : DatabasePool) (uuid : Bytes) (odb : OpenDatabase)
    → All WellFormed p.dbs
    → lookup uuid p.dbs ≡ some odb
    → (q : DatabasePool) × (lock p uuid ≡ ok q)
      × All WellFormed q.dbs
      × ((j : Bytes)
          → lookup j q.dbs ≡ (
              if uuid == j
              then some (record odb { db = none; locked = true; watcher = none })
              else lookup j p.dbs))
      × (q.watchers ≡ cancel odb.watcher p.watchers)
      × (q.events
          ≡ send p.capacity
              (record { type = database_locked; uuid = uuid; name = odb.name; path = odb.path })
              p.events)
unfolding locked_database
lock_lem p uuid odb good here =
    let l = lock-ok p uuid odb good here in
    (
      l.0,
      l.1,
      rw (l.2) (
          All-insert WellFormed uuid (locked_database odb) p.dbs (λ j. locked-WellFormed j uuid odb)
            good),
      (λ j. rw (l.2) (lookup-insert uuid j (locked_database odb) p.dbs)),
      l.3,
      l.4,
    )

lock_each_lem :
    (p : DatabasePool) (uuids : List Bytes)
    → All WellFormed p.dbs
    → All (λ u. is_some (lookup u p.dbs) ≡ true) uuids
    → (q : DatabasePool) × (lock_each p uuids none ≡ (q, none))
      × All WellFormed q.dbs
      × ((j : Bytes) → is_some (lookup j q.dbs) ≡ is_some (lookup j p.dbs))
      × ((j : Bytes) → (is_locked_at j p ≡ true) ⊎ In j uuids → is_locked_at j q ≡ true)
unfolding lock_each is_locked_at
lock_each_lem p [] good known =
    (p, refl, good, (λ j. refl), λ j h. elim h [ inl l ↦ l | inr none_of ↦ absurd none_of ])
lock_each_lem p (u ∷ uuids) good known = elim (Option-cases (lookup u p.dbs)) [
  | inl missing ↦ absurd (ground (arith, known.0))
  | inr (odb, here) ↦
      let l = lock_lem p u odb good here in
      let kept : (j : Bytes) → is_some (lookup j l.0.dbs) ≡ is_some (lookup j p.dbs) =
        kept_keys l.0 odb here l.3 in
      let rest = lock_each_lem l.0 uuids l.2 (still l.0 uuids kept known.1) in
      (
        rest.0,
        rw (lock_each, l.1) (rest.1),
        rest.2,
        (λ j. rest.3 j ∙ kept j),
        λ j h. rest.4 j (locked_after l.0 odb l.3 j h),
      )
]
  where
    kept_keys :
        (q : DatabasePool) (odb : OpenDatabase)
        → lookup u p.dbs ≡ some odb
        → ((j : Bytes)
            → lookup j q.dbs ≡ (
                if u == j
                then some (record odb { db = none; locked = true; watcher = none })
                else lookup j p.dbs))
        → (j : Bytes) → is_some (lookup j q.dbs) ≡ is_some (lookup j p.dbs)
    kept_keys q odb here at j = ground (arith, at j, bytes_eq_iff u j)

    still :
        (q : DatabasePool) (us : List Bytes)
        → ((j : Bytes) → is_some (lookup j q.dbs) ≡ is_some (lookup j p.dbs))
        → All (λ u. is_some (lookup u p.dbs) ≡ true) us
        → All (λ u. is_some (lookup u q.dbs) ≡ true) us
    still q [] kept h = tt
    still q (v ∷ us) kept h = (kept v ∙ h.0, still q us kept h.1)

    locked_after :
        (q : DatabasePool) (odb : OpenDatabase)
        → ((j : Bytes)
            → lookup j q.dbs ≡ (
                if u == j
                then some (record odb { db = none; locked = true; watcher = none })
                else lookup j p.dbs))
        → (j : Bytes) → (is_locked_at j p ≡ true) ⊎ In j (u ∷ uuids)
        → (is_locked_at j q ≡ true) ⊎ In j uuids
    locked_after q odb at j (inl l) = inl (ground (arith, at j, bytes_eq_iff u j))
    locked_after q odb at j (inr (inl same)) = inl (ground (arith, at j, bytes_eq_iff u j))
    locked_after q odb at j (inr (inr later)) = inr later

unlocked_uuids-known :
    (dbs : List (Bytes × OpenDatabase)) (P : Bytes → Type 0)
    → ((u : Bytes) → is_some (lookup u dbs) ≡ true → P u)
    → All P (unlocked_uuids dbs)
unfolding unlocked_uuids lookup
unlocked_uuids-known [] P f = tt
unlocked_uuids-known ((uuid, odb) ∷ dbs) P f =
    let rest = unlocked_uuids-known dbs P (λ u h. f u (ground arith)) in
    elim (Bool-cases odb.locked) [
      | inl closed ↦ rw closed rest
      | inr opened ↦ rw opened (f uuid (ground (arith, bytes_eq_iff uuid uuid)), rest)
    ]

unlocked_uuids_complete :
    (dbs : List (Bytes × OpenDatabase)) (u : Bytes) (odb : OpenDatabase)
    → lookup u dbs ≡ some odb
    → odb.locked ≡ false
    → In u (unlocked_uuids dbs)
unfolding unlocked_uuids lookup
unlocked_uuids_complete [] u o h opened = cc
unlocked_uuids_complete ((uuid, odb) ∷ dbs) u o h opened = elim (Bool-cases (uuid == u)) [
  | inl same ↦
      let this : odb.locked ≡ false = ground arith in
      rw this (inl (sym ((bytes_eq_iff uuid u).0 same)))
  | inr other ↦
      let rest = unlocked_uuids_complete dbs u o (ground arith) opened in
      elim (Bool-cases odb.locked) [ inl l ↦ rw l rest | inr l ↦ rw l (inr rest) ]
]

-- Locking everything succeeds in every order of the map, if wiping panics on no database of the
-- pool and those locked before hold neither content nor watcher: the pool keeps its databases,
-- and all of them are locked, without content and without a watcher.
pub lock_all_lem :
    (p : DatabasePool)
    → All WellFormed p.dbs
    → ((lock_all p).1 ≡ none)
      × ((j : Bytes) → is_some (lookup j (lock_all p).0.dbs) ≡ is_some (lookup j p.dbs))
      × ((j : Bytes) (o : OpenDatabase)
          → lookup j (lock_all p).0.dbs ≡ some o
          → (o.locked ≡ true) × (o.db ≡ none) × (o.watcher ≡ none))
unfolding lock_all is_locked_at
lock_all_lem p good =
    let l =
      lock_each_lem p (unlocked_uuids p.dbs) good
        (unlocked_uuids-known p.dbs (λ u. is_some (lookup u p.dbs) ≡ true) (λ u h. h)) in
    rw (l.1) (refl, l.3, λ j o here. closed_at l.0 l.2 j (l.4 j (before j)) o here)
  where
    before : (j : Bytes) → (is_locked_at j p ≡ true) ⊎ In j (unlocked_uuids p.dbs)
    before j = elim (Option-cases (lookup j p.dbs)) [
      | inl missing ↦ inl (ground arith)
      | inr (odb, here) ↦ elim (Bool-cases odb.locked) [
        | inl l ↦ inl (ground arith)
        | inr opened ↦ inr (unlocked_uuids_complete p.dbs j odb here opened)
      ]
    ]

    closed_at :
        (q : DatabasePool)
        → All WellFormed q.dbs
        → (j : Bytes) → is_locked_at j q ≡ true
        → (o : OpenDatabase) → lookup j q.dbs ≡ some o
        → (o.locked ≡ true) × (o.db ≡ none) × (o.watcher ≡ none)
    closed_at q all j l o here =
        let shut : o.locked ≡ true = ground arith in
        let rest = (All-lookup WellFormed j o q.dbs all here).1 shut in (shut, rest.0, rest.1)
