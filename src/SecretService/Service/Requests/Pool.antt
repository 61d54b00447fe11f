-- ===== src/SecretService/Service/Requests/Pool.antt =====
-- Locking through the Secret Service: what becomes of the databases, and what is found afterwards.
use kpxcd.Prelude.{
  ℕ, true, List, [], ◌∷◌, some, Bytes, bytes_Eq, nat_eq, null, Bool-cases, Option-cases, lookup,
  ◌≡◌, refl, sym, subst, ◌∙◌, inl, inr, arith,
}
use kpxcd.Prelude.Results.{ok, Result-cases}
use kpxcd.Keepass.{In}
use kpxcd.Text.{Unicode}
use kpxcd.Pool.Wipe.{wipe_database_content}
use kpxcd.SecretService.Service.{SecretService, Databases, Collection, open_entries}
use kpxcd.SecretService.Service.Objects.{items_in, get_collection_by_path}
use kpxcd.SecretService.Service.Requests.{write, locked_at, lock_database, lock_objects, lock}

-- Pointers keep their objects' identifiers, and what was locked stays locked.
record Later (d e : Databases) : Type 0 where
  same_dbs : e.dbs ≡ d.dbs
  same_uuid : (p : ℕ) → (e.heap p).uuid ≡ (d.heap p).uuid
  stays_locked : (p : ℕ) → (d.heap p).locked ≡ true → (e.heap p).locked ≡ true

locked_at-Later : (d : Databases) (q : ℕ) → Later d (locked_at d q)
unfolding locked_at write
locked_at-Later d q = record {
  same_dbs = refl;
  same_uuid = λ p. elim (Bool-cases (nat_eq p q)) [
    | inl here ↦ rw here (ground arith)
    | inr other ↦ rw other refl
  ];
  stays_locked = λ p h. ground arith;
}

locked_at-locked : (d : Databases) (p : ℕ) → ((locked_at d p).heap p).locked ≡ true
unfolding locked_at write
locked_at-locked d p = ground arith

-- A lock that succeeds has locked what the pool has under the identifier.
lock_database-ok :
    (d e : Databases) (uuid : Bytes)
    → lock_database d uuid ≡ ok e
    → (p : ℕ) × (lookup uuid d.dbs ≡ some p) × (e ≡ locked_at d p)
unfolding lock_database
lock_database-ok d e uuid done = elim (Option-cases (lookup uuid d.dbs)) [
  | inl missing ↦ absurd (ground arith)
  | inr (p, found) ↦ elim (Option-cases (wipe_database_content (d.heap p).db)) [
    | inl nil ↦ absurd (ground arith)
    | inr (_, wiped) ↦ (p, found, ground arith)
  ]
]

Later-trans : (d e f : Databases) → Later d e → Later e f → Later d f
Later-trans d e f m n = record {
  same_dbs = n.same_dbs ∙ m.same_dbs;
  same_uuid = λ p. n.same_uuid p ∙ m.same_uuid p;
  stays_locked = λ p h. n.stays_locked p (m.stays_locked p h);
}

lock_objects-Later :
    (ss : SecretService) (paths : List Bytes) (d : Databases) → Later d (lock_objects ss paths d).0
unfolding lock_objects
lock_objects-Later ss [] d = record {
  same_dbs = refl;
  same_uuid = λ p. refl;
  stays_locked = λ p h. h;
}
lock_objects-Later ss (path ∷ paths) d = elim (Option-cases (get_collection_by_path ss path)) [
  | inl missing ↦ rw (lock_objects, missing) (lock_objects-Later ss paths d)
  | inr (coll, found) ↦ elim (Result-cases (lock_database d (d.heap coll.db).uuid)) [
    | inr (_, failed) ↦ rw (lock_objects, found, failed) (lock_objects-Later ss paths d)
    | inl (e, done) ↦
        let made = lock_database-ok d e (d.heap coll.db).uuid done in
        let step = subst (Later d) (sym made.2) (locked_at-Later d made.0) in
        rw (lock_objects, found, done) (Later-trans d e _ step (lock_objects-Later ss paths e))
  ]
]

lock_database-locked :
    (d e : Databases) (uuid : Bytes) (p : ℕ)
    → lookup uuid d.dbs ≡ some p
    → lock_database d uuid ≡ ok e
    → (e.heap p).locked ≡ true
lock_database-locked d e uuid p found done =
    let made = lock_database-ok d e uuid done in
    let same : made.0 ≡ p = ground (arith, made.1) in
    subst (λ f. (f.heap p).locked ≡ true) (sym made.2)
      (subst (λ q. ((locked_at d q).heap p).locked ≡ true) (sym same) (locked_at-locked d p))

-- The pool has the databases of the collections that paths stand for.
abbrev pub Current : SecretService → Databases → Type 0
Current ss d =
    (path : Bytes) (coll : Collection)
    → get_collection_by_path ss path ≡ some coll
    → lookup (d.heap coll.db).uuid d.dbs ≡ some coll.db

Current-Later : (ss : SecretService) (d e : Databases) → Later d e → Current ss d → Current ss e
Current-Later ss d e step current path coll found =
    rw (step.same_dbs, step.same_uuid coll.db) (current path coll found)

abbrev LockedAt : SecretService → Databases → Bytes → Type 0
LockedAt ss d path =
    (coll : Collection) × (get_collection_by_path ss path ≡ some coll)
    × ((d.heap coll.db).locked ≡ true)

abbrev NamedLocked : SecretService → Databases × List Bytes → Type 0
NamedLocked ss r = (path : Bytes) → In path r.1 → LockedAt ss r.0 path

NamedLocked-first :
    (ss : SecretService) (r : Databases × List Bytes) (first : Bytes)
    → LockedAt ss r.0 first
    → NamedLocked ss r
    → NamedLocked ss (r.0, first ∷ r.1)
NamedLocked-first ss r first here later path (inl same) = subst (LockedAt ss r.0) (sym same) here
NamedLocked-first ss r first here later path (inr behind) = later path behind

lock_objects-locked :
    (ss : SecretService) (paths : List Bytes) (d : Databases)
    → Current ss d
    → NamedLocked ss (lock_objects ss paths d)
unfolding lock_objects
lock_objects-locked ss [] d current = λ path named. absurd named
lock_objects-locked ss (first ∷ paths) d current =
    elim (Option-cases (get_collection_by_path ss first)) [
      | inl missing ↦ rw (lock_objects, missing) (lock_objects-locked ss paths d current)
      | inr (coll, found) ↦ elim (Result-cases (lock_database d (d.heap coll.db).uuid)) [
        | inr (_, failed) ↦
            rw (lock_objects, found, failed) (lock_objects-locked ss paths d current)
        | inl (e, done) ↦
            let uuid = (d.heap coll.db).uuid in
            let made = lock_database-ok d e uuid done in
            let step : Later d e = subst (Later d) (sym made.2) (locked_at-Later d made.0) in
            let now = lock_database-locked d e uuid coll.db (current first coll found) done in
            let last = (lock_objects-Later ss paths e).stays_locked coll.db now in
            rw (lock_objects, found, done)
              (NamedLocked-first ss (lock_objects ss paths e) first (coll, found, last)
                (lock_objects-locked ss paths e (Current-Later ss d e step current)))
      ]
    ]

lock-lock_objects :
    (ss : SecretService) (paths : List Bytes) (d : Databases)
    → ((lock paths d ss).0 ≡ (lock_objects ss paths d).0)
      × ((path : Bytes) → In path (lock paths d ss).2.0 → In path (lock_objects ss paths d).1)
unfolding lock
lock-lock_objects ss paths d = elim (Bool-cases (null (lock_objects ss paths d).1)) [
  | inl none_named ↦ rw none_named (refl, λ path named. absurd named)
  | inr some_named ↦ rw some_named (refl, λ path named. named)
]

-- If the pool has the databases of the collections that paths stand for, then every object that the
-- answer to a request to lock names stands for a collection whose database is locked in the end,
-- and of which the service shows no item any more.
pub lock-locked :
    (u : Unicode) (ss : SecretService) (paths : List Bytes) (d : Databases)
    → Current ss d
    → (path : Bytes) → In path (lock paths d ss).2.0
    → (coll : Collection) × (get_collection_by_path ss path ≡ some coll)
      × (((lock paths d ss).0.heap coll.db).locked ≡ true)
      × (items_in u (lock paths d ss).0 ss coll ≡ [])
unfolding items_in open_entries
lock-locked u ss paths d current path named =
    let same = lock-lock_objects ss paths d in
    let (coll, found, locked) = lock_objects-locked ss paths d current path (same.1 path named) in
    let last = subst (λ e. (e.heap coll.db).locked ≡ true) (sym same.0) locked in
    (coll, found, last, rw last refl)
