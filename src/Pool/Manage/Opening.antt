-- ===== src/Pool/Manage/Opening.antt =====
-- Opening a database: what the pool holds then, and what an earlier one under the same identifier
-- leaves behind.
use kpxcd.Prelude.{
  ℕ, true, false, List, [], ◌∷◌, none, some, Bytes, bytes_Eq, lookup, ◌≡◌, ◌≢◌, ◌<◌, ◌∙◌, ==_refl,
  inl, inr, refl, subst, arith, All, is_some, lookup-insert, bytes_eq_iff, All-insert,
}
use kpxcd.Prelude.Results.{ok, Result-cases}
use kpxcd.Pool.Database.{Db, FileFingerprint, OpenDatabase}
use kpxcd.Pool.Wipe.{wipe_database_content}
use kpxcd.Pool.Manage.{
  DatabasePool, PoolLibrary, Credential, load, add, open_database, extract_uuid, get, cancel, lock,
}
use kpxcd.Pool.Manage.Locking.{WellFormed, lock_lem}

-- The pool `r.1` has the opened database under `r.0`, and is otherwise as before.
abbrev pub Opened :
    PoolLibrary → DatabasePool → Bytes → Db → FileFingerprint → Bytes × DatabasePool → Type 0
Opened lib p path db fp r =
    (o : OpenDatabase) × (r.0 ≡ extract_uuid lib db path)
    × (get r.1 r.0 ≡ ok o)
    × (o.db ≡ some db)
    × (o.fingerprint ≡ fp)
    × (o.locked ≡ false)
    × (o.watcher ≡ some p.next_watcher)
    × (r.1.watchers ≡ p.next_watcher ∷ p.watchers)
    × ((j : Bytes) → r.0 ≢ j → lookup j r.1.dbs ≡ lookup j p.dbs)
    × (is_some (wipe_database_content (some db)) ≡ true
        → All WellFormed p.dbs
        → All WellFormed r.1.dbs)

add_lem :
    (lib : PoolLibrary) (p : DatabasePool) (path : Bytes) (db : Db) (fp : FileFingerprint)
    → Opened lib p path db fp (add lib p path db fp)
unfolding add get
add_lem lib p path db fp =
    let uuid = extract_uuid lib db path in
    let o : OpenDatabase = record {
      uuid = uuid;
      name = lib.base path;
      path = path;
      locked = false;
      db = some db;
      fingerprint = fp;
      watcher = some p.next_watcher;
    } in
    (
      o,
      refl,
      ground (arith, lookup-insert uuid uuid o p.dbs, bytes_eq_iff uuid uuid),
      refl,
      refl,
      refl,
      refl,
      refl,
      (λ j other. ground (arith, lookup-insert uuid j o p.dbs, bytes_eq_iff uuid j, other)),
      λ wipes good. All-insert WellFormed uuid o p.dbs (λ j same. (wipes, λ l. cc l)) good,
    )

-- An opened database is found under its identifier, unlocked, with its content, its fingerprint and
-- a watcher that runs; every other database is as before, and a pool of well-formed databases stays
-- one if the content can be wiped.
pub open_database_lem :
    (lib : PoolLibrary) (p q : DatabasePool) (path uuid : Bytes) (cred : Credential)
    → open_database lib p path cred ≡ ok (uuid, q)
    → (db : Db) × (fp : FileFingerprint) × (load lib path cred ≡ ok (db, fp))
      × Opened lib p path db fp (uuid, q)
unfolding open_database
open_database_lem lib p q path uuid cred h = elim (Result-cases (load lib path cred)) [
  | inr (e, bad) ↦ absurd (ground arith)
  | inl (loaded, good) ↦
      let same : add lib p path (loaded.0) (loaded.1) ≡ (uuid, q) = ground arith in
      (
        loaded.0,
        loaded.1,
        good,
        subst (λ r. Opened lib p path (loaded.0) (loaded.1) r) same
            (add_lem lib p path (loaded.0) (loaded.1)),
      )
]

-- Cancelling a watcher that runs nowhere ends none.
cancel-below : (n : ℕ) (ws : List ℕ) → All (λ w. w < n) ws → cancel (some n) ws ≡ ws
unfolding cancel
cancel-below n [] h = refl
cancel-below n (w ∷ ws) (below, rest) = ground (arith, cancel-below n ws rest)

cancel-first : (n : ℕ) (ws : List ℕ) → All (λ w. w < n) ws → cancel (some n) (n ∷ ws) ≡ ws
unfolding cancel
cancel-first n ws h = ground (arith, cancel-below n ws h)

-- Locking a database that has just been opened ends the watcher that the opening has started and no
-- other: exactly the watchers run that ran before the opening, also one that belongs to an earlier
-- database under the same identifier, while the pool holds the database locked and without a
-- watcher. The pool after opening is well-formed, and the watchers that run were numbered before.
pub lock-open_database_again :
    (lib : PoolLibrary) (p q : DatabasePool) (path uuid : Bytes) (cred : Credential)
    → All WellFormed q.dbs
    → open_database lib p path cred ≡ ok (uuid, q)
    → All (λ w. w < p.next_watcher) p.watchers
    → (q.watchers ≡ p.next_watcher ∷ p.watchers)
      × (r : DatabasePool) × (lock q uuid ≡ ok r)
      × (r.watchers ≡ p.watchers)
      × (o : OpenDatabase) × (lookup uuid r.dbs ≡ some o)
      × (o.locked ≡ true)
      × (o.watcher ≡ none)
unfolding get
lock-open_database_again lib p q path uuid cred good h old =
    let opened = open_database_lem lib p q path uuid cred h in
    let now = opened.3 in
    let o = now.0 in
    let here : lookup uuid q.dbs ≡ some o = ground (arith, now.2) in
    let l = lock_lem q uuid o good here in
    let ended : cancel (some p.next_watcher) (p.next_watcher ∷ p.watchers) ≡ p.watchers =
      cancel-first p.next_watcher p.watchers old in
    (
      now.7,
      l.0,
      l.1,
      rw (l.4, now.6, now.7) ended,
      record o { db = none; locked = true; watcher = none },
      l.3 uuid ∙ rw (==_refl uuid) refl,
      refl,
      refl,
    )
