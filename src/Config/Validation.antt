-- ===== src/Config/Validation.antt =====
-- Which settings `Validate` accepts, and that it changes accepted ones no more.
use kpxcd.Prelude.{
  ℕ, suc, ◌≤◌, true, false, ◌&&◌, List, [], ◌∷◌, Bytes, codes, bytes_Eq, ◌==◌, null, ltb,
  if◌then◌else◌, ◌≡◌, inl, inr, refl, ap, ◌∙◌, subst, arith, All, Bool-cases, bytes_eq_iff,
  bytes_eq,
}
use kpxcd.Prelude.Results.{ok, Result-cases}
use kpxcd.Text.{Unicode}
use kpxcd.Config.{
  DaemonConfig, DatabaseConfig, Config, known_mode, known_credential, check_database,
  check_databases, default_count, with_defaults, validate,
}

-- A database with a path, and with a credential of a known kind and what this kind needs.
abbrev pub IsUsable : DatabaseConfig → Type 0
IsUsable db =
    (null db.path ≡ false)
    × (null db.unlock_credential ≡ false)
    × (known_credential db.unlock_credential ≡ true)
    × (db.unlock_credential ≡ codes "systemd-credential" → null db.systemd_credential_name ≡ false)
    × (db.unlock_credential ≡ codes "keyfile" → null db.keyfile ≡ false)

-- What `Validate` asks for; of the log level only that it is not blank.
abbrev pub IsValid : Unicode → Config → Type 0
IsValid U c =
    (null (U.trim_space c.daemon.log_level) ≡ false)
    × (null c.daemon.ssh_mode ≡ false)
    × (known_mode c.daemon.ssh_mode ≡ true)
    × All IsUsable c.databases
    × (default_count c.databases ≤ 1)

needs :
    (c : Bytes) (kind field : Bytes)
    → (c == kind && null field) ≡ false
    → c ≡ kind
    → null field ≡ false
needs c kind field h same = ground (arith, (bytes_eq_iff c kind).1 same, h)

needs_not :
    (c kind field : Bytes) → (c ≡ kind → null field ≡ false) → (c == kind && null field) ≡ false
needs_not c kind field h = elim (Bool-cases (c == kind)) [
  | inl same ↦ let full = h ((bytes_eq_iff c kind).0 same) in ground arith
  | inr other ↦ ground arith
]

-- What has passed the tests of one round.
passed :
    (i : ℕ) (db checked : DatabaseConfig)
    → check_database i db ≡ ok checked
    → (null db.path ≡ false)
      × (known_credential db.unlock_credential ≡ true)
      × ((db.unlock_credential == codes "systemd-credential" && null db.systemd_credential_name)
          ≡ false)
      × ((db.unlock_credential == codes "keyfile" && null db.keyfile) ≡ false)
      × ((if null db.unlock_credential
            then record db { unlock_credential = codes "prompt" }
            else db)
          ≡ checked)
unfolding check_database
passed i db checked h = (ground arith, ground arith, ground arith, ground arith, ground arith)

check_database-IsUsable :
    (i : ℕ) (db checked : DatabaseConfig)
    → check_database i db ≡ ok checked
    → IsUsable checked × (checked.default ≡ db.default)
unfolding known_credential bytes_eq
check_database-IsUsable i db checked h =
    let p = passed i db checked h in
    elim (Bool-cases (null db.unlock_credential)) [
      | inl empty ↦
          let now : record db { unlock_credential = codes "prompt" } ≡ checked =
            (rw empty at (p.4)) in
          subst (λ c. IsUsable c × (c.default ≡ db.default)) now
            ((p.0, refl, refl, (λ e. cc e), λ e. cc e), refl)
      | inr full ↦
          let now : db ≡ checked = (rw full at (p.4)) in
          subst (λ c. IsUsable c × (c.default ≡ db.default)) now
            (
              (
                p.0,
                full,
                p.1,
                needs db.unlock_credential (codes "systemd-credential") db.systemd_credential_name
                    (p.2),
                needs db.unlock_credential (codes "keyfile") db.keyfile (p.3),
              ),
              refl,
            )
    ]

check_database_usable : (i : ℕ) (db : DatabaseConfig) → IsUsable db → check_database i db ≡ ok db
unfolding check_database
check_database_usable i db (path, full, known, sys, key) =
    rw
      (
        path,
        known,
        needs_not db.unlock_credential (codes "systemd-credential") db.systemd_credential_name sys,
        needs_not db.unlock_credential (codes "keyfile") db.keyfile key,
        full,
      )
      refl

check_databases-IsUsable :
    (i : ℕ) (dbs checked : List DatabaseConfig)
    → check_databases i dbs ≡ ok checked
    → All IsUsable checked × (default_count checked ≡ default_count dbs)
unfolding check_databases default_count
check_databases-IsUsable i [] checked h =
    let none_left : [] ≡ checked = ground arith in
    subst (λ c. All IsUsable c × (default_count c ≡ 0)) none_left (tt, refl)
check_databases-IsUsable i (db ∷ dbs) checked h = elim (Result-cases (check_database i db)) [
  | inr (e, bad) ↦ absurd (ground arith)
  | inl (one, good) ↦ elim (Result-cases (check_databases (suc i) dbs)) [
    | inr (e, bad) ↦ absurd (ground arith)
    | inl (rest, fine) ↦
        let first = check_database-IsUsable i db one good in
        let others = check_databases-IsUsable (suc i) dbs rest fine in
        let both : one ∷ rest ≡ checked = ground arith in
        subst (λ c. All IsUsable c × (default_count c ≡ default_count (db ∷ dbs))) both
          ((first.0, others.0), ground (arith, first.1, others.1))
  ]
]

check_databases_usable :
    (i : ℕ) (dbs : List DatabaseConfig) → All IsUsable dbs → check_databases i dbs ≡ ok dbs
unfolding check_databases
check_databases_usable i [] u = refl
check_databases_usable i (db ∷ dbs) (first, rest) =
    rw (check_databases, check_database_usable i db first, check_databases_usable (suc i) dbs rest)
      refl

with_defaults-full :
    (U : Unicode) (d : DaemonConfig)
    → null (U.trim_space d.log_level) ≡ false
    → null d.ssh_mode ≡ false
    → with_defaults U d ≡ d
unfolding with_defaults
with_defaults-full U d level mode = simp (level, mode)

-- Settings of this kind are accepted as they are.
validate_valid : (U : Unicode) (c : Config) → IsValid U c → validate U c ≡ ok c
unfolding validate
validate_valid U c (level, full, mode, usable, one) =
    let few : ltb 1 (default_count c.databases) ≡ false = ground arith in
    rw
      (
        mode,
        check_databases_usable 0 c.databases usable,
        few,
        with_defaults-full U c.daemon level full,
      )
      refl

-- The parts of a successful call.
accepted :
    (U : Unicode) (c checked : Config)
    → validate U c ≡ ok checked
    → (known_mode c.daemon.ssh_mode ≡ true)
      × (check_databases 0 c.databases ≡ ok checked.databases)
      × (default_count c.databases ≤ 1)
      × (with_defaults U c.daemon ≡ checked.daemon)
unfolding validate
accepted U c checked h = elim (Result-cases (check_databases 0 c.databases)) [
  | inr (e, bad) ↦ absurd (ground arith)
  | inl (dbs, good) ↦ elim (Bool-cases (ltb 1 (default_count c.databases))) [
    | inl many ↦ absurd (ground arith)
    | inr few ↦
        let done : record { daemon = with_defaults U c.daemon; databases = dbs } ≡ checked =
          ground arith in
        (ground arith, good ∙ ap (λ s. ok s.databases) done, ground arith, ap (λ s. s.daemon) done)
  ]
]

filled_mode :
    (mode : Bytes)
    → known_mode mode ≡ true
    → let m = if null mode then codes "agent" else mode in (null m ≡ false) × (known_mode m ≡ true)
unfolding known_mode bytes_eq
filled_mode mode known = elim (Bool-cases (null mode)) [
  | inl empty ↦ rw empty (refl, refl)
  | inr full ↦ rw full (full, known)
]

-- What `Validate` accepts has after it a log level that is not blank, one of the known modes of the
-- SSH agent, and at most one default database; each database has a path and a known kind of
-- credential, with the name or the file that this kind needs; and a second call accepts that again
-- without a change. The log level need not be one that the daemon knows. Trimming the word `info`
-- must not leave the empty text.
pub validate-IsValid :
    (U : Unicode) (c checked : Config)
    → null (U.trim_space (codes "info")) ≡ false
    → validate U c ≡ ok checked
    → IsValid U checked × (validate U checked ≡ ok checked)
unfolding with_defaults
validate-IsValid U c checked info h =
    let a = accepted U c checked h in
    let dbs = check_databases-IsUsable 0 c.databases checked.databases (a.1) in
    let mode = filled_mode c.daemon.ssh_mode (a.0) in
    let level : null (
          U.trim_space
            (if null (U.trim_space c.daemon.log_level) then codes "info" else c.daemon.log_level))
        ≡ false =
      level_lem in
    let valid : IsValid U checked = (
      rw⁻¹ (a.3) level,
      rw⁻¹ (a.3) (mode.0),
      rw⁻¹ (a.3) (mode.1),
      dbs.0,
      omega (arith, dbs.1, a.2),
    ) in
    (valid, validate_valid U checked valid)
  where
    level_lem :
        null (
          U.trim_space
            (if null (U.trim_space c.daemon.log_level) then codes "info" else c.daemon.log_level))
        ≡ false
    level_lem = elim (Bool-cases (null (U.trim_space c.daemon.log_level))) [
      | inl empty ↦ rw empty info
      | inr full ↦ rw full full
    ]
