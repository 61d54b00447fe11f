-- ===== src/SecretService/NotifyCache/Suppression.antt =====
-- Which accesses are announced.
use kpxcd.Prelude.{
  ℕ, ◌+◌, ◌<◌, false, not, some, Bytes, length, lookup, bytes_Eq, bytes_eq_iff, ltb, ◌≡◌, ◌≢◌, ◌↔◌,
  arith, inl, inr, Option-cases, lookup-insert, lookup-insert_self,
}
use kpxcd.SecretService.NotifyCache.{Cache, max_entries, make_room, is_fresh, allow}

-- An access is suppressed exactly when the duration is positive and the key is cached with an
-- expiry that is still to come.
pub allow_iff :
    (key : Bytes) (ttl now : ℕ) (c : Cache)
    → ((allow key ttl now c).1 ≡ false)
      ↔ ((0 < ttl) × ((expiry : ℕ) × (lookup key c ≡ some expiry) × (now < expiry)))
unfolding allow is_fresh
allow_iff key ttl now c = elim (Option-cases (lookup key c)) [
  | inl new ↦ (λ h. absurd (ground arith), λ h. ground arith)
  | inr (expiry, old) ↦ (λ h. (ground arith, (expiry, old, ground arith)), λ h. ground arith)
]

lookup-allow :
    (key : Bytes) (ttl now : ℕ) (c : Cache)
    → 0 < ttl
    → lookup key (allow key ttl now c).0 ≡ some (now + ttl)
unfolding allow
lookup-allow key ttl now c pos = ground (
  arith,
  lookup-insert_self key (now + ttl) c,
  lookup-insert_self key (now + ttl) (make_room key now c),
)

allow_cached :
    (key : Bytes) (ttl now : ℕ) (c : Cache) (expiry : ℕ)
    → 0 < ttl
    → lookup key c ≡ some expiry
    → (allow key ttl now c).1 ≡ not (ltb now expiry)
unfolding allow is_fresh
allow_cached key ttl now c expiry pos cached = ground arith

-- When two accesses under one key follow each other with positive durations, the second is
-- announced exactly when the duration of the first has passed; the first sets it anew whether it
-- was announced or not.
pub allow_again :
    (key : Bytes) (ttl ttl' now now' : ℕ) (c : Cache)
    → 0 < ttl
    → 0 < ttl'
    → (allow key ttl' now' (allow key ttl now c).0).1 ≡ not (ltb now' (now + ttl))
allow_again key ttl ttl' now now' c pos pos' =
    allow_cached key ttl' now' _ (now + ttl) pos' (lookup-allow key ttl now c pos)

-- While there is room no access changes what is cached under another key.
pub lookup-allow_other :
    (key other : Bytes) (ttl now : ℕ) (c : Cache)
    → length c < max_entries
    → other ≢ key
    → lookup other (allow key ttl now c).0 ≡ lookup other c
unfolding allow make_room
lookup-allow_other key other ttl now c room ne =
    ground (arith, lookup-insert key other (now + ttl) c, bytes_eq_iff key other)
