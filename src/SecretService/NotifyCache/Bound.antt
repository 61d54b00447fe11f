-- ===== src/SecretService/NotifyCache/Bound.antt =====
-- The cache never grows beyond its limit.
use kpxcd.Prelude.{
  ℕ, ◌+◌, ◌≤◌, ◌<◌, true, false, List, [], ◌∷◌, none, Bytes, length, null, lookup, delete, bytes_Eq,
  bytes_eq_iff, ltb, ltb→lt, is_some, All, ◌≡◌, refl, ap, ◌∙◌, ◌⊎◌, inl, inr, arith, Bool-cases,
  length-insert-le, length-insert_old, length-delete-le, length-keep-le, All-insert, All-delete,
  All-keep, Option-cases,
}
use kpxcd.Keepass.{In}
use kpxcd.SecretService.NotifyCache.{
  Cache, CallerInfo, max_entries, prune, soonest_key, evict_soonest, make_room, allow,
  notify_cache_key,
}

-- No key is the empty text, which the eviction loop takes for "none found".
abbrev pub Named : Bytes × ℕ → Type 0
Named (key, _) = null key ≡ false

-- The key of a caller is never empty.
notify_cache_key-Named :
    (fields : Bytes → List Bytes) (c : CallerInfo) → null (notify_cache_key fields c) ≡ false
unfolding notify_cache_key
notify_cache_key-Named fields c = ground arith

length-delete-lt :
    (key : Bytes) (c : Cache) → is_some (lookup key c) ≡ true → length (delete key c) < length c
unfolding lookup delete
length-delete-lt key [] h = absurd (cc)
length-delete-lt key ((k, x) ∷ c) h = ground (arith, length-delete-lt key c, length-delete-le key c)

In-lookup : (key : Bytes) (t : ℕ) (c : Cache) → In (key, t) c → is_some (lookup key c) ≡ true
unfolding lookup
In-lookup key t [] h = absurd h
In-lookup key t ((k, x) ∷ c) (inl h) = ground (arith, bytes_eq_iff k key, ap (λ p. p.0) h)
In-lookup key t ((k, x) ∷ c) (inr h) = ground (arith, In-lookup key t c h)

-- What the loop has found: a key with its expiry, no later than any other.
pub record Soonest (key : Bytes) (soonest : ℕ) (c : Cache) (found : Bytes) : Type 0 where
  pub expiry : ℕ
  pub cached : ((found ≡ key) × (expiry ≡ soonest)) ⊎ In (found, expiry) c
  pub first : expiry ≤ soonest
  pub least : All (λ p. expiry ≤ p.1) c
  pub named : null found ≡ false

soonest_key-Soonest :
    (c : Cache) (key : Bytes) (soonest : ℕ)
    → null key ≡ false
    → All Named c
    → Soonest key soonest c (soonest_key c key soonest)
unfolding soonest_key
soonest_key-Soonest [] key soonest h n = record {
  expiry = soonest;
  cached = inl (refl, refl);
  first = omega arith;
  least = tt;
  named = h;
}
soonest_key-Soonest ((k, x) ∷ c) key soonest h n = elim (Bool-cases (ltb x soonest)) [
  | inl sooner ↦
      let s = soonest_key-Soonest c k x n.0 n.1 in
      rw (h, sooner)
        (record {
          expiry = s.expiry;
          cached = elim s.cached [ inl (e, t) ↦ inr (inl (λ i. (e i, t i))) | inr m ↦ inr (inr m) ];
          first = omega (arith, s.first, ltb→lt x soonest sooner);
          least = (s.first, s.least);
          named = s.named;
        })
  | inr later ↦
      let s = soonest_key-Soonest c key soonest h n.1 in
      rw (h, later)
        (record {
          expiry = s.expiry;
          cached = elim s.cached [ inl e ↦ inl e | inr m ↦ inr (inr m) ];
          first = s.first;
          least = (ground (arith, s.first), s.least);
          named = s.named;
        })
]

-- From a cache that is not empty exactly one entry is evicted at least, of a key that expires no
-- later than any other.
pub evict_soonest_lem :
    (k : Bytes) (x : ℕ) (c : Cache)
    → All Named ((k, x) ∷ c)
    → (key : Bytes) × (expiry : ℕ) × (evict_soonest ((k, x) ∷ c) ≡ delete key ((k, x) ∷ c))
      × In (key, expiry) ((k, x) ∷ c)
      × All (λ p. expiry ≤ p.1) ((k, x) ∷ c)
unfolding evict_soonest
evict_soonest_lem k x c n =
    let s = soonest_key-Soonest c k x n.0 n.1 in
    (
      soonest_key c k x,
      s.expiry,
      ground (arith, s.named),
      elim s.cached [ inl (e, t) ↦ inl (λ i. (e i, t i)) | inr m ↦ inr m ],
      (s.first, s.least),
    )

length-evict_soonest :
    (c : Cache) → All Named c → max_entries ≤ length c → length (evict_soonest c) < length c
length-evict_soonest [] n h = absurd (omega arith)
length-evict_soonest ((k, x) ∷ c) n h =
    let (key, expiry, same, cached, least) = evict_soonest_lem k x c n in
    rw same (length-delete-lt key ((k, x) ∷ c) (In-lookup key expiry ((k, x) ∷ c) cached))

length-make_room :
    (key : Bytes) (now : ℕ) (c : Cache)
    → All Named c
    → length c ≤ max_entries
    → lookup key c ≡ none
    → length (make_room key now c) < max_entries
unfolding make_room prune
length-make_room key now c n h new = ground (
  arith,
  length-evict_soonest (prune now c) (All-keep Named _ c n),
  length-keep-le (λ (_, expiry). ltb now expiry) c,
)

-- After any access the cache holds at most 256 entries, if it did before and no key was empty.
pub length-allow :
    (key : Bytes) (ttl now : ℕ) (c : Cache)
    → All Named c
    → length c ≤ max_entries
    → length (allow key ttl now c).0 ≤ max_entries
unfolding allow
length-allow key ttl now c n h = elim (Option-cases (lookup key c)) [
  | inl new ↦
      let c' = make_room key now c in
      ground (
        arith,
        length-make_room key now c n h new,
        length-insert-le key (now + ttl) c',
        length-insert-le key (now + ttl) c,
        new,
      )
  | inr (expiry, old) ↦
      let kept : make_room key now c ≡ c = unfold make_room in ground arith in
      ground (arith, kept, length-insert_old key (now + ttl) expiry c old)
]

make_room-Named :
    (key : Bytes) (now : ℕ) (c : Cache) → All Named c → All Named (make_room key now c)
unfolding make_room prune evict_soonest
make_room-Named key now c n =
    let kept = All-keep Named (λ (_, expiry). ltb now expiry) c n in
    ground (arith, kept, All-delete Named (soonest_key (prune now c) [] 0) (prune now c) kept)

-- An access under a key that is not empty leaves no empty key in the cache.
pub allow-Named :
    (key : Bytes) (ttl now : ℕ) (c : Cache)
    → null key ≡ false
    → All Named c
    → All Named (allow key ttl now c).0
unfolding allow
allow-Named key ttl now c k n =
    let named = λ (j : Bytes) (e : j ≡ key). ap null e ∙ k in
    let old = All-insert Named key (now + ttl) c named n in
    let fresh =
      All-insert Named key (now + ttl) (make_room key now c) named (make_room-Named key now c n) in
    ground arith

-- The accesses of the service: each by some caller at some time, with the configured duration.
pub record Access : Type 0 where
  pub caller : CallerInfo
  pub ttl : ℕ
  pub at : ℕ

pub accesses : (Bytes → List Bytes) → List Access → Cache → Cache
accesses fields [] c = c
accesses fields (a ∷ as') c =
    accesses fields as' (allow (notify_cache_key fields a.caller) a.ttl a.at c).0

-- However callers access secrets, from the empty cache on it never holds more than 256 entries.
pub length-accesses :
    (fields : Bytes → List Bytes) (as' : List Access)
    → length (accesses fields as' []) ≤ max_entries
unfolding accesses
length-accesses fields as' = bounded as' [] tt (omega arith)
  where
    bounded :
        (as' : List Access) (c : Cache)
        → All Named c
        → length c ≤ max_entries
        → length (accesses fields as' c) ≤ max_entries
    bounded [] c n h = h
    bounded (a ∷ as') c n h =
        let key = notify_cache_key fields a.caller in
        bounded as' _ (allow-Named key a.ttl a.at c (notify_cache_key-Named fields a.caller) n)
          (length-allow key a.ttl a.at c n h)
