-- ===== src/SecretService/NotifyCache.antt =====
-- internal/secretservice/notifycache.go, with the cache key of access.go: which accesses to a
-- secret are announced. Times and durations are numbers of nanoseconds; a duration that is not
-- positive is 0. The clock is an argument.
pub mod Bound
pub mod Suppression
use kpxcd.Prelude.{
  ℕ, ◌+◌, Bool, true, false, not, ◌&&◌, ◌||◌, List, [], ◌∷◌, ◌++◌, Option, none, some, Bytes, codes,
  length, keep, null, lookup, insert, delete, bytes_Eq, ltb, leb, nat_eq, is_some, if◌then◌else◌,
}

pub record CallerInfo : Type 0 where
  pub sender : Bytes
  pub pid : ℕ
  pub uid : ℕ
  pub exe : Bytes
  pub command : Bytes

-- `fields` is `strings.Fields`.
sender_key : CallerInfo → Bytes
sender_key c = if null c.sender then codes "unknown" else codes "sender:" ++ c.sender

command_key : CallerInfo → List Bytes → Bytes
command_key c [] = sender_key c
command_key c (first ∷ _) = codes "cmd:" ++ first

unfoldable pub notify_cache_key : (Bytes → List Bytes) → CallerInfo → Bytes
unfolding command_key sender_key
notify_cache_key fields c =
    if not (null c.exe)
    then codes "exe:" ++ c.exe
    else if not (null c.command)
    then command_key c (fields c.command)
    else sender_key c

abbrev pub max_entries : ℕ
max_entries = 256

-- From a cache key to the time at which it expires.
abbrev pub Cache : Type 0
Cache = List (Bytes × ℕ)

unfoldable pub prune : ℕ → Cache → Cache
prune now c = keep (λ (_, expiry). ltb now expiry) c

-- The loop over the entries: the key found so far, empty at the start, and its expiry.
soonest_key : Cache → Bytes → ℕ → Bytes
soonest_key [] key soonest = key
soonest_key ((k, expiry) ∷ c) key soonest =
    let sooner = null key || ltb expiry soonest in
    soonest_key c (if sooner then k else key) (if sooner then expiry else soonest)

unfoldable pub evict_soonest : Cache → Cache
unfolding soonest_key
evict_soonest c = let key = soonest_key c [] 0 in if null key then c else delete key c

-- Room for a key that is not cached.
make_room : Bytes → ℕ → Cache → Cache
make_room key now c =
    if not (is_some (lookup key c)) && leb max_entries (length c)
    then (let pruned = prune now c in
        if leb max_entries (length pruned) then evict_soonest pruned else pruned)
    else c

is_fresh : Option ℕ → ℕ → Bool
is_fresh none now = false
is_fresh (some expiry) now = ltb now expiry

-- The cache after the access, and whether to notify.
unfoldable pub allow : Bytes → ℕ → ℕ → Cache → Cache × Bool
unfolding make_room is_fresh
allow key ttl now c =
    if nat_eq ttl 0
    then (c, true)
    else if is_fresh (lookup key c) now
    then (insert key (now + ttl) c, false)
    else (insert key (now + ttl) (make_room key now c), true)
