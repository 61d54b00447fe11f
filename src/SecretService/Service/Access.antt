-- ===== src/SecretService/Service/Access.antt =====
-- internal/secretservice/access.go: who asks for a secret, whether he may have it, and whether the
-- user is told. The message bus, /proc, polkit and the clock are parameters.
use kpxcd.Prelude.{
  ℕ, zero, suc, ◌+◌, ◌-◌, ◌*◌, ◌^◌, ◌%◌, Bool, true, false, not, List, [], ◌∷◌, map, Option, none,
  some, ◌>>=◌, Bytes, codes, length, drop, null, ltb, leb, nat_eq, if◌then◌else◌,
}
use kpxcd.SecretService.NotifyCache.{CallerInfo, allow, notify_cache_key}
use kpxcd.SecretService.Paths.{is_digit}
use kpxcd.SecretService.Service.{SecretService}

-- What the bus and /proc say; `none` is a failed call. The last two are `filepath.Base` and
-- `strings.Fields`.
pub record Bus : Type 0 where
  pub get_connection_unix_process_id : Bytes → Option ℕ
  pub get_connection_unix_user : Bytes → Option ℕ
  pub exe : ℕ → Option Bytes
  pub cmdline : ℕ → Option Bytes
  pub stat : ℕ → Option Bytes
  pub base : Bytes → Bytes
  pub fields : Bytes → List Bytes

-- `bytes.TrimRight` with the byte zero.
unfoldable pub trim_zeros : Bytes → Bytes
trim_zeros [] = []
trim_zeros (b ∷ s) =
    let rest = trim_zeros s in if nat_eq b 0 then (if null rest then [] else b ∷ rest) else b ∷ rest

unfoldable pub space_for_zero : ℕ → ℕ
space_for_zero b = if nat_eq b 0 then b' ' else b

text_or_empty : Option Bytes → Bytes
text_or_empty none = []
text_or_empty (some s) = s

unfoldable pub command_line : Option Bytes → Bytes
unfolding trim_zeros
command_line none = []
command_line (some s) = map space_for_zero (trim_zeros s)

unfoldable pub with_process : Bus → Option ℕ → CallerInfo → CallerInfo
unfolding command_line text_or_empty
with_process bus none info = info
with_process bus (some pid) info = record info {
  pid = pid;
  exe = text_or_empty (bus.exe pid);
  command = command_line (bus.cmdline pid);
}

unfoldable pub with_user : Option ℕ → CallerInfo → CallerInfo
with_user none info = info
with_user (some uid) info = record info { uid = uid }

-- `none` stands for a service without a connection.
unfoldable pub caller_info : Option Bus → Bytes → CallerInfo
unfolding with_process with_user
caller_info conn sender =
    let info : CallerInfo = record { sender = sender; pid = 0; uid = 0; exe = []; command = [] } in
    elim conn [
      | none ↦ info
      | some bus ↦
          if null sender
          then info
          else with_user (bus.get_connection_unix_user sender)
              (with_process bus (bus.get_connection_unix_process_id sender) info)
    ]

sender_name : CallerInfo → Bytes
sender_name c = if null c.sender then codes "unknown process" else c.sender

first_field : Bus → CallerInfo → List Bytes → Bytes
first_field bus c [] = sender_name c
first_field bus c (first ∷ _) = bus.base first

unfoldable pub app_name : Bus → CallerInfo → Bytes
unfolding sender_name first_field
app_name bus c =
    if not (null c.exe)
    then bus.base c.exe
    else if not (null c.command)
    then first_field bus c (bus.fields c.command)
    else sender_name c

-- `strings.LastIndex` of one byte.
unfoldable pub last_index : Bytes → ℕ → Option ℕ
last_index [] c = none
last_index (b ∷ s) c = elim (last_index s c) [
  | some i ↦ some (suc i)
  | none ↦ if nat_eq b c then some 0 else none
]

unfoldable pub parse_digits : ℕ → Bytes → Option ℕ
parse_digits n [] = some n
parse_digits n (b ∷ s) =
    let rest = parse_digits (n * 10 + (b - b'0')) s in if is_digit b then rest else none

-- `strconv.ParseUint` with base 10 and 64 bits.
unfoldable pub parse_uint : Bytes → Option ℕ
unfolding parse_digits
parse_uint s =
    if null s then none else (parse_digits 0 s >>= λ n. if ltb n (2 ^ 64) then some n else none)

unfoldable pub nth : List Bytes → ℕ → Option Bytes
nth [] i = none
nth (s ∷ ss) zero = some s
nth (s ∷ ss) (suc i) = nth ss i

unfoldable pub proc_start_time : Bus → ℕ → Option ℕ
unfolding last_index parse_uint nth
proc_start_time bus pid = bus.stat pid >>= λ stat. last_index stat b')' >>= λ end_comm.
    if leb (length stat) (end_comm + 2)
    then none
    else (nth (bus.fields (drop (end_comm + 2) stat)) 19 >>= parse_uint)

pub record PolkitSubject : Type 0 where
  pub pid : ℕ
  -- The 32 bits of the number that is sent.
  pub uid : Option ℕ
  pub start_time : Option ℕ

-- `check` is the call of CheckAuthorization: `none` if it fails, and within it `none` for an answer
-- that cannot be decoded, else whether the action is authorized.
pub record Polkit : Type 0 where
  pub connects : Bool
  pub check : PolkitSubject → Bytes → Option (Option Bool)

pub data AccessError : Type 0 where
  caller_unknown polkit_unavailable polkit_undecodable polkit_denied : AccessError

abbrev pub action_get_entry_secret : Bytes
action_get_entry_secret = codes "org.keepassxc.daemon.get-entry.secret"

unfoldable pub subject : Bus → CallerInfo → PolkitSubject
subject bus caller = record {
  pid = caller.pid;
  uid = (if nat_eq caller.uid 0 then none else some (caller.uid % 2 ^ 32));
  start_time = proc_start_time bus caller.pid;
}

-- `none` is Go's nil error.
unfoldable pub check_polkit_authorization : Polkit → Bus → CallerInfo → Bytes → Option AccessError
unfolding subject
check_polkit_authorization polkit bus caller action =
    if polkit.connects
    then elim (polkit.check (subject bus caller) action) [
      | none ↦ some polkit_unavailable
      | some none ↦ some polkit_undecodable
      | some (some true) ↦ none
      | some (some false) ↦ some polkit_denied
    ]
    else some polkit_unavailable

unfoldable pub authorize_secret_access :
    Polkit → Bus → SecretService → CallerInfo → Option AccessError
authorize_secret_access polkit bus ss caller =
    if not (ss.config).require_confirmation
    then none
    else if nat_eq caller.pid 0
    then some caller_unknown
    else check_polkit_authorization polkit bus caller action_get_entry_secret

-- Seconds as a 64-bit signed number of nanoseconds; one that is not positive is 0.
unfoldable pub nanoseconds : ℕ → ℕ
nanoseconds s = let d = s * 1000000000 % 2 ^ 64 in if ltb d (2 ^ 63) then d else 0

-- The service with its cache, and whether a notification is sent.
unfoldable pub notify_secret_access : Bus → ℕ → CallerInfo → SecretService → SecretService × Bool
unfolding nanoseconds
notify_secret_access bus now caller ss =
    if (ss.config).notify_on_access
    then (let allowed =
          allow (notify_cache_key bus.fields caller) (nanoseconds (ss.config).notify_cache_ttl) now
            ss.notify_cache in
        (record ss { notify_cache = allowed.0 }, allowed.1))
    else (ss, false)
