-- ===== src/SecretService/Paths.antt =====
-- internal/secretservice/item.go and service.go: the object paths of the Secret Service.
pub mod Elements
pub mod Numbers
use kpxcd.Prelude.{
  ℕ, zero, suc, ◌+◌, ◌/◌, ◌%◌, Bool, true, false, ◌&&◌, ◌||◌, [], ◌∷◌, ◌++◌, map, Bytes, codes,
  null, leb, nat_eq, if◌then◌else◌,
}
use kpxcd.Keepass.{Entry}
use kpxcd.SecretService.Write.{entry_uuid_string}

abbrev pub service_path : Bytes
service_path = codes "/org/freedesktop/secrets"

abbrev pub collection_prefix : Bytes
collection_prefix = service_path ++ codes "/collection/"

unfoldable pub in_range : ℕ → ℕ → ℕ → Bool
in_range low high c = leb low c && leb c high

unfoldable pub is_digit : ℕ → Bool
unfolding in_range
is_digit c = in_range b'0' b'9' c

unfoldable pub is_safe : ℕ → Bool
unfolding in_range is_digit
is_safe c = in_range b'a' b'z' c || (in_range b'A' b'Z' c || (is_digit c || nat_eq c b'_'))

-- The loop over the bytes of the name.
unfoldable pub replace_unsafe : Bytes → Bytes
replace_unsafe [] = []
replace_unsafe (c ∷ s) = (if is_safe c then c else b'_') ∷ replace_unsafe s

-- What follows the loop.
unfoldable pub guard_first : Bytes → Bytes
guard_first [] = codes "_"
guard_first (c ∷ s) = if is_digit c then b'_' ∷ c ∷ s else c ∷ s

unfoldable pub sanitize_collection_name : Bytes → Bytes
unfolding replace_unsafe guard_first
sanitize_collection_name name = guard_first (replace_unsafe name)

unfoldable pub collection_path : Bytes → Bytes
collection_path name = collection_prefix ++ sanitize_collection_name name

unfoldable pub item_path_for_entry : Bytes → Entry → Bytes
item_path_for_entry name entry =
    collection_prefix ++ (sanitize_collection_name name ++ codes "/" ++ entry_uuid_string entry)

unfoldable pub alias_path : Bytes → Bytes
alias_path alias = service_path ++ codes "/aliases/" ++ alias

-- The digits of a number in base 10, most significant first; a number has at most as many digits
-- as its value and one.
unfoldable pub digits_from : ℕ → ℕ → Bytes
digits_from zero n = []
digits_from (suc fuel) n =
    let front = digits_from fuel (n / 10) in
    (if nat_eq (n / 10) 0 then [] else front) ++ (b'0' + n % 10) ∷ []

-- The verb `%d`.
unfoldable pub decimal : ℕ → Bytes
unfolding digits_from
decimal n = digits_from (suc n) n

unfoldable pub session_path : ℕ → Bytes
session_path id = service_path ++ codes "/session/s" ++ decimal id

unfoldable pub prompt_path : ℕ → Bytes
prompt_path id = service_path ++ codes "/prompt/p" ++ decimal id
