-- ===== src/Ssh/Wire.antt =====
-- internal/sshagent/protocol.go: the length-prefixed wire format of the agent protocol. A slice is
-- the list of its bytes; where the source returns a nil slice for a failed parse, the result is
-- `none`. A reader is the bytes that it will deliver before the end of the stream.
pub mod RoundTrip
pub mod Identities
use kpxcd.Prelude.{
  ℕ, ◌*◌, ◌+◌, ◌/◌, ◌%◌, ◌^◌, List, [], ◌∷◌, ◌++◌, Option, none, some, Bytes, length, take, drop,
  ltb, nat_eq, if◌then◌else◌, ◌>>=◌,
}
use kpxcd.Prelude.Results.{Result, ok, err}

-- The message types of the protocol.
abbrev pub agent_failure : ℕ
agent_failure = 5

abbrev pub agent_success : ℕ
agent_success = 6

abbrev pub request_identities : ℕ
request_identities = 11

abbrev pub identities_answer : ℕ
identities_answer = 12

abbrev pub sign_request : ℕ
sign_request = 13

abbrev pub sign_response : ℕ
sign_response = 14

abbrev pub add_identity_request : ℕ
add_identity_request = 17

abbrev pub remove_identity_request : ℕ
remove_identity_request = 18

abbrev pub remove_all_identities_request : ℕ
remove_all_identities_request = 19

abbrev pub add_id_constrained_request : ℕ
add_id_constrained_request = 25

abbrev pub extension_request : ℕ
extension_request = 27

abbrev pub remove_all_rsa_identities_request : ℕ
remove_all_rsa_identities_request = 9

-- 8 MiB.
abbrev pub max_message_len : ℕ
max_message_len = 8 * 1024 * 1024

-- The conversion `uint32(n)`.
abbrev pub uint32 : ℕ → ℕ
uint32 n = n % 2 ^ 32

unfoldable pub encode_uint32 : Bytes → ℕ → Bytes
encode_uint32 buf v = buf ++ v / 2 ^ 24 % 256 ∷ v / 2 ^ 16 % 256 ∷ v / 2 ^ 8 % 256 ∷ v % 256 ∷ []

unfoldable pub decode_uint32 : Bytes → Option (ℕ × Bytes)
decode_uint32 (a ∷ b ∷ c ∷ d ∷ rest) = some (a * 2 ^ 24 + b * 2 ^ 16 + c * 2 ^ 8 + d, rest)
decode_uint32 _ = none

unfoldable pub encode_string : Bytes → Bytes → Bytes
encode_string buf s = encode_uint32 buf (uint32 (length s)) ++ s

-- The rest of `decode_string` behind the length; the length of a slice is converted to 32 bits.
split_string : ℕ × Bytes → Option (Bytes × Bytes)
split_string (n, rest) =
    if ltb (uint32 (length rest)) n then none else some (take n rest, drop n rest)

unfoldable pub decode_string : Bytes → Option (Bytes × Bytes)
unfolding split_string
decode_string s = decode_uint32 s >>= split_string

unfoldable pub decode_uint8 : Bytes → Option (ℕ × Bytes)
decode_uint8 [] = none
decode_uint8 (b ∷ rest) = some (b, rest)

-- A message of no bytes has type 0.
unfoldable pub decode_message_type : Bytes → ℕ × Bytes
decode_message_type [] = (0, [])
decode_message_type (b ∷ rest) = (b, rest)

pub data ReadError : Type 0 where
  end_of_stream too_large zero_length : ReadError

-- What follows the header: the message and what stays in the stream.
read_body : Option (ℕ × Bytes) → Result ReadError (Bytes × Bytes)
read_body none = err end_of_stream
read_body (some (n, rest)) =
    if ltb max_message_len n
    then err too_large
    else if nat_eq n 0
    then err zero_length
    else if ltb (length rest) n
    then err end_of_stream
    else ok (take n rest, drop n rest)

unfoldable pub read_message : Bytes → Result ReadError (Bytes × Bytes)
unfolding read_body
read_message s = read_body (decode_uint32 s)

-- The bytes that are written.
unfoldable pub write_message : Bytes → Bytes
write_message msg = encode_uint32 [] (uint32 (length msg)) ++ msg

-- The loop over the blobs, with the comment `""` behind the end of the comments.
unfoldable pub encode_identities : Bytes → List Bytes → List Bytes → Bytes
encode_identities buf [] comments = buf
encode_identities buf (blob ∷ blobs) [] =
    encode_identities (encode_string (encode_string buf blob) []) blobs []
encode_identities buf (blob ∷ blobs) (comment ∷ comments) =
    encode_identities (encode_string (encode_string buf blob) comment) blobs comments

unfoldable pub encode_identities_answer : List Bytes → List Bytes → Bytes
unfolding encode_identities
encode_identities_answer blobs comments =
    encode_identities (encode_uint32 (identities_answer ∷ []) (uint32 (length blobs))) blobs
      comments
