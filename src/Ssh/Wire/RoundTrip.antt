-- ===== src/Ssh/Wire/RoundTrip.antt =====
-- Reading undoes writing, for numbers, strings and whole messages.

use kpxcd.Prelude.{
  ℕ, ◌+◌, ◌^◌, ◌≤◌, ◌<◌, [], ◌∷◌, ◌++◌, some, ◌≡◌, refl, sym, ap, ◌∙◌, inl, inr, Bytes, length,
  length-append, length-take, take-length, drop-length, take-append-drop, append_assoc, arith, All,
  Option-cases,
}
use kpxcd.Prelude.Results.{ok}
use kpxcd.Ssh.Wire.{
  encode_uint32, decode_uint32, encode_string, decode_string, split_string, read_message,
  write_message, read_body, max_message_len, uint32,
}

-- Every element is a byte.
abbrev pub AreBytes : Bytes → Type 0
AreBytes = All (λ b. b < 256)

pub decode_uint32-encode_uint32 :
    (v : ℕ) (rest : Bytes)
    → v < 2 ^ 32
    → decode_uint32 (encode_uint32 [] v ++ rest) ≡ some (v, rest)
unfolding decode_uint32 encode_uint32
decode_uint32-encode_uint32 v rest h = ap (λ n. some (n, rest)) (omega arith)

pub encode_uint32-append : (buf : Bytes) (v : ℕ) → encode_uint32 buf v ≡ buf ++ encode_uint32 [] v
unfolding encode_uint32
encode_uint32-append buf v = refl

pub encode_string-append : (buf s : Bytes) → encode_string buf s ≡ buf ++ encode_string [] s
unfolding encode_string
encode_string-append buf s =
    rw (encode_uint32-append buf (uint32 (length s))) (append_assoc buf _ s)

split_string-append :
    (s rest : Bytes)
    → length s + length rest < 2 ^ 32
    → split_string (length s, s ++ rest) ≡ some (s, rest)
unfolding split_string
split_string-append s rest h =
    rw (take-length s rest, drop-length s rest) (ground (arith, length-append s rest))

pub uint32_id : (n : ℕ) → n < 2 ^ 32 → uint32 n ≡ n
uint32_id n h = omega arith

pub decode_string-encode_string :
    (s rest : Bytes)
    → length s + length rest < 2 ^ 32
    → decode_string (encode_string [] s ++ rest) ≡ some (s, rest)
unfolding decode_string encode_string
decode_string-encode_string s rest h =
    rw
      (
        append_assoc (encode_uint32 [] (uint32 (length s))) s rest,
        decode_uint32-encode_uint32 (uint32 (length s)) (s ++ rest) (omega arith),
      )
      (rw (uint32_id (length s) (omega arith)) (split_string-append s rest h))

read_body-append :
    (msg rest : Bytes)
    → 0 < length msg
    → length msg ≤ max_message_len
    → read_body (some (length msg, msg ++ rest)) ≡ ok (msg, rest)
unfolding read_body
read_body-append msg rest pos fits =
    rw (take-length msg rest, drop-length msg rest) (ground (arith, length-append msg rest))

-- What is written as one message is read back, with the bytes behind it left, if it is not empty and
-- no longer than 8 MiB.
pub read_message-write_message :
    (msg rest : Bytes)
    → 0 < length msg
    → length msg ≤ max_message_len
    → read_message (write_message msg ++ rest) ≡ ok (msg, rest)
unfolding read_message write_message
read_message-write_message msg rest pos fits =
    rw
      (
        append_assoc (encode_uint32 [] (uint32 (length msg))) msg rest,
        decode_uint32-encode_uint32 (uint32 (length msg)) (msg ++ rest) (omega arith),
      )
      (rw (uint32_id (length msg) (omega arith)) (read_body-append msg rest pos fits))

-- Encoding the number that four bytes stand for gives the bytes.
encode_uint32-decode_uint32 :
    (s : Bytes) {n : ℕ} {rest : Bytes}
    → AreBytes s
    → decode_uint32 s ≡ some (n, rest)
    → (s ≡ encode_uint32 [] n ++ rest) × (n < 2 ^ 32)
unfolding encode_uint32 decode_uint32
encode_uint32-decode_uint32 (a ∷ b ∷ c ∷ d ∷ s) h e = ground arith
encode_uint32-decode_uint32 _ h e = absurd (cc)

read_body_sound :
    (n : ℕ) (s : Bytes) {msg rest : Bytes}
    → read_body (some (n, s)) ≡ ok (msg, rest)
    → (n ≡ length msg) × (s ≡ msg ++ rest) × (0 < length msg) × (length msg ≤ max_message_len)
unfolding read_body
read_body_sound n s e = ground (arith, length-take n s, take-append-drop n s)

-- A message that is read is a written one: its bytes are its length and itself, within the limit.
pub read_message_sound :
    (s : Bytes) {msg rest : Bytes}
    → AreBytes s
    → read_message s ≡ ok (msg, rest)
    → (s ≡ write_message msg ++ rest) × (0 < length msg) × (length msg ≤ max_message_len)
unfolding read_message write_message
read_message_sound s {msg} {rest} h e = elim (Option-cases (decode_uint32 s)) [
  | inl short ↦ absurd (ground arith)
  | inr ((n, t), found) ↦
      let (head, _) = encode_uint32-decode_uint32 s h found in
      let (size, body, pos, fits) =
        read_body_sound n t {msg = msg} {rest = rest} (ap read_body (sym found) ∙ e) in
      (
        cc (
          head,
          size,
          body,
          uint32_id (length msg) (omega arith),
          append_assoc (encode_uint32 [] (length msg)) msg rest,
        ),
        pos,
        fits,
      )
]

length-decode_uint32 :
    (s : Bytes) {n : ℕ} {rest : Bytes} → decode_uint32 s ≡ some (n, rest) → length rest < length s
unfolding decode_uint32
length-decode_uint32 (a ∷ b ∷ c ∷ d ∷ s) e = ground arith
length-decode_uint32 _ e = absurd (cc)

-- Reading a message takes bytes from the stream.
pub length-read_message :
    (s : Bytes) {msg rest : Bytes} → read_message s ≡ ok (msg, rest) → length rest < length s
unfolding read_message read_body
length-read_message s {msg} {rest} e = elim (Option-cases (decode_uint32 s)) [
  | inl short ↦ absurd (ground arith)
  | inr ((n, t), found) ↦
      let (size, body, pos, fits) =
        read_body_sound n t {msg = msg} {rest = rest} (ap read_body (sym found) ∙ e) in
      omega (arith, length-decode_uint32 s found, ap length body, length-append msg rest)
]
