-- ===== src/Ssh/OpenSsh.antt =====
-- internal/sshagent/key.go: the public key blob of an encrypted `openssh-key-v1` file.
use kpxcd.Prelude.{
  ℕ, zero, suc, ◌+◌, ◌-◌, ◌<◌, ◌^◌, [], ◌∷◌, ◌++◌, Option, none, some, ◌≡◌, ◌≢◌, refl, sym, ap, ◌∙◌,
  true, false, Bytes, codes, length, length-append, take, drop, take-length, drop-length,
  append_assoc, arith, ltb, bytes_eq, bytes_eq_iff, not, if◌then◌else◌, ◌>>=◌,
}
use kpxcd.Ssh.Wire.{encode_string, encode_uint32, decode_uint32, uint32}
use kpxcd.Ssh.Wire.RoundTrip.{decode_uint32-encode_uint32, uint32_id}

-- Behind the length: here the length of the slice is an `int`, which does not wrap.
cut_string : ℕ × Bytes → Option (Bytes × Bytes)
cut_string (n, rest) = if ltb (length rest) n then none else some (take n rest, drop n rest)

unfoldable pub read_ssh_string_from : Bytes → Option (Bytes × Bytes)
unfolding cut_string
read_ssh_string_from s = decode_uint32 s >>= cut_string

abbrev pub magic : Bytes
magic = codes "openssh-key-v1" ++ 0 ∷ []

-- The loop that skips so many strings: `pos` is a position in `raw`.
skip_strings : ℕ → Bytes → ℕ → Option ℕ
skip_strings zero raw pos = some pos
skip_strings (suc n) raw pos = read_ssh_string_from (drop pos raw) >>= λ (_, rest).
    skip_strings n raw (length raw - length rest)

first_blob : Bytes → ℕ → Option Bytes
first_blob raw pos =
    if ltb (length raw - pos) 4
    then none
    else (read_ssh_string_from (drop (pos + 4) raw) >>= λ (blob, _). some blob)

unfoldable pub extract_public_blob : Bytes → Option Bytes
unfolding skip_strings first_blob
extract_public_blob raw =
    if ltb (length raw) (length magic)
    then none
    else if not (bytes_eq (take (length magic) raw) magic)
    then none
    else (skip_strings 3 raw (length magic) >>= λ pos. first_blob raw pos)

cut_string-append : (s rest : Bytes) → cut_string (length s, s ++ rest) ≡ some (s, rest)
unfolding cut_string
cut_string-append s rest =
    rw (take-length s rest, drop-length s rest) (ground (arith, length-append s rest))

-- A string that `encode_string` wrote is read back, whatever follows it.
pub read_ssh_string_from-encode_string :
    (s rest : Bytes)
    → length s < 2 ^ 32
    → read_ssh_string_from (encode_string [] s ++ rest) ≡ some (s, rest)
unfolding read_ssh_string_from encode_string
read_ssh_string_from-encode_string s rest h =
    rw
      (
        append_assoc (encode_uint32 [] (uint32 (length s))) s rest,
        decode_uint32-encode_uint32 (uint32 (length s)) (s ++ rest) (omega arith),
        uint32_id (length s) h,
      )
      (cut_string-append s rest)

skip_strings-append :
    (n : ℕ) (pre s rest : Bytes)
    → length s < 2 ^ 32
    → skip_strings (suc n) (pre ++ (encode_string [] s ++ rest)) (length pre)
      ≡ skip_strings n (pre ++ encode_string [] s ++ rest) (length (pre ++ encode_string [] s))
unfolding skip_strings
skip_strings-append n pre s rest h =
    let q = encode_string [] s in
    let e = append_assoc pre q rest in
    let back : length (pre ++ (q ++ rest)) - length rest ≡ length (pre ++ q) =
      omega (arith, ap length e, length-append (pre ++ q) rest) in
    rw (drop-length pre (q ++ rest), read_ssh_string_from-encode_string s rest h, back, e)

first_blob-append :
    (pre count blob rest : Bytes)
    → length count ≡ 4
    → length blob < 2 ^ 32
    → first_blob (pre ++ (count ++ (encode_string [] blob ++ rest))) (length pre) ≡ some blob
unfolding first_blob
first_blob-append pre count blob rest four h =
    let t = encode_string [] blob ++ rest in
    let at : length pre + 4 ≡ length (pre ++ count) = omega (arith, length-append pre count) in
    let room : ltb (length (pre ++ (count ++ t)) - length pre) 4 ≡ false =
      ground (arith, length-append pre (count ++ t), length-append count t) in
    rw (
      room,
      at,
      sym (append_assoc pre count t),
      drop-length (pre ++ count) t,
      read_ssh_string_from-encode_string blob rest h,
    )

skip_three :
    (m a b c t : Bytes)
    → length a < 2 ^ 32
    → length b < 2 ^ 32
    → length c < 2 ^ 32
    → let A = encode_string [] a in
      let B = encode_string [] b in
      let C = encode_string [] c in
      skip_strings 3 (m ++ (A ++ (B ++ (C ++ t)))) (length m) ≡ some (length (m ++ A ++ B ++ C))
skip_three m a b c t ha hb hc =
    let A = encode_string [] a in
    let B = encode_string [] b in
    let C = encode_string [] c in
    rw
      (
        skip_strings-append 2 m a (B ++ (C ++ t)) ha,
        skip_strings-append 1 (m ++ A) b (C ++ t) hb,
        skip_strings-append 0 (m ++ A ++ B) c t hc,
      )
      (unfold skip_strings in refl)

blob_behind :
    (m a b c count blob rest : Bytes)
    → length a < 2 ^ 32
    → length b < 2 ^ 32
    → length c < 2 ^ 32
    → length count ≡ 4
    → length blob < 2 ^ 32
    → let raw =
        m
        ++ (encode_string [] a
            ++ (encode_string [] b
                ++ (encode_string [] c ++ (count ++ (encode_string [] blob ++ rest))))) in
      (skip_strings 3 raw (length m) >>= λ pos. first_blob raw pos) ≡ some blob
blob_behind m a b c count blob rest ha hb hc four h =
    let A = encode_string [] a in
    let B = encode_string [] b in
    let C = encode_string [] c in
    let t = count ++ (encode_string [] blob ++ rest) in
    rw
      (
        skip_three m a b c t ha hb hc,
        sym (append_assoc m A (B ++ (C ++ t))),
        sym (append_assoc (m ++ A) B (C ++ t)),
        sym (append_assoc (m ++ A ++ B) C t),
      )
      (first_blob-append (m ++ A ++ B ++ C) count blob rest four h)

bytes_eq_refl : (s : Bytes) → bytes_eq s s ≡ true
bytes_eq_refl s = (bytes_eq_iff s s).1 refl

extract-magic :
    (t : Bytes)
    → extract_public_blob (magic ++ t)
      ≡ (skip_strings 3 (magic ++ t) (length magic) >>= λ pos. first_blob (magic ++ t) pos)
unfolding extract_public_blob
extract-magic t =
    let long : ltb (length (magic ++ t)) 15 ≡ false = ground arith in rw (long, bytes_eq_refl magic)

-- The file: the magic, three strings, the number of keys, the first public key, and the rest.
abbrev pub openssh_file : Bytes → Bytes → Bytes → Bytes → Bytes → Bytes → Bytes
openssh_file cipher kdf options count blob rest =
    magic
    ++ (encode_string [] cipher
        ++ (encode_string [] kdf
            ++ (encode_string [] options ++ (count ++ (encode_string [] blob ++ rest)))))

-- From a file with any cipher name, KDF name and KDF options, a four-byte key count and any data
-- behind it, the first public key blob is extracted, as long as each string is shorter than 4 GiB.
pub extract_public_blob-openssh_file :
    (cipher kdf options count blob rest : Bytes)
    → length cipher < 2 ^ 32
    → length kdf < 2 ^ 32
    → length options < 2 ^ 32
    → length count ≡ 4
    → length blob < 2 ^ 32
    → extract_public_blob (openssh_file cipher kdf options count blob rest) ≡ some blob
unfolding extract_public_blob
extract_public_blob-openssh_file cipher kdf options count blob rest hc hk ho four hb =
    extract-magic _ ∙ blob_behind magic cipher kdf options count blob rest hc hk ho four hb

-- A file that does not begin with the magic yields no key.
pub extract_public_blob-magic :
    (raw : Bytes) → take (length magic) raw ≢ magic → extract_public_blob raw ≡ none
unfolding extract_public_blob
extract_public_blob-magic raw h = ground (arith, bytes_eq_iff (take (length magic) raw) magic)
