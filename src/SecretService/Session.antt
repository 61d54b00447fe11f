-- ===== src/SecretService/Session.antt =====
-- internal/secretservice/session.go: the padding of plaintexts and the two kinds of session. AES
-- in CBC mode is the record `Cipher`, over keys, initial vectors and texts of whole blocks;
-- random bytes are an argument.
pub mod RoundTrip
use kpxcd.Prelude.{
  ℕ, zero, suc, ◌+◌, ◌-◌, ◌%◌, ◌≤◌, Bool, true, false, not, ◌||◌, List, [], ◌∷◌, ◌++◌, Option, none,
  some, Bytes, length, take, drop, replicate, null, ltb, nat_eq, if◌then◌else◌, ◌≡◌,
}
use kpxcd.Prelude.Results.{Result, ok, err}

-- `byte(padLen)` keeps the low eight bits.
unfoldable pub pkcs7_pad : Bytes → ℕ → Bytes
pkcs7_pad text block_size =
    let pad_len = block_size - length text % block_size in text ++ replicate pad_len (pad_len % 256)

-- The last byte of a text that is not empty.
last_or : ℕ → Bytes → ℕ
last_or d [] = d
last_or d (b ∷ s) = last_or b s

-- The loop over the padding.
all_bytes : ℕ → Bytes → Bool
all_bytes n [] = true
all_bytes n (b ∷ s) = if nat_eq b n then all_bytes n s else false

pub data SessionError : Type 0 where
  no_key closed_session bad_cipher bad_length empty_text bad_padding bad_padding_byte : SessionError

unfoldable pub pkcs7_unpad : Bytes → Result SessionError Bytes
unfolding last_or all_bytes
pkcs7_unpad text =
    let pad_len = last_or 0 text in
    let rest = length text - pad_len in
    if null text
    then err empty_text
    else if nat_eq pad_len 0 || ltb (length text) pad_len
    then err bad_padding
    else if all_bytes (pad_len % 256) (drop rest text)
    then ok (take rest text)
    else err bad_padding_byte

pub data Algorithm : Type 0 where
  plain dh_ietf1024_sha256_aes128_cbc : Algorithm

pub record Session : Type 0 where
  pub path : Bytes
  pub alg : Algorithm
  pub key : Bytes
  pub closed : Bool

unfoldable pub new_plain_session : Bytes → Session
new_plain_session path = record { path = path; alg = plain; key = []; closed = false }

unfoldable pub new_encrypted_session : Bytes → Bytes → Session
new_encrypted_session path key = record {
  path = path;
  alg = dh_ietf1024_sha256_aes128_cbc;
  key = key;
  closed = false;
}

unfoldable pub close : Session → Session
close s = record s { closed = true }

abbrev pub block_size : ℕ
block_size = 16

-- Go's `crypto/aes` and `crypto/cipher`: `aes.NewCipher` takes keys of some lengths; encryption
-- keeps the length, and decryption under the same key and vector undoes it on whole blocks.
pub record Cipher : Type 0 where
  pub accepts : Bytes → Bool
  pub encrypt : Bytes → Bytes → Bytes → Bytes
  pub decrypt : Bytes → Bytes → Bytes → Bytes
  pub length-encrypt : (key iv text : Bytes) → length (encrypt key iv text) ≡ length text
  pub decrypt-encrypt :
      (key iv text : Bytes)
      → length text % block_size ≡ 0
      → decrypt key iv (encrypt key iv text) ≡ text

module _ (c : Cipher) where
  -- The checks that both directions make first, in their order.
  checked {ℓ} : {A : Type ℓ} → Session → Result SessionError A → Result SessionError A
  checked s r =
      if null s.key
      then err no_key
      else if s.closed
      then err closed_session
      else if c.accepts s.key
      then r
      else err bad_cipher

  -- The vector and the ciphertext; `random` is what the random source delivers.
  unfoldable pub encrypt : Session → Bytes → Bytes → Result SessionError (Bytes × Bytes)
  unfolding checked
  encrypt s random text = elim s.alg [
    | plain ↦ ok ([], text)
    | dh_ietf1024_sha256_aes128_cbc ↦
        checked s (ok (random, c.encrypt s.key random (pkcs7_pad text block_size)))
  ]

  unfoldable pub decrypt : Session → Bytes → Bytes → Result SessionError Bytes
  unfolding checked
  decrypt s iv text = elim s.alg [
    | plain ↦ ok text
    | dh_ietf1024_sha256_aes128_cbc ↦ checked s (
        if null text || not (nat_eq (length text % block_size) 0)
        then err bad_length
        else pkcs7_unpad (c.decrypt s.key iv text))
  ]
