-- ===== src/SecretService/Session/RoundTrip.antt =====
-- Padding and encryption undone, and what a padded text is.
use native.Mathlib.Nat.{mod-lt}
use kpxcd.Prelude.{
  ℕ, zero, suc, ◌+◌, ◌-◌, ◌%◌, ◌<◌, true, false, [], ◌∷◌, ◌++◌, Bytes, length, take, drop,
  replicate, null, ltb, nat_eq, Bool-cases, inl, inr, ◌≡◌, refl, sym, ap, subst, ◌∙◌, arith,
  length-append, length-replicate, take-length, drop-length, take-append-drop, length-drop,
}
use kpxcd.Prelude.Results.{ok, err}
use kpxcd.SecretService.Session.{
  pkcs7_pad, pkcs7_unpad, last_or, all_bytes, Session, Algorithm, closed_session, plain,
  dh_ietf1024_sha256_aes128_cbc, Cipher, encrypt, decrypt, close,
}

last_or-replicate : (n b d : ℕ) (s : Bytes) → last_or d (s ++ replicate (suc n) b) ≡ b
unfolding last_or
last_or-replicate zero b d [] = refl
last_or-replicate (suc n) b d [] = last_or-replicate n b b []
last_or-replicate n b d (c ∷ s) = last_or-replicate n b c s

all_bytes-replicate : (n b : ℕ) → all_bytes b (replicate n b) ≡ true
unfolding all_bytes
all_bytes-replicate zero b = refl
all_bytes-replicate (suc n) b = ground (arith, all_bytes-replicate n b)

all_bytes-eq : (b : ℕ) (s : Bytes) → all_bytes b s ≡ true → s ≡ replicate (length s) b
unfolding all_bytes
all_bytes-eq b [] h = refl
all_bytes-eq b (c ∷ s) h = ground (arith, all_bytes-eq b s)

null-append : (s : Bytes) (b : ℕ) (t : Bytes) → null (s ++ b ∷ t) ≡ false
null-append [] b t = refl
null-append (c ∷ s) b t = refl

unpad_padding :
    (text : Bytes) (k : ℕ) → suc k < 256 → pkcs7_unpad (text ++ replicate (suc k) (suc k)) ≡ ok text
unfolding pkcs7_unpad
unpad_padding text k small =
    let padding = replicate (suc k) (suc k) in
    let size = length-append text padding in
    let at : length (text ++ padding) - suc k ≡ length text =
      omega (arith, size, length-replicate (suc k) (suc k)) in
    let low : suc k % 256 ≡ suc k = omega arith in
    let room : ltb (length (text ++ padding)) (suc k) ≡ false =
      ground (arith, size, length-replicate (suc k) (suc k)) in
    rw
      (
        last_or-replicate k (suc k) 0 text,
        null-append text (suc k) (replicate k (suc k)),
        at,
        low,
        room,
        drop-length text padding,
        all_bytes-replicate (suc k) (suc k),
        take-length text padding,
      )
      (ground arith)

fills_block : (n size : ℕ) → 0 < size → (n + (size - n % size)) % size ≡ 0
fills_block n size pos = grind arith

-- Padding is never empty, fills up the last block and is undone by unpadding, for every block size
-- up to 255.
pub pkcs7_unpad-pad :
    (text : Bytes) (size : ℕ)
    → 0 < size
    → size < 256
    → (pkcs7_unpad (pkcs7_pad text size) ≡ ok text)
      × (length (pkcs7_pad text size) % size ≡ 0)
      × (length text < length (pkcs7_pad text size))
unfolding pkcs7_pad
pkcs7_unpad-pad text size pos small =
    let n = length text in
    let k = size - n % size - 1 in
    let below = mod-lt n pos in
    let some_pad : size - n % size ≡ suc k = omega arith in
    let byte : suc k % 256 ≡ suc k = omega arith in
    let total : length (text ++ replicate (suc k) (suc k)) ≡ n + (size - n % size) =
      omega
        (arith, length-append text (replicate (suc k) (suc k)), length-replicate (suc k) (suc k)) in
    rw (some_pad, byte)
      (
        unpad_padding text k (omega arith),
        ap (λ m. m % size) total ∙ fills_block n size pos,
        omega arith,
      )

null-positive : (s : Bytes) → 0 < length s → null s ≡ false
null-positive [] h = ground arith
null-positive (b ∷ s) h = refl

-- Encrypting and decrypting in one session that is open and has a key that AES takes gives every
-- secret back, whatever the random vector, for both algorithms.
pub decrypt-encrypt_session :
    (c : Cipher) (s : Session) (random text : Bytes)
    → s.closed ≡ false
    → null s.key ≡ false
    → c.accepts s.key ≡ true
    → (iv : Bytes) × (sent : Bytes) × (encrypt c s random text ≡ ok (iv, sent))
      × (decrypt c s iv sent ≡ ok text)
unfolding encrypt decrypt
decrypt-encrypt_session c s random text open' key good = by_algorithm s.alg refl
  where
    by_algorithm :
        (a : Algorithm)
        → s.alg ≡ a
        → (iv : Bytes) × (sent : Bytes) × (encrypt c s random text ≡ ok (iv, sent))
          × (decrypt c s iv sent ≡ ok text)
    by_algorithm plain e = ([], text, rw e refl, rw e refl)
    by_algorithm dh_ietf1024_sha256_aes128_cbc e =
        let padded = pkcs7_pad text 16 in
        let sent = c.encrypt s.key random padded in
        let pad = pkcs7_unpad-pad text 16 (ground arith) (ground arith) in
        let size = c.length-encrypt s.key random padded in
        let undo = c.decrypt-encrypt s.key random padded (pad.1) in
        let whole : length sent % 16 ≡ 0 = ap (λ n. n % 16) size ∙ pad.1 in
        let some_byte : null sent ≡ false = null-positive sent (omega (arith, size, pad.2)) in
        let test : nat_eq (length sent % 16) 0 ≡ true = rw whole refl in
        (
          random,
          sent,
          rw (e, key, open', good) refl,
          rw (e, key, open', good, some_byte, test, undo) (pad.0),
        )

-- A closed session with a key neither encrypts nor decrypts.
pub closed_session_lem :
    (c : Cipher) (s : Session) (random iv text : Bytes)
    → s.alg ≡ dh_ietf1024_sha256_aes128_cbc
    → null s.key ≡ false
    → (encrypt c (close s) random text ≡ err closed_session)
      × (decrypt c (close s) iv text ≡ err closed_session)
unfolding encrypt decrypt close
closed_session_lem c s random iv text dh key = (ground arith, ground arith)

-- What unpadding accepts: the text, then the pad byte as often as it says, at least once.
pub pkcs7_unpad_sound :
    (padded text : Bytes)
    → pkcs7_unpad padded ≡ ok text
    → (n : ℕ) × (0 < n) × (padded ≡ text ++ replicate n (n % 256))
unfolding pkcs7_unpad
pkcs7_unpad_sound padded text h =
    let n = last_or 0 padded in
    let rest = length padded - n in
    let split = take-append-drop rest padded in
    let checked_bytes : all_bytes (n % 256) (drop rest padded) ≡ true = ground arith in
    let front : take rest padded ≡ text = ground arith in
    let count : length (drop rest padded) ≡ n = ground (arith, length-drop rest padded) in
    let back = all_bytes-eq (n % 256) (drop rest padded) checked_bytes in
    (n, ground arith, cc (split, front, back, count))

-- What an open session has encrypted it decrypts again.
pub decrypt-encrypted :
    (c : Cipher) (s : Session) (random text : Bytes) (sent : Bytes × Bytes)
    → s.closed ≡ false
    → encrypt c s random text ≡ ok sent
    → decrypt c s sent.0 sent.1 ≡ ok text
unfolding encrypt decrypt
decrypt-encrypted c s random text sent open' done = by_algorithm s.alg refl
  where
    by_algorithm : (a : Algorithm) → s.alg ≡ a → decrypt c s sent.0 sent.1 ≡ ok text
    by_algorithm plain e = let d = rw e at (done) in rw e (ground arith)
    by_algorithm dh_ietf1024_sha256_aes128_cbc e = elim (Bool-cases (null s.key)) [
      | inl missing ↦ let d = rw (e, missing) at (done) in absurd (cc)
      | inr key ↦ elim (Bool-cases (c.accepts s.key)) [
        | inr bad ↦ let d = rw (e, key, open', bad) at (done) in absurd (cc)
        | inl good ↦
            let (iv, value, here, back) = decrypt-encrypt_session c s random text open' key good in
            let same : ok sent ≡ ok (iv, value) = sym done ∙ here in
            let pair : (iv, value) ≡ sent = cc in
            subst (λ p. decrypt c s p.0 p.1 ≡ ok text) pair back
      ]
    ]
