-- ===== src/SecretService/DiffieHellman/Numbers.antt =====
-- Numbers as big-endian bytes and back.
use native.Mathlib.Nat.{pow-zero, pow-suc}
use kpxcd.Prelude.{
  ◌-◌, ◌^◌, ◌<◌, ◌≢◌, ◌↔◌, replicate, length, length-append, length-replicate, ltb, ltb→lt, ap, sym,
  ℕ, zero, suc, ◌+◌, ◌*◌, ◌/◌, ◌%◌, ◌≤◌, [], ◌∷◌, ◌++◌, Bytes, nat_eq, Bool-cases, ◌≡◌, refl, ◌∙◌,
  inl, inr, arith,
}
use kpxcd.SecretService.DiffieHellman.{set_bytes_from, set_bytes, bytes_from, int_bytes}

set_bytes_from-append :
    (value : ℕ) (s : Bytes) (b : ℕ)
    → set_bytes_from value (s ++ b ∷ []) ≡ set_bytes_from value s * 256 + b
unfolding set_bytes_from
set_bytes_from-append value [] b = refl
set_bytes_from-append value (c ∷ s) b = set_bytes_from-append (value * 256 + c) s b

set_bytes_from-bytes_from : (fuel n : ℕ) → n ≤ fuel → set_bytes_from 0 (bytes_from fuel n) ≡ n
unfolding bytes_from set_bytes_from
set_bytes_from-bytes_from zero n h = omega (arith, h)
set_bytes_from-bytes_from (suc fuel) n h = elim (Bool-cases (nat_eq n 0)) [
  | inl small ↦ rw small (ground arith)
  | inr large ↦ rw large (
      set_bytes_from-append 0 (bytes_from fuel (n / 256)) (n % 256)
      ∙ ground (arith, set_bytes_from-bytes_from fuel (n / 256)))
]

-- Reading the bytes of a number gives the number.
pub set_bytes-int_bytes : (n : ℕ) → set_bytes (int_bytes n) ≡ n
unfolding set_bytes int_bytes
set_bytes-int_bytes n = set_bytes_from-bytes_from n n (omega arith)

pow_positive : (k : ℕ) → 1 ≤ 256 ^ k
pow_positive zero = omega (arith, pow-zero 256)
pow_positive (suc k) = omega (arith, pow-suc 256 k, pow_positive k)

length-bytes_from-ge : (fuel n k : ℕ) → n ≤ fuel → 256 ^ k ≤ n → suc k ≤ length (bytes_from fuel n)
unfolding bytes_from
length-bytes_from-ge zero n k h big = absurd (omega (arith, h, big, pow_positive k))
length-bytes_from-ge (suc fuel) n zero h big =
    let whole = length-append (bytes_from fuel (n / 256)) (n % 256 ∷ []) in
    ground (arith, big, pow-zero 256, whole)
length-bytes_from-ge (suc fuel) n (suc k) h big =
    let more = pow_positive (suc k) in
    let rest =
      length-bytes_from-ge fuel (n / 256) k (omega (arith, h, big, more))
        (omega (arith, pow-suc 256 k, big)) in
    let whole = length-append (bytes_from fuel (n / 256)) (n % 256 ∷ []) in
    ground (arith, big, more, rest, whole)

length-bytes_from-le : (fuel n k : ℕ) → n < 256 ^ k → length (bytes_from fuel n) ≤ k
unfolding bytes_from
length-bytes_from-le zero n k h = omega arith
length-bytes_from-le (suc fuel) n zero h =
    let none_left : n ≡ 0 = omega (arith, h, pow-zero 256) in ground arith
length-bytes_from-le (suc fuel) n (suc k) h =
    let rest = length-bytes_from-le fuel (n / 256) k (omega (arith, h, pow-suc 256 k)) in
    let whole = length-append (bytes_from fuel (n / 256)) (n % 256 ∷ []) in
    ground (arith, rest, whole)

-- A number in 128 bytes, with zeros in front.
unfoldable pub padded : ℕ → Bytes
padded n = replicate (128 - length (int_bytes n)) 0 ++ int_bytes n

length-padded : (n : ℕ) → length (padded n) ≡ 128 - length (int_bytes n) + length (int_bytes n)
unfolding padded
length-padded n =
    length-append (replicate (128 - length (int_bytes n)) 0) (int_bytes n)
    ∙ ap (λ l. l + length (int_bytes n)) (length-replicate (128 - length (int_bytes n)) 0)

too_few :
    (n : ℕ)
    → n < 256 ^ 127
    → 128 - length (int_bytes n) + length (int_bytes n) ≢ length (int_bytes n)
unfolding int_bytes
too_few n small same = omega (arith, length-bytes_from-le n n 127 small, same)

padded-filled : (n : ℕ) → 256 ^ 127 ≤ n → padded n ≡ int_bytes n
unfolding padded int_bytes
padded-filled n large =
    let many = length-bytes_from-ge n n 127 (omega arith) large in
    let nothing : 128 - length (bytes_from n n) ≡ 0 = omega (arith, many) in rw nothing refl

-- A number is written alike with zeros in front up to 128 bytes and without them exactly when it
-- needs at least 128 bytes.
pub padded_iff : (n : ℕ) → (padded n ≡ int_bytes n) ↔ (256 ^ 127 ≤ n)
padded_iff n = (
  λ same. elim (Bool-cases (ltb n (256 ^ 127))) [
    | inr large ↦ ground arith
    | inl small ↦
        absurd (too_few n (ltb→lt n (256 ^ 127) small) (sym (length-padded n) ∙ ap length same))
  ],
  padded-filled n,
)
