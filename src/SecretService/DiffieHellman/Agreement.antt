-- ===== src/SecretService/DiffieHellman/Agreement.antt =====
-- The key exchange: both sides have the same key, and the private key's range.
use native.Mathlib.Nat.{
  add-mul-mod_self_left, mod-add-div, add-mul, pow-zero, pow-suc, mul_comm, mul_assoc, mod-lt,
}
use kpxcd.Prelude.{
  ℕ, zero, suc, ◌+◌, ◌-◌, ◌*◌, ◌/◌, ◌%◌, ◌^◌, ◌≤◌, ◌<◌, Bytes, ◌≡◌, ltb→lt, refl, sym, ap, ◌∙◌,
  arith,
}
use kpxcd.SecretService.DiffieHellman.{
  exp, int_bytes, set_hex, dh_prime, private_key, generate_dh_key_pair, set_bytes,
}

mul-interchange : (a b c d : ℕ) → a * b * (c * d) ≡ a * c * (b * d)
mul-interchange a b c d =
    mul_assoc a b (c * d)
    ∙ ap (λ x. a * x) (sym (mul_assoc b c d) ∙ ap (λ x. x * d) (mul_comm b c) ∙ mul_assoc c b d)
    ∙ sym (mul_assoc a c (b * d))

mul-mod : (a b p : ℕ) → a % p * b % p ≡ a * b % p
mul-mod a b p =
    let split : a % p * b + p * (a / p * b) ≡ a * b =
      ap (λ x. a % p * b + x) (sym (mul_assoc p (a / p) b))
      ∙ sym (add-mul (a % p) (p * (a / p)) b)
      ∙ ap (λ x. x * b) (mod-add-div a p) in
    sym (add-mul-mod_self_left (a % p * b) p (a / p * b)) ∙ ap (λ x. x % p) split

pow-mod : (x n p : ℕ) → (x % p) ^ n % p ≡ x ^ n % p
pow-mod x zero p = ap (λ y. y % p) (pow-zero (x % p) ∙ sym (pow-zero x))
pow-mod x (suc n) p =
    rw (pow-suc (x % p) n, pow-suc x n)
      (sym (mul-mod ((x % p) ^ n) (x % p) p)
        ∙ ap (λ y. y * (x % p) % p) (pow-mod x n p)
        ∙ mul-mod (x ^ n) (x % p) p
        ∙ ap (λ y. y % p) (mul_comm (x ^ n) (x % p))
        ∙ mul-mod x (x ^ n) p
        ∙ ap (λ y. y % p) (mul_comm x (x ^ n)))

mul-pow : (x y n : ℕ) → (x * y) ^ n ≡ x ^ n * y ^ n
mul-pow x y zero = rw (pow-zero (x * y), pow-zero x, pow-zero y) refl
mul-pow x y (suc n) =
    rw (pow-suc (x * y) n, pow-suc x n, pow-suc y n, mul-pow x y n)
      (mul-interchange (x ^ n) (y ^ n) x y)

one-pow : (n : ℕ) → 1 ^ n ≡ 1
one-pow zero = pow-zero 1
one-pow (suc n) = omega (arith, pow-suc 1 n, one-pow n)

pow-pow : (x m n : ℕ) → (x ^ m) ^ n ≡ (x ^ n) ^ m
pow-pow x m zero = rw (pow-zero (x ^ m), pow-zero x, one-pow m) refl
pow-pow x m (suc n) = rw (pow-suc (x ^ m) n, pow-suc x n, mul-pow (x ^ n) x m, pow-pow x m n) refl

prime_large : 2 < dh_prime
unfolding dh_prime set_hex
prime_large = ltb→lt 2 dh_prime refl

exp_agree : (x m n p : ℕ) → exp (exp x m p) n p ≡ exp (exp x n p) m p
unfolding exp
exp_agree x m n p =
    pow-mod (x ^ m) n p ∙ ap (λ y. y % p) (pow-pow x m n) ∙ sym (pow-mod (x ^ n) m p)

-- If both sides have made a key pair from any random bytes, then raising the other side's public
-- key to one's own private key gives the same secret on both sides, and hence the same session key
-- under any derivation; every private key is at least 2 and below the prime.
pub generate_dh_key_pair_agree :
    (derive : Bytes → Bytes) (server client : Bytes)
    → let mine = generate_dh_key_pair server in
      let theirs = generate_dh_key_pair client in
      (derive (int_bytes (exp (theirs.1) (mine.0) dh_prime))
        ≡ derive (int_bytes (exp (mine.1) (theirs.0) dh_prime)))
      × (2 ≤ mine.0)
      × (mine.0 < dh_prime)
unfolding generate_dh_key_pair private_key
generate_dh_key_pair_agree derive server client =
    let small : set_bytes server % (dh_prime - 2) < dh_prime - 2 =
      mod-lt (set_bytes server) (omega (arith, prime_large)) in
    (
      ap (λ s. derive (int_bytes s))
          (exp_agree 2 (private_key client) (private_key server) dh_prime),
      omega arith,
      omega (arith, prime_large, small),
    )
