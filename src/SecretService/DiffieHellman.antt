-- ===== src/SecretService/DiffieHellman.antt =====
-- internal/secretservice/service.go: the key exchange of encrypted sessions. `math/big` is taken
-- with its meaning on natural numbers; random bytes and the derivation of the key from the shared
-- secret (HMAC-SHA256 of the standard library) are arguments.
pub mod Agreement
pub mod Numbers
use kpxcd.Prelude.{
  ℕ, zero, suc, ◌+◌, ◌-◌, ◌*◌, ◌/◌, ◌%◌, ◌^◌, Bool, true, false, List, [], ◌∷◌, ◌++◌, Option, none,
  some, Bytes, codes, ltb, leb, nat_eq, if◌then◌else◌,
}

-- `Int.SetBytes`: big-endian; `value` is what has been read so far.
unfoldable pub set_bytes_from : ℕ → Bytes → ℕ
set_bytes_from value [] = value
set_bytes_from value (b ∷ s) = set_bytes_from (value * 256 + b) s

unfoldable pub set_bytes : Bytes → ℕ
set_bytes s = set_bytes_from 0 s

-- `Int.Bytes`: big-endian without leading zeros; as many rounds as the number are enough.
unfoldable pub bytes_from : ℕ → ℕ → Bytes
bytes_from zero n = []
bytes_from (suc fuel) n =
    let front = bytes_from fuel (n / 256) in if nat_eq n 0 then [] else front ++ n % 256 ∷ []

unfoldable pub int_bytes : ℕ → Bytes
int_bytes n = bytes_from n n

-- `Int.Exp`.
unfoldable pub exp : ℕ → ℕ → ℕ → ℕ
exp x y m = x ^ y % m

hex_value : ℕ → ℕ
hex_value c = if leb c b'9' then c - b'0' else c - b'A' + 10

-- `Int.SetString` in base 16, on digits and capital letters.
unfoldable pub set_hex : ℕ → Bytes → ℕ
unfolding hex_value
set_hex value [] = value
set_hex value (c ∷ s) = set_hex (value * 16 + hex_value c) s

unfoldable pub dh_prime : ℕ
unfolding set_hex
dh_prime = set_hex 0 (
    codes "FFFFFFFFFFFFFFFFC90FDAA22168C234C4C6628B80DC1CD1"
    ++ (codes "29024E088A67CC74020BBEA63B139B22514A08798E3404DD"
        ++ (codes "EF9519B3CD3A431B302B0A6DF25F14374FE1356D6D51C245"
            ++ (codes "E485B576625E7EC6F44C42E9A637ED6B0BFF5CB6F406B7ED"
                ++ (codes "EE386BFB5A899FA5AE9F24117C4B1FE649286651ECE65381"
                    ++ codes "FFFFFFFFFFFFFFFF")))))

-- The private key from 128 random bytes.
unfoldable pub private_key : Bytes → ℕ
private_key random = set_bytes random % (dh_prime - 2) + 2

unfoldable pub generate_dh_key_pair : Bytes → ℕ × ℕ
generate_dh_key_pair random = let priv = private_key random in (priv, exp 2 priv dh_prime)

-- The values that a client may send: bytes, a list of values, or anything else.
mutual
  pub data Variant : Type 0 where
    bytes : Bytes → Variant
    slice : Variants → Variant
    other : Variant

  pub data Variants : Type 0 where
    nil : Variants
    cons : Variant → Variants → Variants

-- The nested extraction assigns to an inner `ok`, so the outer one stays false.
unfoldable pub client_public_key : Variant → Option Bytes
client_public_key (bytes s) = some s
client_public_key (slice vs) = none
client_public_key other = none
