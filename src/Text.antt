-- ===== src/Text.antt =====
-- What the program uses of Go's `strings` and `encoding/hex`, on byte strings. The tables of
-- Unicode are the record `Unicode`: two texts are equal under case folding if `fold` maps them to
-- the same text.
use kpxcd.Prelude.{
  ℕ, ◌+◌, ◌-◌, ◌/◌, ◌%◌, Bool, true, false, ◌||◌, [], ◌∷◌, Bytes, bytes_Eq, ◌==◌, ltb, nat_eq,
  if◌then◌else◌, length, drop,
}

pub record Unicode : Type 0 where
  pub fold : Bytes → Bytes
  pub lower : Bytes → Bytes
  pub trim_space : Bytes → Bytes

-- `strings.EqualFold`.
unfoldable pub equal_fold : Unicode → Bytes → Bytes → Bool
equal_fold u s t = u.fold s == u.fold t

-- `strings.HasPrefix`.
unfoldable pub has_prefix : Bytes → Bytes → Bool
has_prefix s [] = true
has_prefix [] (c ∷ p) = false
has_prefix (b ∷ s) (c ∷ p) = if nat_eq b c then has_prefix s p else false

-- `strings.Contains`.
unfoldable pub contains : Bytes → Bytes → Bool
contains [] t = has_prefix [] t
contains (b ∷ s) t = has_prefix (b ∷ s) t || contains s t

-- `strings.TrimPrefix`.
unfoldable pub trim_prefix : Bytes → Bytes → Bytes
trim_prefix s p = if has_prefix s p then drop (length p) s else s

abbrev hex_digit : ℕ → ℕ
hex_digit n = if ltb n 10 then b'0' + n else b'a' + n - 10

-- `hex.EncodeToString`, and the verb `%x`.
unfoldable pub hex : Bytes → Bytes
hex [] = []
hex (b ∷ s) = hex_digit (b / 16) ∷ hex_digit (b % 16) ∷ hex s
