-- ===== src/SecretService/Paths/Numbers.antt =====
-- Numbers in object paths: different numbers give different paths.
use kpxcd.Prelude.{
  ℕ, zero, suc, ◌+◌, ◌-◌, ◌*◌, ◌/◌, ◌%◌, ◌<◌, [], ◌∷◌, ◌++◌, Bytes, nat_eq, codes, Bool-cases, ◌≡◌,
  refl, sym, ap, ◌∙◌, inl, inr, arith,
}
use kpxcd.SecretService.Paths.{digits_from, decimal, session_path, service_path}

read : ℕ → Bytes → ℕ
read value [] = value
read value (c ∷ s) = read (value * 10 + (c - b'0')) s

read-append :
    (value : ℕ) (s : Bytes) (c : ℕ) → read value (s ++ c ∷ []) ≡ read value s * 10 + (c - b'0')
unfolding read
read-append value [] c = refl
read-append value (b ∷ s) c = read-append (value * 10 + (b - b'0')) s c

read-digits_from : (fuel n : ℕ) → n < fuel → read 0 (digits_from fuel n) ≡ n
unfolding digits_from read
read-digits_from zero n h = absurd (omega arith)
read-digits_from (suc fuel) n h = elim (Bool-cases (nat_eq (n / 10) 0)) [
  | inl small ↦ rw small (read-append 0 [] (b'0' + n % 10) ∙ ground arith)
  | inr large ↦ rw large (
      read-append 0 (digits_from fuel (n / 10)) (b'0' + n % 10)
      ∙ ground (arith, read-digits_from fuel (n / 10)))
]

pub decimal_injective : (n m : ℕ) → decimal n ≡ decimal m → n ≡ m
unfolding decimal
decimal_injective n m same =
    sym (read-digits_from (suc n) n (omega arith))
    ∙ ap (read 0) same
    ∙ read-digits_from (suc m) m (omega arith)

pub append_injective : (p s t : Bytes) → p ++ s ≡ p ++ t → s ≡ t
append_injective [] s t same = same
append_injective (b ∷ p) s t same = append_injective p s t (cc)

pub session_path_injective : (n m : ℕ) → session_path n ≡ session_path m → n ≡ m
unfolding session_path
session_path_injective n m same =
    decimal_injective n m
      (append_injective (service_path ++ codes "/session/s") (decimal n) (decimal m) same)
