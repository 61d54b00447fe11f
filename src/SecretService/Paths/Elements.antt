-- ===== src/SecretService/Paths/Elements.antt =====
-- Names of databases as elements of object paths.
use kpxcd.Prelude.{
  Bool, true, false, [], ◌∷◌, Bytes, All, null, Bool-cases, ◌≡◌, refl, ap, ◌∙◌, inl, inr, arith,
}
use kpxcd.SecretService.Paths.{
  in_range, is_safe, is_digit, replace_unsafe, guard_first, sanitize_collection_name,
}

abbrev pub starts_with_digit : Bytes → Bool
starts_with_digit [] = false
starts_with_digit (c ∷ s) = is_digit c

-- An element of letters, digits and underscores that is not empty and starts with no digit.
pub record IsElement (s : Bytes) : Type 0 where
  pub filled : null s ≡ false
  pub safe : All (λ c. is_safe c ≡ true) s
  pub first : starts_with_digit s ≡ false

underscore : is_safe b'_' ≡ true
unfolding is_safe in_range is_digit
underscore = refl

replace_unsafe-safe : (s : Bytes) → All (λ c. is_safe c ≡ true) (replace_unsafe s)
unfolding replace_unsafe
replace_unsafe-safe [] = tt
replace_unsafe-safe (c ∷ s) = elim (Bool-cases (is_safe c)) [
  | inl safe ↦ rw safe (safe, replace_unsafe-safe s)
  | inr unsafe ↦ rw unsafe (underscore, replace_unsafe-safe s)
]

guard_first-IsElement : (s : Bytes) → All (λ c. is_safe c ≡ true) s → IsElement (guard_first s)
unfolding guard_first is_digit in_range
guard_first-IsElement [] safe = record { filled = refl; safe = (underscore, tt); first = refl }
guard_first-IsElement (c ∷ s) safe = elim (Bool-cases (is_digit c)) [
  | inl digit ↦ rw digit record { filled = refl; safe = (underscore, safe); first = refl }
  | inr other ↦ rw other record { filled = refl; safe = safe; first = other }
]

replace_unsafe-eq : (s : Bytes) → All (λ c. is_safe c ≡ true) s → replace_unsafe s ≡ s
unfolding replace_unsafe
replace_unsafe-eq [] safe = refl
replace_unsafe-eq (c ∷ s) safe = ground (arith, replace_unsafe-eq s safe.1)

guard_first-eq : (s : Bytes) → IsElement s → guard_first s ≡ s
unfolding guard_first
guard_first-eq [] e = absurd (ground (arith, e.filled))
guard_first-eq (c ∷ s) e = rw (e.first) refl

-- Every name becomes an element of letters, digits and underscores that is not empty and starts
-- with no digit, and a name that is such an element stays as it is.
pub sanitize_collection_name-IsElement :
    (name : Bytes)
    → IsElement (sanitize_collection_name name)
      × (IsElement name → sanitize_collection_name name ≡ name)
unfolding sanitize_collection_name
sanitize_collection_name-IsElement name = (
  guard_first-IsElement (replace_unsafe name) (replace_unsafe-safe name),
  λ e. ap guard_first (replace_unsafe-eq name e.safe) ∙ guard_first-eq name e,
)
