-- ===== src/Prelude/Maps.antt =====
-- Go maps: association lists with at most one pair for a key (`Distinct`). The order of the list
-- stands for the unspecified order of `range`: a statement about all lists covers every order.
use Prim.Native.Nat.{◌+◌, ◌≤◌}
use mathlib.Core.Path.{◌≡◌, refl, subst, subst₂}
use mathlib.Core.Logic.{inl, inr}
use mathlib.Core.Bool.{Bool}
use mathlib.Core.Option.{Option, none, some}
use mathlib.Core.List.{List, [], ◌∷◌}
use native.Mathlib.Omega.{arith}
use kpxcd.Prelude.Tests.{if◌then◌else◌, Bool-cases, ◌>>=◌}
use kpxcd.Prelude.Lists.{length, keep, All}
use kpxcd.Prelude.Equality.{Eq, ◌==◌, ==_refl}

module _ {ℓ κ} {K : Type ℓ} {V : Type κ} ⦃e : Eq K⦄ where
  -- `m[k]` with its second result.
  unfoldable pub lookup : K → List (K × V) → Option V
  lookup key [] = none
  lookup key ((k, v) ∷ m) = if k == key then some v else lookup key m

  -- `m[k] = v`.
  unfoldable pub insert : K → V → List (K × V) → List (K × V)
  insert key v [] = (key, v) ∷ []
  insert key v ((k, w) ∷ m) = if k == key then (k, v) ∷ m else (k, w) ∷ insert key v m

  -- `delete(m, k)`.
  unfoldable pub delete : K → List (K × V) → List (K × V)
  delete k [] = []
  delete k ((j, v) ∷ m) = if j == k then delete k m else (j, v) ∷ delete k m

module _ {ℓ κ} {K : Type ℓ} {V : Type κ} ⦃e : Eq K⦄ where
  pub lookup-insert :
      (key at : K) (new : V) (rest : List (K × V))
      → lookup at (insert key new rest) ≡ (if key == at then some new else lookup at rest)
  unfolding insert lookup
  lookup-insert key at new [] = refl
  lookup-insert key at new ((k, old) ∷ rest) =
      let later = lookup-insert key at new rest in
      ground (arith, e.beq_iff k at, e.beq_iff key at, e.beq_iff k key, later)

  pub lookup-delete :
      (k j : K) (m : List (K × V)) → lookup j (delete k m) ≡ (if k == j then none else lookup j m)
  unfolding lookup delete
  lookup-delete k j [] = ground arith
  lookup-delete k j ((i, w) ∷ m) =
      ground (arith, e.beq_iff k j, e.beq_iff i k, e.beq_iff i j, lookup-delete k j m)

  pub lookup-insert_self : (k : K) (v : V) (m : List (K × V)) → lookup k (insert k v m) ≡ some v
  lookup-insert_self k v m = ground (arith, lookup-insert k k v m, ==_refl k)

  pub length-delete-le : (k : K) (m : List (K × V)) → length (delete k m) ≤ length m
  unfolding delete
  length-delete-le k [] = omega arith
  length-delete-le k ((j, v) ∷ m) = ground (arith, length-delete-le k m)

  pub length-insert-le : (k : K) (v : V) (m : List (K × V)) → length (insert k v m) ≤ length m + 1
  unfolding insert
  length-insert-le k v [] = omega arith
  length-insert-le k v ((j, w) ∷ m) = ground (arith, length-insert-le k v m)

  pub length-insert_old :
      (k : K) (v w : V) (m : List (K × V)) → lookup k m ≡ some w → length (insert k v m) ≡ length m
  unfolding lookup insert
  length-insert_old k v w [] h = cc
  length-insert_old k v w ((j, u) ∷ m) h = ground (arith, length-insert_old k v w m)

  pub All-insert {μ} :
      (P : K × V → Type μ) (k : K) (v : V) (m : List (K × V))
      → ((j : K) → j ≡ k → P (j, v))
      → All P m
      → All P (insert k v m)
  unfolding insert
  All-insert P k v [] p h = (p k refl, tt)
  All-insert P k v ((j, w) ∷ m) p h = elim (Bool-cases (j == k)) [
    | inl same ↦ let here = p j ((e.beq_iff j k).0 same) in ground arith
    | inr other ↦ let rest = All-insert P k v m p h.1 in ground arith
  ]

  pub All-delete {μ} :
      (P : K × V → Type μ) (k : K) (m : List (K × V)) → All P m → All P (delete k m)
  unfolding delete
  All-delete P k [] h = tt
  All-delete P k ((j, w) ∷ m) h = ground (arith, All-delete P k m h.1)

  pub All-lookup {μ} :
      (P : K × V → Type μ) (k : K) (v : V) (m : List (K × V))
      → All P m
      → lookup k m ≡ some v
      → P (k, v)
  unfolding lookup
  All-lookup P k v [] a h = absurd (cc)
  All-lookup P k v ((j, w) ∷ m) a h = elim (Bool-cases (j == k)) [
    | inl same ↦
        let first : w ≡ v = ground arith in
        subst₂ (λ i u. P (i, u)) ((e.beq_iff j k).0 same) first a.0
    | inr other ↦ All-lookup P k v m a.1 (ground arith)
  ]

  -- No key stands twice.
  abbrev pub Distinct : List (K × V) → Type κ
  Distinct [] = Unit
  Distinct ((k, v) ∷ m) = (lookup k m ≡ none) × Distinct m

  pub Distinct-insert : (k : K) (v : V) (m : List (K × V)) → Distinct m → Distinct (insert k v m)
  unfolding insert lookup
  Distinct-insert k v [] d = (refl, tt)
  Distinct-insert k v ((j, w) ∷ m) d =
      ground (arith, Distinct-insert k v m d.1, lookup-insert k j v m, e.beq_iff j k, e.beq_iff k j)

  pub Distinct-delete : (k : K) (m : List (K × V)) → Distinct m → Distinct (delete k m)
  unfolding delete
  Distinct-delete k [] d = tt
  Distinct-delete k ((j, w) ∷ m) d =
      ground (arith, Distinct-delete k m d.1, lookup-delete k j m, e.beq_iff j k, e.beq_iff k j)

  pub lookup-keep-none :
      (p : K × V → Bool) (k : K) (m : List (K × V)) → lookup k m ≡ none → lookup k (keep p m) ≡ none
  unfolding lookup
  lookup-keep-none p k [] h = refl
  lookup-keep-none p k ((j, w) ∷ m) h = ground (arith, lookup-keep-none p k m)

  pub Distinct-keep : (p : K × V → Bool) (m : List (K × V)) → Distinct m → Distinct (keep p m)
  Distinct-keep p [] d = tt
  Distinct-keep p ((j, w) ∷ m) d = ground (arith, Distinct-keep p m d.1, lookup-keep-none p j m)

  -- A kept map has the entries that pass the test, and no others.
  pub lookup-keep :
      (p : K × V → Bool) (k : K) (m : List (K × V))
      → Distinct m
      → lookup k (keep p m) ≡ (lookup k m >>= λ v. if p (k, v) then some v else none)
  unfolding lookup
  lookup-keep p k [] d = refl
  lookup-keep p k ((j, w) ∷ m) d = elim (Bool-cases (j == k)) [
    | inl same ↦
        let q = (e.beq_iff j k).0 same in
        let gone : lookup k (keep p m) ≡ none =
          subst (λ i. lookup i (keep p m) ≡ none) q (lookup-keep-none p j m d.0) in
        ground arith
    | inr other ↦ let rest = lookup-keep p k m d.1 in ground arith
  ]
