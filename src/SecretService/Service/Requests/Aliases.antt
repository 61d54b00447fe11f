-- ===== src/SecretService/Service/Requests/Aliases.antt =====
-- Aliases: an alias that has been set leads to its collection.
use kpxcd.Prelude.{
  ℕ, List, [], ◌∷◌, ◌++◌, none, some, Bytes, codes, bytes_Eq, ◌==◌, All, All-lookup, Bool-cases,
  Option-cases, if◌then◌else◌, lookup, insert, lookup-insert, ==_refl, ◌≡◌, ◌≢◌, refl, sym, ap,
  subst, ◌∙◌, inl, inr, arith,
}
use kpxcd.Prelude.Results.{ok}
use kpxcd.SecretService.Paths.{sanitize_collection_name, service_path, collection_path, alias_path}
use kpxcd.SecretService.Paths.Numbers.{append_injective}
use kpxcd.SecretService.Service.{SecretService, Collection}
use kpxcd.SecretService.Service.Objects.{resolve_alias, get_collection_by_path}
use kpxcd.SecretService.Service.Requests.{set_alias, read_alias}

-- Collections stand under paths of collections.
abbrev pub AtCollectionPath : Bytes × Collection → Type 0
AtCollectionPath entry = (name : Bytes) × (entry.0 ≡ collection_path name)

first_byte : Bytes → ℕ
first_byte [] = 0
first_byte (b ∷ s) = b

alias_path_injective : (a b : Bytes) → alias_path a ≡ alias_path b → a ≡ b
unfolding alias_path
alias_path_injective a b same = append_injective (service_path ++ codes "/aliases/") a b same

alias_path-collection_path : (alias name : Bytes) → alias_path alias ≢ collection_path name
unfolding alias_path collection_path first_byte
alias_path-collection_path alias name same =
    let rest =
      append_injective (service_path ++ codes "/") (codes "aliases/" ++ alias)
        (codes "collection/" ++ sanitize_collection_name name) same in
    let heads : 97 ≡ 99 = ap first_byte rest in omega (arith, heads)

alias_path-beq : (a b : Bytes) → (alias_path a == alias_path b) ≡ (a == b)
alias_path-beq a b = elim (Bool-cases (a == b)) [
  | inl same ↦
      let q = (bytes_Eq.beq_iff a b).0 same in
      subst (λ c. (alias_path a == alias_path c) ≡ (a == c)) q
        (==_refl (alias_path a) ∙ sym (==_refl a))
  | inr other ↦ elim (Bool-cases (alias_path a == alias_path b)) [
    | inl bad ↦
        let q = alias_path_injective a b ((bytes_Eq.beq_iff (alias_path a) (alias_path b)).0 bad) in
        absurd (ground (arith, (bytes_Eq.beq_iff a b).1 q))
    | inr good ↦ good ∙ sym other
  ]
]

resolve_alias-insert :
    (alias target : Bytes) (cs : List (Bytes × Collection)) (coll : Collection)
    (aliases : List (Bytes × Bytes))
    → lookup target cs ≡ some coll
    → resolve_alias (alias_path alias) cs (insert alias target aliases) ≡ some coll
unfolding resolve_alias insert
resolve_alias-insert alias target cs coll [] found = rw (==_refl (alias_path alias), found) refl
resolve_alias-insert alias target cs coll ((a, t) ∷ aliases) found =
    elim (Bool-cases (a == alias)) [
      | inl same ↦ rw (same, alias_path-beq a alias, same, found) refl
      | inr other ↦
          rw (other, alias_path-beq a alias, other)
            (resolve_alias-insert alias target cs coll aliases found)
    ]

-- If every collection stands under the path of a collection, then a request to set an alias for a
-- path with a collection succeeds, the alias then reads as its path and every other alias as
-- before, and the alias' path leads to that collection.
pub set_alias-get_collection_by_path :
    (alias path : Bytes) (ss : SecretService) (coll : Collection)
    → All AtCollectionPath ss.collections
    → lookup path ss.collections ≡ some coll
    → ((set_alias alias path ss).1 ≡ ok tt)
      × ((other : Bytes)
          → read_alias other (set_alias alias path ss).0
            ≡ (if alias == other then alias_path other else read_alias other ss))
      × (get_collection_by_path (set_alias alias path ss).0 (alias_path alias) ≡ some coll)
unfolding set_alias read_alias get_collection_by_path
set_alias-get_collection_by_path alias path ss coll placed found =
    let free : lookup (alias_path alias) ss.collections ≡ none =
      elim (Option-cases (lookup (alias_path alias) ss.collections)) [
        | inl missing ↦ missing
        | inr (other, there) ↦
            let at =
              All-lookup AtCollectionPath (alias_path alias) other ss.collections placed there in
            absurd (alias_path-collection_path alias at.0 at.1)
      ] in
    rw (set_alias, found)
      (
        refl,
        λ other. ground (arith, lookup-insert alias other path ss.aliases),
        rw (get_collection_by_path, free)
            (resolve_alias-insert alias path ss.collections coll ss.aliases found),
      )
