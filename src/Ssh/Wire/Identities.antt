-- ===== src/Ssh/Wire/Identities.antt =====
-- The answer to a request for identities, read back by a client.
use kpxcd.Prelude.{
  ℕ, zero, suc, ◌+◌, ◌≤◌, ◌<◌, ◌^◌, List, [], ◌∷◌, ◌++◌, map, Option, none, some, ◌≡◌, refl, sym,
  ap, Bytes, length, length-append, append_assoc, append-nil, arith, ◌>>=◌, nat_eq, if◌then◌else◌,
}
use kpxcd.Ssh.Wire.{
  encode_uint32, decode_uint32, encode_string, decode_string, encode_identities,
  encode_identities_answer, identities_answer, uint32,
}
use kpxcd.Ssh.Wire.RoundTrip.{
  decode_uint32-encode_uint32, encode_uint32-append, encode_string-append,
  decode_string-encode_string, uint32_id,
}

-- What a client does: the type byte, the count, then so many pairs of a blob and a comment.
pub decode_pairs : ℕ → Bytes → Option (List (Bytes × Bytes) × Bytes)
decode_pairs zero s = some ([], s)
decode_pairs (suc n) s = do
  (blob, t) ← decode_string s
  (comment, u) ← decode_string t
  (pairs, rest) ← decode_pairs n u
  some ((blob, comment) ∷ pairs, rest)

pub decode_identities_answer : Bytes → Option (List (Bytes × Bytes) × Bytes)
unfolding decode_pairs
decode_identities_answer [] = none
decode_identities_answer (b ∷ s) =
    if nat_eq b identities_answer then (decode_uint32 s >>= λ (n, t). decode_pairs n t) else none

abbrev pub blobs_of : List (Bytes × Bytes) → List Bytes
blobs_of = map λ p. p.0

abbrev pub comments_of : List (Bytes × Bytes) → List Bytes
comments_of = map λ p. p.1

encode_pairs : List (Bytes × Bytes) → Bytes
encode_pairs [] = []
encode_pairs ((blob, comment) ∷ ps) =
    encode_string [] blob ++ (encode_string [] comment ++ encode_pairs ps)

encode_identities-pairs :
    (buf : Bytes) (ps : List (Bytes × Bytes))
    → encode_identities buf (blobs_of ps) (comments_of ps) ≡ buf ++ encode_pairs ps
unfolding encode_identities encode_pairs
encode_identities-pairs buf [] = sym (append-nil buf)
encode_identities-pairs buf ((blob, comment) ∷ ps) =
    rw
      (
        encode_identities-pairs (encode_string (encode_string buf blob) comment) ps,
        encode_string-append (encode_string buf blob) comment,
        encode_string-append buf blob,
      )
      (simp append_assoc)

-- The strings fit.
abbrev Fits : List (Bytes × Bytes) → Bytes → Type 0
Fits ps rest = length (encode_pairs ps) + length rest < 2 ^ 32

length-encode_string : (s : Bytes) → length (encode_string [] s) ≡ 4 + length s
unfolding encode_string encode_uint32
length-encode_string s = omega arith

length-append-bytes : (s t : Bytes) → length (s ++ t) ≡ length s + length t
length-append-bytes s t = length-append s t

ruleset sizes = (arith, length-append-bytes, length-encode_string)

decode_pairs-encode_pairs :
    (ps : List (Bytes × Bytes)) (rest : Bytes)
    → Fits ps rest
    → decode_pairs (length ps) (encode_pairs ps ++ rest) ≡ some (ps, rest)
unfolding decode_pairs encode_pairs
decode_pairs-encode_pairs [] rest h = refl
decode_pairs-encode_pairs ((blob, comment) ∷ ps) rest h = rw (
  append_assoc (encode_string [] blob) (encode_string [] comment ++ encode_pairs ps) rest,
  decode_string-encode_string blob (encode_string [] comment ++ encode_pairs ps ++ rest)
      (omega sizes),
  append_assoc (encode_string [] comment) (encode_pairs ps) rest,
  decode_string-encode_string comment (encode_pairs ps ++ rest) (omega sizes),
  decode_pairs-encode_pairs ps rest (omega sizes),
)

length-blobs_of : (ps : List (Bytes × Bytes)) → length (blobs_of ps) ≡ length ps
length-blobs_of [] = refl
length-blobs_of (p ∷ ps) = ap suc (length-blobs_of ps)

length-le-encode_pairs : (ps : List (Bytes × Bytes)) → length ps ≤ length (encode_pairs ps)
unfolding encode_pairs
length-le-encode_pairs [] = omega arith
length-le-encode_pairs ((blob, comment) ∷ ps) = let ih = length-le-encode_pairs ps in omega sizes

answer-pairs :
    (ps : List (Bytes × Bytes))
    → encode_identities_answer (blobs_of ps) (comments_of ps)
      ≡ identities_answer ∷ (encode_uint32 [] (uint32 (length ps)) ++ encode_pairs ps)
unfolding encode_identities_answer
answer-pairs ps = rw (
  encode_identities-pairs (encode_uint32 (identities_answer ∷ []) _) ps,
  length-blobs_of ps,
  encode_uint32-append (identities_answer ∷ []) (uint32 (length ps)),
)

decode_count :
    (ps : List (Bytes × Bytes)) (rest : Bytes)
    → Fits ps rest
    → (decode_uint32 (encode_uint32 [] (uint32 (length ps)) ++ encode_pairs ps ++ rest)
        >>= λ (n, t). decode_pairs n t)
      ≡ some (ps, rest)
decode_count ps rest h =
    rw
      (
        append_assoc (encode_uint32 [] (uint32 (length ps))) (encode_pairs ps) rest,
        decode_uint32-encode_uint32 (uint32 (length ps)) (encode_pairs ps ++ rest) (omega arith),
        uint32_id (length ps) (omega (arith, length-le-encode_pairs ps)),
      )
      (decode_pairs-encode_pairs ps rest h)

-- A client that reads the answer finds each key's blob with its comment, in order, and stops at
-- the end of the answer, if the answer and what follows it are shorter than 4 GiB.
pub decode_identities_answer-encode :
    (ps : List (Bytes × Bytes)) (rest : Bytes)
    → length (encode_identities_answer (blobs_of ps) (comments_of ps)) + length rest < 2 ^ 32
    → decode_identities_answer (encode_identities_answer (blobs_of ps) (comments_of ps) ++ rest)
      ≡ some (ps, rest)
unfolding decode_identities_answer
decode_identities_answer-encode ps rest h = rw (answer-pairs ps) (
    decode_count ps rest (
      omega (
        arith,
        ap length (answer-pairs ps),
        length-append-bytes (encode_uint32 [] (uint32 (length ps))) (encode_pairs ps),
      )))
