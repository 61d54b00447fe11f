-- ===== src/Ssh/Server/Connection.antt =====
-- One connection against its messages: the byte loop serves a sequence of messages in order.
use kpxcd.Prelude.{
  ℕ, zero, suc, ◌≤◌, ◌<◌, List, [], ◌∷◌, ◌++◌, Option, some, Bytes, length, ◌≡◌, refl, inl, inr,
  arith, All,
}
use kpxcd.Prelude.Results.{Result, ok, err, Result-cases}
use kpxcd.Ssh.Wire.{
  read_message, write_message, max_message_len, agent_failure, end_of_stream, decode_uint32,
}
use kpxcd.Ssh.Wire.RoundTrip.{read_message-write_message, length-read_message}
use kpxcd.Ssh.Identity.{Identities, AgentError, IsValid}
use kpxcd.Ssh.Server.{SshLibrary, process_message, handle_conn, answer_message}
use kpxcd.Ssh.Server.Handlers.{process_message-IsValid}

-- The framed messages, one behind the other.
abbrev pub frames : List Bytes → Bytes
frames [] = []
frames (msg ∷ msgs) = write_message msg ++ frames msgs

-- A message that the frame can carry.
abbrev pub Fits : Bytes → Type 0
Fits msg = (0 < length msg) × (length msg ≤ max_message_len)

module _ {S G : Type 0} (ssh : SshLibrary S G) where
  after_message :
      Identities S × Result AgentError Bytes
      → (Identities S → Identities S × Bytes)
      → Identities S × Bytes
  after_message (m, err e) rest = (m, write_message (agent_failure ∷ []))
  after_message (m, ok answer) rest = let (m', out) = rest m in (m', write_message answer ++ out)

  -- What one client sees: an answer for each message, up to the first error, which is answered by
  -- a failure and ends the connection.
  pub serve : List Bytes → Identities S → Identities S × Bytes
  unfolding after_message
  serve [] m = (m, [])
  serve (msg ∷ msgs) m = after_message (process_message ssh msg m) (λ m'. serve msgs m')

  answer_message-after :
      (r : Identities S × Result AgentError Bytes)
      (f : Identities S → Option (Identities S × Bytes)) (g : Identities S → Identities S × Bytes)
      → ((m : Identities S) → f m ≡ some (g m))
      → answer_message ssh r f ≡ some (after_message r g)
  unfolding answer_message after_message
  answer_message-after (m, err e) f g h = refl
  answer_message-after (m, ok answer) f g h = rw (h m, answer_message)

  ended : read_message [] ≡ err end_of_stream
  unfolding read_message decode_uint32
  ended = refl

  -- A connection that carries whole messages of at most 8 MiB serves them in their order, and ends
  -- with the identities and the output of `serve`, on any fuel above the number of bytes.
  pub handle_conn-serve :
      (msgs : List Bytes) (fuel : ℕ) (m : Identities S)
      → All Fits msgs
      → length (frames msgs) < fuel
      → handle_conn ssh fuel (frames msgs) m ≡ some (serve msgs m)
  unfolding handle_conn serve
  handle_conn-serve msgs zero m fits enough = absurd (omega arith)
  handle_conn-serve [] (suc fuel) m fits enough = rw (ended, handle_conn)
  handle_conn-serve (msg ∷ msgs) (suc fuel) m fits enough =
      let read = read_message-write_message msg (frames msgs) fits.0.0 fits.0.1 in
      rw (read, handle_conn)
        (answer_message-after (process_message ssh msg m) _ _ (λ m'.
          handle_conn-serve msgs fuel m' fits.1
            (omega (arith, length-read_message (frames (msg ∷ msgs)) read))))

  answered :
      (r : Identities S × Result AgentError Bytes)
      {f : Identities S → Option (Identities S × Bytes)}
      → IsValid ssh.digest r.0
      → ((m : Identities S)
          → IsValid ssh.digest m
          → (m' : Identities S) × (out : Bytes) × (f m ≡ some (m', out)) × IsValid ssh.digest m')
      → (m' : Identities S) × (out : Bytes) × (answer_message ssh r f ≡ some (m', out))
        × IsValid ssh.digest m'
  unfolding answer_message
  answered (m, err e) v h = (m, _, refl, v)
  answered (m, ok answer) v h =
      let (m', out, e, v') = h m v in (m', write_message answer ++ out, rw (e, answer_message), v')

  -- Whatever bytes a client sends, the connection ends, and the identities after it are filed under
  -- their fingerprints if those before it were.
  pub handle_conn_total :
      (fuel : ℕ) (s : Bytes) (m : Identities S)
      → IsValid ssh.digest m
      → length s < fuel
      → (m' : Identities S) × (out : Bytes) × (handle_conn ssh fuel s m ≡ some (m', out))
        × IsValid ssh.digest m'
  unfolding handle_conn
  handle_conn_total zero s m v enough = absurd (omega arith)
  handle_conn_total (suc fuel) s m v enough = elim (Result-cases (read_message s)) [
    | inr (e, stop) ↦ (m, [], rw (stop, handle_conn), v)
    | inl ((msg, rest), read) ↦
        let kept = process_message-IsValid ssh msg m v in
        let shorter = length-read_message s read in
        rw (read, handle_conn)
          (answered (process_message ssh msg m) kept
            (λ m' v'. handle_conn_total fuel rest m' v' (omega arith)))
  ]
