-- ===== src/Ssh/Server/Flags.antt =====
-- The signature algorithm that a client asks for by the flags of a sign request.
use kpxcd.Prelude.{ℕ, ◌≡◌, ◌⊎◌, ◌↔◌, [], arith, Bytes}
use kpxcd.Prelude.Results.{ok}
use kpxcd.Ssh.Server.{signature_algorithm_for_flags, rsa_sha256, rsa_sha512}

-- Exactly three values of the flags are accepted: none for the signer's default, 2 for RSA with
-- SHA-256 and 4 for RSA with SHA-512. Every other 32-bit value is an error.
pub signature_algorithm_for_flags_iff :
    (flags : ℕ) (algorithm : Bytes)
    → (signature_algorithm_for_flags flags ≡ ok algorithm) ↔ (
        ((flags ≡ 0) × (algorithm ≡ []))
        ⊎ ((flags ≡ 2) × (algorithm ≡ rsa_sha256))
        ⊎ ((flags ≡ 4) × (algorithm ≡ rsa_sha512)))
unfolding signature_algorithm_for_flags
signature_algorithm_for_flags_iff flags algorithm = (λ h. ground arith, λ h. ground arith)
