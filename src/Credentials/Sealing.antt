-- ===== src/Credentials/Sealing.antt =====
-- Sealing and unsealing are inverse (backend/internal/gateway/router.go and storage/store.go).
use ai_aggregator.Prelude.{ℕ, ◌/◌, ◌%◌, ◌<◌, ◌≡◌, refl, some, List, [], ◌∷◌, arith, All}
use ai_aggregator.Credentials.{
  hex_digit, hex_value, hex_encode, hex_decode, seal_credential_secret, unseal_local_secret,
}

hex_value-hex_digit : (d : ℕ) → d < 16 → hex_value (hex_digit d) ≡ some d
hex_value-hex_digit d h = ground arith

hex_decode-hex_encode : (bs : List ℕ) → All (λ b. b < 256) bs → hex_decode (hex_encode bs) ≡ some bs
unfolding hex_decode hex_encode
hex_decode-hex_encode [] h = refl
hex_decode-hex_encode (b ∷ bs) (p, h) =
    rw
      (
        hex_value-hex_digit (b / 16) (omega arith),
        hex_value-hex_digit (b % 16) (omega arith),
        hex_decode-hex_encode bs h,
      )
      (ground arith)

-- A sealed secret, of bytes, is unsealed to itself.
pub unseal-seal :
    (secret : List ℕ)
    → All (λ b. b < 256) secret
    → unseal_local_secret (seal_credential_secret secret) ≡ some secret
unfolding unseal_local_secret seal_credential_secret
unseal-seal secret h = hex_decode-hex_encode secret h
