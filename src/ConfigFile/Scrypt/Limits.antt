-- ===== src/ConfigFile/Scrypt/Limits.antt =====
-- Which cost parameters give a key derivation that validates.
use native.Mathlib.Nat.{pow-le-pow_right}
use shiroikuma_gcfs.Prelude.{ℕ, ◌^◌, ◌≤◌, ◌<◌, ◌≡◌, ◌↔◌, ◌⊎◌, none, arith, length, Bytes}
use shiroikuma_gcfs.ConfigFile.Scrypt.{new_scrypt_kdf, validate_params}

monotone : (a b : ℕ) → a ≤ b → 2 ^ a ≤ 2 ^ b
monotone a b h = pow-le-pow_right (omega arith) h

-- With a salt of 32 bytes and logN from 0 to 2^32 - 1, validateParams accepts what NewScryptKDF
-- makes exactly when logN is 0 or lies from 10 to 62.
pub validate_params-new_scrypt_kdf :
    (random : Bytes) (log_n : ℕ)
    → length random ≡ 32
    → log_n < 2 ^ 32
    → (validate_params (new_scrypt_kdf random log_n) ≡ none)
      ↔ ((log_n ≡ 0) ⊎ ((10 ≤ log_n) × (log_n ≤ 62)))
unfolding validate_params new_scrypt_kdf
validate_params-new_scrypt_kdf random log_n size small = ground (
  arith,
  size,
  monotone log_n 9,
  monotone 10 log_n,
  monotone log_n 62,
  monotone 63 log_n,
  monotone log_n 63,
)
