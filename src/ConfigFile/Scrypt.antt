-- ===== src/ConfigFile/Scrypt.antt =====
-- internal/configfile/scrypt.go. An `int` is its 64-bit word, in two's complement.
pub mod Limits
use shiroikuma_gcfs.Prelude.{
  ℕ, ◌+◌, ◌%◌, ◌^◌, Bool, ◌||◌, Option, none, some, Outcome, ok, panic, Error, scrypt_n_low,
  scrypt_r_low, scrypt_p_low, scrypt_salt_short, scrypt_key_len_short, ltb, leb, ◌==◌,
  if◌then◌else◌, length, Bytes,
}
use shiroikuma_gcfs.CryptoCore.{key_len}

-- `a < b` on `int`s
abbrev pub lt_int : ℕ → ℕ → Bool
lt_int a b = ltb ((a + 2 ^ 63) % 2 ^ 64) ((b + 2 ^ 63) % 2 ^ 64)

-- `1 << k` as an `int`
abbrev pub shift_one : ℕ → ℕ
shift_one k = if ltb k 64 then 2 ^ k else 0

abbrev pub scrypt_default_log_n : ℕ
scrypt_default_log_n = 16

abbrev pub scrypt_min_r : ℕ
scrypt_min_r = 8

abbrev pub scrypt_min_p : ℕ
scrypt_min_p = 1

abbrev pub scrypt_min_log_n : ℕ
scrypt_min_log_n = 10

abbrev pub scrypt_min_salt_len : ℕ
scrypt_min_salt_len = 32

pub record ScryptKdf : Type 0 where
  pub salt : Bytes
  pub n : ℕ
  pub r : ℕ
  pub p : ℕ
  pub key_len : ℕ

-- `random` is what `RandBytes(KeyLen)` returns.
unfoldable pub new_scrypt_kdf : Bytes → ℕ → ScryptKdf
new_scrypt_kdf random log_n = record {
  salt = random;
  n =
      if log_n == 0 || lt_int log_n 0
      then shift_one scrypt_default_log_n
      else shift_one (log_n % 2 ^ 32);
  r = 8;
  p = 1;
  key_len = key_len;
}

unfoldable pub validate_params : ScryptKdf → Option Error
validate_params s =
    if lt_int s.n (shift_one scrypt_min_log_n)
    then some scrypt_n_low
    else if lt_int s.r scrypt_min_r
    then some scrypt_r_low
    else if lt_int s.p scrypt_min_p
    then some scrypt_p_low
    else if ltb (length s.salt) scrypt_min_salt_len
    then some scrypt_salt_short
    else if lt_int s.key_len key_len
    then some scrypt_key_len_short
    else none

-- `scrypt password salt n r p key_len` is the other library's `scrypt.Key`, or `none` for its error.
-- On bad parameters the process exits, which is `panic` here.
unfoldable pub derive_key :
    (Bytes → Bytes → ℕ → ℕ → ℕ → ℕ → Option Bytes) → ScryptKdf → Bytes → Outcome Bytes
unfolding validate_params
derive_key scrypt s password = elim (validate_params s) [
  | some e ↦ panic
  | none ↦ elim (scrypt password s.salt s.n s.r s.p s.key_len) [ some k ↦ ok k | none ↦ panic ]
]
