-- ===== src/Prelude/Outcomes.antt =====
-- What a Go function returns: a value, an error, or a panic. `stuck` is no Go value: a loop of the
-- model ran out of fuel. The errors are the ones that the
-- modelled packages build themselves, and the errno values that they compare against.
use mathlib.Core.Path.{◌≡◌, refl}
use mathlib.Core.Bool.{Bool, true, false}
use shiroikuma_gcfs.Prelude.Tests.{if◌then◌else◌}

pub data Error : Type 0 where
  ebadmsg enametoolong enoent eexist eio ebadr einval enospc enospc_new_file efbig : Error
  eof : Error
  block_too_short all_zero_nonce authentication : Error
  invalid_length header_all_zero invalid_version file_id_all_zero : Error
  empty_input unaligned_size zero_padding padding_too_long padding_covers_all bad_padding_byte :
      Error
  name_too_long forbidden_bytes dot_name : Error
  line_break bad_base64 : Error
  unsupported_format unknown_feature_flag : Error
  scrypt_n_low scrypt_r_low scrypt_p_low scrypt_salt_short scrypt_key_len_short : Error
  xchacha_with_aessiv aessiv_needs_gcmiv128 xchacha_with_gcmiv128 xchacha_needs_hkdf : Error
  gcm_needs_gcmiv128 plaintext_names_conflict long_name_max_no_flag long_name_max_zero : Error
  password_incorrect : Error

pub data Outcome {ℓ} (A : Type ℓ) : Type ℓ where
  panic stuck : Outcome A
  err : Error → Outcome A
  ok : A → Outcome A

infixl 5 ◌>>=◌
abbrev pub ◌>>=◌ {ℓ ℓ'} : {A : Type ℓ} {B : Type ℓ'} → Outcome A → (A → Outcome B) → Outcome B
panic >>= then_do = panic
stuck >>= then_do = stuck
err error >>= then_do = err error
ok value >>= then_do = then_do value

-- Inversion of a successful bind.
pub >>=-eq-ok {ℓ ℓ'} :
    {A : Type ℓ} {B : Type ℓ'} (first : Outcome A) (then_do : A → Outcome B) {b : B}
    → (first >>= then_do) ≡ ok b
    → (a : A) × (first ≡ ok a) × (then_do a ≡ ok b)
>>=-eq-ok panic then_do h = cc
>>=-eq-ok stuck then_do h = cc
>>=-eq-ok (err error) then_do h = cc
>>=-eq-ok (ok value) then_do h = (value, refl, h)

-- An early return that was not taken.
pub past_guard {ℓ} :
    {A : Type ℓ} {a : A} (b : Bool) (e : Error) (m : Outcome A)
    → (if b then err e else m) ≡ ok a
    → (b ≡ false) × (m ≡ ok a)
past_guard true e m h = cc
past_guard false e m h = (refl, h)

pub past_panic {ℓ} :
    {A : Type ℓ} {a : A} (b : Bool) (m : Outcome A)
    → (if b then panic else m) ≡ ok a
    → (b ≡ false) × (m ≡ ok a)
past_panic true m h = cc
past_panic false m h = (refl, h)
