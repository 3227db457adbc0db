-- ===== src/ConfigFile/Examples.antt =====
-- Runs of the configuration code on small inputs, and concrete instances of its theorems.
use shiroikuma_gcfs.Prelude.{
  ℕ, ◌≤◌, ◌≡◌, refl, ◌↔◌, ◌⊎◌, true, false, none, some, [], ◌∷◌, ok, ◌>>=◌, arith, scrypt_n_low,
  replicate, Bytes, bytes_of, bytes_equal,
}
use shiroikuma_gcfs.Samples.{plain_ciphers, plain_ciphers_lem, plain_aead_lem}
use shiroikuma_gcfs.ConfigFile.Flags.{is_feature_flag_set, known_flags, hkdf_flag, gcm_iv128}
use shiroikuma_gcfs.ConfigFile.Scrypt.{new_scrypt_kdf, validate_params, derive_key}
use shiroikuma_gcfs.ConfigFile.Scrypt.Limits.{validate_params-new_scrypt_kdf}
use shiroikuma_gcfs.ConfigFile.Settings.{ConfFile, CreateArgs, create_settings, validate}
use shiroikuma_gcfs.ConfigFile.Settings.Created.{validate-create_settings}
use shiroikuma_gcfs.ConfigFile.Settings.Supported.{Supported, validate_iff}
use shiroikuma_gcfs.ConfigFile.KeyWrap.{Scrypt, encrypt_key, get_masterkey}
use shiroikuma_gcfs.ConfigFile.KeyWrap.RoundTrip.{hash_of, get_masterkey-encrypt_key}

abbrev some_salt : Bytes
some_salt = replicate 32 4

abbrev default_args : CreateArgs
default_args = record {
  filename = bytes_of "gocryptfs.conf";
  password = bytes_of "secret";
  use_plaintext_names = false;
  log_n = 0;
  creator = bytes_of "app";
  use_aes_siv = false;
  deterministic_names = false;
  use_xchacha = true;
  long_name_max = 100;
  masterkey = none;
}

default_params : validate_params (new_scrypt_kdf some_salt 0) ≡ none
unfolding validate_params new_scrypt_kdf
default_params = refl

cost_too_low : validate_params (new_scrypt_kdf some_salt 9) ≡ some scrypt_n_low
unfolding validate_params new_scrypt_kdf
cost_too_low = refl

cost_too_high : validate_params (new_scrypt_kdf some_salt 63) ≡ some scrypt_n_low
unfolding validate_params new_scrypt_kdf
cost_too_high = refl

abbrev middle_cost : ℕ
middle_cost = 16

validate_params-new_scrypt_kdf_example :
    (validate_params (new_scrypt_kdf some_salt middle_cost) ≡ none)
    ↔ ((middle_cost ≡ 0) ⊎ ((10 ≤ middle_cost) × (middle_cost ≤ 62)))
validate_params-new_scrypt_kdf_example =
    validate_params-new_scrypt_kdf some_salt middle_cost refl (omega arith)

validate-create_settings_example : validate (create_settings default_args some_salt) ≡ none
validate-create_settings_example = validate-create_settings default_args some_salt default_params

abbrev gcm_conf : ConfFile
gcm_conf = record {
  creator = [];
  encrypted_key = [];
  scrypt_object = new_scrypt_kdf some_salt 0;
  version = 2;
  feature_flags = known_flags hkdf_flag ∷ known_flags gcm_iv128 ∷ [];
  fido2 = none;
  long_name_max = 0;
  filename = [];
}

validate_iff_example : (validate gcm_conf ≡ none) ↔ Supported gcm_conf
validate_iff_example = validate_iff gcm_conf

-- A key derivation that derives one key only.
abbrev plain_scrypt : Scrypt
plain_scrypt = λ password salt n r p key_len. some (replicate key_len 8)

some_derived :
    derive_key plain_scrypt (new_scrypt_kdf some_salt 16) (bytes_of "secret") ≡ ok (replicate 32 8)
unfolding derive_key new_scrypt_kdf
some_derived = refl

has_hkdf : is_feature_flag_set gcm_conf.feature_flags hkdf_flag ≡ true
unfolding is_feature_flag_set bytes_equal
has_hkdf = refl

abbrev some_key : Bytes
some_key = replicate 32 3

abbrev some_nonce : Bytes
some_nonce = replicate 16 1

get_masterkey-encrypt_key_example :
    ((encrypt_key plain_ciphers plain_scrypt some_salt some_nonce gcm_conf some_key
          (bytes_of "secret")
          16
          true
        >>= λ r. get_masterkey plain_ciphers plain_scrypt r.0 (bytes_of "secret") [] 0)
      ≡ ok (some_key, none))
    × ((encrypt_key plain_ciphers plain_scrypt some_salt some_nonce gcm_conf some_key
            (bytes_of "secret")
            16
            true
          >>= λ r. get_masterkey plain_ciphers plain_scrypt r.0 [] (hash_of r.1) 0)
        ≡ ok (some_key, none))
unfolding is_feature_flag_set bytes_equal
get_masterkey-encrypt_key_example =
    get_masterkey-encrypt_key plain_ciphers plain_ciphers_lem (λ key size. plain_aead_lem size)
      plain_scrypt gcm_conf some_key (bytes_of "secret") some_salt some_nonce 16 some_derived refl
      (λ e. cc) refl (λ e. cc)
