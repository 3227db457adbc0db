-- ===== src/ConfigFile/Settings/Created.antt =====
-- The settings of `Create` against `Validate`.
use shiroikuma_gcfs.Prelude.{
  ℕ, ◌≡◌, Bool, ◌&&◌, not, none, some, xchacha_with_aessiv, arith, ◌==◌, if◌then◌else◌, Bytes,
  bytes_equal,
}
use shiroikuma_gcfs.ConfigFile.Flags.{is_feature_flag_set, is_feature_flag_known}
use shiroikuma_gcfs.ConfigFile.Scrypt.{new_scrypt_kdf, validate_params}
use shiroikuma_gcfs.ConfigFile.Settings.{
  CreateArgs, validate, validate_content, validate_names, all_known, create_flags, create_settings,
  or_then, custom_max,
}

all_known-create_flags : (x p d s c : Bool) → all_known (create_flags x p d s c) ≡ none
unfolding all_known create_flags is_feature_flag_set is_feature_flag_known bytes_equal
all_known-create_flags x p d s c = ground arith

settings-create_flags :
    (x p d s c : Bool) (m : ℕ)
    → (m == 0) ≡ not (not p && c)
    → or_then
        (validate_content (create_flags x p d s c))
        (validate_names (create_flags x p d s c) m)
      ≡ (if x && s then some xchacha_with_aessiv else none)
unfolding validate_content validate_names create_flags is_feature_flag_set bytes_equal
settings-create_flags x p d s c m h = ground (arith, h)

-- For every combination of the arguments of Create whose scrypt parameters pass, Validate accepts
-- the settings that Create makes, except that XChaCha20-Poly1305 together with AES-SIV is an error.
pub validate-create_settings :
    (args : CreateArgs) (random : Bytes)
    → validate_params (new_scrypt_kdf random args.log_n) ≡ none
    → validate (create_settings args random)
      ≡ (if args.use_xchacha && args.use_aes_siv then some xchacha_with_aessiv else none)
unfolding validate create_settings
validate-create_settings args random params =
    rw
      (
        params,
        all_known-create_flags args.use_xchacha args.use_plaintext_names args.deterministic_names
            args.use_aes_siv (custom_max args),
      )
      (settings-create_flags args.use_xchacha args.use_plaintext_names args.deterministic_names
        args.use_aes_siv (custom_max args)
        (if not args.use_plaintext_names && custom_max args then args.long_name_max else 0)
        (ground arith))
