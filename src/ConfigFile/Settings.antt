-- ===== src/ConfigFile/Settings.antt =====
-- internal/configfile/config_file.go and validate.go: the settings of a volume. Writing the file as
-- JSON is not modelled.
pub mod Created
pub mod Supported
use shiroikuma_gcfs.Prelude.{
  ℕ, Bool, true, false, ◌&&◌, not, Option, none, some, List, [], ◌∷◌, Outcome, ok, err, Error,
  unsupported_format, unknown_feature_flag, xchacha_with_aessiv, aessiv_needs_gcmiv128,
  xchacha_with_gcmiv128, xchacha_needs_hkdf, gcm_needs_gcmiv128, plaintext_names_conflict,
  long_name_max_no_flag, long_name_max_zero, ◌==◌, ◌!=◌, if◌then◌else◌, Bytes,
}
use shiroikuma_gcfs.CryptoCore.{AeadType, go_gcm, aes_siv, xchacha20_poly1305}
use shiroikuma_gcfs.ContentEnc.Header.{current_version}
use shiroikuma_gcfs.ConfigFile.Flags.{
  Flag, plaintext_names, dir_iv, eme_names, gcm_iv128, long_names, long_name_max_flag, aes_siv_flag,
  raw64, hkdf_flag, xchacha20_poly1305_flag, is_feature_flag_known, is_feature_flag_set,
  set_feature_flag,
}
use shiroikuma_gcfs.ConfigFile.Scrypt.{ScryptKdf, new_scrypt_kdf, validate_params}

pub record Fido2Params : Type 0 where
  pub credential_id : Bytes
  pub hmac_salt : Bytes
  pub assert_options : List Bytes

pub record ConfFile : Type 0 where
  pub creator : Bytes
  pub encrypted_key : Bytes
  pub scrypt_object : ScryptKdf
  pub version : ℕ
  pub feature_flags : List Bytes
  pub fido2 : Option Fido2Params
  pub long_name_max : ℕ
  pub filename : Bytes

-- The loop of `Validate` over the flags.
all_known : List Bytes → Option Error
unfolding is_feature_flag_known
all_known [] = none
all_known (flag ∷ rest) =
    if not (is_feature_flag_known flag) then some unknown_feature_flag else all_known rest

-- The block of `Validate` on the content encryption.
pub validate_content : List Bytes → Option Error
unfolding is_feature_flag_set
validate_content flags =
    let xchacha = is_feature_flag_set flags xchacha20_poly1305_flag in
    let siv = is_feature_flag_set flags aes_siv_flag in
    let iv128 = is_feature_flag_set flags gcm_iv128 in
    if xchacha && siv
    then some xchacha_with_aessiv
    else if siv && not iv128
    then some aessiv_needs_gcmiv128
    else if xchacha && iv128
    then some xchacha_with_gcmiv128
    else if xchacha && not (is_feature_flag_set flags hkdf_flag)
    then some xchacha_needs_hkdf
    else if not xchacha && not siv && not iv128
    then some gcm_needs_gcmiv128
    else none

-- The block of `Validate` on the names. The five conflicts of `PlaintextNames` have five messages,
-- which are one error here.
pub validate_names : List Bytes → ℕ → Option Error
unfolding is_feature_flag_set
validate_names flags long_name_max =
    let plain = is_feature_flag_set flags plaintext_names in
    let custom = is_feature_flag_set flags long_name_max_flag in
    if plain && is_feature_flag_set flags eme_names
    then some plaintext_names_conflict
    else if plain && is_feature_flag_set flags dir_iv
    then some plaintext_names_conflict
    else if plain && is_feature_flag_set flags long_names
    then some plaintext_names_conflict
    else if plain && is_feature_flag_set flags raw64
    then some plaintext_names_conflict
    else if plain && custom
    then some plaintext_names_conflict
    else if long_name_max != 0 && not custom
    then some long_name_max_no_flag
    else if long_name_max == 0 && custom
    then some long_name_max_zero
    else none

-- The first error of two checks in a row.
abbrev pub or_then : Option Error → Option Error → Option Error
or_then none next = next
or_then (some e) next = some e

unfoldable pub validate : ConfFile → Option Error
unfolding all_known validate_content validate_names
validate cf =
    if cf.version != current_version
    then some unsupported_format
    else or_then (validate_params cf.scrypt_object) (
        or_then (all_known cf.feature_flags) (
          or_then (validate_content cf.feature_flags)
            (validate_names cf.feature_flags cf.long_name_max)))

pub record CreateArgs : Type 0 where
  pub filename : Bytes
  pub password : Bytes
  pub use_plaintext_names : Bool
  pub log_n : ℕ
  pub creator : Bytes
  pub use_aes_siv : Bool
  pub deterministic_names : Bool
  pub use_xchacha : Bool
  pub long_name_max : ℕ
  pub masterkey : Option Bytes

-- Each `if` of `Create` around `setFeatureFlag`.
pub set_if : Bool → Flag → List Bytes → List Bytes
unfolding set_feature_flag
set_if b flag flags = if b then set_feature_flag flag flags else flags

-- The test of `Create` on a limit for long names that is not the default.
abbrev pub custom_max : CreateArgs → Bool
custom_max args = args.long_name_max != 0 && args.long_name_max != 255

-- The flags that `Create` sets, in its order.
unfoldable pub create_flags : Bool → Bool → Bool → Bool → Bool → List Bytes
unfolding set_if
create_flags xchacha plain deterministic siv custom =
    let content =
      set_if (not xchacha) gcm_iv128
        (set_if xchacha xchacha20_poly1305_flag (set_if true hkdf_flag [])) in
    let names =
      set_if (not plain && not deterministic) dir_iv (set_if plain plaintext_names content) in
    let long = set_if (not plain && custom) long_name_max_flag names in
    let rest =
      set_if (not plain) raw64
        (set_if (not plain) long_names (set_if (not plain) eme_names long)) in
    set_if siv aes_siv_flag rest

-- `Create` up to its call of `Validate`. `random` is the salt.
unfoldable pub create_settings : CreateArgs → Bytes → ConfFile
unfolding create_flags
create_settings args random = record {
  creator = args.creator;
  encrypted_key = [];
  scrypt_object = new_scrypt_kdf random args.log_n;
  version = current_version;
  feature_flags =
      create_flags args.use_xchacha args.use_plaintext_names args.deterministic_names
        args.use_aes_siv (custom_max args);
  fido2 = none;
  long_name_max = if not args.use_plaintext_names && custom_max args then args.long_name_max else 0;
  filename = args.filename;
}

unfoldable pub content_encryption : ConfFile → Outcome AeadType
unfolding validate
content_encryption cf = elim (validate cf) [
  | some e ↦ err e
  | none ↦ ok (
      if is_feature_flag_set cf.feature_flags xchacha20_poly1305_flag
      then xchacha20_poly1305
      else if is_feature_flag_set cf.feature_flags aes_siv_flag
      then aes_siv
      else go_gcm)
]
