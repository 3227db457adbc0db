-- ===== src/ConfigFile/Flags.antt =====
-- internal/configfile/feature_flags.go
use shiroikuma_gcfs.Prelude.{
  Bool, true, false, List, [], ◌∷◌, ◌++◌, if◌then◌else◌, Bytes, bytes_of, bytes_equal,
}

-- `flagIota`
pub data Flag : Type 0 where
  plaintext_names dir_iv eme_names gcm_iv128 long_names long_name_max_flag : Flag
  aes_siv_flag raw64 hkdf_flag fido2_flag xchacha20_poly1305_flag : Flag

abbrev pub known_flags : Flag → Bytes
known_flags plaintext_names = bytes_of "PlaintextNames"
known_flags dir_iv = bytes_of "DirIV"
known_flags eme_names = bytes_of "EMENames"
known_flags gcm_iv128 = bytes_of "GCMIV128"
known_flags long_names = bytes_of "LongNames"
known_flags long_name_max_flag = bytes_of "LongNameMax"
known_flags aes_siv_flag = bytes_of "AESSIV"
known_flags raw64 = bytes_of "Raw64"
known_flags hkdf_flag = bytes_of "HKDF"
known_flags fido2_flag = bytes_of "FIDO2"
known_flags xchacha20_poly1305_flag = bytes_of "XChaCha20Poly1305"

-- The keys of the map `knownFlags`, in the order of their declaration.
abbrev pub all_flags : List Flag
all_flags =
    plaintext_names ∷ dir_iv ∷ eme_names ∷ gcm_iv128 ∷ long_names ∷ long_name_max_flag
    ∷ aes_siv_flag ∷ raw64 ∷ hkdf_flag ∷ fido2_flag ∷ xchacha20_poly1305_flag ∷ []

-- The loop of `isFeatureFlagKnown`.
known_among : List Flag → Bytes → Bool
known_among [] flag = false
known_among (known ∷ rest) flag =
    if bytes_equal (known_flags known) flag then true else known_among rest flag

unfoldable pub is_feature_flag_known : Bytes → Bool
unfolding known_among bytes_equal
is_feature_flag_known flag = known_among all_flags flag

-- The loop of `IsFeatureFlagSet`.
listed : List Bytes → Bytes → Bool
listed [] flag_string = false
listed (flag ∷ rest) flag_string =
    if bytes_equal flag flag_string then true else listed rest flag_string

-- `IsFeatureFlagSet`, of the list `cf.FeatureFlags`.
unfoldable pub is_feature_flag_set : List Bytes → Flag → Bool
unfolding listed bytes_equal
is_feature_flag_set feature_flags flag_want = listed feature_flags (known_flags flag_want)

-- `setFeatureFlag`, of the list `cf.FeatureFlags`.
unfoldable pub set_feature_flag : Flag → List Bytes → List Bytes
unfolding is_feature_flag_set
set_feature_flag flag feature_flags =
    if is_feature_flag_set feature_flags flag
    then feature_flags
    else feature_flags ++ (known_flags flag ∷ [])
