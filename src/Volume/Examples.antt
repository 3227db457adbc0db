-- ===== src/Volume/Examples.antt =====
-- A concrete instance of the theorem on opening a volume.
use shiroikuma_gcfs.Prelude.{
  ◌≡◌, refl, true, none, [], ◌∷◌, ok, ◌>>=◌, length-replicate, replicate, bytes_of, bytes_equal,
}
use shiroikuma_gcfs.Samples.{plain_ciphers, plain_ciphers_lem}
use shiroikuma_gcfs.ContentEnc.Blocks.{ContentEnc, IsContentEnc}
use shiroikuma_gcfs.ConfigFile.Flags.{
  known_flags, hkdf_flag, gcm_iv128, is_feature_flag_set, is_feature_flag_known,
}
use shiroikuma_gcfs.ConfigFile.Scrypt.{new_scrypt_kdf, validate_params}
use shiroikuma_gcfs.ConfigFile.Settings.{ConfFile, validate}
use shiroikuma_gcfs.Volume.{new_volume}
use shiroikuma_gcfs.Volume.Opened.{new_volume-IsContentEnc}

abbrev gcm_conf : ConfFile
gcm_conf = record {
  creator = [];
  encrypted_key = [];
  scrypt_object = new_scrypt_kdf (replicate 32 4) 0;
  version = 2;
  feature_flags = known_flags hkdf_flag ∷ known_flags gcm_iv128 ∷ [];
  fido2 = none;
  long_name_max = 0;
  filename = [];
}

gcm_conf_valid : validate gcm_conf ≡ none
unfolding validate validate_params new_scrypt_kdf is_feature_flag_set is_feature_flag_known
    bytes_equal
gcm_conf_valid = refl

new_volume-IsContentEnc_example :
    (enc : ContentEnc) × ((new_volume plain_ciphers true true
          (bytes_of "/data")
          (replicate 32 3)
          gcm_conf
        >>= λ v. ok v.content_enc)
      ≡ ok enc)
    × IsContentEnc enc
new_volume-IsContentEnc_example =
    new_volume-IsContentEnc plain_ciphers plain_ciphers_lem (λ key info n. length-replicate n 5)
      (λ key. refl) true true (bytes_of "/data") (replicate 32 3) gcm_conf gcm_conf_valid refl
