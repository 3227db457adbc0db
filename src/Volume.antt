-- ===== src/Volume.antt =====
-- volume.go: what `registerNewVolume` builds from a configuration and the master key.
pub mod Opened
mod Examples
use shiroikuma_gcfs.Prelude.{
  ℕ, ◌*◌, Bool, true, false, not, Outcome, ok, ◌>>=◌, if◌then◌else◌, [], Bytes,
}
use shiroikuma_gcfs.CryptoCore.{
  AeadType, go_gcm, open_ssl, xchacha20_poly1305, xchacha20_poly1305_open_ssl, nonce_size_of,
  CryptoCore,
}
use shiroikuma_gcfs.CryptoCore.Setup as Core
use shiroikuma_gcfs.CryptoCore.Setup.{Ciphers}
use shiroikuma_gcfs.ContentEnc.Blocks as Content
use shiroikuma_gcfs.ContentEnc.Blocks.{ContentEnc, default_bs}
use shiroikuma_gcfs.NameTransform.Names as Names
use shiroikuma_gcfs.NameTransform.Names.{NameTransform}
use shiroikuma_gcfs.ConfigFile.Flags.{
  plaintext_names, raw64, dir_iv, hkdf_flag, is_feature_flag_set,
}
use shiroikuma_gcfs.ConfigFile.Settings.{ConfFile, content_encryption}

-- The fields of `Volume` that `registerNewVolume` derives. `dir_iv_len` is that of its `dirCache`. The
-- table of file handles starts empty.
pub record Volume : Type 0 where
  pub root_cipher_dir : Bytes
  pub plain_text_names : Bool
  pub name_transform : NameTransform
  pub crypto_core : CryptoCore
  pub content_enc : ContentEnc
  pub dir_iv_len : ℕ

-- `PreferOpenSSLXchacha20poly1305()` and `PreferOpenSSLAES256GCM()` look at the processor.
unfoldable pub preferred : Bool → Bool → AeadType → AeadType
preferred prefer_xchacha prefer_gcm xchacha20_poly1305 =
    if prefer_xchacha then xchacha20_poly1305_open_ssl else xchacha20_poly1305
preferred prefer_xchacha prefer_gcm go_gcm = if prefer_gcm then open_ssl else go_gcm
preferred prefer_xchacha prefer_gcm t = t

-- `DirIVLen`
abbrev pub dir_iv_length : ℕ
dir_iv_length = 16

-- An error here is the result -1 of `registerNewVolume`.
unfoldable pub new_volume : Ciphers → Bool → Bool → Bytes → Bytes → ConfFile → Outcome Volume
unfolding preferred Core.new Content.new Names.new
new_volume ciphers prefer_xchacha prefer_gcm root_cipher_dir masterkey cf = do
  selected ← content_encryption cf
  let backend = preferred prefer_xchacha prefer_gcm selected
  let flags = cf.feature_flags
  core ←
      Core.new ciphers masterkey backend (nonce_size_of backend * 8)
        (is_feature_flag_set flags hkdf_flag)
  content_enc ← Content.new core default_bs
  let plain_text_names = is_feature_flag_set flags plaintext_names
  ok (record {
    root_cipher_dir = root_cipher_dir;
    plain_text_names = plain_text_names;
    name_transform =
        Names.new core.eme_cipher true cf.long_name_max (is_feature_flag_set flags raw64) []
          (not (is_feature_flag_set flags dir_iv));
    crypto_core = core;
    content_enc = content_enc;
    dir_iv_len = if plain_text_names then 0 else dir_iv_length;
  })
