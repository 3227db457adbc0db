-- ===== src/Volume/Opened.antt =====
-- Volumes and the configurations that they open from.
use shiroikuma_gcfs.Prelude.{
  ℕ, ◌*◌, ◌<◌, ◌≤◌, ◌≡◌, refl, Bool, true, false, inl, inr, Option, none, some, List, Error,
  Outcome, ok, err, ◌>>=◌, arith, length, Bytes, if◌then◌else◌,
}
use shiroikuma_gcfs.CryptoCore.{
  AeadType, open_ssl, go_gcm, aes_siv, xchacha20_poly1305, xchacha20_poly1305_open_ssl,
  nonce_size_of, CryptoCore,
}
use shiroikuma_gcfs.CryptoCore.Setup as Core
use shiroikuma_gcfs.CryptoCore.Setup.{Ciphers, HasNonceSizes}
use shiroikuma_gcfs.CryptoCore.Setup.Sizes.{takes, returns, returned, returns-new, new-eq-ok}
use shiroikuma_gcfs.ContentEnc.Blocks as Content
use shiroikuma_gcfs.ContentEnc.Blocks.{ContentEnc, IsContentEnc, default_bs}
use shiroikuma_gcfs.ContentEnc.Blocks.Setup.{new-IsContentEnc}
use shiroikuma_gcfs.ConfigFile.Flags.{
  hkdf_flag, xchacha20_poly1305_flag, aes_siv_flag, is_feature_flag_set,
}
use shiroikuma_gcfs.ConfigFile.Settings.{ConfFile, validate, content_encryption}
use shiroikuma_gcfs.ConfigFile.Settings.Supported.{Has, HasCipher, validate_iff}
use shiroikuma_gcfs.Volume.{preferred, new_volume}

algorithm : Bool → Bool → AeadType
algorithm xchacha siv = if xchacha then xchacha20_poly1305 else if siv then aes_siv else go_gcm

content_encryption_lem :
    (cf : ConfFile)
    → validate cf ≡ none
    → content_encryption cf
      ≡ ok (
          algorithm
            (is_feature_flag_set cf.feature_flags xchacha20_poly1305_flag)
            (is_feature_flag_set cf.feature_flags aes_siv_flag))
unfolding content_encryption algorithm
content_encryption_lem cf valid = no_error (validate cf) _ valid
  where
    no_error :
        (o : Option Error) (t : AeadType)
        → o ≡ none
        → elim o [ some e ↦ err e | none ↦ ok t ] ≡ Outcome.ok t
    no_error none t h = refl
    no_error (some e) t h = cc h

takes-algorithm :
    (xchacha siv hkdf prefer_xchacha prefer_gcm : Bool)
    → (xchacha ≡ true → hkdf ≡ true)
    → takes
        (preferred prefer_xchacha prefer_gcm (algorithm xchacha siv))
        (nonce_size_of (preferred prefer_xchacha prefer_gcm (algorithm xchacha siv)) * 8)
        hkdf
      ≡ true
unfolding preferred algorithm
takes-algorithm true siv hkdf true prefer_gcm h = h refl
takes-algorithm true siv hkdf false prefer_gcm h = h refl
takes-algorithm false true hkdf prefer_xchacha prefer_gcm h = refl
takes-algorithm false false hkdf prefer_xchacha true h = refl
takes-algorithm false false hkdf prefer_xchacha false h = refl

-- XChaCha20-Poly1305 comes with HKDF.
with_hkdf :
    (flags : List Bytes) → HasCipher flags → Has flags xchacha20_poly1305_flag → Has flags hkdf_flag
with_hkdf flags (inl (_, (_, (_, hkdf)))) h = hkdf
with_hkdf flags (inr (other, _)) h = cc (other, h)

returns-content_new : (core : CryptoCore) → returns (Content.new core default_bs) ≡ true
unfolding Content.new
returns-content_new core = refl

nonce_bounds : (t : AeadType) → (0 < nonce_size_of t) × (nonce_size_of t ≤ 24)
nonce_bounds open_ssl = omega arith
nonce_bounds go_gcm = omega arith
nonce_bounds aes_siv = omega arith
nonce_bounds xchacha20_poly1305 = omega arith
nonce_bounds xchacha20_poly1305_open_ssl = omega arith

module _ (c : Ciphers) (s : HasNonceSizes c)
    (hkdf_length : (key info : Bytes) (n : ℕ) → length (c.hkdf key info n) ≡ n)
    (sha512_length : (key : Bytes) → length (c.sha512 key) ≡ 64) where
  -- With ciphers that keep their documented nonce sizes, HKDF and SHA-512 with outputs of the
  -- documented length, and a master key of 32 bytes, registerNewVolume succeeds without a panic on
  -- every configuration that Validate accepts, whichever OpenSSL preference holds, and the content
  -- encryption of the volume is valid.
  pub new_volume-IsContentEnc :
      (prefer_xchacha prefer_gcm : Bool) (root_cipher_dir masterkey : Bytes) (cf : ConfFile)
      → validate cf ≡ none
      → length masterkey ≡ 32
      → (enc : ContentEnc) × ((new_volume c prefer_xchacha prefer_gcm root_cipher_dir masterkey cf
            >>= λ v. ok v.content_enc)
          ≡ ok enc)
        × IsContentEnc enc
  unfolding new_volume
  new_volume-IsContentEnc prefer_xchacha prefer_gcm root_cipher_dir masterkey cf valid sized =
      let flags = cf.feature_flags in
      let hkdf = is_feature_flag_set flags hkdf_flag in
      let xchacha = is_feature_flag_set flags xchacha20_poly1305_flag in
      let siv = is_feature_flag_set flags aes_siv_flag in
      let backend = preferred prefer_xchacha prefer_gcm (algorithm xchacha siv) in
      let bits = nonce_size_of backend * 8 in
      let fitting =
        takes-algorithm xchacha siv hkdf prefer_xchacha prefer_gcm
          (with_hkdf flags ((validate_iff cf).0 valid).one_cipher) in
      let accepts = returns-new c s hkdf_length sha512_length masterkey backend bits hkdf in
      let (core, made) =
        returned (Core.new c masterkey backend bits hkdf)
          (ground (arith, accepts, fitting, sized)) in
      let (enc, built) = returned (Content.new core default_bs) (returns-content_new core) in
      let (_, (iv_len, _, _)) = new-eq-ok c masterkey backend bits hkdf made in
      let bounds = nonce_bounds backend in
      (
        enc,
        rw (content_encryption_lem cf valid, made, built) refl,
        new-IsContentEnc core default_bs built (omega (arith, iv_len, bounds))
            (omega (arith, iv_len, bounds)),
      )
