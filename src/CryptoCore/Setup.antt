-- ===== src/CryptoCore/Setup.antt =====
-- `New` of internal/cryptocore/cryptocore.go, with hkdf.go: which keys and nonce lengths each backend
-- takes, and what it derives from the key.
pub mod Sizes
use shiroikuma_gcfs.Prelude.{
  ℕ, ◌*◌, ◌/◌, ◌≡◌, Bool, true, false, ◌&&◌, Outcome, ok, panic, ◌>>=◌, ◌!=◌, if◌then◌else◌, not,
  length, Bytes, bytes_of,
}
use shiroikuma_gcfs.CryptoCore.{
  Aead, Eme, AeadType, open_ssl, go_gcm, aes_siv, xchacha20_poly1305, xchacha20_poly1305_open_ssl,
  CryptoCore, key_len,
}

-- Other libraries' code: the ciphers by their key (GCM also by its nonce size), HKDF-SHA256 by key,
-- info and output length, and SHA-512.
pub record Ciphers : Type 0 where
  pub eme : Bytes → Eme
  pub aes_gcm : Bytes → ℕ → Aead
  pub open_ssl_gcm : Bytes → Aead
  pub siv : Bytes → Aead
  pub xchacha : Bytes → Aead
  pub open_ssl_xchacha : Bytes → Aead
  pub hkdf : Bytes → Bytes → ℕ → Bytes
  pub sha512 : Bytes → Bytes

-- The nonce sizes that the libraries document.
pub record HasNonceSizes (c : Ciphers) : Type 0 where
  pub aes_gcm_nonce : (key : Bytes) (size : ℕ) → (c.aes_gcm key size).nonce_size ≡ size
  pub open_ssl_gcm_nonce : (key : Bytes) → (c.open_ssl_gcm key).nonce_size ≡ 16
  pub siv_nonce : (key : Bytes) → (c.siv key).nonce_size ≡ 16
  pub xchacha_nonce : (key : Bytes) → (c.xchacha key).nonce_size ≡ 24
  pub open_ssl_xchacha_nonce : (key : Bytes) → (c.open_ssl_xchacha key).nonce_size ≡ 24

-- `chacha20poly1305.NonceSizeX`
abbrev pub nonce_size_x : ℕ
nonce_size_x = 24

abbrev pub siv_key_len : ℕ
siv_key_len = 64

abbrev pub hkdf_info_eme_names : Bytes
hkdf_info_eme_names = bytes_of "EME filename encryption"

abbrev pub hkdf_info_gcm_content : Bytes
hkdf_info_gcm_content = bytes_of "AES-GCM file content encryption"

abbrev pub hkdf_info_siv_content : Bytes
hkdf_info_siv_content = bytes_of "AES-SIV file content encryption"

abbrev pub hkdf_info_xchacha_content : Bytes
hkdf_info_xchacha_content = bytes_of "XChaCha20-Poly1305 file content encryption"

pub gcm_key : Ciphers → Bytes → Bool → Bytes
gcm_key c key use_hkdf = if use_hkdf then c.hkdf key hkdf_info_gcm_content key_len else key

-- `siv_aead.New`
pub siv_new : Ciphers → Bytes → Outcome Aead
siv_new c key = if length key != siv_key_len then panic else ok (c.siv key)

-- The branch of `New` that initialises the content cipher.
unfoldable pub content_cipher : Ciphers → Bytes → AeadType → ℕ → Bool → Outcome Aead
unfolding gcm_key siv_new
content_cipher c key open_ssl iv_bit_len use_hkdf =
    if iv_bit_len != 128 then panic else ok (c.open_ssl_gcm (gcm_key c key use_hkdf))
content_cipher c key go_gcm iv_bit_len use_hkdf =
    ok (c.aes_gcm (gcm_key c key use_hkdf) (iv_bit_len / 8))
content_cipher c key aes_siv iv_bit_len use_hkdf =
    if iv_bit_len != 128
    then panic
    else siv_new c (if use_hkdf then c.hkdf key hkdf_info_siv_content siv_key_len else c.sha512 key)
content_cipher c key xchacha20_poly1305 iv_bit_len use_hkdf =
    if iv_bit_len != nonce_size_x * 8
    then panic
    else if not use_hkdf
    then panic
    else ok (c.xchacha (c.hkdf key hkdf_info_xchacha_content key_len))
content_cipher c key xchacha20_poly1305_open_ssl iv_bit_len use_hkdf =
    if iv_bit_len != nonce_size_x * 8
    then panic
    else if not use_hkdf
    then panic
    else ok (c.open_ssl_xchacha (c.hkdf key hkdf_info_xchacha_content key_len))

unfoldable pub new : Ciphers → Bytes → AeadType → ℕ → Bool → Outcome CryptoCore
unfolding content_cipher
new c key aead_type iv_bit_len use_hkdf =
    if length key != key_len
    then panic
    else if iv_bit_len != 96 && iv_bit_len != 128 && iv_bit_len != nonce_size_x * 8
    then panic
    else do
      aead_cipher ← content_cipher c key aead_type iv_bit_len use_hkdf
      if aead_cipher.nonce_size * 8 != iv_bit_len
          then panic
          else ok (record {
            eme_cipher = c.eme (if use_hkdf then c.hkdf key hkdf_info_eme_names key_len else key);
            aead_cipher = aead_cipher;
            aead_backend = aead_type;
            iv_len = iv_bit_len / 8;
          })
