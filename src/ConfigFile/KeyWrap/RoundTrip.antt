-- ===== src/ConfigFile/KeyWrap/RoundTrip.antt =====
-- Wrapping a master key and unwrapping it.
use shiroikuma_gcfs.Prelude.{
  ℕ, ◌≡◌, ◌≢◌, refl, ap, ◌<◌, ◌≤◌, Bool, true, false, Option, none, some, [], ok, ◌>>=◌, arith,
  if◌then◌else◌, length, replicate, Bytes,
}
use shiroikuma_gcfs.CryptoCore.{IsAead, CryptoCore, go_gcm}
use shiroikuma_gcfs.CryptoCore.Setup as Core
use shiroikuma_gcfs.CryptoCore.Setup.{Ciphers, HasNonceSizes, gcm_key, hkdf_info_eme_names}
use shiroikuma_gcfs.CryptoCore.Setup.Sizes.{returns, returned}
use shiroikuma_gcfs.ContentEnc.Blocks as Content
use shiroikuma_gcfs.ContentEnc.Blocks.{ContentEnc, IsContentEnc, encrypt_block, decrypt_block}
use shiroikuma_gcfs.ContentEnc.Blocks.Setup.{new-IsContentEnc, crypto_core_lem}
use shiroikuma_gcfs.ContentEnc.Blocks.RoundTrip.{
  IsNonce, sealed, do_encrypt_block_lem, decrypt_block-sealed,
}
use shiroikuma_gcfs.ConfigFile.Flags.{hkdf_flag, is_feature_flag_set}
use shiroikuma_gcfs.ConfigFile.Scrypt.{new_scrypt_kdf, derive_key}
use shiroikuma_gcfs.ConfigFile.Settings.{ConfFile}
use shiroikuma_gcfs.ConfigFile.KeyWrap.{
  Scrypt, get_key_encrypter, incorrect, encrypt_key, get_masterkey,
  decrypt_master_key_with_scrypt_hash,
}

abbrev pub nonce_len : Bool → ℕ
nonce_len use_hkdf = if use_hkdf then 16 else 12

-- The hash beside the result of `encrypt_key`.
abbrev pub hash_of : Option Bytes → Bytes
hash_of none = []
hash_of (some scrypt_hash) = scrypt_hash

-- What `getKeyEncrypter` returns.
record KeyEncrypter (c : Ciphers) (scrypt_hash : Bytes) (use_hkdf : Bool) : Type 0 where
  ce : ContentEnc
  made : get_key_encrypter c scrypt_hash use_hkdf ≡ ok ce
  valid : IsContentEnc ce
  aead : IsAead ce.crypto_core.aead_cipher
  sized : ce.crypto_core.iv_len ≡ nonce_len use_hkdf

module _ (c : Ciphers) (s : HasNonceSizes c)
    (gcm_law : (key : Bytes) (size : ℕ) → IsAead (c.aes_gcm key size)) where
  core_of : Bytes → Bool → CryptoCore
  core_of scrypt_hash use_hkdf = record {
    eme_cipher =
        c.eme (if use_hkdf then c.hkdf scrypt_hash hkdf_info_eme_names 32 else scrypt_hash);
    aead_cipher = c.aes_gcm (gcm_key c scrypt_hash use_hkdf) (nonce_len use_hkdf);
    aead_backend = go_gcm;
    iv_len = nonce_len use_hkdf;
  }

  core_made :
      (scrypt_hash : Bytes) (use_hkdf : Bool)
      → length scrypt_hash ≡ 32
      → Core.new c scrypt_hash go_gcm (if use_hkdf then 128 else 96) use_hkdf
        ≡ ok (core_of scrypt_hash use_hkdf)
  unfolding Core.new core_of
  core_made scrypt_hash true size =
      ground (arith, size, s.aes_gcm_nonce (gcm_key c scrypt_hash true) 16)
  core_made scrypt_hash false size =
      ground (arith, size, s.aes_gcm_nonce (gcm_key c scrypt_hash false) 12)

  content_made : (core : CryptoCore) → returns (Content.new core 4096) ≡ true
  unfolding Content.new
  content_made core = refl

  nonce_bounds : (b : Bool) → (0 < nonce_len b) × (nonce_len b ≤ 64)
  nonce_bounds true = omega arith
  nonce_bounds false = omega arith

  key_encrypter :
      (scrypt_hash : Bytes) (use_hkdf : Bool)
      → length scrypt_hash ≡ 32
      → KeyEncrypter c scrypt_hash use_hkdf
  unfolding get_key_encrypter core_of
  key_encrypter scrypt_hash use_hkdf size =
      let core = core_of scrypt_hash use_hkdf in
      let (ce, built) = returned (Content.new core 4096) (content_made core) in
      let bounds = nonce_bounds use_hkdf in
      let same = crypto_core_lem core 4096 built in
      record {
        ce = ce;
        made = rw (core_made scrypt_hash use_hkdf size) built;
        valid = new-IsContentEnc core 4096 built bounds.0 bounds.1;
        aead = rw same (gcm_law (gcm_key c scrypt_hash use_hkdf) (nonce_len use_hkdf));
        sized = ap (λ k. k.iv_len) same;
      }

  module _ (scrypt : Scrypt) (cf : ConfFile) (key password random nonce : Bytes) (log_n : ℕ)
      {scrypt_hash : Bytes}
      (derived : derive_key scrypt (new_scrypt_kdf random log_n) password ≡ ok scrypt_hash)
      (size : length scrypt_hash ≡ 32) (has_key : key ≢ [])
      (nonce_size : length nonce ≡ nonce_len (is_feature_flag_set cf.feature_flags hkdf_flag))
      (fresh : nonce
        ≢ replicate (nonce_len (is_feature_flag_set cf.feature_flags hkdf_flag)) 0) where
    abbrev use_hkdf : Bool
    use_hkdf = is_feature_flag_set cf.feature_flags hkdf_flag

    encrypter : KeyEncrypter c scrypt_hash use_hkdf
    encrypter = key_encrypter scrypt_hash use_hkdf size

    drawn_lem : IsNonce encrypter.ce nonce
    drawn_lem = record { sized = rw encrypter.sized nonce_size; random = rw encrypter.sized fresh }

    wrapped : Bytes
    wrapped = sealed encrypter.ce key 0 none nonce

    abbrev changed : ConfFile
    changed = record {
      creator = cf.creator;
      encrypted_key = wrapped;
      scrypt_object = new_scrypt_kdf random log_n;
      version = cf.version;
      feature_flags = cf.feature_flags;
      fido2 = cf.fido2;
      long_name_max = cf.long_name_max;
      filename = cf.filename;
    }

    encrypt_key_lem :
        encrypt_key c scrypt random nonce cf key password log_n true
        ≡ ok (changed, some scrypt_hash)
    unfolding encrypt_key encrypt_block wrapped
    encrypt_key_lem = rw (
      derived,
      encrypter.made,
      do_encrypt_block_lem encrypter.ce encrypter.valid encrypter.aead key 0 none nonce has_key tt
          drawn_lem,
    )

    unwrapped : decrypt_master_key_with_scrypt_hash c changed scrypt_hash ≡ ok key
    unfolding decrypt_master_key_with_scrypt_hash incorrect wrapped
    unwrapped = rw (
      encrypter.made,
      decrypt_block-sealed encrypter.ce encrypter.valid encrypter.aead key 0 none nonce has_key tt
          drawn_lem,
    )

    -- With ciphers that keep their documented nonce sizes and AEAD laws, a derived hash of 32
    -- bytes, a key that is not empty, and a nonce of the length that goes with the HKDF flag that
    -- is not all zero: GetMasterkey returns the master key that EncryptKey wrapped, given the
    -- password, and given the scrypt hash that EncryptKey returns in its place.
    pub get_masterkey-encrypt_key :
        ((encrypt_key c scrypt random nonce cf key password log_n true >>= λ r.
        get_masterkey c scrypt r.0 password [] 0)
          ≡ ok (key, none))
        × ((encrypt_key c scrypt random nonce cf key password log_n true >>= λ r.
              get_masterkey c scrypt r.0 [] (hash_of r.1) 0)
            ≡ ok (key, none))
    unfolding get_masterkey
    get_masterkey-encrypt_key = (
      rw encrypt_key_lem (rw (derived, unwrapped) refl),
      rw encrypt_key_lem (rw unwrapped (ground (arith, size))),
    )
