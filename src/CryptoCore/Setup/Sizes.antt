-- ===== src/CryptoCore/Setup/Sizes.antt =====
-- What `New` takes, and the nonce length of the core that it makes.
use shiroikuma_gcfs.Prelude.{
  ℕ, ◌*◌, ◌/◌, ◌≡◌, refl, Bool, true, false, ◌&&◌, Outcome, ok, err, stuck, panic, ◌>>=◌, ◌==◌,
  ◌!=◌, >>=-eq-ok, past_panic, ◌||◌, if◌then◌else◌, arith, length, Bytes,
}
use shiroikuma_gcfs.CryptoCore.{
  Aead, AeadType, open_ssl, go_gcm, aes_siv, xchacha20_poly1305, xchacha20_poly1305_open_ssl,
  CryptoCore, Eme, key_len,
}
use shiroikuma_gcfs.CryptoCore.Setup.{
  Ciphers, HasNonceSizes, new, content_cipher, gcm_key, siv_key_len, hkdf_info_siv_content,
  hkdf_info_xchacha_content,
}

-- The nonce lengths in bits of a backend, and whether it does without HKDF.
abbrev pub takes : AeadType → ℕ → Bool → Bool
takes go_gcm bits use_hkdf = bits == 96 || bits == 128 || bits == 192
takes open_ssl bits use_hkdf = bits == 128
takes aes_siv bits use_hkdf = bits == 128
takes xchacha20_poly1305 bits use_hkdf = bits == 192 && use_hkdf
takes xchacha20_poly1305_open_ssl bits use_hkdf = bits == 192 && use_hkdf

abbrev pub returns : {A : Type 0} → Outcome A → Bool
returns (ok a) = true
returns _ = false

pub returned : {A : Type 0} (m : Outcome A) → returns m ≡ true → (a : A) × (m ≡ ok a)
returned (ok a) h = (a, refl)
returned (err e) h = cc h
returned panic h = cc h
returned stuck h = cc h

module _ (c : Ciphers) (s : HasNonceSizes c)
    (hkdf_length : (key info : Bytes) (n : ℕ) → length (c.hkdf key info n) ≡ n)
    (sha512_length : (key : Bytes) → length (c.sha512 key) ≡ 64) where
  -- With ciphers that keep their documented nonce sizes, and HKDF and SHA-512 with outputs of the
  -- documented length, New of cryptocore returns, and does not panic, exactly when the key has 32
  -- bytes and the backend takes the nonce length and the HKDF setting.
  pub returns-new :
      (key : Bytes) (t : AeadType) (bits : ℕ) (use_hkdf : Bool)
      → returns (new c key t bits use_hkdf) ≡ (length key == 32 && takes t bits use_hkdf)
  unfolding new
  returns-new key go_gcm bits use_hkdf =
      ground (arith, s.aes_gcm_nonce (gcm_key c key use_hkdf) (bits / 8))
  returns-new key open_ssl bits use_hkdf =
      ground (arith, s.open_ssl_gcm_nonce (gcm_key c key use_hkdf))
  returns-new key aes_siv bits true =
      let long = hkdf_length key hkdf_info_siv_content siv_key_len in
      ground (arith, long, s.siv_nonce (c.hkdf key hkdf_info_siv_content siv_key_len))
  returns-new key aes_siv bits false = ground (arith, sha512_length key, s.siv_nonce (c.sha512 key))
  returns-new key xchacha20_poly1305 bits use_hkdf =
      ground (arith, s.xchacha_nonce (c.hkdf key hkdf_info_xchacha_content key_len))
  returns-new key xchacha20_poly1305_open_ssl bits use_hkdf =
      ground (arith, s.open_ssl_xchacha_nonce (c.hkdf key hkdf_info_xchacha_content key_len))

core_of :
    (made : Outcome Aead) (bits : ℕ) (t : AeadType) (e : Eme) {core : CryptoCore}
    → (do
      aead_cipher ← made
      if aead_cipher.nonce_size * 8 != bits
          then panic
          else ok (record {
            eme_cipher = e;
            aead_cipher = aead_cipher;
            aead_backend = t;
            iv_len = bits / 8;
          }))
      ≡ ok core
    → (core.iv_len * 8 ≡ bits)
      × (core.aead_cipher.nonce_size ≡ core.iv_len)
      × (core.aead_backend ≡ t)
core_of made bits t e {core} h =
    let (cipher, _, rest) = >>=-eq-ok made _ h in
    let (same, built) = past_panic (cipher.nonce_size * 8 != bits) _ rest in
    fields cipher (ground (arith, same)) (ok_core built)
  where
    ok_core : {x y : CryptoCore} → Outcome.ok x ≡ ok y → x ≡ y
    ok_core e = cc e

    fields :
        (cipher : Aead)
        → cipher.nonce_size * 8 ≡ bits
        → record { eme_cipher = e; aead_cipher = cipher; aead_backend = t; iv_len = bits / 8 }
          ≡ core
        → (core.iv_len * 8 ≡ bits)
          × (core.aead_cipher.nonce_size ≡ core.iv_len)
          × (core.aead_backend ≡ t)
    fields cipher same built = rw (← built) (omega arith, omega arith, refl)

-- When New of cryptocore returns, the key has 32 bytes, the core has the requested backend and
-- nonce length, and the nonce size of the cipher is that length.
pub new-eq-ok :
    (c : Ciphers) (key : Bytes) (t : AeadType) (bits : ℕ) (use_hkdf : Bool) {core : CryptoCore}
    → new c key t bits use_hkdf ≡ ok core
    → (length key ≡ 32)
      × ((core.iv_len * 8 ≡ bits)
          × (core.aead_cipher.nonce_size ≡ core.iv_len)
          × (core.aead_backend ≡ t))
unfolding new
new-eq-ok c key t bits use_hkdf h =
    let (sized, rest) = past_panic (length key != 32) _ h in
    let (_, rest') = past_panic (bits != 96 && bits != 128 && bits != 192) _ rest in
    (ground (arith, sized), core_of (content_cipher c key t bits use_hkdf) bits t _ rest')
