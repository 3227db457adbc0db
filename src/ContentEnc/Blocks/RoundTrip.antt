-- ===== src/ContentEnc/Blocks/RoundTrip.antt =====
-- Decrypting what was encrypted.
use shiroikuma_gcfs.Prelude.{
  ℕ, ◌+◌, ◌≡◌, ◌≢◌, refl, sym, ap, ◌∙◌, Option, none, some, [], ◌++◌, ok, ◌>>=◌, arith, length,
  take, drop, replicate, length-append, Bytes, bytes_equal, bytes_equal_iff, big_endian,
  take-append_length, drop-append_length, take-replicate, false, Bool-cases, inl, inr,
}
use shiroikuma_gcfs.CryptoCore.{IsAead}
use shiroikuma_gcfs.ContentEnc.Offsets.{block_overhead}
use shiroikuma_gcfs.ContentEnc.Blocks.{
  ContentEnc, IsContentEnc, concat_ad, opened, decrypt_block, do_encrypt_block,
}

-- `nil`, or as many bytes as a header has room for.
abbrev pub IsFileId : Option Bytes → Type 0
IsFileId none = Unit {0}
IsFileId (some id) = length id ≡ 16

-- What the random source gives: a nonce of the right length that is not all zero.
pub record IsNonce (be : ContentEnc) (nonce : Bytes) : Type 0 where
  pub sized : length nonce ≡ be.crypto_core.iv_len
  pub random : nonce ≢ replicate be.crypto_core.iv_len 0

-- The block number in big-endian order, followed by the file ID, if there is one.
abbrev pub associated : ℕ → Option Bytes → Bytes
associated n none = big_endian 8 n
associated n (some id) = big_endian 8 n ++ id

concat_ad_lem : (n : ℕ) (id : Option Bytes) → IsFileId id → concat_ad n id ≡ ok (associated n id)
unfolding concat_ad
concat_ad_lem n none h = refl
concat_ad_lem n (some id) h = ground arith

-- The block on disk: nonce, ciphertext and tag.
abbrev pub sealed : ContentEnc → Bytes → ℕ → Option Bytes → Bytes → Bytes
sealed be p n id nonce = nonce ++ be.crypto_core.aead_cipher.seal nonce p (associated n id)

module _ (be : ContentEnc) (v : IsContentEnc be) (a : IsAead be.crypto_core.aead_cipher) where
  open be use {plain_bs, cipher_bs}
  open be.crypto_core use {iv_len, aead_cipher}

  overhead_lem : block_overhead be.geometry ≡ iv_len + 16
  unfolding block_overhead
  overhead_lem = omega (arith, v.cipher_size, v.fits)

  module _ (p : Bytes) (n : ℕ) (id : Option Bytes) (nonce : Bytes) (has_data : p ≢ [])
      (named : IsFileId id) (fresh : IsNonce be nonce) where
    abbrev block : Bytes
    block = sealed be p n id nonce

    pub length-sealed : length block ≡ length p + (iv_len + 16)
    length-sealed = omega (
      arith,
      length-append nonce (aead_cipher.seal nonce p (associated n id)),
      a.length-seal nonce p (associated n id),
      fresh.sized,
    )

    pub do_encrypt_block_lem : do_encrypt_block be p n id nonce ≡ ok block
    unfolding do_encrypt_block
    do_encrypt_block_lem =
        ground (arith, overhead_lem, length-sealed, concat_ad_lem n id named, fresh.sized)

    nonce_part : take iv_len block ≡ nonce
    nonce_part =
        rw (← fresh.sized) (take-append_length nonce (aead_cipher.seal nonce p (associated n id)))

    cipher_part : drop iv_len block ≡ aead_cipher.seal nonce p (associated n id)
    cipher_part =
        rw (← fresh.sized) (drop-append_length nonce (aead_cipher.seal nonce p (associated n id)))

    not_all_zero : bytes_equal block be.all_zero_block ≡ false
    not_all_zero = elim (Bool-cases (bytes_equal block be.all_zero_block)) [
      | inl zero_block ↦ absurd (
          fresh.random (
            sym nonce_part
            ∙ ap (take iv_len)
                ((bytes_equal_iff block be.all_zero_block).0 zero_block ∙ v.zero_block)
            ∙ take-replicate iv_len cipher_bs 0 (omega (arith, v.cipher_size))))
      | inr other ↦ other
    ]

    nonce_not_zero : bytes_equal nonce be.all_zero_nonce ≡ false
    nonce_not_zero =
        ground (arith, bytes_equal_iff nonce be.all_zero_nonce, v.zero_nonce, fresh.random)

    pub decrypt_block-sealed : decrypt_block be block n id ≡ ok p
    unfolding decrypt_block opened
    decrypt_block-sealed =
        simp
          (
            nonce_part,
            cipher_part,
            not_all_zero,
            nonce_not_zero,
            concat_ad_lem n id named,
            a.open-seal,
          )
          (ground (arith, length-sealed, v.has_nonce))

    -- For a valid ContentEnc over an AEAD, a block with data, a file ID that is nil or 16 bytes
    -- long and a nonce of the right length that is not all zero, DecryptBlock of what
    -- doEncryptBlock returns is the plaintext, under the same block number and file ID.
    pub decrypt_block-do_encrypt_block :
        (do_encrypt_block be p n id nonce >>= λ c. decrypt_block be c n id) ≡ ok p
    decrypt_block-do_encrypt_block = rw do_encrypt_block_lem decrypt_block-sealed
