-- ===== src/ContentEnc/Blocks/Setup.antt =====
-- `New`: the sizes that it derives, and its request buffers.
use native.Mathlib.Nat.{
  mod-eq_of_lt, div-add-mod', div-lt_iff_lt-mul, mod-lt, div-le_self, mul-le-mul_right,
}
use shiroikuma_gcfs.Prelude.{ℕ, ◌+◌, ◌-◌, ◌*◌, ◌/◌, ◌%◌, ◌≤◌, ◌<◌, ◌≡◌, refl, ok, arith, ◌>>=◌}
use shiroikuma_gcfs.CryptoCore.{CryptoCore, auth_tag_len}
use shiroikuma_gcfs.ContentEnc.Offsets.{IsGeometry, u64, add64}
use shiroikuma_gcfs.ContentEnc.IntraBlocks.{explode_plain_range, joint_ciphertext_range}
use shiroikuma_gcfs.ContentEnc.IntraBlocks.Joint.{joint_ciphertext_range-explode_plain_range}
use shiroikuma_gcfs.ContentEnc.Blocks.{ContentEnc, IsContentEnc, with_sizes, new, max_kernel_write}

scale : (n k size : ℕ) → n ≤ k + 1 → n * size ≤ k * size + size
scale n k size h = let more : n * size ≤ (k + 1) * size = mul-le-mul_right size h in omega arith

module _ (cc : CryptoCore) (plain_bs : ℕ) {be : ContentEnc} (made : new cc plain_bs ≡ ok be) where
  built : be ≡ with_sizes cc plain_bs
  unfolding new
  built = ground arith

  plain_bs_lem : be.plain_bs ≡ plain_bs
  unfolding with_sizes
  plain_bs_lem = rw built

  pub crypto_core_lem : be.crypto_core ≡ cc
  unfolding with_sizes
  crypto_core_lem = rw built refl

  aligned : max_kernel_write % plain_bs ≡ 0
  unfolding new
  aligned = ground arith

  pub block_fits : (0 < plain_bs) × (plain_bs ≤ max_kernel_write)
  block_fits = ground (arith, aligned, mod-eq_of_lt {n = max_kernel_write} {m = plain_bs})

  -- What New accepts, for a core with nonces of 1 to 64 bytes, is a valid ContentEnc: its blocks
  -- hold something and a block on disk is the plaintext with its nonce and its tag.
  pub new-IsContentEnc : 0 < cc.iv_len → cc.iv_len ≤ 64 → IsContentEnc be
  unfolding with_sizes
  new-IsContentEnc some_nonce small = rw built fields
    where
      fields : IsContentEnc (with_sizes cc plain_bs)
      fields = record {
        has_room = block_fits.0;
        has_nonce = some_nonce;
        cipher_size = omega (arith, block_fits);
        fits = omega arith;
        zero_block = refl;
        zero_nonce = refl;
      }

  abbrev blocks_per_request : ℕ
  blocks_per_request = max_kernel_write / plain_bs

  whole_blocks : blocks_per_request * plain_bs ≡ max_kernel_write
  whole_blocks = omega (arith, div-add-mod' max_kernel_write plain_bs, aligned)

  module _ (some_nonce : 0 < cc.iv_len) (small : cc.iv_len ≤ 64) where
    c_req_size_lem : be.c_req_size ≡ blocks_per_request * be.cipher_bs + be.cipher_bs
    unfolding with_sizes
    c_req_size_lem = rw built (
        rw whole
          (omega (arith, whole_blocks, bounded, div-le_self max_kernel_write plain_bs, block_fits)))
      where
        overhead : ℕ
        overhead = cc.iv_len + 16

        whole : add64 (add64 plain_bs cc.iv_len) auth_tag_len ≡ plain_bs + overhead
        whole = omega (arith, block_fits)

        bounded : blocks_per_request * overhead ≤ max_kernel_write * 80
        bounded = grind (arith, div-le_self max_kernel_write plain_bs)

    few_blocks :
        (offset length : ℕ)
        → 0 < length
        → length ≤ max_kernel_write
        → (offset + length - 1) / plain_bs + 1 - offset / plain_bs ≤ blocks_per_request + 1
    few_blocks offset length some_left short =
        let before : (offset + length - 1) / plain_bs < offset / plain_bs + 1 + blocks_per_request =
          (div-lt_iff_lt-mul {k = plain_bs} block_fits.0).1 (
            omega
              (arith, whole_blocks, div-add-mod' offset plain_bs, mod-lt offset block_fits.0)) in
        omega arith

    -- For a ContentEnc that New built from a nonce length of 1 to 64 bytes, the ciphertext range of
    -- every request of 1 to MAX_KERNEL_WRITE bytes that ends below 2^64, in the file and on disk,
    -- fits the request buffer.
    pub joint_ciphertext_range-le-c_req_size :
        (offset length : ℕ) {start size : ℕ}
        → 0 < length
        → length ≤ max_kernel_write
        → offset + length < u64
        → 18 + (offset + length - 1) / be.plain_bs * be.cipher_bs + be.cipher_bs < u64
        → (explode_plain_range be.geometry offset length >>= joint_ciphertext_range be.geometry)
          ≡ ok (start, size)
        → size ≤ be.c_req_size
    joint_ciphertext_range-le-c_req_size offset length {start} {size} some_left short fits fits_disk
          e =
        let joint =
          joint_ciphertext_range-explode_plain_range be.geometry geometry offset length some_left
            fits fits_disk valid.fits in
        let size_eq : size ≡ blocks * be.cipher_bs = ground (arith, e, joint) in
        rw (size_eq, c_req_size_lem) (scale blocks blocks_per_request be.cipher_bs few)
      where
        valid : IsContentEnc be
        valid = new-IsContentEnc some_nonce small

        geometry : IsGeometry be.geometry
        geometry = omega (arith, valid.has_room, valid.cipher_size)

        blocks : ℕ
        blocks = (offset + length - 1) / be.plain_bs + 1 - offset / be.plain_bs

        few : blocks ≤ blocks_per_request + 1
        few = rw plain_bs_lem (few_blocks offset length some_left short)
