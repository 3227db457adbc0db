-- ===== src/ContentEnc/Offsets/Sizes.antt =====
-- Sizes of plaintext and ciphertext.
use native.Mathlib.Nat.{
  mul-add-mod_self_right, mul-add-div_right, mod-eq_of_lt, mod_self, div-eq_of_lt, mod-lt,
  div-add-mod',
}
use shiroikuma_gcfs.Prelude.{
  ℕ, zero, suc, ◌+◌, ◌-◌, ◌*◌, ◌/◌, ◌%◌, ◌<◌, ◌≤◌, ◌≡◌, refl, ok, arith, leb, if◌then◌else◌, ap,
  ◌==◌,
}
use shiroikuma_gcfs.ContentEnc.Header.{header_len}
use shiroikuma_gcfs.ContentEnc.Offsets.{
  Geometry, IsGeometry, u64, cipher_size_to_plain_size, plain_size_to_cipher_size, pad_last_block,
  strip_overhead, block_overhead, cipher_off_to_block_no, sub64, add64, plain_off_to_cipher_off,
}

module _ (be : Geometry) (g : IsGeometry be) where
  open be use {plain_bs, cipher_bs}

  -- One block's share of plaintext for `t` bytes of ciphertext; at least one byte is assumed.
  abbrev payload : ℕ → ℕ
  payload t = if leb t (cipher_bs - plain_bs) then 1 else t - (cipher_bs - plain_bs)

  abbrev padded : ℕ → ℕ
  padded t = if leb t (cipher_bs - plain_bs) then cipher_bs - plain_bs + 1 else t

  module _ (q t : ℕ) (starts : 0 < t) (within : t ≤ cipher_bs)
      (fits : 18 + q * cipher_bs + cipher_bs < u64) where
    last_block : sub64 (18 + q * cipher_bs + t) header_len % cipher_bs ≡ t % cipher_bs
    last_block =
        let e : sub64 (18 + q * cipher_bs + t) header_len ≡ q * cipher_bs + t = omega arith in
        rw e (mul-add-mod_self_right q cipher_bs t)

    pad_last_block_lem : pad_last_block be (18 + q * cipher_bs + t) ≡ 18 + q * cipher_bs + padded t
    unfolding pad_last_block
    pad_last_block_lem =
        ground (arith, last_block, mod-eq_of_lt {n = t} {m = cipher_bs}, mod_self cipher_bs)

    block_no_lem : cipher_off_to_block_no be (sub64 (18 + q * cipher_bs + t) 1) ≡ ok q
    unfolding cipher_off_to_block_no
    block_no_lem =
        let e : sub64 (sub64 (18 + q * cipher_bs + t) 1) header_len ≡ q * cipher_bs + (t - 1) =
          omega arith in
        let zero_rest : (t - 1) / cipher_bs ≡ 0 = div-eq_of_lt (omega arith) in
        ground (arith, e, zero_rest, mul-add-div_right {m = cipher_bs} (omega arith) q (t - 1))

    overheads :
        (cipher_bs - plain_bs) * (q + 1) + q * plain_bs ≡ q * cipher_bs + (cipher_bs - plain_bs)
    overheads =
        let split : cipher_bs ≡ plain_bs + (cipher_bs - plain_bs) = omega arith in
        omega (arith, ap (λ (c : ℕ). q * c) split)

    overhead_lem : block_overhead be ≡ cipher_bs - plain_bs
    unfolding block_overhead
    overhead_lem = omega arith

    count : add64 q 1 ≡ q + 1
    count = let small : q ≤ q * cipher_bs = grind arith in omega arith

    strip_overhead_lem :
        cipher_bs - plain_bs < t
        → strip_overhead be (18 + q * cipher_bs + t)
          ≡ ok (q * plain_bs + (t - (cipher_bs - plain_bs)))
    unfolding strip_overhead
    strip_overhead_lem big = rw (block_no_lem, overhead_lem, count) (ground (arith, overheads))

  -- For valid sizes and a ciphertext size that ends in block q, t bytes into it, below 2^64:
  -- CipherSizeToPlainSize is q full blocks plus t less the overhead, or plus 1 where t is at most
  -- the overhead.
  pub cipher_size_to_plain_size_lem :
      (q t : ℕ)
      → 0 < t
      → t ≤ cipher_bs
      → 18 + q * cipher_bs + cipher_bs < u64
      → cipher_size_to_plain_size be (18 + q * cipher_bs + t) ≡ ok (q * plain_bs + payload t)
  unfolding cipher_size_to_plain_size
  cipher_size_to_plain_size_lem q t starts within fits = ground (
    arith,
    pad_last_block_lem q t starts within fits,
    strip_overhead_lem q (padded t) (ground arith) (ground arith) fits,
  )

  plain_off_to_cipher_off_lem :
      (q r : ℕ)
      → r < plain_bs
      → 18 + q * cipher_bs + cipher_bs < u64
      → plain_off_to_cipher_off be (q * plain_bs + r)
        ≡ 18 + q * cipher_bs + r + (cipher_bs - plain_bs)
  unfolding plain_off_to_cipher_off
  plain_off_to_cipher_off_lem q r inside fits =
      rw
        (
          mul-add-mod_self_right q plain_bs r,
          mul-add-div_right {m = plain_bs} (omega arith) q r,
          div-eq_of_lt {n = r} {m = plain_bs} (omega arith),
          mod-eq_of_lt {n = r} {m = plain_bs} inside,
        )
        (omega arith)

  -- The block of a plaintext's last byte ends below 2 ^ 64 on disk.
  abbrev pub Fits : ℕ → Type 0
  Fits n = 18 + (n - 1) / plain_bs * cipher_bs + cipher_bs < u64

  size_of_suc :
      (m : ℕ)
      → 18 + m / plain_bs * cipher_bs + cipher_bs < u64
      → plain_size_to_cipher_size be (suc m)
        ≡ 18 + m / plain_bs * cipher_bs + (m % plain_bs + (cipher_bs - plain_bs) + 1)
  unfolding plain_size_to_cipher_size
  size_of_suc m fits =
      let small : m < u64 = omega (arith, div-add-mod' m plain_bs, product) in
      let last : sub64 (suc m) 1 ≡ m = omega arith in
      let off =
        plain_off_to_cipher_off_lem (m / plain_bs) (m % plain_bs) (mod-lt m (omega arith)) fits in
      ground (arith, last, off, div-add-mod' m plain_bs, mod-lt m {m = plain_bs})
    where
      product : m / plain_bs * plain_bs ≤ m / plain_bs * cipher_bs
      product = grind arith

  -- For valid sizes and a plaintext whose last block ends below 2^64 on disk, PlainSizeToCipherSize
  -- is 0 for an empty file and else the header, the bytes and one overhead for each block begun.
  pub plain_size_to_cipher_size_lem :
      (n : ℕ)
      → Fits n
      → plain_size_to_cipher_size be n
        ≡ (if n == 0 then 0 else 18 + n + ((n - 1) / plain_bs + 1) * (cipher_bs - plain_bs))
  plain_size_to_cipher_size_lem zero fits = unfold plain_size_to_cipher_size in refl
  plain_size_to_cipher_size_lem (suc m) fits =
      let prev : suc m - 1 ≡ m = omega arith in
      let split : cipher_bs ≡ plain_bs + (cipher_bs - plain_bs) = omega arith in
      rw (size_of_suc m (rw prev at fits), prev)
        (ground (arith, div-add-mod' m plain_bs, ap (λ (c : ℕ). m / plain_bs * c) split))

  -- CipherSizeToPlainSize inverts PlainSizeToCipherSize on every size whose last block ends below
  -- 2^64 on disk.
  pub cipher_size_to_plain_size-plain_size_to_cipher_size :
      (n : ℕ) → Fits n → cipher_size_to_plain_size be (plain_size_to_cipher_size be n) ≡ ok n
  cipher_size_to_plain_size-plain_size_to_cipher_size zero fits =
      unfold plain_size_to_cipher_size cipher_size_to_plain_size in refl
  cipher_size_to_plain_size-plain_size_to_cipher_size (suc m) fits =
      let prev : suc m - 1 ≡ m = omega arith in
      let rest = mod-lt m {m = plain_bs} (omega arith) in
      rw
        (
          size_of_suc m (rw prev at fits),
          cipher_size_to_plain_size_lem (m / plain_bs) (m % plain_bs + (cipher_bs - plain_bs) + 1)
              (omega arith) (omega arith) (rw prev at fits),
        )
        (ground (arith, div-add-mod' m plain_bs))
