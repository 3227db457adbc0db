-- ===== src/ContentEnc/Blocks/Resized.antt =====
-- Cutting a body off, or extending it by zeros, at a block boundary.
use native.Mathlib.Nat.{mul-le-mul_right}
use shiroikuma_gcfs.Prelude.{
  ℕ, ◌+◌, ◌*◌, ◌≤◌, ◌<◌, ◌≡◌, sym, ◌∙◌, ◌⊎◌, inl, inr, some, ok, arith, length, replicate, Bytes,
  length-replicate, Bool-cases, ltb, ltb→lt,
}
use shiroikuma_gcfs.Prelude.Positions.{get_or-replicate, get_or_beyond}
use shiroikuma_gcfs.Prelude.Extensional.{extensional}
use shiroikuma_gcfs.Prelude.Ranges.{
  block, length-block, get_or-block, resize, length-resize, get_or-resize, step-le, lt-of_mul,
  le-of_mul,
}
use shiroikuma_gcfs.ContentEnc.Blocks.{ContentEnc, IsContentEnc, decrypt_block}
use shiroikuma_gcfs.ContentEnc.Blocks.Holds.{Holds}
use shiroikuma_gcfs.ContentEnc.Blocks.Splice.{decrypt_block-hole, full_body}

module _ (size m i : ℕ) (xs : Bytes) (inside : i < m) where
  -- A full block is kept.
  block_kept : i * size + size ≤ length xs → block size i (resize xs (m * size)) ≡ block size i xs
  block_kept full =
      extensional (block size i (resize xs (m * size))) (block size i xs) 0
        (omega (
          arith,
          step-le i m size inside,
          full,
          length-block size i xs,
          length-block size i (resize xs (m * size)),
          length-resize xs (m * size),
        ))
        (λ j h.
          let short : j < size = omega (arith, h, length-block size i (resize xs (m * size))) in
          get_or-block size i (resize xs (m * size)) j short
          ∙ get_or-resize xs (m * size) (i * size + j)
              (omega (arith, step-le i m size inside, short))
          ∙ sym (get_or-block size i xs j short))

  -- A block behind the end is a hole.
  block_added : length xs ≤ i * size → block size i (resize xs (m * size)) ≡ replicate size 0
  block_added beyond =
      let zero_byte : ℕ = 0 in
      extensional (block size i (resize xs (m * size))) (replicate size 0) 0
        (omega (
          arith,
          step-le i m size inside,
          length-block size i (resize xs (m * size)),
          length-resize xs (m * size),
          length-replicate size zero_byte,
        ))
        (λ j h.
          let short : j < size = omega (arith, h, length-block size i (resize xs (m * size))) in
          get_or-block size i (resize xs (m * size)) j short
          ∙ get_or-resize xs (m * size) (i * size + j)
              (omega (arith, step-le i m size inside, short))
          ∙ get_or_beyond xs (i * size + j) zero_byte (omega (arith, beyond))
          ∙ sym (ground (arith, get_or-replicate size j zero_byte)))

module _ (be : ContentEnc) (v : IsContentEnc be) (id body plain : Bytes) (m : ℕ)
    (h : Holds be id 0 body plain)
    (whole : (m * be.plain_bs ≤ length plain) ⊎ ((e : ℕ) × (length plain ≡ e * be.plain_bs))) where
  open be use {plain_bs, cipher_bs}

  abbrev cut_body : Bytes
  cut_body = resize body (m * cipher_bs)

  abbrev cut : Bytes
  cut = resize plain (m * plain_bs)

  -- A block that is kept is full, or lies behind the end.
  full_or_beyond :
      (i : ℕ) → i < m → (i * plain_bs + plain_bs ≤ length plain) ⊎ (length plain ≤ i * plain_bs)
  full_or_beyond i inside = elim whole [
    | inl long ↦ inl (omega (arith, long, step-le i m plain_bs inside))
    | inr (e, size) ↦ elim (Bool-cases (ltb i e)) [
      | inl less ↦ inl (omega (arith, size, step-le i e plain_bs (ltb→lt i e less)))
      | inr more ↦
          let back : e * plain_bs ≤ i * plain_bs =
            mul-le-mul_right plain_bs (let k : e ≤ i = ground (arith, more) in k) in
          inr (omega (arith, size, back))
    ]
  ]

  abbrev Cut : ℕ → Type 0
  Cut i =
      (length (block cipher_bs i cut_body)
        ≡ length (block plain_bs i cut) + (be.crypto_core.iv_len + 16))
      × (decrypt_block be (block cipher_bs i cut_body) (0 + i) (some id)
          ≡ ok (block plain_bs i cut))

  cut_lem : (i : ℕ) → i < m → Cut i
  cut_lem i inside = elim (full_or_beyond i inside) [
    | inl full ↦
        let there : i * plain_bs < length plain = omega (arith, full, v.has_room) in
        rw
          (
            block_kept cipher_bs m i body inside (full_body be v id 0 body plain h i full),
            block_kept plain_bs m i plain inside full,
          )
          (h.sized i there, h.opens i there)
    | inr beyond ↦
        rw
          (
            block_added cipher_bs m i body inside (h.ends i beyond),
            block_added plain_bs m i plain inside beyond,
          )
          (
            omega (
              arith,
              v.cipher_size,
              length-replicate cipher_bs (let z : ℕ = 0 in z),
              length-replicate plain_bs (let z : ℕ = 0 in z),
            ),
            decrypt_block-hole be v (0 + i) (some id),
          )
  ]

  within : (i : ℕ) → i * plain_bs < length cut → i < m
  within i there = lt-of_mul i m plain_bs (omega (arith, there, length-resize plain (m * plain_bs)))

  ends_cut : (i : ℕ) → length cut ≤ i * plain_bs → length cut_body ≤ i * cipher_bs
  ends_cut i short =
      let past : m ≤ i =
        le-of_mul m i plain_bs v.has_room
          (omega (arith, short, length-resize plain (m * plain_bs))) in
      let past_c : m * cipher_bs ≤ i * cipher_bs = mul-le-mul_right cipher_bs past in
      omega (arith, past_c, length-resize body (m * cipher_bs))

  -- A body that is cut off at a block boundary inside its plaintext, or extended by zeros from the end of
  -- its last full block, holds the plaintext of that many blocks.
  pub Holds-resize : Holds be id 0 cut_body cut
  Holds-resize = record {
    sized = λ i there. (cut_lem i (within i there)).0;
    ends = ends_cut;
    opens = λ i there. (cut_lem i (within i there)).1;
  }
