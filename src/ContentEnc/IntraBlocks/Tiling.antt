-- ===== src/ContentEnc/IntraBlocks/Tiling.antt =====
-- The blocks of a byte range against the range.
use native.Mathlib.Nat.{div-add-mod', mod-lt}
use shiroikuma_gcfs.Prelude.{
  ℕ, zero, suc, ◌+◌, ◌-◌, ◌*◌, ◌/◌, ◌%◌, ◌≤◌, ◌<◌, ◌≡◌, refl, ◌⊎◌, List, [], ◌∷◌, Outcome, ok,
  arith, lt→ltb, not_lt→ltb, ltb, if◌then◌else◌,
}
use shiroikuma_gcfs.ContentEnc.Offsets.{Geometry, IsGeometry, u64, add64, sub64, mul64, min_uint64}
use shiroikuma_gcfs.ContentEnc.IntraBlocks.{
  IntraBlock, explode_loop, next_plain_block, next_cipher_block, explode_plain_range,
  explode_cipher_range,
}

-- The first block `b` of a range of `length` bytes from `offset` on, where block `n` takes the `bs`
-- bytes from `start + n * bs` on: it starts at `offset`, stays inside its block, and ends with the
-- block or with the range.
pub record StartsRange (start bs offset length : ℕ) (b : IntraBlock) : Type 0 where
  pub starts : start + b.block_no * bs + b.skip ≡ offset
  pub advances : 0 < b.length
  pub inside : b.skip + b.length ≤ bs
  pub within : b.length ≤ length
  pub ends : (b.skip + b.length ≡ bs) ⊎ (b.length ≡ length)

-- Blocks that cover the range without gap or overlap.
abbrev pub Tiles : ℕ → ℕ → ℕ → ℕ → List IntraBlock → Type 0
Tiles start bs offset length [] = length ≡ 0
Tiles start bs offset length (b ∷ rest) =
    StartsRange start bs offset length b
    × Tiles start bs (offset + b.length) (length - b.length) rest

abbrev Steps : ℕ → ℕ → (ℕ → ℕ → Outcome IntraBlock) → Type 0
Steps start bs next =
    (offset length : ℕ)
    → start ≤ offset
    → 0 < length
    → offset + length < u64
    → (b : IntraBlock) × (next offset length ≡ ok b) × StartsRange start bs offset length b

explode_loop_step :
    (next : ℕ → ℕ → Outcome IntraBlock) (fuel offset length : ℕ) {b : IntraBlock}
    → next offset length ≡ ok b
    → 0 < length
    → {on left : ℕ} {rest : List IntraBlock} → add64 offset b.length ≡ on
    → sub64 length b.length ≡ left
    → explode_loop next fuel on left ≡ ok rest
    → explode_loop next (suc fuel) offset length ≡ ok (b ∷ rest)
unfolding explode_loop
explode_loop_step next fuel offset length made some_left on left e =
    rw (lt→ltb 0 length some_left, explode_loop) (rw made (rw (on, left, e)))

module _ (start bs : ℕ) (next : ℕ → ℕ → Outcome IntraBlock) (steps : Steps start bs next) where
  explode_loop-Tiles :
      (fuel offset length : ℕ)
      → length < fuel
      → start ≤ offset
      → offset + length < u64
      → (blocks : List IntraBlock) × (explode_loop next fuel offset length ≡ ok blocks)
        × Tiles start bs offset length blocks
  explode_loop-Tiles zero offset length enough above fits = absurd (omega arith)
  explode_loop-Tiles (suc fuel) offset zero enough above fits =
      ([], unfold explode_loop in refl, refl)
  explode_loop-Tiles (suc fuel) offset (suc n) enough above fits =
      let (b, made, first) = steps offset (suc n) above (omega arith) fits in
      let on : add64 offset b.length ≡ offset + b.length = omega (arith, first.within) in
      let left : sub64 (suc n) b.length ≡ suc n - b.length = omega (arith, first.within) in
      let (rest, e, tiles) =
        explode_loop-Tiles fuel (offset + b.length) (suc n - b.length)
          (omega (arith, first.advances)) (omega arith) (omega (arith, first.within)) in
      (
        b ∷ rest,
        explode_loop_step next fuel offset (suc n) made (omega arith) on left e,
        (first, tiles),
      )

next_plain_block_lem :
    (be : Geometry) → IsGeometry be → be.plain_bs < u64 → Steps 0 be.plain_bs (next_plain_block be)
unfolding next_plain_block
next_plain_block_lem be g small offset length above some_left fits = (_, refl, starts)
  where
    open be use {plain_bs}

    skip_lem : sub64 offset (mul64 (offset / plain_bs) plain_bs) ≡ offset % plain_bs
    skip_lem = omega (arith, div-add-mod' offset plain_bs)

    starts : StartsRange 0 plain_bs offset length (record {
      block_no = offset / plain_bs;
      skip = sub64 offset (mul64 (offset / plain_bs) plain_bs);
      length =
          min_uint64 length (sub64 plain_bs (sub64 offset (mul64 (offset / plain_bs) plain_bs)));
    })
    starts =
        rw skip_lem (ground (arith, div-add-mod' offset plain_bs, mod-lt offset {m = plain_bs}))

next_cipher_block_lem :
    (be : Geometry)
    → IsGeometry be
    → be.cipher_bs < u64
    → Steps 18 be.cipher_bs (next_cipher_block be)
unfolding next_cipher_block
next_cipher_block_lem be g small offset length above some_left fits = (b, made, starts)
  where
    open be use {cipher_bs}

    room : ℕ
    room = sub64 cipher_bs ((offset - 18) % cipher_bs)

    b : IntraBlock
    b = record {
      block_no = (offset - 18) / cipher_bs;
      skip = (offset - 18) % cipher_bs;
      length = if ltb length room then length else room;
    }

    no_wrap : sub64 offset 18 ≡ offset - 18
    no_wrap = omega arith

    skip_lem :
        sub64 offset (add64 18 (mul64 ((offset - 18) / cipher_bs) cipher_bs))
        ≡ (offset - 18) % cipher_bs
    skip_lem = omega (arith, div-add-mod' (offset - 18) cipher_bs)

    made : next_cipher_block be offset length ≡ ok b
    made = rw (not_lt→ltb offset 18 above) (rw no_wrap (rw skip_lem))

    starts : StartsRange 18 cipher_bs offset length b
    starts =
        ground (arith, div-add-mod' (offset - 18) cipher_bs, mod-lt (offset - 18) {m = cipher_bs})

module _ (be : Geometry) (g : IsGeometry be) (small : be.cipher_bs < u64) where
  -- When the range ends below 2^64 and the sizes are valid, ExplodePlainRange terminates without a
  -- panic and its blocks cover exactly the range, in order.
  pub explode_plain_range-Tiles :
      (offset length : ℕ)
      → offset + length < u64
      → (blocks : List IntraBlock) × (explode_plain_range be offset length ≡ ok blocks)
        × Tiles 0 be.plain_bs offset length blocks
  unfolding explode_plain_range
  explode_plain_range-Tiles offset length fits =
      explode_loop-Tiles 0 be.plain_bs (next_plain_block be)
        (next_plain_block_lem be g (omega arith)) (suc length) offset length (omega arith)
        (omega arith) fits

  -- When the range starts behind the header and ends below 2^64 and the sizes are valid,
  -- ExplodeCipherRange terminates without a panic and its blocks cover exactly the range on disk,
  -- in order.
  pub explode_cipher_range-Tiles :
      (offset length : ℕ)
      → 18 ≤ offset
      → offset + length < u64
      → (blocks : List IntraBlock) × (explode_cipher_range be offset length ≡ ok blocks)
        × Tiles 18 be.cipher_bs offset length blocks
  unfolding explode_cipher_range
  explode_cipher_range-Tiles offset length above fits =
      explode_loop-Tiles 18 be.cipher_bs (next_cipher_block be) (next_cipher_block_lem be g small)
        (suc length) offset length (omega arith) above fits
