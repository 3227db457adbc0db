-- ===== src/ContentEnc/IntraBlocks/Joint.antt =====
-- The range on disk that a request reads or writes, and the request buffers of content.go's `New`.
use native.Mathlib.Nat.{div-eq_of_lt-le, div-add-mod', le-div_iff_mul-le}
use shiroikuma_gcfs.Prelude.{
  ℕ, suc, ◌+◌, ◌-◌, ◌*◌, ◌/◌, ◌≤◌, ◌<◌, ◌≡◌, sym, List, [], ◌∷◌, ok, ◌>>=◌, arith, ap, ◌∙◌, length,
}
use shiroikuma_gcfs.ContentEnc.Offsets.{Geometry, IsGeometry, u64}
use shiroikuma_gcfs.ContentEnc.IntraBlocks.{
  IntraBlock, explode_plain_range, joint_ciphertext_range, joint_plaintext_range, last_block,
}
use shiroikuma_gcfs.ContentEnc.IntraBlocks.Tiling.{Tiles, StartsRange, explode_plain_range-Tiles}

-- The last block of a tiling holds the last byte of the range.
last_block-Tiles :
    (start bs offset length : ℕ) (b : IntraBlock) (rest : List IntraBlock)
    → Tiles start bs offset length (b ∷ rest)
    → (start
          + (last_block b rest).block_no * bs
          + (last_block b rest).skip
          + (last_block b rest).length
        ≡ offset + length)
      × (0 < (last_block b rest).length)
      × ((last_block b rest).skip + (last_block b rest).length ≤ bs)
last_block-Tiles start bs offset length b [] (first, rest) =
    omega (arith, first.starts, first.within, first.advances, first.inside, rest)
last_block-Tiles start bs offset length b (c ∷ rest) (first, tiles) =
    let (a, p, i) =
      last_block-Tiles start bs (offset + b.length) (length - b.length) c rest tiles in
    (omega (arith, a, first.within), p, i)

-- The number of bytes in the blocks `f` to `m`.
pub count_blocks : (f m bs : ℕ) → f ≤ m → f * bs + (m + 1 - f) * bs ≡ m * bs + bs
count_blocks f m bs h =
    let e : f + (m + 1 - f) ≡ m + 1 = omega arith in omega (arith, ap (λ (t : ℕ). t * bs) e)

pub ordered_blocks : (f m bs : ℕ) → f ≤ m → f * bs ≤ m * bs
ordered_blocks f m bs h = grind arith

pub block_no_of : (n skip offset bs : ℕ) → n * bs + skip ≡ offset → skip < bs → offset / bs ≡ n
block_no_of n skip offset bs e inside =
    div-eq_of_lt-le {k = n} bs {m = offset} (omega arith) (omega arith)

block_place :
    (k bs off len : ℕ) (b : IntraBlock)
    → StartsRange 0 bs off len b
    → k * bs ≤ off
    → off < k * bs + bs
    → k * bs + b.skip ≡ off
block_place k bs off len b first low high =
    let same : b.block_no ≡ k =
      sym (
        block_no_of b.block_no b.skip off bs (omega (arith, first.starts))
          (omega (arith, first.inside, first.advances)))
      ∙ block_no_of k (off - k * bs) off bs (omega (arith, low)) (omega (arith, low, high)) in
    ap (λ n. n * bs + b.skip) (sym same) ∙ omega (arith, first.starts)

-- The blocks of a range go from the one of its first byte to the one of its last.
pub blocks_reach :
    (bs k off len : ℕ) (blocks : List IntraBlock)
    → Tiles 0 bs off len blocks
    → 0 < len
    → k * bs ≤ off
    → off < k * bs + bs
    → (off + len ≤ k * bs + length blocks * bs) × (k * bs + length blocks * bs < off + len + bs)
blocks_reach bs k off len [] tiles some_left low high = absurd (omega (arith, tiles, some_left))
blocks_reach bs k off len (b ∷ []) (first, none_left) some_left low high = omega (
  arith,
  none_left,
  first.ends,
  first.inside,
  first.within,
  first.advances,
  low,
  high,
  block_place k bs off len b first low high,
)
blocks_reach bs k off len (b ∷ c ∷ rest) (first, (second, tiles)) some_left low high =
    let at_start = block_place k bs off len b first low high in
    let (a, z) =
      blocks_reach bs (suc k) (off + b.length) (len - b.length) (c ∷ rest) (second, tiles)
        (omega (arith, second.advances, second.within))
        (omega (arith, at_start, first.ends, second.advances, second.within))
        (omega (arith, first.inside, at_start)) in
    (omega (arith, a, first.within), omega (arith, z, first.within))

module _ (be : Geometry) (g : IsGeometry be) where
  open be use {plain_bs, cipher_bs}

  module _ (offset length : ℕ) (some_left : 0 < length) where
    -- The blocks of the first and of the last byte of the range.
    abbrev first_no : ℕ
    first_no = offset / plain_bs

    abbrev last_no : ℕ
    last_no = (offset + length - 1) / plain_bs

    ends_of :
        (b : IntraBlock) (rest : List IntraBlock)
        → Tiles 0 plain_bs offset length (b ∷ rest)
        → (b.block_no ≡ first_no) × ((last_block b rest).block_no ≡ last_no) × (first_no ≤ last_no)
    ends_of b rest (first, tiles) =
        let last = last_block b rest in
        let (total, some_last, inside) =
          last_block-Tiles 0 plain_bs offset length b rest (first, tiles) in
        let first_eq : first_no ≡ b.block_no =
          block_no_of b.block_no b.skip offset plain_bs (omega (arith, first.starts))
            (omega (arith, first.inside, first.advances)) in
        let last_eq : last_no ≡ last.block_no =
          block_no_of last.block_no (last.skip + last.length - 1) (offset + length - 1) plain_bs
            (omega (arith, total, some_last, inside)) (omega (arith, some_last, inside)) in
        (
          sym first_eq,
          sym last_eq,
          (le-div_iff_mul-le {k = plain_bs} (omega arith)).1
              (omega (arith, div-add-mod' offset plain_bs)),
        )

    joint_of :
        (blocks : List IntraBlock)
        → Tiles 0 plain_bs offset length blocks
        → 18 + last_no * cipher_bs + cipher_bs < u64
        → joint_ciphertext_range be blocks
          ≡ ok (18 + first_no * cipher_bs, (last_no + 1 - first_no) * cipher_bs)
    unfolding joint_ciphertext_range
    joint_of [] none_left fits = absurd (omega (arith, none_left))
    joint_of (b ∷ rest) tiles fits =
        let (first_eq, last_eq, ordered) = ends_of b rest tiles in
        simp (first_eq, last_eq)
          (ground (
            arith,
            count_blocks first_no last_no cipher_bs,
            ordered_blocks first_no last_no cipher_bs ordered,
          ))

    joint_plain_of :
        (blocks : List IntraBlock)
        → Tiles 0 plain_bs offset length blocks
        → last_no * plain_bs + plain_bs < u64
        → joint_plaintext_range be blocks
          ≡ ok (first_no * plain_bs, (last_no + 1 - first_no) * plain_bs)
    unfolding joint_plaintext_range
    joint_plain_of [] none_left fits = absurd (omega (arith, none_left))
    joint_plain_of (b ∷ rest) tiles fits =
        let (first_eq, last_eq, ordered) = ends_of b rest tiles in
        simp (first_eq, last_eq)
          (ground (
            arith,
            count_blocks first_no last_no plain_bs,
            ordered_blocks first_no last_no plain_bs ordered,
          ))

    -- For valid sizes and a range of one byte or more that ends below 2^64, in the file and on
    -- disk, the joint ciphertext range of the exploded blocks is the whole blocks on disk from that
    -- of the first byte to that of the last.
    pub joint_ciphertext_range-explode_plain_range :
        offset + length < u64
        → 18 + last_no * cipher_bs + cipher_bs < u64
        → cipher_bs < u64
        → (explode_plain_range be offset length >>= joint_ciphertext_range be)
          ≡ ok (18 + first_no * cipher_bs, (last_no + 1 - first_no) * cipher_bs)
    joint_ciphertext_range-explode_plain_range fits fits_disk small =
        let (blocks, e, tiles) = explode_plain_range-Tiles be g small offset length fits in
        rw e (joint_of blocks tiles fits_disk)

    -- For valid sizes and a range of one byte or more that ends below 2^64, with its last block,
    -- the joint plaintext range of the exploded blocks is the whole plaintext blocks from that of
    -- the first byte to that of the last.
    pub joint_plaintext_range-explode_plain_range :
        offset + length < u64
        → last_no * plain_bs + plain_bs < u64
        → cipher_bs < u64
        → (explode_plain_range be offset length >>= joint_plaintext_range be)
          ≡ ok (first_no * plain_bs, (last_no + 1 - first_no) * plain_bs)
    joint_plaintext_range-explode_plain_range fits fits_plain small =
        let (blocks, e, tiles) = explode_plain_range-Tiles be g small offset length fits in
        rw e (joint_plain_of blocks tiles fits_plain)
