-- ===== src/ContentEnc/Blocks/Merge.antt =====
-- `MergeBlocks`: the block that a read-modify-write cycle writes back.
use Prim.Native.Nat.{max}
use shiroikuma_gcfs.Prelude.{
  ℕ, ◌+◌, ◌-◌, ◌≤◌, ◌<◌, ◌≡◌, ◌∙◌, ◌&&◌, ◌++◌, ok, arith, ltb, leb, ◌==◌, if◌then◌else◌, length,
  get_or, take, drop, replicate, length-append, length-take, length-drop, length-replicate, Bytes,
  overwrite, take_all, Bool-cases, inl, inr,
}
use shiroikuma_gcfs.Prelude.Positions.{
  get_or-append, get_or-take, get_or-drop, get_or-replicate, get_or_beyond,
}
use shiroikuma_gcfs.ContentEnc.Blocks.{ContentEnc, merge_blocks}

length-overwrite :
    (dst : Bytes) (offset : ℕ) (src : Bytes)
    → offset + length src ≤ length dst
    → length (overwrite dst offset src) ≡ length dst
length-overwrite dst offset src fits = omega (
  arith,
  length-append (take offset dst) (src ++ drop (offset + length src) dst),
  length-append src (drop (offset + length src) dst),
  length-take offset dst,
  length-drop (offset + length src) dst,
)

-- Inside the copied range there is the source, outside what was there.
get_or-overwrite :
    (dst : Bytes) (offset : ℕ) (src : Bytes) (i : ℕ)
    → offset + length src ≤ length dst
    → get_or (overwrite dst offset src) i 0 ≡ (
        if leb offset i && ltb i (offset + length src)
        then get_or src (i - offset) 0
        else get_or dst i 0)
get_or-overwrite dst offset src i fits = ground (
  arith,
  get_or-append (take offset dst) (src ++ drop (offset + length src) dst) i 0,
  get_or-append src (drop (offset + length src) dst) (i - offset) 0,
  length-take offset dst,
  get_or-take offset dst i 0,
  get_or-drop (offset + length src) dst (i - offset - length src) 0,
  same,
)
  where
    same : offset + length src ≤ i → offset + length src + (i - offset - length src) ≡ i
    same h = omega arith

module _ (be : ContentEnc) (old_data new_data : Bytes) (offset : ℕ) where
  abbrev merged_length : ℕ
  merged_length = max (length old_data) (offset + length new_data)

  abbrev byte_at : ℕ → ℕ
  byte_at i =
      if leb offset i && ltb i (offset + length new_data)
      then get_or new_data (i - offset) 0
      else get_or old_data i 0

  abbrev base : Bytes
  base = overwrite (replicate be.plain_bs 0) 0 (take be.plain_bs old_data)

  abbrev merged : Bytes
  merged = take merged_length (overwrite base offset new_data)

  module _ (fits : merged_length ≤ be.plain_bs) where
    whole : take be.plain_bs old_data ≡ old_data
    whole = take_all be.plain_bs old_data (omega arith)

    length-base : length base ≡ be.plain_bs
    length-base =
        length-overwrite (replicate be.plain_bs 0) 0 (take be.plain_bs old_data) (
          omega (
            arith,
            length-take be.plain_bs old_data,
            length-replicate be.plain_bs (let z : ℕ = 0 in z),
          ))
        ∙ length-replicate be.plain_bs 0

    length-merged : length merged ≡ merged_length
    length-merged = omega (
      arith,
      length-take merged_length (overwrite base offset new_data),
      length-overwrite base offset new_data (omega (arith, length-base)),
      length-base,
    )

    get_or-base : (i : ℕ) → get_or base i 0 ≡ get_or old_data i 0
    get_or-base i = rw whole (
        ground (
          arith,
          get_or-append old_data rest i 0,
          get_or-drop (0 + length old_data) zeros (i - length old_data) 0,
          get_or-replicate be.plain_bs (0 + length old_data + (i - length old_data)) zero_byte,
          get_or_beyond old_data i 0,
        ))
      where
        zero_byte : ℕ
        zero_byte = 0

        zeros : Bytes
        zeros = replicate be.plain_bs 0

        rest : Bytes
        rest = drop (0 + length old_data) zeros

    get_or-merged : (i : ℕ) → i < merged_length → get_or merged i 0 ≡ byte_at i
    get_or-merged i h = ground (
      arith,
      get_or-take merged_length (overwrite base offset new_data) i 0 h,
      get_or-overwrite base offset new_data i (omega (arith, length-base)),
      get_or-base i,
    )

    -- When neither the old block nor the end of the new data passes the block size, MergeBlocks
    -- succeeds; the result is as long as whichever ends later and holds the new data at its offset,
    -- the old data elsewhere and zeros in the gap.
    pub merge_blocks_lem :
        (out : Bytes) × (merge_blocks be old_data new_data offset ≡ ok out)
        × (length out ≡ merged_length)
        × ((i : ℕ) → i < merged_length → get_or out i 0 ≡ byte_at i)
    unfolding merge_blocks
    merge_blocks_lem = elim (Bool-cases (length old_data == 0 && offset == 0)) [
      | inl fast ↦ (new_data, rw fast, ground arith, λ i h. ground arith)
      | inr slow ↦ (merged, rw slow (ground arith), length-merged, get_or-merged)
    ]
