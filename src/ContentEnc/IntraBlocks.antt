-- ===== src/ContentEnc/IntraBlocks.antt =====
-- internal/contentenc/intrablock.go, and the two loops of offsets.go that make `IntraBlock`s. An
-- `IntraBlock`'s pointer to its `ContentEnc` is the argument `be`.
pub mod Tiling
pub mod Joint
use shiroikuma_gcfs.Prelude.{
  ℕ, zero, suc, ◌+◌, ◌-◌, ◌%◌, List, [], ◌∷◌, Outcome, ok, panic, stuck, ◌>>=◌, ltb, ◌||◌, Bool,
  true, false, if◌then◌else◌, length, take, drop,
}
use shiroikuma_gcfs.ContentEnc.Offsets.{
  Geometry, add64, sub64, min_uint64, plain_off_to_block_no, block_no_to_plain_off,
  cipher_off_to_block_no, block_no_to_cipher_off,
}

pub record IntraBlock : Type 0 where
  pub block_no : ℕ
  pub skip : ℕ
  pub length : ℕ

unfoldable pub is_partial : Geometry → IntraBlock → Bool
is_partial be ib = ltb 0 ib.skip || ltb ib.length be.plain_bs

unfoldable pub block_cipher_off : Geometry → IntraBlock → ℕ
unfolding block_no_to_cipher_off
block_cipher_off be ib = block_no_to_cipher_off be ib.block_no

unfoldable pub block_plain_off : Geometry → IntraBlock → ℕ
unfolding block_no_to_plain_off
block_plain_off be ib = block_no_to_plain_off be ib.block_no

-- The slice `d[ib.Skip:…]` panics where `d` ends before `ib.Skip`.
unfoldable pub crop_block : {A : Type 0} → IntraBlock → List A → Outcome (List A)
crop_block ib d =
    let len_have = length d in
    let len_want = add64 ib.skip ib.length in
    let end = if ltb len_have len_want then len_have else len_want in
    if ltb end ib.skip then panic else ok (drop ib.skip (take end d))

-- `blocks[len(blocks)-1]` of `first ∷ rest`
abbrev pub last_block : IntraBlock → List IntraBlock → IntraBlock
last_block first [] = first
last_block first (b ∷ rest) = last_block b rest

-- Both joint ranges index `blocks[0]`, which panics on an empty slice.
unfoldable pub joint_ciphertext_range : Geometry → List IntraBlock → Outcome (ℕ × ℕ)
unfolding block_no_to_cipher_off
joint_ciphertext_range be [] = panic
joint_ciphertext_range be (first ∷ rest) =
    let offset = block_no_to_cipher_off be first.block_no in
    let offset_last = block_no_to_cipher_off be (last_block first rest).block_no in
    ok (offset, sub64 (add64 offset_last be.cipher_bs) offset)

unfoldable pub joint_plaintext_range : Geometry → List IntraBlock → Outcome (ℕ × ℕ)
unfolding block_plain_off
joint_plaintext_range be [] = panic
joint_plaintext_range be (first ∷ rest) =
    let offset = block_plain_off be first in
    ok (offset, sub64 (add64 (block_plain_off be (last_block first rest)) be.plain_bs) offset)

-- The loop of both `Explode…Range`, over the body that makes the next block.
explode_loop : (ℕ → ℕ → Outcome IntraBlock) → ℕ → ℕ → ℕ → Outcome (List IntraBlock)
explode_loop next_block zero offset length = stuck
explode_loop next_block (suc fuel) offset length = elim (ltb 0 length) [
  | false ↦ ok []
  | true ↦ do
    b ← next_block offset length
    rest ← explode_loop next_block fuel (add64 offset b.length) (sub64 length b.length)
    ok (b ∷ rest)
]

next_plain_block : Geometry → ℕ → ℕ → Outcome IntraBlock
unfolding plain_off_to_block_no block_no_to_plain_off min_uint64
next_plain_block be offset length =
    let block_no = plain_off_to_block_no be offset in
    let skip = sub64 offset (block_no_to_plain_off be block_no) in
    ok (record {
      block_no = block_no;
      skip = skip;
      length = min_uint64 length (sub64 be.plain_bs skip);
    })

next_cipher_block : Geometry → ℕ → ℕ → Outcome IntraBlock
unfolding cipher_off_to_block_no block_no_to_cipher_off
next_cipher_block be offset length = do
  block_no ← cipher_off_to_block_no be offset
  let skip = sub64 offset (block_no_to_cipher_off be block_no)
  let max_len = sub64 be.cipher_bs skip
  ok (record {
    block_no = block_no;
    skip = skip;
    length = if ltb length max_len then length else max_len;
  })

-- Each round takes a byte at least, so `length` rounds and one for the last test are enough.
unfoldable pub explode_plain_range : Geometry → ℕ → ℕ → Outcome (List IntraBlock)
unfolding explode_loop next_plain_block
explode_plain_range be offset length = explode_loop (next_plain_block be) (suc length) offset length

unfoldable pub explode_cipher_range : Geometry → ℕ → ℕ → Outcome (List IntraBlock)
unfolding explode_loop next_cipher_block
explode_cipher_range be offset length =
    explode_loop (next_cipher_block be) (suc length) offset length
