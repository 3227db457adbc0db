-- ===== src/ContentEnc/Offsets.antt =====
-- internal/contentenc/offsets.go, with the sizes of the `ContentEnc` record of content.go that it
-- reads. Every `uint64` operation keeps its wrap-around.
pub mod Sizes
use shiroikuma_gcfs.Prelude.{
  ℕ, zero, suc, ◌+◌, ◌-◌, ◌*◌, ◌/◌, ◌%◌, ◌^◌, ◌<◌, List, [], ◌∷◌, Option, none, some, Outcome, ok,
  panic, ◌>>=◌, ltb, leb, ◌==◌, ◌&&◌, if◌then◌else◌,
}
use shiroikuma_gcfs.ContentEnc.Header.{header_len}

-- `plainBS` and `cipherBS` of a `ContentEnc`.
pub record Geometry : Type 0 where
  pub plain_bs : ℕ
  pub cipher_bs : ℕ

-- What `New` sets up: a block holds something, and takes more room on disk.
pub record IsGeometry (be : Geometry) : Type 0 where
  pub has_room : 0 < be.plain_bs
  pub has_overhead : be.plain_bs < be.cipher_bs

abbrev pub u64 : ℕ
u64 = 2 ^ 64

-- uint64 arithmetic
abbrev pub add64 : ℕ → ℕ → ℕ
add64 a b = (a + b) % u64

abbrev pub sub64 : ℕ → ℕ → ℕ
sub64 a b = (a + u64 - b) % u64

abbrev pub mul64 : ℕ → ℕ → ℕ
mul64 a b = a * b % u64

unfoldable pub min_uint64 : ℕ → ℕ → ℕ
min_uint64 x y = if ltb x y then x else y

unfoldable pub block_overhead : Geometry → ℕ
block_overhead be = sub64 be.cipher_bs be.plain_bs

unfoldable pub plain_off_to_block_no : Geometry → ℕ → ℕ
plain_off_to_block_no be plain_offset = plain_offset / be.plain_bs

unfoldable pub cipher_off_to_block_no : Geometry → ℕ → Outcome ℕ
cipher_off_to_block_no be cipher_offset =
    if ltb cipher_offset header_len
    then panic
    else ok (sub64 cipher_offset header_len / be.cipher_bs)

unfoldable pub block_no_to_cipher_off : Geometry → ℕ → ℕ
block_no_to_cipher_off be block_no = add64 header_len (mul64 block_no be.cipher_bs)

unfoldable pub block_no_to_plain_off : Geometry → ℕ → ℕ
block_no_to_plain_off be block_no = mul64 block_no be.plain_bs

-- The size with its last block padded to one byte of plaintext, if that block holds none.
pad_last_block : Geometry → ℕ → ℕ
unfolding block_overhead
pad_last_block be cipher_size =
    let last_block_size = sub64 cipher_size header_len % be.cipher_bs in
    if ltb 0 last_block_size && leb last_block_size (block_overhead be)
    then add64 (add64 (sub64 cipher_size last_block_size) (block_overhead be)) 1
    else cipher_size

-- The part of `CipherSizeToPlainSize` from the block number of the last byte on.
strip_overhead : Geometry → ℕ → Outcome ℕ
unfolding cipher_off_to_block_no block_overhead
strip_overhead be cipher_size = do
  block_no ← cipher_off_to_block_no be (sub64 cipher_size 1)
  let overhead = add64 (mul64 (block_overhead be) (add64 block_no 1)) header_len
  ok (if ltb cipher_size overhead then 0 else sub64 cipher_size overhead)

unfoldable pub cipher_size_to_plain_size : Geometry → ℕ → Outcome ℕ
unfolding pad_last_block strip_overhead
cipher_size_to_plain_size be cipher_size =
    if cipher_size == 0
    then ok 0
    else if cipher_size == header_len
    then ok 0
    else if ltb cipher_size header_len
    then ok 0
    else strip_overhead be (pad_last_block be cipher_size)

unfoldable pub plain_off_to_cipher_off : Geometry → ℕ → ℕ
unfolding block_no_to_cipher_off plain_off_to_block_no block_overhead
plain_off_to_cipher_off be plain_off =
    let start_of_block = block_no_to_cipher_off be (plain_off_to_block_no be plain_off) in
    add64 (add64 start_of_block (plain_off % be.plain_bs)) (block_overhead be)

unfoldable pub plain_size_to_cipher_size : Geometry → ℕ → ℕ
unfolding plain_off_to_cipher_off
plain_size_to_cipher_size be plain_size =
    if plain_size == 0 then 0 else add64 (plain_off_to_cipher_off be (sub64 plain_size 1)) 1
