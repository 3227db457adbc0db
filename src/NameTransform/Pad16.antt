-- ===== src/NameTransform/Pad16.antt =====
-- internal/nametransform/pad16.go: PKCS#7 padding to the AES block size.
pub mod RoundTrip
use shiroikuma_gcfs.Prelude.{
  ℕ, ◌+◌, ◌-◌, ◌%◌, Bool, true, ◌&&◌, [], ◌∷◌, ◌++◌, Outcome, ok, err, panic, ltb, leb, ◌==◌, ◌!=◌,
  if◌then◌else◌, length, get_or, take, drop, replicate, Bytes, empty_input, unaligned_size,
  zero_padding, padding_too_long, padding_covers_all, bad_padding_byte,
}

abbrev pub block_size : ℕ
block_size = 16

-- The loop writes the padding byte behind the copied bytes.
unfoldable pub pad16 : Bytes → Outcome Bytes
pad16 orig =
    let old_len = length orig in
    let rest = block_size - old_len % block_size in
    let pad_len = if rest == 0 then block_size else rest in
    if old_len == 0 then panic else ok (orig ++ replicate pad_len (pad_len % 256))

-- The loop over the padding bytes.
all_equal : ℕ → Bytes → Bool
all_equal pad_byte [] = true
all_equal pad_byte (b ∷ rest) = b == pad_byte && all_equal pad_byte rest

unfoldable pub un_pad16 : Bytes → Outcome Bytes
unfolding all_equal
un_pad16 padded =
    let old_len = length padded in
    let pad_byte = get_or padded (old_len - 1) 0 in
    if old_len == 0
    then err empty_input
    else if old_len % block_size != 0
    then err unaligned_size
    else if pad_byte == 0
    then err zero_padding
    else if ltb block_size pad_byte
    then err padding_too_long
    else if leb old_len pad_byte
    then err padding_covers_all
    else if all_equal pad_byte (drop (old_len - pad_byte) padded)
    then ok (take (old_len - pad_byte) padded)
    else err bad_padding_byte
