-- ===== src/ContentEnc/Blocks.antt =====
-- internal/contentenc/content.go: encrypting, decrypting and merging blocks. The buffer pools
-- recycle memory and are not modelled, but for the sizes of the request buffers, which the callers
-- slice. Byte slices are values here, so nothing of a pool can be seen.
pub mod RoundTrip
pub mod Merge
pub mod Setup
pub mod Associated
pub mod Sequence
pub mod Parallel
pub mod Holds
pub mod Splice
pub mod Encrypted
pub mod Chunks
pub mod Resized
use shiroikuma_gcfs.Prelude.{
  ℕ, zero, suc, ◌+◌, ◌-◌, ◌*◌, ◌/◌, ◌%◌, ◌<◌, ◌≡◌, Bool, true, false, ◌&&◌, Option, none, some,
  List, [], ◌∷◌, ◌++◌, Outcome, ok, err, panic, stuck, ◌>>=◌, Error, block_too_short,
  all_zero_nonce, authentication, ltb, leb, ◌==◌, ◌!=◌, if◌then◌else◌, length, take, drop,
  replicate, Bytes, bytes_equal, big_endian, overwrite, min,
}
use shiroikuma_gcfs.CryptoCore.{CryptoCore, Aead, auth_tag_len, is_aes_siv}
use shiroikuma_gcfs.ContentEnc.Header.{header_id_len}
use shiroikuma_gcfs.ContentEnc.Offsets.{Geometry, block_overhead, add64, mul64, u64}

abbrev pub max_kernel_write : ℕ
max_kernel_write = 128 * 1024

abbrev pub default_bs : ℕ
default_bs = 4096

pub record ContentEnc : Type 0 where
  pub crypto_core : CryptoCore
  pub geometry : Geometry
  pub open geometry use *
  pub all_zero_block : Bytes
  pub all_zero_nonce : Bytes
  pub c_req_size : ℕ
  pub p_req_size : ℕ

with_sizes : CryptoCore → ℕ → ContentEnc
with_sizes cc plain_bs =
    let cipher_bs = add64 (add64 plain_bs cc.iv_len) auth_tag_len in
    record {
      crypto_core = cc;
      geometry = record { plain_bs = plain_bs; cipher_bs = cipher_bs };
      all_zero_block = replicate cipher_bs 0;
      all_zero_nonce = replicate cc.iv_len 0;
      c_req_size = add64 (mul64 (max_kernel_write / plain_bs) cipher_bs) cipher_bs;
      p_req_size = max_kernel_write + plain_bs;
    }

-- At `plain_bs` 0 the division of the source panics; here `131072 % 0` is 131072.
unfoldable pub new : CryptoCore → ℕ → Outcome ContentEnc
unfolding with_sizes
new cc plain_bs = if max_kernel_write % plain_bs != 0 then panic else ok (with_sizes cc plain_bs)

-- A file ID is `nil` for the master key and for symlinks.
unfoldable pub concat_ad : ℕ → Option Bytes → Outcome Bytes
concat_ad block_no none = ok (big_endian 8 block_no)
concat_ad block_no (some file_id) =
    if length file_id != header_id_len then panic else ok (big_endian 8 block_no ++ file_id)

opened : Option Bytes → Outcome Bytes
opened none = err authentication
opened (some plaintext) = ok plaintext

unfoldable pub decrypt_block : ContentEnc → Bytes → ℕ → Option Bytes → Outcome Bytes
unfolding concat_ad opened
decrypt_block be ciphertext block_no file_id =
    let iv_len = be.crypto_core.iv_len in
    let nonce = take iv_len ciphertext in
    if length ciphertext == 0
    then ok ciphertext
    else if bytes_equal ciphertext be.all_zero_block
    then ok (replicate be.plain_bs 0)
    else if ltb (length ciphertext) iv_len
    then err block_too_short
    else if bytes_equal nonce be.all_zero_nonce
    then err all_zero_nonce
    else do
      ad ← concat_ad block_no file_id
      opened (be.crypto_core.aead_cipher.open_sealed nonce (drop iv_len ciphertext) ad)

-- `break` on an error: the slice holds the blocks before it, and the error comes beside them.
unfoldable pub decrypted :
    Outcome Bytes → Outcome (Bytes × Option Error) → Outcome (Bytes × Option Error)
decrypted (ok p_block) rest = do (p_buf, e) ← rest; ok (p_block ++ p_buf, e)
decrypted (err e) rest = ok ([], some e)
decrypted panic rest = panic
decrypted stuck rest = stuck

decrypt_loop : ContentEnc → ℕ → Bytes → ℕ → Option Bytes → Outcome (Bytes × Option Error)
decrypt_loop be zero c_buf block_no file_id = stuck
decrypt_loop be (suc fuel) c_buf block_no file_id =
    let rest = decrypt_loop be fuel (drop be.cipher_bs c_buf) (add64 block_no 1) file_id in
    if length c_buf == 0
    then ok ([], none)
    else decrypted (decrypt_block be (take be.cipher_bs c_buf) block_no file_id) rest

-- Each round takes a byte at least, so that `length` rounds and one for the last test are enough.
unfoldable pub decrypt_blocks :
    ContentEnc → Bytes → ℕ → Option Bytes → Outcome (Bytes × Option Error)
unfolding decrypt_loop decrypted decrypt_block
decrypt_blocks be ciphertext first_block_no file_id =
    decrypt_loop be (suc (length ciphertext)) ciphertext first_block_no file_id

unfoldable pub do_encrypt_block : ContentEnc → Bytes → ℕ → Option Bytes → Bytes → Outcome Bytes
unfolding concat_ad block_overhead
do_encrypt_block be plaintext block_no file_id nonce =
    if length plaintext == 0
    then ok plaintext
    else if length nonce != be.crypto_core.iv_len
    then panic
    else do
      ad ← concat_ad block_no file_id
      let ciphertext = nonce ++ be.crypto_core.aead_cipher.seal nonce plaintext ad
      let overhead = block_overhead be.geometry
      if length plaintext + overhead != length ciphertext then panic else ok ciphertext

-- `nonce` is what `IVGenerator.Get()` returns.
unfoldable pub encrypt_block : ContentEnc → Bytes → ℕ → Option Bytes → Bytes → Outcome Bytes
unfolding do_encrypt_block
encrypt_block be plaintext block_no file_id nonce =
    do_encrypt_block be plaintext block_no file_id nonce

unfoldable pub encrypt_block_nonce : ContentEnc → Bytes → ℕ → Option Bytes → Bytes → Outcome Bytes
unfolding do_encrypt_block
encrypt_block_nonce be plaintext block_no file_id nonce =
    if is_aes_siv be.crypto_core.aead_backend
    then do_encrypt_block be plaintext block_no file_id nonce
    else panic

-- The loop over `in`, from index `i` on. `nonces j` is the random nonce that block `j` of the whole
-- request draws, in whatever order the goroutines draw.
encrypt_from : ContentEnc → (ℕ → Bytes) → List Bytes → ℕ → ℕ → Option Bytes → Outcome (List Bytes)
unfolding encrypt_block
encrypt_from be nonces [] first_block_no i file_id = ok []
encrypt_from be nonces (v ∷ rest) first_block_no i file_id = do
  c ← encrypt_block be v (add64 first_block_no i) file_id (nonces i)
  cs ← encrypt_from be nonces rest first_block_no (i + 1) file_id
  ok (c ∷ cs)

unfoldable pub do_encrypt_blocks :
    ContentEnc → (ℕ → Bytes) → List Bytes → ℕ → Option Bytes → Outcome (List Bytes)
unfolding encrypt_from
do_encrypt_blocks be nonces blocks first_block_no file_id =
    encrypt_from be nonces blocks first_block_no 0 file_id

abbrev pub encrypt_max_split : ℕ
encrypt_max_split = 2

-- The goroutines `i` and up, `rounds` of them. Each fills `ciphertextBlocks[low:high]`, and no two
-- of these ranges meet, so the slice that `wg.Wait` leaves is their concatenation.
encrypt_groups :
    ContentEnc → (ℕ → Bytes) → List Bytes → ℕ → Option Bytes → ℕ → ℕ → ℕ → ℕ → Outcome (List Bytes)
unfolding do_encrypt_blocks
encrypt_groups be nonces blocks first_block_no file_id ncpu group_size zero i = ok []
encrypt_groups be nonces blocks first_block_no file_id ncpu group_size (suc rounds) i = do
  let low = i * group_size
  let high = if i == ncpu - 1 then length blocks else (i + 1) * group_size
  out ←
      do_encrypt_blocks be (λ j. nonces (low + j)) (drop low (take high blocks))
        (add64 first_block_no low) file_id
  outs ← encrypt_groups be nonces blocks first_block_no file_id ncpu group_size rounds (i + 1)
  ok (out ++ outs)

unfoldable pub encrypt_blocks_parallel :
    ContentEnc → ℕ → (ℕ → Bytes) → List Bytes → ℕ → Option Bytes → Outcome (List Bytes)
unfolding encrypt_groups
encrypt_blocks_parallel be num_cpu nonces blocks first_block_no file_id =
    let ncpu = if ltb encrypt_max_split num_cpu then encrypt_max_split else num_cpu in
    encrypt_groups be nonces blocks first_block_no file_id ncpu (length blocks / ncpu) ncpu 0

abbrev pub concat : List Bytes → Bytes
concat [] = []
concat (b ∷ rest) = b ++ concat rest

-- `num_cpu` is `runtime.NumCPU()`.
unfoldable pub encrypt_blocks :
    ContentEnc → ℕ → (ℕ → Bytes) → List Bytes → ℕ → Option Bytes → Outcome Bytes
unfolding encrypt_blocks_parallel do_encrypt_blocks
encrypt_blocks be num_cpu nonces blocks first_block_no file_id = do
  ciphertext_blocks ←
      (if leb 32 (length blocks) && leb 2 num_cpu
        then encrypt_blocks_parallel be num_cpu nonces blocks first_block_no file_id
        else do_encrypt_blocks be nonces blocks first_block_no file_id)
  ok (concat ciphertext_blocks)

-- What `New` makes of a core whose nonces are not empty, for blocks that fit a word.
pub record IsContentEnc (be : ContentEnc) : Type 0 where
  pub has_room : 0 < be.plain_bs
  pub has_nonce : 0 < be.crypto_core.iv_len
  pub cipher_size : be.cipher_bs ≡ be.plain_bs + be.crypto_core.iv_len + auth_tag_len
  pub fits : be.cipher_bs < u64
  pub zero_block : be.all_zero_block ≡ replicate be.cipher_bs 0
  pub zero_nonce : be.all_zero_nonce ≡ replicate be.crypto_core.iv_len 0

-- The slices of `out` panic where they end behind its `plain_bs` bytes.
unfoldable pub merge_blocks : ContentEnc → Bytes → Bytes → ℕ → Outcome Bytes
merge_blocks be old_data new_data offset =
    let new_len = offset + length new_data in
    let out_len = if ltb (length old_data) new_len then new_len else length old_data in
    if length old_data == 0 && offset == 0
    then ok new_data
    else if ltb be.plain_bs out_len
    then panic
    else let out = overwrite (replicate be.plain_bs 0) 0 (take be.plain_bs old_data) in
      ok (take out_len (overwrite out offset new_data))
