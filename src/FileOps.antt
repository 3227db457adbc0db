-- ===== src/FileOps.antt =====
-- file.go: reading, writing and truncating an open file. A result `false` of the code is an error here;
-- locks are not modelled, so each operation is one step.
pub mod Actions
pub mod Truncate
pub mod Backed
pub mod FileIds
pub mod Crops
pub mod Reads
pub mod Overlay
pub mod Merges
pub mod Sealed
pub mod Writes
pub mod Rewritten
pub mod Exports
pub mod Cuts
pub mod Padding
pub mod Growth
pub mod Sizes
pub mod Shrinks
pub mod Attrs
mod Examples
use shiroikuma_gcfs.Prelude.{
  ℕ, ◌+◌, ◌-◌, ◌*◌, ◌%◌, ◌^◌, ◌≤◌, ◌<◌, Bool, true, false, ◌&&◌, Option, none, some, List, [], ◌∷◌,
  ◌++◌, Outcome, ok, err, panic, stuck, Error, eof, eio, enospc, enospc_new_file, efbig, ltb, leb,
  ◌==◌, if◌then◌else◌, length, take, drop, replicate, Bytes,
}
use shiroikuma_gcfs.FileOps.Actions.{
  Env, OpenFile, Action, ◌>>=◌, next, lift, pure, raise, tock, read_at, write_at, ftruncate,
  enospc_prealloc, set_id,
}
use shiroikuma_gcfs.ContentEnc.Header.{FileHeader, header_len, pack, parse_header, random_header}
use shiroikuma_gcfs.ContentEnc.Offsets.{
  add64, sub64, plain_off_to_block_no, block_no_to_cipher_off, block_no_to_plain_off,
  plain_size_to_cipher_size, cipher_size_to_plain_size,
}
use shiroikuma_gcfs.ContentEnc.IntraBlocks.{
  IntraBlock, is_partial, block_cipher_off, block_plain_off, explode_plain_range,
  joint_ciphertext_range,
}
use shiroikuma_gcfs.ContentEnc.Blocks.{ContentEnc, decrypt_blocks, encrypt_blocks, merge_blocks}

-- `math.MaxInt64`
abbrev pub max_int64 : ℕ
max_int64 = 2 ^ 63 - 1

-- A file of a header only counts as empty.
unfoldable pub read_file_id : Env → Action Bytes
read_file_id env = do
  buf ← read_at env (header_len + 1) 0
  if ltb (length buf) (header_len + 1)
      then raise eof
      else do h ← lift (parse_header (take header_len buf)); pure h.id

-- The random file ID, of `RandomHeader`.
abbrev pub draw_id : Env → Action Bytes
draw_id env s = (ok (env.ids s.tick), tock s 1)

unfoldable pub create_header : Env → Action Bytes
create_header env = do
  id ← draw_id env
  let h = random_header id
  buf ← lift (pack h)
  prealloc ← enospc_prealloc env
  written ← write_at env buf 0
  pure h.id

-- `f.ID`, or what is read from disk and then cached.
unfoldable pub file_id_for_read : Env → Action Bytes
file_id_for_read env s = elim s.id [
  | some file_id ↦ pure file_id s
  | none ↦ (do file_id ← read_file_id env; cached ← set_id file_id; pure file_id) s
]

-- The plaintext that was asked for, of the plaintext of whole blocks.
unfoldable pub crop : ℕ → ℕ → Bytes → Bytes
crop skip want plaintext =
    let len_have = length plaintext in
    let len_want = add64 skip want in
    if ltb len_want len_have
    then drop skip (take len_want plaintext)
    else if ltb skip len_have
    then drop skip (take len_have plaintext)
    else []

-- What `DecryptBlocks` returns: an error hides the blocks that it did decrypt.
pub cropped : ℕ → ℕ → Outcome (Bytes × Option Error) → Outcome Bytes
cropped skip want (ok (plaintext, none)) = ok (crop skip want plaintext)
cropped skip want (ok (plaintext, some e)) = err e
cropped skip want (err e) = err e
cropped skip want panic = panic
cropped skip want stuck = stuck

-- The part of `doRead` behind its `ReadAt`.
unfoldable pub decrypt_read : ContentEnc → Bytes → Bytes → ℕ → ℕ → ℕ → Outcome Bytes
decrypt_read be file_id ciphertext first_block_no skip want =
    if length ciphertext == 0
    then ok []
    else cropped skip want (decrypt_blocks be ciphertext first_block_no (some file_id))

-- `blocks[0]`
abbrev pub first_of : List IntraBlock → Outcome IntraBlock
first_of [] = panic
first_of (b ∷ rest) = ok b

-- The slice of the request buffer panics where the buffer is too short.
unfoldable pub do_read : Env → ℕ → ℕ → Action Bytes
do_read env off want = do
  file_id ← file_id_for_read env
  blocks ← lift (explode_plain_range env.content_enc.geometry off want)
  first ← lift (first_of blocks)
  (aligned_offset, aligned_length) ← lift (joint_ciphertext_range env.content_enc.geometry blocks)
  if ltb max_int64 aligned_offset
      then raise efbig
      else if ltb env.content_enc.c_req_size aligned_length
      then lift panic
      else do
        ciphertext ← read_at env aligned_length aligned_offset
        lift (decrypt_read env.content_enc file_id ciphertext first.block_no first.skip want)

-- On `io.EOF` of `readFileID`, a new header.
unfoldable pub or_header : Env → Outcome Bytes × OpenFile → Outcome (Bytes × Bool) × OpenFile
or_header env (ok file_id, s) = (ok (file_id, false), s)
or_header env (err eof, s) = (do file_id ← create_header env; pure (file_id, true)) s
or_header env (err e, s) = (err e, s)
or_header env (panic, s) = (panic, s)
or_header env (stuck, s) = (stuck, s)

-- The file ID for writing, and whether the file was empty.
unfoldable pub file_id_for_write : Env → Action (Bytes × Bool)
file_id_for_write env s = elim s.id [
  | some file_id ↦ (ok (file_id, false), s)
  | none ↦
      (do
        (file_id, file_was_empty) ← (λ t. or_header env (read_file_id env t))
        cached ← set_id file_id
        pure (file_id, file_was_empty))
        s
]

-- The block to encrypt: the new data, merged into the old block where it does not fill it.
unfoldable pub block_data : Env → IntraBlock → Bytes → Action Bytes
block_data env b piece =
    if is_partial env.content_enc.geometry b
    then (do
      old_data ← do_read env (block_plain_off env.content_enc.geometry b) env.content_enc.plain_bs
      lift (merge_blocks env.content_enc old_data piece b.skip))
    else pure piece

-- The loop of `doWrite` over its blocks.
unfoldable pub to_encrypt : Env → List IntraBlock → Bytes → Action (List Bytes)
to_encrypt env [] new = pure []
to_encrypt env (b ∷ rest) new = do
  block ← block_data env b (take b.length new)
  blocks ← to_encrypt env rest (drop b.length new)
  pure (block ∷ blocks)

-- `EncryptBlocks` draws a nonce for each block.
unfoldable pub encrypt_drawn : Env → List Bytes → ℕ → Bytes → Action Bytes
encrypt_drawn env blocks first_block_no file_id s = (
  encrypt_blocks env.content_enc env.num_cpu (λ j. env.nonces (s.tick + j)) blocks first_block_no
      (some file_id),
  tock s (length blocks),
)

-- Without space, a header that was just written is removed again, and the code closes the handle,
-- which the error `enospc_new_file` stands for.
unfoldable pub no_space : Env → Bool → OpenFile → Outcome ℕ × OpenFile
no_space env file_was_empty s =
    if file_was_empty then (err enospc_new_file, (ftruncate env 0 s).1) else (err enospc, s)

unfoldable pub preallocated :
    Env → Bool → Outcome (Unit {0}) × OpenFile → Action ℕ → Outcome ℕ × OpenFile
preallocated env file_was_empty (ok u, s) write = write s
preallocated env file_was_empty (err e, s) write = no_space env file_was_empty s
preallocated env file_was_empty (panic, s) write = (panic, s)
preallocated env file_was_empty (stuck, s) write = (stuck, s)

-- `CReqPool.Put`, which comes before the test of the error: a ciphertext that outgrows the slice of the
-- pool stands in a longer one, which `Put` panics on.
unfoldable pub put_request : Env → Bytes → Action (Unit {0}) → Action (Unit {0})
put_request env ciphertext write s =
    let r = write s in
    if ltb env.content_enc.c_req_size (length ciphertext) then (panic, r.1) else r

unfoldable pub do_write : Env → Bytes → ℕ → Action ℕ
do_write env new off = do
  (file_id, file_was_empty) ← file_id_for_write env
  blocks ← lift (explode_plain_range env.content_enc.geometry off (length new))
  to_write ← to_encrypt env blocks new
  first ← lift (first_of blocks)
  ciphertext ← encrypt_drawn env to_write first.block_no file_id
  let c_off = block_cipher_off env.content_enc.geometry first
  if ltb max_int64 c_off then raise efbig else λ s.
      preallocated env file_was_empty (enospc_prealloc env s) (do
        written ← put_request env ciphertext (write_at env ciphertext c_off)
        pure (length new % 2 ^ 32))
