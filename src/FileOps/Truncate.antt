-- ===== src/FileOps/Truncate.antt =====
-- file.go: `zeroPad`, `truncateGrowFile` and `truncate`.
use shiroikuma_gcfs.Prelude.{
  ℕ, ◌%◌, Option, none, some, [], ◌∷◌, ok, err, eio, ltb, leb, ◌==◌, if◌then◌else◌, replicate,
}
use shiroikuma_gcfs.FileOps.Actions.{Env, OpenFile, Action, ◌>>=◌, pure, raise, ftruncate, set_id}
use shiroikuma_gcfs.ContentEnc.Offsets.{
  sub64, plain_off_to_block_no, block_no_to_cipher_off, block_no_to_plain_off,
  plain_size_to_cipher_size,
}
use shiroikuma_gcfs.FileOps.{do_read, do_write, create_header}

-- A write whose count nobody reads.
abbrev pub written : Action ℕ → Action (Unit {0})
written m = do n ← m; pure tt

unfoldable pub zero_pad : Env → ℕ → Action (Unit {0})
zero_pad env plain_size =
    let last_block_len = plain_size % env.content_enc.plain_bs in
    if last_block_len == 0
    then pure tt
    else written
        (do_write env (replicate (sub64 env.content_enc.plain_bs last_block_len) 0) plain_size)

-- The single zero that extends the file to its new end.
abbrev pub write_zero : Env → ℕ → Action (Unit {0})
write_zero env off = written (do_write env (0 ∷ []) off)

-- Growing to whole blocks: a header where there was none, and a hole.
unfoldable pub grow_aligned : Env → ℕ → ℕ → Action (Unit {0})
grow_aligned env old_plain_sz new_plain_sz =
    if old_plain_sz == 0
    then (do
      id ← create_header env
      cached ← set_id id
      ftruncate env (plain_size_to_cipher_size env.content_enc.geometry new_plain_sz))
    else ftruncate env (plain_size_to_cipher_size env.content_enc.geometry new_plain_sz)

-- Behind the case of a file that grows within one block.
unfoldable pub grow_blocks : Env → ℕ → ℕ → Action (Unit {0})
grow_blocks env old_plain_sz new_plain_sz = do
  padded ← zero_pad env old_plain_sz
  if new_plain_sz % env.content_enc.plain_bs == 0
      then grow_aligned env old_plain_sz new_plain_sz
      else write_zero env (sub64 new_plain_sz 1)

unfoldable pub truncate_grow_file : Env → ℕ → ℕ → Action (Unit {0})
truncate_grow_file env old_plain_sz new_plain_sz =
    let new_eof_offset = sub64 new_plain_sz 1 in
    let n1 = plain_off_to_block_no env.content_enc.geometry (sub64 old_plain_sz 1) in
    let n2 = plain_off_to_block_no env.content_enc.geometry new_eof_offset in
    if leb new_plain_sz old_plain_sz
    then raise eio
    else if ltb 0 old_plain_sz
    then (if n1 == n2
        then write_zero env new_eof_offset
        else grow_blocks env old_plain_sz new_plain_sz)
    else grow_blocks env old_plain_sz new_plain_sz

-- The end of `truncate`, for a file that shrinks.
unfoldable pub shrink : Env → ℕ → Action (Unit {0})
shrink env new_size =
    let block_no = plain_off_to_block_no env.content_enc.geometry new_size in
    let plain_off = block_no_to_plain_off env.content_enc.geometry block_no in
    let last_block_len = sub64 new_size plain_off in
    if ltb 0 last_block_len
    then (do
      kept ← do_read env plain_off last_block_len
      cut ← ftruncate env (block_no_to_cipher_off env.content_enc.geometry block_no)
      written (do_write env kept plain_off))
    else ftruncate env (block_no_to_cipher_off env.content_enc.geometry block_no)

-- `attrs` is the plaintext size that `gcf_get_attrs` finds at the path of the file, `none` where it fails.
unfoldable pub truncate : Env → (OpenFile → Option ℕ) → ℕ → Action (Unit {0})
truncate env attrs new_size s = if new_size == 0 then ftruncate env 0 s else elim (attrs s) [
  | none ↦ (err eio, s)
  | some old_size ↦
      if new_size == old_size
      then (ok tt, s)
      else if ltb old_size new_size
      then truncate_grow_file env old_size new_size s
      else shrink env new_size s
]
