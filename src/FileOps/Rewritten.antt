-- ===== src/FileOps/Rewritten.antt =====
-- Operations one after the other on one file: reading back a write, and writing after a truncation to 0.
use native.Mathlib.Nat.{div-add-mod', mod-lt}
use shiroikuma_gcfs.Prelude.{
  ℕ, ◌+◌, ◌-◌, ◌*◌, ◌/◌, ◌%◌, ◌^◌, ◌≤◌, ◌<◌, ◌≡◌, refl, sym, ◌∙◌, ◌⊎◌, inr, false, none, Option, [],
  ok, err, arith, length, take, drop, replicate, length-take, take-take, Bytes, not-ltb,
  header_all_zero, drop_all, bytes_equal,
}
use shiroikuma_gcfs.Prelude.Ranges.{write_bytes, length-write_bytes, resize}
use shiroikuma_gcfs.Prelude.Overwrites.{range-write_bytes, take-write_bytes-empty}
use shiroikuma_gcfs.ContentEnc.Header.{header_len, parse_header}
use shiroikuma_gcfs.ContentEnc.Offsets.{u64}
use shiroikuma_gcfs.ContentEnc.Blocks.{max_kernel_write}
use shiroikuma_gcfs.ContentEnc.Blocks.Encrypted.{Holds-nil}
use shiroikuma_gcfs.FileOps.Actions.{Env, OpenFile, ◌>>=◌, tock, ftruncate}
use shiroikuma_gcfs.FileOps.{max_int64, do_read, do_write, read_file_id}
use shiroikuma_gcfs.FileOps.Truncate.{truncate}
use shiroikuma_gcfs.FileOps.Backed.{
  IsEnv, IsCalm, Backs, opened, IsEnv-IsContentEnc, file_id_for_write-opened,
}
use shiroikuma_gcfs.FileOps.FileIds.{read_at-IsCalm}
use shiroikuma_gcfs.FileOps.Reads.{do_read-Backs}
use shiroikuma_gcfs.FileOps.Writes.{do_write-Backs, do_write_lem}

module _ (env : Env) (g : IsEnv env) (calm : IsCalm env) (new : Bytes) (off : ℕ)
    (some_new : 0 < length new) (request : length new ≤ max_kernel_write)
    (fits : (off + length new - 1) / env.content_enc.plain_bs * env.content_enc.plain_bs
        + env.content_enc.plain_bs
      < u64)
    (fits_disk : 18
        + (off + length new - 1) / env.content_enc.plain_bs * env.content_enc.cipher_bs
        + env.content_enc.cipher_bs
      ≤ max_int64) where
  open env.content_enc use {plain_bs, cipher_bs}

  -- For a content encryption that New made over an AEAD, random nonces and file IDs of the right
  -- length that are not all zero, no failing system call, a file on disk that stands for a
  -- plaintext, and a write of 1 to MAX_KERNEL_WRITE bytes at an offset, whose block the plaintext
  -- reaches or which follows a full last block, with the last block within 2^63 - 1 bytes on disk
  -- and 2^64 bytes of plaintext: doRead of the range that doWrite has just written returns the
  -- bytes that were written, and the file stands for the plaintext with the write.
  pub do_read-do_write :
      (plain : Bytes) (s : OpenFile)
      → Backs env.content_enc s plain
      → (off / plain_bs * plain_bs ≤ length plain) ⊎ ((e : ℕ) × (length plain ≡ e * plain_bs))
      → (t : OpenFile) × ((do_write env new off >>= λ n. do_read env off (length new)) s
          ≡ (ok new, t))
        × Backs env.content_enc t (write_bytes plain off new)
  do_read-do_write plain s b no_gap =
      let (t, written, after) =
        do_write-Backs env g calm plain new off some_new request fits fits_disk no_gap s b in
      let some_plain : 0 < length (write_bytes plain off new) =
        omega (arith, length-write_bytes plain off new some_new, some_new) in
      let below : off + length new < u64 = omega (
        arith,
        fits,
        some_new,
        div-add-mod' (off + length new - 1) plain_bs,
        mod-lt (off + length new - 1) (IsEnv-IsContentEnc env g).has_room,
      ) in
      let (u, read, same, still) =
        do_read-Backs env g calm t (write_bytes plain off new) off (length new) after some_plain
          some_new request below fits_disk in
      (u, rw (written, read, range-write_bytes plain new off some_new) refl, still)

  ftruncate-zero : (s : OpenFile) → ftruncate env 0 s ≡ (ok tt, record (tock s 1) { disk = [] })
  unfolding ftruncate resize
  ftruncate-zero s = rw (calm s.tick, ftruncate) refl

  blank_header :
      (s : OpenFile)
      → 19 ≤ length s.disk
      → take 18 s.disk ≡ replicate 18 0
      → (read_file_id env s).0 ≡ err header_all_zero
  unfolding read_file_id
  blank_header s long zeros =
      rw
        (
          read_at-IsCalm env calm (header_len + 1) 0 s,
          not-ltb 19 (length (take 19 (drop 0 s.disk)))
              (omega (arith, long, length-take 19 s.disk)),
          take-take 18 19 s.disk (omega arith) ∙ zeros,
        )
        (unfold parse_header bytes_equal in refl)

  -- For a content encryption that New made over an AEAD, random bytes of the right length, no
  -- failing system call, and an open file whose file ID of 16 bytes is cached: truncating to 0 and
  -- then writing 1 to MAX_KERNEL_WRITE bytes, within the bounds of doWrite, succeeds, and the file
  -- ID of the resulting file can not be read any more, since its header is all zero.
  pub do_write-truncate :
      (attrs : OpenFile → Option ℕ) (id disk : Bytes) (t : ℕ)
      → length id ≡ 16
      → (u : OpenFile) × ((truncate env attrs 0 >>= λ done. do_write env new off) (opened id disk t)
          ≡ (ok (length new % 2 ^ 32), u))
        × ((read_file_id env (record u { id = none })).0 ≡ err header_all_zero)
  unfolding truncate
  do_write-truncate attrs id disk t sized =
      let valid = IsEnv-IsContentEnc env g in
      let (w, new_body, some_new_body, written, h) =
        do_write_lem env g calm [] new off some_new request fits fits_disk (inr (0, omega arith)) id
          [] [] (opened id [] (t + 1)) (t + 1) false (file_id_for_write-opened env id [] (t + 1))
          sized (λ k. drop_all (18 + k) [] (omega arith) ∙ sym (drop_all k [] (omega arith)))
          (Holds-nil env.content_enc valid id 0) in
      let place = 18 + off / plain_bs * cipher_bs in
      (
        opened id (write_bytes [] place new_body) w,
        rw (ftruncate-zero (opened id disk t), written) refl,
        blank_header (record (opened id (write_bytes [] place new_body) w) { id = none })
            (omega (arith, length-write_bytes [] place new_body some_new_body, some_new_body))
            (take-write_bytes-empty 18 place new_body some_new_body (omega arith)),
      )
