-- ===== src/Transfer/Puts.antt =====
-- The loop that writes the reads of a file into a volume.
use mathlib.Core.Path.{subst}
use mathlib.Core.List.{append-nil, append_assoc}
use native.Mathlib.Nat.{div-add-mod', mul-le-mul_right, le-div_iff_mul-le}
use shiroikuma_gcfs.Prelude.{
  ℕ, ◌+◌, ◌-◌, ◌*◌, ◌/◌, ◌%◌, ◌^◌, ◌≤◌, ◌<◌, ◌≡◌, refl, sym, ap, ◌∙◌, inl, Bool, false, Option,
  some, List, [], ◌∷◌, ◌++◌, Outcome, ok, err, eio, arith, ◌==◌, if◌then◌else◌, length, drop,
  drop-drop, length-append, All, Bytes,
}
use shiroikuma_gcfs.Prelude.Ranges.{write_bytes}
use shiroikuma_gcfs.Prelude.Overwrites.{write_bytes-append}
use shiroikuma_gcfs.ContentEnc.Offsets.{u64}
use shiroikuma_gcfs.FileOps.Actions.{Env, OpenFile}
use shiroikuma_gcfs.FileOps.{max_int64, do_write}
use shiroikuma_gcfs.FileOps.Backed.{IsEnv, IsCalm, Backs, IsEnv-IsContentEnc}
use shiroikuma_gcfs.FileOps.Writes.{do_write-Backs}
use shiroikuma_gcfs.FileOps.Exports.{Files, Handle, file_of, with_file}
use shiroikuma_gcfs.Transfer.{chunk, write_reads}
use shiroikuma_gcfs.Transfer.Tables.{
  file_of-with_file, with_file-with_file, with_file_same, write_chunk-ok, write_chunk-nil,
}

abbrev pub contents : List Bytes → Bytes
contents [] = []
contents (buf ∷ reads) = buf ++ contents reads

-- `done` in front of what `old` has behind it.
abbrev pub over : Bytes → Bytes → Bytes
over old done = done ++ drop (length done) old

write_bytes-over :
    (old done buf : Bytes)
    → 0 < length buf
    → write_bytes (over old done) (length done) buf ≡ over old (done ++ buf)
unfolding write_bytes
write_bytes-over old done buf some_buf =
    ap (λ k. write_bytes (over old done) k buf)
      (let e : length done ≡ length done + 0 = omega arith in e)
    ∙ write_bytes-append (drop (length done) old) buf 0 some_buf done
    ∙ ap (λ l. done ++ l)
        (rw (not_zero (length buf) some_buf, drop-drop (length done) (0 + length buf) old)
          (ap (λ k. buf ++ drop k old) (omega (arith, length-append done buf))))
    ∙ sym (append_assoc done buf (drop (length (done ++ buf)) old))
  where
    not_zero : (n : ℕ) → 0 < n → (n == 0) ≡ false
    not_zero n h = ground arith

module _ (env : Env) (g : IsEnv env) (calm : IsCalm env) (old : Bytes) (total : ℕ)
    (fits : total + env.content_enc.plain_bs < u64)
    (fits_disk : 18
        + total / env.content_enc.plain_bs * env.content_enc.cipher_bs
        + env.content_enc.cipher_bs
      ≤ max_int64) where
  open env.content_enc use {plain_bs, cipher_bs}

  do_write-over :
      (done buf : Bytes) (s : OpenFile)
      → 0 < length buf
      → length buf ≤ chunk
      → length done + length buf ≤ total
      → Backs env.content_enc s (over old done)
      → (t : OpenFile) × (do_write env buf (length done) s ≡ (ok (length buf % 2 ^ 32), t))
        × Backs env.content_enc t (over old (done ++ buf))
  do_write-over done buf s some_buf small room b =
      let has_room = (IsEnv-IsContentEnc env g).has_room in
      let last = length done + length buf - 1 in
      let split = div-add-mod' last plain_bs in
      let below : last / plain_bs ≤ total / plain_bs =
        (le-div_iff_mul-le {k = plain_bs} has_room).1 (omega (arith, split)) in
      let below_disk : last / plain_bs * cipher_bs ≤ total / plain_bs * cipher_bs =
        mul-le-mul_right cipher_bs below in
      let (t, e, after) =
        do_write-Backs env g calm (over old done) buf (length done) some_buf (omega (arith, small))
          (omega (arith, split, fits)) (omega (arith, below_disk, fits_disk))
          (inl (
            omega (
              arith,
              div-add-mod' (length done) plain_bs,
              length-append done (drop (length done) old),
            )))
          s b in
      (t, e, subst (Backs env.content_enc t) (write_bytes-over old done buf some_buf) after)

  -- The result of the loop where it has written `done` at its end.
  abbrev pub Leaves : Bool → ℕ → Files → Outcome ℕ × Option Files → Bytes → Type 0
  Leaves failed handle files r done =
      (t : OpenFile) × (r
        ≡ (if failed then err eio else ok (length done), some (with_file files handle t)))
      × Backs env.content_enc t (over old done)

  Leaves-with_file :
      (failed : Bool) (handle : ℕ) (files : Files) (r : Outcome ℕ × Option Files) (done : Bytes)
      (u : OpenFile)
      → Leaves failed handle (with_file files handle u) r done
      → Leaves failed handle files r done
  Leaves-with_file failed handle files r done u (t, e, after) = (
    t,
    e
        ∙ ap (λ l. (if failed then err eio else ok (length done), some l))
            (with_file-with_file files handle u t),
    after,
  )

  -- For a content encryption that New made over an AEAD, random nonces and file IDs of the right
  -- length that are not all zero, and no failing system call: the loop of encryptFile and of put,
  -- from the offset where it has written some bytes over an old plaintext, with reads of at most 64
  -- KiB within the bounds of writing, writes all of them also where the last read fails, which is
  -- an error, and the handle then has a file that stands for the bytes written with what the old
  -- plaintext has behind them.
  pub write_reads-Leaves :
      (reads : List Bytes) (failed : Bool) (handle : ℕ) (done : Bytes) (files : Files) {h : Handle}
      → file_of files handle ≡ some h
      → Backs env.content_enc h.file (over old done)
      → All (λ buf. length buf ≤ chunk) reads
      → length done + length (contents reads) ≤ total
      → Leaves failed handle files
          (write_reads env handle reads failed (length done) (some files))
          (done ++ contents reads)
  unfolding write_reads
  write_reads-Leaves [] failed handle done files {h} found b small room =
      subst (Leaves failed handle files (if failed then err eio else ok (length done), some files))
        (sym (append-nil done)) (h.file, rw (with_file_same files handle found) refl, b)
  write_reads-Leaves ([] ∷ reads) failed handle done files {h} found b small room =
      rw (write_chunk-nil env handle (length done) (some files))
        (write_reads-Leaves reads failed handle done files found b small.1 room)
  write_reads-Leaves ((x ∷ xs) ∷ reads) failed handle done files {h} found b small room =
      let buf = x ∷ xs in
      let whole = length-append buf (contents reads) in
      let (u, written, after) =
        do_write-over done buf h.file (omega arith) small.0 (omega (arith, room, whole)) b in
      let longer = length-append done buf in
      rw
        (
          write_chunk-ok env files handle (length done) found buf (omega arith) small.0
              (omega (arith, room, whole, fits)) written,
          sym longer,
          sym (append_assoc done buf (contents reads)),
        )
        (Leaves-with_file failed handle files _ _ u (
          write_reads-Leaves reads failed handle (done ++ buf) (with_file files handle u)
            (file_of-with_file files handle u found) after small.1
            (omega (arith, room, whole, longer))))
