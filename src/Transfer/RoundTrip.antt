-- ===== src/Transfer/RoundTrip.antt =====
-- A file that is copied into a volume and out of it again.
use mathlib.Core.List.{append-nil}
use mathlib.Core.Path.{subst}
use native.Mathlib.Nat.{div-add-mod', mul-le-mul_right, le-div_iff_mul-le}
use shiroikuma_gcfs.Prelude.{
  ℕ, suc, ◌+◌, ◌*◌, ◌/◌, ◌≤◌, ◌<◌, ◌≡◌, refl, sym, ap, ◌∙◌, inl, inr, Bool, true, false, Option,
  none, some, List, [], ◌∷◌, ◌++◌, ok, err, eof, arith, length, take, drop, drop_all, length-take,
  length-append, All, Bytes, lt→ltb, ==_iff,
}
use shiroikuma_gcfs.Prelude.Ranges.{resize}
use shiroikuma_gcfs.ContentEnc.Offsets.{u64}
use shiroikuma_gcfs.ContentEnc.Header.{header_len}
use shiroikuma_gcfs.FileOps.Actions.{Env, OpenFile, tock, ftruncate}
use shiroikuma_gcfs.FileOps.{max_int64, do_read, read_file_id, file_id_for_read}
use shiroikuma_gcfs.FileOps.Truncate.{truncate}
use shiroikuma_gcfs.FileOps.Backed.{IsEnv, IsCalm, Backs, header, IsEnv-IsContentEnc}
use shiroikuma_gcfs.FileOps.FileIds.{read_at-IsCalm}
use shiroikuma_gcfs.FileOps.Exports.{
  Files, Handle, file_of, with_file, without, handle_of, gcf_truncate,
}
use shiroikuma_gcfs.Transfer.{chunk, write_reads, put, encrypt_file, read_loop}
use shiroikuma_gcfs.Transfer.Tables.{file_of-with_file, without-with_file, gcf_close_file-with_file}
use shiroikuma_gcfs.Transfer.Puts.{contents, write_reads-Leaves}
use shiroikuma_gcfs.Transfer.Gets.{read_loop-Backs, read_loop-err}

file_of-first : (c : ℕ) (h : Handle) (files : Files) → file_of ((c, h) ∷ files) c ≡ some h
unfolding file_of
file_of-first c h files = rw ((==_iff c c).1 refl) refl

put-steps :
    (env : Env) (handle : ℕ) (reads : List Bytes) (files : Files) {h : Handle} {n : ℕ}
    (t : OpenFile)
    → file_of files handle ≡ some h
    → write_reads env handle reads false 0 (some files) ≡ (ok n, some (with_file files handle t))
    → put env handle reads false (some files) ≡ (ok t.disk, some (without files handle))
unfolding put
put-steps env handle reads files t found written =
    rw written (gcf_close_file-with_file files handle t found)

module _ (env : Env) (g : IsEnv env) (calm : IsCalm env) where
  open env.content_enc use {plain_bs, cipher_bs}

  -- For a content encryption that New made over an AEAD, random nonces and file IDs of the right
  -- length that are not all zero, and no failing system call: put, from the opened handle of a file
  -- that stands for an old plaintext on, with reads of at most 64 KiB within the bounds of writing,
  -- succeeds and closes the handle, and the file that is left stands for the bytes of the reads
  -- with what the old plaintext has behind them.
  pub put-Backs :
      (old : Bytes) (reads : List Bytes) (handle : ℕ) (files : Files) {h : Handle}
      → file_of files handle ≡ some h
      → Backs env.content_enc h.file old
      → All (λ buf. length buf ≤ chunk) reads
      → length (contents reads) + plain_bs < u64
      → 18 + length (contents reads) / plain_bs * cipher_bs + cipher_bs ≤ max_int64
      → (t : OpenFile) × (put env handle reads false (some files)
          ≡ (ok t.disk, some (without files handle)))
        × Backs env.content_enc t (contents reads ++ drop (length (contents reads)) old)
  put-Backs old reads handle files found b small fits fits_disk =
      let (t, written, after) =
        write_reads-Leaves env g calm old (length (contents reads)) fits fits_disk reads false
          handle [] files found b small (omega arith) in
      (t, put-steps env handle reads files t found written, after)

  gcf_truncate-zero :
      (attrs : OpenFile → Option ℕ) (files : Files) (path : Bytes) (handle : ℕ) {h : Handle}
      → handle_of files path ≡ some (handle, h)
      → gcf_truncate env attrs (some files) path 0
        ≡ (ok true, some (with_file files handle (record (tock h.file 1) { disk = [] })))
  unfolding gcf_truncate truncate ftruncate resize
  gcf_truncate-zero attrs files path handle {h} first =
      rw (gcf_truncate, first, calm h.file.tick) refl

  -- What the file stood for before does not matter.
  encrypt_file-Backs :
      (attrs : OpenFile → Option ℕ) (reads : List Bytes) (handle : ℕ) (path : Bytes) (files : Files)
      {h : Handle}
      → file_of files handle ≡ some h
      → handle_of files path ≡ some (handle, h)
      → h.file.id ≡ none
      → All (λ buf. length buf ≤ chunk) reads
      → length (contents reads) + plain_bs < u64
      → 18 + length (contents reads) / plain_bs * cipher_bs + cipher_bs ≤ max_int64
      → (t : OpenFile) × (encrypt_file env attrs handle path reads false (some files)
          ≡ (ok t.disk, some (without files handle)))
        × Backs env.content_enc t (contents reads)
  unfolding encrypt_file
  encrypt_file-Backs attrs reads handle path files {h} found first no_id small fits fits_disk =
      let emptied = record (tock h.file 1) { disk = [] } in
      let (t, e, after) =
        put-Backs [] reads handle (with_file files handle emptied)
          (file_of-with_file files handle emptied found)
          (inl (record { no_disk = refl; no_id = no_id; no_plain = refl })) small fits fits_disk in
      (
        t,
        rw (gcf_truncate-zero attrs files path handle first)
            (e ∙ ap (λ l. (ok t.disk, some l)) (without-with_file files handle emptied)),
        subst (Backs env.content_enc t)
            (ap (λ l. contents reads ++ l) (drop_all (length (contents reads)) [] (omega arith))
              ∙ append-nil (contents reads))
            after,
      )

  -- A file of a header at most cannot be read.
  module _ (s : OpenFile) (short : length s.disk ≤ 18) where
    read_file_id-short : read_file_id env s ≡ (err eof, tock s 1)
    unfolding read_file_id
    read_file_id-short =
        rw
          (
            read_at-IsCalm env calm (header_len + 1) 0 s,
            lt→ltb (length (take 19 s.disk)) 19 (omega (arith, short, length-take 19 s.disk)),
          )
          refl

    file_id_for_read-short : s.id ≡ none → file_id_for_read env s ≡ (err eof, tock s 1)
    unfolding file_id_for_read
    file_id_for_read-short no_id = simp (file_id_for_read, no_id, read_file_id-short) refl

    do_read-short : (off want : ℕ) → s.id ≡ none → do_read env off want s ≡ (err eof, tock s 1)
    unfolding do_read
    do_read-short off want no_id = rw (file_id_for_read-short no_id) refl

  -- The file of a closed handle, opened again.
  abbrev reopened : ℕ → OpenFile → OpenFile
  reopened later t = record { id = none; disk = t.disk; tick = later }

  Backs-short : (t : OpenFile) → Backs env.content_enc t [] → length t.disk ≤ 18
  Backs-short t (inl b) = omega (arith, ap length b.no_disk)
  Backs-short t (inr (id, body, b)) = omega (
    arith,
    ap length b.on_disk,
    length-append (header id) body,
    b.id_sized,
    b.holds.ends 0 (omega arith),
  )

  Backs-reopened :
      (later : ℕ) (t : OpenFile) (plain : Bytes)
      → Backs env.content_enc t plain
      → 0 < length plain
      → Backs env.content_enc (reopened later t) plain
  Backs-reopened later t plain (inl b) some_plain =
      absurd (omega (arith, some_plain, ap length b.no_plain))
  Backs-reopened later t plain (inr (id, body, b)) some_plain = inr (
    id,
    body,
    record {
      on_disk = b.on_disk;
      found = inr (refl, some_plain);
      id_sized = b.id_sized;
      id_random = b.id_random;
      holds = b.holds;
    },
  )

  -- The plaintext may be empty.
  read_loop-reopened :
      (room : ℕ → Bool) (plain : Bytes) (t : OpenFile) (handle later : ℕ) (files : Files)
      {k : Handle}
      → ((off : ℕ) → room off ≡ true)
      → Backs env.content_enc t plain
      → file_of files handle ≡ some k
      → k.file ≡ reopened later t
      → length plain + chunk < u64
      → 18 + (length plain + chunk) / plain_bs * cipher_bs + cipher_bs ≤ max_int64
      → (read_loop env room (suc (length plain)) handle 0 [] (some files)).0 ≡ ok plain
  read_loop-reopened room [] t handle later files {k} has_room b found same fits fits_disk =
      ap (λ r. r.0)
        (read_loop-err env room 0 handle 0 [] files found eof (
          do_read-short k.file
            (omega (arith, ap length (ap (λ (f : OpenFile). f.disk) same), Backs-short t b)) 0 chunk
            (ap (λ (f : OpenFile). f.id) same)))
  read_loop-reopened room (x ∷ xs) t handle later files {k} has_room b found same fits fits_disk =
      let plain = x ∷ xs in
      let (u, e, kept, after) =
        read_loop-Backs env g calm room has_room plain fits fits_disk (suc (length plain)) handle 0
          [] files found
          (subst (λ f. Backs env.content_enc f plain) (sym same)
            (Backs-reopened later t plain b (omega arith)))
          (omega arith) (omega arith) (omega arith) in
      ap (λ r. r.0) e

  -- For a content encryption that New made over an AEAD, random nonces and file IDs of the right
  -- length that are not all zero, and no failing system call: encryptFile, from the newly opened
  -- handle of its path on, with reads of at most 64 KiB that end in the end of the file, succeeds
  -- whatever the file held before, and closes the handle; the loop of cat and of decryptFileToDisk,
  -- with one round more than there are bytes, on a new handle of the file that is left and an
  -- output that takes every write, returns the bytes of the reads, one after the other. The number
  -- of bytes, one chunk and one block more lie within the bounds of reading and writing.
  pub read_loop-encrypt_file :
      (attrs : OpenFile → Option ℕ) (reads : List Bytes) (handle again later : ℕ) (path : Bytes)
      (files : Files) {h : Handle}
      → file_of files handle ≡ some h
      → handle_of files path ≡ some (handle, h)
      → h.file.id ≡ none
      → All (λ buf. length buf ≤ chunk) reads
      → length (contents reads) + chunk + plain_bs < u64
      → 18 + (length (contents reads) + chunk) / plain_bs * cipher_bs + cipher_bs ≤ max_int64
      → (disk : Bytes) × (encrypt_file env attrs handle path reads false (some files)
          ≡ (ok disk, some (without files handle)))
        × ((read_loop env
              (λ off. true)
              (suc (length (contents reads)))
              again
              0
              []
              (some (
                (
                  again,
                  record { path = path; file = record { id = none; disk = disk; tick = later } },
                )
                ∷ without files handle))).0
            ≡ ok (contents reads))
  read_loop-encrypt_file attrs reads handle again later path files found first no_id small fits
        fits_disk =
      let total = length (contents reads) in
      let split = div-add-mod' total plain_bs in
      let below : total / plain_bs ≤ (total + chunk) / plain_bs =
        (le-div_iff_mul-le {k = plain_bs} (IsEnv-IsContentEnc env g).has_room).1
          (omega (arith, split)) in
      let below_disk : total / plain_bs * cipher_bs ≤ (total + chunk) / plain_bs * cipher_bs =
        mul-le-mul_right cipher_bs below in
      let (t, e, after) =
        encrypt_file-Backs attrs reads handle path files found first no_id small
          (omega (arith, fits)) (omega (arith, below_disk, fits_disk)) in
      (
        t.disk,
        e,
        read_loop-reopened (λ off. true) (contents reads) t again later
            ((again, record { path = path; file = reopened later t }) ∷ without files handle)
            (λ off. refl) after
            (file_of-first again (record { path = path; file = reopened later t })
              (without files handle))
            refl (omega (arith, fits)) fits_disk,
      )
