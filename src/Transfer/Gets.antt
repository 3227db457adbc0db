-- ===== src/Transfer/Gets.antt =====
-- The loop that reads a file of a volume to its end.
use mathlib.Core.Path.{subst}
use mathlib.Core.List.{append-nil, append_assoc}
use native.Mathlib.Nat.{div-add-mod', mul-le-mul_right, le-div_iff_mul-le}
use shiroikuma_gcfs.Prelude.{
  ℕ, zero, suc, ◌+◌, ◌-◌, ◌*◌, ◌/◌, ◌%◌, ◌^◌, ◌≤◌, ◌<◌, ◌≡◌, refl, sym, ap, ◌∙◌, Bool, true, false,
  Option, some, [], ◌∷◌, ◌++◌, Outcome, ok, err, Error, arith, ◌==◌, length, take, drop, drop-drop,
  length-take, length-drop, take_all, Bytes,
}
use shiroikuma_gcfs.ContentEnc.Offsets.{u64}
use shiroikuma_gcfs.FileOps.Actions.{Env, OpenFile}
use shiroikuma_gcfs.FileOps.{max_int64, do_read}
use shiroikuma_gcfs.FileOps.Backed.{IsEnv, IsCalm, Backs, IsEnv-IsContentEnc}
use shiroikuma_gcfs.FileOps.Reads.{do_read-Backs}
use shiroikuma_gcfs.FileOps.Exports.{Files, Handle, file_of, with_file}
use shiroikuma_gcfs.Transfer.{chunk, read_loop}
use shiroikuma_gcfs.Transfer.Tables.{
  file_of-with_file, with_file-with_file, gcf_read_file-ok, gcf_read_file-err,
}

-- The bytes behind those that were taken.
take-append-rest : (n : ℕ) (xs : Bytes) → take n xs ++ drop (length (take n xs)) xs ≡ xs
take-append-rest zero xs = refl
take-append-rest (suc n) [] = refl
take-append-rest (suc n) (x ∷ xs) = ap (λ l. x ∷ l) (take-append-rest n xs)

append-rest :
    (n off : ℕ) (plain out buf : Bytes)
    → take n (drop off plain) ≡ buf
    → (out ++ buf) ++ drop (off + length buf) plain ≡ out ++ drop off plain
append-rest n off plain out buf e =
    append_assoc out buf (drop (off + length buf) plain)
    ∙ ap (λ l. out ++ l)
        (ap (λ l. buf ++ l) (sym (drop-drop off (length buf) plain))
          ∙ subst (λ l. l ++ drop (length l) (drop off plain) ≡ drop off plain) e
              (take-append-rest n (drop off plain)))

module _ (env : Env) (room : ℕ → Bool) (fuel handle off : ℕ) (out : Bytes) (files : Files)
    {f : Handle} {t : OpenFile} (found : file_of files handle ≡ some f) where
  open env.content_enc use {plain_bs, cipher_bs}

  -- When doRead fails with an error at the offset of a round, for a handle that is open, the loop
  -- of cat, decryptFileToDisk and sha256Vol ends with success and the bytes that were read before.
  pub read_loop-err :
      (e : Error)
      → do_read env off chunk f.file ≡ (err e, t)
      → read_loop env room (suc fuel) handle off out (some files)
        ≡ (ok out, some (with_file files handle t))
  unfolding read_loop
  read_loop-err e failed =
      rw (gcf_read_file-err env files handle off found chunk e (omega arith) failed) refl

  pub read_loop-end :
      do_read env off chunk f.file ≡ (ok [], t)
      → read_loop env room (suc fuel) handle off out (some files)
        ≡ (ok out, some (with_file files handle t))
  unfolding read_loop
  read_loop-end read =
      rw (gcf_read_file-ok env files handle off found chunk [] (omega arith) read) refl

  pub read_loop-more :
      (x : ℕ) (xs : Bytes)
      → do_read env off chunk f.file ≡ (ok (x ∷ xs), t)
      → length (x ∷ xs) ≤ chunk
      → off + length (x ∷ xs) < u64
      → room off ≡ true
      → read_loop env room (suc fuel) handle off out (some files)
        ≡ read_loop env room fuel handle
            (off + length (x ∷ xs))
            (out ++ (x ∷ xs))
            (some (with_file files handle t))
  unfolding read_loop
  read_loop-more x xs read small fits has_room =
      rw
        (
          gcf_read_file-ok env files handle off found chunk (x ∷ xs) (omega arith) read,
          counted,
          not_empty,
          has_room,
          in_range,
          take_all (length (x ∷ xs)) (x ∷ xs) (omega arith),
        )
        refl
    where
      counted : length (x ∷ xs) % 2 ^ 32 ≡ length (x ∷ xs)
      counted = omega (arith, small)

      not_empty : (length (x ∷ xs) == 0) ≡ false
      not_empty = ground arith

      in_range : (off + length (x ∷ xs)) % u64 ≡ off + length (x ∷ xs)
      in_range = omega (arith, fits)

module _ (env : Env) (g : IsEnv env) (calm : IsCalm env) (room : ℕ → Bool)
    (has_room : (k : ℕ) → room k ≡ true) (plain : Bytes) (fits : length plain + chunk < u64)
    (fits_disk : 18
        + (length plain + chunk) / env.content_enc.plain_bs * env.content_enc.cipher_bs
        + env.content_enc.cipher_bs
      ≤ max_int64) where
  open env.content_enc use {plain_bs, cipher_bs}

  pub do_read-chunk :
      (s : OpenFile) (off : ℕ)
      → Backs env.content_enc s plain
      → 0 < length plain
      → off ≤ length plain
      → (t : OpenFile) × (do_read env off chunk s ≡ (ok (take chunk (drop off plain)), t))
        × (t.disk ≡ s.disk)
        × Backs env.content_enc t plain
  do_read-chunk s off b some_plain before =
      let last = off + chunk - 1 in
      let split = div-add-mod' last plain_bs in
      let below : last / plain_bs ≤ (length plain + chunk) / plain_bs =
        (le-div_iff_mul-le {k = plain_bs} (IsEnv-IsContentEnc env g).has_room).1
          (omega (arith, split)) in
      let below_disk : last / plain_bs * cipher_bs ≤ (length plain + chunk) / plain_bs * cipher_bs =
        mul-le-mul_right cipher_bs below in
      do_read-Backs env g calm s plain off chunk b some_plain (omega arith) (omega arith)
        (omega (arith, fits)) (omega (arith, below_disk, fits_disk))

  -- The result of the loop that has `out` at its end.
  abbrev Reads : Files → ℕ → OpenFile → Outcome Bytes × Option Files → Bytes → Type 0
  Reads files handle s r out =
      (t : OpenFile) × (r ≡ (ok out, some (with_file files handle t)))
      × (t.disk ≡ s.disk)
      × Backs env.content_enc t plain

  -- One round, and the rounds behind it where it has read some bytes.
  read_loop_step :
      (fuel handle off : ℕ) (out : Bytes) (files : Files) (h : Handle) (t : OpenFile) (buf : Bytes)
      → file_of files handle ≡ some h
      → take chunk (drop off plain) ≡ buf
      → off ≤ length plain
      → do_read env off chunk h.file ≡ (ok buf, t)
      → t.disk ≡ h.file.disk
      → Backs env.content_enc t plain
      → (0 < length buf
          → off + length buf ≤ length plain
          → Reads
              (with_file files handle t)
              handle
              t
              (read_loop env room fuel handle
                (off + length buf)
                (out ++ buf)
                (some (with_file files handle t)))
              ((out ++ buf) ++ drop (off + length buf) plain))
      → Reads files handle h.file
          (read_loop env room (suc fuel) handle off out (some files))
          (out ++ drop off plain)
  read_loop_step fuel handle off out files h t [] found e before read same after more =
      let nothing : length (drop off plain) ≡ 0 =
        omega (arith, ap length e, length-take chunk (drop off plain)) in
      (
        t,
        read_loop-end env room fuel handle off out files found read
            ∙ ap (λ l. (ok l, some (with_file files handle t)))
                (sym (
                  ap (λ l. out ++ l) (sym (take_all 0 (drop off plain) (omega (arith, nothing))))
                  ∙ append-nil out)),
        same,
        after,
      )
  read_loop_step fuel handle off out files h t (x ∷ xs) found e before read same after more =
      let buf = x ∷ xs in
      let size = ap length e in
      let within = length-take chunk (drop off plain) in
      let left = length-drop off plain in
      let (u, rest, kept, still) = more (omega arith) (omega (arith, size, within, left, before)) in
      (
        u,
        read_loop-more env room fuel handle off out files found x xs read
              (omega (arith, size, within)) (omega (arith, size, within, left, before, fits))
              (has_room off)
            ∙ rest
            ∙ ap (λ l. (ok l, some (with_file (with_file files handle t) handle u)))
                (append-rest chunk off plain out buf e)
            ∙ ap (λ l. (ok (out ++ drop off plain), some l)) (with_file-with_file files handle t u),
        kept ∙ same,
        still,
      )

  pub read_loop-Backs :
      (fuel handle off : ℕ) (out : Bytes) (files : Files) {h : Handle}
      → file_of files handle ≡ some h
      → Backs env.content_enc h.file plain
      → 0 < length plain
      → off ≤ length plain
      → length plain - off < fuel
      → Reads files handle h.file
          (read_loop env room fuel handle off out (some files))
          (out ++ drop off plain)
  read_loop-Backs zero handle off out files found b some_plain before enough = absurd (omega arith)
  read_loop-Backs (suc fuel) handle off out files {h} found b some_plain before enough =
      let (t, read, same, after) = do_read-chunk h.file off b some_plain before in
      let buf = take chunk (drop off plain) in
      read_loop_step fuel handle off out files h t buf found refl before read same after
        (λ some_buf within.
          read_loop-Backs fuel handle (off + length buf) (out ++ buf) (with_file files handle t)
            (file_of-with_file files handle t found) after some_plain within
            (omega (arith, some_buf, enough)))
