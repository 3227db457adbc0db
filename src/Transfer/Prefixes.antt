-- ===== src/Transfer/Prefixes.antt =====
-- What the loop that reads a file returns where calls of the system may fail.
use mathlib.Core.Path.{subst}
use mathlib.Core.List.{append-nil, append_assoc}
use shiroikuma_gcfs.Prelude.{
  ℕ, zero, suc, ◌+◌, ◌-◌, ◌*◌, ◌/◌, ◌≤◌, ◌<◌, ◌≡◌, refl, sym, ap, ◌∙◌, ◌⊎◌, inl, inr, Bool, true,
  Option, some, [], ◌∷◌, ◌++◌, Outcome, ok, arith, length, take, drop, drop-drop, length-take,
  length-drop, Bytes,
}
use shiroikuma_gcfs.ContentEnc.Offsets.{u64}
use shiroikuma_gcfs.FileOps.Actions.{Env, OpenFile}
use shiroikuma_gcfs.FileOps.{max_int64, do_read}
use shiroikuma_gcfs.FileOps.Backed.{IsEnv, Backs}
use shiroikuma_gcfs.FileOps.Exports.{Files, Handle, file_of, with_file}
use shiroikuma_gcfs.Transfer.{chunk, read_loop}
use shiroikuma_gcfs.Transfer.Tables.{file_of-with_file}
use shiroikuma_gcfs.Transfer.Gets.{do_read-chunk, read_loop-err, read_loop-end, read_loop-more}
use shiroikuma_gcfs.Transfer.Faults.{calmed, calmed-IsEnv, Faulty, do_read-SameOrFault}

-- The first bytes, and the first of those behind them.
take-more :
    (n m : ℕ) (xs : Bytes) → take n xs ++ take m (drop (length (take n xs)) xs) ≡ take (n + m) xs
take-more zero m xs = ap (λ k. take k xs) (let e : m ≡ 0 + m = omega arith in e)
take-more (suc n) m [] = take_nil m ∙ sym (take_nil (suc n + m))
  where
    take_nil : (k : ℕ) → take {A = ℕ} k [] ≡ []
    take_nil zero = refl
    take_nil (suc k) = refl
take-more (suc n) m (x ∷ xs) =
    ap (λ l. x ∷ l) (take-more n m xs)
    ∙ ap (λ k. take k (x ∷ xs)) (let e : suc (n + m) ≡ suc n + m = omega arith in e)

module _ (env : Env) (g : IsEnv env) (room : ℕ → Bool) (has_room : (k : ℕ) → room k ≡ true)
    (plain : Bytes) (some_plain : 0 < length plain) (fits : length plain + chunk < u64)
    (fits_disk : 18
        + (length plain + chunk) / env.content_enc.plain_bs * env.content_enc.cipher_bs
        + env.content_enc.cipher_bs
      ≤ max_int64) where
  -- The loop has read whole chunks behind `out`: all there are, if no call fails.
  abbrev Prefix : ℕ → Bytes → Outcome Bytes × Option Files → Type 0
  Prefix off out r =
      (k : ℕ) × (r.0 ≡ ok (out ++ take (k * chunk) (drop off plain)))
      × ((length plain ≤ off + k * chunk) ⊎ Faulty env)

  longer :
      (off : ℕ) (out buf : Bytes) (r : Outcome Bytes × Option Files)
      → take chunk (drop off plain) ≡ buf
      → Prefix (off + length buf) (out ++ buf) r
      → Prefix off out r
  longer off out buf r e (k, result, over) = (
    suc k,
    result
        ∙ ap (λ l. ok l)
            (append_assoc out buf (take (k * chunk) (drop (off + length buf) plain))
              ∙ ap (λ l. out ++ l)
                  (joined
                    ∙ take-more chunk (k * chunk) (drop off plain)
                    ∙ ap (λ n. take n (drop off plain)) round)),
    elim over [ inl all ↦ inl (omega (arith, all, short)) | inr fault ↦ inr fault ],
  )
    where
      short : length buf ≤ chunk
      short = omega (arith, ap length e, length-take chunk (drop off plain))

      round : chunk + k * chunk ≡ suc k * chunk
      round = omega arith

      joined :
          buf ++ take (k * chunk) (drop (off + length buf) plain)
          ≡ take chunk (drop off plain)
            ++ take (k * chunk) (drop (length (take chunk (drop off plain))) (drop off plain))
      joined = rw (e, drop-drop off (length buf) plain) refl

  read_loop_round :
      (fuel handle off : ℕ) (out : Bytes) (files : Files) {h : Handle} (t : OpenFile) (buf : Bytes)
      → file_of files handle ≡ some h
      → take chunk (drop off plain) ≡ buf
      → off ≤ length plain
      → do_read env off chunk h.file ≡ (ok buf, t)
      → (0 < length buf
          → off + length buf ≤ length plain
          → Prefix (off + length buf) (out ++ buf) (
              read_loop env room fuel handle
                (off + length buf)
                (out ++ buf)
                (some (with_file files handle t))))
      → Prefix off out (read_loop env room (suc fuel) handle off out (some files))
  read_loop_round fuel handle off out files t [] found e before read more =
      let nothing : length (drop off plain) ≡ 0 =
        omega (arith, ap length e, length-take chunk (drop off plain)) in
      (
        0,
        ap (λ r. r.0) (read_loop-end env room fuel handle off out files found read)
            ∙ ap (λ l. ok l) (sym (append-nil out)),
        inl (omega (arith, nothing, length-drop off plain)),
      )
  read_loop_round fuel handle off out files t (x ∷ xs) found e before read more =
      let buf = x ∷ xs in
      let size = ap length e in
      let within = length-take chunk (drop off plain) in
      let left = length-drop off plain in
      longer off out buf (read_loop env room (suc fuel) handle off out (some files)) e (
        subst (Prefix (off + length buf) (out ++ buf))
          (sym (
            read_loop-more env room fuel handle off out files found x xs read
              (omega (arith, size, within)) (omega (arith, size, within, left, before, fits))
              (has_room off)))
          (more (omega arith) (omega (arith, size, within, left, before))))

  read_loop-Prefix :
      (fuel handle off : ℕ) (out : Bytes) (files : Files) {h : Handle}
      → file_of files handle ≡ some h
      → Backs env.content_enc h.file plain
      → off ≤ length plain
      → length plain - off < fuel
      → Prefix off out (read_loop env room fuel handle off out (some files))
  read_loop-Prefix zero handle off out files found b before enough = absurd (omega arith)
  read_loop-Prefix (suc fuel) handle off out files {h} found b before enough =
      let (t, read, same_disk, after) =
        do_read-chunk (calmed env) (calmed-IsEnv env g) (λ k. refl) room has_room plain fits
          fits_disk h.file off b some_plain before in
      elim (do_read-SameOrFault env off chunk h.file) [
        | inl same ↦
            read_loop_round fuel handle off out files t (take chunk (drop off plain)) found refl
              before (same ∙ read)
              (λ some_buf within.
                read_loop-Prefix fuel handle (off + length (take chunk (drop off plain)))
                  (out ++ take chunk (drop off plain)) (with_file files handle t)
                  (file_of-with_file files handle t found) after within
                  (omega (arith, some_buf, enough)))
        | inr (e, u, failed, fault) ↦ (
          0,
          ap (λ r. r.0) (read_loop-err env room fuel handle off out files found e failed)
              ∙ ap (λ l. ok l) (sym (append-nil out)),
          inr fault,
        )
      ]

  -- For a content encryption that New made over an AEAD, random bytes of the right length, calls of
  -- the system of which any may fail, an open handle of a file that stands for a plaintext of one
  -- byte or more, and an output that takes every write: the loop of cat, decryptFileToDisk and
  -- sha256Vol, with one round more than there are bytes, ends with success and the first chunks of
  -- the plaintext, whole but perhaps for its last one; these are all of the plaintext, or some call
  -- of the system fails. The number of bytes, one chunk and one block more lie within the bounds of
  -- reading.
  pub read_loop-take :
      (handle : ℕ) (files : Files) {h : Handle}
      → file_of files handle ≡ some h
      → Backs env.content_enc h.file plain
      → (k : ℕ) × ((read_loop env room (suc (length plain)) handle 0 [] (some files)).0
          ≡ ok (take (k * chunk) plain))
        × ((length plain ≤ k * chunk) ⊎ Faulty env)
  read_loop-take handle files found b =
      let (k, e, over) =
        read_loop-Prefix (suc (length plain)) handle 0 [] files found b (omega arith)
          (omega arith) in
      (k, e, elim over [ inl all ↦ inl (omega (arith, all)) | inr fault ↦ inr fault ])
