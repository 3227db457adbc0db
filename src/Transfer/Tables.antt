-- ===== src/Transfer/Tables.antt =====
-- The table of handles: a changed file is found again, and one step of a transfer by the results of the
-- calls that it makes.
use shiroikuma_gcfs.Prelude.{
  ℕ, ◌+◌, ◌%◌, ◌^◌, ◌≤◌, ◌<◌, ◌≡◌, refl, Bool-cases, Option, some, [], ◌∷◌, ok, err, Error, arith,
  ◌==◌, length, Bytes, not-ltb, lt→ltb, ==_iff, inl, inr,
}
use shiroikuma_gcfs.ContentEnc.Blocks.{max_kernel_write}
use shiroikuma_gcfs.FileOps.Actions.{Env, OpenFile}
use shiroikuma_gcfs.FileOps.{do_read, do_write}
use shiroikuma_gcfs.FileOps.Exports.{
  Files, Handle, file_of, with_file, without, gcf_read_file, gcf_write_file,
}
use shiroikuma_gcfs.Transfer.{chunk, gcf_close_file, write_chunk}

pub file_of-with_file :
    (files : Files) (c : ℕ) (s : OpenFile) {h : Handle}
    → file_of files c ≡ some h
    → file_of (with_file files c s) c ≡ some (record h { file = s })
unfolding file_of with_file
file_of-with_file [] c s found = cc
file_of-with_file ((k, h) ∷ files) c s {h = g} found =
    ground (arith, file_of-with_file files c s {h = g})

pub with_file-with_file :
    (files : Files) (c : ℕ) (s t : OpenFile)
    → with_file (with_file files c s) c t ≡ with_file files c t
unfolding with_file
with_file-with_file [] c s t = refl
with_file-with_file ((k, h) ∷ files) c s t = elim (Bool-cases (k == c)) [
  | inl here ↦ rw here (rw here refl)
  | inr away ↦ rw away (rw (away, with_file-with_file files c s t) refl)
]

pub without-with_file :
    (files : Files) (c : ℕ) (s : OpenFile) → without (with_file files c s) c ≡ without files c
unfolding with_file without
without-with_file [] c s = refl
without-with_file ((k, h) ∷ files) c s = elim (Bool-cases (k == c)) [
  | inl here ↦ rw here (rw here refl)
  | inr away ↦ rw away (rw (away, without-with_file files c s) refl)
]

pub gcf_close_file-with_file :
    (files : Files) (c : ℕ) (s : OpenFile) {h : Handle}
    → file_of files c ≡ some h
    → gcf_close_file (some (with_file files c s)) c ≡ (ok s.disk, some (without files c))
unfolding gcf_close_file
gcf_close_file-with_file files c s found =
    rw (gcf_close_file, file_of-with_file files c s found, without-with_file files c s) refl

pub with_file_same :
    (files : Files) (c : ℕ) {h : Handle}
    → file_of files c ≡ some h
    → with_file files c h.file ≡ files
unfolding file_of with_file
with_file_same [] c found = cc
with_file_same ((k, h) ∷ files) c {h = g} found = ground (arith, with_file_same files c {h = g})

pub write_chunk-nil :
    (env : Env) (handle off : ℕ) (files : Option Files)
    → write_chunk env handle [] off files ≡ (ok off, files)
unfolding write_chunk
write_chunk-nil env handle off files = refl

module _ (env : Env) (files : Files) (handle off : ℕ) {f : Handle} {t : OpenFile}
    (found : file_of files handle ≡ some f) where
  pub gcf_write_file-ok :
      (new : Bytes) (n : ℕ)
      → length new ≤ max_kernel_write
      → do_write env new off f.file ≡ (ok n, t)
      → gcf_write_file env (some files) handle off new ≡ (ok n, some (with_file files handle t))
  unfolding gcf_write_file
  gcf_write_file-ok new n small written =
      rw (not-ltb (length new) max_kernel_write small, found, written) refl

  pub write_chunk-ok :
      (new : Bytes)
      → 0 < length new
      → length new ≤ chunk
      → off + length new < 2 ^ 64
      → do_write env new off f.file ≡ (ok (length new % 2 ^ 32), t)
      → write_chunk env handle new off (some files)
        ≡ (ok (off + length new), some (with_file files handle t))
  unfolding write_chunk
  write_chunk-ok new some_new small fits written =
      rw
        (
          lt→ltb 0 (length new) some_new,
          gcf_write_file-ok new (length new % 2 ^ 32) (omega (arith, small)) written,
          not_wrapped,
          (==_iff (length new) (length new)).1 refl,
          in_range,
        )
        refl
    where
      in_range : (off + length new) % 2 ^ 64 ≡ off + length new
      in_range = omega (arith, fits)

      not_wrapped : length new % 2 ^ 32 ≡ length new
      not_wrapped = omega (arith, small)

  pub gcf_read_file-ok :
      (want : ℕ) (out : Bytes)
      → want ≤ max_kernel_write
      → do_read env off want f.file ≡ (ok out, t)
      → gcf_read_file env (some files) handle off want
        ≡ (ok (length out % 2 ^ 32, out), some (with_file files handle t))
  unfolding gcf_read_file
  gcf_read_file-ok want out small read = rw (not-ltb want max_kernel_write small, found, read) refl

  pub gcf_read_file-err :
      (want : ℕ) (e : Error)
      → want ≤ max_kernel_write
      → do_read env off want f.file ≡ (err e, t)
      → gcf_read_file env (some files) handle off want
        ≡ (ok (0, []), some (with_file files handle t))
  unfolding gcf_read_file
  gcf_read_file-err want e small read = rw (not-ltb want max_kernel_write small, found, read) refl
