-- ===== src/FileOps/Sizes.antt =====
-- What `truncate` makes of a backing file.
use mathlib.Core.Path.{subst}
use native.Mathlib.Nat.{mul-le-mul_right, div-add-mod', le-div_iff_mul-le}
use shiroikuma_gcfs.Prelude.{
  ℕ, ◌+◌, ◌-◌, ◌*◌, ◌/◌, ◌≤◌, ◌<◌, ◌≡◌, refl, sym, ap, ◌∙◌, inl, inr, true, some, Option, ok, arith,
  length, Bytes, ltb, Bool-cases, ltb→lt, ◌==◌,
}
use shiroikuma_gcfs.Prelude.Ranges.{resize}
use shiroikuma_gcfs.Prelude.Cuts.{resize-length}
use shiroikuma_gcfs.ContentEnc.Offsets.{u64}
use shiroikuma_gcfs.FileOps.Actions.{Env, OpenFile}
use shiroikuma_gcfs.FileOps.{max_int64}
use shiroikuma_gcfs.FileOps.Truncate.{truncate, truncate_grow_file}
use shiroikuma_gcfs.FileOps.Backed.{IsEnv, IsCalm, Backs, IsEnv-IsContentEnc}
use shiroikuma_gcfs.FileOps.Shrinks.{not-==}
use shiroikuma_gcfs.FileOps.Cuts.{truncate_shorter}
use shiroikuma_gcfs.FileOps.Growth.{lt→ltb, truncate_grow_file-Backs}

module _ (env : Env) (attrs : OpenFile → Option ℕ) (s : OpenFile) (new_size : ℕ)
    (some_left : 0 < new_size) {old_size : ℕ} (known : attrs s ≡ some old_size) where
  truncate-grows :
      old_size < new_size
      → truncate env attrs new_size s ≡ truncate_grow_file env old_size new_size s
  unfolding truncate
  truncate-grows longer =
      rw
        (
          (not-== 0 new_size some_left).1,
          truncate,
          known,
          (not-== old_size new_size longer).1,
          lt→ltb old_size new_size longer,
        )
        refl

  truncate-stays : (new_size == old_size) ≡ true → truncate env attrs new_size s ≡ (ok tt, s)
  unfolding truncate
  truncate-stays same = rw ((not-== 0 new_size some_left).1, truncate, known, same) refl

module _ (env : Env) (g : IsEnv env) (calm : IsCalm env) where
  open env.content_enc use {plain_bs, cipher_bs}

  -- For a content encryption that New made over an AEAD, random nonces and file IDs of the right
  -- length that are not all zero, and no failing system call: when a file on disk stands for a
  -- plaintext of one byte or more and the attributes give its length: truncate to a size that is
  -- not 0, smaller or larger, succeeds, and leaves a file that stands for the plaintext cut off at
  -- that size or extended to it by zeros. Both sizes with one block more lie below 2^64, and the
  -- block of the new end within 2^63 - 1 bytes on disk.
  pub truncate-Backs :
      (attrs : OpenFile → Option ℕ) (s : OpenFile) (plain : Bytes) (new_size : ℕ)
      → attrs s ≡ some (length plain)
      → Backs env.content_enc s plain
      → 0 < length plain
      → 0 < new_size
      → length plain + plain_bs < u64
      → new_size + plain_bs < u64
      → 18 + new_size / plain_bs * cipher_bs + cipher_bs ≤ max_int64
      → (t : OpenFile) × (truncate env attrs new_size s ≡ (ok tt, t))
        × Backs env.content_enc t (resize plain new_size)
  truncate-Backs attrs s plain new_size known b some_plain some_left fits_old fits fits_disk =
      elim (Bool-cases (ltb new_size (length plain))) [
        | inl shorter ↦
            truncate_shorter env g calm plain new_size some_left
              (ltb→lt new_size (length plain) shorter) fits_old fits_disk attrs s known b
        | inr not_shorter ↦ elim (Bool-cases (new_size == length plain)) [
          | inl same ↦
              let e : length plain ≡ new_size = ground (arith, same) in
              (
                s,
                truncate-stays env attrs s new_size some_left known same,
                subst (Backs env.content_enc s) (sym (resize-length plain) ∙ ap (resize plain) e) b,
              )
          | inr differ ↦
              let longer : length plain < new_size = ground (arith, not_shorter, differ) in
              let has_room = (IsEnv-IsContentEnc env g).has_room in
              let split = div-add-mod' (new_size - 1) plain_bs in
              let below : (new_size - 1) / plain_bs ≤ new_size / plain_bs =
                (le-div_iff_mul-le {k = plain_bs} has_room).1 (omega (arith, split)) in
              let below_disk : (new_size - 1) / plain_bs * cipher_bs
                  ≤ new_size / plain_bs * cipher_bs =
                mul-le-mul_right cipher_bs below in
              let (t, e, after) =
                truncate_grow_file-Backs env g calm plain new_size longer
                  (omega (arith, split, fits)) (omega (arith, below_disk, fits_disk)) s b
                  some_plain in
              (t, truncate-grows env attrs s new_size some_left known longer ∙ e, after)
        ]
      ]
