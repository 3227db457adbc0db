-- ===== src/FileOps/Padding.antt =====
-- Zeros at the end of a backing file: `zeroPad`, and the zero at the new end of a file that grows.
use mathlib.Core.Path.{subst}
use native.Mathlib.Nat.{div-add-mod', mod-lt}
use shiroikuma_gcfs.Prelude.{
  ℕ, ◌+◌, ◌-◌, ◌*◌, ◌/◌, ◌%◌, ◌≤◌, ◌<◌, ◌≡◌, refl, sym, ap, ◌∙◌, ◌⊎◌, inl, inr, false, ok, arith,
  length, replicate, length-replicate, Bytes, Bool-cases, ◌==◌,
}
use shiroikuma_gcfs.Prelude.Ranges.{step-le, resize}
use shiroikuma_gcfs.Prelude.Cuts.{resize-length, write_zeros-resize}
use shiroikuma_gcfs.ContentEnc.Offsets.{u64, sub64}
use shiroikuma_gcfs.ContentEnc.IntraBlocks.Joint.{block_no_of}
use shiroikuma_gcfs.ContentEnc.Blocks.{IsContentEnc, max_kernel_write}
use shiroikuma_gcfs.ContentEnc.Blocks.Setup.{block_fits}
use shiroikuma_gcfs.FileOps.Actions.{Env, OpenFile}
use shiroikuma_gcfs.FileOps.{max_int64, do_write}
use shiroikuma_gcfs.FileOps.Truncate.{written, write_zero, zero_pad}
use shiroikuma_gcfs.FileOps.Backed.{IsEnv, IsCalm, Backs, IsEnv-IsContentEnc}
use shiroikuma_gcfs.FileOps.Writes.{do_write-Backs}

written_lem :
    (env : Env) (new : Bytes) (off : ℕ) (s : OpenFile) {n : ℕ} {t : OpenFile}
    → do_write env new off s ≡ (ok n, t)
    → written (do_write env new off) s ≡ (ok tt, t)
written_lem env new off s e = rw e refl

module _ (env : Env) (g : IsEnv env) (calm : IsCalm env) where
  open env.content_enc use {plain_bs, cipher_bs}

  valid : IsContentEnc env.content_enc
  valid = IsEnv-IsContentEnc env g

  -- Zeros written at the end of the plaintext, or behind it, extend it.
  write_zeros :
      (plain : Bytes) (s : OpenFile) (off n : ℕ)
      → Backs env.content_enc s plain
      → 0 < n
      → n ≤ max_kernel_write
      → length plain ≤ off
      → (off + n - 1) / plain_bs * plain_bs + plain_bs < u64
      → 18 + (off + n - 1) / plain_bs * cipher_bs + cipher_bs ≤ max_int64
      → (off / plain_bs * plain_bs ≤ length plain) ⊎ ((e : ℕ) × (length plain ≡ e * plain_bs))
      → (t : OpenFile) × (written (do_write env (replicate n 0) off) s ≡ (ok tt, t))
        × Backs env.content_enc t (resize plain (off + n))
  write_zeros plain s off n b some_zeros request beyond fits fits_disk no_gap =
      let zero_byte : ℕ = 0 in
      let len : length (replicate n zero_byte) ≡ n = length-replicate n zero_byte in
      let (t, e, after) =
        do_write-Backs env g calm plain (replicate n 0) off (omega (arith, len, some_zeros))
          (omega (arith, len, request)) (rw len fits) (rw len fits_disk) no_gap s b in
      (
        t,
        written_lem env (replicate n 0) off s e,
        subst (Backs env.content_enc t) (write_zeros-resize plain off n some_zeros beyond) after,
      )

  module _ (plain : Bytes) (new_size : ℕ) (longer : length plain < new_size)
      (fits : (new_size - 1) / plain_bs * plain_bs + plain_bs < u64)
      (fits_disk : 18 + (new_size - 1) / plain_bs * cipher_bs + cipher_bs ≤ max_int64) where
    bounded : new_size ≤ (new_size - 1) / plain_bs * plain_bs + plain_bs
    bounded =
        omega (
          arith,
          longer,
          div-add-mod' (new_size - 1) plain_bs,
          mod-lt (new_size - 1) valid.has_room,
        )

    -- The single zero at the new end.
    pub write_zero-Backs :
        (xs : Bytes) (s : OpenFile)
        → Backs env.content_enc s xs
        → length xs < new_size
        → ((new_size - 1) / plain_bs * plain_bs ≤ length xs)
          ⊎ ((e : ℕ) × (length xs ≡ e * plain_bs))
        → (t : OpenFile) × (write_zero env (new_size - 1) s ≡ (ok tt, t))
          × Backs env.content_enc t (resize xs new_size)
    write_zero-Backs xs s b shorter no_gap =
        let same : new_size - 1 + 1 ≡ new_size = omega (arith, longer) in
        let at_end : (new_size - 1 + 1 - 1) / plain_bs ≡ (new_size - 1) / plain_bs =
          ap (λ n. (n - 1) / plain_bs) same in
        let (t, e, after) =
          write_zeros xs s (new_size - 1) 1 b (omega arith) (omega arith) (omega (arith, shorter))
            (rw at_end fits) (rw at_end fits_disk) no_gap in
        (t, e, subst (λ n. Backs env.content_enc t (resize xs n)) same after)

    abbrev tail : ℕ
    tail = length plain % plain_bs

    parts : (length plain / plain_bs * plain_bs + tail ≡ length plain) × (tail < plain_bs)
    parts = (div-add-mod' (length plain) plain_bs, mod-lt (length plain) valid.has_room)

    abbrev pub Padded : OpenFile → ℕ → Type 0
    Padded t e =
        Backs env.content_enc t (resize plain (e * plain_bs))
        × (length plain ≤ e * plain_bs)
        × (e * plain_bs < new_size)

    zero_pad-aligned :
        (s : OpenFile)
        → Backs env.content_enc s plain
        → tail ≡ 0
        → (zero_pad env (length plain) s ≡ (ok tt, s)) × Padded s (length plain / plain_bs)
    unfolding zero_pad
    zero_pad-aligned s b aligned =
        let full : length plain ≡ length plain / plain_bs * plain_bs =
          omega (arith, parts, aligned) in
        (
          rw (zero_pad, aligned) refl,
          (
            subst (λ xs. Backs env.content_enc s xs)
                (sym (resize-length plain) ∙ ap (resize plain) full) b,
            omega (arith, full),
            omega (arith, full, longer),
          ),
        )

    zero_pad-step :
        (s : OpenFile) {n : ℕ} {t : OpenFile}
        → (tail == 0) ≡ false
        → sub64 plain_bs tail ≡ n
        → written (do_write env (replicate n 0) (length plain)) s ≡ (ok tt, t)
        → zero_pad env (length plain) s ≡ (ok tt, t)
    unfolding zero_pad
    zero_pad-step s partial missing e = rw (zero_pad, partial, missing) e

    zero_pad-partial :
        (s : OpenFile)
        → Backs env.content_enc s plain
        → 0 < tail
        → (tail == 0) ≡ false
        → (length plain - 1) / plain_bs < (new_size - 1) / plain_bs
        → (t : OpenFile) × (zero_pad env (length plain) s ≡ (ok tt, t))
          × Padded t (length plain / plain_bs + 1)
    zero_pad-partial s b some_tail partial later =
        let q : ℕ = length plain / plain_bs in
        let n : ℕ = plain_bs - tail in
        let last : ℕ = (new_size - 1) / plain_bs in
        let here : (length plain - 1) / plain_bs ≡ q =
          block_no_of q (tail - 1) (length plain - 1) plain_bs (omega (arith, parts, some_tail))
            (omega (arith, parts)) in
        let end : length plain + n ≡ (q + 1) * plain_bs = omega (arith, parts) in
        let padded : (length plain + n - 1) / plain_bs ≡ q =
          block_no_of q (plain_bs - 1) (length plain + n - 1) plain_bs
            (omega (arith, parts, end, valid.has_room)) (omega (arith, valid.has_room)) in
        let before : q < last = omega (arith, here, later) in
        let step = step-le q last plain_bs before in
        let step_disk = step-le q last cipher_bs before in
        let whole = div-add-mod' (new_size - 1) plain_bs in
        let small = (block_fits env.content_enc.crypto_core plain_bs g.made).1 in
        let (t, e, after) =
          write_zeros plain s (length plain) n b (omega (arith, parts))
            (omega (arith, parts, small)) (omega arith) (rw padded (omega (arith, step, fits)))
            (rw padded (omega (arith, step_disk, fits_disk))) (inl (omega (arith, parts))) in
        (
          t,
          zero_pad-step s partial (omega (arith, parts, fits, valid.fits, valid.cipher_size)) e,
          (
            subst (λ k. Backs env.content_enc t (resize plain k)) end after,
            omega (arith, end),
            omega (arith, step, whole, longer),
          ),
        )

    -- Padding the last block, where a later one follows.
    pub zero_pad-Backs :
        (s : OpenFile)
        → Backs env.content_enc s plain
        → (length plain - 1) / plain_bs < (new_size - 1) / plain_bs
        → (t : OpenFile) × (e : ℕ) × (zero_pad env (length plain) s ≡ (ok tt, t)) × Padded t e
    zero_pad-Backs s b later = elim (Bool-cases (tail == 0)) [
      | inl aligned ↦
          let (e, after) = zero_pad-aligned s b (ground (arith, aligned)) in
          (s, length plain / plain_bs, e, after)
      | inr partial ↦
          let (t, e, after) = zero_pad-partial s b (ground (arith, partial)) partial later in
          (t, length plain / plain_bs + 1, e, after)
    ]
