-- ===== src/FileOps/Growth.antt =====
-- What `truncate` makes of a backing file that gets longer.
use mathlib.Core.Path.{subst}
use native.Mathlib.Nat.{mul-le-mul_right, div-add-mod', mod-lt, le-div_iff_mul-le}
use shiroikuma_gcfs.Prelude.{
  ℕ, ◌+◌, ◌-◌, ◌*◌, ◌/◌, ◌%◌, ◌≤◌, ◌<◌, ◌≡◌, refl, ap, ◌∙◌, inl, inr, true, false, ok, arith,
  length, Bytes, ltb, Bool-cases, ◌==◌,
}
use shiroikuma_gcfs.Prelude.Ranges.{lt-of_mul, resize, length-resize}
use shiroikuma_gcfs.Prelude.Cuts.{resize-resize}
use shiroikuma_gcfs.ContentEnc.Offsets.{
  u64, sub64, plain_off_to_block_no, plain_size_to_cipher_size,
}
use shiroikuma_gcfs.ContentEnc.Offsets.Sizes.{plain_size_to_cipher_size_lem}
use shiroikuma_gcfs.ContentEnc.IntraBlocks.Joint.{block_no_of}
use shiroikuma_gcfs.ContentEnc.Blocks.{IsContentEnc}
use shiroikuma_gcfs.FileOps.Actions.{Env, OpenFile, ftruncate}
use shiroikuma_gcfs.FileOps.{max_int64}
use shiroikuma_gcfs.FileOps.Truncate.{
  write_zero, zero_pad, grow_aligned, grow_blocks, truncate_grow_file,
}
use shiroikuma_gcfs.FileOps.Backed.{IsEnv, IsCalm, Backs, IsEnv-IsContentEnc, IsEnv-IsGeometry}
use shiroikuma_gcfs.FileOps.Shrinks.{not-leb, not-==}
use shiroikuma_gcfs.FileOps.Cuts.{ftruncate-Backed}
use shiroikuma_gcfs.FileOps.Padding.{write_zero-Backs, zero_pad-Backs}

pub lt→ltb : (n m : ℕ) → n < m → ltb n m ≡ true
lt→ltb n m h = ground arith

module _ (env : Env) (g : IsEnv env) (calm : IsCalm env) where
  open env.content_enc use {plain_bs, cipher_bs}

  valid : IsContentEnc env.content_enc
  valid = IsEnv-IsContentEnc env g

  module _ (plain : Bytes) (new_size : ℕ) (longer : length plain < new_size)
      (fits : (new_size - 1) / plain_bs * plain_bs + plain_bs < u64)
      (fits_disk : 18 + (new_size - 1) / plain_bs * cipher_bs + cipher_bs ≤ max_int64) where
    bounded : new_size ≤ (new_size - 1) / plain_bs * plain_bs + plain_bs
    bounded =
        omega (
          arith,
          longer,
          div-add-mod' (new_size - 1) plain_bs,
          mod-lt (new_size - 1) valid.has_room,
        )

    last_offset : sub64 new_size 1 ≡ new_size - 1
    last_offset = omega (arith, bounded, fits, longer)

    old_offset : 0 < length plain → sub64 (length plain) 1 ≡ length plain - 1
    old_offset some_plain = omega (arith, bounded, fits, longer)

    -- Growing within one block.
    to_within :
        (s : OpenFile)
        → 0 < length plain
        → ((length plain - 1) / plain_bs == (new_size - 1) / plain_bs) ≡ true
        → truncate_grow_file env (length plain) new_size s ≡ write_zero env (new_size - 1) s
    unfolding truncate_grow_file plain_off_to_block_no
    to_within s some_plain same =
        rw
          (
            truncate_grow_file,
            last_offset,
            old_offset some_plain,
            not-leb new_size (length plain) longer,
            lt→ltb 0 (length plain) some_plain,
            same,
          )
          refl

    to_blocks :
        (s : OpenFile)
        → 0 < length plain
        → ((length plain - 1) / plain_bs == (new_size - 1) / plain_bs) ≡ false
        → truncate_grow_file env (length plain) new_size s
          ≡ grow_blocks env (length plain) new_size s
    unfolding truncate_grow_file plain_off_to_block_no
    to_blocks s some_plain differ =
        rw
          (
            truncate_grow_file,
            last_offset,
            old_offset some_plain,
            not-leb new_size (length plain) longer,
            lt→ltb 0 (length plain) some_plain,
            differ,
          )
          refl

    grow_within :
        (s : OpenFile)
        → Backs env.content_enc s plain
        → 0 < length plain
        → (length plain - 1) / plain_bs ≡ (new_size - 1) / plain_bs
        → (t : OpenFile) × (write_zero env (new_size - 1) s ≡ (ok tt, t))
          × Backs env.content_enc t (resize plain new_size)
    grow_within s b some_plain same =
        let start : (new_size - 1) / plain_bs * plain_bs ≤ length plain =
          let e = div-add-mod' (length plain - 1) plain_bs in
          omega (arith, e, ap (λ k. k * plain_bs) same) in
        write_zero-Backs env g calm plain new_size longer fits fits_disk plain s b longer
          (inl start)

    cipher_size :
        new_size % plain_bs ≡ 0
        → plain_size_to_cipher_size env.content_enc.geometry new_size
          ≡ 18 + new_size / plain_bs * cipher_bs
    cipher_size whole =
        let m : ℕ = new_size / plain_bs in
        let split : m * plain_bs ≡ new_size =
          omega (arith, whole, div-add-mod' new_size plain_bs) in
        let some_blocks : 0 < m = lt-of_mul 0 m plain_bs (omega (arith, split, longer)) in
        let before : (m - 1) * plain_bs + plain_bs ≡ m * plain_bs = omega (
          arith,
          ap (λ (k : ℕ). k * plain_bs) (let e : (m - 1) + 1 ≡ m = omega (arith, some_blocks) in e),
        ) in
        let last : (new_size - 1) / plain_bs ≡ m - 1 =
          block_no_of (m - 1) (plain_bs - 1) (new_size - 1) plain_bs
            (omega (arith, before, split, valid.has_room)) (omega (arith, valid.has_room)) in
        let count : (new_size - 1) / plain_bs + 1 ≡ m = omega (arith, last, some_blocks) in
        let wide : m * cipher_bs ≡ m * plain_bs + m * (cipher_bs - plain_bs) = omega (
          arith,
          ap (λ (c : ℕ). m * c)
              (let e : cipher_bs ≡ plain_bs + (cipher_bs - plain_bs) =
                  omega (arith, valid.cipher_size) in
                e),
        ) in
        plain_size_to_cipher_size_lem env.content_enc.geometry (IsEnv-IsGeometry env g) new_size
          (omega (arith, fits_disk))
        ∙ rw ((not-== 0 new_size (omega (arith, longer))).1, count) (omega (arith, wide, split))

    blocks-aligned :
        (s : OpenFile) {t u : OpenFile}
        → 0 < length plain
        → (new_size % plain_bs) ≡ 0
        → zero_pad env (length plain) s ≡ (ok tt, t)
        → ftruncate env (18 + new_size / plain_bs * cipher_bs) t ≡ (ok tt, u)
        → grow_blocks env (length plain) new_size s ≡ (ok tt, u)
    unfolding grow_blocks grow_aligned
    blocks-aligned s some_plain whole padded cut =
        rw
          (
            grow_blocks,
            padded,
            whole,
            grow_aligned,
            (not-== 0 (length plain) some_plain).1,
            cipher_size whole,
          )
          cut

    blocks-partial :
        (s : OpenFile) {t u : OpenFile}
        → (new_size % plain_bs == 0) ≡ false
        → zero_pad env (length plain) s ≡ (ok tt, t)
        → write_zero env (new_size - 1) t ≡ (ok tt, u)
        → grow_blocks env (length plain) new_size s ≡ (ok tt, u)
    unfolding grow_blocks
    blocks-partial s partial padded zeroed = rw (grow_blocks, padded, partial, last_offset) zeroed

    grow_past :
        (s : OpenFile)
        → Backs env.content_enc s plain
        → 0 < length plain
        → (length plain - 1) / plain_bs < (new_size - 1) / plain_bs
        → (t : OpenFile) × (grow_blocks env (length plain) new_size s ≡ (ok tt, t))
          × Backs env.content_enc t (resize plain new_size)
    grow_past s b some_plain later =
        let (t, e, padded, (after, long, short)) =
          zero_pad-Backs env g calm plain new_size longer fits fits_disk s b later in
        elim (Bool-cases (new_size % plain_bs == 0)) [
          | inl whole ↦
              let none_left : new_size % plain_bs ≡ 0 = ground (arith, whole) in
              let (u, cut, end) = cut_or_hole t e after long short none_left in
              (u, blocks-aligned s some_plain none_left padded cut, end)
          | inr partial ↦
              let (u, zeroed, end) =
                write_zero-Backs env g calm plain new_size longer fits fits_disk
                  (resize plain (e * plain_bs)) t after
                  (omega (arith, short, length-resize plain (e * plain_bs)))
                  (inr (e, length-resize plain (e * plain_bs))) in
              (
                u,
                blocks-partial s partial padded zeroed,
                subst (Backs env.content_enc u)
                    (resize-resize plain (e * plain_bs) new_size long (omega (arith, short))) end,
              )
        ]
      where
        cut_or_hole :
            (t : OpenFile) (e : ℕ)
            → Backs env.content_enc t (resize plain (e * plain_bs))
            → length plain ≤ e * plain_bs
            → e * plain_bs < new_size
            → new_size % plain_bs ≡ 0
            → (u : OpenFile) × (ftruncate env (18 + new_size / plain_bs * cipher_bs) t ≡ (ok tt, u))
              × Backs env.content_enc u (resize plain new_size)
        cut_or_hole t e (inl b') long short whole = absurd (
            omega
              (arith, some_plain, long, ap length b'.no_plain, length-resize plain (e * plain_bs)))
        cut_or_hole t e (inr (id, body, b')) long short whole =
            let m : ℕ = new_size / plain_bs in
            let split : m * plain_bs ≡ new_size =
              omega (arith, whole, div-add-mod' new_size plain_bs) in
            let some_blocks : 0 < m = lt-of_mul 0 m plain_bs (omega (arith, split, longer)) in
            let reach : m < (new_size - 1) / plain_bs + 2 =
              lt-of_mul m ((new_size - 1) / plain_bs + 2) plain_bs
                (omega (arith, split, bounded, valid.has_room)) in
            let reach_disk : m * cipher_bs ≤ ((new_size - 1) / plain_bs + 1) * cipher_bs =
              mul-le-mul_right cipher_bs
                (let k : m ≤ (new_size - 1) / plain_bs + 1 = omega (arith, reach) in k) in
            let (u, cut, end) =
              ftruncate-Backed env g calm id body (resize plain (e * plain_bs)) t m b'
                (omega (arith, reach_disk, fits_disk)) (inr some_blocks)
                (inr (e, length-resize plain (e * plain_bs))) in
            (
              u,
              cut,
              subst (Backs env.content_enc u)
                  (resize-resize plain (e * plain_bs) (m * plain_bs) long
                      (omega (arith, split, short))
                    ∙ ap (resize plain) split)
                  end,
            )

    -- A file that holds something gets longer.
    pub truncate_grow_file-Backs :
        (s : OpenFile)
        → Backs env.content_enc s plain
        → 0 < length plain
        → (t : OpenFile) × (truncate_grow_file env (length plain) new_size s ≡ (ok tt, t))
          × Backs env.content_enc t (resize plain new_size)
    truncate_grow_file-Backs s b some_plain =
        let old = div-add-mod' (length plain - 1) plain_bs in
        let ordered : (length plain - 1) / plain_bs ≤ (new_size - 1) / plain_bs =
          (le-div_iff_mul-le {k = plain_bs} valid.has_room).1 (omega (arith, old, longer)) in
        elim (Bool-cases ((length plain - 1) / plain_bs == (new_size - 1) / plain_bs)) [
          | inl same ↦
              let (t, e, after) = grow_within s b some_plain (ground (arith, same)) in
              (t, to_within s some_plain same ∙ e, after)
          | inr differ ↦
              let (t, e, after) = grow_past s b some_plain (ground (arith, differ, ordered)) in
              (t, to_blocks s some_plain differ ∙ e, after)
        ]
