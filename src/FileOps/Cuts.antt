-- ===== src/FileOps/Cuts.antt =====
-- What `truncate` makes of a backing file that gets shorter.
use mathlib.Core.Path.{subst}
use native.Mathlib.Nat.{div-add-mod', mod-lt}
use shiroikuma_gcfs.Prelude.{
  ◌^◌, ℕ, ◌+◌, ◌-◌, ◌*◌, ◌/◌, ◌≤◌, ◌<◌, ◌≡◌, refl, ap, ◌∙◌, ◌⊎◌, inl, inr, some, Option, ◌++◌, ok,
  arith, length, take, drop, Bytes, ltb, Bool-cases, ltb→lt, length-take, length-drop,
}
use shiroikuma_gcfs.Prelude.Ranges.{step-le, lt-of_mul, resize, length-resize}
use shiroikuma_gcfs.Prelude.Cuts.{resize-append, write_bytes-resize}
use shiroikuma_gcfs.ContentEnc.Offsets.{
  u64, sub64, plain_off_to_block_no, block_no_to_cipher_off, block_no_to_plain_off,
}
use shiroikuma_gcfs.ContentEnc.IntraBlocks.Joint.{block_no_of}
use shiroikuma_gcfs.ContentEnc.Blocks.{IsContentEnc}
use shiroikuma_gcfs.ContentEnc.Blocks.Setup.{block_fits}
use shiroikuma_gcfs.ContentEnc.Blocks.Resized.{Holds-resize}
use shiroikuma_gcfs.FileOps.Actions.{Env, OpenFile, tock, ftruncate}
use shiroikuma_gcfs.FileOps.{max_int64}
use shiroikuma_gcfs.FileOps.Truncate.{shrink, truncate}
use shiroikuma_gcfs.FileOps.Backed.{
  IsEnv, IsCalm, Backs, Backed, opened, Backed-opened, header, IsEnv-IsContentEnc,
}
use shiroikuma_gcfs.FileOps.FileIds.{drop-header, file_id_for_read-Backed}
use shiroikuma_gcfs.FileOps.Reads.{do_read_lem}
use shiroikuma_gcfs.FileOps.Writes.{do_write-Backs}
use shiroikuma_gcfs.FileOps.Shrinks.{shrink-whole, shrink-part, truncate-shrinks, not-leb}

cut_disk :
    (id body disk : Bytes)
    → length id ≡ 16
    → disk ≡ header id ++ body
    → (n : ℕ) → resize disk (18 + n) ≡ header id ++ resize body n
cut_disk id body disk sized on_disk n = rw on_disk (
    ap (λ k. resize (header id ++ body) (k + n))
      (let e : 18 ≡ length (header id) = omega (arith, sized) in e)
    ∙ resize-append (header id) body n)

module _ (env : Env) (g : IsEnv env) (calm : IsCalm env) where
  open env.content_enc use {plain_bs, cipher_bs}

  pub ftruncate-IsCalm :
      (size : ℕ) (s : OpenFile)
      → size ≤ max_int64
      → ftruncate env size s ≡ (ok tt, record (tock s 1) { disk = resize s.disk size })
  unfolding ftruncate
  ftruncate-IsCalm size s small =
      rw (not-leb (2 ^ 63) size (omega (arith, small)), calm s.tick, ftruncate) refl

  valid : IsContentEnc env.content_enc
  valid = IsEnv-IsContentEnc env g

  -- Cutting the disk off behind `m` blocks, or extending it by holes.
  pub ftruncate-Backed :
      (id body plain : Bytes) (s : OpenFile) (m : ℕ)
      → Backed env.content_enc id body s plain
      → 18 + m * cipher_bs ≤ max_int64
      → (s.id ≡ some id) ⊎ (0 < m)
      → (m * plain_bs ≤ length plain) ⊎ ((e : ℕ) × (length plain ≡ e * plain_bs))
      → (t : OpenFile) × (ftruncate env (18 + m * cipher_bs) s ≡ (ok tt, t))
        × Backs env.content_enc t (resize plain (m * plain_bs))
  ftruncate-Backed id body plain s m b small known whole = (
    record (tock s 1) { disk = resize s.disk (18 + m * cipher_bs) },
    ftruncate-IsCalm (18 + m * cipher_bs) s small,
    inr (
      id,
      resize body (m * cipher_bs),
      record {
        on_disk = cut_disk id body s.disk b.id_sized b.on_disk (m * cipher_bs);
        found = elim b.found [
          | inl cached ↦ inl cached
          | inr (unknown, some_plain) ↦ elim known [
            | inl cached ↦ inl cached
            | inr some_blocks ↦
                let step = step-le 0 m plain_bs some_blocks in
                inr
                  (unknown, omega (arith, step, valid.has_room, length-resize plain (m * plain_bs)))
          ]
        ];
        id_sized = b.id_sized;
        id_random = b.id_random;
        holds = Holds-resize env.content_enc valid id body plain m b.holds whole;
      },
    ),
  )

  module _ (plain : Bytes) (new_size : ℕ) (some_left : 0 < new_size)
      (shorter : new_size < length plain) (fits : length plain + plain_bs < u64)
      (fits_disk : 18 + new_size / plain_bs * cipher_bs + cipher_bs ≤ max_int64) where
    abbrev block_no : ℕ
    block_no = new_size / plain_bs

    abbrev last_block_len : ℕ
    last_block_len = new_size - block_no * plain_bs

    split : block_no * plain_bs + last_block_len ≡ new_size
    split = omega (arith, div-add-mod' new_size plain_bs)

    room : last_block_len < plain_bs
    room = omega (arith, div-add-mod' new_size plain_bs, mod-lt new_size valid.has_room)

    -- The offsets that `truncate` computes.
    offsets :
        (plain_off_to_block_no env.content_enc.geometry new_size ≡ block_no)
        × (block_no_to_plain_off env.content_enc.geometry block_no ≡ block_no * plain_bs)
        × (block_no_to_cipher_off env.content_enc.geometry block_no ≡ 18 + block_no * cipher_bs)
        × (sub64 new_size (block_no * plain_bs) ≡ last_block_len)
    unfolding plain_off_to_block_no block_no_to_plain_off block_no_to_cipher_off
    offsets = (
      refl,
      omega (arith, split, fits, shorter),
      omega (arith, fits_disk),
      omega (arith, split, fits, shorter),
    )

    below : block_no * plain_bs ≤ length plain
    below = omega (arith, split, shorter)

    cut_size : last_block_len ≡ 0 → block_no * plain_bs ≡ new_size
    cut_size aligned = omega (arith, split, aligned)

    shrink_aligned :
        (id body : Bytes) (s : OpenFile)
        → Backed env.content_enc id body s plain
        → last_block_len ≡ 0
        → (t : OpenFile) × (shrink env new_size s ≡ (ok tt, t))
          × Backs env.content_enc t (resize plain new_size)
    shrink_aligned id body s b aligned =
        let (number, plain_off, cipher_off, len) = offsets in
        let some_blocks : 0 < block_no =
          lt-of_mul 0 block_no plain_bs (omega (arith, cut_size aligned, some_left)) in
        let (t, cut, after) =
          ftruncate-Backed id body plain s block_no b (omega (arith, fits_disk)) (inr some_blocks)
            (inl below) in
        (
          t,
          shrink-whole env s new_size number plain_off cipher_off (len ∙ aligned) ∙ cut,
          subst (λ n. Backs env.content_enc t (resize plain n)) (cut_size aligned) after,
        )

    module _ (partial : 0 < last_block_len) where
      abbrev kept : Bytes
      kept = take last_block_len (drop (block_no * plain_bs) plain)

      length-kept : length kept ≡ last_block_len
      length-kept = omega (
        arith,
        split,
        shorter,
        length-take last_block_len (drop (block_no * plain_bs) plain),
        length-drop (block_no * plain_bs) plain,
      )

      same_block : (block_no * plain_bs + last_block_len - 1) / plain_bs ≡ block_no
      same_block =
          block_no_of block_no (last_block_len - 1) (block_no * plain_bs + last_block_len - 1)
            plain_bs (omega (arith, partial)) (omega (arith, room, partial))

      same_block_kept : (block_no * plain_bs + length kept - 1) / plain_bs ≡ block_no
      same_block_kept = ap (λ n. (block_no * plain_bs + n - 1) / plain_bs) length-kept ∙ same_block

      shrink_partial :
          (id body : Bytes) (s : OpenFile)
          → Backed env.content_enc id body s plain
          → (t : OpenFile) × (shrink env new_size s ≡ (ok tt, t))
            × Backs env.content_enc t (resize plain new_size)
      shrink_partial id body s b =
          let (number, plain_off, cipher_off, len) = offsets in
          let off = block_no * plain_bs in
          let small = (block_fits env.content_enc.crypto_core plain_bs g.made).1 in
          let (u, read) =
            do_read_lem env g calm id body s plain
              (file_id_for_read-Backed env.content_enc valid id body s plain b env calm)
              (drop-header env.content_enc valid id body s plain b) b.holds off last_block_len
              partial (omega (arith, room, small)) (omega (arith, split, shorter, fits))
              (rw same_block fits_disk) in
          let (t, cut, after) =
            ftruncate-Backed id body plain (opened id s.disk u) block_no
              (Backed-opened env.content_enc id body s plain u b) (omega (arith, fits_disk))
              (inl refl) (inl below) in
          let (w, written, end) =
            do_write-Backs env g calm (resize plain off) kept off
              (omega (arith, length-kept, partial)) (omega (arith, length-kept, room, small))
              (rw same_block_kept (omega (arith, below, fits))) (rw same_block_kept fits_disk)
              (inr (block_no, length-resize plain off)) t after in
          (
            w,
            shrink-part env s new_size number plain_off cipher_off len (ground (arith, partial))
                read cut written,
            subst (Backs env.content_enc w)
                (write_bytes-resize plain off last_block_len partial (omega (arith, split, shorter))
                  ∙ ap (resize plain) split)
                end,
          )

    -- A file that gets shorter, not to 0, holds the first bytes of its plaintext.
    pub truncate_shorter :
        (attrs : OpenFile → Option ℕ) (s : OpenFile)
        → attrs s ≡ some (length plain)
        → Backs env.content_enc s plain
        → (t : OpenFile) × (truncate env attrs new_size s ≡ (ok tt, t))
          × Backs env.content_enc t (resize plain new_size)
    unfolding truncate
    truncate_shorter attrs s known (inl b) = absurd (omega (arith, shorter, ap length b.no_plain))
    truncate_shorter attrs s known (inr (id, body, b)) = elim (Bool-cases (ltb 0 last_block_len)) [
      | inl partial ↦
          let (t, e, after) = shrink_partial (ltb→lt 0 last_block_len partial) id body s b in
          (t, truncate-shrinks env attrs s new_size known some_left shorter ∙ e, after)
      | inr aligned ↦
          let (t, e, after) = shrink_aligned id body s b (ground (arith, aligned)) in
          (t, truncate-shrinks env attrs s new_size known some_left shorter ∙ e, after)
    ]
