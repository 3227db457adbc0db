-- ===== src/FileOps/Merges.antt =====
-- The loop of `doWrite`: each block that is not whole is read, merged and collected.
use mathlib.Core.Path.{subst}
use native.Mathlib.Nat.{mul-le-mul_right}
use shiroikuma_gcfs.Prelude.{
  ℕ, suc, ◌+◌, ◌-◌, ◌*◌, ◌/◌, ◌%◌, ◌≤◌, ◌<◌, ◌≡◌, refl, sym, ap, ◌∙◌, inl, inr, false, List, [],
  ◌∷◌, ok, arith, length, take, drop, length-take, length-drop, Bytes, Bool-cases,
}
use shiroikuma_gcfs.Prelude.Ranges.{block, length-block, lt-of_mul}
use shiroikuma_gcfs.ContentEnc.Offsets.{u64, block_no_to_plain_off}
use shiroikuma_gcfs.ContentEnc.IntraBlocks.{IntraBlock, is_partial, block_plain_off}
use shiroikuma_gcfs.ContentEnc.IntraBlocks.Tiling.{StartsRange, Tiles}
use shiroikuma_gcfs.ContentEnc.IntraBlocks.Joint.{block_no_of}
use shiroikuma_gcfs.ContentEnc.Blocks.{IsContentEnc, merge_blocks}
use shiroikuma_gcfs.ContentEnc.Blocks.Holds.{Holds}
use shiroikuma_gcfs.ContentEnc.Blocks.Merge.{merge_blocks_lem}
use shiroikuma_gcfs.ContentEnc.Blocks.Setup.{block_fits}
use shiroikuma_gcfs.ContentEnc.Blocks.Chunks.{chunks}
use shiroikuma_gcfs.FileOps.Actions.{Env}
use shiroikuma_gcfs.FileOps.{max_int64, do_read, block_data, to_encrypt}
use shiroikuma_gcfs.FileOps.Backed.{
  IsEnv, IsCalm, opened, file_id_for_read-opened, IsEnv-IsContentEnc,
}
use shiroikuma_gcfs.FileOps.Reads.{do_read_lem}
use shiroikuma_gcfs.FileOps.Overlay.{Overlay, merged-block, next-Overlay}

module _ (env : Env) (g : IsEnv env) (calm : IsCalm env) (id body disk plain result : Bytes)
    (behind : (k : ℕ) → drop (18 + k) disk ≡ drop k body)
    (h : Holds env.content_enc id 0 body plain) (last : ℕ)
    (fits : last * env.content_enc.plain_bs + env.content_enc.plain_bs < u64)
    (fits_disk : 18 + last * env.content_enc.cipher_bs + env.content_enc.cipher_bs
      ≤ max_int64) where
  open env.content_enc use {plain_bs, cipher_bs}

  valid : IsContentEnc env.content_enc
  valid = IsEnv-IsContentEnc env g

  -- A whole block of the old plaintext is read before it is changed.
  read_block :
      (k t : ℕ)
      → k ≤ last
      → (u : ℕ) × (do_read env (k * plain_bs) plain_bs (opened id disk t)
          ≡ (ok (block plain_bs k plain), opened id disk u))
  read_block k t inside =
      let same : (k * plain_bs + plain_bs - 1) / plain_bs ≡ k =
        block_no_of k (plain_bs - 1) (k * plain_bs + plain_bs - 1) plain_bs
          (omega (arith, valid.has_room)) (omega (arith, valid.has_room)) in
      let below : k * plain_bs ≤ last * plain_bs = mul-le-mul_right plain_bs inside in
      let below_disk : k * cipher_bs ≤ last * cipher_bs = mul-le-mul_right cipher_bs inside in
      do_read_lem env g calm id body (opened id disk t) plain
        (t, file_id_for_read-opened env id disk t) behind h (k * plain_bs) plain_bs valid.has_room
        (block_fits env.content_enc.crypto_core plain_bs g.made).1 (omega (arith, fits, below))
        (rw same (omega (arith, fits_disk, below_disk)))

  module _ (k off : ℕ) (new : Bytes) (inside : k ≤ last)
      (o : Overlay plain_bs k plain result off new) (ib : IntraBlock)
      (r : StartsRange 0 plain_bs off (length new) ib) where
    abbrev piece : Bytes
    piece = take ib.length new

    same_no : ib.block_no ≡ k
    same_no =
        sym (
          block_no_of ib.block_no ib.skip off plain_bs (omega (arith, r.starts))
            (omega (arith, r.inside, r.advances)))
        ∙ block_no_of k (off - k * plain_bs) off plain_bs (omega (arith, o.starts))
            (omega (arith, o.starts))

    merged_lem :
        merge_blocks env.content_enc (block plain_bs k plain) piece ib.skip
        ≡ ok (block plain_bs k result)
    merged_lem =
        let (out, e, sized, bytes) =
          merge_blocks_lem env.content_enc (block plain_bs k plain) piece ib.skip
            (omega (arith, r.inside, length-take ib.length new, length-block plain_bs k plain)) in
        e ∙ ap ok (merged-block plain_bs k plain result off new o ib r out same_no sized bytes)

    whole_block :
        is_partial env.content_enc.geometry ib ≡ false → (ib.skip ≡ 0) × (plain_bs ≤ ib.length)
    unfolding is_partial
    whole_block whole = ground (arith, whole)

    whole_lem : is_partial env.content_enc.geometry ib ≡ false → piece ≡ block plain_bs k result
    whole_lem whole =
        let (no_skip, full) = whole_block whole in
        let sized = length-take ib.length new in
        merged-block plain_bs k plain result off new o ib r piece same_no
          (omega (arith, no_skip, full, sized, r.within, r.inside, length-block plain_bs k plain))
          (λ i below.
            ground (arith, no_skip, full, sized, r.within, r.inside, length-block plain_bs k plain))

    plain_off : block_plain_off env.content_enc.geometry ib ≡ k * plain_bs
    unfolding block_plain_off block_no_to_plain_off
    plain_off =
        let below : k * plain_bs ≤ last * plain_bs = mul-le-mul_right plain_bs inside in
        ap (λ n. n * plain_bs % u64) same_no ∙ omega (arith, fits, below)

    block_data_lem :
        (t : ℕ)
        → (u : ℕ) × (block_data env ib piece (opened id disk t)
            ≡ (ok (block plain_bs k result), opened id disk u))
    unfolding block_data
    block_data_lem t = elim (Bool-cases (is_partial env.content_enc.geometry ib)) [
      | inl partial ↦
          let (u, read) = read_block k t inside in
          (u, rw (partial, plain_off, read, merged_lem) refl)
      | inr whole ↦ (t, rw whole (ap (λ l. (ok l, opened id disk t)) (whole_lem whole)))
    ]

  -- The blocks to encrypt are those of the plaintext that results, and nothing is changed on disk.
  pub to_encrypt_lem :
      (blocks : List IntraBlock) (k off : ℕ) (new : Bytes) (t : ℕ)
      → Tiles 0 plain_bs off (length new) blocks
      → (0 < length new → Overlay plain_bs k plain result off new)
      → (0 < length new → off + length new ≤ last * plain_bs + plain_bs)
      → (u : ℕ) × (to_encrypt env blocks new (opened id disk t)
          ≡ (ok (chunks plain_bs result k (length blocks)), opened id disk u))
  unfolding to_encrypt
  to_encrypt_lem [] k off new t tiles o end = (t, refl)
  to_encrypt_lem (ib ∷ rest) k off new t (first, tiles) o end =
      let some_new : 0 < length new = omega (arith, first.advances, first.within) in
      let inside : k < last + 1 =
        lt-of_mul k (last + 1) plain_bs (omega (arith, (o some_new).starts, end some_new)) in
      let here = same_no k off new (omega (arith, inside)) (o some_new) ib first in
      let (u, block_read) =
        block_data_lem k off new (omega (arith, inside)) (o some_new) ib first t in
      let left = length-drop ib.length new in
      let (w, others) =
        to_encrypt_lem rest (suc k) (off + ib.length) (drop ib.length new) u
          (subst (λ n. Tiles 0 plain_bs (off + ib.length) n rest) (sym left) tiles)
          (λ more. next-Overlay plain_bs k plain result off new (o some_new) ib first more here)
          (λ more. omega (arith, left, end some_new, first.within)) in
      (w, rw (block_read, others) refl)
