-- ===== src/FileOps/Reads.antt =====
-- What `doRead` returns of a backing file.
use native.Mathlib.Nat.{div-add-mod', mod-lt, div-le_self, le-div_iff_mul-le, mul-le-mul_right}
use shiroikuma_gcfs.Prelude.{
  ℕ, ◌+◌, ◌-◌, ◌*◌, ◌/◌, ◌≤◌, ◌<◌, ◌≡◌, refl, sym, ap, ◌∙◌, inl, inr, false, some, List, [], ◌∷◌,
  ok, arith, length, take, drop, drop-drop, Bytes, ltb, not-ltb, ◌>>=◌,
}
use shiroikuma_gcfs.ContentEnc.Offsets.{u64}
use shiroikuma_gcfs.ContentEnc.IntraBlocks.{IntraBlock, explode_plain_range, joint_ciphertext_range}
use shiroikuma_gcfs.ContentEnc.IntraBlocks.Tiling.{Tiles, explode_plain_range-Tiles}
use shiroikuma_gcfs.ContentEnc.IntraBlocks.Joint.{
  joint_ciphertext_range-explode_plain_range, block_no_of, count_blocks,
}
use shiroikuma_gcfs.ContentEnc.Blocks.{IsContentEnc, max_kernel_write, decrypt_blocks}
use shiroikuma_gcfs.ContentEnc.Blocks.Setup.{joint_ciphertext_range-le-c_req_size}
use shiroikuma_gcfs.ContentEnc.Blocks.Holds.{Holds, decrypt_blocks-Holds}
use shiroikuma_gcfs.FileOps.Actions.{Env, OpenFile}
use shiroikuma_gcfs.FileOps.{max_int64, decrypt_read, do_read, file_id_for_read}
use shiroikuma_gcfs.FileOps.Backed.{
  IsEnv, IsCalm, Backs, opened, Backed-opened, IsEnv-IsContentEnc, IsEnv-IsGeometry,
}
use shiroikuma_gcfs.FileOps.FileIds.{drop-header, read_at-IsCalm, file_id_for_read-Backed}
use shiroikuma_gcfs.FileOps.Crops.{crop_lem, range_of_piece, decrypt_read_lem}

module _ (env : Env) (g : IsEnv env) (calm : IsCalm env) where
  open env.content_enc use {plain_bs, cipher_bs}

  module _ (id body : Bytes) (s : OpenFile) (plain : Bytes)
      (cached : (t : ℕ) × (file_id_for_read env s ≡ (ok id, opened id s.disk t)))
      (behind : (k : ℕ) → drop (18 + k) s.disk ≡ drop k body)
      (h : Holds env.content_enc id 0 body plain) (off want : ℕ) (some_want : 0 < want)
      (request : want ≤ max_kernel_write) (fits : off + want < u64)
      (fits_disk : 18 + (off + want - 1) / plain_bs * cipher_bs + cipher_bs ≤ max_int64) where
    abbrev first_no : ℕ
    first_no = off / plain_bs

    abbrev count : ℕ
    count = (off + want - 1) / plain_bs + 1 - first_no

    valid : IsContentEnc env.content_enc
    valid = IsEnv-IsContentEnc env g

    -- The blocks, the first of them in detail, and the range on disk, which fits the buffer.
    ranges :
        (first : IntraBlock) × (rest : List IntraBlock) × (explode_plain_range
            env.content_enc.geometry off want
          ≡ ok (first ∷ rest))
        × (joint_ciphertext_range env.content_enc.geometry (first ∷ rest)
            ≡ ok (18 + first_no * cipher_bs, count * cipher_bs))
        × (first.block_no ≡ first_no)
        × (first_no * plain_bs + first.skip ≡ off)
        × (count * cipher_bs ≤ env.content_enc.c_req_size)
    ranges =
        let joint =
          joint_ciphertext_range-explode_plain_range env.content_enc.geometry
            (IsEnv-IsGeometry env g) off want some_want fits (omega (arith, fits_disk))
            valid.fits in
        let enough =
          joint_ciphertext_range-le-c_req_size env.content_enc.crypto_core plain_bs g.made
            g.some_nonce g.small off want some_want request fits (omega (arith, fits_disk)) joint in
        let (blocks, e, tiles) =
          explode_plain_range-Tiles env.content_enc.geometry (IsEnv-IsGeometry env g) valid.fits off
            want fits in
        of_blocks blocks e tiles joint enough
      where
        of_blocks :
            (blocks : List IntraBlock)
            → explode_plain_range env.content_enc.geometry off want ≡ ok blocks
            → Tiles 0 plain_bs off want blocks
            → (explode_plain_range env.content_enc.geometry off want
                >>= joint_ciphertext_range env.content_enc.geometry)
              ≡ ok (18 + first_no * cipher_bs, count * cipher_bs)
            → count * cipher_bs ≤ env.content_enc.c_req_size
            → (first : IntraBlock) × (rest : List IntraBlock) × (explode_plain_range
                  env.content_enc.geometry off want
                ≡ ok (first ∷ rest))
              × (joint_ciphertext_range env.content_enc.geometry (first ∷ rest)
                  ≡ ok (18 + first_no * cipher_bs, count * cipher_bs))
              × (first.block_no ≡ first_no)
              × (first_no * plain_bs + first.skip ≡ off)
              × (count * cipher_bs ≤ env.content_enc.c_req_size)
        of_blocks [] e tiles joint enough = absurd (omega (arith, tiles, some_want))
        of_blocks (first ∷ rest) e (start, tiles) joint enough =
            let number =
              block_no_of first.block_no first.skip off plain_bs (omega (arith, start.starts))
                (omega (arith, start.inside, start.advances)) in
            (
              first,
              rest,
              e,
              (rw e at joint),
              sym number,
              ap (λ n. n * plain_bs + first.skip) number ∙ omega (arith, start.starts),
              enough,
            )

    first-le-last :
        (skip : ℕ) → first_no * plain_bs + skip ≡ off → first_no ≤ (off + want - 1) / plain_bs
    first-le-last skip e =
        (le-div_iff_mul-le {k = plain_bs} valid.has_room).1 (omega (arith, e, some_want))

    -- The range ends in the last of its blocks.
    inside_blocks : (skip : ℕ) → first_no * plain_bs + skip ≡ off → skip + want ≤ count * plain_bs
    inside_blocks skip e =
        let last : ℕ = (off + want - 1) / plain_bs in
        let ordered = first-le-last skip e in
        let ends = div-add-mod' (off + want - 1) plain_bs in
        let room = mod-lt (off + want - 1) valid.has_room in
        omega (arith, e, ends, room, count_blocks first_no last plain_bs ordered)

    abbrev ciphertext : Bytes
    ciphertext = take (count * cipher_bs) (drop (18 + first_no * cipher_bs) s.disk)

    decrypt_read-Backed :
        (skip : ℕ)
        → first_no * plain_bs + skip ≡ off
        → decrypt_read env.content_enc id ciphertext first_no skip want
          ≡ ok (take want (drop off plain))
    decrypt_read-Backed skip place =
        let within = inside_blocks skip place in
        let word : skip + want < u64 = omega (arith, place, fits) in
        decrypt_read_lem env.content_enc id ciphertext first_no skip want
          (take (count * plain_bs) (drop (first_no * plain_bs) plain)) word
          (ap (λ l. decrypt_blocks env.content_enc (take (count * cipher_bs) l) first_no (some id))
              (behind (first_no * cipher_bs))
            ∙ decrypt_blocks-Holds env.content_enc valid id body plain h count first_no (
                omega (
                  arith,
                  place,
                  fits,
                  div-le_self (off + want - 1) plain_bs,
                  div-le_self off plain_bs,
                )))
        ∙ ap ok (
            crop_lem skip want (take (count * plain_bs) (drop (first_no * plain_bs) plain)) word
            ∙ range_of_piece (count * plain_bs) skip want (drop (first_no * plain_bs) plain) within
            ∙ ap (take want)
                (drop-drop (first_no * plain_bs) skip plain ∙ ap (λ n. drop n plain) place))

    offset_fits :
        first_no ≤ (off + want - 1) / plain_bs → ltb max_int64 (18 + first_no * cipher_bs) ≡ false
    offset_fits h =
        let below : first_no * cipher_bs ≤ (off + want - 1) / plain_bs * cipher_bs =
          mul-le-mul_right cipher_bs h in
        not-ltb (18 + first_no * cipher_bs) max_int64 (omega (arith, fits_disk, below))

    buffer_fits :
        count * cipher_bs ≤ env.content_enc.c_req_size
        → ltb env.content_enc.c_req_size (count * cipher_bs) ≡ false
    buffer_fits enough = not-ltb (count * cipher_bs) env.content_enc.c_req_size enough

    -- A file whose ID is found, and whose disk has the blocks of `plain` behind the header.
    pub do_read_lem :
        (t : ℕ) × (do_read env off want s
          ≡ (ok (take want (drop off plain)), record { id = some id; disk = s.disk; tick = t }))
    unfolding do_read
    do_read_lem =
        let (t, found) = cached in
        let (first, rest, exploded, joint, number, place, enough) = ranges in
        (
          t + 1,
          rw
              (
                do_read,
                found,
                exploded,
                joint,
                offset_fits (first-le-last first.skip place),
                buffer_fits enough,
                read_at-IsCalm env calm (count * cipher_bs) (18 + first_no * cipher_bs)
                    (record { id = some id; disk = s.disk; tick = t }),
                number,
                decrypt_read-Backed first.skip place,
              )
              refl,
        )

  -- For a content encryption that New made over an AEAD, random nonces and file IDs of the right
  -- length that are not all zero, and no failing system call: when a file on disk stands for a
  -- plaintext of one byte or more, doRead of 1 to MAX_KERNEL_WRITE bytes, with the last block
  -- within 2^63 - 1 bytes on disk, succeeds with the bytes of the plaintext in that range, fewer at
  -- its end and none behind it; the disk is unchanged and the file still stands for the plaintext.
  pub do_read-Backs :
      (s : OpenFile) (plain : Bytes) (off want : ℕ)
      → Backs env.content_enc s plain
      → 0 < length plain
      → 0 < want
      → want ≤ max_kernel_write
      → off + want < u64
      → 18 + (off + want - 1) / plain_bs * cipher_bs + cipher_bs ≤ max_int64
      → (t : OpenFile) × (do_read env off want s ≡ (ok (take want (drop off plain)), t))
        × (t.disk ≡ s.disk)
        × Backs env.content_enc t plain
  do_read-Backs s plain off want (inl b) some_plain some_want request fits fits_disk =
      absurd (omega (arith, some_plain, ap length b.no_plain))
  do_read-Backs s plain off want (inr (id, body, b)) some_plain some_want request fits fits_disk =
      let v = IsEnv-IsContentEnc env g in
      let (t, e) =
        do_read_lem id body s plain
          (file_id_for_read-Backed env.content_enc v id body s plain b env calm)
          (drop-header env.content_enc v id body s plain b) b.holds off want some_want request fits
          fits_disk in
      (
        opened id s.disk t,
        e,
        refl,
        inr (id, body, Backed-opened env.content_enc id body s plain t b),
      )
