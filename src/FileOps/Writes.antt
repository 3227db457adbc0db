-- ===== src/FileOps/Writes.antt =====
-- What `doWrite` makes of a backing file.
use mathlib.Core.Path.{subst}
use mathlib.Core.List.{append-nil}
use native.Mathlib.Nat.{mul-le-mul_right, le-div_iff_mul-le}
use shiroikuma_gcfs.Prelude.{
  ℕ, ◌+◌, ◌-◌, ◌*◌, ◌/◌, ◌%◌, ◌^◌, ◌≤◌, ◌<◌, ◌≡◌, refl, sym, ap, ◌∙◌, ◌⊎◌, inl, inr, Bool, true,
  false, List, [], ◌∷◌, ◌++◌, ok, arith, length, drop, ltb, Bytes, not-ltb,
}
use shiroikuma_gcfs.Prelude.Ranges.{write_bytes, lt-of_mul}
use shiroikuma_gcfs.Prelude.Overwrites.{write_bytes-append}
use shiroikuma_gcfs.ContentEnc.Offsets.{u64, block_no_to_cipher_off}
use shiroikuma_gcfs.ContentEnc.IntraBlocks.{IntraBlock, explode_plain_range, block_cipher_off}
use shiroikuma_gcfs.ContentEnc.IntraBlocks.Tiling.{StartsRange, Tiles, explode_plain_range-Tiles}
use shiroikuma_gcfs.ContentEnc.IntraBlocks.Joint.{
  blocks_reach, block_no_of, joint_ciphertext_range-explode_plain_range,
}
use shiroikuma_gcfs.ContentEnc.Blocks.{IsContentEnc, max_kernel_write}
use shiroikuma_gcfs.ContentEnc.Blocks.Setup.{joint_ciphertext_range-le-c_req_size}
use shiroikuma_gcfs.ContentEnc.Blocks.Holds.{Holds}
use shiroikuma_gcfs.ContentEnc.Blocks.Encrypted.{Holds-nil}
use shiroikuma_gcfs.ContentEnc.Blocks.Chunks.{chunks}
use shiroikuma_gcfs.FileOps.Actions.{Env, OpenFile, enospc_prealloc, write_at}
use shiroikuma_gcfs.FileOps.{
  max_int64, do_write, put_request, file_id_for_write, to_encrypt, encrypt_drawn, preallocated,
}
use shiroikuma_gcfs.FileOps.Backed.{
  IsEnv, IsCalm, Backs, Backed, opened, header, IsEnv-IsContentEnc, IsEnv-IsGeometry,
}
use shiroikuma_gcfs.FileOps.FileIds.{
  drop-header, write_at-IsCalm, enospc_prealloc-IsCalm, file_id_for_write-Blank,
  file_id_for_write-Backed,
}
use shiroikuma_gcfs.FileOps.Overlay.{write_bytes-Overlay}
use shiroikuma_gcfs.FileOps.Merges.{to_encrypt_lem}
use shiroikuma_gcfs.FileOps.Sealed.{low, high, last_high, encrypted}

-- A write in which each step succeeds.
do_write-steps :
    (env : Env) (s : OpenFile) (new : Bytes) (off : ℕ) (first : IntraBlock) (rest : List IntraBlock)
    {id ciphertext : Bytes} {was_empty : Bool} {s1 s2 s3 s4 s5 : OpenFile} {blocks : List Bytes}
    {c_off : ℕ}
    → file_id_for_write env s ≡ (ok (id, was_empty), s1)
    → explode_plain_range env.content_enc.geometry off (length new) ≡ ok (first ∷ rest)
    → to_encrypt env (first ∷ rest) new s1 ≡ (ok blocks, s2)
    → encrypt_drawn env blocks first.block_no id s2 ≡ (ok ciphertext, s3)
    → block_cipher_off env.content_enc.geometry first ≡ c_off
    → ltb max_int64 c_off ≡ false
    → enospc_prealloc env s3 ≡ (ok tt, s4)
    → write_at env ciphertext c_off s4 ≡ (ok tt, s5)
    → length ciphertext ≤ env.content_enc.c_req_size
    → do_write env new off s ≡ (ok (length new % 2 ^ 32), s5)
unfolding do_write preallocated put_request
do_write-steps env s new off first rest {ciphertext = ciphertext} found exploded collected encrypted
      place fits allocated written in_request =
    rw
      (
        do_write,
        found,
        exploded,
        collected,
        encrypted,
        place,
        fits,
        allocated,
        written,
        not-ltb (length ciphertext) env.content_enc.c_req_size in_request,
      )
      refl

module _ (env : Env) (g : IsEnv env) (calm : IsCalm env) (plain new : Bytes) (off : ℕ)
    (some_new : 0 < length new) (request : length new ≤ max_kernel_write)
    (fits : (off + length new - 1) / env.content_enc.plain_bs * env.content_enc.plain_bs
        + env.content_enc.plain_bs
      < u64)
    (fits_disk : 18
        + (off + length new - 1) / env.content_enc.plain_bs * env.content_enc.cipher_bs
        + env.content_enc.cipher_bs
      ≤ max_int64)
    (no_gap : (off / env.content_enc.plain_bs * env.content_enc.plain_bs ≤ length plain)
      ⊎ ((e : ℕ) × (length plain ≡ e * env.content_enc.plain_bs))) where
  open env.content_enc use {plain_bs, cipher_bs}

  valid : IsContentEnc env.content_enc
  valid = IsEnv-IsContentEnc env g

  abbrev first_no : ℕ
  first_no = off / plain_bs

  abbrev last_no : ℕ
  last_no = (off + length new - 1) / plain_bs

  abbrev result : Bytes
  result = write_bytes plain off new

  first-le-last : first_no ≤ last_no
  first-le-last =
      (le-div_iff_mul-le {k = plain_bs} valid.has_room).1
        (omega (arith, (low env g calm plain new off some_new fits fits_disk no_gap), some_new))

  offset_fits : ltb max_int64 (18 + first_no * cipher_bs) ≡ false
  offset_fits =
      let below : first_no * cipher_bs ≤ last_no * cipher_bs =
        mul-le-mul_right cipher_bs first-le-last in
      not-ltb (18 + first_no * cipher_bs) max_int64 (omega (arith, fits_disk, below))

  -- The blocks of the write fit the slice of the pool.
  in_pool :
      (n : ℕ) (body : Bytes)
      → first_no * plain_bs + n * plain_bs < off + length new + plain_bs
      → length body ≤ n * cipher_bs
      → length body ≤ env.content_enc.c_req_size
  in_pool n body reach short =
      let last = off + length new - 1 in
      let ends = (last_high env g calm plain new off some_new fits fits_disk no_gap) in
      let below : off + length new < u64 = omega (arith, ends, fits) in
      let enough =
        joint_ciphertext_range-le-c_req_size env.content_enc.crypto_core plain_bs g.made
          g.some_nonce g.small off (length new) some_new request below (omega (arith, fits_disk))
          (joint_ciphertext_range-explode_plain_range env.content_enc.geometry
            (IsEnv-IsGeometry env g) off (length new) some_new below (omega (arith, fits_disk))
            valid.fits) in
      let few : first_no + n < last_no + 2 =
        lt-of_mul (first_no + n) (last_no + 2) plain_bs (omega (arith, reach, ends)) in
      let whole : n * cipher_bs ≤ (last_no + 1 - first_no) * cipher_bs =
        mul-le-mul_right cipher_bs (omega (arith, few)) in
      omega (arith, short, whole, enough)

  module _ (first : IntraBlock) (r : StartsRange 0 plain_bs off (length new) first) where
    same_no : first.block_no ≡ first_no
    same_no = sym (
        block_no_of first.block_no first.skip off plain_bs (omega (arith, r.starts))
          (omega (arith, r.inside, r.advances)))

    cipher_off : block_cipher_off env.content_enc.geometry first ≡ 18 + first_no * cipher_bs
    unfolding block_cipher_off block_no_to_cipher_off
    cipher_off =
        let below : first_no * cipher_bs ≤ last_no * cipher_bs =
          mul-le-mul_right cipher_bs first-le-last in
        ap (λ k. (18 + k * cipher_bs % u64) % u64) same_no ∙ omega (arith, fits_disk, below)

  -- The write, once the file has an ID, and the disk has the blocks of `plain` behind the header.
  do_write_blocks :
      (id body disk : Bytes) (s : OpenFile) (t : ℕ) (was_empty : Bool) (blocks : List IntraBlock)
      → explode_plain_range env.content_enc.geometry off (length new) ≡ ok blocks
      → Tiles 0 plain_bs off (length new) blocks
      → file_id_for_write env s ≡ (ok (id, was_empty), opened id disk t)
      → length id ≡ 16
      → ((k : ℕ) → drop (18 + k) disk ≡ drop k body)
      → Holds env.content_enc id 0 body plain
      → (u : ℕ) × (new_body : Bytes) × (0 < length new_body)
        × (do_write env new off s ≡ (
          ok (length new % 2 ^ 32),
          opened id (write_bytes disk (18 + first_no * cipher_bs) new_body) u,
        ))
        × Holds env.content_enc id 0 (write_bytes body (first_no * cipher_bs) new_body) result
  do_write_blocks id body disk s t was_empty [] exploded tiles found id_sized behind h =
      absurd (omega (arith, tiles, some_new))
  do_write_blocks id body disk s t was_empty (first ∷ rest) exploded (r, tiles) found id_sized
        behind h =
      let n = length (first ∷ rest) in
      let reach =
        blocks_reach plain_bs first_no off (length new) (first ∷ rest) (r, tiles) some_new
          (low env g calm plain new off some_new fits fits_disk no_gap)
          (high env g calm plain new off some_new fits fits_disk no_gap) in
      let (u, collected) =
        to_encrypt_lem env g calm id body disk plain result behind h last_no fits fits_disk
          (first ∷ rest) first_no off new t (r, tiles)
          (λ more.
            write_bytes-Overlay plain_bs first_no plain off new some_new
              (low env g calm plain new off some_new fits fits_disk no_gap)
              (high env g calm plain new off some_new fits fits_disk no_gap))
          (λ more. (last_high env g calm plain new off some_new fits fits_disk no_gap)) in
      let (new_body, some_new_body, sealed_blocks, holds, sized) =
        encrypted env g calm plain new off some_new fits fits_disk no_gap n reach id body disk u
          id_sized h in
      let w = u + length (chunks plain_bs result first_no n) in
      (
        w + 1 + 1,
        new_body,
        some_new_body,
        do_write-steps env s new off first rest found exploded collected
            (ap (λ k. encrypt_drawn env (chunks plain_bs result first_no n) k id (opened id disk u))
                (same_no first r)
              ∙ sealed_blocks)
            (cipher_off first r) offset_fits (enospc_prealloc-IsCalm env calm (opened id disk w))
            (write_at-IsCalm env calm new_body (18 + first_no * cipher_bs) (opened id disk (w + 1)))
            (in_pool n new_body reach.1 sized),
        holds,
      )

  pub do_write_lem :
      (id body disk : Bytes) (s : OpenFile) (t : ℕ) (was_empty : Bool)
      → file_id_for_write env s ≡ (ok (id, was_empty), opened id disk t)
      → length id ≡ 16
      → ((k : ℕ) → drop (18 + k) disk ≡ drop k body)
      → Holds env.content_enc id 0 body plain
      → (u : ℕ) × (new_body : Bytes) × (0 < length new_body)
        × (do_write env new off s ≡ (
          ok (length new % 2 ^ 32),
          opened id (write_bytes disk (18 + first_no * cipher_bs) new_body) u,
        ))
        × Holds env.content_enc id 0 (write_bytes body (first_no * cipher_bs) new_body) result
  do_write_lem id body disk s t was_empty found id_sized behind h =
      let (blocks, exploded, tiles) =
        explode_plain_range-Tiles env.content_enc.geometry (IsEnv-IsGeometry env g) valid.fits off
          (length new)
          (omega
            (arith, (last_high env g calm plain new off some_new fits fits_disk no_gap), fits)) in
      do_write_blocks id body disk s t was_empty blocks exploded tiles found id_sized behind h

  do_write-opened :
      (id body : Bytes) (s : OpenFile) (t : ℕ) (was_empty : Bool)
      → file_id_for_write env s ≡ (ok (id, was_empty), opened id (header id ++ body) t)
      → Backed env.content_enc id body (opened id (header id ++ body) 0) plain
      → (u : OpenFile) × (do_write env new off s ≡ (ok (length new % 2 ^ 32), u))
        × Backs env.content_enc u result
  do_write-opened id body s t was_empty found b =
      let disk = header id ++ body in
      let (u, new_body, some_new_body, e, h) =
        do_write_lem id body disk s t was_empty found b.id_sized
          (drop-header env.content_enc valid id body (opened id disk 0) plain b) b.holds in
      (
        opened id (header id ++ write_bytes body (first_no * cipher_bs) new_body) u,
        e
            ∙ ap (λ l. (ok (length new % 2 ^ 32), opened id l u))
                (ap (λ k. write_bytes disk (k + first_no * cipher_bs) new_body)
                    (omega (arith, b.id_sized))
                  ∙ write_bytes-append body new_body (first_no * cipher_bs) some_new_body
                      (header id)),
        inr (
          id,
          write_bytes body (first_no * cipher_bs) new_body,
          record {
            on_disk = refl;
            found = inl refl;
            id_sized = b.id_sized;
            id_random = b.id_random;
            holds = h;
          },
        ),
      )

  -- For a content encryption that New made over an AEAD, random nonces and file IDs of the right
  -- length that are not all zero, and no failing system call: when a file on disk, empty or not,
  -- with or without a cached file ID, stands for a plaintext, doWrite of 1 to MAX_KERNEL_WRITE
  -- bytes at an offset, with the last block within 2^63 - 1 bytes on disk and 2^64 bytes of
  -- plaintext, returns the number of bytes modulo 2^32 and leaves a file that stands for the
  -- plaintext with the bytes written there, zeros filling a gap. The plaintext reaches the block of
  -- the offset, or ends in a full block.
  pub do_write-Backs :
      (s : OpenFile)
      → Backs env.content_enc s plain
      → (t : OpenFile) × (do_write env new off s ≡ (ok (length new % 2 ^ 32), t))
        × Backs env.content_enc t result
  do_write-Backs s (inl b) =
      let (id, t, sized, random, found) = file_id_for_write-Blank env g calm s plain b in
      do_write-opened id [] s t true
        (found ∙ ap (λ l. (ok (id, true), opened id l t)) (sym (append-nil (header id))))
        (record {
          on_disk = refl;
          found = inl refl;
          id_sized = sized;
          id_random = random;
          holds =
              subst (Holds env.content_enc id 0 []) (sym b.no_plain)
                (Holds-nil env.content_enc valid id 0);
        })
  do_write-Backs s (inr (id, body, b)) =
      let (t, found) = file_id_for_write-Backed env.content_enc valid id body s plain b env calm in
      do_write-opened id body s t false
        (found ∙ ap (λ l. (ok (id, false), opened id l t)) b.on_disk)
        (record {
          on_disk = refl;
          found = inl refl;
          id_sized = b.id_sized;
          id_random = b.id_random;
          holds = b.holds;
        })
