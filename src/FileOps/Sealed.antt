-- ===== src/FileOps/Sealed.antt =====
-- The blocks that `doWrite` encrypts, in their place in the old body.
use mathlib.Core.Path.{subst}
use native.Mathlib.Nat.{div-add-mod', div-le_self, mod-lt}
use shiroikuma_gcfs.Prelude.{
  ℕ, ◌+◌, ◌-◌, ◌*◌, ◌/◌, ◌≤◌, ◌<◌, ◌≡◌, refl, ap, ◌⊎◌, inl, inr, ok, arith, length, take, drop, leb,
  length-take, length-drop, Bytes, min, Bool-cases, leb→le,
}
use Prim.Native.Nat.{max}
use shiroikuma_gcfs.Prelude.Ranges.{length-block, lt-of_mul, write_bytes, length-write_bytes}
use shiroikuma_gcfs.Prelude.Overwrites.{write_bytes-cover}
use shiroikuma_gcfs.ContentEnc.Offsets.{u64}
use shiroikuma_gcfs.ContentEnc.Blocks.{IsContentEnc, concat}
use shiroikuma_gcfs.ContentEnc.Blocks.Holds.{Holds}
use shiroikuma_gcfs.ContentEnc.Blocks.Splice.{Holds-write}
use shiroikuma_gcfs.ContentEnc.Blocks.Encrypted.{encrypt_blocks-Holds}
use shiroikuma_gcfs.ContentEnc.Blocks.Chunks.{
  chunks, concat-chunks, length-chunks, chunks-IsChunked,
}
use shiroikuma_gcfs.FileOps.Actions.{Env}
use shiroikuma_gcfs.FileOps.{max_int64, encrypt_drawn}
use shiroikuma_gcfs.FileOps.Backed.{IsEnv, IsCalm, opened, IsEnv-IsContentEnc}

module _ (env : Env) (g : IsEnv env) (calm : IsCalm env) (plain new : Bytes) (off : ℕ)
    (some_new : 0 < length new)
    (fits : (off + length new - 1) / env.content_enc.plain_bs * env.content_enc.plain_bs
        + env.content_enc.plain_bs
      < u64)
    (fits_disk : 18
        + (off + length new - 1) / env.content_enc.plain_bs * env.content_enc.cipher_bs
        + env.content_enc.cipher_bs
      ≤ max_int64)
    (no_gap : (off / env.content_enc.plain_bs * env.content_enc.plain_bs ≤ length plain)
      ⊎ ((e : ℕ) × (length plain ≡ e * env.content_enc.plain_bs))) where
  open env.content_enc use {plain_bs, cipher_bs}

  valid : IsContentEnc env.content_enc
  valid = IsEnv-IsContentEnc env g

  abbrev pub first_no : ℕ
  first_no = off / plain_bs

  abbrev pub last_no : ℕ
  last_no = (off + length new - 1) / plain_bs

  abbrev pub result : Bytes
  result = write_bytes plain off new

  abbrev pub whole : ℕ → Bytes
  whole n = take (n * plain_bs) (drop (first_no * plain_bs) result)

  pub low : first_no * plain_bs ≤ off
  low = omega (arith, div-add-mod' off plain_bs)

  pub high : off < first_no * plain_bs + plain_bs
  high = omega (arith, div-add-mod' off plain_bs, mod-lt off valid.has_room)

  pub last_high : off + length new ≤ last_no * plain_bs + plain_bs
  last_high = omega (
    arith,
    some_new,
    div-add-mod' (off + length new - 1) plain_bs,
    mod-lt (off + length new - 1) valid.has_room,
  )

  module _ (n : ℕ)
      (reach : (off + length new ≤ first_no * plain_bs + n * plain_bs)
        × (first_no * plain_bs + n * plain_bs < off + length new + plain_bs)) where
    long : length result ≡ max (length plain) (off + length new)
    long = length-write_bytes plain off new some_new

    length-whole : length (whole n) ≡ min (n * plain_bs) (length result - first_no * plain_bs)
    length-whole = omega (
      arith,
      length-take (n * plain_bs) (drop (first_no * plain_bs) result),
      length-drop (first_no * plain_bs) result,
    )

    some_whole : 0 < length (whole n)
    some_whole = omega (arith, length-whole, long, reach, low, some_new)

    stops :
        ((e : ℕ) × (length (whole n) ≡ e * plain_bs))
        ⊎ (length plain ≤ first_no * plain_bs + length (whole n))
    stops = elim (Bool-cases (leb (n * plain_bs) (length result - first_no * plain_bs))) [
      | inl full ↦ inl (
        n,
        omega
            (arith, length-whole, leb→le (n * plain_bs) (length result - first_no * plain_bs) full),
      )
      | inr last ↦
          let less : length result - first_no * plain_bs < n * plain_bs = ground (arith, last) in
          inr (omega (arith, length-whole, long, less, low))
    ]

    some_body :
        (id c p : Bytes) → Holds env.content_enc id first_no c p → 0 < length p → 0 < length c
    some_body id c p k some_p =
        let size = k.sized 0 (omega (arith, some_p)) in
        omega (arith, size, length-block cipher_bs 0 c, valid.has_nonce)

    -- The new blocks, in their place in the old body, hold the plaintext that results.
    spliced :
        (id body new_body : Bytes)
        → Holds env.content_enc id 0 body plain
        → Holds env.content_enc id first_no new_body (concat (chunks plain_bs result first_no n))
        → Holds env.content_enc id 0 (write_bytes body (first_no * cipher_bs) new_body) result
    spliced id body new_body h k =
        subst (Holds env.content_enc id 0 (write_bytes body (first_no * cipher_bs) new_body))
          (write_bytes-cover plain new off some_new (first_no * plain_bs) (n * plain_bs) low
            (omega (arith, reach)))
          (Holds-write env.content_enc valid id body plain new_body (whole n) first_no h
            (subst (Holds env.content_enc id first_no new_body)
              (concat-chunks plain_bs result first_no n) k)
            some_whole no_gap stops)

    few : first_no + n ≤ u64
    few =
        let less : first_no + n < last_no + 2 =
          lt-of_mul (first_no + n) (last_no + 2) plain_bs (omega (arith, reach, last_high)) in
        omega (arith, less, div-le_self (off + length new - 1) plain_bs, last_high, fits)

    pub encrypted :
        (id body disk : Bytes) (t : ℕ)
        → length id ≡ 16
        → Holds env.content_enc id 0 body plain
        → (new_body : Bytes) × (0 < length new_body)
          × (encrypt_drawn env (chunks plain_bs result first_no n) first_no id (opened id disk t)
              ≡ (ok new_body, opened id disk (t + length (chunks plain_bs result first_no n))))
          × Holds env.content_enc id 0 (write_bytes body (first_no * cipher_bs) new_body) result
          × (length new_body ≤ n * cipher_bs)
    unfolding encrypt_drawn
    encrypted id body disk t id_sized h =
        let (new_body, e, k) =
          encrypt_blocks-Holds env.content_enc valid id g.aead id_sized (λ j. env.nonces (t + j))
            (λ j. g.fresh (t + j)) first_no env.num_cpu (chunks plain_bs result first_no n)
            (chunks-IsChunked plain_bs result first_no n valid.has_room
              (omega (arith, long, reach)))
            (omega (arith, length-chunks plain_bs result first_no n, few)) in
        (
          new_body,
          some_body id new_body (concat (chunks plain_bs result first_no n)) k
              (omega (arith, some_whole, ap length (concat-chunks plain_bs result first_no n))),
          rw e refl,
          spliced id body new_body h k,
          k.ends n
              (omega (arith, length-whole, ap length (concat-chunks plain_bs result first_no n))),
        )
