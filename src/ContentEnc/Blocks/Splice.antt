-- ===== src/ContentEnc/Blocks/Splice.antt =====
-- Writing encrypted blocks into a body: what plaintext the body holds then.
use mathlib.Core.Path.{subst}
use native.Mathlib.Nat.{mul-le-mul_right}
use shiroikuma_gcfs.Prelude.{
  ℕ, ◌+◌, ◌-◌, ◌*◌, ◌≤◌, ◌<◌, ◌≡◌, ◌≢◌, refl, sym, ap, ◌∙◌, ◌⊎◌, inl, inr, Option, some, ok, arith,
  length, replicate, Bytes, bytes_equal, bytes_equal_iff, true, Bool-cases, ltb, leb, ltb→lt,
  length-replicate,
}
use shiroikuma_gcfs.Prelude.Ranges.{
  block, length-block, step-le, lt-of_mul, le-of_mul, write_bytes, length-write_bytes, block_before,
  block_after, block_inside, block_hole,
}
use shiroikuma_gcfs.ContentEnc.Blocks.{ContentEnc, IsContentEnc, decrypt_block}
use shiroikuma_gcfs.ContentEnc.Blocks.Holds.{Holds}

-- A block of zeros, such as a hole in a file, stands for zeros.
pub decrypt_block-hole :
    (be : ContentEnc)
    → IsContentEnc be
    → (n : ℕ) (id : Option Bytes)
    → decrypt_block be (replicate be.cipher_bs 0) n id ≡ ok (replicate be.plain_bs 0)
unfolding decrypt_block
decrypt_block-hole be v n id =
    let zeros : Bytes = replicate be.cipher_bs 0 in
    let same : bytes_equal zeros be.all_zero_block ≡ true =
      (bytes_equal_iff zeros be.all_zero_block).1 (sym v.zero_block) in
    rw same (
      ground
        (arith, length-replicate be.cipher_bs (let z : ℕ = 0 in z), v.cipher_size, v.has_nonce))

-- A block that is full of plaintext fills its place on disk.
pub full_body :
    (be : ContentEnc)
    → IsContentEnc be
    → (id : Bytes) (first : ℕ) (body plain : Bytes) → Holds be id first body plain
    → (i : ℕ) → i * be.plain_bs + be.plain_bs ≤ length plain
    → i * be.cipher_bs + be.cipher_bs ≤ length body
full_body be v id first body plain h i full =
    let size = h.sized i (omega (arith, v.has_room)) in
    omega (
      arith,
      size,
      length-block be.cipher_bs i body,
      length-block be.plain_bs i plain,
      v.cipher_size,
      v.has_room,
    )

module _ (be : ContentEnc) (v : IsContentEnc be) (id body plain new_body new : Bytes) (f : ℕ)
    (h : Holds be id 0 body plain) (k : Holds be id f new_body new) (some_new : 0 < length new)
    (starts : (f * be.plain_bs ≤ length plain) ⊎ ((e : ℕ) × (length plain ≡ e * be.plain_bs)))
    (stops : ((e : ℕ) × (length new ≡ e * be.plain_bs))
      ⊎ (length plain ≤ f * be.plain_bs + length new)) where
  open be use {plain_bs, cipher_bs}

  abbrev spliced_body : Bytes
  spliced_body = write_bytes body (f * cipher_bs) new_body

  abbrev spliced : Bytes
  spliced = write_bytes plain (f * plain_bs) new

  some_body : 0 < length new_body
  some_body =
      let size = k.sized 0 (omega (arith, some_new)) in
      omega (arith, size, length-block cipher_bs 0 new_body, v.has_nonce)

  -- A block in front of the write that holds something is full.
  full_before :
      (i : ℕ) → i < f → i * plain_bs < length plain → i * plain_bs + plain_bs ≤ length plain
  full_before i less there = from starts
    where
      from :
          (f * plain_bs ≤ length plain) ⊎ ((e : ℕ) × (length plain ≡ e * plain_bs))
          → i * plain_bs + plain_bs ≤ length plain
      from (inl long) = omega (arith, step-le i f plain_bs less)
      from (inr (e, whole)) =
          omega (arith, step-le i e plain_bs (lt-of_mul i e plain_bs (omega (arith, there, whole))))

  -- The block of the new body on disk at place `i` stands for the block of the new plaintext there.
  abbrev Right : ℕ → Type 0
  Right i =
      (length (block cipher_bs i spliced_body)
        ≡ length (block plain_bs i spliced) + (be.crypto_core.iv_len + 16))
      × (decrypt_block be (block cipher_bs i spliced_body) i (some id)
          ≡ ok (block plain_bs i spliced))

  -- It is right where both blocks are those of a body that holds a plaintext.
  found_by :
      (i j first : ℕ) (c p : Bytes)
      → Holds be id first c p
      → j * plain_bs < length p
      → first + j ≡ i
      → block cipher_bs i spliced_body ≡ block cipher_bs j c
      → block plain_bs i spliced ≡ block plain_bs j p
      → Right i
  found_by i j first c p q there number e e' =
      rw (e, e')
        (
          q.sized j there,
          ap (λ n. decrypt_block be (block cipher_bs j c) n (some id)) (sym number)
              ∙ q.opens j there,
        )

  found_before : (i : ℕ) → i < f → i * plain_bs < length plain → Right i
  found_before i less there =
      let full = full_before i less there in
      found_by i i 0 body plain h there (omega arith)
        (block_before cipher_bs f body new_body some_body i less
          (full_body be v id 0 body plain h i full))
        (block_before plain_bs f plain new some_new i less full)

  found_hole : (i : ℕ) → i < f → length plain ≤ i * plain_bs → Right i
  found_hole i less short =
      rw
        (
          block_hole cipher_bs f body new_body some_body i less (h.ends i short),
          block_hole plain_bs f plain new some_new i less short,
        )
        (
          omega (
            arith,
            v.cipher_size,
            length-replicate cipher_bs (let z : ℕ = 0 in z),
            length-replicate plain_bs (let z : ℕ = 0 in z),
          ),
          decrypt_block-hole be v i (some id),
        )

  -- A last block of the write that is not full reaches the end of the old body.
  reaches_end :
      (j : ℕ)
      → j * plain_bs < length new
      → length new < j * plain_bs + plain_bs
      → length plain ≤ f * plain_bs + length new
      → length body ≤ f * cipher_bs + length new_body
  reaches_end j there partial last =
      let size = k.sized j there in
      elim (Bool-cases (ltb ((f + j) * plain_bs) (length plain))) [
        | inl more ↦
            let old = h.sized (f + j) (ltb→lt ((f + j) * plain_bs) (length plain) more) in
            omega (
              arith,
              size,
              old,
              v.cipher_size,
              v.has_nonce,
              length-block cipher_bs j new_body,
              length-block plain_bs j new,
              length-block cipher_bs (f + j) body,
              length-block plain_bs (f + j) plain,
            )
        | inr none_left ↦
            let gone = h.ends (f + j) (ground (arith, none_left)) in
            omega (
              arith,
              size,
              gone,
              v.has_nonce,
              length-block cipher_bs j new_body,
              length-block plain_bs j new,
            )
      ]

  not_whole :
      (j e : ℕ)
      → j * plain_bs < length new
      → length new < j * plain_bs + plain_bs
      → length new ≢ e * plain_bs
  not_whole j e there partial whole =
      omega (arith, step-le j e plain_bs (lt-of_mul j e plain_bs (omega (arith, there, whole))))

  -- A block of the write is full, or is the last one of the plaintext that results.
  full_or_last :
      (j : ℕ)
      → j * plain_bs < length new
      → (j * plain_bs + plain_bs ≤ length new)
        ⊎ ((length new < j * plain_bs + plain_bs) × (length plain ≤ f * plain_bs + length new))
  full_or_last j there = elim (Bool-cases (leb (j * plain_bs + plain_bs) (length new))) [
    | inl full ↦ inl (ground (arith, full))
    | inr partial ↦ at_end (ground (arith, partial)) stops
  ]
    where
      at_end :
          length new < j * plain_bs + plain_bs
          → ((e : ℕ) × (length new ≡ e * plain_bs)) ⊎ (length plain ≤ f * plain_bs + length new)
          → (j * plain_bs + plain_bs ≤ length new)
            ⊎ ((length new < j * plain_bs + plain_bs) × (length plain ≤ f * plain_bs + length new))
      at_end partial (inl (e, whole)) = absurd (not_whole j e there partial whole)
      at_end partial (inr last) = inr (partial, last)

  found_inside : (j : ℕ) → j * plain_bs < length new → Right (f + j)
  found_inside j there =
      found_by (f + j) j f new_body new k there refl
        (block_inside cipher_bs f body new_body some_body j
          (let size = k.sized j there in
            omega (arith, size, length-block cipher_bs j new_body, v.has_nonce))
          (on_disk (full_or_last j there)))
        (block_inside plain_bs f plain new some_new j there (in_plain (full_or_last j there)))
    where
      on_disk :
          (j * plain_bs + plain_bs ≤ length new)
            ⊎ ((length new < j * plain_bs + plain_bs) × (length plain ≤ f * plain_bs + length new))
          → (j * cipher_bs + cipher_bs ≤ length new_body)
            ⊎ (length body ≤ f * cipher_bs + length new_body)
      on_disk (inl full) = inl (full_body be v id f new_body new k j full)
      on_disk (inr (partial, last)) = inr (reaches_end j there partial last)

      in_plain :
          (j * plain_bs + plain_bs ≤ length new)
            ⊎ ((length new < j * plain_bs + plain_bs) × (length plain ≤ f * plain_bs + length new))
          → (j * plain_bs + plain_bs ≤ length new) ⊎ (length plain ≤ f * plain_bs + length new)
      in_plain (inl full) = inl full
      in_plain (inr (partial, last)) = inr last

  -- A block of the old plaintext behind the write.
  found_after :
      (i : ℕ) → f * plain_bs + length new ≤ i * plain_bs → i * plain_bs < length plain → Right i
  found_after i behind there = from stops
    where
      from :
          ((e : ℕ) × (length new ≡ e * plain_bs)) ⊎ (length plain ≤ f * plain_bs + length new)
          → Right i
      from (inl (e, whole)) =
          let gone = k.ends e (omega (arith, whole)) in
          let far : f + e ≤ i =
            le-of_mul (f + e) i plain_bs v.has_room (omega (arith, whole, behind)) in
          let far_c : (f + e) * cipher_bs ≤ i * cipher_bs = mul-le-mul_right cipher_bs far in
          found_by i i 0 body plain h there (omega arith)
            (block_after cipher_bs f body new_body some_body i (omega (arith, gone, far_c)))
            (block_after plain_bs f plain new some_new i behind)
      from (inr last) = absurd (omega (arith, last, behind, there))

  correct : (i : ℕ) → i * plain_bs < length spliced → Right i
  correct i there = elim (Bool-cases (ltb i f)) [
    | inl before ↦ elim (Bool-cases (ltb (i * plain_bs) (length plain))) [
      | inl old ↦ found_before i (ltb→lt i f before) (ltb→lt (i * plain_bs) (length plain) old)
      | inr hole ↦ found_hole i (ltb→lt i f before) (ground (arith, hole))
    ]
    | inr from ↦
        let le : f ≤ i = ground (arith, from) in
        let far : f * plain_bs ≤ i * plain_bs = mul-le-mul_right plain_bs le in
        let place : f + (i - f) ≡ i = omega (arith, le) in
        let off : (f + (i - f)) * plain_bs ≡ i * plain_bs = ap (λ (n : ℕ). n * plain_bs) place in
        elim (Bool-cases (ltb (i * plain_bs) (f * plain_bs + length new))) [
          | inl inside ↦ subst Right place (
              found_inside (i - f) (
                let less = ltb→lt (i * plain_bs) (f * plain_bs + length new) inside in
                omega (arith, less, off)))
          | inr behind ↦ found_after i (ground (arith, behind)) (
              let past : f * plain_bs + length new ≤ i * plain_bs = ground (arith, behind) in
              omega (arith, there, past, length-write_bytes plain (f * plain_bs) new some_new))
        ]
  ]

  short : (i : ℕ) → length spliced ≤ i * plain_bs → length spliced_body ≤ i * cipher_bs
  short i h' =
      let wide = length-write_bytes plain (f * plain_bs) new some_new in
      let far : f ≤ i = le-of_mul f i plain_bs v.has_room (omega (arith, wide, h')) in
      let place : (f + (i - f)) * plain_bs ≡ i * plain_bs =
        ap (λ (n : ℕ). n * plain_bs) (omega (arith, far)) in
      let place_c : (f + (i - f)) * cipher_bs ≡ i * cipher_bs =
        ap (λ (n : ℕ). n * cipher_bs) (omega (arith, far)) in
      let old = h.ends i (omega (arith, wide, h')) in
      let here = k.ends (i - f) (omega (arith, wide, h', place)) in
      omega (arith, old, here, place_c, length-write_bytes body (f * cipher_bs) new_body some_body)

  found_opens :
      (i : ℕ)
      → i * plain_bs < length spliced
      → decrypt_block be (block cipher_bs i spliced_body) (0 + i) (some id)
        ≡ ok (block plain_bs i spliced)
  found_opens i there =
      ap (λ n. decrypt_block be (block cipher_bs i spliced_body) n (some id))
        (let e : 0 + i ≡ i = omega arith in e)
      ∙ (correct i there).1

  -- Writing blocks that hold `new` at block `f` gives a body that holds the plaintext with `new` written there:
  -- `new` fills its blocks or reaches the end, and no block in front of it is left partly filled.
  pub Holds-write : Holds be id 0 spliced_body spliced
  Holds-write = record { sized = λ i there. (correct i there).0; ends = short; opens = found_opens }
