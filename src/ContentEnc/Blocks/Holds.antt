-- ===== src/ContentEnc/Blocks/Holds.antt =====
-- Encrypted blocks that stand for a plaintext, and reading a range of them.
use shiroikuma_gcfs.Prelude.{
  ℕ, zero, suc, ◌+◌, ◌*◌, ◌≤◌, ◌<◌, ◌≡◌, ap, ◌∙◌, inl, inr, Option, none, some, [], ◌++◌, ok, arith,
  length, take, drop, length-take, length-drop, drop-drop, take-take, drop-take, drop_all, take_all,
  take-append-drop, Bytes, ltb, Bool-cases, ltb→lt,
}
use shiroikuma_gcfs.Prelude.Ranges.{block}
use shiroikuma_gcfs.ContentEnc.Offsets.{add64, u64}
use shiroikuma_gcfs.ContentEnc.Blocks.{
  ContentEnc, IsContentEnc, decrypt_block, decrypted, decrypt_loop, decrypt_blocks,
}

-- `body` holds `plain` in encrypted blocks, of which the first has the number `first`: each block of the
-- plaintext is what the block of the body at its place decrypts to, under the file ID `id`, and the body
-- goes as far as the plaintext.
pub record Holds (be : ContentEnc) (id : Bytes) (first : ℕ) (body plain : Bytes) : Type 0 where
  pub sized :
      (i : ℕ)
      → i * be.plain_bs < length plain
      → length (block be.cipher_bs i body)
        ≡ length (block be.plain_bs i plain) + (be.crypto_core.iv_len + 16)
  pub ends : (i : ℕ) → length plain ≤ i * be.plain_bs → length body ≤ i * be.cipher_bs
  pub opens :
      (i : ℕ)
      → i * be.plain_bs < length plain
      → decrypt_block be (block be.cipher_bs i body) (first + i) (some id)
        ≡ ok (block be.plain_bs i plain)

take-block :
    (m size i : ℕ) (xs : Bytes)
    → take size (take (suc m * size) (drop (i * size) xs)) ≡ block size i xs
take-block m size i xs = take-take size (suc m * size) (drop (i * size) xs) (omega arith)

drop-block :
    (m size i : ℕ) (xs : Bytes)
    → drop size (take (suc m * size) (drop (i * size) xs))
      ≡ take (m * size) (drop (suc i * size) xs)
drop-block m size i xs =
    drop-take size (m * size) (suc m * size) (drop (i * size) xs) (omega arith)
    ∙ ap (take (m * size)) (
        drop-drop (i * size) size xs
        ∙ ap (λ k. drop k xs) (let e : i * size + size ≡ suc i * size = omega arith in e))

pub take-suc :
    (m size i : ℕ) (xs : Bytes)
    → block size i xs ++ take (m * size) (drop (suc i * size) xs)
      ≡ take (suc m * size) (drop (i * size) xs)
take-suc m size i xs =
    rw (← take-block m size i xs, ← drop-block m size i xs)
      (take-append-drop size (take (suc m * size) (drop (i * size) xs)))

decrypt_loop_step :
    (be : ContentEnc) (fuel : ℕ) (body c rest : Bytes) (n : ℕ) (id : Option Bytes) {p q : Bytes}
    → 0 < length body
    → take be.cipher_bs body ≡ c
    → drop be.cipher_bs body ≡ rest
    → decrypt_block be c n id ≡ ok p
    → decrypt_loop be fuel rest (add64 n 1) id ≡ ok (q, none)
    → decrypt_loop be (suc fuel) body n id ≡ ok (p ++ q, none)
unfolding decrypt_loop decrypted
decrypt_loop_step be fuel body c rest n id some_left head behind e more =
    simp (head, behind, e, more) (ground arith)

decrypt_loop-empty :
    (be : ContentEnc) (fuel n : ℕ) (id : Option Bytes) (body : Bytes)
    → length body ≡ 0
    → decrypt_loop be (suc fuel) body n id ≡ ok ([], none)
unfolding decrypt_loop
decrypt_loop-empty be fuel n id body e = ground arith

pub decrypt_blocks-empty :
    (be : ContentEnc) (n : ℕ) (id : Option Bytes) (body : Bytes)
    → length body ≡ 0
    → decrypt_blocks be body n id ≡ ok ([], none)
unfolding decrypt_blocks
decrypt_blocks-empty be n id body e = decrypt_loop-empty be (length body) n id body e

nil_of : (n i : ℕ) (xs : Bytes) → length xs ≤ i → take n (drop i xs) ≡ []
nil_of n i xs h = rw (drop_all i xs h) (take_all n [] (omega arith))

pub no_blocks : (size : ℕ) (xs : Bytes) → take (0 * size) xs ≡ []
no_blocks size xs = ap (λ n. take n xs) (let e : 0 * size ≡ 0 = omega arith in e)

module _ (be : ContentEnc) (v : IsContentEnc be) (id body plain : Bytes)
    (h : Holds be id 0 body plain) where
  open be use {plain_bs, cipher_bs}

  abbrev ciphertext : ℕ → ℕ → Bytes
  ciphertext m i = take (m * cipher_bs) (drop (i * cipher_bs) body)

  abbrev plaintext : ℕ → ℕ → Bytes
  plaintext m i = take (m * plain_bs) (drop (i * plain_bs) plain)

  -- Behind the end there is nothing to read.
  pub nothing_left :
      (m i : ℕ) → length plain ≤ i * plain_bs → (ciphertext m i ≡ []) × (plaintext m i ≡ [])
  nothing_left m i short = (
    nil_of (m * cipher_bs) (i * cipher_bs) body (h.ends i short),
    nil_of (m * plain_bs) (i * plain_bs) plain short,
  )

  decrypt_loop-nil :
      (fuel i : ℕ) (c p : Bytes)
      → c ≡ []
      → p ≡ []
      → decrypt_loop be (suc fuel) c i (some id) ≡ ok (p, none)
  decrypt_loop-nil fuel i c p e e' = rw e' (decrypt_loop-empty be fuel i (some id) c (ap length e))

  decrypt_loop-Holds :
      (m i fuel : ℕ)
      → length (ciphertext m i) < fuel
      → i + m < u64
      → decrypt_loop be fuel (ciphertext m i) i (some id) ≡ ok (plaintext m i, none)
  decrypt_loop-Holds m i zero enough word = absurd (omega arith)
  decrypt_loop-Holds zero i (suc fuel) enough word =
      decrypt_loop-nil fuel i (ciphertext 0 i) (plaintext 0 i)
        (no_blocks cipher_bs (drop (i * cipher_bs) body))
        (no_blocks plain_bs (drop (i * plain_bs) plain))
  decrypt_loop-Holds (suc m) i (suc fuel) enough word =
      elim (Bool-cases (ltb (i * plain_bs) (length plain))) [
        | inl some_left ↦
            let left : i * plain_bs < length plain =
              ltb→lt (i * plain_bs) (length plain) some_left in
            let zero_off : i ≡ 0 + i = omega arith in
            let first : add64 i 1 ≡ suc i = omega arith in
            let size = h.sized i left in
            let head = take-block m cipher_bs i body in
            let behind = drop-block m cipher_bs i body in
            let longer : 0 < length (ciphertext (suc m) i) =
              omega (arith, size, ap length head, length-take cipher_bs (ciphertext (suc m) i)) in
            let shorter : length (ciphertext m (suc i)) < fuel = omega (
              arith,
              longer,
              ap length behind,
              length-drop cipher_bs (ciphertext (suc m) i),
              v.cipher_size,
              v.has_room,
              enough,
            ) in
            decrypt_loop_step be fuel (ciphertext (suc m) i) (block cipher_bs i body)
              (ciphertext m (suc i)) i (some id) longer head behind
              (ap (λ n. decrypt_block be (block cipher_bs i body) n (some id)) zero_off
                ∙ h.opens i left)
              (rw first (decrypt_loop-Holds m (suc i) fuel shorter (omega arith)))
            ∙ ap (λ l. ok (l, none)) (take-suc m plain_bs i plain)
        | inr none_left ↦
            let (c, p) = nothing_left (suc m) i (ground (arith, none_left)) in
            decrypt_loop-nil fuel i (ciphertext (suc m) i) (plaintext (suc m) i) c p
      ]

  -- Decrypting the blocks from number `i` on, `m` of them at most, gives that part of the plaintext.
  pub decrypt_blocks-Holds :
      (m i : ℕ)
      → i + m < u64
      → decrypt_blocks be (ciphertext m i) i (some id) ≡ ok (plaintext m i, none)
  unfolding decrypt_blocks
  decrypt_blocks-Holds m i word =
      decrypt_loop-Holds m i (suc (length (ciphertext m i))) (omega arith) word
