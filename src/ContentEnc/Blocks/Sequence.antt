-- ===== src/ContentEnc/Blocks/Sequence.antt =====
-- A whole request: `EncryptBlocks` in one thread, and `DecryptBlocks`.
use mathlib.Core.List.{append-nil}
use shiroikuma_gcfs.Prelude.{
  ℕ, zero, suc, ◌+◌, ◌≤◌, ◌<◌, ◌≡◌, ◌≢◌, refl, ◌⊎◌, inl, inr, Option, none, List, [], ◌∷◌, ◌++◌, ok,
  ◌>>=◌, arith, length, take, drop, length-append, Bytes, take_all, drop_all, take-append_length,
  drop-append_length,
}
use shiroikuma_gcfs.CryptoCore.{IsAead}
use shiroikuma_gcfs.ContentEnc.Offsets.{add64, u64}
use shiroikuma_gcfs.ContentEnc.Blocks.{
  ContentEnc, IsContentEnc, decrypt_block, decrypted, decrypt_loop, decrypt_blocks, encrypt_block,
  encrypt_from, do_encrypt_blocks, concat,
}
use shiroikuma_gcfs.ContentEnc.Blocks.RoundTrip.{
  IsFileId, IsNonce, sealed, length-sealed, do_encrypt_block_lem, decrypt_block-sealed,
}

-- What `doWrite` makes of its data: full blocks, and a last one that may be shorter.
abbrev pub IsChunked : ℕ → List Bytes → Type 0
IsChunked bs [] = Unit {0}
IsChunked bs (b ∷ []) = (0 < length b) × (length b ≤ bs)
IsChunked bs (b ∷ c ∷ rest) = (length b ≡ bs) × IsChunked bs (c ∷ rest)

pub ne_nil : (b : Bytes) → 0 < length b → b ≢ []
ne_nil [] h = absurd (omega arith)
ne_nil (x ∷ xs) h = λ e. cc

pub first_chunk :
    (bs : ℕ) (b : Bytes) (rest : List Bytes)
    → 0 < bs
    → IsChunked bs (b ∷ rest)
    → (0 < length b) × (length b ≤ bs) × ((length b ≡ bs) ⊎ (rest ≡ [])) × IsChunked bs rest
first_chunk bs b [] pos h = (h.0, h.1, inr refl, tt)
first_chunk bs b (c ∷ rest) pos h = (omega (arith, h.0), omega (arith, h.0), inl h.0, h.1)

module _ (be : ContentEnc) (v : IsContentEnc be) (a : IsAead be.crypto_core.aead_cipher) where
  open be use {plain_bs, cipher_bs}

  -- One round on a block `c` that fills its place, or that ends the input.
  decrypt_loop_step :
      (fuel : ℕ) (c rest : Bytes) (n : ℕ) (id : Option Bytes) {p q : Bytes}
      → 0 < length c
      → length c ≤ cipher_bs
      → (length c ≡ cipher_bs) ⊎ (rest ≡ [])
      → decrypt_block be c n id ≡ ok p
      → decrypt_loop be fuel rest (add64 n 1) id ≡ ok (q, none)
      → decrypt_loop be (suc fuel) (c ++ rest) n id ≡ ok (p ++ q, none)
  unfolding decrypt_loop decrypted
  decrypt_loop_step fuel c rest n id has_data short place e more =
      simp (head place, behind place, e, more) (ground (arith, length-append c rest))
    where
      head : (length c ≡ cipher_bs) ⊎ (rest ≡ []) → take cipher_bs (c ++ rest) ≡ c
      head (inl full) = rw (← full) (take-append_length c rest)
      head (inr last) = rw (last, append-nil) (take_all cipher_bs c short)

      behind : (length c ≡ cipher_bs) ⊎ (rest ≡ []) → drop cipher_bs (c ++ rest) ≡ rest
      behind (inl full) = rw (← full) (drop-append_length c rest)
      behind (inr last) = rw (last, append-nil) (drop_all cipher_bs c short)

  module _ (id : Option Bytes) (named : IsFileId id) (nonces : ℕ → Bytes)
      (fresh : (i : ℕ) → IsNonce be (nonces i)) (first : ℕ) where
    abbrev pub sealed_from : List Bytes → ℕ → List Bytes
    sealed_from [] i = []
    sealed_from (b ∷ rest) i = sealed be b (add64 first i) id (nonces i) ∷ sealed_from rest (i + 1)

    encrypt_from_lem :
        (blocks : List Bytes) (i : ℕ)
        → IsChunked plain_bs blocks
        → encrypt_from be nonces blocks first i id ≡ ok (sealed_from blocks i)
    unfolding encrypt_from encrypt_block
    encrypt_from_lem [] i h = refl
    encrypt_from_lem (b ∷ rest) i h =
        let (has_data, _, _, more) = first_chunk plain_bs b rest v.has_room h in
        rw (
          do_encrypt_block_lem be v a b (add64 first i) id (nonces i) (ne_nil b has_data) named
              (fresh i),
          encrypt_from_lem rest (i + 1) more,
        )

    decrypt_loop_lem :
        (blocks : List Bytes) (i n fuel : ℕ)
        → IsChunked plain_bs blocks
        → add64 first i ≡ n
        → length (concat (sealed_from blocks i)) < fuel
        → decrypt_loop be fuel (concat (sealed_from blocks i)) n id ≡ ok (concat blocks, none)
    decrypt_loop_lem blocks i n zero h e enough = absurd (omega arith)
    decrypt_loop_lem [] i n (suc fuel) h e enough = unfold decrypt_loop in refl
    decrypt_loop_lem (b ∷ rest) i n (suc fuel) h e enough =
        decrypt_loop_step fuel block (concat (sealed_from rest (i + 1))) n id (omega (arith, size))
          (omega (arith, size, v.cipher_size, part.1)) (place part.2)
          (rw (← e) (
            decrypt_block-sealed be v a b (add64 first i) id (nonces i) (ne_nil b part.0) named
              (fresh i)))
          (decrypt_loop_lem rest (i + 1) (add64 n 1) fuel part.3 (omega arith)
            (omega (arith, size, length-append block (concat (sealed_from rest (i + 1))))))
      where
        block : Bytes
        block = sealed be b (add64 first i) id (nonces i)

        part :
            (0 < length b)
            × (length b ≤ plain_bs)
            × ((length b ≡ plain_bs) ⊎ (rest ≡ []))
            × IsChunked plain_bs rest
        part = first_chunk plain_bs b rest v.has_room h

        size : length block ≡ length b + (be.crypto_core.iv_len + 16)
        size =
            length-sealed be v a b (add64 first i) id (nonces i) (ne_nil b part.0) named (fresh i)

        place :
            (length b ≡ plain_bs) ⊎ (rest ≡ [])
            → (length block ≡ cipher_bs) ⊎ (concat (sealed_from rest (i + 1)) ≡ [])
        place (inl full) = inl (omega (arith, size, v.cipher_size))
        place (inr last) = inr (rw last)

    decrypt_blocks-sealed_from :
        (blocks : List Bytes)
        → IsChunked plain_bs blocks
        → first < u64
        → decrypt_blocks be (concat (sealed_from blocks 0)) first id ≡ ok (concat blocks, none)
    unfolding decrypt_blocks
    decrypt_blocks-sealed_from blocks h word =
        decrypt_loop_lem blocks 0 first (suc (length (concat (sealed_from blocks 0)))) h
          (omega arith) (omega arith)

    pub do_encrypt_blocks_lem :
        (blocks : List Bytes)
        → IsChunked plain_bs blocks
        → do_encrypt_blocks be nonces blocks first id ≡ ok (sealed_from blocks 0)
    unfolding do_encrypt_blocks
    do_encrypt_blocks_lem blocks h = encrypt_from_lem blocks 0 h

    -- What one thread encrypts, block by block, decrypts to the data of all blocks, with no error.
    pub decrypt_blocks-do_encrypt_blocks :
        (blocks : List Bytes)
        → IsChunked plain_bs blocks
        → first < u64
        → (do_encrypt_blocks be nonces blocks first id >>= λ cs.
            decrypt_blocks be (concat cs) first id)
          ≡ ok (concat blocks, none)
    decrypt_blocks-do_encrypt_blocks blocks h word =
        rw (do_encrypt_blocks_lem blocks h) (decrypt_blocks-sealed_from blocks h word)
