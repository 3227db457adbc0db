-- ===== src/ContentEnc/Blocks/Encrypted.antt =====
-- What `EncryptBlocks` makes holds the data of its blocks, whatever their number and the number of CPUs.
use mathlib.Core.Path.{subst}
use mathlib.Core.List.{append-nil}
use shiroikuma_gcfs.Prelude.{
  ℕ, zero, suc, ◌+◌, ◌*◌, ◌≤◌, ◌<◌, ◌≡◌, refl, sym, ap, ◌∙◌, ◌⊎◌, inl, inr, some, List, [], ◌∷◌,
  ◌++◌, ok, arith, length, take, drop, length-append, drop-drop, take_all, drop_all,
  take-append_length, drop-append_length, Bytes,
}
use shiroikuma_gcfs.Prelude.Ranges.{block}
use shiroikuma_gcfs.CryptoCore.{IsAead}
use shiroikuma_gcfs.ContentEnc.Offsets.{add64, u64}
use shiroikuma_gcfs.ContentEnc.Blocks.{
  ContentEnc, IsContentEnc, decrypt_block, encrypt_blocks, concat,
}
use shiroikuma_gcfs.ContentEnc.Blocks.Holds.{Holds}
use shiroikuma_gcfs.ContentEnc.Blocks.RoundTrip.{
  IsNonce, sealed, length-sealed, decrypt_block-sealed,
}
use shiroikuma_gcfs.ContentEnc.Blocks.Sequence.{
  IsChunked, first_chunk, ne_nil, sealed_from, do_encrypt_blocks_lem,
}
use shiroikuma_gcfs.ContentEnc.Blocks.Parallel.{encrypt_blocks_lem}

head_block :
    (size : ℕ) (b rest : Bytes)
    → length b ≤ size
    → (length b ≡ size) ⊎ (rest ≡ [])
    → block size 0 (b ++ rest) ≡ b
head_block size b rest h place =
    ap (λ n. take size (drop n (b ++ rest))) (let z : 0 * size ≡ 0 = omega arith in z)
    ∙ front h place
  where
    front : length b ≤ size → (length b ≡ size) ⊎ (rest ≡ []) → take size (b ++ rest) ≡ b
    front h (inl full) = rw (← full) (take-append_length b rest)
    front h (inr last) = rw (last, append-nil) (take_all size b h)

tail_block :
    (size i : ℕ) (b rest : Bytes)
    → (length b ≡ size) ⊎ (rest ≡ [])
    → length b ≤ size
    → block size (suc i) (b ++ rest) ≡ block size i rest
tail_block size i b rest (inl full) h = ap (take size) (
    sym (
      drop-drop (length b) (i * size) (b ++ rest)
      ∙ ap (λ k. drop k (b ++ rest))
          (let e : length b + i * size ≡ suc i * size = omega (arith, full) in e))
    ∙ ap (drop (i * size)) (drop-append_length b rest))
tail_block size i b rest (inr last) h = ap (take size) (
    drop_all (suc i * size) (b ++ rest) (omega (arith, length-append b rest, ap length last, h))
    ∙ sym (drop_all (i * size) rest (omega (arith, ap length last))))

module _ (be : ContentEnc) (v : IsContentEnc be) (id : Bytes) where
  open be use {plain_bs, cipher_bs}

  module _ (first : ℕ) (c p cs ps : Bytes) (has_data : 0 < length p) (small : length p ≤ plain_bs)
      (size : length c ≡ length p + (be.crypto_core.iv_len + 16))
      (place : (length p ≡ plain_bs) ⊎ ((ps ≡ []) × (cs ≡ [])))
      (e : decrypt_block be c first (some id) ≡ ok p) (h : Holds be id (suc first) cs ps) where
    small_c : length c ≤ cipher_bs
    small_c = omega (arith, size, small, v.cipher_size)

    place_p : (length p ≡ plain_bs) ⊎ (ps ≡ [])
    place_p = elim place [ inl full ↦ inl full | inr (e, e') ↦ inr e ]

    place_c : (length c ≡ cipher_bs) ⊎ (cs ≡ [])
    place_c = elim place [
      | inl full ↦ inl (omega (arith, size, full, v.cipher_size))
      | inr (e, e') ↦ inr e'
    ]

    head_c : block cipher_bs 0 (c ++ cs) ≡ c
    head_c = head_block cipher_bs c cs small_c place_c

    head_p : block plain_bs 0 (p ++ ps) ≡ p
    head_p = head_block plain_bs p ps small place_p

    tail_c : (i : ℕ) → block cipher_bs (suc i) (c ++ cs) ≡ block cipher_bs i cs
    tail_c i = tail_block cipher_bs i c cs place_c small_c

    tail_p : (i : ℕ) → block plain_bs (suc i) (p ++ ps) ≡ block plain_bs i ps
    tail_p i = tail_block plain_bs i p ps place_p small

    further : (i : ℕ) → suc i * plain_bs < length (p ++ ps) → i * plain_bs < length ps
    further i there = elim place [
      | inl full ↦ omega (arith, there, full, length-append p ps)
      | inr (e, e') ↦ absurd (omega (arith, there, small, length-append p ps, ap length e))
    ]

    sized_cons :
        (i : ℕ)
        → i * plain_bs < length (p ++ ps)
        → length (block cipher_bs i (c ++ cs))
          ≡ length (block plain_bs i (p ++ ps)) + (be.crypto_core.iv_len + 16)
    sized_cons zero there = rw (head_c, head_p) size
    sized_cons (suc i) there = rw (tail_c i, tail_p i) (h.sized i (further i there))

    ends_cons : (i : ℕ) → length (p ++ ps) ≤ i * plain_bs → length (c ++ cs) ≤ i * cipher_bs
    ends_cons zero short = absurd (omega (arith, short, has_data, length-append p ps))
    ends_cons (suc i) short = elim place [
      | inl full ↦
          let more = h.ends i (omega (arith, short, full, length-append p ps)) in
          omega (arith, more, small_c, length-append c cs)
      | inr (e, e') ↦ omega (arith, small_c, length-append c cs, ap length e')
    ]

    opens_cons :
        (i : ℕ)
        → i * plain_bs < length (p ++ ps)
        → decrypt_block be (block cipher_bs i (c ++ cs)) (first + i) (some id)
          ≡ ok (block plain_bs i (p ++ ps))
    opens_cons zero there =
        rw (head_c, head_p)
          (ap (λ n. decrypt_block be c n (some id)) (let z : first + 0 ≡ first = omega arith in z)
            ∙ e)
    opens_cons (suc i) there =
        rw (tail_c i, tail_p i)
          (ap (λ n. decrypt_block be (block cipher_bs i cs) n (some id))
              (let z : first + suc i ≡ suc first + i = omega arith in z)
            ∙ h.opens i (further i there))

    -- A block in front of a body.
    Holds-cons : Holds be id first (c ++ cs) (p ++ ps)
    Holds-cons = record { sized = sized_cons; ends = ends_cons; opens = opens_cons }

  pub Holds-nil : (first : ℕ) → Holds be id first [] []
  Holds-nil first = record {
    sized = λ i there. absurd (omega (arith, there));
    ends = λ i short. omega arith;
    opens = λ i there. absurd (omega (arith, there));
  }

  module _ (a : IsAead be.crypto_core.aead_cipher) (named : length id ≡ 16) (nonces : ℕ → Bytes)
      (fresh : (i : ℕ) → IsNonce be (nonces i)) (first : ℕ) where
    abbrev made : List Bytes → ℕ → List Bytes
    made = sealed_from be v a (some id) named nonces fresh first

    Holds-sealed_from :
        (blocks : List Bytes) (i : ℕ)
        → IsChunked plain_bs blocks
        → first + i + length blocks ≤ u64
        → Holds be id (first + i) (concat (made blocks i)) (concat blocks)
    Holds-sealed_from [] i h word = Holds-nil (first + i)
    Holds-sealed_from (b ∷ rest) i h word =
        let (has_data, small, place, more) = first_chunk plain_bs b rest v.has_room h in
        let number : add64 first i ≡ first + i = omega (arith, word) in
        let some_data = ne_nil b has_data in
        let ahead : first + (i + 1) ≡ suc (first + i) = omega arith in
        let more_word : first + (i + 1) + length rest ≤ u64 = omega (arith, word) in
        Holds-cons (first + i) (sealed be b (add64 first i) (some id) (nonces i)) b
          (concat (made rest (i + 1))) (concat rest) has_data small
          (length-sealed be v a b (add64 first i) (some id) (nonces i) some_data named (fresh i))
          (last_or place)
          (ap (λ n. decrypt_block be (sealed be b (add64 first i) (some id) (nonces i)) n (some id))
              (sym number)
            ∙ decrypt_block-sealed be v a b (add64 first i) (some id) (nonces i) some_data named
                (fresh i))
          (subst (λ n. Holds be id n (concat (made rest (i + 1))) (concat rest)) ahead
            (Holds-sealed_from rest (i + 1) more more_word))
      where
        last_or :
            (length b ≡ plain_bs) ⊎ (rest ≡ [])
            → (length b ≡ plain_bs) ⊎ ((concat rest ≡ []) × (concat (made rest (i + 1)) ≡ []))
        last_or (inl full) = inl full
        last_or (inr e) = inr (ap concat e, ap (λ l. concat (made l (i + 1))) e)

    -- The blocks that EncryptBlocks makes of full blocks, the last perhaps shorter, hold their data.
    pub encrypt_blocks-Holds :
        (num_cpu : ℕ) (blocks : List Bytes)
        → IsChunked plain_bs blocks
        → first + length blocks ≤ u64
        → (body : Bytes) × (encrypt_blocks be num_cpu nonces blocks first (some id) ≡ ok body)
          × Holds be id first body (concat blocks)
    encrypt_blocks-Holds num_cpu blocks h word =
        let start : first + 0 ≡ first = omega arith in
        (
          concat (made blocks 0),
          rw
              (
                encrypt_blocks_lem be (some id) num_cpu nonces blocks first,
                do_encrypt_blocks_lem be v a (some id) named nonces fresh first blocks h,
              )
              refl,
          subst (λ n. Holds be id n (concat (made blocks 0)) (concat blocks)) start
              (Holds-sealed_from blocks 0 h (omega (arith, word))),
        )
