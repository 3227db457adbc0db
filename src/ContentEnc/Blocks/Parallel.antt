-- ===== src/ContentEnc/Blocks/Parallel.antt =====
-- `EncryptBlocks`: the goroutines of `encryptBlocksParallel`, and one thread.
use mathlib.Core.List.{append-nil}
use native.Mathlib.Nat.{add_assoc, add-zero, mul-div-le}
use shiroikuma_gcfs.Prelude.{
  ℕ, zero, suc, ◌+◌, ◌-◌, ◌*◌, ◌/◌, ◌≤◌, ◌<◌, ◌≡◌, refl, sym, ◌∙◌, Option, none, List, [], ◌∷◌,
  ◌++◌, Outcome, ok, err, panic, stuck, ◌>>=◌, arith, length, take, drop, Bytes, take_all,
  drop-split, length-drop-take, true, false, if◌then◌else◌, Bool-cases, inl, inr, ◌==◌, ltb, leb,
  ◌&&◌,
}
use shiroikuma_gcfs.ContentEnc.Offsets.{add64, u64}
use shiroikuma_gcfs.ContentEnc.Blocks.{
  ContentEnc, encrypt_from, encrypt_groups, do_encrypt_blocks, encrypt_blocks_parallel,
  encrypt_blocks, decrypt_blocks, concat, encrypt_max_split, IsContentEnc,
}
use shiroikuma_gcfs.CryptoCore.{IsAead}
use shiroikuma_gcfs.ContentEnc.Blocks.RoundTrip.{IsFileId, IsNonce}
use shiroikuma_gcfs.ContentEnc.Blocks.Sequence.{IsChunked, decrypt_blocks-do_encrypt_blocks}

>>=_assoc :
    {A B C : Type 0} (m : Outcome A) (f : A → Outcome B) (g : B → Outcome C)
    → ((m >>= f) >>= g) ≡ (m >>= λ x. f x >>= g)
>>=_assoc (ok x) f g = refl
>>=_assoc (err e) f g = refl
>>=_assoc panic f g = refl
>>=_assoc stuck f g = refl

>>=-ok : {A : Type 0} (m : Outcome A) → (m >>= ok) ≡ m
>>=-ok (ok x) = refl
>>=-ok (err e) = refl
>>=-ok panic = refl
>>=-ok stuck = refl

module _ (be : ContentEnc) (file_id : Option Bytes) where
  -- Encrypting two parts of a list one after the other.
  encrypt_from-append :
      (nonces : ℕ → Bytes) (xs ys : List Bytes) (first i : ℕ)
      → encrypt_from be nonces (xs ++ ys) first i file_id ≡ (do
        cs ← encrypt_from be nonces xs first i file_id
        ds ← encrypt_from be nonces ys first (i + length xs) file_id
        ok (cs ++ ds))
  unfolding encrypt_from
  encrypt_from-append nonces [] ys first i = rw add-zero (sym (>>=-ok _))
  encrypt_from-append nonces (x ∷ xs) ys first i =
      let e : i + suc (length xs) ≡ i + 1 + length xs = omega arith in
      rw (e) (simp (encrypt_from-append nonces xs ys first (i + 1), >>=_assoc))

  -- A part that starts `low` blocks into the request, counted from its own start.
  encrypt_from_shift :
      (nonces : ℕ → Bytes) (xs : List Bytes) (first low i : ℕ)
      → encrypt_from be (λ j. nonces (low + j)) xs (add64 first low) i file_id
        ≡ encrypt_from be nonces xs first (low + i) file_id
  unfolding encrypt_from
  encrypt_from_shift nonces [] first low i = refl
  encrypt_from_shift nonces (x ∷ xs) first low i =
      let no : add64 (add64 first low) i ≡ add64 first (low + i) = omega arith in
      simp (no, encrypt_from_shift nonces xs first low (i + 1), add_assoc)

  module _ (nonces : ℕ → Bytes) (blocks : List Bytes) (first ncpu size : ℕ)
      (enough : ncpu * size ≤ length blocks) where
    encrypt_groups_lem :
        (rounds i : ℕ)
        → i + suc rounds ≡ ncpu
        → encrypt_groups be nonces blocks first file_id ncpu size (suc rounds) i
          ≡ encrypt_from be nonces (drop (i * size) blocks) first (i * size) file_id
    unfolding encrypt_groups do_encrypt_blocks
    encrypt_groups_lem zero i e =
        let last : (i == ncpu - 1) ≡ true = ground arith in
        simp (
          last,
          take_all (length blocks) blocks (omega arith),
          append-nil,
          >>=-ok,
          encrypt_from_shift nonces (drop (i * size) blocks) first (i * size) 0,
          add-zero,
        )
    encrypt_groups_lem (suc rounds) i e =
        simp
          (
            inner,
            encrypt_from_shift nonces group first low 0,
            add-zero,
            encrypt_groups_lem rounds (i + 1) (omega arith),
          )
          (sym joined)
      where
        low : ℕ
        low = i * size

        high : ℕ
        high = (i + 1) * size

        group : List Bytes
        group = drop low (take high blocks)

        inner : (i == ncpu - 1) ≡ false
        inner = ground arith

        fits : high ≤ length blocks
        fits = grind arith

        joined : encrypt_from be nonces (drop low blocks) first low file_id ≡ (do
          cs ← encrypt_from be nonces group first low file_id
          ds ← encrypt_from be nonces (drop high blocks) first high file_id
          ok (cs ++ ds))
        joined =
            let ends : low + length group ≡ high =
              omega (arith, length-drop-take low high blocks (omega arith) fits) in
            rw (← drop-split low high blocks (omega arith), encrypt_from-append) (rw ends)

  all_groups :
      (nonces : ℕ → Bytes) (blocks : List Bytes) (first ncpu : ℕ)
      → 0 < ncpu
      → encrypt_groups be nonces blocks first file_id ncpu (length blocks / ncpu) ncpu 0
        ≡ do_encrypt_blocks be nonces blocks first file_id
  unfolding do_encrypt_blocks
  all_groups nonces blocks first zero some_cpu = absurd (omega arith)
  all_groups nonces blocks first (suc k) some_cpu =
      let start : 0 * (length blocks / suc k) ≡ 0 = omega arith in
      encrypt_groups_lem nonces blocks first (suc k) (length blocks / suc k)
        (mul-div-le (length blocks) (suc k)) k 0 (omega arith)
      ∙ rw start

  -- For one processor or more, the goroutines of encryptBlocksParallel return what doEncryptBlocks
  -- returns in one thread, panics included.
  pub encrypt_blocks_parallel-eq-do_encrypt_blocks :
      (num_cpu : ℕ) (nonces : ℕ → Bytes) (blocks : List Bytes) (first : ℕ)
      → 0 < num_cpu
      → encrypt_blocks_parallel be num_cpu nonces blocks first file_id
        ≡ do_encrypt_blocks be nonces blocks first file_id
  unfolding encrypt_blocks_parallel
  encrypt_blocks_parallel-eq-do_encrypt_blocks num_cpu nonces blocks first some_cpu =
      let ncpu = if ltb encrypt_max_split num_cpu then encrypt_max_split else num_cpu in
      all_groups nonces blocks first ncpu (ground arith)

  -- So `EncryptBlocks` is the concatenation of what one thread encrypts, however many there are.
  pub encrypt_blocks_lem :
      (num_cpu : ℕ) (nonces : ℕ → Bytes) (blocks : List Bytes) (first : ℕ)
      → encrypt_blocks be num_cpu nonces blocks first file_id
        ≡ (do_encrypt_blocks be nonces blocks first file_id >>= λ cs. ok (concat cs))
  unfolding encrypt_blocks
  encrypt_blocks_lem num_cpu nonces blocks first =
      elim (Bool-cases (leb 32 (length blocks) && leb 2 num_cpu)) [
        | inl many ↦ rw many (
            rw (
              encrypt_blocks_parallel-eq-do_encrypt_blocks num_cpu nonces blocks first
                (ground arith)))
        | inr few ↦ rw few
      ]

module _ (be : ContentEnc) (v : IsContentEnc be) (a : IsAead be.crypto_core.aead_cipher) where
  -- For a valid ContentEnc over an AEAD, a file ID that is nil or 16 bytes long, nonces of the
  -- right length that are not all zero, and blocks that are full but for the last, DecryptBlocks of
  -- what EncryptBlocks returns is the data, with no error, for every number of processors and every
  -- first block number below 2^64.
  pub decrypt_blocks-encrypt_blocks :
      (id : Option Bytes) (nonces : ℕ → Bytes) (num_cpu first : ℕ) (blocks : List Bytes)
      → IsFileId id
      → ((i : ℕ) → IsNonce be (nonces i))
      → IsChunked be.plain_bs blocks
      → first < u64
      → (encrypt_blocks be num_cpu nonces blocks first id >>= λ c. decrypt_blocks be c first id)
        ≡ ok (concat blocks, none)
  decrypt_blocks-encrypt_blocks id nonces num_cpu first blocks named fresh chunked word =
      rw (encrypt_blocks_lem be id num_cpu nonces blocks first, >>=_assoc)
        (decrypt_blocks-do_encrypt_blocks be v a id named nonces fresh first blocks chunked word)
