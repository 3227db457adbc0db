-- ===== src/ContentEnc/Blocks/Chunks.antt =====
-- The blocks of a plaintext, as `EncryptBlocks` takes them.
use shiroikuma_gcfs.Prelude.{
  ℕ, zero, suc, ◌+◌, ◌*◌, ◌<◌, ◌≡◌, refl, sym, ap, ◌∙◌, List, [], ◌∷◌, ◌++◌, arith, length, take,
  drop, Bytes,
}
use shiroikuma_gcfs.Prelude.Ranges.{block, length-block}
use shiroikuma_gcfs.ContentEnc.Blocks.{concat}
use shiroikuma_gcfs.ContentEnc.Blocks.Holds.{take-suc, no_blocks}
use shiroikuma_gcfs.ContentEnc.Blocks.Sequence.{IsChunked}

-- The blocks `first` and up, `n` of them.
abbrev pub chunks : ℕ → Bytes → ℕ → ℕ → List Bytes
chunks bs xs first zero = []
chunks bs xs first (suc n) = block bs first xs ∷ chunks bs xs (suc first) n

pub concat-chunks :
    (bs : ℕ) (xs : Bytes) (first n : ℕ)
    → concat (chunks bs xs first n) ≡ take (n * bs) (drop (first * bs) xs)
concat-chunks bs xs first zero = sym (no_blocks bs (drop (first * bs) xs))
concat-chunks bs xs first (suc n) =
    ap (λ l. block bs first xs ++ l) (concat-chunks bs xs (suc first) n) ∙ take-suc n bs first xs

pub length-chunks : (bs : ℕ) (xs : Bytes) (first n : ℕ) → length (chunks bs xs first n) ≡ n
length-chunks bs xs first zero = refl
length-chunks bs xs first (suc n) = ap suc (length-chunks bs xs (suc first) n)

-- They are full but for the last one, which holds something where the plaintext reaches it.
pub chunks-IsChunked :
    (bs : ℕ) (xs : Bytes) (first n : ℕ)
    → 0 < bs
    → first * bs + n * bs < length xs + bs
    → IsChunked bs (chunks bs xs first n)
chunks-IsChunked bs xs first zero pos h = tt
chunks-IsChunked bs xs first (suc zero) pos h = omega (arith, length-block bs first xs)
chunks-IsChunked bs xs first (suc (suc n)) pos h = (
  omega (arith, length-block bs first xs, h),
  chunks-IsChunked bs xs (suc first) (suc n) pos (omega (arith, h)),
)
