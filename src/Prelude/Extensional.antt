-- ===== src/Prelude/Extensional.antt =====
-- Lists that agree at every position are equal.
use Prim.Native.Nat.{ℕ, suc, ◌<◌}
use mathlib.Core.Path.{◌≡◌, refl, ap₂}
use mathlib.Core.List.{List, [], ◌∷◌}
use native.Mathlib.Omega.{arith}
use shiroikuma_gcfs.Prelude.Lists.{length, get_or}

module _ {ℓ} {A : Type ℓ} where
  -- The default is any element: both lists are as long.
  pub extensional :
      (xs ys : List A) (d : A)
      → length xs ≡ length ys
      → ((i : ℕ) → i < length xs → get_or xs i d ≡ get_or ys i d)
      → xs ≡ ys
  extensional [] [] d size same = refl
  extensional [] (y ∷ ys) d size same = absurd (omega arith)
  extensional (x ∷ xs) [] d size same = absurd (omega arith)
  extensional (x ∷ xs) (y ∷ ys) d size same =
      ap₂ (λ a l. a ∷ l) (same 0 (omega arith))
        (extensional xs ys d (omega arith) (λ i h. same (suc i) (omega arith)))
