-- ===== src/Prelude/ByteSlices.antt =====
-- Byte slices as lists of numbers, and what the code uses of Go's `bytes`, `encoding/binary` and
-- `copy`.
use Prim.Native.Nat.{ℕ, zero, suc, ◌+◌, ◌*◌, ◌/◌, ◌%◌, ◌^◌, ◌<◌}
use mathlib.Core.Path.{◌≡◌, refl, ap}
use mathlib.Core.Logic.{◌↔◌}
use mathlib.Core.Bool.{Bool, true, false, ◌&&◌}
use mathlib.Core.List.{List, [], ◌∷◌, ◌++◌}
use native.Mathlib.Omega.{arith}
use shiroikuma_gcfs.Prelude.Tests.{◌==◌, ==_iff}
use shiroikuma_gcfs.Prelude.Lists.{length, take, drop}

abbrev pub Bytes : Type 0
Bytes = List ℕ

abbrev pub IsByte : ℕ → Type 0
IsByte b = b < 256

-- bytes.Equal
unfoldable pub bytes_equal : Bytes → Bytes → Bool
bytes_equal [] [] = true
bytes_equal [] (y ∷ ys) = false
bytes_equal (x ∷ xs) [] = false
bytes_equal (x ∷ xs) (y ∷ ys) = x == y && bytes_equal xs ys

pub bytes_equal_iff : (xs ys : Bytes) → (bytes_equal xs ys ≡ true) ↔ (xs ≡ ys)
unfolding bytes_equal
bytes_equal_iff [] [] = (λ h. refl, λ h. refl)
bytes_equal_iff [] (y ∷ ys) = (λ h. cc, λ h. cc)
bytes_equal_iff (x ∷ xs) [] = (λ h. cc, λ h. cc)
bytes_equal_iff (x ∷ xs) (y ∷ ys) =
    let ih = bytes_equal_iff xs ys in
    (λ h. ground (arith, ih.0, ==_iff x y), λ h. ground (arith, ih.1, ==_iff x y))

-- The `k` lowest bytes of `v`, the highest first: binary.BigEndian.PutUint16 and PutUint64.
unfoldable pub big_endian : ℕ → ℕ → Bytes
big_endian zero v = []
big_endian (suc k) v = v / 256 ^ k % 256 ∷ big_endian k v

-- binary.BigEndian.Uint16 and Uint64
unfoldable pub from_big_endian : ℕ → Bytes → ℕ
from_big_endian acc [] = acc
from_big_endian acc (b ∷ bs) = from_big_endian (acc * 256 + b) bs

pub length-big_endian : (k v : ℕ) → length (big_endian k v) ≡ k
unfolding big_endian
length-big_endian zero v = refl
length-big_endian (suc k) v = ap suc (length-big_endian k v)

-- `copy(dst[offset:], src)` of a `src` that fits.
abbrev pub overwrite : Bytes → ℕ → Bytes → Bytes
overwrite dst offset src = take offset dst ++ (src ++ drop (offset + length src) dst)

pub from_big_endian-big_endian_16 : (v : ℕ) → v < 2 ^ 16 → from_big_endian 0 (big_endian 2 v) ≡ v
unfolding from_big_endian big_endian
from_big_endian-big_endian_16 v h = omega arith

pub from_big_endian-big_endian_64 : (v : ℕ) → v < 2 ^ 64 → from_big_endian 0 (big_endian 8 v) ≡ v
unfolding from_big_endian big_endian
from_big_endian-big_endian_64 v h = omega arith
