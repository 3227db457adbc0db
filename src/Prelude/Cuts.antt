-- ===== src/Prelude/Cuts.antt =====
-- Changes of the size of a file: behind a part in front, and before a write at the new end.
use Prim.Native.Nat.{ℕ, ◌+◌, ◌-◌, ◌<◌, ◌≤◌}
use mathlib.Core.Path.{◌≡◌, refl, sym, ◌∙◌}
use mathlib.Core.Logic.{inl, inr}
use mathlib.Core.List.{◌++◌}
use native.Mathlib.Omega.{arith}
use shiroikuma_gcfs.Prelude.Tests.{ltb, if◌then◌else◌, Bool-cases}
use shiroikuma_gcfs.Prelude.Lists.{
  length, get_or, take, drop, length-append, length-take, length-drop, replicate, length-replicate,
}
use shiroikuma_gcfs.Prelude.ByteSlices.{Bytes}
use shiroikuma_gcfs.Prelude.Positions.{
  get_or-append, get_or-take, get_or-drop, get_or-replicate, get_or_beyond,
}
use shiroikuma_gcfs.Prelude.Extensional.{extensional}
use shiroikuma_gcfs.Prelude.Ranges.{
  write_bytes, length-write_bytes, get_or-write_bytes, resize, length-resize, get_or-resize,
}

pub resize-append :
    (front xs : Bytes) (n : ℕ) → resize (front ++ xs) (length front + n) ≡ front ++ resize xs n
resize-append front xs n =
    extensional (resize (front ++ xs) (length front + n)) (front ++ resize xs n) 0
      (omega (
        arith,
        length-resize (front ++ xs) (length front + n),
        length-resize xs n,
        length-append front (resize xs n),
      ))
      (λ j h.
        let inside : j < length front + n =
          omega (arith, h, length-resize (front ++ xs) (length front + n)) in
        get_or-resize (front ++ xs) (length front + n) j inside
        ∙ get_or-append front xs j 0
        ∙ same j inside
        ∙ sym (get_or-append front (resize xs n) j 0))
  where
    same :
        (j : ℕ)
        → j < length front + n
        → (if ltb j (length front) then get_or front j 0 else get_or xs (j - length front) 0) ≡ (
            if ltb j (length front)
            then get_or front j 0
            else get_or (resize xs n) (j - length front) 0)
    same j inside = elim (Bool-cases (ltb j (length front))) [
      | inl before ↦ rw before refl
      | inr behind ↦
          let there : j - length front < n = ground (arith, behind, inside) in
          rw behind (sym (get_or-resize xs n (j - length front) there))
    ]

-- Cutting at `a` and writing `k` of the bytes that stood there cuts at `a + k`.
pub write_bytes-resize :
    (xs : Bytes) (a k : ℕ)
    → 0 < k
    → a + k ≤ length xs
    → write_bytes (resize xs a) a (take k (drop a xs)) ≡ resize xs (a + k)
write_bytes-resize xs a k some_left inside =
    extensional (write_bytes (resize xs a) a kept) (resize xs (a + k)) 0 sized at_each
  where
    kept : Bytes
    kept = take k (drop a xs)

    length-kept : length kept ≡ k
    length-kept = omega (arith, length-take k (drop a xs), length-drop a xs, inside)

    sized : length (write_bytes (resize xs a) a kept) ≡ length (resize xs (a + k))
    sized = omega (
      arith,
      length-write_bytes (resize xs a) a kept (omega (arith, length-kept, some_left)),
      length-kept,
      length-resize xs a,
      length-resize xs (a + k),
    )

    place : (j : ℕ) → a ≤ j → a + (j - a) ≡ j
    place j h = omega arith

    at_each :
        (j : ℕ)
        → j < length (write_bytes (resize xs a) a kept)
        → get_or (write_bytes (resize xs a) a kept) j 0 ≡ get_or (resize xs (a + k)) j 0
    at_each j h =
        let there : j < a + k = omega (arith, h, sized, length-resize xs (a + k)) in
        get_or-write_bytes (resize xs a) a kept j
        ∙ ground (
          arith,
          there,
          length-kept,
          get_or-take k (drop a xs) (j - a) 0,
          get_or-drop a xs (j - a) 0,
          place j,
          get_or-resize xs a j,
        )
        ∙ sym (get_or-resize xs (a + k) j there)

pub resize-resize :
    (xs : Bytes) (a b : ℕ) → length xs ≤ a → a ≤ b → resize (resize xs a) b ≡ resize xs b
resize-resize xs a b long more =
    extensional (resize (resize xs a) b) (resize xs b) 0
      (omega (arith, length-resize (resize xs a) b, length-resize xs b))
      (λ j h.
        let below : j < b = omega (arith, h, length-resize (resize xs a) b) in
        get_or-resize (resize xs a) b j below
        ∙ ground (
          arith,
          get_or-resize xs a j,
          get_or_beyond (resize xs a) j 0,
          get_or_beyond xs j 0,
          length-resize xs a,
          long,
        )
        ∙ sym (get_or-resize xs b j below))

pub resize-length : (xs : Bytes) → resize xs (length xs) ≡ xs
resize-length xs =
    extensional (resize xs (length xs)) xs 0 (length-resize xs (length xs))
      (λ j h. get_or-resize xs (length xs) j (omega (arith, h, length-resize xs (length xs))))

-- Writing zeros at the end of a file, or behind it, extends it.
pub write_zeros-resize :
    (xs : Bytes) (off n : ℕ)
    → 0 < n
    → length xs ≤ off
    → write_bytes xs off (replicate n 0) ≡ resize xs (off + n)
write_zeros-resize xs off n some_zeros beyond =
    extensional (write_bytes xs off zeros) (resize xs (off + n)) 0 sized (λ j h.
      let below : j < off + n = omega (arith, h, sized, length-resize xs (off + n)) in
      get_or-write_bytes xs off zeros j
      ∙ ground (arith, get_or-replicate n (j - off) zero_byte, get_or_beyond xs j zero_byte, beyond)
      ∙ sym (get_or-resize xs (off + n) j below))
  where
    zero_byte : ℕ
    zero_byte = 0

    zeros : Bytes
    zeros = replicate n 0

    sized : length (write_bytes xs off zeros) ≡ length (resize xs (off + n))
    sized = omega (
      arith,
      length-write_bytes xs off zeros (omega (arith, length-replicate n zero_byte, some_zeros)),
      length-replicate n zero_byte,
      length-resize xs (off + n),
      beyond,
    )
