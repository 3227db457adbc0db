-- ===== src/Prelude/Ranges.antt =====
-- Byte ranges of a file: its blocks, and its bytes after a write and a change of size.
use Prim.Native.Nat.{ℕ, ◌+◌, ◌-◌, ◌*◌, ◌<◌, ◌≤◌, min, max}
use mathlib.Core.Path.{◌≡◌, sym, ◌∙◌}
use mathlib.Core.Logic.{◌⊎◌, inl, inr}
use mathlib.Core.Bool.{◌&&◌}
use mathlib.Core.List.{◌++◌}
use native.Mathlib.Omega.{arith}
use native.Mathlib.Nat.{mul-le-mul_right}
use shiroikuma_gcfs.Prelude.Tests.{ltb, leb, ◌==◌, if◌then◌else◌, Bool-cases, ltb→lt}
use shiroikuma_gcfs.Prelude.Lists.{
  length, get_or, take, drop, replicate, length-append, length-take, length-drop, length-replicate,
}
use shiroikuma_gcfs.Prelude.ByteSlices.{Bytes}
use shiroikuma_gcfs.Prelude.Positions.{
  get_or-append, get_or-take, get_or-drop, get_or-replicate, get_or_beyond,
}
use shiroikuma_gcfs.Prelude.Extensional.{extensional}

-- The bytes of a file after a write at an offset: a gap behind its end is filled with zeros.
unfoldable pub write_bytes : Bytes → ℕ → Bytes → Bytes
write_bytes disk offset new =
    if length new == 0
    then disk
    else take offset (disk ++ replicate (offset - length disk) 0)
      ++ (new ++ drop (offset + length new) disk)

unfoldable pub resize : Bytes → ℕ → Bytes
resize disk size = take size (disk ++ replicate (size - length disk) 0)

-- The `i`th range of `size` bytes.
abbrev pub block : ℕ → ℕ → Bytes → Bytes
block size i xs = take size (drop (i * size) xs)

pub length-block :
    (size i : ℕ) (xs : Bytes) → length (block size i xs) ≡ min size (length xs - i * size)
length-block size i xs =
    omega (arith, length-take size (drop (i * size) xs), length-drop (i * size) xs)

pub get_or-block :
    (size i : ℕ) (xs : Bytes) (j : ℕ)
    → j < size
    → get_or (block size i xs) j 0 ≡ get_or xs (i * size + j) 0
get_or-block size i xs j h =
    get_or-take size (drop (i * size) xs) j 0 h ∙ get_or-drop (i * size) xs j 0

zeros_behind : (xs : Bytes) (n j : ℕ) → get_or (xs ++ replicate n 0) j 0 ≡ get_or xs j 0
zeros_behind xs n j =
    let zero_byte : ℕ = 0 in
    ground (
      arith,
      get_or-append xs (replicate n 0) j 0,
      get_or-replicate n (j - length xs) zero_byte,
      get_or_beyond xs j 0,
    )

pub length-write_bytes :
    (xs : Bytes) (offset : ℕ) (new : Bytes)
    → 0 < length new
    → length (write_bytes xs offset new) ≡ max (length xs) (offset + length new)
unfolding write_bytes
length-write_bytes xs offset new h = ground (
  arith,
  length-append (take offset (xs ++ replicate (offset - length xs) 0))
      (new ++ drop (offset + length new) xs),
  length-append new (drop (offset + length new) xs),
  length-take offset (xs ++ replicate (offset - length xs) 0),
  length-append xs (replicate (offset - length xs) 0),
  length-replicate (offset - length xs) (let z : ℕ = 0 in z),
  length-drop (offset + length new) xs,
)

spliced :
    (padded xs new : Bytes) (offset j : ℕ)
    → offset ≤ length padded
    → ((i : ℕ) → get_or padded i 0 ≡ get_or xs i 0)
    → get_or (take offset padded ++ (new ++ drop (offset + length new) xs)) j 0 ≡ (
        if leb offset j && ltb j (offset + length new)
        then get_or new (j - offset) 0
        else get_or xs j 0)
spliced padded xs new offset j long same = ground (
  arith,
  get_or-append (take offset padded) (new ++ drop (offset + length new) xs) j 0,
  get_or-append new (drop (offset + length new) xs) (j - offset) 0,
  length-take offset padded,
  get_or-take offset padded j 0,
  same j,
  get_or-drop (offset + length new) xs (j - offset - length new) 0,
  behind,
)
  where
    behind : offset + length new ≤ j → offset + length new + (j - offset - length new) ≡ j
    behind h = omega arith

pub get_or-write_bytes :
    (xs : Bytes) (offset : ℕ) (new : Bytes) (j : ℕ)
    → get_or (write_bytes xs offset new) j 0 ≡ (
        if leb offset j && ltb j (offset + length new)
        then get_or new (j - offset) 0
        else get_or xs j 0)
unfolding write_bytes
get_or-write_bytes xs offset new j =
    let zeros : Bytes = replicate (offset - length xs) 0 in
    let long : offset ≤ length (xs ++ zeros) =
      omega (
        arith,
        length-append xs zeros,
        length-replicate (offset - length xs) (let z : ℕ = 0 in z),
      ) in
    ground
      (arith, spliced (xs ++ zeros) xs new offset j long (zeros_behind xs (offset - length xs)))

pub length-resize : (xs : Bytes) (size : ℕ) → length (resize xs size) ≡ size
unfolding resize
length-resize xs size =
    let zeros : Bytes = replicate (size - length xs) 0 in
    omega (
      arith,
      length-take size (xs ++ zeros),
      length-append xs zeros,
      length-replicate (size - length xs) (let z : ℕ = 0 in z),
    )

pub get_or-resize :
    (xs : Bytes) (size j : ℕ) → j < size → get_or (resize xs size) j 0 ≡ get_or xs j 0
unfolding resize
get_or-resize xs size j h =
    get_or-take size (xs ++ replicate (size - length xs) 0) j 0 h
    ∙ zeros_behind xs (size - length xs) j

pub step-le : (i j size : ℕ) → i < j → i * size + size ≤ j * size
step-le i j size h =
    let more : (i + 1) * size ≤ j * size =
      mul-le-mul_right size (let k : i + 1 ≤ j = omega arith in k) in
    omega arith

pub lt-of_mul : (i j size : ℕ) → i * size < j * size → i < j
lt-of_mul i j size h = elim (Bool-cases (ltb i j)) [
  | inl less ↦ ltb→lt i j less
  | inr more ↦
      let back : j * size ≤ i * size =
        mul-le-mul_right size (let k : j ≤ i = ground (arith, more) in k) in
      absurd (omega arith)
]

pub le-of_mul : (i j size : ℕ) → 0 < size → i * size ≤ j * size → i ≤ j
le-of_mul i j size pos h =
    let less : i < j + 1 = lt-of_mul i (j + 1) size (omega arith) in omega arith

module _ (size f : ℕ) (xs new : Bytes) (some_new : 0 < length new) where
  whole : Bytes
  whole = write_bytes xs (f * size) new

  same_block :
      (i k : ℕ) (ys : Bytes)
      → min size (max (length xs) (f * size + length new) - i * size)
        ≡ min size (length ys - k * size)
      → ((j : ℕ)
          → j < size
          → j < length ys - k * size
          → (if leb (f * size) (i * size + j) && ltb (i * size + j) (f * size + length new)
              then get_or new (i * size + j - f * size) 0
              else get_or xs (i * size + j) 0)
            ≡ get_or ys (k * size + j) 0)
      → block size i whole ≡ block size k ys
  unfolding whole
  same_block i k ys sizes same =
      extensional (block size i whole) (block size k ys) 0
        (omega (
          arith,
          length-block size i whole,
          length-block size k ys,
          length-write_bytes xs (f * size) new some_new,
          sizes,
        ))
        at_each
    where
      at_each :
          (j : ℕ)
          → j < length (block size i whole)
          → get_or (block size i whole) j 0 ≡ get_or (block size k ys) j 0
      at_each j h =
          let inside : j < size = omega (arith, length-block size i whole) in
          let there : j < length ys - k * size = omega (
            arith,
            length-block size i whole,
            length-write_bytes xs (f * size) new some_new,
            sizes,
          ) in
          get_or-block size i whole j inside
          ∙ get_or-write_bytes xs (f * size) new (i * size + j)
          ∙ same j inside there
          ∙ sym (get_or-block size k ys j inside)

  -- The blocks of the file that a write at the start of block `f` leaves alone, fills, or makes a hole.
  pub block_before :
      (i : ℕ)
      → i < f
      → i * size + size ≤ length xs
      → block size i (write_bytes xs (f * size) new) ≡ block size i xs
  unfolding whole
  block_before i h full =
      let step = step-le i f size h in
      same_block i i xs (omega (arith, step)) (λ j inside there. ground (arith, step))

  pub block_after :
      (i : ℕ)
      → f * size + length new ≤ i * size
      → block size i (write_bytes xs (f * size) new) ≡ block size i xs
  unfolding whole
  block_after i h = same_block i i xs (omega arith) (λ j inside there. ground arith)

  pub block_inside :
      (k : ℕ)
      → k * size < length new
      → (k * size + size ≤ length new) ⊎ (length xs ≤ f * size + length new)
      → block size (f + k) (write_bytes xs (f * size) new) ≡ block size k new
  unfolding whole
  block_inside k h (inl full) =
      same_block (f + k) k new (omega arith) (λ j inside there. ground arith)
  block_inside k h (inr last) =
      same_block (f + k) k new (omega arith) (λ j inside there. ground arith)

  pub block_hole :
      (i : ℕ)
      → i < f
      → length xs ≤ i * size
      → block size i (write_bytes xs (f * size) new) ≡ replicate size 0
  unfolding whole
  block_hole i h short =
      let step = step-le i f size h in
      extensional (block size i whole) (replicate size 0) 0
        (omega (
          arith,
          step,
          length-block size i whole,
          length-write_bytes xs (f * size) new some_new,
          length-replicate size (let z : ℕ = 0 in z),
        ))
        at_each
    where
      at_each :
          (j : ℕ)
          → j < length (block size i whole)
          → get_or (block size i whole) j 0 ≡ get_or (replicate size 0) j 0
      at_each j inside =
          let step = step-le i f size h in
          let zero_byte : ℕ = 0 in
          let short_of : j < size = omega (arith, length-block size i whole) in
          get_or-block size i whole j short_of
          ∙ get_or-write_bytes xs (f * size) new (i * size + j)
          ∙ ground
              (arith, step, get_or_beyond xs (i * size + j) 0, get_or-replicate size j zero_byte)
