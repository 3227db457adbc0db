-- ===== src/Prelude/Overwrites.antt =====
-- Writes into a file: into an empty one, behind a part in front, and of whole blocks.
use Prim.Native.Nat.{ℕ, ◌+◌, ◌-◌, ◌<◌, ◌≤◌, min}
use mathlib.Core.Path.{◌≡◌, ap, ◌∙◌}
use mathlib.Core.Bool.{false}
use mathlib.Core.List.{[], ◌++◌, append-nil}
use native.Mathlib.Omega.{arith}
use shiroikuma_gcfs.Prelude.Tests.{◌==◌}
use shiroikuma_gcfs.Prelude.Lists.{
  length, take, drop, length-append, length-take, length-drop, drop_all, replicate,
  length-replicate,
}
use shiroikuma_gcfs.Prelude.ByteSlices.{Bytes}
use shiroikuma_gcfs.Prelude.Positions.{
  get_or-append, get_or-take, get_or-drop, get_or-replicate, get_or_beyond,
}
use shiroikuma_gcfs.Prelude.Extensional.{extensional}
use shiroikuma_gcfs.Prelude.Ranges.{write_bytes, length-write_bytes, get_or-write_bytes}

pub write_bytes-empty : (new : Bytes) → 0 < length new → write_bytes [] 0 new ≡ new
unfolding write_bytes
write_bytes-empty new some_new =
    rw (not_zero (length new) some_new)
      (ap (λ l. new ++ l) (drop_all (0 + length new) [] (omega arith)) ∙ append-nil new)
  where
    not_zero : (n : ℕ) → 0 < n → (n == 0) ≡ false
    not_zero n h = ground arith

module _ (xs new : Bytes) (off : ℕ) (some_new : 0 < length new) where
  -- A write behind a part in front leaves that part alone.
  pub write_bytes-append :
      (front : Bytes)
      → write_bytes (front ++ xs) (length front + off) new ≡ front ++ write_bytes xs off new
  write_bytes-append front =
      extensional (write_bytes (front ++ xs) (length front + off) new)
        (front ++ write_bytes xs off new) 0
        (omega (
          arith,
          length-write_bytes (front ++ xs) (length front + off) new some_new,
          length-write_bytes xs off new some_new,
          length-append front xs,
          length-append front (write_bytes xs off new),
        ))
        (λ j h. ground (
          arith,
          get_or-write_bytes (front ++ xs) (length front + off) new j,
          get_or-append front xs j 0,
          get_or-append front (write_bytes xs off new) j 0,
          get_or-write_bytes xs off new (j - length front),
          place j,
        ))
    where
      place : (j : ℕ) → length front ≤ j → j - (length front + off) ≡ j - length front - off
      place j h = omega arith

  -- Writing whole blocks of the file that a write gives, all that it touches, gives that file.
  pub write_bytes-cover :
      (start size : ℕ)
      → start ≤ off
      → off + length new ≤ start + size
      → write_bytes xs start (take size (drop start (write_bytes xs off new)))
        ≡ write_bytes xs off new
  write_bytes-cover start size before behind =
      extensional (write_bytes xs start part) result 0 same_length (λ j h. ground (
        arith,
        get_or-write_bytes xs start part j,
        get_or-take size (drop start result) (j - start) 0,
        get_or-drop start result (j - start) 0,
        get_or-write_bytes xs off new j,
        sized,
        length-write_bytes xs off new some_new,
        same_length,
        place j,
      ))
    where
      result : Bytes
      result = write_bytes xs off new

      part : Bytes
      part = take size (drop start result)

      sized : length part ≡ min size (length result - start)
      sized = omega (arith, length-take size (drop start result), length-drop start result)

      same_length : length (write_bytes xs start part) ≡ length result
      same_length = omega (
        arith,
        sized,
        length-write_bytes xs off new some_new,
        some_new,
        length-write_bytes xs start part,
      )

      place : (j : ℕ) → start ≤ j → start + (j - start) ≡ j
      place j h = omega arith

  -- The range that was written is what was written.
  pub range-write_bytes : take (length new) (drop off (write_bytes xs off new)) ≡ new
  range-write_bytes = extensional (take (length new) (drop off result)) new 0 sized (λ j h. ground (
    arith,
    sized,
    get_or-take (length new) (drop off result) j 0,
    get_or-drop off result j 0,
    get_or-write_bytes xs off new (off + j),
    place j,
  ))
    where
      result : Bytes
      result = write_bytes xs off new

      sized : length (take (length new) (drop off result)) ≡ length new
      sized = omega (
        arith,
        length-take (length new) (drop off result),
        length-drop off result,
        length-write_bytes xs off new some_new,
      )

      place : (j : ℕ) → off + j - off ≡ j
      place j = omega arith

-- A write into an empty file leaves zeros in front.
pub take-write_bytes-empty :
    (n off : ℕ) (new : Bytes)
    → 0 < length new
    → n ≤ off
    → take n (write_bytes [] off new) ≡ replicate n 0
take-write_bytes-empty n off new some_new h =
    extensional (take n (write_bytes [] off new)) (replicate n 0) 0 sized (λ j below. ground (
      arith,
      sized,
      length-replicate n zero_byte,
      get_or-take n (write_bytes [] off new) j 0,
      get_or-write_bytes [] off new j,
      get_or-replicate n j zero_byte,
      get_or_beyond [] j zero_byte,
    ))
  where
    zero_byte : ℕ
    zero_byte = 0

    sized : length (take n (write_bytes [] off new)) ≡ length (replicate n zero_byte)
    sized = omega (
      arith,
      length-take n (write_bytes [] off new),
      length-write_bytes [] off new some_new,
      length-replicate n zero_byte,
    )
