-- ===== src/FileOps/Overlay.antt =====
-- A write, block by block: what `doWrite` encrypts is the blocks of the plaintext that results.
use shiroikuma_gcfs.Prelude.{
  ℕ, suc, ◌+◌, ◌-◌, ◌*◌, ◌≤◌, ◌<◌, ◌≡◌, sym, ap, ◌∙◌, arith, length, take, drop, ltb, leb, ◌&&◌,
  if◌then◌else◌, length-take, length-drop, Bytes, get_or,
}
use Prim.Native.Nat.{max}
use shiroikuma_gcfs.Prelude.Extensional.{extensional}
use shiroikuma_gcfs.Prelude.Positions.{get_or-take, get_or-drop}
use shiroikuma_gcfs.Prelude.Ranges.{
  block, length-block, get_or-block, write_bytes, length-write_bytes, get_or-write_bytes,
}
use shiroikuma_gcfs.ContentEnc.IntraBlocks.{IntraBlock}
use shiroikuma_gcfs.ContentEnc.IntraBlocks.Tiling.{StartsRange}

-- From block `k` on, `result` is `plain` with `new` written at `off`, which lies in that block.
pub record Overlay (bs k : ℕ) (plain result : Bytes) (off : ℕ) (new : Bytes) : Type 0 where
  pub starts : (k * bs ≤ off) × (off < k * bs + bs)
  pub size : length result ≡ max (length plain) (off + length new)
  pub before : (i : ℕ) → k * bs ≤ i → i < off → get_or result i 0 ≡ get_or plain i 0
  pub inside : (i : ℕ) → off ≤ i → i < off + length new → get_or result i 0 ≡ get_or new (i - off) 0
  pub behind : (i : ℕ) → off + length new ≤ i → get_or result i 0 ≡ get_or plain i 0

pub write_bytes-Overlay :
    (bs k : ℕ) (plain : Bytes) (off : ℕ) (new : Bytes)
    → 0 < length new
    → k * bs ≤ off
    → off < k * bs + bs
    → Overlay bs k plain (write_bytes plain off new) off new
write_bytes-Overlay bs k plain off new some_new low high = record {
  starts = (low, high);
  size = length-write_bytes plain off new some_new;
  before = λ i from to. ground (arith, get_or-write_bytes plain off new i);
  inside = λ i from to. ground (arith, get_or-write_bytes plain off new i);
  behind = λ i from. ground (arith, get_or-write_bytes plain off new i);
}

module _ (bs k : ℕ) (plain result : Bytes) (off : ℕ) (new : Bytes)
    (o : Overlay bs k plain result off new) (b : IntraBlock)
    (r : StartsRange 0 bs off (length new) b) where
  abbrev piece : Bytes
  piece = take b.length new

  number : b.block_no * bs + b.skip ≡ off
  number = omega (arith, r.starts)

  -- What has the bytes of the merged block is the block of the result.
  pub merged-block :
      (out : Bytes)
      → b.block_no ≡ k
      → length out ≡ max (length (block bs k plain)) (b.skip + length piece)
      → ((i : ℕ)
          → i < max (length (block bs k plain)) (b.skip + length piece)
          → get_or out i 0 ≡ (
              if leb b.skip i && ltb i (b.skip + length piece)
              then get_or piece (i - b.skip) 0
              else get_or (block bs k plain) i 0))
      → out ≡ block bs k result
  merged-block out same sized bytes =
      extensional out (block bs k result) 0
        (omega (
          arith,
          place,
          sized,
          o.size,
          r.inside,
          r.within,
          r.ends,
          length-take b.length new,
          length-block bs k plain,
          length-block bs k result,
        ))
        at_each
    where
      place : k * bs + b.skip ≡ off
      place = ap (λ n. n * bs + b.skip) (sym same) ∙ number

      at_each : (i : ℕ) → i < length out → get_or out i 0 ≡ get_or (block bs k result) i 0
      at_each i h =
          let short : i < bs =
            omega (arith, h, sized, r.inside, length-take b.length new, length-block bs k plain) in
          ground (
            arith,
            bytes i,
            sized,
            h,
            place,
            r.inside,
            r.within,
            r.ends,
            length-take b.length new,
            get_or-take b.length new (i - b.skip) 0,
            get_or-block bs k plain i short,
            get_or-block bs k result i short,
            o.before (k * bs + i),
            o.inside (k * bs + i),
            o.behind (k * bs + i),
            shift,
          )
        where
          shift : b.skip ≤ i → k * bs + i - off ≡ i - b.skip
          shift h' = omega (arith, place, h')

  -- The rest of the write starts at the next block.
  pub next-Overlay :
      0 < length (drop b.length new)
      → b.block_no ≡ k
      → Overlay bs (suc k) plain result (off + b.length) (drop b.length new)
  next-Overlay more same = record {
    starts = omega (arith, next, more, r.inside, r.advances, length-drop b.length new);
    size = omega (arith, o.size, r.within, length-drop b.length new);
    before = λ i from to. absurd (omega (arith, next, from, to));
    inside = λ i from to.
        o.inside i (omega (arith, from)) (omega (arith, to, r.within, length-drop b.length new))
        ∙ ap (λ n. get_or new n 0)
            (let e : i - off ≡ b.length + (i - (off + b.length)) = omega (arith, from) in e)
        ∙ sym (get_or-drop b.length new (i - (off + b.length)) 0);
    behind = λ i from. o.behind i (omega (arith, from, r.within, length-drop b.length new));
  }
    where
      place : k * bs + b.skip ≡ off
      place = ap (λ n. n * bs + b.skip) (sym same) ∙ number

      next : off + b.length ≡ suc k * bs
      next = omega (arith, place, more, r.ends, length-drop b.length new)
