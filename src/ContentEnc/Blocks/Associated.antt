-- ===== src/ContentEnc/Blocks/Associated.antt =====
-- `concatAD`: what a block's tag authenticates besides its content.
use shiroikuma_gcfs.Prelude.{
  ℕ, ◌<◌, ◌≡◌, refl, sym, ap, ◌∙◌, Option, none, some, [], ◌++◌, ok, arith, take, drop,
  take-append_length, drop-append_length, length-append, Bytes, big_endian, from_big_endian,
  length-big_endian, from_big_endian-big_endian_64,
}
use shiroikuma_gcfs.ContentEnc.Offsets.{u64}
use shiroikuma_gcfs.ContentEnc.Blocks.{concat_ad}

number_read : (n : ℕ) (id : Bytes) → n < u64 → from_big_endian 0 (take 8 (big_endian 8 n ++ id)) ≡ n
number_read n id h =
    let front : take 8 (big_endian 8 n ++ id) ≡ big_endian 8 n =
      rw length-big_endian at (take-append_length (big_endian 8 n) id) in
    rw front (from_big_endian-big_endian_64 n h)

behind_number : (n : ℕ) (id : Bytes) → drop 8 (big_endian 8 n ++ id) ≡ id
behind_number n id = rw length-big_endian at (drop-append_length (big_endian 8 n) id)

same_named :
    (n m : ℕ) (id other : Bytes)
    → n < u64
    → m < u64
    → big_endian 8 n ++ id ≡ big_endian 8 m ++ other
    → (n ≡ m) × (id ≡ other)
same_named n m id other hn hm e = (
  sym (number_read n id hn) ∙ ap (λ l. from_big_endian 0 (take 8 l)) e ∙ number_read m other hm,
  sym (behind_number n id) ∙ ap (drop 8) e ∙ behind_number m other,
)

-- Two block numbers below 2^64 with their file IDs that give the same associated data are the same
-- number and the same file ID.
pub concat_ad_injective :
    (n m : ℕ) (id other : Option Bytes) {ad : Bytes}
    → n < u64
    → m < u64
    → concat_ad n id ≡ ok ad
    → concat_ad m other ≡ ok ad
    → (n ≡ m) × (id ≡ other)
unfolding concat_ad
concat_ad_injective n m none none hn hm e f =
    let same : big_endian 8 n ≡ big_endian 8 m = cc (e, f) in
    ((same_named n m [] [] hn hm (ap (λ (l : Bytes). l ++ []) same)).0, refl)
concat_ad_injective n m none (some other) hn hm e f =
    ground
      (arith, length-big_endian 8 n, length-big_endian 8 m, length-append (big_endian 8 m) other)
concat_ad_injective n m (some id) none hn hm e f =
    ground (arith, length-big_endian 8 n, length-big_endian 8 m, length-append (big_endian 8 n) id)
concat_ad_injective n m (some id) (some other) hn hm e f =
    let same : big_endian 8 n ++ id ≡ big_endian 8 m ++ other = ground arith in
    let (number, named) = same_named n m id other hn hm same in (number, ap some named)
