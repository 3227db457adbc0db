-- ===== src/NameTransform/Pad16/RoundTrip.antt =====
-- Padding and taking it off.
use mathlib.Core.Path.{ap₂}
use shiroikuma_gcfs.Prelude.{
  ℕ, zero, suc, ◌+◌, ◌-◌, ◌%◌, ◌≤◌, ◌<◌, ◌≡◌, ◌≢◌, refl, sym, ap, ◌∙◌, true, [], ◌∷◌, ◌++◌, ok,
  ◌>>=◌, All, IsByte, arith, length, get_or, take, drop, replicate, length-append, length-replicate,
  length-drop, length-take, take-append_length, drop-append_length, take-append-drop, Bytes,
}
use shiroikuma_gcfs.Prelude.Positions.{get_or-append, get_or-replicate'}
use shiroikuma_gcfs.NameTransform.Pad16.{block_size, pad16, un_pad16, all_equal}

all_equal-replicate : (n b : ℕ) → all_equal b (replicate n b) ≡ true
unfolding all_equal
all_equal-replicate zero b = refl
all_equal-replicate (suc n) b = ground (arith, all_equal-replicate n b)

replicate_of_all_equal : (b : ℕ) (xs : Bytes) → all_equal b xs ≡ true → xs ≡ replicate (length xs) b
unfolding all_equal
replicate_of_all_equal b [] h = refl
replicate_of_all_equal b (x ∷ xs) h = ground (arith, replicate_of_all_equal b xs)

abbrev pub padding : Bytes → ℕ
padding orig = 16 - length orig % 16

pad16_lem :
    (orig : Bytes) → orig ≢ [] → pad16 orig ≡ ok (orig ++ replicate (padding orig) (padding orig))
unfolding pad16
pad16_lem [] h = absurd (h refl)
pad16_lem (x ∷ xs) h =
    let byte : padding (x ∷ xs) % 256 ≡ padding (x ∷ xs) = omega arith in ground (arith, byte)

-- Where pad16 returns, the padded length is a multiple of the AES block size, and 1 to 16 bytes
-- more than the length of the input.
pub length-pad16 :
    (orig : Bytes) {padded : Bytes}
    → pad16 orig ≡ ok padded
    → (length padded % block_size ≡ 0)
      × (length orig < length padded)
      × (length padded ≤ length orig + 16)
length-pad16 [] e = unfold pad16 in cc e
length-pad16 (x ∷ xs) {padded} e =
    let orig : Bytes = x ∷ xs in
    let shape : padded ≡ orig ++ replicate (padding orig) (padding orig) =
      ground (arith, e, pad16_lem orig (λ p. cc p)) in
    rw shape (
      omega (
        arith,
        length-append orig (replicate (padding orig) (padding orig)),
        length-replicate (padding orig) (padding orig),
      ))

module _ (orig : Bytes) (n : ℕ) (some_padding : 0 < n) (short : n ≤ 16) (has_data : 0 < length orig)
    (aligned : (length orig + n) % 16 ≡ 0) where
  abbrev padded : Bytes
  padded = orig ++ replicate n n

  size : length padded ≡ length orig + n
  size = omega (arith, length-append orig (replicate n n), length-replicate n n)

  last : get_or padded (length padded - 1) 0 ≡ n
  last = ground (
    arith,
    size,
    get_or-append orig (replicate n n) (length padded - 1) 0,
    get_or-replicate' n (length padded - 1 - length orig) n 0,
  )

  body : length padded - n ≡ length orig
  body = omega (arith, size)

  un_pad16_lem : un_pad16 padded ≡ ok orig
  unfolding un_pad16
  un_pad16_lem =
      simp (last, body, take-append_length, drop-append_length, all_equal-replicate)
        (ground (arith, size, aligned))

-- unPad16 of what pad16 returns is the input, for every input but the empty one.
pub un_pad16-pad16 : (orig : Bytes) → orig ≢ [] → (pad16 orig >>= un_pad16) ≡ ok orig
un_pad16-pad16 [] h = absurd (h refl)
un_pad16-pad16 (x ∷ xs) h = rw (pad16_lem (x ∷ xs) h) (
    un_pad16_lem (x ∷ xs) (padding (x ∷ xs)) (omega arith) (omega arith) (omega arith)
      (omega arith))

record Unpadded (padded orig : Bytes) (n : ℕ) : Type 0 where
  some_padding : 0 < n
  short : n ≤ 16
  covered : n < length padded
  aligned : length padded % 16 ≡ 0
  filled : all_equal n (drop (length padded - n) padded) ≡ true
  front : orig ≡ take (length padded - n) padded

un_pad16-eq-ok :
    (padded orig : Bytes)
    → un_pad16 padded ≡ ok orig
    → Unpadded padded orig (get_or padded (length padded - 1) 0)
unfolding un_pad16
un_pad16-eq-ok padded orig e = ground arith

pad16-Unpadded : (padded orig : Bytes) (n : ℕ) → Unpadded padded orig n → pad16 orig ≡ ok padded
pad16-Unpadded padded orig n u =
    pad16_lem orig (λ p. absurd (omega (arith, size, ap length p, u.covered)))
    ∙ ap ok (rw n_eq (sym joined))
  where
    cut : ℕ
    cut = length padded - n

    size : length orig ≡ cut
    size = rw u.front (omega (arith, length-take cut padded))

    n_eq : padding orig ≡ n
    n_eq = omega (arith, size, u.aligned, u.covered, u.some_padding, u.short)

    tail : drop cut padded ≡ replicate n n
    tail =
        replicate_of_all_equal n (drop cut padded) u.filled
        ∙ ap (λ k. replicate k n) (omega (arith, length-drop cut padded, u.covered))

    joined : padded ≡ orig ++ replicate n n
    joined = sym (take-append-drop cut padded) ∙ ap₂ (λ a b. a ++ b) (sym u.front) tail

-- What unPad16 accepts is the padded form of its result.
pub pad16-un_pad16 : (padded orig : Bytes) → un_pad16 padded ≡ ok orig → pad16 orig ≡ ok padded
pad16-un_pad16 padded orig e =
    pad16-Unpadded padded orig (get_or padded (length padded - 1) 0) (un_pad16-eq-ok padded orig e)

All-append_replicate :
    (xs : Bytes) (n b : ℕ) → All IsByte xs → IsByte b → All IsByte (xs ++ replicate n b)
All-append_replicate [] zero b h hb = tt
All-append_replicate [] (suc n) b h hb = (hb, All-append_replicate [] n b tt hb)
All-append_replicate (x ∷ xs) n b h hb = (h.0, All-append_replicate xs n b h.1 hb)

-- Every name has a padded form, of bytes, which unpads to it.
pub pad16_total :
    (orig : Bytes)
    → orig ≢ []
    → All IsByte orig
    → (padded : Bytes) × (pad16 orig ≡ ok padded) × (un_pad16 padded ≡ ok orig) × All IsByte padded
pad16_total orig h bytes = (
  orig ++ replicate (padding orig) (padding orig),
  pad16_lem orig h,
  rw (pad16_lem orig h) at (un_pad16-pad16 orig h),
  All-append_replicate orig (padding orig) (padding orig) bytes (omega arith),
)
