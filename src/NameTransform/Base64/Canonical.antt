-- ===== src/NameTransform/Base64/Canonical.antt =====
-- Only one text decodes to given bytes, and that is what `Strict` is for.
use shiroikuma_gcfs.Prelude.{
  ℕ, ◌+◌, ◌*◌, ◌/◌, ◌%◌, ◌≡◌, refl, [], ◌∷◌, Outcome, ok, >>=-eq-ok, arith, Bytes, All, IsByte,
  ◌==◌, Bool-cases, inl, inr, ==_iff,
}
use shiroikuma_gcfs.NameTransform.Base64.{
  Encoding, url_encoding, raw_url_encoding, pad_char, char_of, value_of, encode_to_string,
  decode_two, decode_three, decode_four, decode_last, decode_clean, decode_string,
}
use shiroikuma_gcfs.NameTransform.Base64.RoundTrip.{
  char_of-value_of, two_canonical, IsClean, drop_line_breaks_lem,
}

three_canonical :
    (x y z : ℕ) (bytes : Bytes)
    → decode_three x y z ≡ ok bytes
    → (a : ℕ) × (b : ℕ) × (bytes ≡ a ∷ b ∷ [])
      × (x ≡ char_of (a / 4))
      × (y ≡ char_of (a % 4 * 16 + b / 16))
      × (z ≡ char_of (b % 16 * 4))
      × IsByte a
      × IsByte b
unfolding decode_three
three_canonical x y z bytes e =
    let (v, hv, e1) = >>=-eq-ok (value_of x) _ e in
    let (w, hw, e2) = >>=-eq-ok (value_of y) _ e1 in
    let (u, hu, e3) = >>=-eq-ok (value_of z) _ e2 in
    let (cv, bv) = char_of-value_of x hv in
    let (cw, bw) = char_of-value_of y hw in
    let (cu, bu) = char_of-value_of z hu in
    let rest : u % 4 ≡ 0 = ground (arith, e3) in
    let first : (v * 4 + w / 16) / 4 ≡ v = omega (arith, bw) in
    let second : (v * 4 + w / 16) % 4 * 16 + (w % 16 * 16 + u / 4) / 16 ≡ w =
      omega (arith, bw, bu) in
    let third : (w % 16 * 16 + u / 4) % 16 * 4 ≡ u = omega (arith, bu, rest) in
    (
      v * 4 + w / 16,
      w % 16 * 16 + u / 4,
      ground (arith, e3),
      rw (first, cv),
      rw (second, cw),
      rw (third, cu),
      omega (arith, bv, bw),
      omega (arith, bw, bu),
    )

four_canonical :
    (x y z w : ℕ) (r : Outcome Bytes) (bytes : Bytes)
    → decode_four x y z w r ≡ ok bytes
    → (a : ℕ) × (b : ℕ) × (c : ℕ) × (rest : Bytes) × (bytes ≡ a ∷ b ∷ c ∷ rest)
      × (r ≡ ok rest)
      × (x ≡ char_of (a / 4))
      × (y ≡ char_of (a % 4 * 16 + b / 16))
      × (z ≡ char_of (b % 16 * 4 + c / 64))
      × (w ≡ char_of (c % 64))
      × IsByte a
      × IsByte b
      × IsByte c
unfolding decode_four
four_canonical x y z w r bytes e =
    let (p, hp, e1) = >>=-eq-ok (value_of x) _ e in
    let (q, hq, e2) = >>=-eq-ok (value_of y) _ e1 in
    let (s, hs, e3) = >>=-eq-ok (value_of z) _ e2 in
    let (t, ht, e4) = >>=-eq-ok (value_of w) _ e3 in
    let (rest, hr, e5) = >>=-eq-ok r _ e4 in
    let (cp, bp) = char_of-value_of x hp in
    let (cq, bq) = char_of-value_of y hq in
    let (cs, bs) = char_of-value_of z hs in
    let (ct, bt) = char_of-value_of w ht in
    let first : (p * 4 + q / 16) / 4 ≡ p = omega (arith, bq) in
    let second : (p * 4 + q / 16) % 4 * 16 + (q % 16 * 16 + s / 4) / 16 ≡ q =
      omega (arith, bq, bs) in
    let third : (q % 16 * 16 + s / 4) % 16 * 4 + (s % 4 * 64 + t) / 64 ≡ s =
      omega (arith, bs, bt) in
    let fourth : (s % 4 * 64 + t) % 64 ≡ t = omega (arith, bt) in
    (
      p * 4 + q / 16,
      q % 16 * 16 + s / 4,
      s % 4 * 64 + t,
      rest,
      ground (arith, e5),
      hr,
      rw (first, cp),
      rw (second, cq),
      rw (third, cs),
      rw (fourth, ct),
      omega (arith, bp, bq),
      omega (arith, bq, bs),
      omega (arith, bs, bt),
    )

-- `s` is the text that `bytes` encode to.
abbrev Decoded : Encoding → Bytes → Bytes → Type 0
Decoded e s bytes = (encode_to_string e bytes ≡ s) × All IsByte bytes

two_shape :
    {x y : ℕ} {bytes : Bytes} (a : ℕ)
    → bytes ≡ a ∷ []
    → x ≡ char_of (a / 4)
    → y ≡ char_of (a % 4 * 16)
    → IsByte a
    → Decoded raw_url_encoding (x ∷ y ∷ []) bytes
      × Decoded url_encoding (x ∷ y ∷ pad_char ∷ pad_char ∷ []) bytes
unfolding encode_to_string
two_shape a shape ex ey ba = rw (shape, ex, ey) ((refl, (ba, tt)), (refl, (ba, tt)))

two_chars :
    (x y : ℕ) (bytes : Bytes)
    → decode_two x y ≡ ok bytes
    → Decoded raw_url_encoding (x ∷ y ∷ []) bytes
      × Decoded url_encoding (x ∷ y ∷ pad_char ∷ pad_char ∷ []) bytes
two_chars x y bytes e =
    let (a, shape, ex, ey, ba) = two_canonical x y bytes e in two_shape a shape ex ey ba

three_shape :
    {x y z : ℕ} {bytes : Bytes} (a b : ℕ)
    → bytes ≡ a ∷ b ∷ []
    → x ≡ char_of (a / 4)
    → y ≡ char_of (a % 4 * 16 + b / 16)
    → z ≡ char_of (b % 16 * 4)
    → IsByte a
    → IsByte b
    → Decoded raw_url_encoding (x ∷ y ∷ z ∷ []) bytes
      × Decoded url_encoding (x ∷ y ∷ z ∷ pad_char ∷ []) bytes
unfolding encode_to_string
three_shape a b shape ex ey ez ba bb =
    rw (shape, ex, ey, ez) ((refl, (ba, (bb, tt))), (refl, (ba, (bb, tt))))

three_chars :
    (x y z : ℕ) (bytes : Bytes)
    → decode_three x y z ≡ ok bytes
    → Decoded raw_url_encoding (x ∷ y ∷ z ∷ []) bytes
      × Decoded url_encoding (x ∷ y ∷ z ∷ pad_char ∷ []) bytes
three_chars x y z bytes e =
    let (a, b, shape, ex, ey, ez, ba, bb) = three_canonical x y z bytes e in
    three_shape a b shape ex ey ez ba bb

four_shape :
    (e : Encoding) {x y z w : ℕ} {s bytes : Bytes} (a b c : ℕ) (rest : Bytes)
    → bytes ≡ a ∷ b ∷ c ∷ rest
    → x ≡ char_of (a / 4)
    → y ≡ char_of (a % 4 * 16 + b / 16)
    → z ≡ char_of (b % 16 * 4 + c / 64)
    → w ≡ char_of (c % 64)
    → IsByte a
    → IsByte b
    → IsByte c
    → Decoded e s rest
    → Decoded e (x ∷ y ∷ z ∷ w ∷ s) bytes
unfolding encode_to_string
four_shape e a b c rest shape ex ey ez ew ba bb bc more =
    rw (shape, ex, ey, ez, ew, more.0) (refl, (ba, (bb, (bc, more.1))))

four_chars :
    (e : Encoding) (x y z w : ℕ) (s : Bytes) (r : Outcome Bytes) (bytes : Bytes)
    → ((rest : Bytes) → r ≡ ok rest → Decoded e s rest)
    → decode_four x y z w r ≡ ok bytes
    → Decoded e (x ∷ y ∷ z ∷ w ∷ s) bytes
four_chars e x y z w s r bytes ih h =
    let (a, b, c, rest, shape, hr, ex, ey, ez, ew, ba, bb, bc) = four_canonical x y z w r bytes h in
    four_shape e a b c rest shape ex ey ez ew ba bb bc (ih rest hr)

no_chars : (e : Encoding) (bytes : Bytes) → ok [] ≡ ok bytes → Decoded e [] bytes
unfolding encode_to_string
no_chars e [] h = (refl, tt)
no_chars e (b ∷ bytes) h = cc

last_chars :
    (x y z w : ℕ) (bytes : Bytes)
    → decode_last x y z w ≡ ok bytes
    → Decoded url_encoding (x ∷ y ∷ z ∷ w ∷ []) bytes
unfolding decode_last
last_chars x y z w bytes h = elim (Bool-cases (w == pad_char)) [
  | inl pad ↦ elim (Bool-cases (z == pad_char)) [
    | inl both ↦
        rw ((==_iff w pad_char).0 pad, (==_iff z pad_char).0 both)
          (two_chars x y bytes (rw (pad, both) at h)).1
    | inr one ↦ rw ((==_iff w pad_char).0 pad) (three_chars x y z bytes (rw (pad, one) at h)).1
  ]
  | inr full ↦
      four_chars url_encoding x y z w [] (ok []) bytes (no_chars url_encoding) (rw full at h)
]

all_chars : (e : Encoding) (s bytes : Bytes) → decode_clean e s ≡ ok bytes → Decoded e s bytes
unfolding decode_clean
all_chars e [] bytes h = no_chars e bytes h
all_chars e (x ∷ []) bytes h = cc
all_chars raw_url_encoding (x ∷ y ∷ []) bytes h = (two_chars x y bytes h).0
all_chars url_encoding (x ∷ y ∷ []) bytes h = cc
all_chars raw_url_encoding (x ∷ y ∷ z ∷ []) bytes h = (three_chars x y z bytes h).0
all_chars url_encoding (x ∷ y ∷ z ∷ []) bytes h = cc
all_chars raw_url_encoding (x ∷ y ∷ z ∷ w ∷ s) bytes h =
    four_chars raw_url_encoding x y z w s (decode_clean raw_url_encoding s) bytes
      (all_chars raw_url_encoding s) h
all_chars url_encoding (x ∷ y ∷ z ∷ w ∷ []) bytes h = last_chars x y z w bytes h
all_chars url_encoding (x ∷ y ∷ z ∷ w ∷ a ∷ s) bytes h =
    four_chars url_encoding x y z w (a ∷ s) (decode_clean url_encoding (a ∷ s)) bytes
      (all_chars url_encoding (a ∷ s)) h

-- A text without line breaks that decodes is the encoding of the result, which consists of bytes.
pub encode_to_string-decode_string :
    (e : Encoding) (s bytes : Bytes)
    → IsClean s
    → decode_string e s ≡ ok bytes
    → (encode_to_string e bytes ≡ s) × All IsByte bytes
unfolding decode_string
encode_to_string-decode_string e s bytes clean h =
    all_chars e s bytes (rw (drop_line_breaks_lem s clean) at h)
