-- ===== src/NameTransform/Base64/RoundTrip.antt =====
-- Encoding and decoding are inverse to one another.
use shiroikuma_gcfs.Prelude.{
  ℕ, ◌+◌, ◌*◌, ◌/◌, ◌%◌, ◌<◌, ◌≡◌, ◌≢◌, refl, ◌∙◌, false, [], ◌∷◌, ok, >>=-eq-ok, arith, Bytes, All,
  IsByte,
}
use shiroikuma_gcfs.NameTransform.Base64.{
  Encoding, url_encoding, raw_url_encoding, pad_char, char_of, value_of, encode_to_string,
  decode_two, decode_three, decode_four, decode_last, decode_clean, is_line_break, drop_line_breaks,
  decode_string,
}

value_of-char_of : (v : ℕ) → v < 64 → value_of (char_of v) ≡ ok v
unfolding value_of char_of
value_of-char_of v h = ground arith

-- A character of the alphabet is the one of its value, and is neither `=` nor a line break.
pub char_of-value_of : (c : ℕ) {v : ℕ} → value_of c ≡ ok v → (char_of v ≡ c) × (v < 64)
unfolding value_of char_of
char_of-value_of c h = ground arith

pad_plain : is_line_break pad_char ≡ false
unfolding is_line_break
pad_plain = refl

char_of_plain : (v : ℕ) → (char_of v ≢ pad_char) × (is_line_break (char_of v) ≡ false)
unfolding char_of is_line_break
char_of_plain v = ground arith

pub decode_clean_step :
    (e : Encoding) (x y z w : ℕ) (s : Bytes)
    → w ≢ pad_char
    → decode_clean e (x ∷ y ∷ z ∷ w ∷ s) ≡ decode_four x y z w (decode_clean e s)
unfolding decode_clean
decode_clean_step raw_url_encoding x y z w s h = refl
decode_clean_step url_encoding x y z w [] h = ground arith
decode_clean_step url_encoding x y z w (a ∷ s) h = refl

decode_last_three : (x y z : ℕ) → z ≢ pad_char → decode_last x y z pad_char ≡ decode_three x y z
unfolding decode_last
decode_last_three x y z h = ground arith

two_lem : (a : ℕ) → IsByte a → decode_two (char_of (a / 4)) (char_of (a % 4 * 16)) ≡ ok (a ∷ [])
unfolding decode_two
two_lem a h =
    ground
      (arith, value_of-char_of (a / 4) (omega arith), value_of-char_of (a % 4 * 16) (omega arith))

three_lem :
    (a b : ℕ)
    → IsByte a
    → IsByte b
    → decode_three (char_of (a / 4)) (char_of (a % 4 * 16 + b / 16)) (char_of (b % 16 * 4))
      ≡ ok (a ∷ b ∷ [])
unfolding decode_three
three_lem a b h k = ground (
  arith,
  value_of-char_of (a / 4) (omega arith),
  value_of-char_of (a % 4 * 16 + b / 16) (omega arith),
  value_of-char_of (b % 16 * 4) (omega arith),
)

four_lem :
    (a b c : ℕ) (rest : Bytes)
    → IsByte a
    → IsByte b
    → IsByte c
    → decode_four
        (char_of (a / 4))
        (char_of (a % 4 * 16 + b / 16))
        (char_of (b % 16 * 4 + c / 64))
        (char_of (c % 64))
        (ok rest)
      ≡ ok (a ∷ b ∷ c ∷ rest)
unfolding decode_four
four_lem a b c rest h k l = ground (
  arith,
  value_of-char_of (a / 4) (omega arith),
  value_of-char_of (a % 4 * 16 + b / 16) (omega arith),
  value_of-char_of (b % 16 * 4 + c / 64) (omega arith),
  value_of-char_of (c % 64) (omega arith),
)

decode_clean-encode_to_string :
    (e : Encoding) (bytes : Bytes)
    → All IsByte bytes
    → decode_clean e (encode_to_string e bytes) ≡ ok bytes
unfolding decode_clean encode_to_string
decode_clean-encode_to_string e [] h = refl
decode_clean-encode_to_string raw_url_encoding (a ∷ []) h = two_lem a h.0
decode_clean-encode_to_string url_encoding (a ∷ []) h = two_lem a h.0
decode_clean-encode_to_string raw_url_encoding (a ∷ b ∷ []) h = three_lem a b h.0 h.1.0
decode_clean-encode_to_string url_encoding (a ∷ b ∷ []) h =
    decode_last_three (char_of (a / 4)) (char_of (a % 4 * 16 + b / 16)) (char_of (b % 16 * 4))
      (char_of_plain (b % 16 * 4)).0
    ∙ three_lem a b h.0 h.1.0
decode_clean-encode_to_string e (a ∷ b ∷ c ∷ rest) h =
    decode_clean_step e (char_of (a / 4)) (char_of (a % 4 * 16 + b / 16))
      (char_of (b % 16 * 4 + c / 64)) (char_of (c % 64)) (encode_to_string e rest)
      (char_of_plain (c % 64)).0
    ∙ rw (decode_clean-encode_to_string e rest h.1.1.1) (four_lem a b c rest h.0 h.1.0 h.1.1.0)

-- No CR and no LF: what `decryptName` checks for.
abbrev pub IsClean : Bytes → Type 0
IsClean = All (λ c. is_line_break c ≡ false)

pub drop_line_breaks_lem : (s : Bytes) → IsClean s → drop_line_breaks s ≡ s
unfolding drop_line_breaks
drop_line_breaks_lem [] h = refl
drop_line_breaks_lem (c ∷ s) h = rw (h.0, drop_line_breaks_lem s h.1)

pub encode_to_string-IsClean : (e : Encoding) (bytes : Bytes) → IsClean (encode_to_string e bytes)
unfolding encode_to_string
encode_to_string-IsClean e [] = tt
encode_to_string-IsClean raw_url_encoding (a ∷ []) =
    ((char_of_plain (a / 4)).1, ((char_of_plain (a % 4 * 16)).1, tt))
encode_to_string-IsClean url_encoding (a ∷ []) =
    ((char_of_plain (a / 4)).1, ((char_of_plain (a % 4 * 16)).1, (pad_plain, (pad_plain, tt))))
encode_to_string-IsClean raw_url_encoding (a ∷ b ∷ []) = (
  (char_of_plain (a / 4)).1,
  ((char_of_plain (a % 4 * 16 + b / 16)).1, ((char_of_plain (b % 16 * 4)).1, tt)),
)
encode_to_string-IsClean url_encoding (a ∷ b ∷ []) = (
  (char_of_plain (a / 4)).1,
  ((char_of_plain (a % 4 * 16 + b / 16)).1, ((char_of_plain (b % 16 * 4)).1, (pad_plain, tt))),
)
encode_to_string-IsClean e (a ∷ b ∷ c ∷ rest) = (
  (char_of_plain (a / 4)).1,
  (
    (char_of_plain (a % 4 * 16 + b / 16)).1,
    (
      (char_of_plain (b % 16 * 4 + c / 64)).1,
      ((char_of_plain (c % 64)).1, encode_to_string-IsClean e rest),
    ),
  ),
)

-- What is encoded decodes to the bytes that it was made from.
pub decode_string-encode_to_string :
    (e : Encoding) (bytes : Bytes)
    → All IsByte bytes
    → decode_string e (encode_to_string e bytes) ≡ ok bytes
unfolding decode_string
decode_string-encode_to_string e bytes h =
    rw (drop_line_breaks_lem (encode_to_string e bytes) (encode_to_string-IsClean e bytes))
      (decode_clean-encode_to_string e bytes h)

pub two_canonical :
    (x y : ℕ) (bytes : Bytes)
    → decode_two x y ≡ ok bytes
    → (a : ℕ) × (bytes ≡ a ∷ []) × (x ≡ char_of (a / 4)) × (y ≡ char_of (a % 4 * 16)) × IsByte a
unfolding decode_two
two_canonical x y bytes e =
    let (v, hv, e1) = >>=-eq-ok (value_of x) _ e in
    let (w, hw, e2) = >>=-eq-ok (value_of y) _ e1 in
    let (cv, bv) = char_of-value_of x hv in
    let (cw, bw) = char_of-value_of y hw in
    let rest : w % 16 ≡ 0 = ground (arith, e2) in
    let high : (v * 4 + w / 16) / 4 ≡ v = omega (arith, bw) in
    let low : (v * 4 + w / 16) % 4 * 16 ≡ w = omega (arith, bw, rest) in
    (v * 4 + w / 16, ground (arith, e2), rw (high, cv), rw (low, cw), omega (arith, bv, bw))
