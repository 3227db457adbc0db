-- ===== src/NameTransform/Base64.antt =====
-- Go's base64.URLEncoding and base64.RawURLEncoding after `.Strict()`, of which
-- internal/nametransform/names.go keeps one in `NameTransform.B64`.
pub mod RoundTrip
pub mod Canonical
use shiroikuma_gcfs.Prelude.{
  ℕ, ◌+◌, ◌-◌, ◌*◌, ◌/◌, ◌%◌, Bool, true, false, ◌&&◌, ◌||◌, [], ◌∷◌, Outcome, ok, err, ◌>>=◌,
  bad_base64, ltb, leb, ◌==◌, if◌then◌else◌, Bytes,
}

-- `raw64 true` writes no `=`.
pub data Encoding : Type 0 where
  url_encoding raw_url_encoding : Encoding

abbrev pub pad_char : ℕ
pad_char = b'='

unfoldable pub char_of : ℕ → ℕ
char_of v =
    if ltb v 26
    then v + 65
    else if ltb v 52
    then v + 71
    else if ltb v 62
    then v - 4
    else if v == 62
    then b'-'
    else b'_'

unfoldable pub value_of : ℕ → Outcome ℕ
value_of c =
    if leb 65 c && leb c 90
    then ok (c - 65)
    else if leb 97 c && leb c 122
    then ok (c - 71)
    else if leb 48 c && leb c 57
    then ok (c + 4)
    else if c == b'-'
    then ok 62
    else if c == b'_'
    then ok 63
    else err bad_base64

unfoldable pub encode_to_string : Encoding → Bytes → Bytes
unfolding char_of
encode_to_string e [] = []
encode_to_string raw_url_encoding (a ∷ []) = char_of (a / 4) ∷ char_of (a % 4 * 16) ∷ []
encode_to_string url_encoding (a ∷ []) =
    char_of (a / 4) ∷ char_of (a % 4 * 16) ∷ pad_char ∷ pad_char ∷ []
encode_to_string raw_url_encoding (a ∷ b ∷ []) =
    char_of (a / 4) ∷ char_of (a % 4 * 16 + b / 16) ∷ char_of (b % 16 * 4) ∷ []
encode_to_string url_encoding (a ∷ b ∷ []) =
    char_of (a / 4) ∷ char_of (a % 4 * 16 + b / 16) ∷ char_of (b % 16 * 4) ∷ pad_char ∷ []
encode_to_string e (a ∷ b ∷ c ∷ rest) =
    char_of (a / 4)
    ∷ char_of (a % 4 * 16 + b / 16)
    ∷ char_of (b % 16 * 4 + c / 64)
    ∷ char_of (c % 64)
    ∷ encode_to_string e rest

-- Two characters that hold one byte. `Strict` wants the bits that are left over to be 0.
pub decode_two : ℕ → ℕ → Outcome Bytes
unfolding value_of
decode_two x y = do
  v ← value_of x
  w ← value_of y
  if w % 16 == 0 then ok ((v * 4 + w / 16) ∷ []) else err bad_base64

pub decode_three : ℕ → ℕ → ℕ → Outcome Bytes
unfolding value_of
decode_three x y z = do
  v ← value_of x
  w ← value_of y
  u ← value_of z
  if u % 4 == 0 then ok ((v * 4 + w / 16) ∷ (w % 16 * 16 + u / 4) ∷ []) else err bad_base64

pub decode_four : ℕ → ℕ → ℕ → ℕ → Outcome Bytes → Outcome Bytes
unfolding value_of
decode_four x y z w rest = do
  v1 ← value_of x
  v2 ← value_of y
  v3 ← value_of z
  v4 ← value_of w
  more ← rest
  ok ((v1 * 4 + v2 / 16) ∷ (v2 % 16 * 16 + v3 / 4) ∷ (v3 % 4 * 64 + v4) ∷ more)

-- The last four characters, which `=` may fill.
pub decode_last : ℕ → ℕ → ℕ → ℕ → Outcome Bytes
unfolding decode_two decode_three decode_four
decode_last x y z w =
    if w == pad_char
    then (if z == pad_char then decode_two x y else decode_three x y z)
    else decode_four x y z w (ok [])

pub decode_clean : Encoding → Bytes → Outcome Bytes
unfolding decode_two decode_three decode_four decode_last
decode_clean e [] = ok []
decode_clean e (x ∷ []) = err bad_base64
decode_clean raw_url_encoding (x ∷ y ∷ []) = decode_two x y
decode_clean url_encoding (x ∷ y ∷ []) = err bad_base64
decode_clean raw_url_encoding (x ∷ y ∷ z ∷ []) = decode_three x y z
decode_clean url_encoding (x ∷ y ∷ z ∷ []) = err bad_base64
decode_clean raw_url_encoding (x ∷ y ∷ z ∷ w ∷ rest) =
    decode_four x y z w (decode_clean raw_url_encoding rest)
decode_clean url_encoding (x ∷ y ∷ z ∷ w ∷ []) = decode_last x y z w
decode_clean url_encoding (x ∷ y ∷ z ∷ w ∷ a ∷ rest) =
    decode_four x y z w (decode_clean url_encoding (a ∷ rest))

unfoldable pub is_line_break : ℕ → Bool
is_line_break c = c == 10 || c == 13

-- The decoder passes over CR and LF wherever they stand.
unfoldable pub drop_line_breaks : Bytes → Bytes
unfolding is_line_break
drop_line_breaks [] = []
drop_line_breaks (c ∷ rest) =
    let more = drop_line_breaks rest in if is_line_break c then more else c ∷ more

unfoldable pub decode_string : Encoding → Bytes → Outcome Bytes
unfolding decode_clean drop_line_breaks
decode_string e s = decode_clean e (drop_line_breaks s)
