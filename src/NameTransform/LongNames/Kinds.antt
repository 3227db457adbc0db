-- ===== src/NameTransform/LongNames/Kinds.antt =====
-- The kinds of names on disk, and the characters that tell them apart.
use shiroikuma_gcfs.Prelude.{
  ℕ, suc, zero, ◌+◌, ◌-◌, ◌*◌, ◌≤◌, ◌≡◌, refl, sym, ap, ◌∙◌, Bool, true, false, inl, inr, [], ◌∷◌,
  ◌++◌, ok, arith, ◌==◌, if◌then◌else◌, length, take, drop, take-append_length, drop-append_length,
  length-append, drop-drop, Bytes, bytes_equal, bytes_equal_iff, contains_byte, has_prefix,
  has_suffix, Bool-cases,
}
use shiroikuma_gcfs.NameTransform.Base64.{
  Encoding, url_encoding, raw_url_encoding, encode_to_string, char_of,
}
use shiroikuma_gcfs.NameTransform.LongNames.{
  long_name_content, long_name_filename, long_name_none, long_name_prefix, long_name_suffix,
  hash_long_name, name_type, remove_long_name_suffix,
}

char_of_lem : (v : ℕ) → (char_of v == 46) ≡ false
unfolding char_of
char_of_lem v = ground arith

contains_byte-encode_to_string :
    (e : Encoding) (bin : Bytes) → contains_byte 46 (encode_to_string e bin) ≡ false
unfolding contains_byte encode_to_string
contains_byte-encode_to_string e [] = refl
contains_byte-encode_to_string raw_url_encoding (a ∷ []) = simp char_of_lem refl
contains_byte-encode_to_string url_encoding (a ∷ []) = simp char_of_lem refl
contains_byte-encode_to_string raw_url_encoding (a ∷ b ∷ []) = simp char_of_lem refl
contains_byte-encode_to_string url_encoding (a ∷ b ∷ []) = simp char_of_lem refl
contains_byte-encode_to_string e (a ∷ b ∷ c ∷ rest) =
    simp char_of_lem (contains_byte-encode_to_string e rest)

contains_byte-take :
    (b n : ℕ) (s : Bytes) → contains_byte b s ≡ false → contains_byte b (take n s) ≡ false
unfolding contains_byte
contains_byte-take b zero s h = refl
contains_byte-take b (suc n) [] h = refl
contains_byte-take b (suc n) (c ∷ s) h = ground (arith, contains_byte-take b n s)

contains_byte-drop :
    (b n : ℕ) (s : Bytes) → contains_byte b s ≡ false → contains_byte b (drop n s) ≡ false
unfolding contains_byte
contains_byte-drop b zero s h = h
contains_byte-drop b (suc n) [] h = refl
contains_byte-drop b (suc n) (c ∷ s) h = contains_byte-drop b n s (ground arith)

bytes_equal-dot :
    (s t : Bytes) → contains_byte 46 s ≡ false → contains_byte 46 t ≡ true → bytes_equal s t ≡ false
bytes_equal-dot s t h h' = elim (Bool-cases (bytes_equal s t)) [
  | inl same ↦ absurd (let e = (bytes_equal_iff s t).0 same in cc)
  | inr other ↦ other
]

length-encode_to_string :
    (e : Encoding) (bin : Bytes)
    → (4 * length bin ≤ 3 * length (encode_to_string e bin))
      × (3 * length (encode_to_string e bin) ≤ 4 * length bin + 8)
unfolding encode_to_string
length-encode_to_string e [] = omega arith
length-encode_to_string raw_url_encoding (a ∷ []) = omega arith
length-encode_to_string url_encoding (a ∷ []) = omega arith
length-encode_to_string raw_url_encoding (a ∷ b ∷ []) = omega arith
length-encode_to_string url_encoding (a ∷ b ∷ []) = omega arith
length-encode_to_string e (a ∷ b ∷ c ∷ rest) = omega (arith, length-encode_to_string e rest)

-- A name that is only encoded is no long name, whatever bytes it encodes.
pub name_type-encode_to_string :
    (e : Encoding) (bin : Bytes) → name_type (encode_to_string e bin) ≡ long_name_none
unfolding name_type has_prefix
name_type-encode_to_string e bin =
    rw
      (bytes_equal-dot (take 19 (encode_to_string e bin)) long_name_prefix
        (contains_byte-take 46 19 _ (contains_byte-encode_to_string e bin))
        (unfold contains_byte in refl))
      refl

has_prefix-append : (p s : Bytes) → has_prefix (p ++ s) p ≡ true
unfolding has_prefix
has_prefix-append p s = (bytes_equal_iff (take (length p) (p ++ s)) p).1 (take-append_length p s)

has_suffix-append : (s t : Bytes) → has_suffix (s ++ t) t ≡ true
unfolding has_suffix
has_suffix-append s t =
    let e : drop (length (s ++ t) - length t) (s ++ t) ≡ t =
      ap (λ k. drop k (s ++ t)) (omega (arith, length-append s t)) ∙ drop-append_length s t in
    let same = (bytes_equal_iff (drop (length (s ++ t) - length t) (s ++ t)) t).1 e in
    ground (arith, length-append s t, same)

-- A tail that is long enough and holds no dot hides a suffix with a dot.
has_suffix-dot :
    (s t suffix : Bytes)
    → length suffix ≤ length t
    → contains_byte 46 t ≡ false
    → contains_byte 46 suffix ≡ true
    → has_suffix (s ++ t) suffix ≡ false
unfolding has_suffix
has_suffix-dot s t suffix long h h' =
    let e : drop (length (s ++ t) - length suffix) (s ++ t) ≡ drop (length t - length suffix) t =
      ap (λ k. drop k (s ++ t)) (omega (arith, length-append s t))
      ∙ sym (drop-drop (length s) (length t - length suffix) (s ++ t))
      ∙ ap (drop (length t - length suffix)) (drop-append_length s t) in
    let other =
      bytes_equal-dot (drop (length t - length suffix) t) suffix (contains_byte-drop 46 _ t h) h' in
    rw e (rw other (ground arith))

kind_of :
    (p q b : Bool)
    → p ≡ true
    → q ≡ b
    → (if p then (if q then long_name_filename else long_name_content) else long_name_none)
      ≡ (if b then long_name_filename else long_name_content)
kind_of true q b h e = ap (λ x. if x then long_name_filename else long_name_content) e
kind_of false q b h e = cc h

name_type_lem :
    (s : Bytes) (b : Bool)
    → has_prefix s long_name_prefix ≡ true
    → has_suffix s long_name_suffix ≡ b
    → name_type s ≡ (if b then long_name_filename else long_name_content)
unfolding name_type
name_type_lem s b h e =
    kind_of (has_prefix s long_name_prefix) (has_suffix s long_name_suffix) b h e

remove_long_name_suffix-append :
    (s : Bytes) → remove_long_name_suffix (s ++ long_name_suffix) ≡ ok s
unfolding remove_long_name_suffix
remove_long_name_suffix-append s =
    let e : take (length (s ++ long_name_suffix) - 5) (s ++ long_name_suffix) ≡ s =
      ap (λ k. take k (s ++ long_name_suffix)) (omega (arith, length-append s long_name_suffix))
      ∙ take-append_length s long_name_suffix in
    rw e (ground (arith, length-append s long_name_suffix))

module _ (sha256 : Bytes → Bytes) (size : (bin : Bytes) → length (sha256 bin) ≡ 32) (e : Encoding)
    (name : Bytes) where
  pub length-hash_long_name : length (hash_long_name sha256 e name) ≤ 64
  unfolding hash_long_name
  length-hash_long_name = omega (
    arith,
    length-append long_name_prefix (encode_to_string e (sha256 name)),
    length-encode_to_string e (sha256 name),
    size name,
  )

  pub name_type-hash_long_name : name_type (hash_long_name sha256 e name) ≡ long_name_content
  unfolding hash_long_name
  name_type-hash_long_name =
      let tail = encode_to_string e (sha256 name) in
      name_type_lem (long_name_prefix ++ tail) false (has_prefix-append long_name_prefix tail) (
        has_suffix-dot long_name_prefix tail long_name_suffix
          (omega (arith, size name, length-encode_to_string e (sha256 name)))
          (contains_byte-encode_to_string e (sha256 name)) (unfold contains_byte in refl))

  -- With SHA-256 any function with results of 32 bytes, NameType takes a hashed name with the
  -- suffix .name for the file that holds the full name, and RemoveLongNameSuffix gives the hashed
  -- name back.
  pub name_type-long_name_suffix :
      (name_type (hash_long_name sha256 e name ++ long_name_suffix) ≡ long_name_filename)
      × (remove_long_name_suffix (hash_long_name sha256 e name ++ long_name_suffix)
          ≡ ok (hash_long_name sha256 e name))
  unfolding hash_long_name
  name_type-long_name_suffix = (
    name_type_lem _ true
        (has_prefix-append long_name_prefix (encode_to_string e (sha256 name) ++ long_name_suffix))
        (has_suffix-append (hash_long_name sha256 e name) long_name_suffix),
    remove_long_name_suffix-append (hash_long_name sha256 e name),
  )
