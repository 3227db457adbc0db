-- ===== src/NameTransform/Names.antt =====
-- internal/nametransform/names.go and badname.go: file names on disk. The wide-block cipher EME is
-- another library's code, and so are SHA-256 and the pattern matcher of `filepath.Match`.
pub mod RoundTrip
pub mod OnDisk
use shiroikuma_gcfs.Prelude.{
  ℕ, zero, suc, ◌+◌, ◌-◌, ◌%◌, ◌^◌, ◌≡◌, Bool, true, false, not, ◌||◌, ◌&&◌, Option, none, some,
  List, [], ◌∷◌, ◌++◌, Outcome, ok, err, panic, stuck, ◌>>=◌, ebadmsg, enametoolong, enoent,
  line_break, ltb, leb, ◌==◌, ◌!=◌, if◌then◌else◌, length, take, drop, Bytes, bytes_of,
  contains_byte, has_suffix,
}
use shiroikuma_gcfs.CryptoCore.{Eme}
use shiroikuma_gcfs.NameTransform.Pad16.{block_size, pad16, un_pad16}
use shiroikuma_gcfs.NameTransform.Valid.{name_max, is_valid_name}
use shiroikuma_gcfs.NameTransform.Base64.{
  Encoding, url_encoding, raw_url_encoding, encode_to_string, decode_string,
}
use shiroikuma_gcfs.NameTransform.LongNames.{hash_long_name}

pub record NameTransform : Type 0 where
  pub eme_cipher : Eme
  pub long_name_max : ℕ
  pub b64 : Encoding
  pub badname_patterns : List Bytes
  pub deterministic_names : Bool

-- `math.MaxInt32` switches long names off.
unfoldable pub new : Eme → Bool → ℕ → Bool → List Bytes → Bool → NameTransform
new e long_names long_name_max raw64 badname deterministic_names = record {
  eme_cipher = e;
  long_name_max =
      if long_names then (if long_name_max == 0 then name_max else long_name_max) else 2 ^ 31 - 1;
  b64 = if raw64 then raw_url_encoding else url_encoding;
  badname_patterns = badname;
  deterministic_names = deterministic_names;
}

-- An error of `unPad16` becomes EBADMSG.
bad_message : Outcome Bytes → Outcome Bytes
bad_message (ok plain) = ok plain
bad_message (err e) = err ebadmsg
bad_message panic = panic
bad_message stuck = stuck

-- `decryptName`
unfoldable pub decrypt_name_raw : NameTransform → Bytes → Bytes → Outcome Bytes
unfolding bad_message
decrypt_name_raw n cipher_name iv =
    if contains_byte 13 cipher_name || contains_byte 10 cipher_name then err line_break else do
      bin ← decode_string n.b64 cipher_name
      if length bin == 0
          then err ebadmsg
          else if length bin % block_size != 0
          then err ebadmsg
          else bad_message (un_pad16 (n.eme_cipher.decrypt iv bin))

-- `encryptName`
unfoldable pub encrypt_name_raw : NameTransform → Bytes → Bytes → Outcome Bytes
encrypt_name_raw n plain_name iv = do
  bin ← pad16 plain_name
  ok (encode_to_string n.b64 (n.eme_cipher.encrypt iv bin))

unfoldable pub encrypt_name : NameTransform → Bytes → Bytes → Outcome Bytes
unfolding encrypt_name_raw
encrypt_name n plain_name iv = elim (is_valid_name plain_name) [
  | some e ↦ err ebadmsg
  | none ↦ encrypt_name_raw n plain_name iv
]

unfoldable pub encrypt_and_hash_name :
    (Bytes → Bytes) → NameTransform → Bytes → Bytes → Outcome Bytes
unfolding encrypt_name
encrypt_and_hash_name sha256 be name iv =
    if ltb name_max (length name) then err enametoolong else do
      c_name ← encrypt_name be name iv
      if ltb be.long_name_max (length c_name)
          then ok (hash_long_name sha256 be.b64 c_name)
          else ok c_name

abbrev pub badname_suffix : Bytes
badname_suffix = bytes_of " GOCRYPTFS_BAD_NAME"

unfoldable pub have_badname_patterns : NameTransform → Bool
have_badname_patterns n = ltb 0 (length n.badname_patterns)

-- `B64.EncodedLen(aes.BlockSize)`
abbrev pub name_min : Encoding → ℕ
name_min url_encoding = 24
name_min raw_url_encoding = 22

-- A prefix that decrypts ends the search, and so does a panic.
prefix_or : Outcome Bytes → Bytes → Outcome Bytes → Outcome Bytes
prefix_or (ok res) rest next = ok (res ++ (rest ++ badname_suffix))
prefix_or (err e) rest next = next
prefix_or panic rest next = panic
prefix_or stuck rest next = stuck

-- The loop over `charpos`, downwards: the longest prefix that decrypts.
longest_prefix : NameTransform → Bytes → Bytes → ℕ → Outcome Bytes
unfolding decrypt_name_raw prefix_or
longest_prefix n cipher_name iv zero = ok (cipher_name ++ badname_suffix)
longest_prefix n cipher_name iv (suc c) =
    let next = longest_prefix n cipher_name iv c in
    if ltb (suc c) (name_min n.b64)
    then ok (cipher_name ++ badname_suffix)
    else prefix_or (decrypt_name_raw n (take (suc c) cipher_name) iv) (drop (suc c) cipher_name)
        next

-- `path_match pattern name` is the match of `filepath.Match`, and false on its error. The code
-- runs the search on the first pattern that matches.
badname_from : (Bytes → Bytes → Bool) → NameTransform → List Bytes → Bytes → Bytes → Outcome Bytes
unfolding longest_prefix
badname_from path_match n [] cipher_name iv = err ebadmsg
badname_from path_match n (pattern_ ∷ rest) cipher_name iv =
    if path_match pattern_ cipher_name
    then longest_prefix n cipher_name iv (length cipher_name - 1)
    else badname_from path_match n rest cipher_name iv

unfoldable pub decrypt_badname :
    (Bytes → Bytes → Bool) → NameTransform → Bytes → Bytes → Outcome Bytes
unfolding badname_from
decrypt_badname path_match n cipher_name iv =
    badname_from path_match n n.badname_patterns cipher_name iv

-- `DecryptName` behind its first call: another try on an error, if there are patterns.
or_badname : (Bytes → Bytes → Bool) → NameTransform → Bytes → Bytes → Outcome Bytes → Outcome Bytes
unfolding decrypt_badname have_badname_patterns
or_badname path_match n cipher_name iv (err e) =
    if have_badname_patterns n then decrypt_badname path_match n cipher_name iv else err e
or_badname path_match n cipher_name iv r = r

unfoldable pub decrypt_name : (Bytes → Bytes → Bool) → NameTransform → Bytes → Bytes → Outcome Bytes
unfolding or_badname decrypt_name_raw
decrypt_name path_match n cipher_name iv = do
  res ← or_badname path_match n cipher_name iv (decrypt_name_raw n cipher_name iv)
  elim (is_valid_name res) [ some e ↦ err ebadmsg | none ↦ ok res ]

-- The loop of `EncryptAndHashBadName` over `charpos`, downwards, with the count and the name that it
-- has found. `exists` is an `Fstatat` that succeeds. The test on the length of `cName` is on the
-- function's result, which is still empty.
bad_name_search :
    (Bytes → Bytes)
    → (Bytes → Bool)
    → NameTransform
    → Bytes
    → Bytes
    → ℕ
    → ℕ
    → Bytes
    → Outcome (ℕ × Bytes)
unfolding encrypt_name
bad_name_search sha256 exists be name iv zero files_found last_found_name =
    ok (files_found, last_found_name)
bad_name_search sha256 exists be name iv (suc c) files_found last_found_name =
    elim (encrypt_name be (take (suc c) name) iv) [
      | ok part ↦
          let c_name : Bytes = [] in
          let c_name_part =
            if ltb be.long_name_max (length c_name)
            then hash_long_name sha256 be.b64 c_name
            else part in
          let stem = take (length name - length badname_suffix) name in
          let c_name_bad_reverse = c_name_part ++ drop (suc c) stem in
          let found =
            bad_name_search sha256 exists be name iv c (files_found + 1) c_name_bad_reverse in
          let not_found = bad_name_search sha256 exists be name iv c files_found last_found_name in
          if exists c_name_bad_reverse then found else not_found
      | err e ↦ bad_name_search sha256 exists be name iv c files_found last_found_name
      | panic ↦ panic
      | stuck ↦ stuck
    ]

-- `EncryptAndHashBadName` behind its first test, for a name with the suffix.
search_bad_name :
    (Bytes → Bytes) → (Bytes → Bool) → NameTransform → Bytes → Bytes → Bytes → Outcome Bytes
unfolding bad_name_search
search_bad_name sha256 exists be name iv last_found_name =
    let stem = take (length name - length badname_suffix) name in
    if exists last_found_name then ok last_found_name else do
      (found, last) ←
          bad_name_search sha256 exists be name iv (length name - length badname_suffix)
            (if exists stem then 1 else 0) (if exists stem then stem else last_found_name)
      if found == 1 then ok last else err enoent

unfoldable pub encrypt_and_hash_bad_name :
    (Bytes → Bytes) → (Bytes → Bool) → NameTransform → Bytes → Bytes → Outcome Bytes
unfolding search_bad_name encrypt_and_hash_name
encrypt_and_hash_bad_name sha256 exists be name iv = do
  last_found_name ← encrypt_and_hash_name sha256 be name iv
  if has_suffix name badname_suffix
      then search_bad_name sha256 exists be name iv last_found_name
      else ok last_found_name
