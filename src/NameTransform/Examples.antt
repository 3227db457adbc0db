-- ===== src/NameTransform/Examples.antt =====
-- Runs of the name encryption on small inputs, and concrete instances of its theorems.
use shiroikuma_gcfs.Prelude.{
  ◌≤◌, ◌≡◌, refl, true, false, none, some, [], ◌∷◌, ok, err, ◌>>=◌, arith, zero_padding, dot_name,
  length, replicate, Bytes, bytes_of, bytes_equal, contains_byte,
}
use shiroikuma_gcfs.Samples.{names, plain_eme, plain_eme_lem}
use shiroikuma_gcfs.NameTransform.Pad16.{pad16, un_pad16}
use shiroikuma_gcfs.NameTransform.Valid.{name_max, is_valid_name}
use shiroikuma_gcfs.NameTransform.Base64.{encode_to_string, decode_string}
use shiroikuma_gcfs.NameTransform.Names.{new, encrypt_name, decrypt_name, encrypt_and_hash_name}
use shiroikuma_gcfs.NameTransform.Names.RoundTrip.{
  decrypt_name-encrypt_name, encrypt_name-decrypt_name,
}
use shiroikuma_gcfs.NameTransform.Names.OnDisk.{Stored, encrypt_and_hash_name-Stored}

new_run : new plain_eme true 0 true [] false ≡ names
unfolding new
new_run = refl

abbrev padded_abc : Bytes
padded_abc = 97 ∷ 98 ∷ 99 ∷ replicate 13 13

pad16_run : pad16 (bytes_of "abc") ≡ ok padded_abc
unfolding pad16
pad16_run = refl

un_pad16_run : un_pad16 padded_abc ≡ ok (bytes_of "abc")
unfolding un_pad16
un_pad16_run = refl

un_pad16_rejects : un_pad16 (replicate 16 0) ≡ err zero_padding
unfolding un_pad16
un_pad16_rejects = refl

is_valid_name_rejects : is_valid_name (bytes_of "..") ≡ some dot_name
unfolding is_valid_name contains_byte bytes_equal
is_valid_name_rejects = refl

valid_abc : is_valid_name (bytes_of "abc") ≡ none
unfolding is_valid_name contains_byte bytes_equal
valid_abc = refl

-- The patterns take part in neither direction here.
decrypt_name-encrypt_name_example :
    (encrypt_name names (bytes_of "abc") [] >>= λ c. decrypt_name (λ p s. false) names c [])
    ≡ ok (bytes_of "abc")
decrypt_name-encrypt_name_example =
    decrypt_name-encrypt_name names plain_eme_lem [] (λ p s. false) (bytes_of "abc") valid_abc
      (ground arith)

abbrev text_abc : Bytes
text_abc = bytes_of "YWJjDQ0NDQ0NDQ0NDQ0NDQ"

encrypt_abc : encrypt_name names (bytes_of "abc") [] ≡ ok text_abc
unfolding encrypt_name is_valid_name contains_byte bytes_equal pad16 encode_to_string
encrypt_abc = refl

decrypt_abc : decrypt_name (λ p s. false) names text_abc [] ≡ ok (bytes_of "abc")
unfolding decrypt_name is_valid_name contains_byte bytes_equal decode_string un_pad16
decrypt_abc = refl

encrypt_name-decrypt_name_example :
    (is_valid_name (bytes_of "abc") ≡ none) × (encrypt_name names (bytes_of "abc") [] ≡ ok text_abc)
encrypt_name-decrypt_name_example =
    encrypt_name-decrypt_name names plain_eme_lem [] refl (λ p s. false) text_abc (bytes_of "abc")
      decrypt_abc

-- A stand-in for SHA-256.
abbrev some_hash : Bytes → Bytes
some_hash bin = replicate 32 7

encrypt_and_hash_abc : encrypt_and_hash_name some_hash names (bytes_of "abc") [] ≡ ok text_abc
unfolding encrypt_and_hash_name is_valid_name contains_byte bytes_equal pad16 encode_to_string
encrypt_and_hash_abc = refl

encrypt_and_hash_name_example :
    (length (bytes_of "abc") ≤ name_max)
    × ((cipher : Bytes) × (encrypt_name names (bytes_of "abc") [] ≡ ok cipher)
        × Stored some_hash names cipher text_abc)
encrypt_and_hash_name_example =
    encrypt_and_hash_name-Stored some_hash (λ bin. refl) names (bytes_of "abc") [] text_abc
      encrypt_and_hash_abc
