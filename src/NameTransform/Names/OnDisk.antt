-- ===== src/NameTransform/Names/OnDisk.antt =====
-- What `EncryptAndHashName` puts on disk.
use shiroikuma_gcfs.Prelude.{
  ◌≤◌, ◌<◌, ◌≡◌, inl, inr, Option, none, some, Outcome, ok, err, >>=-eq-ok, Error, ebadmsg,
  enametoolong, arith, ltb, if◌then◌else◌, length, Bytes, past_guard, Bool-cases, ltb→lt, ap, ◌∙◌,
}
use shiroikuma_gcfs.NameTransform.Pad16.{pad16}
use shiroikuma_gcfs.NameTransform.Valid.{name_max, is_valid_name}
use shiroikuma_gcfs.NameTransform.LongNames.{
  long_name_content, long_name_none, name_type, hash_long_name,
}
use shiroikuma_gcfs.NameTransform.LongNames.Kinds.{
  name_type-encode_to_string, name_type-hash_long_name, length-hash_long_name,
}
use shiroikuma_gcfs.NameTransform.Names.{
  NameTransform, encrypt_name, encrypt_name_raw, encrypt_and_hash_name,
}

-- A name on disk is short and has no long-name prefix, or it is the hash of a name that is too long.
pub data Stored (sha256 : Bytes → Bytes) (n : NameTransform) (cipher c : Bytes) : Type 0 where
  short_name :
      length cipher ≤ n.long_name_max
      → c ≡ cipher
      → name_type c ≡ long_name_none
      → Stored sha256 n cipher c
  hashed_name :
      n.long_name_max < length cipher
      → c ≡ hash_long_name sha256 n.b64 cipher
      → name_type c ≡ long_name_content
      → length c ≤ 64
      → Stored sha256 n cipher c

accepted :
    (o : Option Error) (m : Outcome Bytes) {c : Bytes}
    → elim o [ some e ↦ err ebadmsg | none ↦ m ] ≡ ok c
    → m ≡ ok c
accepted none m h = h
accepted (some e) m h = cc h

name_type-encrypt_name :
    (n : NameTransform) (name iv cipher : Bytes)
    → encrypt_name n name iv ≡ ok cipher
    → name_type cipher ≡ long_name_none
unfolding encrypt_name encrypt_name_raw
name_type-encrypt_name n name iv cipher h =
    let raw = accepted (is_valid_name name) (encrypt_name_raw n name iv) h in
    let (bin, pads, text) = >>=-eq-ok (pad16 name) _ raw in
    let e = name_type-encode_to_string n.b64 (n.eme_cipher.encrypt iv bin) in
    ground (arith, text, e)

module _ (sha256 : Bytes → Bytes) (size : (bin : Bytes) → length (sha256 bin) ≡ 32)
    (n : NameTransform) where
  stored :
      (cipher c : Bytes)
      → name_type cipher ≡ long_name_none
      → (if ltb n.long_name_max (length cipher)
          then ok (hash_long_name sha256 n.b64 cipher)
          else ok cipher)
        ≡ ok c
      → Stored sha256 n cipher c
  stored cipher c plain h = elim (Bool-cases (ltb n.long_name_max (length cipher))) [
    | inl long ↦
        let e : c ≡ hash_long_name sha256 n.b64 cipher = ground (arith, long, h) in
        hashed_name (ltb→lt _ _ long) e
          (ap name_type e ∙ name_type-hash_long_name sha256 size n.b64 cipher)
          (omega (arith, ap length e, length-hash_long_name sha256 size n.b64 cipher))
    | inr fits ↦
        let e : c ≡ cipher = ground (arith, fits, h) in
        short_name (ground (arith, fits)) e (ap name_type e ∙ plain)
  ]

  -- When EncryptAndHashName succeeds, the name has at most 255 bytes, EncryptName succeeds on it,
  -- and the result is either the encrypted name, within the limit and no long name to NameType, or,
  -- beyond the limit, its hash of at most 64 bytes, which NameType takes for the content of a long
  -- name; SHA-256 is any function with results of 32 bytes.
  pub encrypt_and_hash_name-Stored :
      (name iv c : Bytes)
      → encrypt_and_hash_name sha256 n name iv ≡ ok c
      → (length name ≤ name_max)
        × ((cipher : Bytes) × (encrypt_name n name iv ≡ ok cipher) × Stored sha256 n cipher c)
  unfolding encrypt_and_hash_name
  encrypt_and_hash_name-Stored name iv c h =
      let (short, rest) = past_guard (ltb name_max (length name)) enametoolong _ h in
      let (cipher, encrypted, result) = >>=-eq-ok (encrypt_name n name iv) _ rest in
      (
        ground (arith, short),
        (
          cipher,
          encrypted,
          stored cipher c (name_type-encrypt_name n name iv cipher encrypted) result,
        ),
      )
