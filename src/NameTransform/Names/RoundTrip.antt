-- ===== src/NameTransform/Names/RoundTrip.antt =====
-- Encrypting and decrypting names.
use shiroikuma_gcfs.Prelude.{
  ◌%◌, ◌≡◌, ◌≢◌, refl, ap, ◌∙◌, Bool, false, ◌||◌, Option, none, some, [], ◌∷◌, Outcome, ok, err,
  panic, stuck, ◌>>=◌, >>=-eq-ok, past_guard, ebadmsg, arith, length, Bytes, All, IsByte,
  contains_byte, ◌==◌, ◌!=◌, if◌then◌else◌, Error,
}
use shiroikuma_gcfs.NameTransform.Pad16.{block_size, pad16, un_pad16}
use shiroikuma_gcfs.NameTransform.Pad16.RoundTrip.{pad16-un_pad16, length-pad16, pad16_total}
use shiroikuma_gcfs.NameTransform.Valid.{is_valid_name}
use shiroikuma_gcfs.NameTransform.Base64.{encode_to_string, decode_string, is_line_break}
use shiroikuma_gcfs.NameTransform.Base64.RoundTrip.{
  IsClean, encode_to_string-IsClean, decode_string-encode_to_string,
}
use shiroikuma_gcfs.NameTransform.Base64.Canonical.{encode_to_string-decode_string}
use shiroikuma_gcfs.CryptoCore.{IsEme}
use shiroikuma_gcfs.NameTransform.Names.{
  NameTransform, decrypt_name_raw, encrypt_name_raw, encrypt_name, decrypt_name, bad_message,
  or_badname, have_badname_patterns,
}

-- The test on CR and LF is the one that the decoder's laws want.
no_line_break : (s : Bytes) → IsClean s → (contains_byte 13 s || contains_byte 10 s) ≡ false
unfolding contains_byte is_line_break
no_line_break [] h = refl
no_line_break (c ∷ s) h = ground (arith, h.0, no_line_break s h.1)

no_breaks_left : (s : Bytes) → (contains_byte 13 s || contains_byte 10 s) ≡ false → IsClean s
unfolding contains_byte is_line_break
no_breaks_left [] h = tt
no_breaks_left (c ∷ s) h = (ground arith, no_breaks_left s (ground arith))

bad_message-eq-ok : (r : Outcome Bytes) {plain : Bytes} → bad_message r ≡ ok plain → r ≡ ok plain
unfolding bad_message
bad_message-eq-ok (ok p) h = h
bad_message-eq-ok (err x) h = cc
bad_message-eq-ok panic h = cc
bad_message-eq-ok stuck h = cc

ok_inj : {p q : Bytes} → Outcome.ok p ≡ ok q → p ≡ q
ok_inj h = cc h

module _ (n : NameTransform) (e : IsEme n.eme_cipher) (iv : Bytes) where
  open n use {b64, eme_cipher}

  decrypt_name_raw_lem :
      (plain padded : Bytes)
      → pad16 plain ≡ ok padded
      → un_pad16 padded ≡ ok plain
      → All IsByte padded
      → decrypt_name_raw n (encode_to_string b64 (eme_cipher.encrypt iv padded)) iv ≡ ok plain
  unfolding decrypt_name_raw bad_message
  decrypt_name_raw_lem plain padded pads unpads bytes =
      let bin = eme_cipher.encrypt iv padded in
      simp
        (
          no_line_break (encode_to_string b64 bin) (encode_to_string-IsClean b64 bin),
          decode_string-encode_to_string b64 bin (e.encrypt-IsByte iv padded bytes),
          e.decrypt-encrypt,
          e.length-encrypt,
          unpads,
        )
        (ground (arith, length-pad16 plain pads))

  record Decrypted (cipher plain bin : Bytes) : Type 0 where
    clean : (contains_byte 13 cipher || contains_byte 10 cipher) ≡ false
    decodes : decode_string b64 cipher ≡ ok bin
    unpads : un_pad16 (eme_cipher.decrypt iv bin) ≡ ok plain

  decrypt_name_raw-eq-ok :
      (cipher plain : Bytes)
      → decrypt_name_raw n cipher iv ≡ ok plain
      → (bin : Bytes) × Decrypted cipher plain bin
  unfolding decrypt_name_raw
  decrypt_name_raw-eq-ok cipher plain h =
      let (clean, rest) = past_guard (contains_byte 13 cipher || contains_byte 10 cipher) _ _ h in
      let (bin, decodes, guarded) = >>=-eq-ok (decode_string b64 cipher) _ rest in
      (
        bin,
        record {
          clean = clean;
          decodes = decodes;
          unpads = bad_message-eq-ok _ (sized bin guarded);
        },
      )
    where
      sized :
          (bin : Bytes)
          → (if length bin == 0
              then err ebadmsg
              else if length bin % block_size != 0
              then err ebadmsg
              else bad_message (un_pad16 (eme_cipher.decrypt iv bin)))
            ≡ ok plain
          → bad_message (un_pad16 (eme_cipher.decrypt iv bin)) ≡ ok plain
      sized bin h =
          (past_guard (length bin % block_size != 0) _ _ (past_guard (length bin == 0) _ _ h).1).1

  raw_canonical :
      (cipher plain : Bytes)
      → decrypt_name_raw n cipher iv ≡ ok plain
      → encrypt_name_raw n plain iv ≡ ok cipher
  unfolding encrypt_name_raw
  raw_canonical cipher plain h =
      let (bin, d) = decrypt_name_raw-eq-ok cipher plain h in
      let text =
        (encode_to_string-decode_string b64 cipher bin (no_breaks_left cipher d.clean)
          d.decodes).0 in
      rw (pad16-un_pad16 (eme_cipher.decrypt iv bin) plain d.unpads, e.encrypt-decrypt) (ap ok text)

  not_empty : (plain : Bytes) → is_valid_name plain ≡ none → plain ≢ []
  unfolding is_valid_name
  not_empty [] valid h = cc valid
  not_empty (c ∷ rest) valid h = cc h

  validated : Bytes → Outcome Bytes
  validated res = elim (is_valid_name res) [ some e ↦ err ebadmsg | none ↦ ok res ]

  past_validity :
      (o : Option Error) (m : Outcome Bytes)
      → o ≡ none
      → elim o [ some e ↦ err ebadmsg | none ↦ m ] ≡ m
  past_validity none m h = refl
  past_validity (some e) m h = cc h

  decrypt_name_lem :
      (path_match : Bytes → Bytes → Bool) (cipher plain : Bytes) (raw : Outcome Bytes)
      → raw ≡ ok plain
      → is_valid_name plain ≡ none
      → (or_badname path_match n cipher iv raw >>= validated) ≡ ok plain
  unfolding or_badname validated
  decrypt_name_lem path_match cipher plain (ok p) h valid =
      rw (ok_inj h) (past_validity (is_valid_name plain) (ok plain) valid)
  decrypt_name_lem path_match cipher plain (err x) h valid = cc h
  decrypt_name_lem path_match cipher plain panic h valid = cc h
  decrypt_name_lem path_match cipher plain stuck h valid = cc h

  -- When EME is a permutation and IsValidName accepts a name of bytes, EncryptName succeeds on it
  -- and DecryptName with the same initialisation vector gives it back, whichever bad-name patterns
  -- are set.
  pub decrypt_name-encrypt_name :
      (path_match : Bytes → Bytes → Bool) (plain : Bytes)
      → is_valid_name plain ≡ none
      → All IsByte plain
      → (encrypt_name n plain iv >>= λ c. decrypt_name path_match n c iv) ≡ ok plain
  unfolding encrypt_name encrypt_name_raw decrypt_name or_badname validated
  decrypt_name-encrypt_name path_match plain valid bytes =
      let (padded, pads, unpads, bytes') = pad16_total plain (not_empty plain valid) bytes in
      ap (λ m. m >>= λ c. decrypt_name path_match n c iv)
        (past_validity (is_valid_name plain) (encrypt_name_raw n plain iv) valid)
      ∙ rw pads (
          decrypt_name_lem path_match _ plain _
            (decrypt_name_raw_lem plain padded pads unpads bytes') valid)

  or_badname-eq-ok :
      n.badname_patterns ≡ []
      → (path_match : Bytes → Bytes → Bool) (cipher : Bytes) (r : Outcome Bytes) {plain : Bytes}
      → or_badname path_match n cipher iv r ≡ ok plain
      → r ≡ ok plain
  unfolding or_badname have_badname_patterns
  or_badname-eq-ok no_patterns path_match cipher (ok p) h = h
  or_badname-eq-ok no_patterns path_match cipher (err x) h = ground (arith, no_patterns)
  or_badname-eq-ok no_patterns path_match cipher panic h = cc
  or_badname-eq-ok no_patterns path_match cipher stuck h = cc

  -- When EME is a permutation and no bad-name patterns are set, a name on disk that DecryptName
  -- decrypts is EncryptName of the result, which IsValidName accepts.
  pub encrypt_name-decrypt_name :
      n.badname_patterns ≡ []
      → (path_match : Bytes → Bytes → Bool) (cipher plain : Bytes)
      → decrypt_name path_match n cipher iv ≡ ok plain
      → (is_valid_name plain ≡ none) × (encrypt_name n plain iv ≡ ok cipher)
  unfolding encrypt_name decrypt_name
  encrypt_name-decrypt_name no_patterns path_match cipher plain h =
      let (res, decrypted, accepted) =
        >>=-eq-ok (or_badname path_match n cipher iv (decrypt_name_raw n cipher iv)) _ h in
      let (valid, same) = accepts res _ accepted in
      let raw = or_badname-eq-ok no_patterns path_match cipher _ decrypted in
      let valid' : is_valid_name plain ≡ none = rw same at valid in
      (
        valid',
        past_validity (is_valid_name plain) (encrypt_name_raw n plain iv) valid'
            ∙ raw_canonical cipher plain (raw ∙ ap ok same),
      )
    where
      accepts :
          (res : Bytes) (o : Option Error)
          → elim o [ some e ↦ err ebadmsg | none ↦ ok res ] ≡ ok plain
          → (o ≡ none) × (res ≡ plain)
      accepts res none h = (refl, ok_inj h)
      accepts res (some e) h = cc h
