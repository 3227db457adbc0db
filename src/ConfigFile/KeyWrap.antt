-- ===== src/ConfigFile/KeyWrap.antt =====
-- internal/configfile/config_file.go: how the master key is encrypted with the password. Wiping of keys
-- is not modelled.
pub mod RoundTrip
use shiroikuma_gcfs.Prelude.{
  ℕ, ◌<◌, Bool, true, false, Option, none, some, Outcome, ok, err, panic, stuck, ◌>>=◌,
  password_incorrect, ltb, leb, if◌then◌else◌, length, Bytes, [],
}
use shiroikuma_gcfs.CryptoCore.{go_gcm}
use shiroikuma_gcfs.CryptoCore.Setup as Core
use shiroikuma_gcfs.CryptoCore.Setup.{Ciphers}
use shiroikuma_gcfs.ContentEnc.Blocks as Content
use shiroikuma_gcfs.ContentEnc.Blocks.{ContentEnc, encrypt_block, decrypt_block}
use shiroikuma_gcfs.ConfigFile.Flags.{hkdf_flag, is_feature_flag_set}
use shiroikuma_gcfs.ConfigFile.Scrypt.{ScryptKdf, new_scrypt_kdf, derive_key}
use shiroikuma_gcfs.ConfigFile.Settings.{ConfFile, CreateArgs, create_settings, validate}

-- `scrypt.Key`
abbrev pub Scrypt : Type 0
Scrypt = Bytes → Bytes → ℕ → ℕ → ℕ → ℕ → Option Bytes

unfoldable pub get_key_encrypter : Ciphers → Bytes → Bool → Outcome ContentEnc
unfolding Core.new Content.new
get_key_encrypter c scrypt_hash use_hkdf = do
  cc ← Core.new c scrypt_hash go_gcm (if use_hkdf then 128 else 96) use_hkdf
  Content.new cc 4096

-- Every error of `DecryptBlock` is "Password incorrect."
pub incorrect : Outcome Bytes → Outcome Bytes
incorrect (ok masterkey) = ok masterkey
incorrect (err e) = err password_incorrect
incorrect panic = panic
incorrect stuck = stuck

unfoldable pub decrypt_master_key_with_scrypt_hash : Ciphers → ConfFile → Bytes → Outcome Bytes
unfolding get_key_encrypter decrypt_block incorrect
decrypt_master_key_with_scrypt_hash c cf scrypt_hash = do
  ce ← get_key_encrypter c scrypt_hash (is_feature_flag_set cf.feature_flags hkdf_flag)
  incorrect (decrypt_block ce cf.encrypted_key 0 none)

-- The master key or its error, and beside it the hash if `give_hash` asks for it.
unfoldable pub decrypt_master_key :
    Ciphers → Scrypt → ConfFile → Bytes → Bool → Outcome (Outcome Bytes × Option Bytes)
unfolding derive_key decrypt_master_key_with_scrypt_hash
decrypt_master_key c scrypt cf password give_hash = do
  scrypt_hash ← derive_key scrypt cf.scrypt_object password
  ok (
    decrypt_master_key_with_scrypt_hash c cf scrypt_hash,
    if give_hash then some scrypt_hash else none,
  )

-- `random` is the new salt and `nonce` the nonce of the block. The result is the changed configuration,
-- and the hash if `give_hash` asks for it.
unfoldable pub encrypt_key :
    Ciphers
    → Scrypt
    → Bytes
    → Bytes
    → ConfFile
    → Bytes
    → Bytes
    → ℕ
    → Bool
    → Outcome (ConfFile × Option Bytes)
unfolding derive_key get_key_encrypter encrypt_block new_scrypt_kdf
encrypt_key c scrypt random nonce cf key password log_n give_hash = do
  let scrypt_object = new_scrypt_kdf random log_n
  scrypt_hash ← derive_key scrypt scrypt_object password
  ce ← get_key_encrypter c scrypt_hash (is_feature_flag_set cf.feature_flags hkdf_flag)
  encrypted_key ← encrypt_block ce key 0 none nonce
  ok (
    record {
      creator = cf.creator;
      encrypted_key = encrypted_key;
      scrypt_object = scrypt_object;
      version = cf.version;
      feature_flags = cf.feature_flags;
      fido2 = cf.fido2;
      long_name_max = cf.long_name_max;
      filename = cf.filename;
    },
    if give_hash then some scrypt_hash else none,
  )

-- Whether a buffer has room for the hash that is copied into it.
abbrev pub has_room_for : ℕ → Option Bytes → Bool
has_room_for buffer_len none = true
has_room_for buffer_len (some scrypt_hash) = leb (length scrypt_hash) buffer_len

-- With a hash, no password is read; without one, the hash is copied to the caller's buffer, if it is
-- not empty, before the error is looked at. The copy panics where the buffer is too short.
unfoldable pub get_masterkey :
    Ciphers → Scrypt → ConfFile → Bytes → Bytes → ℕ → Outcome (Bytes × Option Bytes)
unfolding decrypt_master_key decrypt_master_key_with_scrypt_hash
get_masterkey c scrypt cf password given_scrypt_hash buffer_len =
    if ltb 0 (length given_scrypt_hash)
    then (decrypt_master_key_with_scrypt_hash c cf given_scrypt_hash >>= λ masterkey.
        ok (masterkey, none))
    else do
      (masterkey, scrypt_hash) ← decrypt_master_key c scrypt cf password (ltb 0 buffer_len)
      if has_room_for buffer_len scrypt_hash
          then (masterkey >>= λ key. ok (key, scrypt_hash))
          else panic

-- `Create` up to the writing of the file: the configuration that `WriteFile` writes, and the hash.
-- `fresh_key` is the random master key for when the caller gives none; `salt` and `random` are those of
-- the two calls of `NewScryptKDF`.
unfoldable pub create :
    Ciphers
    → Scrypt
    → Bytes
    → Bytes
    → Bytes
    → Bytes
    → CreateArgs
    → ℕ
    → Outcome (ConfFile × Option Bytes)
unfolding create_settings validate encrypt_key
create c scrypt salt random nonce fresh_key args buffer_len =
    let settings = create_settings args salt in
    let key : Bytes = elim args.masterkey [ some given ↦ given | none ↦ fresh_key ] in
    elim (validate settings) [
      | some e ↦ err e
      | none ↦ do
        (cf, scrypt_hash) ←
            encrypt_key c scrypt random nonce settings key args.password args.log_n
              (ltb 0 buffer_len)
        if has_room_for buffer_len scrypt_hash
            then elim (validate cf) [ some e ↦ err e | none ↦ ok (cf, scrypt_hash) ]
            else panic
    ]
