-- ===== src/CryptoCore.antt =====
-- internal/cryptocore: the record that holds the ciphers, and the interface behind which they stand.
pub mod Setup
mod Examples
use shiroikuma_gcfs.Prelude.{
  ℕ, ◌+◌, ◌≡◌, Bool, true, false, Option, some, length, Bytes, All, IsByte,
}

-- Go's `cipher.AEAD`. The ciphers are other libraries' code: `seal nonce plaintext data` is
-- what `Seal` appends to its destination, `open_sealed` what `Open` does, or `none` for its error.
pub record Aead : Type 0 where
  pub nonce_size : ℕ
  pub seal : Bytes → Bytes → Bytes → Bytes
  pub open_sealed : Bytes → Bytes → Bytes → Option Bytes

-- What `cipher.AEAD` documents, for the tag length that every backend of the program has.
pub record IsAead (a : Aead) : Type 0 where
  pub open-seal :
      (nonce plaintext ad : Bytes)
      → a.open_sealed nonce (a.seal nonce plaintext ad) ad ≡ some plaintext
  pub length-seal :
      (nonce plaintext ad : Bytes) → length (a.seal nonce plaintext ad) ≡ length plaintext + 16

abbrev pub key_len : ℕ
key_len = 32

abbrev pub auth_tag_len : ℕ
auth_tag_len = 16

-- `AEADTypeEnum`: the five backends that are declared.
pub data AeadType : Type 0 where
  open_ssl go_gcm aes_siv xchacha20_poly1305 xchacha20_poly1305_open_ssl : AeadType

-- `eme.EMECipher`, by its initialisation vector.
pub record Eme : Type 0 where
  pub encrypt : Bytes → Bytes → Bytes
  pub decrypt : Bytes → Bytes → Bytes

-- EME is a permutation of the byte strings of each length, for every initialisation vector.
pub record IsEme (e : Eme) : Type 0 where
  pub decrypt-encrypt : (iv bin : Bytes) → e.decrypt iv (e.encrypt iv bin) ≡ bin
  pub encrypt-decrypt : (iv bin : Bytes) → e.encrypt iv (e.decrypt iv bin) ≡ bin
  pub length-encrypt : (iv bin : Bytes) → length (e.encrypt iv bin) ≡ length bin
  pub encrypt-IsByte : (iv bin : Bytes) → All IsByte bin → All IsByte (e.encrypt iv bin)

-- `IVGenerator` draws nonces of `iv_len` bytes, which the callers pass in.
pub record CryptoCore : Type 0 where
  pub eme_cipher : Eme
  pub aead_cipher : Aead
  pub aead_backend : AeadType
  pub iv_len : ℕ

abbrev pub is_aes_siv : AeadType → Bool
is_aes_siv aes_siv = true
is_aes_siv _ = false

-- `NonceSize` of the backends
abbrev pub nonce_size_of : AeadType → ℕ
nonce_size_of xchacha20_poly1305 = 24
nonce_size_of xchacha20_poly1305_open_ssl = 24
nonce_size_of _ = 16
