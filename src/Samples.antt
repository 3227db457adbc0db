-- ===== src/Samples.antt =====
-- Ciphers that hide nothing, for the runs and instances of the other modules.
use shiroikuma_gcfs.Prelude.{
  ℕ, ◌+◌, ◌*◌, ok, ◌-◌, ◌≡◌, refl, true, false, [], Option, none, some, ◌++◌, arith, if◌then◌else◌,
  length, take, drop, replicate, length-append, length-take, take-append_length, drop-append_length,
  Bytes, bytes_equal, bytes_equal_iff,
}
use shiroikuma_gcfs.ContentEnc.Blocks.{ContentEnc, IsContentEnc, new}
use shiroikuma_gcfs.ContentEnc.Blocks.RoundTrip.{IsNonce}
use shiroikuma_gcfs.CryptoCore.{CryptoCore, go_gcm, Aead, IsAead, Eme, IsEme}
use shiroikuma_gcfs.FileOps.Actions.{Env}
use shiroikuma_gcfs.FileOps.Backed.{IsEnv}
use shiroikuma_gcfs.NameTransform.Base64.{raw_url_encoding}
use shiroikuma_gcfs.NameTransform.Names.{NameTransform}
use shiroikuma_gcfs.CryptoCore.Setup.{Ciphers, HasNonceSizes}

-- A wide-block cipher that hides nothing.
abbrev pub plain_eme : Eme
plain_eme = record { encrypt = λ iv bin. bin; decrypt = λ iv bin. bin }

pub plain_eme_lem : IsEme plain_eme
plain_eme_lem = record {
  decrypt-encrypt = λ iv bin. refl;
  encrypt-decrypt = λ iv bin. refl;
  length-encrypt = λ iv bin. refl;
  encrypt-IsByte = λ iv bin h. h;
}

-- A cipher that hides nothing, with the associated data as its tag.
unfoldable pub tag : Bytes → Bytes
tag ad = take 16 (ad ++ replicate 16 0)

length-tag : (ad : Bytes) → length (tag ad) ≡ 16
unfolding tag
length-tag ad =
    omega (arith, length-take 16 (ad ++ replicate 16 0), length-append ad (replicate 16 0))

unfoldable pub open_checked : Bytes → Bytes → Option Bytes
unfolding tag
open_checked c ad =
    if bytes_equal (drop (length c - 16) c) (tag ad) then some (take (length c - 16) c) else none

abbrev pub plain_aead : ℕ → Aead
plain_aead size = record {
  nonce_size = size;
  seal = λ nonce p ad. p ++ tag ad;
  open_sealed = λ nonce c ad. open_checked c ad;
}

open_checked_lem : (p ad : Bytes) → open_checked (p ++ tag ad) ad ≡ some p
unfolding open_checked
open_checked_lem p ad =
    let size : length (p ++ tag ad) - 16 ≡ length p =
      omega (arith, length-append p (tag ad), length-tag ad) in
    rw size (simp (drop-append_length p (tag ad), take-append_length p (tag ad), same) refl)
  where
    same : bytes_equal (tag ad) (tag ad) ≡ true
    same = (bytes_equal_iff (tag ad) (tag ad)).1 refl

pub plain_aead_lem : (size : ℕ) → IsAead (plain_aead size)
plain_aead_lem size = record {
  open-seal = λ nonce p ad. open_checked_lem p ad;
  length-seal = λ nonce p ad. omega (arith, length-append p (tag ad), length-tag ad);
}

-- Keys derive by repetition.
abbrev pub plain_ciphers : Ciphers
plain_ciphers = record {
  eme = λ key. plain_eme;
  aes_gcm = λ key size. plain_aead size;
  open_ssl_gcm = λ key. plain_aead 16;
  siv = λ key. plain_aead 16;
  xchacha = λ key. plain_aead 24;
  open_ssl_xchacha = λ key. plain_aead 24;
  hkdf = λ key info n. replicate n 5;
  sha512 = λ key. replicate 64 6;
}

pub plain_ciphers_lem : HasNonceSizes plain_ciphers
plain_ciphers_lem = record {
  aes_gcm_nonce = λ key size. refl;
  open_ssl_gcm_nonce = λ key. refl;
  siv_nonce = λ key. refl;
  xchacha_nonce = λ key. refl;
  open_ssl_xchacha_nonce = λ key. refl;
}

abbrev pub plain_core : CryptoCore
plain_core = record {
  eme_cipher = plain_eme;
  aead_cipher = plain_aead 16;
  aead_backend = go_gcm;
  iv_len = 16;
}

-- Blocks of 4 bytes, for runs; `New` takes any size that divides 131072.
abbrev pub small_enc : ContentEnc
small_enc = record {
  crypto_core = plain_core;
  geometry = record { plain_bs = 4; cipher_bs = 36 };
  all_zero_block = replicate 36 0;
  all_zero_nonce = replicate 16 0;
  c_req_size = 32768 * 36 + 36;
  p_req_size = 131072 + 4;
}

pub small_enc_made : new plain_core 4 ≡ ok small_enc
unfolding new
small_enc_made = refl

pub small_enc_lem : IsContentEnc small_enc
small_enc_lem = record {
  has_room = omega arith;
  has_nonce = omega arith;
  cipher_size = refl;
  fits = omega arith;
  zero_block = refl;
  zero_nonce = refl;
}

abbrev pub some_nonce : Bytes
some_nonce = replicate 16 1

pub some_nonce_lem : IsNonce small_enc some_nonce
some_nonce_lem = record { sized = refl; random = λ e. cc }

-- Long names, and base64 with no padding.
abbrev pub names : NameTransform
names = record {
  eme_cipher = plain_eme;
  long_name_max = 255;
  b64 = raw_url_encoding;
  badname_patterns = [];
  deterministic_names = false;
}

abbrev pub some_id : Bytes
some_id = replicate 16 7

-- Blocks of 4 bytes, and no call that fails.
abbrev pub some_env : Env
some_env = record {
  content_enc = small_enc;
  num_cpu = 2;
  nonces = λ j. some_nonce;
  ids = λ j. some_id;
  faults = λ t. none;
  retries = 3;
}

pub some_env_lem : IsEnv some_env
some_env_lem = record {
  made = small_enc_made;
  some_nonce = omega arith;
  small = omega arith;
  aead = plain_aead_lem 16;
  fresh = λ j. some_nonce_lem;
  id_sized = λ j. refl;
  id_random = λ j e. cc;
}
