-- ===== src/CryptoCore/Examples.antt =====
-- Concrete instances of the theorems on the set-up of the ciphers.
use shiroikuma_gcfs.Prelude.{◌≡◌, refl, true, false, ok, length-replicate, replicate, Bytes}
use shiroikuma_gcfs.CryptoCore.{go_gcm, aes_siv, CryptoCore}
use shiroikuma_gcfs.CryptoCore.Setup.{new}
use shiroikuma_gcfs.CryptoCore.Setup.Sizes.{returns, returns-new}
use shiroikuma_gcfs.Samples.{plain_ciphers, plain_ciphers_lem, plain_aead, plain_eme}

abbrev some_key : Bytes
some_key = replicate 32 3

returns-new_example : returns (new plain_ciphers some_key aes_siv 128 true) ≡ true
returns-new_example =
    returns-new plain_ciphers plain_ciphers_lem (λ key info n. length-replicate n 5) (λ key. refl)
      some_key aes_siv 128 true

abbrev gcm_core : CryptoCore
gcm_core = record {
  eme_cipher = plain_eme;
  aead_cipher = plain_aead 12;
  aead_backend = go_gcm;
  iv_len = 12;
}

gcm_core_made : new plain_ciphers some_key go_gcm 96 false ≡ ok gcm_core
unfolding new
gcm_core_made = refl
