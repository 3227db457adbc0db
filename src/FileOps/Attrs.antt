-- ===== src/FileOps/Attrs.antt =====
-- helpers.go: the sizes that attributes report, and symlinks.
pub mod Sizes
use Prim.Native.Nat.{bit_and}
use shiroikuma_gcfs.Prelude.{
  ℕ, Bool, true, false, Option, none, some, Outcome, ok, err, panic, stuck, ◌>>=◌, ◌==◌,
  if◌then◌else◌, [], length, Bytes,
}
use shiroikuma_gcfs.ContentEnc.Offsets.{cipher_size_to_plain_size}
use shiroikuma_gcfs.ContentEnc.Blocks.{ContentEnc, decrypt_block}
use shiroikuma_gcfs.NameTransform.Names.{NameTransform}
use shiroikuma_gcfs.NameTransform.Base64.{decode_string}

-- `syscall.S_IFMT` and two of the types under it.
abbrev pub s_ifmt : ℕ
s_ifmt = 61440

abbrev pub s_ifreg : ℕ
s_ifreg = 32768

abbrev pub s_iflnk : ℕ
s_iflnk = 40960

unfoldable pub is_regular : ℕ → Bool
is_regular mode = bit_and mode s_ifmt == s_ifreg

unfoldable pub is_symlink : ℕ → Bool
is_symlink mode = bit_and mode s_ifmt == s_iflnk

-- The block number is 0, and there is no file ID.
unfoldable pub decrypt_symlink_target : ContentEnc → NameTransform → Bytes → Outcome Bytes
decrypt_symlink_target content_enc name_transform c_data64 =
    if length c_data64 == 0 then ok [] else do
      c_data ← decode_string name_transform.b64 c_data64
      decrypt_block content_enc c_data 0 none

-- An error gives no bytes, as an empty target does.
unfoldable pub or_nothing : Outcome Bytes → Outcome Bytes
or_nothing (ok target) = ok target
or_nothing (err e) = ok []
or_nothing panic = panic
or_nothing stuck = stuck

-- `c_target` is what `Readlinkat` returns.
unfoldable pub readlink : ContentEnc → NameTransform → Bool → Outcome Bytes → Outcome Bytes
readlink content_enc name_transform plain_text_names c_target =
    if plain_text_names
    then or_nothing c_target
    else or_nothing (do target ← c_target; decrypt_symlink_target content_enc name_transform target)

unfoldable pub translate_size :
    ContentEnc → NameTransform → Bool → Outcome Bytes → ℕ → ℕ → Outcome ℕ
translate_size content_enc name_transform plain_text_names c_target mode size =
    if is_regular mode
    then cipher_size_to_plain_size content_enc.geometry size
    else if is_symlink mode
    then (do
      target ← readlink content_enc name_transform plain_text_names c_target
      ok (length target))
    else ok size
