-- ===== src/NameTransform/LongNames.antt =====
-- internal/nametransform/longnames.go, the part that does no input or output.
pub mod Kinds
use shiroikuma_gcfs.Prelude.{
  ℕ, ◌-◌, ◌++◌, Bool, true, false, Outcome, ok, panic, ltb, if◌then◌else◌, length, take, Bytes,
  bytes_of, has_prefix, has_suffix,
}
use shiroikuma_gcfs.NameTransform.Base64.{Encoding, encode_to_string}

abbrev pub long_name_suffix : Bytes
long_name_suffix = bytes_of ".name"

abbrev pub long_name_prefix : Bytes
long_name_prefix = bytes_of "gocryptfs.longname."

-- `sha256` is Go's `sha256.Sum256`.
unfoldable pub hash_long_name : (Bytes → Bytes) → Encoding → Bytes → Bytes
unfolding encode_to_string
hash_long_name sha256 b64 name = long_name_prefix ++ encode_to_string b64 (sha256 name)

-- `LongNameContent`, `LongNameFilename` and `LongNameNone`.
pub data LongName : Type 0 where
  long_name_content long_name_filename long_name_none : LongName

unfoldable pub name_type : Bytes → LongName
unfolding has_prefix has_suffix
name_type c_name =
    if has_prefix c_name long_name_prefix
    then (if has_suffix c_name long_name_suffix then long_name_filename else long_name_content)
    else long_name_none

unfoldable pub is_long_content : Bytes → Bool
unfolding name_type
is_long_content c_name = elim (name_type c_name) [ long_name_content ↦ true | _ ↦ false ]

-- The slice panics on a name shorter than the suffix.
unfoldable pub remove_long_name_suffix : Bytes → Outcome Bytes
remove_long_name_suffix c_name =
    if ltb (length c_name) (length long_name_suffix)
    then panic
    else ok (take (length c_name - length long_name_suffix) c_name)
