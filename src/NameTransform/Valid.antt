-- ===== src/NameTransform/Valid.antt =====
-- internal/nametransform/valid.go
use shiroikuma_gcfs.Prelude.{
  ℕ, ◌||◌, Option, none, some, Error, empty_input, name_too_long, forbidden_bytes, dot_name, ltb,
  ◌==◌, if◌then◌else◌, length, Bytes, bytes_equal, bytes_of, contains_byte,
}

abbrev pub name_max : ℕ
name_max = 255

-- `none` is Go's nil error.
unfoldable pub is_valid_name : Bytes → Option Error
is_valid_name name =
    if length name == 0
    then some empty_input
    else if ltb name_max (length name)
    then some name_too_long
    else if contains_byte 0 name || contains_byte b'/' name
    then some forbidden_bytes
    else if bytes_equal name (bytes_of ".") || bytes_equal name (bytes_of "..")
    then some dot_name
    else none
