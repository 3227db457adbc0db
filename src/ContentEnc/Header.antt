-- ===== src/ContentEnc/Header.antt =====
-- internal/contentenc/file_header.go: the header in front of every non-empty file.
pub mod RoundTrip
use shiroikuma_gcfs.Prelude.{
  ℕ, ◌+◌, ◌++◌, Outcome, ok, err, panic, ◌||◌, ◌!=◌, if◌then◌else◌, length, take, drop, replicate,
  Bytes, bytes_equal, big_endian, from_big_endian, invalid_length, header_all_zero, invalid_version,
  file_id_all_zero,
}

abbrev pub current_version : ℕ
current_version = 2

abbrev pub header_version_len : ℕ
header_version_len = 2

abbrev pub header_id_len : ℕ
header_id_len = 16

abbrev pub header_len : ℕ
header_len = header_version_len + header_id_len

pub record FileHeader : Type 0 where
  pub version : ℕ
  pub id : Bytes

unfoldable pub pack : FileHeader → Outcome Bytes
pack h =
    if length h.id != header_id_len || h.version != current_version
    then panic
    else ok (big_endian header_version_len h.version ++ h.id)

abbrev pub all_zero_file_id : Bytes
all_zero_file_id = replicate header_id_len 0

abbrev pub all_zero_header : Bytes
all_zero_header = replicate header_len 0

unfoldable pub parse_header : Bytes → Outcome FileHeader
parse_header buf =
    if length buf != header_len
    then err invalid_length
    else if bytes_equal buf all_zero_header
    then err header_all_zero
    else let version = from_big_endian 0 (take header_version_len buf) in
      let id = drop header_version_len buf in
      if version != current_version
      then err invalid_version
      else if bytes_equal id all_zero_file_id
      then err file_id_all_zero
      else ok (record { version = version; id = id })

-- `random` is what `cryptocore.RandBytes(headerIDLen)` returns.
unfoldable pub random_header : Bytes → FileHeader
random_header random = record { version = current_version; id = random }
