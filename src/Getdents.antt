-- ===== src/Getdents.antt =====
-- internal/syscallcompat/getdents_linux.go: the entries of a directory, from the bytes that the kernel
-- returns. An offset in the buffer is given by the bytes behind it.
pub mod Dirents
pub mod Parsing
pub mod Termination
mod Examples
use shiroikuma_gcfs.Prelude.{
  ℕ, zero, suc, ◌+◌, ◌*◌, ◌/◌, ◌%◌, ◌^◌, Bool, true, false, ◌||◌, Option, none, some, List, [], ◌∷◌,
  ◌++◌, Outcome, ok, err, stuck, Error, eio, ebadr, ◌>>=◌, ltb, ◌==◌, if◌then◌else◌, length, get_or,
  take, drop, replicate, Bytes, bytes_equal, bytes_of,
}

-- What `unix.Getdents` returns: bytes together with EINTR, another error, or bytes.
pub data Call : Type 0 where
  interrupted chunk : Bytes → Call
  failed : Error → Call

pub record DirEntry : Type 0 where
  pub name : Bytes
  pub mode : ℕ

abbrev pub max_reclen : ℕ
max_reclen = 280

-- The loop that fills the buffer. There are as many calls as the system answers.
unfoldable pub collect : Bytes → List Call → Outcome Bytes
collect buf [] = stuck
collect buf (interrupted part ∷ calls) = collect (buf ++ part) calls
collect buf (failed e ∷ calls) = if length buf == 0 then err e else err eio
collect buf (chunk [] ∷ calls) = ok buf
collect buf (chunk (c ∷ cs) ∷ calls) = collect (buf ++ (c ∷ cs)) calls

-- The fields of a `Dirent` at the start of the bytes: an inode and an offset of eight bytes each, the
-- length of the record, the type and the name. Zeros follow the buffer.
abbrev pub reclen : Bytes → ℕ
reclen rest = get_or rest 16 0 + 256 * get_or rest 17 0

abbrev pub type_of : Bytes → ℕ
type_of rest = get_or rest 18 0

unfoldable pub zeros : Bytes
zeros = replicate 256 0

abbrev pub name_field : Bytes → Bytes
name_field rest = take 256 (drop 19 rest ++ zeros)

-- The first loop.
unfoldable pub count_entries : ℕ → Bytes → ℕ → Outcome ℕ
count_entries zero rest n = stuck
count_entries (suc fuel) rest n =
    let more = count_entries fuel (drop (reclen rest) rest) (n + 1) in
    if length rest == 0
    then ok n
    else if reclen rest == 0
    then err ebadr
    else if ltb max_reclen (reclen rest)
    then err ebadr
    else more

-- The index at which the loop over the name stops, which is the last one if there is no zero.
abbrev pub name_len : Bytes → ℕ
name_len [] = 0
name_len (c ∷ []) = 0
name_len (c ∷ d ∷ cs) = let more = name_len (d ∷ cs) in if c == 0 then 0 else suc more

unfoldable pub getdents_name : Bytes → Outcome Bytes
getdents_name rest =
    let l = name_len (name_field rest) in
    if ltb l 1 then err ebadr else ok (take l (name_field rest))

-- `stat` is the mode that `Fstatat` finds at a name of the directory.
unfoldable pub convert_dtype : (Bytes → Option ℕ) → Bytes → ℕ → Option ℕ
convert_dtype stat name dtype =
    if dtype == 0
    then (elim (stat name) [ none ↦ none | some mode ↦ some (mode / 2 ^ 12 % 16 * 2 ^ 12) ])
    else some (dtype * 2 ^ 12)

abbrev pub is_special : Bytes → Bool
is_special name = bytes_equal name (bytes_of ".") || bytes_equal name (bytes_of "..")

abbrev pub kept : Bytes → Option ℕ → List DirEntry → List DirEntry
kept name none entries = entries
kept name (some mode) entries = record { name = name; mode = mode } ∷ entries

-- An entry in front of those behind it: `.` and `..` are special, and one that is gone is left out.
unfoldable pub add_entry :
    (Bytes → Option ℕ) → Bytes → ℕ → List DirEntry × List DirEntry → List DirEntry × List DirEntry
add_entry stat name dtype (entries, special) =
    if is_special name
    then (entries, record { name = name; mode = 4 * 2 ^ 12 } ∷ special)
    else (kept name (convert_dtype stat name dtype) entries, special)

-- The second loop.
unfoldable pub parse_entries :
    (Bytes → Option ℕ) → ℕ → Bytes → Outcome (List DirEntry × List DirEntry)
parse_entries stat zero rest = stuck
parse_entries stat (suc fuel) rest =
    let more = parse_entries stat fuel (drop (reclen rest) rest) in
    if length rest == 0
    then ok ([], [])
    else getdents_name rest >>= λ name.
        more >>= λ found. ok (add_entry stat name (type_of rest) found)

-- Each record has one byte at least.
unfoldable pub getdents : (Bytes → Option ℕ) → List Call → Outcome (List DirEntry × List DirEntry)
getdents stat calls = do
  buf ← collect [] calls
  n ← count_entries (suc (length buf)) buf 0
  parse_entries stat (suc (length buf)) buf
