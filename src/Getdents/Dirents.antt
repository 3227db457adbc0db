-- ===== src/Getdents/Dirents.antt =====
-- What the kernel writes, and the entries that it stands for.
use shiroikuma_gcfs.Prelude.{
  ℕ, ◌+◌, ◌*◌, ◌/◌, ◌%◌, ◌^◌, ◌≤◌, ◌<◌, ◌≡◌, ◌≢◌, refl, Bool, true, false, ◌||◌, Option, none, some,
  List, [], ◌∷◌, ◌++◌, ◌==◌, if◌then◌else◌, length, replicate, All, Bytes, bytes_equal,
}
use shiroikuma_gcfs.Getdents.{DirEntry, max_reclen, convert_dtype, kept, add_entry}

-- A `linux_dirent64`: the inode and the offset, the type, the name, and the zeros behind it.
pub record Dirent : Type 0 where
  pub head : Bytes
  pub dtype : ℕ
  pub name : Bytes
  pub pad : ℕ

abbrev pub size : Dirent → ℕ
size d = 19 + length d.name + d.pad

abbrev pub encode : Dirent → Bytes
encode d = d.head ++ (size d % 256 ∷ size d / 256 ∷ d.dtype ∷ (d.name ++ replicate d.pad 0))

-- What the kernel promises.
pub record IsDirent (d : Dirent) : Type 0 where
  pub head_sized : length d.head ≡ 16
  pub has_name : 0 < length d.name
  pub no_zero : All (λ c. c ≢ 0) d.name
  pub not_long : length d.name ≤ 255
  pub ended : 0 < d.pad
  pub fits : size d ≤ max_reclen

abbrev pub encode_all : List Dirent → Bytes
encode_all [] = []
encode_all (d ∷ ds) = encode d ++ encode_all ds

-- The type of a file: that of the record, and otherwise that which `stat` finds.
abbrev file_type : (Bytes → Option ℕ) → Dirent → Option ℕ
file_type stat d =
    if d.dtype == 0
    then elim (stat d.name) [ none ↦ none | some mode ↦ some (mode / 2 ^ 12 % 16 * 2 ^ 12) ]
    else some (d.dtype * 2 ^ 12)

-- A name of one dot or of two dots.
abbrev is_dots : Bytes → Bool
is_dots name = bytes_equal name (46 ∷ []) || bytes_equal name (46 ∷ 46 ∷ [])

abbrev files : (Bytes → Option ℕ) → List Dirent → List DirEntry
files stat [] = []
files stat (d ∷ ds) =
    let rest = files stat ds in
    if is_dots d.name then rest else (elim (file_type stat d) [
      | none ↦ rest
      | some mode ↦ record { name = d.name; mode = mode } ∷ rest
    ])

abbrev dots : List Dirent → List DirEntry
dots [] = []
dots (d ∷ ds) =
    let rest = dots ds in
    if is_dots d.name then record { name = d.name; mode = 4 * 2 ^ 12 } ∷ rest else rest

-- The entries and the special entries of the records.
abbrev pub entries_of : (Bytes → Option ℕ) → List Dirent → List DirEntry × List DirEntry
entries_of stat ds = (files stat ds, dots ds)

add_either :
    (special : Bool) (mode : Option ℕ) (name : Bytes) (entries specials : List DirEntry)
    → ◌≡◌ {A = List DirEntry × List DirEntry}
        (if special
          then (entries, record { name = name; mode = 4 * 2 ^ 12 } ∷ specials)
          else (kept name mode entries, specials))
        (
          if special then entries else (elim mode [
            | none ↦ entries
            | some m ↦ record { name = name; mode = m } ∷ entries
          ]),
          if special then record { name = name; mode = 4 * 2 ^ 12 } ∷ specials else specials,
        )
add_either true mode name entries specials = refl
add_either false none name entries specials = refl
add_either false (some m) name entries specials = refl

pub add_entry-entries_of :
    (stat : Bytes → Option ℕ) (d : Dirent) (ds : List Dirent)
    → add_entry stat d.name d.dtype (entries_of stat ds) ≡ entries_of stat (d ∷ ds)
unfolding add_entry convert_dtype
add_entry-entries_of stat d ds =
    add_either (is_dots d.name) (file_type stat d) d.name (files stat ds) (dots ds)
