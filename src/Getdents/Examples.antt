-- ===== src/Getdents/Examples.antt =====
-- A directory of four entries, read in two calls, and instances of the theorems.
use shiroikuma_gcfs.Prelude.{
  ℕ, ◌*◌, ◌^◌, ◌+◌, ◌≡◌, ◌≢◌, ◌⊎◌, refl, if◌then◌else◌, Option, none, some, List, [], ◌∷◌, ◌++◌, ok,
  err, ebadr, arith, replicate, drop, take, Bytes, bytes_of, bytes_equal,
}
use shiroikuma_gcfs.Getdents.{
  Call, interrupted, chunk, DirEntry, getdents, add_entry, convert_dtype,
}
use shiroikuma_gcfs.Getdents.Dirents.{Dirent, IsDirent, encode_all}
use shiroikuma_gcfs.Getdents.Parsing.{getdents-encode_all}
use shiroikuma_gcfs.Getdents.Termination.{getdents-Ends}

-- The name `b` has the mode of a regular file, and the others are gone.
some_stat : Bytes → Option ℕ
unfolding bytes_equal
some_stat name = if bytes_equal name (bytes_of "b") then some (8 * 2 ^ 12 + 420) else none

abbrev dot : Dirent
dot = record { head = replicate 16 1; dtype = 4; name = bytes_of "."; pad = 4 }

-- The types of `b` and `c` are unknown.
abbrev some_dirents : List Dirent
some_dirents =
    dot
    ∷ record { head = replicate 16 2; dtype = 4; name = bytes_of "a"; pad = 4 }
    ∷ record { head = replicate 16 3; dtype = 0; name = bytes_of "b"; pad = 4 }
    ∷ record { head = replicate 16 4; dtype = 0; name = bytes_of "c"; pad = 4 }
    ∷ []

abbrev some_calls : List Call
some_calls =
    interrupted (take 24 (encode_all some_dirents)) ∷ chunk (drop 24 (encode_all some_dirents)) ∷ []

dirent_lem :
    (k dtype c : ℕ)
    → c ≢ 0
    → IsDirent (record { head = replicate 16 k; dtype = dtype; name = c ∷ []; pad = 4 })
dirent_lem k dtype c h = record {
  head_sized = refl;
  has_name = omega arith;
  no_zero = (h, tt);
  not_long = omega arith;
  ended = omega arith;
  fits = omega arith;
}

getdents-encode_all_example :
    getdents some_stat (some_calls ++ (chunk [] ∷ []))
    ≡ ok (
      record { name = bytes_of "a"; mode = 4 * 2 ^ 12 }
          ∷ record { name = bytes_of "b"; mode = 8 * 2 ^ 12 }
          ∷ [],
      record { name = bytes_of "."; mode = 4 * 2 ^ 12 } ∷ [],
    )
unfolding add_entry convert_dtype bytes_equal some_stat
getdents-encode_all_example =
    getdents-encode_all some_stat some_dirents some_calls
      (
        dirent_lem 1 4 46 (λ e. omega arith),
        (
          dirent_lem 2 4 97 (λ e. omega arith),
          (dirent_lem 3 0 98 (λ e. omega arith), (dirent_lem 4 0 99 (λ e. omega arith), tt)),
        ),
      )
      (tt, (omega arith, tt)) refl

-- A record that claims a length of 0.
getdents-Ends_example :
    ((found : List DirEntry × List DirEntry) × (getdents some_stat
          ((chunk (1 ∷ 2 ∷ []) ∷ []) ++ (chunk [] ∷ []))
        ≡ ok found))
    ⊎ (getdents some_stat ((chunk (1 ∷ 2 ∷ []) ∷ []) ++ (chunk [] ∷ [])) ≡ err ebadr)
getdents-Ends_example = getdents-Ends some_stat (chunk (1 ∷ 2 ∷ []) ∷ []) (omega arith, tt)
