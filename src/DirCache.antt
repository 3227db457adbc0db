-- ===== src/DirCache.antt =====
-- dircache.go: the cache of open directories. A file descriptor is a number, 0 for none: the code has
-- -1 in a cleared entry and 0 in a new one, and only tests `fd <= 0`. `Clear`, `Store` and `Lookup` hold
-- the mutex, and are one step each. `Delete` does not take it: here `delete` is a call with no other
-- beside it, and the module Races takes it apart. Statistics are switched off in the code.
pub mod Entries
pub mod Reached
pub mod Lookups
pub mod Races
mod Examples
use shiroikuma_gcfs.Prelude.{
  ℕ, zero, suc, ◌+◌, ◌%◌, Bool, not, ◌||◌, Option, none, some, List, [], ◌∷◌, Outcome, ok, panic,
  ltb, ◌==◌, ◌!=◌, if◌then◌else◌, length, replicate, Bytes, bytes_equal,
}

abbrev pub dir_cache_size : ℕ
dir_cache_size = 20

pub record DirCacheEntry : Type 0 where
  pub path : Bytes
  pub fd : ℕ
  pub iv : Bytes

-- `closed` is the list of file descriptors that went to `syscall.Close`, the last one first.
pub record DirCache : Type 0 where
  pub iv_len : ℕ
  pub entries : List DirCacheEntry
  pub next_index : ℕ
  pub closed : List ℕ

abbrev pub cleared_entry : DirCacheEntry
cleared_entry = record { path = []; fd = 0; iv = [] }

-- The cache that `registerNewVolume` makes.
unfoldable pub new_dir_cache : ℕ → DirCache
new_dir_cache iv_len = record {
  iv_len = iv_len;
  entries = replicate dir_cache_size cleared_entry;
  next_index = 0;
  closed = [];
}

-- What clearing an entry closes.
abbrev pub closing : DirCacheEntry → List ℕ → List ℕ
closing e closed = if ltb 0 e.fd then e.fd ∷ closed else closed

close_all : List DirCacheEntry → List ℕ → List ℕ
close_all [] closed = closed
close_all (e ∷ rest) closed = close_all rest (closing e closed)

abbrev pub clear_all : List DirCacheEntry → List DirCacheEntry
clear_all [] = []
clear_all (e ∷ rest) = cleared_entry ∷ clear_all rest

unfoldable pub clear : DirCache → DirCache
unfolding close_all
clear d = record {
  iv_len = d.iv_len;
  entries = clear_all d.entries;
  next_index = d.next_index;
  closed = close_all d.entries d.closed;
}

-- The entry at an index, and the list with another entry there.
abbrev pub entry_at : List DirCacheEntry → ℕ → DirCacheEntry
entry_at [] i = cleared_entry
entry_at (e ∷ rest) zero = e
entry_at (e ∷ rest) (suc i) = entry_at rest i

abbrev pub set_entry : List DirCacheEntry → ℕ → DirCacheEntry → List DirCacheEntry
set_entry [] i new = []
set_entry (e ∷ rest) zero new = new ∷ rest
set_entry (e ∷ rest) (suc i) new = e ∷ set_entry rest i new

-- `fd2` is what `syscall.Dup(fd)` returns, or `none` for its error.
pub stored_entry : Bytes → Option ℕ → Bytes → DirCacheEntry
stored_entry path (some fd2) iv = record { path = path; fd = fd2; iv = iv }
stored_entry path none iv = cleared_entry

unfoldable pub store : DirCache → Bytes → ℕ → Bytes → Option ℕ → Outcome DirCache
unfolding stored_entry
store d path fd iv fd2 =
    if fd == 0 || length iv != d.iv_len
    then panic
    else ok (record {
      iv_len = d.iv_len;
      entries = set_entry d.entries d.next_index (stored_entry path fd2 iv);
      next_index = (d.next_index + 1) % dir_cache_size;
      closed = closing (entry_at d.entries d.next_index) d.closed;
    })

-- The loop of `Lookup`: the first open entry with the path. `dup` is `syscall.Dup`.
pub found : Bytes → List DirCacheEntry → Option DirCacheEntry
found path [] = none
found path (e ∷ rest) =
    if e.fd == 0
    then found path rest
    else if not (bytes_equal path e.path)
    then found path rest
    else some e

-- `none` is the result (-1, nil).
unfoldable pub lookup : DirCache → (ℕ → Option ℕ) → Bytes → Outcome (Option (ℕ × Bytes))
unfolding found
lookup d dup path = elim (found path d.entries) [
  | none ↦ ok none
  | some e ↦ elim (dup e.fd) [
    | none ↦ ok none
    | some fd ↦
        if fd == 0 then ok none else if length e.iv != d.iv_len then panic else ok (some (fd, e.iv))
  ]
]

-- The loop of `Delete` with its `break`: the entries, and what is closed.
pub delete_in : Bytes → List DirCacheEntry → List DirCacheEntry
delete_in path [] = []
delete_in path (e ∷ rest) =
    if bytes_equal e.path path then cleared_entry ∷ rest else e ∷ delete_in path rest

delete_closing : Bytes → List DirCacheEntry → List ℕ → List ℕ
delete_closing path [] closed = closed
delete_closing path (e ∷ rest) closed =
    if bytes_equal e.path path then closing e closed else delete_closing path rest closed

unfoldable pub delete : DirCache → Bytes → DirCache
unfolding delete_in delete_closing
delete d path = record {
  iv_len = d.iv_len;
  entries = delete_in path d.entries;
  next_index = d.next_index;
  closed = delete_closing path d.entries d.closed;
}
