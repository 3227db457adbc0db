-- ===== src/Handles.antt =====
-- file.go: `registerFileHandle` and `gcf_close_file` on the table of file handles. The map is an
-- association list, of which the first entry for a number counts.
pub mod Free
mod Examples
use shiroikuma_gcfs.Prelude.{
  ℕ, zero, suc, ◌+◌, Bool, true, false, Option, none, some, List, [], ◌∷◌, Outcome, ok, panic,
  stuck, ◌>>=◌, ◌==◌, if◌then◌else◌, length, Bytes,
}

-- `File`: the file descriptor, the plain path and the cached file ID, without the locks.
pub record File : Type 0 where
  pub fd : ℕ
  pub path : Bytes
  pub id : Option Bytes

abbrev pub Table : Type 0
Table = List (ℕ × File)

-- `value, ok := table[c]`
unfoldable pub load : Table → ℕ → Option File
load [] c = none
load ((k, v) ∷ rest) c = if k == c then some v else load rest c

pub is_used : Option File → Bool
is_used none = false
is_used (some v) = true

-- The loop that counts up from `c`.
pub first_free : Table → ℕ → ℕ → Outcome ℕ
unfolding load is_used
first_free table zero c = stuck
first_free table (suc fuel) c =
    let next = first_free table fuel (c + 1) in if is_used (load table c) then next else ok c

-- A table of `n` entries uses at most `n` numbers, so that `n + 1` rounds are enough.
unfoldable pub register_file_handle : Table → ℕ → Bytes → Outcome (ℕ × Table)
unfolding first_free
register_file_handle table fd path = do
  c ← first_free table (suc (length table)) 0
  ok (c, (c, record { fd = fd; path = path; id = none }) ∷ table)

-- `delete(table, c)`
pub remove : Table → ℕ → Table
remove [] c = []
remove ((k, v) ∷ rest) c = let more = remove rest c in if k == c then more else (k, v) ∷ more

-- The part of `gcf_close_file` on the table. A number that is not in use is a nil pointer, which panics.
unfoldable pub close_file : Table → ℕ → Outcome Table
unfolding remove load
close_file table c = elim (load table c) [ none ↦ panic | some f ↦ ok (remove table c) ]
