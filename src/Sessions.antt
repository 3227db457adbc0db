-- ===== src/Sessions.antt =====
-- volume.go: `gcf_close` and `gcf_is_closed` on the table of opened volumes. Of a volume there are its open
-- files and its directory cache; the wiping of keys is left out. The map is an association list, of
-- which the first entry for a number counts.
pub mod Closing
mod Examples
use shiroikuma_gcfs.Prelude.{
  ℕ, zero, suc, ◌+◌, Bool, true, false, not, Option, none, some, List, [], ◌∷◌, Outcome, ok, ◌>>=◌,
  ◌==◌, if◌then◌else◌, length,
}
use shiroikuma_gcfs.Handles.{File, Table, close_file}
use shiroikuma_gcfs.DirCache.{DirCache, clear}

pub record Opened : Type 0 where
  pub handles : Table
  pub cache : DirCache

abbrev pub OpenedVolumes : Type 0
OpenedVolumes = List (ℕ × Opened)

unfoldable pub load : OpenedVolumes → ℕ → Option Opened
load [] id = none
load ((k, v) ∷ rest) id = if k == id then some v else load rest id

unfoldable pub delete : OpenedVolumes → ℕ → OpenedVolumes
delete [] id = []
delete ((k, v) ∷ rest) id = let more = delete rest id in if k == id then more else (k, v) ∷ more

-- `for i := range fileHandles`, for `n` more rounds: the index `i` itself is closed.
unfoldable pub close_loop : ℕ → ℕ → Table → Outcome Table
close_loop zero i handles = ok handles
close_loop (suc n) i handles = close_file handles i >>= close_loop n (i + 1)

-- The volumes that stay open, and the file descriptors that the directory cache has closed.
unfoldable pub gcf_close : OpenedVolumes → ℕ → Outcome (OpenedVolumes × List ℕ)
gcf_close volumes id = elim (load volumes id) [
  | none ↦ ok (volumes, [])
  | some v ↦ close_loop (length v.handles) 0 v.handles >>= λ closed.
      ok (delete volumes id, (clear v.cache).closed)
]

unfoldable pub gcf_is_closed : OpenedVolumes → ℕ → Bool
gcf_is_closed volumes id = elim (load volumes id) [ none ↦ true | some v ↦ false ]
