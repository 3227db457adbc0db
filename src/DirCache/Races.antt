-- ===== src/DirCache/Races.antt =====
-- dircache.go: `Delete` statement by statement. It holds no lock, so that a call of another operation can come
-- between two of its statements.
pub mod Finished
pub mod Torn
use shiroikuma_gcfs.Prelude.{
  ℕ, zero, suc, ◌+◌, Bool, true, false, List, [], ◌∷◌, leb, if◌then◌else◌, length, Bytes,
  bytes_equal,
}
use shiroikuma_gcfs.DirCache.{DirCacheEntry, DirCache, closing, entry_at, set_entry}

-- The statements of the entry's `Clear` that are next: the `if`, and the three assignments.
pub data Stage : Type 0 where
  close_fd unset_fd unset_path unset_iv : Stage

-- The loop is at an entry, or in `Clear` of an entry, or has ended.
pub data Delete : Type 0 where
  looking : ℕ → Delete
  clearing : ℕ → Stage → Delete
  done : Delete

abbrev pub with_entry : DirCache → ℕ → DirCacheEntry → DirCache
with_entry d i e = record {
  iv_len = d.iv_len;
  entries = set_entry d.entries i e;
  next_index = d.next_index;
  closed = d.closed;
}

abbrev pub with_closed : DirCache → List ℕ → DirCache
with_closed d closed = record {
  iv_len = d.iv_len;
  entries = d.entries;
  next_index = d.next_index;
  closed = closed;
}

-- One statement of the entry's `Clear`.
abbrev pub clear_step : ℕ → Stage → DirCache → Delete × DirCache
clear_step i close_fd d =
    (clearing i unset_fd, with_closed d (closing (entry_at d.entries i) d.closed))
clear_step i unset_fd d =
    (clearing i unset_path, with_entry d i (record (entry_at d.entries i) { fd = 0 }))
clear_step i unset_path d =
    (clearing i unset_iv, with_entry d i (record (entry_at d.entries i) { path = [] }))
clear_step i unset_iv d = (done, with_entry d i (record (entry_at d.entries i) { iv = [] }))

unfoldable pub delete_step : Bytes → Delete → DirCache → Delete × DirCache
delete_step path (looking i) d =
    if leb (length d.entries) i
    then (done, d)
    else if bytes_equal (entry_at d.entries i).path path
    then (clearing i close_fd, d)
    else (looking (i + 1), d)
delete_step path (clearing i stage) d = clear_step i stage d
delete_step path done d = (done, d)

-- A number of statements with no other call between them.
unfoldable pub delete_steps : ℕ → Bytes → Delete × DirCache → Delete × DirCache
delete_steps zero path (at, d) = (at, d)
delete_steps (suc n) path (at, d) = delete_steps n path (delete_step path at d)
