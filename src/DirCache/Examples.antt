-- ===== src/DirCache/Examples.antt =====
-- Runs of the directory cache, and concrete instances of its theorems.
use shiroikuma_gcfs.Prelude.{
  zero, suc, ◌%◌, ◌!=◌, false, panic, length, ℕ, ◌+◌, ◌≡◌, refl, Option, none, some, [], ◌∷◌, ok,
  ◌>>=◌, arith, replicate, Bytes, bytes_of, bytes_equal,
}
use shiroikuma_gcfs.DirCache.{
  DirCache, dir_cache_size, new_dir_cache, set_entry, closing, entry_at, stored_entry, store,
  lookup, found, delete, cleared_entry,
}
use shiroikuma_gcfs.DirCache.Reached.{Reached, fresh, stored, Reached-IsDirCache}
use shiroikuma_gcfs.DirCache.Races.{looking, done, delete_steps}
use shiroikuma_gcfs.DirCache.Races.Finished.{delete_steps-delete}
use shiroikuma_gcfs.DirCache.Races.Torn.{lookup-torn_delete}
use shiroikuma_gcfs.DirCache.Lookups.{lookup-store}

abbrev some_iv : Bytes
some_iv = replicate 16 7

-- `Dup` that always succeeds.
abbrev next_fd : ℕ → Option ℕ
next_fd fd = some (fd + 100)

nothing_found : found (bytes_of "a") (new_dir_cache 16).entries ≡ none
unfolding found new_dir_cache
nothing_found = refl

lookup-store_example :
    (store (new_dir_cache 16) (bytes_of "a") 5 some_iv (some 6) >>= λ d'.
    lookup d' next_fd (bytes_of "a"))
    ≡ ok (some (106, some_iv))
lookup-store_example =
    lookup-store 16 (new_dir_cache 16) fresh next_fd (bytes_of "a") 5 6 106 some_iv nothing_found
      (omega arith) (omega arith) (omega arith) refl refl

abbrev one_dir : DirCache
one_dir = record {
  iv_len = 16;
  entries = record { path = bytes_of "a"; fd = 6; iv = some_iv } ∷ replicate 19 cleared_entry;
  next_index = 1;
  closed = [];
}

delete_run :
    (store (new_dir_cache 16) (bytes_of "a") 5 some_iv (some 6) >>= λ d'.
    lookup (delete d' (bytes_of "a")) next_fd (bytes_of "a"))
    ≡ ok none
unfolding store lookup delete new_dir_cache bytes_equal
delete_run = refl

-- The cache behind a number of stores, of the paths of one byte.
abbrev filled : ℕ → DirCache
filled zero = new_dir_cache 16
filled (suc k) =
    let d = filled k in
    record {
      iv_len = d.iv_len;
      entries =
          set_entry d.entries d.next_index
            (record { path = (65 + k) ∷ []; fd = 10 + k; iv = some_iv });
      next_index = (d.next_index + 1) % dir_cache_size;
      closed = closing (entry_at d.entries d.next_index) d.closed;
    }

filled-Reached : (k : ℕ) → Reached 16 (filled k)
unfolding store stored_entry
filled-Reached zero = fresh
filled-Reached (suc k) =
    let d = filled k in
    let same = (Reached-IsDirCache 16 d (filled-Reached k)).same_len in
    let guard : (length some_iv != d.iv_len) ≡ false = ground (arith, same) in
    stored d (filled (suc k)) ((65 + k) ∷ []) 5 some_iv (some (10 + k)) (filled-Reached k)
      (rw guard refl)

-- The cache is full, and the directory `A` is the next to be replaced.
lookup-torn_delete_example :
    (store
        (delete_steps 4 (bytes_of "A") (looking 0, filled 20)).1
        (bytes_of "z")
        5
        some_iv
        (some 6)
      >>= λ d'.
          lookup
            (delete_steps 1
              (bytes_of "A")
              ((delete_steps 4 (bytes_of "A") (looking 0, filled 20)).0, d')).1
            next_fd
            (bytes_of "z"))
    ≡ panic
unfolding new_dir_cache found bytes_equal
lookup-torn_delete_example =
    lookup-torn_delete 16 (filled 20) (filled-Reached 20) next_fd (bytes_of "A") (bytes_of "z") 5 6
      106 some_iv refl refl (omega arith) (omega arith) (omega arith) refl (omega arith) refl

delete_steps-delete_example :
    delete_steps 25 (bytes_of "a") (looking 0, one_dir) ≡ (done, delete one_dir (bytes_of "a"))
delete_steps-delete_example = delete_steps-delete one_dir (bytes_of "a") 25 (omega arith)
