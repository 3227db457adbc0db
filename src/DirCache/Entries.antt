-- ===== src/DirCache/Entries.antt =====
-- Lookups behind a store, a clear and a delete.
use shiroikuma_gcfs.Prelude.{
  ℕ, zero, suc, ◌<◌, ◌≡◌, refl, true, none, some, List, [], ◌∷◌, arith, length, Bytes, bytes_equal,
  bytes_equal_iff,
}
use shiroikuma_gcfs.DirCache.{DirCacheEntry, clear_all, set_entry, found}

bytes_equal_refl : (p : Bytes) → bytes_equal p p ≡ true
bytes_equal_refl p = (bytes_equal_iff p p).1 refl

-- An entry for a path that the list does not hold is the one that is found, wherever it goes.
pub found-set_entry :
    (path : Bytes) (entries : List DirCacheEntry) (i : ℕ) (e : DirCacheEntry)
    → i < length entries
    → found path entries ≡ none
    → 0 < e.fd
    → e.path ≡ path
    → found path (set_entry entries i e) ≡ some e
unfolding found
found-set_entry path [] i e inside missing holds same = absurd (omega arith)
found-set_entry path (x ∷ rest) zero e inside missing holds same =
    let hit : bytes_equal path e.path ≡ true = rw same (bytes_equal_refl path) in
    ground (arith, hit)
found-set_entry path (x ∷ rest) (suc i) e inside missing holds same =
    let ih = found-set_entry path rest i e (omega arith) in ground (arith, ih)

pub found-clear_all :
    (path : Bytes) (entries : List DirCacheEntry) → found path (clear_all entries) ≡ none
unfolding found
found-clear_all path [] = refl
found-clear_all path (e ∷ rest) = found-clear_all path rest
