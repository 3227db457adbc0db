-- ===== src/DirCache/Lookups.antt =====
-- What lookups return behind the other operations.
use shiroikuma_gcfs.Prelude.{
  ℕ, ◌<◌, ◌≡◌, refl, ap, ◌∙◌, false, Option, none, some, List, [], ◌∷◌, ok, ◌>>=◌, arith, ◌==◌,
  ◌!=◌, ◌||◌, if◌then◌else◌, length, Bytes,
}
use shiroikuma_gcfs.DirCache.{
  DirCacheEntry, DirCache, clear, close_all, closing, stored_entry, store, found, lookup,
}
use shiroikuma_gcfs.DirCache.Entries.{found-set_entry, found-clear_all}
use shiroikuma_gcfs.DirCache.Reached.{Reached, Reached-IsDirCache}

-- In every cache that the operations reach from the new one, storing a directory under a path that
-- no open entry has makes the next lookup of the path return a duplicate of the stored file
-- descriptor with the stored IV; the file descriptors are valid, the IV has the right length and
-- Dup succeeds both times.
pub lookup-store :
    (n : ℕ) (d : DirCache)
    → Reached n d
    → (dup : ℕ → Option ℕ) (path : Bytes) (fd fd2 fd3 : ℕ) (iv : Bytes)
    → found path d.entries ≡ none
    → 0 < fd
    → 0 < fd2
    → 0 < fd3
    → length iv ≡ n
    → dup fd2 ≡ some fd3
    → (store d path fd iv (some fd2) >>= λ d'. lookup d' dup path) ≡ ok (some (fd3, iv))
unfolding store lookup stored_entry
lookup-store n d r dup path fd fd2 fd3 iv missing valid valid2 valid3 size duplicate =
    let v = Reached-IsDirCache n d r in
    let e : DirCacheEntry = record { path = path; fd = fd2; iv = iv } in
    let there =
      found-set_entry path d.entries d.next_index e (omega (arith, v.inside, v.full)) missing valid2
        refl in
    let guard : (fd == 0 || length iv != d.iv_len) ≡ false = ground (arith, size, v.same_len) in
    rw (guard) (rw (lookup, there) (rw (duplicate) (ground (arith, size, v.same_len))))

-- The file descriptors of the open entries, put in front of a list one by one.
abbrev pub held : List DirCacheEntry → List ℕ → List ℕ
held [] closed = closed
held (e ∷ rest) closed = held rest (if e.fd == 0 then closed else e.fd ∷ closed)

close_all_lem :
    (entries : List DirCacheEntry) (closed : List ℕ)
    → close_all entries closed ≡ held entries closed
unfolding close_all
close_all_lem [] closed = refl
close_all_lem (e ∷ rest) closed =
    close_all_lem rest (closing e closed) ∙ ap (held rest) (ground arith)

-- After a clear every lookup misses, and each file descriptor that the cache held is closed once,
-- in the order of the entries.
pub lookup-clear :
    (d : DirCache) (dup : ℕ → Option ℕ) (path : Bytes)
    → (lookup (clear d) dup path ≡ ok none) × ((clear d).closed ≡ held d.entries d.closed)
unfolding lookup clear close_all
lookup-clear d dup path =
    (rw (lookup, found-clear_all path d.entries) refl, close_all_lem d.entries d.closed)
