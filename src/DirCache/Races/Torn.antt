-- ===== src/DirCache/Races/Torn.antt =====
-- A `Store` before the last statement of a `Delete`.
use shiroikuma_gcfs.Prelude.{
  ℕ, zero, suc, ◌+◌, ◌%◌, ◌<◌, ◌≡◌, refl, ap, true, false, Option, none, some, List, [], ◌∷◌, ok,
  panic, ◌>>=◌, arith, ◌==◌, ◌!=◌, ◌||◌, leb, length, Bytes, bytes_equal,
}
use shiroikuma_gcfs.DirCache.{
  DirCacheEntry, DirCache, closing, entry_at, set_entry, stored_entry, store, found, lookup,
}
use shiroikuma_gcfs.DirCache.Entries.{found-set_entry}
use shiroikuma_gcfs.DirCache.Reached.{Reached, Reached-IsDirCache}
use shiroikuma_gcfs.DirCache.Races.{
  Delete, looking, clearing, done, unset_iv, delete_step, delete_steps,
}

entry_at-set_entry :
    (entries : List DirCacheEntry) (i : ℕ) (e : DirCacheEntry)
    → i < length entries
    → entry_at (set_entry entries i e) i ≡ e
entry_at-set_entry [] i e inside = absurd (omega arith)
entry_at-set_entry (x ∷ rest) zero e inside = refl
entry_at-set_entry (x ∷ rest) (suc i) e inside = entry_at-set_entry rest i e (omega arith)

set_entry-set_entry :
    (entries : List DirCacheEntry) (i : ℕ) (a e : DirCacheEntry)
    → set_entry (set_entry entries i a) i e ≡ set_entry entries i e
set_entry-set_entry [] i a e = refl
set_entry-set_entry (x ∷ rest) zero a e = refl
set_entry-set_entry (x ∷ rest) (suc i) a e = ap (λ l. x ∷ l) (set_entry-set_entry rest i a e)

-- A lookup of an open entry without an IV.
lookup-no_iv :
    (d : DirCache) (dup : ℕ → Option ℕ) (path : Bytes) (fd fd3 : ℕ)
    → found path d.entries ≡ some (record { path = path; fd = fd; iv = [] })
    → dup fd ≡ some fd3
    → 0 < fd3
    → 0 < d.iv_len
    → lookup d dup path ≡ panic
unfolding lookup
lookup-no_iv d dup path fd fd3 there duplicate valid some_iv =
    rw (lookup, there) (rw (duplicate) (ground (arith, valid, some_iv)))

module _ (d : DirCache) (path : Bytes) (inside : d.next_index < length d.entries) where
  abbrev at : DirCacheEntry
  at = entry_at d.entries d.next_index

  -- The cache with another entry and the next index given.
  abbrev with_next : DirCacheEntry → ℕ → List ℕ → DirCache
  with_next e next closed = record {
    iv_len = d.iv_len;
    entries = set_entry d.entries d.next_index e;
    next_index = next;
    closed = closed;
  }

  -- All statements of `Delete` but the last one.
  delete_steps-four :
      bytes_equal at.path path ≡ true
      → delete_steps 4 path (looking d.next_index, d) ≡ (
        clearing d.next_index unset_iv,
        with_next (record { path = []; fd = 0; iv = at.iv }) d.next_index (closing at d.closed),
      )
  unfolding delete_steps delete_step
  delete_steps-four same =
      let before : leb (length d.entries) d.next_index ≡ false = ground (arith, inside) in
      rw
        (
          before,
          same,
          entry_at-set_entry d.entries d.next_index (record at { fd = 0 }) inside,
          set_entry-set_entry d.entries d.next_index (record at { fd = 0 })
              (record { path = []; fd = 0; iv = at.iv }),
        )
        refl

  delete_steps-last :
      (e : DirCacheEntry) (next : ℕ) (closed : List ℕ)
      → delete_steps 1 path (clearing d.next_index unset_iv, with_next e next closed)
        ≡ (done, with_next (record e { iv = [] }) next closed)
  unfolding delete_steps delete_step
  delete_steps-last e next closed =
      rw
        (
          entry_at-set_entry d.entries d.next_index e inside,
          set_entry-set_entry d.entries d.next_index e (record e { iv = [] }),
        )
        refl

  store-between :
      (e : DirCacheEntry) (closed : List ℕ) (stored : Bytes) (fd fd2 : ℕ) (iv : Bytes)
      → 0 < fd
      → length iv ≡ d.iv_len
      → (more : List ℕ) × (store (with_next e d.next_index closed) stored fd iv (some fd2)
          ≡ ok (
              with_next
                (record { path = stored; fd = fd2; iv = iv })
                ((d.next_index + 1) % 20)
                more))
  unfolding store stored_entry
  store-between e closed stored fd fd2 iv valid size =
      let guard : (fd == 0 || length iv != d.iv_len) ≡ false = ground (arith, size) in
      (
        closing e closed,
        rw
            (
              guard,
              set_entry-set_entry d.entries d.next_index e
                  (record { path = stored; fd = fd2; iv = iv }),
              entry_at-set_entry d.entries d.next_index e inside,
            )
            refl,
      )

-- In every cache for an IV of one byte or more that operations, none beside another, reach from the
-- new one, when Delete has found its path at the entry where the next Store goes and has executed
-- all statements but the last one, which takes away the IV: a Store that comes then, of a path that
-- no open entry has, with valid file descriptors and an IV of the right length, makes the Lookup of
-- that path behind the end of the Delete panic, where Dup succeeds.
pub lookup-torn_delete :
    (n : ℕ) (d : DirCache)
    → Reached n d
    → (dup : ℕ → Option ℕ) (path stored : Bytes) (fd fd2 fd3 : ℕ) (iv : Bytes)
    → bytes_equal (entry_at d.entries d.next_index).path path ≡ true
    → found stored d.entries ≡ none
    → 0 < fd
    → 0 < fd2
    → 0 < fd3
    → length iv ≡ n
    → 0 < n
    → dup fd2 ≡ some fd3
    → let before : Delete × DirCache = delete_steps 4 path (looking d.next_index, d) in
      (store before.1 stored fd iv (some fd2) >>= λ d'.
      lookup (delete_steps 1 path (before.0, d')).1 dup stored)
      ≡ panic
lookup-torn_delete n d r dup path stored fd fd2 fd3 iv same missing valid valid2 valid3 size some_iv
      duplicate =
    let v = Reached-IsDirCache n d r in
    let inside : d.next_index < length d.entries = omega (arith, v.inside, v.full) in
    let at_next = entry_at d.entries d.next_index in
    let torn : DirCacheEntry = record { path = stored; fd = fd2; iv = [] } in
    let (closed, e) =
      store-between d path inside (record { path = []; fd = 0; iv = at_next.iv })
        (closing at_next d.closed) stored fd fd2 iv valid (omega (arith, size, v.same_len)) in
    rw
      (
        delete_steps-four d path inside same,
        e,
        delete_steps-last d path inside (record { path = stored; fd = fd2; iv = iv })
            ((d.next_index + 1) % 20) closed,
      )
      (lookup-no_iv (with_next d path inside torn ((d.next_index + 1) % 20) closed) dup stored fd2
        fd3 (found-set_entry stored d.entries d.next_index torn inside missing valid2 refl)
        duplicate valid3 (omega (arith, some_iv, v.same_len)))
