-- ===== src/DirCache/Races/Finished.antt =====
-- A `Delete` with no other call between its statements.
use mathlib.Core.List.{append_assoc}
use shiroikuma_gcfs.Prelude.{
  ℕ, zero, suc, ◌+◌, ◌≤◌, ◌≡◌, refl, sym, ap, ◌∙◌, inl, inr, Bool-cases, true, false, List, [], ◌∷◌,
  ◌++◌, arith, leb, length, Bytes, bytes_equal, length-append,
}
use shiroikuma_gcfs.DirCache.{
  DirCacheEntry, DirCache, cleared_entry, closing, entry_at, set_entry, delete, delete_in,
  delete_closing,
}
use shiroikuma_gcfs.DirCache.Races.{
  Delete, looking, clearing, done, close_fd, delete_step, delete_steps,
}

entry_at-append :
    (before : List DirCacheEntry) (e : DirCacheEntry) (rest : List DirCacheEntry)
    → entry_at (before ++ (e ∷ rest)) (length before) ≡ e
entry_at-append [] e rest = refl
entry_at-append (x ∷ before) e rest = entry_at-append before e rest

set_entry-append :
    (before : List DirCacheEntry) (e new : DirCacheEntry) (rest : List DirCacheEntry)
    → set_entry (before ++ (e ∷ rest)) (length before) new ≡ before ++ (new ∷ rest)
set_entry-append [] e new rest = refl
set_entry-append (x ∷ before) e new rest = ap (λ l. x ∷ l) (set_entry-append before e new rest)

delete_steps-done :
    (n : ℕ) (path : Bytes) (d : DirCache) → delete_steps n path (done, d) ≡ (done, d)
unfolding delete_steps delete_step
delete_steps-done zero path d = refl
delete_steps-done (suc n) path d = delete_steps-done n path d

-- The cache with the entries and the closed file descriptors given.
abbrev cache : DirCache → List DirCacheEntry → List ℕ → DirCache
cache d entries closed = record {
  iv_len = d.iv_len;
  entries = entries;
  next_index = d.next_index;
  closed = closed;
}

-- The four statements on an entry.
clearing_lem :
    (n : ℕ) (path : Bytes) (d : DirCache) (before rest : List DirCacheEntry) (e : DirCacheEntry)
    (closed : List ℕ)
    → delete_steps
        (suc (suc (suc (suc n))))
        path
        (clearing (length before) close_fd, cache d (before ++ (e ∷ rest)) closed)
      ≡ (done, cache d (before ++ (cleared_entry ∷ rest)) (closing e closed))
unfolding delete_steps delete_step
clearing_lem n path d before rest e closed =
    rw
      (
        entry_at-append before e rest,
        set_entry-append before e (record e { fd = 0 }) rest,
        entry_at-append before (record e { fd = 0 }) rest,
        set_entry-append before (record e { fd = 0 }) (record e { fd = 0; path = [] }) rest,
        entry_at-append before (record e { fd = 0; path = [] }) rest,
        set_entry-append before (record e { fd = 0; path = [] }) cleared_entry rest,
      )
      (delete_steps-done n path (cache d (before ++ (cleared_entry ∷ rest)) (closing e closed)))

-- One entry on.
moved :
    (n : ℕ) (path : Bytes) (d : DirCache) (before rest : List DirCacheEntry) (e : DirCacheEntry)
    (closed : List ℕ) {r : Delete × DirCache}
    → delete_steps n path
        (looking (length (before ++ (e ∷ []))), cache d ((before ++ (e ∷ [])) ++ rest) closed)
      ≡ r
    → delete_steps n path (looking (length before + 1), cache d (before ++ (e ∷ rest)) closed) ≡ r
moved n path d before rest e closed {r} ih =
    let longer : length before + 1 ≡ length (before ++ (e ∷ [])) =
      omega (arith, length-append before (e ∷ [])) in
    rw (longer, sym (append_assoc before (e ∷ []) rest)) ih

module _ (path : Bytes) (d : DirCache) (before rest : List DirCacheEntry) (e : DirCacheEntry)
    (closed : List ℕ) where
  abbrev here : DirCache
  here = cache d (before ++ (e ∷ rest)) closed

  not_over : leb (length (before ++ (e ∷ rest))) (length before) ≡ false
  not_over = let longer = length-append before (e ∷ rest) in ground (arith, longer)

  delete_step-hit :
      bytes_equal e.path path ≡ true
      → delete_step path (looking (length before)) here ≡ (clearing (length before) close_fd, here)
  unfolding delete_step
  delete_step-hit same = rw (not_over, entry_at-append before e rest, same) refl

  delete_step-miss :
      bytes_equal e.path path ≡ false
      → delete_step path (looking (length before)) here ≡ (looking (length before + 1), here)
  unfolding delete_step
  delete_step-miss differ = rw (not_over, entry_at-append before e rest, differ) refl

delete_step-over :
    (path : Bytes) (d : DirCache) (before : List DirCacheEntry) (closed : List ℕ)
    → delete_step path (looking (length before)) (cache d (before ++ []) closed)
      ≡ (done, cache d (before ++ []) closed)
unfolding delete_step
delete_step-over path d before closed =
    let same = length-append before [] in
    let over : leb (length (before ++ [])) (length before) ≡ true = ground (arith, same) in
    rw over refl

-- The loop from an entry on.
looking_lem :
    (n : ℕ) (path : Bytes) (d : DirCache) (before rest : List DirCacheEntry) (closed : List ℕ)
    → length rest + 5 ≤ n
    → delete_steps n path (looking (length before), cache d (before ++ rest) closed)
      ≡ (done, cache d (before ++ delete_in path rest) (delete_closing path rest closed))
unfolding delete_steps delete_in delete_closing
looking_lem zero path d before rest closed enough = absurd (omega arith)
looking_lem (suc n) path d before [] closed enough =
    rw (delete_step-over path d before closed)
      (delete_steps-done n path (cache d (before ++ []) closed))
looking_lem (suc (suc (suc (suc (suc n))))) path d before (e ∷ rest) closed enough =
    elim (Bool-cases (bytes_equal e.path path)) [
      | inl same ↦
          rw (delete_step-hit path d before rest e closed same, same)
            (clearing_lem n path d before rest e closed)
      | inr differ ↦
          rw (delete_step-miss path d before rest e closed differ, differ)
            (moved (suc (suc (suc (suc n)))) path d before rest e closed (
              looking_lem (suc (suc (suc (suc n)))) path d (before ++ (e ∷ [])) rest closed
                (omega (arith, enough))
              ∙ ap (λ l. (done, cache d l (delete_closing path rest closed)))
                  (append_assoc before (e ∷ []) (delete_in path rest))))
    ]
looking_lem (suc zero) path d before (e ∷ rest) closed enough = absurd (omega arith)
looking_lem (suc (suc zero)) path d before (e ∷ rest) closed enough = absurd (omega arith)
looking_lem (suc (suc (suc zero))) path d before (e ∷ rest) closed enough = absurd (omega arith)
looking_lem (suc (suc (suc (suc zero)))) path d before (e ∷ rest) closed enough =
    absurd (omega arith)

-- Delete, one statement after the other from the start of its loop with no call of another
-- operation between them, has ended after five statements more than there are entries, and leaves
-- the cache that delete gives: the first entry with the path is cleared, and its file descriptor
-- closed.
pub delete_steps-delete :
    (d : DirCache) (path : Bytes) (n : ℕ)
    → length d.entries + 5 ≤ n
    → delete_steps n path (looking 0, d) ≡ (done, delete d path)
unfolding delete
delete_steps-delete d path n enough = looking_lem n path d [] d.entries d.closed enough
