-- ===== src/DirCache/Reached.antt =====
-- The caches that the operations reach from the new one, one after the other, and the invariant that they keep.
use shiroikuma_gcfs.Prelude.{
  ℕ, zero, suc, ◌<◌, ◌≡◌, refl, sym, ap, ◌∙◌, Bool, true, false, Option, none, some, List, [], ◌∷◌,
  Outcome, ok, arith, ◌==◌, ◌!=◌, ◌||◌, not, if◌then◌else◌, length, All, replicate, Bytes,
  bytes_equal, past_panic,
}
use shiroikuma_gcfs.DirCache.{
  DirCacheEntry, DirCache, cleared_entry, new_dir_cache, clear, clear_all, set_entry, stored_entry,
  store, found, delete, delete_in,
}

-- Every cache that calls of the operations lead to, none beside another, whatever `Dup` returns to them.
pub data Reached (iv_len : ℕ) : DirCache → Type 0 where
  fresh : Reached iv_len (new_dir_cache iv_len)
  cleared : (d : DirCache) → Reached iv_len d → Reached iv_len (clear d)
  stored :
      (d d' : DirCache) (path : Bytes) (fd : ℕ) (iv : Bytes) (fd2 : Option ℕ)
      → Reached iv_len d
      → store d path fd iv fd2 ≡ ok d'
      → Reached iv_len d'
  deleted : (d : DirCache) (path : Bytes) → Reached iv_len d → Reached iv_len (delete d path)

-- An entry with a file descriptor has an IV of the right length.
abbrev pub IsEntry : ℕ → DirCacheEntry → Type 0
IsEntry iv_len e = 0 < e.fd → length e.iv ≡ iv_len

pub record IsDirCache (iv_len : ℕ) (d : DirCache) : Type 0 where
  pub same_len : d.iv_len ≡ iv_len
  pub full : length d.entries ≡ 20
  pub inside : d.next_index < 20
  pub sized : All (IsEntry iv_len) d.entries

abbrev Sized : ℕ → List DirCacheEntry → Type 0
Sized iv_len entries = All (IsEntry iv_len) entries

clear_all-Sized :
    (n : ℕ) (entries : List DirCacheEntry)
    → Sized n (clear_all entries) × (length (clear_all entries) ≡ length entries)
clear_all-Sized n [] = (tt, refl)
clear_all-Sized n (e ∷ rest) =
    let ih = clear_all-Sized n rest in ((λ h. absurd (omega arith), ih.0), omega (arith, ih.1))

set_entry-Sized :
    (n : ℕ) (entries : List DirCacheEntry) (i : ℕ) (e : DirCacheEntry)
    → Sized n entries
    → IsEntry n e
    → Sized n (set_entry entries i e) × (length (set_entry entries i e) ≡ length entries)
set_entry-Sized n [] i e h he = (tt, refl)
set_entry-Sized n (x ∷ rest) zero e h he = ((he, h.1), refl)
set_entry-Sized n (x ∷ rest) (suc i) e h he =
    let ih = set_entry-Sized n rest i e h.1 he in ((h.0, ih.0), omega (arith, ih.1))

delete_in-Sized :
    (n : ℕ) (path : Bytes) (entries : List DirCacheEntry)
    → Sized n entries
    → Sized n (delete_in path entries) × (length (delete_in path entries) ≡ length entries)
unfolding delete_in
delete_in-Sized n path [] h = (tt, refl)
delete_in-Sized n path (e ∷ rest) h =
    choose (bytes_equal e.path path) (delete_in-Sized n path rest h.1)
  where
    choose :
        (b : Bool)
        → Sized n (delete_in path rest) × (length (delete_in path rest) ≡ length rest)
        → Sized n (if b then cleared_entry ∷ rest else e ∷ delete_in path rest)
          × (length (if b then cleared_entry ∷ rest else e ∷ delete_in path rest)
              ≡ suc (length rest))
    choose true ih = ((λ k. absurd (omega arith), h.1), refl)
    choose false ih = ((h.0, ih.0), omega (arith, ih.1))

stored_entry-IsEntry :
    (n : ℕ) (path : Bytes) (fd2 : Option ℕ) (iv : Bytes)
    → length iv ≡ n
    → IsEntry n (stored_entry path fd2 iv)
unfolding stored_entry
stored_entry-IsEntry n path (some fd2) iv h = λ k. h
stored_entry-IsEntry n path none iv h = λ k. absurd (omega arith)

replicate-Sized : (n k : ℕ) → Sized n (replicate k cleared_entry)
replicate-Sized n zero = tt
replicate-Sized n (suc k) = (λ h. absurd (omega arith), replicate-Sized n k)

ok_cache : {d e : DirCache} → Outcome.ok d ≡ ok e → d ≡ e
ok_cache h = cc h

store-IsDirCache :
    (n : ℕ) (d d' : DirCache) (path : Bytes) (fd : ℕ) (iv : Bytes) (fd2 : Option ℕ)
    → IsDirCache n d
    → store d path fd iv fd2 ≡ ok d'
    → IsDirCache n d'
unfolding store
store-IsDirCache n d d' path fd iv fd2 v h =
    let (guard, made) = past_panic (fd == 0 || length iv != d.iv_len) _ h in
    let size : length iv ≡ n = ground (arith, guard, v.same_len) in
    let (sized, full) =
      set_entry-Sized n d.entries d.next_index (stored_entry path fd2 iv) v.sized
        (stored_entry-IsEntry n path fd2 iv size) in
    rw (← ok_cache made) (record {
      same_len = v.same_len;
      full = full ∙ v.full;
      inside = omega (arith, v.inside);
      sized = sized;
    })

pub Reached-IsDirCache : (n : ℕ) (d : DirCache) → Reached n d → IsDirCache n d
unfolding new_dir_cache clear delete
Reached-IsDirCache n d fresh = record {
  same_len = refl;
  full = refl;
  inside = omega arith;
  sized = replicate-Sized n 20;
}
Reached-IsDirCache n d (cleared d0 r) =
    let v = Reached-IsDirCache n d0 r in
    let (sized, full) = clear_all-Sized n d0.entries in
    record { same_len = v.same_len; full = full ∙ v.full; inside = v.inside; sized = sized }
Reached-IsDirCache n d (stored d0 d' path fd iv fd2 r h) =
    store-IsDirCache n d0 d' path fd iv fd2 (Reached-IsDirCache n d0 r) h
Reached-IsDirCache n d (deleted d0 path r) =
    let v = Reached-IsDirCache n d0 r in
    let (sized, full) = delete_in-Sized n path d0.entries v.sized in
    record { same_len = v.same_len; full = full ∙ v.full; inside = v.inside; sized = sized }

pub found_lem :
    (n : ℕ) (path : Bytes) (entries : List DirCacheEntry) (e : DirCacheEntry)
    → Sized n entries
    → found path entries ≡ some e
    → length e.iv ≡ n
unfolding found
found_lem n path [] e h made = cc made
found_lem n path (x ∷ rest) e h made =
    choose (λ m. found_lem n path rest e h.1 m) (x.fd == 0) (not (bytes_equal path x.path)) refl
      made
  where
    choose :
        (found path rest ≡ some e → length e.iv ≡ n)
        → (a b : Bool) → (x.fd == 0) ≡ a
        → (if a then found path rest else if b then found path rest else some x) ≡ some e
        → length e.iv ≡ n
    choose ih true b ea made = ih made
    choose ih false true ea made = ih made
    choose ih false false ea made =
        let same : x ≡ e = cc made in ap (λ k. length k.iv) (sym same) ∙ h.0 (ground (arith, ea))
