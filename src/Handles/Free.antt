-- ===== src/Handles/Free.antt =====
-- The number that `registerFileHandle` takes.
use shiroikuma_gcfs.Prelude.{
  ℕ, zero, suc, ◌+◌, ◌<◌, ◌≤◌, ◌≡◌, ◌≢◌, refl, ◌∙◌, ap, true, false, Option, none, some, [], ◌∷◌,
  Outcome, ok, panic, ◌>>=◌, ◌⊎◌, arith, ◌==◌, leb, if◌then◌else◌, length, Bytes, Bool-cases, inl,
  inr,
}
use shiroikuma_gcfs.Handles.{
  File, Table, load, is_used, first_free, register_file_handle, remove, close_file,
}

-- How many of the numbers are `c` or more.
abbrev above : ℕ → Table → ℕ
above c [] = 0
above c ((k, v) ∷ rest) = (if leb c k then 1 else 0) + above c rest

above-suc : (c : ℕ) (table : Table) → above (c + 1) table ≤ above c table
above-suc c [] = omega arith
above-suc c ((k, v) ∷ rest) = ground (arith, above-suc c rest)

above-used :
    (c : ℕ) (table : Table) → is_used (load table c) ≡ true → above (c + 1) table < above c table
unfolding load is_used
above-used c [] h = cc h
above-used c ((k, v) ∷ rest) h = ground (arith, above-used c rest, above-suc c rest)

above-zero : (table : Table) → above 0 table ≤ length table
above-zero [] = omega arith
above-zero ((k, v) ∷ rest) = ground (arith, above-zero rest)

-- A number from `start` on that is free, and the least such.
record IsFirstFree (table : Table) (start c : ℕ) : Type 0 where
  from : start ≤ c
  free : load table c ≡ none
  least : (k : ℕ) → start ≤ k → k < c → is_used (load table k) ≡ true

unused : (o : Option File) → is_used o ≡ false → o ≡ none
unfolding is_used
unused none h = refl
unused (some v) h = cc h

first_free_lem :
    (table : Table) (fuel start : ℕ)
    → above start table < fuel
    → (c : ℕ) × (first_free table fuel start ≡ ok c) × IsFirstFree table start c
unfolding first_free
first_free_lem table zero start enough = absurd (omega arith)
first_free_lem table (suc fuel) start enough = elim (Bool-cases (is_used (load table start))) [
  | inl used ↦
      let (c, e, p) =
        first_free_lem table fuel (start + 1) (omega (arith, above-used start table used)) in
      (c, rw used e, further c used p)
  | inr not_used ↦ (
    start,
    rw not_used refl,
    record {
      from = omega arith;
      free = unused (load table start) not_used;
      least = λ k h h'. absurd (omega arith);
    },
  )
]
  where
    further :
        (c : ℕ)
        → is_used (load table start) ≡ true
        → IsFirstFree table (start + 1) c
        → IsFirstFree table start c
    further c used p = record {
      from = omega (arith, p.from);
      free = p.free;
      least = λ k h h'. elim (Bool-cases (k == start)) [
        | inl same ↦ ap (λ i. is_used (load table i)) (ground (arith, same)) ∙ used
        | inr other ↦ p.least k (ground (arith, other, h)) h'
      ];
    }

-- registerFileHandle terminates for every table of handles, with the least number that is not in
-- use; the new table holds the file, with no cached file ID, under that number and is the old table
-- everywhere else.
pub register_file_handle_lem :
    (table : Table) (fd : ℕ) (path : Bytes)
    → (c : ℕ) × (table' : Table) × (register_file_handle table fd path ≡ ok (c, table'))
      × (load table c ≡ none)
      × ((k : ℕ) → k < c → is_used (load table k) ≡ true)
      × (load table' c ≡ some (record { fd = fd; path = path; id = none }))
      × ((k : ℕ) → k ≢ c → load table' k ≡ load table k)
unfolding register_file_handle load
register_file_handle_lem table fd path =
    let (c, e, p) = first_free_lem table (suc (length table)) 0 (omega (arith, above-zero table)) in
    let new : File = record { fd = fd; path = path; id = none } in
    (
      c,
      (c, new) ∷ table,
      rw e refl,
      p.free,
      λ k h. p.least k (omega arith) h,
      ground arith,
      λ k h. ground (arith, h),
    )

pub load-remove :
    (table : Table) (c k : ℕ) → load (remove table c) k ≡ (if k == c then none else load table k)
unfolding load remove
load-remove [] c k = ground arith
load-remove ((j, v) ∷ rest) c k = let ih = load-remove rest c k in ground (arith, ih)

closes :
    (o : Option File) (f : File) (t : Table)
    → o ≡ some f
    → elim o [ none ↦ panic | some f ↦ ok t ] ≡ Outcome.ok t
closes none f t h = cc h
closes (some g) f t h = refl

-- Closing the handle that registerFileHandle returned does not panic, and leaves every number with
-- the file that it had before.
pub close_file-register_file_handle :
    (table : Table) (fd : ℕ) (path : Bytes)
    → (table' : Table) × ((register_file_handle table fd path >>= λ r. close_file r.1 r.0)
        ≡ ok table')
      × ((k : ℕ) → load table' k ≡ load table k)
unfolding close_file
close_file-register_file_handle table fd path =
    let (c, made, e, free, _, stored, others) = register_file_handle_lem table fd path in
    (
      remove made c,
      rw e (
          closes (load made c) (record { fd = fd; path = path; id = none }) (remove made c) stored),
      λ k. load-remove made c k ∙ back k (load made k) (Bool-cases (k == c)) free (others k),
    )
  where
    back :
        {c : ℕ} (k : ℕ) (o : Option File)
        → ((k == c) ≡ true) ⊎ ((k == c) ≡ false)
        → load table c ≡ none
        → (k ≢ c → o ≡ load table k)
        → (if k == c then none else o) ≡ load table k
    back {c} k o (inl same) free other =
        let e : k ≡ c = ground (arith, same) in rw (same, e, free) refl
    back {c} k o (inr differs) free other = rw differs (other (λ e. ground (arith, e, differs)))
