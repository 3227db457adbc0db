-- ===== src/Getdents/Parsing.antt =====
-- Records as the kernel writes them are read back.
use mathlib.Core.List.{append-nil, append_assoc}
use shiroikuma_gcfs.Prelude.{
  ℕ, zero, suc, ◌+◌, ◌/◌, ◌%◌, ◌≤◌, ◌<◌, ◌≡◌, ◌≢◌, refl, sym, ap, ◌∙◌, false, Option, List, [], ◌∷◌,
  ◌++◌, ok, arith, ◌==◌, length, get_or, take, drop, drop-drop, drop-append_length,
  take-append_length, take-take, replicate, length-append, length-replicate, All, Bytes, not-ltb,
}
use shiroikuma_gcfs.Prelude.Positions.{get_or-append}
use shiroikuma_gcfs.Getdents.{
  Call, interrupted, chunk, failed, DirEntry, max_reclen, zeros, collect, reclen, type_of,
  name_field, count_entries, name_len, getdents_name, add_entry, parse_entries, getdents,
}
use shiroikuma_gcfs.Getdents.Dirents.{
  Dirent, size, encode, IsDirent, encode_all, entries_of, add_entry-entries_of,
}

not_zero : (n : ℕ) → 0 < n → (n == 0) ≡ false
not_zero n h = ground arith

pad_first : (n : ℕ) → 0 < n → (m : Bytes) × (replicate n 0 ≡ 0 ∷ m)
pad_first zero h = absurd (omega arith)
pad_first (suc n) h = (replicate n 0, refl)

getdents_name-ok :
    (rest name : Bytes)
    → name_len (name_field rest) ≡ length name
    → take (length name) (name_field rest) ≡ name
    → 0 < length name
    → getdents_name rest ≡ ok name
unfolding getdents_name
getdents_name-ok rest name sized taken some_name =
    rw (getdents_name, sized, not-ltb 1 (length name) some_name, taken) refl

name_len-suc : (c : ℕ) (xs : Bytes) → c ≢ 0 → 0 < length xs → name_len (c ∷ xs) ≡ suc (name_len xs)
name_len-suc c [] h k = absurd (omega arith)
name_len-suc c (d ∷ cs) h k = ground (arith, h)

name_len-ended :
    (n : ℕ) (name more : Bytes)
    → All (λ c. c ≢ 0) name
    → length name ≤ n
    → name_len (take (suc n) (name ++ (0 ∷ more))) ≡ length name
name_len-ended zero [] more h k = refl
name_len-ended (suc n) [] [] h k = refl
name_len-ended (suc n) [] (x ∷ more) h k = refl
name_len-ended zero (c ∷ cs) more h k = absurd (omega arith)
name_len-ended (suc n) (c ∷ cs) more (h, hs) k =
    name_len-suc c (take (suc n) (cs ++ (0 ∷ more))) h (some_left cs)
    ∙ ap suc (name_len-ended n cs more hs (omega (arith, k)))
  where
    some_left : (xs : Bytes) → 0 < length (take (suc n) (xs ++ (0 ∷ more)))
    some_left [] = omega arith
    some_left (x ∷ xs) = omega arith

module _ (d : Dirent) (v : IsDirent d) (rest : Bytes) where
  fields : Bytes
  fields = size d % 256 ∷ size d / 256 ∷ d.dtype ∷ (d.name ++ (replicate d.pad 0 ++ rest))

  encode-append : encode d ++ rest ≡ d.head ++ fields
  unfolding fields
  encode-append =
      append_assoc d.head (size d % 256 ∷ size d / 256 ∷ d.dtype ∷ (d.name ++ replicate d.pad 0))
        rest
      ∙ ap (λ l. d.head ++ (size d % 256 ∷ size d / 256 ∷ d.dtype ∷ l))
          (append_assoc d.name (replicate d.pad 0) rest)

  get_or-field : (k : ℕ) → get_or (encode d ++ rest) (16 + k) 0 ≡ get_or fields k 0
  get_or-field k =
      ap (λ l. get_or l (16 + k) 0) encode-append
      ∙ get_or-append d.head fields (16 + k) 0
      ∙ rw (v.head_sized, not-ltb 16 (16 + k) (omega arith))
          (ap (λ j. get_or fields j 0) (omega arith))

  drop-field : (k : ℕ) → drop (16 + k) (encode d ++ rest) ≡ drop k fields
  drop-field k =
      ap (drop (16 + k)) encode-append
      ∙ sym (drop-drop 16 k (d.head ++ fields))
      ∙ ap (drop k) (
          ap (λ n. drop n (d.head ++ fields)) (sym v.head_sized) ∙ drop-append_length d.head fields)

  reclen-encode : reclen (encode d ++ rest) ≡ size d
  unfolding fields
  reclen-encode = omega (arith, get_or-field 0, get_or-field 1, v.fits)

  type_of-encode : type_of (encode d ++ rest) ≡ d.dtype
  unfolding fields
  type_of-encode = get_or-field 2

  length-encode : length (encode d) ≡ size d
  length-encode = omega (
    arith,
    length-append d.head (size d % 256 ∷ size d / 256 ∷ d.dtype ∷ (d.name ++ replicate d.pad 0)),
    length-append d.name (replicate d.pad 0),
    length-replicate {A = ℕ} d.pad 0,
    v.head_sized,
  )

  drop-encode : drop (reclen (encode d ++ rest)) (encode d ++ rest) ≡ rest
  drop-encode =
      ap (λ n. drop n (encode d ++ rest)) (reclen-encode ∙ sym length-encode)
      ∙ drop-append_length (encode d) rest

  name_field-encode :
      (more : Bytes) × (name_field (encode d ++ rest) ≡ take 256 (d.name ++ (0 ∷ more)))
  unfolding fields
  name_field-encode =
      let (m, e) = pad_first d.pad v.ended in
      (
        (m ++ rest) ++ zeros,
        ap (λ l. take 256 (l ++ zeros)) (drop-field 3)
            ∙ ap (λ l. take 256 ((d.name ++ (l ++ rest)) ++ zeros)) e
            ∙ ap (take 256) (append_assoc d.name (0 ∷ (m ++ rest)) zeros),
      )

  getdents_name-encode : getdents_name (encode d ++ rest) ≡ ok d.name
  getdents_name-encode =
      let (more, e) = name_field-encode in
      getdents_name-ok (encode d ++ rest) d.name
        (ap name_len e ∙ name_len-ended 255 d.name more v.no_zero v.not_long)
        (ap (take (length d.name)) e
          ∙ take-take (length d.name) 256 (d.name ++ (0 ∷ more)) (omega (arith, v.not_long))
          ∙ take-append_length d.name (0 ∷ more))
        v.has_name

count_entries-step :
    (fuel n : ℕ) (rest behind : Bytes)
    → 0 < length rest
    → 0 < reclen rest
    → reclen rest ≤ max_reclen
    → drop (reclen rest) rest ≡ behind
    → count_entries (suc fuel) rest n ≡ count_entries fuel behind (n + 1)
unfolding count_entries
count_entries-step fuel n rest behind some_left some_size small e =
    rw
      (
        count_entries,
        (not_zero (length rest) some_left),
        (not_zero (reclen rest) some_size),
        not-ltb (reclen rest) max_reclen small,
        e,
      )
      refl

parse_entries-step :
    (stat : Bytes → Option ℕ) (fuel dtype : ℕ) (rest behind name : Bytes)
    {found : List DirEntry × List DirEntry}
    → 0 < length rest
    → getdents_name rest ≡ ok name
    → type_of rest ≡ dtype
    → drop (reclen rest) rest ≡ behind
    → parse_entries stat fuel behind ≡ ok found
    → parse_entries stat (suc fuel) rest ≡ ok (add_entry stat name dtype found)
unfolding parse_entries
parse_entries-step stat fuel dtype rest behind name some_left named typed e more =
    rw (parse_entries, not_zero (length rest) some_left, named, typed, e, more) refl

-- The bytes of the calls that are no failure, and none that ends the directory.
abbrev pub HasData : Call → Type 0
HasData (interrupted part) = Unit
HasData (chunk part) = 0 < length part
HasData (failed e) = ⊥

abbrev pub payload : List Call → Bytes
payload [] = []
payload (interrupted part ∷ calls) = part ++ payload calls
payload (chunk part ∷ calls) = part ++ payload calls
payload (failed e ∷ calls) = payload calls

pub collect-payload :
    (calls : List Call) (buf : Bytes)
    → All HasData calls
    → collect buf (calls ++ (chunk [] ∷ [])) ≡ ok (buf ++ payload calls)
unfolding collect
collect-payload [] buf all = ap (λ l. ok l) (sym (append-nil buf))
collect-payload (interrupted part ∷ calls) buf (h, all) =
    collect-payload calls (buf ++ part) all ∙ ap (λ l. ok l) (append_assoc buf part (payload calls))
collect-payload (chunk [] ∷ calls) buf (h, all) = absurd (omega arith)
collect-payload (chunk (c ∷ cs) ∷ calls) buf (h, all) =
    collect-payload calls (buf ++ (c ∷ cs)) all
    ∙ ap (λ l. ok l) (append_assoc buf (c ∷ cs) (payload calls))
collect-payload (failed e ∷ calls) buf (h, all) = elim h [ ]

module _ (stat : Bytes → Option ℕ) where
  count_entries-encode_all :
      (ds : List Dirent) (fuel n : ℕ)
      → All IsDirent ds
      → length (encode_all ds) < fuel
      → (k : ℕ) × (count_entries fuel (encode_all ds) n ≡ ok k)
  unfolding count_entries
  count_entries-encode_all ds zero n v enough = absurd (omega arith)
  count_entries-encode_all [] (suc fuel) n v enough = (n, refl)
  count_entries-encode_all (d ∷ ds) (suc fuel) n (v, vs) enough =
      let sized = length-encode d v [] in
      let whole = length-append (encode d) (encode_all ds) in
      let read = reclen-encode d v (encode_all ds) in
      let (k, e) =
        count_entries-encode_all ds fuel (n + 1) vs (omega (arith, enough, whole, sized)) in
      (
        k,
        count_entries-step fuel n (encode d ++ encode_all ds) (encode_all ds)
              (omega (arith, whole, sized)) (omega (arith, read)) (omega (arith, read, v.fits))
              (drop-encode d v (encode_all ds))
            ∙ e,
      )

  parse_entries-encode_all :
      (ds : List Dirent) (fuel : ℕ)
      → All IsDirent ds
      → length (encode_all ds) < fuel
      → parse_entries stat fuel (encode_all ds) ≡ ok (entries_of stat ds)
  unfolding parse_entries
  parse_entries-encode_all ds zero v enough = absurd (omega arith)
  parse_entries-encode_all [] (suc fuel) v enough = refl
  parse_entries-encode_all (d ∷ ds) (suc fuel) (v, vs) enough =
      let sized = length-encode d v [] in
      let whole = length-append (encode d) (encode_all ds) in
      parse_entries-step stat fuel d.dtype (encode d ++ encode_all ds) (encode_all ds) d.name
        (omega (arith, whole, sized)) (getdents_name-encode d v (encode_all ds))
        (type_of-encode d v (encode_all ds)) (drop-encode d v (encode_all ds))
        (parse_entries-encode_all ds fuel vs (omega (arith, enough, whole, sized)))
      ∙ ap (λ found. ok found) (add_entry-entries_of stat d ds)

  -- For records as the kernel writes them, with a head of 16 bytes, a name of 1 to 255 bytes
  -- without a zero, a zero behind it, and 280 bytes at most: getdents, however the calls of the
  -- system cut the bytes of the records into parts, with EINTR or without, returns the names in
  -- order, the special ones apart, with the mode that the type gives, or the type of the mode that
  -- Fstatat finds where the type is unknown, and without those that it does not find.
  pub getdents-encode_all :
      (ds : List Dirent) (calls : List Call)
      → All IsDirent ds
      → All HasData calls
      → payload calls ≡ encode_all ds
      → getdents stat (calls ++ (chunk [] ∷ [])) ≡ ok (entries_of stat ds)
  unfolding getdents
  getdents-encode_all ds calls v all same =
      let enough : length (encode_all ds) < suc (length (encode_all ds)) = omega arith in
      let (k, counted) = count_entries-encode_all ds (suc (length (encode_all ds))) 0 v enough in
      rw (collect-payload calls [] all, same, counted)
        (parse_entries-encode_all ds (suc (length (encode_all ds))) v enough)
