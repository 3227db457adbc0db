-- ===== src/Getdents/Termination.antt =====
-- Every buffer is read to its end or refused.
use shiroikuma_gcfs.Prelude.{
  ℕ, zero, suc, ◌+◌, ◌<◌, ◌≡◌, refl, ◌⊎◌, inl, inr, Bool, true, false, Option, List, [], ◌∷◌, ◌++◌,
  Outcome, ok, err, ebadr, ◌>>=◌, arith, ltb, ◌==◌, if◌then◌else◌, if-cases, length, drop,
  length-drop, All, Bytes,
}
use shiroikuma_gcfs.Getdents.{
  Call, chunk, DirEntry, max_reclen, collect, reclen, name_field, name_len, count_entries,
  getdents_name, parse_entries, getdents,
}
use shiroikuma_gcfs.Getdents.Parsing.{HasData, payload, collect-payload}

abbrev Ends : {A : Type 0} → Outcome A → Type 0
Ends {A} m = ((a : A) × (m ≡ ok a)) ⊎ (m ≡ err ebadr)

Ends-if :
    {A : Type 0} (b : Bool) (m n : Outcome A)
    → (b ≡ true → Ends m)
    → (b ≡ false → Ends n)
    → Ends (if b then m else n)
Ends-if true m n left right = left refl
Ends-if false m n left right = right refl

Ends-bind :
    {A B : Type 0} (m : Outcome A) (f : A → Outcome B)
    → Ends m
    → ((a : A) → m ≡ ok a → Ends (f a))
    → Ends (m >>= f)
Ends-bind m f (inl (a, e)) next = rw e (next a e)
Ends-bind m f (inr e) next = inr (rw e refl)

not_zero-lt : (n : ℕ) → (n == 0) ≡ false → 0 < n
not_zero-lt n h = ground (arith, h)

shorter :
    (rest : Bytes) (fuel : ℕ)
    → length rest < suc fuel
    → (length rest == 0) ≡ false
    → (reclen rest == 0) ≡ false
    → length (drop (reclen rest) rest) < fuel
shorter rest fuel enough some_left some_size = omega (
  arith,
  enough,
  not_zero-lt (length rest) some_left,
  not_zero-lt (reclen rest) some_size,
  length-drop (reclen rest) rest,
)

count_entries-Ends :
    (fuel n : ℕ) (rest : Bytes) → length rest < fuel → Ends (count_entries fuel rest n)
unfolding count_entries
count_entries-Ends zero n rest enough = absurd (omega arith)
count_entries-Ends (suc fuel) n rest enough =
    Ends-if (length rest == 0) _ _ (λ empty. inl (n, refl))
      (λ some_left.
        Ends-if (reclen rest == 0) _ _ (λ none_left. inr refl)
          (λ some_size.
            Ends-if (ltb max_reclen (reclen rest)) _ _ (λ big. inr refl)
              (λ small.
                count_entries-Ends fuel (n + 1) (drop (reclen rest) rest)
                  (shorter rest fuel enough some_left some_size))))

getdents_name-Ends : (rest : Bytes) → Ends (getdents_name rest)
unfolding getdents_name
getdents_name-Ends rest =
    Ends-if (ltb (name_len (name_field rest)) 1) _ _ (λ no_name. inr refl) (λ named. inl (_, refl))

-- A record in front of the end that the first loop goes past.
count_entries-past :
    (fuel n k : ℕ) (rest : Bytes)
    → (length rest == 0) ≡ false
    → count_entries (suc fuel) rest n ≡ ok k
    → ((reclen rest == 0) ≡ false) × (count_entries fuel (drop (reclen rest) rest) (n + 1) ≡ ok k)
unfolding count_entries
count_entries-past fuel n k rest some_left counted =
    elim (if-cases (length rest == 0) _ _ counted) [
      | inl (empty, done) ↦ absurd (clash empty some_left)
      | inr (full, first) ↦ elim (if-cases (reclen rest == 0) _ _ first) [
        | inl (none_left, refused) ↦ absurd (refusal refused)
        | inr (some_size, second) ↦ elim (if-cases (ltb max_reclen (reclen rest)) _ _ second) [
          | inl (big, refused) ↦ absurd (refusal refused)
          | inr (small, third) ↦ (some_size, third)
        ]
      ]
    ]
  where
    clash : {b : Bool} → b ≡ true → b ≡ false → ⊥
    clash h k = cc

    refusal : {j : ℕ} → ◌≡◌ {A = Outcome ℕ} (err ebadr) (ok j) → ⊥
    refusal e = cc

-- Where the first loop succeeds, each record has a length.
parse_entries-Ends :
    (stat : Bytes → Option ℕ) (fuel n k : ℕ) (rest : Bytes)
    → length rest < fuel
    → count_entries fuel rest n ≡ ok k
    → Ends (parse_entries stat fuel rest)
unfolding parse_entries
parse_entries-Ends stat zero n k rest enough counted = absurd (omega arith)
parse_entries-Ends stat (suc fuel) n k rest enough counted =
    Ends-if (length rest == 0) _ _ (λ empty. inl (_, refl))
      (λ some_left.
        let (some_size, later) = count_entries-past fuel n k rest some_left counted in
        Ends-bind (getdents_name rest) _ (getdents_name-Ends rest) (λ name named.
          Ends-bind (parse_entries stat fuel (drop (reclen rest) rest)) _
            (parse_entries-Ends stat fuel (n + 1) k (drop (reclen rest) rest)
              (shorter rest fuel enough some_left some_size) later)
            (λ found e. inl (_, refl))))

-- For every bytes that the system returns without another error than EINTR, up to the call that
-- returns none, getdents ends with entries or with EBADR; it does not run on, and does not panic.
pub getdents-Ends :
    (stat : Bytes → Option ℕ) (calls : List Call)
    → All HasData calls
    → ((found : List DirEntry × List DirEntry) × (getdents stat (calls ++ (chunk [] ∷ []))
          ≡ ok found))
      ⊎ (getdents stat (calls ++ (chunk [] ∷ [])) ≡ err ebadr)
unfolding getdents
getdents-Ends stat calls all =
    Ends-bind (collect [] (calls ++ (chunk [] ∷ []))) _
      (inl (payload calls, collect-payload calls [] all))
      (λ buf collected.
        Ends-bind (count_entries (suc (length buf)) buf 0) _
          (count_entries-Ends (suc (length buf)) 0 buf (omega arith))
          (λ n counted. parse_entries-Ends stat (suc (length buf)) 0 n buf (omega arith) counted))
