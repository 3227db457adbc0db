-- ===== src/Sync/Encrypt/Seen.antt =====
-- The paths that `encryptSync` has seen when its walk ends.
use mathlib.Core.Path.{subst}
use shiroikuma_gcfs.Prelude.{
  if-cases, ◌+◌, ◌≡◌, refl, sym, ap, ◌∙◌, inl, inr, Bool, true, false, List, [], ◌∷◌, Outcome, ok,
  >>=-eq-ok, arith, All, Bytes, bytes_equal_iff,
}
use shiroikuma_gcfs.Sync.{SyncOpts, Paths}
use shiroikuma_gcfs.Sync.Volumes.{Volume, mkdir_all}
use shiroikuma_gcfs.Sync.Encrypt.{
  Entry, Source, Kind, unreadable, directory, irregular, stat_failed, regular, Run, member, needed,
  encrypt_file, counted, transfer, visit_file, visit_kind, visit, walk, vpath_of, is_some, skips,
}

pub ok_injective : {A : Type 0} {a b : A} → ◌≡◌ {A = Outcome A} (ok a) (ok b) → a ≡ b
ok_injective e = cc

module _ (V : Volume) (paths : Paths) (o : SyncOpts) where
  -- The callback adds nothing to `seen` behind `seen[vpath] = true`.
  transfer-seen :
      (vpath rel : Bytes) (f : Source) (exists : Bool) (r q : Run V)
      → transfer V paths o vpath rel f exists r ≡ ok q
      → r.seen ≡ q.seen
  unfolding transfer counted
  transfer-seen vpath rel f exists r q e = elim (if-cases o.dry_run _ _ e) [
    | inl (dry, same) ↦ ap (λ (u : Run V). u.seen) (ok_injective same)
    | inr (real, rest) ↦
        let (t, written, same) =
          >>=-eq-ok (encrypt_file V paths r.vol vpath f)
            (λ s. ok (record (counted V o rel exists r) { vol = V.set_mtime s vpath f.mtime }))
            rest in
        ap (λ (u : Run V). u.seen) (ok_injective same)
  ]

  visit_kind-seen :
      (vpath rel : Bytes) (kind : Kind) (r q : Run V)
      → visit_kind V paths o vpath (record { rel = rel; kind = kind }) r ≡ ok q
      → r.seen ≡ q.seen
  unfolding visit_kind visit_file
  visit_kind-seen vpath rel unreadable r q e = ap (λ (u : Run V). u.seen) (ok_injective e)
  visit_kind-seen vpath rel irregular r q e = ap (λ (u : Run V). u.seen) (ok_injective e)
  visit_kind-seen vpath rel stat_failed r q e = ap (λ (u : Run V). u.seen) (ok_injective e)
  visit_kind-seen vpath rel directory r q e = elim (if-cases o.dry_run _ _ e) [
    | inl (dry, same) ↦ ap (λ (u : Run V). u.seen) (ok_injective same)
    | inr (real, rest) ↦
        let (t, made, same) =
          >>=-eq-ok (mkdir_all V paths r.vol vpath)
            (λ s. ok (record r { dirs = r.dirs + 1; vol = s })) rest in
        ap (λ (u : Run V). u.seen) (ok_injective same)
  ]
  visit_kind-seen vpath rel (regular f) r q e =
      elim (if-cases (needed o (V.get_attrs r.vol vpath) (V.sha256 r.vol vpath) f) _ _ e) [
        | inl (need, moved) ↦
            transfer-seen vpath rel f (is_some (V.get_attrs r.vol vpath)) r q moved
        | inr (idle, same) ↦ ap (λ (u : Run V). u.seen) (ok_injective same)
      ]

  -- What is seen stays seen.
  abbrev pub Seen : Run V → Run V → Type 0
  Seen r q = (x : Bytes) → member x r.seen ≡ true → member x q.seen ≡ true

  visit-seen :
      (e : Entry) (r q : Run V)
      → visit V paths o e r ≡ ok q
      → Seen r q × (skips e ≡ false → member (vpath_of paths o e.rel) q.seen ≡ true)
  unfolding visit member
  visit-seen e r q visited = elim (if-cases (skips e) _ _ visited) [
    | inl (skipped, same) ↦ (
      λ x known. subst (λ (u : Run V). member x u.seen ≡ true) (ok_injective same) known,
      λ taken. absurd (clash skipped taken),
    )
    | inr (taken, rest) ↦
        let same = visit_kind-seen (vpath_of paths o e.rel) e.rel e.kind _ q rest in
        (
          λ x known. ap (member x) (sym same) ∙ behind x (vpath_of paths o e.rel) r.seen known,
          λ kept.
              ap (member (vpath_of paths o e.rel)) (sym same)
              ∙ first (vpath_of paths o e.rel) r.seen,
        )
  ]
    where
      clash : {b : Bool} → b ≡ true → b ≡ false → ⊥
      clash h k = cc

      behind : (x y : Bytes) (ys : List Bytes) → member x ys ≡ true → member x (y ∷ ys) ≡ true
      behind x y ys h = ground (arith, h)

      first : (x : Bytes) (ys : List Bytes) → member x (x ∷ ys) ≡ true
      first x ys = ground (arith, (bytes_equal_iff x x).1 refl)

  pub walk-seen :
      (entries : List Entry) (r q : Run V)
      → walk V paths o entries r ≡ ok q
      → Seen r q
        × All
            (λ (e : Entry). skips e ≡ false → member (vpath_of paths o e.rel) q.seen ≡ true)
            entries
  unfolding walk
  walk-seen [] r q walked =
      (λ x known. subst (λ (u : Run V). member x u.seen ≡ true) (ok_injective walked) known, tt)
  walk-seen (e ∷ entries) r q walked =
      let (m, visited, rest) = >>=-eq-ok (visit V paths o e r) (walk V paths o entries) walked in
      let (stays, there) = visit-seen e r m visited in
      let (stays', theres) = walk-seen entries m q rest in
      (λ x known. stays' x (stays x known), (λ taken. stays' _ (there taken), theres))
