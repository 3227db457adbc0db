-- ===== src/Sync/Encrypt/DryRun.antt =====
-- A run with `-n`.
use mathlib.Core.Path.{subst}
use shiroikuma_gcfs.Prelude.{
  ℕ, zero, suc, ◌+◌, ◌≡◌, refl, ap, ◌∙◌, inl, inr, Bool, Bool-cases, true, false, ◌&&◌, not, Option,
  none, some, Option-cases, List, [], ◌∷◌, Outcome, ok, if◌then◌else◌, All, Bytes, bytes_equal,
}
use shiroikuma_gcfs.Sync.{SyncOpts, Paths, slash, vjoin, is_dir_mode}
use shiroikuma_gcfs.Sync.Volumes.{DirEntry, Volume, mkdir_all}
use shiroikuma_gcfs.Sync.Encrypt.{
  Entry, Source, Kind, unreadable, directory, irregular, stat_failed, regular, Run, Pruned, needed,
  member, transfer, visit_file, visit_kind, visit, walk, prune_entry, prune_entries, prune_volume,
  started, unpruned, encrypt_sync, encrypt_sync-steps, vpath_of, is_some, skips, counted,
}

abbrev Below : (DirEntry → Type 0) → Option (List DirEntry) → Type 0
Below P none = Unit
Below P (some entries) = All P entries

-- The directories below `dir` are less than `n` deep.
abbrev pub Within : (V : Volume) → V.State → ℕ → Bytes → Type 0
Within V s zero dir = ⊥
Within V s (suc n) dir =
    Below (λ e. is_dir_mode e.mode ≡ true → Within V s n (vjoin dir e.name)) (V.list_dir s dir)

module _ (V : Volume) (paths : Paths) (o : SyncOpts) (dry : o.dry_run ≡ true) where
  -- A step that succeeds and leaves the volume alone.
  abbrev Quiet : Outcome (Run V) → V.State → Type 0
  Quiet m s = (q : Run V) × (m ≡ ok q) × (q.vol ≡ s)

  Quiet-if :
      (b : Bool) (m n : Outcome (Run V)) (s : V.State)
      → Quiet m s
      → Quiet n s
      → Quiet (if b then m else n) s
  Quiet-if true m n s left right = left
  Quiet-if false m n s left right = right

  transfer-dry :
      (vpath rel : Bytes) (f : Source) (exists : Bool) (r : Run V)
      → Quiet (transfer V paths o vpath rel f exists r) r.vol
  unfolding transfer counted
  transfer-dry vpath rel f exists r = (counted V o rel exists r, rw dry refl, refl)

  visit_file-dry :
      (vpath rel : Bytes) (f : Source) (r : Run V)
      → Quiet (visit_file V paths o vpath rel f r) r.vol
  unfolding visit_file
  visit_file-dry vpath rel f r =
      Quiet-if (needed o (V.get_attrs r.vol vpath) (V.sha256 r.vol vpath) f) _ _ r.vol
        (transfer-dry vpath rel f (is_some (V.get_attrs r.vol vpath)) r) (_, refl, refl)

  visit_kind-dry :
      (vpath rel : Bytes) (kind : Kind) (r : Run V)
      → Quiet (visit_kind V paths o vpath (record { rel = rel; kind = kind }) r) r.vol
  unfolding visit_kind
  visit_kind-dry vpath rel unreadable r = (r, refl, refl)
  visit_kind-dry vpath rel directory r = (record r { dirs = r.dirs + 1 }, rw dry refl, refl)
  visit_kind-dry vpath rel irregular r = (r, refl, refl)
  visit_kind-dry vpath rel stat_failed r = (r, refl, refl)
  visit_kind-dry vpath rel (regular f) r = visit_file-dry vpath rel f r

  visit-dry : (e : Entry) (r : Run V) → Quiet (visit V paths o e r) r.vol
  unfolding visit
  visit-dry e r =
      Quiet-if (skips e) _ _ r.vol (r, refl, refl)
        (visit_kind-dry (vpath_of paths o e.rel) e.rel e.kind _)

  walk-dry : (entries : List Entry) (r : Run V) → Quiet (walk V paths o entries r) r.vol
  unfolding walk
  walk-dry [] r = (r, refl, refl)
  walk-dry (e ∷ entries) r =
      let (q, visited, kept) = visit-dry e r in
      let (u, rest, same) = walk-dry entries q in (u, rw visited rest, same ∙ kept)

  abbrev Spared : Outcome (Pruned V) → V.State → Type 0
  Spared m s = (q : Pruned V) × (m ≡ ok q) × (q.vol ≡ s)

  prune_entry-dry :
      (seen : List Bytes) (vpath : Bytes) (is_dir : Bool) (p : Pruned V)
      → (prune_entry V o seen vpath is_dir p).vol ≡ p.vol
  unfolding prune_entry
  prune_entry-dry seen vpath is_dir p = elim (Bool-cases (member vpath seen)) [
    | inl known ↦ rw known refl
    | inr unknown ↦ rw (unknown, dry) refl
  ]

  prune_entries-dry :
      (seen : List Bytes) (s : V.State) (n : ℕ) (inner : Bytes → Pruned V → Outcome (Pruned V))
      (dir : Bytes) (entries : List DirEntry) (p : Pruned V)
      → ((d : Bytes) (q : Pruned V) → Within V s n d → q.vol ≡ s → Spared (inner d q) s)
      → All (λ (e : DirEntry). is_dir_mode e.mode ≡ true → Within V s n (vjoin dir e.name)) entries
      → p.vol ≡ s
      → Spared (prune_entries V o seen inner dir entries p) s
  unfolding prune_entries
  prune_entries-dry seen s n inner dir [] p spare w same = (p, refl, same)
  prune_entries-dry seen s n inner dir (e ∷ entries) p spare w same =
      elim (Bool-cases (is_dir_mode e.mode)) [
        | inl is_dir ↦
            let (q, inside, kept) = spare (vjoin dir e.name) p (w.0 is_dir) same in
            let next = prune_entry V o seen (vjoin dir e.name) true q in
            let (u, rest, done) =
              prune_entries-dry seen s n inner dir entries next spare w.1
                (prune_entry-dry seen (vjoin dir e.name) true q ∙ kept) in
            (u, rw is_dir (rw inside rest), done)
        | inr is_file ↦
            let next = prune_entry V o seen (vjoin dir e.name) false p in
            let (u, rest, done) =
              prune_entries-dry seen s n inner dir entries next spare w.1
                (prune_entry-dry seen (vjoin dir e.name) false p ∙ same) in
            (u, rw is_file rest, done)
      ]

  prune_volume-dry :
      (seen : List Bytes) (s : V.State) (n : ℕ) (dir : Bytes) (p : Pruned V)
      → Within V s n dir
      → p.vol ≡ s
      → Spared (prune_volume V o seen n dir p) s
  unfolding prune_volume
  prune_volume-dry seen s zero dir p w same = elim w [ ]
  prune_volume-dry seen s (suc n) dir p w same = elim (Option-cases (V.list_dir s dir)) [
    | inl nothing ↦ (p, rw (prune_volume, ap (λ t. V.list_dir t dir) same ∙ nothing) refl, same)
    | inr (entries, listed) ↦
        let (q, e, kept) =
          prune_entries-dry seen s n (prune_volume V o seen n) dir entries p
            (λ d q v k. prune_volume-dry seen s n d q v k)
            (subst (Below (λ e. is_dir_mode e.mode ≡ true → Within V s n (vjoin dir e.name))) listed
              w)
            same in
        (q, rw (prune_volume, ap (λ t. V.list_dir t dir) same ∙ listed) e, kept)
  ]

  not_based :
      (b : Bool) (m : Outcome V.State) (s : V.State)
      → (if b && not o.dry_run then m else ok s) ≡ ok s
  not_based true m s = rw dry refl
  not_based false m s = refl

  Spared-if :
      (b : Bool) (m n : Outcome (Pruned V)) (s : V.State)
      → Spared m s
      → Spared n s
      → Spared (if b then m else n) s
  Spared-if true m n s left right = left
  Spared-if false m n s left right = right

  -- With -n, and directories of the volume below the base that are less deep than the fuel,
  -- encryptSync returns on every list of entries, with or without -delete, and leaves the volume as
  -- it is, whatever the calls of the volume do.
  pub encrypt_sync-dry :
      (entries : List Entry) (fuel : ℕ) (s : V.State)
      → Within V s fuel o.base
      → (r : Run V) × (p : Pruned V) × (encrypt_sync V paths o entries fuel s ≡ ok (r, p))
        × (r.vol ≡ s)
        × (p.vol ≡ s)
  encrypt_sync-dry entries fuel s w =
      let (r, walked, kept) = walk-dry entries (started V s) in
      let (p, pruned, spared) =
        Spared-if o.delete (prune_volume V o r.seen fuel o.base (unpruned V r)) (ok (unpruned V r))
          s (prune_volume-dry r.seen s fuel o.base (unpruned V r) w kept)
          (unpruned V r, refl, kept) in
      (
        r,
        p,
        encrypt_sync-steps V paths o entries fuel s
            (not_based (not (bytes_equal o.base slash)) (mkdir_all V paths s o.base) s) walked
            pruned,
        kept,
        spared,
      )
