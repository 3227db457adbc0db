-- ===== src/Sync/Decrypt/DryRun.antt =====
-- A restore with `-n`.
use mathlib.Core.Path.{subst}
use shiroikuma_gcfs.Prelude.{
  ℕ, zero, suc, ◌≡◌, refl, ap, ◌∙◌, ◌⊎◌, inl, inr, Bool, Bool-cases, true, false, Option, none,
  some, Option-cases, List, [], ◌∷◌, Outcome, ok, err, eio, ◌>>=◌, ◌==◌, if◌then◌else◌, length, All,
  Bytes,
}
use shiroikuma_gcfs.Sync.{SyncOpts, vjoin, is_dir_mode}
use shiroikuma_gcfs.Sync.Volumes.{DirEntry}
use shiroikuma_gcfs.Sync.Encrypt.{member}
use shiroikuma_gcfs.Sync.Decrypt.{
  Disk, DiskEntry, DiskPaths, Source, Run, Pruned, needed, exists, or_zeros, relative, counted,
  transfer, visit_file, visit_dir, visit, visit_all, walk, prune_entry, prune_entries, prune_disk,
  started, unpruned, decrypt_sync,
}

abbrev Below : {A : Type 0} → (A → Type 0) → Option (List A) → Type 0
Below P none = Unit
Below P (some entries) = All P entries

-- The directories of the volume below `vdir`, and of the disk below `root`, are less than `n` deep.
abbrev pub Within : Source → ℕ → Bytes → Type 0
Within V zero vdir = ⊥
Within V (suc n) vdir =
    Below (λ e. is_dir_mode e.mode ≡ true → Within V n (vjoin vdir e.name)) (V.list_dir vdir)

abbrev pub DiskWithin : (D : Disk) → DiskPaths → D.State → ℕ → Bytes → Type 0
DiskWithin D paths s zero root = ⊥
DiskWithin D paths s (suc n) root =
    Below (λ e. e.is_dir ≡ true → DiskWithin D paths s n (paths.join root e.name))
      (D.read_dir s root)

module _ (D : Disk) (paths : DiskPaths) (V : Source) (o : SyncOpts) (dry : o.dry_run ≡ true) where
  -- A step that leaves the disk alone, or ends the program at a directory that can not be listed.
  abbrev Quiet : Outcome (Run D) → D.State → Type 0
  Quiet m s = ((q : Run D) × (m ≡ ok q) × (q.disk ≡ s)) ⊎ (m ≡ err eio)

  Quiet-if :
      (b : Bool) (m n : Outcome (Run D)) (s : D.State)
      → (b ≡ true → Quiet m s)
      → (b ≡ false → Quiet n s)
      → Quiet (if b then m else n) s
  Quiet-if true m n s left right = left refl
  Quiet-if false m n s left right = right refl

  Quiet-bind :
      (m : Outcome (Run D)) (f : Run D → Outcome (Run D)) (s : D.State)
      → Quiet m s
      → ((q : Run D) → q.disk ≡ s → Quiet (f q) s)
      → Quiet (m >>= f) s
  Quiet-bind m f s (inl (q, e, kept)) next = rw e (next q kept)
  Quiet-bind m f s (inr e) next = inr (rw e refl)

  transfer-dry :
      (vpath rel dst : Bytes) (there : Bool) (r : Run D) (s : D.State)
      → r.disk ≡ s
      → Quiet (transfer D paths V o vpath rel dst there r) s
  unfolding transfer counted
  transfer-dry vpath rel dst there r s kept =
      inl (counted D paths V o rel there r, rw dry refl, kept)

  visit_file-dry :
      (vpath rel dst : Bytes) (r : Run D) (s : D.State)
      → r.disk ≡ s
      → Quiet (visit_file D paths V o vpath rel dst r) s
  unfolding visit_file
  visit_file-dry vpath rel dst r s kept =
      Quiet-if
        (needed o (D.stat r.disk dst) (or_zeros (V.get_attrs vpath)) (D.sha256 r.disk dst)
          (V.sha256 vpath))
        _ _ s (λ need. transfer-dry vpath rel dst (exists (D.stat r.disk dst)) r s kept)
        (λ idle. inl (_, refl, kept))

  visit_dir-dry : (dst : Bytes) (r : Run D) → (visit_dir D paths V o dst r).disk ≡ r.disk
  unfolding visit_dir
  visit_dir-dry dst r = rw dry refl

  visit_all-dry :
      (n : ℕ) (dst_dir : Bytes) (inner : Bytes → Run D → Outcome (Run D)) (vdir : Bytes)
      (entries : List DirEntry) (r : Run D) (s : D.State)
      → ((d : Bytes) (q : Run D) → Within V n d → q.disk ≡ s → Quiet (inner d q) s)
      → All (λ (e : DirEntry). is_dir_mode e.mode ≡ true → Within V n (vjoin vdir e.name)) entries
      → r.disk ≡ s
      → Quiet (visit_all D paths V o dst_dir inner vdir entries r) s
  unfolding visit_all visit
  visit_all-dry n dst_dir inner vdir [] r s deeper w kept = inl (r, refl, kept)
  visit_all-dry n dst_dir inner vdir (e ∷ entries) r s deeper w kept =
      Quiet-bind (visit D paths V o dst_dir inner vdir e r) _ s
        (Quiet-if (length (relative o (vjoin vdir e.name)) == 0) _ _ s (λ base. inl (r, refl, kept))
          (λ named.
            Quiet-if (is_dir_mode e.mode) _ _ s
              (λ is_dir. deeper (vjoin vdir e.name) _ (w.0 is_dir) (visit_dir-dry _ _ ∙ kept))
              (λ is_file. visit_file-dry (vjoin vdir e.name) _ _ _ s kept)))
        (λ q same. visit_all-dry n dst_dir inner vdir entries q s deeper w.1 same)

  walk-dry :
      (dst_dir : Bytes) (n : ℕ) (vdir : Bytes) (r : Run D) (s : D.State)
      → Within V n vdir
      → r.disk ≡ s
      → Quiet (walk D paths V o dst_dir n vdir r) s
  unfolding walk
  walk-dry dst_dir zero vdir r s w kept = elim w [ ]
  walk-dry dst_dir (suc n) vdir r s w kept = elim (Option-cases (V.list_dir vdir)) [
    | inl nothing ↦ inr (rw (walk, nothing) refl)
    | inr (entries, listed) ↦
        rw (walk, listed)
          (visit_all-dry n dst_dir (walk D paths V o dst_dir n) vdir entries r s
            (λ d q v k. walk-dry dst_dir n d q s v k)
            (subst (Below (λ e. is_dir_mode e.mode ≡ true → Within V n (vjoin vdir e.name))) listed
              w)
            kept)
  ]

  abbrev Spared : Outcome (Pruned D) → D.State → Type 0
  Spared m s = (q : Pruned D) × (m ≡ ok q) × (q.disk ≡ s)

  Spared-if :
      (b : Bool) (m n : Outcome (Pruned D)) (s : D.State)
      → (b ≡ true → Spared m s)
      → (b ≡ false → Spared n s)
      → Spared (if b then m else n) s
  Spared-if true m n s left right = left refl
  Spared-if false m n s left right = right refl

  prune_entry-dry :
      (seen : List Bytes) (full rel : Bytes) (is_dir : Bool) (p : Pruned D)
      → (prune_entry D paths V o seen full rel is_dir p).disk ≡ p.disk
  unfolding prune_entry
  prune_entry-dry seen full rel is_dir p = elim (Bool-cases (member rel seen)) [
    | inl known ↦ rw known refl
    | inr unknown ↦ rw (unknown, dry) refl
  ]

  prune_entries-dry :
      (seen : List Bytes) (base : Bytes) (n : ℕ) (inner : Bytes → Pruned D → Outcome (Pruned D))
      (root : Bytes) (entries : List DiskEntry) (p : Pruned D) (s : D.State)
      → ((d : Bytes) (q : Pruned D) → DiskWithin D paths s n d → q.disk ≡ s → Spared (inner d q) s)
      → All
          (λ (e : DiskEntry). e.is_dir ≡ true → DiskWithin D paths s n (paths.join root e.name))
          entries
      → p.disk ≡ s
      → Spared (prune_entries D paths V o seen base inner root entries p) s
  unfolding prune_entries
  prune_entries-dry seen base n inner root [] p s deeper w kept = (p, refl, kept)
  prune_entries-dry seen base n inner root (e ∷ entries) p s deeper w kept =
      let full = paths.join root e.name in
      let (q, inside, same) =
        Spared-if e.is_dir (inner full p) (ok p) s (λ is_dir. deeper full p (w.0 is_dir) kept)
          (λ is_file. (p, refl, kept)) in
      let next = prune_entry D paths V o seen full (paths.rel base full) e.is_dir q in
      let (u, rest, done) =
        prune_entries-dry seen base n inner root entries next s deeper w.1
          (prune_entry-dry seen full (paths.rel base full) e.is_dir q ∙ same) in
      (u, rw inside rest, done)

  prune_disk-dry :
      (seen : List Bytes) (base : Bytes) (n : ℕ) (root : Bytes) (p : Pruned D) (s : D.State)
      → DiskWithin D paths s n root
      → p.disk ≡ s
      → Spared (prune_disk D paths V o seen base n root p) s
  unfolding prune_disk
  prune_disk-dry seen base zero root p s w kept = elim w [ ]
  prune_disk-dry seen base (suc n) root p s w kept = elim (Option-cases (D.read_dir s root)) [
    | inl nothing ↦ (p, rw (prune_disk, ap (λ t. D.read_dir t root) kept ∙ nothing) refl, kept)
    | inr (entries, listed) ↦
        let (q, e, same) =
          prune_entries-dry seen base n (prune_disk D paths V o seen base n) root entries p s
            (λ d q v k. prune_disk-dry seen base n d q s v k)
            (subst (Below (λ e. e.is_dir ≡ true → DiskWithin D paths s n (paths.join root e.name)))
              listed w)
            kept in
        (q, rw (prune_disk, ap (λ t. D.read_dir t root) kept ∙ listed) e, same)
  ]

  not_made : (b : Bool) (s t : D.State) → b ≡ true → (if b then s else t) ≡ s
  not_made true s t on = refl
  not_made false s t on = cc

  -- With -n, and directories of the volume below the base and of the disk below the destination
  -- that are less deep than the fuel, decryptSync, with or without -delete, either returns and
  -- leaves the disk as it is, or ends the program at a directory of the volume that can not be
  -- listed, whatever the calls on the disk do.
  pub decrypt_sync-dry :
      (dst_dir : Bytes) (fuel : ℕ) (s : D.State)
      → Within V fuel o.base
      → DiskWithin D paths s fuel dst_dir
      → ((r : Run D) × (p : Pruned D) × (decrypt_sync D paths V o dst_dir fuel s ≡ ok (r, p))
          × (r.disk ≡ s)
          × (p.disk ≡ s))
        ⊎ (decrypt_sync D paths V o dst_dir fuel s ≡ err eio)
  unfolding decrypt_sync
  decrypt_sync-dry dst_dir fuel s w v =
      elim (walk-dry dst_dir fuel o.base
        (started D paths V o (if o.dry_run then s else D.mkdir_all s dst_dir)) s w
        (not_made o.dry_run s (D.mkdir_all s dst_dir) dry)) [
          | inr failed ↦ inr (rw failed refl)
          | inl (r, walked, kept) ↦
              let (p, pruned, same) =
                Spared-if o.delete
                  (prune_disk D paths V o r.seen dst_dir fuel dst_dir (unpruned D paths V o r))
                  (ok (unpruned D paths V o r)) s
                  (λ on.
                    prune_disk-dry r.seen dst_dir fuel dst_dir (unpruned D paths V o r) s v kept)
                  (λ off. (unpruned D paths V o r, refl, kept)) in
              inl (r, p, rw (walked, pruned) refl, kept, same)
        ]
