-- ===== src/Sync/Encrypt.antt =====
-- sync.go: `encryptSync` from the opened volume on, with `encryptFile` and `pruneVolume`. What goes to the
-- standard error output is left out.
pub mod Seen
pub mod Pruning
pub mod DryRun
use shiroikuma_gcfs.Prelude.{
  ℕ, zero, suc, ◌+◌, ◌≡◌, refl, Bool, true, false, ◌&&◌, ◌||◌, not, Option, none, some, List, [],
  ◌∷◌, ◌++◌, Outcome, ok, stuck, ◌>>=◌, ◌==◌, if◌then◌else◌, Bytes, bytes_equal, bytes_of,
}
use shiroikuma_gcfs.Sync.{SyncOpts, Paths, slash, vjoin, is_dir_mode, within_window, clean_vol}
use shiroikuma_gcfs.Sync.Volumes.{Attrs, DirEntry, Volume, mkdir_all}

-- A file on the plaintext side: `info.Size()`, `info.ModTime().Unix()`, the bytes and `sha256File`.
pub record Source : Type 0 where
  pub size : ℕ
  pub mtime : ℕ
  pub bytes : Bytes
  pub sum : Bytes

-- What `filepath.WalkDir` hands to the callback.
pub data Kind : Type 0 where
  unreadable directory irregular stat_failed : Kind
  regular : Source → Kind

pub record Entry : Type 0 where
  pub rel : Bytes
  pub kind : Kind

-- A line of the standard output: `= `, `~ ` or `+ ` with a path, and `- ` with one that is deleted.
pub data Line : Type 0 where
  same changed added removed removed_dir : Bytes → Line

unfoldable pub member : Bytes → List Bytes → Bool
member x [] = false
member x (y ∷ ys) = bytes_equal x y || member x ys

-- `need`, from `exists` on.
unfoldable pub needed : SyncOpts → Option Attrs → Bytes → Source → Bool
needed o none sum f = true
needed o (some a) sum f =
    if o.checksum
    then not (a.size == f.size) || not (bytes_equal f.sum sum)
    else not (a.size == f.size && within_window a.mtime f.mtime o.window)

abbrev pub is_some : Option Attrs → Bool
is_some none = false
is_some (some a) = true

abbrev pub vpath_of : Paths → SyncOpts → Bytes → Bytes
vpath_of paths o rel = clean_vol paths (o.base ++ (slash ++ rel))

abbrev pub is_unreadable : Kind → Bool
is_unreadable unreadable = true
is_unreadable directory = false
is_unreadable irregular = false
is_unreadable stat_failed = false
is_unreadable (regular f) = false

-- The first two tests of the callback.
abbrev pub skips : Entry → Bool
skips e = is_unreadable e.kind || bytes_equal e.rel (bytes_of ".")

module _ (V : Volume) where
  -- The variables of `encryptSync`, with the state of the volume.
  pub record Run : Type 0 where
    pub vol : V.State
    pub fresh : ℕ
    pub updated : ℕ
    pub skipped : ℕ
    pub dirs : ℕ
    pub seen : List Bytes
    pub out : List Line

  -- What `pruneVolume` changes, with its count.
  pub record Pruned : Type 0 where
    pub vol : V.State
    pub count : ℕ
    pub out : List Line

  unfoldable pub encrypt_file : Paths → V.State → Bytes → Source → Outcome V.State
  encrypt_file paths s vpath f = do
    made ← mkdir_all V paths s (paths.dir vpath)
    V.put made vpath f.bytes

  -- The counters and the line of a file that is transferred.
  unfoldable pub counted : SyncOpts → Bytes → Bool → Run → Run
  counted o rel exists r = record r {
    fresh = if exists then r.fresh else r.fresh + 1;
    updated = if exists then r.updated + 1 else r.updated;
    out =
        if o.verbose || o.dry_run
        then (if exists then changed rel else added rel) ∷ r.out
        else r.out;
  }

  -- The callback behind `need`.
  unfoldable pub transfer : Paths → SyncOpts → Bytes → Bytes → Source → Bool → Run → Outcome Run
  transfer paths o vpath rel f exists r =
      if o.dry_run
      then ok (counted o rel exists r)
      else encrypt_file paths r.vol vpath f >>= λ s.
          ok (record (counted o rel exists r) { vol = V.set_mtime s vpath f.mtime })

  unfoldable pub visit_file : Paths → SyncOpts → Bytes → Bytes → Source → Run → Outcome Run
  visit_file paths o vpath rel f r =
      let found = V.get_attrs r.vol vpath in
      if needed o found (V.sha256 r.vol vpath) f
      then transfer paths o vpath rel f (is_some found) r
      else ok (record r {
        skipped = r.skipped + 1;
        out = if o.verbose then same rel ∷ r.out else r.out;
      })

  -- The callback behind `seen[vpath] = true`.
  unfoldable pub visit_kind : Paths → SyncOpts → Bytes → Entry → Run → Outcome Run
  visit_kind paths o vpath e r = elim e.kind [
    | unreadable ↦ ok r
    | directory ↦
        if o.dry_run
        then ok (record r { dirs = r.dirs + 1 })
        else mkdir_all V paths r.vol vpath >>= λ s. ok (record r { dirs = r.dirs + 1; vol = s })
    | irregular ↦ ok r
    | stat_failed ↦ ok r
    | regular f ↦ visit_file paths o vpath e.rel f r
  ]

  -- The callback.
  unfoldable pub visit : Paths → SyncOpts → Entry → Run → Outcome Run
  visit paths o e r =
      if skips e
      then ok r
      else let vpath = vpath_of paths o e.rel in
        visit_kind paths o vpath e (record r { seen = vpath ∷ r.seen })

  unfoldable pub walk : Paths → SyncOpts → List Entry → Run → Outcome Run
  walk paths o [] r = ok r
  walk paths o (e ∷ entries) r = do next ← visit paths o e r; walk paths o entries next

  -- What happens to an entry of `dir`, behind the recursive call.
  unfoldable pub prune_entry : SyncOpts → List Bytes → Bytes → Bool → Pruned → Pruned
  prune_entry o seen vpath is_dir p =
      let line = if is_dir then removed_dir vpath else removed vpath in
      if member vpath seen then p else record {
        vol =
            if o.dry_run
            then p.vol
            else if is_dir
            then V.rmdir p.vol vpath
            else V.remove_file p.vol vpath;
        count = p.count + 1;
        out = if o.verbose || o.dry_run then line ∷ p.out else p.out;
      }

  -- The loop of `pruneVolume` over the entries of `dir`, with the recursive call `inner`.
  unfoldable pub prune_entries :
      SyncOpts
      → List Bytes
      → (Bytes → Pruned → Outcome Pruned)
      → Bytes
      → List DirEntry
      → Pruned
      → Outcome Pruned
  prune_entries o seen inner dir [] p = ok p
  prune_entries o seen inner dir (e ∷ entries) p =
      let vpath = vjoin dir e.name in
      let is_dir = is_dir_mode e.mode in
      let inside = if is_dir then inner vpath p else ok p in
      inside >>= λ q. prune_entries o seen inner dir entries (prune_entry o seen vpath is_dir q)

  -- The fuel bounds the depth of the directories.
  unfoldable pub prune_volume : SyncOpts → List Bytes → ℕ → Bytes → Pruned → Outcome Pruned
  prune_volume o seen zero dir p = stuck
  prune_volume o seen (suc fuel) dir p = elim (V.list_dir p.vol dir) [
    | none ↦ ok p
    | some entries ↦ prune_entries o seen (prune_volume o seen fuel) dir entries p
  ]

  abbrev pub started : V.State → Run
  started s = record { vol = s; fresh = 0; updated = 0; skipped = 0; dirs = 0; seen = []; out = [] }

  abbrev pub unpruned : Run → Pruned
  unpruned r = record { vol = r.vol; count = 0; out = r.out }

  -- `o.base` is clean already.
  unfoldable pub encrypt_sync : Paths → SyncOpts → List Entry → ℕ → V.State → Outcome (Run × Pruned)
  encrypt_sync paths o entries fuel s = do
    based ←
        (if not (bytes_equal o.base slash) && not o.dry_run
          then mkdir_all V paths s o.base
          else ok s)
    r ← walk paths o entries (started based)
    p ← (if o.delete then prune_volume o r.seen fuel o.base (unpruned r) else ok (unpruned r))
    ok (r, p)

  -- A run in which each part returns.
  pub encrypt_sync-steps :
      (paths : Paths) (o : SyncOpts) (entries : List Entry) (fuel : ℕ) (s : V.State)
      {based : V.State} {r : Run} {p : Pruned}
      → (if not (bytes_equal o.base slash) && not o.dry_run
          then mkdir_all V paths s o.base
          else ok s)
        ≡ ok based
      → walk paths o entries (started based) ≡ ok r
      → (if o.delete then prune_volume o r.seen fuel o.base (unpruned r) else ok (unpruned r))
        ≡ ok p
      → encrypt_sync paths o entries fuel s ≡ ok (r, p)
  unfolding encrypt_sync
  encrypt_sync-steps paths o entries fuel s made walked pruned =
      rw (encrypt_sync, made, walked, pruned) refl
