-- ===== src/Sync/Decrypt.antt =====
-- sync.go: `decryptSync` from the opened volume on, and `pruneDisk`; find.go: the walk of `doFind`. The
-- volume is only read. What goes to the standard error output is left out.
pub mod DryRun
mod Examples
use shiroikuma_gcfs.Prelude.{
  ℕ, zero, suc, ◌+◌, ◌/◌, ◌%◌, ◌^◌, Bool, true, false, ◌&&◌, ◌||◌, not, Option, none, some, List,
  [], ◌∷◌, ◌++◌, Outcome, ok, err, stuck, eio, ◌>>=◌, ◌==◌, if◌then◌else◌, length, Bytes,
  bytes_equal,
}
use shiroikuma_gcfs.Sync.{SyncOpts, Paths, slash, vjoin, is_dir_mode, within_window, clean_vol}
use shiroikuma_gcfs.Sync.Volumes.{Attrs, DirEntry, trim_prefix}
use shiroikuma_gcfs.Sync.Encrypt.{Line, same, changed, added, removed, removed_dir, member, is_some}

-- `os.Stat`: the size and the time of modification.
pub record Stat : Type 0 where
  pub size : ℕ
  pub mtime : ℕ

pub record DiskEntry : Type 0 where
  pub name : Bytes
  pub is_dir : Bool

-- The calls on the plaintext side. `write` is `os.OpenFile` with the loop that writes, and `remove` and
-- `mkdir_all` are calls of which nobody looks at the result.
pub record Disk : Type 1 where
  pub State : Type 0
  pub stat : State → Bytes → Option Stat
  pub mkdir_all : State → Bytes → State
  pub write : State → Bytes → Bytes → Outcome State
  pub chtimes : State → Bytes → ℕ → State
  pub read_dir : State → Bytes → Option (List DiskEntry)
  pub remove : State → Bytes → State
  pub sha256 : State → Bytes → Bytes

-- A volume that stays as it is: `listDir`, `gcf_get_attrs`, the bytes that the loop of
-- `decryptFileToDisk` reads where the file can be opened, and `sha256Vol`.
pub record Source : Type 0 where
  pub list_dir : Bytes → Option (List DirEntry)
  pub get_attrs : Bytes → Option Attrs
  pub read : Bytes → Outcome Bytes
  pub sha256 : Bytes → Bytes

-- `filepath.Join`, `filepath.Rel` and `filepath.Dir` of the standard library.
pub record DiskPaths : Type 0 where
  pub join : Bytes → Bytes → Bytes
  pub rel : Bytes → Bytes → Bytes
  pub dir : Bytes → Bytes

-- The results of `gcf_get_attrs` are zeros where it fails.
abbrev pub or_zeros : Option Attrs → Attrs
or_zeros none = record { mode = 0; size = 0; mtime = 0 }
or_zeros (some a) = a

-- `need`, from the `os.Stat` on.
unfoldable pub needed : SyncOpts → Option Stat → Attrs → Bytes → Bytes → Bool
needed o none a disk_sum sum = true
needed o (some st) a disk_sum sum =
    if o.checksum
    then not (st.size == a.size) || not (bytes_equal disk_sum sum)
    else not (st.size == a.size && within_window a.mtime st.mtime o.window)

abbrev pub exists : Option Stat → Bool
exists none = false
exists (some st) = true

abbrev pub relative : SyncOpts → Bytes → Bytes
relative o vpath = trim_prefix (trim_prefix vpath o.base) slash

module _ (D : Disk) where
  -- The variables of `decryptSync`, with the state of the disk.
  pub record Run : Type 0 where
    pub disk : D.State
    pub fresh : ℕ
    pub updated : ℕ
    pub skipped : ℕ
    pub dirs : ℕ
    pub seen : List Bytes
    pub out : List Line

  pub record Pruned : Type 0 where
    pub disk : D.State
    pub count : ℕ
    pub out : List Line

  module _ (paths : DiskPaths) (V : Source) (o : SyncOpts) where
    unfoldable pub decrypt_file_to_disk : D.State → Bytes → Bytes → Outcome D.State
    decrypt_file_to_disk s vpath dst =
        V.read vpath >>= λ bytes. D.write (D.mkdir_all s (paths.dir dst)) dst bytes

    unfoldable pub counted : Bytes → Bool → Run → Run
    counted rel there r = record r {
      fresh = if there then r.fresh else r.fresh + 1;
      updated = if there then r.updated + 1 else r.updated;
      out =
          if o.verbose || o.dry_run
          then (if there then changed rel else added rel) ∷ r.out
          else r.out;
    }

    unfoldable pub transfer : Bytes → Bytes → Bytes → Bool → Run → Outcome Run
    transfer vpath rel dst there r =
        if o.dry_run
        then ok (counted rel there r)
        else decrypt_file_to_disk r.disk vpath dst >>= λ s. ok (record (counted rel there r) {
          disk = D.chtimes s dst (or_zeros (V.get_attrs vpath)).mtime;
        })

    unfoldable pub visit_file : Bytes → Bytes → Bytes → Run → Outcome Run
    visit_file vpath rel dst r =
        let st = D.stat r.disk dst in
        if needed o st (or_zeros (V.get_attrs vpath)) (D.sha256 r.disk dst) (V.sha256 vpath)
        then transfer vpath rel dst (exists st) r
        else ok (record r {
          skipped = r.skipped + 1;
          out = if o.verbose then same rel ∷ r.out else r.out;
        })

    unfoldable pub visit_dir : Bytes → Run → Run
    visit_dir dst r = record r {
      dirs = r.dirs + 1;
      disk = if o.dry_run then r.disk else D.mkdir_all r.disk dst;
    }

    -- The body of the loop of `walk`, with the recursive call `inner`.
    unfoldable pub visit :
        Bytes → (Bytes → Run → Outcome Run) → Bytes → DirEntry → Run → Outcome Run
    visit dst_dir inner vdir e r =
        let vpath = vjoin vdir e.name in
        let rel = relative o vpath in
        let dst = paths.join dst_dir rel in
        let noted = record r { seen = rel ∷ r.seen } in
        if length rel == 0
        then ok r
        else if is_dir_mode e.mode
        then inner vpath (visit_dir dst noted)
        else visit_file vpath rel dst noted

    unfoldable pub visit_all :
        Bytes → (Bytes → Run → Outcome Run) → Bytes → List DirEntry → Run → Outcome Run
    visit_all dst_dir inner vdir [] r = ok r
    visit_all dst_dir inner vdir (e ∷ entries) r =
        visit dst_dir inner vdir e r >>= visit_all dst_dir inner vdir entries

    -- `walk`. The fuel bounds the depth of the directories.
    unfoldable pub walk : Bytes → ℕ → Bytes → Run → Outcome Run
    walk dst_dir zero vdir r = stuck
    walk dst_dir (suc fuel) vdir r = elim (V.list_dir vdir) [
      | none ↦ err eio
      | some entries ↦ visit_all dst_dir (walk dst_dir fuel) vdir entries r
    ]

    -- What `pruneDisk` does to an entry behind the recursive call.
    unfoldable pub prune_entry : List Bytes → Bytes → Bytes → Bool → Pruned → Pruned
    prune_entry seen full rel is_dir p =
        let line = if is_dir then removed_dir rel else removed rel in
        if member rel seen then p else record {
          disk = if o.dry_run then p.disk else D.remove p.disk full;
          count = p.count + 1;
          out = if o.verbose || o.dry_run then line ∷ p.out else p.out;
        }

    unfoldable pub prune_entries :
        List Bytes
        → Bytes
        → (Bytes → Pruned → Outcome Pruned)
        → Bytes
        → List DiskEntry
        → Pruned
        → Outcome Pruned
    prune_entries seen base inner root [] p = ok p
    prune_entries seen base inner root (e ∷ entries) p =
        let full = paths.join root e.name in
        let inside = if e.is_dir then inner full p else ok p in
        inside >>= λ q.
        prune_entries seen base inner root entries
          (prune_entry seen full (paths.rel base full) e.is_dir q)

    unfoldable pub prune_disk : List Bytes → Bytes → ℕ → Bytes → Pruned → Outcome Pruned
    prune_disk seen base zero root p = stuck
    prune_disk seen base (suc fuel) root p = elim (D.read_dir p.disk root) [
      | none ↦ ok p
      | some entries ↦ prune_entries seen base (prune_disk seen base fuel) root entries p
    ]

    abbrev pub started : D.State → Run
    started s = record {
      disk = s;
      fresh = 0;
      updated = 0;
      skipped = 0;
      dirs = 0;
      seen = [];
      out = [];
    }

    abbrev pub unpruned : Run → Pruned
    unpruned r = record { disk = r.disk; count = 0; out = r.out }

    -- `o.base` is clean already.
    unfoldable pub decrypt_sync : Bytes → ℕ → D.State → Outcome (Run × Pruned)
    decrypt_sync dst_dir fuel s = do
      r ← walk dst_dir fuel o.base (started (if o.dry_run then s else D.mkdir_all s dst_dir))
      p ←
          (if o.delete
            then prune_disk r.seen dst_dir fuel dst_dir (unpruned r)
            else ok (unpruned r))
      ok (r, p)
