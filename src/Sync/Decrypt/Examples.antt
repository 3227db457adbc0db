-- ===== src/Sync/Decrypt/Examples.antt =====
-- A dry restore onto a disk that records each change.
use shiroikuma_gcfs.Prelude.{
  ◌*◌, ◌^◌, ◌≡◌, ◌⊎◌, refl, true, false, none, some, List, [], ◌∷◌, ◌++◌, ok, err, eio,
  if◌then◌else◌, Bytes, bytes_equal, bytes_of,
}
use shiroikuma_gcfs.Sync.{SyncOpts, slash, vjoin, is_dir_mode}
use shiroikuma_gcfs.Sync.Decrypt.{Disk, DiskPaths, Source, Run, Pruned, decrypt_sync}
use shiroikuma_gcfs.Sync.Decrypt.DryRun.{Within, decrypt_sync-dry}

abbrev some_disk : Disk
some_disk = record {
  State = List Bytes;
  stat = λ s p. none;
  mkdir_all = λ s p. p ∷ s;
  write = λ s p c. ok (p ∷ s);
  chtimes = λ s p m. p ∷ s;
  read_dir = λ s p. some (record { name = bytes_of "old"; is_dir = false } ∷ []);
  remove = λ s p. p ∷ s;
  sha256 = λ s p. [];
}

-- A file in a directory.
abbrev some_source : Source
some_source = record {
  list_dir = λ p.
      if bytes_equal p slash
      then some (record { name = bytes_of "d"; mode = 4 * 2 ^ 12 } ∷ [])
      else some (record { name = bytes_of "a"; mode = 8 * 2 ^ 12 } ∷ []);
  get_attrs = λ p. some (record { mode = 8 * 2 ^ 12; size = 1; mtime = 5 });
  read = λ p. ok (7 ∷ []);
  sha256 = λ p. [];
}

abbrev some_disk_paths : DiskPaths
some_disk_paths = record { join = λ a b. a ++ (slash ++ b); rel = λ a b. b; dir = λ p. p }

abbrev dry_opts : SyncOpts
dry_opts = record {
  base = slash;
  window = 2;
  delete = true;
  dry_run = true;
  checksum = false;
  verbose = false;
}

decrypt_sync-dry_example :
    ((r : Run some_disk) × (p : Pruned some_disk) × (decrypt_sync some_disk some_disk_paths
          some_source dry_opts
          (bytes_of "x")
          2
          []
        ≡ ok (r, p))
      × (r.disk ≡ [])
      × (p.disk ≡ []))
    ⊎ (decrypt_sync some_disk some_disk_paths some_source dry_opts (bytes_of "x") 2 [] ≡ err eio)
decrypt_sync-dry_example =
    decrypt_sync-dry some_disk some_disk_paths some_source dry_opts refl (bytes_of "x") 2 [] below
      ((λ e. cc), tt)
  where
    below : Within some_source 2 slash
    below = unfold bytes_equal vjoin is_dir_mode in ((λ e. ((λ k. cc), tt)), tt)
