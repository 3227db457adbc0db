-- ===== src/Sync/Examples.antt =====
-- Runs of the mirror on a volume in memory, and instances of the theorems.
use mathlib.Core.List.Memᴰ
use shiroikuma_gcfs.Prelude.{
  ◌≡◌, ◌≤◌, ◌↔◌, refl, ◌∙◌, true, false, none, some, List, [], ◌∷◌, ◌++◌, ok, arith, bytes_of,
  bytes_equal, has_prefix,
}
use shiroikuma_gcfs.Sync.{
  SyncOpts, Paths, slash, trim_left, trim_right, within_window, vjoin, is_dir_mode, clean_vol,
}
use shiroikuma_gcfs.Sync.Window.{within_window_iff}
use shiroikuma_gcfs.Sync.Volumes.{mkdir_all, mkdir_parts}
use shiroikuma_gcfs.Sync.Memory.{
  Items, update, file_item, directory_item, memory_volume, update_other,
}
use shiroikuma_gcfs.Sync.Encrypt.{
  Entry, Source, added, removed, directory, regular, Run, Pruned, encrypt_sync, walk, visit,
  visit_kind, visit_file, needed, transfer, counted, encrypt_file, prune_volume, prune_entries,
  prune_entry, member,
}
use shiroikuma_gcfs.Sync.Encrypt.Pruning.{Spares, encrypt_sync-spares}
use shiroikuma_gcfs.Sync.Encrypt.DryRun.{Within, encrypt_sync-dry}

within_window_iff_example : (within_window 100 102 2 ≡ true) ↔ ((100 ≤ 104) × (102 ≤ 102))
within_window_iff_example = within_window_iff 100 102 2 (omega arith) (omega arith) (omega arith)

abbrev some_paths : Paths
some_paths = record { clean = λ p. slash ++ trim_right (trim_left p); dir = λ p. slash }

abbrev some_opts : SyncOpts
some_opts = record {
  base = slash;
  window = 2;
  delete = false;
  dry_run = false;
  checksum = false;
  verbose = true;
}

abbrev deleting : SyncOpts
deleting = record some_opts { delete = true }

-- A file of two bytes.
abbrev some_source : Source
some_source = record { size = 2; mtime = 1000; bytes = 7 ∷ 8 ∷ []; sum = 7 ∷ 8 ∷ [] }

abbrev some_entries : List Entry
some_entries =
    record { rel = bytes_of "."; kind = directory }
    ∷ record { rel = bytes_of "a"; kind = regular some_source }
    ∷ record { rel = bytes_of "d"; kind = directory }
    ∷ []

-- A stale file `b`.
abbrev some_items : Items
some_items = update (λ p. none) (bytes_of "/b") (some (file_item (1 ∷ [])))

abbrev sent_items : Items
sent_items =
    update
      (update (update some_items (bytes_of "/a") (some (file_item (7 ∷ 8 ∷ [])))) (bytes_of "/a") (
        some (record (file_item (7 ∷ 8 ∷ [])) {
          attrs = record (file_item (7 ∷ 8 ∷ [])).attrs { mtime = 1000 };
        })))
      (bytes_of "/d") (some directory_item)

abbrev some_run : Run memory_volume
some_run = record {
  vol = sent_items;
  fresh = 1;
  updated = 0;
  skipped = 0;
  dirs = 1;
  seen = bytes_of "/d" ∷ bytes_of "/a" ∷ [];
  out = added (bytes_of "a") ∷ [];
}

-- The stale file is deleted.
abbrev some_pruned : Pruned memory_volume
some_pruned = record {
  vol = update sent_items (bytes_of "/b") none;
  count = 1;
  out = removed (bytes_of "/b") ∷ added (bytes_of "a") ∷ [];
}

abbrev unpruned_run : Pruned memory_volume
unpruned_run = record { vol = sent_items; count = 0; out = added (bytes_of "a") ∷ [] }

ran :
    encrypt_sync memory_volume some_paths some_opts some_entries 3 some_items
    ≡ ok (some_run, unpruned_run)
unfolding encrypt_sync walk visit visit_kind visit_file needed transfer counted encrypt_file
    mkdir_all mkdir_parts clean_vol bytes_equal has_prefix update
ran = refl

ran_deleting :
    encrypt_sync memory_volume some_paths deleting some_entries 3 some_items
    ≡ ok (some_run, some_pruned)
unfolding encrypt_sync walk visit visit_kind visit_file needed transfer counted encrypt_file
    mkdir_all mkdir_parts clean_vol bytes_equal has_prefix update prune_volume prune_entries
    prune_entry member vjoin is_dir_mode
ran_deleting = refl

abbrev dry_opts : SyncOpts
dry_opts = record deleting { dry_run = true }

encrypt_sync-dry_example :
    (r : Run memory_volume) × (p : Pruned memory_volume) × (encrypt_sync memory_volume some_paths
        dry_opts some_entries 1 some_items
      ≡ ok (r, p))
    × (r.vol ≡ some_items)
    × (p.vol ≡ some_items)
encrypt_sync-dry_example =
    encrypt_sync-dry memory_volume some_paths dry_opts refl some_entries 1 some_items root_only
  where
    root_only : Within memory_volume some_items 1 slash
    root_only = unfold bytes_equal update is_dir_mode in (λ e. cc, tt)

-- The item at `/a` stays where others are removed.
item-Spares :
    Spares memory_volume (λ s. s (bytes_of "/a") ≡ sent_items (bytes_of "/a")) (bytes_of "/a")
item-Spares s p away holds =
    let same = update_other s p (bytes_of "/a") none away in (same ∙ holds, same ∙ holds)

encrypt_sync-spares_example : some_pruned.vol (bytes_of "/a") ≡ sent_items (bytes_of "/a")
unfolding bytes_equal clean_vol update
encrypt_sync-spares_example =
    encrypt_sync-spares memory_volume some_paths deleting
      (λ s. s (bytes_of "/a") ≡ sent_items (bytes_of "/a")) some_entries 3 some_items some_run
      some_pruned (record { rel = bytes_of "a"; kind = regular some_source }) ran_deleting
      (Memᴰ.tail (Memᴰ.head refl)) refl item-Spares refl
