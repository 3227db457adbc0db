-- ===== src/Sessions/Examples.antt =====
-- A volume of which the file with the handle 1 is open, and not the one with 0.
use shiroikuma_gcfs.Prelude.{◌≡◌, refl, none, [], ◌∷◌, ok, panic, arith, bytes_of}
use shiroikuma_gcfs.DirCache.{DirCache, new_dir_cache, clear}
use shiroikuma_gcfs.Handles as Handles
use shiroikuma_gcfs.Sessions.{Opened, OpenedVolumes, load, delete, gcf_close, close_loop}
use shiroikuma_gcfs.Sessions.Closing.{gcf_close-panic}

abbrev some_cache : DirCache
some_cache = new_dir_cache 16

abbrev some_opened : Opened
some_opened = record {
  handles = (1, record { fd = 9; path = bytes_of "/a"; id = none }) ∷ [];
  cache = some_cache;
}

abbrev some_volumes : OpenedVolumes
some_volumes = (0, some_opened) ∷ (4, record { handles = []; cache = some_cache }) ∷ []

-- Without open files.
gcf_close_run : gcf_close some_volumes 4 ≡ ok ((0, some_opened) ∷ [], [])
unfolding gcf_close load delete close_loop clear new_dir_cache
gcf_close_run = refl

gcf_close-panic_example : gcf_close some_volumes 0 ≡ panic
unfolding load Handles.load
gcf_close-panic_example = gcf_close-panic some_volumes 0 0 some_opened refl (omega arith) refl
