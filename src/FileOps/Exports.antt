-- ===== src/FileOps/Exports.antt =====
-- file.go: `gcf_read_file`, `gcf_write_file` and `gcf_truncate`, on the open files of a volume. A session
-- that is not open is `none`. The map of handles is an association list, of which the first entry for
-- a number counts.
use shiroikuma_gcfs.Prelude.{
  ℕ, ◌%◌, ◌^◌, Bool, true, false, Option, none, some, List, [], ◌∷◌, Outcome, ok, err, panic, stuck,
  enospc_new_file, ltb, ◌==◌, if◌then◌else◌, length, Bytes, bytes_equal,
}
use shiroikuma_gcfs.ContentEnc.Blocks.{max_kernel_write}
use shiroikuma_gcfs.FileOps.Actions.{Env, OpenFile}
use shiroikuma_gcfs.FileOps.{do_read, do_write}
use shiroikuma_gcfs.FileOps.Truncate.{truncate}

-- `File`, with what it stands for on disk.
pub record Handle : Type 0 where
  pub path : Bytes
  pub file : OpenFile

abbrev pub Files : Type 0
Files = List (ℕ × Handle)

-- `volume.fileHandles[handleID]`
unfoldable pub file_of : Files → ℕ → Option Handle
file_of [] c = none
file_of ((k, h) ∷ rest) c = if k == c then some h else file_of rest c

-- The pointer that the map holds is changed in place.
unfoldable pub with_file : Files → ℕ → OpenFile → Files
with_file [] c s = []
with_file ((k, h) ∷ rest) c s =
    let more = with_file rest c s in
    if k == c then (k, record h { file = s }) ∷ rest else (k, h) ∷ more

unfoldable pub without : Files → ℕ → Files
without [] c = []
without ((k, h) ∷ rest) c = let more = without rest c in if k == c then more else (k, h) ∷ more

-- The bytes that stand in `dst_buff` afterwards, and their number.
read_result : Files → ℕ → Outcome Bytes × OpenFile → Outcome (ℕ × Bytes) × Files
read_result files handle (ok out, s) = (ok (length out % 2 ^ 32, out), with_file files handle s)
read_result files handle (err e, s) = (ok (0, []), with_file files handle s)
read_result files handle (panic, s) = (panic, with_file files handle s)
read_result files handle (stuck, s) = (stuck, with_file files handle s)

unfoldable pub gcf_read_file : Env → Option Files → ℕ → ℕ → ℕ → Outcome (ℕ × Bytes) × Option Files
unfolding read_result
gcf_read_file env none handle offset want = (ok (0, []), none)
gcf_read_file env (some files) handle offset want =
    if ltb max_kernel_write want then (ok (0, []), some files) else elim (file_of files handle) [
      | none ↦ (panic, some files)
      | some f ↦
          let r = read_result files handle (do_read env offset want f.file) in (r.0, some r.1)
    ]

-- Without space for a new file, `gcf_close_file` waits for the lock of the file that `gcf_write_file`
-- holds: the call does not return.
write_result : Files → ℕ → Outcome ℕ × OpenFile → Outcome ℕ × Files
write_result files handle (ok n, s) = (ok n, with_file files handle s)
write_result files handle (err enospc_new_file, s) = (stuck, with_file files handle s)
write_result files handle (err e, s) = (ok 0, with_file files handle s)
write_result files handle (panic, s) = (panic, with_file files handle s)
write_result files handle (stuck, s) = (stuck, with_file files handle s)

unfoldable pub gcf_write_file : Env → Option Files → ℕ → ℕ → Bytes → Outcome ℕ × Option Files
unfolding write_result
gcf_write_file env none handle offset new = (ok 0, none)
gcf_write_file env (some files) handle offset new =
    if ltb max_kernel_write (length new) then (ok 0, some files) else elim (file_of files handle) [
      | none ↦ (panic, some files)
      | some f ↦
          let r = write_result files handle (do_write env new offset f.file) in (r.0, some r.1)
    ]

-- Here no lock is held, so that the handle is closed.
truncate_result : Files → ℕ → Outcome (Unit {0}) × OpenFile → Outcome Bool × Files
truncate_result files handle (ok u, s) = (ok true, with_file files handle s)
truncate_result files handle (err enospc_new_file, s) = (ok false, without files handle)
truncate_result files handle (err e, s) = (ok false, with_file files handle s)
truncate_result files handle (panic, s) = (panic, with_file files handle s)
truncate_result files handle (stuck, s) = (stuck, with_file files handle s)

-- The first handle of the path. Go goes through a map in any order, which the order of the list is.
unfoldable pub handle_of : Files → Bytes → Option (ℕ × Handle)
handle_of [] path = none
handle_of ((k, h) ∷ rest) path =
    if bytes_equal h.path path then some (k, h) else handle_of rest path

unfoldable pub gcf_truncate :
    Env → (OpenFile → Option ℕ) → Option Files → Bytes → ℕ → Outcome Bool × Option Files
unfolding truncate_result handle_of
gcf_truncate env attrs none path offset = (ok false, none)
gcf_truncate env attrs (some files) path offset = elim (handle_of files path) [
  | none ↦ (ok false, some files)
  | some (k, f) ↦
      let r = truncate_result files k (truncate env attrs offset f.file) in (r.0, some r.1)
]
