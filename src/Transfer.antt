-- ===== src/Transfer.antt =====
-- cli.go and sync.go: the loops that copy a file into a volume and out of it, in pieces of `chunk`
-- bytes. `die` ends the program: here it is an error. A handle that is closed leaves the bytes of its
-- backing file as the result.
pub mod Tables
pub mod Puts
pub mod Gets
pub mod Faults
pub mod Prefixes
pub mod RoundTrip
mod Examples
use shiroikuma_gcfs.Prelude.{
  ℕ, zero, suc, ◌*◌, Bool, true, false, Option, none, some, List, [], ◌∷◌, ◌++◌, Outcome, ok, err,
  panic, stuck, eio, ltb, ◌==◌, if◌then◌else◌, length, take, Bytes,
}
use shiroikuma_gcfs.ContentEnc.Offsets.{add64}
use shiroikuma_gcfs.FileOps.Actions.{Env, OpenFile}
use shiroikuma_gcfs.FileOps.Exports.{
  Files, file_of, without, gcf_read_file, gcf_write_file, gcf_truncate,
}

abbrev pub chunk : ℕ
chunk = 64 * 1024

-- A handle that is not in the table is a nil pointer.
unfoldable pub gcf_close_file : Option Files → ℕ → Outcome Bytes × Option Files
gcf_close_file none handle = (ok [], none)
gcf_close_file (some files) handle = elim (file_of files handle) [
  | none ↦ (panic, some files)
  | some f ↦ (ok f.file.disk, some (without files handle))
]

-- The new offset, or `die` where the count that was written is another one.
checked : Bytes → ℕ → Outcome ℕ × Option Files → Outcome ℕ × Option Files
checked buf off (ok w, files) =
    if w == length buf then (ok (add64 off (length buf)), files) else (err eio, files)
checked buf off (err e, files) = (err e, files)
checked buf off (panic, files) = (panic, files)
checked buf off (stuck, files) = (stuck, files)

-- The loop's body after a read.
unfoldable pub write_chunk : Env → ℕ → Bytes → ℕ → Option Files → Outcome ℕ × Option Files
unfolding checked
write_chunk env handle buf off files =
    if ltb 0 (length buf)
    then checked buf off (gcf_write_file env files handle off buf)
    else (ok off, files)

module _ {A B : Type 0} where
  abbrev pub and_then :
      Outcome A × Option Files
      → (A → Option Files → Outcome B × Option Files)
      → Outcome B × Option Files
  and_then (ok a, files) f = f a files
  and_then (err e, files) f = (err e, files)
  and_then (panic, files) f = (panic, files)
  and_then (stuck, files) f = (stuck, files)

-- The loop of `encryptFile` and of `put`: `reads` are the bytes of the reads one after the other, and
-- `failed` tells whether the last one ends in an error that is not the end of the file.
unfoldable pub write_reads :
    Env → ℕ → List Bytes → Bool → ℕ → Option Files → Outcome ℕ × Option Files
write_reads env handle [] failed off files = (if failed then err eio else ok off, files)
write_reads env handle (buf ∷ reads) failed off files =
    and_then (write_chunk env handle buf off files) (write_reads env handle reads failed)

-- The handle is closed after the loop, and before `die`.
closed : ℕ → Outcome ℕ × Option Files → Outcome Bytes × Option Files
closed handle (ok off, files) = gcf_close_file files handle
closed handle (err e, files) = and_then (gcf_close_file files handle) (λ disk after. (err e, after))
closed handle (panic, files) = (panic, files)
closed handle (stuck, files) = (stuck, files)

-- `put`, from the opened handle on. An existing file is not truncated.
unfoldable pub put : Env → ℕ → List Bytes → Bool → Option Files → Outcome Bytes × Option Files
unfolding closed
put env handle reads failed files = closed handle (write_reads env handle reads failed 0 files)

-- `encryptFile`, from the opened handle on. Nobody looks at the result of `gcf_truncate`.
unfoldable pub encrypt_file :
    Env
    → (OpenFile → Option ℕ)
    → ℕ
    → Bytes
    → List Bytes
    → Bool
    → Option Files
    → Outcome Bytes × Option Files
encrypt_file env attrs handle path reads failed files =
    and_then (gcf_truncate env attrs files path 0) (λ done. put env handle reads failed)

-- What a round of the loop below does with the bytes that were read.
module _ (room : ℕ → Bool) (more : ℕ → Bytes → Option Files → Outcome Bytes × Option Files) where
  abbrev pub consume : ℕ → Bytes → ℕ × Bytes → Option Files → Outcome Bytes × Option Files
  consume off out (n, buf) files =
      if n == 0
      then (ok out, files)
      else if room off
      then more (add64 off n) (out ++ take n buf) files
      else (err eio, files)

-- The loop of `cat`, `decryptFileToDisk` and `sha256Vol`. `room` tells whether the destination takes the
-- write that starts at an offset: for a hash it always does, and `cat` looks at no result.
unfoldable pub read_loop :
    Env → (ℕ → Bool) → ℕ → ℕ → ℕ → Bytes → Option Files → Outcome Bytes × Option Files
read_loop env room zero handle off out files = (stuck, files)
read_loop env room (suc fuel) handle off out files =
    and_then (gcf_read_file env files handle off chunk)
      (consume room (read_loop env room fuel handle) off out)
