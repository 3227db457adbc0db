-- ===== src/FileOps/Actions.antt =====
-- One open file of file.go: `*os.File` with its backing file on disk, the cached `File.ID`,
-- and the results that the system and the random source give.
use shiroikuma_gcfs.Prelude.{
  leb, ◌^◌, ℕ, zero, suc, ◌+◌, Option, none, some, Outcome, ok, err, panic, stuck, Error, eio,
  enospc, ◌==◌, if◌then◌else◌, take, drop, Bytes,
}
use shiroikuma_gcfs.Prelude.Ranges.{write_bytes, resize}
use shiroikuma_gcfs.ContentEnc.Blocks.{ContentEnc}

-- `nonces` and `ids` are random bytes, `faults` the calls of the system that fail: a write that fails
-- has written the first bytes, as many as its entry says, and another call fails with that errno. All
-- three are indexed by `tick`. `retries` bounds how often a call that is interrupted is made again.
pub record Env : Type 0 where
  pub content_enc : ContentEnc
  pub num_cpu : ℕ
  pub nonces : ℕ → Bytes
  pub ids : ℕ → Bytes
  pub faults : ℕ → Option ℕ
  pub retries : ℕ

-- `tick` counts the calls of the system and the random draws.
pub record OpenFile : Type 0 where
  pub id : Option Bytes
  pub disk : Bytes
  pub tick : ℕ

-- A step on an open file. What was changed stays changed after an error.
abbrev pub Action : Type 0 → Type 0
Action A = OpenFile → Outcome A × OpenFile

module _ {A B : Type 0} where
  abbrev pub next : Outcome A × OpenFile → (A → Action B) → Outcome B × OpenFile
  next (panic, s) f = (panic, s)
  next (stuck, s) f = (stuck, s)
  next (err error, s) f = (err error, s)
  next (ok a, s) f = f a s

infixl 5 ◌>>=◌
abbrev pub ◌>>=◌ : {A B : Type 0} → Action A → (A → Action B) → Action B
(m >>= f) s = next (m s) f

module _ {A : Type 0} where
  abbrev pub lift : Outcome A → Action A
  lift m s = (m, s)

  abbrev pub pure : A → Action A
  pure a s = (ok a, s)

  abbrev pub raise : Error → Action A
  raise e s = (err e, s)

abbrev pub tock : OpenFile → ℕ → OpenFile
tock s n = record s { tick = s.tick + n }

-- `fd.ReadAt`: fewer bytes than asked for at the end of the file.
unfoldable pub read_at : Env → ℕ → ℕ → Action Bytes
read_at env size offset s = elim (env.faults s.tick) [
  | some k ↦ (err eio, tock s 1)
  | none ↦ (ok (take size (drop offset s.disk)), tock s 1)
]

-- `fd.WriteAt`
unfoldable pub write_at : Env → Bytes → ℕ → Action (Unit {0})
unfolding write_bytes
write_at env new offset s = elim (env.faults s.tick) [
  | some k ↦ (err eio, record (tock s 1) { disk = write_bytes s.disk offset (take k new) })
  | none ↦ (ok tt, record (tock s 1) { disk = write_bytes s.disk offset new })
]

-- `syscall.Ftruncate`, which refuses a size that is negative as an int64.
unfoldable pub ftruncate : Env → ℕ → Action (Unit {0})
ftruncate env size s = if leb (2 ^ 63) size then (err eio, tock s 1) else elim (env.faults s.tick) [
  | some k ↦ (err eio, tock s 1)
  | none ↦ (ok tt, record (tock s 1) { disk = resize s.disk size })
]

abbrev pub eintr : ℕ
eintr = 4

abbrev pub eopnotsupp : ℕ
eopnotsupp = 95

-- The loop of `EnospcPrealloc`. The space that `syscall.Fallocate` reserves changes neither the size nor
-- the bytes of the file.
unfoldable pub prealloc_loop : Env → ℕ → Action (Unit {0})
prealloc_loop env zero s = (stuck, s)
prealloc_loop env (suc rounds) s =
    let again = prealloc_loop env rounds (tock s 1) in
    elim (env.faults s.tick) [
      | none ↦ (ok tt, tock s 1)
      | some e ↦
          if e == eintr
          then again
          else if e == eopnotsupp
          then (ok tt, tock s 1)
          else (err enospc, tock s 1)
    ]

unfoldable pub enospc_prealloc : Env → Action (Unit {0})
enospc_prealloc env s = prealloc_loop env (suc env.retries) s

abbrev pub set_id : Bytes → Action (Unit {0})
set_id file_id s = (ok tt, record s { id = some file_id })
