-- ===== src/FileOps/Shrinks.antt =====
-- The ways through `truncate` for a file that gets shorter.
use shiroikuma_gcfs.Prelude.{
  ℕ, ◌<◌, ◌≡◌, refl, true, false, some, Option, ok, arith, Bytes, ltb, not-ltb, leb, ◌==◌,
}
use shiroikuma_gcfs.ContentEnc.Offsets.{
  sub64, plain_off_to_block_no, block_no_to_cipher_off, block_no_to_plain_off,
}
use shiroikuma_gcfs.FileOps.Actions.{Env, OpenFile, ftruncate}
use shiroikuma_gcfs.FileOps.{do_read, do_write}
use shiroikuma_gcfs.FileOps.Truncate.{shrink, truncate}

-- The two ways through the end of `truncate`.
pub shrink-whole :
    (env : Env) (s : OpenFile) (new_size : ℕ) {m p c : ℕ}
    → plain_off_to_block_no env.content_enc.geometry new_size ≡ m
    → block_no_to_plain_off env.content_enc.geometry m ≡ p
    → block_no_to_cipher_off env.content_enc.geometry m ≡ c
    → sub64 new_size p ≡ 0
    → shrink env new_size s ≡ ftruncate env c s
unfolding shrink
shrink-whole env s new_size number plain_off cipher_off none_left =
    rw (shrink, number, plain_off, cipher_off, none_left) refl

pub shrink-part :
    (env : Env) (s : OpenFile) (new_size : ℕ) {m p c k w : ℕ} {kept : Bytes} {s1 s2 s3 : OpenFile}
    → plain_off_to_block_no env.content_enc.geometry new_size ≡ m
    → block_no_to_plain_off env.content_enc.geometry m ≡ p
    → block_no_to_cipher_off env.content_enc.geometry m ≡ c
    → sub64 new_size p ≡ k
    → ltb 0 k ≡ true
    → do_read env p k s ≡ (ok kept, s1)
    → ftruncate env c s1 ≡ (ok tt, s2)
    → do_write env kept p s2 ≡ (ok w, s3)
    → shrink env new_size s ≡ (ok tt, s3)
unfolding shrink
shrink-part env s new_size number plain_off cipher_off len some_left read cut write =
    rw (shrink, number, plain_off, cipher_off, len, some_left, read, cut, write) refl

pub not-leb : (n m : ℕ) → m < n → leb n m ≡ false
not-leb n m h = ground arith

pub not-== : (n m : ℕ) → n < m → ((n == m) ≡ false) × ((m == n) ≡ false)
not-== n m h = (ground arith, ground arith)

pub truncate-shrinks :
    (env : Env) (attrs : OpenFile → Option ℕ) (s : OpenFile) (new_size : ℕ) {old_size : ℕ}
    → attrs s ≡ some old_size
    → 0 < new_size
    → new_size < old_size
    → truncate env attrs new_size s ≡ shrink env new_size s
unfolding truncate
truncate-shrinks env attrs s new_size {old_size} known some_left shorter =
    rw
      (
        (not-== 0 new_size some_left).1,
        truncate,
        known,
        (not-== new_size old_size shorter).0,
        not-ltb new_size old_size (omega (arith, shorter)),
      )
      refl
