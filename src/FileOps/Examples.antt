-- ===== src/FileOps/Examples.antt =====
-- Runs of reading, writing and truncating a file, and instances of the theorems.
use shiroikuma_gcfs.Prelude.{
  ◌≡◌, refl, inl, inr, true, false, none, some, [], ◌∷◌, ok, err, arith, length, Bytes,
  header_all_zero,
}
use shiroikuma_gcfs.Prelude.Ranges.{write_bytes, resize}
use shiroikuma_gcfs.Samples.{names, small_enc_lem, small_enc, some_id, some_env, some_env_lem}
use shiroikuma_gcfs.FileOps.Actions.{OpenFile, ◌>>=◌}
use shiroikuma_gcfs.FileOps.{do_read, do_write, read_file_id}
use shiroikuma_gcfs.FileOps.Truncate.{truncate}
use shiroikuma_gcfs.FileOps.Backed.{Backs, opened}
use shiroikuma_gcfs.FileOps.Attrs.{is_regular, translate_size}
use shiroikuma_gcfs.FileOps.Attrs.Sizes.{translate_size-Backs}
use shiroikuma_gcfs.FileOps.Sizes.{truncate-Backs}
use shiroikuma_gcfs.FileOps.Reads.{do_read-Backs}
use shiroikuma_gcfs.FileOps.Writes.{do_write-Backs}
use shiroikuma_gcfs.FileOps.Rewritten.{do_read-do_write, do_write-truncate}

abbrev empty_file : OpenFile
empty_file = record { id = none; disk = []; tick = 0 }

-- The first write of a file.
abbrev greeting : Bytes
greeting = 1 ∷ 2 ∷ 3 ∷ 4 ∷ 5 ∷ 6 ∷ []

stored :
    (t : OpenFile) × (do_write some_env greeting 0 empty_file ≡ (ok 6, t))
    × Backs small_enc t (write_bytes [] 0 greeting)
stored =
    do_write-Backs some_env some_env_lem (λ t. refl) [] greeting 0 (omega arith) (omega arith)
      (omega arith) (omega arith) (inr (0, refl)) empty_file
      (inl (record { no_disk = refl; no_id = refl; no_plain = refl }))

do_read-Backs_example :
    (t : OpenFile) × (do_read some_env 1 4 stored.0 ≡ (ok (2 ∷ 3 ∷ 4 ∷ 5 ∷ []), t))
    × (t.disk ≡ stored.0.disk)
    × Backs small_enc t greeting
unfolding write_bytes
do_read-Backs_example =
    do_read-Backs some_env some_env_lem (λ t. refl) stored.0 greeting 1 4 stored.2 (omega arith)
      (omega arith) (omega arith) (omega arith) (omega arith)

do_write-Backs_example :
    (t : OpenFile) × (do_write some_env (8 ∷ 9 ∷ []) 3 stored.0 ≡ (ok 2, t))
    × Backs small_enc t (1 ∷ 2 ∷ 3 ∷ 8 ∷ 9 ∷ 6 ∷ [])
unfolding write_bytes
do_write-Backs_example =
    do_write-Backs some_env some_env_lem (λ t. refl) greeting (8 ∷ 9 ∷ []) 3 (omega arith)
      (omega arith) (omega arith) (omega arith) (inl (omega arith)) stored.0 stored.2

do_read-do_write_example :
    (t : OpenFile) × ((do_write some_env (8 ∷ 9 ∷ []) 7 >>= λ n. do_read some_env 7 2) stored.0
      ≡ (ok (8 ∷ 9 ∷ []), t))
    × Backs small_enc t (1 ∷ 2 ∷ 3 ∷ 4 ∷ 5 ∷ 6 ∷ 0 ∷ 8 ∷ 9 ∷ [])
unfolding write_bytes
do_read-do_write_example =
    do_read-do_write some_env some_env_lem (λ t. refl) (8 ∷ 9 ∷ []) 7 (omega arith) (omega arith)
      (omega arith) (omega arith) greeting stored.0 stored.2 (inl (omega arith))

do_write-truncate_example :
    (u : OpenFile) × ((truncate some_env (λ s. none) 0 >>= λ done. do_write some_env greeting 0)
        (opened some_id [] 5)
      ≡ (ok 6, u))
    × ((read_file_id some_env (record u { id = none })).0 ≡ err header_all_zero)
do_write-truncate_example =
    do_write-truncate some_env some_env_lem (λ t. refl) greeting 0 (omega arith) (omega arith)
      (omega arith) (omega arith) (λ s. none) some_id [] 5 refl

translate_size-Backs_example :
    translate_size small_enc names false (ok []) 33188 (length stored.0.disk) ≡ ok 6
unfolding write_bytes
translate_size-Backs_example =
    translate_size-Backs small_enc small_enc_lem greeting (omega arith) stored.0 names false (ok [])
      33188 stored.2 regular
  where
    regular : is_regular 33188 ≡ true
    regular = unfold is_regular in refl

truncate-Backs_example :
    (t : OpenFile) × (truncate some_env (λ s. some 6) 12 stored.0 ≡ (ok tt, t))
    × Backs small_enc t (1 ∷ 2 ∷ 3 ∷ 4 ∷ 5 ∷ 6 ∷ 0 ∷ 0 ∷ 0 ∷ 0 ∷ 0 ∷ 0 ∷ [])
unfolding write_bytes resize
truncate-Backs_example =
    truncate-Backs some_env some_env_lem (λ t. refl) (λ s. some 6) stored.0 greeting 12 refl
      stored.2 (omega arith) (omega arith) (omega arith) (omega arith) (omega arith)
