-- ===== src/Transfer/Examples.antt =====
-- A copy into a small volume and out of it, and instances of the theorems.
use shiroikuma_gcfs.Prelude.{
  ℕ, ◌*◌, ◌≤◌, ◌⊎◌, take, ◌≡◌, refl, inl, inr, true, false, none, some, List, [], ◌∷◌, ok, err, eio,
  arith, Bytes, bytes_equal, replicate,
}
use shiroikuma_gcfs.Samples.{small_enc, some_env, some_env_lem}
use shiroikuma_gcfs.Prelude.Ranges.{write_bytes}
use shiroikuma_gcfs.FileOps.Actions.{Env, OpenFile, read_at}
use shiroikuma_gcfs.FileOps.{do_read, do_write, file_id_for_read, read_file_id}
use shiroikuma_gcfs.FileOps.Backed.{IsEnv, Backs}
use shiroikuma_gcfs.FileOps.Writes.{do_write-Backs}
use shiroikuma_gcfs.FileOps.Exports.{gcf_read_file, Files, file_of, with_file, without, handle_of}
use shiroikuma_gcfs.Transfer.{chunk, put, encrypt_file, read_loop, write_reads}
use shiroikuma_gcfs.Transfer.Puts.{write_reads-Leaves}
use shiroikuma_gcfs.Transfer.Faults.{Faulty}
use shiroikuma_gcfs.Transfer.Prefixes.{read_loop-take}
use shiroikuma_gcfs.Transfer.RoundTrip.{put-Backs, read_loop-encrypt_file}

-- Three reads, of which one is empty.
abbrev some_reads : List Bytes
some_reads = (1 ∷ 2 ∷ 3 ∷ 4 ∷ 5 ∷ []) ∷ [] ∷ (6 ∷ 7 ∷ []) ∷ []

abbrev blank_file : OpenFile
blank_file = record { id = none; disk = []; tick = 0 }

abbrev stale_file : OpenFile
stale_file = record { id = none; disk = replicate 40 9; tick = 0 }

abbrev one_file : OpenFile → Files
one_file s = (3, record { path = 97 ∷ []; file = s }) ∷ []

read_loop-encrypt_file_example :
    (disk : Bytes) × (encrypt_file some_env
        (λ s. none)
        3
        (97 ∷ [])
        some_reads
        false
        (some (one_file stale_file))
      ≡ (ok disk, some []))
    × ((read_loop some_env
          (λ off. true)
          8
          4
          0
          []
          (some (
            (4, record { path = 97 ∷ []; file = record { id = none; disk = disk; tick = 50 } })
            ∷ []))).0
        ≡ ok (1 ∷ 2 ∷ 3 ∷ 4 ∷ 5 ∷ 6 ∷ 7 ∷ []))
unfolding without
read_loop-encrypt_file_example =
    read_loop-encrypt_file some_env some_env_lem (λ t. refl) (λ s. none) some_reads 3 4 50 (97 ∷ [])
      (one_file stale_file) file_found first_found refl (omega arith) (omega arith) (omega arith)
  where
    file_found :
        file_of (one_file stale_file) 3 ≡ some (record { path = 97 ∷ []; file = stale_file })
    file_found = unfold file_of in refl

    first_found :
        handle_of (one_file stale_file) (97 ∷ [])
        ≡ some (3, record { path = 97 ∷ []; file = stale_file })
    first_found = unfold handle_of bytes_equal in refl

found_in : (s : OpenFile) → file_of (one_file s) 3 ≡ some (record { path = 97 ∷ []; file = s })
unfolding file_of
found_in s = refl

-- A file of six bytes.
stored :
    (t : OpenFile) × (do_write some_env (1 ∷ 2 ∷ 3 ∷ 4 ∷ 5 ∷ 6 ∷ []) 0 blank_file ≡ (ok 6, t))
    × Backs small_enc t (1 ∷ 2 ∷ 3 ∷ 4 ∷ 5 ∷ 6 ∷ [])
unfolding write_bytes
stored =
    do_write-Backs some_env some_env_lem (λ t. refl) [] (1 ∷ 2 ∷ 3 ∷ 4 ∷ 5 ∷ 6 ∷ []) 0 (omega arith)
      (omega arith) (omega arith) (omega arith) (inr (0, refl)) blank_file
      (inl (record { no_disk = refl; no_id = refl; no_plain = refl }))

-- The tail of the six bytes stays.
put-Backs_example :
    (t : OpenFile) × (put some_env 3 ((9 ∷ 8 ∷ []) ∷ []) false (some (one_file stored.0))
      ≡ (ok t.disk, some []))
    × Backs small_enc t (9 ∷ 8 ∷ 3 ∷ 4 ∷ 5 ∷ 6 ∷ [])
unfolding without
put-Backs_example =
    put-Backs some_env some_env_lem (λ t. refl) (1 ∷ 2 ∷ 3 ∷ 4 ∷ 5 ∷ 6 ∷ []) ((9 ∷ 8 ∷ []) ∷ []) 3
      (one_file stored.0) (found_in stored.0) stored.2 (omega arith) (omega arith) (omega arith)

write_reads-Leaves_example :
    (t : OpenFile) × (write_reads some_env 3 some_reads true 0 (some (one_file blank_file))
      ≡ (err eio, some (with_file (one_file blank_file) 3 t)))
    × Backs small_enc t (1 ∷ 2 ∷ 3 ∷ 4 ∷ 5 ∷ 6 ∷ 7 ∷ [])
write_reads-Leaves_example =
    write_reads-Leaves some_env some_env_lem (λ t. refl) [] 7 (omega arith) (omega arith) some_reads
      true 3 [] (one_file blank_file) (found_in blank_file)
      (inl (record { no_disk = refl; no_id = refl; no_plain = refl })) (omega arith) (omega arith)

-- Every call of the system fails.
abbrev broken_env : Env
broken_env = record some_env { faults = λ t. some 5 }

broken_env_lem : IsEnv broken_env
broken_env_lem = record {
  made = some_env_lem.made;
  some_nonce = some_env_lem.some_nonce;
  small = some_env_lem.small;
  aead = some_env_lem.aead;
  fresh = some_env_lem.fresh;
  id_sized = some_env_lem.id_sized;
  id_random = some_env_lem.id_random;
}

broken_run : (read_loop broken_env (λ off. true) 8 3 0 [] (some (one_file stale_file))).0 ≡ ok []
unfolding read_loop gcf_read_file file_of do_read file_id_for_read read_file_id read_at
broken_run = refl

read_loop-take_example :
    (k : ℕ) × ((read_loop broken_env (λ off. true) 7 3 0 [] (some (one_file stored.0))).0
      ≡ ok (take (k * chunk) (1 ∷ 2 ∷ 3 ∷ 4 ∷ 5 ∷ 6 ∷ [])))
    × ((6 ≤ k * chunk) ⊎ Faulty broken_env)
read_loop-take_example =
    read_loop-take broken_env broken_env_lem (λ off. true) (λ off. refl)
      (1 ∷ 2 ∷ 3 ∷ 4 ∷ 5 ∷ 6 ∷ []) (omega arith) (omega arith) (omega arith) 3 (one_file stored.0)
      (found_in stored.0) stored.2
