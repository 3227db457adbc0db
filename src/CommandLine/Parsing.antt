-- ===== src/CommandLine/Parsing.antt =====
-- Arguments that are written out are read back.
use shiroikuma_gcfs.Prelude.{
  ℕ, ◌≤◌, ◌<◌, ◌≡◌, refl, sym, ap, ◌∙◌, Bool, true, false, ◌&&◌, List, [], ◌∷◌, ◌++◌, arith, ◌==◌,
  if◌then◌else◌, length, All, Bytes, bytes_equal, bytes_of, has_prefix,
}
use shiroikuma_gcfs.Sync.{SyncOpts, Paths}
use shiroikuma_gcfs.CommandLine.{
  done, then_go, positional, pass_arg, keep, pull_passfile, plain, base_flag, sync_flag, sync_loop,
  sync, two_paths, defaults, command, beside, parse_args,
}

-- An argument that the first loop leaves for the others.
abbrev pub IsPositional : Bytes → Type 0
IsPositional a = pass_arg a ≡ positional

pull_passfile-keep :
    (passfile a : Bytes) (args : List Bytes)
    → IsPositional a
    → pull_passfile false passfile (a ∷ args) ≡ keep a (pull_passfile false passfile args)
unfolding pull_passfile
pull_passfile-keep passfile a args h = rw (pull_passfile, h) refl

pull_passfile-rest :
    (passfile : Bytes) (post : List Bytes)
    → All IsPositional post
    → pull_passfile false passfile post ≡ (passfile, post)
unfolding pull_passfile
pull_passfile-rest passfile [] all = refl
pull_passfile-rest passfile (a ∷ post) (h, all) =
    pull_passfile-keep passfile a post h ∙ ap (keep a) (pull_passfile-rest passfile post all)

pull_passfile-append :
    (before passfile : Bytes) (pre post : List Bytes)
    → All IsPositional pre
    → All IsPositional post
    → pull_passfile false before (pre ++ (bytes_of "-passfile" ∷ passfile ∷ post))
      ≡ (passfile, pre ++ post)
unfolding pull_passfile pass_arg bytes_equal
pull_passfile-append before passfile [] post h all = pull_passfile-rest passfile post all
pull_passfile-append before passfile (a ∷ pre) post (h, hs) all =
    pull_passfile-keep before a (pre ++ (bytes_of "-passfile" ∷ passfile ∷ post)) h
    ∙ ap (keep a) (pull_passfile-append before passfile pre post hs all)

abbrev flag : Bool → Bytes → List Bytes → List Bytes
flag on name rest = if on then name ∷ rest else rest

-- The options of `sync`, with `-base` always, and the two paths.
abbrev pub written : SyncOpts → Bytes → Bytes → List Bytes
written o src dst = flag o.dry_run (bytes_of "-n") (
    flag o.delete (bytes_of "-delete") (
      flag o.checksum (bytes_of "-checksum")
        (flag o.verbose (bytes_of "-v") (bytes_of "-base" ∷ o.base ∷ src ∷ dst ∷ []))))

sync_flag-plain : (a : Bytes) → has_prefix a (bytes_of "-") ≡ false → sync_flag a ≡ plain
unfolding sync_flag base_flag has_prefix bytes_equal
sync_flag-plain [] h = refl
sync_flag-plain (c ∷ cs) h = rw (no_dash (c == 45) h) refl
  where
    no_dash : (b : Bool) → (b && true) ≡ false → b ≡ false
    no_dash true h = cc
    no_dash false h = refl

module _ (pos rest : List Bytes) where
  sync_loop-dry :
      (base : Bytes) (w : ℕ) (del checksum verbose dry : Bool)
      → sync_loop false
          (record {
            base = base;
            window = w;
            delete = del;
            dry_run = false;
            checksum = checksum;
            verbose = verbose;
          })
          pos
          (flag dry (bytes_of "-n") rest)
        ≡ sync_loop false
            (record {
              base = base;
              window = w;
              delete = del;
              dry_run = dry;
              checksum = checksum;
              verbose = verbose;
            })
            pos
            rest
  unfolding sync_loop sync_flag bytes_equal
  sync_loop-dry base w del checksum verbose true = refl
  sync_loop-dry base w del checksum verbose false = refl

  sync_loop-delete :
      (base : Bytes) (w : ℕ) (dry checksum verbose del : Bool)
      → sync_loop false
          (record {
            base = base;
            window = w;
            delete = false;
            dry_run = dry;
            checksum = checksum;
            verbose = verbose;
          })
          pos
          (flag del (bytes_of "-delete") rest)
        ≡ sync_loop false
            (record {
              base = base;
              window = w;
              delete = del;
              dry_run = dry;
              checksum = checksum;
              verbose = verbose;
            })
            pos
            rest
  unfolding sync_loop sync_flag bytes_equal
  sync_loop-delete base w dry checksum verbose true = refl
  sync_loop-delete base w dry checksum verbose false = refl

  sync_loop-checksum :
      (base : Bytes) (w : ℕ) (dry del verbose checksum : Bool)
      → sync_loop false
          (record {
            base = base;
            window = w;
            delete = del;
            dry_run = dry;
            checksum = false;
            verbose = verbose;
          })
          pos
          (flag checksum (bytes_of "-checksum") rest)
        ≡ sync_loop false
            (record {
              base = base;
              window = w;
              delete = del;
              dry_run = dry;
              checksum = checksum;
              verbose = verbose;
            })
            pos
            rest
  unfolding sync_loop sync_flag bytes_equal
  sync_loop-checksum base w dry del verbose true = refl
  sync_loop-checksum base w dry del verbose false = refl

  sync_loop-verbose :
      (base : Bytes) (w : ℕ) (dry del checksum verbose : Bool)
      → sync_loop false
          (record {
            base = base;
            window = w;
            delete = del;
            dry_run = dry;
            checksum = checksum;
            verbose = false;
          })
          pos
          (flag verbose (bytes_of "-v") rest)
        ≡ sync_loop false
            (record {
              base = base;
              window = w;
              delete = del;
              dry_run = dry;
              checksum = checksum;
              verbose = verbose;
            })
            pos
            rest
  unfolding sync_loop sync_flag bytes_equal
  sync_loop-verbose base w dry del checksum true = refl
  sync_loop-verbose base w dry del checksum false = refl

sync_loop-plain :
    (o : SyncOpts) (pos : List Bytes) (a : Bytes) (args : List Bytes)
    → sync_flag a ≡ plain
    → sync_loop false o pos (a ∷ args) ≡ sync_loop false o (pos ++ (a ∷ [])) args
unfolding sync_loop
sync_loop-plain o pos a args h = rw (sync_loop, h) refl

sync_loop-base :
    (o : SyncOpts) (pos : List Bytes) (base : Bytes) (args : List Bytes)
    → sync_loop false o pos (bytes_of "-base" ∷ base ∷ args)
      ≡ sync_loop false (record o { base = base }) pos args
unfolding sync_loop sync_flag base_flag bytes_equal
sync_loop-base o pos base args = refl

sync_loop-end : (o : SyncOpts) (pos : List Bytes) → sync_loop false o pos [] ≡ done (o, pos)
unfolding sync_loop
sync_loop-end o pos = refl

sync_loop-written :
    (o : SyncOpts) (src dst : Bytes)
    → o.window ≡ 2
    → sync_flag src ≡ plain
    → sync_flag dst ≡ plain
    → sync_loop false defaults [] (written o src dst) ≡ done (o, src ∷ dst ∷ [])
sync_loop-written o src dst w h k =
    sync_loop-dry [] _ [] 2 false false false o.dry_run
    ∙ sync_loop-delete [] _ [] 2 o.dry_run false false o.delete
    ∙ sync_loop-checksum [] _ [] 2 o.dry_run o.delete false o.checksum
    ∙ sync_loop-verbose [] _ [] 2 o.dry_run o.delete o.checksum o.verbose
    ∙ sync_loop-base (record o { base = []; window = 2 }) [] o.base (src ∷ dst ∷ [])
    ∙ sync_loop-plain (record o { window = 2 }) [] src (dst ∷ []) h
    ∙ sync_loop-plain (record o { window = 2 }) (src ∷ []) dst [] k
    ∙ sync_loop-end (record o { window = 2 }) (src ∷ dst ∷ [])
    ∙ ap (λ n. done (record o { window = n }, src ∷ dst ∷ [])) (sym w)

flag-length : (b : Bool) (n : Bytes) (rest : List Bytes) → length rest ≤ length (flag b n rest)
flag-length true n rest = omega arith
flag-length false n rest = omega arith

command-sync :
    (paths : Paths) (args : List Bytes)
    → 0 < length args
    → command paths (bytes_of "sync" ∷ args) ≡ then_go (sync_loop false defaults [] args) two_paths
unfolding command bytes_equal
command-sync paths [] h = absurd (omega arith)
command-sync paths (a ∷ args) h = refl

written-length : (o : SyncOpts) (src dst : Bytes) → 0 < length (written o src dst)
written-length o src dst =
    let tail : List Bytes = bytes_of "-base" ∷ o.base ∷ src ∷ dst ∷ [] in
    let verbose = flag o.verbose (bytes_of "-v") tail in
    let checksum = flag o.checksum (bytes_of "-checksum") verbose in
    omega (
      arith,
      flag-length o.verbose (bytes_of "-v") tail,
      flag-length o.checksum (bytes_of "-checksum") verbose,
      flag-length o.delete (bytes_of "-delete") checksum,
      flag-length o.dry_run (bytes_of "-n") (flag o.delete (bytes_of "-delete") checksum),
    )

-- For options of sync with a window of 2, two paths that do not begin with a dash, and arguments
-- that the first loop of main leaves alone: main, on the options and paths written out after sync,
-- with -passfile and a file name put in at any place, calls doSync with these options and paths and
-- that password file.
pub parse_args-written :
    (paths : Paths) (o : SyncOpts) (src dst passfile : Bytes) (pre post : List Bytes)
    → pre ++ post ≡ bytes_of "sync" ∷ written o src dst
    → All IsPositional pre
    → All IsPositional post
    → o.window ≡ 2
    → has_prefix src (bytes_of "-") ≡ false
    → has_prefix dst (bytes_of "-") ≡ false
    → parse_args paths (pre ++ (bytes_of "-passfile" ∷ passfile ∷ post))
      ≡ done (passfile, sync o src dst)
unfolding parse_args
parse_args-written paths o src dst passfile pre post whole before behind w h k =
    ap (λ (r : Bytes × List Bytes). then_go (command paths r.1) (beside r.0))
      (pull_passfile-append [] passfile pre post before behind)
    ∙ ap (λ l. then_go (command paths l) (beside passfile)) whole
    ∙ ap (λ c. then_go c (beside passfile))
        (command-sync paths (written o src dst) (written-length o src dst)
          ∙ ap (λ r. then_go r two_paths)
              (sync_loop-written o src dst w (sync_flag-plain src h) (sync_flag-plain dst k)))
