-- ===== src/CommandLine/Examples.antt =====
-- An instance of the round trip of the arguments.
use shiroikuma_gcfs.Prelude.{◌≡◌, refl, true, false, [], ◌∷◌, bytes_of, bytes_equal, has_prefix}
use shiroikuma_gcfs.Sync.{SyncOpts, Paths}
use shiroikuma_gcfs.CommandLine.{done, sync, parse_args, pass_arg}
use shiroikuma_gcfs.CommandLine.Parsing.{parse_args-written}

abbrev some_opts : SyncOpts
some_opts = record {
  base = bytes_of "/b";
  window = 2;
  delete = false;
  dry_run = true;
  checksum = false;
  verbose = true;
}

abbrev some_paths : Paths
some_paths = record { clean = λ p. p; dir = λ p. p }

-- `-passfile` stands between the options.
parse_args-written_example :
    parse_args some_paths (
      bytes_of "sync"
      ∷ bytes_of "-n"
      ∷ bytes_of "-passfile"
      ∷ bytes_of "pw"
      ∷ bytes_of "-v"
      ∷ bytes_of "-base"
      ∷ bytes_of "/b"
      ∷ bytes_of "src"
      ∷ bytes_of "dst"
      ∷ [])
    ≡ done (bytes_of "pw", sync some_opts (bytes_of "src") (bytes_of "dst"))
unfolding pass_arg bytes_equal has_prefix
parse_args-written_example =
    parse_args-written some_paths some_opts (bytes_of "src") (bytes_of "dst") (bytes_of "pw")
      (bytes_of "sync" ∷ bytes_of "-n" ∷ [])
      (bytes_of "-v" ∷ bytes_of "-base" ∷ bytes_of "/b" ∷ bytes_of "src" ∷ bytes_of "dst" ∷ []) refl
      (refl, (refl, tt)) (refl, (refl, (refl, (refl, (refl, tt))))) refl refl refl
