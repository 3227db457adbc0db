-- ===== src/CommandLine.antt =====
-- cli.go: the arguments of the command, and the direction of `doSync`. `die` and the usage text end the
-- program, with the status 1 and 2.
pub mod Parsing
mod Examples
use shiroikuma_gcfs.Prelude.{
  ℕ, Bool, true, false, ◌&&◌, ◌||◌, not, Option, none, some, List, [], ◌∷◌, ◌++◌, ◌==◌, ltb,
  if◌then◌else◌, length, Bytes, bytes_equal, bytes_of, has_prefix,
}
use shiroikuma_gcfs.Sync.{SyncOpts, Paths, slash}
use shiroikuma_gcfs.Sync.Volumes.{trim_prefix}

-- A part of `main` goes on, or ends the program.
pub data Exit (A : Type 0) : Type 0 where
  usage died : Exit A
  done : A → Exit A

abbrev pub then_go : {A B : Type 0} → Exit A → (A → Exit B) → Exit B
then_go usage f = usage
then_go died f = died
then_go (done a) f = f a

pub data PassArg : Type 0 where
  pass_next positional : PassArg
  pass_is : Bytes → PassArg

unfoldable pub pass_arg : Bytes → PassArg
pass_arg a =
    if bytes_equal a (bytes_of "-passfile")
    then pass_next
    else if has_prefix a (bytes_of "-passfile=")
    then pass_is (trim_prefix a (bytes_of "-passfile="))
    else positional

abbrev pub keep : Bytes → Bytes × List Bytes → Bytes × List Bytes
keep a (passfile, rest) = (passfile, a ∷ rest)

-- The first loop of `main`: the password file and the other arguments. The flag is set behind
-- `-passfile`, which is an argument like another where nothing follows.
unfoldable pub pull_passfile : Bool → Bytes → List Bytes → Bytes × List Bytes
pull_passfile false passfile [] = (passfile, [])
pull_passfile true passfile [] = (passfile, bytes_of "-passfile" ∷ [])
pull_passfile true passfile (a ∷ args) = pull_passfile false a args
pull_passfile false passfile (a ∷ args) = elim (pass_arg a) [
  | pass_next ↦ pull_passfile true passfile args
  | pass_is name ↦ pull_passfile false name args
  | positional ↦ keep a (pull_passfile false passfile args)
]

pub data Flag : Type 0 where
  dry_flag delete_flag checksum_flag verbose_flag base_next unknown plain : Flag
  base_is : Bytes → Flag

abbrev pub either : Bytes → Bytes → Bytes → Bool
either a short long = bytes_equal a short || bytes_equal a long

-- The cases on `-base`, and the default, which `find` has too.
unfoldable pub base_flag : Bytes → Flag
base_flag a =
    if bytes_equal a (bytes_of "-base")
    then base_next
    else if has_prefix a (bytes_of "-base=")
    then base_is (trim_prefix a (bytes_of "-base="))
    else if has_prefix a (bytes_of "-")
    then unknown
    else plain

unfoldable pub sync_flag : Bytes → Flag
sync_flag a =
    if either a (bytes_of "-n") (bytes_of "--dry-run")
    then dry_flag
    else if either a (bytes_of "-delete") (bytes_of "--delete")
    then delete_flag
    else if either a (bytes_of "-checksum") (bytes_of "--checksum")
    then checksum_flag
    else if either a (bytes_of "-v") (bytes_of "--verbose")
    then verbose_flag
    else base_flag a

-- The loop over the arguments of `sync`. The flag is set behind `-base`, which ends the program where
-- nothing follows, since it begins with a dash.
unfoldable pub sync_loop : Bool → SyncOpts → List Bytes → List Bytes → Exit (SyncOpts × List Bytes)
sync_loop false o pos [] = done (o, pos)
sync_loop true o pos [] = died
sync_loop true o pos (a ∷ args) = sync_loop false (record o { base = a }) pos args
sync_loop false o pos (a ∷ args) = elim (sync_flag a) [
  | dry_flag ↦ sync_loop false (record o { dry_run = true }) pos args
  | delete_flag ↦ sync_loop false (record o { delete = true }) pos args
  | checksum_flag ↦ sync_loop false (record o { checksum = true }) pos args
  | verbose_flag ↦ sync_loop false (record o { verbose = true }) pos args
  | base_next ↦ sync_loop true o pos args
  | base_is base ↦ sync_loop false (record o { base = base }) pos args
  | unknown ↦ died
  | plain ↦ sync_loop false o (pos ++ (a ∷ [])) args
]

-- The loop over the arguments of `find`.
unfoldable pub find_loop : Bool → Bytes → List Bytes → List Bytes → Exit (Bytes × List Bytes)
find_loop false base pos [] = done (base, pos)
find_loop true base pos [] = died
find_loop true base pos (a ∷ args) = find_loop false a pos args
find_loop false base pos (a ∷ args) = elim (base_flag a) [
  | base_next ↦ find_loop true base pos args
  | base_is name ↦ find_loop false name pos args
  | plain ↦ find_loop false base (pos ++ (a ∷ [])) args
  | _ ↦ died
]

-- What is called in the end: `doSync`, `doFind`, `create`, or a command on a path of the volume.
pub data Command : Type 0 where
  sync : SyncOpts → Bytes → Bytes → Command
  find : Bytes → Bytes → Command
  create : Bytes → Command
  on_path : Bytes → Bytes → Bytes → Command

abbrev pub defaults : SyncOpts
defaults = record {
  base = [];
  window = 2;
  delete = false;
  dry_run = false;
  checksum = false;
  verbose = false;
}

abbrev pub two_paths : SyncOpts × List Bytes → Exit Command
two_paths (o, src ∷ dst ∷ []) = done (sync o src dst)
two_paths (o, []) = died
two_paths (o, a ∷ []) = died
two_paths (o, a ∷ b ∷ c ∷ more) = died

abbrev pub one_volume : Bytes × List Bytes → Exit Command
one_volume (base, volume ∷ []) = done (find base volume)
one_volume (base, []) = died
one_volume (base, a ∷ b ∷ more) = died

unfoldable pub is_path_command : Bytes → Bool
is_path_command cmd =
    either cmd (bytes_of "ls") (bytes_of "stat")
    || either cmd (bytes_of "cat") (bytes_of "put")
    || either cmd (bytes_of "mkdir") (bytes_of "rm")

-- `vpath` where there is a third argument.
unfoldable pub path_command : Paths → Bytes → Bytes → List Bytes → Exit Command
path_command paths cmd dir [] = died
path_command paths cmd dir (p ∷ more) =
    done (on_path cmd dir (paths.clean (slash ++ trim_prefix p slash)))

-- `main` behind the first loop.
unfoldable pub command : Paths → List Bytes → Exit Command
command paths [] = usage
command paths (cmd ∷ []) = usage
command paths (cmd ∷ dir ∷ more) =
    if bytes_equal cmd (bytes_of "sync")
    then then_go (sync_loop false defaults [] (dir ∷ more)) two_paths
    else if bytes_equal cmd (bytes_of "find")
    then then_go (find_loop false slash [] (dir ∷ more)) one_volume
    else if bytes_equal cmd (bytes_of "create")
    then done (create dir)
    else if is_path_command cmd
    then path_command paths cmd dir more
    else died

abbrev pub beside : Bytes → Command → Exit (Bytes × Command)
beside passfile c = done (passfile, c)

-- The password file, which is empty where none is named, and the command.
unfoldable pub parse_args : Paths → List Bytes → Exit (Bytes × Command)
parse_args paths args =
    let (passfile, rest) = pull_passfile false [] args in
    then_go (command paths rest) (beside passfile)

-- `strings.TrimRight(s, "\r\n")`
abbrev pub keep_line : ℕ → Bytes → Bytes
keep_line c [] = if c == 10 || c == 13 then [] else c ∷ []
keep_line c (x ∷ xs) = c ∷ x ∷ xs

abbrev pub trim_line_end : Bytes → Bytes
trim_line_end [] = []
trim_line_end (c ∷ cs) = keep_line c (trim_line_end cs)

abbrev pub read_password : Option Bytes → Exit Bytes
read_password none = died
read_password (some text) = done (trim_line_end text)

-- `read` is what `os.ReadFile` finds, and `variable` is the one of the environment.
unfoldable pub get_password : (Bytes → Option Bytes) → Bytes → Bytes → Exit Bytes
get_password read variable passfile =
    if ltb 0 (length passfile)
    then read_password (read passfile)
    else if ltb 0 (length variable)
    then done variable
    else died

pub data Direction : Type 0 where
  encrypt decrypt : Direction

-- `doSync`, from the tests for a volume on.
unfoldable pub direction : Bool → Bool → Exit Direction
direction src_volume dst_volume =
    if dst_volume && not src_volume
    then done encrypt
    else if src_volume && not dst_volume
    then done decrypt
    else died
