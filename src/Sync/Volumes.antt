-- ===== src/Sync/Volumes.antt =====
-- The calls of the engine that the mirror makes on a volume, and `mkdirAll` of cli.go.
use shiroikuma_gcfs.Prelude.{
  ℕ, Bool, Option, none, some, List, [], ◌∷◌, ◌++◌, Outcome, ok, err, eio, ◌==◌, if◌then◌else◌,
  length, Bytes, bytes_equal, has_prefix, drop,
}
use shiroikuma_gcfs.Sync.{Paths, slash}

-- What `gcf_get_attrs` returns.
pub record Attrs : Type 0 where
  pub mode : ℕ
  pub size : ℕ
  pub mtime : ℕ

pub record DirEntry : Type 0 where
  pub name : Bytes
  pub mode : ℕ

-- `gcf_get_attrs`, `gcf_mkdir`, `encryptFile` behind its `mkdirAll`, `gcf_set_mtime`, `listDir`,
-- `gcf_remove_file`, `gcf_rmdir` and `sha256Vol`. The results of the three that nobody looks at are left
-- out.
pub record Volume : Type 1 where
  pub State : Type 0
  pub get_attrs : State → Bytes → Option Attrs
  pub mkdir : State → Bytes → Bool × State
  pub put : State → Bytes → Bytes → Outcome State
  pub set_mtime : State → Bytes → ℕ → State
  pub list_dir : State → Bytes → Option (List DirEntry)
  pub remove_file : State → Bytes → State
  pub rmdir : State → Bytes → State
  pub sha256 : State → Bytes → Bytes

-- `strings.Split`
abbrev onto_first : ℕ → List Bytes → List Bytes
onto_first c [] = (c ∷ []) ∷ []
onto_first c (part ∷ parts) = (c ∷ part) ∷ parts

abbrev pub split : ℕ → Bytes → List Bytes
split sep [] = [] ∷ []
split sep (c ∷ cs) = let more = split sep cs in if c == sep then [] ∷ more else onto_first c more

-- `strings.TrimPrefix`
abbrev pub trim_prefix : Bytes → Bytes → Bytes
trim_prefix p prefix = if has_prefix p prefix then drop (length prefix) p else p

module _ (V : Volume) where
  -- The loop of `mkdirAll`.
  unfoldable pub mkdir_parts : V.State → Bytes → List Bytes → Outcome V.State
  mkdir_parts s cur [] = ok s
  mkdir_parts s cur (part ∷ parts) =
      let next = cur ++ (slash ++ part) in
      elim (V.get_attrs s next) [
        | some a ↦ mkdir_parts s next parts
        | none ↦
            let made = V.mkdir s next in
            let more = mkdir_parts made.1 next parts in if made.0 then more else err eio
      ]

  unfoldable pub mkdir_all : Paths → V.State → Bytes → Outcome V.State
  mkdir_all paths s p =
      let cleaned = paths.clean (slash ++ p) in
      if bytes_equal cleaned slash
      then ok s
      else mkdir_parts s [] (split 47 (trim_prefix cleaned slash))
