-- ===== src/Sync.antt =====
-- sync.go: what both directions of the mirror share. A time in seconds is an int64 in two's complement.
pub mod Window
pub mod Volumes
pub mod Encrypt
pub mod Decrypt
pub mod Memory
mod Examples
use shiroikuma_gcfs.Prelude.{
  ℕ, ◌+◌, ◌-◌, ◌*◌, ◌%◌, ◌/◌, ◌^◌, Bool, true, false, List, [], ◌∷◌, ◌++◌, ltb, leb, ◌==◌,
  if◌then◌else◌, Bytes, bytes_equal, bytes_of,
}

-- `syncOpts`
pub record SyncOpts : Type 0 where
  pub base : Bytes
  pub window : ℕ
  pub delete : Bool
  pub dry_run : Bool
  pub checksum : Bool
  pub verbose : Bool

abbrev pub slash : Bytes
slash = bytes_of "/"

unfoldable pub vjoin : Bytes → Bytes → Bytes
vjoin dir name = if bytes_equal dir slash then slash ++ name else dir ++ (slash ++ name)

unfoldable pub dry_tag : SyncOpts → Bytes
dry_tag o = if o.dry_run then bytes_of " (dry-run)" else []

unfoldable pub base_tag : Bytes → Bytes
base_tag base = if bytes_equal base slash then [] else bytes_of ":" ++ base

-- `mode & S_IFMT == S_IFDIR`, of the four bits above the lowest twelve.
unfoldable pub is_dir_mode : ℕ → Bool
is_dir_mode mode = (mode / 2 ^ 12) % 16 == 4

-- The order of int64 on two's complement.
abbrev pub leb_int64 : ℕ → ℕ → Bool
leb_int64 x y = leb ((x + 2 ^ 63) % 2 ^ 64) ((y + 2 ^ 63) % 2 ^ 64)

abbrev pub negative : ℕ → Bool
negative x = leb (2 ^ 63) x

unfoldable pub within_window : ℕ → ℕ → ℕ → Bool
within_window a b w =
    let d = (a + 2 ^ 64 - b) % 2 ^ 64 in
    leb_int64 (if negative d then (2 ^ 64 - d) % 2 ^ 64 else d) w

-- `strings.Trim(p, "/")`
abbrev pub trim_left : Bytes → Bytes
trim_left [] = []
trim_left (c ∷ cs) = let more = trim_left cs in if c == 47 then more else c ∷ cs

abbrev pub keep_right : ℕ → Bytes → Bytes
keep_right c [] = if c == 47 then [] else c ∷ []
keep_right c (x ∷ xs) = c ∷ x ∷ xs

abbrev pub trim_right : Bytes → Bytes
trim_right [] = []
trim_right (c ∷ cs) = keep_right c (trim_right cs)

-- The standard library's `path.Clean` and `path.Dir`.
pub record Paths : Type 0 where
  pub clean : Bytes → Bytes
  pub dir : Bytes → Bytes

unfoldable pub clean_vol : Paths → Bytes → Bytes
clean_vol paths p = paths.clean (slash ++ trim_right (trim_left p))
