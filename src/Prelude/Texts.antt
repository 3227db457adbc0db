-- ===== src/Prelude/Texts.antt =====
-- Text constants as bytes, and what the code uses of Go's `strings`.
use Prim.Native.Char.{code}
use Prim.Native.String.{String}
use Prim.Native.Nat.{ℕ, ◌-◌}
use mathlib.Core.Bool.{Bool, false, ◌||◌}
use mathlib.Core.List.{[], ◌∷◌}
use shiroikuma_gcfs.Prelude.Tests.{◌==◌, ltb, if◌then◌else◌}
use shiroikuma_gcfs.Prelude.Lists.{length, take, drop}
use shiroikuma_gcfs.Prelude.ByteSlices.{Bytes, bytes_equal}

-- The bytes of an ASCII text.
abbrev pub bytes_of : String → Bytes
bytes_of String.[] = []
bytes_of (String.◌∷◌ c s) = code c ∷ bytes_of s

-- strings.Contains(s, one byte)
unfoldable pub contains_byte : ℕ → Bytes → Bool
contains_byte b [] = false
contains_byte b (c ∷ rest) = c == b || contains_byte b rest

-- strings.HasPrefix
unfoldable pub has_prefix : Bytes → Bytes → Bool
unfolding bytes_equal
has_prefix s prefix = bytes_equal (take (length prefix) s) prefix

-- strings.HasSuffix
unfoldable pub has_suffix : Bytes → Bytes → Bool
unfolding bytes_equal
has_suffix s suffix =
    if ltb (length s) (length suffix)
    then false
    else bytes_equal (drop (length s - length suffix) s) suffix
