-- ===== src/FileOps/Backed.antt =====
-- What a backing file stands for: the header and the encrypted blocks of a plaintext.
use shiroikuma_gcfs.Prelude.{
  ℕ, ◌≤◌, ◌<◌, ◌≡◌, ◌≢◌, refl, ◌⊎◌, inl, false, none, some, [], ◌∷◌, ◌++◌, ok, arith, length, Bytes,
  bytes_equal, bytes_equal_iff, big_endian, from_big_endian,
}
use shiroikuma_gcfs.CryptoCore.{IsAead}
use shiroikuma_gcfs.ContentEnc.Offsets.{IsGeometry}
use shiroikuma_gcfs.ContentEnc.Header.{parse_header, pack, all_zero_file_id, random_header}
use shiroikuma_gcfs.ContentEnc.Blocks.{ContentEnc, IsContentEnc, new}
use shiroikuma_gcfs.ContentEnc.Blocks.RoundTrip.{IsNonce}
use shiroikuma_gcfs.ContentEnc.Blocks.Holds.{Holds}
use shiroikuma_gcfs.ContentEnc.Blocks.Setup.{new-IsContentEnc}
use shiroikuma_gcfs.FileOps.Actions.{Env, OpenFile}
use shiroikuma_gcfs.FileOps.{file_id_for_read, file_id_for_write}

-- A content encryption that `New` made, a sound cipher, and random bytes of the right length.
pub record IsEnv (env : Env) : Type 0 where
  pub made : new env.content_enc.crypto_core env.content_enc.plain_bs ≡ ok env.content_enc
  pub some_nonce : 0 < env.content_enc.crypto_core.iv_len
  pub small : env.content_enc.crypto_core.iv_len ≤ 64
  pub aead : IsAead env.content_enc.crypto_core.aead_cipher
  pub fresh : (j : ℕ) → IsNonce env.content_enc (env.nonces j)
  pub id_sized : (j : ℕ) → length (env.ids j) ≡ 16
  pub id_random : (j : ℕ) → env.ids j ≢ all_zero_file_id

-- No call of the system fails.
abbrev pub IsCalm : Env → Type 0
IsCalm env = (t : ℕ) → env.faults t ≡ none

-- The packed header.
abbrev pub header : Bytes → Bytes
header id = 0 ∷ 2 ∷ id

-- A file with the file ID `id` that holds `plain`. A header alone counts where the ID is cached.
pub record Backed (be : ContentEnc) (id body : Bytes) (s : OpenFile) (plain : Bytes) : Type 0 where
  pub on_disk : s.disk ≡ header id ++ body
  pub found : (s.id ≡ some id) ⊎ ((s.id ≡ none) × (0 < length plain))
  pub id_sized : length id ≡ 16
  pub id_random : id ≢ all_zero_file_id
  pub holds : Holds be id 0 body plain

-- An open file whose file ID is cached.
abbrev pub opened : Bytes → Bytes → ℕ → OpenFile
opened id disk t = record { id = some id; disk = disk; tick = t }

pub Backed-opened :
    (be : ContentEnc) (id body : Bytes) (s : OpenFile) (plain : Bytes) (t : ℕ)
    → Backed be id body s plain
    → Backed be id body (opened id s.disk t) plain
Backed-opened be id body s plain t b = record {
  on_disk = b.on_disk;
  found = inl refl;
  id_sized = b.id_sized;
  id_random = b.id_random;
  holds = b.holds;
}

pub file_id_for_read-opened :
    (env : Env) (id disk : Bytes) (t : ℕ)
    → file_id_for_read env (opened id disk t) ≡ (ok id, opened id disk t)
unfolding file_id_for_read
file_id_for_read-opened env id disk t = refl

pub file_id_for_write-opened :
    (env : Env) (id disk : Bytes) (t : ℕ)
    → file_id_for_write env (opened id disk t) ≡ (ok (id, false), opened id disk t)
unfolding file_id_for_write
file_id_for_write-opened env id disk t = refl

-- An empty file.
pub record Blank (s : OpenFile) (plain : Bytes) : Type 0 where
  pub no_disk : s.disk ≡ []
  pub no_id : s.id ≡ none
  pub no_plain : plain ≡ []

-- The open file `s` stands for the plaintext `plain`.
abbrev pub Backs : ContentEnc → OpenFile → Bytes → Type 0
Backs be s plain = Blank s plain ⊎ ((id : Bytes) × (body : Bytes) × Backed be id body s plain)

pub IsEnv-IsContentEnc : (env : Env) → IsEnv env → IsContentEnc env.content_enc
IsEnv-IsContentEnc env g =
    new-IsContentEnc env.content_enc.crypto_core env.content_enc.plain_bs g.made g.some_nonce
      g.small

pub IsEnv-IsGeometry : (env : Env) → IsEnv env → IsGeometry env.content_enc.geometry
IsEnv-IsGeometry env g =
    let v = IsEnv-IsContentEnc env g in omega (arith, v.has_room, v.cipher_size)

pub parse_header-header :
    (id : Bytes)
    → length id ≡ 16
    → id ≢ all_zero_file_id
    → parse_header (header id) ≡ ok (record { version = 2; id = id })
unfolding parse_header bytes_equal from_big_endian
parse_header-header id sized random = ground (arith, bytes_equal_iff id all_zero_file_id)

pub pack-random_header : (id : Bytes) → length id ≡ 16 → pack (random_header id) ≡ ok (header id)
unfolding pack random_header
pack-random_header id sized =
    let written : big_endian 2 2 ≡ 0 ∷ 2 ∷ [] = unfold big_endian in refl in
    rw written (ground arith)
