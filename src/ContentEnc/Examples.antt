-- ===== src/ContentEnc/Examples.antt =====
-- Runs of the content encryption on small inputs, and concrete instances of its theorems.
use shiroikuma_gcfs.Prelude.{
  ℕ, ◌-◌, ◌*◌, ◌<◌, ◌≤◌, ◌≡◌, refl, Option, none, some, List, [], ◌∷◌, ◌++◌, ok, err, ◌>>=◌, arith,
  ltb, leb, ◌&&◌, if◌then◌else◌, big_endian, authentication, length, get_or, replicate, Bytes,
  bytes_equal,
}
use shiroikuma_gcfs.Samples.{
  plain_core, small_enc, small_enc_made, small_enc_lem, some_nonce, some_nonce_lem, plain_aead_lem,
  open_checked, tag,
}
use shiroikuma_gcfs.ContentEnc.Offsets.{
  Geometry, IsGeometry, plain_size_to_cipher_size, cipher_size_to_plain_size,
}
use shiroikuma_gcfs.ContentEnc.Offsets.Sizes.{cipher_size_to_plain_size-plain_size_to_cipher_size}
use shiroikuma_gcfs.ContentEnc.IntraBlocks.{
  IntraBlock, explode_plain_range, joint_ciphertext_range, crop_block,
}
use shiroikuma_gcfs.ContentEnc.IntraBlocks.Tiling.{Tiles, explode_plain_range-Tiles}
use shiroikuma_gcfs.ContentEnc.Blocks.{
  IsContentEnc, concat_ad, decrypt_block, do_encrypt_block, decrypt_blocks, do_encrypt_blocks,
  encrypt_blocks_parallel, encrypt_blocks, merge_blocks,
}
use shiroikuma_gcfs.ContentEnc.Blocks.Merge.{merge_blocks_lem}
use shiroikuma_gcfs.ContentEnc.Blocks.Setup.{new-IsContentEnc, joint_ciphertext_range-le-c_req_size}
use shiroikuma_gcfs.ContentEnc.Blocks.Associated.{concat_ad_injective}
use shiroikuma_gcfs.ContentEnc.Blocks.Parallel.{
  encrypt_blocks_parallel-eq-do_encrypt_blocks, decrypt_blocks-encrypt_blocks,
}

-- The geometry of every volume that the program makes: blocks of 4096 bytes, a nonce and a tag of 16.
abbrev default_geometry : Geometry
default_geometry = record { plain_bs = 4096; cipher_bs = 4128 }

default_geometry_lem : IsGeometry default_geometry
default_geometry_lem = omega arith

sizes_example :
    cipher_size_to_plain_size default_geometry (plain_size_to_cipher_size default_geometry 10000)
    ≡ ok 10000
sizes_example =
    cipher_size_to_plain_size-plain_size_to_cipher_size default_geometry default_geometry_lem 10000
      (omega arith)

explode_plain_range_example :
    (blocks : List IntraBlock) × (explode_plain_range default_geometry 4000 10000 ≡ ok blocks)
    × Tiles 0 4096 4000 10000 blocks
explode_plain_range_example =
    explode_plain_range-Tiles default_geometry default_geometry_lem (omega arith) 4000 10000
      (omega arith)

explode_plain_range_run :
    explode_plain_range default_geometry 4000 5000
    ≡ ok (
        record { block_no = 0; skip = 4000; length = 96 }
        ∷ record { block_no = 1; skip = 0; length = 4096 }
        ∷ record { block_no = 2; skip = 0; length = 808 }
        ∷ [])
unfolding explode_plain_range
explode_plain_range_run = refl

crop_block_run :
    crop_block {A = ℕ} (record { block_no = 0; skip = 1; length = 2 }) (5 ∷ 6 ∷ 7 ∷ 8 ∷ [])
    ≡ ok (6 ∷ 7 ∷ [])
unfolding crop_block
crop_block_run = refl

-- A header.
abbrev some_id : Bytes
some_id = replicate 16 9

abbrev some_header_bytes : Bytes
some_header_bytes = 0 ∷ 2 ∷ some_id

abbrev seventh : ℕ
seventh = 7

seventh_named : concat_ad seventh (some some_id) ≡ ok (big_endian 8 seventh ++ some_id)
unfolding concat_ad
seventh_named = refl

concat_ad_injective_example :
    (seventh ≡ seventh) × (◌≡◌ {A = Option Bytes} (some some_id) (some some_id))
concat_ad_injective_example =
    concat_ad_injective seventh seventh (some some_id) (some some_id) (omega arith) (omega arith)
      seventh_named seventh_named

new-IsContentEnc_example : IsContentEnc small_enc
new-IsContentEnc_example = new-IsContentEnc plain_core 4 small_enc_made (omega arith) (omega arith)

three_blocks :
    (explode_plain_range small_enc.geometry 3 8 >>= joint_ciphertext_range small_enc.geometry)
    ≡ ok (18, 3 * 36)
unfolding explode_plain_range joint_ciphertext_range
three_blocks = refl

joint_ciphertext_range-le-c_req_size_example : 3 * 36 ≤ small_enc.c_req_size
joint_ciphertext_range-le-c_req_size_example =
    joint_ciphertext_range-le-c_req_size plain_core 4 small_enc_made (omega arith) (omega arith) 3 8
      (omega arith) (omega arith) (omega arith) (omega arith) three_blocks

-- The tag of block 5 does not pass for block 6.
decrypt_block_run :
    (do_encrypt_block small_enc (1 ∷ 2 ∷ []) 5 (some some_id) some_nonce >>= λ c.
    decrypt_block small_enc c 6 (some some_id))
    ≡ err authentication
unfolding do_encrypt_block decrypt_block open_checked tag bytes_equal big_endian
decrypt_block_run = refl

merge_blocks_example :
    (out : Bytes) × (merge_blocks small_enc (1 ∷ []) (7 ∷ []) 3 ≡ ok out)
    × (length out ≡ 4)
    × ((i : ℕ)
        → i < 4
        → get_or out i 0
          ≡ (if leb 3 i && ltb i 4 then get_or (7 ∷ []) (i - 3) 0 else get_or (1 ∷ []) i 0))
merge_blocks_example = merge_blocks_lem small_enc (1 ∷ []) (7 ∷ []) 3 (omega arith)

merge_blocks_run : merge_blocks small_enc (1 ∷ []) (7 ∷ []) 3 ≡ ok (1 ∷ 0 ∷ 0 ∷ 7 ∷ [])
unfolding merge_blocks
merge_blocks_run = refl

encrypt_blocks_parallel_example :
    encrypt_blocks_parallel small_enc 8
      (λ i. some_nonce)
      ((1 ∷ []) ∷ (2 ∷ []) ∷ (3 ∷ []) ∷ [])
      5
      none
    ≡ do_encrypt_blocks small_enc (λ i. some_nonce) ((1 ∷ []) ∷ (2 ∷ []) ∷ (3 ∷ []) ∷ []) 5 none
encrypt_blocks_parallel_example =
    encrypt_blocks_parallel-eq-do_encrypt_blocks small_enc none 8 (λ i. some_nonce)
      ((1 ∷ []) ∷ (2 ∷ []) ∷ (3 ∷ []) ∷ []) 5 (omega arith)

abbrev two_blocks : List Bytes
two_blocks = (1 ∷ 2 ∷ 3 ∷ 4 ∷ []) ∷ (5 ∷ []) ∷ []

decrypt_blocks-encrypt_blocks_example :
    (encrypt_blocks small_enc 4 (λ i. some_nonce) two_blocks 0 (some some_id) >>= λ c.
    decrypt_blocks small_enc c 0 (some some_id))
    ≡ ok (1 ∷ 2 ∷ 3 ∷ 4 ∷ 5 ∷ [], none)
decrypt_blocks-encrypt_blocks_example =
    decrypt_blocks-encrypt_blocks small_enc small_enc_lem (plain_aead_lem 16) (some some_id)
      (λ i. some_nonce) 4 0 two_blocks refl (λ i. some_nonce_lem) (refl, (omega arith, omega arith))
      (omega arith)
