-- ===== src/FileOps/Crops.antt =====
-- What `doRead` makes of the blocks that it decrypted.
use shiroikuma_gcfs.Prelude.{
  ℕ, ◌+◌, ◌-◌, ◌≤◌, ◌<◌, ◌≡◌, refl, sym, ap, ◌∙◌, inl, inr, none, some, [], ok, arith, length, take,
  drop, length-drop, drop-take, take-take, take_all, drop_all, Bytes, Bool-cases, ltb, ◌==◌,
}
use shiroikuma_gcfs.ContentEnc.Offsets.{u64, add64}
use shiroikuma_gcfs.ContentEnc.Blocks.{ContentEnc, decrypt_blocks}
use shiroikuma_gcfs.ContentEnc.Blocks.Holds.{decrypt_blocks-empty}
use shiroikuma_gcfs.FileOps.{crop, cropped, decrypt_read}

-- Cropping a piece that begins `skip` bytes before the range.
pub crop_lem :
    (skip want : ℕ) (xs : Bytes) → skip + want < u64 → crop skip want xs ≡ take want (drop skip xs)
unfolding crop
crop_lem skip want xs word =
    let sum : add64 skip want ≡ skip + want = omega (arith, word) in
    elim (Bool-cases (ltb (skip + want) (length xs))) [
      | inl long ↦ rw (sum, long) (drop-take skip want (skip + want) xs refl)
      | inr short ↦ elim (Bool-cases (ltb skip (length xs))) [
        | inl some_left ↦
            rw (sum, short, some_left, take_all (length xs) xs (omega arith))
              (sym (
                take_all want (drop skip xs) (
                  let s : length xs ≤ skip + want = ground (arith, short) in
                  omega (arith, s, length-drop skip xs))))
        | inr none_left ↦
            rw (sum, short, none_left)
              (sym (
                ap (take want) (drop_all skip xs (ground (arith, none_left)))
                ∙ take_all want [] (omega arith)))
      ]
    ]

-- The range of a longer piece.
pub range_of_piece :
    (n skip want : ℕ) (ys : Bytes)
    → skip + want ≤ n
    → take want (drop skip (take n ys)) ≡ take want (drop skip ys)
range_of_piece n skip want ys h =
    ap (take want) (drop-take skip (n - skip) n ys (omega arith))
    ∙ take-take want (n - skip) (drop skip ys) (omega arith)

crop_empty : (skip want : ℕ) → skip + want < u64 → crop skip want [] ≡ []
crop_empty skip want word =
    crop_lem skip want [] word
    ∙ ap (take want) (drop_all skip [] (omega arith))
    ∙ take_all want [] (omega arith)

-- What follows the read of the disk, where the blocks that it got decrypt to `p`.
pub decrypt_read_lem :
    (be : ContentEnc) (id c : Bytes) (n skip want : ℕ) (p : Bytes)
    → skip + want < u64
    → decrypt_blocks be c n (some id) ≡ ok (p, none)
    → decrypt_read be id c n skip want ≡ ok (crop skip want p)
unfolding decrypt_read cropped
decrypt_read_lem be id c n skip want p word e = elim (Bool-cases (length c == 0)) [
  | inl nothing ↦
      let none_left : length c ≡ 0 = ground (arith, nothing) in
      let empty : p ≡ [] =
        let both = sym e ∙ decrypt_blocks-empty be n (some id) c none_left in cc in
      rw (nothing, empty, crop_empty skip want word) refl
  | inr something ↦ rw (something, e) refl
]
