-- ===== src/FileOps/Attrs/Sizes.antt =====
-- The size that the attributes of a regular file report.
use native.Mathlib.Nat.{div-add-mod', mod-lt}
use shiroikuma_gcfs.Prelude.{
  ℕ, suc, ◌+◌, ◌-◌, ◌*◌, ◌/◌, ◌<◌, ◌≡◌, refl, sym, ap, ◌∙◌, inl, inr, Bool, true, ok, Outcome,
  arith, length, length-append, Bytes, ltb, Bool-cases, ltb→lt,
}
use shiroikuma_gcfs.Prelude.Ranges.{length-block}
use shiroikuma_gcfs.ContentEnc.Offsets.{IsGeometry, u64, cipher_size_to_plain_size}
use shiroikuma_gcfs.ContentEnc.Offsets.Sizes.{cipher_size_to_plain_size_lem}
use shiroikuma_gcfs.ContentEnc.Blocks.{ContentEnc, IsContentEnc}
use shiroikuma_gcfs.ContentEnc.Blocks.Holds.{Holds}
use shiroikuma_gcfs.NameTransform.Names.{NameTransform}
use shiroikuma_gcfs.FileOps.Actions.{OpenFile}
use shiroikuma_gcfs.FileOps.Backed.{Backs, header}
use shiroikuma_gcfs.FileOps.Attrs.{is_regular, translate_size}

module _ (be : ContentEnc) (v : IsContentEnc be) (plain : Bytes)
    (fits : 18 + (length plain - 1) / be.plain_bs * be.cipher_bs + be.cipher_bs < u64) where
  open be use {plain_bs, cipher_bs}

  abbrev last_no : ℕ
  last_no = (length plain - 1) / plain_bs

  geometry : IsGeometry be.geometry
  geometry = omega (arith, v.has_room, v.cipher_size)

  -- A body is as long as its full blocks and its last one.
  length-Holds :
      (id body : Bytes)
      → Holds be id 0 body plain
      → 0 < length plain
      → length body
        ≡ last_no * cipher_bs + (length plain - last_no * plain_bs + (cipher_bs - plain_bs))
  length-Holds id body h some_plain =
      let split = div-add-mod' (length plain - 1) plain_bs in
      let room = mod-lt (length plain - 1) v.has_room in
      let size = h.sized last_no (omega (arith, split, some_plain)) in
      let end = h.ends (suc last_no) (omega (arith, split, room)) in
      omega (
        arith,
        split,
        room,
        some_plain,
        size,
        end,
        v.cipher_size,
        v.has_room,
        length-block cipher_bs last_no body,
        length-block plain_bs last_no plain,
      )

  size_of_body :
      (id body : Bytes)
      → Holds be id 0 body plain
      → 0 < length plain
      → cipher_size_to_plain_size be.geometry (18 + length body) ≡ ok (length plain)
  size_of_body id body h some_plain =
      let split = div-add-mod' (length plain - 1) plain_bs in
      let room = mod-lt (length plain - 1) v.has_room in
      let left : ℕ = length plain - last_no * plain_bs in
      let t : ℕ = left + (cipher_bs - plain_bs) in
      ap (cipher_size_to_plain_size be.geometry) (omega (arith, length-Holds id body h some_plain))
      ∙ cipher_size_to_plain_size_lem be.geometry geometry last_no t
          (omega (arith, split, some_plain)) (omega (arith, split, room, v.cipher_size)) fits
      ∙ ap ok (ground (arith, split, some_plain))

  zero_size : cipher_size_to_plain_size be.geometry 0 ≡ ok 0
  unfolding cipher_size_to_plain_size
  zero_size = refl

  header_size : cipher_size_to_plain_size be.geometry (18 + 0) ≡ ok 0
  unfolding cipher_size_to_plain_size
  header_size = refl

  size_lem :
      (s : OpenFile)
      → Backs be s plain
      → cipher_size_to_plain_size be.geometry (length s.disk) ≡ ok (length plain)
  size_lem s (inl b) =
      ap (cipher_size_to_plain_size be.geometry) (ap length b.no_disk)
      ∙ zero_size
      ∙ ap ok (sym (ap length b.no_plain))
  size_lem s (inr (id, body, b)) =
      let on_disk : length s.disk ≡ 18 + length body =
        ap length b.on_disk ∙ omega (arith, b.id_sized, length-append (header id) body) in
      ap (cipher_size_to_plain_size be.geometry) on_disk
      ∙ elim (Bool-cases (ltb 0 (length plain))) [
        | inl some_plain ↦ size_of_body id body b.holds (ltb→lt 0 (length plain) some_plain)
        | inr no_plain ↦
            let empty : length plain ≡ 0 = ground (arith, no_plain) in
            let no_body : length body ≡ 0 =
              let end = b.holds.ends 0 (omega (arith, empty)) in omega (arith, end) in
            ap (λ n. cipher_size_to_plain_size be.geometry (18 + n)) no_body
            ∙ header_size
            ∙ ap ok (sym empty)
      ]

  -- For a valid ContentEnc, a regular file on disk that stands for a plaintext whose last block
  -- ends below 2^64 on disk: translateSize of the size on disk is the length of the plaintext, for
  -- an empty file and a header alone too.
  pub translate_size-Backs :
      (s : OpenFile) (name_transform : NameTransform) (plain_text_names : Bool)
      (c_target : Outcome Bytes) (mode : ℕ)
      → Backs be s plain
      → is_regular mode ≡ true
      → translate_size be name_transform plain_text_names c_target mode (length s.disk)
        ≡ ok (length plain)
  unfolding translate_size
  translate_size-Backs s name_transform plain_text_names c_target mode b regular =
      rw regular (size_lem s b)
