-- ===== src/FileOps/FileIds.antt =====
-- The calls of the system that do not fail, and the file ID that an operation finds.
use shiroikuma_gcfs.Prelude.{
  ℕ, ◌+◌, ◌<◌, ◌≡◌, ◌≢◌, refl, sym, ap, ◌∙◌, inl, inr, true, false, none, some, [], ◌++◌, ok, err,
  arith, length, take, drop, length-append, length-take, drop-drop, drop-append_length,
  take-append_length, take-take, Bytes, eof, ltb,
}
use shiroikuma_gcfs.Prelude.Ranges.{write_bytes, length-block}
use shiroikuma_gcfs.Prelude.Overwrites.{write_bytes-empty}
use shiroikuma_gcfs.ContentEnc.Header.{header_len, all_zero_file_id, random_header}
use shiroikuma_gcfs.ContentEnc.Blocks.{ContentEnc, IsContentEnc, new}
use shiroikuma_gcfs.FileOps.Actions.{
  Env, OpenFile, tock, read_at, write_at, enospc_prealloc, prealloc_loop,
}
use shiroikuma_gcfs.FileOps.{
  read_file_id, create_header, file_id_for_read, file_id_for_write, or_header,
}
use shiroikuma_gcfs.FileOps.Backed.{
  IsEnv, IsCalm, header, Backed, Blank, parse_header-header, pack-random_header,
}

-- What the calls of the system do when they do not fail.
module _ (env : Env) (calm : IsCalm env) where
  pub read_at-IsCalm :
      (size offset : ℕ) (s : OpenFile)
      → read_at env size offset s ≡ (ok (take size (drop offset s.disk)), tock s 1)
  unfolding read_at
  read_at-IsCalm size offset s = rw (calm s.tick, read_at) refl

  pub write_at-IsCalm :
      (new : Bytes) (offset : ℕ) (s : OpenFile)
      → write_at env new offset s
        ≡ (ok tt, record (tock s 1) { disk = write_bytes s.disk offset new })
  unfolding write_at
  write_at-IsCalm new offset s = rw (calm s.tick, write_at) refl

  pub enospc_prealloc-IsCalm : (s : OpenFile) → enospc_prealloc env s ≡ (ok tt, tock s 1)
  unfolding enospc_prealloc prealloc_loop
  enospc_prealloc-IsCalm s = rw (calm s.tick, prealloc_loop) refl

module _ (be : ContentEnc) (v : IsContentEnc be) (id body : Bytes) (s : OpenFile) (plain : Bytes)
    (b : Backed be id body s plain) where
  some_body : 0 < length plain → 0 < length body
  some_body some_plain =
      let size = b.holds.sized 0 (omega (arith, some_plain)) in
      omega (arith, size, length-block be.cipher_bs 0 body, v.has_nonce)

  -- What follows the header on disk.
  pub drop-header : (k : ℕ) → drop (18 + k) s.disk ≡ drop k body
  drop-header k =
      let sized : length (header id) ≡ 18 = omega (arith, b.id_sized) in
      rw b.on_disk (
        sym (drop-drop 18 k (header id ++ body))
        ∙ ap (drop k) (
            ap (λ n. drop n (header id ++ body)) (sym sized) ∙ drop-append_length (header id) body))

  module _ (env : Env) (calm : IsCalm env) where
    pub read_file_id-Backed : 0 < length plain → read_file_id env s ≡ (ok id, tock s 1)
    unfolding read_file_id
    read_file_id-Backed some_plain =
        rw
          (
            read_at-IsCalm env calm (header_len + 1) 0 s,
            long,
            front,
            parse_header-header id b.id_sized b.id_random,
          )
          refl
      where
        sized : length (header id) ≡ 18
        sized = omega (arith, b.id_sized)

        long : ltb (length (take (header_len + 1) (drop 0 s.disk))) (header_len + 1) ≡ false
        long = rw b.on_disk (
            ground (
              arith,
              length-take 19 (header id ++ body),
              length-append (header id) body,
              some_body some_plain,
              sized,
            ))

        front : take header_len (take (header_len + 1) (drop 0 s.disk)) ≡ header id
        front = rw b.on_disk (
            take-take 18 19 (header id ++ body) (omega arith)
            ∙ ap (λ n. take n (header id ++ body)) (sym sized)
            ∙ take-append_length (header id) body)

    -- The file ID of a file that holds something is found and cached.
    pub file_id_for_read-Backed :
        (t : ℕ) × (file_id_for_read env s
          ≡ (ok id, record { id = some id; disk = s.disk; tick = t }))
    unfolding file_id_for_read
    file_id_for_read-Backed = elim b.found [
      | inl known ↦ (
        s.tick,
        simp (file_id_for_read, known)
            (ap (λ i. (ok id, record { id = i; disk = s.disk; tick = s.tick })) known),
      )
      | inr (unknown, some_plain) ↦
          (s.tick + 1, simp (file_id_for_read, unknown, read_file_id-Backed some_plain) refl)
    ]

    -- Also for writing.
    pub file_id_for_write-Backed :
        (t : ℕ) × (file_id_for_write env s
          ≡ (ok (id, false), record { id = some id; disk = s.disk; tick = t }))
    unfolding file_id_for_write or_header
    file_id_for_write-Backed = elim b.found [
      | inl known ↦ (
        s.tick,
        simp (file_id_for_write, known)
            (ap (λ i. (ok (id, false), record { id = i; disk = s.disk; tick = s.tick })) known),
      )
      | inr (unknown, some_plain) ↦
          (s.tick + 1, simp (file_id_for_write, unknown, read_file_id-Backed some_plain) refl)
    ]

create_header_lem :
    (env : Env)
    → IsEnv env
    → IsCalm env
    → (s : OpenFile) → s.disk ≡ []
    → create_header env s ≡ (
      ok (env.ids s.tick),
      record { id = s.id; disk = header (env.ids s.tick); tick = s.tick + 1 + 1 + 1 },
    )
unfolding create_header random_header
create_header_lem env g calm s empty =
    let id = env.ids s.tick in
    let sized : 0 < length (header id) = omega (arith, g.id_sized s.tick) in
    rw
      (
        pack-random_header id (g.id_sized s.tick),
        enospc_prealloc-IsCalm env calm (tock s 1),
        write_at-IsCalm env calm (header id) 0 (tock (tock s 1) 1),
        empty,
        write_bytes-empty (header id) sized,
      )
      refl

file_id_for_write-new :
    (env : Env) (s : OpenFile) {id : Bytes} {t u : OpenFile}
    → s.id ≡ none
    → read_file_id env s ≡ (err eof, t)
    → create_header env t ≡ (ok id, u)
    → file_id_for_write env s ≡ (ok (id, true), record u { id = some id })
unfolding file_id_for_write or_header
file_id_for_write-new env s unknown nothing made =
    simp (file_id_for_write, unknown, nothing, made) refl

module _ (env : Env) (g : IsEnv env) (calm : IsCalm env) (s : OpenFile) (plain : Bytes)
    (b : Blank s plain) where
  pub read_file_id-Blank : read_file_id env s ≡ (err eof, tock s 1)
  unfolding read_file_id
  read_file_id-Blank = rw (read_at-IsCalm env calm (header_len + 1) 0 s, b.no_disk) refl

  -- An empty file has no file ID to read with.
  pub file_id_for_read-Blank : file_id_for_read env s ≡ (err eof, tock s 1)
  unfolding file_id_for_read
  file_id_for_read-Blank = simp (file_id_for_read, b.no_id, read_file_id-Blank) refl

  -- It gets one when it is written.
  pub file_id_for_write-Blank :
      (id : Bytes) × (t : ℕ) × (length id ≡ 16)
      × (id ≢ all_zero_file_id)
      × (file_id_for_write env s
          ≡ (ok (id, true), record { id = some id; disk = header id; tick = t }))
  file_id_for_write-Blank = (
    env.ids (s.tick + 1),
    s.tick + 1 + 1 + 1 + 1,
    g.id_sized (s.tick + 1),
    g.id_random (s.tick + 1),
    file_id_for_write-new env s b.no_id read_file_id-Blank
        (create_header_lem env g calm (tock s 1) b.no_disk),
  )
