-- ===== src/Transfer/Faults.antt =====
-- Reads where calls of the system may fail.
use shiroikuma_gcfs.Prelude.{
  ℕ, ◌+◌, ◌≡◌, refl, ◌⊎◌, inl, inr, Option, none, some, Option-cases, Outcome, ok, err, panic,
  stuck, Error, eio, Bytes, Bool, true, false, if◌then◌else◌, ltb,
}
use shiroikuma_gcfs.ContentEnc.IntraBlocks.{explode_plain_range, joint_ciphertext_range}
use shiroikuma_gcfs.FileOps.Actions.{Env, OpenFile, Action, ◌>>=◌, next, pure, set_id, read_at}
use shiroikuma_gcfs.FileOps.{max_int64, first_of, read_file_id, file_id_for_read, do_read}
use shiroikuma_gcfs.FileOps.Backed.{IsEnv}

-- The same system where no call fails.
abbrev pub calmed : Env → Env
calmed env = record env { faults = λ t. none }

pub calmed-IsEnv : (env : Env) → IsEnv env → IsEnv (calmed env)
calmed-IsEnv env g = record {
  made = g.made;
  some_nonce = g.some_nonce;
  small = g.small;
  aead = g.aead;
  fresh = g.fresh;
  id_sized = g.id_sized;
  id_random = g.id_random;
}

-- Some call of the system fails.
abbrev pub Faulty : Env → Type 0
Faulty env = (t : ℕ) × (k : ℕ) × (env.faults t ≡ some k)

-- A result is that of the system where no call fails, or an error from a call that fails.
abbrev pub SameOrFault : {A : Type 0} → Env → Outcome A × OpenFile → Outcome A × OpenFile → Type 0
SameOrFault env x y = (x ≡ y) ⊎ ((e : Error) × (t : OpenFile) × (x ≡ (err e, t)) × Faulty env)

module _ (env : Env) where
  next-SameOrFault :
      {A B : Type 0} (r : Outcome A × OpenFile) (f g : A → Action B)
      → ((a : A) (s : OpenFile) → SameOrFault env (f a s) (g a s))
      → SameOrFault env (next r f) (next r g)
  next-SameOrFault (ok a, s) f g same = same a s
  next-SameOrFault (err e, s) f g same = inl refl
  next-SameOrFault (panic, s) f g same = inl refl
  next-SameOrFault (stuck, s) f g same = inl refl

  -- A step whose own result may be a fault.
  bind-SameOrFault :
      {A B : Type 0} (x y : Outcome A × OpenFile) (f g : A → Action B)
      → SameOrFault env x y
      → ((a : A) (s : OpenFile) → SameOrFault env (f a s) (g a s))
      → SameOrFault env (next x f) (next y g)
  bind-SameOrFault x y f g (inl e) same = rw e (next-SameOrFault y f g same)
  bind-SameOrFault x y f g (inr (e, t, failed, fault)) same = inr (e, t, rw failed refl, fault)

  read_at-SameOrFault :
      (size offset : ℕ) (s : OpenFile)
      → SameOrFault env (read_at env size offset s) (read_at (calmed env) size offset s)
  unfolding read_at
  read_at-SameOrFault size offset s = elim (Option-cases (env.faults s.tick)) [
    | inl calm ↦ inl (rw (read_at, calm) refl)
    | inr (k, fault) ↦
        inr (eio, record s { tick = s.tick + 1 }, rw (read_at, fault) refl, (s.tick, k, fault))
  ]

  read_file_id-SameOrFault :
      (s : OpenFile) → SameOrFault env (read_file_id env s) (read_file_id (calmed env) s)
  unfolding read_file_id
  read_file_id-SameOrFault s =
      bind-SameOrFault (read_at env 19 0 s) (read_at (calmed env) 19 0 s) _ _
        (read_at-SameOrFault 19 0 s) (λ buf t. inl refl)

  file_id_for_read-SameOrFault :
      (s : OpenFile) → SameOrFault env (file_id_for_read env s) (file_id_for_read (calmed env) s)
  unfolding file_id_for_read
  file_id_for_read-SameOrFault s = of_id s.id
    where
      of_id :
          (o : Option Bytes)
          → SameOrFault {A = Bytes} env
              (elim o [
                | some file_id ↦ pure file_id s
                | none ↦ (do file_id ← read_file_id env; cached ← set_id file_id; pure file_id) s
              ])
              (elim o [
                | some file_id ↦ pure file_id s
                | none ↦
                    (do file_id ← read_file_id (calmed env); cached ← set_id file_id; pure file_id)
                      s
              ])
      of_id (some id) = inl refl
      of_id none =
          bind-SameOrFault (read_file_id env s) (read_file_id (calmed env) s) _ _
            (read_file_id-SameOrFault s) (λ id t. inl refl)

  -- The same refusal, or a step in both.
  if-SameOrFault :
      {B : Type 0} (b : Bool) (refused f g : Action B) (s : OpenFile)
      → SameOrFault env (f s) (g s)
      → SameOrFault env ((if b then refused else f) s) ((if b then refused else g) s)
  if-SameOrFault true refused f g s same = inl refl
  if-SameOrFault false refused f g s same = same

  pub do_read-SameOrFault :
      (off want : ℕ) (s : OpenFile)
      → SameOrFault env (do_read env off want s) (do_read (calmed env) off want s)
  unfolding do_read
  do_read-SameOrFault off want s =
      bind-SameOrFault (file_id_for_read env s) (file_id_for_read (calmed env) s) _ _
        (file_id_for_read-SameOrFault s)
        (λ id s1.
          next-SameOrFault (explode_plain_range env.content_enc.geometry off want, s1) _ _
            (λ blocks s2.
              next-SameOrFault (first_of blocks, s2) _ _
                (λ first s3.
                  next-SameOrFault (joint_ciphertext_range env.content_enc.geometry blocks, s3) _ _
                    (λ range s4. if-SameOrFault (ltb max_int64 range.0) _ _ _ s4 (
                      if-SameOrFault (ltb env.content_enc.c_req_size range.1) _ _ _ s4 (
                        bind-SameOrFault (read_at env range.1 range.0 s4)
                          (read_at (calmed env) range.1 range.0 s4) _ _
                          (read_at-SameOrFault range.1 range.0 s4) (λ c t. inl refl)))))))
