-- ===== src/ConfigFile/Settings/Supported.antt =====
-- `Validate` against a description of the settings that the program supports.
use shiroikuma_gcfs.Prelude.{
  ℕ, ◌≡◌, refl, ◌⊎◌, ◌↔◌, Bool, true, false, not, Option, none, some, List, [], ◌∷◌, arith,
  if◌then◌else◌, Bytes, All, Error, unknown_feature_flag,
}
use shiroikuma_gcfs.ConfigFile.Flags.{
  Flag, plaintext_names, dir_iv, eme_names, gcm_iv128, long_names, long_name_max_flag, aes_siv_flag,
  raw64, hkdf_flag, xchacha20_poly1305_flag, is_feature_flag_set, is_feature_flag_known,
}
use shiroikuma_gcfs.ConfigFile.Scrypt.{validate_params}
use shiroikuma_gcfs.ConfigFile.Settings.{
  ConfFile, validate, validate_content, validate_names, all_known, or_then,
}

-- A flag that the list holds, and one that it does not.
abbrev pub Has : List Bytes → Flag → Type 0
Has flags flag = is_feature_flag_set flags flag ≡ true

abbrev pub Lacks : List Bytes → Flag → Type 0
Lacks flags flag = is_feature_flag_set flags flag ≡ false

-- Exactly one content cipher: XChaCha20-Poly1305 with HKDF and its own nonces, or one with nonces of
-- 128 bits.
abbrev pub HasCipher : List Bytes → Type 0
HasCipher flags =
    (Has flags xchacha20_poly1305_flag
      × (Lacks flags aes_siv_flag × (Lacks flags gcm_iv128 × Has flags hkdf_flag)))
    ⊎ (Lacks flags xchacha20_poly1305_flag × Has flags gcm_iv128)

-- Plaintext names go with no setting on encrypted names.
abbrev pub HasNames : List Bytes → Type 0
HasNames flags =
    Lacks flags plaintext_names
    ⊎ (Lacks flags eme_names
        × (Lacks flags dir_iv
            × (Lacks flags long_names × (Lacks flags raw64 × Lacks flags long_name_max_flag))))

pub record Supported (cf : ConfFile) : Type 0 where
  pub current : cf.version ≡ 2
  pub derivable : validate_params cf.scrypt_object ≡ none
  pub known : All (λ flag. is_feature_flag_known flag ≡ true) cf.feature_flags
  pub one_cipher : HasCipher cf.feature_flags
  pub names : HasNames cf.feature_flags
  pub max_flag : (cf.long_name_max ≡ 0) ↔ Lacks cf.feature_flags long_name_max_flag

known_step :
    {P : Type 0} (b : Bool) (rest : Option Error)
    → (rest ≡ none) ↔ P
    → ((if not b then some unknown_feature_flag else rest) ≡ none) ↔ ((b ≡ true) × P)
known_step true rest h = (λ e. (refl, h.0 e), λ e. h.1 e.1)
known_step false rest h = (λ e. cc e, λ e. cc (e.0))

all_known_iff :
    (flags : List Bytes)
    → (all_known flags ≡ none) ↔ All (λ flag. is_feature_flag_known flag ≡ true) flags
unfolding all_known
all_known_iff [] = (λ h. tt, λ h. refl)
all_known_iff (flag ∷ rest) =
    known_step (is_feature_flag_known flag) (all_known rest) (all_known_iff rest)

validate_content_iff : (flags : List Bytes) → (validate_content flags ≡ none) ↔ HasCipher flags
unfolding validate_content
validate_content_iff flags = ground arith

validate_names_iff :
    (flags : List Bytes) (m : ℕ)
    → (validate_names flags m ≡ none)
      ↔ (HasNames flags × ((m ≡ 0) ↔ Lacks flags long_name_max_flag))
unfolding validate_names
validate_names_iff flags m = ground arith

or_then-eq-none : (a b : Option Error) → (or_then a b ≡ none) ↔ ((a ≡ none) × (b ≡ none))
or_then-eq-none none b = (λ h. (refl, h), λ h. h.1)
or_then-eq-none (some e) b = (λ h. cc h, λ h. cc (h.0))

checked :
    (cf : ConfFile)
    → (validate cf ≡ none) ↔ (
        (cf.version ≡ 2)
        × ((validate_params cf.scrypt_object ≡ none)
            × ((all_known cf.feature_flags ≡ none)
                × ((validate_content cf.feature_flags ≡ none)
                    × (validate_names cf.feature_flags cf.long_name_max ≡ none)))))
unfolding validate
checked cf =
    let names = validate_names cf.feature_flags cf.long_name_max in
    let content = validate_content cf.feature_flags in
    let known = all_known cf.feature_flags in
    ground (
      arith,
      or_then-eq-none (validate_params cf.scrypt_object) (or_then known (or_then content names)),
      or_then-eq-none known (or_then content names),
      or_then-eq-none content names,
    )

-- Validate accepts a configuration exactly when it has the current version, scrypt parameters that
-- pass, no unknown flag, one content cipher with the flags that it needs, plaintext names only
-- without the flags for encrypted names, and the flag for a limit on names exactly where the limit
-- is not 0. It asks for no other flag on names, so that without PlaintextNames the flag EMENames
-- may be missing.
pub validate_iff : (cf : ConfFile) → (validate cf ≡ none) ↔ Supported cf
validate_iff cf = (
  λ h.
      let (current, (derivable, (known, (content, names)))) = (checked cf).0 h in
      let (has_names, max_flag) = (validate_names_iff cf.feature_flags cf.long_name_max).0 names in
      record {
        current = current;
        derivable = derivable;
        known = (all_known_iff cf.feature_flags).0 known;
        one_cipher = (validate_content_iff cf.feature_flags).0 content;
        names = has_names;
        max_flag = max_flag;
      },
  λ s. (checked cf).1 (
    s.current,
    (
      s.derivable,
      (
        (all_known_iff cf.feature_flags).1 s.known,
        (
          (validate_content_iff cf.feature_flags).1 s.one_cipher,
          (validate_names_iff cf.feature_flags cf.long_name_max).1 (s.names, s.max_flag),
        ),
      ),
    ),
  ),
)
