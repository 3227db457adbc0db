-- ===== src/Sync/Memory.antt =====
-- A volume in memory, for the runs and instances in the module Examples. Only the names `a`, `b` and `d` of the root
-- are listed.
use shiroikuma_gcfs.Prelude.{
  ℕ, ◌*◌, ◌^◌, ◌≡◌, ◌≢◌, refl, inl, inr, Bool, Bool-cases, true, false, Option, none, some, List,
  [], ◌∷◌, ok, if◌then◌else◌, length, Bytes, bytes_equal, bytes_equal_iff,
}
use shiroikuma_gcfs.Sync.{slash}
use shiroikuma_gcfs.Sync.Volumes.{Attrs, DirEntry, Volume}

pub record Item : Type 0 where
  pub attrs : Attrs
  pub sum : Bytes

abbrev pub Items : Type 0
Items = Bytes → Option Item

unfoldable pub update : Items → Bytes → Option Item → Items
update s p item q = if bytes_equal p q then item else s q

abbrev attrs_of : Option Item → Option Attrs
attrs_of none = none
attrs_of (some i) = some i.attrs

abbrev sum_of : Option Item → Bytes
sum_of none = []
sum_of (some i) = i.sum

abbrev pub directory_item : Item
directory_item = record { attrs = record { mode = 4 * 2 ^ 12; size = 0; mtime = 0 }; sum = [] }

abbrev pub file_item : Bytes → Item
file_item c = record { attrs = record { mode = 8 * 2 ^ 12; size = length c; mtime = 0 }; sum = c }

abbrev made : Items → Bytes → Option Item → Bool × Items
made s p none = (true, update s p (some directory_item))
made s p (some i) = (false, s)

abbrev touched : Items → Bytes → ℕ → Option Item → Items
touched s p m none = s
touched s p m (some i) = update s p (some (record i { attrs = record i.attrs { mtime = m } }))

abbrev listed : Bytes → Option Item → List DirEntry → List DirEntry
listed name none rest = rest
listed name (some i) rest = record { name = name; mode = i.attrs.mode } ∷ rest

abbrev root_names : Items → List DirEntry
root_names s =
    listed (97 ∷ []) (s (47 ∷ 97 ∷ []))
      (listed (98 ∷ []) (s (47 ∷ 98 ∷ [])) (listed (100 ∷ []) (s (47 ∷ 100 ∷ [])) []))

abbrev pub memory_volume : Volume
memory_volume = record {
  State = Items;
  get_attrs = λ s p. attrs_of (s p);
  mkdir = λ s p. made s p (s p);
  put = λ s p c. ok (update s p (some (file_item c)));
  set_mtime = λ s p m. touched s p m (s p);
  list_dir = λ s d. if bytes_equal d slash then some (root_names s) else none;
  remove_file = λ s p. update s p none;
  rmdir = λ s p. update s p none;
  sha256 = λ s p. sum_of (s p);
}

pub update_other : (s : Items) (p q : Bytes) (v : Option Item) → p ≢ q → update s p v q ≡ s q
unfolding update
update_other s p q v away = elim (Bool-cases (bytes_equal p q)) [
  | inl same ↦ absurd (away ((bytes_equal_iff p q).0 same))
  | inr differ ↦ rw differ refl
]
