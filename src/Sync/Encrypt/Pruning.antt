-- ===== src/Sync/Encrypt/Pruning.antt =====
-- What `encryptSync` with `-delete` leaves alone.
use mathlib.Core.Path.{subst}
use mathlib.Core.List.{Memᴰ}
use shiroikuma_gcfs.Prelude.{
  ℕ, zero, suc, ◌≡◌, ◌≢◌, ap, ◌∙◌, inl, inr, Bool, Bool-cases, true, false, Option-cases,
  bytes_equal, ◌&&◌, not, sym, All, List, [], ◌∷◌, Outcome, ok, >>=-eq-ok, if◌then◌else◌, Bytes,
}
use shiroikuma_gcfs.Sync.{SyncOpts, Paths, slash, vjoin, is_dir_mode}
use shiroikuma_gcfs.Sync.Volumes.{DirEntry, Volume, mkdir_all}
use shiroikuma_gcfs.Sync.Encrypt.{
  Entry, Run, Pruned, member, prune_entry, prune_entries, prune_volume, encrypt_sync, walk, started,
  unpruned, vpath_of, skips,
}
use shiroikuma_gcfs.Sync.Encrypt.Seen.{walk-seen, ok_injective}

-- No removal of another path changes whether `P` holds.
abbrev pub Spares : (V : Volume) → (V.State → Type 0) → Bytes → Type 0
Spares V P q = (s : V.State) (p : Bytes) → p ≢ q → P s → P (V.remove_file s p) × P (V.rmdir s p)

module _ (V : Volume) (o : SyncOpts) (P : V.State → Type 0) (q : Bytes) (spares : Spares V P q)
    (seen : List Bytes) (known : member q seen ≡ true) where
  unseen : (vpath : Bytes) → member vpath seen ≡ false → vpath ≢ q
  unseen vpath missing same = clash (ap (λ x. member x seen) same ∙ known) missing
    where
      clash : {b : Bool} → b ≡ true → b ≡ false → ⊥
      clash h k = cc

  removed_lem :
      (dry is_dir : Bool) (s : V.State) (vpath : Bytes)
      → vpath ≢ q
      → P s
      → P (if dry then s else if is_dir then V.rmdir s vpath else V.remove_file s vpath)
  removed_lem true is_dir s vpath away holds = holds
  removed_lem false true s vpath away holds = (spares s vpath away holds).1
  removed_lem false false s vpath away holds = (spares s vpath away holds).0

  prune_entry-spares :
      (vpath : Bytes) (is_dir : Bool) (p : Pruned V)
      → P p.vol
      → P (prune_entry V o seen vpath is_dir p).vol
  unfolding prune_entry
  prune_entry-spares vpath is_dir p = elim (Bool-cases (member vpath seen)) [
    | inl seen_it ↦ rw seen_it (λ holds. holds)
    | inr missing ↦ rw missing (removed_lem o.dry_run is_dir p.vol vpath (unseen vpath missing))
  ]

  prune_entries-spares :
      (inner : Bytes → Pruned V → Outcome (Pruned V)) (dir : Bytes) (entries : List DirEntry)
      (p u : Pruned V)
      → ((d : Bytes) (m n : Pruned V) → inner d m ≡ ok n → P m.vol → P n.vol)
      → prune_entries V o seen inner dir entries p ≡ ok u
      → P p.vol
      → P u.vol
  unfolding prune_entries
  prune_entries-spares inner dir [] p u keeps e =
      subst (λ (m : Pruned V). P p.vol → P m.vol) (ok_injective e) (λ holds. holds)
  prune_entries-spares inner dir (e ∷ entries) p u keeps pruned =
      let vpath = vjoin dir e.name in
      let is_dir = is_dir_mode e.mode in
      let (m, inside, rest) =
        >>=-eq-ok (if is_dir then inner vpath p else ok p)
          (λ m. prune_entries V o seen inner dir entries (prune_entry V o seen vpath is_dir m))
          pruned in
      λ holds.
        prune_entries-spares inner dir entries (prune_entry V o seen vpath is_dir m) u keeps rest
          (prune_entry-spares vpath is_dir m (inside_lem is_dir vpath m inside holds))
    where
      inside_lem :
          (b : Bool) (vpath : Bytes) (m : Pruned V)
          → (if b then inner vpath p else ok p) ≡ ok m
          → P p.vol
          → P m.vol
      inside_lem true vpath m e = keeps vpath p m e
      inside_lem false vpath m e =
          subst (λ (n : Pruned V). P p.vol → P n.vol) (ok_injective e) (λ holds. holds)

  -- A file of which the path is in `seen` is left alone.
  pub prune_volume-spares :
      (fuel : ℕ) (dir : Bytes) (p u : Pruned V)
      → prune_volume V o seen fuel dir p ≡ ok u
      → P p.vol
      → P u.vol
  unfolding prune_volume
  prune_volume-spares zero dir p u e = cc
  prune_volume-spares (suc fuel) dir p u e = elim (Option-cases (V.list_dir p.vol dir)) [
    | inl nothing ↦
        subst (λ (m : Pruned V). P p.vol → P m.vol) (ok_injective (rw (prune_volume, nothing) at e))
          (λ holds. holds)
    | inr (entries, listed) ↦
        prune_entries-spares (prune_volume V o seen fuel) dir entries p u
          (λ d m n. prune_volume-spares fuel d m n) (rw (prune_volume, listed) at e)
  ]

module _ (V : Volume) (paths : Paths) (o : SyncOpts) (P : V.State → Type 0) where
  pruned-spares :
      (b : Bool) (seen : List Bytes) (fuel : ℕ) (start p : Pruned V) (q : Bytes)
      → (if b then prune_volume V o seen fuel o.base start else ok start) ≡ ok p
      → Spares V P q
      → member q seen ≡ true
      → P start.vol
      → P p.vol
  pruned-spares true seen fuel start p q e spares known =
      prune_volume-spares V o P q spares seen known fuel o.base start p e
  pruned-spares false seen fuel start p q e spares known =
      subst (λ (u : Pruned V). P start.vol → P u.vol) (ok_injective e) (λ holds. holds)

  member-seen :
      (e : Entry) (entries : List Entry) (seen : List Bytes)
      → Memᴰ e entries
      → All (λ (e : Entry). skips e ≡ false → member (vpath_of paths o e.rel) seen ≡ true) entries
      → skips e ≡ false
      → member (vpath_of paths o e.rel) seen ≡ true
  member-seen e [] seen m there taken = elim m [ ]
  member-seen e (x ∷ entries) seen (Memᴰ.head same) (known, there) taken =
      ap (λ (y : Entry). member (vpath_of paths o y.rel) seen) same
      ∙ known (ap (λ (y : Entry). skips y) (sym same) ∙ taken)
  member-seen e (x ∷ entries) seen (Memᴰ.tail m) (known, there) taken =
      member-seen e entries seen m there taken

  -- When encryptSync returns, with or without -delete, whatever the calls of the volume do: what is
  -- true of the volume behind the walk over the source, and stays true where a file or a directory
  -- is removed at another path than that of an entry of the source, is true in the end, for every
  -- entry that can be read and is not the root of the source.
  pub encrypt_sync-spares :
      (entries : List Entry) (fuel : ℕ) (s : V.State) (r : Run V) (p : Pruned V) (e : Entry)
      → encrypt_sync V paths o entries fuel s ≡ ok (r, p)
      → Memᴰ e entries
      → skips e ≡ false
      → Spares V P (vpath_of paths o e.rel)
      → P r.vol
      → P p.vol
  unfolding encrypt_sync
  encrypt_sync-spares entries fuel s r p e ran in_source taken spares =
      let b = not (bytes_equal o.base slash) && not o.dry_run in
      let (based, made, e1) = >>=-eq-ok (if b then mkdir_all V paths s o.base else ok s) _ ran in
      let (r1, walked, e2) = >>=-eq-ok (walk V paths o entries (started V based)) _ e1 in
      let (p1, pruned, e3) =
        >>=-eq-ok
          (if o.delete
            then prune_volume V o r1.seen fuel o.base (unpruned V r1)
            else ok (unpruned V r1))
          _ e2 in
      let (stays, there) = walk-seen V paths o entries (started V based) r1 walked in
      subst (λ (u : Run V × Pruned V). P u.0.vol → P u.1.vol) (ok_injective e3)
        (pruned-spares o.delete r1.seen fuel (unpruned V r1) p1 (vpath_of paths o e.rel) pruned
          spares (member-seen e entries r1.seen in_source there taken))
