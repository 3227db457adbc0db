-- ===== src/Sessions/Closing.antt =====
-- When a volume can be closed.
use shiroikuma_gcfs.Prelude.{
  ℕ, zero, suc, ◌+◌, ◌≤◌, ◌<◌, ◌≡◌, ◌≢◌, refl, sym, ap, ◌∙◌, inl, inr, true, false, Option, none,
  some, Option-cases, [], ◌∷◌, ok, panic, arith, ◌==◌, length,
}
use shiroikuma_gcfs.Handles.{File, Table, remove, close_file}
use shiroikuma_gcfs.Handles as Handles
use shiroikuma_gcfs.DirCache.{clear}
use shiroikuma_gcfs.Handles.Free.{load-remove}
use shiroikuma_gcfs.Sessions.{
  Opened, OpenedVolumes, load, delete, close_loop, gcf_close, gcf_is_closed,
}

load-kept :
    (handles : Table) (i j : ℕ) → i ≢ j → Handles.load (remove handles i) j ≡ Handles.load handles j
load-kept handles i j away =
    let differ : (j == i) ≡ false = ground (arith, away) in load-remove handles i j ∙ rw differ refl

close_file-ok :
    (handles : Table) (i : ℕ) {f : File}
    → Handles.load handles i ≡ some f
    → close_file handles i ≡ ok (remove handles i)
unfolding close_file
close_file-ok handles i found = rw (close_file, found) refl

close_file-panic :
    (handles : Table) (i : ℕ) → Handles.load handles i ≡ none → close_file handles i ≡ panic
unfolding close_file
close_file-panic handles i missing = rw (close_file, missing) refl

close_loop-ok :
    (n i : ℕ) (handles : Table)
    → ((j : ℕ) → i ≤ j → j < i + n → (f : File) × (Handles.load handles j ≡ some f))
    → (closed : Table) × (close_loop n i handles ≡ ok closed)
unfolding close_loop
close_loop-ok zero i handles used = (handles, refl)
close_loop-ok (suc n) i handles used =
    let (f, found) = used i (omega arith) (omega arith) in
    let (closed, e) = close_loop-ok n (i + 1) (remove handles i) (λ j above below.
      let (g, there) = used j (omega (arith, above)) (omega (arith, below)) in
      (g, load-kept handles i j (λ e. omega (arith, above, e)) ∙ there)) in
    (closed, rw (close_file-ok handles i found) e)

close_loop-panic :
    (n i j : ℕ) (handles : Table)
    → i ≤ j
    → j < i + n
    → Handles.load handles j ≡ none
    → close_loop n i handles ≡ panic
unfolding close_loop
close_loop-panic zero i j handles above below missing = absurd (omega arith)
close_loop-panic (suc n) i j handles above below missing =
    elim (Option-cases (Handles.load handles i)) [
      | inl none_there ↦ rw (close_file-panic handles i none_there) refl
      | inr (f, found) ↦
          let later : i ≢ j =
            λ e. clash (sym missing ∙ ap (Handles.load handles) (sym e) ∙ found) in
          rw (close_file-ok handles i found) (
            close_loop-panic n (i + 1) j (remove handles i) (omega (arith, above, later))
              (omega (arith, below)) (load-kept handles i j later ∙ missing))
    ]
  where
    clash : {f : File} → ◌≡◌ {A = Option File} none (some f) → ⊥
    clash e = cc

load-delete : (volumes : OpenedVolumes) (id : ℕ) → load (delete volumes id) id ≡ none
unfolding load delete
load-delete [] id = refl
load-delete ((k, v) ∷ rest) id = ground (arith, load-delete rest id)

gcf_close-steps :
    (volumes : OpenedVolumes) (id : ℕ) (v : Opened) {closed : Table}
    → load volumes id ≡ some v
    → close_loop (length v.handles) 0 v.handles ≡ ok closed
    → gcf_close volumes id ≡ ok (delete volumes id, (clear v.cache).closed)
unfolding gcf_close
gcf_close-steps volumes id v found e = rw (gcf_close, found, e) refl

-- With the numbers from 0 on, the volume is closed.
gcf_close-closed :
    (volumes : OpenedVolumes) (id : ℕ) (v : Opened)
    → load volumes id ≡ some v
    → ((j : ℕ) → j < length v.handles → (f : File) × (Handles.load v.handles j ≡ some f))
    → (rest : OpenedVolumes) × (gcf_close volumes id ≡ ok (rest, (clear v.cache).closed))
      × (gcf_is_closed rest id ≡ true)
unfolding gcf_is_closed
gcf_close-closed volumes id v found used =
    let (closed, e) =
      close_loop-ok (length v.handles) 0 v.handles
        (λ j above below. used j (omega (arith, below))) in
    (
      delete volumes id,
      gcf_close-steps volumes id v found e,
      rw (gcf_is_closed, load-delete volumes id) refl,
    )

-- gcf_close panics for an opened volume where a number below the count of its file handles is not
-- one of its file handles.
pub gcf_close-panic :
    (volumes : OpenedVolumes) (id j : ℕ) (v : Opened)
    → load volumes id ≡ some v
    → j < length v.handles
    → Handles.load v.handles j ≡ none
    → gcf_close volumes id ≡ panic
unfolding gcf_close
gcf_close-panic volumes id j v found below missing =
    rw
      (
        gcf_close,
        found,
        close_loop-panic (length v.handles) 0 j v.handles (omega arith) (omega (arith, below))
            missing,
      )
      refl
