-- ===== src/Export/File/Rotation.antt =====
-- What a rotation does to the files.
use native.Mathlib.Numerals.{add-one}
use streamsight_agent.Base.{
  ℕ, zero, suc, ◌+◌, ◌≤◌, ◌<◌, ◌≡◌, ◌≢◌, refl, sym, ◌∙◌, ap, false, none, some, arith, Option-cases,
  inl, inr, subst, dec_le,
}
use streamsight_agent.Export.File.{
  FileError, Files, Faults, shift_one, shift_backups, move_live, remove_backup, rotate_files,
}

-- No backup is skipped because its status cannot be read.
abbrev pub StatsWork : Faults → Type 0
StatsWork w = (i : ℕ) → w.stat_backup i ≡ false

-- The backups 1 to `n` have each moved up by one, and those above `n + 1` are as they were.
abbrev Shifted : ℕ → Files → Files → Type 0
Shifted n f g =
    ((i : ℕ) → 1 ≤ i → i ≤ n → g.backup (suc i) ≡ f.backup i)
    × (g.backup 1 ≡ none)
    × ((i : ℕ) → suc n < i → g.backup i ≡ f.backup i)
    × (g.live ≡ f.live)

shift_one_lem :
    (f : Files) (w : Faults) (i : ℕ)
    → StatsWork w
    → f.backup (i + 1) ≡ none
    → (shift_one f w i).1 ≡ none
    → let g = (shift_one f w i).0 in
      (g.backup (i + 1) ≡ f.backup i)
      × (g.backup i ≡ none)
      × ((j : ℕ) → j ≢ i → j ≢ i + 1 → g.backup j ≡ f.backup j)
      × (g.live ≡ f.live)
unfolding shift_one
shift_one_lem f w i ok free done = (
  ground (arith, ok i),
  ground (arith, ok i),
  λ j a b. ground (arith, ok i),
  ground (arith, ok i),
)

shift_failed :
    (f : Files) (w : Faults) (n : ℕ) (x : FileError)
    → (shift_one f w (suc n)).1 ≡ some x
    → (shift_backups f w (suc n)).1 ≢ none
unfolding shift_backups
shift_failed f w n x e = ground arith

shift_went :
    (f : Files) (w : Faults) (n : ℕ)
    → (shift_one f w (suc n)).1 ≡ none
    → shift_backups f w (suc n) ≡ shift_backups (shift_one f w (suc n)).0 w n
unfolding shift_backups
shift_went f w n e = ground arith

is_last : (i n : ℕ) → i ≤ suc n → ¬ (i ≤ n) → suc n ≡ i
is_last i n hi gt = omega (arith, hi, gt)

shift_backups-Shifted :
    (f : Files) (w : Faults) (n : ℕ)
    → StatsWork w
    → f.backup (suc n) ≡ none
    → (shift_backups f w n).1 ≡ none
    → Shifted n f (shift_backups f w n).0
unfolding shift_backups
shift_backups-Shifted f w zero ok free done =
    (λ i lo hi. absurd (omega arith), free, λ i lt. refl, refl)
shift_backups-Shifted f w (suc n) ok free done = elim (Option-cases (shift_one f w (suc n)).1) [
  | inr (x, e) ↦ absurd (shift_failed f w n x e done)
  | inl e ↦
      let g = (shift_one f w (suc n)).0 in
      let (moved, cleared, kept, live) = shift_one_lem f w (suc n) ok (rw add-one free) e in
      let h = (shift_backups g w n).0 in
      let (up, first, above, live') =
        shift_backups-Shifted g w n ok cleared (sym (ap (λ r. r.1) (shift_went f w n e)) ∙ done) in
      subst (Shifted (suc n) f) (sym (ap (λ r. r.0) (shift_went f w n e))) (
        λ i lo hi. elim (dec_le i n) [
          | yes le ↦ up i lo le ∙ kept i (λ q. omega (arith, q, le)) (λ q. omega (arith, q, le))
          | no gt ↦
              subst (λ k. h.backup (suc k) ≡ f.backup k) (is_last i n hi gt)
                (above (suc (suc n)) (omega arith)
                  ∙ subst (λ k. g.backup k ≡ f.backup (suc n)) (add-one (suc n)) moved)
        ],
        first,
        λ i lt.
            above i (omega (arith, lt))
            ∙ kept i (λ q. omega (arith, q, lt)) (λ q. omega (arith, q, lt)),
        live' ∙ live,
      )
]

remove_backup_lem :
    (f : Files) (w : Faults) (i : ℕ)
    → (remove_backup f w i).1 ≡ none
    → let g = (remove_backup f w i).0 in
      (g.backup i ≡ none) × ((j : ℕ) → j ≢ i → g.backup j ≡ f.backup j) × (g.live ≡ f.live)
unfolding remove_backup
remove_backup_lem f w i done = (ground arith, λ j a. ground arith, ground arith)

move_live_lem :
    (f : Files) (w : Faults)
    → f.backup 1 ≡ none
    → (move_live f w).1 ≡ none
    → let g = (move_live f w).0 in
      (g.backup 1 ≡ f.live) × ((j : ℕ) → j ≢ 1 → g.backup j ≡ f.backup j) × (g.live ≡ none)
unfolding move_live
move_live_lem f w free done = (ground arith, λ j a. ground arith, ground arith)

-- The files after a complete rotation that keeps `n + 1` backups.
abbrev pub Rotated : ℕ → Files → Files → Type 0
Rotated n f g =
    (g.live ≡ none)
    × (g.backup 1 ≡ f.live)
    × ((i : ℕ) → 1 ≤ i → i ≤ n → g.backup (suc i) ≡ f.backup i)
    × ((i : ℕ) → suc n < i → g.backup i ≡ f.backup i)

rotate_files_steps :
    (f : Files) (w : Faults) (n : ℕ)
    → (rotate_files f w (suc n)).1 ≡ none
    → let f₁ = (remove_backup f w (suc n)).0 in
      let f₂ = (shift_backups f₁ w n).0 in
      ((remove_backup f w (suc n)).1 ≡ none)
      × ((shift_backups f₁ w n).1 ≡ none)
      × ((move_live f₂ w).1 ≡ none)
      × ((rotate_files f w (suc n)).0 ≡ (move_live f₂ w).0)
unfolding rotate_files
rotate_files_steps f w n done = (ground arith, ground arith, ground arith, ground arith)

-- A rotation that keeps `n + 1` backups and reports no error, with the status of every backup
-- readable, leaves no live file; the live file has become the backup 1, each backup from 1 to `n`
-- has become the next, and no file above the oldest is touched.
pub rotate_files-Rotated :
    (f : Files) (w : Faults) (n : ℕ)
    → StatsWork w
    → (rotate_files f w (suc n)).1 ≡ none
    → Rotated n f (rotate_files f w (suc n)).0
rotate_files-Rotated f w n ok done =
    let f₁ = (remove_backup f w (suc n)).0 in
    let f₂ = (shift_backups f₁ w n).0 in
    let (removed, shifted, moved, same) = rotate_files_steps f w n done in
    let (gone, kept, live) = remove_backup_lem f w (suc n) removed in
    let (up, first, above, live') = shift_backups-Shifted f₁ w n ok gone shifted in
    let (newest, others, empty) = move_live_lem f₂ w first moved in
    subst (Rotated n f) (sym same) (
      empty,
      newest ∙ (live' ∙ live),
      λ i lo hi.
          others (suc i) (λ q. omega (arith, q, lo))
          ∙ (up i lo hi ∙ kept i (λ q. omega (arith, q, hi))),
      λ i lt.
          others i (λ q. omega (arith, q, lt)) ∙ (above i lt ∙ kept i (λ q. omega (arith, q, lt))),
    )
