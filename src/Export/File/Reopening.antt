-- ===== src/Export/File/Reopening.antt =====
-- A rotation that has moved the files but cannot open a new one is finished by a later export, which
-- does not move the files again.
use streamsight_agent.Base.{
  ℕ, ◌≡◌, refl, sym, ◌∙◌, true, false, ◌||◌, Option, none, some, List, arith, Bool-cases, inl, inr,
  subst,
}
use streamsight_agent.Export.Counters.{drop_batch, record_err, inc}
use streamsight_agent.Export.File.{
  FileError, create_dir_failed, open_failed, OpenFaults, Faults, FileExporter, open_live, reopen,
  finish_reopen, rotate, rotate_files, flush_and_close, export_batch, write_batch, fails,
}

-- The call of `open` fails.
abbrev pub OpenFails : OpenFaults → Type 0
OpenFails o = (o.mkdir || o.open_file) ≡ true

open_live-OpenFails :
    (e : FileExporter) (o : OpenFaults)
    → OpenFails o
    → (x : FileError) × (open_live e o ≡ (e, some x))
unfolding open_live
open_live-OpenFails e o h = elim (Bool-cases o.mkdir) [
  | inl no_dir ↦ (create_dir_failed, rw no_dir refl)
  | inr dir ↦ (open_failed, ground (arith, h, dir))
]

-- An exporter that waits for its reopen.
abbrev pub Waits : FileExporter → Type 0
Waits e = (e.needs_reopen ≡ true) × (e.closed ≡ false)

reopen_fails :
    (e : FileExporter) (o : OpenFaults)
    → OpenFails o
    → (x : FileError) × (reopen e o ≡ (record e { needs_reopen = true }, some x))
unfolding reopen
reopen_fails e o h =
    let (x, f) = open_live-OpenFails (record e { needs_reopen = true }) o h in
    (x, ground (arith, f))

export_waiting :
    (e : FileExporter) (w : Faults) (line : List ℕ) (x : FileError)
    → Waits e
    → open_live e w.reopening ≡ (e, some x)
    → export_batch e false (some line) w ≡ fails e x
unfolding export_batch write_batch finish_reopen
export_waiting e w line x (flag, live) f = ground (arith, flag, live, f)

flush_and_close-closed : (e : FileExporter) (w : Faults) → (flush_and_close e w).0.closed ≡ e.closed
unfolding flush_and_close
flush_and_close-closed e w = ground arith

-- The exporter after a rotation that has moved its files.
abbrev moved : FileExporter → Faults → FileExporter
moved e w =
    let e' = (flush_and_close e w).0 in
    record e' { files = (rotate_files e'.files w e'.max_backups).0 }

rotate_moves :
    (e : FileExporter) (w : Faults)
    → (flush_and_close e w).1 ≡ none
    → (rotate_files (flush_and_close e w).0.files w (flush_and_close e w).0.max_backups).1 ≡ none
    → rotate e w ≡ reopen (moved e w) w.rotating
unfolding rotate
rotate_moves e w f g = ground (arith, f, g)

-- While the file cannot be opened, an export drops its batch, moves no file, and goes on waiting.
abbrev pub StaysWaiting : FileExporter → Type 0
StaysWaiting e =
    (w : Faults) (line : List ℕ)
    → OpenFails w.reopening
    → let r = (export_batch e false (some line) w).0 in
      (r.files ≡ e.files) × Waits r × (r.counters.dropped ≡ inc e.counters.dropped)

Waits-StaysWaiting : (e : FileExporter) → Waits e → StaysWaiting e
unfolding drop_batch record_err
Waits-StaysWaiting e v w line h =
    let (x, f) = open_live-OpenFails e w.reopening h in
    subst
      (λ (r : FileExporter × Option FileError).
        (r.0.files ≡ e.files) × Waits r.0 × (r.0.counters.dropped ≡ inc e.counters.dropped))
      (sym (export_waiting e w line x v f)) (refl, v, refl)

-- A rotation whose files have moved but whose new file cannot be opened leaves the exporter waiting for
-- its reopen, with the files as they were moved; and every export until the file can be opened leaves
-- them so, instead of shifting the backups a second time, and counts its batch as dropped.
pub rotate-StaysWaiting :
    (e : FileExporter) (w : Faults)
    → e.closed ≡ false
    → (flush_and_close e w).1 ≡ none
    → (rotate_files (flush_and_close e w).0.files w (flush_and_close e w).0.max_backups).1 ≡ none
    → OpenFails w.rotating
    → let r = (rotate e w).0 in
      Waits r
      × (r.files
          ≡ (rotate_files (flush_and_close e w).0.files w (flush_and_close e w).0.max_backups).0)
      × StaysWaiting r
rotate-StaysWaiting e w live f g h =
    let (x, stays) = reopen_fails (moved e w) w.rotating h in
    let waiting : FileExporter = record (moved e w) { needs_reopen = true } in
    let v : Waits waiting = (refl, flush_and_close-closed e w ∙ live) in
    subst
      (λ (r : FileExporter × Option FileError).
        Waits r.0 × (r.0.files ≡ (moved e w).files) × StaysWaiting r.0)
      (sym (rotate_moves e w f g ∙ stays)) (v, refl, Waits-StaysWaiting waiting v)
