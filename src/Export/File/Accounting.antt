-- ===== src/Export/File/Accounting.antt =====
-- What one export of the file exporter counts and writes.
use streamsight_agent.Base.{
  ℕ, ◌+◌, ◌≡◌, refl, ◌∙◌, ap, ◌⊎◌, inl, inr, Bool, true, false, Option, none, some, List, arith,
  length, ◌&&◌, not, ◌||◌, if◌then◌else◌,
}
use streamsight_agent.Export.Counters.{Counters, inc, drop_batch}
use streamsight_agent.Export.File.{
  FileError, OpenFaults, Faults, FileExporter, open_live, reopen, flush_and_close, rotate_files,
  rotate, fails, spoil, write_line, must_rotate, rotate_and_write, finish_reopen, write_batch,
  export_batch, cancelled, encode_failed, write_failed, flush_failed, sync_failed, file_closed,
}

-- A batch is counted as exported exactly if no error is returned, and as dropped with the error
-- that is returned otherwise.
abbrev pub Accounted : Counters FileError → FileExporter × Option FileError → Type 0
Accounted c r =
    ((r.1 ≡ none) × (r.0.counters ≡ record c { exported = inc c.exported }))
    ⊎ ((x : FileError) × (r.1 ≡ some x) × (r.0.counters ≡ drop_batch c x))

open_live-counters : (e : FileExporter) (o : OpenFaults) → (open_live e o).0.counters ≡ e.counters
unfolding open_live
open_live-counters e o = ground arith

reopen-counters : (e : FileExporter) (o : OpenFaults) → (reopen e o).0.counters ≡ e.counters
unfolding reopen
reopen-counters e o = ground (arith, open_live-counters (record e { needs_reopen = true }) o)

flush_and_close-counters :
    (e : FileExporter) (w : Faults) → (flush_and_close e w).0.counters ≡ e.counters
unfolding flush_and_close
flush_and_close-counters e w = ground arith

rotate-counters : (e : FileExporter) (w : Faults) → (rotate e w).0.counters ≡ e.counters
unfolding rotate
rotate-counters e w =
    let (e', err) = flush_and_close e w in
    let (f, moved) = rotate_files e'.files w e'.max_backups in
    ground
      (arith, flush_and_close-counters e w, reopen-counters (record e' { files = f }) w.rotating)

finish_reopen-counters :
    (e : FileExporter) (w : Faults) → (finish_reopen e w).0.counters ≡ e.counters
unfolding finish_reopen
finish_reopen-counters e w = ground (arith, open_live-counters e w.reopening)

fails-Accounted :
    (c : Counters FileError) (e : FileExporter) (x : FileError)
    → e.counters ≡ c
    → Accounted c (fails e x)
fails-Accounted c e x h = inr (x, refl, ap (λ d. drop_batch d x) h)

spoil-counters : (e : FileExporter) (w : Faults) → (spoil e w).counters ≡ e.counters
unfolding spoil
spoil-counters e w = ground arith

-- A result that is accounted for on both branches of a test.
if-Accounted :
    (c : Counters FileError) (b : Bool) (x y : FileExporter × Option FileError)
    → Accounted c x
    → Accounted c y
    → Accounted c (if b then x else y)
if-Accounted c true x y h k = h
if-Accounted c false x y h k = k

write_line-Accounted :
    (c : Counters FileError) (e : FileExporter) (w : Faults) (line : List ℕ)
    → e.counters ≡ c
    → Accounted c (write_line e w line)
unfolding write_line
write_line-Accounted c e w line h =
    if-Accounted c e.write_err _ _ (fails-Accounted c e write_failed h) (
      if-Accounted c w.write _ _
        (fails-Accounted c (spoil (record e { size = e.size + w.written }) w) write_failed
          (spoil-counters (record e { size = e.size + w.written }) w ∙ h))
        (if-Accounted c (w.flush || not e.handle_open) _ _
          (fails-Accounted c (spoil (record e { size = e.size + length line }) w) flush_failed
            (spoil-counters (record e { size = e.size + length line }) w ∙ h))
          (if-Accounted c (e.sync && (e.file && w.sync)) _ _
            (inr (sync_failed, refl, ap (λ d. drop_batch d sync_failed) h))
            (inl
              (refl, ap (λ (d : Counters FileError). record d { exported = inc d.exported }) h)))))

or_fail-Accounted :
    (c : Counters FileError) (e : FileExporter) (err : Option FileError)
    (next : FileExporter × Option FileError)
    → e.counters ≡ c
    → Accounted c next
    → Accounted c (elim err [ some x ↦ fails e x | none ↦ next ])
or_fail-Accounted c e none next h k = k
or_fail-Accounted c e (some x) next h k = fails-Accounted c e x h

rotate_and_write-Accounted :
    (c : Counters FileError) (e : FileExporter) (w : Faults) (line : List ℕ)
    → e.counters ≡ c
    → Accounted c (rotate_and_write e w line)
unfolding rotate_and_write
rotate_and_write-Accounted c e w line h =
    if-Accounted c (must_rotate e line) _ _
      (or_fail-Accounted c (rotate e w).0 (rotate e w).1 (write_line (rotate e w).0 w line)
        (rotate-counters e w ∙ h)
        (write_line-Accounted c (rotate e w).0 w line (rotate-counters e w ∙ h)))
      (write_line-Accounted c e w line h)

-- Every export on a context that is not done moves exactly one counter: it reports success and counts
-- the batch as exported, or returns an error, records it and counts the batch as dropped. A cancelled
-- one changes nothing.
pub export_batch-Accounted :
    (e : FileExporter) (batch : Option (List ℕ)) (w : Faults)
    → Accounted e.counters (export_batch e false batch w)
      × (export_batch e true batch w ≡ (e, some cancelled))
unfolding export_batch write_batch
export_batch-Accounted e none w = (fails-Accounted e.counters e encode_failed refl, refl)
export_batch-Accounted e (some line) w = (
  if-Accounted e.counters e.closed _ _ (fails-Accounted e.counters e file_closed refl) (
      or_fail-Accounted e.counters (finish_reopen e w).0 (finish_reopen e w).1
        (rotate_and_write (finish_reopen e w).0 w line) (finish_reopen-counters e w)
        (rotate_and_write-Accounted e.counters (finish_reopen e w).0 w line
          (finish_reopen-counters e w))),
  refl,
)
