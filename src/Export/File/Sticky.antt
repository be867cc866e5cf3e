-- ===== src/Export/File/Sticky.antt =====
-- A failed write is never recovered from: the buffered writer keeps its error, `rotate` flushes before
-- it reopens, and only a reopen resets the writer.
use streamsight_agent.Base.{
  ℕ, ◌≡◌, refl, sym, ◌∙◌, Bool, true, false, Option, none, some, List, [], ◌∷◌, arith, Bool-cases,
  inl, inr, subst,
}
use streamsight_agent.Export.Counters.{drop_batch, record_err}
use streamsight_agent.Export.File.{
  FileError, Faults, FileExporter, flush_and_close, rotate, write_line, must_rotate,
  rotate_and_write, finish_reopen, write_batch, export_batch, fails, flush_failed, write_failed,
  encode_failed, file_closed,
}

-- The writer holds an error, and no rotation is waiting for its reopen.
abbrev pub IsStuck : FileExporter → Type 0
IsStuck e = (e.write_err ≡ true) × (e.needs_reopen ≡ false)

-- Nothing is exported and the exporter stays stuck.
abbrev Stays : FileExporter → FileExporter → Type 0
Stays e e' = (e'.counters.exported ≡ e.counters.exported) × IsStuck e'

rotate_stuck : (e : FileExporter) (w : Faults) → IsStuck e → rotate e w ≡ (e, some flush_failed)
unfolding rotate flush_and_close
rotate_stuck e w v = rw (v.0) refl

write_line_stuck :
    (e : FileExporter) (w : Faults) (line : List ℕ)
    → IsStuck e
    → write_line e w line ≡ fails e write_failed
unfolding write_line
write_line_stuck e w line v = ground arith

finish_reopen_stuck : (e : FileExporter) (w : Faults) → IsStuck e → finish_reopen e w ≡ (e, none)
unfolding finish_reopen
finish_reopen_stuck e w v = ground arith

fails-Stays : (e : FileExporter) (x : FileError) → IsStuck e → Stays e (fails e x).0
unfolding drop_batch record_err
fails-Stays e x v = (refl, v)

rotate-fails :
    (e : FileExporter) (w : Faults) (line : List ℕ) (x : FileError)
    → must_rotate e line ≡ true
    → rotate e w ≡ (e, some x)
    → rotate_and_write e w line ≡ fails e x
unfolding rotate_and_write
rotate-fails e w line x must failed = rw must (
    subst
      (λ (r : FileExporter × Option FileError).
        (elim r.1 [ some y ↦ fails r.0 y | none ↦ write_line r.0 w line ]) ≡ fails e x)
      (sym failed) refl)

write_only :
    (e : FileExporter) (w : Faults) (line : List ℕ)
    → must_rotate e line ≡ false
    → rotate_and_write e w line ≡ write_line e w line
unfolding rotate_and_write
write_only e w line fits = rw fits refl

rotate_and_write_stuck :
    (e : FileExporter) (w : Faults) (line : List ℕ)
    → IsStuck e
    → (x : FileError) × (rotate_and_write e w line ≡ fails e x)
rotate_and_write_stuck e w line v = elim (Bool-cases (must_rotate e line)) [
  | inl must ↦ (flush_failed, rotate-fails e w line flush_failed must (rotate_stuck e w v))
  | inr fits ↦ (write_failed, write_only e w line fits ∙ write_line_stuck e w line v)
]

export_closed :
    (e : FileExporter) (line : List ℕ) (w : Faults)
    → e.closed ≡ true
    → export_batch e false (some line) w ≡ fails e file_closed
unfolding export_batch
export_closed e line w c = ground arith

export_open :
    (e : FileExporter) (line : List ℕ) (w : Faults)
    → e.closed ≡ false
    → finish_reopen e w ≡ (e, none)
    → export_batch e false (some line) w ≡ rotate_and_write e w line
unfolding export_batch write_batch
export_open e line w o h = ground arith

export_batch-Stays :
    (e : FileExporter) (ctx_done : Bool) (batch : Option (List ℕ)) (w : Faults)
    → IsStuck e
    → Stays e (export_batch e ctx_done batch w).0
unfolding export_batch write_batch
export_batch-Stays e true batch w v = (refl, v)
export_batch-Stays e false none w v = fails-Stays e encode_failed v
export_batch-Stays e false (some line) w v =
    let (x, failed) = rotate_and_write_stuck e w line v in
    elim (Bool-cases e.closed) [
      | inl c ↦
          subst (λ (r : FileExporter × Option FileError). Stays e r.0)
            (sym (export_closed e line w c)) (fails-Stays e file_closed v)
      | inr o ↦
          subst (λ (r : FileExporter × Option FileError). Stays e r.0)
            (sym (export_open e line w o (finish_reopen_stuck e w v) ∙ failed)) (fails-Stays e x v)
    ]

-- A sequence of exports, each with its own context, line and faults.
abbrev Call : Type 0
Call = Bool × Option (List ℕ) × Faults

pub export_all : FileExporter → List Call → FileExporter
export_all e [] = e
export_all e ((ctx_done, batch, w) ∷ calls) = export_all (export_batch e ctx_done batch w).0 calls

-- Once the buffered writer holds an error and no rotation waits for its reopen, no later export of
-- the process ever succeeds, however healthy the file system is by then: the number of exported
-- batches stays the same over every sequence of exports.
pub export_all_stuck :
    (e : FileExporter) (calls : List Call)
    → IsStuck e
    → (export_all e calls).counters.exported ≡ e.counters.exported
unfolding export_all
export_all_stuck e [] v = refl
export_all_stuck e ((ctx_done, batch, w) ∷ calls) v =
    let (same, v') = export_batch-Stays e ctx_done batch w v in
    export_all_stuck (export_batch e ctx_done batch w).0 calls v' ∙ same
