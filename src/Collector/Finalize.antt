-- ===== src/Collector/Finalize.antt =====
-- internal/collector/collector.go: the last step of a cycle, from the finished sections to the blocks of
-- the batch that report on them. A section that is missing is `none`, as in Merge.
use streamsight_agent.Base.{
  ℕ, ◌+◌, ◌==◌, suc, ◌≤◌, ◌≡◌, ◌∙◌, refl, ap, Bool, false, ◌&&◌, Option, none, some, List, [], ◌∷◌,
  if◌then◌else◌, length, arith, Bool-cases, inl, inr,
}
use streamsight_agent.Collector.Limits.{CollectionError}
use streamsight_agent.Collector.Section.{Section, skipped, Truncation, WireSection, finish}
use streamsight_agent.Collector.Merge.{merge_errors, emit_sections, admitted}
use streamsight_agent.Collector.Merge.Totals.{Ready, error_counts, merge_errors-error_counts}
use streamsight_agent.Collector.Options.{Options, Selection, selection}

-- `Truncation.Add`.
unfoldable pub add_truncation : Truncation → Truncation → Truncation
add_truncation t o = record {
  errors_collapsed = t.errors_collapsed + o.errors_collapsed;
  errors_dropped = t.errors_dropped + o.errors_dropped;
}

abbrev pub no_truncation : Truncation
no_truncation = record { errors_collapsed = 0; errors_dropped = 0 }

-- The wire form of a section that is missing: the zero value, as skipped.
abbrev pub missing : WireSection
missing = record {
  name = "";
  status = skipped;
  sampled_at = 0;
  duration_ms = 0;
  error_count = 0;
  errors_collapsed = 0;
  errors_dropped = 0;
  truncated = false;
}

-- The loop of `finalize` over the sections: their wire form, and what they lost in all.
unfoldable pub finish_all : List (Option Section) → Truncation → List WireSection × Truncation
unfolding finish add_truncation
finish_all [] trunc = ([], trunc)
finish_all (none ∷ secs) trunc = let (rows, t) = finish_all secs trunc in (missing ∷ rows, t)
finish_all (some s ∷ secs) trunc =
    let (rows, t) = finish_all secs (add_truncation trunc s.dropped) in (finish s ∷ rows, t)

-- The blocks of a batch that `finalize` fills.
pub record Report : Type 0 where
  pub errors : List CollectionError
  pub sections : List WireSection
  pub truncation : Option Truncation
  pub selection : Option Selection

-- A batch that lost nothing carries no truncation.
abbrev pub truncation_block : Truncation → Option Truncation
truncation_block t = if t.errors_collapsed == 0 && t.errors_dropped == 0 then none else some t

unfoldable pub finalize : Options → List (Option Section) → Report
unfolding merge_errors finish_all selection
finalize o secs =
    let merged = merge_errors secs o.limits.max_errors in
    let (rows, trunc) = finish_all merged.secs no_truncation in
    record {
      errors = merged.out;
      sections = rows;
      truncation = truncation_block trunc;
      selection = selection o;
    }

-- What the sections of a batch say they lost, and the errors that they say they have.
abbrev pub said_collapsed : List WireSection → ℕ
said_collapsed [] = 0
said_collapsed (r ∷ rows) = r.errors_collapsed + said_collapsed rows

abbrev pub said_dropped : List WireSection → ℕ
said_dropped [] = 0
said_dropped (r ∷ rows) = r.errors_dropped + said_dropped rows

abbrev pub said_errors : List WireSection → ℕ
said_errors [] = 0
said_errors (r ∷ rows) = r.error_count + said_errors rows

finish_all-sums :
    (secs : List (Option Section)) (t : Truncation)
    → let (rows, lost) = finish_all secs t in
      (lost.errors_collapsed ≡ t.errors_collapsed + said_collapsed rows)
      × (lost.errors_dropped ≡ t.errors_dropped + said_dropped rows)
      × (said_errors rows ≡ error_counts secs)
      × (length rows ≡ length secs)
unfolding finish_all add_truncation finish
finish_all-sums [] t = (omega arith, omega arith, refl, refl)
finish_all-sums (none ∷ secs) t =
    let (c, d, e, l) = finish_all-sums secs t in
    (omega (arith, c), omega (arith, d), omega (arith, e), ap suc l)
finish_all-sums (some s ∷ secs) t =
    let (c, d, e, l) = finish_all-sums secs (add_truncation t s.dropped) in
    (omega (arith, c), omega (arith, d), ap (λ n. (finish s).error_count + n) e, ap suc l)

-- The truncation block against the sections: it is absent exactly when no section lost anything, and it
-- carries the sums.
abbrev pub Tells : Option Truncation → List WireSection → Type 0
Tells none rows = (said_collapsed rows ≡ 0) × (said_dropped rows ≡ 0)
Tells (some t) rows =
    (t.errors_collapsed ≡ said_collapsed rows)
    × (t.errors_dropped ≡ said_dropped rows)
    × (1 ≤ said_collapsed rows + said_dropped rows)

truncation_block-Tells :
    (t : Truncation) (rows : List WireSection)
    → t.errors_collapsed ≡ said_collapsed rows
    → t.errors_dropped ≡ said_dropped rows
    → Tells (truncation_block t) rows
truncation_block-Tells t rows c d =
    elim (Bool-cases (t.errors_collapsed == 0 && t.errors_dropped == 0)) [
      | inl e ↦ rw e (ground (arith, c, d, e), ground (arith, c, d, e))
      | inr e ↦ rw e (c, d, ground (arith, c, d, e))
    ]

length-emit_sections :
    (secs : List (Option Section)) (flags : List (List Bool))
    → length (emit_sections secs flags).secs ≡ length secs
unfolding emit_sections
length-emit_sections [] flags = refl
length-emit_sections (s ∷ secs) [] = refl
length-emit_sections (none ∷ secs) (fs ∷ flags) = ap suc (length-emit_sections secs flags)
length-emit_sections (some s ∷ secs) (fs ∷ flags) = ap suc (length-emit_sections secs flags)

-- The report of a cycle whose sections are as their phases leave them agrees with itself: every section
-- has its row, the rows' error counts add up to the errors in the batch, and the truncation block is
-- absent exactly when no row says that an error was collapsed or dropped, and has their sums otherwise.
pub finalize-Tells :
    (o : Options) (secs : List (Option Section))
    → Ready secs
    → let r = finalize o secs in
      (length r.sections ≡ length secs)
      × (said_errors r.sections ≡ length r.errors)
      × Tells r.truncation r.sections
unfolding finalize merge_errors
finalize-Tells o secs ready =
    let merged = merge_errors secs o.limits.max_errors in
    let rows = finish_all merged.secs no_truncation in
    let (c, d, e, l) = finish_all-sums merged.secs no_truncation in
    (
      l ∙ length-emit_sections secs (admitted secs o.limits.max_errors),
      e ∙ merge_errors-error_counts secs o.limits.max_errors ready,
      truncation_block-Tells rows.1 rows.0 (omega (arith, c)) (omega (arith, d)),
    )
