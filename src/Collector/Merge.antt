-- ===== src/Collector/Merge.antt =====
-- internal/collector/limits.go, mergeErrors: the global cap on errors[]. A nil section has no errors,
-- no priorities and no flags, so its row of flags is empty.
pub mod Admission
pub mod Totals
use streamsight_agent.Base.{
  ℕ, zero, suc, ◌+◌, ◌-◌, ◌≡◌, Bool, true, false, ◌&&◌, Option, none, some, List, [], ◌∷◌, ◌++◌,
  map, ℤ, pos, negsuc, ltb, ◌==◌, if◌then◌else◌, length, replicate,
}
use streamsight_agent.Collector.Limits.{CollectionError, prio_entity}
use streamsight_agent.Collector.Section.{Section}

abbrev pub prios_of : Option Section → List ℕ
prios_of none = []
prios_of (some s) = s.prios

abbrev pub errs_of : Option Section → List CollectionError
errs_of none = []
errs_of (some s) = s.errs

-- One section in the walk of one priority level; it stops when the budget is used up.
unfoldable pub sweep : ℕ → List ℕ → List Bool → ℕ → List Bool × ℕ
sweep prio [] flags left = (flags, left)
sweep prio (p ∷ ps) [] left = ([], left)
sweep prio (p ∷ ps) (a ∷ flags) zero = (a ∷ flags, zero)
sweep prio (p ∷ ps) (a ∷ flags) (suc left) = elim (p == prio) [
  | true ↦ let r = sweep prio ps flags left in (true ∷ r.0, r.1)
  | false ↦ let r = sweep prio ps flags (suc left) in (a ∷ r.0, r.1)
]

-- All sections at one priority level.
unfoldable pub sweep_sections : ℕ → List (List ℕ) → List (List Bool) → ℕ → List (List Bool) × ℕ
unfolding sweep
sweep_sections prio [] flags left = (flags, left)
sweep_sections prio (ps ∷ rows) [] left = ([], left)
sweep_sections prio (ps ∷ rows) (fs ∷ flags) left =
    let r = sweep prio ps fs left in
    let rest = sweep_sections prio rows flags r.1 in (r.0 ∷ rest.0, rest.1)

-- The levels from `prio` on, `rounds` of them, while any budget is left.
unfoldable pub admit_levels : ℕ → ℕ → List (List ℕ) → List (List Bool) → ℕ → List (List Bool) × ℕ
unfolding sweep_sections
admit_levels zero prio rows flags left = (flags, left)
admit_levels (suc rounds) prio rows flags zero = (flags, zero)
admit_levels (suc rounds) prio rows flags (suc left) =
    let r = sweep_sections prio rows flags (suc left) in admit_levels rounds (suc prio) rows r.0 r.1

abbrev pub total_errors : List (Option Section) → ℕ
total_errors [] = 0
total_errors (s ∷ secs) = length (errs_of s) + total_errors secs

abbrev capped_at : ℤ → ℕ → ℕ
capped_at (pos zero) total = total
capped_at (pos (suc c)) total = if ltb (suc c) total then suc c else total
capped_at (negsuc c) total = total

unfoldable pub budget_of : List (Option Section) → ℤ → ℕ
budget_of secs ceiling = capped_at ceiling (total_errors secs)

-- `make([]bool, n)` for each section.
abbrev pub no_flags : List (List ℕ) → List (List Bool)
no_flags [] = []
no_flags (ps ∷ rows) = replicate (length ps) false ∷ no_flags rows

abbrev pub prio_rows : List (Option Section) → List (List ℕ)
prio_rows [] = []
prio_rows (s ∷ secs) = prios_of s ∷ prio_rows secs

-- The flags that decide which entries survive, one row for each section.
unfoldable pub admitted : List (Option Section) → ℤ → List (List Bool)
unfolding admit_levels budget_of
admitted secs ceiling =
    (admit_levels (suc prio_entity) 0 (prio_rows secs) (no_flags (prio_rows secs))
      (budget_of secs ceiling)).0

-- The entries of one section that survive, and the number of the others.
unfoldable pub emit_admitted : List CollectionError → List Bool → List CollectionError × ℕ
emit_admitted [] flags = ([], 0)
emit_admitted (ce ∷ errs) [] = ([], suc (length errs))
emit_admitted (ce ∷ errs) (true ∷ flags) = let r = emit_admitted errs flags in (ce ∷ r.0, r.1)
emit_admitted (ce ∷ errs) (false ∷ flags) = let r = emit_admitted errs flags in (r.0, suc r.1)

-- The rejections written back onto a section.
unfoldable pub note_rejected : Section → ℕ → Section
note_rejected s zero = s
note_rejected s (suc n) = record s {
  global_dropped = suc n;
  dropped = record s.dropped { errors_dropped = s.dropped.errors_dropped + suc n };
  truncated = true;
}

pub record Merged : Type 0 where
  pub out : List CollectionError
  pub dropped : ℕ
  pub secs : List (Option Section)

unfoldable pub emit_sections : List (Option Section) → List (List Bool) → Merged
unfolding emit_admitted note_rejected
emit_sections [] flags = record { out = []; dropped = 0; secs = [] }
emit_sections (s ∷ secs) [] = record { out = []; dropped = 0; secs = s ∷ secs }
emit_sections (none ∷ secs) (fs ∷ flags) =
    let m = emit_sections secs flags in record m { secs = none ∷ m.secs }
emit_sections (some s ∷ secs) (fs ∷ flags) =
    let r = emit_admitted s.errs fs in
    let m = emit_sections secs flags in
    record {
      out = r.0 ++ m.out;
      dropped = r.1 + m.dropped;
      secs = some (note_rejected s r.1) ∷ m.secs;
    }

unfoldable pub merge_errors : List (Option Section) → ℤ → Merged
unfolding admitted emit_sections
merge_errors secs ceiling = emit_sections secs (admitted secs ceiling)
