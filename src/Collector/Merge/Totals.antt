-- ===== src/Collector/Merge/Totals.antt =====
-- What the merged errors add up to.
use streamsight_agent.Base.{
  ℕ, zero, suc, ◌+◌, ◌-◌, ◌≤◌, ◌<◌, ◌≡◌, refl, ◌∙◌, ap, Bool, true, false, Option, none, some, List,
  [], ◌∷◌, arith, length, length-append, replicate, All, Forall₂, ℤ, pos, negsuc,
}
use streamsight_agent.Collector.Limits.{CollectionError, prio_entity}
use streamsight_agent.Collector.Section.{Section, finish}
use streamsight_agent.Collector.Merge.{
  errs_of, total_errors, budget_of, no_flags, prio_rows, admitted, emit_admitted, note_rejected,
  emit_sections, merge_errors,
}
use streamsight_agent.Collector.Merge.Admission.{
  flag_count, flags_count, RowBefore, RowsBefore, RowCutAt, RowsCutAt, admit_levels-Admits,
}

-- A section as its phase leaves it: the priorities belong to the entries, and no global cap has been
-- applied yet.
abbrev pub SectionReady : Option Section → Type 0
SectionReady none = Unit {0}
SectionReady (some s) =
    (length s.prios ≡ length s.errs) × All (λ p. p ≤ prio_entity) s.prios × (s.global_dropped ≡ 0)

abbrev pub Ready : List (Option Section) → Type 0
Ready = All SectionReady

no_flags-RowBefore : (ps : List ℕ) → RowBefore 0 ps (replicate (length ps) false)
no_flags-RowBefore [] = tt
no_flags-RowBefore (p ∷ ps) = (ground arith, no_flags-RowBefore ps)

no_flags-RowsBefore : (rows : List (List ℕ)) → RowsBefore 0 rows (no_flags rows)
no_flags-RowsBefore [] = tt
no_flags-RowsBefore (ps ∷ rows) = (no_flags-RowBefore ps, no_flags-RowsBefore rows)

flag_count-replicate : (n : ℕ) → flag_count (replicate n false) ≡ 0
flag_count-replicate zero = refl
flag_count-replicate (suc n) = flag_count-replicate n

flags_count-no_flags : (rows : List (List ℕ)) → flags_count (no_flags rows) ≡ 0
flags_count-no_flags [] = refl
flags_count-no_flags (ps ∷ rows) =
    omega (arith, flag_count-replicate (length ps), flags_count-no_flags rows)

admitted-Admits :
    (secs : List (Option Section)) (ceiling : ℤ)
    → ((cut : ℕ) × RowsCutAt cut (prio_rows secs) (admitted secs ceiling))
      × ((left : ℕ) × (flags_count (admitted secs ceiling) + left ≡ budget_of secs ceiling)
          × (0 < left → RowsBefore 6 (prio_rows secs) (admitted secs ceiling)))
unfolding admitted
admitted-Admits secs ceiling =
    let rows = prio_rows secs in
    let (cut, count, complete) =
      admit_levels-Admits 6 0 rows (no_flags rows) (budget_of secs ceiling)
        (no_flags-RowsBefore rows) in
    (cut, (_, omega (arith, count, flags_count-no_flags rows), complete))

-- The errors are admitted in priority order: there is a cut such that every entry of a priority
-- before it is admitted, and no entry of a priority behind it.
pub admitted-RowsCutAt :
    (secs : List (Option Section)) (ceiling : ℤ)
    → (cut : ℕ) × RowsCutAt cut (prio_rows secs) (admitted secs ceiling)
admitted-RowsCutAt secs ceiling = (admitted-Admits secs ceiling).0

flag_count-All :
    (ps : List ℕ) (fs : List Bool)
    → RowBefore 6 ps fs
    → All (λ p. p ≤ prio_entity) ps
    → flag_count fs ≡ length ps
flag_count-All [] [] h r = refl
flag_count-All [] (f ∷ fs) h r = absurd h
flag_count-All (p ∷ ps) [] h r = absurd h
flag_count-All (p ∷ ps) (true ∷ fs) h r = ap suc (flag_count-All ps fs h.1 r.1)
flag_count-All (p ∷ ps) (false ∷ fs) h r = absurd (ground arith)

flags_count-All :
    (secs : List (Option Section)) (flags : List (List Bool))
    → Ready secs
    → RowsBefore 6 (prio_rows secs) flags
    → flags_count flags ≡ total_errors secs
flags_count-All [] [] r h = refl
flags_count-All [] (fs ∷ flags) r h = absurd h
flags_count-All (s ∷ secs) [] r h = absurd h
flags_count-All (none ∷ secs) ([] ∷ flags) r h = omega (arith, flags_count-All secs flags r.1 h.1)
flags_count-All (none ∷ secs) ((f ∷ fs) ∷ flags) r h = absurd h.0
flags_count-All (some s ∷ secs) (fs ∷ flags) r h =
    omega (arith, flag_count-All s.prios fs h.0 r.0.1, r.0.0, flags_count-All secs flags r.1 h.1)

budget_of-le :
    (secs : List (Option Section)) (ceiling : ℤ) → budget_of secs ceiling ≤ total_errors secs
unfolding budget_of
budget_of-le secs (pos zero) = omega arith
budget_of-le secs (pos (suc c)) = ground arith
budget_of-le secs (negsuc c) = omega arith

-- The whole budget is spent.
spent :
    (secs : List (Option Section)) (ceiling : ℤ) (flags : List (List Bool)) (left : ℕ)
    → Ready secs
    → flags_count flags + left ≡ budget_of secs ceiling
    → (0 < left → RowsBefore 6 (prio_rows secs) flags)
    → flags_count flags ≡ budget_of secs ceiling
spent secs ceiling flags zero r count complete = omega arith
spent secs ceiling flags (suc left) r count complete = absurd (
    omega (arith, flags_count-All secs flags r (complete (omega arith)), budget_of-le secs ceiling))

flags_count-admitted :
    (secs : List (Option Section)) (ceiling : ℤ)
    → Ready secs
    → flags_count (admitted secs ceiling) ≡ budget_of secs ceiling
flags_count-admitted secs ceiling r =
    let (_, (left, count, complete)) = admitted-Admits secs ceiling in
    spent secs ceiling (admitted secs ceiling) left r count complete

-- The shape of the flags is that of the sections.
abbrev FlagsFit : List (Option Section) → List (List Bool) → Type 0
FlagsFit = Forall₂ (λ s fs. length fs ≡ length (errs_of s))

length-RowCutAt :
    (cut : ℕ) (ps : List ℕ) (fs : List Bool) → RowCutAt cut ps fs → length fs ≡ length ps
length-RowCutAt cut [] [] h = refl
length-RowCutAt cut [] (f ∷ fs) h = absurd h
length-RowCutAt cut (p ∷ ps) [] h = absurd h
length-RowCutAt cut (p ∷ ps) (f ∷ fs) h = ap suc (length-RowCutAt cut ps fs h.1)

FlagsFit-RowsCutAt :
    (cut : ℕ) (secs : List (Option Section)) (flags : List (List Bool))
    → Ready secs
    → RowsCutAt cut (prio_rows secs) flags
    → FlagsFit secs flags
FlagsFit-RowsCutAt cut [] [] r h = tt
FlagsFit-RowsCutAt cut [] (fs ∷ flags) r h = h
FlagsFit-RowsCutAt cut (s ∷ secs) [] r h = h
FlagsFit-RowsCutAt cut (none ∷ secs) (fs ∷ flags) r h =
    (length-RowCutAt cut [] fs h.0, FlagsFit-RowsCutAt cut secs flags r.1 h.1)
FlagsFit-RowsCutAt cut (some s ∷ secs) (fs ∷ flags) r h =
    (length-RowCutAt cut s.prios fs h.0 ∙ r.0.0, FlagsFit-RowsCutAt cut secs flags r.1 h.1)

emit_admitted-counts :
    (errs : List CollectionError) (fs : List Bool)
    → length fs ≡ length errs
    → (length (emit_admitted errs fs).0 ≡ flag_count fs)
      × (length (emit_admitted errs fs).0 + (emit_admitted errs fs).1 ≡ length errs)
unfolding emit_admitted
emit_admitted-counts [] [] h = (refl, refl)
emit_admitted-counts [] (f ∷ fs) h = absurd (omega arith)
emit_admitted-counts (e ∷ errs) [] h = absurd (omega arith)
emit_admitted-counts (e ∷ errs) (true ∷ fs) h =
    omega (arith, emit_admitted-counts errs fs (omega arith))
emit_admitted-counts (e ∷ errs) (false ∷ fs) h =
    omega (arith, emit_admitted-counts errs fs (omega arith))

emit_sections-counts :
    (secs : List (Option Section)) (flags : List (List Bool))
    → FlagsFit secs flags
    → let m = emit_sections secs flags in
      (length m.out ≡ flags_count flags) × (length m.out + m.dropped ≡ total_errors secs)
unfolding emit_sections
emit_sections-counts [] [] h = (refl, refl)
emit_sections-counts [] (fs ∷ flags) h = absurd h
emit_sections-counts (s ∷ secs) [] h = absurd h
emit_sections-counts (none ∷ secs) ([] ∷ flags) h =
    omega (arith, emit_sections-counts secs flags h.1)
emit_sections-counts (none ∷ secs) ((f ∷ fs) ∷ flags) h = absurd (omega arith)
emit_sections-counts (some s ∷ secs) (fs ∷ flags) h =
    let r = emit_admitted s.errs fs in
    omega (
      arith,
      emit_sections-counts secs flags h.1,
      emit_admitted-counts s.errs fs h.0,
      length-append r.0 (emit_sections secs flags).out,
    )

-- On sections as their phases leave them the global cap is used up exactly: as many errors are
-- merged as the budget allows, and every other error is counted as dropped.
pub length-merge_errors :
    (secs : List (Option Section)) (ceiling : ℤ)
    → Ready secs
    → (length (merge_errors secs ceiling).out ≡ budget_of secs ceiling)
      × (length (merge_errors secs ceiling).out + (merge_errors secs ceiling).dropped
          ≡ total_errors secs)
unfolding merge_errors
length-merge_errors secs ceiling r =
    let (cut, h) = admitted-RowsCutAt secs ceiling in
    let counts =
      emit_sections-counts secs (admitted secs ceiling)
        (FlagsFit-RowsCutAt cut secs (admitted secs ceiling) r h) in
    (counts.0 ∙ flags_count-admitted secs ceiling r, counts.1)

-- The error counts that the sections report on the wire.
abbrev pub error_counts : List (Option Section) → ℕ
error_counts [] = 0
error_counts (none ∷ secs) = error_counts secs
error_counts (some s ∷ secs) = (finish s).error_count + error_counts secs

note_rejected-error_count :
    (s : Section) (n : ℕ)
    → s.global_dropped ≡ 0
    → (finish (note_rejected s n)).error_count ≡ length s.errs - n
unfolding finish note_rejected
note_rejected-error_count s zero h = ground arith
note_rejected-error_count s (suc n) h = refl

emit_sections-error_counts :
    (secs : List (Option Section)) (flags : List (List Bool))
    → Ready secs
    → FlagsFit secs flags
    → error_counts (emit_sections secs flags).secs ≡ length (emit_sections secs flags).out
unfolding emit_sections
emit_sections-error_counts [] [] r h = refl
emit_sections-error_counts [] (fs ∷ flags) r h = absurd h
emit_sections-error_counts (s ∷ secs) [] r h = absurd h
emit_sections-error_counts (none ∷ secs) (fs ∷ flags) r h =
    emit_sections-error_counts secs flags r.1 h.1
emit_sections-error_counts (some s ∷ secs) (fs ∷ flags) r h =
    let e = emit_admitted s.errs fs in
    omega (
      arith,
      emit_sections-error_counts secs flags r.1 h.1,
      emit_admitted-counts s.errs fs h.0,
      note_rejected-error_count s e.1 r.0.2,
      length-append e.0 (emit_sections secs flags).out,
    )

-- On sections as their phases leave them, the sections' error counts on the wire add up to the
-- number of errors in the batch.
pub merge_errors-error_counts :
    (secs : List (Option Section)) (ceiling : ℤ)
    → Ready secs
    → error_counts (merge_errors secs ceiling).secs ≡ length (merge_errors secs ceiling).out
unfolding merge_errors
merge_errors-error_counts secs ceiling r =
    let (cut, h) = admitted-RowsCutAt secs ceiling in
    emit_sections-error_counts secs (admitted secs ceiling) r
      (FlagsFit-RowsCutAt cut secs (admitted secs ceiling) r h)
