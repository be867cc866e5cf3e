-- ===== src/Collector/Merge/Admission.antt =====
-- Which entries the global cap admits.
use streamsight_agent.Base.{
  ℕ, zero, suc, ◌+◌, ◌≤◌, ◌<◌, ◌≡◌, refl, Bool, true, false, List, [], ◌∷◌, arith, Forall₂,
  zero-add, subst, ◌∙◌,
}
use streamsight_agent.Collector.Merge.{sweep, sweep_sections, admit_levels}

abbrev pub flag_count : List Bool → ℕ
flag_count [] = 0
flag_count (true ∷ fs) = suc (flag_count fs)
flag_count (false ∷ fs) = flag_count fs

abbrev pub flags_count : List (List Bool) → ℕ
flags_count [] = 0
flags_count (fs ∷ rows) = flag_count fs + flags_count rows

-- An entry is admitted exactly if its priority stands before `q`.
abbrev pub Before : ℕ → ℕ → Bool → Type 0
Before q p a = (p < q → a ≡ true) × (a ≡ true → p < q)

-- Everything that stands before the cut `q` is admitted, and nothing that stands behind it.
abbrev pub CutAt : ℕ → ℕ → Bool → Type 0
CutAt q p a = (p < q → a ≡ true) × (a ≡ true → p ≤ q)

abbrev pub RowBefore : ℕ → List ℕ → List Bool → Type 0
RowBefore q = Forall₂ (Before q)

abbrev pub RowCutAt : ℕ → List ℕ → List Bool → Type 0
RowCutAt q = Forall₂ (CutAt q)

RowBefore-RowCutAt : (q : ℕ) (ps : List ℕ) (fs : List Bool) → RowBefore q ps fs → RowCutAt q ps fs
RowBefore-RowCutAt q [] [] h = tt
RowBefore-RowCutAt q [] (f ∷ fs) h = h
RowBefore-RowCutAt q (p ∷ ps) [] h = h
RowBefore-RowCutAt q (p ∷ ps) (f ∷ fs) h = (ground arith, RowBefore-RowCutAt q ps fs h.1)

sweep-le : (q : ℕ) (ps : List ℕ) (fs : List Bool) (left : ℕ) → (sweep q ps fs left).1 ≤ left
unfolding sweep
sweep-le q [] fs left = omega arith
sweep-le q (p ∷ ps) [] left = omega arith
sweep-le q (p ∷ ps) (f ∷ fs) zero = omega arith
sweep-le q (p ∷ ps) (f ∷ fs) (suc left) =
    ground (arith, sweep-le q ps fs left, sweep-le q ps fs (suc left))

sweep-RowCutAt :
    (q : ℕ) (ps : List ℕ) (fs : List Bool) (left : ℕ)
    → RowBefore q ps fs
    → RowCutAt q ps (sweep q ps fs left).0
unfolding sweep
sweep-RowCutAt q [] fs left h = RowBefore-RowCutAt q [] fs h
sweep-RowCutAt q (p ∷ ps) [] left h = h
sweep-RowCutAt q (p ∷ ps) (f ∷ fs) zero h = RowBefore-RowCutAt q (p ∷ ps) (f ∷ fs) h
sweep-RowCutAt q (p ∷ ps) (f ∷ fs) (suc left) h =
    ground (arith, sweep-RowCutAt q ps fs left h.1, sweep-RowCutAt q ps fs (suc left) h.1)

sweep-RowBefore :
    (q : ℕ) (ps : List ℕ) (fs : List Bool) (left : ℕ)
    → RowBefore q ps fs
    → 0 < (sweep q ps fs left).1
    → RowBefore (suc q) ps (sweep q ps fs left).0
unfolding sweep
sweep-RowBefore q [] [] left h m = tt
sweep-RowBefore q [] (f ∷ fs) left h m = h
sweep-RowBefore q (p ∷ ps) [] left h m = h
sweep-RowBefore q (p ∷ ps) (f ∷ fs) zero h m = absurd (omega arith)
sweep-RowBefore q (p ∷ ps) (f ∷ fs) (suc left) h m =
    ground (arith, sweep-RowBefore q ps fs left h.1, sweep-RowBefore q ps fs (suc left) h.1)

sweep-count :
    (q : ℕ) (ps : List ℕ) (fs : List Bool) (left : ℕ)
    → RowBefore q ps fs
    → flag_count (sweep q ps fs left).0 + (sweep q ps fs left).1 ≡ flag_count fs + left
unfolding sweep
sweep-count q [] fs left h = refl
sweep-count q (p ∷ ps) [] left h = refl
sweep-count q (p ∷ ps) (f ∷ fs) zero h = refl
sweep-count q (p ∷ ps) (true ∷ fs) (suc left) h = ground (arith, sweep-count q ps fs (suc left) h.1)
sweep-count q (p ∷ ps) (false ∷ fs) (suc left) h =
    ground (arith, sweep-count q ps fs left h.1, sweep-count q ps fs (suc left) h.1)

abbrev pub RowsBefore : ℕ → List (List ℕ) → List (List Bool) → Type 0
RowsBefore q = Forall₂ (RowBefore q)

abbrev pub RowsCutAt : ℕ → List (List ℕ) → List (List Bool) → Type 0
RowsCutAt q = Forall₂ (RowCutAt q)

RowsBefore-RowsCutAt :
    (q : ℕ) (rows : List (List ℕ)) (flags : List (List Bool))
    → RowsBefore q rows flags
    → RowsCutAt q rows flags
RowsBefore-RowsCutAt q [] [] h = tt
RowsBefore-RowsCutAt q [] (f ∷ fs) h = h
RowsBefore-RowsCutAt q (p ∷ ps) [] h = h
RowsBefore-RowsCutAt q (p ∷ ps) (f ∷ fs) h =
    (RowBefore-RowCutAt q p f h.0, RowsBefore-RowsCutAt q ps fs h.1)

sweep_sections-le :
    (q : ℕ) (rows : List (List ℕ)) (flags : List (List Bool)) (left : ℕ)
    → (sweep_sections q rows flags left).1 ≤ left
unfolding sweep_sections
sweep_sections-le q [] flags left = omega arith
sweep_sections-le q (ps ∷ rows) [] left = omega arith
sweep_sections-le q (ps ∷ rows) (fs ∷ flags) left =
    omega (arith, sweep-le q ps fs left, sweep_sections-le q rows flags (sweep q ps fs left).1)

sweep_sections-RowsCutAt :
    (q : ℕ) (rows : List (List ℕ)) (flags : List (List Bool)) (left : ℕ)
    → RowsBefore q rows flags
    → RowsCutAt q rows (sweep_sections q rows flags left).0
unfolding sweep_sections
sweep_sections-RowsCutAt q [] flags left h = RowsBefore-RowsCutAt q [] flags h
sweep_sections-RowsCutAt q (ps ∷ rows) [] left h = h
sweep_sections-RowsCutAt q (ps ∷ rows) (fs ∷ flags) left h = (
  sweep-RowCutAt q ps fs left h.0,
  sweep_sections-RowsCutAt q rows flags (sweep q ps fs left).1 h.1,
)

sweep_sections-RowsBefore :
    (q : ℕ) (rows : List (List ℕ)) (flags : List (List Bool)) (left : ℕ)
    → RowsBefore q rows flags
    → 0 < (sweep_sections q rows flags left).1
    → RowsBefore (suc q) rows (sweep_sections q rows flags left).0
unfolding sweep_sections
sweep_sections-RowsBefore q [] [] left h m = tt
sweep_sections-RowsBefore q [] (f ∷ flags) left h m = h
sweep_sections-RowsBefore q (ps ∷ rows) [] left h m = h
sweep_sections-RowsBefore q (ps ∷ rows) (fs ∷ flags) left h m = (
  sweep-RowBefore q ps fs left h.0
      (omega (arith, sweep_sections-le q rows flags (sweep q ps fs left).1)),
  sweep_sections-RowsBefore q rows flags (sweep q ps fs left).1 h.1 m,
)

sweep_sections-count :
    (q : ℕ) (rows : List (List ℕ)) (flags : List (List Bool)) (left : ℕ)
    → RowsBefore q rows flags
    → let r = sweep_sections q rows flags left in flags_count r.0 + r.1 ≡ flags_count flags + left
unfolding sweep_sections
sweep_sections-count q [] flags left h = refl
sweep_sections-count q (ps ∷ rows) [] left h = refl
sweep_sections-count q (ps ∷ rows) (fs ∷ flags) left h = omega (
  arith,
  sweep-count q ps fs left h.0,
  sweep_sections-count q rows flags (sweep q ps fs left).1 h.1,
)

-- What the walk over the levels from `q` on has admitted: some cut decides every entry, each unit of
-- budget is an entry or left over, and if any is left over then all the levels are complete.
abbrev pub Admits : ℕ → ℕ → List (List ℕ) → ℕ → List (List Bool) × ℕ → Type 0
Admits rounds q rows start r =
    ((cut : ℕ) × RowsCutAt cut rows r.0)
    × (flags_count r.0 + r.1 ≡ start)
    × (0 < r.1 → RowsBefore (rounds + q) rows r.0)

admit_levels-zero :
    (rounds q : ℕ) (rows : List (List ℕ)) (flags : List (List Bool))
    → admit_levels rounds q rows flags 0 ≡ (flags, 0)
unfolding admit_levels
admit_levels-zero zero q rows flags = refl
admit_levels-zero (suc rounds) q rows flags = refl

-- The levels after the first, given what the first has left.
later_levels :
    (rounds q : ℕ) (rows : List (List ℕ)) (flags : List (List Bool)) (left start : ℕ)
    → RowsCutAt q rows flags
    → (0 < left → RowsBefore (suc q) rows flags)
    → flags_count flags + left ≡ start
    → (RowsBefore (suc q) rows flags
        → Admits rounds
            (suc q)
            rows
            (flags_count flags + left)
            (admit_levels rounds (suc q) rows flags left))
    → Admits (suc rounds) q rows start (admit_levels rounds (suc q) rows flags left)
later_levels rounds q rows flags zero start cut before sum rest =
    rw (admit_levels-zero rounds (suc q) rows flags) ((q, cut), sum, λ m. absurd (omega arith))
later_levels rounds q rows flags (suc left) start cut before sum rest =
    let (decided, count, complete) = rest (before (omega arith)) in
    (
      decided,
      count ∙ sum,
      λ m.
          subst (λ n. RowsBefore n rows (admit_levels rounds (suc q) rows flags (suc left)).0)
            (omega arith) (complete m),
    )

pub admit_levels-Admits :
    (rounds q : ℕ) (rows : List (List ℕ)) (flags : List (List Bool)) (left : ℕ)
    → RowsBefore q rows flags
    → Admits rounds q rows (flags_count flags + left) (admit_levels rounds q rows flags left)
unfolding admit_levels
admit_levels-Admits zero q rows flags left h =
    ((q, RowsBefore-RowsCutAt q rows flags h), refl, λ m. rw zero-add h)
admit_levels-Admits (suc rounds) q rows flags zero h =
    ((q, RowsBefore-RowsCutAt q rows flags h), refl, λ m. absurd (omega arith))
admit_levels-Admits (suc rounds) q rows flags (suc left) h =
    let r = sweep_sections q rows flags (suc left) in
    later_levels rounds q rows r.0 r.1 _ (sweep_sections-RowsCutAt q rows flags (suc left) h)
      (sweep_sections-RowsBefore q rows flags (suc left) h)
      (sweep_sections-count q rows flags (suc left) h)
      (admit_levels-Admits rounds (suc q) rows r.0 r.1)
