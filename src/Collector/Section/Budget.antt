-- ===== src/Collector/Section/Budget.antt =====
-- Which errors survive the cap of one section, and that none is lost without a trace.
use streamsight_agent.Base.{
  ℕ, ◌+◌, ◌-◌, ◌≤◌, ◌≡◌, ◌≢◌, refl, ◌⊎◌, inl, inr, Bool, true, false, Option, none, some, List, [],
  ◌∷◌, ◌++◌, arith, length, get_elem?, lookup, length-append, length-set, Option-cases, Bool-cases,
  sym, subst, if◌then◌else◌, ltb, ◌==◌,
}
use streamsight_agent.Collector.Limits.{
  other, CollectionError, ErrKey, key_of, key_eq, prio_entity, per_section_error_budget,
}
use streamsight_agent.Collector.Section.{
  SectionStatus, status_rank, Section, Bucket, downgrade, partial, record_error, admit, new_key,
  known_key, repeat_key, folded, emit, set_count,
}
use streamsight_agent.Collector.Section.Counts.{
  Counted, FitsAt, total_weight, record_error-Counted, plain_entity,
}

length-set_count :
    (errs : List CollectionError) (i n : ℕ) → length (set_count errs i n) ≡ length errs
unfolding set_count
length-set_count errs i n = elim (Option-cases (get_elem? errs i)) [
  | inl e ↦ rw (e, set_count)
  | inr (ce, e) ↦ rw (e, set_count) (length-set errs i (record ce { count = n }))
]

-- What recording under a key did: one more occurrence is counted, or an error of the kind "other" was
-- refused, which is counted as dropped the first time and remembered by the key afterwards.
abbrev pub Outcome : Section → Section → ErrKey → Type 0
Outcome s s' k =
    (length s'.errs + s'.dropped.errors_collapsed ≡ length s.errs + s.dropped.errors_collapsed + 1)
    ⊎ ((k.kind ≡ other)
        × (s'.errs ≡ s.errs)
        × ((s'.dropped.errors_dropped ≡ s.dropped.errors_dropped + 1)
            ⊎ ((b : Bucket) × (lookup k s.keys ≡ some b) × (b.rep_idx ≡ none))))

new_key-Outcome :
    (s : Section) (ce : CollectionError) (prio : ℕ) (k : ErrKey)
    → (prio ≡ prio_entity → k.kind ≡ other)
    → Outcome s (new_key s ce prio k) k
unfolding new_key emit
new_key-Outcome s ce prio k plain = ground (arith, length-append s.errs (ce ∷ []))

repeat_key-counts :
    (s : Section) (ce : CollectionError) (prio : ℕ) (k : ErrKey) (b : Bucket) (i : ℕ)
    → let s' = repeat_key s ce prio k b i in
      length s'.errs + s'.dropped.errors_collapsed ≡ length s.errs + s.dropped.errors_collapsed + 1
unfolding repeat_key emit folded
repeat_key-counts s ce prio k b i =
    ground
      (arith, length-append s.errs (ce ∷ []), length-set_count s.errs i (b.seen - (b.samples - 1)))

known_rep-Outcome :
    (s : Section) (ce : CollectionError) (prio : ℕ) (k : ErrKey) (b : Bucket) (rep : Option ℕ)
    → lookup k s.keys ≡ some b
    → b.rep_idx ≡ rep
    → FitsAt s.errs k rep b.samples b.seen
    → Outcome s (known_key s ce prio k b) k
unfolding known_key
known_rep-Outcome s ce prio k b none old rep f =
    rw (rep, known_key) (inr (f, refl, inr (b, old, rep)))
known_rep-Outcome s ce prio k b (some i) old rep f =
    rw (rep, known_key) (inl (repeat_key-counts s ce prio k _ i))

pub admit-new :
    (s : Section) (ce : CollectionError) (prio : ℕ) (k : ErrKey)
    → lookup k s.keys ≡ none
    → admit s ce prio k ≡ new_key s ce prio k
unfolding admit
admit-new s ce prio k e = rw (e, admit)

pub admit-known :
    (s : Section) (ce : CollectionError) (prio : ℕ) (k : ErrKey) (b : Bucket)
    → lookup k s.keys ≡ some b
    → admit s ce prio k ≡ known_key s ce prio k b
unfolding admit
admit-known s ce prio k b e = rw (e, admit)

admit-Outcome :
    (s : Section) (ce : CollectionError) (prio : ℕ) (k : ErrKey)
    → (prio ≡ prio_entity → k.kind ≡ other)
    → Counted s
    → Outcome s (admit s ce prio k) k
admit-Outcome s ce prio k plain v = elim (Option-cases (lookup k s.keys)) [
  | inl new ↦
      subst (λ s'. Outcome s s' k) (sym (admit-new s ce prio k new))
        (new_key-Outcome s ce prio k plain)
  | inr (b, old) ↦
      subst (λ s'. Outcome s s' k) (sym (admit-known s ce prio k b old))
        (known_rep-Outcome s ce prio k b b.rep_idx old refl (v.fits k b old))
]

-- `downgrade` changes the status only.
downgrade_lem :
    (s : Section) (status : SectionStatus)
    → (st : SectionStatus) × (downgrade s status ≡ record s { status = st })
unfolding downgrade
downgrade_lem s status = elim (Bool-cases (ltb (status_rank s.status) (status_rank status))) [
  | inl worse ↦ (status, rw worse)
  | inr kept ↦ (s.status, rw kept)
]

-- In a section whose counts are sound every error that is recorded leaves a trace: one more
-- occurrence in the entries or the collapsed number, or else it is of the kind "other", the entries
-- stay as they are, and either the dropped number grows by one or its key was refused before.
pub record_error-Outcome :
    (s : Section) (ce : CollectionError) (request_scoped : Bool)
    → Counted s
    → Outcome s (record_error s ce request_scoped) (key_of ce)
unfolding record_error
record_error-Outcome s ce true v = admit-Outcome s ce _ (key_of ce) (plain_entity ce true) v
record_error-Outcome s ce false v =
    let (st, e) = downgrade_lem s partial in
    rw e (
      admit-Outcome (record s { status = st }) ce _ (key_of ce) (plain_entity ce false)
        (record { parallel = v.parallel; weights = v.weights; fits = v.fits }))

-- In a section whose counts are sound no cap loses an error of any kind but "other", such as an
-- authorization failure, when the error has no count of its own: the occurrences that the entries
-- stand for, summed over their counts, grow by exactly one.
record_error-total_weight :
    (s : Section) (ce : CollectionError) (request_scoped : Bool)
    → Counted s
    → ce.count ≡ 0
    → ce.kind ≢ other
    → total_weight (record_error s ce request_scoped).errs ≡ total_weight s.errs + 1
record_error-total_weight s ce request_scoped v one special =
    elim (record_error-Outcome s ce request_scoped v) [
      | inl grown ↦
          omega (arith, grown, v.weights, (record_error-Counted s ce request_scoped one v).weights)
      | inr (plain, _, _) ↦ absurd (special (unfold key_of in plain))
    ]

-- The entries of the lowest priority.
abbrev pub entity_count : List ℕ → ℕ
entity_count [] = 0
entity_count (p ∷ ps) = (if p == prio_entity then 1 else 0) + entity_count ps

entity_count-append :
    (ps : List ℕ) (p : ℕ)
    → entity_count (ps ++ p ∷ []) ≡ entity_count ps + (if p == prio_entity then 1 else 0)
entity_count-append [] p = omega arith
entity_count-append (q ∷ ps) p = omega (arith, entity_count-append ps p)

entity_count-le-length : (ps : List ℕ) → entity_count ps ≤ length ps
entity_count-le-length [] = omega arith
entity_count-le-length (p ∷ ps) = ground (arith, entity_count-le-length ps)

abbrev pub WithinBudget : Section → Type 0
WithinBudget s = entity_count s.prios ≤ per_section_error_budget s.lim

module _ (s : Section) (ce : CollectionError) (prio : ℕ) (k : ErrKey)
    (parallel : length s.prios ≡ length s.errs) (w : WithinBudget s) where
  new_key-WithinBudget : WithinBudget (new_key s ce prio k)
  unfolding new_key emit
  new_key-WithinBudget =
      ground (arith, entity_count-append s.prios prio, entity_count-le-length s.prios)

  repeat_key-WithinBudget : (b : Bucket) (i : ℕ) → WithinBudget (repeat_key s ce prio k b i)
  unfolding repeat_key emit folded
  repeat_key-WithinBudget b i =
      ground (arith, entity_count-append s.prios prio, entity_count-le-length s.prios)

  known_rep-WithinBudget :
      (b : Bucket) (rep : Option ℕ) → b.rep_idx ≡ rep → WithinBudget (known_key s ce prio k b)
  unfolding known_key
  known_rep-WithinBudget b none rep = rw (rep, known_key) w
  known_rep-WithinBudget b (some i) rep = rw (rep, known_key) (repeat_key-WithinBudget _ i)

  admit-WithinBudget : WithinBudget (admit s ce prio k)
  admit-WithinBudget = elim (Option-cases (lookup k s.keys)) [
    | inl new ↦ rw (admit-new s ce prio k new) new_key-WithinBudget
    | inr (b, old) ↦ rw (admit-known s ce prio k b old) (known_rep-WithinBudget b b.rep_idx refl)
  ]

-- In a section whose counts are sound, recording an error keeps the number of entity-scoped errors
-- of the kind "other" within the section's budget.
pub record_error-WithinBudget :
    (s : Section) (ce : CollectionError) (request_scoped : Bool)
    → Counted s
    → WithinBudget s
    → WithinBudget (record_error s ce request_scoped)
unfolding record_error
record_error-WithinBudget s ce true v w = admit-WithinBudget s ce _ (key_of ce) v.parallel w
record_error-WithinBudget s ce false v w =
    let (st, e) = downgrade_lem s partial in
    rw e (admit-WithinBudget (record s { status = st }) ce _ (key_of ce) v.parallel w)
