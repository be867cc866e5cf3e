-- ===== src/Collector/Section/Counts.antt =====
-- What the entries of a section say of the errors that were recorded.
use streamsight_agent.Base.{
  ℕ, zero, suc, ◌+◌, ◌-◌, ◌≤◌, ◌≡◌, ◌≢◌, refl, inl, inr, Bool, true, false, Option, none, some,
  List, String, [], ◌∷◌, ◌++◌, arith, length, get_elem?, set, lookup, insert, lookup-insert_cases,
  length-append, length-set, get_elem?-set, get_elem?-append, get_elem?-append_length, Option-cases,
  Bool-cases, sym, ◌∙◌, leb, ltb, ◌==◌, subst, ◌&&◌, ◌||◌,
}
use streamsight_agent.Collector.Limits.{
  other, Limits, CollectionError, ErrKey, key_of, key_eq, eqb_key_iff, err_priority, error_samples,
  eqb_key, prio_entity, per_section_error_budget, max_distinct_error_keys,
}
use streamsight_agent.Collector.Section.{
  SectionStatus, new_section_at, status_rank, Section, Bucket, record_error, set_count, downgrade,
  new_key, known_key, repeat_key, admit, partial, with_bucket, emit, folded,
}

-- The occurrences that an entry stands for; an absent count means 1.
abbrev pub weight : CollectionError → ℕ
weight ce = elim ce.count [ zero ↦ 1 | suc n ↦ suc n ]

pub total_weight : List CollectionError → ℕ
total_weight [] = 0
total_weight (ce ∷ ces) = weight ce + total_weight ces

total_weight-append :
    (xs : List CollectionError) (ce : CollectionError)
    → total_weight (xs ++ ce ∷ []) ≡ total_weight xs + weight ce
unfolding total_weight
total_weight-append [] ce = omega arith
total_weight-append (x ∷ xs) ce = omega (arith, total_weight-append xs ce)

total_weight-set :
    (xs : List CollectionError) (i : ℕ) (v w : CollectionError)
    → get_elem? xs i ≡ some w
    → total_weight (set xs i v) + weight w ≡ total_weight xs + weight v
unfolding total_weight
total_weight-set [] i v w h = ground arith
total_weight-set (x ∷ xs) zero v w h = ground arith
total_weight-set (x ∷ xs) (suc i) v w h = omega (arith, total_weight-set xs i v w h)

-- What a bucket says of the entries: where its exemplar is, and how its counts add up. Only keys of
-- the kind "other" have no exemplar.
abbrev pub FitsAt : List CollectionError → ErrKey → Option ℕ → ℕ → ℕ → Type 0
FitsAt errs k none samples seen = k.kind ≡ other
FitsAt errs k (some i) samples seen =
    (ce : CollectionError) × (get_elem? errs i ≡ some ce)
    × (key_of ce ≡ k)
    × (weight ce + samples ≡ seen + 1)
    × (1 ≤ samples)

abbrev pub Fits : List CollectionError → ErrKey → Bucket → Type 0
Fits errs k b = FitsAt errs k b.rep_idx b.samples b.seen

pub record Counted (s : Section) : Type 0 where
  pub parallel : length s.prios ≡ length s.errs
  pub weights : total_weight s.errs ≡ length s.errs + s.dropped.errors_collapsed
  pub fits : (k : ErrKey) (b : Bucket) → lookup k s.keys ≡ some b → Fits s.errs k b

FitsAt-append :
    (errs : List CollectionError) (ce : CollectionError) (k : ErrKey) (rep : Option ℕ)
    (samples seen : ℕ)
    → FitsAt errs k rep samples seen
    → FitsAt (errs ++ ce ∷ []) k rep samples seen
FitsAt-append errs ce k none samples seen f = f
FitsAt-append errs ce k (some i) samples seen (e, at, key, sum, pos) =
    (e, get_elem?-append errs (ce ∷ []) i e at, key, sum, pos)

FitsAt-set :
    (errs : List CollectionError) (i : ℕ) (v w : CollectionError) (k : ErrKey) (rep : Option ℕ)
    (samples seen : ℕ)
    → get_elem? errs i ≡ some w
    → key_of w ≢ k
    → FitsAt errs k rep samples seen
    → FitsAt (set errs i v) k rep samples seen
FitsAt-set errs i v w k none samples seen at ne f = f
FitsAt-set errs i v w k (some j) samples seen at ne (e, at', key, sum, pos) =
    elim (get_elem?-set errs i j v w at) [
      | inl (same, _) ↦ absurd (ne (ground arith))
      | inr (_, kept) ↦ (e, kept ∙ at', key, sum, pos)
    ]

-- A map entry that fits, put into a map whose entries fit.
Fits-insert :
    (errs : List CollectionError) (keys : List (ErrKey × Bucket)) (k : ErrKey) (b : Bucket)
    → Fits errs k b
    → ((j : ErrKey) (c : Bucket) → eqb_key k j ≡ false → lookup j keys ≡ some c → Fits errs j c)
    → (j : ErrKey) (c : Bucket) → lookup j (insert k b keys) ≡ some c
    → Fits errs j c
Fits-insert errs keys k b f rest j c h = elim (lookup-insert_cases k j b c keys h) [
  | inl (e, e') ↦ subst (λ (c : Bucket). Fits errs j c) e' (subst (λ j. Fits errs j b) e f)
  | inr (ne, old) ↦ rest j c ne old
]

-- One more verbatim entry, for a bucket that fits it.
emit-Counted :
    (s : Section) (ce : CollectionError) (prio : ℕ) (k : ErrKey) (b : Bucket)
    → ce.count ≡ 0
    → Fits (s.errs ++ ce ∷ []) k b
    → Counted s
    → Counted (with_bucket (emit s ce prio) k b)
unfolding emit
emit-Counted s ce prio k b one f v = record {
  parallel =
      omega (arith, v.parallel, length-append s.prios (prio ∷ []), length-append s.errs (ce ∷ []));
  weights =
      ground (arith, v.weights, total_weight-append s.errs ce, length-append s.errs (ce ∷ []));
  fits =
      Fits-insert (s.errs ++ ce ∷ []) s.keys k b f
        (λ j c _ old. FitsAt-append s.errs ce j c.rep_idx c.samples c.seen (v.fits j c old));
}

new_key-Counted :
    (s : Section) (ce : CollectionError) (prio : ℕ) (k : ErrKey)
    → ce.count ≡ 0
    → key_of ce ≡ k
    → (prio ≡ prio_entity → k.kind ≡ other)
    → Counted s
    → Counted (new_key s ce prio k)
unfolding new_key
new_key-Counted s ce prio k one key plain v =
    elim (Bool-cases (
      prio == prio_entity
      && (leb (per_section_error_budget s.lim) (length s.errs)
          || leb max_distinct_error_keys (length s.keys)))) [
            | inl refused ↦
                rw refused (elim (Bool-cases (leb max_distinct_error_keys (length s.keys))) [
                  | inl full ↦
                      rw full (record { parallel = v.parallel; weights = v.weights; fits = v.fits })
                  | inr room ↦ rw room (record {
                    parallel = v.parallel;
                    weights = v.weights;
                    fits =
                        Fits-insert s.errs s.keys k _ (plain (ground arith))
                          (λ j c _ old. v.fits j c old);
                  })
                ])
            | inr admitted ↦ rw admitted (
                emit-Counted s ce prio k _ one
                  (ce, get_elem?-append_length s.errs ce, key, ground arith, omega arith) v)
          ]

key_of-count : (e : CollectionError) (n : ℕ) → key_of (record e { count = n }) ≡ key_of e
unfolding key_of
key_of-count e n = refl

-- An occurrence folded into the exemplar `e` at `i`.
fold-Counted :
    (s : Section) (k : ErrKey) (b : Bucket) (i : ℕ) (e : CollectionError)
    → b.rep_idx ≡ some i
    → get_elem? s.errs i ≡ some e
    → key_of e ≡ k
    → weight e + b.samples ≡ b.seen
    → 1 ≤ b.samples
    → Counted s
    → Counted (folded s k b i)
unfolding folded set_count
fold-Counted s k b i e rep at key sum pos v =
    rw (at, set_count)
      (record {
        parallel = omega (arith, v.parallel, length-set s.errs i e');
        weights =
            ground (arith, v.weights, total_weight-set s.errs i e' e at, length-set s.errs i e');
        fits =
            Fits-insert (set s.errs i e') s.keys k b
              (subst (λ r. FitsAt (set s.errs i e') k r b.samples b.seen) (sym rep)
                (e', self, key_of-count e _ ∙ key, ground arith, pos))
              (λ j c ne old.
                FitsAt-set s.errs i e' e j c.rep_idx c.samples c.seen at (other_key j ne)
                  (v.fits j c old));
      })
  where
    e' : CollectionError
    e' = record e { count = b.seen - (b.samples - 1) }

    self : get_elem? (set s.errs i e') i ≡ some e'
    self = elim (get_elem?-set s.errs i i e' e at) [
      | inl (_, h) ↦ h
      | inr (ne, _) ↦ absurd (ne refl)
    ]

    other_key : (j : ErrKey) → eqb_key k j ≡ false → key_of e ≢ j
    other_key j ne h = ground (arith, eqb_key_iff k j)

repeat_key-Counted :
    (s : Section) (ce : CollectionError) (prio : ℕ) (k : ErrKey) (b : Bucket) (i : ℕ)
    (e : CollectionError)
    → ce.count ≡ 0
    → b.rep_idx ≡ some i
    → get_elem? s.errs i ≡ some e
    → key_of e ≡ k
    → weight e + b.samples ≡ b.seen
    → 1 ≤ b.samples
    → Counted s
    → Counted (repeat_key s ce prio k b i)
unfolding repeat_key
repeat_key-Counted s ce prio k b i e one rep at key sum pos v =
    elim (Bool-cases (
      ltb b.samples (error_samples s.lim)
      && (ltb prio prio_entity || ltb (length s.errs) (per_section_error_budget s.lim)))) [
        | inl sampled ↦ rw sampled (
            emit-Counted s ce prio k _ one
              (subst (λ r. FitsAt (s.errs ++ ce ∷ []) k r (b.samples + 1) b.seen) (sym rep)
                (e, get_elem?-append s.errs (ce ∷ []) i e at, key, ground arith, omega arith))
              v)
        | inr full ↦ rw full (fold-Counted s k b i e rep at key sum pos v)
      ]

known_rep :
    (s : Section) (ce : CollectionError) (prio : ℕ) (k : ErrKey) (b : Bucket) (rep : Option ℕ)
    → ce.count ≡ 0
    → b.rep_idx ≡ rep
    → FitsAt s.errs k rep b.samples b.seen
    → Counted s
    → Counted (known_key s ce prio k b)
unfolding known_key
known_rep s ce prio k b none one rep f v =
    rw (rep, known_key)
      (record {
        parallel = v.parallel;
        weights = v.weights;
        fits =
            Fits-insert s.errs s.keys k (record b { seen = b.seen + 1 })
              (subst (λ r. FitsAt s.errs k r b.samples (b.seen + 1)) (sym rep) f)
              (λ j c _ old. v.fits j c old);
      })
known_rep s ce prio k b (some i) one rep (e, at, key, sum, pos) v =
    rw (rep, known_key)
      (repeat_key-Counted s ce prio k (record b { seen = b.seen + 1 }) i e one rep at key
        (ground arith) pos v)

admit-Counted :
    (s : Section) (ce : CollectionError) (prio : ℕ) (k : ErrKey)
    → ce.count ≡ 0
    → key_of ce ≡ k
    → (prio ≡ prio_entity → k.kind ≡ other)
    → Counted s
    → Counted (admit s ce prio k)
unfolding admit
admit-Counted s ce prio k one key plain v = elim (Option-cases (lookup k s.keys)) [
  | inl new ↦ rw (new, admit) (new_key-Counted s ce prio k one key plain v)
  | inr (b, old) ↦ rw (old, admit) (known_rep s ce prio k b b.rep_idx one refl (v.fits k b old) v)
]

downgrade-Counted :
    (s : Section) (status : SectionStatus) → Counted s → Counted (downgrade s status)
unfolding downgrade
downgrade-Counted s status v = elim (Bool-cases (ltb (status_rank s.status) (status_rank status))) [
  | inl worse ↦ rw worse (record { parallel = v.parallel; weights = v.weights; fits = v.fits })
  | inr kept ↦ rw kept v
]

pub plain_entity :
    (ce : CollectionError) (request_scoped : Bool)
    → err_priority ce request_scoped ≡ prio_entity
    → (key_of ce).kind ≡ other
unfolding err_priority key_of
plain_entity ce request_scoped h = ground arith

-- Recording an error whose own count is absent keeps the entries parallel to their priorities, the
-- sum of the entries' counts equal to their number plus the collapsed occurrences, and every bucket
-- true of the entries: its exemplar stands at its index, bears its key, and together with the later
-- samples stands for each occurrence seen.
pub record_error-Counted :
    (s : Section) (ce : CollectionError) (request_scoped : Bool)
    → ce.count ≡ 0
    → Counted s
    → Counted (record_error s ce request_scoped)
unfolding record_error
record_error-Counted s ce true one v =
    admit-Counted s ce _ (key_of ce) one refl (plain_entity ce true) v
record_error-Counted s ce false one v =
    admit-Counted _ ce _ (key_of ce) one refl (plain_entity ce false)
      (downgrade-Counted s partial v)

pub new_section_at-Counted :
    (name : String) (at : ℕ) (lim : Limits) → Counted (new_section_at name at lim)
unfolding new_section_at total_weight lookup
new_section_at-Counted name at lim = record {
  parallel = refl;
  weights = omega arith;
  fits = λ k b h. ground arith;
}
