-- ===== src/Kafka/Hooks/Buckets.antt =====
-- What a histogram says of the durations that it has observed.
use streamsight_agent.Base.{
  ℕ, zero, suc, ◌+◌, ◌≤◌, ◌<◌, ◌≡◌, ◌≢◌, refl, sym, ◌∙◌, ap, true, false, ◌⊎◌, inl, inr, subst,
  some, List, [], ◌∷◌, ℤ, pos, negsuc, ◌*◌, arith, ltb, length, get_elem?, get_elem?-set, set, none,
  Bool-cases, Option-cases,
}
use streamsight_agent.Kafka.Hooks.{
  default_latency_bounds_us, LatencyHistogram, no_latencies, ensure_buckets, micros, bucket_of,
  count_at, observe,
}

abbrev pub sum : List ℕ → ℕ
sum [] = 0
sum (n ∷ ns) = n + sum ns

-- A histogram has the fixed layout, and each observation is in one bucket; or it has not observed.
abbrev pub IsTallied : LatencyHistogram → Type 0
IsTallied h =
    (h.bounds_us ≡ default_latency_bounds_us)
    × (length h.counts ≡ suc (length h.bounds_us))
    × (sum h.counts ≡ h.count)

abbrev pub IsSound : LatencyHistogram → Type 0
IsSound h = (h ≡ no_latencies) ⊎ IsTallied h

-- The whole microseconds of a duration in nanoseconds; a negative one has none.
pub AreMicros : ℤ → ℕ → Type 0
AreMicros (pos d) us = (1000 * us ≤ d) × (d < 1000 * us + 1000)
AreMicros (negsuc d) us = us ≡ 0

micros-AreMicros : (d : ℤ) → AreMicros d (micros d)
unfolding micros AreMicros
micros-AreMicros (pos d) = (omega arith, omega arith)
micros-AreMicros (negsuc d) = refl

-- The bucket of a duration: its bound is not below, and all before it are.
abbrev pub IsBucket : ℕ → List ℕ → ℕ → Type 0
IsBucket us bounds i =
    ((b : ℕ) → get_elem? bounds i ≡ some b → us ≤ b)
    × ((j b : ℕ) → j < i → get_elem? bounds j ≡ some b → b < us)

bucket_of-le : (us : ℕ) (bounds : List ℕ) → bucket_of us bounds ≤ length bounds
unfolding bucket_of
bucket_of-le us [] = omega arith
bucket_of-le us (b ∷ bs) = ground (arith, bucket_of-le us bs)

bucket_below :
    (us b : ℕ) (bs : List ℕ) → ltb b us ≡ true → bucket_of us (b ∷ bs) ≡ suc (bucket_of us bs)
unfolding bucket_of
bucket_below us b bs e = rw e refl

bucket_here : (us b : ℕ) (bs : List ℕ) → ltb b us ≡ false → bucket_of us (b ∷ bs) ≡ 0
unfolding bucket_of
bucket_here us b bs e = rw e refl

earlier_below :
    (us b : ℕ) (bs : List ℕ) (i : ℕ)
    → ltb b us ≡ true
    → IsBucket us bs i
    → (j c : ℕ) → j < suc i
    → get_elem? (b ∷ bs) j ≡ some c
    → c < us
earlier_below us b bs i e h zero c lt at = ground (arith, e, at)
earlier_below us b bs i e h (suc j) c lt at = h.1 j c (omega (arith, lt)) at

bucket_of-IsBucket : (us : ℕ) (bounds : List ℕ) → IsBucket us bounds (bucket_of us bounds)
unfolding bucket_of
bucket_of-IsBucket us [] = (λ b e. absurd (ground arith), λ j b lt e. absurd (ground arith))
bucket_of-IsBucket us (b ∷ bs) = elim (Bool-cases (ltb b us)) [
  | inl below ↦
      let ih = bucket_of-IsBucket us bs in
      subst (IsBucket us (b ∷ bs)) (sym (bucket_below us b bs below))
        (ih.0, earlier_below us b bs (bucket_of us bs) below ih)
  | inr here ↦
      subst (IsBucket us (b ∷ bs)) (sym (bucket_here us b bs here))
        (λ c e. ground (arith, here, e), λ j c lt e. absurd (omega (arith, lt)))
]

count_at-suc : (n : ℕ) (ns : List ℕ) (i : ℕ) → count_at (n ∷ ns) (suc i) ≡ n ∷ count_at ns i
unfolding count_at
count_at-suc n ns i = elim (Option-cases (get_elem? ns i)) [
  | inl e ↦ rw (count_at, e) refl
  | inr (m, e) ↦ rw (count_at, e) refl
]

count_at_lem :
    (counts : List ℕ) (i : ℕ)
    → i < length counts
    → (sum (count_at counts i) ≡ sum counts + 1) × (length (count_at counts i) ≡ length counts)
unfolding count_at
count_at_lem [] i lt = absurd (omega arith)
count_at_lem (n ∷ ns) zero lt = (omega arith, refl)
count_at_lem (n ∷ ns) (suc i) lt =
    let (total, len) = count_at_lem ns i (omega (arith, lt)) in
    (
      ap sum (count_at-suc n ns i) ∙ omega (arith, total),
      ap length (count_at-suc n ns i) ∙ ap suc len,
    )

-- One more in bucket `i`, and the same number in every other.
pub GrewAt : ℕ → List ℕ → List ℕ → Type 0
GrewAt i before after =
    ((n : ℕ) → get_elem? before i ≡ some n → get_elem? after i ≡ some (n + 1))
    × ((j : ℕ) → j ≢ i → get_elem? after j ≡ get_elem? before j)

count_at-some :
    (counts : List ℕ) (i n : ℕ)
    → get_elem? counts i ≡ some n
    → count_at counts i ≡ set counts i (n + 1)
unfolding count_at
count_at-some counts i n e = rw (count_at, e) refl

count_at-none : (counts : List ℕ) (i : ℕ) → get_elem? counts i ≡ none → count_at counts i ≡ counts
unfolding count_at
count_at-none counts i e = rw (count_at, e) refl

count_at-GrewAt : (counts : List ℕ) (i : ℕ) → GrewAt i counts (count_at counts i)
unfolding GrewAt
count_at-GrewAt counts i = elim (Option-cases (get_elem? counts i)) [
  | inl e ↦ rw (count_at-none counts i e) (λ n f. absurd (ground (arith, e, f)), λ j other. refl)
  | inr (m, e) ↦ rw (count_at-some counts i m e) (
    λ n f. ground (arith, e, f, get_elem?-set counts i i (m + 1) m e),
    λ j other. ground (arith, other, get_elem?-set counts i j (m + 1) m e),
  )
]

not_empty : (xs : List ℕ) (k : ℕ) → length xs ≡ suc k → (n : ℕ) × (ns : List ℕ) × (xs ≡ n ∷ ns)
not_empty [] k e = absurd (ground (arith, e))
not_empty (n ∷ ns) k e = (n, ns, refl)

ensure_keeps :
    (h : LatencyHistogram) (n : ℕ) (ns : List ℕ) → h.counts ≡ n ∷ ns → ensure_buckets h ≡ h
unfolding ensure_buckets
ensure_keeps h n ns e = rw e refl

-- What is laid out is in the layout, and no number is touched.
abbrev LaidOut : LatencyHistogram → LatencyHistogram → Type 0
LaidOut h g = IsTallied g × (g.count ≡ h.count) × (g.sum_us ≡ h.sum_us) × (g.max_us ≡ h.max_us)

ensure_buckets-LaidOut : (h : LatencyHistogram) → IsSound h → LaidOut h (ensure_buckets h)
unfolding ensure_buckets
ensure_buckets-LaidOut h (inl fresh) =
    subst (λ g. LaidOut g (ensure_buckets g)) (sym fresh) ((refl, refl, refl), refl, refl, refl)
ensure_buckets-LaidOut h (inr (bounds, len, total)) =
    let (n, ns, e) = not_empty h.counts (length h.bounds_us) len in
    subst (LaidOut h) (sym (ensure_keeps h n ns e)) ((bounds, len, total), refl, refl, refl)

-- Observing a duration leaves a histogram, new or in the fixed layout with buckets that add up, in
-- the fixed layout with buckets that add up to its count, with one more observation and its whole
-- microseconds (none, if it is negative) in the sum; the bucket that grows is the one whose bound is the first that is not
-- below the duration, or the last one.
pub observe-IsTallied :
    (h : LatencyHistogram) (d : ℤ)
    → IsSound h
    → let g = observe h d in
      IsTallied g
      × (g.count ≡ h.count + 1)
      × (us : ℕ) × AreMicros d us
      × (g.sum_us ≡ h.sum_us + us)
      × (i : ℕ) × IsBucket us g.bounds_us i
      × (i < length g.counts)
      × GrewAt i (ensure_buckets h).counts g.counts
unfolding observe
observe-IsTallied h d v =
    let laid = ensure_buckets h in
    let i = bucket_of (micros d) laid.bounds_us in
    let ((bounds, len, total), count, sums, most) = ensure_buckets-LaidOut h v in
    let fits : i < length laid.counts =
      omega (arith, bucket_of-le (micros d) laid.bounds_us, len) in
    let (total', len') = count_at_lem laid.counts i fits in
    (
      (bounds, len' ∙ len, omega (arith, total', total)),
      omega (arith, count),
      micros d,
      micros-AreMicros d,
      omega (arith, sums),
      i,
      bucket_of-IsBucket (micros d) laid.bounds_us,
      omega (arith, len', fits),
      count_at-GrewAt laid.counts i,
    )
