-- ===== src/Collector/Request/Status.antt =====
-- The status of a section against the data that its phase kept.
use streamsight_agent.Base.{
  ℕ, ◌≤◌, ◌≡◌, refl, ◌∙◌, Bool, true, false, ◌||◌, Option, none, some, List, [], ◌∷◌, String, ℤ,
  arith, Option-cases, lookup, inl, inr,
}
use streamsight_agent.Collector.GoError.{GoErrors, ShardErrors}
use streamsight_agent.Collector.Limits.{
  CollectionError, ErrKey, key_of, key_eq, err_priority, eqb_kind, authorization,
}
use streamsight_agent.Collector.Section.{
  Section, SectionStatus, Bucket, partial, failed, status_rank, downgrade, record_error, admit,
  new_key, known_key, repeat_key, folded, emit,
}
use streamsight_agent.Collector.Section.Budget.{admit-new, admit-known}
use streamsight_agent.Collector.Request.{
  new_error, shard_error, record_shards, request_shards, request, request_partial,
}

new_key-status :
    (s : Section) (ce : CollectionError) (prio : ℕ) (k : ErrKey)
    → (new_key s ce prio k).status ≡ s.status
unfolding new_key emit
new_key-status s ce prio k = ground arith

repeat_key-status :
    (s : Section) (ce : CollectionError) (prio : ℕ) (k : ErrKey) (b : Bucket) (i : ℕ)
    → (repeat_key s ce prio k b i).status ≡ s.status
unfolding repeat_key emit folded
repeat_key-status s ce prio k b i = ground arith

known_rep-status :
    (s : Section) (ce : CollectionError) (prio : ℕ) (k : ErrKey) (b : Bucket) (rep : Option ℕ)
    → b.rep_idx ≡ rep
    → (known_key s ce prio k b).status ≡ s.status
unfolding known_key
known_rep-status s ce prio k b none e = rw (e, known_key)
known_rep-status s ce prio k b (some i) e = rw (e, known_key) (repeat_key-status s ce prio k _ i)

admit-status :
    (s : Section) (ce : CollectionError) (prio : ℕ) (k : ErrKey)
    → (admit s ce prio k).status ≡ s.status
admit-status s ce prio k = elim (Option-cases (lookup k s.keys)) [
  | inl new ↦ rw (admit-new s ce prio k new) (new_key-status s ce prio k)
  | inr (b, old) ↦
      rw (admit-known s ce prio k b old) (known_rep-status s ce prio k b b.rep_idx refl)
]

-- A request-scoped error leaves the status to the caller.
record_error_request-status :
    (s : Section) (ce : CollectionError) → (record_error s ce true).status ≡ s.status
unfolding record_error
record_error_request-status s ce = admit-status s ce _ (key_of ce)

-- However it is collapsed or refused, an error of one entity leaves its section at least partial, and
-- no status gets better.
pub record_error-status :
    (s : Section) (ce : CollectionError)
    → (status_rank partial ≤ status_rank (record_error s ce false).status)
      × (status_rank s.status ≤ status_rank (record_error s ce false).status)
unfolding record_error downgrade
record_error-status s ce =
    ground (arith, admit-status (downgrade s partial) ce (err_priority ce false) (key_of ce))

-- Whether a status promises that the section carries data.
abbrev pub KeepsData : SectionStatus → Type 0
KeepsData st = status_rank st ≤ status_rank partial

module _ (G : GoErrors) where
  record_shards-status :
      (s : Section) (api : String) (found : Bool) (es : List (ℤ × G.GoError))
      → (record_shards G s api found es).0.status ≡ s.status
  unfolding record_shards
  record_shards-status s api found [] = refl
  record_shards-status s api found (e ∷ es) =
      record_shards-status (record_error s (shard_error G s api e) true) api
        (eqb_kind (shard_error G s api e).kind authorization || found) es
      ∙ record_error_request-status s (shard_error G s api e)

  -- What a call's outcome does to a status: a usable call keeps "there is data", an unusable one ends
  -- it, and nothing gets better.
  abbrev pub Consistent : Section → Section × Bool → Type 0
  Consistent s r =
      (status_rank s.status ≤ status_rank r.0.status)
      × (r.1 ≡ true → KeepsData s.status → KeepsData r.0.status)
      × (r.1 ≡ false → status_rank failed ≤ status_rank r.0.status)

  request_shards-Consistent :
      (s : Section) (api : String) (se : ShardErrors G.GoError)
      → Consistent s (request_shards G s api se)
  unfolding request_shards downgrade
  request_shards-Consistent s api se = ground (arith, record_shards-status s api false se.errs)

  -- After one API call a section that had data keeps a status which says so exactly if the call's
  -- response is usable, and no status gets better.
  request-Consistent :
      (s : Section) (api : String) (err : Option G.GoError) → Consistent s (request G s api err)
  unfolding request downgrade
  request-Consistent s api none = ground arith
  request-Consistent s api (some err) = elim (Option-cases (G.as_shard_errors err)) [
    | inr (se, e) ↦ rw (e, request) (request_shards-Consistent s api se)
    | inl e ↦
        rw (e, request) (ground (arith, record_error_request-status s (new_error G s api err)))
  ]

  -- A call that may return data beside its error: it is usable exactly if there was no error that
  -- spoilt the whole response, or data came with it; a usable call leaves a section that had data
  -- with a status that says so, and an unusable one does not.
  pub request_partial_lem :
      (s : Section) (api : String) (err : Option G.GoError) (got_data : Bool)
      → ((request_partial G s api err got_data).1 ≡ (request G s api err).1 || got_data)
        × ((request_partial G s api err got_data).1 ≡ true
            → KeepsData s.status
            → KeepsData (request_partial G s api err got_data).0.status)
        × ((request_partial G s api err got_data).1 ≡ false
            → status_rank failed ≤ status_rank (request_partial G s api err got_data).0.status)
  unfolding request_partial
  request_partial_lem s api err got_data = ground (arith, request-Consistent s api err)
