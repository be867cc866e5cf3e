-- ===== src/Collector/Section.antt =====
-- internal/collector/errors.go: the section of one phase, and the funnel by which errors enter it.
-- Times are nanoseconds of one clock, as arguments. A bucket that was refused has no exemplar:
-- the source's `repIdx == -1` is `none`.
pub mod Counts
pub mod Budget
use streamsight_agent.Base.{
  ℕ, ◌+◌, ◌-◌, ◌/◌, Bool, true, false, not, ◌&&◌, ◌||◌, Option, none, some, List, [], ◌∷◌, ◌++◌,
  String, ℤ, ltb, leb, ◌==◌, if◌then◌else◌, length, get_elem?, set, lookup, insert,
}
use streamsight_agent.Collector.GoError.{GoErrors, ShardErrors}
use streamsight_agent.Collector.Limits.{
  Kind, authorization, coordinator, transport, unsupported, other, CollectionError, Limits, ErrKey,
  key_of, key_eq, error_samples, per_section_error_budget, max_distinct_error_keys, prio_entity,
  err_priority,
}

pub data SectionStatus : Type 0 where
  ok partial failed unauthorized skipped : SectionStatus

pub record Truncation : Type 0 where
  pub errors_collapsed : ℕ
  pub errors_dropped : ℕ

pub record Bucket : Type 0 where
  pub rep_idx : Option ℕ
  pub samples : ℕ
  pub seen : ℕ

pub record Section : Type 0 where
  pub name : String
  pub started : ℕ
  pub duration : ℕ
  pub status : SectionStatus
  pub lim : Limits
  pub errs : List CollectionError
  pub prios : List ℕ
  pub keys : List (ErrKey × Bucket)
  pub dropped : Truncation
  pub global_dropped : ℕ
  pub truncated : Bool

unfoldable pub new_section_at : String → ℕ → Limits → Section
new_section_at name at lim = record {
  name = name;
  started = at;
  duration = 0;
  status = ok;
  lim = lim;
  errs = [];
  prios = [];
  keys = [];
  dropped = record { errors_collapsed = 0; errors_dropped = 0 };
  global_dropped = 0;
  truncated = false;
}

unfoldable pub stop : Section → ℕ → Section
stop s now = record s { duration = now - s.started }

abbrev pub status_rank : SectionStatus → ℕ
status_rank ok = 0
status_rank skipped = 1
status_rank partial = 2
status_rank failed = 3
status_rank unauthorized = 4

-- The status only ever gets worse.
unfoldable pub downgrade : Section → SectionStatus → Section
downgrade s status =
    if ltb (status_rank s.status) (status_rank status) then record s { status = status } else s

unfoldable pub emit : Section → CollectionError → ℕ → Section
emit s ce prio = record s { errs = s.errs ++ ce ∷ []; prios = s.prios ++ prio ∷ [] }

-- `s.errs[i].Count = n`; the invariant of Counts shows that `i` is in range.
unfoldable pub set_count : List CollectionError → ℕ → ℕ → List CollectionError
set_count errs i n = elim (get_elem? errs i) [
  | none ↦ errs
  | some e ↦ set errs i (record e { count = n })
]

abbrev pub with_bucket : Section → ErrKey → Bucket → Section
with_bucket s k b = record s { keys = insert k b s.keys }

-- An occurrence folded into the exemplar at `i`.
unfoldable pub folded : Section → ErrKey → Bucket → ℕ → Section
unfolding set_count
folded s k b i = record (with_bucket s k b) {
  errs = set_count s.errs i (b.seen - (b.samples - 1));
  dropped = record s.dropped { errors_collapsed = s.dropped.errors_collapsed + 1 };
  truncated = true;
}

-- A further occurrence of a key whose exemplar is at `i`: one more sample, or folded into it.
unfoldable pub repeat_key : Section → CollectionError → ℕ → ErrKey → Bucket → ℕ → Section
unfolding emit folded
repeat_key s ce prio k b i =
    if ltb b.samples (error_samples s.lim)
      && (ltb prio prio_entity || ltb (length s.errs) (per_section_error_budget s.lim))
    then (with_bucket (emit s ce prio) k (record b { samples = b.samples + 1 }))
    else (folded s k b i)

-- The part of `record` for a key that the map holds; `b.seen++` comes first.
unfoldable pub known_key : Section → CollectionError → ℕ → ErrKey → Bucket → Section
unfolding repeat_key
known_key s ce prio k b =
    let b' : Bucket = record b { seen = b.seen + 1 } in
    elim b.rep_idx [ none ↦ with_bucket s k b' | some i ↦ repeat_key s ce prio k b' i ]

abbrev refuse : Section → Section
refuse s = record s {
  dropped = record s.dropped { errors_dropped = s.dropped.errors_dropped + 1 };
  truncated = true;
}

-- The part of `record` for a key that the map does not hold.
unfoldable pub new_key : Section → CollectionError → ℕ → ErrKey → Section
unfolding emit
new_key s ce prio k =
    let map_full = leb max_distinct_error_keys (length s.keys) in
    if prio == prio_entity && (leb (per_section_error_budget s.lim) (length s.errs) || map_full)
    then (if map_full
        then refuse s
        else with_bucket (refuse s) k (record { rep_idx = none; samples = 0; seen = 1 }))
    else with_bucket (emit s ce prio) k
        (record { rep_idx = some (length s.errs); samples = 1; seen = 1 })

unfoldable pub admit : Section → CollectionError → ℕ → ErrKey → Section
admit s ce prio k = elim (lookup k s.keys) [
  | some b ↦ known_key s ce prio k b
  | none ↦ new_key s ce prio k
]

-- `record`: the single funnel of every error.
unfoldable pub record_error : Section → CollectionError → Bool → Section
unfolding admit
record_error s ce request_scoped =
    admit (if request_scoped then s else downgrade s partial) ce (err_priority ce request_scoped)
      (key_of ce)

-- `add`: an error of one topic, partition, group or directory.
unfoldable pub add : Section → CollectionError → Section
add s ce = record_error s ce false

-- The wire form of a section, with the durations in milliseconds.
pub record WireSection : Type 0 where
  pub name : String
  pub status : SectionStatus
  pub sampled_at : ℕ
  pub duration_ms : ℕ
  pub error_count : ℕ
  pub errors_collapsed : ℕ
  pub errors_dropped : ℕ
  pub truncated : Bool

unfoldable pub finish : Section → WireSection
finish s = record {
  name = s.name;
  status = s.status;
  sampled_at = s.started;
  duration_ms = s.duration / 1000000;
  error_count = length s.errs - s.global_dropped;
  errors_collapsed = s.dropped.errors_collapsed;
  errors_dropped = s.dropped.errors_dropped;
  truncated = s.truncated;
}
