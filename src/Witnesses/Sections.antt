-- ===== src/Witnesses/Sections.antt =====
-- Sections, errors and API calls.
use streamsight_agent.Base.{
  ℕ, ◌+◌, ◌≤◌, ◌≡◌, ◌≢◌, refl, Bool, true, false, ◌||◌, Option, none, some, List, [], ◌∷◌, String,
  ℤ, pos, negsuc, length, arith,
}
use streamsight_agent.Collector.GoError.{GoErrors}
use streamsight_agent.Collector.Limits.{
  Kind, authorization, other, CollectionError, Limits, key_of, per_section_error_budget,
}
use streamsight_agent.Collector.Section.{
  Section, partial, failed, new_section_at, record_error, status_rank,
}
use streamsight_agent.Collector.Section.Counts.{
  Counted, record_error-Counted, new_section_at-Counted,
}
use streamsight_agent.Collector.Section.Budget.{
  Outcome, record_error-Outcome, WithinBudget, record_error-WithinBudget,
}
use streamsight_agent.Collector.Request.{request, request_partial}
use streamsight_agent.Collector.Request.Status.{KeepsData, request_partial_lem}
use streamsight_agent.Collector.Merge.{prio_rows, admitted, merge_errors, budget_of, total_errors}
use streamsight_agent.Collector.Merge.Admission.{RowsCutAt}
use streamsight_agent.Collector.Merge.Totals.{Ready, admitted-RowsCutAt, length-merge_errors}

abbrev limits : Limits
limits = record { max_errors = pos 2; max_error_samples = pos 1 }

abbrev fresh : Section
fresh = new_section_at "topics" 7 limits

abbrev an_error : Kind → String → CollectionError
an_error kind topic = record {
  section = "topics";
  api = "ListStartOffsets";
  broker_id = none;
  topic = topic;
  partition = some (pos 0);
  dir = "";
  group = "";
  code = pos 29;
  kind = kind;
  message = "denied";
  count = 0;
}

record_error-Counted_example :
    Counted
      (record_error (record_error fresh (an_error other "a") false) (an_error other "b") false)
record_error-Counted_example =
    record_error-Counted (record_error fresh (an_error other "a") false) (an_error other "b") false
      refl
      (record_error-Counted fresh (an_error other "a") false refl
        (new_section_at-Counted "topics" 7 limits))

record_error-Outcome_example :
    Outcome fresh (record_error fresh (an_error other "a") false) (key_of (an_error other "a"))
record_error-Outcome_example =
    record_error-Outcome fresh (an_error other "a") false (new_section_at-Counted "topics" 7 limits)

authorization-not-other : authorization ≢ other
authorization-not-other = λ e. absurd (ground (arith, e))

fresh-WithinBudget : WithinBudget fresh
unfolding new_section_at per_section_error_budget
fresh-WithinBudget = omega arith

record_error-WithinBudget_example : WithinBudget (record_error fresh (an_error other "a") false)
record_error-WithinBudget_example =
    record_error-WithinBudget fresh (an_error other "a") false
      (new_section_at-Counted "topics" 7 limits) fresh-WithinBudget

-- Two sections with errors of two priorities, and one that was never built.
abbrev busy : Section
busy = record {
  name = "topics";
  started = 7;
  duration = 3000000;
  status = partial;
  lim = limits;
  errs = an_error other "a" ∷ an_error authorization "b" ∷ [];
  prios = 5 ∷ 1 ∷ [];
  keys = [];
  dropped = record { errors_collapsed = 1; errors_dropped = 0 };
  global_dropped = 0;
  truncated = true;
}

abbrev pub cycle_sections : List (Option Section)
cycle_sections = some busy ∷ none ∷ some busy ∷ []

pub cycle_sections-Ready : Ready cycle_sections
cycle_sections-Ready = (
  (refl, (ground arith, (ground arith, tt)), refl),
  (tt, ((refl, (ground arith, (ground arith, tt)), refl), tt)),
)

admitted-RowsCutAt_example :
    (cut : ℕ) × RowsCutAt cut (prio_rows cycle_sections) (admitted cycle_sections (pos 3))
admitted-RowsCutAt_example = admitted-RowsCutAt cycle_sections (pos 3)

length-merge_errors_example :
    (length (merge_errors cycle_sections (pos 3)).out ≡ budget_of cycle_sections (pos 3))
    × (length (merge_errors cycle_sections (pos 3)).out
          + (merge_errors cycle_sections (pos 3)).dropped
        ≡ total_errors cycle_sections)
length-merge_errors_example = length-merge_errors cycle_sections (pos 3) cycle_sections-Ready

-- Errors of every shape that the collector tells apart.
pub data SampleError : Type 0 where
  timed_out refused denied plain : SampleError
  kafka_code : ℤ → SampleError
  shards : Bool → SampleError

abbrev pub sample_errors : GoErrors
sample_errors = record {
  GoError = SampleError;
  as_shard_errors = λ e. elim e [
    | shards all ↦
        some (record { errs = (pos 1, denied) ∷ (negsuc 0, timed_out) ∷ []; all_failed = all })
    | _ ↦ none
  ];
  as_auth_error = λ e. elim e [ denied ↦ some (kafka_code (pos 31)) | _ ↦ none ];
  as_kafka_error = λ e. elim e [ kafka_code c ↦ some c | _ ↦ none ];
  is_context_error = λ e. elim e [ timed_out ↦ true | _ ↦ false ];
  is_net_error = λ e. elim e [ refused ↦ true | _ ↦ false ];
  codes = record {
    topic_authorization_failed = pos 29;
    group_authorization_failed = pos 30;
    cluster_authorization_failed = pos 31;
    transactional_id_authorization_failed = pos 53;
    delegation_token_authorization_failed = pos 65;
    coordinator_not_available = pos 15;
    not_coordinator = pos 16;
    coordinator_load_in_progress = pos 14;
    unsupported_version = pos 35;
    unsupported_for_message_format = pos 43;
  };
  message = λ e. "";
  epoch_not_returned = plain;
  no_response = plain;
  topic_not_listed = plain;
  not_listed = plain;
  negative_offset = plain;
  no_log_dirs = plain;
  not_log_dirs_response = plain;
}

request_partial_lem_example :
    ((request_partial sample_errors fresh "ListGroups" (some (shards true)) true).1
      ≡ (request sample_errors fresh "ListGroups" (some (shards true))).1 || true)
    × ((request_partial sample_errors fresh "ListGroups" (some (shards true)) true).1 ≡ true
        → KeepsData fresh.status
        → KeepsData
            (request_partial sample_errors fresh "ListGroups" (some (shards true)) true).0.status)
    × ((request_partial sample_errors fresh "ListGroups" (some (shards true)) true).1 ≡ false
        → status_rank failed
          ≤ status_rank
              (request_partial sample_errors fresh "ListGroups" (some (shards true)) true).0.status)
request_partial_lem_example =
    request_partial_lem sample_errors fresh "ListGroups" (some (shards true)) true
