-- ===== src/Witnesses/Topics.antt =====
-- The topics, the committed offsets and the throughput window.
use streamsight_agent.Base.{
  ◌≡◌, ◌⊎◌, Bool, true, false, Option, none, some, List, [], ◌∷◌, map, String, ℤ, pos, negsuc,
  length, lookup, string_eq, int_eq, Forall₂, All,
}
use streamsight_agent.Collector.Limits.{Limits}
use streamsight_agent.Collector.Section.{Section, new_section_at}
use streamsight_agent.Collector.Request.Told.{Admits}
use streamsight_agent.Collector.Kadm.{
  Kadm, ListedOffset, ListedOffsets, PartitionDetail, TopicDetail, TopicDetails, OffsetResponse,
}
use streamsight_agent.Collector.Wire.{ConsumerOffset, TopicMetrics}
use streamsight_agent.Collector.Topics.{
  TopicSections, TopicOptions, OffsetSample, Samples, build_topic,
}
use streamsight_agent.Collector.Topics.Rows.{IsRow, on_topic, build_topic-IsRow}
use streamsight_agent.Collector.Topics.Nulls.{IsTold, build_topic-IsTold}
use streamsight_agent.Collector.Topics.Phase.{Clock, TopicClient}
use streamsight_agent.Collector.Offsets.{FetchResponse, collect_offsets}
use streamsight_agent.Collector.Offsets.Groups.{Reports, IsAnswered, collect_offsets-Reports}
use streamsight_agent.Collector.Throughput.{attach}
use streamsight_agent.Collector.Throughput.Attached.{without_windows, HasWindows, attach-windows}
use streamsight_agent.Witnesses.Sections.{SampleError, kafka_code, sample_errors}

abbrev limits : Limits
limits = record { max_errors = pos 10; max_error_samples = pos 2 }

abbrev values {ℓ κ} : {A : Type ℓ} {B : Type κ} → List (A × B) → List B
values [] = []
values ((k, v) ∷ m) = v ∷ values m

abbrev find_listed : ListedOffsets SampleError → String → ℤ → Option (ListedOffset SampleError)
find_listed l topic i = elim (lookup topic l) [ none ↦ none | some ps ↦ lookup i ps ]

abbrev sample_kadm : Kadm SampleError
sample_kadm = record {
  sorted_topics = values;
  sorted_partitions = values;
  lookup_listed = find_listed;
}

abbrev partition_detail : ℤ → PartitionDetail SampleError
partition_detail i = record {
  partition = i;
  leader = pos 1;
  leader_epoch = pos 3;
  replicas = pos 1 ∷ pos 2 ∷ [];
  isr = pos 1 ∷ [];
  offline_replicas = [];
  err = none;
}

abbrev orders : TopicDetail SampleError
orders = record {
  topic = "orders";
  id = some "t";
  is_internal = false;
  partitions =
      (pos 0, partition_detail (pos 0))
      ∷ (pos 1, partition_detail (pos 1))
      ∷ (pos 2, partition_detail (pos 2))
      ∷ [];
  err = none;
}

-- Partition 1 has no leader, and partition 2 is not listed.
abbrev listing : ListedOffsets SampleError
listing =
    (
      "orders",
      (
        pos 0,
        record {
          partition = pos 0;
          offset = pos 7;
          timestamp = pos 90;
          leader_epoch = pos 3;
          err = none;
        },
      )
          ∷ (
            pos 1,
            record {
              partition = pos 1;
              offset = negsuc 0;
              timestamp = negsuc 0;
              leader_epoch = negsuc 0;
              err = some (kafka_code (pos 5));
            },
          )
          ∷ [],
    )
    ∷ []

abbrev sample : String → Bool → OffsetSample sample_errors sample_kadm
sample api ok = record { api = api; listed = listing; ok = ok; here = false }

abbrev samples : Samples sample_errors sample_kadm
samples = record {
  starts = sample "ListStartOffsets" true;
  lsos = sample "ListCommittedOffsets" false;
  ends = sample "ListEndOffsets" true;
  max_ts = sample "ListMaxTimestampOffsets" true;
  locals = sample "ListLocalLogStartOffsets" false;
  remotes = sample "ListLatestRemoteOffsets" false;
}

abbrev pub fresh : String → Section
fresh name = new_section_at name 7 limits

abbrev sections : TopicSections
sections = record {
  starts = fresh "topics";
  lso = fresh "topics_lso";
  end = fresh "topics_end";
  max_ts = fresh "topics_max_timestamp";
  local = fresh "topics_local_start";
  remote = fresh "topics_remote_end";
}

abbrev built : TopicMetrics × TopicSections
built = build_topic sample_errors sample_kadm orders samples sections

build_topic-IsRow_example :
    Forall₂
      (IsRow sample_errors sample_kadm
        (on_topic sample_errors sample_kadm samples "orders")
        "orders")
      (values orders.partitions)
      built.0.partitions
    × (built.0.partition_count ≡ length built.0.partitions)
build_topic-IsRow_example = build_topic-IsRow sample_errors sample_kadm orders samples sections

build_topic-IsTold_example :
    All (IsTold sample_errors sample_kadm true false true built.1) built.0.partitions
build_topic-IsTold_example = build_topic-IsTold sample_errors sample_kadm orders samples sections

abbrev answer : List String → ListedOffsets SampleError × Option SampleError
answer names = (listing, none)

abbrev client : TopicClient sample_errors sample_kadm
client = record {
  list_start_offsets = answer;
  list_committed_offsets = answer;
  list_end_offsets = answer;
  list_max_timestamp_offsets = answer;
  list_local_log_start_offsets = answer;
  list_latest_remote_offsets = answer;
}

abbrev clock : Clock
clock = record { at = λ s. 7; until = λ s. 9 }

abbrev options : TopicOptions
options = record {
  include_internal_topics = false;
  collect_last_stable_offset = true;
  collect_tiered_offsets = false;
  collect_latest_tiered = false;
}

abbrev details : TopicDetails SampleError
details =
    ("orders", orders)
    ∷ ("__offsets", record orders { topic = "__offsets"; is_internal = true })
    ∷ []

-- The broker answers for one of the three groups, and refuses another.
abbrev fetched :
    List String → List (String × FetchResponse SampleError (List (OffsetResponse SampleError)))
fetched ids =
    (
      "billing",
      record {
        err = none;
        fetched =
            record {
              topic = "orders";
              partition = pos 0;
              at = pos 5;
              leader_epoch = pos 3;
              metadata = "";
              err = none;
            }
            ∷ [];
      },
    )
    ∷ ("search", record { err = some (kafka_code (pos 30)); fetched = [] })
    ∷ []

abbrev groups : List String
groups = "billing" ∷ "search" ∷ "gone" ∷ []

abbrev sorted_fetched : List (OffsetResponse SampleError) → List (OffsetResponse SampleError)
sorted_fetched os = os

abbrev collected : Option (List String) × List ConsumerOffset × Section
collected =
    collect_offsets sample_errors (List (OffsetResponse SampleError)) sorted_fetched fetched 7 9
      limits (λ name. true) false [] groups none

collect_offsets-Reports_example :
    Reports sample_errors
      (List (OffsetResponse SampleError))
      sorted_fetched
      (λ name. true)
      false
      []
      (fetched groups)
      groups
      collected.1
    × (All
          (IsAnswered sample_errors
            (List (OffsetResponse SampleError))
            sorted_fetched
            (fetched groups))
          groups
        ⊎ Admits collected.2)
collect_offsets-Reports_example =
    collect_offsets-Reports sample_errors (List (OffsetResponse SampleError)) sorted_fetched fetched
      7 9 limits (λ name. true) false [] groups none

attach-windows_example :
    (map without_windows
        (attach sample_errors sample_kadm (some listing) (fresh "topics_window") (built.0 ∷ [])).0
      ≡ map without_windows (built.0 ∷ []))
    × (All
          (HasWindows sample_errors sample_kadm)
          (attach sample_errors sample_kadm (some listing) (fresh "topics_window") (built.0 ∷ [])).0
        ⊎ Admits
            (attach sample_errors sample_kadm
              (some listing)
              (fresh "topics_window")
              (built.0 ∷ [])).1)
attach-windows_example =
    attach-windows sample_errors sample_kadm listing (fresh "topics_window") (built.0 ∷ [])
