-- ===== src/Witnesses/Dirs.antt =====
-- The log directories, the configurations and the groups.
use mathlib.Core.List.{Permᴰ, flatten}
use streamsight_agent.Base.{
  ℕ, zero, suc, eqb_ℤ_iff, ◌≡◌, ◌⊎◌, ◌↔◌, inl, refl, true, false, Option, none, some, List, [], ◌∷◌,
  map, String, ℤ, pos, negsuc, lookup, int_eq, string_eq, Forall₂, All, arith, AllApart,
}
use mathlib.Core.List.Permᴰ as PermD
use streamsight_agent.Collector.GoError.{ShardErrors}
use streamsight_agent.Collector.Request.Told.{Admits}
use streamsight_agent.Collector.Wire.{ClusterMetrics}
use streamsight_agent.Collector.Topics.{is_some}
use streamsight_agent.Collector.Topics.Selected.{Picks}
use streamsight_agent.Collector.LogDirs.{
  Shard, DescribedDir, LogDirReport, dir_ltb, all_dirs, build_log_dirs, log_dir_shards,
}
use streamsight_agent.Collector.LogDirs.Refusals.{IsRead, IsHeard, IsDirRow, build_log_dirs-Admits}
use streamsight_agent.Collector.LogDirs.Shards.{
  Splits, HasAnswer, IsShardError, log_dir_shards-Splits,
}
use streamsight_agent.Collector.LogDirs.Stable.{IsSameMap, build_log_dirs-stable}
use streamsight_agent.Collector.Configs.{
  Config, dynamic_topic_config, default_config, select_configs, topic_config_keys, broker_id_of,
}
use streamsight_agent.Collector.Configs.Selected.{HasKey, IsSafe, select_configs-Picks}
use streamsight_agent.Collector.Configs.BrokerIds.{numeral, broker_id_of-numeral}
use streamsight_agent.Collector.Groups.{
  GroupMember, GroupMetrics, DescribedConsumerGroup, enrich_consumer_groups,
}
use streamsight_agent.Collector.Groups.Overlay.{IsOverlaid, enrich_consumer_groups-IsOverlaid}
use streamsight_agent.Witnesses.Sections.{SampleError, kafka_code, shards, sample_errors}
use streamsight_agent.Witnesses.Topics.{fresh}

abbrev code_error : ℤ → Option SampleError
code_error (pos zero) = none
code_error (pos (suc n)) = some (kafka_code (pos (suc n)))
code_error (negsuc n) = some (kafka_code (negsuc n))

abbrev as_error : ShardErrors SampleError → SampleError
as_error se = shards se.all_failed

abbrev good : Shard SampleError
good = record {
  node_id = pos 1;
  err = none;
  resp = some (record { error_code = pos 0; dirs = [] });
}

abbrev bad : Shard SampleError
bad = record { node_id = pos 2; err = some (kafka_code (pos 7)); resp = none }

abbrev two_shards : List (Shard SampleError)
two_shards = good ∷ bad ∷ []

log_dir_shards-Splits_example :
    ((es : List (ℤ × SampleError)) × ((n : ℕ) × Splits sample_errors code_error as_error two_shards
          es n
        × IsShardError sample_errors code_error as_error es n
            (log_dir_shards sample_errors code_error as_error two_shards).1))
    × ((k : ℤ)
        → (is_some (lookup k (log_dir_shards sample_errors code_error as_error two_shards).0)
            ≡ true)
          ↔ HasAnswer sample_errors code_error as_error k two_shards)
log_dir_shards-Splits_example = log_dir_shards-Splits sample_errors code_error as_error two_shards

abbrev directory : ℤ → String → DescribedDir SampleError
directory broker dir = record {
  broker = broker;
  dir = dir;
  err = none;
  total_bytes = some (pos 100);
  usable_bytes = some (pos 60);
  partitions = some [];
}

-- Broker 2 answered with nothing.
abbrev report : LogDirReport SampleError
report =
    (pos 1, directory (pos 1) "/a" ∷ []) ∷ (pos 2, []) ∷ (pos 3, directory (pos 3) "/a" ∷ []) ∷ []

abbrev cluster : ClusterMetrics
cluster = record {
  id = "c";
  broker_count = 1;
  brokers = record { id = pos 2; host = "h"; port = pos 9092; rack = none } ∷ [];
}

build_log_dirs-Admits_example :
    (ds : List (DescribedDir SampleError)) × Permᴰ (flatten (map (λ r. r.1) report)) ds
    × Forall₂
        (IsDirRow sample_errors)
        ds
        (build_log_dirs sample_errors report cluster (fresh "log_dirs")).0
    × ((All (IsRead sample_errors) ds × All (IsHeard sample_errors report) cluster.brokers)
        ⊎ Admits (build_log_dirs sample_errors report cluster (fresh "log_dirs")).1)
build_log_dirs-Admits_example =
    build_log_dirs-Admits sample_errors report cluster (fresh "log_dirs")

-- The same map in another order.
abbrev one_way : LogDirReport SampleError
one_way = (pos 1, directory (pos 1) "/a" ∷ []) ∷ (pos 3, directory (pos 3) "/a" ∷ []) ∷ []

abbrev other_way : LogDirReport SampleError
other_way = (pos 3, directory (pos 3) "/a" ∷ []) ∷ (pos 1, directory (pos 1) "/a" ∷ []) ∷ []

one_way-IsSameMap : IsSameMap sample_errors one_way other_way
unfolding lookup
one_way-IsSameMap =
    (PermD.swap refl refl, λ k. ground (arith, eqb_ℤ_iff (pos 1) k, eqb_ℤ_iff (pos 3) k))

one_way-AllApart : AllApart (dir_ltb sample_errors) (all_dirs sample_errors one_way)
unfolding all_dirs
one_way-AllApart = ((inl refl, tt), (tt, tt))

build_log_dirs-stable_example :
    build_log_dirs sample_errors one_way cluster (fresh "log_dirs")
    ≡ build_log_dirs sample_errors other_way cluster (fresh "log_dirs")
build_log_dirs-stable_example =
    build_log_dirs-stable sample_errors one_way other_way cluster (fresh "log_dirs")
      one_way-IsSameMap one_way-AllApart

abbrev configs : List Config
configs =
    record {
      key = "retention.ms";
      value = some "1000";
      sensitive = false;
      source = dynamic_topic_config;
    }
    ∷ record {
      key = "compression.type";
      value = some "secret";
      sensitive = true;
      source = default_config;
    }
    ∷ []

select_configs-Picks_example :
    Picks
      (HasKey configs)
      topic_config_keys
      (map (λ c. c.key) (select_configs configs topic_config_keys))
    × All IsSafe (select_configs configs topic_config_keys)
select_configs-Picks_example = select_configs-Picks configs topic_config_keys

broker_id_of-numeral_example : broker_id_of (numeral 1042) ≡ pos 1042
broker_id_of-numeral_example = broker_id_of-numeral 1042 (omega arith)

abbrev member : GroupMember
member = record {
  member_id = "m";
  instance_id = none;
  client_id = "c";
  host = "h";
  rack = none;
  subscribed_topics = "orders" ∷ [];
  assignment = [];
  owned = [];
  member_epoch = none;
  target_assignment = [];
  subscribed_topic_regex = none;
}

abbrev group : GroupMetrics
group = record {
  id = "billing";
  state = "Stable";
  coordinator = pos 1;
  generation = negsuc 0;
  protocol = "";
  protocol_type = "consumer";
  group_type = "consumer";
  member_count = 1;
  members = member ∷ [];
  error_code = pos 0;
  group_epoch = none;
  assignment_epoch = none;
  assignor = "";
}

abbrev describe :
    List String → List (String × DescribedConsumerGroup SampleError) × Option SampleError
describe ids = (
  (
    "billing",
    record {
      epoch = pos 4;
      assignment_epoch = pos 3;
      assignor_name = "uniform";
      members =
          record {
            member_id = "m";
            member_epoch = pos 4;
            subscribed_topic_regex = none;
            subscribed_topics = "payments" ∷ [];
            assignment = ("orders", pos 0 ∷ []) ∷ [];
            target_assignment = ("orders", pos 0 ∷ pos 1 ∷ []) ∷ [];
          }
          ∷ [];
      err = none;
    },
  )
      ∷ [],
  none,
)

enrich_consumer_groups-IsOverlaid_example :
    Forall₂ IsOverlaid
      (group ∷ [])
      (enrich_consumer_groups sample_errors true describe (fresh "groups") (group ∷ [])).0
enrich_consumer_groups-IsOverlaid_example =
    enrich_consumer_groups-IsOverlaid sample_errors true describe (fresh "groups") (group ∷ [])
