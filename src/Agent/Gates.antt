-- ===== src/Agent/Gates.antt =====
-- internal/agent/agent.go: how the configuration and the startup probe become the collector's options.
-- The configuration has the fields that are read here, as internal/config/config.go has validated them.
use streamsight_agent.Base.{
  Bool, true, false, not, ◌&&◌, Option, none, some, List, String, ℤ, pos, if◌then◌else◌,
}
use streamsight_agent.Collector.Options.{Options}
use streamsight_agent.Kafka.Capabilities.{
  Capabilities, at_least, consumer_group_describe_key, list_offsets_key,
  offset_for_leader_epoch_key, share_group_describe_key, describe_configs_key,
  list_partition_reassignments_key,
}

pub record Config : Type 0 where
  pub collection_timeout : ℤ
  pub include_internal_topics : Bool
  pub topic_include : List String
  pub topic_exclude : List String
  pub group_include : List String
  pub group_exclude : List String
  pub group_states : List String
  pub collect_last_stable_offset : Bool
  pub collect_consumer_groups : Bool
  pub collect_log_dirs : Bool
  pub log_dirs_every : ℤ
  pub collect_throughput_window : Bool
  pub throughput_window : ℤ
  pub throughput_window_every : ℤ
  pub collect_configs : Bool
  pub configs_every : ℤ
  pub collect_max_timestamp : Bool
  pub max_timestamp_every : ℤ
  pub collect_tiered_offsets : Bool
  pub collect_share_groups : Bool
  pub max_errors : ℤ
  pub max_error_samples : ℤ

-- `collectorOptions`: three phases are no settings, and are on until a gate clears them.
unfoldable pub collector_options : Config → Options
collector_options cfg = record {
  timeout = cfg.collection_timeout;
  include_internal_topics = cfg.include_internal_topics;
  topic_include = cfg.topic_include;
  topic_exclude = cfg.topic_exclude;
  group_include = cfg.group_include;
  group_exclude = cfg.group_exclude;
  group_states = cfg.group_states;
  collect_consumer_groups = cfg.collect_consumer_groups;
  collect_last_stable_offset = cfg.collect_last_stable_offset;
  collect_log_dirs = cfg.collect_log_dirs;
  log_dirs_every = cfg.log_dirs_every;
  collect_throughput_window = cfg.collect_throughput_window;
  throughput_window_width = cfg.throughput_window;
  throughput_window_every = cfg.throughput_window_every;
  collect_max_timestamp = cfg.collect_max_timestamp;
  collect_tiered_offsets = cfg.collect_tiered_offsets;
  collect_latest_tiered = true;
  collect_share_groups = cfg.collect_share_groups;
  collect_configs = cfg.collect_configs;
  configs_every = cfg.configs_every;
  max_timestamp_every = cfg.max_timestamp_every;
  collect_reassignments = true;
  collect_epoch_probes = true;
  limits = record { max_errors = cfg.max_errors; max_error_samples = cfg.max_error_samples };
}

-- One row of the table of gates, on the value of its flag.
unfoldable pub gate : Bool → Bool → Bool
gate on supported = if on && not supported then false else on

-- `applyCapabilityGates`; without a probe every phase stays as it is.
unfoldable pub apply_capability_gates : Options → Option Capabilities → Options
unfolding gate at_least
apply_capability_gates o none = o
apply_capability_gates o (some c) = record o {
  collect_consumer_groups =
      gate o.collect_consumer_groups (at_least c consumer_group_describe_key (pos 0));
  collect_last_stable_offset =
      gate o.collect_last_stable_offset (at_least c list_offsets_key (pos 2));
  collect_throughput_window =
      gate o.collect_throughput_window (at_least c list_offsets_key (pos 1));
  collect_reassignments =
      gate o.collect_reassignments (at_least c list_partition_reassignments_key (pos 0));
  collect_max_timestamp = gate o.collect_max_timestamp (at_least c list_offsets_key (pos 7));
  collect_tiered_offsets = gate o.collect_tiered_offsets (at_least c list_offsets_key (pos 8));
  collect_latest_tiered = gate o.collect_latest_tiered (at_least c list_offsets_key (pos 9));
  collect_share_groups = gate o.collect_share_groups (at_least c share_group_describe_key (pos 0));
  collect_configs = gate o.collect_configs (at_least c describe_configs_key (pos 1));
  collect_epoch_probes =
      gate o.collect_epoch_probes (at_least c offset_for_leader_epoch_key (pos 0));
}
