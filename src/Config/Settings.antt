-- ===== src/Config/Settings.antt =====
-- internal/config/config.go: the second half of Load, the settings of the collector, and the whole. The fields
-- of Config stand in the groups in which Load reads them; those for the collector are Agent.Gates.Config.
use streamsight_agent.Base.{
  ℕ, zero, suc, ◌+◌, ◌-◌, ◌*◌, ◌/◌, ◌^◌, ◌⊎◌, true, false, not, Option, List, [], ◌∷◌, String, ℤ,
  pos, negsuc, is_neg, if◌then◌else◌,
}
use streamsight_agent.Agent.Gates.{Config as CollectorConfig}
use streamsight_agent.Export.Http.{int64, second}
use streamsight_agent.Config.Parser.{
  GoLib, Problem, not_one_of, Parsed, Stepped, joined, in_order, result, when, is_blank,
  known_level, split_list, parse_states, getenv, str, duration, integer, boolean, patterns,
}
use streamsight_agent.Config.Load.{
  KafkaConfig, TargetConfig, ExportConfig, checked, not_positive, below_one, load_kafka,
  load_target, exporter_steps, load_exporter,
}

abbrev pub minute : ℕ
minute = 60 * second

abbrev pub collection_timeout_ratio : ℕ
collection_timeout_ratio = 80

pub record Config : Type 0 where
  pub kafka : KafkaConfig
  pub target : TargetConfig
  pub exporter : ExportConfig
  pub collection_interval : ℤ
  pub collector : CollectorConfig
  pub log_level : String
  pub agent_instance_id : String

-- `interval * collectionTimeoutRatio / 100` in 64 bits: the product wraps, and the quotient is cut
-- towards 0.
unfoldable pub hundredth : ℤ → ℤ
hundredth (pos n) = pos (n / 100)
hundredth (negsuc n) = elim ((n + 1) / 100) [ zero ↦ pos 0 | suc q ↦ negsuc q ]

unfoldable pub default_timeout : ℤ → ℤ
unfolding hundredth
default_timeout (pos n) = hundredth (int64 (n * collection_timeout_ratio))
default_timeout (negsuc n) =
    hundredth (int64 (2 ^ 64 * collection_timeout_ratio - (n + 1) * collection_timeout_ratio))

module _ (G : GoLib) (env : String → Option String) where
  unfoldable pub load_interval : Parsed ℤ
  unfolding checked
  load_interval =
      checked not_positive "COLLECTION_INTERVAL"
        (duration G env "COLLECTION_INTERVAL" (pos (5 * second)))

  -- The settings of the collector, after the interval, of which the timeout's default is a part.
  unfoldable pub collector_steps : ℤ → Stepped CollectorConfig
  unfolding checked default_timeout parse_states
  collector_steps interval =
      let timeout =
        checked not_positive "COLLECTION_TIMEOUT"
          (duration G env "COLLECTION_TIMEOUT" (default_timeout interval)) in
      let internal = boolean G env "INCLUDE_INTERNAL_TOPICS" false in
      let topics_in = patterns G env "TOPIC_INCLUDE" in
      let topics_out = patterns G env "TOPIC_EXCLUDE" in
      let groups_in = patterns G env "GROUP_INCLUDE" in
      let groups_out = patterns G env "GROUP_EXCLUDE" in
      let states = parse_states G (split_list G (getenv G env "GROUP_STATES")) in
      let lso = boolean G env "COLLECT_LAST_STABLE_OFFSET" true in
      let consumers = boolean G env "COLLECT_CONSUMER_GROUPS" true in
      let log_dirs = boolean G env "COLLECT_LOG_DIRS" true in
      let log_dirs_every =
        checked below_one "LOG_DIRS_EVERY" (integer G env "LOG_DIRS_EVERY" (pos 24)) in
      let windows = boolean G env "COLLECT_THROUGHPUT_WINDOW" false in
      let window =
        checked not_positive "THROUGHPUT_WINDOW"
          (duration G env "THROUGHPUT_WINDOW" (pos (5 * minute))) in
      let window_every =
        checked below_one "THROUGHPUT_WINDOW_EVERY"
          (integer G env "THROUGHPUT_WINDOW_EVERY" (pos 1)) in
      let max_ts = boolean G env "COLLECT_MAX_TIMESTAMP" true in
      let max_ts_every =
        checked below_one "MAX_TIMESTAMP_EVERY" (integer G env "MAX_TIMESTAMP_EVERY" (pos 12)) in
      let tiered = boolean G env "COLLECT_TIERED_OFFSETS" false in
      let shares = boolean G env "COLLECT_SHARE_GROUPS" false in
      let configs = boolean G env "COLLECT_CONFIGS" true in
      let configs_every =
        checked below_one "CONFIGS_EVERY" (integer G env "CONFIGS_EVERY" (pos 360)) in
      let max_errors = checked is_neg "MAX_ERRORS" (integer G env "MAX_ERRORS" (pos 1000)) in
      let max_samples =
        checked below_one "MAX_ERROR_SAMPLES" (integer G env "MAX_ERROR_SAMPLES" (pos 1)) in
      record {
        value = record {
          collection_timeout = timeout.value;
          include_internal_topics = internal.value;
          topic_include = topics_in.value;
          topic_exclude = topics_out.value;
          group_include = groups_in.value;
          group_exclude = groups_out.value;
          group_states = states.value;
          collect_last_stable_offset = lso.value;
          collect_consumer_groups = consumers.value;
          collect_log_dirs = log_dirs.value;
          log_dirs_every = log_dirs_every.value;
          collect_throughput_window = windows.value;
          throughput_window = window.value;
          throughput_window_every = window_every.value;
          collect_configs = configs.value;
          configs_every = configs_every.value;
          collect_max_timestamp = max_ts.value;
          max_timestamp_every = max_ts_every.value;
          collect_tiered_offsets = tiered.value;
          collect_share_groups = shares.value;
          max_errors = max_errors.value;
          max_error_samples = max_samples.value;
        };
        steps =
            timeout.errs ∷ internal.errs ∷ topics_in.errs ∷ topics_out.errs ∷ groups_in.errs
            ∷ groups_out.errs ∷ states.errs ∷ lso.errs ∷ consumers.errs ∷ log_dirs.errs
            ∷ log_dirs_every.errs ∷ windows.errs ∷ window.errs ∷ window_every.errs ∷ max_ts.errs
            ∷ max_ts_every.errs ∷ tiered.errs ∷ shares.errs ∷ configs.errs ∷ configs_every.errs
            ∷ max_errors.errs ∷ max_samples.errs ∷ [];
      }

  abbrev pub load_collector : ℤ → Parsed CollectorConfig
  load_collector interval = joined (collector_steps interval)

  -- The whole of what `Load` reads: `fresh_id` is `defaultInstanceID()`.
  unfoldable pub load_steps : String → Stepped Config
  unfolding when load_interval collector_steps load_kafka load_target exporter_steps
  load_steps fresh_id =
      let kafka = load_kafka G env in
      let target = load_target G env in
      let exporter = load_exporter G env in
      let interval = load_interval in
      let collector = load_collector interval.value in
      let level = G.to_lower (G.trim_space (str G env "LOG_LEVEL" "info")) in
      let id = G.trim_space (getenv G env "AGENT_INSTANCE_ID") in
      record {
        value = record {
          kafka = kafka.value;
          target = target.value;
          exporter = exporter.value;
          collection_interval = interval.value;
          collector = collector.value;
          log_level = level;
          agent_instance_id = if is_blank id then fresh_id else id;
        };
        steps =
            kafka.errs
            ∷ target.errs
            ∷ exporter.errs
            ∷ interval.errs
            ∷ collector.errs
            ∷ when (not (known_level level)) (not_one_of "LOG_LEVEL" level)
            ∷ [];
      }

  -- `Load`, which fails if there is a problem.
  unfoldable pub load : String → List Problem ⊎ Config
  unfolding load_steps in_order result
  load fresh_id = let c = joined (load_steps fresh_id) in result c.errs c.value
