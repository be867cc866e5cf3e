-- ===== src/Collector/Configs.antt =====
-- internal/collector/configs.go: the topic and broker configurations. A nil slice of entries is the empty
-- list: both read as no entries. A broker's name is its runes.
pub mod Selected
pub mod BrokerIds
use streamsight_agent.Base.{
  ℕ, ◌+◌, ◌-◌, ◌*◌, ◌%◌, ◌^◌, Bool, true, false, not, ◌&&◌, ◌||◌, Option, none, some, List, [], ◌∷◌,
  map, String, ℤ, pos, negsuc, ltb, leb, ◌==◌, length, lookup, insert, string_eq, string_ltb, ltb_ℤ,
  sort_by, if◌then◌else◌,
}
use streamsight_agent.Collector.GoError.{GoErrors}
use streamsight_agent.Collector.Limits.{Limits}
use streamsight_agent.Collector.Section.{
  Section, skipped, new_section_at, downgrade, stop, record_error,
}
use streamsight_agent.Collector.Request.{error_code, new_error, record_topic, request}
use streamsight_agent.Collector.Wire.{
  Broker, ClusterMetrics, TopicMetrics, ConfigEntry, TopicConfig, BrokerConfig,
}

abbrev pub topic_config_keys : List String
topic_config_keys =
    "cleanup.policy" ∷ "min.insync.replicas" ∷ "retention.ms" ∷ "retention.bytes"
    ∷ "unclean.leader.election.enable" ∷ "segment.bytes" ∷ "segment.ms" ∷ "message.timestamp.type"
    ∷ "max.message.bytes" ∷ "compression.type" ∷ []

abbrev pub broker_config_keys : List String
broker_config_keys =
    "offsets.retention.minutes" ∷ "min.insync.replicas" ∷ "unclean.leader.election.enable"
    ∷ "default.replication.factor" ∷ "num.partitions" ∷ "auto.create.topics.enable"
    ∷ "log.retention.ms" ∷ "log.retention.bytes" ∷ "log.segment.bytes" ∷ "num.replica.fetchers"
    ∷ "transaction.max.timeout.ms" ∷ []

-- kmsg.ConfigSource, the sources that the code names and any other.
pub data ConfigSource : Type 0 where
  dynamic_topic_config dynamic_broker_config dynamic_default_broker_config : ConfigSource
  static_broker_config default_config dynamic_broker_logger_config : ConfigSource
  client_metrics_config group_config other_source : ConfigSource

-- kadm.Config.
pub record Config : Type 0 where
  pub key : String
  pub value : Option String
  pub sensitive : Bool
  pub source : ConfigSource

-- kadm.ResourceConfig, by its name as a text and as runes.
pub record ResourceConfig {ℓ} (E : Type ℓ) : Type ℓ where
  pub name : String
  pub runes : List ℕ
  pub configs : List Config
  pub err : Option E

unfoldable pub config_source_name : ConfigSource → String
config_source_name dynamic_topic_config = "DYNAMIC_TOPIC_CONFIG"
config_source_name dynamic_broker_config = "DYNAMIC_BROKER_CONFIG"
config_source_name dynamic_default_broker_config = "DYNAMIC_DEFAULT_BROKER_CONFIG"
config_source_name static_broker_config = "STATIC_BROKER_CONFIG"
config_source_name default_config = "DEFAULT_CONFIG"
config_source_name dynamic_broker_logger_config = "DYNAMIC_BROKER_LOGGER_CONFIG"
config_source_name client_metrics_config = "CLIENT_METRICS_CONFIG"
config_source_name group_config = "GROUP_CONFIG"
config_source_name other_source = ""

unfoldable pub strip_sensitive : Config → Option String
strip_sensitive cfg = if cfg.sensitive then none else cfg.value

-- The map `byKey`: a later entry of the same key replaces an earlier one.
unfoldable pub by_key : List (String × Config) → List Config → List (String × Config)
by_key m [] = m
by_key m (cfg ∷ cfgs) = by_key (insert cfg.key cfg m) cfgs

unfoldable pub config_entry : Config → ConfigEntry
unfolding strip_sensitive config_source_name
config_entry cfg = record {
  key = cfg.key;
  value = strip_sensitive cfg;
  sensitive = cfg.sensitive;
  source = config_source_name cfg.source;
}

unfoldable pub pick_configs : List (String × Config) → List String → List ConfigEntry
unfolding config_entry
pick_configs m [] = []
pick_configs m (key ∷ keys) =
    let rest = pick_configs m keys in
    elim (lookup key m) [ none ↦ rest | some cfg ↦ config_entry cfg ∷ rest ]

unfoldable pub select_configs : List Config → List String → List ConfigEntry
unfolding by_key pick_configs
select_configs cfgs allow = if length cfgs == 0 then [] else pick_configs (by_key [] cfgs) allow

-- int32 arithmetic on a number that is not negative yet: the value modulo 2^32, read as signed.
abbrev pub signed_int32 : ℕ → ℤ
signed_int32 n =
    if ltb (n % 2 ^ 32) (2 ^ 31) then pos (n % 2 ^ 32) else negsuc (2 ^ 32 - n % 2 ^ 32 - 1)

-- The loop of `brokerIDOf`, on the bits of the int32; `none` is its return of -1.
unfoldable pub broker_id_loop : ℕ → List ℕ → Option ℕ
broker_id_loop id [] = some id
broker_id_loop id (r ∷ rs) =
    let rest = broker_id_loop ((id * 10 + (r - 48)) % 2 ^ 32) rs in
    if ltb r 48 || ltb 57 r then none else rest

unfoldable pub broker_id_of : List ℕ → ℤ
unfolding broker_id_loop
broker_id_of [] = negsuc 0
broker_id_of (r ∷ rs) = elim (broker_id_loop 0 (r ∷ rs)) [
  | none ↦ negsuc 0
  | some id ↦ signed_int32 id
]

module _ (G : GoErrors) where
  open G use {GoError}

  -- The loop of `collectTopicConfigs`.
  unfoldable pub topic_config_rows :
      Section → List (ResourceConfig GoError) → List TopicConfig × Section
  unfolding select_configs
  topic_config_rows sec [] = ([], sec)
  topic_config_rows sec (rc ∷ rcs) =
      let sec' : Section = elim rc.err [
        | none ↦ sec
        | some e ↦ record_topic G sec "DescribeConfigs" rc.name e
      ] in
      let row : TopicConfig = record {
        topic = rc.name;
        error_code = elim rc.err [ none ↦ pos 0 | some e ↦ error_code G e ];
        configs = select_configs rc.configs topic_config_keys;
      } in
      let (rows, sec'') = topic_config_rows sec' rcs in (row ∷ rows, sec'')

  -- The loop of `collectBrokerConfigs`.
  unfoldable pub broker_config_rows :
      Section → List (ResourceConfig GoError) → List BrokerConfig × Section
  unfolding select_configs broker_id_of new_error
  broker_config_rows sec [] = ([], sec)
  broker_config_rows sec (rc ∷ rcs) =
      let id = broker_id_of rc.runes in
      let sec' : Section = elim rc.err [
        | none ↦ sec
        | some e ↦
            record_error sec (record (new_error G sec "DescribeConfigs" e) { broker_id = some id })
              false
      ] in
      let row : BrokerConfig = record {
        broker = id;
        error_code = elim rc.err [ none ↦ pos 0 | some e ↦ error_code G e ];
        configs = select_configs rc.configs broker_config_keys;
      } in
      let (rows, sec'') = broker_config_rows sec' rcs in (row ∷ rows, sec'')

  abbrev topics_of : List TopicMetrics → List String
  topics_of ts = map (λ t. t.name) ts

  -- `collectTopicConfigs` on a fresh section, without the stop; the first component of the result is the
  -- list of topics that were asked about, if any were.
  unfoldable pub collect_topic_configs :
      (List String → List (ResourceConfig GoError) × Option GoError)
      → Section
      → List TopicMetrics
      → Bool
      → Option (List String) × List TopicConfig × Section
  unfolding topic_config_rows sort_by request
  collect_topic_configs client sec topics run =
      let names = topics_of topics in
      let (described, err) = client names in
      let (sec', usable) = request G sec "DescribeConfigs" err in
      let (rows, sec'') = topic_config_rows sec' described in
      if not run || length names == 0
      then (none, [], downgrade sec skipped)
      else (if not usable && length described == 0
          then (some names, [], sec')
          else (some names, sort_by (λ a b. string_ltb a.topic b.topic) rows, sec''))

  abbrev broker_ids : Option ClusterMetrics → List ℤ
  broker_ids none = []
  broker_ids (some cluster) = map (λ b. b.id) cluster.brokers

  -- `collectBrokerConfigs`, likewise; without a cluster there is no broker to ask about.
  unfoldable pub collect_broker_configs :
      (List ℤ → List (ResourceConfig GoError) × Option GoError)
      → Section
      → Option ClusterMetrics
      → Bool
      → Option (List ℤ) × List BrokerConfig × Section
  unfolding broker_config_rows sort_by request
  collect_broker_configs client sec cluster run =
      let ids = broker_ids cluster in
      let (described, err) = client ids in
      let (sec', usable) = request G sec "DescribeConfigs" err in
      let (rows, sec'') = broker_config_rows sec' described in
      if not run || length ids == 0
      then (none, [], downgrade sec skipped)
      else (if not usable && length described == 0
          then (some ids, [], sec')
          else (some ids, sort_by (λ a b. ltb_ℤ a.broker b.broker) rows, sec''))
