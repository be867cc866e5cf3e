-- ===== src/Collector/LogDirs.antt =====
-- internal/collector/logdirs.go: the log directories. kadm, kerr and kmsg are outside the repository: their
-- answers are records, `error_for_code` is kerr.ErrorForCode, and `as_error` makes an error of a
-- kadm.ShardErrors. A report is a map by broker, as an association list in the order of an iteration.
pub mod Refusals
pub mod Shards
pub mod Stable
use streamsight_agent.Base.{
  ℕ, ◌⊎◌, inl, inr, Bool, true, false, not, ◌&&◌, ◌||◌, Option, none, some, List, [], ◌∷◌, ◌++◌,
  map, String, ℤ, pos, length, ltb, ◌==◌, lookup, insert, int_eq, sort_by, number_text_ltb,
  text_number_ltb, if◌then◌else◌,
}
use streamsight_agent.Collector.GoError.{GoErrors, ShardErrors}
use streamsight_agent.Collector.Limits.{Limits}
use streamsight_agent.Collector.Section.{Section, skipped, new_section_at, downgrade, stop}
use streamsight_agent.Collector.Request.{error_code, record_log_dir, request}
use streamsight_agent.Collector.Kadm.{Kadm, PartitionDetail, TopicDetail, TopicDetails}
use streamsight_agent.Collector.Wire.{
  Broker, ClusterMetrics, LogDir, LogDirPartition, nullable_offset,
}
use streamsight_agent.Collector.Topics.{select_topics}

abbrev pub api_describe_log_dirs : String
api_describe_log_dirs = "DescribeLogDirs"

-- kmsg.DescribeLogDirsResponse: the replicas of a directory are listed by topic.
pub record ReplicaAnswer : Type 0 where
  pub partition : ℤ
  pub size : ℤ
  pub offset_lag : ℤ
  pub is_future : Bool

pub record DirAnswer : Type 0 where
  pub error_code : ℤ
  pub dir : String
  pub topics : List (String × List ReplicaAnswer)
  pub total_bytes : ℤ
  pub usable_bytes : ℤ

pub record LogDirsAnswer : Type 0 where
  pub error_code : ℤ
  pub dirs : List DirAnswer

-- kgo.ResponseShard; a response of another type is `none`.
pub record Shard {ℓ} (E : Type ℓ) : Type ℓ where
  pub node_id : ℤ
  pub err : Option E
  pub resp : Option LogDirsAnswer

-- kadm.DescribedLogDir, with its topics in the order of `Sorted`.
pub record KadmDir {ℓ} (E : Type ℓ) : Type ℓ where
  pub dir : String
  pub err : Option E
  pub partitions : List LogDirPartition

-- `describedDir`.
pub record DescribedDir {ℓ} (E : Type ℓ) : Type ℓ where
  pub broker : ℤ
  pub dir : String
  pub err : Option E
  pub total_bytes : Option ℤ
  pub usable_bytes : Option ℤ
  pub partitions : Option (List LogDirPartition)

abbrev pub LogDirReport {ℓ} : Type ℓ → Type ℓ
LogDirReport E = List (ℤ × List (DescribedDir E))

unfoldable pub nullable_bytes : ℤ → Option ℤ
unfolding nullable_offset
nullable_bytes v = nullable_offset v false

abbrev pub replica_row : String → ReplicaAnswer → LogDirPartition
replica_row topic p = record {
  topic = topic;
  partition = p.partition;
  size = p.size;
  offset_lag = p.offset_lag;
  is_future = p.is_future;
}

-- The two loops of `logDirPartitions`, before the sort.
unfoldable pub replica_rows : List (String × List ReplicaAnswer) → List LogDirPartition
replica_rows [] = []
replica_rows ((topic, ps) ∷ ts) = map (replica_row topic) ps ++ replica_rows ts

abbrev pub partition_ltb : LogDirPartition → LogDirPartition → Bool
partition_ltb l r = text_number_ltb (l.topic, l.partition) (r.topic, r.partition)

unfoldable pub log_dir_partitions : DirAnswer → List LogDirPartition
unfolding replica_rows sort_by
log_dir_partitions d = sort_by partition_ltb (replica_rows d.topics)

module _ (G : GoErrors) where
  open G use {GoError, no_log_dirs, not_log_dirs_response}

  abbrev pub dir_ltb : DescribedDir GoError → DescribedDir GoError → Bool
  dir_ltb l r = number_text_ltb (l.broker, l.dir) (r.broker, r.dir)

  unfoldable pub all_dirs : LogDirReport GoError → List (DescribedDir GoError)
  all_dirs [] = []
  all_dirs ((broker, dirs) ∷ r) = dirs ++ all_dirs r

  -- `sorted`.
  unfoldable pub sorted_dirs : LogDirReport GoError → List (DescribedDir GoError)
  unfolding all_dirs sort_by
  sorted_dirs r = sort_by dir_ltb (all_dirs r)

  -- The row of a directory: the first loop's body of `buildLogDirs`.
  unfoldable pub dir_row : DescribedDir GoError → LogDir
  dir_row d = record {
    broker = d.broker;
    dir = d.dir;
    total_bytes = d.total_bytes;
    usable_bytes = d.usable_bytes;
    error_code = elim d.err [ none ↦ pos 0 | some e ↦ error_code G e ];
    partitions = elim d.err [ none ↦ d.partitions | some e ↦ none ];
  }

  unfoldable pub record_dirs : Section → List (DescribedDir GoError) → Section
  record_dirs sec [] = sec
  record_dirs sec (d ∷ ds) = elim d.err [
    | none ↦ record_dirs sec ds
    | some e ↦ record_dirs (record_log_dir G sec api_describe_log_dirs d.broker d.dir e) ds
  ]

  abbrev pub is_silent : LogDirReport GoError → ℤ → Bool
  is_silent described id = elim (lookup id described) [
    | none ↦ false
    | some dirs ↦ length dirs == 0
  ]

  -- The second loop of `buildLogDirs`: brokers that answered with nothing.
  unfoldable pub record_silent : LogDirReport GoError → Section → List Broker → Section
  record_silent described sec [] = sec
  record_silent described sec (b ∷ bs) =
      let told =
        record_silent described (record_log_dir G sec api_describe_log_dirs b.id "" no_log_dirs)
          bs in
      let skip = record_silent described sec bs in if is_silent described b.id then told else skip

  unfoldable pub build_log_dirs :
      LogDirReport GoError → ClusterMetrics → Section → List LogDir × Section
  unfolding sorted_dirs dir_row record_dirs record_silent
  build_log_dirs described cluster sec =
      let sorted = sorted_dirs described in
      (map dir_row sorted, record_silent described (record_dirs sec sorted) cluster.brokers)

  -- The loop of `kadmLogDirs` over the directories of one broker.
  unfoldable pub kadm_dir : ℤ → KadmDir GoError → DescribedDir GoError
  kadm_dir broker d = record {
    broker = broker;
    dir = d.dir;
    err = d.err;
    total_bytes = none;
    usable_bytes = none;
    partitions = elim d.err [ none ↦ some d.partitions | some e ↦ none ];
  }

  unfoldable pub kadm_log_dirs : List (ℤ × List (KadmDir GoError)) → LogDirReport GoError
  unfolding kadm_dir
  kadm_log_dirs [] = []
  kadm_log_dirs ((broker, dirs) ∷ described) =
      (broker, map (kadm_dir broker) dirs) ∷ kadm_log_dirs described

  module _ (error_for_code : ℤ → Option GoError) (as_error : ShardErrors GoError → GoError) where
    -- The loop's body of `shardLogDirs`.
    unfoldable pub described_dir : ℤ → DirAnswer → DescribedDir GoError
    unfolding nullable_bytes log_dir_partitions
    described_dir broker d =
        let err = error_for_code d.error_code in
        record {
          broker = broker;
          dir = d.dir;
          err = err;
          total_bytes = nullable_bytes d.total_bytes;
          usable_bytes = nullable_bytes d.usable_bytes;
          partitions = elim err [ none ↦ some (log_dir_partitions d) | some e ↦ none ];
        }

    -- `shardLogDirs`: the error, or the directories.
    unfoldable pub shard_log_dirs : Shard GoError → GoError ⊎ List (DescribedDir GoError)
    unfolding described_dir
    shard_log_dirs shard = elim shard.err [
      | some e ↦ inl e
      | none ↦ elim shard.resp [
        | none ↦ inl not_log_dirs_response
        | some resp ↦ elim (error_for_code resp.error_code) [
          | some e ↦ inl e
          | none ↦ inr (map (described_dir shard.node_id) resp.dirs)
        ]
      ]
    ]

    -- The loop of `logDirShards`: the report, and the errors in the order of the shards.
    unfoldable pub fold_shards :
        LogDirReport GoError
        → List (ℤ × GoError)
        → List (Shard GoError)
        → LogDirReport GoError × List (ℤ × GoError)
    unfolding shard_log_dirs
    fold_shards report errs [] = (report, errs)
    fold_shards report errs (shard ∷ shards) = elim (shard_log_dirs shard) [
      | inl e ↦ fold_shards report (errs ++ (shard.node_id, e) ∷ []) shards
      | inr dirs ↦ fold_shards (insert shard.node_id dirs report) errs shards
    ]

    unfoldable pub log_dir_shards : List (Shard GoError) → LogDirReport GoError × Option GoError
    unfolding fold_shards
    log_dir_shards shards =
        let (report, errs) = fold_shards [] [] shards in
        if length errs == 0 then (report, none) else (
          report,
          some (as_error (record { errs = errs; all_failed = length errs == length shards })),
        )

    -- The client of this phase: whether every broker serves version 4, the raw requests and kadm's.
    pub record LogDirClient : Type 0 where
      pub supports_total_bytes : Bool
      pub request_sharded : List (String × ℤ) → List (Shard GoError)
      pub describe_all_log_dirs :
          List (String × ℤ) → List (ℤ × List (KadmDir GoError)) × Option GoError

    unfoldable pub describe_log_dirs :
        LogDirClient → List (String × ℤ) → LogDirReport GoError × Option GoError
    unfolding log_dir_shards kadm_log_dirs
    describe_log_dirs client set =
        if client.supports_total_bytes
        then log_dir_shards (client.request_sharded set)
        else (let (described, err) = client.describe_all_log_dirs set in
            (kadm_log_dirs described, err))

    module _ (K : Kadm GoError) where
      abbrev named : String → List (PartitionDetail GoError) → List (String × ℤ)
      named topic [] = []
      named topic (p ∷ ps) = (topic, p.partition) ∷ named topic ps

      unfoldable pub named_partitions : List (TopicDetail GoError) → List (String × ℤ)
      named_partitions [] = []
      named_partitions (td ∷ tds) =
          named td.topic (K.sorted_partitions td.partitions) ++ named_partitions tds

      -- `logDirTopics`: the set of topics and partitions, in the order in which they are added.
      unfoldable pub log_dir_topics :
          TopicDetails GoError → (String → Bool) → Bool → List (String × ℤ)
      unfolding select_topics named_partitions
      log_dir_topics tds allow include_internal =
          named_partitions (select_topics G K tds allow include_internal)

      -- `collectLogDirs`, on a fresh section. The first component of the result is what was asked
      -- about, if anything was.
      unfoldable pub collect_log_dirs :
          LogDirClient
          → ℕ
          → ℕ
          → Limits
          → (String → Bool)
          → Bool
          → Option ClusterMetrics
          → Option (TopicDetails GoError)
          → Bool
          → Option (List (String × ℤ)) × List LogDir × Section
      unfolding describe_log_dirs log_dir_topics build_log_dirs request
      collect_log_dirs client at until lim allow include_internal (some cluster) (some tds) true =
          let sec = new_section_at "log_dirs" at lim in
          let set = log_dir_topics tds allow include_internal in
          let (described, err) = describe_log_dirs client set in
          let (sec', usable) = request G sec api_describe_log_dirs err in
          let (rows, sec'') = build_log_dirs described cluster sec' in
          if length set == 0
          then (none, [], stop (downgrade sec skipped) until)
          else (if not usable && length described == 0
              then (some set, [], stop sec' until)
              else (some set, rows, stop sec'' until))
      collect_log_dirs client at until lim allow include_internal cluster tds run =
          (none, [], stop (downgrade (new_section_at "log_dirs" at lim) skipped) until)
