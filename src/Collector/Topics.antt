-- ===== src/Collector/Topics.antt =====
-- internal/collector/metadata.go: the cluster's metadata and the topics phase. A section that the code
-- shares by pointer is threaded: an operation on one takes it and returns it. The name filter is a
-- function of the name, `allow` of Collector/Filter.
pub mod Selected
pub mod Nulls
pub mod Replicas
pub mod Phase
pub mod Rows
use streamsight_agent.Base.{
  ℕ, Bool, true, false, not, ◌&&◌, ◌||◌, Option, none, some, List, [], ◌∷◌, String, ℤ, pos, is_neg,
  eqb_ℤ, ltb, ◌==◌, length, lookup, insert, if◌then◌else◌, string_eq,
}
use streamsight_agent.Collector.GoError.{GoErrors}
use streamsight_agent.Collector.Section.{Section, skipped, downgrade, stop}
use streamsight_agent.Collector.Request.{
  error_code, record_topic, record_partition, request, request_partial,
}
use streamsight_agent.Collector.Kadm.{
  Kadm, ListedOffset, ListedOffsets, PartitionDetail, TopicDetail, TopicDetails,
}
use streamsight_agent.Collector.Wire.{
  Broker, ClusterMetrics, MaxTimestampOffset, TieredOffsets, Partition, TopicMetrics,
  nullable_offset,
}

-- The sections of the topics phase, in the order in which their offsets are sampled.
pub record TopicSections : Type 0 where
  pub starts : Section
  pub lso : Section
  pub end : Section
  pub max_ts : Section
  pub local : Section
  pub remote : Section

-- What the topics phase reads of the options.
pub record TopicOptions : Type 0 where
  pub include_internal_topics : Bool
  pub collect_last_stable_offset : Bool
  pub collect_tiered_offsets : Bool
  pub collect_latest_tiered : Bool

abbrev pub is_some {ℓ} : {A : Type ℓ} → Option A → Bool
is_some none = false
is_some (some a) = true

module _ (G : GoErrors) (K : Kadm G.GoError) where
  open G use {GoError, topic_not_listed, not_listed, negative_offset}

  -- One result of a listing; its section is threaded beside it.
  pub record OffsetSample : Type 0 where
    pub api : String
    pub listed : ListedOffsets GoError
    pub ok : Bool
    pub here : Bool

  pub record Samples : Type 0 where
    pub starts : OffsetSample
    pub lsos : OffsetSample
    pub ends : OffsetSample
    pub max_ts : OffsetSample
    pub locals : OffsetSample
    pub remotes : OffsetSample

  -- `topicListed`.
  unfoldable pub topic_listed : Section → String → ListedOffsets GoError → String → Bool × Section
  topic_listed sec api listed topic = elim (lookup topic listed) [
    | some _ ↦ (true, sec)
    | none ↦ (false, record_topic G sec api topic topic_not_listed)
  ]

  -- `enter`.
  unfoldable pub enter : OffsetSample → Section → String → OffsetSample × Section
  unfolding topic_listed
  enter s sec topic =
      if s.ok
      then (let (b, sec') = topic_listed sec s.api s.listed topic in (record s { here = b }, sec'))
      else (record s { here = false }, sec)

  abbrev or_negative : Option GoError → GoError
  or_negative none = negative_offset
  or_negative (some e) = e

  -- `lookupOffset`: the offset, the error, and the section.
  unfoldable pub lookup_offset :
      Section → String → ListedOffsets GoError → String → ℤ → Option ℤ × Option GoError × Section
  unfolding nullable_offset
  lookup_offset sec api listed topic partition = elim (K.lookup_listed listed topic partition) [
    | none ↦ (none, some not_listed, record_partition G sec api topic partition not_listed)
    | some o ↦ elim (nullable_offset o.offset (is_some o.err)) [
      | some v ↦ (some v, none, sec)
      | none ↦
          let err = or_negative o.err in
          (none, some err, record_partition G sec api topic partition err)
    ]
  ]

  -- `lookup` of a sample.
  unfoldable pub look : OffsetSample → Section → String → ℤ → Option ℤ × Option GoError × Section
  unfolding lookup_offset
  look s sec topic partition =
      if s.here then lookup_offset sec s.api s.listed topic partition else (none, none, sec)

  -- `maxTimestamp`.
  unfoldable pub max_timestamp :
      OffsetSample → Section → String → ℤ → Option MaxTimestampOffset × Section
  max_timestamp s sec topic partition =
      if not s.here then (none, sec) else elim (K.lookup_listed s.listed topic partition) [
        | none ↦ (none, sec)
        | some lo ↦ elim lo.err [
          | some e ↦ (
            some (record {
              offset = none;
              timestamp_ms = none;
              leader_epoch = lo.leader_epoch;
              error_code = error_code G e;
            }),
            record_partition G sec s.api topic partition e,
          )
          | none ↦ (
            some (record {
              offset = if is_neg lo.offset then none else some lo.offset;
              timestamp_ms = if is_neg lo.timestamp then none else some lo.timestamp;
              leader_epoch = lo.leader_epoch;
              error_code = pos 0;
            }),
            sec,
          )
        ]
      ]

  -- The loop of `replicationFactor`: the lowest number so far, if a partition was seen.
  unfoldable pub lowest_replicas : Option ℕ → List (PartitionDetail GoError) → ℕ
  lowest_replicas none [] = 0
  lowest_replicas (some n) [] = n
  lowest_replicas seen (p ∷ ps) = elim p.err [
    | some _ ↦ lowest_replicas seen ps
    | none ↦ elim seen [
      | none ↦ lowest_replicas (some (length p.replicas)) ps
      | some n ↦
          lowest_replicas (some (if ltb (length p.replicas) n then length p.replicas else n)) ps
    ]
  ]

  unfoldable pub replication_factor : List (PartitionDetail GoError) → ℕ
  unfolding lowest_replicas
  replication_factor parts = lowest_replicas none parts

  -- `if err != nil && part.ErrorCode == 0`.
  unfoldable pub first_code : ℤ → Option GoError → ℤ
  first_code code none = code
  first_code code (some e) = if eqb_ℤ code (pos 0) then error_code G e else code

  abbrev pub code_of : Option GoError → ℤ
  code_of none = pos 0
  code_of (some e) = error_code G e

  abbrev pub note_partition : Section → String → ℤ → Option GoError → Section
  note_partition sec topic partition none = sec
  note_partition sec topic partition (some e) = record_partition G sec "Metadata" topic partition e

  -- The loop's body in `buildTopic`: the row of one partition.
  unfoldable pub build_partition :
      String → Samples → TopicSections → PartitionDetail GoError → Partition × TopicSections
  unfolding look max_timestamp first_code
  build_partition topic m secs p =
      let sec₀ = note_partition secs.starts topic p.partition p.err in
      let (start, start_err, sec₁) = look m.starts sec₀ topic p.partition in
      let (lso, lso_err, lso_sec) = look m.lsos secs.lso topic p.partition in
      let (end, end_err, end_sec) = look m.ends secs.end topic p.partition in
      let (max_ts, max_sec) = max_timestamp m.max_ts secs.max_ts topic p.partition in
      let tiers = m.locals.here || m.remotes.here in
      let (local, local_err, local_sec) = look m.locals secs.local topic p.partition in
      let (remote, remote_err, remote_sec) = look m.remotes secs.remote topic p.partition in
      (
        record {
          id = p.partition;
          leader = p.leader;
          leader_epoch = p.leader_epoch;
          replicas = p.replicas;
          isr = p.isr;
          offline_replicas = p.offline_replicas;
          start_offset = start;
          end_offset = end;
          last_stable_offset = lso;
          max_timestamp = max_ts;
          tiered =
              if tiers
              then some (record { local_start_offset = local; remote_end_offset = remote })
              else none;
          window = none;
          error_code =
              first_code (first_code (first_code (code_of p.err) start_err) lso_err) end_err;
        },
        record {
          starts = sec₁;
          lso = lso_sec;
          end = end_sec;
          max_ts = max_sec;
          local = local_sec;
          remote = remote_sec;
        },
      )

  unfoldable pub build_partitions :
      String
      → Samples
      → TopicSections
      → List (PartitionDetail GoError)
      → List Partition × TopicSections
  unfolding build_partition
  build_partitions topic m secs [] = ([], secs)
  build_partitions topic m secs (p ∷ ps) =
      let (row, secs') = build_partition topic m secs p in
      let (rows, secs'') = build_partitions topic m secs' ps in (row ∷ rows, secs'')

  -- The six `enter` of `buildTopic`.
  unfoldable pub enter_all : Samples → TopicSections → String → Samples × TopicSections
  unfolding enter
  enter_all m secs topic =
      let (starts, starts_sec) = enter m.starts secs.starts topic in
      let (lsos, lso_sec) = enter m.lsos secs.lso topic in
      let (ends, end_sec) = enter m.ends secs.end topic in
      let (max_ts, max_sec) = enter m.max_ts secs.max_ts topic in
      let (locals, local_sec) = enter m.locals secs.local topic in
      let (remotes, remote_sec) = enter m.remotes secs.remote topic in
      (
        record {
          starts = starts;
          lsos = lsos;
          ends = ends;
          max_ts = max_ts;
          locals = locals;
          remotes = remotes;
        },
        record {
          starts = starts_sec;
          lso = lso_sec;
          end = end_sec;
          max_ts = max_sec;
          local = local_sec;
          remote = remote_sec;
        },
      )

  abbrev pub note_topic : TopicSections → TopicDetail GoError → TopicSections
  note_topic secs td = elim td.err [
    | none ↦ secs
    | some e ↦ record secs { starts = record_topic G secs.starts "Metadata" td.topic e }
  ]

  abbrev or_empty : Option String → String
  or_empty none = ""
  or_empty (some id) = id

  unfoldable pub build_topic :
      TopicDetail GoError → Samples → TopicSections → TopicMetrics × TopicSections
  unfolding replication_factor enter_all build_partitions
  build_topic td m secs =
      let parts = K.sorted_partitions td.partitions in
      let (m', secs') = enter_all m (note_topic secs td) td.topic in
      let (rows, secs'') = build_partitions td.topic m' secs' parts in
      (
        record {
          name = td.topic;
          id = or_empty td.id;
          internal = td.is_internal;
          partition_count = length parts;
          replication_factor = replication_factor parts;
          partitions = rows;
          error_code = code_of td.err;
        },
        secs'',
      )

  unfoldable pub build_topics :
      List (TopicDetail GoError) → Samples → TopicSections → List TopicMetrics × TopicSections
  unfolding build_topic
  build_topics [] m secs = ([], secs)
  build_topics (td ∷ tds) m secs =
      let (row, secs') = build_topic td m secs in
      let (rows, secs'') = build_topics tds m secs' in (row ∷ rows, secs'')

  -- The loop of `selectTopics`.
  unfoldable pub select_from :
      (String → Bool) → Bool → List (TopicDetail GoError) → List (TopicDetail GoError)
  select_from allow include_internal [] = []
  select_from allow include_internal (td ∷ tds) =
      let rest = select_from allow include_internal tds in
      if td.is_internal && not include_internal
      then rest
      else (if not (allow td.topic) then rest else td ∷ rest)

  unfoldable pub select_topics :
      TopicDetails GoError → (String → Bool) → Bool → List (TopicDetail GoError)
  unfolding select_from
  select_topics tds allow include_internal =
      select_from allow include_internal (K.sorted_topics tds)

  -- `internalTopics`; a nil map and an empty one read alike.
  unfoldable pub internal_topics : TopicDetails GoError → List (String × Bool)
  internal_topics [] = []
  internal_topics ((name, td) ∷ tds) =
      let rest = internal_topics tds in if td.is_internal then insert name true rest else rest

  unfoldable pub topic_names : List (TopicDetail GoError) → List String
  topic_names [] = []
  topic_names (td ∷ tds) = td.topic ∷ topic_names tds
