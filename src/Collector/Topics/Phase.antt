-- ===== src/Collector/Topics/Phase.antt =====
-- internal/collector/metadata.go: `collectCluster` and `collectTopics` over a client. The clock is two
-- functions: when the section of a name was made, and when it was stopped.
use streamsight_agent.Base.{
  ℕ, Bool, true, false, ◌&&◌, not, Option, none, some, List, [], ◌∷◌, ◌++◌, String, ltb, ◌==◌,
  length, if◌then◌else◌,
}
use streamsight_agent.Collector.GoError.{GoErrors}
use streamsight_agent.Collector.Limits.{Limits}
use streamsight_agent.Collector.Section.{Section, skipped, new_section_at, downgrade, stop}
use streamsight_agent.Collector.Request.{request, request_partial}
use streamsight_agent.Collector.Kadm.{Kadm, ListedOffsets, TopicDetail, TopicDetails}
use streamsight_agent.Collector.Wire.{Broker, ClusterMetrics, TopicMetrics}
use streamsight_agent.Collector.Topics.{
  TopicSections, TopicOptions, OffsetSample, build_topics, select_topics, topic_names,
}

-- The instants at which a section is made and stopped, by its name.
pub record Clock : Type 0 where
  pub at : String → ℕ
  pub until : String → ℕ

module _ (G : GoErrors) (K : Kadm G.GoError) where
  open G use {GoError}

  -- kadm.Metadata, with the topics as a map.
  pub record Metadata : Type 0 where
    pub cluster : String
    pub brokers : List Broker
    pub topics : TopicDetails GoError

  -- `collectCluster`.
  unfoldable pub collect_cluster :
      (Metadata × Option GoError)
      → Clock
      → Limits
      → Option ClusterMetrics × Option (TopicDetails GoError) × Section
  collect_cluster (meta, err) clock lim =
      let (sec, usable) =
        request G (new_section_at "cluster" (clock.at "cluster") lim) "Metadata" err in
      if not usable then (none, none, stop sec (clock.until "cluster")) else (
        some (record {
          id = meta.cluster;
          broker_count = length meta.brokers;
          brokers = meta.brokers;
        }),
        some meta.topics,
        stop sec (clock.until "cluster"),
      )

  -- The listings that the phase asks the client for, with the names of the topics.
  pub record TopicClient : Type 0 where
    pub list_start_offsets : List String → ListedOffsets GoError × Option GoError
    pub list_committed_offsets : List String → ListedOffsets GoError × Option GoError
    pub list_end_offsets : List String → ListedOffsets GoError × Option GoError
    pub list_max_timestamp_offsets : List String → ListedOffsets GoError × Option GoError
    pub list_local_log_start_offsets : List String → ListedOffsets GoError × Option GoError
    pub list_latest_remote_offsets : List String → ListedOffsets GoError × Option GoError

  -- A call of the client: what it was, the names that it received, and its answer.
  abbrev pub Call : Type 0
  Call = String × List String

  unfoldable pub call :
      String
      → (List String → ListedOffsets GoError × Option GoError)
      → List String
      → Call × (ListedOffsets GoError × Option GoError)
  call api list names = ((api, names), list names)

  -- A listing's answer, on its section.
  unfoldable pub sample_of :
      Section → String → ListedOffsets GoError × Option GoError → OffsetSample G K × Section
  unfolding request_partial
  sample_of sec api (listed, err) =
      let (sec', usable) = request_partial G sec api err (ltb 0 (length listed)) in
      (record { api = api; listed = listed; ok = usable; here = false }, sec')

  -- A listing that is asked for under a condition, on a section of its own, with the calls that it took.
  unfoldable pub sample_if :
      Bool
      → Clock
      → Limits
      → String
      → String
      → (List String → ListedOffsets GoError × Option GoError)
      → List String
      → List Call × OffsetSample G K × Section
  unfolding sample_of call
  sample_if runs clock lim name api list names =
      let sec = new_section_at name (clock.at name) lim in
      let (asked, answer) = call api list names in
      let (sample, sec') = sample_of sec api answer in
      if runs then (asked ∷ [], sample, stop sec' (clock.until name)) else (
        [],
        record { api = api; listed = []; ok = false; here = false },
        stop (downgrade sec skipped) (clock.until name),
      )

  abbrev skipped_section : Clock → Limits → String → Section
  skipped_section clock lim name =
      stop (downgrade (new_section_at name (clock.at name) lim) skipped) (clock.until name)

  -- The closure `skipped` of `collectTopics`, on the section of the start offsets.
  unfoldable pub skipped_sections : Clock → Limits → Section → TopicSections
  skipped_sections clock lim sec = record {
    starts = stop sec (clock.until "topics");
    lso = skipped_section clock lim "topics_lso";
    end = skipped_section clock lim "topics_end";
    max_ts = skipped_section clock lim "topics_max_timestamp";
    local = skipped_section clock lim "topics_local_start";
    remote = skipped_section clock lim "topics_remote_end";
  }

  -- The part of `collectTopics` that asks, about topics that were selected. The calls of the client are
  -- the first component of the result, in order.
  unfoldable pub sample_topics :
      TopicClient
      → Clock
      → Limits
      → TopicOptions
      → Bool
      → List (TopicDetail GoError)
      → List Call × List TopicMetrics × TopicSections
  unfolding sample_of sample_if build_topics call
  sample_topics client clock lim opts run_max_ts selected =
      let names = topic_names G K selected in
      let sec = new_section_at "topics" (clock.at "topics") lim in
      let (asked, answer) = call "ListStartOffsets" client.list_start_offsets names in
      let (starts, sec') = sample_of sec "ListStartOffsets" answer in
      let (asked_lso, lsos, lso_sec) =
        sample_if opts.collect_last_stable_offset clock lim "topics_lso" "ListCommittedOffsets"
          client.list_committed_offsets names in
      let (asked_end, ends, end_sec) =
        sample_if true clock lim "topics_end" "ListEndOffsets" client.list_end_offsets names in
      let (asked_max, max_ts, max_sec) =
        sample_if run_max_ts clock lim "topics_max_timestamp" "ListMaxTimestampOffsets"
          client.list_max_timestamp_offsets names in
      let (asked_local, locals, local_sec) =
        sample_if opts.collect_tiered_offsets clock lim "topics_local_start"
          "ListLocalLogStartOffsets" client.list_local_log_start_offsets names in
      let (asked_remote, remotes, remote_sec) =
        sample_if (opts.collect_tiered_offsets && opts.collect_latest_tiered) clock lim
          "topics_remote_end" "ListLatestRemoteOffsets" client.list_latest_remote_offsets names in
      let (topics, secs) =
        build_topics G K selected
          (record {
            starts = starts;
            lsos = lsos;
            ends = ends;
            max_ts = max_ts;
            locals = locals;
            remotes = remotes;
          })
          (record {
            starts = sec';
            lso = lso_sec;
            end = end_sec;
            max_ts = max_sec;
            local = local_sec;
            remote = remote_sec;
          }) in
      (
        asked ∷ asked_lso ++ asked_end ++ asked_max ++ asked_local ++ asked_remote,
        topics,
        record secs { starts = stop secs.starts (clock.until "topics") },
      )

  -- `collectTopics`, with the calls of the client as the first component of the result.
  unfoldable pub collect_topics :
      TopicClient
      → Clock
      → Limits
      → (String → Bool)
      → TopicOptions
      → Bool
      → Option (TopicDetails GoError)
      → List Call × List TopicMetrics × TopicSections
  unfolding select_topics sample_topics skipped_sections
  collect_topics client clock lim allow opts run_max_ts none = (
    [],
    [],
    skipped_sections clock lim
        (downgrade (new_section_at "topics" (clock.at "topics") lim) skipped),
  )
  collect_topics client clock lim allow opts run_max_ts (some tds) =
      let selected = select_topics G K tds allow opts.include_internal_topics in
      let (asked, topics, secs) = sample_topics client clock lim opts run_max_ts selected in
      if length selected == 0
      then ([], [], skipped_sections clock lim (new_section_at "topics" (clock.at "topics") lim))
      else (asked, topics, secs)
