-- ===== src/Collector/Throughput.antt =====
-- internal/collector/throughput.go: the throughput window. Times are nanoseconds since the epoch.
pub mod Attached
pub mod Width
use streamsight_agent.Base.{
  ℕ, zero, suc, ◌+◌, ◌-◌, ◌*◌, ◌/◌, Bool, true, false, not, ◌&&◌, ◌||◌, Option, none, some, List,
  [], ◌∷◌, String, ℤ, pos, negsuc, leb, ltb, length, ◌==◌, lookup, string_eq, int_eq, if◌then◌else◌,
}
use streamsight_agent.Collector.GoError.{GoErrors}
use streamsight_agent.Collector.Limits.{Limits}
use streamsight_agent.Collector.Section.{Section, skipped, new_section_at, downgrade, stop}
use streamsight_agent.Collector.Request.{
  error_code, record_topic, record_partition, request_partial,
}
use streamsight_agent.Collector.Kadm.{Kadm, ListedOffset, ListedOffsets, TopicDetail, TopicDetails}
use streamsight_agent.Collector.Wire.{
  ThroughputWindow, WindowOffset, Partition, TopicMetrics, nullable_offset,
}
use streamsight_agent.Collector.Topics.{is_some, select_topics, topic_names}

abbrev window_api : String
window_api = "ListOffsetsAfterMilli"

-- Five minutes.
abbrev pub default_window_width : ℕ
default_window_width = 5 * 60 * 1000000000

abbrev pub positive_width : ℤ → ℕ
positive_width (pos zero) = default_window_width
positive_width (pos (suc n)) = suc n
positive_width (negsuc n) = default_window_width

-- `UnixMilli` of the instant `width` before `at`, rounded down.
abbrev pub millis_before : ℕ → ℕ → ℤ
millis_before at width =
    if leb width at then pos ((at - width) / 1000000) else negsuc ((width - at - 1) / 1000000)

-- `throughputWindow`.
unfoldable pub throughput_window : ℕ → ℤ → ThroughputWindow
throughput_window at width =
    let w = positive_width width in
    record { requested_ms = millis_before at w; width_ms = pos (w / 1000000) }

module _ (G : GoErrors) (K : Kadm G.GoError) where
  open G use {GoError, topic_not_listed, not_listed, negative_offset}

  -- `windowOffset`: the answer of one partition, on the section.
  unfoldable pub window_offset : Section → String → ListedOffset GoError → WindowOffset × Section
  unfolding nullable_offset
  window_offset sec topic o = elim o.err [
    | some e ↦ (
      record {
        offset = none;
        timestamp_ms = none;
        leader_epoch = o.leader_epoch;
        error_code = error_code G e;
      },
      record_partition G sec window_api topic o.partition e,
    )
    | none ↦
        let offset = nullable_offset o.offset false in
        (
          record {
            offset = offset;
            timestamp_ms = nullable_offset o.timestamp false;
            leader_epoch = o.leader_epoch;
            error_code = pos 0;
          },
          if is_some offset
              then sec
              else record_partition G sec window_api topic o.partition negative_offset,
        )
  ]

  -- The loop of `attachTopic` over the partitions.
  unfoldable pub attach_partitions :
      String → List (ℤ × ListedOffset GoError) → Section → List Partition → List Partition × Section
  unfolding window_offset
  attach_partitions topic parts sec [] = ([], sec)
  attach_partitions topic parts sec (p ∷ ps) = elim (lookup p.id parts) [
    | none ↦
        let sec' = record_partition G sec window_api topic p.id not_listed in
        let (rows, sec'') = attach_partitions topic parts sec' ps in (p ∷ rows, sec'')
    | some o ↦
        let (win, sec') = window_offset sec topic o in
        let (rows, sec'') = attach_partitions topic parts sec' ps in
        (record p { window = some win } ∷ rows, sec'')
  ]

  -- The error that kadm reports for a whole topic, as partition -1.
  abbrev pub topic_error : List (ℤ × ListedOffset GoError) → Option GoError
  topic_error parts = elim (lookup (negsuc 0) parts) [ none ↦ none | some o ↦ o.err ]

  unfoldable pub attach_topic :
      ListedOffsets GoError → Section → TopicMetrics → TopicMetrics × Section
  unfolding attach_partitions
  attach_topic listed sec tm = elim (lookup tm.name listed) [
    | none ↦ (tm, record_topic G sec window_api tm.name topic_not_listed)
    | some parts ↦ elim (topic_error parts) [
      | some e ↦ (tm, record_topic G sec window_api tm.name e)
      | none ↦
          let (rows, sec') = attach_partitions tm.name parts sec tm.partitions in
          (record tm { partitions = rows }, sec')
    ]
  ]

  unfoldable pub attach_topics :
      ListedOffsets GoError → Section → List TopicMetrics → List TopicMetrics × Section
  unfolding attach_topic
  attach_topics listed sec [] = ([], sec)
  attach_topics listed sec (tm ∷ tms) =
      let (tm', sec') = attach_topic listed sec tm in
      let (tms', sec'') = attach_topics listed sec' tms in (tm' ∷ tms', sec'')

  -- `attach`; a nil sample changes nothing.
  unfoldable pub attach :
      Option (ListedOffsets GoError) → Section → List TopicMetrics → List TopicMetrics × Section
  unfolding attach_topics
  attach none sec tms = (tms, sec)
  attach (some listed) sec tms = attach_topics listed sec tms

  abbrev skip_window :
      Section
      → ℕ
      → Option (List String) × Option ThroughputWindow × Option (ListedOffsets GoError) × Section
  skip_window sec until = (none, none, none, stop (downgrade sec skipped) until)

  -- `collectThroughputWindow`, on a section made at `at` and stopped at `until`, with the clock at `now`
  -- when it asks. The client answers for a millisecond and a list of names; the first component of
  -- the result is the list of names, if it was asked.
  unfoldable pub collect_throughput_window :
      (ℤ → List String → ListedOffsets GoError × Option GoError)
      → ℕ
      → ℕ
      → ℕ
      → Limits
      → (String → Bool)
      → Bool
      → Option (TopicDetails GoError)
      → ℤ
      → Bool
      → Option (List String) × Option ThroughputWindow × Option (ListedOffsets GoError) × Section
  unfolding throughput_window select_topics request_partial
  collect_throughput_window client at now until lim allow include_internal none width run =
      skip_window (new_section_at "topics_window" at lim) until
  collect_throughput_window client at now until lim allow include_internal (some tds) width run =
      let sec = new_section_at "topics_window" at lim in
      let names = topic_names G K (select_topics G K tds allow include_internal) in
      let window = throughput_window now width in
      let (listed, err) = client window.requested_ms names in
      let (sec', usable) = request_partial G sec window_api err (ltb 0 (length listed)) in
      if not run || length names == 0
      then skip_window sec until
      else (some names, some window, if usable then some listed else none, stop sec' until)
