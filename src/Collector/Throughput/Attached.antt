-- ===== src/Collector/Throughput/Attached.antt =====
-- What `attach` of internal/collector/throughput.go writes onto the topics.
use streamsight_agent.Base.{
  ◌≡◌, ◌≢◌, ◌⊎◌, inl, inr, refl, ap, Option, none, some, List, [], ◌∷◌, map, String, ℤ, is_neg,
  lookup, string_eq, int_eq, All, Bool-cases, Option-cases, arith,
}
use streamsight_agent.Collector.GoError.{GoErrors}
use streamsight_agent.Collector.Section.{Section}
use streamsight_agent.Collector.Request.{record_partition}
use streamsight_agent.Collector.Request.Told.{
  Admits, Worsens, record_topic-Admits, record_partition-Admits,
}
use streamsight_agent.Collector.Kadm.{Kadm, ListedOffset, ListedOffsets}
use streamsight_agent.Collector.Wire.{WindowOffset, Partition, TopicMetrics, nullable_offset}
use streamsight_agent.Collector.Throughput.{
  window_api, window_offset, attach_partitions, topic_error, attach_topic, attach_topics, attach,
}

abbrev bare : Partition → Partition
bare p = record p { window = none }

-- A topic without its windows.
unfoldable pub without_windows : TopicMetrics → TopicMetrics
without_windows tm = record tm { partitions = map bare tm.partitions }

-- A window with an offset.
IsKnown : Option WindowOffset → Type 0
IsKnown none = ⊥
IsKnown (some w) = w.offset ≢ none

module _ (G : GoErrors) (K : Kadm G.GoError) where
  open G use {GoError, topic_not_listed, not_listed, negative_offset}

  abbrev OnPartitions : Section → List Partition → List Partition × Section → Type 0
  OnPartitions sec ps (rows, sec') =
      (map bare rows ≡ map bare ps)
      × Worsens sec sec'
      × (All (λ p. IsKnown p.window) rows ⊎ Admits sec')

  window_offset-IsKnown :
      (sec : Section) (topic : String) (o : ListedOffset GoError)
      → Worsens sec (window_offset G K sec topic o).1
        × (IsKnown (some (window_offset G K sec topic o).0)
            ⊎ Admits (window_offset G K sec topic o).1)
  unfolding window_offset nullable_offset IsKnown
  window_offset-IsKnown sec topic o = elim (Option-cases o.err) [
    | inr (e, h) ↦
        rw (h, window_offset)
          ((record_partition-Admits G sec _ _ _ _).1, inr (record_partition-Admits G sec _ _ _ _).0)
    | inl h ↦ elim (Bool-cases (is_neg o.offset)) [
      | inl n ↦
          rw (h, window_offset, n)
            (
              (record_partition-Admits G sec _ _ _ _).1,
              inr (record_partition-Admits G sec _ _ _ _).0,
            )
      | inr n ↦ rw (h, window_offset, n) (omega arith, inl (λ x. ground (arith, x)))
    ]
  ]

  attach_partitions-windows :
      (topic : String) (parts : List (ℤ × ListedOffset GoError)) (sec : Section)
      (ps : List Partition)
      → OnPartitions sec ps (attach_partitions G K topic parts sec ps)
  unfolding attach_partitions IsKnown
  attach_partitions-windows topic parts sec [] = (refl, omega arith, inl tt)
  attach_partitions-windows topic parts sec (p ∷ ps) = elim (Option-cases (lookup p.id parts)) [
    | inl h ↦
        let (a, v) = record_partition-Admits G sec window_api topic p.id not_listed in
        let (e, w, k) =
          attach_partitions-windows topic parts
            (record_partition G sec window_api topic p.id not_listed) ps in
        rw (h, attach_partitions)
          (ap (λ xs. bare p ∷ xs) e, omega (arith, v, w), inr (omega (arith, a, w)))
    | inr (o, h) ↦
        let (w, k) = window_offset-IsKnown sec topic o in
        let (e, w', ks) =
          attach_partitions-windows topic parts (window_offset G K sec topic o).1 ps in
        rw (h, attach_partitions)
          (
            ap (λ xs. bare p ∷ xs) e,
            omega (arith, w, w'),
            elim k [
              | inr a ↦ inr (omega (arith, a, w'))
              | inl a ↦ elim ks [ inl b ↦ inl (a, b) | inr b ↦ inr b ]
            ],
          )
  ]

  -- Every partition of a topic has a window with an offset.
  pub HasWindows : TopicMetrics → Type 0
  HasWindows tm = All (λ p. IsKnown p.window) tm.partitions

  attach_topic-windows :
      (listed : ListedOffsets GoError) (sec : Section) (tm : TopicMetrics)
      → (without_windows (attach_topic G K listed sec tm).0 ≡ without_windows tm)
        × Worsens sec (attach_topic G K listed sec tm).1
        × (HasWindows (attach_topic G K listed sec tm).0
            ⊎ Admits (attach_topic G K listed sec tm).1)
  unfolding attach_topic without_windows HasWindows
  attach_topic-windows listed sec tm = elim (Option-cases (lookup tm.name listed)) [
    | inl h ↦
        let (a, w) = record_topic-Admits G sec window_api tm.name topic_not_listed in
        rw (h, attach_topic) (refl, w, inr a)
    | inr (parts, h) ↦ elim (Option-cases (topic_error G K parts)) [
      | inr (e, f) ↦
          let (a, w) = record_topic-Admits G sec window_api tm.name e in
          rw (h, f, attach_topic) (refl, w, inr a)
      | inl f ↦
          let (e, w, k) = attach_partitions-windows tm.name parts sec tm.partitions in
          rw (h, f, attach_topic) (ap (λ ps. record tm { partitions = ps }) e, w, k)
    ]
  ]

  attach_topics-windows :
      (listed : ListedOffsets GoError) (sec : Section) (tms : List TopicMetrics)
      → (map without_windows (attach_topics G K listed sec tms).0 ≡ map without_windows tms)
        × Worsens sec (attach_topics G K listed sec tms).1
        × (All HasWindows (attach_topics G K listed sec tms).0
            ⊎ Admits (attach_topics G K listed sec tms).1)
  unfolding attach_topics
  attach_topics-windows listed sec [] = (refl, omega arith, inl tt)
  attach_topics-windows listed sec (tm ∷ tms) =
      let (e, w, k) = attach_topic-windows listed sec tm in
      let (e', w', ks) = attach_topics-windows listed (attach_topic G K listed sec tm).1 tms in
      (
        rw (e, e') refl,
        omega (arith, w, w'),
        elim k [
          | inr a ↦ inr (omega (arith, a, w'))
          | inl a ↦ elim ks [ inl b ↦ inl (a, b) | inr b ↦ inr b ]
        ],
      )

  -- Attaching an answer changes nothing in the topics but their windows, the error codes included, and
  -- unless it gives every partition a window with an offset the section is at least `partial`.
  pub attach-windows :
      (listed : ListedOffsets GoError) (sec : Section) (tms : List TopicMetrics)
      → (map without_windows (attach G K (some listed) sec tms).0 ≡ map without_windows tms)
        × (All HasWindows (attach G K (some listed) sec tms).0
            ⊎ Admits (attach G K (some listed) sec tms).1)
  unfolding attach
  attach-windows listed sec tms = let (e, w, k) = attach_topics-windows listed sec tms in (e, k)
