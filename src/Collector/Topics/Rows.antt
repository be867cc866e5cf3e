-- ===== src/Collector/Topics/Rows.antt =====
-- The rows of `buildTopic` of internal/collector/metadata.go against the listings that they are made of.
use streamsight_agent.Base.{
  ◌≡◌, ◌↔◌, inl, inr, refl, subst, Forall₂-length, true, false, ◌&&◌, Forall₂, lookup, string_eq,
  Option, none, some, List, [], ◌∷◌, String, ℤ, pos, is_neg, eqb_ℤ, eqb_ℤ_iff, length,
  if◌then◌else◌, Bool-cases, Option-cases, arith,
}
use streamsight_agent.Collector.GoError.{GoErrors}
use streamsight_agent.Collector.Section.{Section}
use streamsight_agent.Collector.Kadm.{
  Kadm, ListedOffset, ListedOffsets, PartitionDetail, TopicDetail,
}
use streamsight_agent.Collector.Wire.{Partition, nullable_offset}
use streamsight_agent.Collector.Topics.{
  is_some, TopicSections, OffsetSample, Samples, first_code, lookup_offset, look, build_partition,
  build_partitions, topic_listed, enter, enter_all, build_topic, note_partition, note_topic,
  code_of,
}

module _ (G : GoErrors) (K : Kadm G.GoError) where
  open G use {GoError, not_listed, negative_offset}

  -- An answer with an offset that is none of the broker's sentinels, and no error.
  pub IsOffset : Option (ListedOffset GoError) → ℤ → Type 0
  IsOffset none n = ⊥
  IsOffset (some o) n = (o.err ≡ none) × (o.offset ≡ n) × (is_neg n ≡ false)

  -- What a sample says of a partition's offset.
  pub Offers : OffsetSample G K → String → ℤ → ℤ → Type 0
  Offers s topic partition n =
      (s.here ≡ true) × IsOffset (K.lookup_listed s.listed topic partition) n

  -- Why an answer holds no offset.
  no_offset : Option (ListedOffset GoError) → Option GoError
  no_offset none = some not_listed
  no_offset (some o) = elim o.err [
    | some e ↦ some e
    | none ↦ if is_neg o.offset then some negative_offset else none
  ]

  failure : OffsetSample G K → String → ℤ → Option GoError
  failure s topic partition =
      if s.here then no_offset (K.lookup_listed s.listed topic partition) else none

  an_offset : Option (ListedOffset GoError) → Option ℤ
  an_offset none = none
  an_offset (some o) = nullable_offset o.offset (is_some o.err)

  an_offset-IsOffset :
      (o : Option (ListedOffset GoError)) (n : ℤ) → (an_offset o ≡ some n) ↔ IsOffset o n
  unfolding an_offset nullable_offset IsOffset
  an_offset-IsOffset none n = ground arith
  an_offset-IsOffset (some o) n = elim (Option-cases o.err) [
    | inl f ↦ elim (Bool-cases (is_neg o.offset)) [
      | inl i ↦ ground (arith, f, i)
      | inr i ↦ ground (arith, f, i)
    ]
    | inr (x, f) ↦ ground (arith, f)
  ]

  lookup_offset-answer :
      (sec : Section) (api topic : String) (l : ListedOffsets GoError) (partition : ℤ)
      (o : Option (ListedOffset GoError))
      → K.lookup_listed l topic partition ≡ o
      → ((lookup_offset G K sec api l topic partition).0 ≡ an_offset o)
        × ((lookup_offset G K sec api l topic partition).1 ≡ no_offset o)
  unfolding lookup_offset nullable_offset an_offset no_offset
  lookup_offset-answer sec api topic l partition none e = rw (e, lookup_offset) (refl, refl)
  lookup_offset-answer sec api topic l partition (some o) e =
      rw (e, lookup_offset)
        (elim (Option-cases o.err) [
          | inl f ↦ elim (Bool-cases (is_neg o.offset)) [
            | inl i ↦ ground (arith, f, i)
            | inr i ↦ ground (arith, f, i)
          ]
          | inr (x, f) ↦ ground (arith, f)
        ])

  look-value :
      (s : OffsetSample G K) (sec : Section) (topic : String) (partition : ℤ)
      → ((n : ℤ) → ((look G K s sec topic partition).0 ≡ some n) ↔ Offers s topic partition n)
        × ((look G K s sec topic partition).1 ≡ failure s topic partition)
  unfolding look Offers failure
  look-value s sec topic partition = elim (Bool-cases s.here) [
    | inl h ↦
        let o = K.lookup_listed s.listed topic partition in
        let (v, w) = lookup_offset-answer sec s.api topic s.listed partition o refl in
        (λ n. ground (arith, h, v, an_offset-IsOffset o n), ground (arith, h, w))
    | inr h ↦ (λ n. ground (arith, h), ground (arith, h))
  ]

  -- The first code that is not zero.
  first_failure : List ℤ → ℤ
  first_failure [] = pos 0
  first_failure (c ∷ cs) = if eqb_ℤ c (pos 0) then first_failure cs else c

  -- The row of a partition: an offset is there exactly if its sample offers it, and the error code is
  -- that of the first failure, of the metadata and then of the samples in their order.
  pub IsRow : Samples G K → String → PartitionDetail GoError → Partition → Type 0
  IsRow m topic p row =
      (row.id ≡ p.partition)
      × ((n : ℤ) → (row.start_offset ≡ some n) ↔ Offers m.starts topic p.partition n)
      × ((n : ℤ) → (row.last_stable_offset ≡ some n) ↔ Offers m.lsos topic p.partition n)
      × ((n : ℤ) → (row.end_offset ≡ some n) ↔ Offers m.ends topic p.partition n)
      × (row.error_code
          ≡ first_failure (
              code_of G K p.err
              ∷ code_of G K (failure m.starts topic p.partition)
              ∷ code_of G K (failure m.lsos topic p.partition)
              ∷ code_of G K (failure m.ends topic p.partition)
              ∷ []))

  first_code_lem :
      (x : ℤ) (y : Option GoError)
      → first_code G K x y ≡ (if eqb_ℤ x (pos 0) then code_of G K y else x)
  unfolding first_code
  first_code_lem x none = ground (arith, eqb_ℤ_iff x (pos 0))
  first_code_lem x (some e) = refl

  first_code-first_failure :
      (a : ℤ) (b c d : Option GoError)
      → first_code G K (first_code G K (first_code G K a b) c) d
        ≡ first_failure (a ∷ code_of G K b ∷ code_of G K c ∷ code_of G K d ∷ [])
  unfolding first_code first_failure
  first_code-first_failure a b c d =
      let z = first_code_lem in rw (z a b, z _ c, z _ d) (ground (arith, eqb_ℤ_iff a (pos 0)))

  build_partition-IsRow :
      (topic : String) (m : Samples G K) (secs : TopicSections) (p : PartitionDetail GoError)
      → IsRow m topic p (build_partition G K topic m secs p).0
  unfolding build_partition IsRow
  build_partition-IsRow topic m secs p =
      let i = p.partition in
      let a = look-value m.starts (note_partition G K secs.starts topic i p.err) topic i in
      let b = look-value m.lsos secs.lso topic i in
      let c = look-value m.ends secs.end topic i in
      (
        refl,
        a.0,
        b.0,
        c.0,
        rw (first_code-first_failure (code_of G K p.err) _ _ _, a.1, b.1, c.1) refl,
      )

  build_partitions-IsRow :
      (topic : String) (m : Samples G K) (secs : TopicSections)
      (ps : List (PartitionDetail GoError))
      → Forall₂ (IsRow m topic) ps (build_partitions G K topic m secs ps).0
  unfolding build_partitions
  build_partitions-IsRow topic m secs [] = tt
  build_partitions-IsRow topic m secs (p ∷ ps) = (
    build_partition-IsRow topic m secs p,
    build_partitions-IsRow topic m (build_partition G K topic m secs p).1 ps,
  )

  -- A sample on a topic: it covers the topic if it is usable and lists it.
  entered : OffsetSample G K → String → OffsetSample G K
  entered s topic = record s { here = s.ok && is_some (lookup topic s.listed) }

  pub on_topic : Samples G K → String → Samples G K
  on_topic m topic = record {
    starts = entered m.starts topic;
    lsos = entered m.lsos topic;
    ends = entered m.ends topic;
    max_ts = entered m.max_ts topic;
    locals = entered m.locals topic;
    remotes = entered m.remotes topic;
  }

  enter-entered :
      (s : OffsetSample G K) (sec : Section) (topic : String)
      → (enter G K s sec topic).0 ≡ entered s topic
  unfolding enter topic_listed entered
  enter-entered s sec topic = elim (Bool-cases s.ok) [
    | inl h ↦ elim (Option-cases (lookup topic s.listed)) [
      | inl e ↦ ground (arith, h, e)
      | inr (o, e) ↦ ground (arith, h, e)
    ]
    | inr h ↦ ground (arith, h)
  ]

  enter_all-on_topic :
      (m : Samples G K) (secs : TopicSections) (topic : String)
      → (enter_all G K m secs topic).0 ≡ on_topic m topic
  unfolding enter_all on_topic
  enter_all-on_topic m secs topic =
      rw
        (
          enter-entered m.starts secs.starts topic,
          enter-entered m.lsos secs.lso topic,
          enter-entered m.ends secs.end topic,
          enter-entered m.max_ts secs.max_ts topic,
          enter-entered m.locals secs.local topic,
          enter-entered m.remotes secs.remote topic,
        )
        refl

  -- The topic's row has one partition for each that the metadata names, in their order, and counts them. A
  -- partition has a start, last stable or end offset exactly if that sample is usable, lists the topic, and
  -- lists the partition with this offset, not negative and without an error; and its error code is the
  -- first that is not zero of the metadata's and of the failures of those samples, in this order.
  pub build_topic-IsRow :
      (td : TopicDetail GoError) (m : Samples G K) (secs : TopicSections)
      → Forall₂
          (IsRow (on_topic m td.topic) td.topic)
          (K.sorted_partitions td.partitions)
          (build_topic G K td m secs).0.partitions
        × ((build_topic G K td m secs).0.partition_count
            ≡ length (build_topic G K td m secs).0.partitions)
  unfolding build_topic
  build_topic-IsRow td m secs =
      let parts = K.sorted_partitions td.partitions in
      let secs₀ = note_topic G K secs td in
      let (m', secs') = enter_all G K m secs₀ td.topic in
      let rows = build_partitions-IsRow td.topic m' secs' parts in
      (
        subst
            (λ x. Forall₂ (IsRow x td.topic) parts (build_partitions G K td.topic m' secs' parts).0)
            (enter_all-on_topic m secs₀ td.topic) rows,
        Forall₂-length (IsRow m' td.topic) parts _ rows,
      )
