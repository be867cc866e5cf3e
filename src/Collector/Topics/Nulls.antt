-- ===== src/Collector/Topics/Nulls.antt =====
-- Null offsets in the rows of `buildTopic` of internal/collector/metadata.go, and the sections that own
-- their samples.
use streamsight_agent.Base.{
  ◌⊎◌, refl, ◌≡◌, inl, inr, Bool, true, false, Option, none, some, List, [], ◌∷◌, String, ℤ, is_neg,
  lookup, string_eq, All, All-map, Bool-cases, Option-cases, arith,
}
use streamsight_agent.Collector.GoError.{GoErrors}
use streamsight_agent.Collector.Section.{Section}
use streamsight_agent.Collector.Request.Told.{
  Admits, Worsens, record_topic-Admits, record_partition-Admits,
}
use streamsight_agent.Collector.Kadm.{Kadm, ListedOffsets, PartitionDetail, TopicDetail}
use streamsight_agent.Collector.Wire.{Partition, nullable_offset}
use streamsight_agent.Collector.Topics.{
  is_some, TopicSections, OffsetSample, Samples, topic_listed, enter, lookup_offset, look,
  build_partition, build_partitions, enter_all, note_partition, note_topic, build_topic,
}

-- The three sections of the core samples.
AllWorsen : TopicSections → TopicSections → Type 0
AllWorsen s t = Worsens s.starts t.starts × Worsens s.lso t.lso × Worsens s.end t.end

module _ (G : GoErrors) (K : Kadm G.GoError) where
  open G use {GoError}

  lookup_offset-Admits :
      (s : Section) (api topic : String) (l : ListedOffsets GoError) (i : ℤ)
      → Worsens s (lookup_offset G K s api l topic i).2
        × ((lookup_offset G K s api l topic i).0 ≡ none
            → Admits (lookup_offset G K s api l topic i).2)
  unfolding lookup_offset nullable_offset
  lookup_offset-Admits s api topic l i = elim (Option-cases (K.lookup_listed l topic i)) [
    | inl h ↦
        rw (h, lookup_offset) (ground (arith, record_partition-Admits G s api topic i G.not_listed))
    | inr (o, h) ↦
        rw (h, lookup_offset)
          (elim (Option-cases o.err) [
            | inl f ↦ elim (Bool-cases (is_neg o.offset)) [
              | inl n ↦
                  rw (f, n, nullable_offset)
                    (ground (arith, record_partition-Admits G s api topic i G.negative_offset))
              | inr n ↦ rw (f, n, nullable_offset) (ground arith)
            ]
            | inr (e, f) ↦
                rw (f, nullable_offset) (ground (arith, record_partition-Admits G s api topic i e))
          ])
  ]

  look-Admits :
      (m : OffsetSample G K) (s : Section) (topic : String) (i : ℤ)
      → Worsens s (look G K m s topic i).2
        × ((look G K m s topic i).0 ≡ none → m.here ≡ true → Admits (look G K m s topic i).2)
  unfolding look
  look-Admits m s topic i = elim (Bool-cases m.here) [
    | inl h ↦ rw (h, look) (ground (arith, lookup_offset-Admits s m.api topic m.listed i))
    | inr h ↦ rw (h, look) (ground (arith, h))
  ]

  enter-Admits :
      (m : OffsetSample G K) (s : Section) (topic : String)
      → Worsens s (enter G K m s topic).1
        × (m.ok ≡ true → (enter G K m s topic).0.here ≡ false → Admits (enter G K m s topic).1)
  unfolding enter topic_listed
  enter-Admits m s topic = elim (Bool-cases m.ok) [
    | inl h ↦ elim (Option-cases (lookup topic m.listed)) [
      | inl e ↦
          rw (h, e, enter, topic_listed)
            (ground (arith, record_topic-Admits G s m.api topic G.topic_not_listed))
      | inr (x, e) ↦ rw (h, e, enter, topic_listed) (ground arith)
    ]
    | inr h ↦ rw (h, enter) (ground (arith, h))
  ]

  -- A null offset of a sample that is usable is told by the sample's section.
  IsToldIf : Bool → Bool → Bool → TopicSections → Partition → Type 0
  IsToldIf start lso end secs row =
      (row.start_offset ≡ none → start ≡ true → Admits secs.starts)
      × (row.last_stable_offset ≡ none → lso ≡ true → Admits secs.lso)
      × (row.end_offset ≡ none → end ≡ true → Admits secs.end)

  note_partition-Worsens :
      (s : Section) (topic : String) (i : ℤ) (e : Option GoError)
      → Worsens s (note_partition G K s topic i e)
  note_partition-Worsens s topic i none = omega arith
  note_partition-Worsens s topic i (some e) =
      ground (arith, record_partition-Admits G s "Metadata" topic i e)

  IsToldIf-later :
      (a b c : Bool) (s t : TopicSections) (row : Partition)
      → AllWorsen s t
      → IsToldIf a b c s row
      → IsToldIf a b c t row
  unfolding AllWorsen IsToldIf
  IsToldIf-later a b c s t row w h = ground (arith, w, h)

  build_partition-IsToldIf :
      (topic : String) (m : Samples G K) (secs : TopicSections) (p : PartitionDetail GoError)
      → AllWorsen secs (build_partition G K topic m secs p).1
        × IsToldIf m.starts.here m.lsos.here m.ends.here
            (build_partition G K topic m secs p).1
            (build_partition G K topic m secs p).0
  unfolding build_partition AllWorsen IsToldIf
  build_partition-IsToldIf topic m secs p =
      let i = p.partition in
      let s = note_partition G K secs.starts topic i p.err in
      let w = note_partition-Worsens secs.starts topic i p.err in
      let (a, a') = look-Admits m.starts s topic i in
      let (b, b') = look-Admits m.lsos secs.lso topic i in
      let (c, c') = look-Admits m.ends secs.end topic i in
      ((omega (arith, w, a), b, c), (a', b', c'))

  build_partitions-IsToldIf :
      (topic : String) (m : Samples G K) (secs : TopicSections)
      (ps : List (PartitionDetail GoError))
      → AllWorsen secs (build_partitions G K topic m secs ps).1
        × All
            (IsToldIf m.starts.here m.lsos.here m.ends.here
              (build_partitions G K topic m secs ps).1)
            (build_partitions G K topic m secs ps).0
  unfolding build_partitions AllWorsen
  build_partitions-IsToldIf topic m secs [] = ((omega arith, omega arith, omega arith), tt)
  build_partitions-IsToldIf topic m secs (p ∷ ps) =
      let (row, secs') = build_partition G K topic m secs p in
      let (w, told) = build_partition-IsToldIf topic m secs p in
      let (w', rest) = build_partitions-IsToldIf topic m secs' ps in
      (
        (omega (arith, w.0, w'.0), omega (arith, w.1, w'.1), omega (arith, w.2, w'.2)),
        (IsToldIf-later _ _ _ secs' _ row w' told, rest),
      )

  -- If `enter` finds that a usable sample does not list the topic, its section tells so.
  IsToldIf-entered :
      (a b c : OffsetSample G K) (topic : String) (s₁ s₂ s₃ : Section) (secs : TopicSections)
      (row : Partition)
      → Worsens (enter G K a s₁ topic).1 secs.starts
      → Worsens (enter G K b s₂ topic).1 secs.lso
      → Worsens (enter G K c s₃ topic).1 secs.end
      → IsToldIf
          (enter G K a s₁ topic).0.here
          (enter G K b s₂ topic).0.here
          (enter G K c s₃ topic).0.here
          secs
          row
      → IsToldIf a.ok b.ok c.ok secs row
  unfolding IsToldIf
  IsToldIf-entered a b c topic s₁ s₂ s₃ secs row w₁ w₂ w₃ (h₁, h₂, h₃) = (
    λ n o. tell a s₁ topic secs.starts w₁ o (h₁ n),
    λ n o. tell b s₂ topic secs.lso w₂ o (h₂ n),
    λ n o. tell c s₃ topic secs.end w₃ o (h₃ n),
  )
    where
      tell :
          (m : OffsetSample G K) (s : Section) (topic : String) (t : Section)
          → Worsens (enter G K m s topic).1 t
          → m.ok ≡ true
          → ((enter G K m s topic).0.here ≡ true → Admits t)
          → Admits t
      tell m s topic t w o h = elim (Bool-cases (enter G K m s topic).0.here) [
        | inl e ↦ h e
        | inr e ↦ omega (arith, (enter-Admits m s topic).1 o e, w)
      ]

  -- An offset is there, or its sample is not usable, or its section tells that something is missing.
  pub IsTold : Bool → Bool → Bool → TopicSections → Partition → Type 0
  IsTold start lso end secs row =
      ((is_some row.start_offset ≡ true) ⊎ ((start ≡ false) ⊎ Admits secs.starts))
      × ((is_some row.last_stable_offset ≡ true) ⊎ ((lso ≡ false) ⊎ Admits secs.lso))
      × ((is_some row.end_offset ≡ true) ⊎ ((end ≡ false) ⊎ Admits secs.end))

  told_cases :
      (o : Option ℤ) (ok : Bool) (s : Section)
      → (o ≡ none → ok ≡ true → Admits s)
      → (is_some o ≡ true) ⊎ ((ok ≡ false) ⊎ Admits s)
  told_cases (some v) ok s h = inl refl
  told_cases none false s h = inr (inl refl)
  told_cases none true s h = inr (inr (h refl refl))

  IsTold-if :
      (a b c : Bool) (secs : TopicSections) (row : Partition)
      → IsToldIf a b c secs row
      → IsTold a b c secs row
  unfolding IsToldIf IsTold
  IsTold-if a b c secs row (f, g, h) = (
    told_cases row.start_offset a secs.starts f,
    told_cases row.last_stable_offset b secs.lso g,
    told_cases row.end_offset c secs.end h,
  )

  -- In the row of a topic, a partition with a null start, last stable or end offset whose sample is usable
  -- makes the sample's section at least `partial`.
  pub build_topic-IsTold :
      (td : TopicDetail GoError) (m : Samples G K) (secs : TopicSections)
      → All
          (IsTold m.starts.ok m.lsos.ok m.ends.ok (build_topic G K td m secs).1)
          (build_topic G K td m secs).0.partitions
  unfolding build_topic enter_all AllWorsen
  build_topic-IsTold td m secs =
      let secs₀ = note_topic G K secs td in
      let (m', secs') = enter_all G K m secs₀ td.topic in
      let (w, rows) =
        build_partitions-IsToldIf td.topic m' secs' (K.sorted_partitions td.partitions) in
      All-map
        (λ row h. IsTold-if _ _ _ _ row (
          IsToldIf-entered m.starts m.lsos m.ends td.topic secs₀.starts secs₀.lso secs₀.end _ row
            w.0 w.1 w.2 h))
        _ rows
