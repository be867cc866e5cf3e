-- ===== src/Collector/Offsets.antt =====
-- internal/collector/offsets.go: the committed offsets of the listed groups. The answer is a map by group;
-- `sorted_fetched` is kadm's `Sorted` of one group's answer.
pub mod Groups
use streamsight_agent.Base.{
  ℕ, suc, ◌+◌, Bool, true, false, not, ◌&&◌, Option, none, some, List, [], ◌∷◌, String, ℤ, pos,
  length, ◌==◌, lookup, string_eq, if◌then◌else◌,
}
use streamsight_agent.Collector.GoError.{GoErrors}
use streamsight_agent.Collector.Limits.{Limits}
use streamsight_agent.Collector.Section.{Section, new_section_at, stop}
use streamsight_agent.Collector.Request.{error_code, record_group, record_partition, request}
use streamsight_agent.Collector.Kadm.{OffsetResponse}
use streamsight_agent.Collector.Wire.{PartitionOffset, ConsumerOffset, nullable_offset}
use streamsight_agent.Collector.Topics.{is_some}

-- kadm.FetchOffsetsResponse: the answer for one group.
pub record FetchResponse {ℓ} (E : Type ℓ) (F : Type ℓ) : Type ℓ where
  pub err : Option E
  pub fetched : F

abbrev pub is_internal : List (String × Bool) → String → Bool
is_internal internal topic = elim (lookup topic internal) [ none ↦ false | some b ↦ b ]

abbrev pub cons_if {ℓ} : {A : Type ℓ} → Option A → List A → List A
cons_if none rows = rows
cons_if (some row) rows = row ∷ rows

module _ (G : GoErrors) (F : Type 0) (sorted_fetched : F → List (OffsetResponse G.GoError)) where
  open G use {GoError, no_response}

  -- The row of one committed offset.
  unfoldable pub offset_row : OffsetResponse GoError → PartitionOffset
  unfolding nullable_offset
  offset_row o = record {
    topic = o.topic;
    partition = o.partition;
    offset = nullable_offset o.at (is_some o.err);
    leader_epoch = o.leader_epoch;
    metadata = o.metadata;
    error_code = elim o.err [ none ↦ pos 0 | some e ↦ error_code G e ];
  }

  abbrev pub note_offset : Section → OffsetResponse GoError → Section
  note_offset sec o = elim o.err [
    | none ↦ sec
    | some e ↦ record_partition G sec "OffsetFetch" o.topic o.partition e
  ]

  -- The inner loop of `collectOffsets`, over one group's offsets.
  unfoldable pub offset_rows :
      (String → Bool)
      → Bool
      → List (String × Bool)
      → Section
      → List (OffsetResponse GoError)
      → List PartitionOffset × Section
  unfolding offset_row
  offset_rows allow include_internal internal sec [] = ([], sec)
  offset_rows allow include_internal internal sec (o ∷ os) =
      let skip = offset_rows allow include_internal internal sec os in
      let (rows, sec') = offset_rows allow include_internal internal (note_offset sec o) os in
      if is_internal internal o.topic && not include_internal
      then skip
      else (if not (allow o.topic) then skip else (offset_row o ∷ rows, sec'))

  -- What the loop makes of one group: a row, unless the answer misses the group.
  unfoldable pub group_row :
      (String → Bool)
      → Bool
      → List (String × Bool)
      → List (String × FetchResponse GoError F)
      → Section
      → String
      → Option ConsumerOffset × Section
  unfolding offset_rows
  group_row allow include_internal internal fetched sec id = elim (lookup id fetched) [
    | none ↦ (none, record_group G sec "OffsetFetch" id no_response)
    | some resp ↦ elim resp.err [
      | some e ↦ (
        some (record {
          group_id = id;
          offsets = none;
          offset_count = 0;
          error_code = error_code G e;
        }),
        record_group G sec "OffsetFetch" id e,
      )
      | none ↦
          let (rows, sec') =
            offset_rows allow include_internal internal sec (sorted_fetched resp.fetched) in
          (
            some (record {
              group_id = id;
              offsets = some rows;
              offset_count = length rows;
              error_code = pos 0;
            }),
            sec',
          )
    ]
  ]

  -- The loop over the groups.
  unfoldable pub group_rows :
      (String → Bool)
      → Bool
      → List (String × Bool)
      → List (String × FetchResponse GoError F)
      → Section
      → List String
      → List ConsumerOffset × Section
  unfolding group_row
  group_rows allow include_internal internal fetched sec [] = ([], sec)
  group_rows allow include_internal internal fetched sec (id ∷ ids) =
      let (row, sec') = group_row allow include_internal internal fetched sec id in
      let (rows, sec'') = group_rows allow include_internal internal fetched sec' ids in
      (cons_if row rows, sec'')

  -- `collectOffsets`, made at `at` and stopped at `until`; the client answers for a list of groups. The
  -- first component of the result is the list of groups that were asked about, if any were.
  unfoldable pub collect_offsets :
      (List String → List (String × FetchResponse GoError F))
      → ℕ
      → ℕ
      → Limits
      → (String → Bool)
      → Bool
      → List (String × Bool)
      → List String
      → Option GoError
      → Option (List String) × List ConsumerOffset × Section
  unfolding group_rows request
  collect_offsets client at until lim allow include_internal internal ids list_err =
      let (sec, usable) = request G (new_section_at "offsets" at lim) "ListGroups" list_err in
      let (rows, sec') = group_rows allow include_internal internal (client ids) sec ids in
      if length ids == 0 then (none, [], stop sec until) else (some ids, rows, stop sec' until)
