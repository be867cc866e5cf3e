-- ===== src/Collector/ShareGroups.antt =====
-- internal/collector/sharegroups.go: the share groups, and the rows of internal/metrics/types.go that they
-- fill. A map is an association list; the two maps of offsets are read in sorted order.
use streamsight_agent.Base.{
  ℕ, Bool, not, ◌&&◌, ◌||◌, Option, none, some, List, [], ◌∷◌, ◌++◌, map, String, ℤ, pos, ltb, ◌==◌,
  is_neg, eqb_ℤ, ltb_ℤ, length, lookup, insert, string_eq, int_eq, str_eq, string_ltb, sort_by,
  if◌then◌else◌,
}
use streamsight_agent.Collector.GoError.{GoErrors}
use streamsight_agent.Collector.Section.{Section, skipped, downgrade}
use streamsight_agent.Collector.Request.{
  error_code, record_group, record_partition, request, request_partial,
}
use streamsight_agent.Collector.Groups.{TopicPartition, topics_set_to_partitions}

pub record ShareGroupMember : Type 0 where
  pub member_id : String
  pub client_id : String
  pub host : String
  pub rack : Option String
  pub member_epoch : ℤ
  pub subscribed_topics : List String
  pub assignment : List TopicPartition

pub record ShareGroupOffset : Type 0 where
  pub topic : String
  pub partition : ℤ
  pub start_offset : Option ℤ
  pub leader_epoch : ℤ
  pub error_code : ℤ

pub record ShareGroup : Type 0 where
  pub id : String
  pub state : String
  pub coordinator : ℤ
  pub group_epoch : ℤ
  pub assignment_epoch : ℤ
  pub assignor : String
  pub error_code : ℤ
  pub member_count : ℕ
  pub members : List ShareGroupMember
  pub start_offsets : List ShareGroupOffset

-- kadm.DescribedShareGroup, with an assignment in the order of `Sorted`.
pub record DescribedShareMember : Type 0 where
  pub member_id : String
  pub client_id : String
  pub client_host : String
  pub rack_id : Option String
  pub member_epoch : ℤ
  pub subscribed_topic_names : List String
  pub assignment : List (String × List ℤ)

pub record DescribedShareGroup {ℓ} (E : Type ℓ) : Type ℓ where
  pub group_id : String
  pub group_state : String
  pub coordinator : ℤ
  pub group_epoch : ℤ
  pub assignment_epoch : ℤ
  pub assignor : String
  pub members : List DescribedShareMember
  pub err : Option E

-- kadm.ShareOffset, and the offsets of a group by topic and partition.
pub record ShareOffset {ℓ} (E : Type ℓ) : Type ℓ where
  pub start_offset : ℤ
  pub leader_epoch : ℤ
  pub err : Option E

abbrev pub ShareOffsets {ℓ} : Type ℓ → Type ℓ
ShareOffsets E = List (String × List (ℤ × ShareOffset E))

pub record DescribedShareOffsets {ℓ} (E : Type ℓ) : Type ℓ where
  pub group : String
  pub err : Option E
  pub offsets : ShareOffsets E

unfoldable pub share_member : DescribedShareMember → ShareGroupMember
unfolding topics_set_to_partitions
share_member m = record {
  member_id = m.member_id;
  client_id = m.client_id;
  host = m.client_host;
  rack = m.rack_id;
  member_epoch = m.member_epoch;
  subscribed_topics = m.subscribed_topic_names;
  assignment = topics_set_to_partitions m.assignment;
}

abbrev pub keys {ℓ κ} : {A : Type ℓ} {B : Type κ} → List (A × B) → List A
keys m = map (λ e. e.0) m

abbrev or_nil {ℓ} : {A : Type ℓ} → Option (List A) → List A
or_nil none = []
or_nil (some xs) = xs

-- `sortedShareTopics` and `sortedSharePartitions`.
unfoldable pub sorted_share_topics {ℓ} : {E : Type ℓ} → ShareOffsets E → List String
unfolding sort_by
sorted_share_topics o = sort_by string_ltb (keys o)

unfoldable pub sorted_share_partitions {ℓ} : {E : Type ℓ} → List (ℤ × ShareOffset E) → List ℤ
unfolding sort_by
sorted_share_partitions ps = sort_by ltb_ℤ (keys ps)

-- The ids of `collectShareGroups`, before the sort: the first argument is the filter, and the second
-- `isInternalGroup`.
unfoldable pub share_ids : (String → Bool) → (String → Bool) → List (String × String) → List String
share_ids allow is_internal [] = []
share_ids allow is_internal ((group, type) ∷ types) =
    let rest = share_ids allow is_internal types in
    if str_eq type "share" && (allow group && not (is_internal group)) then group ∷ rest else rest

module _ (G : GoErrors) where
  open G use {GoError}

  -- The row of one share partition, in the inner loop of `buildShareGroups`.
  unfoldable pub share_offset : String → ℤ → ShareOffset GoError → ShareGroupOffset
  share_offset topic partition so = record {
    topic = topic;
    partition = partition;
    start_offset = elim so.err [
      | some e ↦ none
      | none ↦ if is_neg so.start_offset then none else some so.start_offset
    ];
    leader_epoch = so.leader_epoch;
    error_code = elim so.err [ none ↦ pos 0 | some e ↦ error_code G e ];
  }

  abbrev pub note_share : Section → String → ℤ → Option GoError → Section
  note_share sec topic partition none = sec
  note_share sec topic partition (some e) =
      record_partition G sec "DescribeShareGroupOffsets" topic partition e

  -- The loop over the partitions of a topic. Each is a key of the map, so that it is found.
  unfoldable pub share_partitions :
      Section → String → List (ℤ × ShareOffset GoError) → List ℤ → List ShareGroupOffset × Section
  unfolding share_offset
  share_partitions sec topic ps [] = ([], sec)
  share_partitions sec topic ps (i ∷ is) = elim (lookup i ps) [
    | none ↦ share_partitions sec topic ps is
    | some so ↦
        let (rows, sec') = share_partitions (note_share sec topic i so.err) topic ps is in
        (share_offset topic i so ∷ rows, sec')
  ]

  unfoldable pub share_topics :
      Section → ShareOffsets GoError → List String → List ShareGroupOffset × Section
  unfolding share_partitions sorted_share_partitions
  share_topics sec o [] = ([], sec)
  share_topics sec o (topic ∷ topics) =
      let ps = or_nil (lookup topic o) in
      let (rows, sec') = share_partitions sec topic ps (sorted_share_partitions ps) in
      let (rest, sec'') = share_topics sec' o topics in (rows ++ rest, sec'')

  -- The map `byGroup`: later offsets of the same group replace earlier ones.
  unfoldable pub by_group :
      List (String × DescribedShareOffsets GoError)
      → List (DescribedShareOffsets GoError)
      → List (String × DescribedShareOffsets GoError)
  by_group m [] = m
  by_group m (o ∷ os) = by_group (insert o.group o m) os

  abbrev pub note_group : Section → String → String → Option GoError → Section
  note_group sec api group none = sec
  note_group sec api group (some e) = record_group G sec api group e

  abbrev pub code_of : Option GoError → ℤ
  code_of none = pos 0
  code_of (some e) = error_code G e

  -- The row of a group, in the loop of `buildShareGroups`.
  unfoldable pub share_group :
      List (String × DescribedShareOffsets GoError)
      → Section
      → DescribedShareGroup GoError
      → ShareGroup × Section
  unfolding share_member share_topics sorted_share_topics
  share_group m sec g =
      let sg : ShareGroup = record {
        id = g.group_id;
        state = g.group_state;
        coordinator = g.coordinator;
        group_epoch = g.group_epoch;
        assignment_epoch = g.assignment_epoch;
        assignor = g.assignor;
        error_code = code_of g.err;
        member_count = length g.members;
        members = map share_member g.members;
        start_offsets = [];
      } in
      let sec' = note_group sec "ShareGroupDescribe" g.group_id g.err in
      elim (lookup g.group_id m) [
        | none ↦ (sg, sec')
        | some o ↦
            let sec'' = note_group sec' "DescribeShareGroupOffsets" g.group_id o.err in
            let (rows, sec₃) = share_topics sec'' o.offsets (sorted_share_topics o.offsets) in
            (
              record sg {
                error_code = if eqb_ℤ sg.error_code (pos 0) then code_of o.err else sg.error_code;
                start_offsets = rows;
              },
              sec₃,
            )
      ]

  unfoldable pub share_groups :
      List (String × DescribedShareOffsets GoError)
      → Section
      → List (DescribedShareGroup GoError)
      → List ShareGroup × Section
  unfolding share_group
  share_groups m sec [] = ([], sec)
  share_groups m sec (g ∷ gs) =
      let (row, sec') = share_group m sec g in
      let (rows, sec'') = share_groups m sec' gs in (row ∷ rows, sec'')

  unfoldable pub build_share_groups :
      List (DescribedShareGroup GoError)
      → List (DescribedShareOffsets GoError)
      → Section
      → List ShareGroup × Section
  unfolding by_group share_groups sort_by
  build_share_groups described offsets sec =
      let (rows, sec') = share_groups (by_group [] offsets) sec described in
      (sort_by (λ a b. string_ltb a.id b.id) rows, sec')

  abbrev request_offsets : Section → Option GoError → Bool → Section
  request_offsets sec none got_data = sec
  request_offsets sec (some e) got_data =
      (request_partial G sec "DescribeShareGroupOffsets" (some e) got_data).0

  -- `collectShareGroups` on a fresh section, without the stop; the first component of the result is the
  -- list of groups that were asked about, if any were.
  unfoldable pub collect_share_groups :
      (List String → List (DescribedShareGroup GoError) × Option GoError)
      → (List String → List (DescribedShareOffsets GoError) × Option GoError)
      → (String → Bool)
      → (String → Bool)
      → Section
      → List (String × String)
      → Bool
      → Option (List String) × List ShareGroup × Section
  unfolding share_ids build_share_groups request request_partial
  collect_share_groups client offset_client allow is_internal sec types run =
      let ids = sort_by string_ltb (share_ids allow is_internal types) in
      let (described, err) = client ids in
      let (sec', usable) = request G sec "ShareGroupDescribe" err in
      let (offsets, off_err) = offset_client ids in
      let sec'' = request_offsets sec' off_err (ltb 0 (length described)) in
      let (rows, sec₃) = build_share_groups described offsets sec'' in
      if not run || length ids == 0
      then (none, [], downgrade sec skipped)
      else (if not usable && length described == 0
          then (some ids, [], sec')
          else (some ids, rows, sec₃))
