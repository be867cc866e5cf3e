-- ===== src/Collector/Groups.antt =====
-- internal/collector/groups.go: the listing and the description of the consumer groups, and the rows of
-- internal/metrics/types.go that they fill. kadm decodes a member's join metadata and assignment
-- (`AsConsumer`): here they are fields that hold the decoded value, or nothing.
pub mod Overlay
pub mod Listing
use streamsight_agent.Base.{
  ℕ, Bool, true, false, not, ◌&&◌, ◌||◌, Option, none, some, List, [], ◌∷◌, ◌++◌, map, String, ℤ,
  pos, negsuc, ltb, ◌==◌, ltb_ℤ, length, lookup, insert, string_eq, str_eq, string_ltb, sort_by,
  if◌then◌else◌,
}
use streamsight_agent.Collector.GoError.{GoErrors}
use streamsight_agent.Collector.Section.{Section}
use streamsight_agent.Collector.Request.{error_code, record_group, request, request_partial}

pub record TopicPartition : Type 0 where
  pub topic : String
  pub partition : ℤ

-- The nil slices of a member are empty lists: the code asks only for their length.
pub record GroupMember : Type 0 where
  pub member_id : String
  pub instance_id : Option String
  pub client_id : String
  pub host : String
  pub rack : Option String
  pub subscribed_topics : List String
  pub assignment : List TopicPartition
  pub owned : List TopicPartition
  pub member_epoch : Option ℤ
  pub target_assignment : List TopicPartition
  pub subscribed_topic_regex : Option String

pub record GroupMetrics : Type 0 where
  pub id : String
  pub state : String
  pub coordinator : ℤ
  pub generation : ℤ
  pub protocol : String
  pub protocol_type : String
  pub group_type : String
  pub member_count : ℕ
  pub members : List GroupMember
  pub error_code : ℤ
  pub group_epoch : Option ℤ
  pub assignment_epoch : Option ℤ
  pub assignor : String

-- kmsg.ListGroupsResponse: the groups with their types.
pub record ListedGroups : Type 0 where
  pub error_code : ℤ
  pub groups : List (String × String)

-- kgo.ResponseShard; a response of another type is `none`.
pub record ListShard {ℓ} (E : Type ℓ) : Type ℓ where
  pub err : Option E
  pub resp : Option ListedGroups

-- kmsg.ConsumerMemberMetadata and kmsg.ConsumerMemberAssignment.
pub record JoinMetadata : Type 0 where
  pub topics : List String
  pub rack : Option String
  pub generation : ℤ
  pub owned_partitions : List (String × List ℤ)

pub record DescribedMember : Type 0 where
  pub member_id : String
  pub instance_id : Option String
  pub client_id : String
  pub client_host : String
  pub join : Option JoinMetadata
  pub assigned : Option (List (String × List ℤ))

pub record DescribedGroup {ℓ} (E : Type ℓ) : Type ℓ where
  pub group : String
  pub coordinator : ℤ
  pub state : String
  pub protocol_type : String
  pub protocol : String
  pub members : List DescribedMember
  pub err : Option E

-- kadm.DescribedConsumerGroup, with its topic sets in the order of `Sorted`.
pub record ConsumerGroupMember : Type 0 where
  pub member_id : String
  pub member_epoch : ℤ
  pub subscribed_topic_regex : Option String
  pub subscribed_topics : List String
  pub assignment : List (String × List ℤ)
  pub target_assignment : List (String × List ℤ)

pub record DescribedConsumerGroup {ℓ} (E : Type ℓ) : Type ℓ where
  pub epoch : ℤ
  pub assignment_epoch : ℤ
  pub assignor_name : String
  pub members : List ConsumerGroupMember
  pub err : Option E

abbrev pair : String → ℤ → TopicPartition
pair topic p = record { topic = topic; partition = p }

-- `topicsSetToPartitions`, and the loops over the partitions of a member.
unfoldable pub topics_set_to_partitions : List (String × List ℤ) → List TopicPartition
topics_set_to_partitions [] = []
topics_set_to_partitions ((topic, ps) ∷ ts) = map (pair topic) ps ++ topics_set_to_partitions ts

-- The row of a member, in the loop of `collectGroups`.
unfoldable pub group_member : DescribedMember → GroupMember
unfolding topics_set_to_partitions
group_member m = record {
  member_id = m.member_id;
  instance_id = m.instance_id;
  client_id = m.client_id;
  host = m.client_host;
  rack = elim m.join [ none ↦ none | some join ↦ join.rack ];
  subscribed_topics = elim m.join [ none ↦ [] | some join ↦ join.topics ];
  assignment = elim m.assigned [ none ↦ [] | some topics ↦ topics_set_to_partitions topics ];
  owned = elim m.join [ none ↦ [] | some join ↦ topics_set_to_partitions join.owned_partitions ];
  member_epoch = none;
  target_assignment = [];
  subscribed_topic_regex = none;
}

abbrev pub higher : ℤ → Option JoinMetadata → ℤ
higher generation none = generation
higher generation (some join) =
    if ltb_ℤ generation join.generation then join.generation else generation

-- The generation of a group after its members.
unfoldable pub highest_generation : ℤ → List DescribedMember → ℤ
highest_generation generation [] = generation
highest_generation generation (m ∷ ms) = highest_generation (higher generation m.join) ms

abbrev or_empty : Option String → String
or_empty none = ""
or_empty (some t) = t

-- The map `byID`: a later member of the same id replaces an earlier one.
unfoldable pub by_id :
    List (String × ConsumerGroupMember)
    → List ConsumerGroupMember
    → List (String × ConsumerGroupMember)
by_id m [] = m
by_id m (x ∷ xs) = by_id (insert x.member_id x m) xs

-- The overlay of one member, in the loop of `applyConsumerGroup`.
unfoldable pub apply_member : List (String × ConsumerGroupMember) → GroupMember → GroupMember
unfolding topics_set_to_partitions
apply_member by_id gm = elim (lookup gm.member_id by_id) [
  | none ↦ gm
  | some m ↦ record gm {
    member_epoch = some m.member_epoch;
    subscribed_topic_regex = m.subscribed_topic_regex;
    target_assignment = topics_set_to_partitions m.target_assignment;
    subscribed_topics =
        if length gm.subscribed_topics == 0 then m.subscribed_topics else gm.subscribed_topics;
    assignment =
        if length gm.assignment == 0 then topics_set_to_partitions m.assignment else gm.assignment;
  }
]

module _ (G : GoErrors) where
  open G use {GoError}

  -- `applyConsumerGroup`.
  unfoldable pub apply_consumer_group : GroupMetrics → DescribedConsumerGroup GoError → GroupMetrics
  unfolding by_id apply_member
  apply_consumer_group gm d = record gm {
    group_epoch = some d.epoch;
    assignment_epoch = some d.assignment_epoch;
    assignor = d.assignor_name;
    members = map (apply_member (by_id [] d.members)) gm.members;
  }

  -- The loop of `enrichConsumerGroups`: a group with an error of its own is left as it is.
  unfoldable pub overlay_groups :
      List (String × DescribedConsumerGroup GoError) → List GroupMetrics → List GroupMetrics
  unfolding apply_consumer_group
  overlay_groups described [] = []
  overlay_groups described (gm ∷ gms) =
      let rest = overlay_groups described gms in
      elim (lookup gm.id described) [
        | none ↦ gm ∷ rest
        | some d ↦ elim d.err [ some e ↦ gm ∷ rest | none ↦ apply_consumer_group gm d ∷ rest ]
      ]

  -- `enrichConsumerGroups`, with the option that turns it on and the client's answer for a list of ids.
  unfoldable pub enrich_consumer_groups :
      Bool
      → (List String → List (String × DescribedConsumerGroup GoError) × Option GoError)
      → Section
      → List GroupMetrics
      → List GroupMetrics × Section
  unfolding overlay_groups request_partial
  enrich_consumer_groups enabled client sec groups =
      let (described, err) = client (map (λ g. g.id) groups) in
      let (sec', usable) =
        request_partial G sec "ConsumerGroupDescribe" err (ltb 0 (length described)) in
      if not enabled || length groups == 0
      then (groups, sec)
      else (if usable then (overlay_groups described groups, sec') else (groups, sec'))

  -- The row of a group, in the loop of `collectGroups`.
  unfoldable pub group_metrics : List (String × String) → DescribedGroup GoError → GroupMetrics
  unfolding group_member highest_generation
  group_metrics types g = record {
    id = g.group;
    state = g.state;
    coordinator = g.coordinator;
    generation = highest_generation (negsuc 0) g.members;
    protocol = g.protocol;
    protocol_type = g.protocol_type;
    group_type = or_empty (lookup g.group types);
    member_count = length g.members;
    members = map group_member g.members;
    error_code = elim g.err [ none ↦ pos 0 | some e ↦ error_code G e ];
    group_epoch = none;
    assignment_epoch = none;
    assignor = "";
  }

  unfoldable pub record_groups : Section → List (DescribedGroup GoError) → Section
  record_groups sec [] = sec
  record_groups sec (g ∷ gs) = elim g.err [
    | none ↦ record_groups sec gs
    | some e ↦ record_groups (record_group G sec "DescribeGroups" g.group e) gs
  ]

  -- `collectGroups`, on the section that was made when the groups were listed. kadm's answer to
  -- DescribeGroups is in the order of `Sorted`.
  unfoldable pub collect_groups :
      Bool
      → (List String → List (String × DescribedConsumerGroup GoError) × Option GoError)
      → (List String → List (DescribedGroup GoError) × Option GoError)
      → Section
      → List String
      → List (String × String)
      → Option GoError
      → List GroupMetrics × Section
  unfolding enrich_consumer_groups group_metrics record_groups request
  collect_groups enabled consumer_client client sec ids types list_err =
      let (sec₁, went) = request G sec "ListGroups" list_err in
      let (described, err) = client ids in
      let (sec₂, usable) = request G sec₁ "DescribeGroups" err in
      let rows = map (group_metrics types) described in
      if length ids == 0
      then ([], sec₁)
      else (if not usable && length described == 0
          then ([], sec₂)
          else enrich_consumer_groups enabled consumer_client (record_groups sec₂ described) rows)

  module _ (error_for_code : ℤ → Option GoError) where
    abbrev pub or_first : Option GoError → Option GoError → Option GoError
    or_first none e = e
    or_first (some f) e = some f

    abbrev pub names_in : List (String × String) → List String
    names_in gs = map (λ g. g.0) gs

    -- The types of one answer; an empty one is not noted.
    unfoldable pub note_types :
        List (String × String) → List (String × String) → List (String × String)
    note_types types [] = types
    note_types types ((group, type) ∷ gs) =
        note_types (if str_eq type "" then types else insert group type types) gs

    -- The loop of `listGroupsWithTypes`, on the groups, the types and the first error so far.
    unfoldable pub list_shards :
        List String
        → List (String × String)
        → Option GoError
        → List (ListShard GoError)
        → List String × List (String × String) × Option GoError
    unfolding note_types
    list_shards groups types first [] = (groups, types, first)
    list_shards groups types first (shard ∷ shards) = elim shard.err [
      | some e ↦ list_shards groups types (or_first first (some e)) shards
      | none ↦ elim shard.resp [
        | none ↦ list_shards groups types first shards
        | some resp ↦
            list_shards (groups ++ names_in resp.groups) (note_types types resp.groups)
              (or_first first (error_for_code resp.error_code)) shards
      ]
    ]

    unfoldable pub list_groups_with_types :
        List (ListShard GoError) → List String × List (String × String) × Option GoError
    unfolding list_shards sort_by
    list_groups_with_types shards =
        let (groups, types, err) = list_shards [] [] none shards in
        (sort_by string_ltb groups, types, err)

    unfoldable pub keep_groups : (String → Bool) → (String → Bool) → List String → List String
    keep_groups is_internal allow [] = []
    keep_groups is_internal allow (g ∷ gs) =
        let rest = keep_groups is_internal allow gs in
        if is_internal g then rest else (if not (allow g) then rest else g ∷ rest)

    -- `listGroups`; the first argument is `isInternalGroup`, and the second the filter.
    unfoldable pub list_groups :
        (String → Bool)
        → (String → Bool)
        → List (ListShard GoError)
        → List String × List (String × String) × Option GoError
    unfolding list_groups_with_types keep_groups
    list_groups is_internal allow shards =
        let (listed, types, err) = list_groups_with_types shards in
        (keep_groups is_internal allow listed, types, err)
