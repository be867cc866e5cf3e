-- ===== src/Collector/Epoch.antt =====
-- internal/collector/truncation.go: leader-epoch probes. The request map of kadm is keyed by topic and
-- partition together. What the leaders answer is an argument: a function from the round that is sent
-- to the response and its error.
pub mod Rounds
pub mod Triggers
pub mod Memory
use streamsight_agent.Base.{
  ℕ, zero, suc, ◌+◌, ◌≡◌, ◌↔◌, Bool, true, false, not, ◌&&◌, ◌||◌, Option, none, some, List, [],
  ◌∷◌, ◌++◌, map, String, str_eq, eq_iff, ℤ, pos, negsuc, eqb_ℤ, eqb_ℤ_iff, ltb_ℤ, is_neg, arith,
  ltb, leb, if◌then◌else◌, length, take, Eq, lookup, insert, string_eq, int_eq, string_ltb,
}
use streamsight_agent.Collector.GoError.{GoErrors}
use streamsight_agent.Collector.Limits.{cap_len}
use streamsight_agent.Collector.Section.{
  Section, SectionStatus, ok, partial, failed, unauthorized, skipped, downgrade,
}
use streamsight_agent.Collector.Request.{error_code, record_partition, request_partial}
use streamsight_agent.Collector.Wire.{
  Partition, TopicMetrics, PartitionOffset, ConsumerOffset, EpochProbe, nullable_offset,
}

abbrev pub max_epoch_probe_rounds : ℕ
max_epoch_probe_rounds = 4

abbrev pub max_epoch_probes_per_cycle : ℕ
max_epoch_probes_per_cycle = 1024

abbrev pub max_probed_epochs : ℕ
max_probed_epochs = 8192

-- One partition of one topic, the key of a request.
pub record TopicPartition : Type 0 where
  pub topic : String
  pub partition : ℤ

abbrev eqb_topic_partition : TopicPartition → TopicPartition → Bool
eqb_topic_partition a b = str_eq a.topic b.topic && eqb_ℤ a.partition b.partition

pub eqb_topic_partition_iff : (a b : TopicPartition) → (eqb_topic_partition a b ≡ true) ↔ (a ≡ b)
eqb_topic_partition_iff a b =
    ground (arith, eq_iff a.topic b.topic, eqb_ℤ_iff a.partition b.partition)

instance abbrev pub topic_partition_eq : Eq TopicPartition
topic_partition_eq = record { beq = eqb_topic_partition; beq_iff = eqb_topic_partition_iff }

pub record EpochProbeKey : Type 0 where
  pub topic : String
  pub topic_id : String
  pub partition : ℤ
  pub committed : ℤ
  pub current : ℤ

abbrev pub eqb_probe_key : EpochProbeKey → EpochProbeKey → Bool
eqb_probe_key a b =
    str_eq a.topic b.topic
    && str_eq a.topic_id b.topic_id
    && (eqb_ℤ a.partition b.partition
        && (eqb_ℤ a.committed b.committed && eqb_ℤ a.current b.current))

-- The set of the questions that are settled: `probedEpochs.seen`.
unfoldable pub answered : List EpochProbeKey → EpochProbeKey → Bool
answered [] k = false
answered (j ∷ seen) k = eqb_probe_key j k || answered seen k

-- A full set is emptied before the insertion.
unfoldable pub remember : List EpochProbeKey → EpochProbeKey → List EpochProbeKey
unfolding answered
remember seen k =
    let room : List EpochProbeKey = if leb max_probed_epochs (length seen) then [] else seen in
    if answered room k then room else k ∷ room

pub record EpochKey : Type 0 where
  pub topic : String
  pub partition : ℤ
  pub epoch : ℤ

abbrev pub eqb_epoch_key : EpochKey → EpochKey → Bool
eqb_epoch_key a b =
    str_eq a.topic b.topic && (eqb_ℤ a.partition b.partition && eqb_ℤ a.epoch b.epoch)

pub eqb_epoch_key_iff : (a b : EpochKey) → (eqb_epoch_key a b ≡ true) ↔ (a ≡ b)
eqb_epoch_key_iff a b =
    ground
      (arith, eq_iff a.topic b.topic, eqb_ℤ_iff a.partition b.partition, eqb_ℤ_iff a.epoch b.epoch)

instance abbrev pub epoch_key_eq : Eq EpochKey
epoch_key_eq = record { beq = eqb_epoch_key; beq_iff = eqb_epoch_key_iff }

pub record EpochTrigger : Type 0 where
  pub topic : String
  pub topic_id : String
  pub partition : ℤ
  pub group : String
  pub committed_offset : Option ℤ
  pub committed_epoch : ℤ
  pub current_epoch : ℤ

abbrev pub key : EpochTrigger → EpochKey
key t = record { topic = t.topic; partition = t.partition; epoch = t.committed_epoch }

abbrev pub probe_key : EpochTrigger → EpochProbeKey
probe_key t = record {
  topic = t.topic;
  topic_id = t.topic_id;
  partition = t.partition;
  committed = t.committed_epoch;
  current = t.current_epoch;
}

-- The current epoch of one partition, with its topic's id.
pub record CurrentEpoch : Type 0 where
  pub topic_id : String
  pub epoch : ℤ

unfoldable pub current_parts :
    String → List Partition → List (ℤ × CurrentEpoch) → List (ℤ × CurrentEpoch)
current_parts id [] m = m
current_parts id (p ∷ ps) m =
    current_parts id ps (insert p.id (record { topic_id = id; epoch = p.leader_epoch }) m)

unfoldable pub current_epochs :
    List TopicMetrics
    → List (String × List (ℤ × CurrentEpoch))
    → List (String × List (ℤ × CurrentEpoch))
unfolding current_parts
current_epochs [] m = m
current_epochs (t ∷ ts) m = current_epochs ts (insert t.name (current_parts t.id t.partitions []) m)

-- `current[topic][partition]`.
unfoldable pub current_of :
    List (String × List (ℤ × CurrentEpoch)) → String → ℤ → Option CurrentEpoch
current_of m topic partition = elim (lookup topic m) [
  | none ↦ none
  | some parts ↦ lookup partition parts
]

-- The trigger of one committed offset, if its epoch differs from the current one.
unfoldable pub trigger_of :
    List (String × List (ℤ × CurrentEpoch)) → String → PartitionOffset → Option EpochTrigger
unfolding current_of
trigger_of m group o = elim o.offset [
  | none ↦ none
  | some at ↦ if is_neg o.leader_epoch then none else elim (current_of m o.topic o.partition) [
    | none ↦ none
    | some p ↦
        if is_neg p.epoch || eqb_ℤ p.epoch o.leader_epoch
        then none
        else some (record {
          topic = o.topic;
          topic_id = p.topic_id;
          partition = o.partition;
          group = group;
          committed_offset = some at;
          committed_epoch = o.leader_epoch;
          current_epoch = p.epoch;
        })
  ]
]

abbrev cons_some {ℓ} : {A : Type ℓ} → Option A → List A → List A
cons_some none xs = xs
cons_some (some x) xs = x ∷ xs

unfoldable pub group_triggers :
    List (String × List (ℤ × CurrentEpoch)) → String → List PartitionOffset → List EpochTrigger
unfolding trigger_of
group_triggers m group [] = []
group_triggers m group (o ∷ os) = cons_some (trigger_of m group o) (group_triggers m group os)

abbrev list_of {ℓ} : {A : Type ℓ} → Option (List A) → List A
list_of none = []
list_of (some xs) = xs

-- All mismatches, in the order of the offsets.
unfoldable pub mismatches :
    List (String × List (ℤ × CurrentEpoch)) → List ConsumerOffset → List EpochTrigger
unfolding group_triggers
mismatches m [] = []
mismatches m (co ∷ offsets) =
    group_triggers m co.group_id (list_of co.offsets) ++ mismatches m offsets

-- The order by topic, partition and group.
abbrev pub trigger_ltb : EpochTrigger → EpochTrigger → Bool
trigger_ltb a b =
    if not (str_eq a.topic b.topic)
    then string_ltb a.topic b.topic
    else (if not (eqb_ℤ a.partition b.partition)
        then ltb_ℤ a.partition b.partition
        else string_ltb a.group b.group)

unfoldable pub insert_trigger : EpochTrigger → List EpochTrigger → List EpochTrigger
insert_trigger t [] = t ∷ []
insert_trigger t (u ∷ us) = if trigger_ltb u t then u ∷ insert_trigger t us else t ∷ u ∷ us

-- `sort.Slice` by that order.
unfoldable pub sort_triggers : List EpochTrigger → List EpochTrigger
unfolding insert_trigger
sort_triggers [] = []
sort_triggers (t ∷ ts) = insert_trigger t (sort_triggers ts)

unfoldable pub epoch_triggers :
    List TopicMetrics → List ConsumerOffset → ℕ → List EpochTrigger × Bool
unfolding current_epochs mismatches sort_triggers cap_len
epoch_triggers [] offsets max = ([], false)
epoch_triggers (t ∷ topics) [] max = ([], false)
epoch_triggers (t ∷ topics) (o ∷ offsets) max =
    let ts = sort_triggers (mismatches (current_epochs (t ∷ topics) []) (o ∷ offsets)) in
    let cap = cap_len (length ts) max in (take cap.0 ts, ltb 0 cap.1)

-- One request: at most one epoch for each partition, and the questions it carries.
pub record EpochRound : Type 0 where
  pub req : List (TopicPartition × ℤ)
  pub keys : List EpochKey

abbrev pub partition_of : EpochKey → TopicPartition
partition_of k = record { topic = k.topic; partition = k.partition }

unfoldable pub add_question : EpochRound → EpochKey → EpochRound
add_question r k = record { req = insert (partition_of k) k.epoch r.req; keys = r.keys ++ k ∷ [] }

-- The first round that can carry the question: one that asks it already, or that asks nothing of the
-- partition. `none` if there is no such round.
unfoldable pub place : EpochKey → List EpochRound → Option (List EpochRound)
unfolding add_question
place k [] = none
place k (r ∷ rs) = elim (lookup (partition_of k) r.req) [
  | none ↦ some (add_question r k ∷ rs)
  | some e ↦
      if eqb_ℤ e k.epoch
      then some (r ∷ rs)
      else elim (place k rs) [ none ↦ none | some rs' ↦ some (r ∷ rs') ]
]

-- The body of the loop over the triggers.
unfoldable pub add_trigger : List EpochRound × Bool → EpochKey → List EpochRound × Bool
unfolding place add_question
add_trigger (rounds, dropped) k = elim (place k rounds) [
  | some rounds' ↦ (rounds', dropped)
  | none ↦
      if leb max_epoch_probe_rounds (length rounds)
      then (rounds, true)
      else (rounds ++ add_question (record { req = []; keys = [] }) k ∷ [], dropped)
]

unfoldable pub add_triggers : List EpochRound × Bool → List EpochTrigger → List EpochRound × Bool
unfolding add_trigger
add_triggers s [] = s
add_triggers s (t ∷ ts) = add_triggers (add_trigger s (key t)) ts

unfoldable pub epoch_rounds : List EpochTrigger → List EpochRound × Bool
unfolding add_triggers
epoch_rounds ts = add_triggers ([], false) ts

-- kadm.OffsetForLeaderEpoch: what a leader answered about one partition.
pub record LeaderAnswer (E : Type 0) : Type 0 where
  pub node_id : ℤ
  pub leader_epoch : ℤ
  pub end_offset : ℤ
  pub err : Option E

-- One question's outcome. An offset that was not found is `none`.
pub record EpochAnswer (E : Type 0) : Type 0 where
  pub offset : Option (LeaderAnswer E)
  pub usable : Bool

abbrev pub is_none {ℓ} : {A : Type ℓ} → Option A → Bool
is_none none = true
is_none (some _) = false

abbrev pub is_empty {ℓ} : {A : Type ℓ} → List A → Bool
is_empty [] = true
is_empty (_ ∷ _) = false

-- Only a leader that answered this partition without an error retires the question.
unfoldable pub settles : {E : Type 0} → EpochAnswer E → Bool
settles a = a.usable && elim a.offset [ none ↦ false | some o ↦ is_none o.err ]

-- The row of a trigger before any answer is filled in.
abbrev pub open_probe : EpochTrigger → EpochProbe
open_probe t = record {
  topic = t.topic;
  topic_id = t.topic_id;
  partition = t.partition;
  group_id = t.group;
  committed_offset = t.committed_offset;
  committed_epoch = t.committed_epoch;
  current_leader_epoch = t.current_epoch;
  returned_epoch = none;
  end_offset = none;
  node_id = none;
  error_code = pos 0;
}

pub record CollectedProbes : Type 0 where
  pub probes : Option (List EpochProbe)
  pub sec : Section
  pub seen : List EpochProbeKey

-- Nothing was asked.
unfoldable pub skip_probes : Section → List EpochProbeKey → CollectedProbes
skip_probes sec seen = record { probes = none; sec = downgrade sec skipped; seen = seen }

-- The response of a round and its error; an empty response is an empty list.
abbrev pub Leaders : GoErrors → Type 0
Leaders G = EpochRound → List (TopicPartition × LeaderAnswer G.GoError) × Option G.GoError

-- `fresh`: the triggers whose questions no leader has answered.
unfoldable pub unanswered : List EpochProbeKey → List EpochTrigger → List EpochTrigger
unfolding answered
unanswered seen [] = []
unanswered seen (t ∷ ts) =
    if answered seen (probe_key t) then unanswered seen ts else t ∷ unanswered seen ts

-- `asked[k] = …` for the keys of one round.
unfoldable pub note_answers :
    {E : Type 0}
    → List (TopicPartition × LeaderAnswer E)
    → Bool
    → List EpochKey
    → List (EpochKey × EpochAnswer E)
    → List (EpochKey × EpochAnswer E)
note_answers resp usable [] asked = asked
note_answers resp usable (k ∷ ks) asked =
    note_answers resp usable ks
      (insert k (record { offset = lookup (partition_of k) resp; usable = usable }) asked)

abbrev pub truncate_if : Bool → Section → Section
truncate_if b sec = if b then record sec { truncated = true } else sec

module _ (G : GoErrors) where
  open G use {GoError}

  -- `probe` once the whole request is usable: the row, and the section with the partition's error.
  unfoldable pub answered_probe :
      EpochTrigger → Section → Option (LeaderAnswer GoError) → EpochProbe × Section
  unfolding record_partition error_code nullable_offset
  answered_probe t sec none = (
    open_probe t,
    record_partition G sec "OffsetForLeaderEpoch" t.topic t.partition G.epoch_not_returned,
  )
  answered_probe t sec (some o) = elim o.err [
    | some err ↦ (
      record (open_probe t) { node_id = some o.node_id; error_code = error_code G err },
      record_partition G sec "OffsetForLeaderEpoch" t.topic t.partition err,
    )
    | none ↦ (
      record (open_probe t) {
        node_id = some o.node_id;
        returned_epoch = some o.leader_epoch;
        end_offset = nullable_offset o.end_offset false;
      },
      sec,
    )
  ]

  unfoldable pub probe : EpochTrigger → Section → EpochAnswer GoError → EpochProbe × Section
  unfolding answered_probe
  probe t sec a = if a.usable then answered_probe t sec a.offset else (open_probe t, sec)

  -- The loop over the rounds: one request each.
  unfoldable pub ask_rounds :
      Leaders G
      → List EpochRound
      → Section
      → List (EpochKey × EpochAnswer GoError)
      → Section × List (EpochKey × EpochAnswer GoError)
  unfolding note_answers request_partial
  ask_rounds leaders [] sec asked = (sec, asked)
  ask_rounds leaders (r ∷ rs) sec asked =
      let (resp, err) = leaders r in
      let (sec', usable) = request_partial G sec "OffsetForLeaderEpoch" err (not (is_empty resp)) in
      ask_rounds leaders rs sec' (note_answers resp usable r.keys asked)

  -- The loop over the triggers: a row for each question that was asked, and the settled remembered.
  unfoldable pub probe_triggers :
      List (EpochKey × EpochAnswer GoError)
      → List EpochTrigger
      → Section
      → List EpochProbeKey
      → List EpochProbe × Section × List EpochProbeKey
  unfolding probe settles remember
  probe_triggers asked [] sec seen = ([], sec, seen)
  probe_triggers asked (t ∷ ts) sec seen = elim (lookup (key t) asked) [
    | none ↦ probe_triggers asked ts sec seen
    | some a ↦
        let (row, sec') = probe t sec a in
        let rest =
          probe_triggers asked ts sec' (if settles a then remember seen (probe_key t) else seen) in
        (row ∷ rest.0, rest.1, rest.2)
  ]

  -- The phase once it has unanswered triggers.
  unfoldable pub probe_fresh :
      Leaders G → List EpochTrigger → Section → List EpochProbeKey → CollectedProbes
  unfolding epoch_rounds ask_rounds probe_triggers
  probe_fresh leaders fresh sec seen =
      let (rounds, dropped) = epoch_rounds fresh in
      let (sec', asked) = ask_rounds leaders rounds (truncate_if dropped sec) [] in
      let (rows, sec'', seen') = probe_triggers asked fresh sec' seen in
      record { probes = some rows; sec = sec''; seen = seen' }

  -- `collectEpochProbes` on a new section; the caller stops its clock.
  unfoldable pub collect_epoch_probes :
      Leaders G
      → Bool
      → List TopicMetrics
      → List ConsumerOffset
      → Section
      → List EpochProbeKey
      → CollectedProbes
  unfolding epoch_triggers unanswered probe_fresh skip_probes
  collect_epoch_probes leaders run topics offsets sec seen =
      if not run
      then skip_probes sec seen
      else (let (triggers, dropped) = epoch_triggers topics offsets max_epoch_probes_per_cycle in
          let fresh = unanswered seen triggers in
          let sec' = truncate_if dropped sec in
          if is_empty fresh then skip_probes sec' seen else probe_fresh leaders fresh sec' seen)
