-- ===== src/Collector/Wire.antt =====
-- internal/metrics/types.go: the wire rows that the modelled phases read or write. A nil pointer is `none`.
use streamsight_agent.Base.{
  ℕ, Bool, ◌||◌, Option, none, some, List, String, ℤ, is_neg, if◌then◌else◌,
}

pub record Broker : Type 0 where
  pub id : ℤ
  pub host : String
  pub port : ℤ
  pub rack : Option String

pub record ClusterMetrics : Type 0 where
  pub id : String
  pub broker_count : ℕ
  pub brokers : List Broker

pub record MaxTimestampOffset : Type 0 where
  pub offset : Option ℤ
  pub timestamp_ms : Option ℤ
  pub leader_epoch : ℤ
  pub error_code : ℤ

pub record TieredOffsets : Type 0 where
  pub local_start_offset : Option ℤ
  pub remote_end_offset : Option ℤ

pub record ThroughputWindow : Type 0 where
  pub requested_ms : ℤ
  pub width_ms : ℤ

pub record WindowOffset : Type 0 where
  pub offset : Option ℤ
  pub timestamp_ms : Option ℤ
  pub leader_epoch : ℤ
  pub error_code : ℤ

pub record Partition : Type 0 where
  pub id : ℤ
  pub leader : ℤ
  pub leader_epoch : ℤ
  pub replicas : List ℤ
  pub isr : List ℤ
  pub offline_replicas : List ℤ
  pub start_offset : Option ℤ
  pub end_offset : Option ℤ
  pub last_stable_offset : Option ℤ
  pub max_timestamp : Option MaxTimestampOffset
  pub tiered : Option TieredOffsets
  pub window : Option WindowOffset
  pub error_code : ℤ

pub record TopicMetrics : Type 0 where
  pub name : String
  pub id : String
  pub internal : Bool
  pub partition_count : ℕ
  pub replication_factor : ℕ
  pub partitions : List Partition
  pub error_code : ℤ

pub record PartitionOffset : Type 0 where
  pub topic : String
  pub partition : ℤ
  pub offset : Option ℤ
  pub leader_epoch : ℤ
  pub metadata : String
  pub error_code : ℤ

-- The offsets of a group that failed are a nil slice, which is not an empty list on the wire.
pub record ConsumerOffset : Type 0 where
  pub group_id : String
  pub offsets : Option (List PartitionOffset)
  pub offset_count : ℕ
  pub error_code : ℤ

pub record EpochProbe : Type 0 where
  pub topic : String
  pub topic_id : String
  pub partition : ℤ
  pub group_id : String
  pub committed_offset : Option ℤ
  pub committed_epoch : ℤ
  pub current_leader_epoch : ℤ
  pub returned_epoch : Option ℤ
  pub end_offset : Option ℤ
  pub node_id : Option ℤ
  pub error_code : ℤ

pub record Reassignment : Type 0 where
  pub topic : String
  pub partition : ℤ
  pub replicas : List ℤ
  pub adding_replicas : List ℤ
  pub removing_replicas : List ℤ

pub record LogDirPartition : Type 0 where
  pub topic : String
  pub partition : ℤ
  pub size : ℤ
  pub offset_lag : ℤ
  pub is_future : Bool

-- The partitions of a directory that could not be read are a nil slice.
pub record LogDir : Type 0 where
  pub broker : ℤ
  pub dir : String
  pub total_bytes : Option ℤ
  pub usable_bytes : Option ℤ
  pub error_code : ℤ
  pub partitions : Option (List LogDirPartition)

pub record ConfigEntry : Type 0 where
  pub key : String
  pub value : Option String
  pub sensitive : Bool
  pub source : String

-- A resource without a selected entry has a nil slice.
pub record TopicConfig : Type 0 where
  pub topic : String
  pub error_code : ℤ
  pub configs : List ConfigEntry

pub record BrokerConfig : Type 0 where
  pub broker : ℤ
  pub error_code : ℤ
  pub configs : List ConfigEntry

-- `nullableOffset` of internal/collector/offsets.go: a negative offset is no offset, and neither is
-- one that came with an error.
unfoldable pub nullable_offset : ℤ → Bool → Option ℤ
nullable_offset v has_err = if has_err || is_neg v then none else some v
