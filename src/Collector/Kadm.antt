-- ===== src/Collector/Kadm.antt =====
-- github.com/twmb/franz-go/pkg/kadm, outside the repository: the shape of the answers that the collector
-- reads, and the kadm functions that it calls on them, as an interface. A Go map is an association list.
use streamsight_agent.Base.{Bool, Option, List, String, ℤ}

pub record ListedOffset {ℓ} (E : Type ℓ) : Type ℓ where
  pub partition : ℤ
  pub offset : ℤ
  pub timestamp : ℤ
  pub leader_epoch : ℤ
  pub err : Option E

-- kadm.ListedOffsets, by topic and partition.
abbrev pub ListedOffsets {ℓ} : Type ℓ → Type ℓ
ListedOffsets E = List (String × List (ℤ × ListedOffset E))

pub record PartitionDetail {ℓ} (E : Type ℓ) : Type ℓ where
  pub partition : ℤ
  pub leader : ℤ
  pub leader_epoch : ℤ
  pub replicas : List ℤ
  pub isr : List ℤ
  pub offline_replicas : List ℤ
  pub err : Option E

-- `id` is `ID.String()`, or nothing for the zero id.
pub record TopicDetail {ℓ} (E : Type ℓ) : Type ℓ where
  pub topic : String
  pub id : Option String
  pub is_internal : Bool
  pub partitions : List (ℤ × PartitionDetail E)
  pub err : Option E

abbrev pub TopicDetails {ℓ} : Type ℓ → Type ℓ
TopicDetails E = List (String × TopicDetail E)

-- kadm.OffsetResponse, of a committed offset.
pub record OffsetResponse {ℓ} (E : Type ℓ) : Type ℓ where
  pub topic : String
  pub partition : ℤ
  pub at : ℤ
  pub leader_epoch : ℤ
  pub metadata : String
  pub err : Option E

-- `Sorted` of TopicDetails and PartitionDetails, and `Lookup` of ListedOffsets.
pub record Kadm {ℓ} (E : Type ℓ) : Type ℓ where
  pub sorted_topics : TopicDetails E → List (TopicDetail E)
  pub sorted_partitions : List (ℤ × PartitionDetail E) → List (PartitionDetail E)
  pub lookup_listed : ListedOffsets E → String → ℤ → Option (ListedOffset E)
