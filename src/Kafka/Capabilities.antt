-- ===== src/Kafka/Capabilities.antt =====
-- internal/kafka/capabilities.go: the startup probe, folded into one answer per API key. A map is an
-- association list, and a version is an int16.
pub mod Floor
pub mod Mixed
pub mod Probe
pub mod Wire
use streamsight_agent.Base.{
  ℕ, Bool, true, false, not, ◌&&◌, Option, none, some, List, [], ◌∷◌, String, ℤ, pos, negsuc, ltb_ℤ,
  map, if◌then◌else◌, ltb, length, ◌==◌, lookup, insert, int_eq,
}

abbrev pub list_groups_key : ℤ
list_groups_key = pos 16

abbrev pub list_groups_states_filter_version : ℤ
list_groups_states_filter_version = pos 4

abbrev pub consumer_group_describe_key : ℤ
consumer_group_describe_key = pos 69

abbrev pub list_offsets_key : ℤ
list_offsets_key = pos 2

abbrev pub metadata_key : ℤ
metadata_key = pos 3

abbrev pub describe_log_dirs_key : ℤ
describe_log_dirs_key = pos 35

abbrev pub offset_for_leader_epoch_key : ℤ
offset_for_leader_epoch_key = pos 23

abbrev pub share_group_describe_key : ℤ
share_group_describe_key = pos 77

abbrev pub describe_configs_key : ℤ
describe_configs_key = pos 32

abbrev pub list_partition_reassignments_key : ℤ
list_partition_reassignments_key = pos 46

abbrev pub probed_keys : List ℤ
probed_keys =
    list_offsets_key ∷ metadata_key ∷ list_groups_key ∷ offset_for_leader_epoch_key
    ∷ describe_log_dirs_key ∷ list_partition_reassignments_key ∷ describe_configs_key
    ∷ share_group_describe_key ∷ consumer_group_describe_key ∷ []

abbrev pub max_int16 : ℤ
max_int16 = pos 32767

-- The oldest broker of one key: the highest version that every broker serves.
pub record KeyFloor : Type 0 where
  pub node_id : ℤ
  pub version : ℤ
  pub present : Bool

-- One broker's answer: the highest version of each key that it serves.
pub record BrokerKeys : Type 0 where
  pub node_id : ℤ
  pub version : String
  pub keys : List (ℤ × ℤ)

pub record BrokerSoftware : Type 0 where
  pub node_id : ℤ
  pub version : String

pub record Capabilities : Type 0 where
  pub floors : List (ℤ × KeyFloor)
  pub brokers : List BrokerSoftware
  pub probed : List BrokerKeys

-- The loop over the brokers for one key, which a broker without the key ends.
unfoldable pub floor_of : ℤ → KeyFloor → List BrokerKeys → KeyFloor
floor_of key floor [] = floor
floor_of key floor (b ∷ bs) = elim (lookup key b.keys) [
  | none ↦ record { node_id = b.node_id; version = pos 0; present = false }
  | some most ↦
      floor_of key
        (if ltb_ℤ most floor.version
          then record { node_id = b.node_id; version = most; present = true }
          else floor)
        bs
]

abbrev pub first_floor : List BrokerKeys → KeyFloor
first_floor bs = record { node_id = pos 0; version = max_int16; present = ltb 0 (length bs) }

unfoldable pub fold_floors : List ℤ → List BrokerKeys → List (ℤ × KeyFloor)
unfolding floor_of
fold_floors [] bs = []
fold_floors (key ∷ keys) bs = (key, floor_of key (first_floor bs) bs) ∷ fold_floors keys bs

-- `foldCapabilities`.
unfoldable pub fold_capabilities : List BrokerKeys → Capabilities
unfolding fold_floors
fold_capabilities bs = record {
  floors = fold_floors probed_keys bs;
  brokers = map (λ b. record { node_id = b.node_id; version = b.version }) bs;
  probed = bs;
}

-- `atLeast`: a key that was not probed reads as the zero floor.
unfoldable pub at_least : Capabilities → ℤ → ℤ → Bool
at_least c key version = elim (lookup key c.floors) [
  | none ↦ false
  | some f ↦ f.present && not (ltb_ℤ f.version version)
]

-- Why the group state filter cannot be honoured.
pub data FilterRefusal : Type 0 where
  no_broker_answered : FilterRefusal
  no_list_groups : ℤ → FilterRefusal
  too_old : ℤ → ℤ → FilterRefusal

abbrev pub no_floor : KeyFloor
no_floor = record { node_id = pos 0; version = pos 0; present = false }

abbrev pub floor_at : Capabilities → ℤ → KeyFloor
floor_at c key = elim (lookup key c.floors) [ none ↦ no_floor | some f ↦ f ]

-- `checkGroupStateFilter`; it names the broker that is in the way.
unfoldable pub check_group_state_filter : Capabilities → Option FilterRefusal
check_group_state_filter c =
    let f = floor_at c list_groups_key in
    if not f.present && length c.brokers == 0
    then some no_broker_answered
    else (if not f.present
        then some (no_list_groups f.node_id)
        else (if ltb_ℤ f.version list_groups_states_filter_version
            then some (too_old f.node_id f.version)
            else none))
