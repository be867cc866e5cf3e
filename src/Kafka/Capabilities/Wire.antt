-- ===== src/Kafka/Capabilities/Wire.antt =====
-- internal/kafka/capabilities.go: the forms in which the folded capabilities leave the package, with the rows
-- of internal/metrics/types.go that they fill. A map is an association list.
use streamsight_agent.Base.{
  Bool, false, not, ◌||◌, List, [], ◌∷◌, ◌++◌, String, ℤ, Option, none, some, lookup, insert, map,
  int_eq, string_eq, str_eq, string_ltb, sort_by, ltb, length, if◌then◌else◌,
}
use streamsight_agent.Kafka.Capabilities.{
  BrokerKeys, BrokerSoftware, Capabilities, list_groups_key, consumer_group_describe_key,
  list_offsets_key, metadata_key, describe_log_dirs_key, offset_for_leader_epoch_key,
  list_partition_reassignments_key,
}
use streamsight_agent.Kafka.Capabilities.Probe.{
  unknown_version, supports_group_states_filter, supports_consumer_group_describe,
  supports_list_offsets_isolation, supports_list_offsets_after_milli, supports_log_dir_total_bytes,
  supports_offset_for_leader_epoch, supports_list_partition_reassignments,
}

pub record BrokerCapability : Type 0 where
  pub broker_id : ℤ
  pub software_version : String
  pub api_max_versions : List (String × ℤ)

pub record ClusterCapabilities : Type 0 where
  pub features : List (String × Bool)
  pub software_versions : List String
  pub mixed : Bool
  pub brokers : List BrokerCapability

-- `All`.
abbrev pub all_capabilities : Capabilities → List (String × Bool)
all_capabilities c =
    ("group_states_filter", supports_group_states_filter c)
    ∷ ("consumer_group_describe", supports_consumer_group_describe c)
    ∷ ("list_offsets_isolation", supports_list_offsets_isolation c)
    ∷ ("list_offsets_after_milli", supports_list_offsets_after_milli c)
    ∷ ("log_dir_total_bytes", supports_log_dir_total_bytes c)
    ∷ ("offset_for_leader_epoch", supports_offset_for_leader_epoch c)
    ∷ ("list_partition_reassignments", supports_list_partition_reassignments c)
    ∷ []

abbrev pub wire_api_names : List (ℤ × String)
wire_api_names =
    (list_offsets_key, "list_offsets")
    ∷ (metadata_key, "metadata")
    ∷ (list_groups_key, "list_groups")
    ∷ (offset_for_leader_epoch_key, "offset_for_leader_epoch")
    ∷ (describe_log_dirs_key, "describe_log_dirs")
    ∷ (list_partition_reassignments_key, "list_partition_reassignments")
    ∷ (consumer_group_describe_key, "consumer_group_describe")
    ∷ []

abbrev pub features : Capabilities → List (String × Bool)
features c =
    ("last_stable_offset", supports_list_offsets_isolation c)
    ∷ ("list_offsets_after_milli", supports_list_offsets_after_milli c)
    ∷ ("group_state_filter", supports_group_states_filter c)
    ∷ ("consumer_group_describe", supports_consumer_group_describe c)
    ∷ ("log_dirs_volume_bytes", supports_log_dir_total_bytes c)
    ∷ ("offset_for_leader_epoch", supports_offset_for_leader_epoch c)
    ∷ ("list_partition_reassignments", supports_list_partition_reassignments c)
    ∷ []

-- The loop over the keys of a broker, which drops a key without a name.
unfoldable pub name_versions : List (ℤ × ℤ) → List (String × ℤ) → List (String × ℤ)
name_versions [] named = named
name_versions ((key, most) ∷ rest) named = elim (lookup key wire_api_names) [
  | none ↦ name_versions rest named
  | some name ↦ name_versions rest (insert name most named)
]

unfoldable pub capability_row : BrokerKeys → BrokerCapability
unfolding name_versions
capability_row b = record {
  broker_id = b.node_id;
  software_version = if str_eq b.version unknown_version then "" else b.version;
  api_max_versions = name_versions b.keys [];
}

unfoldable pub has_seen : String → List String → Bool
has_seen v [] = false
has_seen v (w ∷ ws) = str_eq w v || has_seen v ws

-- The releases in the order in which the loop first meets them, after those it has seen.
unfoldable pub releases : List BrokerKeys → List String → List String
unfolding has_seen
releases [] seen = seen
releases (b ∷ bs) seen =
    let next =
      if str_eq b.version unknown_version
      then seen
      else (if has_seen b.version seen then seen else seen ++ b.version ∷ []) in
    releases bs next

-- `Wire`, of capabilities that may be nil.
unfoldable pub wire : Option Capabilities → Option ClusterCapabilities
unfolding capability_row releases
wire none = none
wire (some c) =
    let versions = sort_by string_ltb (releases c.probed []) in
    some record {
      features = features c;
      software_versions = versions;
      mixed = ltb 1 (length versions);
      brokers = map capability_row c.probed;
    }

unfoldable pub any_differs : String → List BrokerSoftware → Bool
any_differs v [] = false
any_differs v (b ∷ bs) = not (str_eq b.version v) || any_differs v bs

-- `MixedVersions`, which compares each broker with the first.
unfoldable pub mixed_versions : Capabilities → Bool
unfolding any_differs
mixed_versions c = elim c.brokers [ [] ↦ false | b ∷ bs ↦ any_differs b.version (b ∷ bs) ]
