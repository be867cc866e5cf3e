-- ===== src/Kafka/Capabilities/Probe.antt =====
-- internal/kafka/capabilities.go: the brokers' answers to the probe, read out of kadm.BrokersApiVersions, and
-- what the agent asks of the folded answer. kadm is outside the repository: an answer of a broker is a
-- record, and `Sorted` is an argument.
use streamsight_agent.Base.{
  ◌⊎◌, inl, inr, Bool, Option, none, some, List, [], ◌∷◌, String, ℤ, pos, lookup, insert, int_eq,
  string_eq, ◌==◌, length, if◌then◌else◌,
}
use streamsight_agent.Kafka.Capabilities.{
  BrokerKeys, Capabilities, at_least, probed_keys, list_groups_key,
  list_groups_states_filter_version, consumer_group_describe_key, list_offsets_key,
  describe_log_dirs_key, offset_for_leader_epoch_key, share_group_describe_key,
  describe_configs_key, list_partition_reassignments_key,
}

-- kadm.BrokerApiVersions: `raw` tells whether `Raw()` is not nil, `guess` is `VersionGuess()`, and
-- `max_versions` is what `KeyMaxVersion` looks up.
pub record BrokerApiVersions {ℓ} (E : Type ℓ) : Type ℓ where
  pub node_id : ℤ
  pub err : Option E
  pub raw : Bool
  pub guess : String
  pub max_versions : List (ℤ × ℤ)

-- Why the probe fails.
pub data ProbeError {ℓ} (E : Type ℓ) : Type ℓ where
  none_answered : ProbeError E
  did_not_answer : ℤ → E → ProbeError E

abbrev pub unknown_version : String
unknown_version = "unknown"

-- The loop over the probed keys.
unfoldable pub probe_keys : List ℤ → List (ℤ × ℤ) → List (ℤ × ℤ) → List (ℤ × ℤ)
probe_keys [] answered keys = keys
probe_keys (key ∷ rest) answered keys = elim (lookup key answered) [
  | none ↦ probe_keys rest answered keys
  | some most ↦ probe_keys rest answered (insert key most keys)
]

module _ {ℓ} {E : Type ℓ} where
  unfoldable pub broker_keys : BrokerApiVersions E → BrokerKeys
  unfolding probe_keys
  broker_keys v = record {
    node_id = v.node_id;
    version = if v.raw then v.guess else unknown_version;
    keys = probe_keys probed_keys v.max_versions [];
  }

  -- The loop over the brokers, which the first failure ends.
  unfoldable pub probe_each : List (BrokerApiVersions E) → ProbeError E ⊎ List BrokerKeys
  unfolding broker_keys
  probe_each [] = inr []
  probe_each (v ∷ vs) = elim v.err [
    | some e ↦ inl (did_not_answer v.node_id e)
    | none ↦ elim (probe_each vs) [ inl e ↦ inl e | inr bs ↦ inr (broker_keys v ∷ bs) ]
  ]

  -- `probeBrokers`.
  unfoldable pub probe_brokers :
      (List (ℤ × BrokerApiVersions E) → List (BrokerApiVersions E))
      → List (ℤ × BrokerApiVersions E)
      → ProbeError E ⊎ List BrokerKeys
  unfolding probe_each
  probe_brokers sorted versions =
      if length versions == 0 then inl none_answered else probe_each (sorted versions)

-- The first versions of ListOffsets with an isolation level and with a timestamp in the answer, and of
-- DescribeLogDirs with the size of the volume.
abbrev pub list_offsets_isolation_version : ℤ
list_offsets_isolation_version = pos 2

abbrev pub list_offsets_timestamp_version : ℤ
list_offsets_timestamp_version = pos 1

abbrev pub describe_log_dirs_total_bytes_version : ℤ
describe_log_dirs_total_bytes_version = pos 4

abbrev pub supports_group_states_filter : Capabilities → Bool
supports_group_states_filter c = at_least c list_groups_key list_groups_states_filter_version

abbrev pub supports_consumer_group_describe : Capabilities → Bool
supports_consumer_group_describe c = at_least c consumer_group_describe_key (pos 0)

abbrev pub supports_list_offsets_isolation : Capabilities → Bool
supports_list_offsets_isolation c = at_least c list_offsets_key list_offsets_isolation_version

abbrev pub supports_list_offsets_after_milli : Capabilities → Bool
supports_list_offsets_after_milli c = at_least c list_offsets_key list_offsets_timestamp_version

abbrev pub supports_log_dir_total_bytes : Capabilities → Bool
supports_log_dir_total_bytes c =
    at_least c describe_log_dirs_key describe_log_dirs_total_bytes_version

abbrev pub supports_offset_for_leader_epoch : Capabilities → Bool
supports_offset_for_leader_epoch c = at_least c offset_for_leader_epoch_key (pos 0)

abbrev pub supports_list_partition_reassignments : Capabilities → Bool
supports_list_partition_reassignments c = at_least c list_partition_reassignments_key (pos 0)

abbrev pub supports_max_timestamp_offsets : Capabilities → Bool
supports_max_timestamp_offsets c = at_least c list_offsets_key (pos 7)

abbrev pub supports_local_log_start_offsets : Capabilities → Bool
supports_local_log_start_offsets c = at_least c list_offsets_key (pos 8)

abbrev pub supports_latest_tiered_offsets : Capabilities → Bool
supports_latest_tiered_offsets c = at_least c list_offsets_key (pos 9)

abbrev pub supports_list_groups_types : Capabilities → Bool
supports_list_groups_types c = at_least c list_groups_key (pos 5)

abbrev pub supports_share_group_describe : Capabilities → Bool
supports_share_group_describe c = at_least c share_group_describe_key (pos 0)

abbrev pub supports_describe_configs : Capabilities → Bool
supports_describe_configs c = at_least c describe_configs_key (pos 1)
