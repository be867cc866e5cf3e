-- ===== src/Agent/Support.antt =====
-- Which phases run on a cluster: the gates against the answers of all its brokers.
use streamsight_agent.Base.{
  ◌≡◌, refl, Bool, true, false, ◌&&◌, some, List, ℤ, pos, length, ltb_ℤ, ◌<◌, arith,
}
use streamsight_agent.Kafka.Capabilities.{
  BrokerKeys, fold_capabilities, at_least, probed_keys, max_int16, consumer_group_describe_key,
  list_offsets_key, offset_for_leader_epoch_key, share_group_describe_key, describe_configs_key,
  list_partition_reassignments_key,
}
use streamsight_agent.Kafka.Capabilities.Floor.{all_serve, contains, fold_capabilities-at_least}
use streamsight_agent.Collector.Options.{Options}
use streamsight_agent.Agent.Gates.{Config, collector_options, gate, apply_capability_gates}

-- A phase is enabled if it was switched on and every broker serves its request.
abbrev pub EnabledIfServed : List BrokerKeys → Bool → Bool → ℤ → ℤ → Type 0
EnabledIfServed bs wanted enabled key v = enabled ≡ (wanted && all_serve key v bs)

abbrev pub PhasesAreServed : List BrokerKeys → Config → Options → Type 0
PhasesAreServed bs cfg o =
    EnabledIfServed bs cfg.collect_consumer_groups o.collect_consumer_groups
      consumer_group_describe_key (pos 0)
    × EnabledIfServed bs cfg.collect_last_stable_offset o.collect_last_stable_offset
        list_offsets_key (pos 2)
    × EnabledIfServed bs cfg.collect_throughput_window o.collect_throughput_window list_offsets_key
        (pos 1)
    × EnabledIfServed bs true o.collect_reassignments list_partition_reassignments_key (pos 0)
    × EnabledIfServed bs cfg.collect_max_timestamp o.collect_max_timestamp list_offsets_key (pos 7)
    × EnabledIfServed bs cfg.collect_tiered_offsets o.collect_tiered_offsets list_offsets_key
        (pos 8)
    × EnabledIfServed bs true o.collect_latest_tiered list_offsets_key (pos 9)
    × EnabledIfServed bs cfg.collect_share_groups o.collect_share_groups share_group_describe_key
        (pos 0)
    × EnabledIfServed bs cfg.collect_configs o.collect_configs describe_configs_key (pos 1)
    × EnabledIfServed bs true o.collect_epoch_probes offset_for_leader_epoch_key (pos 0)
    × (o.collect_log_dirs ≡ cfg.collect_log_dirs)

gated :
    (bs : List BrokerKeys) (wanted : Bool) (key v : ℤ)
    → 0 < length bs
    → contains key probed_keys ≡ true
    → ltb_ℤ max_int16 v ≡ false
    → EnabledIfServed bs wanted (gate wanted (at_least (fold_capabilities bs) key v)) key v
unfolding gate
gated bs wanted key v some_broker probed fits =
    ground (arith, fold_capabilities-at_least key v bs probed fits, some_broker)

-- On a cluster whose brokers answered the probe, the options enable each of the ten phases that the
-- probe gates exactly if the configuration wants it (the three that are no settings are always
-- wanted) and every broker serves its request at the version that the phase needs. The log
-- directories, which the probe does not gate, are enabled exactly if the configuration wants them.
pub apply_capability_gates-PhasesAreServed :
    (cfg : Config) (bs : List BrokerKeys)
    → 0 < length bs
    → PhasesAreServed bs cfg
        (apply_capability_gates (collector_options cfg) (some (fold_capabilities bs)))
unfolding apply_capability_gates collector_options
apply_capability_gates-PhasesAreServed cfg bs h = (
  gated bs cfg.collect_consumer_groups consumer_group_describe_key (pos 0) h refl refl,
  gated bs cfg.collect_last_stable_offset list_offsets_key (pos 2) h refl refl,
  gated bs cfg.collect_throughput_window list_offsets_key (pos 1) h refl refl,
  gated bs true list_partition_reassignments_key (pos 0) h refl refl,
  gated bs cfg.collect_max_timestamp list_offsets_key (pos 7) h refl refl,
  gated bs cfg.collect_tiered_offsets list_offsets_key (pos 8) h refl refl,
  gated bs true list_offsets_key (pos 9) h refl refl,
  gated bs cfg.collect_share_groups share_group_describe_key (pos 0) h refl refl,
  gated bs cfg.collect_configs describe_configs_key (pos 1) h refl refl,
  gated bs true offset_for_leader_epoch_key (pos 0) h refl refl,
  refl,
)
