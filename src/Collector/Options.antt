-- ===== src/Collector/Options.antt =====
-- internal/collector/collector.go and filter.go: the options of a collector, the selection that a batch
-- echoes, and the cadence of the phases that sample on every Nth cycle. The logger is left out.
pub mod Cadence
use streamsight_agent.Base.{
  ℕ, zero, suc, ◌+◌, ◌%◌, ◌^◌, Bool, true, false, not, ◌&&◌, Option, none, some, List, [], ◌∷◌,
  String, ◌==◌, ℤ, pos, negsuc, length, if◌then◌else◌,
}
use streamsight_agent.Collector.Limits.{Limits}

pub record Options : Type 0 where
  pub timeout : ℤ
  pub include_internal_topics : Bool
  pub topic_include : List String
  pub topic_exclude : List String
  pub group_include : List String
  pub group_exclude : List String
  pub group_states : List String
  pub collect_consumer_groups : Bool
  pub collect_last_stable_offset : Bool
  pub collect_log_dirs : Bool
  pub log_dirs_every : ℤ
  pub collect_throughput_window : Bool
  pub throughput_window_width : ℤ
  pub throughput_window_every : ℤ
  pub collect_max_timestamp : Bool
  pub collect_tiered_offsets : Bool
  pub collect_latest_tiered : Bool
  pub collect_share_groups : Bool
  pub collect_configs : Bool
  pub configs_every : ℤ
  pub max_timestamp_every : ℤ
  pub collect_reassignments : Bool
  pub collect_epoch_probes : Bool
  pub limits : Limits

pub record Selection : Type 0 where
  pub topic_include : List String
  pub topic_exclude : List String
  pub group_include : List String
  pub group_exclude : List String
  pub group_states : List String
  pub include_internal_topics : Bool

-- `selection`: nothing when nothing narrows or widens the view.
unfoldable pub selection : Options → Option Selection
selection o =
    let sel : Selection = record {
      topic_include = o.topic_include;
      topic_exclude = o.topic_exclude;
      group_include = o.group_include;
      group_exclude = o.group_exclude;
      group_states = o.group_states;
      include_internal_topics = o.include_internal_topics;
    } in
    if length sel.topic_include == 0
      && (length sel.topic_exclude == 0
          && (length sel.group_include == 0
              && (length sel.group_exclude == 0
                  && (length sel.group_states == 0 && not sel.include_internal_topics))))
    then none
    else some sel

abbrev pub phase_log_dirs : ℕ
phase_log_dirs = 0

abbrev pub phase_max_ts : ℕ
phase_max_ts = 2

abbrev pub phase_configs : ℕ
phase_configs = 5

abbrev pub phase_window : ℕ
phase_window = 0

-- `everyNth`: a cadence below one is one.
unfoldable pub every_nth : ℤ → ℕ
every_nth (pos zero) = 1
every_nth (pos (suc n)) = suc n
every_nth (negsuc n) = 1

-- `runsThisCycle`, on uint64.
unfoldable pub runs_this_cycle : Bool → ℤ → ℕ → ℕ → Bool
unfolding every_nth
runs_this_cycle enabled every offset n = enabled && (((n + offset) % 2 ^ 64) % every_nth every == 0)

pub record CadencedPhases : Type 0 where
  pub run_window : Bool
  pub run_dirs : Bool
  pub run_cfg : Bool
  pub run_max_ts : Bool

-- The cadenced phases that cycle `n` of `Collect` runs.
unfoldable pub cadenced_phases : Options → ℕ → CadencedPhases
unfolding runs_this_cycle
cadenced_phases o n = record {
  run_window = runs_this_cycle o.collect_throughput_window o.throughput_window_every phase_window n;
  run_dirs = runs_this_cycle o.collect_log_dirs o.log_dirs_every phase_log_dirs n;
  run_cfg = runs_this_cycle o.collect_configs o.configs_every phase_configs n;
  run_max_ts = runs_this_cycle o.collect_max_timestamp o.max_timestamp_every phase_max_ts n;
}
