-- ===== src/Witnesses/Cycles.antt =====
-- The loop, the capabilities and the report of a cycle.
use streamsight_agent.Base.{
  ℕ, ◌+◌, ◌≡◌, refl, true, false, ◌&&◌, none, some, List, [], ◌∷◌, pos, length, arith, ltb,
}
use streamsight_agent.Agent.{Batch, Exporter, Event, shutdown, ticked, Agent, run_loop}
use streamsight_agent.Agent.Sequence.{handed, IsNumbered, run_loop-IsNumbered}
use streamsight_agent.Agent.Gates.{Config, collector_options, apply_capability_gates}
use streamsight_agent.Agent.Support.{PhasesAreServed, apply_capability_gates-PhasesAreServed}
use streamsight_agent.Kafka.Capabilities.{BrokerKeys, fold_capabilities, at_least}
use streamsight_agent.Kafka.Capabilities.Floor.{all_serve, fold_capabilities-at_least}
use streamsight_agent.Collector.Options.{Options, cadenced_phases}
use streamsight_agent.Collector.Options.Cadence.{AreDisjoint, cadenced_phases-AreDisjoint}
use streamsight_agent.Collector.Finalize.{finalize, said_errors, Tells, finalize-Tells}
use streamsight_agent.Witnesses.Sections.{cycle_sections, cycle_sections-Ready}

-- An exporter that counts what it is given.
abbrev counting : Exporter ℕ ℕ ℕ ℕ
counting = record {
  State = ℕ;
  export_batch = λ s b. (s + 1, none);
  stats = λ s. record {
    batches_exported = s;
    batches_dropped = 0;
    batches_rejected = 0;
    export_retries = 0;
    queue_depth = 0;
    last_error = none;
  };
  close = λ s. (s, none);
}

abbrev batch : Batch ℕ ℕ ℕ ℕ
batch = record {
  schema_version = 0;
  agent_version = "";
  agent_instance_id = "";
  batch_seq = 0;
  principal = "";
  cluster = none;
  agent = record {
    uptime_sec = 0;
    batches_collected = 0;
    batches_exported = 0;
    batches_dropped = 0;
    batches_rejected = 0;
    export_retries = 0;
    queue_depth = 0;
    last_export_error = none;
    rpc = some 4;
  };
  payload = 0;
}

abbrev agent : Agent counting
agent = record {
  version = "1";
  instance_id = "a";
  sasl_username = "u";
  caps = none;
  started_at = 0;
  batch_seq = 0;
  exporter = 0;
  client_open = true;
}

-- A batch, a cycle without one, a batch, an interrupted cycle and the shutdown.
abbrev events : List (Event ℕ ℕ ℕ ℕ)
events =
    ticked (record { collected = some batch; parent_done = false; now = 1 })
    ∷ ticked (record { collected = none; parent_done = false; now = 2 })
    ∷ ticked (record { collected = some batch; parent_done = false; now = 3 })
    ∷ ticked (record { collected = some batch; parent_done = true; now = 4 })
    ∷ shutdown
    ∷ []

run_loop-IsNumbered_example :
    IsNumbered agent.batch_seq
      (handed (run_loop counting agent events).1)
      (run_loop counting agent events).0.batch_seq
run_loop-IsNumbered_example = run_loop-IsNumbered counting agent events (omega arith)

-- One broker that serves ListOffsets up to version 7, and one that stops at 1.
abbrev brokers : List BrokerKeys
brokers =
    record { node_id = pos 1; version = "3.0"; keys = (pos 2, pos 7) ∷ (pos 46, pos 0) ∷ [] }
    ∷ record { node_id = pos 2; version = "0.10"; keys = (pos 2, pos 1) ∷ [] }
    ∷ []

fold_capabilities-at_least_example :
    at_least (fold_capabilities brokers) (pos 2) (pos 2)
    ≡ (ltb 0 (length brokers) && all_serve (pos 2) (pos 2) brokers)
fold_capabilities-at_least_example = fold_capabilities-at_least (pos 2) (pos 2) brokers refl refl

abbrev config : Config
config = record {
  collection_timeout = pos 4;
  include_internal_topics = false;
  topic_include = [];
  topic_exclude = [];
  group_include = [];
  group_exclude = [];
  group_states = [];
  collect_last_stable_offset = true;
  collect_consumer_groups = true;
  collect_log_dirs = true;
  log_dirs_every = pos 24;
  collect_throughput_window = false;
  throughput_window = pos 60;
  throughput_window_every = pos 1;
  collect_configs = true;
  configs_every = pos 360;
  collect_max_timestamp = true;
  max_timestamp_every = pos 12;
  collect_tiered_offsets = false;
  collect_share_groups = false;
  max_errors = pos 3;
  max_error_samples = pos 1;
}

apply_capability_gates-PhasesAreServed_example :
    PhasesAreServed brokers config
      (apply_capability_gates (collector_options config) (some (fold_capabilities brokers)))
apply_capability_gates-PhasesAreServed_example =
    apply_capability_gates-PhasesAreServed config brokers (omega arith)

abbrev options : Options
options = record {
  timeout = pos 4;
  include_internal_topics = false;
  topic_include = [];
  topic_exclude = [];
  group_include = [];
  group_exclude = [];
  group_states = [];
  collect_consumer_groups = true;
  collect_last_stable_offset = true;
  collect_log_dirs = true;
  log_dirs_every = pos 24;
  collect_throughput_window = false;
  throughput_window_width = pos 60;
  throughput_window_every = pos 1;
  collect_max_timestamp = true;
  collect_tiered_offsets = false;
  collect_latest_tiered = true;
  collect_share_groups = false;
  collect_configs = true;
  configs_every = pos 360;
  max_timestamp_every = pos 12;
  collect_reassignments = true;
  collect_epoch_probes = true;
  limits = record { max_errors = pos 3; max_error_samples = pos 1 };
}

cadenced_phases-AreDisjoint_example : AreDisjoint (cadenced_phases options 10)
cadenced_phases-AreDisjoint_example =
    cadenced_phases-AreDisjoint options 10 (refl, refl, refl) (omega arith)

finalize-Tells_example :
    (length (finalize options cycle_sections).sections ≡ length cycle_sections)
    × (said_errors (finalize options cycle_sections).sections
        ≡ length (finalize options cycle_sections).errors)
    × Tells (finalize options cycle_sections).truncation (finalize options cycle_sections).sections
finalize-Tells_example = finalize-Tells options cycle_sections cycle_sections-Ready
