-- ===== src/Agent.antt =====
-- internal/agent/agent.go: the collection loop. The collector and the exporter are behind interfaces in
-- the source too; here they are the batch that a cycle collects and the record `Exporter`. Times are
-- nanoseconds of one clock, as arguments.
pub mod Sequence
pub mod Gates
pub mod Support
use streamsight_agent.Base.{
  ℕ, ◌+◌, ◌-◌, ◌/◌, Bool, true, false, Option, none, some, List, [], ◌∷◌, String, if◌then◌else◌,
}
use streamsight_agent.Export.Counters.{Stats, inc}

-- The agent's telemetry about itself, over the type `E` of an exporter's errors and `R` of the RPC window.
pub record AgentStats (E R : Type 0) : Type 0 where
  pub uptime_sec : ℕ
  pub batches_collected : ℕ
  pub batches_exported : ℕ
  pub batches_dropped : ℕ
  pub batches_rejected : ℕ
  pub export_retries : ℕ
  pub queue_depth : ℕ
  pub last_export_error : Option E
  pub rpc : Option R

-- What the loop reads and writes of the cluster section, over the type `C` of capabilities.
pub record ClusterMetrics (C : Type 0) : Type 0 where
  pub cluster_id : String
  pub capabilities : Option C

-- The envelope of a batch; `P` is the rest of it, which the loop passes on.
pub record Batch (E R C P : Type 0) : Type 0 where
  pub schema_version : ℕ
  pub agent_version : String
  pub agent_instance_id : String
  pub batch_seq : ℕ
  pub principal : String
  pub cluster : Option (ClusterMetrics C)
  pub agent : AgentStats E R
  pub payload : P

abbrev pub schema_version_now : ℕ
schema_version_now = 1

-- `export.Exporter`, with its state passed.
pub record Exporter (E R C P : Type 0) : Type 1 where
  pub State : Type 0
  pub export_batch : State → Batch E R C P → State × Option E
  pub stats : State → Stats E
  pub close : State → State × Option E

-- How a cycle ends: with no batch, with one that is discarded, or with the stamped batch that was handed
-- to the exporter, and the exporter's error.
pub data CycleEnd (E R C P : Type 0) : Type 0 where
  no_batch : CycleEnd E R C P
  interrupted : CycleEnd E R C P
  handed_over : Batch E R C P → Option E → CycleEnd E R C P

-- What a tick finds: the batch collected, whether the signal context is done by then, and the time.
pub record Tick (E R C P : Type 0) : Type 0 where
  pub collected : Option (Batch E R C P)
  pub parent_done : Bool
  pub now : ℕ

-- What the loop of `Run` waits for.
pub data Event (E R C P : Type 0) : Type 0 where
  shutdown : Event E R C P
  ticked : Tick E R C P → Event E R C P

module _ {E R C P : Type 0} (X : Exporter E R C P) where
  open X use {State, export_batch, stats, close}

  -- The agent, with the exporter's state; `client_open` is whether the Kafka client is open.
  pub record Agent : Type 0 where
    pub version : String
    pub instance_id : String
    pub sasl_username : String
    pub caps : Option C
    pub started_at : ℕ
    pub batch_seq : ℕ
    pub exporter : State
    pub client_open : Bool

  -- The capabilities go on a cluster section that is there.
  unfoldable pub stamp_cluster : Option C → Option (ClusterMetrics C) → Option (ClusterMetrics C)
  stamp_cluster caps none = none
  stamp_cluster caps (some c) = some (record c { capabilities = caps })

  -- `stamp`: the envelope, with the RPC window that the collector wrote.
  unfoldable pub stamp : Agent → Batch E R C P → ℕ → Batch E R C P
  unfolding stamp_cluster
  stamp a batch now =
      let s = stats a.exporter in
      record batch {
        schema_version = schema_version_now;
        agent_version = a.version;
        agent_instance_id = a.instance_id;
        batch_seq = a.batch_seq;
        principal = a.sasl_username;
        cluster = stamp_cluster a.caps batch.cluster;
        agent = record {
          uptime_sec = (now - a.started_at) / 1000000000;
          batches_collected = a.batch_seq;
          batches_exported = s.batches_exported;
          batches_dropped = s.batches_dropped;
          batches_rejected = s.batches_rejected;
          export_retries = s.export_retries;
          queue_depth = s.queue_depth;
          last_export_error = s.last_error;
          rpc = batch.agent.rpc;
        };
      }

  -- `runCycle`: a cycle without a batch and one that a shutdown interrupted use no sequence number.
  unfoldable pub run_cycle : Agent → Tick E R C P → Agent × CycleEnd E R C P
  unfolding stamp inc
  run_cycle a t = elim t.collected [
    | none ↦ (a, no_batch)
    | some batch ↦
        if t.parent_done
        then (a, interrupted)
        else (let a' : Agent = record a { batch_seq = inc a.batch_seq } in
            let stamped = stamp a' batch t.now in
            let (s, err) = export_batch a'.exporter stamped in
            (record a' { exporter = s }, handed_over stamped err))
  ]

  -- The loop of `Run`, over the events in the order in which it receives them, up to the shutdown. The
  -- second component is how each cycle ended.
  unfoldable pub run_loop : Agent → List (Event E R C P) → Agent × List (CycleEnd E R C P)
  unfolding run_cycle
  run_loop a [] = (a, [])
  run_loop a (shutdown ∷ es) = (a, [])
  run_loop a (ticked t ∷ es) =
      let (a', end) = run_cycle a t in let (a'', ends) = run_loop a' es in (a'', end ∷ ends)

  -- `Run`: the first cycle does not wait for a tick.
  unfoldable pub run : Agent → Tick E R C P → List (Event E R C P) → Agent × List (CycleEnd E R C P)
  unfolding run_loop
  run a first es = run_loop a (ticked first ∷ es)

  -- `Close`: the exporter is flushed first, and the client is closed whatever the flush returned.
  unfoldable pub shut_down : Agent → Agent × Option E
  shut_down a =
      let (s, err) = close a.exporter in (record a { exporter = s; client_open = false }, err)
