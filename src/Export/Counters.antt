-- ===== src/Export/Counters.antt =====
-- internal/export/exporter.go: the counters behind Stats. They are uint64 and wrap. An error is kept
-- in the type of the exporter's own errors, where the source keeps its text.
use streamsight_agent.Base.{ℕ, ◌+◌, ◌%◌, ◌^◌, Option, none, some}

-- `Add(1)` on an atomic uint64.
unfoldable pub inc : ℕ → ℕ
inc n = (n + 1) % 2 ^ 64

pub record Counters (E : Type 0) : Type 0 where
  pub exported : ℕ
  pub dropped : ℕ
  pub rejected : ℕ
  pub retries : ℕ
  pub last_err : Option E

unfoldable pub new_counters : (E : Type 0) → Counters E
new_counters E = record { exported = 0; dropped = 0; rejected = 0; retries = 0; last_err = none }

-- `recordError`: a nil error changes nothing.
unfoldable pub record_err : {E : Type 0} → Counters E → Option E → Counters E
record_err c none = c
record_err c (some e) = record c { last_err = some e }

-- A batch that is lost, with the error that lost it.
unfoldable pub drop_batch : {E : Type 0} → Counters E → E → Counters E
unfolding inc record_err
drop_batch c e = record_err (record c { dropped = inc c.dropped }) (some e)

pub record Stats (E : Type 0) : Type 0 where
  pub batches_exported : ℕ
  pub batches_dropped : ℕ
  pub batches_rejected : ℕ
  pub export_retries : ℕ
  pub queue_depth : ℕ
  pub last_error : Option E

unfoldable pub snapshot : {E : Type 0} → Counters E → Stats E
snapshot c = record {
  batches_exported = c.exported;
  batches_dropped = c.dropped;
  batches_rejected = c.rejected;
  export_retries = c.retries;
  queue_depth = 0;
  last_error = c.last_err;
}
