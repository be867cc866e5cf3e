-- ===== src/Collector/Request/Told.antt =====
-- The statuses of sections that record an error of one topic, partition, group or directory, as the
-- record helpers of internal/collector/errors.go do.
use streamsight_agent.Base.{◌≤◌, String, ℤ}
use streamsight_agent.Collector.GoError.{GoErrors}
use streamsight_agent.Collector.Section.{Section, partial, status_rank, add}
use streamsight_agent.Collector.Request.{
  record_topic, record_partition, record_group, record_log_dir,
}
use streamsight_agent.Collector.Request.Status.{record_error-status}

-- A section that says that something is missing.
abbrev pub Admits : Section → Type 0
Admits s = status_rank partial ≤ status_rank s.status

abbrev pub Worsens : Section → Section → Type 0
Worsens s t = status_rank s.status ≤ status_rank t.status

module _ (G : GoErrors) where
  open G use {GoError}

  pub record_topic-Admits :
      (s : Section) (api topic : String) (e : GoError)
      → Admits (record_topic G s api topic e) × Worsens s (record_topic G s api topic e)
  unfolding record_topic add
  record_topic-Admits s api topic e = record_error-status s _

  pub record_partition-Admits :
      (s : Section) (api topic : String) (i : ℤ) (e : GoError)
      → Admits (record_partition G s api topic i e) × Worsens s (record_partition G s api topic i e)
  unfolding record_partition add
  record_partition-Admits s api topic i e = record_error-status s _

  pub record_group-Admits :
      (s : Section) (api group : String) (e : GoError)
      → Admits (record_group G s api group e) × Worsens s (record_group G s api group e)
  unfolding record_group add
  record_group-Admits s api group e = record_error-status s _

  pub record_log_dir-Admits :
      (s : Section) (api : String) (broker : ℤ) (dir : String) (e : GoError)
      → Admits (record_log_dir G s api broker dir e)
        × Worsens s (record_log_dir G s api broker dir e)
  unfolding record_log_dir add
  record_log_dir-Admits s api broker dir e = record_error-status s _
