-- ===== src/Witnesses/Exports.antt =====
-- The exporters.
use streamsight_agent.Base.{
  ℕ, suc, ◌+◌, ◌*◌, ◌%◌, ◌^◌, ◌≤◌, ◌≡◌, refl, true, false, none, some, [], ◌∷◌, pos, length, arith,
  ◌==◌, if◌then◌else◌,
}
use streamsight_agent.Export.Counters.{Counters}
use streamsight_agent.Export.Http.{
  ExportError, Queued, HttpExporter, enqueue, seconds, parse_retry_after, max_backoff, second,
  no_response, response, Surroundings, send_with_retry, close, delay_of, retry_after_of,
}
use streamsight_agent.Export.Http.Backoff.{
  backoff-le, parse_retry_after-seconds, parse_retry_after-overflow,
}
use streamsight_agent.Export.Http.Queue.{Accepts, enqueue-Accepts}
use streamsight_agent.Export.Http.Retry.{
  Settled, send_with_retry-Settled, tally, close-tally, ClockAdvances,
}
use streamsight_agent.Export.File.{
  FileError, cancelled, Files, OpenFaults, Faults, FileExporter, export_batch, rotate_files,
  remove_backup, shift_backups, shift_one, move_live,
}
use streamsight_agent.Export.File.Accounting.{Accounted, export_batch-Accounted}
use streamsight_agent.Export.File.Rotation.{Rotated, rotate_files-Rotated}
use streamsight_agent.Export.File.{rotate, flush_and_close}
use streamsight_agent.Export.File.Reopening.{Waits, StaysWaiting, rotate-StaysWaiting}
use streamsight_agent.Export.File.Sticky.{export_all, export_all_stuck}

abbrev counters_of : (E : Type 0) → Counters E
counters_of E = record { exported = 3; dropped = 0; rejected = 0; retries = 0; last_err = none }

abbrev entry : ℕ → Queued ℕ
entry n = record { body = n; seq = n; collected_at = n; key = "" }

-- An exporter whose two places are taken.
abbrev full : HttpExporter ℕ
full = record {
  counters = counters_of ExportError;
  queue = entry 1 ∷ entry 2 ∷ [];
  queue_size = 2;
  closed = false;
  max_retries = 2;
  base_delay = second;
  timeout = second;
  shutdown_grace = second;
  retry_budget = 60 * second;
}

enqueue-Accepts_example : Accepts full (entry 3) (enqueue full (entry 3) 0 1)
enqueue-Accepts_example = enqueue-Accepts full (entry 3) 0 1 (omega arith, omega arith) refl

-- The server never answers, and the clock advances by a minute with each attempt.
abbrev silent : Surroundings
silent = record {
  clock = λ i. i * max_backoff;
  draw = λ i. i;
  shutdown = λ i. false;
  send = λ i. no_response;
}

silent-ClockAdvances : ClockAdvances second 0 silent
unfolding delay_of retry_after_of
silent-ClockAdvances = (omega arith, λ i. omega (arith, backoff-le second (suc i) (suc i)))

send_with_retry-Settled_example :
    Settled silent (suc full.max_retries) full.counters (send_with_retry full 0 silent).counters
    × ((send_with_retry full 0 silent).sends ≤ suc full.max_retries)
send_with_retry-Settled_example = send_with_retry-Settled full 0 silent

close-tally_example :
    ((close full (λ i. 0) (λ i. silent)).queue ≡ [])
    × ((close full (λ i. 0) (λ i. silent)).closed ≡ true)
    × (tally (close full (λ i. 0) (λ i. silent)).counters
        ≡ (tally full.counters + length full.queue) % 2 ^ 64)
close-tally_example = close-tally (λ i. 0) (λ i. silent) full refl

a_minute : parse_retry_after (seconds (pos 60)) ≡ pos (60 * second)
a_minute = parse_retry_after-seconds 60 (omega arith)

parse_retry_after-overflow_example :
    delay_of second silent 1 (retry_after_of (response 429 (seconds (pos 10000000000))))
    ≤ max_backoff
parse_retry_after-overflow_example =
    parse_retry_after-overflow 10000000000 second 1 silent 429 (omega arith) (omega arith)

abbrev no_open_faults : OpenFaults
no_open_faults = record { mkdir = false; open_file = false; stat = false }

-- No call of the operating system fails.
abbrev healthy : Faults
healthy = record {
  reopening = no_open_faults;
  rotating = no_open_faults;
  close_file = false;
  remove = false;
  stat_backup = λ i. false;
  rename = λ i. false;
  rename_live = false;
  write = false;
  written = 0;
  partial_write = [];
  flush = false;
  sync = false;
}

abbrev files : Files
files = record { live = some (1 ∷ []); backup = λ i. if i == 1 then some (2 ∷ []) else none }

rotated_clean : (rotate_files files healthy 2).1 ≡ none
unfolding rotate_files remove_backup shift_backups shift_one move_live
rotated_clean = refl

rotate_files-Rotated_example : Rotated 1 files (rotate_files files healthy 2).0
rotate_files-Rotated_example = rotate_files-Rotated files healthy 1 (λ i. refl) rotated_clean

-- An exporter whose writer holds an error.
abbrev stuck : FileExporter
stuck = record {
  counters = counters_of FileError;
  max_bytes = 1;
  max_backups = 2;
  sync = true;
  file = true;
  handle_open = true;
  write_err = true;
  size = 1;
  needs_reopen = false;
  closed = false;
  files = files;
}

export_batch-Accounted_example :
    Accounted stuck.counters (export_batch stuck false (some (7 ∷ [])) healthy)
    × (export_batch stuck true (some (7 ∷ [])) healthy ≡ (stuck, some cancelled))
export_batch-Accounted_example = export_batch-Accounted stuck (some (7 ∷ [])) healthy

export_all_stuck_example :
    (export_all stuck
      ((false, some (7 ∷ []), healthy) ∷ (false, some (8 ∷ []), healthy) ∷ [])).counters.exported
    ≡ stuck.counters.exported
export_all_stuck_example =
    export_all_stuck stuck ((false, some (7 ∷ []), healthy) ∷ (false, some (8 ∷ []), healthy) ∷ [])
      (refl, refl)

-- A healthy writer, and a rotation whose file cannot be opened.
abbrev rotating : FileExporter
rotating = record stuck { write_err = false }

abbrev unopened : Faults
unopened = record healthy { rotating = record no_open_faults { open_file = true } }

flushes : (flush_and_close rotating unopened).1 ≡ none
unfolding flush_and_close
flushes = refl

moves :
    (rotate_files
      (flush_and_close rotating unopened).0.files
      unopened
      (flush_and_close rotating unopened).0.max_backups).1
    ≡ none
unfolding flush_and_close rotate_files remove_backup shift_backups shift_one move_live
moves = refl

rotate-StaysWaiting_example :
    Waits (rotate rotating unopened).0
    × ((rotate rotating unopened).0.files
        ≡ (rotate_files
            (flush_and_close rotating unopened).0.files
            unopened
            (flush_and_close rotating unopened).0.max_backups).0)
    × StaysWaiting (rotate rotating unopened).0
rotate-StaysWaiting_example = rotate-StaysWaiting rotating unopened refl flushes moves refl
