-- ===== src/Export/Http.antt =====
-- internal/export/http.go: the queue of the HTTP exporter and the retries of its single worker.
-- Durations and clock readings are nanoseconds. The encoded body is an argument's type, since
-- marshalling and compression are not the repository's.
pub mod Backoff
pub mod Queue
pub mod Retry
use streamsight_agent.Base.{
  ℕ, zero, suc, ◌+◌, ◌-◌, ◌*◌, ◌%◌, ◌^◌, Bool, true, false, not, ◌&&◌, ◌||◌, Option, none, some,
  List, [], ◌∷◌, ◌++◌, String, ltb, leb, ◌==◌, if◌then◌else◌, length, drop, ℤ, pos, negsuc,
}
use streamsight_agent.Export.Counters.{
  Counters, new_counters, inc, record_err, drop_batch, Stats, snapshot,
}

abbrev pub second : ℕ
second = 1000000000

abbrev pub default_queue_size : ℕ
default_queue_size = 20

abbrev pub default_max_retries : ℕ
default_max_retries = 3

abbrev pub default_base_delay : ℕ
default_base_delay = second

abbrev pub default_http_timeout : ℕ
default_http_timeout = 10 * second

abbrev pub max_backoff : ℕ
max_backoff = 30 * second

abbrev pub max_retry_after : ℕ
max_retry_after = 300 * second

abbrev pub max_retry_budget : ℕ
max_retry_budget = 60 * second

-- The signed reading of a 64-bit word.
abbrev pub int64 : ℕ → ℤ
int64 n = let w : ℕ = n % 2 ^ 64 in if ltb w (2 ^ 63) then pos w else negsuc (2 ^ 64 - 1 - w)

pub data ExportError : Type 0 where
  cancelled encode_failed queue_full exporter_closed abandoned_budget abandoned_shutdown :
      ExportError
  transport_error : ExportError
  http_error : ℕ → ExportError

-- One batch encoded for the wire.
pub record Queued (B : Type 0) : Type 0 where
  pub body : B
  pub seq : ℕ
  pub collected_at : ℕ
  pub key : String

pub record HttpExporter (B : Type 0) : Type 0 where
  pub counters : Counters ExportError
  pub queue : List (Queued B)
  pub queue_size : ℕ
  pub closed : Bool
  pub max_retries : ℕ
  pub base_delay : ℕ
  pub timeout : ℕ
  pub shutdown_grace : ℕ
  pub retry_budget : ℕ

abbrev positive_or : ℤ → ℕ → ℕ
positive_or (pos zero) d = d
positive_or (pos (suc n)) d = suc n
positive_or (negsuc n) d = d

abbrev non_negative_or : ℤ → ℕ → ℕ
non_negative_or (pos n) d = n
non_negative_or (negsuc n) d = d

-- Only a negative `max_retries` means "unset".
unfoldable pub new_http_exporter : {B : Type 0} → ℤ → ℤ → ℤ → ℤ → HttpExporter B
unfolding new_counters
new_http_exporter queue_size max_retries base_delay timeout = record {
  counters = new_counters ExportError;
  queue = [];
  queue_size = positive_or queue_size default_queue_size;
  closed = false;
  max_retries = non_negative_or max_retries default_max_retries;
  base_delay = positive_or base_delay default_base_delay;
  timeout = positive_or timeout default_http_timeout;
  shutdown_grace = 2 * positive_or timeout default_http_timeout;
  retry_budget = max_retry_budget;
}

abbrev pub has_room : {B : Type 0} → HttpExporter B → Bool
has_room e = ltb (length e.queue) e.queue_size

abbrev pub push : {B : Type 0} → HttpExporter B → Queued B → HttpExporter B
push e q = record e { queue = e.queue ++ q ∷ [] }

-- The worker takes `n` entries from the front.
abbrev pub taken : {B : Type 0} → HttpExporter B → ℕ → HttpExporter B
taken e n = record e { queue = drop n e.queue }

-- The second `select`: the oldest entry makes room, if the worker has left one.
unfoldable pub evict : {B : Type 0} → HttpExporter B → HttpExporter B
unfolding drop_batch
evict e = elim e.queue [
  | [] ↦ e
  | stale ∷ rest ↦ record e { counters = drop_batch e.counters queue_full; queue = rest }
]

-- The third `select`.
unfoldable pub push_or_drop :
    {B : Type 0} → HttpExporter B → Queued B → HttpExporter B × Option ExportError
unfolding drop_batch
push_or_drop e q =
    if has_room e
    then (push e q, none)
    else (record e { counters = drop_batch e.counters queue_full }, some queue_full)

-- `Export` of an encoded batch. Between its three selects the worker takes `n` and `m` entries.
unfoldable pub enqueue :
    {B : Type 0} → HttpExporter B → Queued B → ℕ → ℕ → HttpExporter B × Option ExportError
unfolding evict push_or_drop drop_batch
enqueue e q n m =
    if e.closed
    then (record e { counters = drop_batch e.counters exporter_closed }, some exporter_closed)
    else (if has_room e then (push e q, none) else push_or_drop (taken (evict (taken e n)) m) q)

-- `Export`: whether the context is done, and the batch as encoded, `none` if that fails.
unfoldable pub export_batch :
    {B : Type 0}
    → HttpExporter B
    → Bool
    → Option (Queued B)
    → ℕ
    → ℕ
    → HttpExporter B × Option ExportError
unfolding enqueue drop_batch
export_batch e ctx_done batch n m = if ctx_done then (e, some cancelled) else elim batch [
  | none ↦ (record e { counters = drop_batch e.counters encode_failed }, some encode_failed)
  | some q ↦ enqueue e q n m
]

-- `Stats`.
unfoldable pub stats : {B : Type 0} → HttpExporter B → Stats ExportError
unfolding snapshot
stats e = record (snapshot e.counters) { queue_depth = length e.queue }

unfoldable pub retryable_status : ℕ → Bool
retryable_status code = if code == 408 || code == 429 then true else leb 500 code

-- `clampRetryAfter`, on a signed duration.
unfoldable pub clamp_retry_after : ℤ → ℤ
clamp_retry_after (pos d) = if ltb max_retry_after d then pos max_retry_after else pos d
clamp_retry_after (negsuc d) = negsuc d

-- The header once it is parsed: delta-seconds, the time until an HTTP date, or neither.
pub data RetryAfter : Type 0 where
  absent : RetryAfter
  seconds : ℤ → RetryAfter
  date : ℤ → RetryAfter

-- `parseRetryAfter`: `time.Duration(secs) * time.Second` wraps at 64 bits.
unfoldable pub parse_retry_after : RetryAfter → ℤ
unfolding clamp_retry_after
parse_retry_after absent = pos 0
parse_retry_after (seconds (pos zero)) = pos 0
parse_retry_after (seconds (pos (suc s))) = clamp_retry_after (int64 (suc s * second))
parse_retry_after (seconds (negsuc s)) = pos 0
parse_retry_after (date (pos zero)) = pos 0
parse_retry_after (date (pos (suc d))) = clamp_retry_after (pos (suc d))
parse_retry_after (date (negsuc d)) = pos 0

-- The ceiling of the backoff before attempt `attempt`: `baseDelay << (attempt - 1)` wraps too.
unfoldable pub backoff_ceiling : ℕ → ℕ → ℕ
backoff_ceiling base_delay attempt = elim (int64 (base_delay * 2 ^ (attempt - 1))) [
  | pos zero ↦ max_backoff
  | pos (suc c) ↦ if ltb max_backoff (suc c) then max_backoff else suc c
  | negsuc c ↦ max_backoff
]

-- Full jitter: `draw` is the random source's word, reduced as by `Int63n`.
unfoldable pub backoff : ℕ → ℕ → ℕ → ℕ
unfolding backoff_ceiling
backoff base_delay attempt draw = draw % (backoff_ceiling base_delay attempt + 1)

-- The outcome of one `send`.
pub data Sent : Type 0 where
  delivered : Sent
  no_response : Sent
  response : ℕ → RetryAfter → Sent

-- A response of 400 or more is an error.
unfoldable pub send_error : Sent → Option ExportError
send_error delivered = none
send_error no_response = some transport_error
send_error (response code after) = if leb 400 code then some (http_error code) else none

-- What surrounds the attempts for one batch: the clock when an attempt is considered, the random
-- word, whether shutdown cuts the wait short, and what the request returns.
pub record Surroundings : Type 0 where
  pub clock : ℕ → ℕ
  pub draw : ℕ → ℕ
  pub shutdown : ℕ → Bool
  pub send : ℕ → Sent

-- What became of a batch, with the requests sent and the time waited.
pub record Outcome : Type 0 where
  pub counters : Counters ExportError
  pub sends : ℕ
  pub waited : ℕ

-- The delay before a retry: the server's if it gave one, else the backoff.
unfoldable pub delay_of : ℕ → Surroundings → ℕ → ℤ → ℕ
unfolding backoff
delay_of base_delay w attempt (pos zero) = backoff base_delay attempt (w.draw attempt)
delay_of base_delay w attempt (pos (suc d)) = suc d
delay_of base_delay w attempt (negsuc d) = backoff base_delay attempt (w.draw attempt)

-- `wait`: cut short by shutdown, unless there is nothing to wait for.
unfoldable pub wait_ok : Surroundings → ℕ → ℕ → Bool
wait_ok w attempt delay = leb delay 0 || not (w.shutdown attempt)

-- The header and the status of a response.
unfoldable pub retry_after_of : Sent → ℤ
unfolding parse_retry_after
retry_after_of (response code after) = parse_retry_after after
retry_after_of delivered = pos 0
retry_after_of no_response = pos 0

-- An error response that is not worth another attempt.
unfoldable pub is_terminal : Sent → Bool
unfolding retryable_status
is_terminal (response code after) = not (retryable_status code)
is_terminal delivered = false
is_terminal no_response = false

abbrev pub sent_once : Outcome → Outcome
sent_once o = record o { sends = o.sends + 1 }

-- The end of the loop body: the batch was accepted, or refused for good, or there is the rest of the
-- loop.
unfoldable pub conclude : Sent → Outcome → Outcome → Outcome
unfolding send_error is_terminal inc record_err
conclude sent o rest = elim (send_error sent) [
  | none ↦ record o { counters = record o.counters { exported = inc o.counters.exported } }
  | some err ↦
      if is_terminal sent
      then record o {
        counters = record_err (record o.counters { rejected = inc o.counters.rejected }) (some err);
      }
      else rest
]

-- A batch that is abandoned before a retry is dropped.
unfoldable pub or_abandon : Outcome → Option ExportError → Outcome → Outcome
unfolding drop_batch
or_abandon o none next = next
or_abandon o (some e) next = record o { counters = drop_batch o.counters e }

module _ (base_delay deadline : ℕ) (w : Surroundings) where
  -- The part of the loop body before a retry: `none` if the batch is abandoned, by the error given.
  unfoldable pub before_retry : ℕ → ℤ → Outcome → Outcome × Option ExportError
  unfolding delay_of wait_ok inc
  before_retry attempt retry_after o =
      let delay : ℕ = delay_of base_delay w attempt retry_after in
      let now : ℕ = w.clock attempt in
      if leb deadline now || ltb (deadline - now) delay
      then (o, some abandoned_budget)
      else (let o' : Outcome = record o {
        counters = record o.counters { retries = inc o.counters.retries };
      } in
          if wait_ok w attempt delay
          then (record o' { waited = o'.waited + delay }, none)
          else (o', some abandoned_shutdown))

  -- The loop: `rounds` attempts from `attempt` on, with the last error and its Retry-After.
  unfoldable pub attempts : ℕ → ℕ → Option ExportError → ℤ → Outcome → Outcome
  unfolding before_retry conclude or_abandon send_error retry_after_of inc record_err
  attempts zero attempt last_err retry_after o = record o {
    counters = record_err (record o.counters { dropped = inc o.counters.dropped }) last_err;
  }
  attempts (suc rounds) attempt last_err retry_after o =
      let (o', abandoned) =
        if attempt == 0 then (o, none) else before_retry attempt retry_after o in
      let sent : Sent = w.send attempt in
      let rest =
        attempts rounds (attempt + 1) (send_error sent) (retry_after_of sent) (sent_once o') in
      or_abandon o' abandoned (conclude sent (sent_once o') rest)

-- `sendWithRetry`, begun when the clock reads `start`.
unfoldable pub send_with_retry : {B : Type 0} → HttpExporter B → ℕ → Surroundings → Outcome
unfolding attempts
send_with_retry e start w =
    attempts e.base_delay (start + e.retry_budget) w (suc e.max_retries) 0 none (pos 0)
      (record { counters = e.counters; sends = 0; waited = 0 })

-- `worker` after shutdown began: it sends whatever is queued and then ends. Each entry has its own
-- start and surroundings.
unfoldable pub drain :
    {B : Type 0} → HttpExporter B → (ℕ → ℕ) → (ℕ → Surroundings) → List (Queued B) → HttpExporter B
unfolding send_with_retry
drain e start w [] = record e { queue = [] }
drain e start w (q ∷ queue) =
    drain (record e { counters = (send_with_retry e (start q.seq) (w q.seq)).counters }) start w
      queue

-- `Close` when the drain is not cut short; it is idempotent.
unfoldable pub close : {B : Type 0} → HttpExporter B → (ℕ → ℕ) → (ℕ → Surroundings) → HttpExporter B
unfolding drain
close e start w = if e.closed then e else drain (record e { closed = true }) start w e.queue
