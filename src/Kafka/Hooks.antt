-- ===== src/Kafka/Hooks.antt =====
-- internal/kafka/hooks.go and the histogram of internal/metrics/types.go: the counters of the agent's own
-- requests, per window, broker and API key. A nil slice of buckets is empty, and the counters of one
-- window, which cannot have seen 2^64 events, are natural numbers. The name of an API key is a parameter.
pub mod Buckets
pub mod Windows
pub mod Conservation
use streamsight_agent.Base.{
  ℕ, zero, suc, ◌+◌, ◌-◌, ◌/◌, Bool, true, false, Option, none, some, List, [], ◌∷◌, String, ℤ, pos,
  negsuc, map, ltb_ℤ, ltb, if◌then◌else◌, length, replicate, get_elem?, set, lookup, insert,
  string_ltb, int_eq, sort_by,
}

abbrev pub default_latency_bounds_us : List ℕ
default_latency_bounds_us =
    500 ∷ 1000 ∷ 2500 ∷ 5000 ∷ 10000 ∷ 25000 ∷ 50000 ∷ 100000 ∷ 500000 ∷ 1000000 ∷ 5000000 ∷ []

pub record LatencyHistogram : Type 0 where
  pub count : ℕ
  pub sum_us : ℕ
  pub max_us : Option ℕ
  pub bounds_us : List ℕ
  pub counts : List ℕ

abbrev pub no_latencies : LatencyHistogram
no_latencies = record { count = 0; sum_us = 0; max_us = none; bounds_us = []; counts = [] }

-- `EnsureBuckets`.
unfoldable pub ensure_buckets : LatencyHistogram → LatencyHistogram
ensure_buckets h = elim h.counts [
  | [] ↦ record h {
    bounds_us = default_latency_bounds_us;
    counts = replicate (length default_latency_bounds_us + 1) 0;
  }
  | _ ∷ _ ↦ h
]

-- The microseconds of a duration, in nanoseconds; a negative one counts as nothing.
unfoldable pub micros : ℤ → ℕ
micros (pos d) = d / 1000
micros (negsuc d) = 0

-- The loop of `Observe`: the first bound that is not below.
unfoldable pub bucket_of : ℕ → List ℕ → ℕ
bucket_of us [] = 0
bucket_of us (b ∷ bs) = let rest = bucket_of us bs in if ltb b us then suc rest else 0

-- `h.Counts[i]++`; Buckets shows that `i` is in range.
unfoldable pub count_at : List ℕ → ℕ → List ℕ
count_at counts i = elim (get_elem? counts i) [ none ↦ counts | some n ↦ set counts i (n + 1) ]

unfoldable pub larger : Option ℕ → ℕ → ℕ
larger none us = us
larger (some m) us = if ltb m us then us else m

-- `Observe`.
unfoldable pub observe : LatencyHistogram → ℤ → LatencyHistogram
unfolding ensure_buckets micros bucket_of count_at larger
observe h d =
    let laid = ensure_buckets h in
    let us = micros d in
    record laid {
      count = laid.count + 1;
      sum_us = laid.sum_us + us;
      max_us = some (larger laid.max_us us);
      counts = count_at laid.counts (bucket_of us laid.bounds_us);
    }

pub record ApiAccum : Type 0 where
  pub e2e : LatencyHistogram
  pub write_wait : LatencyHistogram
  pub errors : ℕ
  pub bytes_written : ℕ
  pub bytes_read : ℕ

pub record BrokerAccum : Type 0 where
  pub apis : List (ℤ × ApiAccum)
  pub connect_attempts : ℕ
  pub connect_failures : ℕ
  pub connect_latency : LatencyHistogram
  pub disconnects : ℕ
  pub last_connect_err : Option String
  pub throttle_events : ℕ
  pub throttled : ℕ

abbrev pub new_api : ApiAccum
new_api = record {
  e2e = no_latencies;
  write_wait = no_latencies;
  errors = 0;
  bytes_written = 0;
  bytes_read = 0;
}

abbrev pub new_broker : BrokerAccum
new_broker = record {
  apis = [];
  connect_attempts = 0;
  connect_failures = 0;
  connect_latency = no_latencies;
  disconnects = 0;
  last_connect_err = none;
  throttle_events = 0;
  throttled = 0;
}

-- What a hook is told. An error of a dial is its message, cut as `truncate` cuts it.
pub data Hook : Type 0 where
  broker_e2e : ℤ → ℕ → ℕ → Option (ℤ × ℤ) → Hook
  broker_connect : ℤ → Option String → Hook
  broker_disconnect : Hook
  broker_throttle : ℕ → Hook

-- `OnBrokerE2E` on the key's counters: the two durations, or `none` if the request failed.
unfoldable pub on_api : ApiAccum → ℕ → ℕ → Option (ℤ × ℤ) → ApiAccum
unfolding observe
on_api a written read none = record a {
  bytes_written = a.bytes_written + written;
  bytes_read = a.bytes_read + read;
  errors = a.errors + 1;
}
on_api a written read (some (took, waited)) = record a {
  bytes_written = a.bytes_written + written;
  bytes_read = a.bytes_read + read;
  e2e = observe a.e2e took;
  write_wait = observe a.write_wait waited;
}

abbrev pub api_of : ℤ → BrokerAccum → ApiAccum
api_of key b = elim (lookup key b.apis) [ none ↦ new_api | some a ↦ a ]

-- The four hooks, on the counters of their broker.
unfoldable pub on_broker : BrokerAccum → Hook → BrokerAccum
unfolding on_api observe
on_broker b (broker_e2e key written read outcome) = record b {
  apis = insert key (on_api (api_of key b) written read outcome) b.apis;
}
on_broker b (broker_connect init_dur (some err)) = record b {
  connect_attempts = b.connect_attempts + 1;
  connect_failures = b.connect_failures + 1;
  last_connect_err = some err;
}
on_broker b (broker_connect init_dur none) = record b {
  connect_attempts = b.connect_attempts + 1;
  connect_latency = observe b.connect_latency init_dur;
}
on_broker b broker_disconnect = record b { disconnects = b.disconnects + 1 }
on_broker b (broker_throttle interval) = record b {
  throttle_events = b.throttle_events + 1;
  throttled = b.throttled + interval;
}

pub record RpcHooks : Type 0 where
  pub since : ℕ
  pub brokers : List (ℤ × BrokerAccum)

unfoldable pub new_rpc_hooks : ℕ → RpcHooks
new_rpc_hooks start = record { since = start; brokers = [] }

abbrev pub broker_of : ℤ → RpcHooks → BrokerAccum
broker_of node h = elim (lookup node h.brokers) [ none ↦ new_broker | some b ↦ b ]

-- A hook of a broker, whose counters are created when there are none.
unfoldable pub on_hook : RpcHooks → ℤ → Hook → RpcHooks
unfolding on_broker
on_hook h node hook = record h {
  brokers = insert node (on_broker (broker_of node h) hook) h.brokers;
}

pub record BrokerApiRpc : Type 0 where
  pub api : String
  pub e2e : LatencyHistogram
  pub write_wait : LatencyHistogram
  pub errors : ℕ
  pub bytes_written : ℕ
  pub bytes_read : ℕ

pub record BrokerRpc : Type 0 where
  pub broker_id : ℤ
  pub requests : List BrokerApiRpc
  pub connect_attempts : ℕ
  pub connect_failures : ℕ
  pub connect_latency : LatencyHistogram
  pub disconnects : ℕ
  pub last_connect_error : Option String
  pub throttle_events : ℕ
  pub throttled_ms : ℕ

pub record RpcStats : Type 0 where
  pub window_ms : ℕ
  pub brokers : List BrokerRpc

module _ (api_name : ℤ → String) where
  unfoldable pub api_row : ℤ × ApiAccum → BrokerApiRpc
  unfolding ensure_buckets
  api_row (key, a) = record {
    api = api_name key;
    e2e = ensure_buckets a.e2e;
    write_wait = ensure_buckets a.write_wait;
    errors = a.errors;
    bytes_written = a.bytes_written;
    bytes_read = a.bytes_read;
  }

  unfoldable pub broker_row : ℤ × BrokerAccum → BrokerRpc
  unfolding api_row ensure_buckets sort_by
  broker_row (id, b) = record {
    broker_id = id;
    requests = sort_by (λ x y. string_ltb x.api y.api) (map api_row b.apis);
    connect_attempts = b.connect_attempts;
    connect_failures = b.connect_failures;
    connect_latency = ensure_buckets b.connect_latency;
    disconnects = b.disconnects;
    last_connect_error = b.last_connect_err;
    throttle_events = b.throttle_events;
    throttled_ms = b.throttled / 1000000;
  }

  -- `snapshot`: the window closes, and the next opens empty. The clock does not run back below zero.
  unfoldable pub snapshot_rpc : RpcHooks → ℕ → RpcHooks × RpcStats
  unfolding broker_row sort_by
  snapshot_rpc h now = (
    record { since = now; brokers = [] },
    record {
      window_ms = (now - h.since) / 1000000;
      brokers = sort_by (λ x y. ltb_ℤ x.broker_id y.broker_id) (map broker_row h.brokers);
    },
  )
