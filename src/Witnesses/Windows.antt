-- ===== src/Witnesses/Windows.antt =====
-- The counters of the agent's own requests.
use streamsight_agent.Base.{ℕ, ◌+◌, ◌<◌, ◌≡◌, refl, inl, none, some, List, [], ◌∷◌, pos, length}
use streamsight_agent.Kafka.Hooks.{
  no_latencies, ensure_buckets, observe, broker_e2e, broker_connect, broker_disconnect,
  broker_throttle, RpcHooks,
}
use streamsight_agent.Kafka.Hooks.Buckets.{
  IsTallied, AreMicros, IsBucket, GrewAt, observe-IsTallied,
}
use streamsight_agent.Kafka.Hooks.Windows.{
  RpcEvent, hooked, snapped, IsConserved, broker_requests, row_requests, is_request, is_connect,
  is_disconnect, is_throttle,
}
use streamsight_agent.Kafka.Hooks.Conservation.{run_hooks-IsConserved}

observe-IsTallied_example :
    IsTallied (observe no_latencies (pos 700000))
    × ((observe no_latencies (pos 700000)).count ≡ no_latencies.count + 1)
    × (us : ℕ) × AreMicros (pos 700000) us
    × ((observe no_latencies (pos 700000)).sum_us ≡ no_latencies.sum_us + us)
    × (i : ℕ) × IsBucket us (observe no_latencies (pos 700000)).bounds_us i
    × (i < length (observe no_latencies (pos 700000)).counts)
    × GrewAt i (ensure_buckets no_latencies).counts (observe no_latencies (pos 700000)).counts
observe-IsTallied_example = observe-IsTallied no_latencies (pos 700000) (inl refl)

-- Two windows, with hooks before, between and after the snapshots.
abbrev events : List RpcEvent
events =
    hooked (pos 1) (broker_e2e (pos 3) 10 20 (some (pos 700000, pos 0)))
    ∷ hooked (pos 1) (broker_e2e (pos 3) 10 0 none)
    ∷ hooked (pos 2) (broker_connect (pos 5) (some "refused"))
    ∷ snapped 5000000000
    ∷ hooked (pos 1) broker_disconnect
    ∷ snapped 10000000000
    ∷ hooked (pos 2) (broker_throttle 100)
    ∷ []

abbrev hooks : RpcHooks
hooks = record { since = 0; brokers = [] }

run_hooks-IsConserved_example :
    IsConserved (λ key. "") broker_requests row_requests is_request hooks events
    × IsConserved
        (λ key. "")
        (λ b. b.connect_attempts)
        (λ r. r.connect_attempts)
        is_connect
        hooks
        events
    × IsConserved (λ key. "") (λ b. b.disconnects) (λ r. r.disconnects) is_disconnect hooks events
    × IsConserved
        (λ key. "")
        (λ b. b.throttle_events)
        (λ r. r.throttle_events)
        is_throttle
        hooks
        events
run_hooks-IsConserved_example = run_hooks-IsConserved (λ key. "") hooks events
