-- ===== src/Kafka/Hooks/Conservation.antt =====
-- The four counters of which nothing is lost between two windows.
use streamsight_agent.Base.{◌+◌, ◌≡◌, refl, ◌∙◌, none, some, List, String, ℤ, map, arith}
use streamsight_agent.Kafka.Hooks.{
  BrokerAccum, Hook, broker_e2e, broker_connect, broker_disconnect, broker_throttle, on_broker,
  RpcHooks, ApiAccum, api_row, broker_row,
}
use streamsight_agent.Kafka.Hooks.Windows.{
  total-map, total-sort_by, ensure_buckets-count, RpcEvent, Measure, IsConserved, run_hooks-measure,
  broker_requests, row_requests, api_requests, on_broker-requests, is_request, is_connect,
  is_disconnect, is_throttle,
}

on_broker-connects :
    (b : BrokerAccum) (k : Hook)
    → (on_broker b k).connect_attempts ≡ b.connect_attempts + is_connect k
unfolding on_broker
on_broker-connects b (broker_e2e key written read outcome) = omega arith
on_broker-connects b (broker_connect init_dur none) = omega arith
on_broker-connects b (broker_connect init_dur (some err)) = omega arith
on_broker-connects b broker_disconnect = omega arith
on_broker-connects b (broker_throttle interval) = omega arith

on_broker-disconnects :
    (b : BrokerAccum) (k : Hook) → (on_broker b k).disconnects ≡ b.disconnects + is_disconnect k
unfolding on_broker
on_broker-disconnects b (broker_e2e key written read outcome) = omega arith
on_broker-disconnects b (broker_connect init_dur none) = omega arith
on_broker-disconnects b (broker_connect init_dur (some err)) = omega arith
on_broker-disconnects b broker_disconnect = omega arith
on_broker-disconnects b (broker_throttle interval) = omega arith

on_broker-throttles :
    (b : BrokerAccum) (k : Hook)
    → (on_broker b k).throttle_events ≡ b.throttle_events + is_throttle k
unfolding on_broker
on_broker-throttles b (broker_e2e key written read outcome) = omega arith
on_broker-throttles b (broker_connect init_dur none) = omega arith
on_broker-throttles b (broker_connect init_dur (some err)) = omega arith
on_broker-throttles b broker_disconnect = omega arith
on_broker-throttles b (broker_throttle interval) = omega arith

module _ (api_name : ℤ → String) where
  broker_row-requests :
      (e : ℤ × BrokerAccum) → row_requests (broker_row api_name e) ≡ broker_requests e.1
  unfolding broker_row api_row
  broker_row-requests e =
      total-sort_by _ _ (map (api_row api_name) e.1.apis)
      ∙ total-map _ (λ (a : ℤ × ApiAccum). api_requests a.1) (api_row api_name) e.1.apis
          (λ a. omega (arith, ensure_buckets-count a.1.e2e))

  abbrev requests : Measure api_name
  requests = record {
    of_broker = broker_requests;
    of_row = row_requests;
    of_hook = is_request;
    new = refl;
    grows = on_broker-requests;
    shown = broker_row-requests;
  }

  connects_shown :
      (e : ℤ × BrokerAccum) → (broker_row api_name e).connect_attempts ≡ e.1.connect_attempts
  unfolding broker_row
  connects_shown e = refl

  disconnects_shown : (e : ℤ × BrokerAccum) → (broker_row api_name e).disconnects ≡ e.1.disconnects
  unfolding broker_row
  disconnects_shown e = refl

  throttles_shown :
      (e : ℤ × BrokerAccum) → (broker_row api_name e).throttle_events ≡ e.1.throttle_events
  unfolding broker_row
  throttles_shown e = refl

  abbrev connects : Measure api_name
  connects = record {
    of_broker = λ b. b.connect_attempts;
    of_row = λ r. r.connect_attempts;
    of_hook = is_connect;
    new = refl;
    grows = on_broker-connects;
    shown = connects_shown;
  }

  abbrev disconnects : Measure api_name
  disconnects = record {
    of_broker = λ b. b.disconnects;
    of_row = λ r. r.disconnects;
    of_hook = is_disconnect;
    new = refl;
    grows = on_broker-disconnects;
    shown = disconnects_shown;
  }

  abbrev throttles : Measure api_name
  throttles = record {
    of_broker = λ b. b.throttle_events;
    of_row = λ r. r.throttle_events;
    of_hook = is_throttle;
    new = refl;
    grows = on_broker-throttles;
    shown = throttles_shown;
  }

  -- Whenever the snapshots fall between the hooks, every request, dial, disconnection and throttling of
  -- any broker is counted in exactly one window, or is still held for the next: over all brokers, the
  -- windows' rows and what is held add up to what was held at first and what the hooks were told.
  pub run_hooks-IsConserved :
      (h : RpcHooks) (es : List RpcEvent)
      → IsConserved api_name broker_requests row_requests is_request h es
        × IsConserved api_name (λ b. b.connect_attempts) (λ r. r.connect_attempts) is_connect h es
        × IsConserved api_name (λ b. b.disconnects) (λ r. r.disconnects) is_disconnect h es
        × IsConserved api_name (λ b. b.throttle_events) (λ r. r.throttle_events) is_throttle h es
  run_hooks-IsConserved h es = (
    run_hooks-measure api_name requests h es,
    run_hooks-measure api_name connects h es,
    run_hooks-measure api_name disconnects h es,
    run_hooks-measure api_name throttles h es,
  )
