-- ===== src/Kafka/Hooks/Windows.antt =====
-- No observation is lost between two windows, and none is counted twice.
use streamsight_agent.Base.{
  insert_by, sort_by, ℕ, ◌+◌, ◌≡◌, refl, ◌∙◌, Bool, inl, inr, Option, none, some, List, [], ◌∷◌,
  String, ℤ, map, arith, Bool-cases, Option-cases, lookup, insert, int_eq, eqb_ℤ,
}
use streamsight_agent.Kafka.Hooks.{
  LatencyHistogram, ensure_buckets, observe, ApiAccum, BrokerAccum, new_broker, Hook, broker_e2e,
  broker_connect, broker_disconnect, broker_throttle, on_api, api_of, on_broker, RpcHooks,
  broker_of, on_hook, BrokerApiRpc, BrokerRpc, RpcStats, broker_row, snapshot_rpc,
}

abbrev pub total {ℓ} : {A : Type ℓ} → (A → ℕ) → List A → ℕ
total f [] = 0
total f (x ∷ xs) = f x + total f xs

-- The entry that an insertion replaces, if there is one.
abbrev old_value : {V : Type 0} → (V → ℕ) → Option V → ℕ
old_value f none = 0
old_value f (some v) = f v

total-insert :
    {V : Type 0} (f : V → ℕ) (k : ℤ) (v : V) (m : List (ℤ × V))
    → total (λ (e : ℤ × V). f e.1) (insert k v m) + old_value f (lookup k m)
      ≡ total (λ (e : ℤ × V). f e.1) m + f v
unfolding insert lookup
total-insert f k v [] = omega arith
total-insert f k v ((j, w) ∷ m) = elim (Bool-cases (eqb_ℤ j k)) [
  | inl same ↦ rw same (omega arith)
  | inr other ↦ rw other (omega (arith, total-insert f k v m))
]

total-insert_by :
    {A : Type 0} (f : A → ℕ) (lt : A → A → Bool) (x : A) (xs : List A)
    → total f (insert_by lt x xs) ≡ f x + total f xs
unfolding insert_by
total-insert_by f lt x [] = refl
total-insert_by f lt x (y ∷ ys) = elim (Bool-cases (lt y x)) [
  | inl before ↦ rw before (omega (arith, total-insert_by f lt x ys))
  | inr after ↦ rw after refl
]

pub total-sort_by :
    {A : Type 0} (f : A → ℕ) (lt : A → A → Bool) (xs : List A)
    → total f (sort_by lt xs) ≡ total f xs
unfolding sort_by
total-sort_by f lt [] = refl
total-sort_by f lt (x ∷ xs) =
    total-insert_by f lt x (sort_by lt xs) ∙ omega (arith, total-sort_by f lt xs)

pub total-map :
    {A B : Type 0} (f : B → ℕ) (g : A → ℕ) (h : A → B) (xs : List A)
    → ((x : A) → f (h x) ≡ g x)
    → total f (map h xs) ≡ total g xs
total-map f g h [] e = refl
total-map f g h (x ∷ xs) e = omega (arith, e x, total-map f g h xs e)

pub ensure_buckets-count : (h : LatencyHistogram) → (ensure_buckets h).count ≡ h.count
unfolding ensure_buckets
ensure_buckets-count h = ground arith

-- What the client does to the hooks, in the order in which it takes their lock: a hook of a broker, or a
-- snapshot at a time.
pub data RpcEvent : Type 0 where
  hooked : ℤ → Hook → RpcEvent
  snapped : ℕ → RpcEvent

-- A measure of the counters: of a broker's in the accumulator, of its row in a window, and of one hook.
pub record Measure (api_name : ℤ → String) : Type 0 where
  pub of_broker : BrokerAccum → ℕ
  pub of_row : BrokerRpc → ℕ
  pub of_hook : Hook → ℕ
  pub new : of_broker new_broker ≡ 0
  pub grows : (b : BrokerAccum) (k : Hook) → of_broker (on_broker b k) ≡ of_broker b + of_hook k
  pub shown : (e : ℤ × BrokerAccum) → of_row (broker_row api_name e) ≡ of_broker e.1

module _ (api_name : ℤ → String) where
  -- The hooks and the windows after a sequence of events.
  unfoldable pub run_hooks : RpcHooks → List RpcEvent → RpcHooks × List RpcStats
  run_hooks h [] = (h, [])
  run_hooks h (hooked node k ∷ es) = run_hooks (on_hook h node k) es
  run_hooks h (snapped now ∷ es) =
      let (h', stats) = snapshot_rpc api_name h now in
      let (h'', windows) = run_hooks h' es in (h'', stats ∷ windows)

  abbrev pub in_hooks : (BrokerAccum → ℕ) → RpcHooks → ℕ
  in_hooks f h = total (λ (e : ℤ × BrokerAccum). f e.1) h.brokers

  abbrev pub in_windows : (BrokerRpc → ℕ) → List RpcStats → ℕ
  in_windows f windows = total (λ (s : RpcStats). total f s.brokers) windows

  abbrev pub in_events : (Hook → ℕ) → List RpcEvent → ℕ
  in_events f [] = 0
  in_events f (hooked node k ∷ es) = f k + in_events f es
  in_events f (snapped now ∷ es) = in_events f es

  -- Everything that the hooks held or were told is in exactly one window, or still held.
  abbrev pub IsConserved :
      (BrokerAccum → ℕ) → (BrokerRpc → ℕ) → (Hook → ℕ) → RpcHooks → List RpcEvent → Type 0
  IsConserved acc row hook h es =
      in_windows row (run_hooks h es).1 + in_hooks acc (run_hooks h es).0
      ≡ in_hooks acc h + in_events hook es

  module _ (μ : Measure api_name) where
    broker_of-measure :
        (node : ℤ) (h : RpcHooks)
        → old_value μ.of_broker (lookup node h.brokers) ≡ μ.of_broker (broker_of node h)
    broker_of-measure node h = elim (Option-cases (lookup node h.brokers)) [
      | inl e ↦ ground (arith, e, μ.new)
      | inr (b, e) ↦ ground (arith, e)
    ]

    on_hook-measure :
        (h : RpcHooks) (node : ℤ) (k : Hook)
        → in_hooks μ.of_broker (on_hook h node k) ≡ in_hooks μ.of_broker h + μ.of_hook k
    unfolding on_hook
    on_hook-measure h node k = omega (
      arith,
      total-insert μ.of_broker node (on_broker (broker_of node h) k) h.brokers,
      broker_of-measure node h,
      μ.grows (broker_of node h) k,
    )

    snapshot_rpc-measure :
        (h : RpcHooks) (now : ℕ)
        → (total μ.of_row (snapshot_rpc api_name h now).1.brokers ≡ in_hooks μ.of_broker h)
          × (in_hooks μ.of_broker (snapshot_rpc api_name h now).0 ≡ 0)
    unfolding snapshot_rpc
    snapshot_rpc-measure h now = (
      total-sort_by μ.of_row _ (map (broker_row api_name) h.brokers)
          ∙ total-map μ.of_row (λ (e : ℤ × BrokerAccum). μ.of_broker e.1) (broker_row api_name)
              h.brokers μ.shown,
      refl,
    )

    pub run_hooks-measure :
        (h : RpcHooks) (es : List RpcEvent) → IsConserved μ.of_broker μ.of_row μ.of_hook h es
    unfolding run_hooks
    run_hooks-measure h [] = omega arith
    run_hooks-measure h (hooked node k ∷ es) =
        omega (arith, run_hooks-measure (on_hook h node k) es, on_hook-measure h node k)
    run_hooks-measure h (snapped now ∷ es) =
        let (shown, emptied) = snapshot_rpc-measure h now in
        omega (arith, run_hooks-measure (snapshot_rpc api_name h now).0 es, shown, emptied)

-- The requests of an API key, of a broker and of a row: those that succeeded and those that failed.
abbrev pub api_requests : ApiAccum → ℕ
api_requests a = a.e2e.count + a.errors

abbrev pub broker_requests : BrokerAccum → ℕ
broker_requests b = total (λ (e : ℤ × ApiAccum). api_requests e.1) b.apis

abbrev pub row_requests : BrokerRpc → ℕ
row_requests r = total (λ (q : BrokerApiRpc). q.e2e.count + q.errors) r.requests

abbrev pub is_request : Hook → ℕ
is_request (broker_e2e key written read outcome) = 1
is_request (broker_connect init_dur err) = 0
is_request broker_disconnect = 0
is_request (broker_throttle interval) = 0

abbrev pub is_connect : Hook → ℕ
is_connect (broker_e2e key written read outcome) = 0
is_connect (broker_connect init_dur err) = 1
is_connect broker_disconnect = 0
is_connect (broker_throttle interval) = 0

abbrev pub is_disconnect : Hook → ℕ
is_disconnect (broker_e2e key written read outcome) = 0
is_disconnect (broker_connect init_dur err) = 0
is_disconnect broker_disconnect = 1
is_disconnect (broker_throttle interval) = 0

abbrev pub is_throttle : Hook → ℕ
is_throttle (broker_e2e key written read outcome) = 0
is_throttle (broker_connect init_dur err) = 0
is_throttle broker_disconnect = 0
is_throttle (broker_throttle interval) = 1

on_api-requests :
    (a : ApiAccum) (written read : ℕ) (outcome : Option (ℤ × ℤ))
    → api_requests (on_api a written read outcome) ≡ api_requests a + 1
unfolding on_api observe
on_api-requests a written read none = omega arith
on_api-requests a written read (some (took, waited)) = omega (arith, ensure_buckets-count a.e2e)

api_of-requests :
    (key : ℤ) (b : BrokerAccum)
    → old_value api_requests (lookup key b.apis) ≡ api_requests (api_of key b)
api_of-requests key b = elim (Option-cases (lookup key b.apis)) [
  | inl e ↦ ground (arith, e)
  | inr (a, e) ↦ ground (arith, e)
]

pub on_broker-requests :
    (b : BrokerAccum) (k : Hook)
    → broker_requests (on_broker b k) ≡ broker_requests b + is_request k
unfolding on_broker
on_broker-requests b (broker_e2e key written read outcome) = omega (
  arith,
  total-insert api_requests key (on_api (api_of key b) written read outcome) b.apis,
  api_of-requests key b,
  on_api-requests (api_of key b) written read outcome,
)
on_broker-requests b (broker_connect init_dur none) = omega arith
on_broker-requests b (broker_connect init_dur (some err)) = omega arith
on_broker-requests b broker_disconnect = omega arith
on_broker-requests b (broker_throttle interval) = omega arith
