-- ===== src/Collector/Limits.antt =====
-- internal/collector/limits.go: the caps on errors[], the deduplication key and the admission
-- priority. (mergeErrors is in Collector/Merge.) The wire types are those of
-- internal/metrics/types.go.
use streamsight_agent.Base.{
  ℕ, zero, suc, ◌≡◌, ◌↔◌, Bool, true, false, ◌&&◌, Option, none, some, String, str_eq, eq_iff, ℤ,
  pos, negsuc, eqb_ℤ, eqb_ℤ_iff, Eq, arith, leb, if◌then◌else◌, ◌-◌,
}

-- The coarse error kinds of CollectionError.Kind.
pub data Kind : Type 0 where
  authorization coordinator transport unsupported other : Kind

pub record CollectionError : Type 0 where
  pub section : String
  pub api : String
  pub broker_id : Option ℤ
  pub topic : String
  pub partition : Option ℤ
  pub dir : String
  pub group : String
  pub code : ℤ
  pub kind : Kind
  pub message : String
  pub count : ℕ

pub record Limits : Type 0 where
  pub max_errors : ℤ
  pub max_error_samples : ℤ

-- math.MaxInt on a 64-bit platform.
abbrev pub max_int : ℕ
max_int = 9223372036854775807

-- A setting below 1 is clamped to 1.
abbrev at_least_one : ℤ → ℕ
at_least_one (pos zero) = 1
at_least_one (pos (suc n)) = suc n
at_least_one (negsuc n) = 1

unfoldable pub error_samples : Limits → ℕ
error_samples l = at_least_one l.max_error_samples

abbrev or_max_int : ℤ → ℕ
or_max_int (pos zero) = max_int
or_max_int (pos (suc n)) = suc n
or_max_int (negsuc n) = max_int

unfoldable pub per_section_error_budget : Limits → ℕ
per_section_error_budget l = or_max_int l.max_errors

-- The retained and the dropped number, against a constant ceiling.
unfoldable pub cap_len : ℕ → ℕ → ℕ × ℕ
cap_len n ceiling =
    if leb ceiling 0 then (n, 0) else (if leb n ceiling then (n, 0) else (ceiling, n - ceiling))

-- math.MinInt32.
abbrev pub no_broker : ℤ
no_broker = negsuc 2147483647

abbrev pub max_distinct_error_keys : ℕ
max_distinct_error_keys = 256

pub record ErrKey : Type 0 where
  pub api : String
  pub kind : Kind
  pub code : ℤ
  pub broker_id : ℤ

abbrev broker_or_sentinel : Option ℤ → ℤ
broker_or_sentinel none = no_broker
broker_or_sentinel (some b) = b

unfoldable pub key_of : CollectionError → ErrKey
key_of ce = record {
  api = ce.api;
  kind = ce.kind;
  code = ce.code;
  broker_id = broker_or_sentinel ce.broker_id;
}

abbrev pub eqb_kind : Kind → Kind → Bool
eqb_kind authorization authorization = true
eqb_kind coordinator coordinator = true
eqb_kind transport transport = true
eqb_kind unsupported unsupported = true
eqb_kind other other = true
eqb_kind _ _ = false

-- Go's `==` on the key struct.
abbrev pub eqb_key : ErrKey → ErrKey → Bool
eqb_key a b =
    str_eq a.api b.api
    && eqb_kind a.kind b.kind
    && (eqb_ℤ a.code b.code && eqb_ℤ a.broker_id b.broker_id)

pub eqb_key_iff : (a b : ErrKey) → (eqb_key a b ≡ true) ↔ (a ≡ b)
eqb_key_iff a b =
    ground (arith, eq_iff a.api b.api, eqb_ℤ_iff a.code b.code, eqb_ℤ_iff a.broker_id b.broker_id)

instance abbrev pub key_eq : Eq ErrKey
key_eq = record { beq = eqb_key; beq_iff = eqb_key_iff }

-- The admission priorities; lower survives a budget.
abbrev pub prio_request : ℕ
prio_request = 0

abbrev pub prio_auth : ℕ
prio_auth = 1

abbrev pub prio_unsupported : ℕ
prio_unsupported = 2

abbrev pub prio_coordinator : ℕ
prio_coordinator = 3

abbrev pub prio_transport : ℕ
prio_transport = 4

abbrev pub prio_entity : ℕ
prio_entity = 5

abbrev kind_priority : Kind → ℕ
kind_priority authorization = prio_auth
kind_priority unsupported = prio_unsupported
kind_priority coordinator = prio_coordinator
kind_priority transport = prio_transport
kind_priority other = prio_entity

unfoldable pub err_priority : CollectionError → Bool → ℕ
err_priority ce request_scoped = if request_scoped then prio_request else kind_priority ce.kind
