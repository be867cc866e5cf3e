-- ===== src/Config/Load.antt =====
-- internal/config/config.go: the first half of Load, the settings of the connection and of the export.
use streamsight_agent.Base.{
  ◌*◌, Bool, false, not, ◌&&◌, ◌||◌, Option, none, some, List, [], ◌∷◌, ◌++◌, String, ℤ, pos, ltb_ℤ,
  is_neg, ◌==◌, length, str_eq, if◌then◌else◌,
}
use streamsight_agent.Export.Http.{second}
use streamsight_agent.Config.Parser.{
  GoLib, Problem, required, credentials_required, not_one_of, malformed, bad_scheme, no_host,
  out_of_range, Parsed, Stepped, joined, when, is_blank, split_list, getenv, str, duration, integer,
  boolean,
}

pub record KafkaConfig : Type 0 where
  pub kafka_brokers : List String
  pub sasl_mechanism : String
  pub sasl_username : String
  pub sasl_password : String
  pub tls_enabled : Bool

pub record TargetConfig : Type 0 where
  pub export_mode : String
  pub export_endpoint : String
  pub api_key : String

pub record ExportConfig : Type 0 where
  pub export_file : String
  pub export_file_max_mb : ℤ
  pub export_file_max_backups : ℤ
  pub export_file_sync : Bool
  pub export_queue_size : ℤ
  pub export_max_retries : ℤ
  pub export_base_delay : ℤ
  pub export_timeout : ℤ

-- A number, with a problem if the test says that it is out of range.
unfoldable pub checked : (ℤ → Bool) → String → Parsed ℤ → Parsed ℤ
unfolding when
checked is_bad key p = record {
  value = p.value;
  errs = p.errs ++ when (is_bad p.value) (out_of_range key p.value);
}

-- The three tests: `<= 0`, `< 0` and `< 1`.
abbrev pub not_positive : ℤ → Bool
not_positive n = not (ltb_ℤ (pos 0) n)

abbrev pub below_one : ℤ → Bool
below_one n = ltb_ℤ n (pos 1)

unfoldable pub known_mechanism : String → Bool
known_mechanism m =
    is_blank m || str_eq m "PLAIN" || str_eq m "SCRAM-SHA-256" || str_eq m "SCRAM-SHA-512"

module _ (G : GoLib) (env : String → Option String) where
  unfoldable pub load_kafka : Parsed KafkaConfig
  unfolding when known_mechanism
  load_kafka =
      let brokers = split_list G (getenv G env "KAFKA_BROKERS") in
      let mechanism = getenv G env "KAFKA_SASL_MECHANISM" in
      let username = getenv G env "KAFKA_SASL_USERNAME" in
      let password = getenv G env "KAFKA_SASL_PASSWORD" in
      let tls = boolean G env "KAFKA_TLS_ENABLED" false in
      record {
        value = record {
          kafka_brokers = brokers;
          sasl_mechanism = mechanism;
          sasl_username = username;
          sasl_password = password;
          tls_enabled = tls.value;
        };
        errs =
            when (length brokers == 0) (required "KAFKA_BROKERS")
            ++ when (not (known_mechanism mechanism)) (not_one_of "KAFKA_SASL_MECHANISM" mechanism)
            ++ when (not (is_blank mechanism) && (is_blank username || is_blank password))
                credentials_required
            ++ tls.errs;
      }

  -- The mode that is taken if none is named.
  unfoldable pub mode_or_default : String → String → String
  mode_or_default mode endpoint =
      if is_blank mode then (if is_blank endpoint then "file" else "http") else mode

  unfoldable pub check_url : String → List Problem
  check_url endpoint = elim (G.parse_url endpoint) [
    | none ↦ malformed "EXPORT_ENDPOINT" endpoint ∷ []
    | some (scheme, host) ↦
        if not (str_eq scheme "http") && not (str_eq scheme "https")
        then bad_scheme scheme ∷ []
        else (if is_blank host then no_host ∷ [] else [])
  ]

  -- The checks of the mode.
  unfoldable pub check_mode : String → String → String → List Problem
  unfolding when check_url
  check_mode mode endpoint api_key =
      let in_http =
        when (is_blank endpoint) (required "EXPORT_ENDPOINT")
        ++ when (is_blank api_key) (required "API_KEY")
        ++ (if is_blank endpoint then [] else check_url endpoint) in
      if str_eq mode "file" || str_eq mode "stdout"
      then []
      else (if str_eq mode "http" then in_http else not_one_of "EXPORT_MODE" mode ∷ [])

  unfoldable pub load_target : Parsed TargetConfig
  unfolding mode_or_default check_mode
  load_target =
      let endpoint = G.trim_space (getenv G env "EXPORT_ENDPOINT") in
      let api_key = getenv G env "API_KEY" in
      let mode =
        mode_or_default (G.to_lower (G.trim_space (getenv G env "EXPORT_MODE"))) endpoint in
      record {
        value = record { export_mode = mode; export_endpoint = endpoint; api_key = api_key };
        errs = check_mode mode endpoint api_key;
      }

  unfoldable pub exporter_steps : Stepped ExportConfig
  unfolding checked when
  exporter_steps =
      let max_mb = integer G env "EXPORT_FILE_MAX_MB" (pos 100) in
      let backups = integer G env "EXPORT_FILE_MAX_BACKUPS" (pos 3) in
      let sync = boolean G env "EXPORT_FILE_FSYNC" false in
      let queue =
        checked not_positive "EXPORT_QUEUE_SIZE" (integer G env "EXPORT_QUEUE_SIZE" (pos 20)) in
      let retries =
        checked is_neg "EXPORT_MAX_RETRIES" (integer G env "EXPORT_MAX_RETRIES" (pos 3)) in
      let delay =
        checked not_positive "EXPORT_BASE_DELAY"
          (duration G env "EXPORT_BASE_DELAY" (pos second)) in
      let timeout =
        checked not_positive "EXPORT_TIMEOUT"
          (duration G env "EXPORT_TIMEOUT" (pos (10 * second))) in
      record {
        value = record {
          export_file = str G env "EXPORT_FILE" "./metrics.jsonl";
          export_file_max_mb = max_mb.value;
          export_file_max_backups = backups.value;
          export_file_sync = sync.value;
          export_queue_size = queue.value;
          export_max_retries = retries.value;
          export_base_delay = delay.value;
          export_timeout = timeout.value;
        };
        steps =
            max_mb.errs
            ∷ backups.errs
            ∷ sync.errs
            ∷ when (is_neg backups.value) (out_of_range "EXPORT_FILE_MAX_BACKUPS" backups.value)
            ∷ queue.errs
            ∷ retries.errs
            ∷ delay.errs
            ∷ timeout.errs
            ∷ [];
      }

  abbrev pub load_exporter : Parsed ExportConfig
  load_exporter = joined exporter_steps
