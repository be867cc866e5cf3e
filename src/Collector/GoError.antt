-- ===== src/Collector/GoError.antt =====
-- What the collector asks of an error value. Go's `errors` package and the error types of kadm, kerr
-- and net are outside the repository, so they are an interface: each field is what one
-- `errors.As` or `errors.Is` test of internal/collector/errors.go answers about an error.
use streamsight_agent.Base.{ℤ, Bool, Option, List, String}

-- kadm.ShardErrors: the failed shards, each with the node id of its broker.
pub record ShardErrors {ℓ} (E : Type ℓ) : Type ℓ where
  pub errs : List (ℤ × E)
  pub all_failed : Bool

-- The codes of kerr's errors that the collector names.
pub record KafkaCodes : Type 0 where
  pub topic_authorization_failed : ℤ
  pub group_authorization_failed : ℤ
  pub cluster_authorization_failed : ℤ
  pub transactional_id_authorization_failed : ℤ
  pub delegation_token_authorization_failed : ℤ
  pub coordinator_not_available : ℤ
  pub not_coordinator : ℤ
  pub coordinator_load_in_progress : ℤ
  pub unsupported_version : ℤ
  pub unsupported_for_message_format : ℤ

pub record GoErrors : Type 1 where
  pub GoError : Type 0
  -- `errors.As(err, **kadm.ShardErrors)`.
  pub as_shard_errors : GoError → Option (ShardErrors GoError)
  -- `errors.As(err, **kadm.AuthError)`, with the error that it holds.
  pub as_auth_error : GoError → Option GoError
  -- `errors.As(err, **kerr.Error)`, with its code.
  pub as_kafka_error : GoError → Option ℤ
  -- `errors.Is(err, context.DeadlineExceeded) || errors.Is(err, context.Canceled)`.
  pub is_context_error : GoError → Bool
  -- `errors.As(err, *net.Error)`.
  pub is_net_error : GoError → Bool
  pub codes : KafkaCodes
  -- `err.Error()`.
  pub message : GoError → String
  -- errEpochNotReturned, errNoResponse, errTopicNotListed, errNotListed, errNegativeOffset, errNoLogDirs
  -- and errNotLogDirsResponse of the collector, which are plain `errors.New` values.
  pub epoch_not_returned : GoError
  pub no_response : GoError
  pub topic_not_listed : GoError
  pub not_listed : GoError
  pub negative_offset : GoError
  pub no_log_dirs : GoError
  pub not_log_dirs_response : GoError
