-- ===== src/Collector/Request.antt =====
-- internal/collector/errors.go: classification of errors, and the outcome of whole API calls.
pub mod Status
pub mod Told
use streamsight_agent.Base.{
  Bool, true, false, not, ◌&&◌, ◌||◌, Option, none, some, List, [], ◌∷◌, String, ℤ, pos, negsuc,
  eqb_ℤ, is_neg, if◌then◌else◌,
}
use streamsight_agent.Collector.GoError.{GoErrors, KafkaCodes, ShardErrors}
use streamsight_agent.Collector.Limits.{
  Kind, authorization, coordinator, transport, unsupported, other, CollectionError, eqb_kind,
}
use streamsight_agent.Collector.Section.{
  Section, SectionStatus, ok, partial, failed, unauthorized, skipped, downgrade, record_error, add,
}

unfoldable pub kind_for_code : KafkaCodes → ℤ → Kind
kind_for_code k code =
    if eqb_ℤ code k.topic_authorization_failed
      || eqb_ℤ code k.group_authorization_failed
      || eqb_ℤ code k.cluster_authorization_failed
      || eqb_ℤ code k.transactional_id_authorization_failed
      || eqb_ℤ code k.delegation_token_authorization_failed
    then authorization
    else (if eqb_ℤ code k.coordinator_not_available
          || eqb_ℤ code k.not_coordinator
          || eqb_ℤ code k.coordinator_load_in_progress
        then coordinator
        else (if eqb_ℤ code k.unsupported_version || eqb_ℤ code k.unsupported_for_message_format
            then unsupported
            else other))

module _ (G : GoErrors) where
  open G use {
    GoError, as_shard_errors, as_auth_error, as_kafka_error, is_context_error, is_net_error, codes,
    message,
  }

  -- The Kafka code of an error, or 0 when it came from no broker response.
  unfoldable pub error_code : GoError → ℤ
  error_code err = elim (as_kafka_error err) [ none ↦ pos 0 | some code ↦ code ]

  -- The kind and the code of an error; it is only called on one that is not nil.
  unfoldable pub classify : GoError → Kind × ℤ
  unfolding error_code kind_for_code
  classify err = elim (as_auth_error err) [
    | some inner ↦ (authorization, error_code inner)
    | none ↦ elim (as_kafka_error err) [
      | some code ↦ (kind_for_code codes code, code)
      | none ↦
          if is_context_error err
          then (transport, pos 0)
          else (if is_net_error err then (transport, pos 0) else (other, pos 0))
    ]
  ]

  unfoldable pub new_error : Section → String → GoError → CollectionError
  unfolding classify
  new_error s api err = record {
    section = s.name;
    api = api;
    broker_id = none;
    topic = "";
    partition = none;
    dir = "";
    group = "";
    code = (classify err).1;
    kind = (classify err).0;
    message = message err;
    count = 0;
  }

  unfoldable pub record_topic : Section → String → String → GoError → Section
  unfolding new_error
  record_topic s api topic err = add s (record (new_error s api err) { topic = topic })

  unfoldable pub record_partition : Section → String → String → ℤ → GoError → Section
  unfolding new_error
  record_partition s api topic partition err =
      add s (record (new_error s api err) { topic = topic; partition = some partition })

  unfoldable pub record_log_dir : Section → String → ℤ → String → GoError → Section
  unfolding new_error
  record_log_dir s api broker dir err =
      add s (record (new_error s api err) { broker_id = some broker; dir = dir })

  unfoldable pub record_group : Section → String → String → GoError → Section
  unfolding new_error
  record_group s api group err = add s (record (new_error s api err) { group = group })

  -- One shard's error; only a node id that is not negative names a broker.
  unfoldable pub shard_error : Section → String → ℤ × GoError → CollectionError
  unfolding new_error
  shard_error s api (node, err) = record (new_error s api err) {
    broker_id = if is_neg node then none else some node;
  }

  -- The loop over the failed shards: the section, and whether one was unauthorized.
  unfoldable pub record_shards : Section → String → Bool → List (ℤ × GoError) → Section × Bool
  unfolding shard_error
  record_shards s api found [] = (s, found)
  record_shards s api found (e ∷ es) =
      record_shards (record_error s (shard_error s api e) true) api
        (eqb_kind (shard_error s api e).kind authorization || found) es

  unfoldable pub request_shards : Section → String → ShardErrors GoError → Section × Bool
  unfolding record_shards
  request_shards s api se =
      let (s', found) = record_shards s api false se.errs in
      (
        downgrade s' (
            if se.all_failed && found
            then unauthorized
            else (if se.all_failed then failed else partial)),
        not se.all_failed,
      )

  -- `request`: the outcome of one whole API call, and whether any of its response is usable.
  unfoldable pub request : Section → String → Option GoError → Section × Bool
  unfolding request_shards new_error
  request s api none = (s, true)
  request s api (some err) = elim (as_shard_errors err) [
    | some se ↦ request_shards s api se
    | none ↦ elim (as_auth_error err) [
      | some _ ↦ (downgrade (record_error s (new_error s api err) true) unauthorized, false)
      | none ↦
          let ce : CollectionError = new_error s api err in
          (
            downgrade (record_error s ce true)
                (if eqb_kind ce.kind authorization then unauthorized else failed),
            false,
          )
    ]
  ]

  abbrev is_empty_status : SectionStatus → Bool
  is_empty_status failed = true
  is_empty_status unauthorized = true
  is_empty_status _ = false

  -- `requestPartial`: for a call whose response can carry data beside an error.
  unfoldable pub request_partial : Section → String → Option GoError → Bool → Section × Bool
  unfolding request
  request_partial s api err got_data =
      let (s', usable) = request s api err in
      if usable
      then (s', true)
      else (if not got_data
          then (s', false)
          else (if is_empty_status s'.status then record s' { status = partial } else s', true))
