-- ===== src/Config/Valid.antt =====
-- What a loaded configuration is known to satisfy.
use streamsight_agent.Base.{
  ◌≡◌, refl, subst, inr, Bool, false, Option, List, [], ◌∷◌, ◌++◌, String, ℤ, pos, is_neg, arith,
  All, ◌*◌,
}
use streamsight_agent.Agent.Gates.{Config as CollectorConfig}
use streamsight_agent.Export.Http.{second}
use streamsight_agent.Config.Parser.{
  GoLib, Problem, Parsed, integer, duration, in_order, result, when, out_of_range,
}
use streamsight_agent.Config.Load.{
  ExportConfig, checked, not_positive, below_one, exporter_steps, load_exporter,
}
use streamsight_agent.Config.Settings.{
  Config, minute, default_timeout, load_interval, collector_steps, load_collector, load_steps, load,
}

abbrev pub IsPositive : ℤ → Type 0
IsPositive n = not_positive n ≡ false

abbrev pub IsAtLeastOne : ℤ → Type 0
IsAtLeastOne n = below_one n ≡ false

abbrev pub IsNatural : ℤ → Type 0
IsNatural n = is_neg n ≡ false

-- The exporter's numbers.
abbrev pub IsExportable : ExportConfig → Type 0
IsExportable x =
    IsNatural x.export_file_max_backups
    × IsPositive x.export_queue_size
    × IsNatural x.export_max_retries
    × IsPositive x.export_base_delay
    × IsPositive x.export_timeout

-- The collector's numbers: the time limits, the cadences and the caps.
abbrev pub IsCollectable : CollectorConfig → Type 0
IsCollectable c =
    IsPositive c.collection_timeout
    × IsAtLeastOne c.log_dirs_every
    × IsPositive c.throughput_window
    × IsAtLeastOne c.throughput_window_every
    × IsAtLeastOne c.max_timestamp_every
    × IsAtLeastOne c.configs_every
    × IsNatural c.max_errors
    × IsAtLeastOne c.max_error_samples

in_order-empty : (pss : List (List Problem)) → in_order pss ≡ [] → All (λ ps. ps ≡ []) pss
unfolding in_order
in_order-empty [] h = tt
in_order-empty ([] ∷ pss) h = (refl, in_order-empty pss h)
in_order-empty ((p ∷ ps) ∷ pss) h = absurd (ground (arith, h))

when-empty : (b : Bool) (p : Problem) → when b p ≡ [] → b ≡ false
unfolding when
when-empty b p h = ground (arith, h)

append-empty : {A : Type 0} (xs ys : List A) → xs ++ ys ≡ [] → ys ≡ []
append-empty [] ys h = h
append-empty (x ∷ xs) ys h = absurd (ground (arith, h))

checked-empty :
    (is_bad : ℤ → Bool) (key : String) (p : Parsed ℤ)
    → (checked is_bad key p).errs ≡ []
    → is_bad (checked is_bad key p).value ≡ false
unfolding checked
checked-empty is_bad key p h =
    when-empty (is_bad p.value) (out_of_range key p.value)
      (append-empty p.errs (when (is_bad p.value) (out_of_range key p.value)) h)

result-returned :
    {A : Type 0} (ps : List Problem) (x y : A) → result ps x ≡ inr y → (ps ≡ []) × (x ≡ y)
unfolding result
result-returned [] x y h = (refl, ground (arith, h))
result-returned (p ∷ ps) x y h = absurd (ground (arith, h))

module _ (G : GoLib) (env : String → Option String) where
  load_exporter-IsExportable :
      (load_exporter G env).errs ≡ [] → IsExportable (load_exporter G env).value
  unfolding exporter_steps
  load_exporter-IsExportable h =
      let e = in_order-empty (exporter_steps G env).steps h in
      (
        when-empty _ _ (e.1.1.1.0),
        checked-empty not_positive "EXPORT_QUEUE_SIZE" (integer G env "EXPORT_QUEUE_SIZE" (pos 20))
            (e.1.1.1.1.0),
        checked-empty is_neg "EXPORT_MAX_RETRIES" (integer G env "EXPORT_MAX_RETRIES" (pos 3))
            (e.1.1.1.1.1.0),
        checked-empty not_positive "EXPORT_BASE_DELAY"
            (duration G env "EXPORT_BASE_DELAY" (pos second)) (e.1.1.1.1.1.1.0),
        checked-empty not_positive "EXPORT_TIMEOUT"
            (duration G env "EXPORT_TIMEOUT" (pos (10 * second))) (e.1.1.1.1.1.1.1.0),
      )

  load_collector-IsCollectable :
      (interval : ℤ)
      → (load_collector G env interval).errs ≡ []
      → IsCollectable (load_collector G env interval).value
  unfolding collector_steps
  load_collector-IsCollectable interval h =
      let e = in_order-empty (collector_steps G env interval).steps h in
      (
        checked-empty not_positive "COLLECTION_TIMEOUT"
            (duration G env "COLLECTION_TIMEOUT" (default_timeout interval)) (e.0),
        checked-empty below_one "LOG_DIRS_EVERY" (integer G env "LOG_DIRS_EVERY" (pos 24))
            (e.1.1.1.1.1.1.1.1.1.1.0),
        checked-empty not_positive "THROUGHPUT_WINDOW"
            (duration G env "THROUGHPUT_WINDOW" (pos (5 * minute))) (e.1.1.1.1.1.1.1.1.1.1.1.1.0),
        checked-empty below_one "THROUGHPUT_WINDOW_EVERY"
            (integer G env "THROUGHPUT_WINDOW_EVERY" (pos 1)) (e.1.1.1.1.1.1.1.1.1.1.1.1.1.0),
        checked-empty below_one "MAX_TIMESTAMP_EVERY" (integer G env "MAX_TIMESTAMP_EVERY" (pos 12))
            (e.1.1.1.1.1.1.1.1.1.1.1.1.1.1.1.0),
        checked-empty below_one "CONFIGS_EVERY" (integer G env "CONFIGS_EVERY" (pos 360))
            (e.1.1.1.1.1.1.1.1.1.1.1.1.1.1.1.1.1.1.1.0),
        checked-empty is_neg "MAX_ERRORS" (integer G env "MAX_ERRORS" (pos 1000))
            (e.1.1.1.1.1.1.1.1.1.1.1.1.1.1.1.1.1.1.1.1.0),
        checked-empty below_one "MAX_ERROR_SAMPLES" (integer G env "MAX_ERROR_SAMPLES" (pos 1))
            (e.1.1.1.1.1.1.1.1.1.1.1.1.1.1.1.1.1.1.1.1.1.0),
      )

  load_interval-IsPositive :
      (load_interval G env).errs ≡ [] → IsPositive (load_interval G env).value
  unfolding load_interval
  load_interval-IsPositive h =
      checked-empty not_positive "COLLECTION_INTERVAL"
        (duration G env "COLLECTION_INTERVAL" (pos (5 * second))) h

  -- A configuration that is loaded is the one that was read, with no problem on the way.
  load-steps :
      (fresh_id : String) (c : Config)
      → load G env fresh_id ≡ inr c
      → (in_order (load_steps G env fresh_id).steps ≡ []) × ((load_steps G env fresh_id).value ≡ c)
  unfolding load
  load-steps fresh_id c h =
      result-returned (in_order (load_steps G env fresh_id).steps) (load_steps G env fresh_id).value
        c h

  -- The numbers of a configuration that `Load` returns are in the ranges that the agent relies on: the
  -- interval, the timeouts, the delay, the window and the queue's size are positive, the cadences and the
  -- samples of an error are at least one, and the retries, the backups and the cap on the errors are not
  -- negative.
  pub load-IsInRange :
      (fresh_id : String) (c : Config)
      → load G env fresh_id ≡ inr c
      → IsExportable c.exporter × IsPositive c.collection_interval × IsCollectable c.collector
  unfolding load_steps
  load-IsInRange fresh_id c h =
      let s = load-steps fresh_id c h in
      let e = in_order-empty (load_steps G env fresh_id).steps s.0 in
      subst
        (λ (c : Config).
          IsExportable c.exporter × IsPositive c.collection_interval × IsCollectable c.collector)
        s.1
        (
          load_exporter-IsExportable (e.1.1.0),
          load_interval-IsPositive (e.1.1.1.0),
          load_collector-IsCollectable (load_interval G env).value (e.1.1.1.1.0),
        )
