-- ===== src/Collector/Topics/Selected.antt =====
-- Which topics `selectTopics` and `collectTopics` of internal/collector/metadata.go ask about and report.
use streamsight_agent.Base.{
  ◌≡◌, ◌⊎◌, Bool, true, false, ◌&&◌, List, [], ◌∷◌, ◌++◌, map, String, if◌then◌else◌,
}
use streamsight_agent.Collector.GoError.{GoErrors}
use streamsight_agent.Collector.Limits.{Limits}
use streamsight_agent.Collector.Kadm.{Kadm, TopicDetail}
use streamsight_agent.Collector.Wire.{TopicMetrics}
use streamsight_agent.Collector.Topics.{TopicSections, TopicOptions}
use streamsight_agent.Collector.Topics.Phase.{Call}

-- `ys` is `xs` without the elements that fail the test, in the same order.
pub data Picks {A : Type 0} (P : A → Type 0) : List A → List A → Type 0 where
  nothing : Picks P [] []
  keep : {x : A} {xs ys : List A} → P x → Picks P xs ys → Picks P (x ∷ xs) (x ∷ ys)
  leave : {x : A} {xs ys : List A} → ¬ P x → Picks P xs ys → Picks P (x ∷ xs) ys

module _ (G : GoErrors) (K : Kadm G.GoError) where
  open G use {GoError}

  -- A topic that the operator's selection covers.
  pub IsWanted : (String → Bool) → Bool → TopicDetail GoError → Type 0
  IsWanted allow include_internal td =
      ((td.is_internal ≡ false) ⊎ (include_internal ≡ true)) × (allow td.topic ≡ true)

  abbrev pub one_if : Bool → Call G K → List (Call G K)
  one_if b c = if b then c ∷ [] else []

  -- The listings that the options ask for, in the order of the sampling, all about the same names.
  abbrev pub listings : TopicOptions → Bool → List String → List (Call G K)
  listings opts run_max_ts names =
      ("ListStartOffsets", names)
        ∷ one_if opts.collect_last_stable_offset ("ListCommittedOffsets", names)
      ++ ("ListEndOffsets", names) ∷ []
      ++ one_if run_max_ts ("ListMaxTimestampOffsets", names)
      ++ one_if opts.collect_tiered_offsets ("ListLocalLogStartOffsets", names)
      ++ one_if (opts.collect_tiered_offsets && opts.collect_latest_tiered)
          ("ListLatestRemoteOffsets", names)

  -- What a phase asks and what it reports.
  abbrev pub asked_and_told :
      List (Call G K) × List TopicMetrics × TopicSections → List (Call G K) × List String
  asked_and_told r = (r.0, map (λ t. t.name) r.1)
