-- ===== src/Witnesses/Epochs.antt =====
-- Leader epochs and reassignments.
use streamsight_agent.Base.{
  ◌≡◌, ◌⊎◌, refl, true, false, none, some, List, [], ◌∷◌, ℤ, pos, map, All, lookup, insert,
}
use streamsight_agent.Collector.Limits.{cap_len}
use streamsight_agent.Collector.Section.{Section, new_section_at}
use streamsight_agent.Collector.Wire.{TopicMetrics, ConsumerOffset}
use streamsight_agent.Collector.Epoch.{
  EpochProbeKey, answered, remember, EpochKey, EpochTrigger, key, probe_key, current_epochs,
  mismatches, epoch_triggers, partition_of, epoch_rounds, Leaders, collect_epoch_probes,
}
use streamsight_agent.Collector.Epoch.Rounds.{
  InRounds, IsExact, AskedOnce, KeyOfSome, epoch_rounds-covers, epoch_rounds-IsExact,
}
use streamsight_agent.Collector.Epoch.Memory.{
  SettledBy, rounds_sent, collect_epoch_probes-SettledBy,
}
use streamsight_agent.Collector.Request.{request, request_partial}
use streamsight_agent.Collector.Wire.{nullable_offset}
use streamsight_agent.Collector.Epoch.{
  group_triggers, trigger_of, current_of, current_parts, sort_triggers, insert_trigger, unanswered,
  probe_fresh, add_triggers, add_trigger, place, add_question, ask_rounds, note_answers,
  probe_triggers, probe, answered_probe, settles, skip_probes,
}
use streamsight_agent.Collector.Reassign.{under_replicated}
use streamsight_agent.Collector.Reassign.Trigger.{lacking, AsksAll, under_replicated-AsksAll}
use streamsight_agent.Witnesses.Sections.{sample_errors}

abbrev sec : Section
sec = new_section_at "epoch_probes" 0 (record { max_errors = pos 0; max_error_samples = pos 1 })

-- Two committed epochs of one partition, which two requests must ask about.
abbrev trigger : ℤ → EpochTrigger
trigger epoch = record {
  topic = "orders";
  topic_id = "t";
  partition = pos 0;
  group = "billing";
  committed_offset = some (pos 5);
  committed_epoch = epoch;
  current_epoch = pos 3;
}

abbrev triggers : List EpochTrigger
triggers = trigger (pos 1) ∷ trigger (pos 2) ∷ trigger (pos 1) ∷ []

epoch_rounds-covers_example :
    All
      (λ t. InRounds (key t) (epoch_rounds triggers).0 ⊎ ((epoch_rounds triggers).1 ≡ true))
      triggers
    × ((k : EpochKey) → InRounds k (epoch_rounds triggers).0 → KeyOfSome k triggers)
epoch_rounds-covers_example = epoch_rounds-covers triggers

epoch_rounds-IsExact_example :
    All IsExact (epoch_rounds triggers).0 × AskedOnce (epoch_rounds triggers).0
epoch_rounds-IsExact_example = epoch_rounds-IsExact triggers

abbrev topics : List TopicMetrics
topics =
    record {
      name = "orders";
      id = "t";
      internal = false;
      partition_count = 1;
      replication_factor = 2;
      error_code = pos 0;
      partitions =
          record {
            id = pos 0;
            leader = pos 1;
            leader_epoch = pos 3;
            replicas = pos 1 ∷ pos 2 ∷ [];
            isr = pos 1 ∷ [];
            offline_replicas = [];
            start_offset = some (pos 0);
            end_offset = some (pos 9);
            last_stable_offset = none;
            max_timestamp = none;
            tiered = none;
            window = none;
            error_code = pos 0;
          }
          ∷ [];
    }
    ∷ []

abbrev offsets : List ConsumerOffset
offsets =
    record {
      group_id = "billing";
      offsets = some (
          record {
            topic = "orders";
            partition = pos 0;
            offset = some (pos 5);
            leader_epoch = pos 1;
            metadata = "";
            error_code = pos 0;
          }
          ∷ []);
      offset_count = 1;
      error_code = pos 0;
    }
    ∷ []

-- Leaders that answer every question.
abbrev leaders : Leaders sample_errors
leaders r = (
  map
      (λ k. (
        partition_of k,
        record { node_id = pos 1; leader_epoch = pos 1; end_offset = pos 4; err = none },
      ))
      r.keys,
  none,
)

abbrev collected : List EpochProbeKey
collected = (collect_epoch_probes sample_errors leaders true topics offsets sec []).seen

collected_answered : answered collected (probe_key (trigger (pos 1))) ≡ true
unfolding collect_epoch_probes answered remember epoch_triggers mismatches group_triggers trigger_of
    current_of current_epochs current_parts sort_triggers insert_trigger cap_len unanswered
    probe_fresh epoch_rounds add_triggers add_trigger place add_question ask_rounds note_answers
    probe_triggers probe answered_probe settles skip_probes lookup insert nullable_offset
    request_partial request
collected_answered = refl

collect_epoch_probes-SettledBy_example :
    SettledBy sample_errors leaders (rounds_sent topics offsets []) (probe_key (trigger (pos 1)))
    ⊎ (answered [] (probe_key (trigger (pos 1))) ≡ true)
collect_epoch_probes-SettledBy_example =
    collect_epoch_probes-SettledBy sample_errors leaders true topics offsets sec []
      (probe_key (trigger (pos 1))) collected_answered

under_replicated-AsksAll_example : AsksAll (lacking topics) (under_replicated topics)
under_replicated-AsksAll_example = under_replicated-AsksAll topics
