-- ===== src/Collector/Epoch/Memory.antt =====
-- Which questions are remembered as settled, and asked no more.
use streamsight_agent.Base.{
  ◌≤◌, ◌≡◌, ◌↔◌, refl, sym, ◌∙◌, ap, ◌⊎◌, inl, inr, Bool, true, false, none, some, List, [], ◌∷◌,
  arith, length, All, lookup, lookup-insert_cases, Option-cases, Bool-cases, if◌then◌else◌, eq_iff,
  eqb_ℤ_iff,
}
use streamsight_agent.Collector.GoError.{GoErrors}
use streamsight_agent.Collector.Section.{Section}
use streamsight_agent.Collector.Wire.{TopicMetrics, ConsumerOffset}
use streamsight_agent.Collector.Epoch.{
  EpochProbeKey, eqb_probe_key, answered, remember, max_probed_epochs, EpochKey, EpochTrigger, key,
  probe_key, EpochRound, partition_of, LeaderAnswer, EpochAnswer, settles, Leaders, unanswered,
  note_answers, ask_rounds, probe_triggers, probe_fresh, collect_epoch_probes, epoch_key_eq,
  topic_partition_eq, epoch_triggers, epoch_rounds, skip_probes, max_epoch_probes_per_cycle,
  is_empty, truncate_if,
}
use streamsight_agent.Collector.Epoch.Rounds.{InKeys}

eqb_probe_key_iff : (a b : EpochProbeKey) → (eqb_probe_key a b ≡ true) ↔ (a ≡ b)
eqb_probe_key_iff a b = ground (
  arith,
  eq_iff a.topic b.topic,
  eq_iff a.topic_id b.topic_id,
  eqb_ℤ_iff a.partition b.partition,
  eqb_ℤ_iff a.committed b.committed,
  eqb_ℤ_iff a.current b.current,
)

-- A set of settled questions within its bound stays within it, holds what was put in, and gains
-- nothing else.
remember_lem :
    (seen : List EpochProbeKey) (k : EpochProbeKey)
    → length seen ≤ max_probed_epochs
    → (length (remember seen k) ≤ max_probed_epochs)
      × (answered (remember seen k) k ≡ true)
      × ((j : EpochProbeKey)
          → answered (remember seen k) j ≡ true
          → (k ≡ j) ⊎ (answered seen j ≡ true))
unfolding remember answered
remember_lem seen k le = (
  ground arith,
  ground (arith, eqb_probe_key_iff k k),
  λ j h. ground (arith, eqb_probe_key_iff k j),
)

-- A trigger is asked about again only if its question is open.
unanswered-open :
    (seen : List EpochProbeKey) (ts : List EpochTrigger)
    → All (λ t. answered seen (probe_key t) ≡ false) (unanswered seen ts)
unfolding unanswered
unanswered-open seen [] = tt
unanswered-open seen (t ∷ ts) = elim (Bool-cases (answered seen (probe_key t))) [
  | inl old ↦ rw old (unanswered-open seen ts)
  | inr new ↦ rw new (new, unanswered-open seen ts)
]

unanswered-none :
    (seen : List EpochProbeKey) (ts : List EpochTrigger)
    → All (λ t. answered seen (probe_key t) ≡ true) ts
    → unanswered seen ts ≡ []
unfolding unanswered
unanswered-none seen [] h = refl
unanswered-none seen (t ∷ ts) h = rw h.0 (unanswered-none seen ts h.1)

abbrev pub IsOneOf : EpochRound → List EpochRound → Type 0
IsOneOf r [] = ⊥
IsOneOf r (x ∷ xs) = (x ≡ r) ⊎ IsOneOf r xs

-- Where an answer in the map comes from: the response to one of the rounds, which asks the question.
abbrev AnsweredBy :
    (G : GoErrors) → Leaders G → List EpochRound → EpochKey → EpochAnswer G.GoError → Type 0
AnsweredBy G leaders sent k a =
    (r : EpochRound) × IsOneOf r sent
    × InKeys k r.keys
    × (a.offset ≡ lookup (partition_of k) (leaders r).0)

-- What settles a question among the rounds that were sent: a trigger asks it, one of the rounds carries
-- the trigger's key, and the response to that round names the partition without an error.
abbrev pub SettledBy : (G : GoErrors) → Leaders G → List EpochRound → EpochProbeKey → Type 0
SettledBy G leaders sent k =
    (t : EpochTrigger) × (r : EpochRound) × (o : LeaderAnswer G.GoError) × (probe_key t ≡ k)
    × IsOneOf r sent
    × InKeys (key t) r.keys
    × (lookup (partition_of (key t)) (leaders r).0 ≡ some o)
    × (o.err ≡ none)

-- The requests that a cycle sends, when it has something to ask.
abbrev pub rounds_sent :
    List TopicMetrics → List ConsumerOffset → List EpochProbeKey → List EpochRound
rounds_sent topics offsets seen =
    (epoch_rounds (unanswered seen (epoch_triggers topics offsets max_epoch_probes_per_cycle).0)).0

module _ (G : GoErrors) (leaders : Leaders G) where
  open G use {GoError}

  note_answers-origin :
      (sent : List EpochRound) (r : EpochRound) (usable : Bool) (ks : List EpochKey)
      (asked : List (EpochKey × EpochAnswer GoError))
      → IsOneOf r sent
      → ((j : EpochKey) → InKeys j ks → InKeys j r.keys)
      → ((j : EpochKey) (b : EpochAnswer GoError)
          → lookup j asked ≡ some b
          → AnsweredBy G leaders sent j b)
      → (k : EpochKey) (a : EpochAnswer GoError)
      → lookup k (note_answers (leaders r).0 usable ks asked) ≡ some a
      → AnsweredBy G leaders sent k a
  unfolding note_answers
  note_answers-origin sent r usable [] asked was sub old k a h = old k a h
  note_answers-origin sent r usable (j ∷ ks) asked was sub old k a h =
      note_answers-origin sent r usable ks _ was (λ i m. sub i (inr m))
        (λ i b e.
          elim (lookup-insert_cases j i
            (record { offset = lookup (partition_of j) (leaders r).0; usable = usable }) b asked
            e) [
              | inl (same, new) ↦ (
                r,
                was,
                sub i (inl same),
                ap (λ (x : EpochAnswer GoError). x.offset) (sym new)
                    ∙ ap (λ x. lookup (partition_of x) (leaders r).0) same,
              )
              | inr (_, before) ↦ old i b before
            ])
        k a h

  ask_rounds-origin :
      (sent rounds : List EpochRound) (sec : Section)
      (asked : List (EpochKey × EpochAnswer GoError))
      → ((r : EpochRound) → IsOneOf r rounds → IsOneOf r sent)
      → ((j : EpochKey) (b : EpochAnswer GoError)
          → lookup j asked ≡ some b
          → AnsweredBy G leaders sent j b)
      → (k : EpochKey) (a : EpochAnswer GoError)
      → lookup k (ask_rounds G leaders rounds sec asked).1 ≡ some a
      → AnsweredBy G leaders sent k a
  unfolding ask_rounds
  ask_rounds-origin sent [] sec asked sub old k a h = old k a h
  ask_rounds-origin sent (r ∷ rs) sec asked sub old k a h =
      ask_rounds-origin sent rs _ _ (λ q m. sub q (inr m))
        (note_answers-origin sent r _ r.keys asked (sub r (inl refl)) (λ j m. m) old) k a h

  settled_answer :
      (a : EpochAnswer GoError)
      → settles a ≡ true
      → (o : LeaderAnswer GoError) × (a.offset ≡ some o) × (o.err ≡ none)
  unfolding settles
  settled_answer a h = elim (Option-cases a.offset) [
    | inl e ↦ absurd (ground arith)
    | inr (o, e) ↦ (o, e, ground arith)
  ]

  -- The memory after one trigger that was asked.
  settle_one :
      (sent : List EpochRound) (t : EpochTrigger) (a : EpochAnswer GoError)
      (seen : List EpochProbeKey) (k : EpochProbeKey)
      → AnsweredBy G leaders sent (key t) a
      → answered (if settles a then remember seen (probe_key t) else seen) k ≡ true
      → SettledBy G leaders sent k ⊎ (answered seen k ≡ true)
  unfolding remember answered
  settle_one sent t a seen k (r, was, m, from) h = elim (Bool-cases (settles a)) [
    | inr unsettled ↦ inr (ground arith)
    | inl done ↦ elim (Bool-cases (eqb_probe_key (probe_key t) k)) [
      | inl same ↦
          let (o, e, fine) = settled_answer a done in
          inl (t, r, o, (eqb_probe_key_iff (probe_key t) k).0 same, was, m, sym from ∙ e, fine)
      | inr other ↦ inr (ground arith)
    ]
  ]

  probe_triggers-settled :
      (sent : List EpochRound) (asked : List (EpochKey × EpochAnswer GoError))
      (ts : List EpochTrigger) (sec : Section) (seen : List EpochProbeKey)
      → ((j : EpochKey) (b : EpochAnswer GoError)
          → lookup j asked ≡ some b
          → AnsweredBy G leaders sent j b)
      → (k : EpochProbeKey) → answered (probe_triggers G asked ts sec seen).2 k ≡ true
      → SettledBy G leaders sent k ⊎ (answered seen k ≡ true)
  unfolding probe_triggers
  probe_triggers-settled sent asked [] sec seen from k h = inr h
  probe_triggers-settled sent asked (t ∷ ts) sec seen from k h =
      elim (Option-cases (lookup (key t) asked)) [
        | inl e ↦ probe_triggers-settled sent asked ts sec seen from k (rw (e, probe_triggers) at h)
        | inr (a, e) ↦
            elim (probe_triggers-settled sent asked ts _ _ from k (rw (e, probe_triggers) at h)) [
              | inl by ↦ inl by
              | inr now ↦ settle_one sent t a seen k (from (key t) a e) now
            ]
      ]

  probe_fresh-settled :
      (fresh : List EpochTrigger) (sec : Section) (seen : List EpochProbeKey) (k : EpochProbeKey)
      → answered (probe_fresh G leaders fresh sec seen).seen k ≡ true
      → SettledBy G leaders (epoch_rounds fresh).0 k ⊎ (answered seen k ≡ true)
  unfolding probe_fresh
  probe_fresh-settled fresh sec seen k h =
      probe_triggers-settled (epoch_rounds fresh).0 _ fresh _ seen
        (ask_rounds-origin (epoch_rounds fresh).0 (epoch_rounds fresh).0 _ [] (λ r m. m)
          (λ j b e. absurd (unfold lookup in ground arith)))
        k h

  -- A question is retired only if a leader has answered it: whatever is remembered after a cycle was
  -- remembered before it, or one of the requests that the cycle sends asks it, and the response to that
  -- request names its partition without an error.
  pub collect_epoch_probes-SettledBy :
      (run : Bool) (topics : List TopicMetrics) (offsets : List ConsumerOffset) (sec : Section)
      (seen : List EpochProbeKey) (k : EpochProbeKey)
      → answered (collect_epoch_probes G leaders run topics offsets sec seen).seen k ≡ true
      → SettledBy G leaders (rounds_sent topics offsets seen) k ⊎ (answered seen k ≡ true)
  unfolding collect_epoch_probes skip_probes
  collect_epoch_probes-SettledBy false topics offsets sec seen k h = inr h
  collect_epoch_probes-SettledBy true topics offsets sec seen k h = by_fresh (is_empty fresh) h
    where
      fresh : List EpochTrigger
      fresh = unanswered seen (epoch_triggers topics offsets max_epoch_probes_per_cycle).0

      sec' : Section
      sec' = truncate_if (epoch_triggers topics offsets max_epoch_probes_per_cycle).1 sec

      by_fresh :
          (b : Bool)
          → answered
              (if b then skip_probes sec' seen else probe_fresh G leaders fresh sec' seen).seen
              k
            ≡ true
          → SettledBy G leaders (rounds_sent topics offsets seen) k ⊎ (answered seen k ≡ true)
      by_fresh true h = inr h
      by_fresh false h = probe_fresh-settled fresh sec' seen k h

  -- A phase that is switched off, or whose every mismatch is settled already, asks nothing: whatever
  -- the leaders would answer, it ships no rows and remembers nothing new.
  collect_epoch_probes-quiet :
      (run : Bool) (topics : List TopicMetrics) (offsets : List ConsumerOffset) (sec : Section)
      (seen : List EpochProbeKey)
      → (run ≡ false)
        ⊎ All
            (λ t. answered seen (probe_key t) ≡ true)
            (epoch_triggers topics offsets max_epoch_probes_per_cycle).0
      → ((collect_epoch_probes G leaders run topics offsets sec seen).probes ≡ none)
        × ((collect_epoch_probes G leaders run topics offsets sec seen).seen ≡ seen)
  unfolding collect_epoch_probes skip_probes
  collect_epoch_probes-quiet false topics offsets sec seen h = (refl, refl)
  collect_epoch_probes-quiet true topics offsets sec seen (inl h) = absurd (cc)
  collect_epoch_probes-quiet true topics offsets sec seen (inr h) =
      rw (unanswered-none seen _ h) (refl, refl)
