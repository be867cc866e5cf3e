-- ===== src/Collector/Reassign/Trigger.antt =====
-- Which partitions the question names.
use mathlib.Core.List.{append-nil, append_assoc}
use streamsight_agent.Base.{
  ℕ, ◌+◌, ◌≤◌, ◌≡◌, refl, sym, ◌∙◌, ap, Bool, true, false, List, [], ◌∷◌, ◌++◌, String, leb, ltb, ℤ,
  length, arith, Bool-cases, inl, inr, ◌⊎◌, subst, if◌then◌else◌, length-append,
}
use streamsight_agent.Collector.Wire.{Partition, TopicMetrics}
use streamsight_agent.Collector.Reassign.{
  max_reassign_partitions, lacks_replicas, ask_partitions, ask_topics, under_replicated,
}

-- A partition with fewer in-sync replicas than replicas.
abbrev pub is_under_replicated : Partition → Bool
is_under_replicated p = ltb (length p.isr) (length p.replicas)

lacks_replicas_lem : (p : Partition) → lacks_replicas p ≡ is_under_replicated p
lacks_replicas_lem p = ground arith

-- The under-replicated partitions of one topic and of the batch, in the batch's order, without the cap.
abbrev pub lacking_of : String → List Partition → List (String × ℤ)
lacking_of name [] = []
lacking_of name (p ∷ ps) =
    if is_under_replicated p then (name, p.id) ∷ lacking_of name ps else lacking_of name ps

abbrev pub lacking : List TopicMetrics → List (String × ℤ)
lacking [] = []
lacking (t ∷ ts) = lacking_of t.name t.partitions ++ lacking ts

-- What became of the partitions `all`: they were all asked for, or the cap left some out.
abbrev AllAsked : List (String × ℤ) → List (String × ℤ) → ℕ → Bool → Type 0
AllAsked all asked n full =
    (full ≡ false) × (asked ≡ all) × (n ≡ length asked) × (n ≤ max_reassign_partitions)

abbrev pub CutOff : List (String × ℤ) → List (String × ℤ) → Bool → Type 0
CutOff all asked full =
    (full ≡ true)
    × (length asked ≡ max_reassign_partitions)
    × (next : String × ℤ) × (rest : List (String × ℤ)) × (all ≡ asked ++ next ∷ rest)

abbrev Asks : List (String × ℤ) → List (String × ℤ) × ℕ × Bool → Type 0
Asks all r = AllAsked all r.0 r.1 r.2 ⊎ CutOff all r.0 r.2

ask_skips :
    (name : String) (p : Partition) (ps : List Partition) (asked : List (String × ℤ)) (n : ℕ)
    → lacks_replicas p ≡ false
    → ask_partitions name (p ∷ ps) asked n ≡ ask_partitions name ps asked n
unfolding ask_partitions
ask_skips name p ps asked n e = rw e refl

ask_stops :
    (name : String) (p : Partition) (ps : List Partition) (asked : List (String × ℤ)) (n : ℕ)
    → lacks_replicas p ≡ true
    → leb max_reassign_partitions n ≡ true
    → ask_partitions name (p ∷ ps) asked n ≡ (asked, n, true)
unfolding ask_partitions
ask_stops name p ps asked n e f = rw (e, f) refl

ask_adds :
    (name : String) (p : Partition) (ps : List Partition) (asked : List (String × ℤ)) (n : ℕ)
    → lacks_replicas p ≡ true
    → leb max_reassign_partitions n ≡ false
    → ask_partitions name (p ∷ ps) asked n
      ≡ ask_partitions name ps (asked ++ (name, p.id) ∷ []) (n + 1)
unfolding ask_partitions
ask_adds name p ps asked n e f = rw (e, f) refl

-- Under a cap that is reached the count is the cap.
at_cap :
    (n : ℕ)
    → n ≤ max_reassign_partitions
    → leb max_reassign_partitions n ≡ true
    → n ≡ max_reassign_partitions
at_cap n le f = ground (arith, le, f)

below_cap : (n : ℕ) → leb max_reassign_partitions n ≡ false → n + 1 ≤ max_reassign_partitions
below_cap n f = ground (arith, f)

lacking_skips :
    (name : String) (p : Partition) (ps : List Partition)
    → lacks_replicas p ≡ false
    → lacking_of name (p ∷ ps) ≡ lacking_of name ps
lacking_skips name p ps e = rw (sym (lacks_replicas_lem p) ∙ e) refl

lacking_adds :
    (name : String) (p : Partition) (ps : List Partition)
    → lacks_replicas p ≡ true
    → lacking_of name (p ∷ ps) ≡ (name, p.id) ∷ lacking_of name ps
lacking_adds name p ps e = rw (sym (lacks_replicas_lem p) ∙ e) refl

ask_partitions-Asks :
    (name : String) (ps : List Partition) (asked : List (String × ℤ)) (n : ℕ)
    → n ≡ length asked
    → n ≤ max_reassign_partitions
    → Asks (asked ++ lacking_of name ps) (ask_partitions name ps asked n)
unfolding ask_partitions
ask_partitions-Asks name [] asked n h le = inl (refl, sym (append-nil asked), h, le)
ask_partitions-Asks name (p ∷ ps) asked n h le = elim (Bool-cases (lacks_replicas p)) [
  | inr well ↦
      subst (λ r. Asks (asked ++ lacking_of name (p ∷ ps)) r)
        (sym (ask_skips name p ps asked n well))
        (subst (λ new. Asks (asked ++ new) (ask_partitions name ps asked n))
          (sym (lacking_skips name p ps well)) (ask_partitions-Asks name ps asked n h le))
  | inl lacks ↦
      subst (λ new. Asks (asked ++ new) (ask_partitions name (p ∷ ps) asked n))
        (sym (lacking_adds name p ps lacks))
        (elim (Bool-cases (leb max_reassign_partitions n)) [
          | inl full ↦
              subst (λ r. Asks (asked ++ (name, p.id) ∷ lacking_of name ps) r)
                (sym (ask_stops name p ps asked n lacks full))
                (inr (refl, sym h ∙ at_cap n le full, (name, p.id), lacking_of name ps, refl))
          | inr room ↦
              subst (λ r. Asks (asked ++ (name, p.id) ∷ lacking_of name ps) r)
                (sym (ask_adds name p ps asked n lacks room))
                (subst
                  (λ all. Asks all (ask_partitions name ps (asked ++ (name, p.id) ∷ []) (n + 1)))
                  (append_assoc asked ((name, p.id) ∷ []) (lacking_of name ps))
                  (ask_partitions-Asks name ps (asked ++ (name, p.id) ∷ []) (n + 1)
                    (omega (arith, h, length-append asked ((name, p.id) ∷ []))) (below_cap n room)))
        ])
]

-- The outcome of the loop over the topics.
abbrev pub AsksAll : List (String × ℤ) → List (String × ℤ) × Bool → Type 0
AsksAll all r =
    ((r.1 ≡ false) × (r.0 ≡ all) × (length r.0 ≤ max_reassign_partitions)) ⊎ CutOff all r.0 r.1

ask_goes_on :
    (t : TopicMetrics) (ts : List TopicMetrics) (asked asked' : List (String × ℤ)) (n n' : ℕ)
    → ask_partitions t.name t.partitions asked n ≡ (asked', n', false)
    → ask_topics (t ∷ ts) asked n ≡ ask_topics ts asked' n'
unfolding ask_topics
ask_goes_on t ts asked asked' n n' e = rw e refl

ask_ends :
    (t : TopicMetrics) (ts : List TopicMetrics) (asked asked' : List (String × ℤ)) (n n' : ℕ)
    → ask_partitions t.name t.partitions asked n ≡ (asked', n', true)
    → ask_topics (t ∷ ts) asked n ≡ (asked', true)
unfolding ask_topics
ask_ends t ts asked asked' n n' e = rw e refl

ask_topics-AsksAll :
    (ts : List TopicMetrics) (asked : List (String × ℤ)) (n : ℕ)
    → n ≡ length asked
    → n ≤ max_reassign_partitions
    → AsksAll (asked ++ lacking ts) (ask_topics ts asked n)
unfolding ask_topics
ask_topics-AsksAll [] asked n h le = inl (refl, sym (append-nil asked), omega (arith, h, le))
ask_topics-AsksAll (t ∷ ts) asked n h le =
    let new = lacking_of t.name t.partitions in
    let r = ask_partitions t.name t.partitions asked n in
    elim (ask_partitions-Asks t.name t.partitions asked n h le) [
      | inl (open_, all, count, le') ↦
          subst (AsksAll (asked ++ (new ++ lacking ts)))
            (sym (ask_goes_on t ts asked r.0 n r.1 (ap (λ b. (r.0, r.1, b)) open_)))
            (subst (λ l. AsksAll l (ask_topics ts r.0 r.1))
              (ap (λ l. l ++ lacking ts) all ∙ append_assoc asked new (lacking ts))
              (ask_topics-AsksAll ts r.0 r.1 count le'))
      | inr (cut, full, next, rest, whole) ↦
          subst (AsksAll (asked ++ (new ++ lacking ts)))
            (sym (ask_ends t ts asked r.0 n r.1 (ap (λ b. (r.0, r.1, b)) cut)))
            (inr (
              refl,
              full,
              next,
              rest ++ lacking ts,
              sym (append_assoc asked new (lacking ts))
                  ∙ (ap (λ l. l ++ lacking ts) whole ∙ append_assoc r.0 (next ∷ rest) (lacking ts)),
            ))
    ]

-- The question names exactly the partitions of the shipped batch with fewer in-sync replicas than
-- replicas, in the batch's order, when they fit the cap; otherwise it names the first 1000 of them, and
-- says so, and there is one more.
pub under_replicated-AsksAll :
    (topics : List TopicMetrics) → AsksAll (lacking topics) (under_replicated topics)
unfolding under_replicated
under_replicated-AsksAll topics = ask_topics-AsksAll topics [] 0 refl (omega arith)
