-- ===== src/Collector/Epoch/Triggers.antt =====
-- Which committed offsets trigger a probe.
use mathlib.Core.List.{Perm}
use mathlib.Core.List.Perm
use streamsight_agent.Base.{
  ℕ, zero, suc, ◌≤◌, ◌<◌, ◌≡◌, ◌≢◌, refl, sym, ◌∙◌, ap, subst, inl, inr, Bool, false, none, some,
  List, [], ◌∷◌, ◌++◌, ◌||◌, arith, length, length-take, min, All, ℤ, eqb_ℤ, eqb_ℤ_iff, is_neg,
  lookup, Option-cases, Bool-cases, if◌then◌else◌, String, take, ltb,
}
use streamsight_agent.Collector.Limits.{cap_len}
use streamsight_agent.Collector.Wire.{TopicMetrics, PartitionOffset, ConsumerOffset}
use streamsight_agent.Collector.Epoch.{
  CurrentEpoch, current_epochs, current_of, EpochTrigger, trigger_of, group_triggers, mismatches,
  insert_trigger, sort_triggers, trigger_ltb, epoch_triggers, list_of,
}

abbrev pub Currents : Type 0
Currents = List (String × List (ℤ × CurrentEpoch))

-- The group has committed an offset under a known epoch, the partition is in the batch with a known
-- current epoch and the topic's id, and the two epochs differ.
pub record IsMismatch (m : Currents) (t : EpochTrigger) : Type 0 where
  pub current :
      current_of m t.topic t.partition
      ≡ some (record { topic_id = t.topic_id; epoch = t.current_epoch })
  pub committed : t.committed_offset ≢ none
  pub known_commit : is_neg t.committed_epoch ≡ false
  pub known_current : is_neg t.current_epoch ≡ false
  pub differ : t.current_epoch ≢ t.committed_epoch

-- The trigger that an offset makes under the current epoch `p`.
abbrev trigger_under : String → PartitionOffset → ℤ → CurrentEpoch → EpochTrigger
trigger_under group o at p = record {
  topic = o.topic;
  topic_id = p.topic_id;
  partition = o.partition;
  group = group;
  committed_offset = some at;
  committed_epoch = o.leader_epoch;
  current_epoch = p.epoch;
}

fired :
    (n d : Bool) (u t : EpochTrigger)
    → (if n then none else (if d then none else some u)) ≡ some t
    → (n ≡ false) × (d ≡ false) × (u ≡ t)
fired n d u t h = ground arith

-- `trigger_of` at an offset and a current epoch that are there.
trigger_of_current :
    (m : Currents) (group : String) (o : PartitionOffset) (at : ℤ) (p : CurrentEpoch)
    → o.offset ≡ some at
    → current_of m o.topic o.partition ≡ some p
    → trigger_of m group o ≡ (
        if is_neg o.leader_epoch
        then none
        else (if is_neg p.epoch || eqb_ℤ p.epoch o.leader_epoch
            then none
            else some (trigger_under group o at p)))
unfolding trigger_of
trigger_of_current m group o at p e c = ground arith

trigger_of_offset_none :
    (m : Currents) (group : String) (o : PartitionOffset)
    → o.offset ≡ none
    → trigger_of m group o ≡ none
unfolding trigger_of
trigger_of_offset_none m group o e = rw (e, trigger_of)

trigger_of_current_none :
    (m : Currents) (group : String) (o : PartitionOffset)
    → current_of m o.topic o.partition ≡ none
    → trigger_of m group o ≡ none
unfolding trigger_of
trigger_of_current_none m group o e = ground arith

trigger_under-IsMismatch :
    (m : Currents) (group : String) (o : PartitionOffset) (at : ℤ) (p : CurrentEpoch)
    → current_of m o.topic o.partition ≡ some p
    → is_neg o.leader_epoch ≡ false
    → is_neg p.epoch || eqb_ℤ p.epoch o.leader_epoch ≡ false
    → IsMismatch m (trigger_under group o at p)
trigger_under-IsMismatch m group o at p c n d = record {
  current = c;
  committed = λ h. ground arith;
  known_commit = n;
  known_current = ground arith;
  differ = ground (arith, eqb_ℤ_iff p.epoch o.leader_epoch);
}

trigger_of-IsMismatch :
    (m : Currents) (group : String) (o : PartitionOffset) (t : EpochTrigger)
    → trigger_of m group o ≡ some t
    → IsMismatch m t
trigger_of-IsMismatch m group o t h = elim (Option-cases o.offset) [
  | inl e ↦ absurd (cc (trigger_of_offset_none m group o e))
  | inr (at, e) ↦ elim (Option-cases (current_of m o.topic o.partition)) [
    | inl c ↦ absurd (cc (trigger_of_current_none m group o c))
    | inr (p, c) ↦
        let (n, d, same) =
          fired (is_neg o.leader_epoch) (is_neg p.epoch || eqb_ℤ p.epoch o.leader_epoch)
            (trigger_under group o at p) t (sym (trigger_of_current m group o at p e c) ∙ h) in
        subst (IsMismatch m) same (trigger_under-IsMismatch m group o at p c n d)
  ]
]

All-append {ℓ} :
    {A : Type ℓ} (P : A → Type 0) (xs ys : List A) → All P xs → All P ys → All P (xs ++ ys)
All-append P [] ys h k = k
All-append P (x ∷ xs) ys h k = (h.0, All-append P xs ys h.1 k)

group_triggers-IsMismatch :
    (m : Currents) (group : String) (os : List PartitionOffset)
    → All (IsMismatch m) (group_triggers m group os)
unfolding group_triggers
group_triggers-IsMismatch m group [] = tt
group_triggers-IsMismatch m group (o ∷ os) = elim (Option-cases (trigger_of m group o)) [
  | inl e ↦ rw e (group_triggers-IsMismatch m group os)
  | inr (t, e) ↦ rw e (trigger_of-IsMismatch m group o t e, group_triggers-IsMismatch m group os)
]

mismatches-IsMismatch :
    (m : Currents) (offsets : List ConsumerOffset) → All (IsMismatch m) (mismatches m offsets)
unfolding mismatches
mismatches-IsMismatch m [] = tt
mismatches-IsMismatch m (co ∷ offsets) =
    All-append (IsMismatch m) (group_triggers m co.group_id (list_of co.offsets))
      (mismatches m offsets) (group_triggers-IsMismatch m co.group_id (list_of co.offsets))
      (mismatches-IsMismatch m offsets)

module _ (P : EpochTrigger → Type 0) where
  All-insert_trigger :
      (t : EpochTrigger) (ts : List EpochTrigger) → P t → All P ts → All P (insert_trigger t ts)
  unfolding insert_trigger
  All-insert_trigger t [] p h = (p, tt)
  All-insert_trigger t (u ∷ us) p h = elim (Bool-cases (trigger_ltb u t)) [
    | inl lt ↦ rw lt (h.0, All-insert_trigger t us p h.1)
    | inr ge ↦ rw ge (p, h)
  ]

  All-sort_triggers : (ts : List EpochTrigger) → All P ts → All P (sort_triggers ts)
  unfolding sort_triggers
  All-sort_triggers [] h = tt
  All-sort_triggers (t ∷ ts) h =
      All-insert_trigger t (sort_triggers ts) h.0 (All-sort_triggers ts h.1)

  All-take : (n : ℕ) (ts : List EpochTrigger) → All P ts → All P (take n ts)
  All-take zero ts h = tt
  All-take (suc n) [] h = tt
  All-take (suc n) (t ∷ ts) h = (h.0, All-take n ts h.1)

-- Every trigger is a mismatch between a committed offset and the batch's own topics.
epoch_triggers-IsMismatch :
    (topics : List TopicMetrics) (offsets : List ConsumerOffset) (max : ℕ)
    → All (IsMismatch (current_epochs topics [])) (epoch_triggers topics offsets max).0
unfolding epoch_triggers
epoch_triggers-IsMismatch [] offsets max = tt
epoch_triggers-IsMismatch (t ∷ topics) [] max = tt
epoch_triggers-IsMismatch (t ∷ topics) (o ∷ offsets) max =
    let m = current_epochs (t ∷ topics) [] in
    let found = mismatches m (o ∷ offsets) in
    All-take (IsMismatch m) (cap_len (length (sort_triggers found)) max).0 (sort_triggers found)
      (All-sort_triggers (IsMismatch m) found (mismatches-IsMismatch m (o ∷ offsets)))

perm-insert_trigger :
    (t : EpochTrigger) (ts : List EpochTrigger) → Perm (insert_trigger t ts) (t ∷ ts)
unfolding insert_trigger
perm-insert_trigger t [] = Perm.refl (t ∷ [])
perm-insert_trigger t (u ∷ us) = elim (Bool-cases (trigger_ltb u t)) [
  | inl lt ↦ rw lt (Perm.trans (Perm.cons u (perm-insert_trigger t us)) (Perm.swap t u us))
  | inr ge ↦ rw ge (Perm.refl (t ∷ u ∷ us))
]

perm-sort_triggers : (ts : List EpochTrigger) → Perm (sort_triggers ts) ts
unfolding sort_triggers
perm-sort_triggers [] = Perm.refl []
perm-sort_triggers (t ∷ ts) =
    Perm.trans (perm-insert_trigger t (sort_triggers ts)) (Perm.cons t (perm-sort_triggers ts))

length-insert_trigger :
    (t : EpochTrigger) (ts : List EpochTrigger) → length (insert_trigger t ts) ≡ suc (length ts)
unfolding insert_trigger
length-insert_trigger t [] = refl
length-insert_trigger t (u ∷ us) = ground (arith, length-insert_trigger t us)

length-sort_triggers : (ts : List EpochTrigger) → length (sort_triggers ts) ≡ length ts
unfolding sort_triggers
length-sort_triggers [] = refl
length-sort_triggers (t ∷ ts) =
    omega (arith, length-insert_trigger t (sort_triggers ts), length-sort_triggers ts)

take-length : (n : ℕ) (ts : List EpochTrigger) → length ts ≤ n → take n ts ≡ ts
take-length zero [] h = refl
take-length zero (t ∷ ts) h = absurd (omega arith)
take-length (suc n) [] h = refl
take-length (suc n) (t ∷ ts) h = ap (◌∷◌ t) (take-length n ts (omega arith))

group_triggers-no_topics :
    (group : String) (os : List PartitionOffset) → group_triggers [] group os ≡ []
unfolding group_triggers
group_triggers-no_topics group [] = refl
group_triggers-no_topics group (o ∷ os) =
    rw (trigger_of_current_none [] group o (unfold current_of lookup in refl))
      (group_triggers-no_topics group os)

mismatches-no_topics : (offsets : List ConsumerOffset) → mismatches [] offsets ≡ []
unfolding mismatches
mismatches-no_topics [] = refl
mismatches-no_topics (co ∷ offsets) =
    rw (group_triggers-no_topics co.group_id (list_of co.offsets)) (mismatches-no_topics offsets)

mismatches_of_none :
    (offsets : List ConsumerOffset) → mismatches (current_epochs [] []) offsets ≡ []
unfolding current_epochs
mismatches_of_none offsets = mismatches-no_topics offsets

-- The triggers against all the mismatches that were found.
abbrev pub Caps : ℕ → List EpochTrigger → List EpochTrigger × Bool → Type 0
Caps max found r =
    (length r.0 ≡ min max (length found))
    × (r.1 ≡ ltb max (length found))
    × (length found ≤ max → Perm r.0 found)

capped-Caps :
    (max : ℕ) (found : List EpochTrigger)
    → 0 < max
    → let ts = sort_triggers found in
      let cap = cap_len (length ts) max in Caps max found (take cap.0 ts, ltb 0 cap.1)
unfolding cap_len
capped-Caps max found pos = (
  ground (
    arith,
    length-sort_triggers found,
    length-take (length found) (sort_triggers found),
    length-take max (sort_triggers found),
  ),
  ground (arith, length-sort_triggers found),
  λ le. whole le,
)
  where
    kept :
        length found ≤ max
        → (cap_len (length (sort_triggers found)) max).0 ≡ length (sort_triggers found)
    kept le = ground (arith, length-sort_triggers found)

    whole :
        length found ≤ max
        → Perm (take (cap_len (length (sort_triggers found)) max).0 (sort_triggers found)) found
    whole le =
        rw (kept le, take-length (length (sort_triggers found)) (sort_triggers found) (omega arith))
          (perm-sort_triggers found)

-- For a positive ceiling there are as many triggers as mismatches, up to the ceiling; the flag says
-- whether the ceiling cut any off; and where it did not, the triggers are all the mismatches.
epoch_triggers-Caps :
    (topics : List TopicMetrics) (offsets : List ConsumerOffset) (max : ℕ)
    → 0 < max
    → Caps max (mismatches (current_epochs topics []) offsets) (epoch_triggers topics offsets max)
unfolding epoch_triggers
epoch_triggers-Caps [] offsets max pos =
    rw (mismatches_of_none offsets) (omega arith, ground arith, λ le. Perm.refl [])
epoch_triggers-Caps (t ∷ topics) [] max pos =
    unfold mismatches in (omega arith, ground arith, λ le. Perm.refl [])
epoch_triggers-Caps (t ∷ topics) (o ∷ offsets) max pos =
    capped-Caps max (mismatches (current_epochs (t ∷ topics) []) (o ∷ offsets)) pos
