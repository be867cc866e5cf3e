-- ===== src/Collector/Topics/Replicas.antt =====
-- `replicationFactor` of internal/collector/metadata.go: the least number of replicas.
use streamsight_agent.Base.{
  ℕ, ◌≡◌, ◌≤◌, ◌⊎◌, inl, inr, refl, sym, subst, Option, none, some, List, [], ◌∷◌, ltb, length,
  Option-cases, if◌then◌else◌, arith,
}
use streamsight_agent.Collector.GoError.{GoErrors}
use streamsight_agent.Collector.Kadm.{Kadm, PartitionDetail}
use streamsight_agent.Collector.Topics.{lowest_replicas, replication_factor}

module _ (G : GoErrors) (K : Kadm G.GoError) where
  open G use {GoError}

  -- A partition whose metadata came without an error.
  pub IsLoaded : PartitionDetail GoError → Type 0
  IsLoaded p = p.err ≡ none

  pub SomeHas : ℕ → List (PartitionDetail GoError) → Type 0
  SomeHas n [] = ⊥
  SomeHas n (p ∷ ps) = (IsLoaded p × (length p.replicas ≡ n)) ⊎ SomeHas n ps

  -- No loaded partition has fewer.
  pub IsBound : ℕ → List (PartitionDetail GoError) → Type 0
  IsBound x [] = Unit
  IsBound x (p ∷ ps) = (IsLoaded p → x ≤ length p.replicas) × IsBound x ps

  pub NoneLoaded : List (PartitionDetail GoError) → Type 0
  NoneLoaded [] = Unit
  NoneLoaded (p ∷ ps) = ((e : GoError) × (p.err ≡ some e)) × NoneLoaded ps

  abbrev lower : ℕ → PartitionDetail GoError → ℕ
  lower n p = if ltb (length p.replicas) n then length p.replicas else n

  step-failed :
      (seen : Option ℕ) (p : PartitionDetail GoError) (ps : List (PartitionDetail GoError))
      (e : GoError)
      → p.err ≡ some e
      → lowest_replicas G K seen (p ∷ ps) ≡ lowest_replicas G K seen ps
  unfolding lowest_replicas
  step-failed none p ps e h = rw (h, lowest_replicas) refl
  step-failed (some n) p ps e h = rw (h, lowest_replicas) refl

  step-loaded :
      (n : ℕ) (p : PartitionDetail GoError) (ps : List (PartitionDetail GoError))
      → p.err ≡ none
      → lowest_replicas G K (some n) (p ∷ ps) ≡ lowest_replicas G K (some (lower n p)) ps
  unfolding lowest_replicas
  step-loaded n p ps h = rw (h, lowest_replicas) refl

  step-first :
      (p : PartitionDetail GoError) (ps : List (PartitionDetail GoError))
      → p.err ≡ none
      → lowest_replicas G K none (p ∷ ps) ≡ lowest_replicas G K (some (length p.replicas)) ps
  unfolding lowest_replicas
  step-first p ps h = rw (h, lowest_replicas) refl

  abbrev IsLowest : ℕ → ℕ → List (PartitionDetail GoError) → Type 0
  IsLowest x n ps = (x ≤ n) × IsBound x ps × ((x ≡ n) ⊎ SomeHas x ps)

  IsLowest-failed :
      (x n : ℕ) (p : PartitionDetail GoError) (ps : List (PartitionDetail GoError)) (e : GoError)
      → p.err ≡ some e
      → IsLowest x n ps
      → IsLowest x n (p ∷ ps)
  unfolding IsBound SomeHas IsLoaded
  IsLowest-failed x n p ps e h (a, b, c) = ground (arith, h, a, b, c)

  IsLowest-loaded :
      (x n : ℕ) (p : PartitionDetail GoError) (ps : List (PartitionDetail GoError))
      → p.err ≡ none
      → IsLowest x (lower n p) ps
      → IsLowest x n (p ∷ ps)
  unfolding IsBound SomeHas IsLoaded
  IsLowest-loaded x n p ps h (a, b, c) = ground (arith, h, a, b, c)

  lowest_replicas-IsLowest :
      (n : ℕ) (ps : List (PartitionDetail GoError))
      → IsLowest (lowest_replicas G K (some n) ps) n ps
  unfolding lowest_replicas IsBound
  lowest_replicas-IsLowest n [] = (omega arith, tt, inl refl)
  lowest_replicas-IsLowest n (p ∷ ps) = elim (Option-cases p.err) [
    | inr (e, h) ↦
        subst (λ x. IsLowest x n (p ∷ ps)) (sym (step-failed (some n) p ps e h))
          (IsLowest-failed _ n p ps e h (lowest_replicas-IsLowest n ps))
    | inl h ↦
        subst (λ x. IsLowest x n (p ∷ ps)) (sym (step-loaded n p ps h))
          (IsLowest-loaded _ n p ps h (lowest_replicas-IsLowest (lower n p) ps))
  ]

  -- The replication factor is that of some loaded partition, and no loaded partition has fewer
  -- replicas; it is 0 if no partition is loaded.
  replication_factor-IsLeast :
      (ps : List (PartitionDetail GoError))
      → IsBound (replication_factor G K ps) ps
        × (SomeHas (replication_factor G K ps) ps
            ⊎ (NoneLoaded ps × (replication_factor G K ps ≡ 0)))
  unfolding replication_factor lowest_replicas IsBound NoneLoaded SomeHas IsLoaded
  replication_factor-IsLeast [] = (tt, inr (tt, refl))
  replication_factor-IsLeast (p ∷ ps) = elim (Option-cases p.err) [
    | inr (e, h) ↦
        subst (λ x. IsBound x (p ∷ ps) × (SomeHas x (p ∷ ps) ⊎ (NoneLoaded (p ∷ ps) × (x ≡ 0))))
          (sym (step-failed none p ps e h)) (ground (arith, h, replication_factor-IsLeast ps))
    | inl h ↦
        let (a, b, c) = lowest_replicas-IsLowest (length p.replicas) ps in
        subst (λ x. IsBound x (p ∷ ps) × (SomeHas x (p ∷ ps) ⊎ (NoneLoaded (p ∷ ps) × (x ≡ 0))))
          (sym (step-first p ps h))
          ((λ l. a, b), inl (elim c [ inl q ↦ inl (h, sym q) | inr q ↦ inr q ]))
  ]
