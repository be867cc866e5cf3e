-- ===== src/Agent/Sequence.antt =====
-- The sequence numbers of the batches, over whole runs of the loop.
use streamsight_agent.Base.{
  ℕ, zero, suc, ◌+◌, ◌^◌, ◌<◌, ◌≡◌, ◌⊎◌, refl, sym, ◌∙◌, Bool, true, false, Option, none, some,
  List, [], ◌∷◌, map, arith, length, inl, inr, subst,
}
use streamsight_agent.Export.Counters.{inc}
use streamsight_agent.Agent.{
  Batch, Exporter, CycleEnd, no_batch, interrupted, handed_over, Event, shutdown, ticked, Agent,
  stamp, run_cycle, run_loop,
}

-- The batches that were handed to the exporter.
unfoldable pub handed : {E R C P : Type 0} → List (CycleEnd E R C P) → List (Batch E R C P)
handed [] = []
handed (no_batch ∷ ends) = handed ends
handed (interrupted ∷ ends) = handed ends
handed (handed_over b err ∷ ends) = b ∷ handed ends

-- The numbers `n + 1`, `n + 2` and so on, `k` of them.
unfoldable pub count_from : ℕ → ℕ → List ℕ
count_from n zero = []
count_from n (suc k) = suc n ∷ count_from (suc n) k

inc-suc : (n : ℕ) → suc n < 2 ^ 64 → inc n ≡ suc n
unfolding inc
inc-suc n h = omega (arith, h)

-- A run from the number `n` to the number `m`: the batches carry the numbers in between, in order.
abbrev pub IsNumbered : {E R C P : Type 0} → ℕ → List (Batch E R C P) → ℕ → Type 0
IsNumbered n bs m =
    (map (λ b. b.batch_seq) bs ≡ count_from n (length bs))
    × (map (λ b. b.agent.batches_collected) bs ≡ map (λ b. b.batch_seq) bs)
    × (m ≡ n + length bs)

IsNumbered-nil : (E R C P : Type 0) (n : ℕ) → IsNumbered {E = E} {R = R} {C = C} {P = P} n [] n
unfolding count_from
IsNumbered-nil E R C P n = (refl, refl, omega arith)

IsNumbered-cons :
    {E R C P : Type 0}
    → (n m : ℕ) (b : Batch E R C P) (bs : List (Batch E R C P)) → b.batch_seq ≡ suc n
    → b.agent.batches_collected ≡ b.batch_seq
    → IsNumbered (suc n) bs m
    → IsNumbered n (b ∷ bs) m
unfolding count_from
IsNumbered-cons n m b bs seq said (seqs, telemetry, last) = (cc, cc, omega (arith, last))

module _ {E R C P : Type 0} (X : Exporter E R C P) where
  -- A cycle either keeps the number and hands nothing over, or takes the next one.
  abbrev CycleStep : Agent X → Agent X × CycleEnd E R C P → Type 0
  CycleStep a r =
      ((r.0.batch_seq ≡ a.batch_seq)
        × ((ends : List (CycleEnd E R C P)) → handed (r.1 ∷ ends) ≡ handed ends))
      ⊎ ((b : Batch E R C P) × (b.batch_seq ≡ inc a.batch_seq)
          × (b.agent.batches_collected ≡ b.batch_seq)
          × (r.0.batch_seq ≡ inc a.batch_seq)
          × ((ends : List (CycleEnd E R C P)) → handed (r.1 ∷ ends) ≡ b ∷ handed ends))

  run_cycle_on :
      (a : Agent X) (now : ℕ) (batch : Option (Batch E R C P)) (done : Bool)
      → CycleStep a (run_cycle X a (record { collected = batch; parent_done = done; now = now }))
  unfolding run_cycle stamp handed
  run_cycle_on a now none done = inl (refl, λ ends. refl)
  run_cycle_on a now (some b) true = inl (refl, λ ends. refl)
  run_cycle_on a now (some b) false =
      inr (stamp X (record a { batch_seq = inc a.batch_seq }) b now, refl, refl, refl, λ ends. refl)

  -- Whatever the collector returns and the exporter answers, the batches that a run hands to the exporter
  -- carry consecutive sequence numbers, without a hole, and their telemetry says the same number; cycles
  -- that return no batch or are interrupted use none. The condition is that the counter does not wrap.
  pub run_loop-IsNumbered :
      (a : Agent X) (es : List (Event E R C P))
      → a.batch_seq + length es < 2 ^ 64
      → IsNumbered a.batch_seq (handed (run_loop X a es).1) (run_loop X a es).0.batch_seq
  unfolding run_loop handed
  run_loop-IsNumbered a [] h = IsNumbered-nil E R C P a.batch_seq
  run_loop-IsNumbered a (shutdown ∷ es) h = IsNumbered-nil E R C P a.batch_seq
  run_loop-IsNumbered a (ticked t ∷ es) h =
      let a' = (run_cycle X a t).0 in
      let next = inc-suc a.batch_seq (omega (arith, h)) in
      let rest = (run_loop X a' es) in
      elim (run_cycle_on a t.now t.collected t.parent_done) [
        | inl (same, nothing) ↦
            let ih = run_loop-IsNumbered a' es (omega (arith, h, same)) in
            subst (λ bs. IsNumbered a.batch_seq bs rest.0.batch_seq) (sym (nothing rest.1))
              (subst (λ n. IsNumbered n (handed rest.1) rest.0.batch_seq) same ih)
        | inr (b, seq, said, took, one) ↦
            let ih = run_loop-IsNumbered a' es (omega (arith, h, took, next)) in
            subst (λ bs. IsNumbered a.batch_seq bs rest.0.batch_seq) (sym (one rest.1))
              (IsNumbered-cons a.batch_seq rest.0.batch_seq b (handed rest.1) (seq ∙ next) said
                (subst (λ n. IsNumbered n (handed rest.1) rest.0.batch_seq) (took ∙ next) ih))
      ]
