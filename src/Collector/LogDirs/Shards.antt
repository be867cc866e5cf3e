-- ===== src/Collector/LogDirs/Shards.antt =====
-- `logDirShards` of internal/collector/logdirs.go: which brokers are in the report and which in the error.
use streamsight_agent.Base.{
  ℕ, suc, ◌+◌, ◌≡◌, ◌⊎◌, ◌↔◌, inl, inr, refl, sym, ap, subst, Bool, true, Option, none, some, List,
  [], ◌∷◌, map, ◌++◌, ℤ, length, ◌==◌, lookup, insert, lookup-insert, int_eq, Bool-cases,
  Option-cases, arith, eqb_ℤ, eqb_ℤ_iff, length-cons_nonzero, ◌∙◌,
}
use streamsight_agent.Collector.GoError.{GoErrors, ShardErrors}
use mathlib.Core.List.{append-nil}
use streamsight_agent.Collector.Topics.{is_some}
use streamsight_agent.Collector.LogDirs.{
  Shard, LogDirsAnswer, DescribedDir, described_dir, LogDirReport, shard_log_dirs, fold_shards,
  log_dir_shards,
}

module _ (G : GoErrors) (error_for_code : ℤ → Option G.GoError)
    (as_error : ShardErrors G.GoError → G.GoError) where
  open G use {GoError}

  abbrev Answer : Type 0
  Answer = GoError ⊎ List (DescribedDir GoError)

  Answer-cases :
      (a : Answer)
      → ((e : GoError) × (a ≡ inl e)) ⊎ ((ds : List (DescribedDir GoError)) × (a ≡ inr ds))
  Answer-cases (inl e) = inl (e, refl)
  Answer-cases (inr ds) = inr (ds, refl)

  -- A shard that answered: it has no error, a response, and no error code in the response.
  pub HasAnswered : Shard GoError → Type 0
  HasAnswered s =
      (s.err ≡ none)
      × (resp : LogDirsAnswer) × (s.resp ≡ some resp)
      × (error_for_code resp.error_code ≡ none)

  -- Why a shard failed: the request did, the response is another, or the response has an error code.
  pub data FailedWith (s : Shard GoError) : GoError → Type 0 where
    not_sent : {e : GoError} → s.err ≡ some e → FailedWith s e
    other_response : s.err ≡ none → s.resp ≡ none → FailedWith s G.not_log_dirs_response
    refused :
        {e : GoError} (resp : LogDirsAnswer)
        → s.err ≡ none
        → s.resp ≡ some resp
        → error_for_code resp.error_code ≡ some e
        → FailedWith s e

  answered_not_failed : {s : Shard GoError} {e : GoError} → HasAnswered s → FailedWith s e → ⊥
  unfolding HasAnswered
  answered_not_failed (no_err, resp, r, no_code) (not_sent h) = ground (arith, no_err, h)
  answered_not_failed (no_err, resp, r, no_code) (other_response h none_here) =
      ground (arith, r, none_here)
  answered_not_failed (no_err, resp, r, no_code) (refused {e} resp' h r' code) = absurd (
      ground (
        arith,
        no_code,
        subst (λ x. error_for_code x.error_code ≡ some e) (the_response resp' resp (sym r' ∙ r))
            code,
      ))
    where
      the_response : (a b : LogDirsAnswer) → some a ≡ some b → a ≡ b
      the_response a b e = ground (arith, e)

  -- `shardLogDirs` returns an error for a shard that failed, and directories for one that answered.
  abbrev Outcome : Shard GoError → Answer → Type 0
  Outcome s (inl e) = FailedWith s e
  Outcome s (inr ds) = HasAnswered s

  module _ (s : Shard GoError) where
    shard-unsent :
        (e : GoError) → s.err ≡ some e → shard_log_dirs G error_for_code as_error s ≡ inl e
    unfolding shard_log_dirs
    shard-unsent e h = rw h refl

    shard-other :
        s.err ≡ none
        → s.resp ≡ none
        → shard_log_dirs G error_for_code as_error s ≡ inl G.not_log_dirs_response
    unfolding shard_log_dirs
    shard-other h r = rw (h, r) refl

    shard-refused :
        (resp : LogDirsAnswer) (e : GoError)
        → s.err ≡ none
        → s.resp ≡ some resp
        → error_for_code resp.error_code ≡ some e
        → shard_log_dirs G error_for_code as_error s ≡ inl e
    unfolding shard_log_dirs
    shard-refused resp e h r code = rw (h, r, code) refl

    shard-answered :
        (resp : LogDirsAnswer)
        → s.err ≡ none
        → s.resp ≡ some resp
        → error_for_code resp.error_code ≡ none
        → shard_log_dirs G error_for_code as_error s
          ≡ inr (map (described_dir G error_for_code as_error s.node_id) resp.dirs)
    unfolding shard_log_dirs
    shard-answered resp h r no_code = rw (h, r, no_code) refl

  shard_log_dirs-Outcome :
      (s : Shard GoError) → Outcome s (shard_log_dirs G error_for_code as_error s)
  unfolding HasAnswered
  shard_log_dirs-Outcome s = elim (Option-cases s.err) [
    | inr (e, h) ↦ subst (Outcome s) (sym (shard-unsent s e h)) (not_sent h)
    | inl h ↦ elim (Option-cases s.resp) [
      | inl r ↦ subst (Outcome s) (sym (shard-other s h r)) (other_response h r)
      | inr (resp, r) ↦ elim (Option-cases (error_for_code resp.error_code)) [
        | inl no_code ↦
            subst (Outcome s) (sym (shard-answered s resp h r no_code)) (h, resp, r, no_code)
        | inr (e, code) ↦
            subst (Outcome s) (sym (shard-refused s resp e h r code)) (refused resp h r code)
      ]
    ]
  ]

  failed_of :
      (s : Shard GoError) (e : GoError)
      → shard_log_dirs G error_for_code as_error s ≡ inl e
      → FailedWith s e
  failed_of s e h = subst (Outcome s) h (shard_log_dirs-Outcome s)

  answered_of :
      (s : Shard GoError) (ds : List (DescribedDir GoError))
      → shard_log_dirs G error_for_code as_error s ≡ inr ds
      → HasAnswered s
  answered_of s ds h = subst (Outcome s) h (shard_log_dirs-Outcome s)

  -- The shards split in two by their answers: the failed ones in order, and the number of the others.
  pub data Splits : List (Shard GoError) → List (ℤ × GoError) → ℕ → Type 0 where
    none_left : Splits [] [] 0
    failed_one :
        {s : Shard GoError} {ss : List (Shard GoError)} {es : List (ℤ × GoError)} {n : ℕ}
        (e : GoError)
        → FailedWith s e
        → Splits ss es n
        → Splits (s ∷ ss) ((s.node_id, e) ∷ es) n
    answered_one :
        {s : Shard GoError} {ss : List (Shard GoError)} {es : List (ℤ × GoError)} {n : ℕ}
        → HasAnswered s
        → Splits ss es n
        → Splits (s ∷ ss) es (suc n)

  -- Whether a shard of that broker answered.
  pub HasAnswer : ℤ → List (Shard GoError) → Type 0
  HasAnswer k [] = ⊥
  HasAnswer k (s ∷ ss) = ((s.node_id ≡ k) × HasAnswered s) ⊎ HasAnswer k ss

  abbrev Folded :
      LogDirReport GoError
      → List (ℤ × GoError)
      → List (Shard GoError)
      → LogDirReport GoError × List (ℤ × GoError)
      → Type 0
  Folded report errs ss r =
      ((es : List (ℤ × GoError)) × ((n : ℕ) × Splits ss es n × (r.1 ≡ errs ++ es)))
      × ((k : ℤ)
          → (is_some (lookup k r.0) ≡ true) ↔ ((is_some (lookup k report) ≡ true) ⊎ HasAnswer k ss))

  fold-failed :
      (report : LogDirReport GoError) (errs : List (ℤ × GoError)) (s : Shard GoError)
      (ss : List (Shard GoError)) (e : GoError)
      → shard_log_dirs G error_for_code as_error s ≡ inl e
      → fold_shards G error_for_code as_error report errs (s ∷ ss)
        ≡ fold_shards G error_for_code as_error report (errs ++ (s.node_id, e) ∷ []) ss
  unfolding fold_shards
  fold-failed report errs s ss e h = rw (h, fold_shards) refl

  fold-answered :
      (report : LogDirReport GoError) (errs : List (ℤ × GoError)) (s : Shard GoError)
      (ss : List (Shard GoError)) (ds : List (DescribedDir GoError))
      → shard_log_dirs G error_for_code as_error s ≡ inr ds
      → fold_shards G error_for_code as_error report errs (s ∷ ss)
        ≡ fold_shards G error_for_code as_error (insert s.node_id ds report) errs ss
  unfolding fold_shards
  fold-answered report errs s ss ds h = rw (h, fold_shards) refl

  append-one :
      (xs : List (ℤ × GoError)) (y : ℤ × GoError) (ys : List (ℤ × GoError))
      → (xs ++ y ∷ []) ++ ys ≡ xs ++ y ∷ ys
  append-one [] y ys = refl
  append-one (x ∷ xs) y ys = ap (λ zs. x ∷ zs) (append-one xs y ys)

  Folded-failed :
      (report : LogDirReport GoError) (errs : List (ℤ × GoError)) (s : Shard GoError)
      (ss : List (Shard GoError)) (e : GoError) (r : LogDirReport GoError × List (ℤ × GoError))
      → shard_log_dirs G error_for_code as_error s ≡ inl e
      → Folded report (errs ++ (s.node_id, e) ∷ []) ss r
      → Folded report errs (s ∷ ss) r
  unfolding HasAnswer
  Folded-failed report errs s ss e r h ((es, (n, sp, q)), p) = (
    (
      (s.node_id, e) ∷ es,
      (n, failed_one e (failed_of s e h) sp, q ∙ append-one errs (s.node_id, e) es),
    ),
    λ k. (
      λ t. elim ((p k).0 t) [ inl x ↦ inl x | inr x ↦ inr (inr x) ],
      λ t. elim t [
        | inl x ↦ (p k).1 (inl x)
        | inr (inl (i, a)) ↦ absurd (answered_not_failed a (failed_of s e h))
        | inr (inr x) ↦ (p k).1 (inr x)
      ],
    ),
  )

  Folded-answered :
      (report : LogDirReport GoError) (errs : List (ℤ × GoError)) (s : Shard GoError)
      (ss : List (Shard GoError)) (ds : List (DescribedDir GoError))
      (r : LogDirReport GoError × List (ℤ × GoError))
      → shard_log_dirs G error_for_code as_error s ≡ inr ds
      → Folded (insert s.node_id ds report) errs ss r
      → Folded report errs (s ∷ ss) r
  unfolding HasAnswer
  Folded-answered report errs s ss ds r h ((es, (n, sp, q)), p) = (
    (es, (suc n, answered_one (answered_of s ds h) sp, q)),
    λ k. (
      λ t. elim ((p k).0 t) [
        | inr x ↦ inr (inr x)
        | inl x ↦ elim (Bool-cases (eqb_ℤ s.node_id k)) [
          | inl b ↦ inr (inl ((eqb_ℤ_iff s.node_id k).0 b, answered_of s ds h))
          | inr b ↦ inl (ground (arith, x, b, lookup-insert s.node_id k ds report))
        ]
      ],
      λ t. elim t [
        | inr (inr x) ↦ (p k).1 (inr x)
        | inr (inl (i, a)) ↦ (p k).1 (inl (found k i))
        | inl x ↦ (p k).1 (
            inl (elim (Bool-cases (eqb_ℤ s.node_id k)) [
              | inl b ↦ found k ((eqb_ℤ_iff s.node_id k).0 b)
              | inr b ↦ ground (arith, x, b, lookup-insert s.node_id k ds report)
            ]))
      ],
    ),
  )
    where
      found : (k : ℤ) → s.node_id ≡ k → is_some (lookup k (insert s.node_id ds report)) ≡ true
      found k i =
          ground (arith, i, (eqb_ℤ_iff s.node_id k).1 i, lookup-insert s.node_id k ds report)

  fold_shards-Folded :
      (report : LogDirReport GoError) (errs : List (ℤ × GoError)) (ss : List (Shard GoError))
      → Folded report errs ss (fold_shards G error_for_code as_error report errs ss)
  unfolding fold_shards HasAnswer
  fold_shards-Folded report errs [] = (
    ([], (0, none_left, sym (append-nil errs))),
    λ k. (λ x. inl x, λ t. elim t [ inl x ↦ x | inr x ↦ absurd x ]),
  )
  fold_shards-Folded report errs (s ∷ ss) =
      elim (Answer-cases (shard_log_dirs G error_for_code as_error s)) [
        | inl (e, h) ↦
            subst (Folded report errs (s ∷ ss)) (sym (fold-failed report errs s ss e h)) (
              Folded-failed report errs s ss e _ h
                (fold_shards-Folded report (errs ++ (s.node_id, e) ∷ []) ss))
        | inr (ds, h) ↦
            subst (Folded report errs (s ∷ ss)) (sym (fold-answered report errs s ss ds h)) (
              Folded-answered report errs s ss ds _ h
                (fold_shards-Folded (insert s.node_id ds report) errs ss))
      ]

  length-Splits :
      {ss : List (Shard GoError)} {es : List (ℤ × GoError)} {n : ℕ}
      → Splits ss es n
      → length ss ≡ length es + n
  length-Splits none_left = refl
  length-Splits (failed_one x h p) = omega (arith, length-Splits p)
  length-Splits (answered_one h p) = omega (arith, length-Splits p)

  -- What `logDirShards` returns as its error: nothing if no shard failed, and otherwise the failed ones
  -- in their order, with the flag that says whether none answered.
  pub IsShardError : List (ℤ × GoError) → ℕ → Option GoError → Type 0
  IsShardError [] n err = err ≡ none
  IsShardError (e ∷ es) n err =
      (all_failed : Bool) × (err
        ≡ some (as_error (record { errs = e ∷ es; all_failed = all_failed })))
      × ((all_failed ≡ true) ↔ (n ≡ 0))

  log_dir_shards-error :
      (ss : List (Shard GoError)) (es : List (ℤ × GoError)) (n : ℕ) (report : LogDirReport GoError)
      → fold_shards G error_for_code as_error [] [] ss ≡ (report, es)
      → length ss ≡ length es + n
      → IsShardError es n (log_dir_shards G error_for_code as_error ss).1
  unfolding log_dir_shards IsShardError
  log_dir_shards-error ss [] n report f l = rw (f, log_dir_shards) refl
  log_dir_shards-error ss (e ∷ es) n report f l =
      rw (f, log_dir_shards, length-cons_nonzero e es)
        (length (e ∷ es) == length ss, refl, ground (arith, l))

  log_dir_shards-report :
      (ss : List (Shard GoError))
      → (log_dir_shards G error_for_code as_error ss).0
        ≡ (fold_shards G error_for_code as_error [] [] ss).0
  unfolding log_dir_shards
  log_dir_shards-report ss =
      elim (Bool-cases (length (fold_shards G error_for_code as_error [] [] ss).1 == 0)) [
        | inl h ↦ rw (h, log_dir_shards) refl
        | inr h ↦ rw (h, log_dir_shards) refl
      ]

  -- The report has an entry for exactly the brokers of which a shard answered: without an error, with a
  -- response of the right kind, and without an error code in it. The error lists exactly the other
  -- shards, in their order, each with its reason, and says whether none answered.
  pub log_dir_shards-Splits :
      (ss : List (Shard GoError))
      → ((es : List (ℤ × GoError)) × ((n : ℕ) × Splits ss es n
            × IsShardError es n (log_dir_shards G error_for_code as_error ss).1))
        × ((k : ℤ)
            → (is_some (lookup k (log_dir_shards G error_for_code as_error ss).0) ≡ true)
              ↔ HasAnswer k ss)
  unfolding lookup
  log_dir_shards-Splits ss =
      let r = fold_shards G error_for_code as_error [] [] ss in
      let ((es, (n, sp, q)), p) = fold_shards-Folded [] [] ss in
      (
        (es, (n, sp, log_dir_shards-error ss es n r.0 (ap (λ x. (r.0, x)) q) (length-Splits sp))),
        λ k.
            rw (log_dir_shards-report ss) (
              λ x. elim ((p k).0 x) [ inl y ↦ ground (arith, y) | inr y ↦ y ],
              λ x. (p k).1 (inr x),
            ),
      )
