-- ===== src/Collector/Phases/Order.antt =====
-- What has happened before what, in every state that a cycle reaches.
use streamsight_agent.Base.{
  ℕ, ◌≤◌, ◌<◌, ◌≡◌, ◌⊎◌, inl, inr, refl, subst, Bool, true, false, ◌||◌, some, List, [], ◌∷◌,
  get_elem?, arith, Bool-cases,
}
use streamsight_agent.Collector.Phases.{
  Chan, Request, Action, await, await_or_done, close, send, receive, wg_done, wg_wait, report,
  program, State, start, closer, is_closed, is_enabled, advance, passes_over, note_send, after,
  Step, act, expire, Reach, begin, later, committed_done, window_done, meta_done, groups_listed,
  end_done, topics_phase, offsets_phase, window_phase, cluster_phase, list_phase,
}

abbrev pub InSent : ℕ → ℕ → List (ℕ × ℕ) → Type 0
InSent g i [] = ⊥
InSent g i ((h, j) ∷ sent) = ((h ≡ g) × (j ≡ i)) ⊎ InSent g i sent

-- The action of a goroutine at a place.
abbrev pub IsAt : ℕ → ℕ → Action → Type 0
IsAt g i a = get_elem? (program g) i ≡ some a

pub record Inv (s : State) : Type 0 where
  pub waited : (g i : ℕ) (c : Chan) → i < s.pos g → IsAt g i (await c) → is_closed s c ≡ true
  pub or_expired :
      (g i : ℕ) (c : Chan)
      → i < s.pos g
      → IsAt g i (await_or_done c)
      → (is_closed s c ≡ true) ⊎ ((s.expired || s.early) ≡ true)
  pub passed : (g i : ℕ) → InSent g i s.sent → i < s.pos g
  pub live :
      (i j : ℕ) (c : Chan)
      → InSent topics_phase i s.sent
      → j < i
      → IsAt topics_phase j (await_or_done c)
      → is_closed s c ≡ true

Inv-start : (early : Bool) → Inv (start early)
Inv-start early = record {
  waited = λ g i c lt at. absurd (omega (arith, lt));
  or_expired = λ g i c lt at. absurd (omega (arith, lt));
  passed = λ g i m. absurd m;
  live = λ i j c m lt at. absurd m;
}

advance-le : (pos : ℕ → ℕ) (g h : ℕ) → pos h ≤ advance pos g h
advance-le pos g h = ground arith

pub is_closed-after :
    (s : State) (g : ℕ) (a : Action) (c : Chan)
    → is_closed s c ≡ true
    → is_closed (after s g a) c ≡ true
is_closed-after s g a c h = ground (arith, h, advance-le s.pos g (closer c).0)

-- A place that is passed after the step was passed before it, or is that of the step.
passed_cases :
    (pos : ℕ → ℕ) (g h i : ℕ) → i < advance pos g h → (i < pos h) ⊎ ((h ≡ g) × (i ≡ pos g))
passed_cases pos g h i lt = ground (arith, lt)

one_action : (g i : ℕ) (a b : Action) → IsAt g i a → IsAt g i b → a ≡ b
one_action g i a b p q = ground (arith, p, q)

await_enabled :
    (s : State) (a : Action) (c : Chan) → a ≡ await c → is_enabled s a ≡ true → is_closed s c ≡ true
unfolding is_enabled
await_enabled s a c e h = subst (λ x. is_enabled s x ≡ true) e h

or_enabled :
    (s : State) (a : Action) (c : Chan)
    → a ≡ await_or_done c
    → is_enabled s a ≡ true
    → (is_closed s c ≡ true) ⊎ ((s.expired || s.early) ≡ true)
unfolding is_enabled
or_enabled s a c e h =
    let test : (is_closed s c || (s.expired || s.early)) ≡ true =
      subst (λ x. is_enabled s x ≡ true) e h in
    elim (Bool-cases (s.expired || s.early)) [
      | inl x ↦ inr x
      | inr x ↦ inl (ground (arith, test, x))
    ]

send_noted :
    (s : State) (g : ℕ) (r : Request)
    → (s.expired || passes_over s g) ≡ false
    → note_send s g (send r) ≡ (g, s.pos g) ∷ s.sent
unfolding note_send
send_noted s g r x = rw x refl

-- A send is noted at its place, on a context that is not done, and if it is not passed over.
note_send-cases :
    (s : State) (g h i : ℕ) (a : Action)
    → InSent h i (note_send s g a)
    → InSent h i s.sent ⊎ ((g ≡ h) × (s.pos g ≡ i) × ((s.expired || passes_over s g) ≡ false))
unfolding note_send
note_send-cases s g h i (send r) m = elim (Bool-cases (s.expired || passes_over s g)) [
  | inl x ↦ inl (ground (arith, m, x))
  | inr x ↦ elim (subst (InSent h i) (send_noted s g r x) m) [
    | inl (same, here) ↦ inr (same, here, x)
    | inr before ↦ inl before
  ]
]
note_send-cases s g h i (await c) m = inl m
note_send-cases s g h i (await_or_done c) m = inl m
note_send-cases s g h i (close c) m = inl m
note_send-cases s g h i (receive r) m = inl m
note_send-cases s g h i wg_done m = inl m
note_send-cases s g h i wg_wait m = inl m
note_send-cases s g h i report m = inl m

module _ (s : State) (g : ℕ) (a : Action) (at : IsAt g (s.pos g) a) (ready : is_enabled s a ≡ true)
    (inv : Inv s) where
  act-waited :
      (h i : ℕ) (c : Chan)
      → i < (after s g a).pos h
      → IsAt h i (await c)
      → is_closed (after s g a) c ≡ true
  act-waited h i c lt q = elim (passed_cases s.pos g h i lt) [
    | inl before ↦ is_closed-after s g a c (inv.waited h i c before q)
    | inr (same, here) ↦
        let q' : IsAt g (s.pos g) (await c) =
          subst (λ x. IsAt x (s.pos g) (await c)) same (subst (λ x. IsAt h x (await c)) here q) in
        is_closed-after s g a c
          (await_enabled s a c (one_action g (s.pos g) a (await c) at q') ready)
  ]

  act-or_expired :
      (h i : ℕ) (c : Chan)
      → i < (after s g a).pos h
      → IsAt h i (await_or_done c)
      → (is_closed (after s g a) c ≡ true) ⊎ ((s.expired || s.early) ≡ true)
  act-or_expired h i c lt q = elim (passed_cases s.pos g h i lt) [
    | inl before ↦ elim (inv.or_expired h i c before q) [
      | inl x ↦ inl (is_closed-after s g a c x)
      | inr x ↦ inr x
    ]
    | inr (same, here) ↦
        let q' : IsAt g (s.pos g) (await_or_done c) =
          subst (λ x. IsAt x (s.pos g) (await_or_done c)) same
            (subst (λ x. IsAt h x (await_or_done c)) here q) in
        elim (or_enabled s a c (one_action g (s.pos g) a (await_or_done c) at q') ready) [
          | inl x ↦ inl (is_closed-after s g a c x)
          | inr x ↦ inr x
        ]
  ]

  act-passed : (h i : ℕ) → InSent h i (after s g a).sent → i < (after s g a).pos h
  act-passed h i m = elim (note_send-cases s g h i a m) [
    | inl before ↦ omega (arith, inv.passed h i before, advance-le s.pos g h)
    | inr (same, here, live) ↦ ground (arith, same, here)
  ]

  act-live :
      (i j : ℕ) (c : Chan)
      → InSent topics_phase i (after s g a).sent
      → j < i
      → IsAt topics_phase j (await_or_done c)
      → is_closed (after s g a) c ≡ true
  act-live i j c m lt q = elim (note_send-cases s g topics_phase i a m) [
    | inl before ↦ is_closed-after s g a c (inv.live i j c before lt q)
    | inr (same, here, fresh) ↦
        let lt' : j < s.pos topics_phase =
          subst (λ x. j < s.pos x) same (omega (arith, here, lt)) in
        elim (inv.or_expired topics_phase j c lt' q) [
          | inl x ↦ is_closed-after s g a c x
          | inr x ↦
              absurd
                (ground (arith, x, subst (λ k. (s.expired || passes_over s k) ≡ false) same fresh))
        ]
  ]

  act-Inv : Inv (after s g a)
  act-Inv = record {
    waited = act-waited;
    or_expired = act-or_expired;
    passed = act-passed;
    live = act-live;
  }

expire-Inv : (s : State) → Inv s → Inv (record s { expired = true })
expire-Inv s inv = record {
  waited = inv.waited;
  or_expired = λ g i c lt at. inr refl;
  passed = inv.passed;
  live = inv.live;
}

Step-Inv : {s t : State} → Step s t → Inv s → Inv t
Step-Inv {s} (act g a at ready) inv = act-Inv s g a at ready inv
Step-Inv {s} (expire live) inv = expire-Inv s inv

pub Reach-Inv : {n : ℕ} {s : State} → Reach n s → Inv s
Reach-Inv (begin {early}) = Inv-start early
Reach-Inv (later r st) = Step-Inv st (Reach-Inv r)

-- A place that a goroutine has passed.
abbrev pub HasPassed : State → ℕ → ℕ → Type 0
HasPassed s g i = i < s.pos g

-- The answers that the two ceilings come after: those about the metadata, the groups, the committed
-- offsets, the window and the log starts have been received.
abbrev pub FloorsAreIn : State → Type 0
FloorsAreIn s =
    HasPassed s cluster_phase 1
    × HasPassed s list_phase 1
    × HasPassed s offsets_phase 3
    × HasPassed s window_phase 2
    × HasPassed s topics_phase 2

closed_passed :
    (s : State) (c : Chan) → is_closed s c ≡ true → HasPassed s (closer c).0 (closer c).1
closed_passed s c h = ground (arith, h)

-- A phase that waits for the end offsets has gone on only after the high watermarks were received.
Reach-follow_up :
    {n : ℕ} {s : State}
    → Reach n s
    → (g i : ℕ) → IsAt g i (await end_done)
    → HasPassed s g i
    → HasPassed s topics_phase 8
Reach-follow_up {n} {s} r g i at passed =
    omega (arith, closed_passed s end_done ((Reach-Inv r).waited g i end_done passed at))

-- The sampling order, in every state that a cycle reaches, however its goroutines interleave and whenever
-- its context expires: when the listing of the last stable offsets or of the high watermarks, or one
-- behind them, has been sent on a live context, then the answers about the metadata, the groups, the
-- committed offsets, the window and the log starts have been received.
pub Reach-InOrder :
    {n : ℕ} {s : State} → Reach n s → (i : ℕ) → 4 < i → InSent topics_phase i s.sent → FloorsAreIn s
Reach-InOrder {n} {s} r i lt m =
    let inv : Inv s = Reach-Inv r in
    let committed =
      closed_passed s committed_done (inv.live i 3 committed_done m (omega (arith, lt)) refl) in
    let window = closed_passed s window_done (inv.live i 4 window_done m lt refl) in
    let meta =
      closed_passed s meta_done
        (inv.waited offsets_phase 0 meta_done (omega (arith, committed)) refl) in
    let listed =
      closed_passed s groups_listed
        (inv.waited offsets_phase 1 groups_listed (omega (arith, committed)) refl) in
    (
      omega (arith, meta),
      omega (arith, listed),
      omega (arith, committed),
      omega (arith, window),
      omega (arith, lt, inv.passed topics_phase i m),
    )
