-- ===== src/Collector/Epoch/Rounds.antt =====
-- How the questions are packed into requests.
use streamsight_agent.Base.{
  suc, ◌≤◌, ◌<◌, ◌≡◌, ◌≢◌, refl, sym, ◌∙◌, ap, subst, ◌⊎◌, inl, inr, Bool, true, false, Option,
  none, some, List, [], ◌∷◌, ◌++◌, arith, length, length-append, All, ℤ, eqb_ℤ, eqb_ℤ_iff, leb,
  lookup, lookup-insert, lookup-insert_self, Option-cases, Bool-cases,
}
use streamsight_agent.Collector.Epoch.{
  topic_partition_eq, eqb_topic_partition_iff, EpochKey, EpochTrigger, key, EpochRound,
  partition_of, add_question, place, add_trigger, add_triggers, epoch_rounds,
  max_epoch_probe_rounds,
}

abbrev pub InKeys : EpochKey → List EpochKey → Type 0
InKeys k [] = ⊥
InKeys k (j ∷ ks) = (j ≡ k) ⊎ InKeys k ks

abbrev pub InRounds : EpochKey → List EpochRound → Type 0
InRounds k [] = ⊥
InRounds k (r ∷ rs) = InKeys k r.keys ⊎ InRounds k rs

-- The request names the question's partition with the question's epoch.
abbrev pub Asks : EpochRound → EpochKey → Type 0
Asks r k = lookup (partition_of k) r.req ≡ some k.epoch

-- The request names the question's partition with another epoch.
abbrev pub Taken : EpochRound → EpochKey → Type 0
Taken r k = (e : ℤ) × (lookup (partition_of k) r.req ≡ some e) × (e ≢ k.epoch)

-- The request and the questions of a round are the same.
pub record IsExact (r : EpochRound) : Type 0 where
  pub sound : (k : EpochKey) → InKeys k r.keys → Asks r k
  pub complete : (k : EpochKey) → Asks r k → InKeys k r.keys

InKeys-append : (k j : EpochKey) (ks : List EpochKey) → InKeys k ks → InKeys k (ks ++ j ∷ [])
InKeys-append k j [] h = absurd h
InKeys-append k j (i ∷ ks) (inl e) = inl e
InKeys-append k j (i ∷ ks) (inr h) = inr (InKeys-append k j ks h)

InKeys-append_last : (k : EpochKey) (ks : List EpochKey) → InKeys k (ks ++ k ∷ [])
InKeys-append_last k [] = inl refl
InKeys-append_last k (i ∷ ks) = inr (InKeys-append_last k ks)

InKeys-append_cases :
    (k j : EpochKey) (ks : List EpochKey) → InKeys k (ks ++ j ∷ []) → InKeys k ks ⊎ (j ≡ k)
InKeys-append_cases k j [] (inl e) = inr e
InKeys-append_cases k j [] (inr h) = absurd h
InKeys-append_cases k j (i ∷ ks) (inl e) = inl (inl e)
InKeys-append_cases k j (i ∷ ks) (inr h) = elim (InKeys-append_cases k j ks h) [
  | inl old ↦ inl (inr old)
  | inr e ↦ inr e
]

-- What the request says of a partition once a question is added.
lookup-add_question :
    (r : EpochRound) (k j : EpochKey)
    → ((partition_of k ≡ partition_of j)
        × (lookup (partition_of j) (add_question r k).req ≡ some k.epoch))
      ⊎ ((partition_of k ≢ partition_of j)
          × (lookup (partition_of j) (add_question r k).req ≡ lookup (partition_of j) r.req))
unfolding add_question
lookup-add_question r k j = ground (
  arith,
  lookup-insert (partition_of k) (partition_of j) k.epoch r.req,
  eqb_topic_partition_iff (partition_of k) (partition_of j),
)

same_key : (k j : EpochKey) → partition_of k ≡ partition_of j → k.epoch ≡ j.epoch → k ≡ j
same_key k j p e = ground arith

add_question-IsExact :
    (r : EpochRound) (k : EpochKey)
    → lookup (partition_of k) r.req ≡ none
    → IsExact r
    → IsExact (add_question r k)
add_question-IsExact r k free x = record {
  sound = λ j h. elim (InKeys-append_cases j k r.keys (unfold add_question in h)) [
    | inr e ↦
        subst (Asks (add_question r k)) e
          (unfold add_question in lookup-insert_self (partition_of k) k.epoch r.req)
    | inl old ↦ elim (lookup-add_question r k j) [
      | inl (p, _) ↦ absurd (ground (arith, x.sound j old))
      | inr (_, kept) ↦ kept ∙ x.sound j old
    ]
  ];
  complete = λ j a. elim (lookup-add_question r k j) [
    | inl (p, new) ↦
        unfold add_question in
        subst (λ i. InKeys i (r.keys ++ k ∷ [])) (same_key k j p (ground arith))
          (InKeys-append_last k r.keys)
    | inr (_, kept) ↦ unfold add_question in InKeys-append j k r.keys (x.complete j (sym kept ∙ a))
  ];
}

Taken-add_question :
    (r : EpochRound) (k j : EpochKey)
    → lookup (partition_of k) r.req ≡ none
    → Taken r j
    → Taken (add_question r k) j
Taken-add_question r k j free (e, at, ne) = elim (lookup-add_question r k j) [
  | inl (p, _) ↦ absurd (ground arith)
  | inr (_, kept) ↦ (e, kept ∙ at, ne)
]

-- Every round is exact, and a question of a later round is one that the earlier cannot carry.
abbrev pub Packed : List EpochRound → Type 0
Packed [] = Unit {0}
Packed (r ∷ rs) = IsExact r × ((k : EpochKey) → InRounds k rs → Taken r k) × Packed rs

abbrev AllTaken : EpochKey → List EpochRound → Type 0
AllTaken k rounds = All (λ r. Taken r k) rounds

-- What `place` does: the question is in some round, no other question is added, none is lost, and
-- there is no new round; or no round can carry it.
abbrev Placed : EpochKey → List EpochRound → Option (List EpochRound) → Type 0
Placed k rounds none = AllTaken k rounds
Placed k rounds (some rounds') =
    Packed rounds'
    × InRounds k rounds'
    × ((j : EpochKey) → InRounds j rounds → InRounds j rounds')
    × ((j : EpochKey) → InRounds j rounds' → InRounds j rounds ⊎ (k ≡ j))
    × (length rounds' ≡ length rounds)

place_free :
    (k : EpochKey) (r : EpochRound) (rs : List EpochRound)
    → lookup (partition_of k) r.req ≡ none
    → Packed (r ∷ rs)
    → Placed k (r ∷ rs) (some (add_question r k ∷ rs))
place_free k r rs free (x, later, packed) = (
  (add_question-IsExact r k free x, λ j h. Taken-add_question r k j free (later j h), packed),
  inl (unfold add_question in InKeys-append_last k r.keys),
  λ j h. elim h [
    | inl old ↦ inl (unfold add_question in InKeys-append j k r.keys old)
    | inr old ↦ inr old
  ],
  λ j h. elim h [
    | inl new ↦ elim (InKeys-append_cases j k r.keys (unfold add_question in new)) [
      | inl old ↦ inl (inl old)
      | inr e ↦ inr e
    ]
    | inr old ↦ inl (inr old)
  ],
  refl,
)

place_later :
    (k : EpochKey) (r : EpochRound) (rs : List EpochRound) (rest : Option (List EpochRound))
    → Taken r k
    → Packed (r ∷ rs)
    → Placed k rs rest
    → Placed k (r ∷ rs) (elim rest [ none ↦ none | some rs' ↦ some (r ∷ rs') ])
place_later k r rs none taken p h = (taken, h)
place_later k r rs (some rs') taken (x, later, packed) (packed', here, kept, origin, len) = (
  (
    x,
    λ j h. elim (origin j h) [ inl old ↦ later j old | inr e ↦ subst (Taken r) e taken ],
    packed',
  ),
  inr here,
  λ j h. elim h [ inl old ↦ inl old | inr old ↦ inr (kept j old) ],
  λ j h. elim h [
    | inl old ↦ inl (inl old)
    | inr new ↦ elim (origin j new) [ inl old ↦ inl (inr old) | inr e ↦ inr e ]
  ],
  ap suc len,
)

place-Placed :
    (k : EpochKey) (rounds : List EpochRound) → Packed rounds → Placed k rounds (place k rounds)
unfolding place
place-Placed k [] p = tt
place-Placed k (r ∷ rs) p = elim (Option-cases (lookup (partition_of k) r.req)) [
  | inl free ↦ rw (free, place) (place_free k r rs free p)
  | inr (e, at) ↦
      rw (at, place)
        (elim (Bool-cases (eqb_ℤ e k.epoch)) [
          | inl same ↦ rw same (
            p,
            inl (p.0.complete k (ground (arith, eqb_ℤ_iff e k.epoch))),
            λ j h. h,
            λ j h. inl h,
            refl,
          )
          | inr other ↦ rw other (
              place_later k r rs (place k rs) (e, at, ground (arith, eqb_ℤ_iff e k.epoch)) p
                (place-Placed k rs p.2))
        ])
]

abbrev empty_round : EpochRound
empty_round = record { req = []; keys = [] }

empty_round-IsExact : IsExact empty_round
unfolding lookup
empty_round-IsExact = record { sound = λ k h. absurd h; complete = λ k a. absurd (ground arith) }

new_round-IsExact : (k : EpochKey) → IsExact (add_question empty_round k)
new_round-IsExact k = add_question-IsExact empty_round k (unfold lookup in refl) empty_round-IsExact

InRounds-append :
    (j k : EpochKey) (rs : List EpochRound)
    → InRounds j rs
    → InRounds j (rs ++ add_question empty_round k ∷ [])
InRounds-append j k [] h = absurd h
InRounds-append j k (r ∷ rs) (inl h) = inl h
InRounds-append j k (r ∷ rs) (inr h) = inr (InRounds-append j k rs h)

InRounds-append_last :
    (k : EpochKey) (rs : List EpochRound) → InRounds k (rs ++ add_question empty_round k ∷ [])
unfolding add_question
InRounds-append_last k [] = inl (inl refl)
InRounds-append_last k (r ∷ rs) = inr (InRounds-append_last k rs)

InRounds-append_cases :
    (j k : EpochKey) (rs : List EpochRound)
    → InRounds j (rs ++ add_question empty_round k ∷ [])
    → InRounds j rs ⊎ (k ≡ j)
unfolding add_question
InRounds-append_cases j k [] (inl (inl e)) = inr e
InRounds-append_cases j k [] (inl (inr h)) = absurd h
InRounds-append_cases j k [] (inr h) = absurd h
InRounds-append_cases j k (r ∷ rs) (inl h) = inl (inl h)
InRounds-append_cases j k (r ∷ rs) (inr h) = elim (InRounds-append_cases j k rs h) [
  | inl old ↦ inl (inr old)
  | inr e ↦ inr e
]

-- A new round at the end, for a question that no earlier round can carry.
Packed-append :
    (k : EpochKey) (rounds : List EpochRound)
    → Packed rounds
    → AllTaken k rounds
    → Packed (rounds ++ add_question empty_round k ∷ [])
Packed-append k [] p taken = (new_round-IsExact k, λ j h. absurd h, tt)
Packed-append k (r ∷ rs) (x, later, packed) taken = (
  x,
  λ j h. elim (InRounds-append_cases j k rs h) [
    | inl old ↦ later j old
    | inr e ↦ subst (Taken r) e taken.0
  ],
  Packed-append k rs packed taken.1,
)

-- What one step of the packing loop keeps and adds.
abbrev Steps : EpochKey → List EpochRound × Bool → List EpochRound × Bool → Type 0
Steps k s s' =
    Packed s'.0
    × (length s'.0 ≤ max_epoch_probe_rounds)
    × (InRounds k s'.0 ⊎ (s'.1 ≡ true))
    × ((j : EpochKey) → InRounds j s.0 → InRounds j s'.0)
    × ((j : EpochKey) → InRounds j s'.0 → InRounds j s.0 ⊎ (k ≡ j))
    × (s.1 ≡ true → s'.1 ≡ true)

step-Placed :
    (k : EpochKey) (rounds rounds' : List EpochRound) (dropped : Bool)
    → length rounds ≤ max_epoch_probe_rounds
    → Placed k rounds (some rounds')
    → Steps k (rounds, dropped) (rounds', dropped)
step-Placed k rounds rounds' dropped le (packed, here, kept, origin, len) =
    (packed, omega arith, inl here, kept, origin, λ d. d)

step_opened :
    (k : EpochKey) (rounds : List EpochRound) (dropped : Bool)
    → length rounds < max_epoch_probe_rounds
    → Packed rounds
    → AllTaken k rounds
    → Steps k (rounds, dropped) (rounds ++ add_question empty_round k ∷ [], dropped)
step_opened k rounds dropped lt packed taken = (
  Packed-append k rounds packed taken,
  omega (arith, length-append rounds (add_question empty_round k ∷ [])),
  inl (InRounds-append_last k rounds),
  λ j h. InRounds-append j k rounds h,
  λ j h. InRounds-append_cases j k rounds h,
  λ d. d,
)

add_trigger-Steps :
    (s : List EpochRound × Bool) (k : EpochKey)
    → Packed s.0
    → length s.0 ≤ max_epoch_probe_rounds
    → Steps k s (add_trigger s k)
unfolding add_trigger
add_trigger-Steps (rounds, dropped) k packed le =
    step (place k rounds) refl (place-Placed k rounds packed)
  where
    step :
        (o : Option (List EpochRound))
        → place k rounds ≡ o
        → Placed k rounds o
        → Steps k (rounds, dropped) (add_trigger (rounds, dropped) k)
    step (some rounds') e h = rw (e, add_trigger) (step-Placed k rounds rounds' dropped le h)
    step none e h =
        rw (e, add_trigger)
          (elim (Bool-cases (leb max_epoch_probe_rounds (length rounds))) [
            | inl full ↦ rw full (packed, le, inr refl, λ j h. h, λ j h. inl h, λ d. refl)
            | inr room ↦ rw room (step_opened k rounds dropped (ground arith) packed h)
          ])

abbrev pub KeyOfSome : EpochKey → List EpochTrigger → Type 0
KeyOfSome j [] = ⊥
KeyOfSome j (t ∷ ts) = (key t ≡ j) ⊎ KeyOfSome j ts

-- What the whole loop does.
abbrev Loops : List EpochTrigger → List EpochRound × Bool → List EpochRound × Bool → Type 0
Loops ts s s' =
    Packed s'.0
    × (length s'.0 ≤ max_epoch_probe_rounds)
    × All (λ t. InRounds (key t) s'.0 ⊎ (s'.1 ≡ true)) ts
    × ((j : EpochKey) → InRounds j s.0 → InRounds j s'.0)
    × ((j : EpochKey) → InRounds j s'.0 → InRounds j s.0 ⊎ KeyOfSome j ts)
    × (s.1 ≡ true → s'.1 ≡ true)

add_triggers-Loops :
    (s : List EpochRound × Bool) (ts : List EpochTrigger)
    → Packed s.0
    → length s.0 ≤ max_epoch_probe_rounds
    → Loops ts s (add_triggers s ts)
unfolding add_triggers
add_triggers-Loops s [] packed le = (packed, le, tt, λ j h. h, λ j h. inl h, λ d. d)
add_triggers-Loops s (t ∷ ts) packed le =
    let (packed', le', here, kept, origin, stays) = add_trigger-Steps s (key t) packed le in
    let (packed'', le'', rest, kept', origin', stays') =
      add_triggers-Loops (add_trigger s (key t)) ts packed' le' in
    (
      packed'',
      le'',
      (elim here [ inl h ↦ inl (kept' (key t) h) | inr d ↦ inr (stays' d) ], rest),
      λ j h. kept' j (kept j h),
      λ j h. elim (origin' j h) [
        | inl mid ↦ elim (origin j mid) [ inl old ↦ inl old | inr e ↦ inr (inl e) ]
        | inr later ↦ inr (inr later)
      ],
      λ d. stays' (stays d),
    )

-- A cycle sends at most four requests.
length-epoch_rounds : (ts : List EpochTrigger) → length (epoch_rounds ts).0 ≤ max_epoch_probe_rounds
unfolding epoch_rounds
length-epoch_rounds ts = (add_triggers-Loops ([], false) ts tt (omega arith)).1

-- Every trigger's question is in some request unless the cap on the rounds is reported, and no request
-- carries a question that no trigger asks.
pub epoch_rounds-covers :
    (ts : List EpochTrigger)
    → All (λ t. InRounds (key t) (epoch_rounds ts).0 ⊎ ((epoch_rounds ts).1 ≡ true)) ts
      × ((k : EpochKey) → InRounds k (epoch_rounds ts).0 → KeyOfSome k ts)
unfolding epoch_rounds
epoch_rounds-covers ts =
    let (_, _, covers, _, origin, _) = add_triggers-Loops ([], false) ts tt (omega arith) in
    (covers, λ k h. elim (origin k h) [ inl none_yet ↦ absurd none_yet | inr t ↦ t ])

-- No question stands in two requests.
abbrev pub AskedOnce : List EpochRound → Type 0
AskedOnce [] = Unit {0}
AskedOnce (r ∷ rs) = ((k : EpochKey) → InKeys k r.keys → ¬ InRounds k rs) × AskedOnce rs

Packed-AskedOnce : (rounds : List EpochRound) → Packed rounds → AskedOnce rounds
Packed-AskedOnce [] p = tt
Packed-AskedOnce (r ∷ rs) (x, later, packed) = (
  λ k h h'. let asks = x.sound k h in let (e, at, ne) = later k h' in ne (cc),
  Packed-AskedOnce rs packed,
)

Packed-IsExact : (rounds : List EpochRound) → Packed rounds → All IsExact rounds
Packed-IsExact [] p = tt
Packed-IsExact (r ∷ rs) (x, _, packed) = (x, Packed-IsExact rs packed)

-- Each request names a partition with one epoch, for exactly the questions recorded beside it, and no
-- question is sent in two requests.
pub epoch_rounds-IsExact :
    (ts : List EpochTrigger) → All IsExact (epoch_rounds ts).0 × AskedOnce (epoch_rounds ts).0
unfolding epoch_rounds
epoch_rounds-IsExact ts =
    let packed = (add_triggers-Loops ([], false) ts tt (omega arith)).0 in
    (Packed-IsExact _ packed, Packed-AskedOnce _ packed)
