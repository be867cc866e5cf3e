-- ===== src/Collector/Offsets/Groups.antt =====
-- What `collectOffsets` of internal/collector/offsets.go reports of each group.
use streamsight_agent.Base.{
  ℕ, ◌≡◌, ◌⊎◌, inl, inr, refl, sym, ap, subst, Bool, true, false, not, ◌&&◌, Option, none, some,
  List, [], ◌∷◌, map, String, pos, length, lookup, string_eq, All, length-cons_nonzero, Bool-cases,
  Option-cases, arith,
}
use streamsight_agent.Collector.GoError.{GoErrors}
use streamsight_agent.Collector.Limits.{Limits}
use streamsight_agent.Collector.Section.{Section, new_section_at, stop}
use streamsight_agent.Collector.Request.{error_code, request}
use streamsight_agent.Collector.Request.Told.{
  Admits, Worsens, record_partition-Admits, record_group-Admits,
}
use streamsight_agent.Collector.Kadm.{OffsetResponse}
use streamsight_agent.Collector.Wire.{PartitionOffset, ConsumerOffset}
use streamsight_agent.Collector.Topics.Selected.{Picks, nothing, keep, leave}
use streamsight_agent.Collector.Offsets.{
  FetchResponse, is_internal, offset_row, note_offset, offset_rows, group_row, cons_if, group_rows,
  collect_offsets,
}

module _ (G : GoErrors) (F : Type 0) (sorted_fetched : F → List (OffsetResponse G.GoError)) where
  open G use {GoError, no_response}

  -- An offset of a topic that the operator's selection covers.
  pub IsCovered : (String → Bool) → Bool → List (String × Bool) → OffsetResponse GoError → Type 0
  IsCovered allow include_internal internal o =
      ((is_internal internal o.topic ≡ false) ⊎ (include_internal ≡ true)) × (allow o.topic ≡ true)

  abbrev AllCovered :
      (String → Bool)
      → Bool
      → List (String × Bool)
      → List (OffsetResponse GoError)
      → List PartitionOffset
      → Type 0
  AllCovered allow inc internal os rows =
      (kept : List (OffsetResponse GoError)) × Picks (IsCovered allow inc internal) os kept
      × (rows ≡ map (offset_row G F sorted_fetched) kept)

  offset_rows-AllCovered :
      (allow : String → Bool) (inc : Bool) (internal : List (String × Bool)) (sec : Section)
      (os : List (OffsetResponse GoError))
      → AllCovered allow inc internal os
          (offset_rows G F sorted_fetched allow inc internal sec os).0
  unfolding offset_rows IsCovered
  offset_rows-AllCovered allow inc internal sec [] = ([], nothing, refl)
  offset_rows-AllCovered allow inc internal sec (o ∷ os) =
      let row = offset_row G F sorted_fetched o in
      let (kept, p, e) = offset_rows-AllCovered allow inc internal sec os in
      let sec' = note_offset G F sorted_fetched sec o in
      let (kept', p', e') = offset_rows-AllCovered allow inc internal sec' os in
      elim (Bool-cases (is_internal internal o.topic && not inc)) [
        | inl h ↦ (kept, leave (ground (arith, h)) p, rw (h, offset_rows) e)
        | inr h ↦ elim (Bool-cases (allow o.topic)) [
          | inl a ↦ (
            o ∷ kept',
            keep (ground (arith, h, a)) p',
            rw (h, a, offset_rows) (ap (λ xs. row ∷ xs) e'),
          )
          | inr a ↦ (kept, leave (ground (arith, a)) p, rw (h, a, offset_rows) e)
        ]
      ]

  -- The report of the groups that were asked about. A group that the answer misses has no row, and a
  -- group that the broker refused has a row without a list of offsets, which is not an empty list.
  pub data Reports (allow : String → Bool) (inc : Bool) (internal : List (String × Bool))
      (fetched : List (String × FetchResponse GoError F))
      : List String → List ConsumerOffset → Type 0 where
    finished : Reports allow inc internal fetched [] []
    missed :
        {id : String} {ids : List String} {rows : List ConsumerOffset}
        → lookup id fetched ≡ none
        → Reports allow inc internal fetched ids rows
        → Reports allow inc internal fetched (id ∷ ids) rows
    refused :
        {id : String} {ids : List String} {rows : List ConsumerOffset} {row : ConsumerOffset}
        (resp : FetchResponse GoError F) (e : GoError)
        → lookup id fetched ≡ some resp
        → resp.err ≡ some e
        → (row.group_id ≡ id) × (row.offsets ≡ none) × (row.error_code ≡ error_code G e)
        → Reports allow inc internal fetched ids rows
        → Reports allow inc internal fetched (id ∷ ids) (row ∷ rows)
    answered :
        {id : String} {ids : List String} {rows : List ConsumerOffset} {row : ConsumerOffset}
        (resp : FetchResponse GoError F) (os : List PartitionOffset)
        → lookup id fetched ≡ some resp
        → resp.err ≡ none
        → (row.group_id ≡ id) × (row.offsets ≡ some os) × (row.offset_count ≡ length os)
        → AllCovered allow inc internal (sorted_fetched resp.fetched) os
        → Reports allow inc internal fetched ids rows
        → Reports allow inc internal fetched (id ∷ ids) (row ∷ rows)

  group_rows-Reports :
      (allow : String → Bool) (inc : Bool) (internal : List (String × Bool))
      (fetched : List (String × FetchResponse GoError F)) (sec : Section) (ids : List String)
      → Reports allow inc internal fetched ids
          (group_rows G F sorted_fetched allow inc internal fetched sec ids).0
  unfolding group_rows group_row
  group_rows-Reports allow inc internal fetched sec [] = finished
  group_rows-Reports allow inc internal fetched sec (id ∷ ids) =
      let sec' = (group_row G F sorted_fetched allow inc internal fetched sec id).1 in
      let rows = (group_rows G F sorted_fetched allow inc internal fetched sec' ids).0 in
      let rest = group_rows-Reports allow inc internal fetched sec' ids in
      elim (Option-cases (lookup id fetched)) [
        | inl h ↦
            subst (λ r. Reports allow inc internal fetched (id ∷ ids) (cons_if r rows))
              (sym (row-missed id h)) (missed h rest)
        | inr (resp, h) ↦ elim (Option-cases resp.err) [
          | inr (e, f) ↦
              subst (λ r. Reports allow inc internal fetched (id ∷ ids) (cons_if r rows))
                (sym (row-refused id resp e h f)) (refused resp e h f (refl, refl, refl) rest)
          | inl f ↦
              subst (λ r. Reports allow inc internal fetched (id ∷ ids) (cons_if r rows))
                (sym (row-answered id resp h f))
                (answered resp _ h f (refl, refl, refl)
                  (offset_rows-AllCovered allow inc internal sec (sorted_fetched resp.fetched))
                  rest)
        ]
      ]
    where
      row-missed :
          (id : String)
          → lookup id fetched ≡ none
          → (group_row G F sorted_fetched allow inc internal fetched sec id).0 ≡ none
      row-missed id h = rw (h, group_row) refl

      row-refused :
          (id : String) (resp : FetchResponse GoError F) (e : GoError)
          → lookup id fetched ≡ some resp
          → resp.err ≡ some e
          → (group_row G F sorted_fetched allow inc internal fetched sec id).0
            ≡ some (record {
              group_id = id;
              offsets = none;
              offset_count = 0;
              error_code = error_code G e;
            })
      row-refused id resp e h f = rw (h, group_row, f) refl

      row-answered :
          (id : String) (resp : FetchResponse GoError F)
          → lookup id fetched ≡ some resp
          → resp.err ≡ none
          → (group_row G F sorted_fetched allow inc internal fetched sec id).0
            ≡ some (record {
              group_id = id;
              offsets =
                  some
                    (offset_rows G F sorted_fetched allow inc internal sec
                      (sorted_fetched resp.fetched)).0;
              offset_count =
                  length
                    (offset_rows G F sorted_fetched allow inc internal sec
                      (sorted_fetched resp.fetched)).0;
              error_code = pos 0;
            })
      row-answered id resp h f = rw (h, group_row, f) refl

  -- A group that the broker answered for.
  pub IsAnswered : List (String × FetchResponse GoError F) → String → Type 0
  IsAnswered fetched id =
      (resp : FetchResponse GoError F) × (lookup id fetched ≡ some resp) × (resp.err ≡ none)

  IsAnswered-found :
      (fetched : List (String × FetchResponse GoError F)) (id : String)
      (resp : FetchResponse GoError F)
      → lookup id fetched ≡ some resp
      → resp.err ≡ none
      → IsAnswered fetched id
  unfolding IsAnswered
  IsAnswered-found fetched id resp h f = (resp, h, f)

  note_offset-Worsens :
      (sec : Section) (o : OffsetResponse GoError)
      → Worsens sec (note_offset G F sorted_fetched sec o)
  note_offset-Worsens sec o = elim (Option-cases o.err) [
    | inl h ↦ rw (h) (omega arith)
    | inr (e, h) ↦ rw (h) (record_partition-Admits G sec _ _ _ e).1
  ]

  offset_rows-Worsens :
      (allow : String → Bool) (inc : Bool) (internal : List (String × Bool)) (sec : Section)
      (os : List (OffsetResponse GoError))
      → Worsens sec (offset_rows G F sorted_fetched allow inc internal sec os).1
  unfolding offset_rows
  offset_rows-Worsens allow inc internal sec [] = omega arith
  offset_rows-Worsens allow inc internal sec (o ∷ os) =
      let sec' = note_offset G F sorted_fetched sec o in
      let skip = offset_rows-Worsens allow inc internal sec os in
      let rest = offset_rows-Worsens allow inc internal sec' os in
      let first = note_offset-Worsens sec o in
      elim (Bool-cases (is_internal internal o.topic && not inc)) [
        | inl h ↦ rw (h, offset_rows) skip
        | inr h ↦ elim (Bool-cases (allow o.topic)) [
          | inl a ↦ rw (h, a, offset_rows) (omega (arith, first, rest))
          | inr a ↦ rw (h, a, offset_rows) skip
        ]
      ]

  group_row-Worsens :
      (allow : String → Bool) (inc : Bool) (internal : List (String × Bool))
      (fetched : List (String × FetchResponse GoError F)) (sec : Section) (id : String)
      → Worsens sec (group_row G F sorted_fetched allow inc internal fetched sec id).1
        × (IsAnswered fetched id
            ⊎ Admits (group_row G F sorted_fetched allow inc internal fetched sec id).1)
  unfolding group_row
  group_row-Worsens allow inc internal fetched sec id = elim (Option-cases (lookup id fetched)) [
    | inl h ↦
        rw (h, group_row)
          ((record_group-Admits G sec _ _ _).1, inr (record_group-Admits G sec _ _ _).0)
    | inr (resp, h) ↦ elim (Option-cases resp.err) [
      | inr (e, f) ↦
          rw (h, group_row, f)
            ((record_group-Admits G sec _ _ _).1, inr (record_group-Admits G sec _ _ _).0)
      | inl f ↦
          rw (h, group_row, f)
            (
              offset_rows-Worsens allow inc internal sec (sorted_fetched resp.fetched),
              inl (IsAnswered-found fetched id resp h f),
            )
    ]
  ]

  group_rows-Worsens :
      (allow : String → Bool) (inc : Bool) (internal : List (String × Bool))
      (fetched : List (String × FetchResponse GoError F)) (sec : Section) (ids : List String)
      → Worsens sec (group_rows G F sorted_fetched allow inc internal fetched sec ids).1
        × (All (IsAnswered fetched) ids
            ⊎ Admits (group_rows G F sorted_fetched allow inc internal fetched sec ids).1)
  unfolding group_rows
  group_rows-Worsens allow inc internal fetched sec [] = (omega arith, inl tt)
  group_rows-Worsens allow inc internal fetched sec (id ∷ ids) =
      let sec' = (group_row G F sorted_fetched allow inc internal fetched sec id).1 in
      let (w, a) = group_row-Worsens allow inc internal fetched sec id in
      let (w', b) = group_rows-Worsens allow inc internal fetched sec' ids in
      (
        omega (arith, w, w'),
        elim a [
          | inr x ↦ inr (omega (arith, x, w'))
          | inl x ↦ elim b [ inl y ↦ inl (x, y) | inr y ↦ inr y ]
        ],
      )

  -- The groups of the listing are reported one by one, in their order: one that the answer misses has no
  -- row, one that was refused has a row with its error code and no list of offsets, and any other has a
  -- row with exactly the offsets of the topics that the selection covers, in the answer's order. Unless
  -- every group was answered for without an error the section is at least `partial`.
  pub collect_offsets-Reports :
      (client : List String → List (String × FetchResponse GoError F)) (at until : ℕ) (lim : Limits)
      (allow : String → Bool) (inc : Bool) (internal : List (String × Bool)) (ids : List String)
      (list_err : Option GoError)
      → Reports allow inc internal
          (client ids)
          ids
          (collect_offsets G F sorted_fetched client at until lim allow inc internal ids list_err).1
        × (All (IsAnswered (client ids)) ids
            ⊎ Admits
                (collect_offsets G F sorted_fetched client at until lim allow inc internal ids
                  list_err).2)
  unfolding collect_offsets stop
  collect_offsets-Reports client at until lim allow inc internal [] list_err = (finished, inl tt)
  collect_offsets-Reports client at until lim allow inc internal (id ∷ ids) list_err =
      let sec = (request G (new_section_at "offsets" at lim) "ListGroups" list_err).0 in
      rw (length-cons_nonzero id ids, collect_offsets)
        (
          group_rows-Reports allow inc internal (client (id ∷ ids)) sec (id ∷ ids),
          (group_rows-Worsens allow inc internal (client (id ∷ ids)) sec (id ∷ ids)).1,
        )
