-- ===== src/Collector/Groups/Listing.antt =====
-- The groups and the error that `listGroups` of internal/collector/groups.go hands to the phases.
use streamsight_agent.Base.{
  ◌≡◌, inl, inr, refl, sym, ◌∙◌, Bool, true, false, Option, none, some, List, [], ◌∷◌, ◌++◌, String,
  ℤ, string_ltb, sort_by, sort_by-permutes, Bool-cases, Option-cases, arith,
}
use mathlib.Core.List.{Permᴰ, append_assoc, append-nil}
use streamsight_agent.Collector.GoError.{GoErrors}
use streamsight_agent.Collector.Topics.Selected.{Picks, nothing, keep, leave}
use streamsight_agent.Collector.Groups.{
  ListShard, or_first, names_in, list_shards, list_groups_with_types, keep_groups, list_groups,
}

-- A group that the operator's selection covers.
pub IsWanted : (String → Bool) → (String → Bool) → String → Type 0
IsWanted is_internal allow g = (is_internal g ≡ false) × (allow g ≡ true)

module _ (G : GoErrors) (error_for_code : ℤ → Option G.GoError) where
  open G use {GoError}

  -- What a broker's answer lists, and its error, of the connection or of the answer.
  pub listed_by : ListShard GoError → List String
  listed_by s = elim s.err [
    | some e ↦ []
    | none ↦ elim s.resp [ none ↦ [] | some r ↦ names_in G error_for_code r.groups ]
  ]

  pub error_of : ListShard GoError → Option GoError
  error_of s = elim s.err [
    | some e ↦ some e
    | none ↦ elim s.resp [ none ↦ none | some r ↦ error_for_code r.error_code ]
  ]

  pub all_listed : List (ListShard GoError) → List String
  all_listed [] = []
  all_listed (s ∷ ss) = listed_by s ++ all_listed ss

  pub first_error : List (ListShard GoError) → Option GoError
  first_error [] = none
  first_error (s ∷ ss) = or_first G error_for_code (error_of s) (first_error ss)

  keep_groups-Picks :
      (is_internal allow : String → Bool) (gs : List String)
      → Picks (IsWanted is_internal allow) gs (keep_groups G error_for_code is_internal allow gs)
  unfolding keep_groups IsWanted
  keep_groups-Picks is_internal allow [] = nothing
  keep_groups-Picks is_internal allow (g ∷ gs) =
      let rest = keep_groups-Picks is_internal allow gs in
      elim (Bool-cases (is_internal g)) [
        | inl h ↦ rw (h, keep_groups) (leave (ground (arith, h)) rest)
        | inr h ↦ elim (Bool-cases (allow g)) [
          | inl a ↦ rw (h, a, keep_groups) (keep (h, a) rest)
          | inr a ↦ rw (h, a, keep_groups) (leave (ground (arith, a)) rest)
        ]
      ]

  or_first_assoc :
      (a b c : Option GoError)
      → or_first G error_for_code (or_first G error_for_code a b) c
        ≡ or_first G error_for_code a (or_first G error_for_code b c)
  or_first_assoc none b c = refl
  or_first_assoc (some e) b c = refl

  or_first-none : (a : Option GoError) → or_first G error_for_code a none ≡ a
  or_first-none none = refl
  or_first-none (some e) = refl

  -- The loop over the shards adds up what they list, and keeps the first error.
  list_shards-listed :
      (groups : List String) (types : List (String × String)) (first : Option GoError)
      (ss : List (ListShard GoError))
      → ((list_shards G error_for_code groups types first ss).0 ≡ groups ++ all_listed ss)
        × ((list_shards G error_for_code groups types first ss).2
            ≡ or_first G error_for_code first (first_error ss))
  unfolding list_shards all_listed first_error listed_by error_of
  list_shards-listed groups types first [] = (sym (append-nil groups), sym (or_first-none first))
  list_shards-listed groups types first (s ∷ ss) = elim (Option-cases s.err) [
    | inr (e, h) ↦
        let (a, b) =
          list_shards-listed groups types (or_first G error_for_code first (some e)) ss in
        rw (h, list_shards) (a, b ∙ or_first_assoc first (some e) (first_error ss))
    | inl h ↦ elim (Option-cases s.resp) [
      | inl r ↦ rw (h, r, list_shards) (list_shards-listed groups types first ss)
      | inr (resp, r) ↦
          let (a, b) =
            list_shards-listed (groups ++ names_in G error_for_code resp.groups) _
              (or_first G error_for_code first (error_for_code resp.error_code)) ss in
          rw (h, r, list_shards)
            (
              a ∙ append_assoc groups (names_in G error_for_code resp.groups) (all_listed ss),
              b ∙ or_first_assoc first (error_for_code resp.error_code) (first_error ss),
            )
    ]
  ]

  -- The groups are those that the brokers that answered list, in some fixed order, less the internal ones
  -- and those that the filter refuses; the error is the first broker's that failed.
  list_groups-Picks :
      (is_internal allow : String → Bool) (ss : List (ListShard GoError))
      → ((listed : List String) × Permᴰ (all_listed ss) listed
          × Picks
              (IsWanted is_internal allow)
              listed
              (list_groups G error_for_code is_internal allow ss).0)
        × ((list_groups G error_for_code is_internal allow ss).2 ≡ first_error ss)
  unfolding list_groups list_groups_with_types
  list_groups-Picks is_internal allow ss =
      let (a, b) = list_shards-listed [] [] none ss in
      let groups = (list_shards G error_for_code [] [] none ss).0 in
      (
        (
          sort_by string_ltb groups,
          rw (sym a) (sort_by-permutes string_ltb groups),
          keep_groups-Picks is_internal allow (sort_by string_ltb groups),
        ),
        b,
      )
