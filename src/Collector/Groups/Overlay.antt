-- ===== src/Collector/Groups/Overlay.antt =====
-- What the overlay of internal/collector/groups.go leaves as the classic describe shaped it.
use streamsight_agent.Base.{
  ◌≡◌, ◌⊎◌, inl, inr, refl, Bool, true, not, ◌||◌, Option, List, [], ◌∷◌, map, String, length, ◌==◌,
  ltb, lookup, string_eq, if◌then◌else◌, Forall₂, Bool-cases, Option-cases, arith,
}
use streamsight_agent.Collector.GoError.{GoErrors}
use streamsight_agent.Collector.Section.{Section}
use streamsight_agent.Collector.Request.{request_partial}
use streamsight_agent.Collector.Groups.{
  GroupMember, GroupMetrics, ConsumerGroupMember, DescribedConsumerGroup, by_id, apply_member,
  apply_consumer_group, overlay_groups, enrich_consumer_groups,
}

-- A member that kept what the classic describe said of it: it has a new epoch, regular expression and
-- target assignment, and of the assignment and the subscription only what was empty was filled in.
pub IsKept : GroupMember → GroupMember → Type 0
IsKept before after =
    (after ≡ record before {
      member_epoch = after.member_epoch;
      subscribed_topic_regex = after.subscribed_topic_regex;
      target_assignment = after.target_assignment;
      subscribed_topics = after.subscribed_topics;
      assignment = after.assignment;
    })
    × ((before.assignment ≡ []) ⊎ (after.assignment ≡ before.assignment))
    × ((before.subscribed_topics ≡ []) ⊎ (after.subscribed_topics ≡ before.subscribed_topics))

-- A group that kept what the classic describe said of it but for the two epochs, the assignor and the
-- members, who kept what it said of them.
pub IsOverlaid : GroupMetrics → GroupMetrics → Type 0
IsOverlaid before after =
    (after ≡ record before {
      group_epoch = after.group_epoch;
      assignment_epoch = after.assignment_epoch;
      assignor = after.assignor;
      members = after.members;
    })
    × Forall₂ IsKept before.members after.members

length-zero : {A : Type 0} (xs : List A) → (length xs == 0) ≡ true → xs ≡ []
length-zero [] h = refl
length-zero (x ∷ xs) h = ground (arith, h)

if-filled : {A : Type 0} (xs ys : List A) → (xs ≡ []) ⊎ ((if length xs == 0 then ys else xs) ≡ xs)
if-filled xs ys = elim (Bool-cases (length xs == 0)) [
  | inl h ↦ inl (length-zero xs h)
  | inr h ↦ inr (rw (h) refl)
]

apply_member-IsKept :
    (m : List (String × ConsumerGroupMember)) (gm : GroupMember) → IsKept gm (apply_member m gm)
unfolding apply_member IsKept
apply_member-IsKept m gm = elim (Option-cases (lookup gm.member_id m)) [
  | inl h ↦ rw (h, apply_member) (refl, inr refl, inr refl)
  | inr (x, h) ↦
      rw (h, apply_member) (refl, if-filled gm.assignment _, if-filled gm.subscribed_topics _)
]

members-IsKept :
    (m : List (String × ConsumerGroupMember)) (gms : List GroupMember)
    → Forall₂ IsKept gms (map (apply_member m) gms)
members-IsKept m [] = tt
members-IsKept m (gm ∷ gms) = (apply_member-IsKept m gm, members-IsKept m gms)

members_same : (gms : List GroupMember) → Forall₂ IsKept gms gms
unfolding IsKept
members_same [] = tt
members_same (gm ∷ gms) = ((refl, inr refl, inr refl), members_same gms)

module _ (G : GoErrors) where
  open G use {GoError}

  same_group : (gm : GroupMetrics) → IsOverlaid gm gm
  unfolding IsOverlaid
  same_group gm = (refl, members_same gm.members)

  overlay_groups-IsOverlaid :
      (described : List (String × DescribedConsumerGroup GoError)) (gms : List GroupMetrics)
      → Forall₂ IsOverlaid gms (overlay_groups G described gms)
  unfolding overlay_groups apply_consumer_group IsOverlaid
  overlay_groups-IsOverlaid described [] = tt
  overlay_groups-IsOverlaid described (gm ∷ gms) =
      let rest = overlay_groups-IsOverlaid described gms in
      elim (Option-cases (lookup gm.id described)) [
        | inl h ↦ rw (h, overlay_groups) (same_group gm, rest)
        | inr (d, h) ↦ elim (Option-cases d.err) [
          | inr (e, f) ↦ rw (h, overlay_groups, f) (same_group gm, rest)
          | inl f ↦
              rw (h, overlay_groups, f)
                ((refl, members-IsKept (by_id [] d.members) gm.members), rest)
        ]
      ]

  same_groups : (gms : List GroupMetrics) → Forall₂ IsOverlaid gms gms
  same_groups [] = tt
  same_groups (gm ∷ gms) = (same_group gm, same_groups gms)

  -- The overlay keeps the groups and their members in number and order, and every field of them as the
  -- classic describe shaped it, except a group's two epochs and its assignor, and a member's epoch,
  -- regular expression, target assignment, and an assignment or a subscription that was empty.
  pub enrich_consumer_groups-IsOverlaid :
      (enabled : Bool)
      (client : List String → List (String × DescribedConsumerGroup GoError) × Option GoError)
      (sec : Section) (gms : List GroupMetrics)
      → Forall₂ IsOverlaid gms (enrich_consumer_groups G enabled client sec gms).0
  unfolding enrich_consumer_groups
  enrich_consumer_groups-IsOverlaid enabled client sec gms =
      let answer = client (map (λ g. g.id) gms) in
      let asked =
        request_partial G sec "ConsumerGroupDescribe" answer.1 (ltb 0 (length answer.0)) in
      elim (Bool-cases (not enabled || length gms == 0)) [
        | inl h ↦ rw (h, enrich_consumer_groups) (same_groups gms)
        | inr h ↦ elim (Bool-cases asked.1) [
          | inl u ↦ rw (h, u, enrich_consumer_groups) (overlay_groups-IsOverlaid answer.0 gms)
          | inr u ↦ rw (h, u, enrich_consumer_groups) (same_groups gms)
        ]
      ]
