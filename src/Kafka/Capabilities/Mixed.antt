-- ===== src/Kafka/Capabilities/Mixed.antt =====
-- Two accounts of an upgrade in flight: the releases on the wire, and the comparison with the first broker.
use streamsight_agent.Base.{
  ◌≡◌, refl, ap, ◌∙◌, ◌+◌, Bool, true, false, List, [], ◌∷◌, ◌++◌, map, String, some, arith, ltb,
  length, length-append, str_eq, string_eq, string_ltb, eq_iff, insert_by, sort_by, All, Bool-cases,
  inl, inr,
}
use streamsight_agent.Kafka.Capabilities.{
  BrokerKeys, BrokerSoftware, Capabilities, fold_capabilities,
}
use streamsight_agent.Kafka.Capabilities.Probe.{unknown_version}
use streamsight_agent.Kafka.Capabilities.Wire.{
  ClusterCapabilities, has_seen, releases, wire, any_differs, mixed_versions,
}

-- A broker whose release the probe could guess.
abbrev pub IsGuessed : BrokerKeys → Type 0
IsGuessed b = str_eq b.version unknown_version ≡ false

length-insert_by :
    {A : Type 0} (less : A → A → Bool) (x : A) (xs : List A)
    → length (insert_by less x xs) ≡ length xs + 1
unfolding insert_by
length-insert_by less x [] = ground arith
length-insert_by less x (y ∷ ys) = ground (arith, length-insert_by less x ys)

length-sort_by :
    {A : Type 0} (less : A → A → Bool) (xs : List A) → length (sort_by less xs) ≡ length xs
unfolding sort_by
length-sort_by less [] = refl
length-sort_by less (x ∷ xs) =
    ground (arith, length-insert_by less x (sort_by less xs), length-sort_by less xs)

abbrev software : BrokerKeys → BrokerSoftware
software b = record { node_id = b.node_id; version = b.version }

abbrev are_mixed : List String → Bool
are_mixed versions = ltb 1 (length versions)

module _ (b : BrokerKeys) (bs : List BrokerKeys) (known : IsGuessed b) where
  releases-seen :
      (seen : List String)
      → has_seen b.version seen ≡ true
      → releases (b ∷ bs) seen ≡ releases bs seen
  unfolding releases
  releases-seen seen h = rw (known, h) refl

  releases-new :
      (seen : List String)
      → has_seen b.version seen ≡ false
      → releases (b ∷ bs) seen ≡ releases bs (seen ++ b.version ∷ [])
  unfolding releases
  releases-new seen h = rw (known, h) refl

releases-stay_mixed :
    (bs : List BrokerKeys) (seen : List String)
    → All IsGuessed bs
    → are_mixed seen ≡ true
    → are_mixed (releases bs seen) ≡ true
unfolding releases
releases-stay_mixed [] seen known h = h
releases-stay_mixed (b ∷ bs) seen (k, ks) h = elim (Bool-cases (has_seen b.version seen)) [
  | inl old ↦ ap are_mixed (releases-seen b bs k seen old) ∙ releases-stay_mixed bs seen ks h
  | inr new ↦
      ap are_mixed (releases-new b bs k seen new)
      ∙ releases-stay_mixed bs (seen ++ b.version ∷ []) ks
          (ground (arith, h, length-append seen (b.version ∷ [])))
]

has_seen-one : (v w : String) → has_seen v (w ∷ []) ≡ str_eq v w
unfolding has_seen
has_seen-one v w = ground (arith, eq_iff v w, eq_iff w v)

releases-mixed :
    (v : String) (bs : List BrokerKeys)
    → All IsGuessed bs
    → are_mixed (releases bs (v ∷ [])) ≡ any_differs v (map software bs)
unfolding releases any_differs
releases-mixed v [] known = refl
releases-mixed v (b ∷ bs) (k, ks) = elim (Bool-cases (str_eq b.version v)) [
  | inl same ↦
      ap are_mixed (releases-seen b bs k (v ∷ []) (has_seen-one b.version v ∙ same))
      ∙ rw same (releases-mixed v bs ks)
  | inr other ↦
      ap are_mixed (releases-new b bs k (v ∷ []) (has_seen-one b.version v ∙ other))
      ∙ rw other (releases-stay_mixed bs (v ∷ b.version ∷ []) ks refl)
]

str_eq_refl : (v : String) → str_eq v v ≡ true
str_eq_refl v = (eq_iff v v).1 refl

wire_mixed :
    (c : Capabilities)
    → are_mixed (sort_by string_ltb (releases c.probed [])) ≡ are_mixed (releases c.probed [])
wire_mixed c = ap (λ n. ltb 1 n) (length-sort_by string_ltb (releases c.probed []))

releases-any_differs :
    (bs : List BrokerKeys)
    → All IsGuessed bs
    → are_mixed (releases bs []) ≡ mixed_versions (fold_capabilities bs)
unfolding mixed_versions fold_capabilities any_differs has_seen releases
releases-any_differs [] known = refl
releases-any_differs (b ∷ bs) (k, ks) =
    ap are_mixed (releases-new b bs k [] refl)
    ∙ releases-mixed b.version bs ks
    ∙ rw (str_eq_refl b.version) refl

-- If the probe could guess the release of every broker, the wire marks the cluster as mixed exactly if
-- some broker differs from the first in its release.
pub wire-mixed_versions :
    (bs : List BrokerKeys)
    → All IsGuessed bs
    → (w : ClusterCapabilities) × (wire (some (fold_capabilities bs)) ≡ some w)
      × (w.mixed ≡ mixed_versions (fold_capabilities bs))
unfolding wire fold_capabilities
wire-mixed_versions bs known =
    (_, refl, wire_mixed (fold_capabilities bs) ∙ releases-any_differs bs known)
