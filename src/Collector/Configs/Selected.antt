-- ===== src/Collector/Configs/Selected.antt =====
-- What `selectConfigs` of internal/collector/configs.go lets out.
use streamsight_agent.Base.{
  false, ◌≡◌, ◌⊎◌, inl, inr, ◌↔◌, refl, sym, ap, ◌∙◌, str_eq, eq_iff, length-cons_nonzero, true,
  none, some, List, [], ◌∷◌, map, String, lookup, insert, lookup-insert, lookup-insert_cases,
  string_eq, All, Bool-cases, Option-cases, arith,
}
use streamsight_agent.Collector.Wire.{ConfigEntry}
use streamsight_agent.Collector.Topics.{is_some}
use streamsight_agent.Collector.Topics.Selected.{Picks, nothing, keep, leave}
use streamsight_agent.Collector.Configs.{
  Config, strip_sensitive, by_key, config_entry, pick_configs, select_configs,
}

-- An entry whose value is withheld if it is sensitive.
pub IsSafe : ConfigEntry → Type 0
IsSafe c = (c.sensitive ≡ false) ⊎ (c.value ≡ none)

-- Every entry of the map stands under its own key, and is one of the list.
IsKeyed : List (String × Config) → Type 0
IsKeyed m = (k : String) (c : Config) → lookup k m ≡ some c → c.key ≡ k

by_key-IsKeyed : (m : List (String × Config)) (cs : List Config) → IsKeyed m → IsKeyed (by_key m cs)
unfolding by_key IsKeyed
by_key-IsKeyed m [] h = h
by_key-IsKeyed m (c ∷ cs) h = by_key-IsKeyed (insert c.key c m) cs inserted
  where
    inserted : IsKeyed (insert c.key c m)
    inserted k d e = elim (lookup-insert_cases c.key k c d m e) [
      | inl (p, q) ↦ ap (λ x. x.key) (sym q) ∙ p
      | inr (b, q) ↦ h k d q
    ]

-- The keys that the map has.
IsHeld : List (String × Config) → String → Type 0
IsHeld m k = is_some (lookup k m) ≡ true

pick_configs-Picks :
    (m : List (String × Config)) (keys : List String)
    → IsKeyed m
    → Picks (IsHeld m) keys (map (λ c. c.key) (pick_configs m keys))
      × All IsSafe (pick_configs m keys)
unfolding pick_configs config_entry strip_sensitive IsKeyed IsHeld IsSafe
pick_configs-Picks m [] h = (nothing, tt)
pick_configs-Picks m (key ∷ keys) h =
    let (p, s) = pick_configs-Picks m keys h in
    elim (Option-cases (lookup key m)) [
      | inl e ↦ rw (e, pick_configs) (leave (ground (arith, e)) p, s)
      | inr (c, e) ↦
          rw (e, pick_configs, h key c e)
            (
              keep (ground (arith, e)) p,
              (elim (Bool-cases c.sensitive) [ inl t ↦ inr (rw (t) refl) | inr t ↦ inl t ], s),
            )
    ]

-- A described configuration has this key.
pub HasKey : List Config → String → Type 0
HasKey [] k = ⊥
HasKey (c ∷ cs) k = (c.key ≡ k) ⊎ HasKey cs k

by_key-IsHeld :
    (m : List (String × Config)) (cs : List Config) (k : String)
    → IsHeld (by_key m cs) k ↔ (IsHeld m k ⊎ HasKey cs k)
unfolding by_key IsHeld HasKey
by_key-IsHeld m [] k = (λ x. inl x, λ x. elim x [ inl y ↦ y | inr y ↦ absurd y ])
by_key-IsHeld m (c ∷ cs) k =
    let r = by_key-IsHeld (insert c.key c m) cs k in
    let l = lookup-insert c.key k c m in
    elim (Bool-cases (str_eq c.key k)) [
      | inl b ↦ (λ x. inr (inl ((eq_iff c.key k).0 b)), λ x. r.1 (inl (ground (arith, b, l))))
      | inr b ↦ (
        λ x. elim (r.0 x) [ inl y ↦ inl (ground (arith, b, l, y)) | inr y ↦ inr (inr y) ],
        λ x. elim x [
          | inl y ↦ r.1 (inl (ground (arith, b, l, y)))
          | inr (inl y) ↦ ground (arith, b, y, eq_iff c.key k)
          | inr (inr y) ↦ r.1 (inr y)
        ],
      )
    ]

Picks-map :
    {A : Type 0} {P Q : A → Type 0}
    → ((x : A) → P x ↔ Q x)
    → {xs ys : List A} → Picks P xs ys
    → Picks Q xs ys
Picks-map h nothing = nothing
Picks-map h (keep {x = x} p r) = keep ((h x).0 p) (Picks-map h r)
Picks-map h (leave {x = x} n r) = leave (λ q. n ((h x).1 q)) (Picks-map h r)

nothing-IsHeld : (k : String) → ¬ IsHeld [] k
unfolding IsHeld lookup
nothing-IsHeld k x = ground (arith, x)

nothing-IsKeyed : IsKeyed []
unfolding IsKeyed lookup
nothing-IsKeyed k c e = ground (arith, e)

no_keys : (keys : List String) → Picks (HasKey []) keys []
unfolding HasKey
no_keys [] = nothing
no_keys (k ∷ keys) = leave (λ x. x) (no_keys keys)

-- The entries have exactly the keys of the allowlist that the broker described, in the allowlist's order,
-- and a sensitive one has no value.
pub select_configs-Picks :
    (cfgs : List Config) (allow : List String)
    → Picks (HasKey cfgs) allow (map (λ c. c.key) (select_configs cfgs allow))
      × All IsSafe (select_configs cfgs allow)
unfolding select_configs
select_configs-Picks [] allow = (no_keys allow, tt)
select_configs-Picks (c ∷ cs) allow =
    let (p, s) =
      pick_configs-Picks (by_key [] (c ∷ cs)) allow (by_key-IsKeyed [] (c ∷ cs) nothing-IsKeyed) in
    rw (length-cons_nonzero c cs, select_configs) (Picks-map held p, s)
  where
    held : (k : String) → IsHeld (by_key [] (c ∷ cs)) k ↔ HasKey (c ∷ cs) k
    held k = (
      λ x. elim ((by_key-IsHeld [] (c ∷ cs) k).0 x) [
        | inl y ↦ absurd (nothing-IsHeld k y)
        | inr y ↦ y
      ],
      λ x. (by_key-IsHeld [] (c ∷ cs) k).1 (inr x),
    )
