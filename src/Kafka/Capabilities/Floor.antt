-- ===== src/Kafka/Capabilities/Floor.antt =====
-- The folded answer is the answer of the whole cluster.
use streamsight_agent.Base.{
  ◌≡◌, refl, sym, ◌∙◌, ap, Bool, true, false, not, ◌&&◌, ◌||◌, Option, none, some, List, [], ◌∷◌, ℤ,
  pos, negsuc, eqb_ℤ, eqb_ℤ_iff, ltb_ℤ, if◌then◌else◌, ltb, length, lookup, int_eq, arith,
  Bool-cases, Option-cases, inl, inr, subst,
}
use streamsight_agent.Kafka.Capabilities.{
  KeyFloor, BrokerKeys, probed_keys, max_int16, floor_of, first_floor, fold_floors,
  fold_capabilities, at_least,
}

-- Whether a broker serves the key at the version.
abbrev pub serves : ℤ → ℤ → BrokerKeys → Bool
serves key v b = elim (lookup key b.keys) [ none ↦ false | some most ↦ not (ltb_ℤ most v) ]

abbrev pub all_serve : ℤ → ℤ → List BrokerKeys → Bool
all_serve key v [] = true
all_serve key v (b ∷ bs) = serves key v b && all_serve key v bs

abbrev pub contains : ℤ → List ℤ → Bool
contains key [] = false
contains key (k ∷ ks) = eqb_ℤ k key || contains key ks

abbrev reaches : KeyFloor → ℤ → Bool
reaches f v = f.present && not (ltb_ℤ f.version v)

lower :
    (a b v : ℤ) → not (ltb_ℤ (if ltb_ℤ a b then a else b) v) ≡ (not (ltb_ℤ b v) && not (ltb_ℤ a v))
lower (pos a) (pos b) (pos v) = ground arith
lower (pos a) (pos b) (negsuc v) = ground arith
lower (pos a) (negsuc b) (pos v) = ground arith
lower (pos a) (negsuc b) (negsuc v) = ground arith
lower (negsuc a) (pos b) (pos v) = ground arith
lower (negsuc a) (pos b) (negsuc v) = ground arith
lower (negsuc a) (negsuc b) (pos v) = ground arith
lower (negsuc a) (negsuc b) (negsuc v) = ground arith

-- The floor after one more broker.
abbrev lowered : KeyFloor → BrokerKeys → ℤ → KeyFloor
lowered f b most =
    if ltb_ℤ most f.version
    then record { node_id = b.node_id; version = most; present = true }
    else f

lowered-present :
    (f : KeyFloor) (b : BrokerKeys) (most : ℤ)
    → f.present ≡ true
    → (lowered f b most).present ≡ true
lowered-present f b most p = ground (arith, p)

lowered-reaches :
    (f : KeyFloor) (b : BrokerKeys) (most v : ℤ)
    → f.present ≡ true
    → reaches (lowered f b most) v ≡ (reaches f v && not (ltb_ℤ most v))
lowered-reaches f b most v p = ground (arith, p, lower most f.version v)

floor_stops :
    (key v : ℤ) (f : KeyFloor) (b : BrokerKeys) (bs : List BrokerKeys)
    → lookup key b.keys ≡ none
    → reaches (floor_of key f (b ∷ bs)) v ≡ false
unfolding floor_of
floor_stops key v f b bs e = ground (arith, e)

floor_lowers :
    (key : ℤ) (f : KeyFloor) (b : BrokerKeys) (bs : List BrokerKeys) (most : ℤ)
    → lookup key b.keys ≡ some most
    → floor_of key f (b ∷ bs) ≡ floor_of key (lowered f b most) bs
unfolding floor_of
floor_lowers key f b bs most e = ground (arith, e)

serves-none : (key v : ℤ) (b : BrokerKeys) → lookup key b.keys ≡ none → serves key v b ≡ false
serves-none key v b e = ground (arith, e)

serves-some :
    (key v : ℤ) (b : BrokerKeys) (most : ℤ)
    → lookup key b.keys ≡ some most
    → serves key v b ≡ not (ltb_ℤ most v)
serves-some key v b most e = ground (arith, e)

floor_of-reaches :
    (key v : ℤ) (f : KeyFloor) (bs : List BrokerKeys)
    → f.present ≡ true
    → reaches (floor_of key f bs) v ≡ (reaches f v && all_serve key v bs)
unfolding floor_of
floor_of-reaches key v f [] p = ground arith
floor_of-reaches key v f (b ∷ bs) p = elim (Option-cases (lookup key b.keys)) [
  | inl e ↦ ground (arith, floor_stops key v f b bs e, serves-none key v b e)
  | inr (most, e) ↦
      ap (λ g. reaches g v) (floor_lowers key f b bs most e)
      ∙ ground (
        arith,
        floor_of-reaches key v (lowered f b most) bs (lowered-present f b most p),
        lowered-reaches f b most v p,
        serves-some key v b most e,
      )
]

lookup-fold_floors :
    (key : ℤ) (keys : List ℤ) (bs : List BrokerKeys)
    → contains key keys ≡ true
    → lookup key (fold_floors keys bs) ≡ some (floor_of key (first_floor bs) bs)
unfolding fold_floors lookup
lookup-fold_floors key [] bs h = absurd (ground arith)
lookup-fold_floors key (k ∷ keys) bs h = elim (Bool-cases (eqb_ℤ k key)) [
  | inl same ↦ rw same (ap (λ j. some (floor_of j (first_floor bs) bs)) ((eqb_ℤ_iff k key).0 same))
  | inr other ↦ rw other (lookup-fold_floors key keys bs (ground (arith, h, other)))
]

at_least_found :
    (key v : ℤ) (bs : List BrokerKeys)
    → contains key probed_keys ≡ true
    → at_least (fold_capabilities bs) key v ≡ reaches (floor_of key (first_floor bs) bs) v
unfolding at_least fold_capabilities
at_least_found key v bs probed =
    subst
      (λ (o : Option KeyFloor).
        (elim o [ none ↦ false | some f ↦ reaches f v ])
        ≡ reaches (floor_of key (first_floor bs) bs) v)
      (sym (lookup-fold_floors key probed_keys bs probed)) refl

first_reaches :
    (key v : ℤ) (bs : List BrokerKeys)
    → ltb_ℤ max_int16 v ≡ false
    → reaches (floor_of key (first_floor bs) bs) v ≡ (ltb 0 (length bs) && all_serve key v bs)
unfolding floor_of
first_reaches key v [] fits = refl
first_reaches key v (b ∷ bs) fits =
    floor_of-reaches key v (first_floor (b ∷ bs)) (b ∷ bs) (ground arith) ∙ ground (arith, fits)

-- Of each key that the probe asks for, the folded capabilities say that a version, which is an
-- int16, is served exactly if there is a broker and every broker advertises the key with at least
-- that version.
pub fold_capabilities-at_least :
    (key v : ℤ) (bs : List BrokerKeys)
    → contains key probed_keys ≡ true
    → ltb_ℤ max_int16 v ≡ false
    → at_least (fold_capabilities bs) key v ≡ (ltb 0 (length bs) && all_serve key v bs)
fold_capabilities-at_least key v bs probed fits =
    at_least_found key v bs probed ∙ first_reaches key v bs fits
