-- ===== src/Collector/Configs/BrokerIds.antt =====
-- `brokerIDOf` of internal/collector/configs.go against the decimal numerals.
use streamsight_agent.Base.{
  ℕ, zero, suc, ◌+◌, ◌-◌, ◌*◌, ◌/◌, ◌%◌, ◌^◌, ◌≡◌, ◌<◌, inl, inr, refl, ap, ◌∙◌, Bool, true, false,
  ◌||◌, some, List, [], ◌∷◌, ◌++◌, pos, ltb, if◌then◌else◌, Bool-cases, arith,
}
use streamsight_agent.Collector.Configs.{broker_id_loop, broker_id_of, signed_int32}

abbrev digit : ℕ → ℕ
digit d = 48 + d

-- The decimal numeral of a number, with enough rounds for its digits.
pub numeral_in : ℕ → ℕ → List ℕ
numeral_in zero n = []
numeral_in (suc rounds) n =
    let rest = numeral_in rounds (n / 10) in
    if ltb n 10 then digit n ∷ [] else rest ++ digit (n % 10) ∷ []

-- A number has fewer digits than its successor counts.
pub numeral : ℕ → List ℕ
numeral n = numeral_in (suc n) n

abbrev is_no_digit : ℕ → Bool
is_no_digit r = ltb r 48 || ltb 57 r

is_no_digit-digit : (d : ℕ) → d < 10 → is_no_digit (digit d) ≡ false
is_no_digit-digit d h = ground (arith, h)

loop-append :
    (id : ℕ) (rs : List ℕ) (d : ℕ) (v : ℕ)
    → d < 10
    → broker_id_loop id rs ≡ some v
    → broker_id_loop id (rs ++ digit d ∷ []) ≡ some ((v * 10 + d) % 2 ^ 32)
unfolding broker_id_loop
loop-append id [] d v h e =
    let same : digit d - 48 ≡ d = omega arith in
    let here : id ≡ v = ground (arith, e) in rw (is_no_digit-digit d h, same, here) refl
loop-append id (r ∷ rs) d v h e = elim (Bool-cases (is_no_digit r)) [
  | inl b ↦ ground (arith, b, e)
  | inr b ↦ rw (b) (loop-append ((id * 10 + (r - 48)) % 2 ^ 32) rs d v h (step b e))
]
  where
    step :
        is_no_digit r ≡ false
        → broker_id_loop id (r ∷ rs) ≡ some v
        → broker_id_loop ((id * 10 + (r - 48)) % 2 ^ 32) rs ≡ some v
    step b x = ground (arith, b, x)

loop-numeral :
    (rounds n : ℕ) → n < rounds → n < 2 ^ 32 → broker_id_loop 0 (numeral_in rounds n) ≡ some n
unfolding broker_id_loop numeral_in
loop-numeral zero n h b = absurd (omega (arith, h))
loop-numeral (suc rounds) n h b = elim (Bool-cases (ltb n 10)) [
  | inl s ↦
      let same : digit n - 48 ≡ n = omega arith in
      rw (s, is_no_digit-digit n (ground (arith, s)), same) (ap some (omega (arith, b)))
  | inr s ↦ rw (s) (
      loop-append 0 (numeral_in rounds (n / 10)) (n % 10) (n / 10) (omega arith)
        (loop-numeral rounds (n / 10) (ground (arith, s, h)) (omega (arith, b)))
      ∙ ap some (omega (arith, b)))
]

abbrev is_empty : List ℕ → Bool
is_empty [] = true
is_empty (r ∷ rs) = false

append-nonempty : (rs : List ℕ) (d : ℕ) → is_empty (rs ++ d ∷ []) ≡ false
append-nonempty [] d = refl
append-nonempty (r ∷ rs) d = refl

numeral-nonempty : (rounds n : ℕ) → is_empty (numeral_in (suc rounds) n) ≡ false
unfolding numeral_in
numeral-nonempty rounds n = elim (Bool-cases (ltb n 10)) [
  | inl s ↦ rw (s) refl
  | inr s ↦ rw (s) (append-nonempty (numeral_in rounds (n / 10)) (digit (n % 10)))
]

broker_id_of-loop :
    (rs : List ℕ) (v : ℕ)
    → is_empty rs ≡ false
    → broker_id_loop 0 rs ≡ some v
    → broker_id_of rs ≡ signed_int32 v
unfolding broker_id_of
broker_id_of-loop [] v n h = ground (arith, n)
broker_id_of-loop (r ∷ rs) v n h = rw (h, broker_id_of) refl

signed_int32-small : (n : ℕ) → n < 2 ^ 31 → signed_int32 n ≡ pos n
signed_int32-small n h =
    let same : n % 2 ^ 32 ≡ n = omega (arith, h) in
    let small : ltb n (2 ^ 31) ≡ true = ground (arith, h) in rw (same, small) refl

-- A broker's decimal id is read back, if it is an int32.
pub broker_id_of-numeral : (n : ℕ) → n < 2 ^ 31 → broker_id_of (numeral n) ≡ pos n
unfolding numeral
broker_id_of-numeral n h =
    broker_id_of-loop (numeral n) n (numeral-nonempty n n)
      (loop-numeral (suc n) n (omega arith) (omega (arith, h)))
    ∙ signed_int32-small n h
