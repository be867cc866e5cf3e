-- ===== src/Witnesses/Filters.antt =====
-- The selection of names.
use streamsight_agent.Base.{
  Bool, true, ltb, ℕ, ◌≡◌, refl, not, ◌&&◌, ◌||◌, some, List, [], ◌∷◌, ◌++◌, ◌==◌, length, arith,
  subst,
}
use streamsight_agent.Collector.Filter.{
  Regexps, regex_body, compile_pattern, compile_patterns, Filter, new_filter, allow,
}
use streamsight_agent.Collector.Filter.Semantics.{
  same_bytes, QuotesLiterals, any_admits, new_filter-allow,
}

-- A package in which every pattern between anchors is a literal.
abbrev literals : Regexps
literals = record {
  Regexp = List ℕ;
  compile = some;
  quote_meta = λ s. s;
  match_string = λ re name. same_bytes re (94 ∷ name ++ 36 ∷ []);
}

same_bytes-append :
    (s name : List ℕ) → same_bytes (s ++ 36 ∷ []) (name ++ 36 ∷ []) ≡ same_bytes s name
same_bytes-append [] [] = refl
same_bytes-append [] (b ∷ []) = ground arith
same_bytes-append [] (b ∷ c ∷ name) = ground arith
same_bytes-append (x ∷ []) [] = ground arith
same_bytes-append (x ∷ y ∷ s) [] = ground arith
same_bytes-append (x ∷ s) (b ∷ name) = ground (arith, same_bytes-append s name)

the_value : (a b : List ℕ) → some a ≡ some b → a ≡ b
the_value a b e = ground (arith, e)

-- Bytes of ASCII are UTF-8.
abbrev ascii : List ℕ → Bool
ascii [] = true
ascii (c ∷ s) = ltb c 128 && ascii s

literals-QuotesLiterals : QuotesLiterals literals ascii
literals-QuotesLiterals s re e v name w =
    subst (λ r. same_bytes r (94 ∷ name ++ 36 ∷ []) ≡ same_bytes s name)
      (the_value (94 ∷ s ++ 36 ∷ []) re e) (same_bytes-append s name)

-- One name is included and another excluded.
abbrev filter : Filter literals
filter = record { include = (94 ∷ 7 ∷ 36 ∷ []) ∷ []; exclude = (94 ∷ 8 ∷ 36 ∷ []) ∷ [] }

abbrev included : List (List ℕ)
included = (7 ∷ []) ∷ []

abbrev excluded : List (List ℕ)
excluded = (8 ∷ []) ∷ []

filter_compiles : new_filter literals included excluded ≡ some filter
unfolding new_filter compile_patterns compile_pattern regex_body
filter_compiles = refl

new_filter-allow_example : allow literals (some filter) (7 ∷ []) ≡ (
    (length included == 0 || any_admits literals included (7 ∷ []))
    && not (any_admits literals excluded (7 ∷ [])))
new_filter-allow_example =
    new_filter-allow literals ascii included excluded (7 ∷ []) filter literals-QuotesLiterals
      (refl, tt) (refl, tt) refl filter_compiles
