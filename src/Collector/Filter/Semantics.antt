-- ===== src/Collector/Filter/Semantics.antt =====
-- What a configured selection means for a name.
use streamsight_agent.Base.{
  ℕ, suc, ◌≡◌, refl, sym, ◌∙◌, ap, Bool, true, false, not, ◌&&◌, ◌||◌, none, some, List, [], ◌∷◌,
  ◌==◌, length, take, get_elem?, Option, All, if◌then◌else◌, Bool-cases, arith, Option-cases, inl,
  inr, subst,
}
use streamsight_agent.Collector.Filter.{
  is_slash, regex_body, Regexps, anchored, compile_pattern, compile_patterns, Filter, new_filter,
  match_any, allow,
}

abbrev pub same_bytes : List ℕ → List ℕ → Bool
same_bytes [] [] = true
same_bytes [] (b ∷ bs) = false
same_bytes (x ∷ xs) [] = false
same_bytes (x ∷ xs) (b ∷ bs) = x == b && same_bytes xs bs

-- The text before a last slash.
pub before_slash : List ℕ → Option (List ℕ)
before_slash [] = none
before_slash (c ∷ []) = if c == 47 then some [] else none
before_slash (c ∷ d ∷ rest) = elim (before_slash (d ∷ rest)) [
  | none ↦ none
  | some body ↦ some (c ∷ body)
]

-- The text between a first slash and a last one.
pub between_slashes : List ℕ → Option (List ℕ)
between_slashes [] = none
between_slashes (c ∷ rest) = if c == 47 then before_slash rest else none

before_slash_lem :
    (c : ℕ) (rest : List ℕ)
    → before_slash (c ∷ rest) ≡ (
        if is_slash (get_elem? (c ∷ rest) (length rest))
        then some (take (length rest) (c ∷ rest))
        else none)
unfolding before_slash
before_slash_lem c [] = refl
before_slash_lem c (d ∷ rest) = elim (Bool-cases (is_slash (get_elem? (d ∷ rest) (length rest)))) [
  | inl h ↦ ground (arith, h, before_slash_lem d rest)
  | inr h ↦ ground (arith, h, before_slash_lem d rest)
]

-- The code's test of the ends agrees with the reading from the front.
regex_body_lem : (entry : List ℕ) → regex_body entry ≡ between_slashes entry
unfolding regex_body between_slashes before_slash
regex_body_lem [] = refl
regex_body_lem (c ∷ []) = ground arith
regex_body_lem (c ∷ d ∷ rest) = elim (Bool-cases (c == 47)) [
  | inl h ↦ ground (arith, h, before_slash_lem d rest)
  | inr h ↦ ground (arith, h)
]

module _ (X : Regexps) where
  open X use {Regexp, compile, match_string}

  -- The documentation of regexp: of texts in UTF-8, as utf8.Valid tells, a quoted text is a pattern for
  -- the text itself, so that between the anchors it matches that text alone. (Of other texts it
  -- reads each byte that is not UTF-8 as U+FFFD, and so confuses them.)
  abbrev pub QuotesLiterals : (List ℕ → Bool) → Type 0
  QuotesLiterals valid =
      (s : List ℕ) (re : Regexp)
      → compile (anchored X s) ≡ some re
      → valid s ≡ true
      → (name : List ℕ) → valid name ≡ true
      → match_string re name ≡ same_bytes s name

  -- What an entry means: a literal is the name itself, and a text between slashes is a pattern.
  abbrev pub admits : List ℕ → List ℕ → Bool
  admits entry name = elim (between_slashes entry) [
    | none ↦ same_bytes entry name
    | some body ↦ elim (compile body) [ none ↦ false | some re ↦ match_string re name ]
  ]

  abbrev pub any_admits : List (List ℕ) → List ℕ → Bool
  any_admits [] name = false
  any_admits (entry ∷ list) name = admits entry name || any_admits list name

  compile_literal :
      (entry : List ℕ)
      → regex_body entry ≡ none
      → compile_pattern X entry ≡ compile (anchored X entry)
  unfolding compile_pattern
  compile_literal entry e = ground (arith, e)

  admits_literal :
      (entry name : List ℕ) → regex_body entry ≡ none → admits entry name ≡ same_bytes entry name
  admits_literal entry name e =
      let e' : between_slashes entry ≡ none = sym (regex_body_lem entry) ∙ e in ground (arith, e')

  admits_pattern :
      (entry name : List ℕ) (body : List ℕ) (re : Regexp)
      → regex_body entry ≡ some body
      → compile_pattern X entry ≡ some re
      → admits entry name ≡ match_string re name
  unfolding compile_pattern
  admits_pattern entry name [] re e f = absurd (ground (arith, e, f))
  admits_pattern entry name (c ∷ body) re e f =
      let e' : between_slashes entry ≡ some (c ∷ body) = sym (regex_body_lem entry) ∙ e in
      ground (arith, e, e', f)

  compile_pattern-admits :
      (valid : List ℕ → Bool) (entry name : List ℕ) (re : Regexp)
      → QuotesLiterals valid
      → valid entry ≡ true
      → valid name ≡ true
      → compile_pattern X entry ≡ some re
      → match_string re name ≡ admits entry name
  compile_pattern-admits valid entry name re quotes v w f = elim (Option-cases (regex_body entry)) [
    | inl literal ↦
        quotes entry re (sym (compile_literal entry literal) ∙ f) v name w
        ∙ sym (admits_literal entry name literal)
    | inr (body, pattern) ↦ sym (admits_pattern entry name body re pattern f)
  ]

  -- A list that compiles is that of its first entry and of the rest.
  compile_patterns-cons :
      (entry : List ℕ) (list : List (List ℕ)) (res : List Regexp)
      → compile_patterns X (entry ∷ list) ≡ some res
      → (re : Regexp) × (out : List Regexp) × (compile_pattern X entry ≡ some re)
        × (compile_patterns X list ≡ some out)
        × (res ≡ re ∷ out)
  unfolding compile_patterns
  compile_patterns-cons entry list res e = elim (Option-cases (compile_pattern X entry)) [
    | inl bad ↦ absurd (ground (arith, e, bad))
    | inr (re, f) ↦ elim (Option-cases (compile_patterns X list)) [
      | inl bad ↦ absurd (ground (arith, e, f, bad))
      | inr (out, g) ↦ (re, out, f, g, ground (arith, e, f, g))
    ]
  ]

  compile_patterns-any_admits :
      (valid : List ℕ → Bool) (list : List (List ℕ)) (name : List ℕ) (res : List Regexp)
      → QuotesLiterals valid
      → All (λ entry. valid entry ≡ true) list
      → valid name ≡ true
      → compile_patterns X list ≡ some res
      → (match_any X res name ≡ any_admits list name) × (length res ≡ length list)
  unfolding compile_patterns match_any
  compile_patterns-any_admits valid [] name [] quotes vs w e = (refl, refl)
  compile_patterns-any_admits valid [] name (r ∷ rs) quotes vs w e = absurd (ground (arith, e))
  compile_patterns-any_admits valid (entry ∷ list) name res quotes (v, vs) w e =
      let (re, out, f, g, same) = compile_patterns-cons entry list res e in
      let (any, len) = compile_patterns-any_admits valid list name out quotes vs w g in
      subst
        (λ l.
          (match_any X l name ≡ any_admits (entry ∷ list) name)
          × (length l ≡ length (entry ∷ list)))
        (sym same)
        (ground (arith, compile_pattern-admits valid entry name re quotes v w f, any), ap suc len)

  -- Where regexp quotes literals as documented, and the entries and the name are in UTF-8, a filter that
  -- compiles allows exactly the names that some include entry admits, or all when there is none,
  -- except those that an exclude entry admits; a literal entry admits the name of just its bytes, and
  -- an entry that is a text between two slashes what the text matches as a pattern.
  pub new_filter-allow :
      (valid : List ℕ → Bool) (include exclude : List (List ℕ)) (name : List ℕ) (f : Filter X)
      → QuotesLiterals valid
      → All (λ entry. valid entry ≡ true) include
      → All (λ entry. valid entry ≡ true) exclude
      → valid name ≡ true
      → new_filter X include exclude ≡ some f
      → allow X (some f) name
        ≡ ((length include == 0 || any_admits include name) && not (any_admits exclude name))
  unfolding new_filter allow
  new_filter-allow valid include exclude name f quotes vi vx w e =
      elim (Option-cases (compile_patterns X include)) [
        | inl bad ↦ absurd (ground (arith, e, bad))
        | inr (inc, i) ↦ elim (Option-cases (compile_patterns X exclude)) [
          | inl bad ↦ absurd (ground (arith, e, i, bad))
          | inr (exc, x) ↦
              let (any, len) = compile_patterns-any_admits valid include name inc quotes vi w i in
              let (none_of, len') =
                compile_patterns-any_admits valid exclude name exc quotes vx w x in
              let built : f ≡ record { include = inc; exclude = exc } = ground (arith, e, i, x) in
              subst
                (λ g. allow X (some g) name ≡ (
                  (length include == 0 || any_admits include name)
                  && not (any_admits exclude name)))
                (sym built) (ground (arith, any, len, none_of))
        ]
      ]
