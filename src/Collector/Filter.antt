-- ===== src/Collector/Filter.antt =====
-- internal/collector/filter.go: the selection of names. A name is its bytes. The package regexp is outside
-- the repository, so its functions are parameters.
pub mod Semantics
use streamsight_agent.Base.{
  ℕ, zero, suc, ◌+◌, ◌-◌, Bool, true, false, not, ◌&&◌, Option, none, some, List, [], ◌∷◌, ◌++◌,
  leb, ltb, ◌==◌, if◌then◌else◌, length, take, drop, get_elem?,
}

abbrev pub slash : ℕ
slash = 47

abbrev pub is_slash : Option ℕ → Bool
is_slash none = false
is_slash (some c) = c == slash

-- `regexBody`: the text between the slashes, if the entry is wrapped in two.
unfoldable pub regex_body : List ℕ → Option (List ℕ)
regex_body entry =
    if leb 2 (length entry)
      && (is_slash (get_elem? entry 0) && is_slash (get_elem? entry (length entry - 1)))
    then some (take (length entry - 2) (drop 1 entry))
    else none

-- Two underscores.
unfoldable pub is_internal_group : List ℕ → Bool
is_internal_group [] = false
is_internal_group (a ∷ []) = false
is_internal_group (a ∷ b ∷ rest) = a == 95 && b == 95

-- What the code uses of regexp: `Compile`, `QuoteMeta` and `MatchString`.
pub record Regexps : Type 1 where
  pub Regexp : Type 0
  pub compile : List ℕ → Option Regexp
  pub quote_meta : List ℕ → List ℕ
  pub match_string : Regexp → List ℕ → Bool

module _ (X : Regexps) where
  open X use {Regexp, compile, quote_meta, match_string}

  -- An escaped literal between the anchors.
  abbrev pub anchored : List ℕ → List ℕ
  anchored entry = 94 ∷ quote_meta entry ++ 36 ∷ []

  -- `compilePattern`; `none` is an error.
  unfoldable pub compile_pattern : List ℕ → Option Regexp
  unfolding regex_body
  compile_pattern entry = elim (regex_body entry) [
    | none ↦ compile (anchored entry)
    | some [] ↦ none
    | some (c ∷ body) ↦ compile (c ∷ body)
  ]

  -- `compilePatterns`: the first error ends it.
  unfoldable pub compile_patterns : List (List ℕ) → Option (List Regexp)
  unfolding compile_pattern
  compile_patterns [] = some []
  compile_patterns (entry ∷ list) =
      let rest = compile_patterns list in
      elim (compile_pattern entry) [
        | none ↦ none
        | some re ↦ elim rest [ none ↦ none | some out ↦ some (re ∷ out) ]
      ]

  pub record Filter : Type 0 where
    pub include : List Regexp
    pub exclude : List Regexp

  -- `newFilter`.
  unfoldable pub new_filter : List (List ℕ) → List (List ℕ) → Option Filter
  unfolding compile_patterns
  new_filter include exclude = elim (compile_patterns include) [
    | none ↦ none
    | some inc ↦ elim (compile_patterns exclude) [
      | none ↦ none
      | some exc ↦ some (record { include = inc; exclude = exc })
    ]
  ]

  unfoldable pub match_any : List Regexp → List ℕ → Bool
  match_any [] name = false
  match_any (re ∷ res) name = if match_string re name then true else match_any res name

  -- `allow`; a nil filter allows everything.
  unfoldable pub allow : Option Filter → List ℕ → Bool
  unfolding match_any
  allow none name = true
  allow (some f) name =
      if ltb 0 (length f.include) && not (match_any f.include name)
      then false
      else not (match_any f.exclude name)
