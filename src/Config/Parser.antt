-- ===== src/Config/Parser.antt =====
-- internal/config/config.go: the parser, which keeps every problem that it meets. A method returns its value
-- with the problems that it adds, in order; the texts of the messages are left out.
use streamsight_agent.Base.{
  ℕ, Bool, false, not, ◌||◌, Option, none, some, List, [], ◌∷◌, ◌++◌, String, ℤ, leb, ◌⊎◌, inl, inr,
  ◌-◌, ◌==◌, length, take, drop, get_elem?, str_eq, if◌then◌else◌,
}

-- What the code calls of the standard library: strings.TrimSpace, ToLower, Split at commas and EqualFold,
-- time.ParseDuration, strconv.Atoi and ParseBool, regexp.Compile, url.Parse with its scheme and host, and
-- the bytes of a string.
pub record GoLib : Type 0 where
  pub trim_space : String → String
  pub to_lower : String → String
  pub split_commas : String → List String
  pub equal_fold : String → String → Bool
  pub parse_duration : String → Option ℤ
  pub atoi : String → Option ℤ
  pub parse_bool : String → Option Bool
  pub compiles : List ℕ → Bool
  pub parse_url : String → Option (String × String)
  pub bytes_of : String → List ℕ

pub data Problem : Type 0 where
  required : String → Problem
  credentials_required : Problem
  not_one_of : String → String → Problem
  malformed : String → String → Problem
  bad_scheme : String → Problem
  no_host : Problem
  out_of_range : String → ℤ → Problem
  empty_regex : String → String → Problem
  bad_regex : String → String → Problem

-- A value, and the problems on the way to it.
pub record Parsed (A : Type 0) : Type 0 where
  pub value : A
  pub errs : List Problem

-- A value, and the problems of each step on the way to it.
pub record Stepped (A : Type 0) : Type 0 where
  pub value : A
  pub steps : List (List Problem)

-- A problem under a condition.
unfoldable pub when : Bool → Problem → List Problem
when b p = if b then p ∷ [] else []

-- The problems of one step after another.
unfoldable pub in_order : List (List Problem) → List Problem
in_order [] = []
in_order (ps ∷ pss) = ps ++ in_order pss

abbrev pub joined : {A : Type 0} → Stepped A → Parsed A
joined s = record { value = s.value; errs = in_order s.steps }

-- `parser.result`, with what `Load` returns after it.
unfoldable pub result : {A : Type 0} → List Problem → A → List Problem ⊎ A
result [] x = inr x
result (p ∷ ps) x = inl (p ∷ ps)

abbrev pub is_blank : String → Bool
is_blank v = str_eq v ""

abbrev pub group_state_names : List String
group_state_names =
    "Unknown" ∷ "PreparingRebalance" ∷ "CompletingRebalance" ∷ "Stable" ∷ "Dead" ∷ "Empty" ∷ []

unfoldable pub known_level : String → Bool
known_level s =
    str_eq s "debug" || str_eq s "info" || str_eq s "warn" || str_eq s "warning" || str_eq s "error"

unfoldable pub split_parts : (String → String) → List String → List String
split_parts trim [] = []
split_parts trim (part ∷ parts) =
    let rest = split_parts trim parts in
    let text = trim part in if is_blank text then rest else text ∷ rest

abbrev is_slash : Option ℕ → Bool
is_slash none = false
is_slash (some c) = c == 47

module _ (G : GoLib) where
  -- `splitList`.
  unfoldable pub split_list : String → List String
  unfolding split_parts
  split_list v = split_parts G.trim_space (G.split_commas v)

  -- The loop of `canonicalGroupState`.
  unfoldable pub canonical_of : List String → String → Option String
  canonical_of [] s = none
  canonical_of (state ∷ states) s =
      let rest = canonical_of states s in if G.equal_fold s state then some state else rest

  unfoldable pub canonical_group_state : String → Option String
  unfolding canonical_of
  canonical_group_state s = canonical_of group_state_names s

  -- `validatePattern`.
  unfoldable pub validate_pattern : String → String → List Problem
  validate_pattern key entry =
      let bytes = G.bytes_of entry in
      let body = take (length bytes - 2) (drop 1 bytes) in
      if not (leb 2 (length bytes))
        || not (is_slash (get_elem? bytes 0))
        || not (is_slash (get_elem? bytes (length bytes - 1)))
      then []
      else (if length body == 0
          then empty_regex key entry ∷ []
          else (if G.compiles body then [] else bad_regex key entry ∷ []))

  unfoldable pub validate_patterns : String → List String → List Problem
  unfolding validate_pattern
  validate_patterns key [] = []
  validate_patterns key (entry ∷ entries) =
      validate_pattern key entry ++ validate_patterns key entries

  -- The loop over GROUP_STATES, which passes over an entry that it does not know.
  unfoldable pub parse_states : List String → Parsed (List String)
  unfolding canonical_group_state
  parse_states [] = record { value = []; errs = [] }
  parse_states (s ∷ ss) =
      let rest = parse_states ss in
      elim (canonical_group_state s) [
        | none ↦ record { value = rest.value; errs = not_one_of "GROUP_STATES" s ∷ rest.errs }
        | some state ↦ record { value = state ∷ rest.value; errs = rest.errs }
      ]

  module _ (env : String → Option String) where
    -- os.Getenv.
    unfoldable pub getenv : String → String
    getenv key = elim (env key) [ none ↦ "" | some v ↦ v ]

    -- `parser.str`, which does not trim what it returns.
    unfoldable pub str : String → String → String
    str key def = elim (env key) [
      | none ↦ def
      | some v ↦ if is_blank (G.trim_space v) then def else v
    ]

    -- What `duration`, `integer` and `boolean` share: an empty value is the default, and so is, with a
    -- problem, a value that does not parse.
    unfoldable pub parse_with : {A : Type 0} → (String → Option A) → String → A → Parsed A
    unfolding getenv
    parse_with parse key def =
        let v = G.trim_space (getenv key) in
        if is_blank v then record { value = def; errs = [] } else (elim (parse v) [
          | none ↦ record { value = def; errs = malformed key v ∷ [] }
          | some x ↦ record { value = x; errs = [] }
        ])

    abbrev pub duration : String → ℤ → Parsed ℤ
    duration key def = parse_with G.parse_duration key def

    abbrev pub integer : String → ℤ → Parsed ℤ
    integer key def = parse_with G.atoi key def

    abbrev pub boolean : String → Bool → Parsed Bool
    boolean key def = parse_with G.parse_bool key def

    unfoldable pub patterns : String → Parsed (List String)
    unfolding getenv split_list validate_patterns
    patterns key =
        let entries = split_list (getenv key) in
        record { value = entries; errs = validate_patterns key entries }
