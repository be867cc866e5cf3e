-- ===== src/Base/Orders.antt =====
-- The orders that the code sorts by: signed integers, texts, and pairs of both.
use mathlib.Core.Path.{◌≡◌, refl, ap, ◌∙◌}
use mathlib.Core.Bool.{Bool, true, false, ◌&&◌, ◌||◌}
use Prim.Native.Nat.{Ordering, compare as compare_ℕ}
use Prim.Native.Char.{Char, code}
use Prim.Native.String.{String, [], ◌∷◌, then as first_of, compare}
use Prim.Native.String.compare
use text.Mathlib.Text.{◌==◌ as str_eq}
use text.Mathlib.TextEquality.{eq_iff}
use native.Mathlib.Omega.{arith}
use streamsight_agent.Base.Tests.{string_ltb, ltb, ◌==◌}
use streamsight_agent.Base.Ints.{ℤ, pos, negsuc, ltb_ℤ, eqb_ℤ, eqb_ℤ_iff}
use streamsight_agent.Base.Sorting.{IsOrder}

ltb_ℤ-asym : (a b : ℤ) → ltb_ℤ a b ≡ true → ltb_ℤ b a ≡ false
ltb_ℤ-asym (pos a) (pos b) h = ground (arith, h)
ltb_ℤ-asym (pos a) (negsuc b) h = ground (arith, h)
ltb_ℤ-asym (negsuc a) (pos b) h = ground (arith, h)
ltb_ℤ-asym (negsuc a) (negsuc b) h = ground (arith, h)

ltb_ℤ_trans : (a b c : ℤ) → ltb_ℤ a b ≡ true → ltb_ℤ b c ≡ true → ltb_ℤ a c ≡ true
ltb_ℤ_trans (pos a) (pos b) (pos c) h k = ground (arith, h, k)
ltb_ℤ_trans (pos a) (pos b) (negsuc c) h k = ground (arith, h, k)
ltb_ℤ_trans (pos a) (negsuc b) c h k = ground (arith, h, k)
ltb_ℤ_trans (negsuc a) (pos b) (pos c) h k = ground (arith, h, k)
ltb_ℤ_trans (negsuc a) (pos b) (negsuc c) h k = ground (arith, h, k)
ltb_ℤ_trans (negsuc a) (negsuc b) (pos c) h k = refl
ltb_ℤ_trans (negsuc a) (negsuc b) (negsuc c) h k = ground (arith, h, k)

abbrev is_less : Ordering → Bool
is_less Ordering.lt = true
is_less Ordering.eq = false
is_less Ordering.gt = false

abbrev is_equal : Ordering → Bool
is_equal Ordering.lt = false
is_equal Ordering.eq = true
is_equal Ordering.gt = false

is_less-then : (o p : Ordering) → is_less (first_of o p) ≡ (is_less o || (is_equal o && is_less p))
is_less-then Ordering.lt p = refl
is_less-then Ordering.eq p = refl
is_less-then Ordering.gt p = refl

string_ltb-cons :
    (c d : Char) (s t : String)
    → string_ltb (c ∷ s) (d ∷ t) ≡ (ltb (code c) (code d) || ((code c == code d) && string_ltb s t))
string_ltb-cons c d s t =
    ap is_less (compare.cons-cons c d s t)
    ∙ is_less-then (compare_ℕ (code c) (code d)) (compare s t)

string_ltb-nil : (s : String) → string_ltb s [] ≡ false
string_ltb-nil [] = ap is_less compare.nil-nil
string_ltb-nil (c ∷ s) = ap is_less (compare.cons-nil c s)

string_ltb-asym : (s t : String) → string_ltb s t ≡ true → string_ltb t s ≡ false
string_ltb-asym s [] h = ground (arith, h, string_ltb-nil s)
string_ltb-asym [] (d ∷ t) h = string_ltb-nil (d ∷ t)
string_ltb-asym (c ∷ s) (d ∷ t) h =
    ground (arith, h, string_ltb-cons c d s t, string_ltb-cons d c t s, string_ltb-asym s t)

string_ltb_trans :
    (s t u : String) → string_ltb s t ≡ true → string_ltb t u ≡ true → string_ltb s u ≡ true
string_ltb_trans s t [] h k = ground (arith, k, string_ltb-nil t)
string_ltb_trans [] t (e ∷ u) h k = ap is_less (compare.nil-cons e u)
string_ltb_trans (c ∷ s) [] (e ∷ u) h k = ground (arith, h, string_ltb-nil (c ∷ s))
string_ltb_trans (c ∷ s) (d ∷ t) (e ∷ u) h k = ground (
  arith,
  h,
  k,
  string_ltb-cons c d s t,
  string_ltb-cons d e t u,
  string_ltb-cons c e s u,
  string_ltb_trans s t u,
)

-- A text and a number, in either order of importance.
abbrev pub number_text_ltb : ℤ × String → ℤ × String → Bool
number_text_ltb (a, s) (b, t) = ltb_ℤ a b || (eqb_ℤ a b && string_ltb s t)

abbrev pub text_number_ltb : String × ℤ → String × ℤ → Bool
text_number_ltb (s, a) (t, b) = string_ltb s t || (str_eq s t && ltb_ℤ a b)

pub number_text_ltb-IsOrder : IsOrder number_text_ltb
number_text_ltb-IsOrder = record {
  asym = λ (a, s) (b, t) h.
      ground (
        arith,
        h,
        ltb_ℤ-asym a b,
        ltb_ℤ-asym b a,
        eqb_ℤ_iff a b,
        eqb_ℤ_iff b a,
        string_ltb-asym s t,
      );
  trans = λ (a, s) (b, t) (c, u) h k. ground (
    arith,
    h,
    k,
    ltb_ℤ_trans a b c,
    eqb_ℤ_iff a b,
    eqb_ℤ_iff b c,
    eqb_ℤ_iff a c,
    string_ltb_trans s t u,
  );
}

pub text_number_ltb-IsOrder : IsOrder text_number_ltb
text_number_ltb-IsOrder = record {
  asym = λ (s, a) (t, b) h.
      ground (
        arith,
        h,
        string_ltb-asym s t,
        string_ltb-asym t s,
        eq_iff s t,
        eq_iff t s,
        ltb_ℤ-asym a b,
      );
  trans = λ (s, a) (t, b) (u, c) h k.
      ground (
        arith,
        h,
        k,
        string_ltb_trans s t u,
        eq_iff s t,
        eq_iff t u,
        eq_iff s u,
        ltb_ℤ_trans a b c,
      );
}
