-- ===== src/Base/Sorting.antt =====
-- Sorting by a test `less`, as an insertion sort: one of the results that Go's sort.Slice and
-- slices.SortFunc may give, and the only one if no two elements are equivalent.
use mathlib.Core.Path.{◌≡◌, refl, sym, subst, ◌∙◌}
use mathlib.Core.Logic.{◌⊎◌, inl, inr}
use mathlib.Core.Bool.{Bool, true, false}
use mathlib.Core.List.{List, [], ◌∷◌}
use mathlib.Core.List.{Permᴰ}
use mathlib.Core.List.Permᴰ
use mathlib.Core.List.Permᴰ.{nil, cons, swap, trans}
use native.Mathlib.Omega.{arith}
use streamsight_agent.Base.Tests.{if◌then◌else◌, Bool-cases}
use streamsight_agent.Base.Lists.{All}

module _ {A : Type 0} where
  unfoldable pub insert_by : (A → A → Bool) → A → List A → List A
  insert_by less x [] = x ∷ []
  insert_by less x (y ∷ ys) =
      let rest = insert_by less x ys in if less y x then y ∷ rest else x ∷ y ∷ ys

  unfoldable pub sort_by : (A → A → Bool) → List A → List A
  unfolding insert_by
  sort_by less [] = []
  sort_by less (x ∷ xs) = insert_by less x (sort_by less xs)

  -- A test that can be sorted by.
  pub record IsOrder (less : A → A → Bool) : Type 0 where
    pub asym : (x y : A) → less x y ≡ true → less y x ≡ false
    pub trans : (x y z : A) → less x y ≡ true → less y z ≡ true → less x z ≡ true

module _ {A : Type 0} (less : A → A → Bool) where
  -- Two elements that the test tells apart.
  abbrev pub AreApart : A → A → Type 0
  AreApart x y = (less x y ≡ true) ⊎ (less y x ≡ true)

  abbrev pub AllApart : List A → Type 0
  AllApart [] = Unit
  AllApart (x ∷ xs) = All (AreApart x) xs × AllApart xs

  insert_by-commutes :
      IsOrder less
      → (x y : A) (zs : List A) → less x y ≡ true
      → insert_by less x (insert_by less y zs) ≡ insert_by less y (insert_by less x zs)
  unfolding insert_by
  insert_by-commutes o x y [] h = ground (arith, h, o.asym x y h)
  insert_by-commutes o x y (z ∷ zs) h =
      ground (arith, h, o.asym x y h, o.trans z x y, insert_by-commutes o x y zs h)

  All-perm : (P : A → Type 0) {xs ys : List A} → Permᴰ xs ys → All P xs → All P ys
  All-perm P nil h = h
  All-perm P (cons e d) (h, hs) = (subst P e h, All-perm P d hs)
  All-perm P (swap e f) (g, (h, hs)) = (subst P f h, (subst P e g, hs))
  All-perm P (trans d e) h = All-perm P e (All-perm P d h)

  swap_apart : (x y : A) → AreApart x y → AreApart y x
  swap_apart x y (inl h) = inr h
  swap_apart x y (inr h) = inl h

  AllApart-perm : {xs ys : List A} → Permᴰ xs ys → AllApart xs → AllApart ys
  AllApart-perm nil h = h
  AllApart-perm (cons {l₂ = l₂} e d) (h, hs) =
      (subst (λ x. All (AreApart x) l₂) e (All-perm _ d h), AllApart-perm d hs)
  AllApart-perm (swap {a = a} {b = b} {b' = b'} {l = l} e f) ((g, gs), (hs, r)) = (
    (
      subst (λ x. AreApart x b') f (subst (λ x. AreApart b x) e (swap_apart a b g)),
      subst (λ x. All (AreApart x) l) f hs,
    ),
    (subst (λ x. All (AreApart x) l) e gs, r),
  )
  AllApart-perm (trans d e) h = AllApart-perm e (AllApart-perm d h)

  -- The sorted list does not depend on the order in which its elements come, if the test tells every
  -- two of them apart.
  pub sort_by-perm :
      IsOrder less
      → {xs ys : List A} → Permᴰ xs ys
      → AllApart xs
      → sort_by less xs ≡ sort_by less ys
  unfolding sort_by
  sort_by-perm o nil h = refl
  sort_by-perm o (cons e d) (h, hs) = rw (e, sort_by-perm o d hs) refl
  sort_by-perm o (swap {a = a} {b = b} {l = l} e f) ((g, gs), hs) = elim g [
    | inl h ↦ rw (sym e, sym f) (insert_by-commutes o a b (sort_by less l) h)
    | inr h ↦ rw (sym e, sym f) (sym (insert_by-commutes o b a (sort_by less l) h))
  ]
  sort_by-perm o (trans d e) h = sort_by-perm o d h ∙ sort_by-perm o e (AllApart-perm d h)

  insert_by-perm : (x : A) (xs : List A) → Permᴰ (x ∷ xs) (insert_by less x xs)
  unfolding insert_by
  insert_by-perm x [] = cons refl nil
  insert_by-perm x (y ∷ ys) = elim (Bool-cases (less y x)) [
    | inl h ↦ rw (h) (trans (swap refl refl) (cons refl (insert_by-perm x ys)))
    | inr h ↦ rw (h) (Permᴰ.refl (x ∷ y ∷ ys))
  ]

  pub sort_by-permutes : (xs : List A) → Permᴰ xs (sort_by less xs)
  unfolding sort_by
  sort_by-permutes [] = nil
  sort_by-permutes (x ∷ xs) =
      trans (cons refl (sort_by-permutes xs)) (insert_by-perm x (sort_by less xs))
