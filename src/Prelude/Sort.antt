-- ===== src/Prelude/Sort.antt =====
-- `array.sort(compare)`: a stable sort, by insertion. `before a b` says that `a` may stand in front
-- of `b`, which is `compare(a, b) <= 0`.
use Prim.Native.Nat.{suc}
use mathlib.Core.Path.{◌≡◌, refl}
use mathlib.Core.Bool.{Bool}
use mathlib.Core.List.{List, [], ◌∷◌}
use mathlib.Core.Path.{sym, subst, ◌∙◌}
use mathlib.Core.Logic.{inl, inr}
use mathlib.Core.Bool.{true, false}
use mathlib.Core.Option.{Option, none, some}
use mathlib.Core.List.{Memᴰ}
use native.Mathlib.Omega.{arith}
use guardianbot.Prelude.Tests.{if◌then◌else◌, Bool-cases, Option-cases, some-injective, is_some}
use guardianbot.Prelude.Lists.{length, All, All-members, All-mem, filter, any}

module _ {ℓ} {A : Type ℓ} (before : A → A → Bool) where
  unfoldable pub insert_sorted : A → List A → List A
  insert_sorted a [] = a ∷ []
  insert_sorted a (x ∷ xs) =
      let rest = insert_sorted a xs in if before a x then a ∷ x ∷ xs else x ∷ rest

  unfoldable pub sort : List A → List A
  unfolding insert_sorted
  sort [] = []
  sort (x ∷ xs) = insert_sorted x (sort xs)

  length-insert_sorted : (a : A) (xs : List A) → length (insert_sorted a xs) ≡ suc (length xs)
  unfolding insert_sorted
  length-insert_sorted a [] = refl
  length-insert_sorted a (x ∷ xs) = ground (arith, length-insert_sorted a xs)

  pub length-sort : (xs : List A) → length (sort xs) ≡ length xs
  unfolding sort
  length-sort [] = refl
  length-sort (x ∷ xs) = ground (arith, length-insert_sorted x (sort xs), length-sort xs)

  pub All-insert_sorted {κ} :
      (P : A → Type κ) (a : A) (xs : List A)
      → (P a × All P xs → All P (insert_sorted a xs))
        × (All P (insert_sorted a xs) → P a × All P xs)
  unfolding insert_sorted
  All-insert_sorted P a [] = ((λ h. h), (λ h. h))
  All-insert_sorted P a (x ∷ xs) = ground (arith, All-insert_sorted P a xs)

  -- Sorting neither loses nor invents elements, as far as a predicate can tell.
  pub All-sort {κ} :
      (P : A → Type κ) (xs : List A) → (All P xs → All P (sort xs)) × (All P (sort xs) → All P xs)
  unfolding sort
  All-sort P [] = ((λ h. h), (λ h. h))
  All-sort P (x ∷ xs) = (
    (λ h. (All-insert_sorted P x (sort xs)).0 (h.0, (All-sort P xs).0 h.1)),
    (λ h. let (p, q) = (All-insert_sorted P x (sort xs)).1 h in (p, (All-sort P xs).1 q)),
  )

-- `array[0]`
abbrev pub first {ℓ} : {A : Type ℓ} → List A → Option A
first [] = none
first (x ∷ xs) = some x

module _ {ℓ} {A : Type ℓ} (before : A → A → Bool) where
  pub first-sort-none : (xs : List A) → first (sort before xs) ≡ none → xs ≡ []
  first-sort-none [] h = refl
  first-sort-none (x ∷ xs) h = absurd (empty (sort before (x ∷ xs)) h (length-sort before (x ∷ xs)))
    where
      empty : (ys : List A) → first ys ≡ none → ¬ (length ys ≡ suc (length xs))
      empty [] e k = omega arith
      empty (y ∷ ys) e k = cc

  pub first-sort_mem : (xs : List A) (y : A) → first (sort before xs) ≡ some y → Memᴰ y xs
  first-sort_mem xs y h =
      head_of (sort before xs)
        ((All-sort before (λ z. Memᴰ z xs) xs).0 (All-members (λ z. Memᴰ z xs) xs (λ z m. m))) h
    where
      head_of : (ys : List A) → All (λ z. Memᴰ z xs) ys → first ys ≡ some y → Memᴰ y xs
      head_of [] k e = cc
      head_of (z ∷ ys) (m, k) e = subst (λ w. Memᴰ w xs) (some-injective z y e) m

  chosen : A → Option A → A
  chosen a none = a
  chosen a (some x) = if before a x then a else x

  first-insert_sorted :
      (a : A) (xs : List A) → first (insert_sorted before a xs) ≡ some (chosen a (first xs))
  unfolding insert_sorted chosen
  first-insert_sorted a [] = refl
  first-insert_sorted a (x ∷ xs) = ground arith

-- Sorting keeps whether there is a first element.
module _ {ℓ} {A : Type ℓ} (before : A → A → Bool) where
  pub is_some-first-sort : (xs : List A) → is_some (first (sort before xs)) ≡ is_some (first xs)
  unfolding sort chosen
  is_some-first-sort [] = refl
  is_some-first-sort (x ∷ xs) = rw (first-insert_sorted before x (sort before xs))

-- The head of a sorted list stands before every element, where the order is total and transitive on the
-- elements that the list has, those with `P`.
module _ {ℓ κ} {A : Type ℓ} (before : A → A → Bool) (P : A → Type κ)
    (total : (a b : A) → P a → P b → before a b ≡ false → before b a ≡ true)
    (trans : (a b c : A)
      → P a
      → P b
      → P c
      → before a b ≡ true
      → before b c ≡ true
      → before a c ≡ true) where
  reflexive : (a : A) → P a → before a a ≡ true
  reflexive a p = elim (Bool-cases (before a a)) [ inl same ↦ same | inr e ↦ total a a p p e ]

  All-trans :
      (a x : A) (xs : List A)
      → P a
      → P x
      → All P xs
      → before a x ≡ true
      → All (λ y. before x y ≡ true) xs
      → All (λ y. before a y ≡ true) xs
  All-trans a x [] pa px ps h k = tt
  All-trans a x (y ∷ ys) pa px (py, ps) h (p, k) =
      (trans a x y pa px py h p, All-trans a x ys pa px ps h k)

  pub first-sort_least_among :
      (xs : List A) (y : A)
      → All P xs
      → first (sort before xs) ≡ some y
      → All (λ z. before y z ≡ true) xs
  unfolding sort chosen
  first-sort_least_among [] y ps h = tt
  first-sort_least_among (x ∷ xs) y (px, ps) h = elim (Option-cases (first (sort before xs))) [
    | inl e ↦
        let alone : chosen before x none ≡ y = some-injective _ y (
          subst (λ o. some (chosen before x o) ≡ some y) e
            (sym (first-insert_sorted before x (sort before xs)) ∙ h)) in
        subst (λ z. All (λ w. before z w ≡ true) (x ∷ xs)) alone
          (rw (first-sort-none before xs e) (reflexive x px, tt))
    | inr (z, e) ↦
        let pick : chosen before x (some z) ≡ y = some-injective _ y (
          subst (λ o. some (chosen before x o) ≡ some y) e
            (sym (first-insert_sorted before x (sort before xs)) ∙ h)) in
        let pz = All-mem P xs ps (first-sort_mem before xs z e) in
        let least = first-sort_least_among xs z ps e in
        let all_before = λ (v : A). All (λ w. before v w ≡ true) (x ∷ xs) in
        elim (Bool-cases (before x z)) [
          | inl here ↦
              subst all_before (subst (λ b. (if b then x else z) ≡ y) here pick)
                (reflexive x px, All-trans x z xs px pz ps here least)
          | inr there ↦
              subst all_before (subst (λ b. (if b then x else z) ≡ y) there pick)
                (total x z px pz there, least)
        ]
  ]

pub first-sort_least {ℓ} :
    {A : Type ℓ} (before : A → A → Bool)
    (total : (a b : A) → before a b ≡ false → before b a ≡ true)
    (trans : (a b c : A) → before a b ≡ true → before b c ≡ true → before a c ≡ true) (xs : List A)
    (y : A)
    → first (sort before xs) ≡ some y
    → All (λ z. before y z ≡ true) xs
first-sort_least before total trans xs y =
    first-sort_least_among before (λ a. Unit {0}) (λ a b p q. total a b)
      (λ a b c p q r. trans a b c) xs y (All-members _ xs (λ a m. tt))

-- A filter has a first element where some element passes.
pub is_some-first-filter {ℓ} :
    {A : Type ℓ} (p : A → Bool) (xs : List A) → is_some (first (filter p xs)) ≡ any p xs
is_some-first-filter p [] = refl
is_some-first-filter p (x ∷ xs) = ground (arith, is_some-first-filter p xs)
