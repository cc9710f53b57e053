-- ===== src/Prelude/Sorted.antt =====
-- Sorted lists: `sort` gives one, and counts and sums are those of the list.
use Prim.Native.Nat.{ℕ, zero, suc}
use mathlib.Core.Path.{◌≡◌, refl}
use mathlib.Core.Logic.{inl, inr}
use mathlib.Core.Bool.{Bool, true, false}
use mathlib.Core.List.{List, [], ◌∷◌}
use native.Mathlib.Omega.{arith}
use guardianbot.Prelude.Tests.{Bool-cases}
use guardianbot.Prelude.Lists.{All, length, filter, take, drop}
use guardianbot.Prelude.Sort.{sort, insert_sorted, All-insert_sorted}

module _ {ℓ} {A : Type ℓ} (before : A → A → Bool) where
  -- Each element stands before all that follow it.
  unfoldable pub IsSorted : List A → Type 0
  IsSorted [] = Unit
  IsSorted (x ∷ xs) = All (λ y. before x y ≡ true) xs × IsSorted xs

  length-filter-insert_sorted :
      (p : A → Bool) (a : A) (xs : List A)
      → length (filter p (insert_sorted before a xs)) ≡ length (filter p (a ∷ xs))
  unfolding insert_sorted
  length-filter-insert_sorted p a [] = refl
  length-filter-insert_sorted p a (x ∷ xs) = ground (arith, length-filter-insert_sorted p a xs)

  pub length-filter-sort :
      (p : A → Bool) (xs : List A) → length (filter p (sort before xs)) ≡ length (filter p xs)
  unfolding sort
  length-filter-sort p [] = refl
  length-filter-sort p (x ∷ xs) =
      ground (arith, length-filter-insert_sorted p x (sort before xs), length-filter-sort p xs)

  module _ (total : (a b : A) → before a b ≡ false → before b a ≡ true)
      (trans : (a b c : A) → before a b ≡ true → before b c ≡ true → before a c ≡ true) where
    All-before :
        (a x : A) (xs : List A)
        → before a x ≡ true
        → All (λ y. before x y ≡ true) xs
        → All (λ y. before a y ≡ true) xs
    All-before a x [] h k = tt
    All-before a x (y ∷ ys) h (p, k) = (trans a x y h p, All-before a x ys h k)

    insert_sorted-IsSorted :
        (a : A) (xs : List A) → IsSorted xs → IsSorted (insert_sorted before a xs)
    unfolding insert_sorted IsSorted
    insert_sorted-IsSorted a [] h = (tt, tt)
    insert_sorted-IsSorted a (x ∷ xs) (least, h) = elim (Bool-cases (before a x)) [
      | inl here ↦ rw here ((here, All-before a x xs here least), (least, h))
      | inr there ↦ rw there (
        (All-insert_sorted before (λ y. before x y ≡ true) a xs).0 (total a x there, least),
        insert_sorted-IsSorted a xs h,
      )
    ]

    pub sort-IsSorted : (xs : List A) → IsSorted (sort before xs)
    unfolding sort IsSorted
    sort-IsSorted [] = tt
    sort-IsSorted (x ∷ xs) = insert_sorted-IsSorted x (sort before xs) (sort-IsSorted xs)

  -- What is taken from the front of a sorted list stands before what is dropped.
  pub take-before-drop :
      (n : ℕ) (xs : List A)
      → IsSorted xs
      → All (λ x. All (λ y. before x y ≡ true) (drop n xs)) (take n xs)
  unfolding IsSorted
  take-before-drop zero xs h = tt
  take-before-drop (suc n) [] h = tt
  take-before-drop (suc n) (x ∷ xs) (least, h) = (All-drop n xs least, take-before-drop n xs h)
    where
      All-drop :
          (m : ℕ) (ys : List A)
          → All (λ y. before x y ≡ true) ys
          → All (λ y. before x y ≡ true) (drop m ys)
      All-drop zero ys k = k
      All-drop (suc m) [] k = k
      All-drop (suc m) (y ∷ ys) k = All-drop m ys k.1
