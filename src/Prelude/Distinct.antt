-- ===== src/Prelude/Distinct.antt =====
-- Lists whose elements differ pairwise, under filter, take and sort.
use Prim.Native.Nat.{ℕ, zero, suc}
use Prim.Native.String.{String}
use mathlib.Core.Path.{sym}
use mathlib.Core.Logic.{◌≢◌, inl, inr}
use mathlib.Core.Bool.{Bool}
use mathlib.Core.List.{List, [], ◌∷◌}
use guardianbot.Prelude.Tests.{Bool-cases}
use guardianbot.Prelude.Lists.{All, filter, take}
use guardianbot.Prelude.Sort.{insert_sorted, sort, All-sort, All-insert_sorted}

-- Elements that differ pairwise under `f`.
module _ {ℓ} {A : Type ℓ} (f : A → String) where
  unfoldable pub AreDistinct : List A → Type ℓ
  AreDistinct [] = Unit
  AreDistinct (x ∷ xs) = All (λ y. f x ≢ f y) xs × AreDistinct xs

  All-filter_of {κ} : (P : A → Type κ) (p : A → Bool) (xs : List A) → All P xs → All P (filter p xs)
  All-filter_of P p [] h = tt
  All-filter_of P p (x ∷ xs) (k, h) = elim (Bool-cases (p x)) [
    | inl kept ↦ rw kept (k, All-filter_of P p xs h)
    | inr left ↦ rw left (All-filter_of P p xs h)
  ]

  pub filter-AreDistinct : (p : A → Bool) (xs : List A) → AreDistinct xs → AreDistinct (filter p xs)
  unfolding AreDistinct
  filter-AreDistinct p [] h = tt
  filter-AreDistinct p (x ∷ xs) (k, h) = elim (Bool-cases (p x)) [
    | inl kept ↦ rw kept (All-filter_of _ p xs k, filter-AreDistinct p xs h)
    | inr left ↦ rw left (filter-AreDistinct p xs h)
  ]

  pub All-take {κ} : (P : A → Type κ) (n : ℕ) (xs : List A) → All P xs → All P (take n xs)
  All-take P zero xs h = tt
  All-take P (suc n) [] h = tt
  All-take P (suc n) (x ∷ xs) (k, h) = (k, All-take P n xs h)

  pub take-AreDistinct : (n : ℕ) (xs : List A) → AreDistinct xs → AreDistinct (take n xs)
  unfolding AreDistinct
  take-AreDistinct zero xs h = tt
  take-AreDistinct (suc n) [] h = tt
  take-AreDistinct (suc n) (x ∷ xs) (k, h) = (All-take _ n xs k, take-AreDistinct n xs h)

  insert_sorted-AreDistinct :
      (before : A → A → Bool) (a : A) (xs : List A)
      → All (λ y. f a ≢ f y) xs
      → AreDistinct xs
      → AreDistinct (insert_sorted before a xs)
  unfolding AreDistinct insert_sorted
  insert_sorted-AreDistinct before a [] h k = (tt, tt)
  insert_sorted-AreDistinct before a (x ∷ xs) (ne, h) (k, d) = elim (Bool-cases (before a x)) [
    | inl here ↦ rw here ((ne, h), (k, d))
    | inr there ↦ rw there (
      (All-insert_sorted before (λ y. f x ≢ f y) a xs).0 ((λ e. ne (sym e)), k),
      insert_sorted-AreDistinct before a xs h d,
    )
  ]

  pub sort-AreDistinct :
      (before : A → A → Bool) (xs : List A) → AreDistinct xs → AreDistinct (sort before xs)
  unfolding AreDistinct sort
  sort-AreDistinct before [] h = tt
  sort-AreDistinct before (x ∷ xs) (k, h) =
      insert_sorted-AreDistinct before x (sort before xs) ((All-sort before _ xs).0 k)
        (sort-AreDistinct before xs h)
