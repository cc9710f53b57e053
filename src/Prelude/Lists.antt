-- ===== src/Prelude/Lists.antt =====
-- Lists measured by native numbers, the array methods of the source, and predicates on all and on
-- one element, under the library's names.
use Prim.Native.Nat.{ℕ, zero, suc, ◌+◌, ◌≤◌, min}
use mathlib.Core.Path.{◌≡◌, refl, sym, ap, subst}
use mathlib.Core.Logic.{◌↔◌, ◌⊎◌, inl, inr, ◌≢◌}
use mathlib.Core.Bool.{Bool, true, false, ◌&&◌, ◌||◌}
use mathlib.Core.List.{List, map, [], ◌∷◌, ◌++◌, Memᴰ}
use mathlib.Core.Option.{Option, none, some}
use native.Mathlib.Omega.{arith}
use guardianbot.Prelude.Tests.{if◌then◌else◌, Bool-cases}

module _ {ℓ} {A : Type ℓ} where
  abbrev pub length : List A → ℕ
  length [] = 0
  length (x ∷ xs) = suc (length xs)

  -- `array.filter(p)`
  abbrev pub filter : (A → Bool) → List A → List A
  filter p [] = []
  filter p (x ∷ xs) = let rest = filter p xs in if p x then x ∷ rest else rest

  -- `array.some(p)`
  abbrev pub any : (A → Bool) → List A → Bool
  any p [] = false
  any p (x ∷ xs) = p x || any p xs

  -- `array.every(p)`
  abbrev pub all : (A → Bool) → List A → Bool
  all p [] = true
  all p (x ∷ xs) = p x && all p xs

  -- `array.find(p)`
  abbrev pub find : (A → Bool) → List A → Option A
  find p [] = none
  find p (x ∷ xs) = let rest = find p xs in if p x then some x else rest

  -- `array.slice(0, n)`
  abbrev pub take : ℕ → List A → List A
  take zero xs = []
  take (suc n) [] = []
  take (suc n) (x ∷ xs) = x ∷ take n xs

  abbrev pub drop : ℕ → List A → List A
  drop zero xs = xs
  drop (suc n) [] = []
  drop (suc n) (x ∷ xs) = drop n xs

  pub length-append : (xs ys : List A) → length (xs ++ ys) ≡ length xs + length ys
  length-append [] ys = omega arith
  length-append (x ∷ xs) ys = omega (arith, length-append xs ys)

  pub length-take : (n : ℕ) (xs : List A) → length (take n xs) ≡ min n (length xs)
  length-take zero xs = omega arith
  length-take (suc n) [] = omega arith
  length-take (suc n) (x ∷ xs) = omega (arith, length-take n xs)

  pub length-filter-le : (p : A → Bool) (xs : List A) → length (filter p xs) ≤ length xs
  length-filter-le p [] = omega arith
  length-filter-le p (x ∷ xs) = ground (arith, length-filter-le p xs)

-- Every element satisfies `P`.
module _ {ℓ κ} {A : Type ℓ} (P : A → Type κ) where
  abbrev pub All : List A → Type κ
  All [] = Unit
  All (x ∷ xs) = P x × All xs

  pub All-append : (xs ys : List A) → All xs → All ys → All (xs ++ ys)
  All-append [] ys h k = k
  All-append (x ∷ xs) ys (p, h) k = (p, All-append xs ys h k)

  pub All-append_inv : (xs ys : List A) → All (xs ++ ys) → All xs × All ys
  All-append_inv [] ys h = (tt, h)
  All-append_inv (x ∷ xs) ys (p, h) = let (q, r) = All-append_inv xs ys h in ((p, q), r)

  pub All-mem : (xs : List A) {a : A} → All xs → Memᴰ a xs → P a
  All-mem [] h m = elim m [ ]
  All-mem (x ∷ xs) (p, h) (Memᴰ.head e) = subst P (sym e) p
  All-mem (x ∷ xs) (p, h) (Memᴰ.tail m) = All-mem xs h m

module _ {ℓ} {A : Type ℓ} where
  pub append-eq-nil_iff : (xs ys : List A) → (xs ++ ys ≡ []) ↔ ((xs ≡ []) × (ys ≡ []))
  append-eq-nil_iff [] ys = ((λ h. (refl, h)), (λ h. h.1))
  append-eq-nil_iff (x ∷ xs) ys = ((λ h. cc), (λ h. cc (h.0)))

  pub any_witness :
      (p : A → Bool) (xs : List A) → any p xs ≡ true → (x : A) × Memᴰ x xs × (p x ≡ true)
  any_witness p [] h = cc
  any_witness p (x ∷ xs) h = elim (Bool-cases (p x)) [
    | inl e ↦ (x, Memᴰ.head refl, e)
    | inr e ↦ let (y, m, holds) = any_witness p xs (rw e at h) in (y, Memᴰ.tail m, holds)
  ]

  pub mem-append_left : (xs ys : List A) {a : A} → Memᴰ a xs → Memᴰ a (xs ++ ys)
  mem-append_left [] ys m = elim m [ ]
  mem-append_left (x ∷ xs) ys (Memᴰ.head e) = Memᴰ.head e
  mem-append_left (x ∷ xs) ys (Memᴰ.tail m) = Memᴰ.tail (mem-append_left xs ys m)

  pub mem-append_right : (xs ys : List A) {a : A} → Memᴰ a ys → Memᴰ a (xs ++ ys)
  mem-append_right [] ys m = m
  mem-append_right (x ∷ xs) ys m = Memᴰ.tail (mem-append_right xs ys m)

  -- A property of each member, with its membership.
  pub All-members {κ} : (P : A → Type κ) (xs : List A) → ((a : A) → Memᴰ a xs → P a) → All P xs
  All-members P [] h = tt
  All-members P (x ∷ xs) h = (h x (Memᴰ.head refl), All-members P xs (λ a m. h a (Memᴰ.tail m)))

  pub mem-filter :
      (p : A → Bool) (xs : List A) {a : A} → Memᴰ a xs → p a ≡ true → Memᴰ a (filter p xs)
  mem-filter p [] m h = elim m [ ]
  mem-filter p (x ∷ xs) {a} (Memᴰ.head e) h = rw (subst (λ y. p y ≡ true) e h) (Memᴰ.head e)
  mem-filter p (x ∷ xs) {a} (Memᴰ.tail m) h = elim (Bool-cases (p x)) [
    | inl kept ↦ rw kept (Memᴰ.tail (mem-filter p xs m h))
    | inr left ↦ rw left (mem-filter p xs m h)
  ]

  -- A filter that keeps nothing has refused each element; one that keeps something has a witness.
  pub filter_none :
      (p : A → Bool) (xs : List A) {a : A} → length (filter p xs) ≡ 0 → Memᴰ a xs → p a ≡ false
  filter_none p xs {a} e m = elim (Bool-cases (p a)) [
    | inl holds ↦ absurd (empty (filter p xs) e (mem-filter p xs m holds))
    | inr fails ↦ fails
  ]
    where
      empty : (ys : List A) → length ys ≡ 0 → ¬ Memᴰ a ys
      empty [] h k = elim k [ ]
      empty (y ∷ ys) h k = absurd (omega arith)

  pub filter_some :
      (p : A → Bool) (xs : List A) → length (filter p xs) ≢ 0 → (x : A) × Memᴰ x xs × (p x ≡ true)
  filter_some p [] h = absurd (h refl)
  filter_some p (x ∷ xs) h = elim (Bool-cases (p x)) [
    | inl holds ↦ (x, Memᴰ.head refl, holds)
    | inr fails ↦ let (y, m, holds) = filter_some p xs (rw fails at h) in (y, Memᴰ.tail m, holds)
  ]

  pub All-filter {κ} :
      (P : A → Type κ) (p : A → Bool) (xs : List A)
      → ((a : A) → Memᴰ a xs → p a ≡ true → P a)
      → All P (filter p xs)
  All-filter P p [] h = tt
  All-filter P p (x ∷ xs) h =
      let rest = All-filter P p xs (λ a m k. h a (Memᴰ.tail m) k) in
      elim (Bool-cases (p x)) [
        | inl kept ↦ rw kept (h x (Memᴰ.head refl) kept, rest)
        | inr left ↦ rw left rest
      ]

  pub mem-filter_inv :
      (p : A → Bool) (xs : List A) {a : A} → Memᴰ a (filter p xs) → Memᴰ a xs × (p a ≡ true)
  mem-filter_inv p xs m =
      All-mem (λ y. Memᴰ y xs × (p y ≡ true)) (filter p xs) (All-filter _ p xs (λ y n k. (n, k))) m

-- What holds of all images holds of all elements, in terms of the images.
module _ {ℓ κ} {A : Type ℓ} {B : Type κ} (f : A → B) where
  pub All-map_inv {η ι} :
      (P : B → Type η) (Q : A → Type ι)
      → ((a : A) → P (f a) → Q a)
      → (xs : List A) → All P (map f xs)
      → All Q xs
  All-map_inv P Q h [] k = tt
  All-map_inv P Q h (x ∷ xs) (p, k) = (h x p, All-map_inv P Q h xs k)

-- Counting.
module _ {ℓ} {A : Type ℓ} where
  pub length-filter_mono :
      (p q : A → Bool) (xs : List A)
      → ((a : A) → p a ≡ true → q a ≡ true)
      → length (filter p xs) ≤ length (filter q xs)
  length-filter_mono p q [] h = omega arith
  length-filter_mono p q (x ∷ xs) h = ground (arith, h x, length-filter_mono p q xs h)

  pub filter_ext :
      (p q : A → Bool) (xs : List A) → ((a : A) → p a ≡ q a) → filter p xs ≡ filter q xs
  filter_ext p q [] h = refl
  filter_ext p q (x ∷ xs) h = rw (h x, filter_ext p q xs h)

  pub filter-append :
      (p : A → Bool) (xs ys : List A) → filter p (xs ++ ys) ≡ filter p xs ++ filter p ys
  filter-append p [] ys = refl
  filter-append p (x ∷ xs) ys = ground (arith, filter-append p xs ys)

pub length-filter-map {ℓ κ} :
    {A : Type ℓ} {B : Type κ} (f : A → B) (p : B → Bool) (xs : List A)
    → length (filter p (map f xs)) ≡ length (filter (λ x. p (f x)) xs)
length-filter-map f p [] = refl
length-filter-map f p (x ∷ xs) = ground (arith, length-filter-map f p xs)

module _ {ℓ κ} {A : Type ℓ} {B : Type κ} (f : A → B) where
  pub mem-map : (xs : List A) {a : A} → Memᴰ a xs → Memᴰ (f a) (map f xs)
  mem-map [] m = elim m [ ]
  mem-map (x ∷ xs) (Memᴰ.head e) = Memᴰ.head (ap f e)
  mem-map (x ∷ xs) (Memᴰ.tail m) = Memᴰ.tail (mem-map xs m)

  pub mem-map_inv : (xs : List A) {b : B} → Memᴰ b (map f xs) → (a : A) × Memᴰ a xs × (f a ≡ b)
  mem-map_inv [] m = elim m [ ]
  mem-map_inv (x ∷ xs) (Memᴰ.head e) = (x, Memᴰ.head refl, sym e)
  mem-map_inv (x ∷ xs) (Memᴰ.tail m) =
      let (a, there, e) = mem-map_inv xs m in (a, Memᴰ.tail there, e)

module _ {ℓ} {A : Type ℓ} where
  pub mem-drop : (n : ℕ) (xs : List A) {a : A} → Memᴰ a (drop n xs) → Memᴰ a xs
  mem-drop zero xs m = m
  mem-drop (suc n) [] m = m
  mem-drop (suc n) (x ∷ xs) m = Memᴰ.tail (mem-drop n xs m)

  pub mem-take_or_drop :
      (n : ℕ) (xs : List A) {a : A} → Memᴰ a xs → Memᴰ a (take n xs) ⊎ Memᴰ a (drop n xs)
  mem-take_or_drop zero xs m = inr m
  mem-take_or_drop (suc n) [] m = inr m
  mem-take_or_drop (suc n) (x ∷ xs) (Memᴰ.head e) = inl (Memᴰ.head e)
  mem-take_or_drop (suc n) (x ∷ xs) (Memᴰ.tail m) = elim (mem-take_or_drop n xs m) [
    | inl taken ↦ inl (Memᴰ.tail taken)
    | inr left ↦ inr left
  ]

pub take_all {ℓ} : {A : Type ℓ} (n : ℕ) (xs : List A) → length xs ≤ n → take n xs ≡ xs
take_all zero [] h = refl
take_all zero (x ∷ xs) h = absurd (omega (arith, h))
take_all (suc n) [] h = refl
take_all (suc n) (x ∷ xs) h = ap (λ rest. x ∷ rest) (take_all n xs (omega (arith, h)))

pub fits_or_full {ℓ} :
    {A : Type ℓ} (n : ℕ) (xs : List A) → (length xs ≤ n) ⊎ (length (take n xs) ≡ n)
fits_or_full zero xs = inr (omega arith)
fits_or_full (suc n) [] = inl (omega arith)
fits_or_full (suc n) (x ∷ xs) = elim (fits_or_full n xs) [
  | inl fits ↦ inl (omega (arith, fits))
  | inr full ↦ inr (omega (arith, full))
]
