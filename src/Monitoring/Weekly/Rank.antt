-- ===== src/Monitoring/Weekly/Rank.antt =====
-- packages/monitoring/src/weekly-report.ts, `quantile`: lemmas on the rank of a quantile.
use guardianbot.Monitoring.Weekly.{Floats}
use native.Mathlib.Nat.{suc-mul, zero-mul}
use guardianbot.Prelude.{
  refl, ℕ, List, ◌≤◌, length, All, ◌<◌, ◌*◌, filter, leb, arith, ◌+◌, ltb, ◌≡◌, ◌∷◌, suc, ◌/◌, true,
  All-mem, min, ◌-◌, sort, All-sort, All-members, false, length-sort, subst, sym, ◌^◌,
}
use guardianbot.Monitoring.Weekly.Quantile.{element_at, quantile}
use guardianbot.Prelude.Sorted.{IsSorted, sort-IsSorted, length-filter-sort}
use mathlib.Core.List.{Memᴰ, []}
use Prim.Native.Nat.{zero}

unfoldable pub at_most : ℕ → List ℕ → ℕ
at_most q xs = length (filter (λ y. leb y q) xs)

unfoldable pub below : ℕ → List ℕ → ℕ
below q xs = length (filter (λ y. ltb y q) xs)

none_below : (x : ℕ) (xs : List ℕ) → All (λ y. leb x y ≡ true) xs → below x xs ≡ 0
unfolding below
none_below x [] h = refl
none_below x (y ∷ ys) (p, h) = ground (arith, p, none_below x ys h)

element_at-mem : (xs : List ℕ) (i : ℕ) → i < length xs → Memᴰ (element_at xs i) xs
unfolding element_at
element_at-mem [] i h = absurd (omega (arith, h))
element_at-mem (x ∷ xs) zero h = Memᴰ.head refl
element_at-mem (x ∷ xs) (suc i) h = Memᴰ.tail (element_at-mem xs i (omega (arith, h)))

-- In a sorted list, the element at a place has that many elements below it at most, and one more at or below.
element_at-counts :
    (xs : List ℕ) (i : ℕ)
    → i < length xs
    → IsSorted leb xs
    → (suc i ≤ at_most (element_at xs i) xs) × (below (element_at xs i) xs ≤ i)
unfolding element_at IsSorted at_most below
element_at-counts [] i h sorted = absurd (omega (arith, h))
element_at-counts (x ∷ xs) zero h (least, sorted) =
    (ground arith, ground (arith, none_below x xs least))
element_at-counts (x ∷ xs) (suc i) h (least, sorted) =
    let (up, down) = element_at-counts xs i (omega (arith, h)) sorted in
    let small = All-mem (λ y. leb x y ≡ true) xs least (element_at-mem xs i (omega (arith, h))) in
    (ground (arith, small, up), ground (arith, down))

rank_arith :
    (m n : ℕ)
    → 1 ≤ m
    → m ≤ 100 * n
    → let r = (m + 99) / 100 in
      (min (n - 1) (r - 1) < n)
      × (m ≤ 100 * suc (min (n - 1) (r - 1)))
      × (100 * min (n - 1) (r - 1) < m)
rank_arith m n low high =
    (omega (arith, low, high), omega (arith, low, high), omega (arith, low, high))

-- What a quantile promises: it is one of the samples, at least that share of the samples is at or below it,
-- and less than that share is below it.
pub record IsQuantile (percent q : ℕ) (samples : List ℕ) : Type 0 where
  pub sampled : Memᴰ q samples
  pub enough : length samples * percent ≤ 100 * at_most q samples
  pub not_more : 100 * below q samples < length samples * percent

share_low : (n p : ℕ) → 1 ≤ n → 1 ≤ p → 1 ≤ n * p
share_low zero p h k = absurd (omega (arith, h))
share_low (suc n) p h k = omega (arith, suc-mul n p, k)

share_high : (n p : ℕ) → p ≤ 100 → n * p ≤ 100 * n
share_high zero p h = omega (arith, zero-mul p)
share_high (suc n) p h = omega (arith, suc-mul n p, share_high n p h, h)

mem-sort : (xs : List ℕ) {q : ℕ} → Memᴰ q (sort leb xs) → Memᴰ q xs
mem-sort xs inside =
    All-mem (λ a. Memᴰ a xs) (sort leb xs)
      ((All-sort leb (λ a. Memᴰ a xs) xs).0 (All-members _ xs (λ a m. m))) inside

-- Counts in a list with the same counts.
same_counts :
    (ordered samples : List ℕ) (q percent i : ℕ)
    → length ordered ≡ length samples
    → at_most q ordered ≡ at_most q samples
    → below q ordered ≡ below q samples
    → suc i ≤ at_most q ordered
    → below q ordered ≤ i
    → length ordered * percent ≤ 100 * suc i
    → 100 * i < length ordered * percent
    → (length samples * percent ≤ 100 * at_most q samples)
      × (100 * below q samples < length samples * percent)
same_counts ordered samples q percent i same same_up same_down up down enough not_more =
    subst (λ n. (n * percent ≤ 100 * at_most q samples) × (100 * below q samples < n * percent))
      same (omega (arith, same_up, up, enough), omega (arith, same_down, down, not_more))

module _ (floats : Floats) where
  -- The quantile of a fraction whose product with the length is rounded up as a percentage of it.
  ranked-IsQuantile :
      (x : ℕ) (xs : List ℕ) (percent : ℕ) (fraction : floats.Float)
      → 1 ≤ percent
      → percent ≤ 100
      → floats.ceil_times (length (x ∷ xs)) fraction ≡ (length (x ∷ xs) * percent + 99) / 100
      → IsQuantile percent (quantile floats (x ∷ xs) fraction) (x ∷ xs)
  unfolding quantile at_most below
  ranked-IsQuantile x xs percent fraction low high exact =
      let ordered = sort leb (x ∷ xs) in
      let m = length ordered * percent in
      let same = length-sort leb (x ∷ xs) in
      let ceiled : floats.ceil_times (length ordered) fraction ≡ (m + 99) / 100 =
        subst (λ n. floats.ceil_times n fraction ≡ (n * percent + 99) / 100) (sym same) exact in
      let (inside, enough, not_more) =
        rank_arith m (length ordered) (share_low (length ordered) percent (omega (arith, same)) low)
          (share_high (length ordered) percent high) in
      let (up, down) =
        element_at-counts ordered (min (length ordered - 1) ((m + 99) / 100 - 1)) inside
          (sort-IsSorted leb leb_total leb_trans (x ∷ xs)) in
      let q = element_at ordered (min (length ordered - 1) ((m + 99) / 100 - 1)) in
      let (at_least, less) =
        same_counts ordered (x ∷ xs) q percent (min (length ordered - 1) ((m + 99) / 100 - 1)) same
          (length-filter-sort leb (λ y. leb y q) (x ∷ xs))
          (length-filter-sort leb (λ y. ltb y q) (x ∷ xs)) up down enough not_more in
      subst
        (λ r. IsQuantile percent (element_at ordered (min (length ordered - 1) (r - 1))) (x ∷ xs))
        (sym ceiled)
        (record {
          sampled = mem-sort (x ∷ xs) (element_at-mem ordered _ inside);
          enough = at_least;
          not_more = less;
        })
    where
      leb_total : (a b : ℕ) → leb a b ≡ false → leb b a ≡ true
      leb_total a b h = ground (arith, h)

      leb_trans : (a b c : ℕ) → leb a b ≡ true → leb b c ≡ true → leb a c ≡ true
      leb_trans a b c h k = ground (arith, h, k)

  -- Of samples that an array can hold, and at least one, the quantiles that the report gives, of 0.5 and of 0.95,
  -- are samples; at least half of the samples are at or below the one and fewer than half below it, and so with
  -- 95 in a hundred for the other.
  pub quantile-IsQuantile :
      (x : ℕ) (xs : List ℕ)
      → length (x ∷ xs) < 2 ^ 32
      → IsQuantile 50 (quantile floats (x ∷ xs) floats.half) (x ∷ xs)
        × IsQuantile 95 (quantile floats (x ∷ xs) floats.ninety_five) (x ∷ xs)
  quantile-IsQuantile x xs fits = (
    ranked-IsQuantile x xs 50 floats.half (omega arith) (omega arith)
        (floats.ceil_times-half (length (x ∷ xs)) fits),
    ranked-IsQuantile x xs 95 floats.ninety_five (omega arith) (omega arith)
        (floats.ceil_times-ninety_five (length (x ∷ xs)) fits),
  )
