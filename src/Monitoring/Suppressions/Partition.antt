-- ===== src/Monitoring/Suppressions/Partition.antt =====
-- `evaluateSuppressions`: lemmas on the three lists and the status.
use guardianbot.Prelude.{
  refl, ℕ, List, ◌≡◌, Bool, filter, [], ◌∷◌, length, is_false, true, ◌++◌, nat_beq, ◌∙◌, sym, ◌+◌,
  false, ◌↔◌, append_assoc, append-nil, arith, none, ◌≢◌, some, ◌≤◌, Option, filter_some, not,
  mem-filter_inv, subst, not-true, mem-filter, filter_none,
}
use guardianbot.Monitoring.Suppressions.{
  Standing, evaluate_suppressions, standing, suppressions_status, suppressions_report, Suppression,
  Sorted, file_one, file_all, has_expired, expires_soon, is_active, none_sorted, standing_at,
  open_expired,
}
use guardianbot.Prelude.Js.{Dates}
use guardianbot.Monitoring.Status.{failing}
use mathlib.Core.List.{Memᴰ}

abbrev standing_index : Standing → ℕ
standing_index has_expired = 0
standing_index expires_soon = 1
standing_index is_active = 2

unfoldable pub has_standing : Dates → ℕ → ℕ → Standing → Suppression → Bool
has_standing dates now notify_before wanted s =
    nat_beq (standing_index (standing dates now notify_before s)) (standing_index wanted)

module _ (dates : Dates) (now notify_before : ℕ) where
  with_standing : Standing → List Suppression → List Suppression
  with_standing wanted xs = filter (has_standing dates now notify_before wanted) xs

  -- The three lists, extended by what the suppressions add to them.
  IsFiled : Sorted → List Suppression → Sorted → Type 0
  unfolding with_standing
  IsFiled before xs after =
      (after.expired ≡ before.expired ++ with_standing has_expired xs)
      × (after.expiring_soon ≡ before.expiring_soon ++ with_standing expires_soon xs)
      × (after.active ≡ before.active ++ with_standing is_active xs)

  file_one-IsFiled :
      (s : Suppression) (rest : List Suppression) (sorted after : Sorted)
      → IsFiled (file_one (standing dates now notify_before s) s sorted) rest after
      → IsFiled sorted (s ∷ rest) after
  unfolding IsFiled file_one with_standing has_standing
  file_one-IsFiled s rest sorted after h = go (standing dates now notify_before s) refl h
    where
      go :
          (x : Standing)
          → standing dates now notify_before s ≡ x
          → IsFiled (file_one x s sorted) rest after
          → IsFiled sorted (s ∷ rest) after
      go has_expired e (a, b, c) =
          rw e (a ∙ append_assoc sorted.expired (s ∷ []) (with_standing has_expired rest), b, c)
      go expires_soon e (a, b, c) =
          rw e
            (a, b ∙ append_assoc sorted.expiring_soon (s ∷ []) (with_standing expires_soon rest), c)
      go is_active e (a, b, c) =
          rw e (a, b, c ∙ append_assoc sorted.active (s ∷ []) (with_standing is_active rest))

  file_none-IsFiled : (sorted : Sorted) → IsFiled sorted [] sorted
  unfolding IsFiled with_standing
  file_none-IsFiled sorted = (sym (append-nil _), sym (append-nil _), sym (append-nil _))

  file_all-IsFiled :
      (xs : List Suppression) (sorted : Sorted)
      → IsFiled sorted xs (file_all dates now notify_before xs sorted)
  unfolding file_all
  file_all-IsFiled [] sorted = file_none-IsFiled sorted
  file_all-IsFiled (s ∷ rest) sorted =
      file_one-IsFiled s rest sorted _
        (file_all-IsFiled rest (file_one (standing dates now notify_before s) s sorted))

  counts :
      (xs : List Suppression)
      → length (with_standing has_expired xs)
          + length (with_standing expires_soon xs)
          + length (with_standing is_active xs)
        ≡ length xs
  unfolding with_standing has_standing
  counts [] = refl
  counts (s ∷ rest) = ground (arith, counts rest)

-- Every suppression is in exactly one of the three lists of the evaluation: the one that its expiry
-- says, in the order in which they came, and none is lost.
pub evaluate_suppressions-partition :
    (dates : Dates) (now notify_before : ℕ) (xs : List Suppression)
    → let e = evaluate_suppressions dates now notify_before xs in
      (e.expired ≡ filter (has_standing dates now notify_before has_expired) xs)
      × (e.expiring_soon ≡ filter (has_standing dates now notify_before expires_soon) xs)
      × (e.active ≡ filter (has_standing dates now notify_before is_active) xs)
      × (length e.expired + length e.expiring_soon + length e.active ≡ length xs)
unfolding evaluate_suppressions suppressions_report IsFiled with_standing
evaluate_suppressions-partition dates now notify_before xs =
    let (a, b, c) = file_all-IsFiled dates now notify_before xs none_sorted in
    (a, b, c, cc (a, b, c, counts dates now notify_before xs))

-- The expiry has passed, or cannot be read.
unfoldable pub IsOver : ℕ → Option ℕ → Type 0
IsOver now none = Unit
IsOver now (some expiry) = expiry ≤ now

standing_at-IsOver :
    (now notify_before : ℕ) (expiry : Option ℕ)
    → (nat_beq (standing_index (standing_at now notify_before expiry)) 0 ≡ true) ↔ IsOver now expiry
unfolding standing_at IsOver
standing_at-IsOver now notify_before none = ((λ h. tt), (λ h. refl))
standing_at-IsOver now notify_before (some expiry) = ground arith

-- A suppression of a finding that is not known to be closed, whose expiry has passed or cannot be
-- read.
unfoldable pub IsLapsed : Dates → ℕ → Suppression → Type 0
IsLapsed dates now s = (is_false s.finding_open ≡ false) × IsOver now (dates.parse s.expires_at)

failing_iff :
    (open_count soon_count : ℕ)
    → (suppressions_status open_count soon_count ≡ failing) ↔ (open_count ≢ 0)
unfolding suppressions_status
failing_iff open_count soon_count = ground arith

-- The evaluation fails exactly where some suppression has lapsed: its finding is not known to be
-- closed, and its expiry has passed or cannot be read.
pub evaluate_suppressions-failing_iff :
    (dates : Dates) (now notify_before : ℕ) (xs : List Suppression)
    → ((evaluate_suppressions dates now notify_before xs).status ≡ failing)
      ↔ ((s : Suppression) × Memᴰ s xs × IsLapsed dates now s)
unfolding evaluate_suppressions suppressions_report open_expired IsLapsed has_standing standing
evaluate_suppressions-failing_iff dates now notify_before xs =
    let sorted = file_all dates now notify_before xs none_sorted in
    let is_expired = has_standing dates now notify_before has_expired in
    let filed : sorted.expired ≡ filter is_expired xs =
      (evaluate_suppressions-partition dates now notify_before xs).0 in
    let (forth, back) = failing_iff (open_expired sorted.expired) (length sorted.expiring_soon) in
    (
      (λ h.
          let (s, m, open_one) =
            filter_some (λ s. not (is_false s.finding_open)) sorted.expired (forth h) in
          let (there, over) = mem-filter_inv is_expired xs (subst (λ ys. Memᴰ s ys) filed m) in
          (s, there, (not-true _ open_one, (standing_at-IsOver now notify_before _).0 over))),
      (λ (s, m, (open_one, over)). back (λ none_open.
          let here =
            subst (λ ys. Memᴰ s ys) (sym filed)
              (mem-filter is_expired xs m ((standing_at-IsOver now notify_before _).1 over)) in
          let closed =
            filter_none (λ s. not (is_false s.finding_open)) sorted.expired none_open here in
          ground (arith, closed, open_one))),
    )
