-- ===== src/Monitoring/ExpectedRuns/Current.antt =====
-- `reconcileExpectedRuns`: lemmas on checks that neither warn nor fail.
use guardianbot.Prelude.{
  refl, mem-filter_inv, ℕ, List, ◌≡◌, Option, false, true, some, ◌≤◌, filter, arith, All,
  first-sort_mem, All-map_inv, first-sort_least,
}
use guardianbot.Prelude.Js.{Dates}
use guardianbot.Monitoring.ExpectedRuns.{
  newer_run, latest_run, found_run_check, latest_run_check, expected_run_check,
  reconcile_expected_runs, ExpectedRun, ObservedRun, missing_run_check, is_accepted, completed,
  matches_run, time_leb, observed_text,
}
use guardianbot.Monitoring.Status.{status_weight, Age, is_over, age_of}
use mathlib.Core.List.{Memᴰ}
use mathlib.Core.Option.{none}
use guardianbot.Monitoring.Status.Worst.{IsCalm, statuses-IsCalm}

-- The latest of the matching runs: it matches, it was observed, and no matching run is newer.
unfoldable pub IsLatestRun : Dates → ExpectedRun → List ObservedRun → ObservedRun → Type 0
IsLatestRun dates expected observed run =
    Memᴰ run observed
    × (matches_run expected run ≡ true)
    × All (λ other. newer_run dates run other ≡ true) (filter (matches_run expected) observed)

newer_run_total :
    (dates : Dates) (a b : ObservedRun) → newer_run dates a b ≡ false → newer_run dates b a ≡ true
unfolding newer_run
newer_run_total dates a b h =
    total (dates.parse (observed_text b)) (dates.parse (observed_text a)) h
  where
    total : (s t : Option ℕ) → time_leb s t ≡ false → time_leb t s ≡ true
    total none t h = cc
    total (some s) none h = refl
    total (some s) (some t) h = ground arith

newer_run_trans :
    (dates : Dates) (a b c : ObservedRun)
    → newer_run dates a b ≡ true
    → newer_run dates b c ≡ true
    → newer_run dates a c ≡ true
unfolding newer_run
newer_run_trans dates a b c h k =
    trans (dates.parse (observed_text c)) (dates.parse (observed_text b))
      (dates.parse (observed_text a)) k h
  where
    trans : (s t u : Option ℕ) → time_leb s t ≡ true → time_leb t u ≡ true → time_leb s u ≡ true
    trans none t u h k = refl
    trans (some s) none u h k = cc
    trans (some s) (some t) none h k = cc
    trans (some s) (some t) (some u) h k = ground arith

pub latest_run-IsLatestRun :
    (dates : Dates) (expected : ExpectedRun) (observed : List ObservedRun) (run : ObservedRun)
    → latest_run dates expected observed ≡ some run
    → IsLatestRun dates expected observed run
unfolding latest_run IsLatestRun
latest_run-IsLatestRun dates expected observed run h =
    let matching = filter (matches_run expected) observed in
    let found = first-sort_mem (newer_run dates) matching run h in
    let (there, holds) = mem-filter_inv (matches_run expected) observed found in
    (
      there,
      holds,
      first-sort_least (newer_run dates) (newer_run_total dates) (newer_run_trans dates) matching
          run h,
    )

-- A completed run with an accepted conclusion, inside its window as far as its time can be read.
unfoldable pub IsCurrentRun : Dates → ℕ → ExpectedRun → ObservedRun → Type 0
IsCurrentRun dates now expected run =
    (run.status ≡ completed)
    × (is_accepted run.conclusion ≡ true)
    × (is_over (age_of (dates.parse (observed_text run)) now) expected.max_age ≡ false)

found_run_check-calm :
    (expected : ExpectedRun) (run : ObservedRun) (age : Age)
    → expected.required ≡ true
    → status_weight (found_run_check expected run age).status ≤ 1
    → (run.status ≡ completed)
      × (is_accepted run.conclusion ≡ true)
      × (is_over age expected.max_age ≡ false)
unfolding found_run_check status_weight is_accepted
found_run_check-calm expected run age required calm = ground arith

latest_run_check-calm :
    (dates : Dates) (now : ℕ) (expected : ExpectedRun) (latest : Option ObservedRun)
    → expected.required ≡ true
    → status_weight (latest_run_check dates now expected latest).status ≤ 1
    → (run : ObservedRun) × (latest ≡ some run) × IsCurrentRun dates now expected run
unfolding latest_run_check missing_run_check status_weight IsCurrentRun
latest_run_check-calm dates now expected none required calm =
    absurd (ground (arith, required, calm))
latest_run_check-calm dates now expected (some run) required calm =
    (run, refl, found_run_check-calm expected run _ required calm)

unfoldable pub HasCurrentRun : Dates → ℕ → List ObservedRun → ExpectedRun → Type 0
HasCurrentRun dates now observed expected =
    expected.required ≡ true
    → (run : ObservedRun) × IsLatestRun dates expected observed run
      × IsCurrentRun dates now expected run

pub check-HasCurrentRun :
    (dates : Dates) (now : ℕ) (observed : List ObservedRun) (expected : ExpectedRun)
    → IsCalm (expected_run_check dates now observed expected)
    → HasCurrentRun dates now observed expected
unfolding expected_run_check HasCurrentRun IsCalm
check-HasCurrentRun dates now observed expected calm required =
    let (run, found, current) =
      latest_run_check-calm dates now expected (latest_run dates expected observed) required calm in
    (run, latest_run-IsLatestRun dates expected observed run found, current)

-- A reconciliation whose status is neither a warning nor a failure has, for each required run, a
-- newest matching observed run, which completed with success, neutral or skipped and is within its
-- window, unless its time cannot be read.
pub reconcile-HasCurrentRun :
    (dates : Dates) (now : ℕ) (expected : List ExpectedRun) (observed : List ObservedRun)
    → status_weight (reconcile_expected_runs dates now expected observed).status ≤ 1
    → All (HasCurrentRun dates now observed) expected
unfolding reconcile_expected_runs
reconcile-HasCurrentRun dates now expected observed calm =
    All-map_inv (expected_run_check dates now observed) IsCalm (HasCurrentRun dates now observed)
      (check-HasCurrentRun dates now observed) expected (statuses-IsCalm _ calm)
