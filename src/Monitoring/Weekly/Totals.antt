-- ===== src/Monitoring/Weekly/Totals.antt =====
-- packages/monitoring/src/weekly-report.ts, `buildWeeklyCoverageReport`: lemmas on its errors and counts.
use guardianbot.Prelude.{
  refl, ℕ, ◌≡◌, List, ◌+◌, arith, String, Result, length, Option, ◌∷◌, ◌>>=◌, ◌++◌, ok, err,
  get_or_else, some, [], ◌≤◌, sym, ◌*◌, ◌∙◌, ◌<◌, ltb, ◌-◌, true, ltb_iff, leb, false, Bool-cases,
  inl, leb_iff, some-injective, inr,
}
use guardianbot.Monitoring.Weekly.Report.{
  VisibilityCount, InventoryCount, count_visibility, count_inventory, gather, checked_range,
  build_weekly_coverage_report, Gathered, report_of, WeeklyError, CoverageReport, nothing_gathered,
  invalid_range, too_long,
}
use guardianbot.Monitoring.Weekly.{
  Floats, Visibility, RepositoryWeeklyMetrics, public_repository, private_repository,
}
use guardianbot.Monitoring.Status.{
  InventoryState, enforced, report_only, advisory_only, not_applicable_repository, misconfigured,
  missing_expected_runs,
}
use guardianbot.Prelude.Js.{Dates, Collation}
use mathlib.Core.Option.{none}

unfoldable pub visibility_sum : VisibilityCount → ℕ
visibility_sum c = c.public_count + c.private_count

unfoldable pub inventory_sum : InventoryCount → ℕ
inventory_sum c =
    c.enforced + c.report_only + c.advisory_only + c.not_applicable + c.misconfigured
    + c.missing_expected_runs

visibility_sum-count :
    (v : Visibility) (c : VisibilityCount)
    → visibility_sum (count_visibility v c) ≡ visibility_sum c + 1
unfolding visibility_sum count_visibility
visibility_sum-count public_repository c = omega arith
visibility_sum-count private_repository c = omega arith

inventory_sum-count :
    (s : InventoryState) (c : InventoryCount)
    → inventory_sum (count_inventory s c) ≡ inventory_sum c + 1
unfolding inventory_sum count_inventory
inventory_sum-count enforced c = omega arith
inventory_sum-count report_only c = omega arith
inventory_sum-count advisory_only c = omega arith
inventory_sum-count not_applicable_repository c = omega arith
inventory_sum-count misconfigured c = omega arith
inventory_sum-count missing_expected_runs c = omega arith

module _ (floats : Floats) where
  gather-sums :
      (repositories : List (RepositoryWeeklyMetrics floats)) (g : Gathered)
      → (visibility_sum (gather floats repositories g).visibility_breakdown
          ≡ visibility_sum g.visibility_breakdown + length repositories)
        × (inventory_sum (gather floats repositories g).inventory_states
            ≡ inventory_sum g.inventory_states + length repositories)
  unfolding gather
  gather-sums [] g = (omega arith, omega arith)
  gather-sums (r ∷ rest) g =
      let later = gather-sums rest (record {
        visibility_breakdown = count_visibility r.visibility g.visibility_breakdown;
        inventory_states = count_inventory r.inventory_state g.inventory_states;
        latency_samples = g.latency_samples ++ get_or_else r.review.latency_samples_ms [];
        import_lag_samples = g.import_lag_samples ++ get_or_else r.scanner.import_lag_samples_ms [];
      }) in
      (
        omega (arith, later.0, visibility_sum-count r.visibility g.visibility_breakdown),
        omega (arith, later.1, inventory_sum-count r.inventory_state g.inventory_states),
      )

module _ (floats : Floats) (dates : Dates) (locale : Collation) where
  -- How the building of a report ends: because a time cannot be read or the end is not after the start; because
  -- the range is longer than seven days and a minute; or with a report on that range that counts each
  -- repository once by visibility and once by inventory state.
  unfoldable pub ReportEnds :
      String
      → String
      → List (RepositoryWeeklyMetrics floats)
      → Result WeeklyError (CoverageReport floats)
      → Type 0
  ReportEnds period_start period_end repositories (err invalid_range) =
      (start finish : ℕ)
      → dates.parse period_start ≡ some start
      → dates.parse period_end ≡ some finish
      → finish ≤ start
  ReportEnds period_start period_end repositories (err too_long) =
      (start finish : ℕ) × (dates.parse period_start ≡ some start)
      × (dates.parse period_end ≡ some finish)
      × (start + 7 * 24 * 60 * 60 * 1000 + 60_000 < finish)
  ReportEnds period_start period_end repositories (ok report) =
      (start finish : ℕ) × (dates.parse period_start ≡ some start)
      × (dates.parse period_end ≡ some finish)
      × (start < finish)
      × (finish ≤ start + 7 * 24 * 60 * 60 * 1000 + 60_000)
      × (report.period_start ≡ dates.to_iso start)
      × (report.period_end ≡ dates.to_iso finish)
      × (report.total_repositories ≡ length repositories)
      × (visibility_sum report.visibility_breakdown ≡ length repositories)
      × (inventory_sum report.inventory_states ≡ length repositories)

  checked-ReportEnds :
      (period_start period_end : String) (repositories : List (RepositoryWeeklyMetrics floats))
      (s f : Option ℕ)
      → dates.parse period_start ≡ s
      → dates.parse period_end ≡ f
      → ReportEnds period_start period_end repositories (
          checked_range s f >>= λ range.
          ok (report_of floats dates locale range.0 range.1 repositories))
  unfolding checked_range ReportEnds report_of visibility_sum inventory_sum
  checked-ReportEnds period_start period_end repositories none f p q =
      λ start finish e k. let h : none ≡ some start = sym p ∙ e in cc
  checked-ReportEnds period_start period_end repositories (some start) none p q =
      λ s finish e k. let h : none ≡ some finish = sym q ∙ k in cc
  checked-ReportEnds period_start period_end repositories (some start) (some finish) p q =
      elim (Bool-cases (leb finish start)) [
        | inl backward ↦ rw backward (λ s f e k. omega (
          arith,
          (leb_iff finish start).0 backward,
          some-injective start s (sym p ∙ e),
          some-injective finish f (sym q ∙ k),
        ))
        | inr forward ↦
            elim (Bool-cases (ltb (7 * 24 * 60 * 60 * 1000 + 60_000) (finish - start))) [
              | inl long ↦ rw (forward, long) (start, finish, p, q, over start finish long)
              | inr fits ↦
                  rw (forward, fits)
                    (
                      start,
                      finish,
                      p,
                      q,
                      after start finish forward,
                      within start finish fits,
                      refl,
                      refl,
                      refl,
                      (gather-sums floats repositories (nothing_gathered floats)).0 ∙ zero_add _,
                      (gather-sums floats repositories (nothing_gathered floats)).1 ∙ zero_add _,
                    )
            ]
      ]
    where
      over :
          (s f : ℕ)
          → ltb (7 * 24 * 60 * 60 * 1000 + 60_000) (f - s) ≡ true
          → s + 7 * 24 * 60 * 60 * 1000 + 60_000 < f
      over s f h = omega (arith, (ltb_iff (7 * 24 * 60 * 60 * 1000 + 60_000) (f - s)).0 h)

      after : (s f : ℕ) → leb f s ≡ false → s < f
      after s f h = ground (arith, h)

      within :
          (s f : ℕ)
          → ltb (7 * 24 * 60 * 60 * 1000 + 60_000) (f - s) ≡ false
          → f ≤ s + 7 * 24 * 60 * 60 * 1000 + 60_000
      within s f h = ground (arith, h)

      zero_add : (n : ℕ) → 0 + n ≡ n
      zero_add n = omega arith

  -- The building of a weekly report throws exactly where a time cannot be read, the end is not after the start,
  -- or the range is longer than seven days and a minute; elsewhere the report is on exactly that range and
  -- counts each repository once by visibility and once by inventory state.
  pub build_weekly-ReportEnds :
      (period_start period_end : String) (repositories : List (RepositoryWeeklyMetrics floats))
      → ReportEnds period_start period_end repositories
          (build_weekly_coverage_report floats dates locale period_start period_end repositories)
  unfolding build_weekly_coverage_report
  build_weekly-ReportEnds period_start period_end repositories =
      checked-ReportEnds period_start period_end repositories _ _ refl refl
