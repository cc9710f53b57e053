-- ===== src/Monitoring/Weekly/Owners.antt =====
-- packages/monitoring/src/weekly-report.ts, `buildWeeklyFindingsSection`: lemmas on the owners and totals.
use guardianbot.Monitoring.Weekly.Ranking.{
  counted, owner_total, counted-sort, counted-all_owners, all_owners-HasDistinctKeys, IsRanked,
  IsSorted-IsRanked,
}
use guardianbot.Prelude.Distinct.{AreDistinct, sort-AreDistinct}
use guardianbot.Prelude.Keys.{HasDistinctKeys}
use guardianbot.Prelude.{
  refl, List, String, ℕ, map, insert, ◌≡◌, Bool, take, ◌+◌, get_or_else, arith, insert_sorted, sort,
  drop, true, false, length, lookup, ◌∷◌, ltb, ◌≤◌, [], suc, Bool-cases, ◌||◌, ◌==◌, nat_beq, inl,
  ◌&&◌, inr, string_eq, length-take,
}
use guardianbot.Monitoring.Lifecycle.{SeverityCount, AgeCount, FindingsMetrics}
use guardianbot.Monitoring.Weekly.{sum}
use guardianbot.Monitoring.Weekly.Findings.{
  add_owners, all_owners, total_severities, total_ages, add_severities, add_ages, owner_before,
  findings_section, FindingsSection, ranked_owners, max_weekly_finding_owners, add_owner_count,
}
use guardianbot.Prelude.Js.{Collation}
use Prim.Native.Nat.{zero}
use guardianbot.Prelude.Sorted.{sort-IsSorted}

abbrev pub owner_sum : List (String × ℕ) → ℕ
owner_sum entries = sum (map (λ entry. entry.1) entries)

-- The findings of all owners, of all repositories.
unfoldable pub reported_by_owner : List FindingsMetrics → ℕ
reported_by_owner findings = sum (map (λ f. owner_sum f.by_owner) findings)

sum-insert :
    (k : String) (n : ℕ) (m : List (String × ℕ))
    → owner_sum (insert k n m) + get_or_else (lookup k m) 0 ≡ owner_sum m + n
unfolding sum
sum-insert k n [] = omega arith
sum-insert k n ((j, w) ∷ m) = elim (Bool-cases (j == k)) [
  | inl same ↦ rw same (omega arith)
  | inr differ ↦ rw differ (omega (arith, sum-insert k n m))
]

sum-add_owner_count :
    (entry : String × ℕ) (m : List (String × ℕ))
    → owner_sum (add_owner_count entry m) ≡ owner_sum m + entry.1
unfolding add_owner_count
sum-add_owner_count (owner, n) m =
    omega (arith, sum-insert owner (get_or_else (lookup owner m) 0 + n) m)

sum-add_owners :
    (entries m : List (String × ℕ))
    → owner_sum (add_owners entries m) ≡ owner_sum m + owner_sum entries
unfolding add_owners sum
sum-add_owners [] m = omega arith
sum-add_owners (entry ∷ entries) m =
    omega (arith, sum-add_owners entries (add_owner_count entry m), sum-add_owner_count entry m)

sum-all_owners :
    (findings : List FindingsMetrics) (m : List (String × ℕ))
    → owner_sum (all_owners findings m) ≡ owner_sum m + reported_by_owner findings
unfolding all_owners reported_by_owner sum
sum-all_owners [] m = omega arith
sum-all_owners (f ∷ rest) m =
    omega (arith, sum-all_owners rest (add_owners f.by_owner m), sum-add_owners f.by_owner m)

module _ (before : String × ℕ → String × ℕ → Bool) where
  sum-insert_sorted :
      (entry : String × ℕ) (m : List (String × ℕ))
      → owner_sum (insert_sorted before entry m) ≡ entry.1 + owner_sum m
  unfolding insert_sorted sum
  sum-insert_sorted entry [] = refl
  sum-insert_sorted entry (x ∷ xs) = elim (Bool-cases (before entry x)) [
    | inl here ↦ rw here refl
    | inr there ↦ rw there (omega (arith, sum-insert_sorted entry xs))
  ]

  sum-sort : (m : List (String × ℕ)) → owner_sum (sort before m) ≡ owner_sum m
  unfolding sort sum
  sum-sort [] = refl
  sum-sort (x ∷ xs) = omega (arith, sum-insert_sorted x (sort before xs), sum-sort xs)

sum-take-drop :
    (n : ℕ) (m : List (String × ℕ)) → owner_sum (take n m) + owner_sum (drop n m) ≡ owner_sum m
unfolding sum
sum-take-drop zero m = omega arith
sum-take-drop (suc n) [] = refl
sum-take-drop (suc n) (x ∷ xs) = omega (arith, sum-take-drop n xs)

total_severities-sums :
    (findings : List FindingsMetrics) (counts : SeverityCount)
    → ((total_severities findings counts).critical
        ≡ counts.critical + sum (map (λ f. f.by_severity.critical) findings))
      × ((total_severities findings counts).high
          ≡ counts.high + sum (map (λ f. f.by_severity.high) findings))
      × ((total_severities findings counts).medium
          ≡ counts.medium + sum (map (λ f. f.by_severity.medium) findings))
      × ((total_severities findings counts).low
          ≡ counts.low + sum (map (λ f. f.by_severity.low) findings))
      × ((total_severities findings counts).info
          ≡ counts.info + sum (map (λ f. f.by_severity.info) findings))
unfolding total_severities add_severities sum
total_severities-sums [] counts = (omega arith, omega arith, omega arith, omega arith, omega arith)
total_severities-sums (f ∷ rest) counts =
    let (a, b, c, d, e) = total_severities-sums rest (add_severities counts f.by_severity) in
    (omega (arith, a), omega (arith, b), omega (arith, c), omega (arith, d), omega (arith, e))

total_ages-sums :
    (findings : List FindingsMetrics) (counts : AgeCount)
    → ((total_ages findings counts).week
        ≡ counts.week + sum (map (λ f. f.age_buckets.week) findings))
      × ((total_ages findings counts).month
          ≡ counts.month + sum (map (λ f. f.age_buckets.month) findings))
      × ((total_ages findings counts).quarter
          ≡ counts.quarter + sum (map (λ f. f.age_buckets.quarter) findings))
      × ((total_ages findings counts).older
          ≡ counts.older + sum (map (λ f. f.age_buckets.older) findings))
unfolding total_ages add_ages sum
total_ages-sums [] counts = (omega arith, omega arith, omega arith, omega arith)
total_ages-sums (f ∷ rest) counts =
    let (a, b, c, d) = total_ages-sums rest (add_ages counts f.age_buckets) in
    (omega (arith, a), omega (arith, b), omega (arith, c), omega (arith, d))

module _ (locale : Collation) where
  owner_test :
      (m n p : ℕ) (x y z : Bool)
      → (x ≡ true → y ≡ true → z ≡ true)
      → (ltb n m || (nat_beq n m && x)) ≡ true
      → (ltb p n || (nat_beq p n && y)) ≡ true
      → (ltb p m || (nat_beq p m && z)) ≡ true
  owner_test m n p x y z h k l = ground (arith, h, k, l)

  owner_before_total :
      (a b : String × ℕ) → owner_before locale a b ≡ false → owner_before locale b a ≡ true
  unfolding owner_before
  owner_before_total a b h = ground (arith, h, locale.collate_total a.0 b.0)

  owner_before_trans :
      (a b c : String × ℕ)
      → owner_before locale a b ≡ true
      → owner_before locale b c ≡ true
      → owner_before locale a c ≡ true
  unfolding owner_before
  owner_before_trans a b c h k = owner_test a.1 b.1 c.1 _ _ _ (locale.collate_trans a.0 b.0 c.0) h k

  -- What the section accounts for: there is a ranking in which each owner stands once with its findings in all
  -- repositories, by number of findings and then by name; the section lists the first 50 of it and folds the
  -- rest into their sum, so that no finding of an owner is lost; and each severity and each age has the findings
  -- that the repositories report for it.
  pub record SectionAccounts (findings : List FindingsMetrics) (section : FindingsSection)
      : Type 0 where
    pub ranked : List (String × ℕ)
    pub distinct : HasDistinctKeys ranked
    pub totals : (owner : String) → counted owner ranked ≡ owner_total owner findings
    pub in_order : IsRanked locale ranked
    pub listed : section.by_owner ≡ take max_weekly_finding_owners ranked
    pub folded : section.other_owners ≡ owner_sum (drop max_weekly_finding_owners ranked)
    pub conserved : owner_sum section.by_owner + section.other_owners ≡ reported_by_owner findings
    pub few : length section.by_owner ≤ max_weekly_finding_owners
    pub critical_kept :
        section.by_severity.critical ≡ sum (map (λ f. f.by_severity.critical) findings)
    pub high_kept : section.by_severity.high ≡ sum (map (λ f. f.by_severity.high) findings)
    pub medium_kept : section.by_severity.medium ≡ sum (map (λ f. f.by_severity.medium) findings)
    pub low_kept : section.by_severity.low ≡ sum (map (λ f. f.by_severity.low) findings)
    pub info_kept : section.by_severity.info ≡ sum (map (λ f. f.by_severity.info) findings)
    pub week_kept : section.age_buckets.week ≡ sum (map (λ f. f.age_buckets.week) findings)
    pub month_kept : section.age_buckets.month ≡ sum (map (λ f. f.age_buckets.month) findings)
    pub quarter_kept : section.age_buckets.quarter ≡ sum (map (λ f. f.age_buckets.quarter) findings)
    pub older_kept : section.age_buckets.older ≡ sum (map (λ f. f.age_buckets.older) findings)

  -- The findings section of the weekly report ranks each owner with its findings in all repositories, by their
  -- number and then by name, lists the first 50 and folds the others into one number, and has of each severity
  -- and of each age the findings that the repositories report.
  pub findings_section-SectionAccounts :
      (findings : List FindingsMetrics)
      → SectionAccounts findings (findings_section locale findings)
  unfolding findings_section ranked_owners sum
  findings_section-SectionAccounts findings =
      let owners = all_owners findings [] in
      let ranked = sort (owner_before locale) owners in
      let distinct = all_owners-HasDistinctKeys findings [] no_keys in
      let (critical, high, medium, low, info) =
        total_severities-sums findings
          (record { critical = 0; high = 0; medium = 0; low = 0; info = 0 }) in
      let (week, month, quarter, older) =
        total_ages-sums findings (record { week = 0; month = 0; quarter = 0; older = 0 }) in
      record {
        ranked = ranked;
        distinct = sort-AreDistinct _ (owner_before locale) owners distinct;
        totals = λ owner. omega (
          arith,
          counted-sort (owner_before locale) owners distinct owner,
          counted-all_owners owner findings [],
        );
        in_order =
            IsSorted-IsRanked locale ranked
              (sort-IsSorted (owner_before locale) owner_before_total owner_before_trans owners);
        listed = refl;
        folded = refl;
        conserved = omega (
          arith,
          sum-take-drop max_weekly_finding_owners ranked,
          sum-sort (owner_before locale) owners,
          sum-all_owners findings [],
        );
        few = omega (arith, length-take max_weekly_finding_owners ranked);
        critical_kept = omega (arith, critical);
        high_kept = omega (arith, high);
        medium_kept = omega (arith, medium);
        low_kept = omega (arith, low);
        info_kept = omega (arith, info);
        week_kept = omega (arith, week);
        month_kept = omega (arith, month);
        quarter_kept = omega (arith, quarter);
        older_kept = omega (arith, older);
      }
    where
      no_keys : HasDistinctKeys {V = ℕ} []
      no_keys = unfold AreDistinct in tt
