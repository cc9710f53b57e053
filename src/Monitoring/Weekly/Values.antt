-- ===== src/Monitoring/Weekly/Values.antt =====
-- packages/monitoring/src/weekly-report.ts, `buildReviewValueSummary`: what became of advisory findings, by
-- category, of the fleet and of each repository.
use Prim.Native.Char.{code}
use Prim.Native.String.{[], ◌∷◌}
use guardianbot.Prelude.{
  ℕ, String, List, Option, if◌then◌else◌, Bool, insert, ◌∷◌, ◌+◌, leb, true, false, get_or_else,
  nat_beq, map, ◌&&◌, lookup, none, sort, is_some, filter, ◌++◌, some, length, string_eq, ◌||◌,
}
use guardianbot.Monitoring.Weekly.{Floats, RawCounts, RepositoryWeeklyMetrics}
use guardianbot.Prelude.Js.{Number, nat, Collation, max_safe_integer}
use mathlib.Core.List.{[]}
use guardianbot.Prelude.Text.{string_length}

pub record ValueCounts : Type 0 where
  pub fixed : ℕ
  pub dismissed : ℕ
  pub ignored : ℕ
  pub unresolved : ℕ

pub record ValueStats (floats : Floats) : Type 0 where
  pub counts : ValueCounts
  pub precision : Option floats.Float
  pub sample_size : ℕ

pub record RepositoryValue (floats : Floats) : Type 0 where
  pub repository : String
  pub totals : ValueStats floats
  pub by_category : List (String × ValueStats floats)

pub record ValueSummary (floats : Floats) : Type 0 where
  pub totals : ValueStats floats
  pub by_category : List (String × ValueStats floats)
  pub repositories : List (RepositoryValue floats)

abbrev pub empty_counts : ValueCounts
empty_counts = record { fixed = 0; dismissed = 0; ignored = 0; unresolved = 0 }

-- `typeof value === "number" && Number.isSafeInteger(value) && value > 0 ? value : 0`
unfoldable pub count : Number → ℕ
count (nat n) = if leb n max_safe_integer then n else 0
count _ = 0

unfoldable pub add_counts : ValueCounts → RawCounts → ValueCounts
unfolding count
add_counts target source = record {
  fixed = target.fixed + count source.fixed;
  dismissed = target.dismissed + count source.dismissed;
  ignored = target.ignored + count source.ignored;
  unresolved = target.unresolved + count source.unresolved;
}

-- `addCounts` of counts that were counted before: they are natural numbers.
unfoldable pub add_value_counts : ValueCounts → ValueCounts → ValueCounts
unfolding add_counts
add_value_counts target source = add_counts target (record {
  fixed = nat source.fixed;
  dismissed = nat source.dismissed;
  ignored = nat source.ignored;
  unresolved = nat source.unresolved;
})

-- `/^[a-z][a-z-]{0,31}$/`
abbrev is_lower : ℕ → Bool
is_lower c = leb 97 c && leb c 122

unfoldable pub is_slug_rest : String → Bool
is_slug_rest [] = true
is_slug_rest (c ∷ s) =
    let rest = is_slug_rest s in (is_lower (code c) || nat_beq (code c) 45) && rest

unfoldable pub is_review_value_category : String → Bool
unfolding is_slug_rest
is_review_value_category [] = false
is_review_value_category (c ∷ s) = is_lower (code c) && is_slug_rest s && leb (string_length s) 31

unfoldable pub review_value_category : String → String
unfolding is_review_value_category
review_value_category category = if is_review_value_category category then category else "other"

-- The maps and totals that the loops add to.
pub record Tally : Type 0 where
  pub repository_totals : ValueCounts
  pub repository_categories : List (String × ValueCounts)
  pub fleet_categories : List (String × ValueCounts)

unfoldable pub add_category :
    String → RawCounts → List (String × ValueCounts) → List (String × ValueCounts)
unfolding add_counts
add_category category counts categories =
    insert category (add_counts (get_or_else (lookup category categories) empty_counts) counts)
      categories

unfoldable pub tally_category : String × RawCounts → Tally → Tally
unfolding review_value_category add_category add_counts
tally_category (raw, counts) tally =
    let category = review_value_category raw in
    record {
      repository_totals = add_counts tally.repository_totals counts;
      repository_categories = add_category category counts tally.repository_categories;
      fleet_categories = add_category category counts tally.fleet_categories;
    }

unfoldable pub tally_categories : List (String × RawCounts) → Tally → Tally
unfolding tally_category
tally_categories [] tally = tally
tally_categories (entry ∷ entries) tally = tally_categories entries (tally_category entry tally)

module _ (floats : Floats) (locale : Collation) where
  unfoldable pub review_value_stats : ValueCounts → ValueStats floats
  review_value_stats counts = record {
    counts = counts;
    precision =
        if nat_beq sample_size 0
        then none
        else some (floats.to_fixed_4 (floats.quotient counts.fixed sample_size));
    sample_size = sample_size;
  }
    where
      sample_size : ℕ
      sample_size = counts.fixed + counts.dismissed

  unfoldable pub sorted_stats : List (String × ValueCounts) → List (String × ValueStats floats)
  unfolding review_value_stats
  sorted_stats categories =
      map (λ entry. (entry.0, review_value_stats entry.1))
        (sort (λ left right. locale.collate left.0 right.0) categories)

  unfoldable pub measured : RepositoryWeeklyMetrics floats → Bool
  measured repository = is_some repository.review_value

  -- The fleet's totals and categories, and the repositories so far.
  pub record SummaryState : Type 0 where
    pub totals : ValueCounts
    pub categories : List (String × ValueCounts)
    pub repositories : List (RepositoryValue floats)

  unfoldable pub summarize_repository : RepositoryWeeklyMetrics floats → SummaryState → SummaryState
  unfolding tally_categories add_value_counts sorted_stats review_value_stats
  summarize_repository repository state =
      let tally = tally_categories (get_or_else repository.review_value []) (record {
        repository_totals = empty_counts;
        repository_categories = [];
        fleet_categories = state.categories;
      }) in
      record {
        totals = add_value_counts state.totals tally.repository_totals;
        categories = tally.fleet_categories;
        repositories =
            state.repositories
            ++ record {
              repository = repository.repository;
              totals = review_value_stats tally.repository_totals;
              by_category = sorted_stats tally.repository_categories;
            }
              ∷ [];
      }

  unfoldable pub summarize_all : List (RepositoryWeeklyMetrics floats) → SummaryState → SummaryState
  unfolding summarize_repository
  summarize_all [] state = state
  summarize_all (repository ∷ rest) state =
      summarize_all rest (summarize_repository repository state)

  unfoldable pub summary_of : SummaryState → ValueSummary floats
  unfolding review_value_stats sorted_stats
  summary_of state = record {
    totals = review_value_stats state.totals;
    by_category = sorted_stats state.categories;
    repositories = state.repositories;
  }

  unfoldable pub build_review_value_summary :
      List (RepositoryWeeklyMetrics floats) → Option (ValueSummary floats)
  unfolding measured summarize_all summary_of
  build_review_value_summary repositories =
      let found = filter measured repositories in
      if nat_beq (length found) 0
      then none
      else some (
          summary_of (
            summarize_all
              (sort (λ left right. locale.collate left.repository right.repository) found)
              (record { totals = empty_counts; categories = []; repositories = [] })))
