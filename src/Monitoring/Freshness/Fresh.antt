-- ===== src/Monitoring/Freshness/Fresh.antt =====
-- `evaluateIndexFreshness`: lemmas on checks that neither warn nor fail.
use guardianbot.Prelude.{
  refl, Option, ℕ, String, ◌≡◌, some, arith, false, ◌-◌, ◌<◌, suc, min, get_or_else, true,
}
use guardianbot.Prelude.Js.{Dates}
use guardianbot.Monitoring.Freshness.{
  IndexInput, dated_check, evaluate_freshness, with_index_coverage, commit_check,
  evaluate_index_freshness, Ratio, aged_check, bounded_coverage, index_freshness_input,
  observed_check, non_empty, trails, FreshnessInput, ratio, ratio_ltb, no_ratio, text_check,
  ratio_check,
}
use guardianbot.Monitoring.Status.Worst.{IsCalm}
use guardianbot.Monitoring.Status.{status_weight, Check}
use mathlib.Core.Option.{none}
use Prim.Native.Nat.{zero}

-- The observation is there and its time can be read, and it is younger than both limits.
unfoldable pub IsFresh : Dates → ℕ → Option String → ℕ → ℕ → Type 0
IsFresh dates now observed warn_after fail_after =
    (text : String) × (observed ≡ some text)
    × ((time : ℕ) × (dates.parse text ≡ some time)
        × (now - time < warn_after)
        × (now - time < fail_after))

-- The fraction of files that the index leaves out is below the limit, where one is known.
unfoldable pub IsCovered : IndexInput → Option Ratio → Type 0
IsCovered input none = Unit
IsCovered input (some no_ratio) = Unit
IsCovered input (some (ratio zero whole)) = Unit
IsCovered input (some (ratio (suc part) whole)) =
    ratio_ltb (min (suc part) (suc whole)) whole (get_or_else input.truncation_warn (1, 9)) ≡ true

dated_check-calm :
    (dates : Dates) (now : ℕ) (input : FreshnessInput) (text : String) (read : Option ℕ)
    → IsCalm (dated_check dates now input text read)
    → (time : ℕ) × (read ≡ some time)
      × (now - time < input.warn_after)
      × (now - time < input.fail_after)
unfolding dated_check aged_check observed_check IsCalm status_weight
dated_check-calm dates now input text none calm = absurd (omega (arith, calm))
dated_check-calm dates now input text (some time) calm = (time, refl, parts.0, parts.1)
  where
    parts : (now - time < input.warn_after) × (now - time < input.fail_after)
    parts = ground (arith, calm)

non_empty-some : (o : Option String) (text : String) → non_empty o ≡ some text → o ≡ some text
non_empty-some none text h = cc
non_empty-some (some t) text h = ground (arith, h)

text_check-calm :
    (dates : Dates) (now : ℕ) (input : FreshnessInput) (observed : Option String)
    → IsCalm (text_check dates now input observed)
    → IsFresh dates now observed input.warn_after input.fail_after
unfolding text_check IsFresh IsCalm status_weight
text_check-calm dates now input none calm = absurd (omega (arith, calm))
text_check-calm dates now input (some text) calm =
    (text, refl, dated_check-calm dates now input text (dates.parse text) calm)

pub evaluate_freshness-IsFresh :
    (dates : Dates) (now : ℕ) (input : FreshnessInput)
    → IsCalm (evaluate_freshness dates now input)
    → IsFresh dates now input.observed_at input.warn_after input.fail_after
unfolding evaluate_freshness IsFresh
evaluate_freshness-IsFresh dates now input calm =
    let (text, there, fresh) = text_check-calm dates now input (non_empty input.observed_at) calm in
    (text, non_empty-some input.observed_at text there, fresh)

bounded_coverage-IsCalm :
    (check : Check) (input : IndexInput) (part whole : ℕ)
    → IsCalm (bounded_coverage check input part whole)
    → IsCalm check × (ratio_ltb part whole (get_or_else input.truncation_warn (1, 9)) ≡ true)
unfolding bounded_coverage IsCalm status_weight
bounded_coverage-IsCalm check input part whole calm = ground (arith, calm)

ratio_check-IsCalm :
    (check : Check) (input : IndexInput) (truncation : Option Ratio)
    → IsCalm (ratio_check check input truncation)
    → IsCalm check × IsCovered input truncation
unfolding ratio_check IsCovered
ratio_check-IsCalm check input none calm = (calm, tt)
ratio_check-IsCalm check input (some no_ratio) calm = (calm, tt)
ratio_check-IsCalm check input (some (ratio zero whole)) calm = (calm, tt)
ratio_check-IsCalm check input (some (ratio (suc part) whole)) calm =
    bounded_coverage-IsCalm check input (min (suc part) (suc whole)) whole calm

commit_check-IsCalm :
    (check : Check) (input : IndexInput)
    → IsCalm (commit_check check input)
    → IsCalm check × (trails input.expected_commit input.indexed_commit ≡ false)
unfolding commit_check IsCalm status_weight
commit_check-IsCalm check input calm = ground (arith, calm)

-- An index whose check neither warns nor fails was built at a time that can be read and is younger
-- than both limits, does not trail the expected commit, and leaves out a smaller fraction of the files
-- than the limit says, where the fraction is known.
pub evaluate_index-IsFresh :
    (dates : Dates) (now : ℕ) (input : IndexInput)
    → IsCalm (evaluate_index_freshness dates now input)
    → IsFresh dates now input.indexed_at input.warn_after input.fail_after
      × (trails input.expected_commit input.indexed_commit ≡ false)
      × IsCovered input input.truncation
unfolding evaluate_index_freshness index_freshness_input with_index_coverage
evaluate_index-IsFresh dates now input calm =
    let (known, covered) = ratio_check-IsCalm _ input input.truncation calm in
    let (fresh, current) = commit_check-IsCalm _ input known in
    (evaluate_freshness-IsFresh dates now (index_freshness_input input) fresh, current, covered)
