-- ===== src/Monitoring/Freshness.antt =====
-- packages/monitoring/src/freshness.ts: the age of an observation, and of a repository's index.
pub mod Fresh
use guardianbot.Prelude.{
  String, Option, ℕ, some, if◌then◌else◌, Bool, ◌*◌, ◌++◌, none, ◌+s◌, leb, ◌==◌, ltb, suc, false,
  [], ◌-◌, get_or_else, ◌∷◌, min, not, string_eq, ◌+◌, ◌||◌, ◌&&◌, ◌/◌,
}
use guardianbot.Prelude.Js.{Dates}
use guardianbot.Monitoring.Status.{
  Check, Status, failing, fraction, text_or_null, ms, warning, passing, status_eq,
}
use Prim.Native.Nat.{zero}
use guardianbot.Prelude.Text.{decimal}

pub record FreshnessInput : Type 0 where
  pub key : String
  pub label : String
  pub observed_at : Option String
  pub warn_after : ℕ
  pub fail_after : ℕ
  pub missing_summary : Option String

abbrev bare : String → Status → String → Check
bare key status summary = record {
  key = key;
  status = status;
  summary = summary;
  observed_at = none;
  age = none;
  metadata = [];
}

observed_check : Dates → FreshnessInput → ℕ → ℕ → Status → String → Check
observed_check dates input time age status note =
    record (bare input.key status (input.label +s note)) {
      observed_at = some (dates.to_iso time);
      age = some (ms age);
    }

aged_check : Dates → FreshnessInput → ℕ → ℕ → Check
unfolding observed_check
aged_check dates input time age =
    if leb input.fail_after age
    then observed_check dates input time age failing " is stale"
    else if leb input.warn_after age
    then observed_check dates input time age warning " is nearing freshness expiry"
    else observed_check dates input time age passing " is fresh"

dated_check : Dates → ℕ → FreshnessInput → String → Option ℕ → Check
unfolding aged_check
dated_check dates now input text none =
    record (bare input.key failing (input.label +s " timestamp is invalid")) {
      observed_at = some text;
    }
dated_check dates now input text (some time) = aged_check dates input time (now - time)

-- A text that a truth test takes: present and not empty.
abbrev pub non_empty : Option String → Option String
non_empty none = none
non_empty (some t) = if t == "" then none else some t

text_check : Dates → ℕ → FreshnessInput → Option String → Check
unfolding dated_check
text_check dates now input none =
    bare input.key failing
      (get_or_else input.missing_summary (input.label +s " has never been observed"))
text_check dates now input (some text) = dated_check dates now input text (dates.parse text)

unfoldable pub evaluate_freshness : Dates → ℕ → FreshnessInput → Check
unfolding text_check
evaluate_freshness dates now input = text_check dates now input (non_empty input.observed_at)

-- A ratio is `part / (suc whole)`, or a number that is not finite or not positive.
pub data Ratio : Type 0 where
  ratio : ℕ → ℕ → Ratio
  no_ratio : Ratio

pub record IndexInput : Type 0 where
  pub indexed_at : Option String
  pub warn_after : ℕ
  pub fail_after : ℕ
  pub expected_commit : Option String
  pub indexed_commit : Option String
  pub truncation : Option Ratio
  pub truncation_warn : Option (ℕ × ℕ)

-- `bounded < warnRatio` of two fractions, each with one less than its denominator.
unfoldable pub ratio_ltb : ℕ → ℕ → ℕ × ℕ → Bool
ratio_ltb part whole (warn_part, warn_whole) = ltb (part * suc warn_whole) (warn_part * suc whole)

-- `Math.round((1 - bounded) * 100)` of `part / (suc whole)`
covered_percent : ℕ → ℕ → ℕ
covered_percent part whole = (200 * (suc whole - part) + suc whole) / (2 * suc whole)

bounded_coverage : Check → IndexInput → ℕ → ℕ → Check
unfolding ratio_ltb covered_percent
bounded_coverage check input part whole =
    let known = record check {
      metadata = check.metadata ++ (("truncationRatio", fraction part whole) ∷ []);
    } in
    if check.status == failing || ratio_ltb part whole (get_or_else input.truncation_warn (1, 9))
    then known
    else record known {
      status = warning;
      summary =
          check.summary
          +s ("; index covers only "
              +s (decimal (covered_percent part whole) +s "% of indexable files"));
    }

ratio_check : Check → IndexInput → Option Ratio → Check
unfolding bounded_coverage
ratio_check check input none = check
ratio_check check input (some no_ratio) = check
ratio_check check input (some (ratio zero whole)) = check
ratio_check check input (some (ratio (suc part) whole)) =
    bounded_coverage check input (min (suc part) (suc whole)) whole

unfoldable pub with_index_coverage : Check → IndexInput → Check
unfolding ratio_check
with_index_coverage check input = ratio_check check input input.truncation

-- `expected && indexed && expected !== indexed`
unfoldable pub trails : Option String → Option String → Bool
trails none indexed = false
trails (some expected) none = false
trails (some expected) (some indexed) =
    not (expected == "") && not (indexed == "") && not (expected == indexed)

index_freshness_input : IndexInput → FreshnessInput
index_freshness_input input = record {
  key = "index-freshness";
  label = "Repository index";
  observed_at = input.indexed_at;
  warn_after = input.warn_after;
  fail_after = input.fail_after;
  missing_summary = some "Repository index has not been built";
}

commit_check : Check → IndexInput → Check
unfolding trails
commit_check freshness input =
    let known = record freshness {
      metadata =
          freshness.metadata
          ++ (("expectedCommitSha", text_or_null input.expected_commit)
              ∷ ("indexedCommitSha", text_or_null input.indexed_commit)
              ∷ []);
    } in
    if not (freshness.status == failing) && trails input.expected_commit input.indexed_commit
    then record known {
      status = warning;
      summary = "Repository index is fresh but trails the expected commit";
    }
    else known

unfoldable pub evaluate_index_freshness : Dates → ℕ → IndexInput → Check
unfolding commit_check index_freshness_input
evaluate_index_freshness dates now input =
    with_index_coverage
      (commit_check (evaluate_freshness dates now (index_freshness_input input)) input) input
