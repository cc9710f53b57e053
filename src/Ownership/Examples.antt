-- ===== src/Ownership/Examples.antt =====
-- Patterns and owners at concrete paths.
use guardianbot.Prelude.{refl, List, ◌≢◌, Bool, ◌≡◌, ◌∷◌, [], true, some, false}
use guardianbot.Ownership.Glob.{matching_open, path_matches_pattern, strip_slashes}
use guardianbot.Ownership.Owner.{
  OwnershipRule, OwnershipContext, repository_relative_path, rule_matches, is_path_owned,
  resolve_finding_owner,
}
use guardianbot.Prelude.Text.{code_units}
use guardianbot.Ownership.Owner.{semgrep}
use guardianbot.Ownership.Glob.Equivalence.{matches_somewhere, path_matches_pattern-matches}
use guardianbot.Ownership.Owner.Precedence.{resolve-last_rule}

abbrev pattern_runs : List Bool
pattern_runs =
    path_matches_pattern (code_units "/src/**/a?.ts") (code_units "src/x/y/ab.ts")
    ∷ path_matches_pattern (code_units "src/*/ab.ts") (code_units "src/x/y/ab.ts")
    ∷ path_matches_pattern (code_units "*.ts") (code_units "src/x/ab.ts")
    ∷ path_matches_pattern (code_units "src/") (code_units "src/x/ab.ts")
    ∷ path_matches_pattern (code_units "//") (code_units "src")
    ∷ []

pattern_results : pattern_runs ≡ true ∷ false ∷ true ∷ true ∷ false ∷ []
unfolding matching_open
pattern_results = refl

path_matches_pattern-matches_example :
    path_matches_pattern (code_units "/src/**/a?.ts") (code_units "src/x/y/ab.ts")
    ≡ matches_somewhere (strip_slashes (code_units "/src/**/a?.ts")) (code_units "src/x/y/ab.ts")
path_matches_pattern-matches_example =
    path_matches_pattern-matches (code_units "/src/**/a?.ts") (code_units "src/x/y/ab.ts")

abbrev backend : OwnershipRule
backend = record { paths = code_units "src/**" ∷ []; owner = "@acme/backend" }

abbrev docs : OwnershipRule
docs = record { paths = code_units "docs/" ∷ []; owner = "@acme/docs" }

abbrev context : OwnershipContext
context = record {
  rules = docs ∷ backend ∷ docs ∷ [];
  service_owner = some "@acme/platform";
  code_owners = record { pattern = code_units "*"; owners = "@acme/all" ∷ [] } ∷ [];
}

relative_path :
    repository_relative_path (some (code_units "/workspace/src/a.ts"))
    ≡ some (code_units "src/a.ts")
unfolding repository_relative_path strip_slashes
relative_path = refl

backend_matches : rule_matches (code_units "src/a.ts") backend ≡ true
unfolding rule_matches matching_open
backend_matches = refl

docs_differs : rule_matches (code_units "src/a.ts") docs ≡ false
unfolding rule_matches matching_open
docs_differs = refl

backend_named : backend.owner ≢ ""
backend_named e = cc

path_owned : is_path_owned semgrep ≡ true
unfolding is_path_owned
path_owned = refl

resolve-last_rule_example :
    resolve_finding_owner semgrep (some (code_units "/workspace/src/a.ts")) context
    ≡ "@acme/backend"
resolve-last_rule_example =
    resolve-last_rule semgrep (some (code_units "/workspace/src/a.ts")) (code_units "src/a.ts")
      context (docs ∷ []) (docs ∷ []) backend path_owned relative_path refl backend_matches
      (docs_differs, tt) backend_named
