-- ===== src/Ownership/Owner/Precedence.antt =====
-- `resolveFindingOwner`: lemmas on the rule that decides.
use guardianbot.Prelude.{string_eq, subst, ◌≢◌, sym, beq_of_ne, refl}
use guardianbot.Prelude.{
  refl, List, ℕ, Option, String, All, ◌≡◌, false, true, ◌∷◌, ◌++◌, some, if◌then◌else◌, none,
  string_eq,
}
use guardianbot.Ownership.Owner.{
  rules_owner, resolve_finding_owner, located_owner, path_owner, OwnershipRule, FindingSource,
  OwnershipContext, rule_matches, is_path_owned, repository_relative_path,
}
use mathlib.Core.List.{[]}

no_match_keeps :
    (path : List ℕ) (rules : List OwnershipRule) (owner : Option String)
    → All (λ rule. rule_matches path rule ≡ false) rules
    → rules_owner path rules owner ≡ owner
unfolding rules_owner
no_match_keeps path [] owner none_match = refl
no_match_keeps path (rule ∷ rest) owner (differs, none_match) =
    rw differs (no_match_keeps path rest owner none_match)

last_match_wins :
    (path : List ℕ) (before after : List OwnershipRule) (rule : OwnershipRule)
    (owner : Option String)
    → rule_matches path rule ≡ true
    → All (λ later. rule_matches path later ≡ false) after
    → rules_owner path (before ++ (rule ∷ after)) owner ≡ some rule.owner
unfolding rules_owner
last_match_wins path [] after rule owner holds none_match =
    subst (λ b. rules_owner path after (if b then some rule.owner else owner) ≡ some rule.owner)
      (sym holds) (no_match_keeps path after (some rule.owner) none_match)
last_match_wins path (first_rule ∷ before) after rule owner holds none_match =
    last_match_wins path before after rule
      (if rule_matches path first_rule then some first_rule.owner else owner) holds none_match

-- A finding of a source that has paths, with a path in the repository, is owned by the last ownership
-- rule that matches its path, whatever CODEOWNERS and the service owner say, where that rule names an
-- owner that is not empty.
pub resolve-last_rule :
    (source : FindingSource) (raw : Option (List ℕ)) (path : List ℕ) (context : OwnershipContext)
    (before after : List OwnershipRule) (rule : OwnershipRule)
    → is_path_owned source ≡ true
    → repository_relative_path raw ≡ some path
    → context.rules ≡ before ++ (rule ∷ after)
    → rule_matches path rule ≡ true
    → All (λ later. rule_matches path later ≡ false) after
    → rule.owner ≢ ""
    → resolve_finding_owner source raw context ≡ rule.owner
unfolding resolve_finding_owner located_owner path_owner
resolve-last_rule source raw path context before after rule owned there rules holds last named =
    rw owned (
      rw there (
        rw rules (
          rw (last_match_wins path before after rule none holds last)
            (rw (beq_of_ne rule.owner "" named)))))
