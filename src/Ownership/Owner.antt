-- ===== src/Ownership/Owner.antt =====
-- apps/control-plane/src/findings-lifecycle.ts: `repositoryRelativePath` and `resolveFindingOwner`.
pub mod Precedence
use Prim.Native.String.{compare, slice}
use text.Mathlib.Text.{is_le}
use guardianbot.Prelude.{
  List, String, ℕ, Option, Bool, some, ◌∷◌, none, any, sort, [], true, if◌then◌else◌, nat_beq,
  get_or_else, includes, ◌+s◌, false, ◌==◌, ◌&&◌, string_eq,
}
use guardianbot.Ownership.Glob.{strip_slashes, path_matches_pattern, slash}

pub data FindingSource : Type 0 where
  semgrep trivy trivy_image zap : FindingSource

pub record OwnershipRule : Type 0 where
  pub paths : List (List ℕ)
  pub owner : String

pub record CodeOwnersRule : Type 0 where
  pub pattern : List ℕ
  pub owners : List String

-- What the configuration says of ownership, and the rules of CODEOWNERS.
pub record OwnershipContext : Type 0 where
  pub rules : List OwnershipRule
  pub service_owner : Option String
  pub code_owners : List CodeOwnersRule

abbrev pub unowned : String
unowned = "unowned"

abbrev pub max_owner_length : ℕ
max_owner_length = 256

-- `path.replace(/^prefix/, "")` of one text in front
unfoldable pub strip_prefix : List ℕ → List ℕ → Option (List ℕ)
strip_prefix [] s = some s
strip_prefix (p ∷ prefix) [] = none
strip_prefix (p ∷ prefix) (c ∷ s) =
    let rest = strip_prefix prefix s in if nat_beq p c then rest else none

-- `/^\/(?:src|workspace)\//`
strip_mount : List ℕ → List ℕ
unfolding strip_prefix
strip_mount path = elim (strip_prefix (47 ∷ 115 ∷ 114 ∷ 99 ∷ 47 ∷ []) path) [
  | some rest ↦ rest
  | none ↦
      get_or_else
        (strip_prefix (47 ∷ 119 ∷ 111 ∷ 114 ∷ 107 ∷ 115 ∷ 112 ∷ 97 ∷ 99 ∷ 101 ∷ 47 ∷ []) path) path
]

-- `/^\.?\/+/`
strip_lead : List ℕ → List ℕ
strip_lead [] = []
strip_lead (c ∷ []) = strip_slashes (c ∷ [])
strip_lead (c ∷ d ∷ s) =
    if nat_beq c 46 && nat_beq d slash then strip_slashes (d ∷ s) else strip_slashes (c ∷ d ∷ s)

abbrev non_empty_path : List ℕ → Option (List ℕ)
non_empty_path [] = none
non_empty_path (c ∷ s) = some (c ∷ s)

unfoldable pub repository_relative_path : Option (List ℕ) → Option (List ℕ)
unfolding strip_mount strip_lead
repository_relative_path none = none
repository_relative_path (some []) = none
repository_relative_path (some (c ∷ path)) = non_empty_path (strip_lead (strip_mount (c ∷ path)))

unfoldable pub rule_matches : List ℕ → OwnershipRule → Bool
rule_matches path rule = any (λ pattern. path_matches_pattern pattern path) rule.paths

-- The loop over the ownership rules: the last that matches.
unfoldable pub rules_owner : List ℕ → List OwnershipRule → Option String → Option String
rules_owner path [] owner = owner
rules_owner path (rule ∷ rest) owner =
    rules_owner path rest (if rule_matches path rule then some rule.owner else owner)

-- The loop over CODEOWNERS.
unfoldable pub code_owners : List ℕ → List CodeOwnersRule → List String → List String
code_owners path [] owners = owners
code_owners path (rule ∷ rest) owners =
    code_owners path rest (if path_matches_pattern rule.pattern path then rule.owners else owners)

-- `[...new Set(owners)]`
unique_from : List String → List String → List String
unique_from seen [] = []
unique_from seen (x ∷ xs) =
    let rest = unique_from (x ∷ seen) xs in if includes seen x then rest else x ∷ rest

join_spaces : List String → String
join_spaces [] = ""
join_spaces (x ∷ []) = x
join_spaces (x ∷ y ∷ rest) = x +s (" " +s join_spaces (y ∷ rest))

unfoldable pub owners_text : List String → String
unfolding unique_from join_spaces
owners_text owners =
    slice (join_spaces (sort (λ a b. is_le (compare a b)) (unique_from [] owners))) 0
      max_owner_length

code_owners_owner : List String → String
code_owners_owner [] = unowned
code_owners_owner (o ∷ owners) = owners_text (o ∷ owners)

-- The owner by rules, where its name is not empty, else by CODEOWNERS.
path_owner : OwnershipContext → List ℕ → Option String → String
unfolding code_owners_owner
path_owner context path none = code_owners_owner (code_owners path context.code_owners [])
path_owner context path (some owner) =
    if owner == "" then code_owners_owner (code_owners path context.code_owners []) else owner

unfoldable pub is_path_owned : FindingSource → Bool
is_path_owned semgrep = true
is_path_owned trivy = true
is_path_owned _ = false

service_owner_of : Option String → String
service_owner_of none = unowned
service_owner_of (some owner) = if owner == "" then unowned else owner

located_owner : OwnershipContext → Bool → Option (List ℕ) → String
unfolding path_owner service_owner_of
located_owner context path_owned (some path) =
    path_owner context path (rules_owner path context.rules none)
located_owner context path_owned none =
    if path_owned then unowned else service_owner_of context.service_owner

unfoldable pub resolve_finding_owner : FindingSource → Option (List ℕ) → OwnershipContext → String
unfolding located_owner
resolve_finding_owner source path context =
    let path_owned = is_path_owned source in
    located_owner context path_owned (if path_owned then repository_relative_path path else none)
