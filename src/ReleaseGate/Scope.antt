-- ===== src/ReleaseGate/Scope.antt =====
-- `findingScope`, `findingSource` and `lowerTags`: what DefectDojo tags say of a Test.
pub mod InScope
use text.Mathlib.Text.{starts_with}
use guardianbot.Prelude.{
  List, Option, String, ◌∷◌, get_or_else, ◌+s◌, if◌then◌else◌, [], not, includes, some, filter,
  ◌==◌, length, ◌&&◌, string_eq, nat_eq,
}
use guardianbot.Prelude.Text.{trim, decimal, to_lower}
use guardianbot.ReleaseGate.Types.{ReleaseCandidate, Source, dast, image, sast, unknown}
use mathlib.Core.Option.{none}

pub data FindingScope : Type 0 where
  in_scope other_repository other_environment other_digest other_commit : FindingScope

-- `lowerTags`: the tags that are texts, trimmed and in lower case, without empty ones.
lower_tags_of : List (Option String) → List String
lower_tags_of [] = []
lower_tags_of (none ∷ tags) = lower_tags_of tags
lower_tags_of (some tag ∷ tags) =
    let rest = lower_tags_of tags in
    let lowered = to_lower (trim tag) in if lowered == "" then rest else lowered ∷ rest

unfoldable pub lower_tags : Option (List (Option String)) → List String
unfolding lower_tags_of trim to_lower
lower_tags tags = lower_tags_of (get_or_else tags [])

abbrev pub repo_tag : ReleaseCandidate → String
repo_tag candidate = "guardianbot:repo-id:" +s decimal candidate.repository_id

abbrev pub env_tag : ReleaseCandidate → String
env_tag candidate = "guardianbot:env:" +s candidate.environment

abbrev pub image_tag : ReleaseCandidate → String
image_tag candidate = "guardianbot:image:" +s candidate.digest

abbrev pub commit_tag : ReleaseCandidate → String
commit_tag candidate = "guardianbot:commit:" +s candidate.commit

-- `findingScope`; a `Set` of tags is a list, in which membership alone counts.
unfoldable pub finding_scope : List String → ReleaseCandidate → FindingScope
finding_scope tags candidate =
    if not (includes tags (repo_tag candidate))
    then other_repository
    else let env_tags = filter (λ tag. starts_with tag "guardianbot:env:") tags in
      if not (length env_tags == 0) && not (includes env_tags (env_tag candidate))
      then other_environment
      else let image_tags = filter (λ tag. starts_with tag "guardianbot:image:") tags in
        if not (length image_tags == 0)
        then (if includes image_tags (image_tag candidate) then in_scope else other_digest)
        else if includes tags (commit_tag candidate)
        then in_scope
        else other_commit

-- `findingSource`
unfoldable pub finding_source : List String → Source
finding_source tags =
    if includes tags "guardianbot:profile:dast"
    then dast
    else if includes tags "guardianbot:profile:image"
    then image
    else if includes tags "guardianbot:profile:security"
    then sast
    else unknown
