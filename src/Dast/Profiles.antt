-- ===== src/Dast/Profiles.antt =====
-- apps/control-plane/src/dast-session.ts, `parseProfiles`: what the profiles of an accepted document satisfy.
use guardianbot.Dast.Approved.{IsApproved, parse_fields-IsApproved}
use guardianbot.Dast.Accepted.{require-ok}
use guardianbot.Dast.Fields.{Engine, is_profile_id}
use guardianbot.Dast.Profile.{
  DastProfile, require, parse_profile, parse_entries, parse_document, parse_profiles,
}
use guardianbot.Prelude.Js.{Json, Fields, obj, field, end, num, str, null, arr, bool}
use guardianbot.Prelude.{
  String, Option, List, ◌≡◌, lookup, ok, insert, some, >>=-eq-ok, Bool-cases, subst, get_or_else,
  ◌==◌, ok-injective, [], ltb, string_eq, ◌+s◌, ◌*◌, inl, lookup-insert_self, some-injective, err,
  sym, inr, ◌∙◌,
}
use mathlib.Core.Option.{none}
use guardianbot.Dast.Exchange.{utf8_length}
use guardianbot.Prelude.Keys.{lookup-insert_ne, ne_of_beq}

module _ (engine : Engine) (environment : String → Option String) where
  -- Each profile stands under its own id and is approved.
  unfoldable pub AllApproved : List (String × DastProfile) → Type 0
  AllApproved profiles =
      (id : String)
      → (profile : DastProfile) → lookup id profiles ≡ some profile
      → (profile.id ≡ id) × IsApproved engine environment profile

  parse_profile-IsApproved :
      (id : String) (value : Json) (profile : DastProfile)
      → parse_profile engine environment id value ≡ ok profile
      → (profile.id ≡ id) × IsApproved engine environment profile
  unfolding parse_profile
  parse_profile-IsApproved id (obj fields) profile h =
      let (x, named, h) =
        >>=-eq-ok (require (is_profile_id id) ("DAST profile id " +s id +s " is invalid")) _ h in
      parse_fields-IsApproved engine environment id fields profile (require-ok _ x _ named) h
  parse_profile-IsApproved id null profile h =
      let (x, named, h) =
        >>=-eq-ok (require (is_profile_id id) ("DAST profile id " +s id +s " is invalid")) _ h in
      cc
  parse_profile-IsApproved id (bool b) profile h =
      let (x, named, h) =
        >>=-eq-ok (require (is_profile_id id) ("DAST profile id " +s id +s " is invalid")) _ h in
      cc
  parse_profile-IsApproved id (num n) profile h =
      let (x, named, h) =
        >>=-eq-ok (require (is_profile_id id) ("DAST profile id " +s id +s " is invalid")) _ h in
      cc
  parse_profile-IsApproved id (str s) profile h =
      let (x, named, h) =
        >>=-eq-ok (require (is_profile_id id) ("DAST profile id " +s id +s " is invalid")) _ h in
      cc
  parse_profile-IsApproved id (arr items) profile h =
      let (x, named, h) =
        >>=-eq-ok (require (is_profile_id id) ("DAST profile id " +s id +s " is invalid")) _ h in
      cc

  insert-AllApproved :
      (id : String) (profile : DastProfile) (profiles : List (String × DastProfile))
      → (profile.id ≡ id) × IsApproved engine environment profile
      → AllApproved profiles
      → AllApproved (insert id profile profiles)
  unfolding AllApproved
  insert-AllApproved id profile profiles approved all j found h = elim (Bool-cases (id == j)) [
    | inl same ↦
        let e : id ≡ j = (string_eq.beq_iff id j).0 same in
        let there : lookup j (insert id profile profiles) ≡ some profile =
          subst (λ k. lookup k (insert id profile profiles) ≡ some profile) e
            (lookup-insert_self id profile profiles) in
        let known : profile ≡ found = some-injective _ _ (sym there ∙ h) in
        subst (λ p. (p.id ≡ j) × IsApproved engine environment p) known (approved.0 ∙ e, approved.1)
    | inr differ ↦
        all j found (sym (lookup-insert_ne id j profile profiles (ne_of_beq id j differ)) ∙ h)
  ]

  parse_entries-AllApproved :
      (entries : Fields) (before after : List (String × DastProfile))
      → AllApproved before
      → parse_entries engine environment entries before ≡ ok after
      → AllApproved after
  unfolding parse_entries
  parse_entries-AllApproved end before after all h =
      subst AllApproved (ok-injective before after h) all
  parse_entries-AllApproved (field id value rest) before after all h =
      let (profile, parsed, h) = >>=-eq-ok (parse_profile engine environment id value) _ h in
      parse_entries-AllApproved rest (insert id profile before) after
        (insert-AllApproved id profile before (parse_profile-IsApproved id value profile parsed)
          all)
        h

  parse_document-AllApproved :
      (document : Option Json) (profiles : List (String × DastProfile))
      → parse_document engine environment document ≡ ok profiles
      → AllApproved profiles
  unfolding parse_document AllApproved
  parse_document-AllApproved none profiles h = cc
  parse_document-AllApproved (some (obj root)) profiles h =
      parse_entries-AllApproved root [] profiles (λ id profile found. cc) h
  parse_document-AllApproved (some null) profiles h = cc
  parse_document-AllApproved (some (bool b)) profiles h = cc
  parse_document-AllApproved (some (num n)) profiles h = cc
  parse_document-AllApproved (some (str s)) profiles h = cc
  parse_document-AllApproved (some (arr items)) profiles h = cc

  -- Where the profiles of the environment are accepted, each stands under its own id, which has the allowed form;
  -- it lives from 60 to 900 seconds, on the origin of an address that counts as public, with a path and a
  -- header of the allowed forms; its variable of the environment has a bounded credential; and it is exchanged at
  -- an address of that same origin, or the environment allows static credentials and its own ends at a printed
  -- time.
  pub parse_profiles-AllApproved :
      (parse_json : String → Option Json) (profiles : List (String × DastProfile))
      → parse_profiles engine environment parse_json ≡ ok profiles
      → AllApproved profiles
  unfolding parse_profiles
  parse_profiles-AllApproved parse_json profiles h =
      let raw = get_or_else (environment "GUARDIANBOT_DAST_PROFILES_JSON") "{}" in
      elim (Bool-cases (ltb (256 * 1024) (utf8_length raw))) [
        | inl long ↦ let e : err _ ≡ ok profiles = rw long at h in cc
        | inr short ↦ parse_document-AllApproved (parse_json raw) profiles (rw short at h)
      ]
