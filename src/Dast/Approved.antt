-- ===== src/Dast/Approved.antt =====
-- apps/control-plane/src/dast-session.ts, `parseProfiles`: what every accepted profile satisfies.
use guardianbot.Dast.Fields.{
  Engine, Url, is_profile_id, is_request_path, is_header_name, safe_request_path, safe_header_name,
  environment_key, text_field, assert_only_keys, positive_safe_integer, normalize_repository,
  text_of, safe_slug,
}
use guardianbot.Dast.Words.{utf16_length}
use guardianbot.Dast.Profile.{
  is_true, DastProfile, ProfileMode, exchange, static_credential, exchange_mode, static_mode,
  require, printed_expiry, profile_mode, parse_fields, DastProfileMode, mode_of, keys_of,
}
use guardianbot.Prelude.Js.{Json, Fields, obj, num, str, null, arr, bool}
use guardianbot.Prelude.{
  refl, String, ◌≡◌, Option, ok, some, true, ℕ, ◌≤◌, Bool-cases, leb, inl, inr, err, subst, sym,
  >>=-eq-ok, ok-injective, ◌+s◌, ◌&&◌, is_value, and_iff, leb_iff, string_eq,
}
use guardianbot.Dast.Origin.{
  is_exchange_url, origin_of, exact_public_https_origin, exchange_url_of, exact_exchange_url,
  is_public_origin,
}
use guardianbot.Dast.Exchange.{bounded_credential, credential_ok}
use guardianbot.Dast.Trusted.{guard-ok, is_value-true}
use mathlib.Core.Option.{none}
use guardianbot.Store.Payload.{field_value}
use guardianbot.Dast.Accepted.{
  IsExchangeUrl, IsPublicOrigin, bounded-known, require-ok, public-IsPublicOrigin,
  exchange-IsExchangeUrl, path-known, header-known,
}

module _ (engine : Engine) (environment : String → Option String) where
  -- A variable of the environment with a credential.
  HasCredential : String → Type 0
  HasCredential variable =
      (value : String) × (environment variable ≡ some value) × (credential_ok value ≡ true)

  -- What a mode may be, for a profile of an origin.
  unfoldable pub IsApprovedMode : String → ProfileMode → Type 0
  unfolding HasCredential
  IsApprovedMode origin (exchange url variable) =
      HasCredential variable × ((found : Url) × (found.href ≡ url) × IsExchangeUrl origin found)
  IsApprovedMode origin (static_credential variable expires_at) =
      HasCredential variable
      × (environment "GUARDIANBOT_ALLOW_POC_STATIC_DAST" ≡ some "1")
      × ((t : ℕ) × (expires_at ≡ engine.dates.to_iso t))

  -- A profile that may be used.
  pub record IsApproved (profile : DastProfile) : Type 0 where
    pub named : is_profile_id profile.id ≡ true
    pub long_enough : 60 ≤ profile.ttl_seconds
    pub short_enough : profile.ttl_seconds ≤ 900
    pub url : Url
    pub url_origin : url.origin ≡ profile.origin
    pub public_origin : IsPublicOrigin engine url
    pub path_form : is_request_path profile.session_assertion_path ≡ true
    pub header_form : is_header_name profile.header_name ≡ true
    pub approved_mode : IsApprovedMode profile.origin profile.mode

  bounded-HasCredential :
      (variable label value : String)
      → bounded_credential (environment variable) label ≡ ok value
      → HasCredential variable
  unfolding HasCredential
  bounded-HasCredential variable label value h = bounded-known (environment variable) label value h

  origin_of-known :
      (found : Option Url) (label origin : String)
      → origin_of engine found label ≡ ok origin
      → (url : Url) × (url.origin ≡ origin) × IsPublicOrigin engine url
  unfolding origin_of
  origin_of-known none label origin h = cc
  origin_of-known (some url) label origin h =
      let (good, same) = guard-ok (is_public_origin engine url) url.origin origin _ h in
      (url, same, public-IsPublicOrigin engine url good)

  origin-known :
      (value : Option Json) (label origin : String)
      → exact_public_https_origin engine value label ≡ ok origin
      → (url : Url) × (url.origin ≡ origin) × IsPublicOrigin engine url
  unfolding exact_public_https_origin
  origin-known none label origin h = cc
  origin-known (some null) label origin h = cc
  origin-known (some (bool b)) label origin h = cc
  origin-known (some (num n)) label origin h = cc
  origin-known (some (arr items)) label origin h = cc
  origin-known (some (obj fields)) label origin h = cc
  origin-known (some (str text)) label origin h =
      elim (Bool-cases (leb (utf16_length text) 2_048)) [
        | inl short ↦ origin_of-known (engine.parse_url text) label origin (rw short at h)
        | inr long ↦ let e : err _ ≡ ok origin = rw long at h in cc
      ]

  found_url-known :
      (found : Option Url) (origin href : String)
      → exchange_url_of engine found origin ≡ ok href
      → (url : Url) × (url.href ≡ href) × IsExchangeUrl origin url
  unfolding exchange_url_of
  found_url-known none origin href h = cc
  found_url-known (some url) origin href h =
      let (good, same) = guard-ok (is_exchange_url engine origin url) url.href href _ h in
      (url, same, exchange-IsExchangeUrl engine origin url good)

  exact_url-known :
      (value : Option Json) (origin href : String)
      → exact_exchange_url engine value origin ≡ ok href
      → (url : Url) × (url.href ≡ href) × IsExchangeUrl origin url
  unfolding exact_exchange_url
  exact_url-known none origin href h = cc
  exact_url-known (some null) origin href h = cc
  exact_url-known (some (bool b)) origin href h = cc
  exact_url-known (some (num n)) origin href h = cc
  exact_url-known (some (arr items)) origin href h = cc
  exact_url-known (some (obj fields)) origin href h = cc
  exact_url-known (some (str text)) origin href h =
      elim (Bool-cases (leb (utf16_length text) 2_048)) [
        | inl short ↦ found_url-known (engine.parse_url text) origin href (rw short at h)
        | inr long ↦ let e : err _ ≡ ok href = rw long at h in cc
      ]

  printed-known :
      (found : Option ℕ) (id expires_at : String)
      → printed_expiry engine environment found id ≡ ok expires_at
      → (t : ℕ) × (expires_at ≡ engine.dates.to_iso t)
  unfolding printed_expiry
  printed-known none id expires_at h = cc
  printed-known (some t) id expires_at h = (t, sym (ok-injective _ expires_at h))

  profile_mode-IsApprovedMode :
      (mode : DastProfileMode) (id origin : String) (profile : Fields) (result : ProfileMode)
      → profile_mode engine environment mode id origin profile ≡ ok result
      → IsApprovedMode origin result
  unfolding profile_mode IsApprovedMode
  profile_mode-IsApprovedMode exchange_mode id origin profile result h =
      let (variable, named, h) =
        >>=-eq-ok
          (environment_key (field_value "exchangeCredentialEnv" profile)
            ("DAST profile " +s id +s " exchangeCredentialEnv"))
          _ h in
      let (credential, there, h) =
        >>=-eq-ok
          (bounded_credential (environment variable)
            ("DAST profile " +s id +s " exchange credential"))
          _ h in
      let (url, read, h) =
        >>=-eq-ok (exact_exchange_url engine (field_value "exchangeUrl" profile) origin) _ h in
      subst (IsApprovedMode origin) (ok-injective (exchange url variable) result h) (
        bounded-HasCredential variable ("DAST profile " +s id +s " exchange credential") credential
            there,
        exact_url-known (field_value "exchangeUrl" profile) origin url read,
      )
  profile_mode-IsApprovedMode static_mode id origin profile result h =
      let (b, allowed, h) =
        >>=-eq-ok
          (require
            (is_true (field_value "pocStaticCredential" profile)
              && is_value (environment "GUARDIANBOT_ALLOW_POC_STATIC_DAST") "1")
            ("DAST profile " +s id +s " static mode requires explicit PoC-only authorization"))
          _ h in
      let (variable, named, h) =
        >>=-eq-ok
          (environment_key (field_value "credentialEnv" profile)
            ("DAST profile " +s id +s " credentialEnv"))
          _ h in
      let (credential, there, h) =
        >>=-eq-ok
          (bounded_credential (environment variable)
            ("DAST profile " +s id +s " static credential"))
          _ h in
      let (expires_at, dated, h) =
        >>=-eq-ok
          (printed_expiry engine environment
            (engine.dates.parse (text_of engine (field_value "credentialExpiresAt" profile))) id)
          _ h in
      subst (IsApprovedMode origin) (ok-injective (static_credential variable expires_at) result h)
        (
          bounded-HasCredential variable ("DAST profile " +s id +s " static credential") credential
              there,
          is_value-true (environment "GUARDIANBOT_ALLOW_POC_STATIC_DAST") "1"
              ((and_iff _ _).0 (require-ok _ b _ allowed)).1,
          printed-known _ id expires_at dated,
        )

  pub parse_fields-IsApproved :
      (id : String) (fields : Fields) (profile : DastProfile)
      → is_profile_id id ≡ true
      → parse_fields engine environment id fields ≡ ok profile
      → (profile.id ≡ id) × IsApproved profile
  unfolding parse_fields
  parse_fields-IsApproved id fields profile named h =
      let (mode, b0, h) = >>=-eq-ok (mode_of (text_field (field_value "mode" fields)) id) _ h in
      let (only, b1, h) =
        >>=-eq-ok (assert_only_keys (keys_of mode) fields ("DAST profile " +s id)) _ h in
      let (ttl, b2, h) =
        >>=-eq-ok
          (positive_safe_integer (field_value "ttlSeconds" fields)
            ("DAST profile " +s id +s " ttlSeconds"))
          _ h in
      let (b, bounded, h) =
        >>=-eq-ok
          (require (leb 60 ttl && leb ttl 900)
            ("DAST profile " +s id +s " ttlSeconds must be between 60 and 900"))
          _ h in
      let (origin, read, h) =
        >>=-eq-ok
          (exact_public_https_origin engine (field_value "origin" fields)
            ("DAST profile " +s id +s " origin"))
          _ h in
      let (repository, b3, h) =
        >>=-eq-ok
          (normalize_repository (field_value "repository" fields)
            ("DAST profile " +s id +s " repository"))
          _ h in
      let (repository_id, b4, h) =
        >>=-eq-ok
          (positive_safe_integer (field_value "repositoryId" fields)
            ("DAST profile " +s id +s " repositoryId"))
          _ h in
      let (deployment_environment, b5, h) =
        >>=-eq-ok
          (safe_slug (field_value "deploymentEnvironment" fields)
            ("DAST profile " +s id +s " deploymentEnvironment"))
          _ h in
      let (path, path_read, h) =
        >>=-eq-ok
          (safe_request_path (field_value "sessionAssertionPath" fields)
            ("DAST profile " +s id +s " sessionAssertionPath"))
          _ h in
      let (header, header_read, h) =
        >>=-eq-ok (safe_header_name (field_value "headerName" fields)) _ h in
      let (own, moded, h) = >>=-eq-ok (profile_mode engine environment mode id origin fields) _ h in
      let (low, high) = (and_iff _ _).0 (require-ok _ b _ bounded) in
      let (url, url_origin, public_origin) =
        origin-known (field_value "origin" fields) ("DAST profile " +s id +s " origin") origin
          read in
      subst (λ p. (p.id ≡ id) × IsApproved p) (ok-injective _ profile h)
        (
          refl,
          record {
            named = named;
            long_enough = (leb_iff _ _).0 low;
            short_enough = (leb_iff _ _).0 high;
            url = url;
            url_origin = url_origin;
            public_origin = public_origin;
            path_form =
                path-known (field_value "sessionAssertionPath" fields)
                  ("DAST profile " +s id +s " sessionAssertionPath") path path_read;
            header_form = header-known (field_value "headerName" fields) header header_read;
            approved_mode = profile_mode-IsApprovedMode mode id origin fields own moded;
          },
        )
