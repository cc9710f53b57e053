-- ===== src/Dast/Profile.antt =====
-- apps/control-plane/src/dast-session.ts, `parseProfiles`: the profiles of dynamic scans, from the environment.
use guardianbot.Store.Payload.{field_value}
use guardianbot.Dast.Exchange.{bounded_credential, utf8_length}
use guardianbot.Dast.Fields.{
  Engine, DastError, thrown, environment_key, is_profile_id, text_field, text_of,
  positive_safe_integer, normalize_repository, safe_slug, safe_request_path, safe_header_name,
  assert_only_keys,
}
use guardianbot.Prelude.Js.{obj, bool, field, end, Json, Fields}
use guardianbot.Prelude.{
  String, Option, List, Bool, ℕ, Result, ◌∷◌, ◌++◌, err, [], ok, get_or_else, some, ◌>>=◌, ◌+s◌,
  false, insert, if◌then◌else◌, ◌==◌, ltb, ◌&&◌, is_value, ◌*◌, string_eq, leb,
}
use guardianbot.Dast.Origin.{exact_exchange_url, exact_public_https_origin}
use mathlib.Core.Bool.{true}
use mathlib.Core.Option.{none}

pub data ProfileMode : Type 0 where
  exchange : (exchange_url exchange_credential_env : String) → ProfileMode
  static_credential : (credential_env credential_expires_at : String) → ProfileMode

pub record DastProfile : Type 0 where
  pub id : String
  pub mode : ProfileMode
  pub repository : String
  pub repository_id : ℕ
  pub origin : String
  pub deployment_environment : String
  pub session_assertion_path : String
  pub header_name : String
  pub ttl_seconds : ℕ

pub data DastProfileMode : Type 0 where
  exchange_mode : DastProfileMode
  static_mode : DastProfileMode

unfoldable pub mode_of : Option String → String → Result DastError DastProfileMode
mode_of none id = err (thrown ("DAST profile " +s id +s " mode is invalid"))
mode_of (some text) id =
    if text == "exchange"
    then ok exchange_mode
    else if text == "static"
    then ok static_mode
    else err (thrown ("DAST profile " +s id +s " mode is invalid"))

abbrev pub common_keys : List String
common_keys =
    "mode" ∷ "repository" ∷ "repositoryId" ∷ "origin" ∷ "deploymentEnvironment"
    ∷ "sessionAssertionPath" ∷ "headerName" ∷ "ttlSeconds" ∷ []

abbrev pub keys_of : DastProfileMode → List String
keys_of exchange_mode = common_keys ++ "exchangeUrl" ∷ "exchangeCredentialEnv" ∷ []
keys_of static_mode =
    common_keys ++ "credentialEnv" ∷ "credentialExpiresAt" ∷ "pocStaticCredential" ∷ []

-- A guard of the parser, that throws where the test fails.
unfoldable pub require : Bool → String → Result DastError Bool
require true message = ok true
require false message = err (thrown message)

unfoldable pub is_true : Option Json → Bool
is_true (some (bool true)) = true
is_true _ = false

module _ (engine : Engine) (environment : String → Option String) where
  unfoldable pub printed_expiry : Option ℕ → String → Result DastError String
  printed_expiry none id = err (thrown ("DAST profile " +s id +s " credentialExpiresAt is invalid"))
  printed_expiry (some expiry) id = ok (engine.dates.to_iso expiry)

  -- What only profiles of the mode have.
  unfoldable pub profile_mode :
      DastProfileMode → String → String → Fields → Result DastError ProfileMode
  unfolding environment_key bounded_credential exact_exchange_url require is_true printed_expiry
      text_of
  profile_mode exchange_mode id origin profile = do
    variable ←
        environment_key (field_value "exchangeCredentialEnv" profile)
          ("DAST profile " +s id +s " exchangeCredentialEnv")
    credential ←
        bounded_credential (environment variable) ("DAST profile " +s id +s " exchange credential")
    url ← exact_exchange_url engine (field_value "exchangeUrl" profile) origin
    ok (exchange url variable)
  profile_mode static_mode id origin profile = do
    allowed ←
        require
          (is_true (field_value "pocStaticCredential" profile)
            && is_value (environment "GUARDIANBOT_ALLOW_POC_STATIC_DAST") "1")
          ("DAST profile " +s id +s " static mode requires explicit PoC-only authorization")
    variable ←
        environment_key (field_value "credentialEnv" profile)
          ("DAST profile " +s id +s " credentialEnv")
    credential ←
        bounded_credential (environment variable) ("DAST profile " +s id +s " static credential")
    expires_at ←
        printed_expiry
          (engine.dates.parse (text_of engine (field_value "credentialExpiresAt" profile))) id
    ok (static_credential variable expires_at)

  unfoldable pub parse_fields : String → Fields → Result DastError DastProfile
  unfolding mode_of assert_only_keys text_field require positive_safe_integer
      exact_public_https_origin normalize_repository safe_slug safe_request_path safe_header_name
      profile_mode
  parse_fields id profile = do
    mode ← mode_of (text_field (field_value "mode" profile)) id
    only ← assert_only_keys (keys_of mode) profile ("DAST profile " +s id)
    ttl_seconds ←
        positive_safe_integer (field_value "ttlSeconds" profile)
          ("DAST profile " +s id +s " ttlSeconds")
    bounded ←
        require (leb 60 ttl_seconds && leb ttl_seconds 900)
          ("DAST profile " +s id +s " ttlSeconds must be between 60 and 900")
    origin ←
        exact_public_https_origin engine (field_value "origin" profile)
          ("DAST profile " +s id +s " origin")
    repository ←
        normalize_repository (field_value "repository" profile)
          ("DAST profile " +s id +s " repository")
    repository_id ←
        positive_safe_integer (field_value "repositoryId" profile)
          ("DAST profile " +s id +s " repositoryId")
    deployment_environment ←
        safe_slug (field_value "deploymentEnvironment" profile)
          ("DAST profile " +s id +s " deploymentEnvironment")
    session_assertion_path ←
        safe_request_path (field_value "sessionAssertionPath" profile)
          ("DAST profile " +s id +s " sessionAssertionPath")
    header_name ← safe_header_name (field_value "headerName" profile)
    own ← profile_mode mode id origin profile
    ok (record {
      id = id;
      mode = own;
      repository = repository;
      repository_id = repository_id;
      origin = origin;
      deployment_environment = deployment_environment;
      session_assertion_path = session_assertion_path;
      header_name = header_name;
      ttl_seconds = ttl_seconds;
    })

  unfoldable pub parse_profile : String → Json → Result DastError DastProfile
  unfolding parse_fields is_profile_id require
  parse_profile id (obj profile) = do
    named ← require (is_profile_id id) ("DAST profile id " +s id +s " is invalid")
    parse_fields id profile
  parse_profile id _ = do
    named ← require (is_profile_id id) ("DAST profile id " +s id +s " is invalid")
    err (thrown ("DAST profile " +s id +s " must be an object"))

  -- The loop over the entries of the document, with the profiles so far.
  unfoldable pub parse_entries :
      Fields → List (String × DastProfile) → Result DastError (List (String × DastProfile))
  unfolding parse_profile
  parse_entries end profiles = ok profiles
  parse_entries (field id value rest) profiles =
      parse_profile id value >>= (λ profile. parse_entries rest (insert id profile profiles))

  unfoldable pub parse_document : Option Json → Result DastError (List (String × DastProfile))
  unfolding parse_entries
  parse_document none = err (thrown "Unexpected token in JSON")
  parse_document (some (obj root)) = parse_entries root []
  parse_document (some _) = err (thrown "GUARDIANBOT_DAST_PROFILES_JSON must be an object")

  unfoldable pub parse_profiles :
      (String → Option Json) → Result DastError (List (String × DastProfile))
  unfolding parse_document utf8_length
  parse_profiles parse_json =
      let raw = get_or_else (environment "GUARDIANBOT_DAST_PROFILES_JSON") "{}" in
      if ltb (256 * 1024) (utf8_length raw)
      then err (thrown "GUARDIANBOT_DAST_PROFILES_JSON exceeds its size limit")
      else parse_document (parse_json raw)
