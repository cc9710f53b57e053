-- ===== src/Dast/Opening.antt =====
-- apps/control-plane/src/dast-session.ts: a unit that opens the definitions of its model, for tests.
use guardianbot.Prelude.Text.{ends_with, is_space, to_lower, trim, decimal}
use guardianbot.Store.Payload.{field_value}
use guardianbot.Ingest.Observations.{is_fingerprint}
use guardianbot.Dast.Fields.{
  is_slug, only_keys, assert_only_keys, has_control, text_field, text_of, profile_reference,
  reference_of, is_profile_id, safe_request_path, is_request_path, is_relative_path,
  normalize_repository, repository_of, is_repository, positive_safe_integer, positive_number,
  exact_sha, sha_of, is_sha, environment_key, safe_slug, safe_header_name, is_header_name,
}
use guardianbot.Dast.Words.{
  strip_prefix, is_nonempty_of, all_chars, starts_with, is_word, behind_first, contains,
  utf16_length, split_slash,
}
use guardianbot.Dast.Identity.{
  split_at, agrees, expect, validate_oidc_identity, job_sha, event_allowed, workflows_match,
  environment_matches, numeric_oidc_claim, is_decimal, digits_value, parse_job_workflow_ref,
  job_parts, parse_caller_workflow_ref, caller_parts, workflow_parts, is_workflow_path, is_line,
}
use guardianbot.Dast.Profile.{
  require, is_true, mode_of, parse_profiles, parse_document, parse_entries, parse_profile,
  parse_fields, profile_mode, printed_expiry,
}
use guardianbot.Dast.Claims.{
  later_than, blocks_claim, holds_lease, claim_over, claim_dast_session_issuance, complete_existing,
  complete_dast_session_issuance, release_dast_session_issuance,
}
use guardianbot.Dast.Session.{
  no_space, token_of, has_bearer, is_image_digest, scan_profile_name, issuance_text,
  profile_matches, authorized_profile, deployed, session_error, static_for, credential_for,
  assurance_of, prepared, finalized, after_claim, claim_of, issue_claimed, admitted, issue_admitted,
  issue, identity_checked, request_checked, active_repository, bearer_checked,
}
use guardianbot.Dast.Exchange.{
  utf8_length, credential_ok, bounded_credential, expiry_within, dated_credential, accepted_text,
  accepted_fields, accepted_answer, exchange_credential,
}
use guardianbot.Dast.Request.{parse_request, request_fields, parse_scan_profile}
use guardianbot.Dast.Origin.{
  exact_public_https_origin, origin_of, is_public_origin, private_or_local_host, is_private_host,
  without_brackets, strip_open, strip_close, split_dots, octets_of, is_octet, octet_value,
  is_private_address, is_local_v6, exact_exchange_url, exchange_url_of, is_exchange_url,
}

-- Opens the whole issuing: for tests.
unfoldable pub dast_open : Unit {0}
unfolding later_than blocks_claim claim_over claim_dast_session_issuance holds_lease
    complete_existing complete_dast_session_issuance release_dast_session_issuance utf8_length
    has_control credential_ok bounded_credential text_field only_keys expiry_within text_of
    dated_credential accepted_text accepted_fields accepted_answer exchange_credential field_value
    is_space strip_prefix no_space token_of has_bearer is_fingerprint is_image_digest
    scan_profile_name decimal issuance_text profile_matches authorized_profile deployed
    session_error static_for credential_for assurance_of prepared finalized after_claim claim_of
    issue_claimed admitted issue_admitted issue identity_checked request_checked active_repository
    bearer_checked validate_oidc_identity parse_request request_fields assert_only_keys require
    profile_reference reference_of is_profile_id is_nonempty_of all_chars contains starts_with
    exact_public_https_origin origin_of is_public_origin private_or_local_host is_private_host
    without_brackets strip_open strip_close split_dots octets_of is_octet octet_value
    is_private_address is_local_v6 safe_request_path is_request_path is_relative_path utf16_length
    normalize_repository repository_of is_repository split_slash positive_safe_integer
    positive_number exact_sha sha_of is_sha parse_scan_profile to_lower trim expect agrees job_sha
    event_allowed workflows_match environment_matches numeric_oidc_claim is_decimal digits_value
    parse_job_workflow_ref job_parts parse_caller_workflow_ref caller_parts workflow_parts split_at
    is_workflow_path is_line ends_with parse_profiles parse_document parse_entries parse_profile
    parse_fields mode_of profile_mode environment_key is_word behind_first safe_slug is_slug
    safe_header_name is_header_name exact_exchange_url exchange_url_of is_exchange_url is_true
    printed_expiry
dast_open = tt
