-- ===== src/Dast/Accepted.antt =====
-- apps/control-plane/src/dast-session.ts, `parseProfiles`: the fields of an accepted profile, one by one.
use guardianbot.Dast.Fields.{
  Engine, Url, is_request_path, is_header_name, safe_request_path, safe_header_name,
}
use guardianbot.Dast.Words.{utf16_length}
use guardianbot.Dast.Profile.{require}
use guardianbot.Prelude.Js.{Json, obj, num, str, null, arr, bool}
use guardianbot.Prelude.{
  refl, Bool, String, ◌≡◌, Option, ok, some, true, Bool-cases, leb, inl, inr, err, subst, and_iff,
  string_eq, not-true,
}
use guardianbot.Dast.Origin.{is_exchange_url, is_public_origin, private_or_local_host}
use guardianbot.Dast.Exchange.{bounded_credential, credential_ok}
use guardianbot.Dast.Trusted.{guard-ok}
use mathlib.Core.Bool.{false}
use mathlib.Core.Option.{none}
use guardianbot.Prelude.Text.{trim}

pub require-ok : (b x : Bool) (message : String) → require b message ≡ ok x → b ≡ true
unfolding require
require-ok true x message h = refl
require-ok false x message h = cc

-- An address that is no more than a public origin, without credentials.
pub record IsPublicOrigin (engine : Engine) (url : Url) : Type 0 where
  pub secure : url.protocol ≡ "https:"
  pub no_user : url.username ≡ ""
  pub no_password : url.password ≡ ""
  pub no_path : url.pathname ≡ "/"
  pub no_query : url.search ≡ ""
  pub not_private : private_or_local_host engine url.hostname ≡ false

-- An address with a path on an origin, without credentials and query.
pub record IsExchangeUrl (origin : String) (url : Url) : Type 0 where
  pub secure : url.protocol ≡ "https:"
  pub same_origin : url.origin ≡ origin
  pub no_user : url.username ≡ ""
  pub no_password : url.password ≡ ""
  pub no_query : url.search ≡ ""

pub public-IsPublicOrigin :
    (engine : Engine) (url : Url) → is_public_origin engine url ≡ true → IsPublicOrigin engine url
unfolding is_public_origin
public-IsPublicOrigin engine url h =
    let (h, host) = (and_iff _ _).0 h in
    let (h, hash) = (and_iff _ _).0 h in
    let (h, query) = (and_iff _ _).0 h in
    let (h, path) = (and_iff _ _).0 h in
    let (h, password) = (and_iff _ _).0 h in
    let (scheme, user) = (and_iff _ _).0 h in
    record {
      secure = (string_eq.beq_iff _ _).0 scheme;
      no_user = (string_eq.beq_iff _ _).0 user;
      no_password = (string_eq.beq_iff _ _).0 password;
      no_path = (string_eq.beq_iff _ _).0 path;
      no_query = (string_eq.beq_iff _ _).0 query;
      not_private = not-true (private_or_local_host engine url.hostname) host;
    }

pub exchange-IsExchangeUrl :
    (engine : Engine) (origin : String) (url : Url)
    → is_exchange_url engine origin url ≡ true
    → IsExchangeUrl origin url
unfolding is_exchange_url
exchange-IsExchangeUrl engine origin url h =
    let (h, hash) = (and_iff _ _).0 h in
    let (h, query) = (and_iff _ _).0 h in
    let (h, path) = (and_iff _ _).0 h in
    let (h, password) = (and_iff _ _).0 h in
    let (h, user) = (and_iff _ _).0 h in
    let (scheme, same) = (and_iff _ _).0 h in
    record {
      secure = (string_eq.beq_iff _ _).0 scheme;
      same_origin = (string_eq.beq_iff _ _).0 same;
      no_user = (string_eq.beq_iff _ _).0 user;
      no_password = (string_eq.beq_iff _ _).0 password;
      no_query = (string_eq.beq_iff _ _).0 query;
    }

pub bounded-known :
    (found : Option String) (label value : String)
    → bounded_credential found label ≡ ok value
    → (text : String) × (found ≡ some text) × (credential_ok text ≡ true)
unfolding bounded_credential
bounded-known none label value h = cc
bounded-known (some text) label value h =
    (text, refl, (guard-ok (credential_ok text) text value _ h).0)

pub path-known :
    (value : Option Json) (label path : String)
    → safe_request_path value label ≡ ok path
    → is_request_path path ≡ true
unfolding safe_request_path
path-known none label path h = cc
path-known (some null) label path h = cc
path-known (some (bool b)) label path h = cc
path-known (some (num n)) label path h = cc
path-known (some (arr items)) label path h = cc
path-known (some (obj fields)) label path h = cc
path-known (some (str text)) label path h =
    let (good, same) = guard-ok (is_request_path text) text path _ h in
    subst (λ s. is_request_path s ≡ true) same good

pub header-known :
    (value : Option Json) (name : String)
    → safe_header_name value ≡ ok name
    → is_header_name name ≡ true
unfolding safe_header_name
header-known none name h = cc
header-known (some null) name h = cc
header-known (some (bool b)) name h = cc
header-known (some (num n)) name h = cc
header-known (some (arr items)) name h = cc
header-known (some (obj fields)) name h = cc
header-known (some (str text)) name h = elim (Bool-cases (leb (utf16_length text) 80)) [
  | inl short ↦
      let (good, same) = guard-ok (is_header_name (trim text)) (trim text) name _ (rw short at h) in
      subst (λ s. is_header_name s ≡ true) same good
  | inr long ↦ let e : err _ ≡ ok name = rw long at h in cc
]
