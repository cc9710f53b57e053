-- ===== src/Dast/Fields.antt =====
-- apps/control-plane/src/dast-session.ts: the parsers of single fields. What is thrown is a `DastError`.
use guardianbot.Dast.Words.{
  strip_prefix, starts_with, contains, all_chars, utf16_length, is_digit, is_lower, is_upper,
  is_word, split_slash, is_nonempty_of,
}
use Prim.Native.String.{[], ◌∷◌}
use guardianbot.Prelude.Text.{to_lower, trim, is_space}
use guardianbot.Prelude.{
  ◌∷◌, [], Option, Result, some, none, ok, err, if◌then◌else◌, string_eq, nat_eq, String, List, ℕ,
  Bool, nat_beq, ltb, ◌+s◌, leb, ◌||◌, true, ◌&&◌, not, false, any, includes,
}
use guardianbot.Prelude.Js.{
  Json, Number, Dates, Fields, str, num, nat, null, field, end, max_safe_integer,
}
use Prim.Native.Char.{code}

-- A refusal with its status, a `DastSessionError`, or any other error that is thrown.
pub data DastError : Type 0 where
  refused : (message : String) (status_code : ℕ) → DastError
  thrown : (message : String) → DastError

pub record Url : Type 0 where
  pub protocol : String
  pub username : String
  pub password : String
  pub hostname : String
  pub pathname : String
  pub search : String
  pub hash : String
  pub origin : String
  pub href : String

-- The engine's dates, its `String(value)` of a value that is no text, `new URL(text)`, where `none` is the error
-- that it throws, and `Number(text)`.
pub record Engine : Type 0 where
  pub dates : Dates
  pub to_text : Json → String
  pub parse_url : String → Option Url
  pub to_number : String → Number

unfoldable pub text_field : Option Json → Option String
text_field (some (str text)) = some text
text_field _ = none

unfoldable pub only_keys : List String → Fields → Bool
only_keys allowed end = true
only_keys allowed (field key value rest) =
    let others = only_keys allowed rest in includes allowed key && others

unfoldable pub extra_keys : List String → Fields → List String
extra_keys allowed end = []
extra_keys allowed (field key value rest) =
    let others = extra_keys allowed rest in if includes allowed key then others else key ∷ others

-- `texts.join(", ")`
unfoldable pub join_comma : List String → String
join_comma [] = ""
join_comma (text ∷ []) = text
join_comma (text ∷ next ∷ rest) = text +s ", " +s join_comma (next ∷ rest)

unfoldable pub assert_only_keys : List String → Fields → String → Result DastError Bool
unfolding only_keys extra_keys join_comma
assert_only_keys allowed value label =
    if only_keys allowed value
    then ok true
    else err (
        thrown (label +s " contains unsupported fields: " +s join_comma (extra_keys allowed value)))

-- `[a-z0-9_.-]`
abbrev pub is_name_char : ℕ → Bool
is_name_char c = is_lower c || is_digit c || nat_beq c 95 || nat_beq c 46 || nat_beq c 45

-- `/^[a-z0-9_.-]+\/[a-z0-9_.-]+$/`
unfoldable pub is_repository : String → Bool
unfolding split_slash is_nonempty_of
is_repository text = elim (split_slash text) [
  | some (owner, name) ↦ is_nonempty_of is_name_char owner && is_nonempty_of is_name_char name
  | none ↦ false
]

-- `normalizeRepository` of a text
unfoldable pub repository_of : String → String → Result DastError String
unfolding is_repository
repository_of text label =
    if is_repository (to_lower (trim text))
    then ok (to_lower (trim text))
    else err (thrown (label +s " is invalid"))

unfoldable pub normalize_repository : Option Json → String → Result DastError String
unfolding repository_of
normalize_repository (some (str text)) label = repository_of text label
normalize_repository _ label = err (thrown (label +s " is invalid"))

unfoldable pub positive_number : Number → String → Result DastError ℕ
positive_number (nat n) label =
    if ltb 0 n && leb n max_safe_integer
    then ok n
    else err (thrown (label +s " must be a positive safe integer"))
positive_number _ label = err (thrown (label +s " must be a positive safe integer"))

unfoldable pub positive_safe_integer : Option Json → String → Result DastError ℕ
unfolding positive_number
positive_safe_integer (some (num n)) label = positive_number n label
positive_safe_integer _ label = err (thrown (label +s " must be a positive safe integer"))

-- `/^[a-z][a-z0-9-]{0,62}$/`
unfoldable pub is_slug : String → Bool
unfolding is_word
is_slug = is_word is_lower (λ c. is_lower c || is_digit c || nat_beq c 45) 62

unfoldable pub safe_slug : Option Json → String → Result DastError String
unfolding is_slug
safe_slug (some (str text)) label =
    if is_slug text then ok text else err (thrown (label +s " is invalid"))
safe_slug _ label = err (thrown (label +s " is invalid"))

-- `/^[a-f0-9]{40}$/`
unfoldable pub is_sha : String → Bool
unfolding utf16_length all_chars
is_sha text =
    nat_beq (utf16_length text) 40 && all_chars (λ c. is_digit c || (leb 97 c && leb c 102)) text

-- `exactSha` of a text
unfoldable pub sha_of : String → String → Result DastError String
unfolding is_sha
sha_of text label =
    if is_sha (to_lower text)
    then ok (to_lower text)
    else err (thrown (label +s " must be an exact commit SHA"))

-- `[A-Za-z0-9._/-]`
abbrev pub is_profile_char : ℕ → Bool
is_profile_char c =
    is_lower c
    || is_upper c
    || is_digit c
    || nat_beq c 46
    || nat_beq c 95
    || nat_beq c 47
    || nat_beq c 45

unfoldable pub is_profile_id : String → Bool
unfolding is_nonempty_of contains
is_profile_id id = is_nonempty_of is_profile_char id && not (contains id "..")

unfoldable pub reference_of : Option String → Result DastError String
unfolding is_profile_id
reference_of none = err (thrown "profileRef is invalid")
reference_of (some id) = if is_profile_id id then ok id else err (thrown "profileRef is invalid")

unfoldable pub profile_reference : Option Json → Result DastError String
unfolding reference_of strip_prefix
profile_reference (some (str text)) = reference_of (strip_prefix "control-plane://profiles/" text)
profile_reference _ = err (thrown "profileRef is invalid")

-- `/[\0\r\n]/.test(value)`
unfoldable pub has_control : String → Bool
has_control [] = false
has_control (c ∷ s) =
    let rest = has_control s in
    nat_beq (code c) 0 || nat_beq (code c) 13 || nat_beq (code c) 10 || rest

-- `/^\/(?!\/)[^\s?#]*$/`
unfoldable pub is_relative_path : String → Bool
unfolding starts_with all_chars
is_relative_path text =
    starts_with text "/"
    && not (starts_with text "//")
    && all_chars (λ c. not (is_space c || nat_beq c 63 || nat_beq c 35)) text

unfoldable pub is_request_path : String → Bool
unfolding is_relative_path has_control utf16_length
is_request_path text =
    leb (utf16_length text) 1_024 && is_relative_path text && not (has_control text)

unfoldable pub safe_request_path : Option Json → String → Result DastError String
unfolding is_request_path
safe_request_path (some (str text)) label =
    if is_request_path text
    then ok text
    else err (thrown (label +s " must be an origin-relative path"))
safe_request_path _ label = err (thrown (label +s " must be an origin-relative path"))

-- `/^X-(?:Forwarded|Real-IP|Original|Rewrite|HTTP-Method)/i`
unfoldable pub is_routing_header : String → Bool
unfolding starts_with
is_routing_header name =
    any (λ start. starts_with (to_lower name) start)
      ("x-forwarded" ∷ "x-real-ip" ∷ "x-original" ∷ "x-rewrite" ∷ "x-http-method" ∷ [])

unfoldable pub is_header_name : String → Bool
unfolding is_routing_header is_nonempty_of strip_prefix
is_header_name name =
    includes ("authorization" ∷ "cookie" ∷ []) (to_lower name)
    || (is_custom (strip_prefix "X-" name) && not (is_routing_header name))
  where
    is_custom : Option String → Bool
    is_custom (some s) =
        is_nonempty_of (λ c. is_lower c || is_upper c || is_digit c || nat_beq c 45) s
    is_custom none = false

unfoldable pub safe_header_name : Option Json → Result DastError String
unfolding is_header_name utf16_length
safe_header_name (some (str text)) =
    if leb (utf16_length text) 80
    then (if is_header_name (trim text)
        then ok (trim text)
        else err (thrown "headerName is not permitted"))
    else err (thrown "headerName is invalid")
safe_header_name _ = err (thrown "headerName is invalid")

-- `/^[A-Z][A-Z0-9_]{0,127}$/`
unfoldable pub environment_key : Option Json → String → Result DastError String
unfolding is_word
environment_key (some (str text)) label =
    if is_word is_upper (λ c. is_upper c || is_digit c || nat_beq c 95) 127 text
    then ok text
    else err (thrown (label +s " is invalid"))
environment_key _ label = err (thrown (label +s " is invalid"))

module _ (engine : Engine) where
  -- `String(value ?? "")`
  unfoldable pub text_of : Option Json → String
  text_of none = ""
  text_of (some null) = ""
  text_of (some (str text)) = text
  text_of (some value) = engine.to_text value

  unfoldable pub exact_sha : Option Json → String → Result DastError String
  unfolding sha_of text_of
  exact_sha value label = sha_of (text_of value) label
