-- ===== src/Dast/Exchange.antt =====
-- apps/control-plane/src/dast-session.ts, `exchangeCredential`: what is accepted of the answer of a target.
-- The HTTP call is outside: its answer is an argument.
use Prim.Native.String.{[], ◌∷◌}
use Prim.Native.Char.{code}
use guardianbot.Prelude.{
  String, ℕ, Option, ◌*◌, ◌∷◌, Bool, Result, some, if◌then◌else◌, false, not, err, ◌>>=◌, ltb, ◌==◌,
  ◌+s◌, none, ok, [], ◌&&◌, ◌+◌, leb, is_value, string_eq,
}
use guardianbot.Dast.Fields.{
  Engine, DastError, refused, thrown, text_field, only_keys, text_of, has_control,
}
use guardianbot.Prelude.Js.{Json, Fields, obj}
use guardianbot.Store.Payload.{field_value}
use mathlib.Core.Option.{none}

pub record Credential : Type 0 where
  pub value : String
  pub expires_at : String

pub data Answer : Type 0 where
  unreachable : Answer
  not_ok : Answer
  unreadable : Answer
  answered : Json → Answer

abbrev pub max_credential_bytes : ℕ
max_credential_bytes = 8 * 1024

-- `Buffer.byteLength(value, "utf8")`
unfoldable pub utf8_length : String → ℕ
utf8_length [] = 0
utf8_length (c ∷ s) = let rest = utf8_length s in bytes (code c) + rest
  where
    bytes : ℕ → ℕ
    bytes n = if ltb n 0x80 then 1 else if ltb n 0x800 then 2 else if ltb n 0x10000 then 3 else 4

unfoldable pub credential_ok : String → Bool
unfolding utf8_length has_control
credential_ok value =
    not (value == "") && leb (utf8_length value) max_credential_bytes && not (has_control value)

-- `boundedCredential` of a text that may be missing
unfoldable pub bounded_credential : Option String → String → Result DastError String
unfolding credential_ok
bounded_credential none label = err (thrown (label +s " is invalid"))
bounded_credential (some value) label =
    if credential_ok value then ok value else err (thrown (label +s " is invalid"))

abbrev pub invalid_output : DastError
invalid_output = refused "DAST session exchange returned invalid output" 502

-- `expiry <= now + 30_000 || expiry > maximumExpiry`, or no date at all
unfoldable pub expiry_within : Option ℕ → ℕ → ℕ → Bool
expiry_within none now ttl_ms = false
expiry_within (some expiry) now ttl_ms = ltb (now + 30_000) expiry && leb expiry (now + ttl_ms)

module _ (engine : Engine) where
  unfoldable pub dated_credential : Option ℕ → ℕ → ℕ → String → Result DastError Credential
  unfolding expiry_within
  dated_credential none now ttl_ms value = err invalid_output
  dated_credential (some expiry) now ttl_ms value =
      if expiry_within (some expiry) now ttl_ms
      then ok (record { value = value; expires_at = engine.dates.to_iso expiry })
      else err invalid_output

  -- The checks of the answer; whatever is thrown there becomes the one refusal.
  unfoldable pub accepted_text : ℕ → ℕ → Option String → Fields → Result DastError Credential
  unfolding credential_ok text_of dated_credential
  accepted_text now ttl_ms none fields = err invalid_output
  accepted_text now ttl_ms (some value) fields =
      if credential_ok value
      then dated_credential (engine.dates.parse (text_of engine (field_value "expiresAt" fields)))
          now ttl_ms value
      else err invalid_output

  unfoldable pub accepted_fields : ℕ → ℕ → Fields → Result DastError Credential
  unfolding only_keys text_field accepted_text
  accepted_fields now ttl_ms fields =
      if only_keys ("schemaVersion" ∷ "credential" ∷ "expiresAt" ∷ []) fields
        && is_value (text_field (field_value "schemaVersion" fields)) "1.0.0"
      then accepted_text now ttl_ms (text_field (field_value "credential" fields)) fields
      else err invalid_output

  -- `now` is the time when the answer was received.
  unfoldable pub accepted_answer : ℕ → ℕ → Answer → Result DastError Credential
  unfolding accepted_fields
  accepted_answer now ttl_ms unreachable = err (refused "DAST session exchange is unavailable" 502)
  accepted_answer now ttl_ms not_ok = err (refused "DAST session exchange was refused" 502)
  accepted_answer now ttl_ms unreadable = err invalid_output
  accepted_answer now ttl_ms (answered (obj fields)) = accepted_fields now ttl_ms fields
  accepted_answer now ttl_ms (answered _) = err invalid_output

  -- `answer` is what the target says to a request with the credential of the environment.
  unfoldable pub exchange_credential :
      Option String → ℕ → ℕ → (String → Answer) → Result DastError Credential
  unfolding bounded_credential accepted_answer
  exchange_credential variable now ttl_ms answer = do
    credential ← bounded_credential variable "DAST exchange credential"
    accepted_answer now ttl_ms (answer credential)
