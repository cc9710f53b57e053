-- ===== src/Store/Payload.antt =====
-- apps/control-plane/src/store.ts, `scrubWebhookPayloadForRetention`: what of a delivery is kept.
use guardianbot.Prelude.{String, Option, Bool, if◌then◌else◌, ◌==◌, some, string_eq, true, false}
use guardianbot.Prelude.Js.{Fields, Json, end, field, obj, str, arr}
use mathlib.Core.Option.{none}
use guardianbot.Prelude.Text.{ends_with}

-- `value.name`; a value that is no object has no such field.
unfoldable pub field_value : String → Fields → Option Json
field_value name end = none
field_value name (field key value rest) =
    let later = field_value name rest in
    elim later [ some v ↦ some v | none ↦ if key == name then some value else none ]

unfoldable pub property : Option Json → String → Option Json
unfolding field_value
property (some (obj fields)) name = field_value name fields
property _ name = none

-- `{ name: value }`: a field whose value is undefined is not written.
unfoldable pub with_field : String → Option Json → Fields → Fields
with_field name none rest = rest
with_field name (some value) rest = field name value rest

-- `value && typeof value === "object"`
unfoldable pub is_object : Option Json → Bool
is_object (some (obj fields)) = true
is_object (some (arr items)) = true
is_object _ = false

abbrev pub scrubbed_bot_login : String
scrubbed_bot_login = "scrubbed[bot]"

abbrev pub scrubbed_human_login : String
scrubbed_human_login = "scrubbed"

unfoldable pub is_bot : String → Bool
is_bot login = ends_with login "[bot]"

unfoldable pub author : Option Json → Fields → Fields
unfolding is_bot
author (some (str login)) rest =
    field "user"
      (obj (
        field "login" (str (if is_bot login then scrubbed_bot_login else scrubbed_human_login))
          end))
      rest
author _ rest = rest

unfoldable pub kept_comment : Option Json → Fields
unfolding property with_field author
kept_comment comment = with_field "id" (property comment "id") (
    with_field "in_reply_to_id" (property comment "in_reply_to_id")
      (author (property (property comment "user") "login") end))

-- `...(value && typeof value === "object" ? { name: kept } : {})`
unfoldable pub when_object : String → Option Json → Fields → Fields → Fields
unfolding is_object
when_object name value kept rest = if is_object value then field name (obj kept) rest else rest

unfoldable pub scrub_review_comment : Fields → Fields
unfolding field_value property with_field kept_comment when_object
scrub_review_comment payload = with_field "action" (field_value "action" payload) (
    when_object "comment" comment (kept_comment comment) (
      when_object "pull_request" pull (with_field "number" (property pull "number") end) (
        when_object "repository" repository
          (with_field "id" (property repository "id")
            (with_field "full_name" (property repository "full_name") end))
          (when_object "installation" installation
            (with_field "id" (property installation "id") end) end))))
  where
    comment : Option Json
    comment = field_value "comment" payload

    pull : Option Json
    pull = field_value "pull_request" payload

    repository : Option Json
    repository = field_value "repository" payload

    installation : Option Json
    installation = field_value "installation" payload

unfoldable pub scrub_webhook_payload : String → Fields → Fields
unfolding scrub_review_comment
scrub_webhook_payload event_name payload =
    if event_name == "pull_request_review_comment" then scrub_review_comment payload else payload
