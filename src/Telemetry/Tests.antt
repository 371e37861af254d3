-- ===== src/Telemetry/Tests.antt =====
-- Telemetry (workers/src/zippy_workers/telemetry_contract.py, telemetry_redaction.py): the names of fields, and events.
use new_logistic.Prelude.{true, ◌≡◌, ◌↔◌, refl, [], ◌∷◌}
use new_logistic.Prelude.Text.{codes, lower, strip}
use new_logistic.Prelude.Json.{Fields, str, int, obj, end, field}
use new_logistic.Telemetry.{
  permitted, prohibited, classify_field, normal, is_safe_for_telemetry, violations,
  validate_event_fields,
}
use new_logistic.Telemetry.Redaction.{
  accepted, not_dict, unclassifiable_fields, prohibited_fields_present, redact_event,
  scrub_metadata, is_uuid_like, looks_like_secret, looks_secret, classify_value, sort_fields,
  redact_value,
}
use new_logistic.Telemetry.Redaction.Exported.{
  AllExport, HaveRedacted, redact_event-HaveRedacted_iff,
}
use new_logistic.Telemetry.Redaction.Scrubbed.{redact_event-scrub_metadata, scrub_metadata-accepted}

upper_name : classify_field " Task_Type " ≡ permitted
unfolding classify_field
upper_name = refl

unknown_name : classify_field "colour" ≡ prohibited
unfolding classify_field
unknown_name = refl

identifier : is_uuid_like (codes "123e4567-E89b-12d3-a456-426614174000") ≡ true
unfolding is_uuid_like
identifier = refl

-- A task with the order it is for, and with a list of details that has the address of a person.
abbrev event : Fields
event = field "task_type" (str "quote") (
    field "order_id" (str "123e4567-e89b-12d3-a456-426614174000")
      (field "error_class" (obj (field "detail" (str "someone@mail.example") end)) end))

abbrev cleaned_event : Fields
cleaned_event = field "task_type" (str "quote") (
    field "order_id" (str "123e4567-e89b-12d3-a456-426614174000")
      (field "error_class" (obj (field "detail" (str "[REDACTED]") end)) end))

abbrev metadata : Fields
metadata = field "order_id" (str "17") (field "password" (str "x") event)

quote_exported : redact_event (obj event) ≡ accepted cleaned_event
unfolding redact_event sort_fields classify_value classify_field normal strip lower redact_value
    looks_like_secret looks_secret is_uuid_like
quote_exported = refl

number_refused :
    redact_event (obj metadata) ≡ unclassifiable_fields ("password" ∷ []) ("order_id" ∷ [])
unfolding redact_event sort_fields classify_value classify_field normal strip lower redact_value
    looks_like_secret looks_secret is_uuid_like
number_refused = refl

password_refused :
    redact_event (obj (field "password" (str "x") event))
    ≡ prohibited_fields_present ("password" ∷ [])
unfolding redact_event sort_fields classify_value classify_field normal strip lower redact_value
    looks_like_secret looks_secret is_uuid_like
password_refused = refl

-- The classes are of the names at the top alone: a password below them is exported.
below :
    redact_event (obj (field "task_type" (obj (field "password" (str "x") end)) end))
    ≡ accepted (field "task_type" (obj (field "password" (str "x") end)) end)
unfolding redact_event sort_fields classify_value classify_field normal strip lower redact_value
    looks_like_secret looks_secret is_uuid_like
below = refl

-- Nor are the names of keys below the top looked at for secrets.
below_key :
    redact_event (obj (field "task_type" (obj (field "a@mail.example" (int 1) end)) end))
    ≡ accepted (field "task_type" (obj (field "a@mail.example" (int 1) end)) end)
unfolding redact_event sort_fields classify_value classify_field normal strip lower redact_value
    looks_like_secret looks_secret is_uuid_like
below_key = refl

no_event : redact_event (int 1) ≡ not_dict
unfolding redact_event
no_event = refl

valid_name : is_safe_for_telemetry "latency_ms" ≡ true
unfolding is_safe_for_telemetry classify_field normal strip lower
valid_name = refl

order_reported : (validate_event_fields event).1 ≡ "order_id:restricted" ∷ []
unfolding validate_event_fields violations classify_field normal strip lower
order_reported = refl

redact_event-HaveRedacted_iff_example :
    (redact_event (obj event) ≡ accepted cleaned_event)
    ↔ (AllExport event × HaveRedacted event cleaned_event)
redact_event-HaveRedacted_iff_example = redact_event-HaveRedacted_iff event cleaned_event

redact_event-scrub_metadata_example :
    redact_event (obj (scrub_metadata metadata)) ≡ accepted (scrub_metadata metadata)
redact_event-scrub_metadata_example = redact_event-scrub_metadata metadata

scrub_metadata-accepted_example : scrub_metadata event ≡ cleaned_event
scrub_metadata-accepted_example = scrub_metadata-accepted event cleaned_event quote_exported
