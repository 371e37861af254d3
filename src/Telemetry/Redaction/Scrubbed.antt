-- ===== src/Telemetry/Redaction/Scrubbed.antt =====
-- workers/src/zippy_workers/telemetry_redaction.py: the metadata of a span, and the events that are accepted.
use new_logistic.Prelude.{
  String, Bool, true, false, not, ◌≡◌, refl, ap, ◌∙◌, sym, subst, if◌then◌else◌, Bool-cases, inl,
  inr, arith,
}
use new_logistic.Prelude.Json.{
  Json, Items, Fields, null, bool, int, minus, float, str, arr, obj, nil, cons, end, field,
}
use new_logistic.Telemetry.{FieldClassification, permitted, restricted, prohibited, classify_field}
use new_logistic.Telemetry.Redaction.{
  looks_secret, looks_like_secret, class_of, classify_value, redact_value, redact_items,
  redact_fields, is_other_text, accepted, redact_event, scrub_one, scrub_metadata,
}
use new_logistic.Telemetry.Redaction.Safe.{may_stay, all_stay, accepts, accepted_only}

-- The fields of an object that may stay.
unfoldable staying : Fields → Fields
staying end = end
staying (field k v fields) =
    if may_stay (classify_value k v) v then field k v (staying fields) else staying fields

scrub_other :
    (b : Bool) (k : String) (v : Json) (rest stay : Fields)
    → rest ≡ redact_fields stay
    → (if b then rest else field k (redact_value v) rest)
      ≡ redact_fields (if not b then field k v stay else stay)
unfolding redact_value
scrub_other true k v rest stay e = e
scrub_other false k v rest stay e = ap (field k (redact_value v)) e

scrub_one-may_stay :
    (c : FieldClassification) (k : String) (v : Json) (rest stay : Fields)
    → rest ≡ redact_fields stay
    → scrub_one c k v rest ≡ redact_fields (if may_stay c v then field k v stay else stay)
unfolding redact_value
scrub_one-may_stay permitted k v rest stay e = ap (field k (redact_value v)) e
scrub_one-may_stay restricted k v rest stay e = scrub_other (is_other_text v) k v rest stay e
scrub_one-may_stay prohibited k v rest stay e = e

scrub_metadata-staying : (fields : Fields) → scrub_metadata fields ≡ redact_fields (staying fields)
unfolding scrub_metadata staying redact_value
scrub_metadata-staying end = refl
scrub_metadata-staying (field k v fields) =
    scrub_one-may_stay (classify_value k v) k v (scrub_metadata fields) (staying fields)
      (scrub_metadata-staying fields)

all_stay-staying : (fields : Fields) → all_stay fields ≡ true → staying fields ≡ fields
unfolding all_stay staying
all_stay-staying end h = refl
all_stay-staying (field k v fields) h =
    let here : may_stay (classify_value k v) v ≡ true = ground (arith, h) in
    rw (here) (ap (field k v) (all_stay-staying fields (ground (arith, h))))

mutual
  unfolding redact_value looks_like_secret looks_secret

  redact_value_again : (v : Json) → redact_value (redact_value v) ≡ redact_value v
  redact_value_again (str s) = elim (Bool-cases (looks_like_secret (str s))) [
    | inl secret ↦ rw (secret) refl
    | inr plain ↦ rw (plain) (rw (plain) refl)
  ]
  redact_value_again (arr xs) = ap arr (redact_items_again xs)
  redact_value_again (obj fields) = ap obj (redact_fields_again fields)
  redact_value_again null = refl
  redact_value_again (bool b) = refl
  redact_value_again (int n) = refl
  redact_value_again (minus n) = refl
  redact_value_again (float t) = refl

  redact_items_again : (xs : Items) → redact_items (redact_items xs) ≡ redact_items xs
  redact_items_again nil = refl
  redact_items_again (cons v xs) =
      rw (redact_value_again v) (ap (cons (redact_value v)) (redact_items_again xs))

  redact_fields_again :
      (fields : Fields) → redact_fields (redact_fields fields) ≡ redact_fields fields
  redact_fields_again end = refl
  redact_fields_again (field k v fields) =
      rw (redact_value_again v) (ap (field k (redact_value v)) (redact_fields_again fields))

secret-class_of :
    (c : FieldClassification) (v : Json) → looks_like_secret v ≡ true → class_of c v ≡ prohibited
secret-class_of permitted v secret = rw (secret) refl
secret-class_of restricted v secret = rw (secret) refl
secret-class_of prohibited v secret = refl

plain-redact_value : (s : String) → looks_like_secret (str s) ≡ false → redact_value (str s) ≡ str s
unfolding redact_value
plain-redact_value s plain = rw (plain) refl

-- A text that may stay is no secret, and is left as it is.
text-redact_value :
    (c : FieldClassification) (s : String)
    → may_stay (class_of c (str s)) (str s) ≡ true
    → redact_value (str s) ≡ str s
text-redact_value c s h = elim (Bool-cases (looks_like_secret (str s))) [
  | inl secret ↦
      let never : may_stay prohibited (str s) ≡ true =
        subst (λ d. may_stay d (str s) ≡ true) (secret-class_of c (str s) secret) h in
      absurd (cc)
  | inr plain ↦ plain-redact_value s plain
]

-- A value that may stay may stay when it is redacted.
redact_value-may_stay :
    (c : FieldClassification) (v : Json)
    → may_stay (class_of c v) v ≡ true
    → may_stay (class_of c (redact_value v)) (redact_value v) ≡ true
unfolding redact_value looks_like_secret looks_secret
redact_value-may_stay prohibited v h = absurd (cc)
redact_value-may_stay c (str s) h =
    subst (λ v. may_stay (class_of c v) v ≡ true) (sym (text-redact_value c s h)) h
redact_value-may_stay permitted (arr xs) h = refl
redact_value-may_stay restricted (arr xs) h = refl
redact_value-may_stay permitted (obj fields) h = refl
redact_value-may_stay restricted (obj fields) h = refl
redact_value-may_stay c null h = h
redact_value-may_stay c (bool b) h = h
redact_value-may_stay c (int n) h = h
redact_value-may_stay c (minus n) h = h
redact_value-may_stay c (float t) h = h

redact_fields-all_stay : (fields : Fields) → all_stay (redact_fields (staying fields)) ≡ true
unfolding all_stay staying redact_value classify_value
redact_fields-all_stay end = refl
redact_fields-all_stay (field k v fields) =
    elim (Bool-cases (may_stay (class_of (classify_field k) v) v)) [
      | inl stays ↦
          rw (stays)
            (rw (redact_value-may_stay (classify_field k) v stays) (redact_fields-all_stay fields))
      | inr goes ↦ rw (goes) (redact_fields-all_stay fields)
    ]

-- What is left of metadata is an event that redaction accepts, and leaves as it is.
pub redact_event-scrub_metadata :
    (metadata : Fields)
    → redact_event (obj (scrub_metadata metadata)) ≡ accepted (scrub_metadata metadata)
redact_event-scrub_metadata metadata = rw (scrub_metadata-staying metadata) (
    accepts (redact_fields (staying metadata)) (redact_fields (staying metadata))
      (redact_fields-all_stay metadata) (sym (redact_fields_again (staying metadata))))

-- An event that is accepted is exported with the fields that its metadata would have.
pub scrub_metadata-accepted :
    (fields cleaned : Fields)
    → redact_event (obj fields) ≡ accepted cleaned
    → scrub_metadata fields ≡ cleaned
unfolding redact_value
scrub_metadata-accepted fields cleaned h =
    let safe = accepted_only fields cleaned h in
    scrub_metadata-staying fields ∙ ap redact_fields (all_stay-staying fields safe.0) ∙ sym safe.1
