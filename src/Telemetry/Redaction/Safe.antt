-- ===== src/Telemetry/Redaction/Safe.antt =====
-- workers/src/zippy_workers/telemetry_redaction.py: the loop over the fields of an event.
use new_logistic.Prelude.{
  String, Bool, true, false, not, ◌≡◌, refl, sym, ap, ◌∙◌, List, [], ◌∷◌, ◌&&◌, if◌then◌else◌,
  arith,
}
use new_logistic.Prelude.Json.{Json, Fields, obj, end, field}
use new_logistic.Telemetry.{FieldClassification, permitted, restricted, prohibited}
use new_logistic.Telemetry.Redaction.{
  classify_value, redact_value, redact_fields, is_other_text, Sorted, sort_one, sort_fields, keep,
  accepted, result_of, redact_event,
}

-- A value of a class may stay: it is permitted, or it is restricted and no text other than a UUID.
abbrev pub may_stay : FieldClassification → Json → Bool
may_stay permitted v = true
may_stay restricted v = not (is_other_text v)
may_stay prohibited v = false

-- Each field of an event may stay.
unfoldable pub all_stay : Fields → Bool
all_stay end = true
all_stay (field k v fields) = may_stay (classify_value k v) v && all_stay fields

-- What the loop has collected after an event that is safe.
abbrev IsClean : Fields → Sorted → Type 0
IsClean fields s = (s.cleaned ≡ redact_fields fields) × (s.dropped ≡ []) × (s.unclassifiable ≡ [])

all_stay-IsClean : (fields : Fields) → all_stay fields ≡ true → IsClean fields (sort_fields fields)
unfolding all_stay sort_fields redact_value
all_stay-IsClean end h = (refl, refl, refl)
all_stay-IsClean (field k v fields) h =
    go (classify_value k v) (ground (arith, h)) (all_stay-IsClean fields (ground (arith, h)))
  where
    go :
        (c : FieldClassification)
        → may_stay c v ≡ true
        → IsClean fields (sort_fields fields)
        → IsClean (field k v fields) (sort_one c k v (sort_fields fields))
    go permitted e rest = (ap (field k (redact_value v)) rest.0, rest.1, rest.2)
    go restricted e rest =
        let text : is_other_text v ≡ false = ground (arith, e) in
        rw (text) (ap (field k (redact_value v)) rest.0, rest.1, rest.2)
    go prohibited e rest = absurd (ground (arith, e))

dropping :
    (cleaned : Fields) (dropped unclassifiable : List String) (found : Fields)
    → result_of cleaned dropped unclassifiable ≡ accepted found
    → (dropped ≡ []) × (unclassifiable ≡ []) × (cleaned ≡ found)
dropping cleaned [] [] found h = (refl, refl, cc)
dropping cleaned [] (k ∷ ks) found h = absurd (cc)
dropping cleaned (d ∷ ds) [] found h = absurd (cc)
dropping cleaned (d ∷ ds) (k ∷ ks) found h = absurd (cc)

stays_one :
    (c : FieldClassification) (k : String) (v : Json) (rest : Sorted)
    → (sort_one c k v rest).dropped ≡ []
    → (sort_one c k v rest).unclassifiable ≡ []
    → (may_stay c v ≡ true) × (rest.dropped ≡ []) × (rest.unclassifiable ≡ [])
stays_one permitted k v rest d u = (refl, d, u)
stays_one prohibited k v rest d u = absurd (cc)
stays_one restricted k v rest d u = go (is_other_text v) d u
  where
    go :
        (b : Bool)
        → (if b
            then record rest { unclassifiable = k ∷ rest.unclassifiable }
            else keep k v rest).dropped
          ≡ []
        → (if b
            then record rest { unclassifiable = k ∷ rest.unclassifiable }
            else keep k v rest).unclassifiable
          ≡ []
        → (not b ≡ true) × (rest.dropped ≡ []) × (rest.unclassifiable ≡ [])
    go true d u = absurd (cc)
    go false d u = (refl, d, u)

sort_fields-all_stay :
    (fields : Fields)
    → (sort_fields fields).dropped ≡ []
    → (sort_fields fields).unclassifiable ≡ []
    → all_stay fields ≡ true
unfolding all_stay sort_fields
sort_fields-all_stay end d u = refl
sort_fields-all_stay (field k v fields) d u =
    let one = stays_one (classify_value k v) k v (sort_fields fields) d u in
    rw (one.0) (sort_fields-all_stay fields one.1 one.2)

pub accepts :
    (fields cleaned : Fields)
    → all_stay fields ≡ true
    → cleaned ≡ redact_fields fields
    → redact_event (obj fields) ≡ accepted cleaned
unfolding redact_event
accepts fields cleaned stay e =
    let c = all_stay-IsClean fields stay in rw (c.1, c.2) (ap accepted (c.0 ∙ sym e))

pub accepted_only :
    (fields cleaned : Fields)
    → redact_event (obj fields) ≡ accepted cleaned
    → (all_stay fields ≡ true) × (cleaned ≡ redact_fields fields)
unfolding redact_event
accepted_only fields cleaned h =
    let s = sort_fields fields in
    let d = dropping s.cleaned s.dropped s.unclassifiable cleaned h in
    let stay = sort_fields-all_stay fields d.0 d.1 in
    (stay, sym d.2 ∙ (all_stay-IsClean fields stay).0)
