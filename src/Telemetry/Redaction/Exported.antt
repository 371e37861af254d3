-- ===== src/Telemetry/Redaction/Exported.antt =====
-- workers/src/zippy_workers/telemetry_redaction.py: the events that `redact_event` accepts, and what it makes of them.
use new_logistic.Prelude.{
  ℕ, String, Bool, true, false, ◌≡◌, ◌↔◌, inl, inr, refl, ap, sym, subst, Bool-cases, if◌then◌else◌,
  arith,
}
use new_logistic.Prelude.Text.{codes}
use new_logistic.Prelude.Json.{
  Json, Items, Fields, null, bool, int, minus, float, str, arr, obj, nil, cons, end, field,
}
use new_logistic.Telemetry.{FieldClassification, permitted, restricted, prohibited, classify_field}
use new_logistic.Telemetry.Redaction.{
  looks_secret, looks_like_secret, is_uuid_like, class_of, classify_value, redact_value,
  redact_items, redact_fields, accepted, redact_event,
}
use new_logistic.Telemetry.Redaction.Secret.{IsSecret, looks_secret-IsSecret_iff}
use new_logistic.Telemetry.Redaction.Safe.{may_stay, all_stay, accepts, accepted_only}

-- A value may be exported under a name of this class. A prohibited name has none; a text may be no
-- secret and, unless the name is permitted, has to be a UUID; any other value may be exported.
abbrev pub MayExport : FieldClassification → Json → Type 0
MayExport prohibited v = ⊥
MayExport permitted (str s) = ¬ IsSecret (codes s)
MayExport restricted (str s) = (¬ IsSecret (codes s)) × (is_uuid_like (codes s) ≡ true)
MayExport c v = Unit

abbrev pub AllExport : Fields → Type 0
AllExport end = Unit
AllExport (field k v fields) = MayExport (classify_field k) v × AllExport fields

-- A value and what is exported of it: each text that looks like a secret, at any depth, is hidden, and
-- all else stays, the keys of dicts included.
mutual
  pub data IsRedacted : Json → Json → Type 0 where
    kept_text : (s : String) → ¬ IsSecret (codes s) → IsRedacted (str s) (str s)
    hidden_text : (s : String) → IsSecret (codes s) → IsRedacted (str s) (str "[REDACTED]")
    array : {xs ys : Items} → AreRedacted xs ys → IsRedacted (arr xs) (arr ys)
    dict : {xs ys : Fields} → HaveRedacted xs ys → IsRedacted (obj xs) (obj ys)
    no_value : IsRedacted null null
    truth : (b : Bool) → IsRedacted (bool b) (bool b)
    natural : (n : ℕ) → IsRedacted (int n) (int n)
    negative : (n : ℕ) → IsRedacted (minus n) (minus n)
    real : (t : String) → IsRedacted (float t) (float t)

  pub data AreRedacted : Items → Items → Type 0 where
    no_items : AreRedacted nil nil
    item :
        {v w : Json} {xs ys : Items}
        → IsRedacted v w
        → AreRedacted xs ys
        → AreRedacted (cons v xs) (cons w ys)

  pub data HaveRedacted : Fields → Fields → Type 0 where
    no_fields : HaveRedacted end end
    one_field :
        (k : String) {v w : Json} {xs ys : Fields}
        → IsRedacted v w
        → HaveRedacted xs ys
        → HaveRedacted (field k v xs) (field k w ys)

not-IsSecret : (s : String) → looks_secret (codes s) ≡ false → ¬ IsSecret (codes s)
not-IsSecret s h secret = absurd (cc ((looks_secret-IsSecret_iff (codes s)).1 secret))

looks_plain : (s : String) → ¬ IsSecret (codes s) → looks_secret (codes s) ≡ false
looks_plain s h = elim (Bool-cases (looks_secret (codes s))) [
  | inl secret ↦ elim (h ((looks_secret-IsSecret_iff (codes s)).0 secret)) [ ]
  | inr clear ↦ clear
]

text-IsRedacted :
    (s : String) (b : Bool)
    → looks_secret (codes s) ≡ b
    → IsRedacted (str s) (if b then str "[REDACTED]" else str s)
text-IsRedacted s true h = hidden_text s ((looks_secret-IsSecret_iff (codes s)).0 h)
text-IsRedacted s false h = kept_text s (not-IsSecret s h)

mutual
  unfolding redact_value looks_like_secret

  redact_value-IsRedacted : (v : Json) → IsRedacted v (redact_value v)
  redact_value-IsRedacted (str s) = text-IsRedacted s (looks_secret (codes s)) refl
  redact_value-IsRedacted (arr xs) = array (redact_items-AreRedacted xs)
  redact_value-IsRedacted (obj xs) = dict (redact_fields-HaveRedacted xs)
  redact_value-IsRedacted null = no_value
  redact_value-IsRedacted (bool b) = truth b
  redact_value-IsRedacted (int n) = natural n
  redact_value-IsRedacted (minus n) = negative n
  redact_value-IsRedacted (float t) = real t

  redact_items-AreRedacted : (xs : Items) → AreRedacted xs (redact_items xs)
  redact_items-AreRedacted nil = no_items
  redact_items-AreRedacted (cons v xs) =
      item (redact_value-IsRedacted v) (redact_items-AreRedacted xs)

  redact_fields-HaveRedacted : (xs : Fields) → HaveRedacted xs (redact_fields xs)
  redact_fields-HaveRedacted end = no_fields
  redact_fields-HaveRedacted (field k v xs) =
      one_field k (redact_value-IsRedacted v) (redact_fields-HaveRedacted xs)

mutual
  unfolding redact_value looks_like_secret

  IsRedacted-redact_value : {v w : Json} → IsRedacted v w → w ≡ redact_value v
  IsRedacted-redact_value (kept_text s clear) = rw (looks_plain s clear) refl
  IsRedacted-redact_value (hidden_text s secret) =
      rw ((looks_secret-IsSecret_iff (codes s)).1 secret) refl
  IsRedacted-redact_value (array xs) = ap arr (AreRedacted-redact_items xs)
  IsRedacted-redact_value (dict xs) = ap obj (HaveRedacted-redact_fields xs)
  IsRedacted-redact_value no_value = refl
  IsRedacted-redact_value (truth b) = refl
  IsRedacted-redact_value (natural n) = refl
  IsRedacted-redact_value (negative n) = refl
  IsRedacted-redact_value (real t) = refl

  AreRedacted-redact_items : {xs ys : Items} → AreRedacted xs ys → ys ≡ redact_items xs
  AreRedacted-redact_items no_items = refl
  AreRedacted-redact_items (item v xs) =
      let one = IsRedacted-redact_value v in let rest = AreRedacted-redact_items xs in cc

  HaveRedacted-redact_fields : {xs ys : Fields} → HaveRedacted xs ys → ys ≡ redact_fields xs
  HaveRedacted-redact_fields no_fields = refl
  HaveRedacted-redact_fields (one_field k v xs) =
      let one = IsRedacted-redact_value v in let rest = HaveRedacted-redact_fields xs in cc

permitted_text :
    (b : Bool) (s : String)
    → may_stay (if b then prohibited else permitted) (str s) ≡ true
    → b ≡ false
permitted_text true s h = absurd (cc)
permitted_text false s h = refl

restricted_text :
    (b : Bool) (s : String)
    → may_stay (if b then prohibited else restricted) (str s) ≡ true
    → (b ≡ false) × (is_uuid_like (codes s) ≡ true)
restricted_text true s h = absurd (cc)
restricted_text false s h = (refl, ground (arith, h))

may_stay→MayExport :
    (c : FieldClassification) (v : Json) → may_stay (class_of c v) v ≡ true → MayExport c v
unfolding looks_like_secret
may_stay→MayExport prohibited v h = absurd (cc)
may_stay→MayExport permitted (str s) h =
    not-IsSecret s (permitted_text (looks_secret (codes s)) s h)
may_stay→MayExport restricted (str s) h =
    let text = restricted_text (looks_secret (codes s)) s h in (not-IsSecret s text.0, text.1)
may_stay→MayExport permitted null h = tt
may_stay→MayExport permitted (bool b) h = tt
may_stay→MayExport permitted (int n) h = tt
may_stay→MayExport permitted (minus n) h = tt
may_stay→MayExport permitted (float t) h = tt
may_stay→MayExport permitted (arr xs) h = tt
may_stay→MayExport permitted (obj xs) h = tt
may_stay→MayExport restricted null h = tt
may_stay→MayExport restricted (bool b) h = tt
may_stay→MayExport restricted (int n) h = tt
may_stay→MayExport restricted (minus n) h = tt
may_stay→MayExport restricted (float t) h = tt
may_stay→MayExport restricted (arr xs) h = tt
may_stay→MayExport restricted (obj xs) h = tt

MayExport→may_stay :
    (c : FieldClassification) (v : Json) → MayExport c v → may_stay (class_of c v) v ≡ true
unfolding looks_like_secret
MayExport→may_stay prohibited v h = elim h [ ]
MayExport→may_stay permitted (str s) h = rw (looks_plain s h) refl
MayExport→may_stay restricted (str s) h = rw (looks_plain s h.0, h.1) refl
MayExport→may_stay permitted null h = refl
MayExport→may_stay permitted (bool b) h = refl
MayExport→may_stay permitted (int n) h = refl
MayExport→may_stay permitted (minus n) h = refl
MayExport→may_stay permitted (float t) h = refl
MayExport→may_stay permitted (arr xs) h = refl
MayExport→may_stay permitted (obj xs) h = refl
MayExport→may_stay restricted null h = refl
MayExport→may_stay restricted (bool b) h = refl
MayExport→may_stay restricted (int n) h = refl
MayExport→may_stay restricted (minus n) h = refl
MayExport→may_stay restricted (float t) h = refl
MayExport→may_stay restricted (arr xs) h = refl
MayExport→may_stay restricted (obj xs) h = refl

all_stay→AllExport : (xs : Fields) → all_stay xs ≡ true → AllExport xs
unfolding all_stay classify_value
all_stay→AllExport end h = tt
all_stay→AllExport (field k v xs) h = (
  may_stay→MayExport (classify_field k) v (ground (arith, h)),
  all_stay→AllExport xs (ground (arith, h)),
)

AllExport→all_stay : (xs : Fields) → AllExport xs → all_stay xs ≡ true
unfolding all_stay classify_value
AllExport→all_stay end h = refl
AllExport→all_stay (field k v xs) h =
    rw (MayExport→may_stay (classify_field k) v h.0) (AllExport→all_stay xs h.1)

-- An event is accepted exactly if each of its fields may be exported, by the class of its name and by
-- its value. What is exported of it has the same keys and values, but each text that looks like a secret,
-- at any depth, is "[REDACTED]". The names of keys below the fields are not asked for, and stay.
pub redact_event-HaveRedacted_iff :
    (xs cleaned : Fields)
    → (redact_event (obj xs) ≡ accepted cleaned) ↔ (AllExport xs × HaveRedacted xs cleaned)
redact_event-HaveRedacted_iff xs cleaned = (
  (λ h.
      let only = accepted_only xs cleaned h in
      (
        all_stay→AllExport xs only.0,
        subst (HaveRedacted xs) (sym only.1) (redact_fields-HaveRedacted xs),
      )),
  λ safe. accepts xs cleaned (AllExport→all_stay xs safe.0) (HaveRedacted-redact_fields safe.1),
)
