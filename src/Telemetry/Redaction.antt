-- ===== src/Telemetry/Redaction.antt =====
-- workers/src/zippy_workers/telemetry_redaction.py: what of an event or of metadata is exported.
pub mod Secret
pub mod Safe
pub mod Exported
pub mod Scrubbed
use new_logistic.Prelude.{
  ℕ, zero, suc, String, Bool, true, false, not, Option, none, some, List, [], ◌∷◌, ◌++◌, ◌==◌,
  nat_eq, ◌&&◌, ◌||◌, ltb, leb, if◌then◌else◌, length,
}
use new_logistic.Prelude.Text.{codes, begins, contains}
use new_logistic.Prelude.Json.{
  Json, Items, Fields, null, bool, int, minus, float, str, arr, obj, nil, cons, end, field, truthy,
}
use new_logistic.Telemetry.{FieldClassification, permitted, restricted, prohibited, classify_field}

-- `HIGH_ENTROPY_SECRET`
abbrev pub secret_prefixes : List String
secret_prefixes =
    "pk_" ∷ "sk_" ∷ "rk_" ∷ "rzp_" ∷ "whsec_" ∷ "eyJ" ∷ "AIza" ∷ "ghp_" ∷ "glpat-" ∷ "xoxb-"
    ∷ "xoxp-" ∷ "xoxa-" ∷ "xoxs-" ∷ "xoxr-" ∷ []

abbrev pub begins_one : List String → List ℕ → Bool
begins_one [] s = false
begins_one (p ∷ ps) s = begins (codes p) s || begins_one ps s

-- `c in s` for one character
abbrev pub has : ℕ → List ℕ → Bool
has c [] = false
has c (d ∷ s) = c == d || has c s

-- `s.split("@")[-1]`
abbrev pub after_at : List ℕ → List ℕ
after_at [] = []
after_at (c ∷ s) = if has b'@' (c ∷ s) then after_at s else c ∷ s

-- `_looks_like_secret` of a text
unfoldable pub looks_secret : List ℕ → Bool
looks_secret s =
    not (ltb (length s) 8)
    && (begins_one secret_prefixes s
        || (has b'@' s && has b'.' (after_at s))
        || (has b'/' s && has b'.' s && ltb 30 (length s)))

unfoldable pub looks_like_secret : Json → Bool
unfolding looks_secret
looks_like_secret (str s) = looks_secret (codes s)
looks_like_secret _ = false

abbrev is_hex : ℕ → Bool
is_hex c = (leb b'0' c && leb c b'9') || (leb b'a' c && leb c b'f') || (leb b'A' c && leb c b'F')

-- What follows `n` hexadecimal digits and a character.
abbrev pub after_hex : ℕ → List ℕ → Option (List ℕ)
after_hex zero s = some s
after_hex (suc n) [] = none
after_hex (suc n) (c ∷ s) = if is_hex c then after_hex n s else none

abbrev pub after_dash : Option (List ℕ) → Option (List ℕ)
after_dash none = none
after_dash (some []) = none
after_dash (some (c ∷ s)) = if c == b'-' then some s else none

infixl 5 ◌>>=◌
abbrev ◌>>=◌ : Option (List ℕ) → (List ℕ → Option (List ℕ)) → Option (List ℕ)
none >>= k = none
some s >>= k = k s

-- `$` matches at the end, and before a last newline.
abbrev at_end : Option (List ℕ) → Bool
at_end none = false
at_end (some []) = true
at_end (some (c ∷ [])) = c == 10
at_end (some (c ∷ d ∷ s)) = false

-- `UUID_LIKE.match`
unfoldable pub is_uuid_like : List ℕ → Bool
is_uuid_like s = at_end (do
  a ← after_dash (after_hex 8 s)
  b ← after_dash (after_hex 4 a)
  c ← after_dash (after_hex 4 b)
  d ← after_dash (after_hex 4 c)
  after_hex 12 d)

-- `isinstance(v, (dict, list))`
abbrev pub is_nested : Json → Bool
is_nested (arr xs) = true
is_nested (obj fields) = true
is_nested _ = false

-- The class of a value under a key of a class.
abbrev pub class_of : FieldClassification → Json → FieldClassification
class_of prohibited v = prohibited
class_of c v = if looks_like_secret v then prohibited else if is_nested v then restricted else c

unfoldable pub classify_value : String → Json → FieldClassification
unfolding looks_like_secret
classify_value k v = class_of (classify_field k) v

unfoldable mutual
  pub redact_value : Json → Json
  redact_value (str s) = if looks_like_secret (str s) then str "[REDACTED]" else str s
  redact_value (arr xs) = arr (redact_items xs)
  redact_value (obj fields) = obj (redact_fields fields)
  redact_value v = v

  pub redact_items : Items → Items
  redact_items nil = nil
  redact_items (cons v xs) = cons (redact_value v) (redact_items xs)

  pub redact_fields : Fields → Fields
  redact_fields end = end
  redact_fields (field k v fields) = field k (redact_value v) (redact_fields fields)

-- `isinstance(v, str) and not UUID_LIKE.match(v)`
abbrev pub is_other_text : Json → Bool
is_other_text (str s) = not (is_uuid_like (codes s))
is_other_text _ = false

-- What the loop over an event collects.
pub record Sorted : Type 0 where
  pub cleaned : Fields
  pub dropped : List String
  pub unclassifiable : List String

abbrev pub keep : String → Json → Sorted → Sorted
keep k v rest = record rest { cleaned = field k (redact_value v) rest.cleaned }

abbrev pub sort_one : FieldClassification → String → Json → Sorted → Sorted
sort_one permitted k v rest = keep k v rest
sort_one restricted k v rest =
    if is_other_text v
    then record rest { unclassifiable = k ∷ rest.unclassifiable }
    else keep k v rest
sort_one prohibited k v rest = record rest { dropped = k ∷ rest.dropped }

unfoldable pub sort_fields : Fields → Sorted
sort_fields end = record { cleaned = end; dropped = []; unclassifiable = [] }
sort_fields (field k v fields) = sort_one (classify_value k v) k v (sort_fields fields)

-- Why an event is dropped, with the names of its fields; the text of the reason, with the sorted names,
-- is left out.
pub data RedactionResult : Type 0 where
  accepted : Fields → RedactionResult
  not_dict : RedactionResult
  unclassifiable_fields : (dropped unclassifiable : List String) → RedactionResult
  prohibited_fields_present : (dropped : List String) → RedactionResult

abbrev pub result_of : Fields → (dropped unclassifiable : List String) → RedactionResult
result_of cleaned dropped (k ∷ ks) = unclassifiable_fields dropped (k ∷ ks)
result_of cleaned (k ∷ ks) [] = prohibited_fields_present (k ∷ ks)
result_of cleaned [] [] = accepted cleaned

unfoldable pub redact_event : Json → RedactionResult
unfolding sort_fields
redact_event (obj fields) =
    let s = sort_fields fields in result_of s.cleaned s.dropped s.unclassifiable
redact_event _ = not_dict

abbrev pub scrub_one : FieldClassification → String → Json → Fields → Fields
scrub_one permitted k v rest = field k (redact_value v) rest
scrub_one restricted k v rest = if is_other_text v then rest else field k (redact_value v) rest
scrub_one prohibited k v rest = rest

unfoldable pub scrub_metadata : Fields → Fields
scrub_metadata end = end
scrub_metadata (field k v fields) = scrub_one (classify_value k v) k v (scrub_metadata fields)
