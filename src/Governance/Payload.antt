-- ===== src/Governance/Payload.antt =====
-- api/services/paperclip.py: `_payload_hash`, the digest of a payload in the text that PostgreSQL's jsonb
-- has, whose keys are sorted by the length and then by the bytes of their UTF-8. A lone surrogate, on which the
-- code raises UnicodeEncodeError, is left out.
mod Order
pub mod Reordered
use Prim.Native.String.{len}
use new_logistic.Prelude.{
  ℕ, String, concat, Bool, true, false, ◌&&◌, ◌||◌, Option, none, some, List, [], ◌∷◌, ◌==◌, nat_eq,
  ltb, suc, if◌then◌else◌, map,
}
use new_logistic.Prelude.Text.{codes}
use new_logistic.Prelude.Dict.{Dict}
use new_logistic.Prelude.Json.{
  Json, Items, Fields, null, bool, int, minus, float, str, arr, obj, nil, cons, end, field,
}
use new_logistic.Governance.{Library}
use new_logistic.Governance.Repository.{Outcome, done, refused, denied}

-- The order of texts by their characters, which is that of their bytes.
unfoldable pub precedes : List ℕ → List ℕ → Bool
precedes [] t = true
precedes (c ∷ s) [] = false
precedes (c ∷ s) (d ∷ t) = ltb c d || (c == d && precedes s t)

-- `(len(key.encode("utf-8")), key.encode("utf-8"))`
unfoldable pub key_leb : String → String → Bool
unfolding precedes
key_leb j k = ltb (len j) (len k) || (len j == len k && precedes (codes j) (codes k))

-- One more entry of a dict whose keys are in order.
unfoldable pub place : String × String → Dict String → Dict String
unfolding key_leb
place e [] = e ∷ []
place e (f ∷ d) = if key_leb e.0 f.0 then e ∷ f ∷ d else f ∷ place e d

abbrev join : List String → String
join [] = ""
join (s ∷ []) = s
join (s ∷ t ∷ ts) = concat s (concat ", " (join (t ∷ ts)))

module _ (python : Library) where
  abbrev pub entry : String × String → String
  entry e = concat (python.quote e.0) (concat ": " e.1)

  abbrev pub braces : Option (Dict String) → Option String
  braces none = none
  braces (some d) = some (concat "{" (concat (join (map entry d)) "}"))

  abbrev brackets : Option (List String) → Option String
  brackets none = none
  brackets (some ts) = some (concat "[" (concat (join ts) "]"))

  abbrev both {ℓ} : {A B C : Type ℓ} → (A → B → C) → Option A → Option B → Option C
  both f none o = none
  both f (some a) none = none
  both f (some a) (some b) = some (f a b)

  -- `encode`, where `none` is `PAYLOAD_INVALID`; the entries of a dict are encoded and then sorted.
  unfoldable mutual
    pub encode : Json → Option String
    encode null = some "null"
    encode (bool b) = some (if b then "true" else "false")
    encode (int n) = some (python.show n)
    encode (minus n) = some (concat "-" (python.show (suc n)))
    encode (float t) = python.decimal t
    encode (str s) = some (python.quote s)
    encode (arr xs) = brackets (encode_items xs)
    encode (obj fields) = braces (encode_fields fields)

    encode_items : Items → Option (List String)
    encode_items nil = some []
    encode_items (cons x xs) = both ◌∷◌ (encode x) (encode_items xs)

    encode_fields : Fields → Option (Dict String)
    encode_fields end = some []
    encode_fields (field k v fields) = both (λ t. place (k, t)) (encode v) (encode_fields fields)

  abbrev hashed : Option String → Outcome String
  hashed none = refused (denied "PAYLOAD_INVALID")
  hashed (some t) = done (python.sha256 t)

  unfoldable pub payload_hash : Fields → Outcome String
  unfolding encode
  payload_hash payload = hashed (encode (obj payload))
