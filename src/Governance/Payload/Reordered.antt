-- ===== src/Governance/Payload/Reordered.antt =====
-- api/services/paperclip.py: the hash of a payload does not depend on the order in which the keys of its dicts
-- come, as jsonb does not keep that order.
use mathlib.Core.Path.{ap₂}
use new_logistic.Prelude.{
  String, false, ◌≡◌, refl, ap, ◌∙◌, ◌==◌, string_eq, Option, none, some, ◌∷◌,
}
use new_logistic.Prelude.Dict.{Dict}
use new_logistic.Prelude.Json.{Json, Items, Fields, obj, arr, nil, cons, end, field}
use new_logistic.Governance.{Library}
use new_logistic.Governance.Payload.{
  place, encode, encode_items, encode_fields, payload_hash, both, braces, brackets, hashed,
}
use new_logistic.Governance.Payload.Order.{place_comm}

-- The same value, but for the order of keys in its dicts.
mutual
  pub data Reordered : Json → Json → Type 0 where
    same : {v : Json} → Reordered v v
    items : {xs ys : Items} → ReorderedItems xs ys → Reordered (arr xs) (arr ys)
    dict : {f g : Fields} → ReorderedFields f g → Reordered (obj f) (obj g)

  pub data ReorderedItems : Items → Items → Type 0 where
    no_item : ReorderedItems nil nil
    item :
        {v w : Json} {xs ys : Items}
        → Reordered v w
        → ReorderedItems xs ys
        → ReorderedItems (cons v xs) (cons w ys)

  pub data ReorderedFields : Fields → Fields → Type 0 where
    no_field : ReorderedFields end end
    one :
        (k : String) {v w : Json} {f g : Fields}
        → Reordered v w
        → ReorderedFields f g
        → ReorderedFields (field k v f) (field k w g)
    swap :
        (j k : String) (v w : Json) (f : Fields)
        → j == k ≡ false
        → ReorderedFields (field j v (field k w f)) (field k w (field j v f))
    after : {f g h : Fields} → ReorderedFields f g → ReorderedFields g h → ReorderedFields f h

module _ (python : Library) where
  both_comm :
      (j k : String) (s t : Option String) (d : Option (Dict String))
      → j == k ≡ false
      → both python (λ x. place (j, x)) s (both python (λ x. place (k, x)) t d)
        ≡ both python (λ x. place (k, x)) t (both python (λ x. place (j, x)) s d)
  both_comm j k none none d differ = refl
  both_comm j k none (some t) none differ = refl
  both_comm j k none (some t) (some d) differ = refl
  both_comm j k (some s) none none differ = refl
  both_comm j k (some s) none (some d) differ = refl
  both_comm j k (some s) (some t) none differ = refl
  both_comm j k (some s) (some t) (some d) differ = ap some (place_comm (j, s) (k, t) d differ)

  mutual
    unfolding encode

    encode-Reordered : {v w : Json} → Reordered v w → encode python v ≡ encode python w
    encode-Reordered same = refl
    encode-Reordered (items r) = ap (brackets python) (encode_items-Reordered r)
    encode-Reordered (dict r) = ap (braces python) (encode_fields-Reordered r)

    encode_items-Reordered :
        {xs ys : Items} → ReorderedItems xs ys → encode_items python xs ≡ encode_items python ys
    encode_items-Reordered no_item = refl
    encode_items-Reordered (item r rs) =
        ap₂ (both python ◌∷◌) (encode-Reordered r) (encode_items-Reordered rs)

    encode_fields-Reordered :
        {f g : Fields} → ReorderedFields f g → encode_fields python f ≡ encode_fields python g
    encode_fields-Reordered no_field = refl
    encode_fields-Reordered (one k r rs) =
        ap₂ (both python (λ t. place (k, t))) (encode-Reordered r) (encode_fields-Reordered rs)
    encode_fields-Reordered (swap j k v w f differ) =
        both_comm j k (encode python v) (encode python w) (encode_fields python f) differ
    encode_fields-Reordered (after r r') = encode_fields-Reordered r ∙ encode_fields-Reordered r'

  -- Payloads that differ in the order of the keys of their dicts, at any depth, have the same hash.
  pub payload_hash-Reordered :
      (f g : Fields) → ReorderedFields f g → payload_hash python f ≡ payload_hash python g
  unfolding payload_hash
  payload_hash-Reordered f g r = ap (hashed python) (encode-Reordered (dict r))
